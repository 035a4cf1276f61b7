-- ===== src/Client/Forwards/Changes.antt =====
-- What adding and removing a forward does to the table of the active ones.
use clienthub.Prelude.{
  ◌≡◌, String, none, some, lookup, ◌==◌, ==_iff, ==_refl, nat_eq, string_eq, if◌then◌else◌, arith,
  lookup-insert, lookup-delete,
}
use clienthub.Client.State.{Client, Library}
use clienthub.Client.Forwards.{Listen, new_forward, add_forward, remove_forward}

-- The table after an addition, on every branch: an address that is taken, or that cannot be listened
-- on, leaves it as it is; otherwise the new forward stands under its address, and no other changes.
pub lookup-add_forward :
    (lib : Library) (listen : Listen) (addr client service protocol other : String) (c : Client)
    → lookup other (add_forward lib listen addr client service protocol c).0.forwards
      ≡ (elim (lookup addr c.forwards) [
        | some existing ↦ lookup other c.forwards
        | none ↦ elim (listen addr) [
          | some e ↦ lookup other c.forwards
          | none ↦
              if addr == other
              then some (new_forward addr client service protocol)
              else lookup other c.forwards
        ]
      ])
unfolding add_forward
lookup-add_forward lib listen addr client service protocol other c =
    ground (arith, lookup-insert addr other (new_forward addr client service protocol) c.forwards)

-- The table after a removal: the address is free, and no other forward changes.
pub lookup-remove_forward :
    (lib : Library) (addr other : String) (c : Client)
    → lookup other (remove_forward lib addr c).0.forwards
      ≡ (if addr == other then none else lookup other c.forwards)
unfolding remove_forward
lookup-remove_forward lib addr other c =
    ground (arith, ==_iff addr other, lookup-delete addr other c.forwards)

-- A forward that was removed can be added again with another target, if its address can be listened
-- on.
pub add_forward-remove_forward :
    (lib : Library) (listen : Listen) (addr client service protocol : String) (c : Client)
    → listen addr ≡ none
    → let c' = (remove_forward lib addr c).0 in
      let (c2, e) = add_forward lib listen addr client service protocol c' in
      (e ≡ none) × (lookup addr c2.forwards ≡ some (new_forward addr client service protocol))
unfolding add_forward remove_forward
add_forward-remove_forward lib listen addr client service protocol c el = ground (
  arith,
  ==_refl addr,
  lookup-delete addr addr c.forwards,
  lookup-insert addr addr (new_forward addr client service protocol)
      (remove_forward lib addr c).0.forwards,
)
