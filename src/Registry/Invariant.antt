-- ===== src/Registry/Invariant.antt =====
-- The registry's invariant, over every sequence of method calls.
use clienthub.Prelude.{
  ℕ, suc, ◌+◌, ◌-◌, ◌≤◌, ◌<◌, ◌%◌, ◌^◌, ◌≡◌, refl, String, none, some, List, [], ◌∷◌, ==_iff,
  string_eq, nat_eq, arith, lookup, lookup-insert, lookup-delete, lookup-delete_if, Distinct,
  insert-Distinct, delete-Distinct, delete_if-Distinct, Option-cases, inl, inr,
}
use clienthub.Proto.Payload.{ServiceInfo}
use clienthub.Registry.{
  Registry, ClientSession, TunnelSession, new_registry, involves, add_client, remove_client,
  allocate_session, new_tunnel, get_tunnel, remove_tunnel, update_services,
}

-- The calls that change the registry.
pub data Call : Type 0 where
  adds : ClientSession → Call
  removes : String → Call
  allocates : String → String → String → String → ℕ → Call
  drops : ℕ → Call
  updates : String → List ServiceInfo → Call

unfoldable pub step : Registry → Call → Registry
step r (adds s) = add_client s r
step r (removes name) = (remove_client name r).0
step r (allocates source target service protocol now) =
    (allocate_session source target service protocol now r).1
step r (drops id) = remove_tunnel id r
step r (updates name services) = update_services name services r

unfoldable pub run : Registry → List Call → Registry
run r [] = r
run r (c ∷ cs) = run (step r c) cs

-- Both lists are maps; a session is filed under its own name and a tunnel under its own number.
pub record IsFiled (r : Registry) : Type 0 where
  pub clients_distinct : Distinct r.clients
  pub tunnels_distinct : Distinct r.tunnels
  pub named : (name : String) (s : ClientSession) → lookup name r.clients ≡ some s → s.name ≡ name
  pub numbered : (id : ℕ) (t : TunnelSession) → lookup id r.tunnels ≡ some t → t.id ≡ id

-- The counter stands at the number of tunnels that were opened, and no live tunnel is above it.
pub record IsCounted (n : ℕ) (r : Registry) : Type 0 where
  pub counted : r.next_sess ≡ n
  pub below : (id : ℕ) (t : TunnelSession) → lookup id r.tunnels ≡ some t → (0 < id) × (id ≤ n)

-- How many tunnels are opened, on top of `n`.
abbrev pub opened : Call → ℕ → ℕ
opened (allocates source target service protocol now) n = suc n
opened _ n = n

abbrev pub opened_by : List Call → ℕ → ℕ
opened_by [] n = n
opened_by (c ∷ cs) n = opened_by cs (opened c n)

pub new_registry-IsFiled : IsFiled new_registry
new_registry-IsFiled = record {
  clients_distinct = tt;
  tunnels_distinct = tt;
  named = λ name s e. cc;
  numbered = λ id t e. cc;
}

pub step-IsFiled : (r : Registry) (c : Call) → IsFiled r → IsFiled (step r c)
unfolding step add_client remove_client allocate_session remove_tunnel update_services
step-IsFiled r (adds s) h = record {
  clients_distinct = insert-Distinct s.name s r.clients h.clients_distinct;
  tunnels_distinct = h.tunnels_distinct;
  named = λ name t e.
      ground (arith, ==_iff s.name name, lookup-insert s.name name s r.clients, h.named name t);
  numbered = h.numbered;
}
step-IsFiled r (removes name) h = record {
  clients_distinct = delete-Distinct name r.clients h.clients_distinct;
  tunnels_distinct = delete_if-Distinct (involves name) r.tunnels h.tunnels_distinct;
  named = λ other t e. ground (arith, lookup-delete name other r.clients, h.named other t);
  numbered = λ id t e.
      ground
        (arith, lookup-delete_if (involves name) id r.tunnels h.tunnels_distinct, h.numbered id t);
}
step-IsFiled r (allocates source target service protocol now) h =
    let id' = (r.next_sess + 1) % 2 ^ 32 in
    record {
      clients_distinct = h.clients_distinct;
      tunnels_distinct = insert-Distinct _ _ r.tunnels h.tunnels_distinct;
      named = h.named;
      numbered = λ id t e. ground (
        arith,
        ==_iff id' id,
        lookup-insert id' id (new_tunnel id' source target service protocol now) r.tunnels,
        h.numbered id t,
      );
    }
step-IsFiled r (drops id) h = record {
  clients_distinct = h.clients_distinct;
  tunnels_distinct = delete-Distinct id r.tunnels h.tunnels_distinct;
  named = h.named;
  numbered = λ j t e. ground (arith, lookup-delete id j r.tunnels, h.numbered j t);
}
step-IsFiled r (updates name services) h = elim (Option-cases (lookup name r.clients)) [
  | inl e ↦ rw (e, update_services) h
  | inr (c, e) ↦
      rw (e, update_services)
        (record {
          clients_distinct = insert-Distinct name _ r.clients h.clients_distinct;
          tunnels_distinct = h.tunnels_distinct;
          named = λ other t g. ground (
            arith,
            ==_iff name other,
            lookup-insert name other (record c { services = services }) r.clients,
            h.named other t,
            h.named name c e,
          );
          numbered = h.numbered;
        })
]

run_from-IsFiled : (r : Registry) (cs : List Call) → IsFiled r → IsFiled (run r cs)
unfolding run
run_from-IsFiled r [] h = h
run_from-IsFiled r (c ∷ cs) h = run_from-IsFiled (step r c) cs (step-IsFiled r c h)

-- Whatever calls are made of a new registry, both maps stay maps, every session is filed under its
-- name and every tunnel under its number.
pub run-IsFiled : (cs : List Call) → IsFiled (run new_registry cs)
run-IsFiled cs = run_from-IsFiled new_registry cs new_registry-IsFiled

allocate-IsCounted :
    (source target service protocol : String) (now n : ℕ) (r : Registry)
    → suc n < 2 ^ 32
    → IsCounted n r
    → IsCounted (suc n) (allocate_session source target service protocol now r).1
unfolding allocate_session
allocate-IsCounted source target service protocol now n r bound h = record {
  counted = omega (arith, h.counted);
  below = λ id t e. ground (
    arith,
    h.counted,
    ==_iff id' id,
    lookup-insert id' id (new_tunnel id' source target service protocol now) r.tunnels,
    h.below id t,
  );
}
  where
    id' : ℕ
    id' = (r.next_sess + 1) % 2 ^ 32

step-IsCounted :
    (n : ℕ) (r : Registry) (c : Call)
    → opened c n < 2 ^ 32
    → IsFiled r
    → IsCounted n r
    → IsCounted (opened c n) (step r c)
unfolding step add_client remove_client remove_tunnel update_services
step-IsCounted n r (allocates source target service protocol now) bound f h =
    allocate-IsCounted source target service protocol now n r bound h
step-IsCounted n r (adds s) bound f h = record { counted = h.counted; below = h.below }
step-IsCounted n r (removes name) bound f h = record {
  counted = h.counted;
  below = λ id t e.
      ground
        (arith, lookup-delete_if (involves name) id r.tunnels f.tunnels_distinct, h.below id t);
}
step-IsCounted n r (drops id) bound f h = record {
  counted = h.counted;
  below = λ j t e. ground (arith, lookup-delete id j r.tunnels, h.below j t);
}
step-IsCounted n r (updates name services) bound f h = elim (Option-cases (lookup name r.clients)) [
  | inl e ↦ rw (e, update_services) h
  | inr (c, e) ↦ rw (e, update_services) (record { counted = h.counted; below = h.below })
]

le-opened : (c : Call) (n : ℕ) → n ≤ opened c n
le-opened (allocates source target service protocol now) n = omega arith
le-opened _ n = omega arith

le-opened_by : (cs : List Call) (n : ℕ) → n ≤ opened_by cs n
le-opened_by [] n = omega arith
le-opened_by (c ∷ cs) n = omega (arith, le-opened c n, le-opened_by cs (opened c n))

run-IsCounted :
    (n : ℕ) (r : Registry) (cs : List Call)
    → opened_by cs n < 2 ^ 32
    → IsFiled r
    → IsCounted n r
    → IsCounted (opened_by cs n) (run r cs)
unfolding run
run-IsCounted n r [] bound f h = h
run-IsCounted n r (c ∷ cs) bound f h =
    run-IsCounted (opened c n) (step r c) cs bound (step-IsFiled r c f)
      (step-IsCounted n r c (omega (arith, le-opened_by cs (opened c n))) f h)

-- While fewer than 2^32 tunnels were ever opened, AllocateSession hands out the next number, which is
-- not 0 and belongs to no live tunnel: no tunnel is overwritten.
pub allocate_session_fresh :
    (cs : List Call) (source target service protocol : String) (now : ℕ)
    → opened_by cs 0 + 1 < 2 ^ 32
    → let r = run new_registry cs in
      ((allocate_session source target service protocol now r).0 ≡ opened_by cs 0 + 1)
      × (get_tunnel (opened_by cs 0 + 1) r ≡ none)
unfolding allocate_session get_tunnel
allocate_session_fresh cs source target service protocol now bound =
    let r = run new_registry cs in
    let n = opened_by cs 0 in
    let h =
      run-IsCounted 0 new_registry cs (omega arith) new_registry-IsFiled
        (record { counted = refl; below = λ id t e. cc }) in
    elim (Option-cases (lookup (n + 1) r.tunnels)) [
      | inl e ↦ (omega (arith, h.counted), e)
      | inr (t, e) ↦ absurd (omega (arith, h.below (n + 1) t e))
    ]

-- The counter has 32 bits: the tunnel that is opened when it is full gets number 0.
pub allocate_session_wraps :
    (source target service protocol : String) (now : ℕ) (r : Registry)
    → r.next_sess ≡ 2 ^ 32 - 1
    → (allocate_session source target service protocol now r).0 ≡ 0
unfolding allocate_session
allocate_session_wraps source target service protocol now r h = omega arith
