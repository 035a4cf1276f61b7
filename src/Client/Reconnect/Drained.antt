-- ===== src/Client/Reconnect/Drained.antt =====
-- The waiting time, and the state that a lost connection leaves.
use clienthub.Prelude.{
  ℕ, zero, suc, ◌^◌, ◌≡◌, min, Option, none, some, [], ◌∷◌, Map, lookup, insert, nat_eq, arith,
  ==_iff, lookup-insert, refl, Bool-cases, ◌==◌, ==_refl, inl, inr,
}
use clienthub.Client.State.{Client}
use clienthub.Client.Tunnels.{offer}
use clienthub.Client.Reconnect.{backoff_after, max_backoff, drain, drain_pending}

-- The waiting time doubles from two seconds up to the bound, where it stays.
pub backoff_after-doubles : (n : ℕ) → backoff_after n ≡ min max_backoff (2 ^ suc n)
unfolding backoff_after
backoff_after-doubles zero = refl
backoff_after-doubles (suc n) = ground (arith, backoff_after-doubles n)

-- A channel that holds a number keeps it, and one that is empty gets at most a zero.
drain_pending-keeps :
    (pending : Map ℕ ℕ) (channels : Map ℕ (Option ℕ)) (ch v : ℕ)
    → lookup ch channels ≡ some (some v)
    → lookup ch (drain_pending pending channels) ≡ some (some v)
unfolding drain_pending
drain_pending-keeps [] channels ch v h = h
drain_pending-keeps ((id, c) ∷ pending) channels ch v h =
    drain_pending-keeps pending (insert c (offer 0 (lookup c channels)) channels) ch v
      (ground (arith, ==_iff c ch, lookup-insert c ch (offer 0 (lookup c channels)) channels))

-- Where the channel holds `held` before, this is what it holds afterwards.
abbrev pub woken_with : Option (Option ℕ) → ℕ
woken_with (some (some held)) = held
woken_with _ = 0

-- A channel that is offered a zero first ends up with the same number.
offer-woken_with : (o : Option (Option ℕ)) → offer 0 o ≡ some (woken_with o)
offer-woken_with none = refl
offer-woken_with (some none) = refl
offer-woken_with (some (some held)) = refl

drain_pending-wakes :
    (pending : Map ℕ ℕ) (channels : Map ℕ (Option ℕ)) (id ch : ℕ)
    → lookup id pending ≡ some ch
    → lookup ch (drain_pending pending channels) ≡ some (some (woken_with (lookup ch channels)))
unfolding drain_pending
drain_pending-wakes [] channels id ch h = cc
drain_pending-wakes ((i, c) ∷ pending) channels id ch h =
    let channels' = insert c (offer 0 (lookup c channels)) channels in
    let offered = lookup-insert c ch (offer 0 (lookup c channels)) channels in
    elim (Bool-cases (i == id)) [
      | inl same ↦
          drain_pending-keeps pending channels' ch (woken_with (lookup ch channels))
            (ground (arith, ==_iff c ch, ==_refl ch, offered))
      | inr other ↦ ground (
        arith,
        ==_iff c ch,
        offered,
        drain_pending-wakes pending channels' id ch,
        offer-woken_with (lookup ch channels),
      )
    ]

-- After a lost connection no request is pending and no tunnel is left; the channel of every request
-- that was pending holds a number: the one that it held before, or else a zero.
pub drain-wakes :
    (c : Client) (id ch : ℕ)
    → lookup id c.pending ≡ some ch
    → ((drain c).pending ≡ [])
      × ((drain c).tunnels ≡ [])
      × (lookup ch (drain c).channels ≡ some (some (woken_with (lookup ch c.channels))))
unfolding drain
drain-wakes c id ch h = (refl, refl, drain_pending-wakes c.pending c.channels id ch h)
