-- ===== src/Bridge/Handles/Numbers.antt =====
-- Which handles are given out.
use clienthub.Prelude.{
  ℕ, zero, suc, ◌+◌, ◌^◌, ◌<◌, ◌≡◌, refl, none, some, List, [], ◌∷◌, lookup, int_eq, nat_eq, ℤ, pos,
  arith, Option-cases, inl, inr,
}
use clienthub.Bridge.Handles.{HandleRegistry, next_int, put, remove, clear}

pub data Call {ℓ} (A : Type ℓ) : Type ℓ where
  puts : A → Call A
  removes : ℤ → Call A
  clears : Call A

-- n, n + 1, and so on, as many as are asked for.
abbrev pub ascending : ℕ → ℕ → List ℤ
ascending n zero = []
ascending n (suc k) = pos n ∷ ascending (suc n) k

module _ {ℓ} {A : Type ℓ} where
  -- The registry after the calls, and the handles that they gave.
  unfoldable pub run : List (Call A) → HandleRegistry A → HandleRegistry A × List ℤ
  run [] r = (r, [])
  run (puts obj ∷ cs) r = let (r', id) = put obj r in let (t, ids) = run cs r' in (t, id ∷ ids)
  run (removes id ∷ cs) r = run cs (remove id r)
  run (clears ∷ cs) r = run cs (clear r)

  abbrev pub count : List (Call A) → ℕ
  count [] = 0
  count (puts obj ∷ cs) = suc (count cs)
  count (removes id ∷ cs) = count cs
  count (clears ∷ cs) = count cs

  -- However objects are put and removed, the handles are given out in ascending order: none is given
  -- twice, as long as fewer than 2^63 are.
  pub handles-run :
      (cs : List (Call A)) (r : HandleRegistry A) (n : ℕ)
      → r.next_id ≡ pos n
      → n + count cs < 2 ^ 63
      → (run cs r).1 ≡ ascending n (count cs)
  unfolding run put remove clear
  handles-run [] r n e h = refl
  handles-run (removes id ∷ cs) r n e h = handles-run cs (remove id r) n e h
  handles-run (clears ∷ cs) r n e h = handles-run cs (clear r) n e h
  handles-run (puts obj ∷ cs) r n e h =
      let next : next_int r.next_id ≡ pos (suc n) = rw e (ground arith) in
      let rest = handles-run cs (put obj r).0 (suc n) next (omega arith) in rw (rest, e) refl

  -- Every handle in use is below the next one.
  pub record IsIssued (r : HandleRegistry A) : Type ℓ where
    pub next : ℕ
    pub is_next : r.next_id ≡ pos next
    pub below :
        (id : ℤ) (obj : A) → lookup id r.objects ≡ some obj → (k : ℕ) × (id ≡ pos k) × (k < next)

  pub put_fresh :
      (obj : A) (r : HandleRegistry A) → IsIssued r → lookup (put obj r).1 r.objects ≡ none
  unfolding put
  put_fresh obj r i = elim (Option-cases (lookup r.next_id r.objects)) [
    | inl e ↦ e
    | inr (old, e) ↦
        let (k, same, less) = i.below r.next_id old e in absurd (ground (arith, i.is_next))
  ]
