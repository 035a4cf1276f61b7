-- ===== src/Store/Rules.antt =====
-- The lists of rules of one client: each rule is found by its key, the name of a service or the
-- address of a listener.
use clienthub.Prelude.{
  ◌≡◌, refl, String, not, Option, none, some, List, [], ◌∷◌, ◌==◌, ==_iff, string_eq, if◌then◌else◌,
  arith, keep,
}

module _ {ℓ} {A : Type ℓ} (key : A → String) where
  -- for i, r := range rules { if r.Key == x.Key { rules[i] = x; return } }; append(rules, x)
  abbrev pub upsert : A → List A → List A
  upsert x [] = x ∷ []
  upsert x (y ∷ ys) = let rest = upsert x ys in if key y == key x then x ∷ ys else y ∷ rest

  -- The loop that keeps the rules of other keys.
  abbrev pub remove_by : String → List A → List A
  remove_by k = keep (λ y. not (key y == k))

  abbrev pub find_by : String → List A → Option A
  find_by k [] = none
  find_by k (y ∷ ys) = if key y == k then some y else find_by k ys

  -- No two rules have one key.
  abbrev pub IsUnique : List A → Type ℓ
  IsUnique [] = Unit
  IsUnique (y ∷ ys) = (find_by (key y) ys ≡ none) × IsUnique ys

  pub find_by-upsert :
      (k : String) (x : A) (ys : List A)
      → find_by k (upsert x ys) ≡ (if key x == k then some x else find_by k ys)
  find_by-upsert k x [] = refl
  find_by-upsert k x (y ∷ ys) =
      ground
        (arith, ==_iff (key y) (key x), ==_iff (key y) k, ==_iff (key x) k, find_by-upsert k x ys)

  pub find_by-remove_by :
      (k j : String) (ys : List A)
      → find_by k (remove_by j ys) ≡ (if j == k then none else find_by k ys)
  find_by-remove_by k j [] = ground arith
  find_by-remove_by k j (y ∷ ys) =
      ground (arith, ==_iff (key y) j, ==_iff (key y) k, ==_iff j k, find_by-remove_by k j ys)

  pub upsert-IsUnique : (x : A) (ys : List A) → IsUnique ys → IsUnique (upsert x ys)
  upsert-IsUnique x [] h = (refl, tt)
  upsert-IsUnique x (y ∷ ys) h = ground (
    arith,
    ==_iff (key y) (key x),
    ==_iff (key x) (key y),
    find_by-upsert (key y) x ys,
    upsert-IsUnique x ys h.1,
  )

  pub remove_by-IsUnique : (j : String) (ys : List A) → IsUnique ys → IsUnique (remove_by j ys)
  remove_by-IsUnique j [] h = tt
  remove_by-IsUnique j (y ∷ ys) h =
      ground (arith, find_by-remove_by (key y) j ys, remove_by-IsUnique j ys h.1)
