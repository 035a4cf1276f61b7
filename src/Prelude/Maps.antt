-- ===== src/Prelude/Maps.antt =====
-- The maps of Go, as association lists. A loop over a map goes in the order of the list: a theorem
-- that holds for every list holds for every order that Go may choose.
use mathlib.Core.Path.{◌≡◌, refl}
use mathlib.Core.Bool.{Bool}
use mathlib.Core.Logic.{◌≢◌, ◌⊎◌, inl, inr}
use mathlib.Core.Option.{Option, none, some}
use mathlib.Core.List.{List, [], ◌∷◌}
use native.Mathlib.Omega.{arith}
use clienthub.Prelude.Tests.{Comparable, ◌==◌, ==_iff, ==_refl, if◌then◌else◌, Bool-cases}
use clienthub.Prelude.Lists.{All}

abbrev pub Map {ℓ κ} : Type ℓ → Type κ → Type (ℓ ⊔ κ)
Map K V = List (K × V)

-- The entry that survives a loop that deletes, if the test does not hold of it.
abbrev pub unless {ℓ} : {V : Type ℓ} → (V → Bool) → Option V → Option V
unless p none = none
unless p (some v) = if p v then none else some v

module _ {ℓ κ} {K : Type ℓ} {V : Type κ} ⦃c : Comparable K⦄ where
  -- v, ok := m[k]
  abbrev pub lookup : K → Map K V → Option V
  lookup k [] = none
  lookup k ((j, v) ∷ m) = if j == k then some v else lookup k m

  -- m[k] = v
  abbrev pub insert : K → V → Map K V → Map K V
  insert k v [] = (k, v) ∷ []
  insert k v ((j, w) ∷ m) = let rest = insert k v m in if j == k then (k, v) ∷ m else (j, w) ∷ rest

  -- delete(m, k)
  abbrev pub delete : K → Map K V → Map K V
  delete k [] = []
  delete k ((j, v) ∷ m) = let rest = delete k m in if j == k then rest else (j, v) ∷ rest

  -- for k, v := range m { if the test holds of them { delete(m, k) } }
  abbrev pub delete_if : (V → Bool) → Map K V → Map K V
  delete_if p [] = []
  delete_if p ((j, v) ∷ m) = let rest = delete_if p m in if p v then rest else (j, v) ∷ rest

  pub lookup-insert :
      (k j : K) (v : V) (m : Map K V)
      → lookup j (insert k v m) ≡ (if k == j then some v else lookup j m)
  lookup-insert k j v [] = refl
  lookup-insert k j v ((i, w) ∷ m) =
      ground (arith, ==_iff k j, ==_iff i k, ==_iff i j, lookup-insert k j v m)

  -- An entry that is read is the one that was written, or an older one under another key.
  pub insert-cases :
      (k j : K) (v : V) (m : Map K V) {w : V}
      → lookup j (insert k v m) ≡ some w
      → ((k ≡ j) × (v ≡ w)) ⊎ ((k ≢ j) × (lookup j m ≡ some w))
  insert-cases k j v m e = elim (Bool-cases (k == j)) [
    | inl t ↦ inl ((==_iff k j).0 t, ground (arith, lookup-insert k j v m))
    | inr t ↦ inr (λ same. ground (arith, ==_iff k j), ground (arith, lookup-insert k j v m))
  ]

  pub lookup-delete :
      (k j : K) (m : Map K V) → lookup j (delete k m) ≡ (if k == j then none else lookup j m)
  lookup-delete k j [] = ground arith
  lookup-delete k j ((i, w) ∷ m) =
      ground (arith, ==_iff k j, ==_iff i k, ==_iff i j, lookup-delete k j m)

  -- No key stands twice in the list: it stands for a map.
  abbrev pub Distinct : Map K V → Type (ℓ ⊔ κ)
  Distinct [] = Unit
  Distinct ((k, v) ∷ m) = (lookup k m ≡ none) × Distinct m

  pub insert-Distinct : (k : K) (v : V) (m : Map K V) → Distinct m → Distinct (insert k v m)
  insert-Distinct k v [] h = (refl, tt)
  insert-Distinct k v ((j, w) ∷ m) h =
      ground (arith, ==_iff k j, ==_iff j k, lookup-insert k j v m, insert-Distinct k v m h.1)

  pub delete-Distinct : (k : K) (m : Map K V) → Distinct m → Distinct (delete k m)
  delete-Distinct k [] h = tt
  delete-Distinct k ((j, w) ∷ m) h =
      ground (arith, ==_iff j k, ==_iff k j, lookup-delete k j m, delete-Distinct k m h.1)

  lookup-delete_if-none :
      (p : V → Bool) (k : K) (m : Map K V) → lookup k m ≡ none → lookup k (delete_if p m) ≡ none
  lookup-delete_if-none p k [] h = refl
  lookup-delete_if-none p k ((j, w) ∷ m) h = ground (arith, lookup-delete_if-none p k m)

  pub delete_if-Distinct : (p : V → Bool) (m : Map K V) → Distinct m → Distinct (delete_if p m)
  delete_if-Distinct p [] h = tt
  delete_if-Distinct p ((j, w) ∷ m) h =
      ground (arith, lookup-delete_if-none p j m h.0, delete_if-Distinct p m h.1)

  pub lookup-delete_if :
      (p : V → Bool) (k : K) (m : Map K V)
      → Distinct m
      → lookup k (delete_if p m) ≡ unless p (lookup k m)
  lookup-delete_if p k [] h = refl
  lookup-delete_if p k ((j, w) ∷ m) h =
      ground (arith, ==_iff j k, lookup-delete_if p k m h.1, lookup-delete_if-none p j m h.0)

  -- What holds of every entry that a lookup finds holds of every entry of the list.
  pub All-of_lookup {μ} :
      (P : K → V → Type μ) (m : Map K V)
      → Distinct m
      → ((k : K) (v : V) → lookup k m ≡ some v → P k v)
      → All (λ e. P e.0 e.1) m
  All-of_lookup P [] d h = tt
  All-of_lookup P ((j, w) ∷ m) d h = (
    h j w (ground (arith, ==_refl j)),
    All-of_lookup P m d.1 (λ k v g. h k v (ground (arith, ==_iff j k))),
  )

pub ruleset map_laws = (lookup-insert, lookup-delete)
