-- ===== src/Bridge/Handles.antt =====
-- pkg/cbridge/handles.go: numbers for objects.
pub mod Numbers
use clienthub.Prelude.{
  ℕ, zero, suc, ◌+◌, ◌-◌, ◌^◌, ◌≤◌, ◌<◌, ◌≡◌, ◌≢◌, refl, ap, Bool, true, false, Option, none, some,
  List, [], ◌∷◌, Map, lookup, insert, delete, delete_if, ◌==◌, nat_eq, int_eq, if◌then◌else◌, ℤ,
  pos, negsuc, arith,
}

-- n++ on an int: the largest is followed by the smallest.
abbrev pub next_int : ℤ → ℤ
next_int (pos n) = if n + 1 == 2 ^ 63 then negsuc (2 ^ 63 - 1) else pos (n + 1)
next_int (negsuc zero) = pos 0
next_int (negsuc (suc n)) = negsuc n

pub record HandleRegistry {ℓ} (A : Type ℓ) : Type ℓ where
  pub objects : Map ℤ A
  pub next_id : ℤ

module _ {ℓ} {A : Type ℓ} where
  abbrev pub new_handle_registry : HandleRegistry A
  new_handle_registry = record { objects = []; next_id = pos 1 }

  unfoldable pub put : A → HandleRegistry A → HandleRegistry A × ℤ
  put obj r =
      (record { objects = insert r.next_id obj r.objects; next_id = next_int r.next_id }, r.next_id)

  unfoldable pub get : ℤ → HandleRegistry A → Option A
  get id r = lookup id r.objects

  unfoldable pub remove : ℤ → HandleRegistry A → HandleRegistry A
  remove id r = record r { objects = delete id r.objects }

  -- Every entry is deleted.
  unfoldable pub clear : HandleRegistry A → HandleRegistry A
  clear r = record r { objects = delete_if (λ obj. true) r.objects }
