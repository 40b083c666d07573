-- ===== src/Prelude/Sorting.antt =====
-- `sort_by_key` of the standard library: a stable sort.
use Prim.Native.Nat.{ℕ, ◌<◌}
use mathlib.Core.Path.{◌≡◌, refl}
use mathlib.Core.List.{List, [], ◌∷◌}
use native.Mathlib.Omega.{arith}
use ethdam_rope.Prelude.Tests.{leb, if◌then◌else◌}

module _ {ℓ} {A : Type ℓ} where
  unfoldable pub insert_by_key : (A → ℕ) → A → List A → List A
  insert_by_key key x [] = x ∷ []
  insert_by_key key x (y ∷ ys) =
      if leb (key x) (key y) then x ∷ y ∷ ys else y ∷ insert_by_key key x ys

  unfoldable pub sort_by_key : (A → ℕ) → List A → List A
  unfolding insert_by_key
  sort_by_key key [] = []
  sort_by_key key (x ∷ xs) = insert_by_key key x (sort_by_key key xs)

  -- Every key is above `lo`, and they increase.
  abbrev pub Increasing : (A → ℕ) → List A → Type 0
  Increasing key [] = Unit {0}
  Increasing key (x ∷ []) = Unit {0}
  Increasing key (x ∷ y ∷ ys) = (key x < key y) × Increasing key (y ∷ ys)

  -- A list whose keys increase stays as it is.
  pub sort_by_key-Increasing :
      (key : A → ℕ) (xs : List A) → Increasing key xs → sort_by_key key xs ≡ xs
  unfolding sort_by_key insert_by_key
  sort_by_key-Increasing key [] o = refl
  sort_by_key-Increasing key (x ∷ []) o = refl
  sort_by_key-Increasing key (x ∷ y ∷ ys) o =
      rw (sort_by_key-Increasing key (y ∷ ys) o.1) (ground arith)
