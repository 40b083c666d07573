-- ===== src/Prelude/Equality.antt =====
-- Equality that can be decided, as `PartialEq` of the source, and the maps and sets of the standard
-- library that go by it.
use mathlib.Core.Path.{◌≡◌, refl}
use mathlib.Core.Logic.{◌≢◌, ◌⊎◌}
use mathlib.Core.Bool.{Bool, true, false, ◌||◌}
use mathlib.Core.List.{List, [], ◌∷◌}
use mathlib.Core.Option.{Option, none, some}
use native.Mathlib.Omega.{arith}
use ethdam_rope.Prelude.Tests.{if◌then◌else◌}

pub record Eq {ℓ} (A : Type ℓ) : Type ℓ where
  pub dec : Discrete A

module _ {ℓ} {A : Type ℓ} ⦃e : Eq A⦄ where
  unfoldable pub is_equal : A → A → Bool
  is_equal a b = elim (e.dec a b) [ yes _ ↦ true | no _ ↦ false ]

  pub is_equal-cases :
      (a b : A) → ((a ≡ b) × (is_equal a b ≡ true)) ⊎ ((a ≢ b) × (is_equal a b ≡ false))
  unfolding is_equal
  is_equal-cases a b = ground arith

  pub is_equal_refl : (a : A) → is_equal a a ≡ true
  unfolding is_equal
  is_equal_refl a = ground arith

  pub is_equal-same : {a b : A} → a ≡ b → is_equal a b ≡ true
  unfolding is_equal
  is_equal-same h = ground arith

  pub is_equal-true : (a b : A) → is_equal a b ≡ true → a ≡ b
  unfolding is_equal
  is_equal-true a b h = ground arith

  -- `contains` of a slice.
  abbrev pub includes : List A → A → Bool
  includes [] a = false
  includes (x ∷ xs) a = is_equal x a || includes xs a

-- `HashMap<K, V>`: the entries of a map, one for each key, in any order.
abbrev pub HashMap {ℓ κ} : Type ℓ → Type κ → Type (ℓ ⊔ κ)
HashMap K V = List (K × V)

module _ {ℓ κ} {K : Type ℓ} {V : Type κ} ⦃e : Eq K⦄ where
  unfoldable pub put_entry : K → V → HashMap K V → HashMap K V
  unfolding is_equal
  put_entry k v [] = (k, v) ∷ []
  put_entry k v ((j, w) ∷ m) = if is_equal k j then (k, v) ∷ m else (j, w) ∷ put_entry k v m

  unfoldable pub get_entry : K → HashMap K V → Option V
  unfolding is_equal
  get_entry k [] = none
  get_entry k ((j, w) ∷ m) = if is_equal k j then some w else get_entry k m

  pub get_entry-put_entry :
      (j k : K) (v : V) (m : HashMap K V)
      → get_entry j (put_entry k v m) ≡ (if is_equal j k then some v else get_entry j m)
  unfolding put_entry get_entry
  get_entry-put_entry j k v [] = refl
  get_entry-put_entry j k v ((i, w) ∷ m) = ground (
    arith,
    is_equal-cases k i,
    is_equal-cases j i,
    is_equal-cases j k,
    get_entry-put_entry j k v m,
  )
