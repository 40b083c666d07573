-- ===== src/Prelude/Slices.antt =====
-- Slices of a vector: `data[a..b]`, `data[a..b].copy_from_slice(part)` and `data[a..b].fill(v)`.
-- `none` is the panic on a range out of bounds or on a part of another length.
use Prim.Native.Nat.{ℕ, zero, suc, ◌+◌, ◌-◌, ◌≤◌, ◌<◌}
use mathlib.Core.Path.{◌≡◌, refl, ap}
use mathlib.Core.Logic.{◌⊎◌}
use mathlib.Core.List.{List, [], ◌∷◌}
use mathlib.Core.Option.{Option, none, some}
use mathlib.Core.Bool.{◌&&◌}
use native.Mathlib.Omega.{arith}
use ethdam_rope.Prelude.Tests.{leb, ◌==◌, if◌then◌else◌}
use ethdam_rope.Prelude.Lists.{length, get_elem?, take, drop, replicate}

module _ {ℓ} {A : Type ℓ} where
  -- Overwrites from position `a` on.
  unfoldable pub write_at : List A → ℕ → List A → List A
  write_at [] a part = []
  write_at (d ∷ dest) (suc a) part = d ∷ write_at dest a part
  write_at (d ∷ dest) zero [] = d ∷ dest
  write_at (d ∷ dest) zero (p ∷ part) = p ∷ write_at dest zero part

  unfoldable pub slice : List A → ℕ → ℕ → Option (List A)
  slice xs a b = if leb a b && leb b (length xs) then some (take (b - a) (drop a xs)) else none

  unfoldable pub copy_from_slice : List A → ℕ → ℕ → List A → Option (List A)
  unfolding write_at
  copy_from_slice dest a b part =
      if leb a b && leb b (length dest) && (b - a == length part)
      then some (write_at dest a part)
      else none

  unfoldable pub fill : List A → ℕ → ℕ → A → Option (List A)
  unfolding write_at
  fill dest a b v =
      if leb a b && leb b (length dest) then some (write_at dest a (replicate (b - a) v)) else none

module _ {ℓ} {A : Type ℓ} where
  pub length-write_at :
      (dest : List A) (a : ℕ) (part : List A) → length (write_at dest a part) ≡ length dest
  unfolding write_at
  length-write_at [] a part = refl
  length-write_at (d ∷ dest) (suc a) part = ap suc (length-write_at dest a part)
  length-write_at (d ∷ dest) zero [] = refl
  length-write_at (d ∷ dest) zero (p ∷ part) = ap suc (length-write_at dest zero part)

  pub get_elem?-write_at :
      (dest : List A) (a : ℕ) (part : List A) (i j : ℕ)
      → a + length part ≤ length dest
      → (a + j ≡ i → j < length part → get_elem? (write_at dest a part) i ≡ get_elem? part j)
        × ((i < a) ⊎ (a + length part ≤ i) → get_elem? (write_at dest a part) i ≡ get_elem? dest i)
  unfolding write_at
  get_elem?-write_at [] a [] i j h = (λ e l. absurd (omega arith), λ _. refl)
  get_elem?-write_at [] a (p ∷ part) i j h = absurd (omega arith)
  get_elem?-write_at (d ∷ dest) (suc a) part zero j h = (λ e l. absurd (omega arith), λ _. refl)
  get_elem?-write_at (d ∷ dest) (suc a) part (suc i) j h =
      let ih = get_elem?-write_at dest a part i j (omega arith) in
      (λ e l. ih.0 (omega arith) l, λ o. ih.1 (omega arith))
  get_elem?-write_at (d ∷ dest) zero [] i j h = (λ e l. absurd (omega arith), λ _. refl)
  get_elem?-write_at (d ∷ dest) zero (p ∷ part) zero zero h =
      (λ e l. refl, λ o. absurd (omega arith))
  get_elem?-write_at (d ∷ dest) zero (p ∷ part) zero (suc j) h =
      (λ e l. absurd (omega arith), λ o. absurd (omega arith))
  get_elem?-write_at (d ∷ dest) zero (p ∷ part) (suc i) zero h =
      let ih = get_elem?-write_at dest zero part i 0 (omega arith) in
      (λ e l. absurd (omega arith), λ o. ih.1 (omega arith))
  get_elem?-write_at (d ∷ dest) zero (p ∷ part) (suc i) (suc j) h =
      let ih = get_elem?-write_at dest zero part i j (omega arith) in
      (λ e l. ih.0 (omega arith) (omega arith), λ o. ih.1 (omega arith))
