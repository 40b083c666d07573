-- ===== src/Prelude/Copies.antt =====
-- What a slice holds, and what a copy or a fill leaves at each position.
use Prim.Native.Nat.{ℕ, ◌+◌, ◌-◌, ◌≤◌, ◌<◌}
use mathlib.Core.Path.{◌≡◌, refl, ap, ◌∙◌}
use mathlib.Core.Logic.{◌⊎◌, inl, inr}
use mathlib.Core.List.{List}
use mathlib.Core.Option.{Option, none, some}
use mathlib.Core.Bool.{true, false, ◌&&◌}
use native.Mathlib.Omega.{arith}
use ethdam_rope.Prelude.Tests.{ltb, leb, if◌then◌else◌}
use ethdam_rope.Prelude.Lists.{
  length, get_elem?, take, drop, replicate, length-take, length-drop, length-replicate,
  get_elem?-take, get_elem?-drop, get_elem?-replicate, list_ext,
}
use ethdam_rope.Prelude.Slices.{
  write_at, slice, copy_from_slice, fill, length-write_at, get_elem?-write_at,
}

-- `out` is `dest` with the positions from `a` to `b` taken from `src`.
pub record Splice {A : Type 0} (a b : ℕ) (src : ℕ → Option A) (dest out : List A) : Type 0 where
  pub size : length out ≡ length dest
  pub elem : (i : ℕ) → get_elem? out i ≡ (if leb a i && ltb i b then src i else get_elem? dest i)

module _ {A : Type 0} where
  pub slice_lem :
      (xs : List A) (a b : ℕ)
      → a ≤ b
      → b ≤ length xs
      → (part : List A) × (slice xs a b ≡ some part)
        × (length part ≡ b - a)
        × ((i j : ℕ) → a + i ≡ j → i < b - a → get_elem? part i ≡ get_elem? xs j)
  unfolding slice
  slice_lem xs a b h k = (
    take (b - a) (drop a xs),
    ground arith,
    length-take (b - a) (drop a xs) (omega (arith, length-drop a xs)),
    λ i j e l. get_elem?-take (b - a) (drop a xs) i ∙ ground (arith, get_elem?-drop a xs i j e),
  )

  pub slice-none : (xs : List A) (a b : ℕ) → length xs < b → slice xs a b ≡ none
  unfolding slice
  slice-none xs a b h = ground arith

  write_at-Splice :
      (dest : List A) (a b : ℕ) (part : List A) (src : ℕ → Option A)
      → a ≤ b
      → b ≤ length dest
      → length part ≡ b - a
      → ((i j : ℕ) → a + i ≡ j → i < b - a → get_elem? part i ≡ src j)
      → Splice a b src dest (write_at dest a part)
  write_at-Splice dest a b part src h k e f = record {
    size = length-write_at dest a part;
    elem = λ i. ground (
      arith,
      (get_elem?-write_at dest a part i (i - a) (omega arith)).0,
      (get_elem?-write_at dest a part i (i - a) (omega arith)).1,
      f (i - a) i,
    );
  }

  pub copy_from_slice-Splice :
      (dest : List A) (a b : ℕ) (part : List A) (src : ℕ → Option A)
      → a ≤ b
      → b ≤ length dest
      → length part ≡ b - a
      → ((i j : ℕ) → a + i ≡ j → i < b - a → get_elem? part i ≡ src j)
      → (out : List A) × (copy_from_slice dest a b part ≡ some out) × Splice a b src dest out
  unfolding copy_from_slice
  copy_from_slice-Splice dest a b part src h k e f =
      (write_at dest a part, ground arith, write_at-Splice dest a b part src h k e f)

  pub fill-Splice :
      (dest : List A) (a b : ℕ) (v : A)
      → a ≤ b
      → b ≤ length dest
      → (out : List A) × (fill dest a b v ≡ some out) × Splice a b (λ _. some v) dest out
  unfolding fill
  fill-Splice dest a b v h k = (
    write_at dest a (replicate (b - a) v),
    ground arith,
    write_at-Splice dest a b (replicate (b - a) v) (λ _. some v) h k (length-replicate (b - a) v)
        (λ i j e l. ground (arith, get_elem?-replicate (b - a) v i)),
  )

  -- A slice that a copy leaves alone, and one that it fills.
  pub Splice-slice_before :
      {a b : ℕ} {src : ℕ → Option A} {dest out : List A}
      → Splice a b src dest out
      → (c d : ℕ) → d ≤ a
      → slice out c d ≡ slice dest c d
  unfolding slice
  Splice-slice_before {a} {b} {src} {dest} {out} s c d h = rw s.size (elim (test-cases) [
    | inl off ↦ rw off
    | inr on ↦ rw on (
        ap some (
          list_ext _ _ (λ i. ground (
            arith,
            get_elem?-take (d - c) (drop c out) i,
            get_elem?-take (d - c) (drop c dest) i,
            get_elem?-drop c out i (c + i) refl,
            get_elem?-drop c dest i (c + i) refl,
            s.elem (c + i),
          ))))
  ])
    where
      test-cases :
          ((leb c d && leb d (length dest)) ≡ false) ⊎ ((leb c d && leb d (length dest)) ≡ true)
      test-cases = ground arith

  -- A slice that is taken, and a copy that returns, had their range in bounds.
  pub slice_bounds :
      (xs : List A) (a b : ℕ) {part : List A} → slice xs a b ≡ some part → (a ≤ b) × (b ≤ length xs)
  unfolding slice
  slice_bounds xs a b e = ground arith

  pub copy_from_slice_bounds :
      (dest : List A) (a b : ℕ) (part : List A) {out : List A}
      → copy_from_slice dest a b part ≡ some out
      → (a ≤ b) × (b ≤ length dest) × (length out ≡ length dest)
  unfolding copy_from_slice
  copy_from_slice_bounds dest a b part {out} e = ground (arith, length-write_at dest a part)
