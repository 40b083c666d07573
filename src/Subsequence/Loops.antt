-- ===== src/Subsequence/Loops.antt =====
-- What the loops over ranges leave at each position, and that they return exactly if the ranges
-- fit in both vectors.
use ethdam_rope.Prelude.{
  ℕ, ◌+◌, ◌-◌, ◌≤◌, ◌<◌, ◌≡◌, refl, ◌∙◌, ap, true, ltb, if◌then◌else◌, Option, some, List, [], ◌∷◌,
  length, get_elem?, arith, slice, slice_lem, copy_from_slice, Splice, copy_from_slice-Splice,
  fill-Splice, list_ext, sym, subst, >>=-eq-some, slice_bounds, copy_from_slice_bounds,
  get_elem?_beyond, Bool-cases, inl, inr,
}
use ethdam_rope.RangeSets.{Range, in_ranges, IsOrdered, total}
use ethdam_rope.RangeSets.Bounds.{Fits, in_ranges_below}
use ethdam_rope.Subsequence.{copy_ranges, unpack_ranges, fill_ranges}
use ethdam_rope.Subsequence.Ranks.{rank, unrank, rank-unrank, unrank-rank, Packs}

-- `out` is `dest` with what `src` has written over the indices of the ranges.
pub record Overlay (rs : List Range) (src : ℕ → Option ℕ) (dest out : List ℕ) : Type 0 where
  pub size : length out ≡ length dest
  pub elem : (i : ℕ) → get_elem? out i ≡ (if in_ranges rs i then src i else get_elem? dest i)

pub Overlay-unique :
    {rs : List Range} {src : ℕ → Option ℕ} {dest out out' : List ℕ}
    → Overlay rs src dest out
    → Overlay rs src dest out'
    → out ≡ out'
Overlay-unique p q = list_ext _ _ (λ i. p.elem i ∙ sym (q.elem i))

-- Only what `src` has at the indices matters.
pub Overlay-of_eq :
    {rs : List Range} {src src' : ℕ → Option ℕ} {dest out : List ℕ}
    → ((i : ℕ) → in_ranges rs i ≡ true → src i ≡ src' i)
    → Overlay rs src dest out
    → Overlay rs src' dest out
Overlay-of_eq h o = record { size = o.size; elem = λ i. o.elem i ∙ ground (arith, h i) }

Overlay-nil : (src : ℕ → Option ℕ) (dest : List ℕ) → Overlay [] src dest dest
Overlay-nil src dest = record { size = refl; elem = λ i. refl }

Overlay-cons :
    {r : Range} {rs : List Range} {src : ℕ → Option ℕ} {dest mid out : List ℕ}
    → Splice r.start r.end src dest mid
    → Overlay rs src mid out
    → Overlay (r ∷ rs) src dest out
Overlay-cons s o = record { size = o.size ∙ s.size; elem = λ i. ground (arith, o.elem i, s.elem i) }

pub copy_ranges-Overlay :
    (rs : List Range) (src dest : List ℕ)
    → Fits (length src) rs
    → Fits (length dest) rs
    → (out : List ℕ) × (copy_ranges rs src dest ≡ some out) × Overlay rs (get_elem? src) dest out
unfolding copy_ranges
copy_ranges-Overlay [] src dest f g = (dest, refl, Overlay-nil (get_elem? src) dest)
copy_ranges-Overlay (r ∷ rs) src dest f g =
    let (part, cut, size, elem) = slice_lem src r.start r.end f.0 f.1 in
    let (mid, copied, splice) =
      copy_from_slice-Splice dest r.start r.end part (get_elem? src) g.0 g.1 size elem in
    let (out, rest, over) = copy_ranges-Overlay rs src mid f.2 (rw splice.size g.2) in
    (out, rw (cut, copied) rest, Overlay-cons splice over)

pub fill_ranges-Overlay :
    (rs : List Range) (value : ℕ) (dest : List ℕ)
    → Fits (length dest) rs
    → (out : List ℕ) × (fill_ranges rs value dest ≡ some out)
      × Overlay rs (λ _. some value) dest out
unfolding fill_ranges
fill_ranges-Overlay [] value dest g = (dest, refl, Overlay-nil (λ _. some value) dest)
fill_ranges-Overlay (r ∷ rs) value dest g =
    let (mid, filled, splice) = fill-Splice dest r.start r.end value g.0 g.1 in
    let (out, rest, over) = fill_ranges-Overlay rs value mid (rw splice.size g.2) in
    (out, rw filled rest, Overlay-cons splice over)

-- The packed bytes from `offset` on go to the indices in order.
pub unpack_ranges-Overlay :
    (lo : ℕ) (rs : List Range) (offset : ℕ) (packed dest : List ℕ)
    → IsOrdered lo rs
    → offset + total rs ≤ length packed
    → Fits (length dest) rs
    → (out : List ℕ) × (unpack_ranges rs offset packed dest ≡ some out)
      × Overlay rs (λ i. get_elem? packed (offset + rank rs i)) dest out
unfolding unpack_ranges
unpack_ranges-Overlay lo [] offset packed dest o h g =
    (dest, refl, Overlay-nil (λ i. get_elem? packed (offset + 0)) dest)
unpack_ranges-Overlay lo (r ∷ rs) offset packed dest o h g =
    let n = r.end - r.start in
    let src = λ (i : ℕ). get_elem? packed (offset + rank (r ∷ rs) i) in
    let (part, cut, size, elem) =
      slice_lem packed offset (offset + n) (omega arith) (omega arith) in
    let (mid, copied, splice) =
      copy_from_slice-Splice dest r.start r.end part src g.0 g.1 (omega (arith, size)) (λ i j e l.
        elem i (offset + i) refl (omega arith) ∙ ap (get_elem? packed) (ground arith)) in
    let (out, rest, over) =
      unpack_ranges-Overlay r.end rs (offset + n) packed mid o.2 (omega arith)
        (rw splice.size g.2) in
    (
      out,
      rw (cut, copied) rest,
      Overlay-cons {mid = mid} {out = out} splice (
          Overlay-of_eq {dest = mid} {out = out}
            (λ i m. ap (get_elem? packed) (ground (arith, in_ranges_below r.end rs i o.2))) over),
    )

-- A loop that returns had ranges that fit.
pub copy_ranges-Fits :
    (rs : List Range) (src dest : List ℕ) {out : List ℕ}
    → copy_ranges rs src dest ≡ some out
    → Fits (length src) rs
unfolding copy_ranges
copy_ranges-Fits [] src dest e = tt
copy_ranges-Fits (r ∷ rs) src dest e =
    let (part, cut, e') = >>=-eq-some (slice src r.start r.end) _ e in
    let (mid, copied, e'') = >>=-eq-some (copy_from_slice dest r.start r.end part) _ e' in
    let (h, k) = slice_bounds src r.start r.end cut in (h, k, copy_ranges-Fits rs src mid e'')

pub unpack_ranges-Fits :
    (rs : List Range) (offset : ℕ) (packed dest : List ℕ) {out : List ℕ}
    → unpack_ranges rs offset packed dest ≡ some out
    → Fits (length dest) rs
unfolding unpack_ranges
unpack_ranges-Fits [] offset packed dest e = tt
unpack_ranges-Fits (r ∷ rs) offset packed dest e =
    let n = r.end - r.start in
    let (part, cut, e') = >>=-eq-some (slice packed offset (offset + n)) _ e in
    let (mid, copied, e'') = >>=-eq-some (copy_from_slice dest r.start r.end part) _ e' in
    let (h, k, size) = copy_from_slice_bounds dest r.start r.end part copied in
    (h, k, subst (λ m. Fits m rs) size (unpack_ranges-Fits rs (offset + n) packed mid e''))

-- Bytes that were gathered go back to where they were.
pub Overlay-Packs :
    (lo : ℕ) (rs : List Range) (src : ℕ → Option ℕ) {part dest out : List ℕ}
    → IsOrdered lo rs
    → Packs src rs part
    → Overlay rs (λ i. get_elem? part (0 + rank rs i)) dest out
    → Overlay rs src dest out
Overlay-Packs lo rs src {part} o p over =
    Overlay-of_eq
      (λ i m.
        let (back, below) = unrank-rank lo rs i o m in
        ap (get_elem? part) (omega arith) ∙ p.elem (rank rs i) below ∙ ap src back)
      over

-- Bytes that were laid out are gathered as they were.
pub Packs-Overlay :
    (lo : ℕ) (rs : List Range) {bytes part dest out : List ℕ}
    → IsOrdered lo rs
    → total rs ≡ length bytes
    → Overlay rs (λ i. get_elem? bytes (0 + rank rs i)) dest out
    → Packs (get_elem? out) rs part
    → part ≡ bytes
Packs-Overlay lo rs {bytes} {part} {dest} {out} o size over p = list_ext part bytes (λ j. at j)
  where
    at : (j : ℕ) → get_elem? part j ≡ get_elem? bytes j
    at j = elim (Bool-cases (ltb j (total rs))) [
      | inl below ↦
          let j< : j < total rs = ground arith in
          let (mem, back, _) = rank-unrank lo rs j o j< in
          p.elem j j<
          ∙ over.elem (unrank rs j)
          ∙ rw mem (ap (get_elem? bytes) (omega (arith, back)))
      | inr beyond ↦
          let j≥ : total rs ≤ j = ground arith in
          get_elem?_beyond part j (omega (arith, p.size))
          ∙ sym (get_elem?_beyond bytes j (omega arith))
    ]
