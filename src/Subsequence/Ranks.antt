-- ===== src/Subsequence/Ranks.antt =====
-- The order in which packed bytes stand: the n-th index of a list of ranges, and back.
use ethdam_rope.Prelude.{
  ℕ, zero, suc, ◌+◌, ◌-◌, ◌≤◌, ◌<◌, ◌≡◌, refl, ◌∙◌, true, ltb, if◌then◌else◌, Option, some, List,
  [], ◌∷◌, ◌++◌, length, get_elem?, arith, slice_lem, length-append,
}
use ethdam_rope.RangeSets.{Range, in_range, in_ranges, IsOrdered, total, gather}
use ethdam_rope.RangeSets.Bounds.{Fits}

-- How many indices stand before `i`.
abbrev pub rank : List Range → ℕ → ℕ
rank [] i = 0
rank (r ∷ rs) i = if in_range r i then i - r.start else (r.end - r.start) + rank rs i

-- The index that stands at `j`.
abbrev pub unrank : List Range → ℕ → ℕ
unrank [] j = 0
unrank (r ∷ rs) j =
    if ltb j (r.end - r.start) then r.start + j else unrank rs (j - (r.end - r.start))

pub rank-unrank :
    (lo : ℕ) (rs : List Range) (j : ℕ)
    → IsOrdered lo rs
    → j < total rs
    → (in_ranges rs (unrank rs j) ≡ true) × (rank rs (unrank rs j) ≡ j) × (lo ≤ unrank rs j)
rank-unrank lo [] j o h = absurd (omega arith)
rank-unrank lo (r ∷ rs) j o h = ground (arith, rank-unrank r.end rs (j - (r.end - r.start)) o.2)

pub unrank-rank :
    (lo : ℕ) (rs : List Range) (i : ℕ)
    → IsOrdered lo rs
    → in_ranges rs i ≡ true
    → (unrank rs (rank rs i) ≡ i) × (rank rs i < total rs)
unrank-rank lo [] i o m = cc
unrank-rank lo (r ∷ rs) i o m = ground (arith, unrank-rank r.end rs i o.2)

get_elem?-append :
    (xs ys : List ℕ) (i : ℕ)
    → get_elem? (xs ++ ys) i
      ≡ (if ltb i (length xs) then get_elem? xs i else get_elem? ys (i - length xs))
get_elem?-append [] ys i = ground arith
get_elem?-append (x ∷ xs) ys zero = ground arith
get_elem?-append (x ∷ xs) ys (suc i) = ground (arith, get_elem?-append xs ys i)

-- `bytes` holds, one after the other, what `src` has at the indices of the ranges.
pub record Packs (src : ℕ → Option ℕ) (rs : List Range) (part : List ℕ) : Type 0 where
  pub size : length part ≡ total rs
  pub elem : (j : ℕ) → j < total rs → get_elem? part j ≡ src (unrank rs j)

-- Ranges that fit are gathered.
pub gather-Packs :
    (bytes : List ℕ) (rs : List Range)
    → Fits (length bytes) rs
    → (part : List ℕ) × (gather bytes rs ≡ some part) × Packs (get_elem? bytes) rs part
unfolding gather
gather-Packs bytes [] f = ([], refl, record { size = refl; elem = λ j h. absurd (omega arith) })
gather-Packs bytes (r ∷ rs) f =
    let (head, cut, size, elem) = slice_lem bytes r.start r.end f.0 f.1 in
    let (rest, more, packs) = gather-Packs bytes rs f.2 in
    (
      head ++ rest,
      rw (cut, more),
      record {
        size = omega (arith, length-append head rest, packs.size);
        elem = λ j h.
            get_elem?-append head rest j
            ∙ ground (arith, elem j (r.start + j) refl, packs.elem (j - (r.end - r.start)));
      },
    )
