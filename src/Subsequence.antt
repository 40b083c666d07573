-- ===== src/Subsequence.antt =====
-- tlsn/crates/core/src/transcript.rs: `Direction`, `Idx`, `Subsequence`, and the loops over ranges
-- of that file. A byte is a number, a vector a list, and a `RangeSet<usize>` a value of any type
-- with the operations of the interface. A function that may panic returns `MayPanic`.
pub mod Ranks
pub mod Loops
use ethdam_rope.Prelude.{
  ℕ, zero, suc, ◌+◌, ◌-◌, ◌%◌, ◌^◌, ◌≡◌, Bool, true, false, not, ◌&&◌, ◌||◌, leb, ltb, ◌==◌,
  if◌then◌else◌, Option, none, some, List, [], ◌∷◌, length, replicate, get_elem?, slice,
  copy_from_slice, fill, ◌>>=◌, ◌>>◌, Result, ok, err, MayPanic, expect, or_default,
}
use ethdam_rope.RangeSets.{Range, RangeSet}

pub data Direction : Type 0 where
  sent : Direction
  received : Direction

pub record Idx (R : Type 0) : Type 0 where
  pub ranges : R

pub record Subsequence (R : Type 0) : Type 0 where
  pub idx : Idx R
  pub bytes : List ℕ

pub data InvalidSubsequence : Type 0 where
  length_mismatch : InvalidSubsequence

-- for range in ranges { dest[range].copy_from_slice(&src[range]) }
unfoldable pub copy_ranges : List Range → List ℕ → List ℕ → MayPanic (List ℕ)
copy_ranges [] src dest = some dest
copy_ranges (r ∷ rs) src dest = do
  part ← slice src r.start r.end
  dest' ← copy_from_slice dest r.start r.end part
  copy_ranges rs src dest'

-- for range in ranges { dest[range].copy_from_slice(&packed[offset..offset + len]); offset += len }
unfoldable pub unpack_ranges : List Range → ℕ → List ℕ → List ℕ → MayPanic (List ℕ)
unpack_ranges [] offset packed dest = some dest
unpack_ranges (r ∷ rs) offset packed dest = do
  part ← slice packed offset (offset + (r.end - r.start))
  dest' ← copy_from_slice dest r.start r.end part
  unpack_ranges rs (offset + (r.end - r.start)) packed dest'

-- for range in ranges { dest[range].fill(value) }
unfoldable pub fill_ranges : List Range → ℕ → List ℕ → MayPanic (List ℕ)
fill_ranges [] value dest = some dest
fill_ranges (r ∷ rs) value dest = do
  dest' ← fill dest r.start r.end value
  fill_ranges rs value dest'

-- authed.iter().map(|i| bytes[i])
unfoldable pub read_all : List ℕ → List ℕ → MayPanic (List ℕ)
read_all bytes [] = some []
read_all bytes (i ∷ is) = do b ← get_elem? bytes i; rest ← read_all bytes is; some (b ∷ rest)

-- The methods of `Idx`.
module _ {R : Type 0} ⦃rs : RangeSet R⦄ where
  abbrev pub idx_empty : Idx R
  idx_empty = record { ranges = rs.empty }

  abbrev pub idx_start : Idx R → ℕ
  idx_start idx = or_default (rs.min idx.ranges)

  abbrev pub idx_end : Idx R → ℕ
  idx_end idx = or_default (rs.end idx.ranges)

  abbrev pub idx_len : Idx R → ℕ
  idx_len idx = rs.len idx.ranges

  abbrev pub idx_is_empty : Idx R → Bool
  idx_is_empty idx = rs.is_empty idx.ranges

  abbrev pub idx_union : Idx R → Idx R → Idx R
  idx_union a b = record { ranges = rs.union a.ranges b.ranges }

  abbrev pub idx_difference : Idx R → Idx R → Idx R
  idx_difference a b = record { ranges = rs.difference a.ranges b.ranges }

  abbrev pub idx_is_subset : Idx R → Idx R → Bool
  idx_is_subset a b = rs.is_subset a.ranges b.ranges

  abbrev pub idx_iter_ranges : Idx R → List Range
  idx_iter_ranges idx = rs.iter_ranges idx.ranges

-- The methods of `Subsequence`.
module _ {R : Type 0} ⦃rs : RangeSet R⦄ where
  unfoldable pub new_subsequence : Idx R → List ℕ → Result InvalidSubsequence (Subsequence R)
  new_subsequence idx bytes =
      if not (idx_len idx == length bytes)
      then err length_mismatch
      else ok (record { idx = idx; bytes = bytes })

  unfoldable pub copy_to : Subsequence R → List ℕ → MayPanic (List ℕ)
  unfolding unpack_ranges
  copy_to seq dest = unpack_ranges (idx_iter_ranges seq.idx) 0 seq.bytes dest
