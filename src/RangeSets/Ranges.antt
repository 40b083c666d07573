-- ===== src/RangeSets/Ranges.antt =====
-- `Range<usize>`, lists of ranges, and the operations of `RangeSet<usize>` with their laws.
use ethdam_rope.Prelude.{
  ℕ, zero, suc, ◌+◌, ◌-◌, ◌≤◌, ◌<◌, ◌≡◌, Bool, true, false, not, ◌&&◌, ◌||◌, Option, none, some,
  List, [], ◌∷◌, ◌++◌, ◌↔◌, leb, ltb, length, is_nil, slice, ◌>>=◌,
}

pub record Range : Type 0 where
  pub start : ℕ
  pub end : ℕ

abbrev pub in_range : Range → ℕ → Bool
in_range r i = leb r.start i && ltb i r.end

abbrev pub in_ranges : List Range → ℕ → Bool
in_ranges [] i = false
in_ranges (r ∷ rs) i = in_range r i || in_ranges rs i

-- Every range is not empty, starts at `lo` or above, and ends before the next one starts.
abbrev pub IsOrdered : ℕ → List Range → Type 0
IsOrdered lo [] = Unit {0}
IsOrdered lo (r ∷ rs) = (lo ≤ r.start) × (r.start < r.end) × IsOrdered r.end rs

abbrev pub total : List Range → ℕ
total [] = 0
total (r ∷ rs) = (r.end - r.start) + total rs

abbrev pub first_start : List Range → Option ℕ
first_start [] = none
first_start (r ∷ rs) = some r.start

abbrev pub last_end : List Range → Option ℕ
last_end [] = none
last_end (r ∷ []) = some r.end
last_end (r ∷ s ∷ rs) = last_end (s ∷ rs)

abbrev pub run_from : ℕ → ℕ → List ℕ
run_from a zero = []
run_from a (suc n) = a ∷ run_from (a + 1) n

abbrev pub indices : List Range → List ℕ
indices [] = []
indices (r ∷ rs) = run_from r.start (r.end - r.start) ++ indices rs

-- The concatenation of `data[range]` over the ranges.
unfoldable pub gather : List ℕ → List Range → Option (List ℕ)
gather bytes [] = some []
gather bytes (r ∷ rs) = do
  part ← slice bytes r.start r.end
  rest ← gather bytes rs
  some (part ++ rest)

pub record RangeSet (R : Type 0) : Type 0 where
  pub empty : R
  pub from_range : Range → R
  pub union : R → R → R
  pub difference : R → R → R
  pub is_subset : R → R → Bool
  pub iter : R → List ℕ
  pub iter_ranges : R → List Range
  pub min : R → Option ℕ
  pub end : R → Option ℕ
  pub len : R → ℕ
  pub is_empty : R → Bool
  pub len_ranges : R → ℕ
  pub index_ranges : List ℕ → R → Option (List ℕ)
  pub ordered : (a : R) → IsOrdered 0 (iter_ranges a)
  pub empty_ranges : iter_ranges empty ≡ []
  pub mem-from_range : (r : Range) (i : ℕ) → in_ranges (iter_ranges (from_range r)) i ≡ in_range r i
  pub mem-union :
      (a b : R) (i : ℕ)
      → in_ranges (iter_ranges (union a b)) i
        ≡ (in_ranges (iter_ranges a) i || in_ranges (iter_ranges b) i)
  pub mem-difference :
      (a b : R) (i : ℕ)
      → in_ranges (iter_ranges (difference a b)) i
        ≡ (in_ranges (iter_ranges a) i && not (in_ranges (iter_ranges b) i))
  pub is_subset_iff :
      (a b : R)
      → (is_subset a b ≡ true)
        ↔ ((i : ℕ) → in_ranges (iter_ranges a) i ≡ true → in_ranges (iter_ranges b) i ≡ true)
  pub iter_lem : (a : R) → iter a ≡ indices (iter_ranges a)
  pub min_lem : (a : R) → min a ≡ first_start (iter_ranges a)
  pub end_lem : (a : R) → end a ≡ last_end (iter_ranges a)
  pub len_lem : (a : R) → len a ≡ total (iter_ranges a)
  pub is_empty_lem : (a : R) → is_empty a ≡ is_nil (iter_ranges a)
  pub len_ranges_lem : (a : R) → len_ranges a ≡ length (iter_ranges a)
  pub index_ranges_lem :
      (bytes : List ℕ) (a : R) → index_ranges bytes a ≡ gather bytes (iter_ranges a)
