-- ===== src/RangeSets/Bitmap.antt =====
-- A set of indices as a bit for each index: an instance of the interface, in which each index is
-- a range of its own.
use ethdam_rope.Prelude.{
  ℕ, zero, suc, ◌+◌, ◌-◌, ◌≡◌, refl, Bool, true, false, not, ◌&&◌, ◌||◌, List, [], ◌∷◌, ◌↔◌, leb,
  ltb, length, is_nil, arith,
}
use ethdam_rope.RangeSets.Ranges.{
  Range, in_range, in_ranges, IsOrdered, total, first_start, last_end, gather, RangeSet, indices,
}
use ethdam_rope.RangeSets.Bounds.{IsOrdered-weaken, in_ranges_below}

abbrev pub Bitmap : Type 0
Bitmap = List Bool

unfoldable pub ranges_from : ℕ → Bitmap → List Range
ranges_from k [] = []
ranges_from k (false ∷ bits) = ranges_from (k + 1) bits
ranges_from k (true ∷ bits) = record { start = k; end = k + 1 } ∷ ranges_from (k + 1) bits

bit_at : Bitmap → ℕ → Bool
bit_at [] i = false
bit_at (b ∷ bits) zero = b
bit_at (b ∷ bits) (suc i) = bit_at bits i

unfoldable pub union_bits : Bitmap → Bitmap → Bitmap
union_bits [] bs = bs
union_bits (a ∷ as') [] = a ∷ as'
union_bits (a ∷ as') (b ∷ bs) = (a || b) ∷ union_bits as' bs

unfoldable pub difference_bits : Bitmap → Bitmap → Bitmap
difference_bits [] bs = []
difference_bits (a ∷ as') [] = a ∷ as'
difference_bits (a ∷ as') (b ∷ bs) = (a && not b) ∷ difference_bits as' bs

-- `m` zeros, then `n` ones.
unfoldable pub run_bits : ℕ → ℕ → Bitmap
run_bits zero zero = []
run_bits zero (suc n) = true ∷ run_bits zero n
run_bits (suc m) n = false ∷ run_bits m n

unfoldable pub subset_bits : Bitmap → Bitmap → Bool
subset_bits [] bs = true
subset_bits (a ∷ as') [] = not a && subset_bits as' []
subset_bits (a ∷ as') (b ∷ bs) = (not a || b) && subset_bits as' bs

pub IsOrdered-ranges_from : (k : ℕ) (bits : Bitmap) → IsOrdered k (ranges_from k bits)
unfolding ranges_from
IsOrdered-ranges_from k [] = tt
IsOrdered-ranges_from k (false ∷ bits) =
    IsOrdered-weaken (ranges_from (k + 1) bits) (omega arith) (IsOrdered-ranges_from (k + 1) bits)
IsOrdered-ranges_from k (true ∷ bits) =
    (omega arith, omega arith, IsOrdered-ranges_from (k + 1) bits)

mem-ranges_from :
    (k : ℕ) (bits : Bitmap) (i j : ℕ) → k + i ≡ j → in_ranges (ranges_from k bits) j ≡ bit_at bits i
unfolding ranges_from bit_at
mem-ranges_from k [] i j e = refl
mem-ranges_from k (false ∷ bits) zero j e =
    in_ranges_below (k + 1) (ranges_from (k + 1) bits) j (IsOrdered-ranges_from (k + 1) bits)
      (omega arith)
mem-ranges_from k (true ∷ bits) zero j e = ground arith
mem-ranges_from k (false ∷ bits) (suc i) j e = mem-ranges_from (k + 1) bits i j (omega arith)
mem-ranges_from k (true ∷ bits) (suc i) j e =
    ground (arith, mem-ranges_from (k + 1) bits i j (omega arith))

bit_at-union :
    (as' bs : Bitmap) (i : ℕ) → bit_at (union_bits as' bs) i ≡ (bit_at as' i || bit_at bs i)
unfolding bit_at union_bits
bit_at-union [] bs i = refl
bit_at-union (a ∷ as') [] zero = ground arith
bit_at-union (a ∷ as') [] (suc i) = ground arith
bit_at-union (a ∷ as') (b ∷ bs) zero = refl
bit_at-union (a ∷ as') (b ∷ bs) (suc i) = bit_at-union as' bs i

bit_at-difference :
    (as' bs : Bitmap) (i : ℕ)
    → bit_at (difference_bits as' bs) i ≡ (bit_at as' i && not (bit_at bs i))
unfolding bit_at difference_bits
bit_at-difference [] bs i = refl
bit_at-difference (a ∷ as') [] zero = ground arith
bit_at-difference (a ∷ as') [] (suc i) = ground arith
bit_at-difference (a ∷ as') (b ∷ bs) zero = refl
bit_at-difference (a ∷ as') (b ∷ bs) (suc i) = bit_at-difference as' bs i

bit_at-run : (m n i : ℕ) → bit_at (run_bits m n) i ≡ (leb m i && ltb i (m + n))
unfolding bit_at run_bits
bit_at-run zero zero i = ground arith
bit_at-run zero (suc n) zero = ground arith
bit_at-run zero (suc n) (suc i) = ground (arith, bit_at-run zero n i)
bit_at-run (suc m) n zero = ground arith
bit_at-run (suc m) n (suc i) = ground (arith, bit_at-run m n i)

subset_bits_iff :
    (as' bs : Bitmap)
    → (subset_bits as' bs ≡ true) ↔ ((i : ℕ) → bit_at as' i ≡ true → bit_at bs i ≡ true)
unfolding bit_at subset_bits
subset_bits_iff [] bs = (λ _ i m. cc, λ _. refl)
subset_bits_iff (a ∷ as') [] =
    let ih = subset_bits_iff as' [] in
    (
      λ h. elim [ zero ↦ λ m. ground arith | suc i ↦ λ m. ground (arith, ih.0 (ground arith) i) ],
      λ f. ground (arith, f 0, ih.1 (λ i m. f (suc i) m)),
    )
subset_bits_iff (a ∷ as') (b ∷ bs) =
    let ih = subset_bits_iff as' bs in
    (
      λ h. elim [ zero ↦ λ m. ground arith | suc i ↦ λ m. ih.0 (ground arith) i m ],
      λ f. ground (arith, f 0, ih.1 (λ i m. f (suc i) m)),
    )

mem-bits : (bits : Bitmap) (i : ℕ) → in_ranges (ranges_from 0 bits) i ≡ bit_at bits i
mem-bits bits i = mem-ranges_from 0 bits i i (omega arith)

pub bitmap-from_range :
    (r : Range) (i : ℕ)
    → in_ranges (ranges_from 0 (run_bits r.start (r.end - r.start))) i ≡ in_range r i
bitmap-from_range r i =
    ground (
      arith,
      mem-bits (run_bits r.start (r.end - r.start)) i,
      bit_at-run r.start (r.end - r.start) i,
    )

pub bitmap-union :
    (a b : Bitmap) (i : ℕ)
    → in_ranges (ranges_from 0 (union_bits a b)) i
      ≡ (in_ranges (ranges_from 0 a) i || in_ranges (ranges_from 0 b) i)
bitmap-union a b i = simp (mem-bits, bit_at-union)

pub bitmap-difference :
    (a b : Bitmap) (i : ℕ)
    → in_ranges (ranges_from 0 (difference_bits a b)) i
      ≡ (in_ranges (ranges_from 0 a) i && not (in_ranges (ranges_from 0 b) i))
bitmap-difference a b i = simp (mem-bits, bit_at-difference)

pub bitmap-is_subset :
    (a b : Bitmap)
    → (subset_bits a b ≡ true)
      ↔ ((i : ℕ) → in_ranges (ranges_from 0 a) i ≡ true → in_ranges (ranges_from 0 b) i ≡ true)
bitmap-is_subset a b = simp mem-bits (subset_bits_iff a b)

instance unfoldable pub bitmap : RangeSet Bitmap
unfolding ranges_from union_bits difference_bits run_bits subset_bits
bitmap = record {
  empty = [];
  from_range = λ r. run_bits r.start (r.end - r.start);
  union = union_bits;
  difference = difference_bits;
  is_subset = subset_bits;
  iter = λ a. indices (ranges_from 0 a);
  iter_ranges = ranges_from 0;
  min = λ a. first_start (ranges_from 0 a);
  end = λ a. last_end (ranges_from 0 a);
  len = λ a. total (ranges_from 0 a);
  is_empty = λ a. is_nil (ranges_from 0 a);
  len_ranges = λ a. length (ranges_from 0 a);
  index_ranges = λ bytes a. gather bytes (ranges_from 0 a);
  ordered = IsOrdered-ranges_from 0;
  empty_ranges = refl;
  mem-from_range = bitmap-from_range;
  mem-union = bitmap-union;
  mem-difference = bitmap-difference;
  is_subset_iff = bitmap-is_subset;
  iter_lem = λ a. refl;
  min_lem = λ a. refl;
  end_lem = λ a. refl;
  len_lem = λ a. refl;
  is_empty_lem = λ a. refl;
  len_ranges_lem = λ a. refl;
  index_ranges_lem = λ bytes a. refl;
}
