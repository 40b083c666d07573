-- ===== src/RangeSets/Bounds.antt =====
-- Ranges in order: where they end, what lies in them, and when they fit in a vector.
use ethdam_rope.Prelude.{or_default, ℕ, ◌-◌, ◌≤◌, ◌<◌, ◌≡◌, refl, true, false, List, [], ◌∷◌, arith}
use ethdam_rope.RangeSets.Ranges.{Range, in_ranges, IsOrdered, last_end}

-- The ranges lie within `n`.
abbrev pub Fits : ℕ → List Range → Type 0
Fits n [] = Unit {0}
Fits n (r ∷ rs) = (r.start ≤ r.end) × (r.end ≤ n) × Fits n rs

pub IsOrdered-weaken :
    {lo lo' : ℕ} (rs : List Range) → lo' ≤ lo → IsOrdered lo rs → IsOrdered lo' rs
IsOrdered-weaken [] h o = tt
IsOrdered-weaken (r ∷ rs) h o = (omega arith, o.1, o.2)

pub last_end_above :
    (lo : ℕ) (r : Range) (rs : List Range)
    → IsOrdered lo (r ∷ rs)
    → r.end ≤ or_default (last_end (r ∷ rs))
last_end_above lo r [] o = omega arith
last_end_above lo r (s ∷ rs) o = omega (arith, last_end_above r.end s rs o.2, o.2.0, o.2.1)

-- Ordered ranges fit in `n` exactly if their end does.
pub Fits-of_end :
    (n lo : ℕ) (rs : List Range) → IsOrdered lo rs → or_default (last_end rs) ≤ n → Fits n rs
Fits-of_end n lo [] o h = tt
Fits-of_end n lo (r ∷ []) o h = (omega arith, omega arith, tt)
Fits-of_end n lo (r ∷ s ∷ rs) o h =
    (omega arith, omega (arith, last_end_above r.end s rs o.2), Fits-of_end n r.end (s ∷ rs) o.2 h)

pub end_of_Fits : (n : ℕ) (rs : List Range) → Fits n rs → or_default (last_end rs) ≤ n
end_of_Fits n [] f = omega arith
end_of_Fits n (r ∷ []) f = omega arith
end_of_Fits n (r ∷ s ∷ rs) f = end_of_Fits n (s ∷ rs) f.2

pub in_ranges_below :
    (lo : ℕ) (rs : List Range) (i : ℕ) → IsOrdered lo rs → i < lo → in_ranges rs i ≡ false
in_ranges_below lo [] i o h = refl
in_ranges_below lo (r ∷ rs) i o h = ground (arith, in_ranges_below r.end rs i o.2)

pub in_ranges-lt : (n : ℕ) (rs : List Range) (i : ℕ) → Fits n rs → in_ranges rs i ≡ true → i < n
in_ranges-lt n [] i f h = cc
in_ranges-lt n (r ∷ rs) i f h = ground (arith, in_ranges-lt n rs i f.2)

-- What holds of the indices of ordered ranges holds of their bounds.
pub Fits-of_mem :
    (n lo : ℕ) (rs : List Range)
    → IsOrdered lo rs
    → ((i : ℕ) → in_ranges rs i ≡ true → i < n)
    → Fits n rs
Fits-of_mem n lo [] o h = tt
Fits-of_mem n lo (r ∷ rs) o h = (
  omega arith,
  ground (arith, h (r.end - 1)),
  Fits-of_mem n r.end rs o.2 (λ i m. h i (ground arith)),
)
