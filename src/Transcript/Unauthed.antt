-- ===== src/Transcript/Unauthed.antt =====
-- `PartialTranscript::set_unauthed` and `set_unauthed_range`: masks for what is not authenticated.
use ethdam_rope.Prelude.{
  ℕ, ◌≤◌, ◌≡◌, refl, not, ◌&&◌, if◌then◌else◌, some, List, length, get_elem?, arith,
}
use ethdam_rope.RangeSets.{Range, RangeSet, in_range}
use ethdam_rope.RangeSets.Bounds.{Fits-of_mem}
use ethdam_rope.Subsequence.{Direction, Idx, fill_ranges}
use ethdam_rope.Subsequence.Loops.{fill_ranges-Overlay}
use ethdam_rope.Transcript.{PartialTranscript, set_unauthed, set_unauthed_range}
use ethdam_rope.Transcript.View.{data_of, authed_of, idx_mem}

-- All positions of a vector of bytes.
abbrev pub whole : List ℕ → Range
whole bytes = record { start = 0; end = length bytes }

module _ {R : Type 0} ⦃rs : RangeSet R⦄ where
  -- `bytes'` is `bytes` with `value` at the positions of `range` that are not in `a`.
  pub record Masks (a : Idx R) (range : Range) (value : ℕ) (bytes bytes' : List ℕ) : Type 0 where
    pub size : length bytes' ≡ length bytes
    pub elem :
        (i : ℕ)
        → get_elem? bytes' i
          ≡ (if in_range range i && not (idx_mem a i) then some value else get_elem? bytes i)

  masked :
      (a : Idx R) (range : Range) (value : ℕ) (bytes : List ℕ)
      → range.end ≤ length bytes
      → (out : List ℕ) × (fill_ranges
            (rs.iter_ranges (rs.difference (rs.from_range range) a.ranges))
            value
            bytes
          ≡ some out)
        × Masks a range value bytes out
  masked a range value bytes h =
      let open_ = rs.difference (rs.from_range range) a.ranges in
      let mem = λ (i : ℕ). rs.mem-difference (rs.from_range range) a.ranges i in
      let (out, run, over) = fill_ranges-Overlay (rs.iter_ranges open_) value bytes (
        Fits-of_mem (length bytes) 0 (rs.iter_ranges open_) (rs.ordered open_)
          (λ i m. ground (arith, mem i, rs.mem-from_range range i))) in
      (
        out,
        run,
        record {
          size = over.size;
          elem = λ i. ground (arith, over.elem i, mem i, rs.mem-from_range range i);
        },
      )

  -- `set_unauthed` does not panic on a well-formed partial transcript: in each direction the bytes
  -- that are not authenticated become `value`, and the authenticated ones and the index stay.
  pub set_unauthed-Masks :
      (p : PartialTranscript R) (value : ℕ)
      → (out : PartialTranscript R) × (set_unauthed p value ≡ some out)
        × ((d : Direction)
            → (authed_of d out ≡ authed_of d p)
              × Masks (authed_of d p) (whole (data_of d p)) value (data_of d p) (data_of d out))
  unfolding set_unauthed
  set_unauthed-Masks p value =
      let (out_s, run_s, masks_s) =
        masked p.sent_authed_idx (whole p.sent) value p.sent (omega arith) in
      let (out_r, run_r, masks_r) =
        masked p.received_authed_idx (whole p.received) value p.received (omega arith) in
      (
        record p { sent = out_s; received = out_r },
        rw (run_s, run_r),
        elim [ Direction.sent ↦ (refl, masks_s) | Direction.received ↦ (refl, masks_r) ],
      )

  -- `set_unauthed_range` does so within a range that ends in the transcript, and leaves the other
  -- positions, and the other direction, as they are.
  pub set_unauthed_range-Masks :
      (p : PartialTranscript R) (value : ℕ) (d : Direction) (range : Range)
      → range.end ≤ length (data_of d p)
      → (out : PartialTranscript R) × (set_unauthed_range p value d range ≡ some out)
        × Masks (authed_of d p) range value (data_of d p) (data_of d out)
        × ((d' : Direction)
            → (authed_of d' out ≡ authed_of d' p) × ((d' ≡ d → ⊥) → data_of d' out ≡ data_of d' p))
  unfolding set_unauthed_range
  set_unauthed_range-Masks p value Direction.sent range h =
      let (out, run, masks) = masked p.sent_authed_idx range value p.sent h in
      (
        record p { sent = out },
        rw run,
        masks,
        elim [
          | Direction.sent ↦ (refl, λ n. absurd (n refl))
          | Direction.received ↦ (refl, λ n. refl)
        ],
      )
  set_unauthed_range-Masks p value Direction.received range h =
      let (out, run, masks) = masked p.received_authed_idx range value p.received h in
      (
        record p { received = out },
        rw run,
        masks,
        elim [
          | Direction.sent ↦ (refl, λ n. refl)
          | Direction.received ↦ (refl, λ n. absurd (n refl))
        ],
      )
