-- ===== src/Transcript/View.antt =====
-- What a partial transcript says: the authenticated bytes, as a partial map from positions to
-- bytes; and when a partial transcript is well formed.
use ethdam_rope.Prelude.{
  ℕ, ◌≤◌, Bool, if◌then◌else◌, Option, none, List, length, get_elem?, subst, sym, ◌↔◌, or_default,
}
use ethdam_rope.RangeSets.{RangeSet, in_ranges}
use ethdam_rope.RangeSets.Bounds.{Fits, Fits-of_end, end_of_Fits}
use ethdam_rope.Subsequence.{Direction, Idx, Subsequence, idx_iter_ranges, idx_end}
use ethdam_rope.Subsequence.Ranks.{rank}
use ethdam_rope.Transcript.{PartialTranscript}

abbrev pub data_of : {R : Type 0} → Direction → PartialTranscript R → List ℕ
data_of Direction.sent p = p.sent
data_of Direction.received p = p.received

abbrev pub authed_of : {R : Type 0} → Direction → PartialTranscript R → Idx R
authed_of Direction.sent p = p.sent_authed_idx
authed_of Direction.received p = p.received_authed_idx

module _ {R : Type 0} ⦃rs : RangeSet R⦄ where
  abbrev pub idx_mem : Idx R → ℕ → Bool
  idx_mem idx i = in_ranges (idx_iter_ranges idx) i

  abbrev pub IdxFits : ℕ → Idx R → Type 0
  IdxFits n idx = Fits n (idx_iter_ranges idx)

  -- The authenticated byte at a position.
  abbrev pub view_of : Idx R → List ℕ → ℕ → Option ℕ
  view_of idx bytes i = if idx_mem idx i then get_elem? bytes i else none

  abbrev pub view : Direction → PartialTranscript R → ℕ → Option ℕ
  view d p = view_of (authed_of d p) (data_of d p)

  -- The byte that a subsequence has at a position.
  abbrev pub seq_view : Subsequence R → ℕ → Option ℕ
  seq_view seq i =
      if idx_mem seq.idx i then get_elem? seq.bytes (rank (idx_iter_ranges seq.idx) i) else none

  -- What is authenticated lies in the transcript.
  pub record IsValid (p : PartialTranscript R) : Type 0 where
    pub sent_fits : IdxFits (length p.sent) p.sent_authed_idx
    pub received_fits : IdxFits (length p.received) p.received_authed_idx

  pub IdxFits-iff : (n : ℕ) (idx : Idx R) → (idx_end idx ≤ n) ↔ IdxFits n idx
  IdxFits-iff n idx = (
    λ h.
        Fits-of_end n 0 (rs.iter_ranges idx.ranges) (rs.ordered idx.ranges)
          (subst (λ e. or_default e ≤ n) (rs.end_lem idx.ranges) h),
    λ f.
        subst (λ e. or_default e ≤ n) (sym (rs.end_lem idx.ranges))
          (end_of_Fits n (rs.iter_ranges idx.ranges) f),
  )
