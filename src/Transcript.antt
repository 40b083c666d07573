-- ===== src/Transcript.antt =====
-- tlsn/crates/core/src/transcript.rs: `Transcript` and `PartialTranscript`, whose methods that may
-- panic return `MayPanic`. The modules below prove what each method does.
pub mod View
pub mod Disclose
pub mod Union
pub mod Unauthed
pub mod Complete
pub mod Added
use ethdam_rope.Prelude.{
  ℕ, zero, suc, ◌+◌, ◌-◌, ◌%◌, ◌^◌, ◌≡◌, Bool, true, false, not, ◌&&◌, ◌||◌, leb, ltb, ◌==◌,
  if◌then◌else◌, Option, none, some, List, [], ◌∷◌, length, replicate, get_elem?, slice,
  copy_from_slice, fill, ◌>>=◌, ◌>>◌, Result, ok, err, MayPanic, expect,
}
use ethdam_rope.RangeSets.{Range, RangeSet}
use ethdam_rope.Subsequence.{
  Direction, Idx, Subsequence, InvalidSubsequence, copy_ranges, unpack_ranges, fill_ranges,
  read_all, idx_empty, idx_end, idx_len, idx_union, idx_difference, idx_iter_ranges,
  new_subsequence, copy_to,
}

pub record Transcript : Type 0 where
  pub sent : List ℕ
  pub received : List ℕ

pub record TranscriptLength : Type 0 where
  pub sent : ℕ
  pub received : ℕ

pub record PartialTranscript (R : Type 0) : Type 0 where
  pub sent : List ℕ
  pub received : List ℕ
  pub sent_authed_idx : Idx R
  pub received_authed_idx : Idx R

abbrev pub zeros : ℕ → List ℕ
zeros n = replicate n 0

-- The methods of `Transcript`.
module _ where
  abbrev pub bytes_of : Direction → Transcript → List ℕ
  bytes_of Direction.sent t = t.sent
  bytes_of Direction.received t = t.received

  unfoldable pub len_of_direction : Transcript → Direction → ℕ
  len_of_direction t d = length (bytes_of d t)

  -- The casts `as u32` wrap.
  unfoldable pub transcript_length : Transcript → TranscriptLength
  transcript_length t = record {
    sent = length t.sent % 2 ^ 32;
    received = length t.received % 2 ^ 32;
  }

module _ {R : Type 0} ⦃rs : RangeSet R⦄ where
  -- The inner option is the result; the outer one is `none` if `index_ranges` or `expect` panics.
  unfoldable pub get : Transcript → Direction → Idx R → MayPanic (Option (Subsequence R))
  unfolding new_subsequence
  get t d idx = if ltb (length (bytes_of d t)) (idx_end idx) then some none else (do
    part ← rs.index_ranges (bytes_of d t) idx.ranges
    seq ← expect (new_subsequence idx part)
    some (some seq))

  unfoldable pub to_partial : Transcript → Idx R → Idx R → MayPanic (PartialTranscript R)
  unfolding copy_ranges
  to_partial t sent_idx recv_idx = do
    sent' ← copy_ranges (idx_iter_ranges sent_idx) t.sent (zeros (length t.sent))
    received' ← copy_ranges (idx_iter_ranges recv_idx) t.received (zeros (length t.received))
    some (record {
      sent = sent';
      received = received';
      sent_authed_idx = sent_idx;
      received_authed_idx = recv_idx;
    })

-- The methods of `PartialTranscript`.
module _ {R : Type 0} ⦃rs : RangeSet R⦄ where
  unfoldable pub new_partial : ℕ → ℕ → PartialTranscript R
  new_partial sent_len received_len = record {
    sent = zeros sent_len;
    received = zeros received_len;
    sent_authed_idx = idx_empty;
    received_authed_idx = idx_empty;
  }

  unfoldable pub is_complete : PartialTranscript R → Bool
  is_complete p =
      idx_len p.sent_authed_idx == length p.sent
      && idx_len p.received_authed_idx == length p.received

  unfoldable pub contains : PartialTranscript R → Direction → Idx R → Bool
  contains p Direction.sent idx = leb (idx_end idx) (length p.sent)
  contains p Direction.received idx = leb (idx_end idx) (length p.received)

  unfoldable pub sent_unauthed : PartialTranscript R → Idx R
  sent_unauthed p = record {
    ranges =
        rs.difference (rs.from_range (record { start = 0; end = length p.sent }))
          p.sent_authed_idx.ranges;
  }

  unfoldable pub received_unauthed : PartialTranscript R → Idx R
  received_unauthed p = record {
    ranges =
        rs.difference (rs.from_range (record { start = 0; end = length p.received }))
          p.received_authed_idx.ranges;
  }

  unfoldable pub iter : PartialTranscript R → Direction → MayPanic (List ℕ)
  unfolding read_all
  iter p Direction.sent = read_all p.sent (rs.iter p.sent_authed_idx.ranges)
  iter p Direction.received = read_all p.received (rs.iter p.received_authed_idx.ranges)

  unfoldable pub union_transcript :
      PartialTranscript R → PartialTranscript R → MayPanic (PartialTranscript R)
  unfolding copy_ranges
  union_transcript p other =
      if not (length p.sent == length other.sent)
        || not (length p.received == length other.received)
      then none
      else (do
        sent' ←
            copy_ranges (idx_iter_ranges (idx_difference other.sent_authed_idx p.sent_authed_idx))
              other.sent p.sent
        received' ←
            copy_ranges
              (idx_iter_ranges (idx_difference other.received_authed_idx p.received_authed_idx))
              other.received p.received
        some (record {
          sent = sent';
          received = received';
          sent_authed_idx = idx_union p.sent_authed_idx other.sent_authed_idx;
          received_authed_idx = idx_union p.received_authed_idx other.received_authed_idx;
        }))

  unfoldable pub union_subsequence :
      PartialTranscript R → Direction → Subsequence R → MayPanic (PartialTranscript R)
  unfolding copy_to
  union_subsequence p Direction.sent seq = do
    sent' ← copy_to seq p.sent
    some (record p { sent = sent'; sent_authed_idx = idx_union p.sent_authed_idx seq.idx })
  union_subsequence p Direction.received seq = do
    received' ← copy_to seq p.received
    some (record p {
      received = received';
      received_authed_idx = idx_union p.received_authed_idx seq.idx;
    })

  unfoldable pub set_unauthed : PartialTranscript R → ℕ → MayPanic (PartialTranscript R)
  unfolding fill_ranges sent_unauthed received_unauthed
  set_unauthed p value = do
    sent' ← fill_ranges (idx_iter_ranges (sent_unauthed p)) value p.sent
    received' ← fill_ranges (idx_iter_ranges (received_unauthed p)) value p.received
    some (record p { sent = sent'; received = received' })

  unfoldable pub set_unauthed_range :
      PartialTranscript R → ℕ → Direction → Range → MayPanic (PartialTranscript R)
  unfolding fill_ranges
  set_unauthed_range p value Direction.sent range = do
    sent' ←
        fill_ranges (rs.iter_ranges (rs.difference (rs.from_range range) p.sent_authed_idx.ranges))
          value p.sent
    some (record p { sent = sent' })
  set_unauthed_range p value Direction.received range = do
    received' ←
        fill_ranges
          (rs.iter_ranges (rs.difference (rs.from_range range) p.received_authed_idx.ranges)) value
          p.received
    some (record p { received = received' })
