-- ===== src/Tests/Transcript.antt =====
-- Runs of the transcript model over the bitmap instance of the range sets, and instances of its
-- theorems.
use ethdam_rope.Prelude.{
  ℕ, ◌≡◌, refl, ◌↔◌, ◌≤◌, ◌<◌, ◌≢◌, true, false, none, some, List, [], ◌∷◌, arith, length,
  get_elem?, ok, slice, copy_from_slice,
}
use ethdam_rope.RangeSets.Bitmap.{Bitmap, bitmap}
use ethdam_rope.Subsequence.{Direction, Idx, Subsequence, idx_end, idx_iter_ranges}
use ethdam_rope.Subsequence.Ranks.{Packs}
use ethdam_rope.Transcript.{
  Transcript, PartialTranscript, bytes_of, to_partial, get, union_transcript, union_subsequence,
  set_unauthed, set_unauthed_range, is_complete, iter,
}
use ethdam_rope.Transcript.View.{data_of, authed_of, idx_mem, IsValid, view, seq_view}
use ethdam_rope.Transcript.Disclose.{
  Discloses, choose, to_partial-Discloses, to_partial_returns_iff, get_lem,
}
use ethdam_rope.Transcript.Union.{
  LearnsOf, newly, union_transcript-Learns, union_subsequence-Learns, union_subsequence_panics,
}
use ethdam_rope.Transcript.Unauthed.{Masks, whole, set_unauthed-Masks, set_unauthed_range-Masks}
use ethdam_rope.Transcript.Complete.{is_complete_iff, iter_lem}
use ethdam_rope.Compressed.{
  CompressedPartialTranscript, CompressedPartialTranscriptUnchecked, compress, decompress, try_from,
  unchecked,
}
use ethdam_rope.Compressed.RoundTrip.{decompress-compress}

-- sent "GET /" and received "ok!"
abbrev talk : Transcript
talk = record { sent = 71 ∷ 69 ∷ 84 ∷ 32 ∷ 47 ∷ []; received = 111 ∷ 107 ∷ 33 ∷ [] }

-- {1, 2} and {0, 2}
abbrev sent_idx : Idx Bitmap
sent_idx = record { ranges = false ∷ true ∷ true ∷ [] }

abbrev recv_idx : Idx Bitmap
recv_idx = record { ranges = true ∷ false ∷ true ∷ [] }

-- {4}
abbrev slash_idx : Idx Bitmap
slash_idx = record { ranges = false ∷ false ∷ false ∷ false ∷ true ∷ [] }

abbrev shown : PartialTranscript Bitmap
shown = record {
  sent = 0 ∷ 69 ∷ 84 ∷ 0 ∷ 0 ∷ [];
  received = 111 ∷ 0 ∷ 33 ∷ [];
  sent_authed_idx = sent_idx;
  received_authed_idx = recv_idx;
}

abbrev slash : PartialTranscript Bitmap
slash = record {
  sent = 9 ∷ 9 ∷ 9 ∷ 9 ∷ 47 ∷ [];
  received = 9 ∷ 9 ∷ 9 ∷ [];
  sent_authed_idx = slash_idx;
  received_authed_idx = record { ranges = [] };
}

abbrev slash_seq : Subsequence Bitmap
slash_seq = record { idx = slash_idx; bytes = 47 ∷ [] }

to_partial_runs : to_partial talk sent_idx recv_idx ≡ some shown
unfolding to_partial bitmap slice copy_from_slice
to_partial_runs = refl

union_runs :
    union_subsequence shown Direction.sent slash_seq
    ≡ some (record shown {
      sent = 0 ∷ 69 ∷ 84 ∷ 0 ∷ 47 ∷ [];
      sent_authed_idx = record { ranges = false ∷ true ∷ true ∷ false ∷ true ∷ [] };
    })
unfolding union_subsequence bitmap slice copy_from_slice
union_runs = refl

shown-IsValid : IsValid shown
unfolding bitmap
shown-IsValid = omega arith

slash-IsValid : IsValid slash
unfolding bitmap
slash-IsValid = omega arith

sent_in : idx_end sent_idx ≤ 5
unfolding bitmap
sent_in = omega arith

recv_in : idx_end recv_idx ≤ 3
unfolding bitmap
recv_in = omega arith

to_partial-Discloses_example :
    (p : PartialTranscript Bitmap) × (to_partial talk sent_idx recv_idx ≡ some p)
    × Discloses talk (choose sent_idx recv_idx) p
    × IsValid p
to_partial-Discloses_example = to_partial-Discloses talk sent_idx recv_idx sent_in recv_in

to_partial_returns_iff_example :
    ((p : PartialTranscript Bitmap) × (to_partial talk sent_idx slash_idx ≡ some p))
    ↔ ((idx_end sent_idx ≤ 5) × (idx_end slash_idx ≤ 3))
to_partial_returns_iff_example = to_partial_returns_iff talk sent_idx slash_idx

get_lem_example :
    (idx_end sent_idx ≤ 5
      → (part : List ℕ) × (get talk Direction.sent sent_idx
          ≡ some (some (record { idx = sent_idx; bytes = part })))
        × Packs (get_elem? (bytes_of Direction.sent talk)) (idx_iter_ranges sent_idx) part)
    × (5 < idx_end sent_idx → get talk Direction.sent sent_idx ≡ some none)
get_lem_example = get_lem talk Direction.sent sent_idx

union_transcript-Learns_example :
    (out : PartialTranscript Bitmap) × (union_transcript shown slash ≡ some out)
    × IsValid out
    × ((d : Direction)
        → LearnsOf d shown (newly (authed_of d slash) (authed_of d shown)) (view d slash) out)
union_transcript-Learns_example =
    union_transcript-Learns shown slash shown-IsValid slash-IsValid refl refl

union_subsequence-Learns_example :
    (out : PartialTranscript Bitmap) × (union_subsequence shown Direction.sent slash_seq ≡ some out)
    × IsValid out
    × LearnsOf Direction.sent shown (idx_mem slash_idx) (seq_view slash_seq) out
    × ((d' : Direction)
        → d' ≢ Direction.sent
        → (data_of d' out ≡ data_of d' shown) × (authed_of d' out ≡ authed_of d' shown))
unfolding bitmap
union_subsequence-Learns_example =
    union_subsequence-Learns shown Direction.sent slash_seq shown-IsValid refl (omega arith)

union_subsequence_panics_example : union_subsequence shown Direction.received slash_seq ≡ none
unfolding bitmap
union_subsequence_panics_example =
    union_subsequence_panics shown Direction.received slash_seq (omega arith)

set_unauthed-Masks_example :
    (out : PartialTranscript Bitmap) × (set_unauthed slash 88 ≡ some out)
    × ((d : Direction)
        → (authed_of d out ≡ authed_of d slash)
          × Masks
              (authed_of d slash)
              (whole (data_of d slash))
              88
              (data_of d slash)
              (data_of d out))
set_unauthed-Masks_example = set_unauthed-Masks slash 88

set_unauthed_range-Masks_example :
    (out : PartialTranscript Bitmap) × (set_unauthed_range slash 88 Direction.sent
        (record { start = 2; end = 5 })
      ≡ some out)
    × Masks
        (authed_of Direction.sent slash)
        (record { start = 2; end = 5 })
        88
        (data_of Direction.sent slash)
        (data_of Direction.sent out)
    × ((d' : Direction)
        → (authed_of d' out ≡ authed_of d' slash)
          × ((d' ≡ Direction.sent → ⊥) → data_of d' out ≡ data_of d' slash))
set_unauthed_range-Masks_example =
    set_unauthed_range-Masks slash 88 Direction.sent (record { start = 2; end = 5 }) (omega arith)

is_complete_iff_example : (is_complete shown ≡ true) ↔ (
    (d : Direction) (i : ℕ) → i < length (data_of d shown) → idx_mem (authed_of d shown) i ≡ true)
is_complete_iff_example = is_complete_iff shown shown-IsValid

iter_lem_example :
    (part : List ℕ) × (iter shown Direction.received ≡ some part)
    × Packs (get_elem? (data_of Direction.received shown)) (idx_iter_ranges recv_idx) part
iter_lem_example = iter_lem shown Direction.received shown-IsValid

decompress-compress_example :
    (c : CompressedPartialTranscript Bitmap) × (q : PartialTranscript Bitmap) × (compress slash
      ≡ some c)
    × (try_from (unchecked c) ≡ ok c)
    × (decompress c ≡ some q)
    × (set_unauthed slash 0 ≡ some q)
decompress-compress_example = decompress-compress slash slash-IsValid

abbrev small : CompressedPartialTranscriptUnchecked Bitmap
small = record {
  sent_authed = 69 ∷ 84 ∷ [];
  received_authed = 47 ∷ [];
  sent_idx = sent_idx;
  recv_idx = slash_idx;
  sent_total = 4;
  recv_total = 5;
}

abbrev small_checked : CompressedPartialTranscript Bitmap
small_checked = record {
  sent_authed = 69 ∷ 84 ∷ [];
  received_authed = 47 ∷ [];
  sent_idx = sent_idx;
  recv_idx = slash_idx;
  sent_total = 4;
  recv_total = 5;
}
