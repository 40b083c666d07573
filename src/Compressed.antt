-- ===== src/Compressed.antt =====
-- tlsn/crates/core/src/transcript.rs: `CompressedPartialTranscript`, the form in which a partial
-- transcript is serialized, its conversions, and the check on deserialization.
pub mod RoundTrip
use ethdam_rope.Prelude.{
  ℕ, ◌≡◌, not, ◌||◌, ltb, ◌==◌, if◌then◌else◌, some, List, length, ◌>>=◌, Result, ok, err, MayPanic,
}
use ethdam_rope.RangeSets.{RangeSet}
use ethdam_rope.Subsequence.{Idx, unpack_ranges, idx_end, idx_len, idx_iter_ranges}
use ethdam_rope.Transcript.{PartialTranscript, zeros}

pub record CompressedPartialTranscript (R : Type 0) : Type 0 where
  pub sent_authed : List ℕ
  pub received_authed : List ℕ
  pub sent_idx : Idx R
  pub recv_idx : Idx R
  pub sent_total : ℕ
  pub recv_total : ℕ

pub record CompressedPartialTranscriptUnchecked (R : Type 0) : Type 0 where
  pub sent_authed : List ℕ
  pub received_authed : List ℕ
  pub sent_idx : Idx R
  pub recv_idx : Idx R
  pub sent_total : ℕ
  pub recv_total : ℕ

-- The two messages of the source.
pub data InvalidCompressedPartialTranscript : Type 0 where
  length_mismatch : InvalidCompressedPartialTranscript
  not_in_bounds : InvalidCompressedPartialTranscript

module _ {R : Type 0} ⦃rs : RangeSet R⦄ where
  -- From<PartialTranscript> for CompressedPartialTranscript
  unfoldable pub compress : PartialTranscript R → MayPanic (CompressedPartialTranscript R)
  compress p = do
    sent_authed' ← rs.index_ranges p.sent p.sent_authed_idx.ranges
    received_authed' ← rs.index_ranges p.received p.received_authed_idx.ranges
    some (record {
      sent_authed = sent_authed';
      received_authed = received_authed';
      sent_idx = p.sent_authed_idx;
      recv_idx = p.received_authed_idx;
      sent_total = length p.sent;
      recv_total = length p.received;
    })

  -- From<CompressedPartialTranscript> for PartialTranscript
  unfoldable pub decompress : CompressedPartialTranscript R → MayPanic (PartialTranscript R)
  unfolding unpack_ranges
  decompress c = do
    sent' ← unpack_ranges (idx_iter_ranges c.sent_idx) 0 c.sent_authed (zeros c.sent_total)
    received' ← unpack_ranges (idx_iter_ranges c.recv_idx) 0 c.received_authed (zeros c.recv_total)
    some (record {
      sent = sent';
      received = received';
      sent_authed_idx = c.sent_idx;
      received_authed_idx = c.recv_idx;
    })

  -- TryFrom<CompressedPartialTranscriptUnchecked> for CompressedPartialTranscript
  unfoldable pub try_from :
      CompressedPartialTranscriptUnchecked R
      → Result InvalidCompressedPartialTranscript (CompressedPartialTranscript R)
  try_from u =
      if not (length u.sent_authed == idx_len u.sent_idx)
        || not (length u.received_authed == idx_len u.recv_idx)
      then err length_mismatch
      else if ltb u.sent_total (idx_end u.sent_idx) || ltb u.recv_total (idx_end u.recv_idx)
      then err not_in_bounds
      else ok (record {
        sent_authed = u.sent_authed;
        received_authed = u.received_authed;
        sent_idx = u.sent_idx;
        recv_idx = u.recv_idx;
        sent_total = u.sent_total;
        recv_total = u.recv_total;
      })

  -- What deserialization reads back is what serialization wrote.
  abbrev pub unchecked : CompressedPartialTranscript R → CompressedPartialTranscriptUnchecked R
  unchecked c = record {
    sent_authed = c.sent_authed;
    received_authed = c.received_authed;
    sent_idx = c.sent_idx;
    recv_idx = c.recv_idx;
    sent_total = c.sent_total;
    recv_total = c.recv_total;
  }
