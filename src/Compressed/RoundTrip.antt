-- ===== src/Compressed/RoundTrip.antt =====
-- Serialization keeps the authenticated bytes and forgets the others, and what the check on
-- deserialization accepts is written back as it was read.
use ethdam_rope.Prelude.{
  ℕ, ◌+◌, ◌≤◌, ◌≡◌, ◌∙◌, some, List, length, get_elem?, arith, subst, sym, ok, length-replicate,
  get_elem?-replicate, list_ext, get_elem?_beyond,
}
use ethdam_rope.RangeSets.{RangeSet}
use ethdam_rope.RangeSets.Bounds.{in_ranges-lt}
use ethdam_rope.Subsequence.{Direction, Idx, idx_iter_ranges, idx_end, idx_len, unpack_ranges}
use ethdam_rope.Subsequence.Ranks.{rank, Packs, gather-Packs}
use ethdam_rope.Subsequence.Loops.{Overlay, Overlay-Packs, unpack_ranges-Overlay}
use ethdam_rope.Transcript.{PartialTranscript, zeros, set_unauthed}
use ethdam_rope.Transcript.View.{IdxFits, IsValid, IdxFits-iff}
use ethdam_rope.Transcript.Unauthed.{Masks, whole, set_unauthed-Masks}
use ethdam_rope.Compressed.{CompressedPartialTranscript, compress, decompress, try_from, unchecked}

module _ {R : Type 0} ⦃rs : RangeSet R⦄ where
  packed :
      (idx : Idx R) (bytes : List ℕ)
      → IdxFits (length bytes) idx
      → (part : List ℕ) × (rs.index_ranges bytes idx.ranges ≡ some part)
        × Packs (get_elem? bytes) (idx_iter_ranges idx) part
  packed idx bytes fits =
      let (part, run, packs) = gather-Packs bytes (idx_iter_ranges idx) fits in
      (part, rs.index_ranges_lem bytes idx.ranges ∙ run, packs)

  unpacked :
      (idx : Idx R) (part : List ℕ) (n : ℕ)
      → length part ≡ idx_len idx
      → idx_end idx ≤ n
      → (out : List ℕ) × (unpack_ranges (idx_iter_ranges idx) 0 part (zeros n) ≡ some out)
        × Overlay
            (idx_iter_ranges idx)
            (λ i. get_elem? part (0 + rank (idx_iter_ranges idx) i))
            (zeros n)
            out
  unpacked idx part n e h =
      unpack_ranges-Overlay 0 (idx_iter_ranges idx) 0 part (zeros n) (rs.ordered idx.ranges)
        (omega (arith, rs.len_lem idx.ranges))
        (subst (λ m. IdxFits m idx) (sym (length-replicate n 0)) ((IdxFits-iff n idx).0 h))

  -- What comes back from zeros and the authenticated bytes is the vector with the rest masked.
  masked_back :
      (idx : Idx R) (bytes : List ℕ) {back masked : List ℕ}
      → IdxFits (length bytes) idx
      → Overlay (idx_iter_ranges idx) (get_elem? bytes) (zeros (length bytes)) back
      → Masks idx (whole bytes) 0 bytes masked
      → back ≡ masked
  masked_back idx bytes {back} {masked} fits over masks = list_ext back masked (λ i. ground (
    arith,
    over.elem i,
    masks.elem i,
    get_elem?-replicate {A = ℕ} (length bytes) 0 i,
    get_elem?_beyond bytes i,
    in_ranges-lt (length bytes) (idx_iter_ranges idx) i fits,
  ))

  -- One direction of a round trip.
  there_and_back :
      (idx : Idx R) (bytes : List ℕ)
      → IdxFits (length bytes) idx
      → (part : List ℕ) × (rs.index_ranges bytes idx.ranges ≡ some part)
        × (length part ≡ idx_len idx)
        × (idx_end idx ≤ length bytes)
        × (back : List ℕ) × (unpack_ranges (idx_iter_ranges idx) 0 part (zeros (length bytes))
            ≡ some back)
        × Overlay (idx_iter_ranges idx) (get_elem? bytes) (zeros (length bytes)) back
  there_and_back idx bytes fits =
      let (part, run, packs) = packed idx bytes fits in
      let size : length part ≡ idx_len idx = packs.size ∙ sym (rs.len_lem idx.ranges) in
      let bound = (IdxFits-iff (length bytes) idx).1 fits in
      let (back, run', over) = unpacked idx part (length bytes) size bound in
      (
        part,
        run,
        size,
        bound,
        back,
        run',
        Overlay-Packs 0 (idx_iter_ranges idx) (get_elem? bytes) (rs.ordered idx.ranges) packs over,
      )

  -- A well-formed partial transcript is compressed without a panic; the check on deserialization
  -- accepts the result, and decompressing it gives, without a panic, the partial transcript with
  -- the bytes that are not authenticated set to zero.
  pub decompress-compress :
      (p : PartialTranscript R)
      → IsValid p
      → (c : CompressedPartialTranscript R) × (q : PartialTranscript R) × (compress p ≡ some c)
        × (try_from (unchecked c) ≡ ok c)
        × (decompress c ≡ some q)
        × (set_unauthed p 0 ≡ some q)
  unfolding compress decompress try_from
  decompress-compress p v =
      let (part_s, run_s, size_s, bound_s, back_s, un_s, over_s) =
        there_and_back p.sent_authed_idx p.sent v.sent_fits in
      let (part_r, run_r, size_r, bound_r, back_r, un_r, over_r) =
        there_and_back p.received_authed_idx p.received v.received_fits in
      let (q, run, masks) = set_unauthed-Masks p 0 in
      let same_s =
        masked_back p.sent_authed_idx p.sent v.sent_fits over_s (masks Direction.sent).1 in
      let same_r =
        masked_back p.received_authed_idx p.received v.received_fits over_r
          (masks Direction.received).1 in
      (
        record {
          sent_authed = part_s;
          received_authed = part_r;
          sent_idx = p.sent_authed_idx;
          recv_idx = p.received_authed_idx;
          sent_total = length p.sent;
          recv_total = length p.received;
        },
        q,
        rw (run_s, run_r),
        ground arith,
        rw (un_s, un_r)
            (λ i. some (record {
              sent = same_s i;
              received = same_r i;
              sent_authed_idx = sym (masks Direction.sent).0 i;
              received_authed_idx = sym (masks Direction.received).0 i;
            })),
        run,
      )

  -- What `try_from` checks.
  pub record IsChecked (c : CompressedPartialTranscript R) : Type 0 where
    pub sent_size : length c.sent_authed ≡ idx_len c.sent_idx
    pub received_size : length c.received_authed ≡ idx_len c.recv_idx
    pub sent_bound : idx_end c.sent_idx ≤ c.sent_total
    pub received_bound : idx_end c.recv_idx ≤ c.recv_total
