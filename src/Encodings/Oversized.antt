-- ===== src/Encodings/Oversized.antt =====
-- An opening whose encoding is too long to be serialized: the limit on the opened data does not
-- exclude it, and `CanonicalSerialize::serialize` unwraps.
use ethdam_rope.Prelude.{
  ℕ, ◌+◌, ◌*◌, ◌≤◌, ◌<◌, ◌≡◌, refl, true, not, ltb, ◌∷◌, length, none, ok, arith, HashMap,
}
use ethdam_rope.Outcomes.{panics}
use ethdam_rope.RangeSets.{RangeSet}
use ethdam_rope.Subsequence.{idx_len, idx_end}
use ethdam_rope.Transcript.{TranscriptLength}
use ethdam_rope.Hashes.{
  Blinded, HashAlgorithm, HashProvider, get_hash_alg, CanonicalSerialize, new_with_blinder,
}
use ethdam_rope.Merkle.{MerkleProof}
use ethdam_rope.Merkle.Interfaces.{RsMerkle, DuplicateCheck}
use ethdam_rope.Commits.{max_total_committed_data}
use ethdam_rope.Encodings.Commitment.{EncodingCommitment}
use ethdam_rope.Encodings.Encoder.{ChaCha, new_encoder}
use ethdam_rope.Encodings.Bytes.{seq_encoding, encode_subsequence-seq_encoding}
use ethdam_rope.Encodings.Proof.{
  EncodingLeaf, new_leaf, Opening, length_of, open_all, verify_encoding_proof,
}

module _ {R : Type 0} ⦃rs : RangeSet R⦄ ⦃gen : ChaCha⦄
    ⦃s : CanonicalSerialize (Blinded EncodingLeaf)⦄ ⦃rm : RsMerkle⦄ ⦃dc : DuplicateCheck⦄ where
  -- If the serializer refuses encodings above a limit, then a proof of which the first opening is
  -- allowed (it fits its index, the transcript and the limit on the data) and has an encoding of 128
  -- bytes for each byte above the serializer's limit makes the verifier panic.
  pub verify_encoding_proof_panics :
      (limit : ℕ) (inclusion_proof : MerkleProof) (id : ℕ) (o : Opening R)
      (os : HashMap ℕ (Opening R)) (provider : HashProvider) (len : TranscriptLength)
      (commitment : EncodingCommitment) (hasher : HashAlgorithm)
      → ((leaf : Blinded EncodingLeaf)
          → limit < length leaf.content.encoding
          → s.serialize leaf ≡ none)
      → get_hash_alg provider commitment.root.alg ≡ ok hasher
      → idx_len o.seq.idx ≡ length o.seq.bytes
      → length o.seq.bytes ≤ max_total_committed_data
      → idx_end o.seq.idx ≤ length_of o.direction len.sent len.received
      → limit < length o.seq.bytes * 128
      → verify_encoding_proof
          (record { inclusion_proof = inclusion_proof; openings = (id, o) ∷ os })
          provider
          len
          commitment
        ≡ panics
  unfolding verify_encoding_proof open_all
  verify_encoding_proof_panics limit ip id o os provider len commitment hasher refuses alg fit
        within inside over =
      let e = new_encoder commitment.secret in
      let (encoded, size) = encode_subsequence-seq_encoding e o.direction o.seq fit in
      let in_limit : not (ltb max_total_committed_data (0 + length o.seq.bytes)) ≡ true =
        ground arith in
      let in_bounds : not (ltb (length_of o.direction len.sent len.received) (idx_end o.seq.idx))
          ≡ true =
        ground arith in
      rw
        (
          alg,
          in_limit,
          in_bounds,
          encoded,
          refuses (new_with_blinder (new_leaf (seq_encoding e o.direction o.seq)) o.blinder)
              (omega (arith, size)),
        )
        refl
