-- ===== src/Encodings/Proof.antt =====
-- transcript/encoding/proof.rs: `EncodingProof` and its validation when it is deserialized.
use ethdam_rope.Prelude.{
  ℕ, ◌+◌, ◌^◌, ltb, if◌then◌else◌, List, [], ◌∷◌, ◌++◌, length, not, HashMap, Result, ok, err,
}
use ethdam_rope.Outcomes.{◌>>=◌, ◌>>◌, Outcome, returns, from_result, from_panic, guard_or}
use ethdam_rope.RangeSets.{RangeSet}
use ethdam_rope.Subsequence.{Direction, Subsequence, idx_end}
use ethdam_rope.Transcript.{PartialTranscript, TranscriptLength, new_partial, union_subsequence}
use ethdam_rope.Hashes.{
  Hash, Blinder, Blinded, HashAlgorithm, HashProvider, HashProviderError, get_hash_alg,
  CanonicalSerialize, new_with_blinder, hash_canonical,
}
use ethdam_rope.Merkle.{MerkleProof, MerkleError, merkle_verify}
use ethdam_rope.Merkle.Interfaces.{RsMerkle, DuplicateCheck}
use ethdam_rope.Commits.{max_total_committed_data}
use ethdam_rope.Encodings.Commitment.{EncodingCommitment}
use ethdam_rope.Encodings.Encoder.{ChaCha, ChaChaEncoder, new_encoder, encode_subsequence}

-- tree.rs: the encoding of a committed subsequence.
pub record EncodingLeaf : Type 0 where
  pub encoding : List ℕ

abbrev pub new_leaf : List ℕ → EncodingLeaf
new_leaf encoding = record { encoding = encoding }

pub record Opening (R : Type 0) : Type 0 where
  pub direction : Direction
  pub seq : Subsequence R
  pub blinder : Blinder

-- `proof` of kind `Provider`, the others of kind `Proof`.
pub data EncodingProofError : Type 0 where
  provider_error : HashProviderError → EncodingProofError
  exceeded_maximum_data : EncodingProofError
  index_out_of_bounds : Direction → ℕ → ℕ → EncodingProofError
  inclusion_error : MerkleError → EncodingProofError

pub data InvalidEncodingProof : Type 0 where
  height_exceeds_maximum : InvalidEncodingProof

abbrev pub max_height : ℕ
max_height = 30

abbrev pub length_of : Direction → ℕ → ℕ → ℕ
length_of Direction.sent sent_len recv_len = sent_len
length_of Direction.received sent_len recv_len = recv_len

module _ ⦃rm : RsMerkle⦄ where
  pub record EncodingProof (R : Type 0) : Type 0 where
    pub inclusion_proof : MerkleProof
    pub openings : HashMap ℕ (Opening R)

  pub record EncodingProofUnchecked (R : Type 0) : Type 0 where
    pub inclusion_proof : MerkleProof
    pub openings : HashMap ℕ (Opening R)

  unfoldable pub encoding_proof_try_from :
      {R : Type 0} → EncodingProofUnchecked R → Result InvalidEncodingProof (EncodingProof R)
  encoding_proof_try_from unchecked =
      if ltb (2 ^ max_height) unchecked.inclusion_proof.leaf_count
      then err height_exceeds_maximum
      else ok
          (record { inclusion_proof = unchecked.inclusion_proof; openings = unchecked.openings })

module _ {R : Type 0} ⦃rs : RangeSet R⦄ ⦃gen : ChaCha⦄
    ⦃s : CanonicalSerialize (Blinded EncodingLeaf)⦄ where
  -- The loop over the openings: the amount of data so far, the leaves and the transcript.
  unfoldable pub open_all :
      HashAlgorithm
      → ChaChaEncoder
      → ℕ
      → ℕ
      → HashMap ℕ (Opening R)
      → ℕ
      → List (ℕ × Hash)
      → PartialTranscript R
      → Outcome EncodingProofError (List (ℕ × Hash) × PartialTranscript R)
  unfolding encode_subsequence union_subsequence
  open_all hasher encoder sent_len recv_len [] total leaves transcript =
      returns (leaves, transcript)
  open_all hasher encoder sent_len recv_len ((id, o) ∷ os) total leaves transcript = do
    let total' = total + length o.seq.bytes
    guard_or (not (ltb max_total_committed_data total')) exceeded_maximum_data
    let len = length_of o.direction sent_len recv_len
    guard_or (not (ltb len (idx_end o.seq.idx)))
        (index_out_of_bounds o.direction (idx_end o.seq.idx) len)
    expected_encoding ← from_panic (encode_subsequence encoder o.direction o.seq)
    hash ←
        from_panic (hash_canonical hasher (new_with_blinder (new_leaf expected_encoding) o.blinder))
    transcript' ← from_panic (union_subsequence transcript o.direction o.seq)
    open_all hasher encoder sent_len recv_len os total' (leaves ++ ((id, hash) ∷ [])) transcript'

  module _ ⦃rm : RsMerkle⦄ ⦃dc : DuplicateCheck⦄ where
    unfoldable pub verify_encoding_proof :
        EncodingProof R
        → HashProvider
        → TranscriptLength
        → EncodingCommitment
        → Outcome EncodingProofError (PartialTranscript R)
    unfolding open_all merkle_verify new_partial
    verify_encoding_proof proof provider len commitment = do
      hasher ← from_result provider_error (get_hash_alg provider commitment.root.alg)
      let encoder = new_encoder commitment.secret
      (leaves, transcript) ←
          open_all hasher encoder len.sent len.received proof.openings 0 []
            (new_partial len.sent len.received)
      from_result inclusion_error
          (merkle_verify proof.inclusion_proof hasher commitment.root leaves)
      returns transcript
