-- ===== src/TranscriptProofs.antt =====
-- tlsn/crates/core/src/transcript/proof.rs: the proof of parts of a transcript.
pub mod Verified
pub mod Sound
use ethdam_rope.Prelude.{
  ℕ, ◌+◌, ltb, not, if◌then◌else◌, List, [], ◌∷◌, Option, none, some, MayPanic, Eq,
}
use ethdam_rope.Outcomes.{
  Outcome, returns, from_panic, from_result, ok_or_else, guard_or, map_fails, ◌>>=◌, ◌>>◌,
}
use ethdam_rope.RangeSets.{RangeSet}
use ethdam_rope.Subsequence.{Direction, Idx, idx_len}
use ethdam_rope.Transcript.{PartialTranscript, new_partial, union_transcript, union_subsequence}
use ethdam_rope.Hashes.{HashProvider, Blinded, CanonicalSerialize}
use ethdam_rope.Merkle.Interfaces.{RsMerkle, DuplicateCheck}
use ethdam_rope.Commits.{max_total_committed_data}
use ethdam_rope.Fields.{FieldId, Field}
use ethdam_rope.Indexes.{Index, get_by_field_id}
use ethdam_rope.PlaintextHashes.{
  PlaintextHash, PlaintextHashProof, PlaintextHashProofError, verify_plaintext_hash,
}
use ethdam_rope.Encodings.Encoder.{ChaCha}
use ethdam_rope.Encodings.Proof.{
  EncodingLeaf, EncodingProof, EncodingProofError, verify_encoding_proof,
}
use ethdam_rope.Connections.{TlsCore}
use ethdam_rope.Providers.{CryptoProvider}
use ethdam_rope.Attestations.{Body, field_content}

-- The kinds `Encoding` and `Hash`.
pub data TranscriptProofError : Type 0 where
  missing_encoding_commitment : TranscriptProofError
  encoding_error : EncodingProofError → TranscriptProofError
  missing_hash_commitment : FieldId → TranscriptProofError
  exceeded_hash_data : TranscriptProofError
  hash_error : PlaintextHashProofError → TranscriptProofError

module _ ⦃rm : RsMerkle⦄ where
  pub record TranscriptProof (R : Type 0) : Type 0 where
    pub encoding_proof : Option (EncodingProof R)
    pub hash_proofs : List PlaintextHashProof

-- The loop over the hash openings.
module _ {R : Type 0} ⦃rs : RangeSet R⦄ ⦃er : Eq (Direction × Idx R)⦄
    ⦃sb : CanonicalSerialize (Blinded (List ℕ))⦄ where
  unfoldable pub open_hashes :
      HashProvider
      → Index (Field (PlaintextHash R)) R
      → List PlaintextHashProof
      → ℕ
      → PartialTranscript R
      → Outcome TranscriptProofError (PartialTranscript R)
  unfolding get_by_field_id verify_plaintext_hash union_subsequence
  open_hashes provider hashes [] total transcript = returns transcript
  open_hashes provider hashes (proof ∷ proofs) total transcript = do
    found ← from_panic (get_by_field_id hashes proof.commitment)
    commitment ← ok_or_else (field_content found) (missing_hash_commitment proof.commitment)
    let total' = total + idx_len commitment.idx
    guard_or (not (ltb max_total_committed_data total')) exceeded_hash_data
    (direction, seq) ← map_fails hash_error (verify_plaintext_hash proof provider commitment)
    transcript' ← from_panic (union_subsequence transcript direction seq)
    open_hashes provider hashes proofs total' transcript'

module _ {R : Type 0} ⦃rs : RangeSet R⦄ ⦃er : Eq (Direction × Idx R)⦄
    ⦃sb : CanonicalSerialize (Blinded (List ℕ))⦄ ⦃gen : ChaCha⦄
    ⦃s : CanonicalSerialize (Blinded EncodingLeaf)⦄ ⦃rm : RsMerkle⦄ ⦃dc : DuplicateCheck⦄ where
  -- The part for the encoding proof.
  unfoldable pub open_encodings :
      HashProvider
      → Body R
      → Option (EncodingProof R)
      → PartialTranscript R
      → Outcome TranscriptProofError (PartialTranscript R)
  unfolding verify_encoding_proof union_transcript
  open_encodings provider body none transcript = returns transcript
  open_encodings provider body (some proof) transcript = do
    commitment ← ok_or_else (field_content body.encoding_commitment) missing_encoding_commitment
    seq ← map_fails encoding_error (
        verify_encoding_proof proof provider body.connection_info.content.transcript_length
          commitment)
    from_panic (union_transcript transcript seq)

  unfoldable pub verify_transcript_proof :
      ⦃tls : TlsCore⦄
      → TranscriptProof R
      → CryptoProvider
      → Body R
      → Outcome TranscriptProofError (PartialTranscript R)
  unfolding new_partial open_encodings open_hashes
  verify_transcript_proof proof provider body = do
    let len = body.connection_info.content.transcript_length
    transcript ←
        open_encodings provider.hash body proof.encoding_proof (new_partial len.sent len.received)
    open_hashes provider.hash body.plaintext_hashes proof.hash_proofs 0 transcript
