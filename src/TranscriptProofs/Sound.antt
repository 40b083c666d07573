-- ===== src/TranscriptProofs/Sound.antt =====
-- Where each byte of a verified transcript comes from, and what a hash opening out of bounds does.
use ethdam_rope.Prelude.{
  ℕ, ◌+◌, ◌≤◌, ◌<◌, ◌≡◌, ◌⊎◌, inl, inr, refl, sym, subst, ◌∙◌, true, not, ltb, List, ◌∷◌, length,
  Option, some, none, arith, Eq, is_equal_refl, ◌==◌,
}
use ethdam_rope.Outcomes.{
  returns, panics, bind-eq-returns, returns-injective, from_panic-eq-returns, ok_or_else-bind,
  map_fails-bind,
}
use ethdam_rope.RangeSets.{RangeSet}
use ethdam_rope.Subsequence.{Direction, Idx, idx_len, idx_end, new_subsequence}
use ethdam_rope.Transcript.{PartialTranscript, TranscriptLength, new_partial, union_transcript}
use ethdam_rope.Transcript.View.{data_of, authed_of, idx_mem, view, IsValid}
use ethdam_rope.Transcript.Union.{union_transcript-Learns, union_subsequence_panics}
use ethdam_rope.Transcript.Added.{IsNew, new_partial-IsNew}
use ethdam_rope.Hashes.{HashProvider, Blinded, CanonicalSerialize, hash_eq}
use ethdam_rope.Merkle.Interfaces.{RsMerkle, DuplicateCheck}
use ethdam_rope.Commits.{max_total_committed_data}
use ethdam_rope.PlaintextHashes.{PlaintextHash, PlaintextHashProof, verify_plaintext_hash}
use ethdam_rope.Encodings.Commitment.{EncodingCommitment}
use ethdam_rope.Encodings.Encoder.{ChaCha}
use ethdam_rope.Encodings.Proof.{length_of, EncodingLeaf, EncodingProof, verify_encoding_proof}
use ethdam_rope.Encodings.Opened.{
  OpeningsFit, Opens, EncodingShown, verify_encoding_proof-EncodingShown,
}
use ethdam_rope.Connections.{TlsCore}
use ethdam_rope.Providers.{CryptoProvider}
use ethdam_rope.Attestations.{Body, field_content}
use ethdam_rope.TranscriptProofs.{
  TranscriptProof, missing_encoding_commitment, encoding_error, open_encodings, open_hashes,
  verify_transcript_proof,
}
use ethdam_rope.TranscriptProofs.Verified.{HashOpens, open_hashes-HashesOpened, Commits, revealed}

module _ {R : Type 0} ⦃rs : RangeSet R⦄ ⦃er : Eq (Direction × Idx R)⦄
    ⦃sb : CanonicalSerialize (Blinded (List ℕ))⦄ ⦃gen : ChaCha⦄
    ⦃s : CanonicalSerialize (Blinded EncodingLeaf)⦄ ⦃rm : RsMerkle⦄ ⦃dc : DuplicateCheck⦄ where
  -- The openings of the encoding proof, if there is one, fit their indices.
  abbrev pub ProofFits : Option (EncodingProof R) → Type 0
  ProofFits none = Unit {0}
  ProofFits (some proof) = OpeningsFit proof.openings

  abbrev pub length_of_body : Body R → TranscriptLength
  length_of_body body = body.connection_info.content.transcript_length

  -- An opening of the encoding proof has the given byte at the index, and the proof is verified for
  -- the encoding commitment of the attestation.
  pub record EncodingSource (provider : HashProvider) (body : Body R)
      (maybe_proof : Option (EncodingProof R)) (d : Direction) (i : ℕ) (b : Option ℕ) : Type 0 where
    pub proof : EncodingProof R
    pub given : maybe_proof ≡ some proof
    pub commitment : EncodingCommitment
    pub attested : field_content body.encoding_commitment ≡ some commitment
    pub seq : PartialTranscript R
    pub shown : EncodingShown proof provider (length_of_body body) commitment seq
    pub opens : Opens proof.openings d i b

  -- What the part for the encoding proof leaves.
  record EncodingsOpened (provider : HashProvider) (body : Body R)
      (maybe_proof : Option (EncodingProof R)) (p p' : PartialTranscript R) : Type 0 where
    valid : IsValid p'
    size : (d : Direction) → length (data_of d p') ≡ length (data_of d p)
    source :
        (d : Direction) (i : ℕ)
        → idx_mem (authed_of d p') i ≡ true
        → EncodingSource provider body maybe_proof d i (view d p' i)

  open_encodings-EncodingsOpened :
      (provider : HashProvider) (body : Body R) (maybe_proof : Option (EncodingProof R))
      (p : PartialTranscript R) {p' : PartialTranscript R}
      → IsNew (length_of_body body).sent (length_of_body body).received p
      → ProofFits maybe_proof
      → open_encodings provider body maybe_proof p ≡ returns p'
      → EncodingsOpened provider body maybe_proof p p'
  unfolding open_encodings
  open_encodings-EncodingsOpened provider body none p fresh fit run =
      subst (EncodingsOpened provider body none p) (returns-injective p _ run) (record {
        valid = fresh.valid;
        size = λ d. refl;
        source = λ d i m. absurd (cc (fresh.authed d i, m));
      })
  open_encodings-EncodingsOpened provider body (some proof) p fresh fit run =
      let len = length_of_body body in
      let (commitment, attested, run1) =
        ok_or_else-bind (field_content body.encoding_commitment) missing_encoding_commitment _
          run in
      let (seq, verified, run2) =
        map_fails-bind encoding_error (verify_encoding_proof proof provider len commitment) _
          run1 in
      let shown = verify_encoding_proof-EncodingShown proof provider len commitment fit verified in
      let (out, joins, valid, learns) =
        union_transcript-Learns p seq fresh.valid shown.valid
          (fresh.sent_size ∙ sym shown.sent_size) (fresh.received_size ∙ sym shown.received_size) in
      subst (EncodingsOpened provider body (some proof) p)
        (cc (joins, from_panic-eq-returns (union_transcript p seq) run2))
        (record {
          valid = valid;
          size = λ d. (learns d).size;
          source = λ d i m.
              let known : idx_mem (authed_of d seq) i ≡ true =
                ground (arith, m, (learns d).authed i, fresh.authed d i) in
              record {
                proof = proof;
                given = refl;
                commitment = commitment;
                attested = attested;
                seq = seq;
                shown = shown;
                opens =
                    subst (Opens proof.openings d i)
                      (ground (arith, known, (learns d).knows i, fresh.authed d i))
                      (shown.source d i known);
              };
        })

  -- A transcript proof that is verified, whose encoding openings have as many bytes as their indices,
  -- gives a well-formed partial transcript of the attested lengths; each byte that it authenticates is
  -- that of an opening of the encoding proof, verified for the attested encoding commitment, or that
  -- of a hash opening whose bytes have the attested hash.
  pub verify_transcript_proof-sources :
      ⦃tls : TlsCore⦄
      → (proof : TranscriptProof R) (provider : CryptoProvider) (body : Body R)
        {p : PartialTranscript R}
      → ProofFits proof.encoding_proof
      → verify_transcript_proof proof provider body ≡ returns p
      → IsValid p
        × (length p.sent ≡ (length_of_body body).sent)
        × (length p.received ≡ (length_of_body body).received)
        × ((d : Direction) (i : ℕ)
            → idx_mem (authed_of d p) i ≡ true
            → EncodingSource provider.hash body proof.encoding_proof d i (view d p i)
              ⊎ HashOpens provider.hash body.plaintext_hashes proof.hash_proofs d i (view d p i))
  unfolding verify_transcript_proof
  verify_transcript_proof-sources proof provider body fit run =
      let len = length_of_body body in
      let start = new_partial len.sent len.received in
      let fresh = new_partial-IsNew len.sent len.received in
      let (mid, first, second) =
        bind-eq-returns (open_encodings provider.hash body proof.encoding_proof start) _ run in
      let e =
        open_encodings-EncodingsOpened provider.hash body proof.encoding_proof start fresh fit
          first in
      let h =
        open_hashes-HashesOpened provider.hash body.plaintext_hashes proof.hash_proofs 0 mid second
          e.valid in
      (
        h.valid,
        h.size Direction.sent ∙ (e.size Direction.sent ∙ fresh.sent_size),
        h.size Direction.received ∙ (e.size Direction.received ∙ fresh.received_size),
        λ d i m. elim (h.source d i) [
          | inl opened ↦ inr opened
          | inr (same, same_authed) ↦ inl (
              subst (EncodingSource provider.hash body proof.encoding_proof d i) (sym same)
                (e.source d i (sym same_authed ∙ m)))
        ],
      )

  IsNew-size :
      (sent_len received_len : ℕ) (p : PartialTranscript R)
      → IsNew sent_len received_len p
      → (d : Direction) → length (data_of d p) ≡ length_of d sent_len received_len
  IsNew-size sent_len received_len p n Direction.sent = n.sent_size
  IsNew-size sent_len received_len p n Direction.received = n.received_size

  -- A transcript proof without an encoding proof makes the verifier panic if its first hash opening
  -- is one that the attestation commits to, with an index that has no more bytes than the limit on
  -- the committed data and that ends beyond the attested length of the transcript.
  pub verify_transcript_proof_panics :
      ⦃tls : TlsCore⦄
      → (proof : PlaintextHashProof) (proofs : List PlaintextHashProof) (provider : CryptoProvider)
        (body : Body R) (commitment : PlaintextHash R)
      → Commits provider.hash body.plaintext_hashes proof commitment
      → idx_len commitment.idx ≤ max_total_committed_data
      → length_of commitment.direction (length_of_body body).sent (length_of_body body).received
        < idx_end commitment.idx
      → verify_transcript_proof
          (record { encoding_proof = none; hash_proofs = proof ∷ proofs })
          provider
          body
        ≡ panics
  unfolding verify_transcript_proof open_encodings open_hashes verify_plaintext_hash new_subsequence
  verify_transcript_proof_panics proof proofs provider body commitment c within beyond =
      let len = length_of_body body in
      let start : PartialTranscript R = new_partial len.sent len.received in
      let fit : (idx_len commitment.idx == length proof.blinded.content) ≡ true =
        ground (arith, c.fits) in
      let in_limit : not (ltb max_total_committed_data (0 + idx_len commitment.idx)) ≡ true =
        ground arith in
      let over : length (data_of commitment.direction start) < idx_end commitment.idx = omega (
        arith,
        IsNew-size len.sent len.received start (new_partial-IsNew len.sent len.received)
            commitment.direction,
      ) in
      rw
        (
          c.found,
          c.attested,
          in_limit,
          c.supported,
          c.matches,
          is_equal_refl commitment.hash.value,
          fit,
          union_subsequence_panics start commitment.direction (revealed commitment proof) over,
        )
        refl
