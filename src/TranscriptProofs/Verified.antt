-- ===== src/TranscriptProofs/Verified.antt =====
-- What a verified transcript proof shows.
use ethdam_rope.Prelude.{
  ℕ, ◌+◌, ◌≤◌, ◌≡◌, ◌⊎◌, inl, inr, refl, ap, sym, subst, ◌∙◌, true, not, ltb, List, [], ◌∷◌, length,
  Option, some, none, arith, ok, Eq, is_equal, is_equal-true, Bool-cases,
}
use ethdam_rope.Outcomes.{
  returns, returns-injective, from_panic-bind, from_result-bind, guard_or-bind, ok_or_else-bind,
  map_fails-bind,
}
use ethdam_rope.RangeSets.{RangeSet}
use ethdam_rope.Subsequence.{Direction, Idx, Subsequence, idx_len, new_subsequence}
use ethdam_rope.Transcript.{PartialTranscript, union_subsequence}
use ethdam_rope.Transcript.View.{data_of, authed_of, idx_mem, view, seq_view, IsValid}
use ethdam_rope.Transcript.Added.{adds, Added, union_subsequence-returned, same_direction-true}
use ethdam_rope.Hashes.{
  HashAlgorithm, HashProvider, Blinded, CanonicalSerialize, hash_canonical, get_hash_alg, hash_eq,
}
use ethdam_rope.Commits.{max_total_committed_data}
use ethdam_rope.Fields.{Field}
use ethdam_rope.Indexes.{Index, get_by_field_id}
use ethdam_rope.PlaintextHashes.{
  PlaintextHash, PlaintextHashProof, hash_alg_error, hash_mismatch, subsequence_error,
  verify_plaintext_hash,
}
use ethdam_rope.Attestations.{field_content}
use ethdam_rope.TranscriptProofs.{
  missing_hash_commitment, exceeded_hash_data, hash_error, open_hashes,
}

new_subsequence-eq_ok :
    {R : Type 0}
    → ⦃rs : RangeSet R⦄ → (idx : Idx R) (bytes : List ℕ) {seq : Subsequence R}
    → new_subsequence idx bytes ≡ ok seq
    → (idx_len idx ≡ length bytes) × (record { idx = idx; bytes = bytes } ≡ seq)
unfolding new_subsequence
new_subsequence-eq_ok idx bytes h = (ground arith, ground arith)

field_content-eq_some :
    {T : Type 0} (found : Option (Field T)) {content : T}
    → field_content found ≡ some content
    → (field : Field T) × (found ≡ some field) × (field.content ≡ content)
field_content-eq_some none h = cc
field_content-eq_some (some field) h = (field, refl, cc)

module _ {R : Type 0} ⦃rs : RangeSet R⦄ ⦃er : Eq (Direction × Idx R)⦄
    ⦃sb : CanonicalSerialize (Blinded (List ℕ))⦄ where
  -- A commitment of the attestation, by the identifier that the proof names, is the hash of the
  -- proof's bytes, which are as many as its index.
  pub record Commits (provider : HashProvider) (hashes : Index (Field (PlaintextHash R)) R)
      (proof : PlaintextHashProof) (commitment : PlaintextHash R) : Type 0 where
    pub field : Field (PlaintextHash R)
    pub found : get_by_field_id hashes proof.commitment ≡ some (some field)
    pub attested : field.content ≡ commitment
    pub alg : HashAlgorithm
    pub supported : get_hash_alg provider commitment.hash.alg ≡ ok alg
    pub matches : hash_canonical alg proof.blinded ≡ some commitment.hash.value
    pub fits : idx_len commitment.idx ≡ length proof.blinded.content

  abbrev pub revealed : PlaintextHash R → PlaintextHashProof → Subsequence R
  revealed commitment proof = record { idx = commitment.idx; bytes = proof.blinded.content }

  pub verify_plaintext_hash-eq_returns :
      (proof : PlaintextHashProof) (provider : HashProvider) (commitment : PlaintextHash R)
      {r : Direction × Subsequence R}
      → verify_plaintext_hash proof provider commitment ≡ returns r
      → (alg : HashAlgorithm) × (get_hash_alg provider commitment.hash.alg ≡ ok alg)
        × (hash_canonical alg proof.blinded ≡ some commitment.hash.value)
        × (idx_len commitment.idx ≡ length proof.blinded.content)
        × ((commitment.direction, revealed commitment proof) ≡ r)
  unfolding verify_plaintext_hash new_subsequence
  verify_plaintext_hash-eq_returns proof provider commitment run =
      let (alg, got, run1) =
        from_result-bind hash_alg_error (get_hash_alg provider commitment.hash.alg) _ run in
      let (hash, hashed, run2) = from_panic-bind (hash_canonical alg proof.blinded) _ run1 in
      let (same, run3) = guard_or-bind (is_equal commitment.hash.value hash) hash_mismatch _ run2 in
      let (seq, made, run4) =
        from_result-bind subsequence_error (new_subsequence commitment.idx proof.blinded.content) _
          run3 in
      let (fits, seq_eq) = new_subsequence-eq_ok commitment.idx proof.blinded.content made in
      (
        alg,
        got,
        hashed ∙ ap some (sym (is_equal-true commitment.hash.value hash same)),
        fits,
        ap (λ x. (commitment.direction, x)) seq_eq ∙ returns-injective _ _ run4,
      )

  -- Some opening has the given byte at the index, and the attestation commits to it.
  abbrev pub HashOpens :
      HashProvider
      → Index (Field (PlaintextHash R)) R
      → List PlaintextHashProof
      → Direction
      → ℕ
      → Option ℕ
      → Type 0
  HashOpens provider hashes [] d i b = ⊥
  HashOpens provider hashes (proof ∷ proofs) d i b =
      ((commitment : PlaintextHash R) × Commits provider hashes proof commitment
        × (commitment.direction ≡ d)
        × (idx_mem commitment.idx i ≡ true)
        × (seq_view (revealed commitment proof) i ≡ b))
      ⊎ HashOpens provider hashes proofs d i b

  -- What the loop over the hash openings leaves.
  pub record HashesOpened (provider : HashProvider) (hashes : Index (Field (PlaintextHash R)) R)
      (proofs : List PlaintextHashProof) (p p' : PartialTranscript R) : Type 0 where
    pub valid : IsValid p'
    pub size : (d : Direction) → length (data_of d p') ≡ length (data_of d p)
    pub source :
        (d : Direction) (i : ℕ)
        → HashOpens provider hashes proofs d i (view d p' i)
          ⊎ ((view d p' i ≡ view d p i) × (idx_mem (authed_of d p') i ≡ idx_mem (authed_of d p) i))

  HashesOpened-cons :
      (provider : HashProvider) (hashes : Index (Field (PlaintextHash R)) R)
      (proof : PlaintextHashProof) (proofs : List PlaintextHashProof) (commitment : PlaintextHash R)
      (p p1 p' : PartialTranscript R)
      → Commits provider hashes proof commitment
      → Added commitment.direction (revealed commitment proof) p p1
      → HashesOpened provider hashes proofs p1 p'
      → HashesOpened provider hashes (proof ∷ proofs) p p'
  HashesOpened-cons provider hashes proof proofs commitment p p1 p' commits one more =
      let adds_at = adds commitment.direction (revealed commitment proof) in
      record {
        valid = more.valid;
        size = λ d. more.size d ∙ one.size d;
        source = λ d i. elim (more.source d i) [
          | inl later ↦ inl (inr later)
          | inr (same, same_authed) ↦ elim (Bool-cases (adds_at d i)) [
            | inl here ↦ inl (
                inl (
                  commitment,
                  commits,
                  same_direction-true commitment.direction d (ground (arith, here)),
                  ground (arith, here),
                  ground (arith, here, same, one.shows d i),
                ))
            | inr not_here ↦ inr (
              ground (arith, not_here, same, one.shows d i),
              ground (arith, not_here, same_authed, one.authed d i),
            )
          ]
        ];
      }

  -- The first opening of a run that returns.
  open_hashes-cons :
      (provider : HashProvider) (hashes : Index (Field (PlaintextHash R)) R)
      (proof : PlaintextHashProof) (proofs : List PlaintextHashProof) (total : ℕ)
      (p : PartialTranscript R) {p' : PartialTranscript R}
      → open_hashes provider hashes (proof ∷ proofs) total p ≡ returns p'
      → IsValid p
      → (commitment : PlaintextHash R) × (p1 : PartialTranscript R) × Commits provider hashes proof
          commitment
        × Added commitment.direction (revealed commitment proof) p p1
        × (total + idx_len commitment.idx ≤ max_total_committed_data)
        × (open_hashes provider hashes proofs (total + idx_len commitment.idx) p1 ≡ returns p')
  unfolding open_hashes
  open_hashes-cons provider hashes proof proofs total p run v =
      let (found, got, run1) = from_panic-bind (get_by_field_id hashes proof.commitment) _ run in
      let (commitment, is, run2) =
        ok_or_else-bind (field_content found) (missing_hash_commitment proof.commitment) _ run1 in
      let (within, run3) =
        guard_or-bind (not (ltb max_total_committed_data (total + idx_len commitment.idx)))
          exceeded_hash_data _ run2 in
      let (seq, verified, run4) =
        map_fails-bind hash_error (verify_plaintext_hash proof provider commitment) _ run3 in
      let (alg, supported, matches, fits, seq_eq) =
        verify_plaintext_hash-eq_returns proof provider commitment verified in
      let (p1, joined, run5) = from_panic-bind (union_subsequence p seq.0 seq.1) _ run4 in
      let joins : union_subsequence p commitment.direction (revealed commitment proof) ≡ some p1 =
        subst (λ x. union_subsequence p x.0 x.1 ≡ some p1) (sym seq_eq) joined in
      let (field, found_eq, content_eq) = field_content-eq_some found is in
      (
        commitment,
        p1,
        record {
          field = field;
          found = got ∙ ap some found_eq;
          attested = content_eq;
          alg = alg;
          supported = supported;
          matches = matches;
          fits = fits;
        },
        union_subsequence-returned p commitment.direction (revealed commitment proof) v fits joins,
        ground (arith, within),
        run5,
      )

  pub open_hashes-HashesOpened :
      (provider : HashProvider) (hashes : Index (Field (PlaintextHash R)) R)
      (proofs : List PlaintextHashProof) (total : ℕ) (p : PartialTranscript R)
      {p' : PartialTranscript R}
      → open_hashes provider hashes proofs total p ≡ returns p'
      → IsValid p
      → HashesOpened provider hashes proofs p p'
  unfolding open_hashes
  open_hashes-HashesOpened provider hashes [] total p run v =
      subst (HashesOpened provider hashes [] p) (returns-injective p _ run)
        (record { valid = v; size = λ d. refl; source = λ d i. inr (refl, refl) })
  open_hashes-HashesOpened provider hashes (proof ∷ proofs) total p run v =
      let (commitment, p1, commits, one, within, run') =
        open_hashes-cons provider hashes proof proofs total p run v in
      HashesOpened-cons provider hashes proof proofs commitment p p1 _ commits one (
        open_hashes-HashesOpened provider hashes proofs (total + idx_len commitment.idx) p1 run'
          one.valid)
