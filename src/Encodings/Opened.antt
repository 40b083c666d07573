-- ===== src/Encodings/Opened.antt =====
-- What a verified encoding proof shows.
use ethdam_rope.Prelude.{
  ℕ, ◌+◌, ◌≤◌, ◌≡◌, ◌⊎◌, inl, inr, refl, sym, subst, ◌∙◌, Bool, true, false, not, ◌||◌, ltb, List,
  [], ◌∷◌, ◌++◌, length, Option, some, arith, HashMap, ok, append-nil, append_assoc, Bool-cases,
}
use ethdam_rope.Outcomes.{
  returns, bind-eq-returns, returns-injective, from_panic-bind, from_result-bind, guard_or-bind,
}
use ethdam_rope.RangeSets.{RangeSet}
use ethdam_rope.Subsequence.{Direction, idx_len, idx_end}
use ethdam_rope.Transcript.{PartialTranscript, TranscriptLength, new_partial, union_subsequence}
use ethdam_rope.Transcript.View.{data_of, authed_of, idx_mem, view, seq_view, IsValid}
use ethdam_rope.Transcript.Added.{
  adds, Added, new_partial-IsNew, union_subsequence-Added, same_direction-true,
}
use ethdam_rope.Hashes.{
  Hash, Blinded, HashAlgorithm, HashProvider, get_hash_alg, CanonicalSerialize, new_with_blinder,
  hash_canonical,
}
use ethdam_rope.Merkle.{merkle_verify}
use ethdam_rope.Merkle.Interfaces.{RsMerkle, DuplicateCheck}
use ethdam_rope.Commits.{max_total_committed_data}
use ethdam_rope.Encodings.Commitment.{EncodingCommitment}
use ethdam_rope.Encodings.Encoder.{ChaCha, ChaChaEncoder, new_encoder, encode_subsequence}
use ethdam_rope.Encodings.Bytes.{seq_encoding, encode_subsequence-seq_encoding}
use ethdam_rope.Encodings.Proof.{
  EncodingLeaf, new_leaf, Opening, EncodingProof, provider_error, inclusion_error, length_of,
  open_all, verify_encoding_proof,
}

module _ {R : Type 0} where
  -- Openings are subsequences with as many bytes as their index: the invariant of the type.
  abbrev pub OpeningsFit : ⦃rs : RangeSet R⦄ → HashMap ℕ (Opening R) → Type 0
  OpeningsFit [] = Unit {0}
  OpeningsFit ((id, o) ∷ os) = (idx_len o.seq.idx ≡ length o.seq.bytes) × OpeningsFit os

  abbrev pub opened_bytes : HashMap ℕ (Opening R) → ℕ
  opened_bytes [] = 0
  opened_bytes ((id, o) ∷ os) = length o.seq.bytes + opened_bytes os

module _ {R : Type 0} ⦃rs : RangeSet R⦄ where
  -- Some opening has the index.
  abbrev pub opened : HashMap ℕ (Opening R) → Direction → ℕ → Bool
  opened [] d i = false
  opened ((id, o) ∷ os) d i = adds o.direction o.seq d i || opened os d i

  -- Some opening has the given byte at the index.
  abbrev pub Opens : HashMap ℕ (Opening R) → Direction → ℕ → Option ℕ → Type 0
  Opens [] d i b = ⊥
  Opens ((id, o) ∷ os) d i b =
      ((o.direction ≡ d) × (idx_mem o.seq.idx i ≡ true) × (seq_view o.seq i ≡ b)) ⊎ Opens os d i b

  module _ ⦃gen : ChaCha⦄ ⦃s : CanonicalSerialize (Blinded EncodingLeaf)⦄ where
    -- The leaves are the hashes of the encodings of the openings, blinded.
    abbrev pub AreLeaves :
        HashAlgorithm → ChaChaEncoder → HashMap ℕ (Opening R) → List (ℕ × Hash) → Type 0
    AreLeaves hasher e [] [] = Unit {0}
    AreLeaves hasher e [] (l ∷ ls) = ⊥
    AreLeaves hasher e ((id, o) ∷ os) [] = ⊥
    AreLeaves hasher e ((id, o) ∷ os) ((j, h) ∷ ls) =
        (j ≡ id)
        × (hash_canonical hasher
              (new_with_blinder (new_leaf (seq_encoding e o.direction o.seq)) o.blinder)
            ≡ some h)
        × AreLeaves hasher e os ls

    -- What the loop over the openings leaves.
    pub record Opened (hasher : HashAlgorithm) (e : ChaChaEncoder) (os : HashMap ℕ (Opening R))
        (total : ℕ) (p : PartialTranscript R) (added : List (ℕ × Hash)) (p' : PartialTranscript R)
        : Type 0 where
      pub valid : IsValid p'
      pub size : (d : Direction) → length (data_of d p') ≡ length (data_of d p)
      pub are_leaves : AreLeaves hasher e os added
      pub bounded :
          (total ≤ max_total_committed_data) → total + opened_bytes os ≤ max_total_committed_data
      pub authed :
          (d : Direction) (i : ℕ)
          → idx_mem (authed_of d p') i ≡ (opened os d i || idx_mem (authed_of d p) i)
      pub source :
          (d : Direction) (i : ℕ)
          → Opens os d i (view d p' i) ⊎ ((opened os d i ≡ false) × (view d p' i ≡ view d p i))

    Opened-nil :
        (hasher : HashAlgorithm) (e : ChaChaEncoder) (total : ℕ) (p : PartialTranscript R)
        → IsValid p
        → Opened hasher e [] total p [] p
    Opened-nil hasher e total p v = record {
      valid = v;
      size = λ d. refl;
      are_leaves = tt;
      bounded = λ h. omega arith;
      authed = λ d i. refl;
      source = λ d i. inr (refl, refl);
    }

    Opened-cons :
        (hasher : HashAlgorithm) (e : ChaChaEncoder) (id : ℕ) (o : Opening R)
        (os : HashMap ℕ (Opening R)) (total : ℕ) (p p1 p' : PartialTranscript R) (h : Hash)
        (added : List (ℕ × Hash))
        → total + length o.seq.bytes ≤ max_total_committed_data
        → hash_canonical hasher
            (new_with_blinder (new_leaf (seq_encoding e o.direction o.seq)) o.blinder)
          ≡ some h
        → Added o.direction o.seq p p1
        → Opened hasher e os (total + length o.seq.bytes) p1 added p'
        → Opened hasher e ((id, o) ∷ os) total p ((id, h) ∷ added) p'
    Opened-cons hasher e id o os total p p1 p' h added within hashed one more = record {
      valid = more.valid;
      size = λ d. more.size d ∙ one.size d;
      are_leaves = (refl, hashed, more.are_leaves);
      bounded = λ b. omega (arith, more.bounded within);
      authed = λ d i. ground (arith, more.authed d i, one.authed d i);
      source = λ d i. elim (more.source d i) [
        | inl later ↦ inl (inr later)
        | inr (later_not, same) ↦ elim (Bool-cases (adds o.direction o.seq d i)) [
          | inl here ↦ inl (
              inl (
                same_direction-true o.direction d (ground (arith, here)),
                ground (arith, here),
                ground (arith, here, same, one.shows d i),
              ))
          | inr not_here ↦
              inr
                (ground (arith, not_here, later_not), ground (arith, not_here, same, one.shows d i))
        ]
      ];
    }

    -- The first opening of a run that returns.
    open_all-cons :
        (hasher : HashAlgorithm) (e : ChaChaEncoder) (sent_len recv_len id : ℕ) (o : Opening R)
        (os : HashMap ℕ (Opening R)) (total : ℕ) (leaves : List (ℕ × Hash))
        (p : PartialTranscript R) {r : List (ℕ × Hash) × PartialTranscript R}
        → open_all hasher e sent_len recv_len ((id, o) ∷ os) total leaves p ≡ returns r
        → idx_len o.seq.idx ≡ length o.seq.bytes
        → IsValid p
        → ((d : Direction) → length (data_of d p) ≡ length_of d sent_len recv_len)
        → (h : Hash) × (p1 : PartialTranscript R) × (total + length o.seq.bytes
            ≤ max_total_committed_data)
          × (hash_canonical hasher
                (new_with_blinder (new_leaf (seq_encoding e o.direction o.seq)) o.blinder)
              ≡ some h)
          × Added o.direction o.seq p p1
          × (open_all hasher e sent_len recv_len os
                (total + length o.seq.bytes)
                (leaves ++ ((id, h) ∷ []))
                p1
              ≡ returns r)
    unfolding open_all
    open_all-cons hasher e sl rl id o os total leaves p run fit v len =
        let (within, run1) =
          guard_or-bind (not (ltb max_total_committed_data (total + length o.seq.bytes))) _ _ run in
        let (inside, run2) =
          guard_or-bind (not (ltb (length_of o.direction sl rl) (idx_end o.seq.idx))) _ _ run1 in
        let (enc, encoded, run3) =
          from_panic-bind (encode_subsequence e o.direction o.seq) _ run2 in
        let (h, hashed, run4) =
          from_panic-bind (hash_canonical hasher (new_with_blinder (new_leaf enc) o.blinder)) _
            run3 in
        let (p1, joined, run5) = from_panic-bind (union_subsequence p o.direction o.seq) _ run4 in
        let in_bounds : idx_end o.seq.idx ≤ length (data_of o.direction p) =
          ground (arith, inside, len o.direction) in
        let enc_eq : enc ≡ seq_encoding e o.direction o.seq =
          cc (encoded, (encode_subsequence-seq_encoding e o.direction o.seq fit).0) in
        let (out, joins, one) = union_subsequence-Added p o.direction o.seq v fit in_bounds in
        let p1_eq : out ≡ p1 = cc (joined, joins) in
        (
          h,
          p1,
          ground (arith, within),
          subst (λ x. hash_canonical hasher (new_with_blinder (new_leaf x) o.blinder) ≡ some h)
              enc_eq hashed,
          subst (Added o.direction o.seq p) p1_eq one,
          run5,
        )

    open_all-Opened :
        (hasher : HashAlgorithm) (e : ChaChaEncoder) (sent_len recv_len : ℕ)
        (os : HashMap ℕ (Opening R)) (total : ℕ) (leaves : List (ℕ × Hash))
        (p : PartialTranscript R) {leaves' : List (ℕ × Hash)} {p' : PartialTranscript R}
        → open_all hasher e sent_len recv_len os total leaves p ≡ returns (leaves', p')
        → OpeningsFit os
        → IsValid p
        → ((d : Direction) → length (data_of d p) ≡ length_of d sent_len recv_len)
        → (added : List (ℕ × Hash)) × (leaves' ≡ leaves ++ added)
          × Opened hasher e os total p added p'
    unfolding open_all
    open_all-Opened hasher e sl rl [] total leaves p run fit v len =
        subst
          (λ r.
            (added : List (ℕ × Hash)) × (r.0 ≡ leaves ++ added)
            × Opened hasher e [] total p added r.1)
          (returns-injective _ _ run) ([], sym (append-nil leaves), Opened-nil hasher e total p v)
    open_all-Opened hasher e sl rl ((id, o) ∷ os) total leaves p run fit v len =
        let (h, p1, within, hashed, step, run') =
          open_all-cons hasher e sl rl id o os total leaves p run fit.0 v len in
        let (added, grown, more) =
          open_all-Opened hasher e sl rl os (total + length o.seq.bytes) (leaves ++ ((id, h) ∷ []))
            p1 run' fit.1 step.valid (λ d. step.size d ∙ len d) in
        (
          (id, h) ∷ added,
          grown ∙ append_assoc leaves ((id, h) ∷ []) added,
          Opened-cons hasher e id o os total p p1 _ h added within hashed step more,
        )

    module _ ⦃rm : RsMerkle⦄ ⦃dc : DuplicateCheck⦄ where
      -- The inclusion proof accepts the leaves of the openings under the root of the commitment, and
      -- the transcript says what the openings say.
      pub record EncodingShown (proof : EncodingProof R) (provider : HashProvider)
          (len : TranscriptLength) (commitment : EncodingCommitment) (p : PartialTranscript R)
          : Type 0 where
        pub hasher : HashAlgorithm
        pub supported : get_hash_alg provider commitment.root.alg ≡ ok hasher
        pub leaves : List (ℕ × Hash)
        pub are_leaves : AreLeaves hasher (new_encoder commitment.secret) proof.openings leaves
        pub included : merkle_verify proof.inclusion_proof hasher commitment.root leaves ≡ ok tt
        pub bounded : opened_bytes proof.openings ≤ max_total_committed_data
        pub valid : IsValid p
        pub sent_size : length p.sent ≡ len.sent
        pub received_size : length p.received ≡ len.received
        pub authed : (d : Direction) (i : ℕ) → idx_mem (authed_of d p) i ≡ opened proof.openings d i
        pub source :
            (d : Direction) (i : ℕ)
            → idx_mem (authed_of d p) i ≡ true
            → Opens proof.openings d i (view d p i)

      -- If an encoding proof whose openings have as many bytes as their indices is verified, then its
      -- inclusion proof accepts, under the root of the commitment, the hashes of the encodings that
      -- the secret of the commitment gives for the openings, and the openings have no more data than
      -- is allowed. The transcript is well formed and of the given lengths; what it authenticates is
      -- just what the openings have, and each byte is that of an opening.
      pub verify_encoding_proof-EncodingShown :
          (proof : EncodingProof R) (provider : HashProvider) (len : TranscriptLength)
          (commitment : EncodingCommitment) {p : PartialTranscript R}
          → OpeningsFit proof.openings
          → verify_encoding_proof proof provider len commitment ≡ returns p
          → EncodingShown proof provider len commitment p
      unfolding verify_encoding_proof new_partial
      verify_encoding_proof-EncodingShown proof provider len commitment {p} fit run =
          let fresh = new_partial-IsNew len.sent len.received in
          let (hasher, got, run1) =
            from_result-bind provider_error (get_hash_alg provider commitment.root.alg) _ run in
          let ((leaves, out), opens, run2) =
            bind-eq-returns
              (open_all hasher (new_encoder commitment.secret) len.sent len.received proof.openings
                0 [] (new_partial len.sent len.received))
              _ run1 in
          let (_, included, run3) =
            from_result-bind inclusion_error
              (merkle_verify proof.inclusion_proof hasher commitment.root leaves) _ run2 in
          let (added, grown, o) =
            open_all-Opened hasher (new_encoder commitment.secret) len.sent len.received
              proof.openings 0 [] (new_partial len.sent len.received) opens fit fresh.valid
              (elim [
                | Direction.sent ↦ fresh.sent_size
                | Direction.received ↦ fresh.received_size
              ]) in
          subst (EncodingShown proof provider len commitment) (returns-injective out p run3)
            (record {
              hasher = hasher;
              supported = got;
              leaves = leaves;
              are_leaves =
                  subst (AreLeaves hasher (new_encoder commitment.secret) proof.openings)
                    (sym grown) o.are_leaves;
              included = included;
              bounded = omega (arith, o.bounded);
              valid = o.valid;
              sent_size = o.size Direction.sent ∙ fresh.sent_size;
              received_size = o.size Direction.received ∙ fresh.received_size;
              authed = λ d i. ground (arith, o.authed d i, fresh.authed d i);
              source = λ d i m. elim (o.source d i) [
                | inl from ↦ from
                | inr (none_has, _) ↦ absurd (cc (m, none_has, o.authed d i, fresh.authed d i))
              ];
            })
