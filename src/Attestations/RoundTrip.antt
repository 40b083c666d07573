-- ===== src/Attestations/RoundTrip.antt =====
-- The proof of an attestation that was built is verified, and gives the attestation back.
use ethdam_rope.Prelude.{
  ℕ, ◌+◌, ◌^◌, ◌<◌, ◌≡◌, refl, ap, sym, subst, ◌∙◌, List, [], ◌∷◌, map, length, get_elem?, some, ok,
  arith, sort_by_key-Increasing, >>=-eq-some,
}
use mathlib.Core.Option.{some-injective}
use ethdam_rope.Outcomes.{returns}
use ethdam_rope.RangeSets.{RangeSet}
use ethdam_rope.Hashes.{Hash, TypedHash, HashAlgorithm, get_hash_alg}
use ethdam_rope.Merkle.{MerkleProof, merkle_root, merkle_proof, merkle_verify}
use ethdam_rope.Merkle.Interfaces.{RsMerkle, DuplicateCheck}
use ethdam_rope.Merkle.Complete.{merkle_verify-merkle_proof}
use ethdam_rope.Fields.{FieldId}
use ethdam_rope.Connections.{TlsCore}
use ethdam_rope.Signing.{Signature, Signer, SignatureVerifier, get_signer, get_verifier}
use ethdam_rope.Providers.{CryptoProvider}
use ethdam_rope.Attestations.{
  Body, Attestation, Codecs, field_index, field_hash, hash_all, hash_fields,
}
use ethdam_rope.Attestations.Build.{Sign, build_attestation, number_body}
use ethdam_rope.Attestations.Proof.{
  AttestationProof, indexed, new_body_proof, new_attestation_proof, verify_body_proof,
  verify_attestation_proof,
}
use ethdam_rope.Attestations.Consistent.{
  build_attestation-Built, body_root-tree_of, tree_of, merkle_insert-tree_of,
}
use ethdam_rope.Attestations.Numbered.{
  Counts, Counts-Increasing, Counts-Ascends, leaves_at-Counts, zip-map, hash_all-Counts,
}

length-map_index :
    (fields : List (FieldId × Hash)) → 0 < length fields → 0 < length (map field_index fields)
length-map_index [] h = absurd (omega arith)
length-map_index (f ∷ fields) h = omega arith

module _ ⦃rm : RsMerkle⦄ ⦃dc : DuplicateCheck⦄ where
  -- Leaves that are numbered from 0 on are proved and verified together.
  all_leaves :
      (hasher : HashAlgorithm) (fields : List (FieldId × Hash)) (root : TypedHash)
      → Counts 0 fields
      → 0 < length fields
      → merkle_root (tree_of hasher (map field_hash fields)) ≡ some root
      → (p : MerkleProof) × (merkle_proof
            (tree_of hasher (map field_hash fields))
            (map field_index fields)
          ≡ some p)
        × (merkle_verify p hasher root (map indexed fields) ≡ ok tt)
  all_leaves hasher fields root counts some_field rooted =
      let (tree, root', p, grown, rooted', _, proved, verified) =
        merkle_verify-merkle_proof hasher (map field_hash fields) (map field_index fields)
          (map field_hash fields) (length-map_index fields some_field)
          (Counts-Ascends 0 fields counts)
          (leaves_at-Counts 0 fields (map field_hash fields) counts
            (λ j. ap (get_elem? (map field_hash fields)) (omega arith))) in
      let same : tree ≡ tree_of hasher (map field_hash fields) =
        some-injective _ _ (sym grown ∙ merkle_insert-tree_of hasher (map field_hash fields)) in
      let same_root : root' ≡ root =
        some-injective _ _ (sym (subst (λ t. merkle_root t ≡ some root') same rooted') ∙ rooted) in
      (
        p,
        subst (λ t. merkle_proof t (map field_index fields) ≡ some p) same proved,
        subst (λ r. merkle_verify p hasher r (map indexed fields) ≡ ok tt) same_root
            (subst (λ ls. merkle_verify p hasher root' ls ≡ ok tt) (zip-map fields) verified),
      )

module _ {R : Type 0} ⦃rs : RangeSet R⦄ ⦃codecs : Codecs R⦄ ⦃rm : RsMerkle⦄
    ⦃dc : DuplicateCheck⦄ where
  -- The sorted fields are numbered from 0 on too.
  hash_fields-Counts :
      (body : Body R) (hasher : HashAlgorithm) {fields : List (FieldId × Hash)}
      → ((fs : List (FieldId × Hash))
          → hash_all body hasher ≡ some fs
          → Counts 0 fs × (0 < length fs))
      → hash_fields body hasher ≡ some fields
      → Counts 0 fields × (0 < length fields)
  unfolding hash_fields
  hash_fields-Counts body hasher numbered run =
      let (fs, all, run1) = >>=-eq-some (hash_all body hasher) _ run in
      let (counts, some_field) = numbered fs all in
      subst (λ x. Counts 0 x × (0 < length x))
        (sym (sort_by_key-Increasing field_index fs (Counts-Increasing 0 fs counts))
          ∙ some-injective _ _ run1)
        (counts, some_field)

  module _ ⦃tls : TlsCore⦄ where
    -- An attestation that was built with fewer than 2 ^ 32 fields gives a proof, and the proof is
    -- verified and gives the attestation back, by a party who has the hash algorithm, under its own
    -- identifier, and a verifier for the signature algorithm that accepts the signer's signatures.
    pub verify_attestation_proof-new_attestation_proof :
        (sign : Sign) (notary : CryptoProvider) (provider : CryptoProvider) (uid : List ℕ)
        (verifier : SignatureVerifier) {a : Attestation R}
        → length sign.extensions + 5 < 2 ^ 32
        → build_attestation sign notary uid ≡ returns a
        → ((hasher : HashAlgorithm)
            → get_hash_alg notary.hash sign.hash_alg ≡ ok hasher
            → (hasher.id ≡ sign.hash_alg) × (get_hash_alg provider.hash hasher.id ≡ ok hasher))
        → get_verifier provider.signature a.signature.alg ≡ ok verifier
        → ((signer : Signer) (message : List ℕ) (signature : Signature)
            → get_signer notary.signer sign.signature_alg ≡ ok signer
            → signer.sign message ≡ ok signature
            → verifier.verify signer.verifying_key message signature.bytes ≡ ok tt)
        → (proof : AttestationProof R) × (new_attestation_proof provider a ≡ returns proof)
          × (verify_attestation_proof proof provider ≡ returns a)
    unfolding number_body new_attestation_proof new_body_proof verify_attestation_proof
        verify_body_proof
    verify_attestation_proof-new_attestation_proof sign notary provider uid verifier {a} few built
          own has_verifier accepts =
        let b = build_attestation-Built sign notary uid built in
        let (fields, hashed, rooted, alg_eq) = body_root-tree_of a.body b.hasher b.root in
        let numbered : (fs : List (FieldId × Hash))
            → hash_all a.body b.hasher ≡ some fs
            → Counts 0 fs × (0 < length fs) =
          λ fs all.
            hash_all-Counts R b.signer.verifying_key b.info b.ephemeral sign.cert_commitment
              b.commitment sign.extensions b.hasher few
              (subst (λ x. hash_all x b.hasher ≡ some fs) b.body_eq all) in
        let (counts, some_field) = hash_fields-Counts a.body b.hasher numbered hashed in
        let (p, proved, verified) =
          all_leaves b.hasher fields a.header.root counts some_field rooted in
        let hash_alg : get_hash_alg provider.hash a.header.root.alg ≡ ok b.hasher =
          subst (λ x. get_hash_alg provider.hash x ≡ ok b.hasher) (sym alg_eq)
            (own b.hasher b.hash_supported).1 in
        let key_eq : a.body.verifying_key.content ≡ b.signer.verifying_key =
          ap (λ x. x.verifying_key.content) b.body_eq in
        (
          record {
            signature = a.signature;
            header = a.header;
            body = record { body = a.body; proof = p };
          },
          rw (hash_alg, hashed, merkle_insert-tree_of b.hasher (map field_hash fields), proved)
              refl,
          rw
              (
                has_verifier,
                hash_alg,
                hashed,
                verified,
                b.serialized,
                key_eq,
                accepts b.signer b.message a.signature b.sign_supported b.signed,
              )
              refl,
        )
