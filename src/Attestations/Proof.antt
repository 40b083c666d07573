-- ===== src/Attestations/Proof.antt =====
-- tlsn/crates/core/src/attestation/proof.rs: the proof of an attestation, which the holder makes and
-- another party verifies.
use ethdam_rope.Prelude.{ℕ, map}
use ethdam_rope.Outcomes.{Outcome, returns, from_panic, from_result, ◌>>=◌, ◌>>◌}
use ethdam_rope.Hashes.{Hash, HashAlgorithm, HashProviderError, get_hash_alg}
use ethdam_rope.Merkle.{
  MerkleProof, MerkleError, merkle_verify, new_merkle_tree, merkle_insert, merkle_proof,
}
use ethdam_rope.Merkle.Interfaces.{RsMerkle, DuplicateCheck}
use ethdam_rope.Fields.{FieldId}
use ethdam_rope.Connections.{TlsCore}
use ethdam_rope.Signing.{Signature, UnknownSignatureAlgId, SignatureError, get_verifier}
use ethdam_rope.Providers.{CryptoProvider}
use ethdam_rope.Attestations.{
  Header, Body, Attestation, Codecs, field_index, field_hash, hash_fields,
}

-- The kinds `Provider`, `Signature` and `Body`.
pub data AttestationError : Type 0 where
  hash_provider_error : HashProviderError → AttestationError
  signature_provider_error : UnknownSignatureAlgId → AttestationError
  signature_error : SignatureError → AttestationError
  body_error : MerkleError → AttestationError

module _ ⦃rm : RsMerkle⦄ where
  pub record BodyProof (R : Type 0) : Type 0 where
    pub body : Body R
    pub proof : MerkleProof

  pub record AttestationProof (R : Type 0) : Type 0 where
    pub signature : Signature
    pub header : Header
    pub body : BodyProof R

-- .map(|(id, hash)| (id.0 as usize, hash))
abbrev pub indexed : FieldId × Hash → ℕ × Hash
indexed field = (field.0.id, field.1)

module _ {R : Type 0} ⦃codecs : Codecs R⦄ ⦃rm : RsMerkle⦄ where
  unfoldable pub new_body_proof : HashAlgorithm → Body R → Outcome AttestationError (BodyProof R)
  unfolding hash_fields new_merkle_tree merkle_insert merkle_proof
  new_body_proof hasher body = do
    fields ← from_panic (hash_fields body hasher)
    tree ← from_panic (merkle_insert (new_merkle_tree hasher.id) hasher (map field_hash fields))
    proof ← from_panic (merkle_proof tree (map field_index fields))
    returns (record { body = body; proof = proof })

  module _ ⦃tls : TlsCore⦄ where
    unfoldable pub new_attestation_proof :
        CryptoProvider → Attestation R → Outcome AttestationError (AttestationProof R)
    unfolding new_body_proof
    new_attestation_proof provider attestation = do
      hasher ←
          from_result hash_provider_error (get_hash_alg provider.hash attestation.header.root.alg)
      body ← new_body_proof hasher attestation.body
      returns
          (record { signature = attestation.signature; header = attestation.header; body = body })

    module _ ⦃dc : DuplicateCheck⦄ where
      unfoldable pub verify_body_proof :
          BodyProof R → CryptoProvider → Header → Outcome AttestationError (Body R)
      unfolding hash_fields merkle_verify
      verify_body_proof bp provider header = do
        hasher ← from_result hash_provider_error (get_hash_alg provider.hash header.root.alg)
        fields ← from_panic (hash_fields bp.body hasher)
        from_result body_error (merkle_verify bp.proof hasher header.root (map indexed fields))
        returns bp.body

      unfoldable pub verify_attestation_proof :
          AttestationProof R → CryptoProvider → Outcome AttestationError (Attestation R)
      unfolding verify_body_proof
      verify_attestation_proof ap provider = do
        verifier ←
            from_result signature_provider_error (get_verifier provider.signature ap.signature.alg)
        body ← verify_body_proof ap.body provider ap.header
        message ← from_panic (codecs.header.serialize ap.header)
        from_result signature_error
            (verifier.verify body.verifying_key.content message ap.signature.bytes)
        returns (record { signature = ap.signature; header = ap.header; body = body })
