-- ===== src/Requests.antt =====
-- tlsn/crates/core/src/request.rs, request/config.rs and request/builder.rs: what a prover asks the
-- notary to attest to, and the check of the answer. The values that a builder sets are the fields of
-- its state.
use ethdam_rope.Prelude.{
  Bool, true, false, not, if◌then◌else◌, List, [], ◌∷◌, ◌++◌, Option, none, some, is_equal,
  includes,
}
use ethdam_rope.Outcomes.{Outcome, returns, ok_or_else, guard_or, ◌>>=◌, ◌>>◌}
use ethdam_rope.Hashes.{HashAlgId, TypedHash, blake3, hash_alg_id_eq, typed_hash_eq}
use ethdam_rope.Connections.{ServerCertCommitment, cert_commitment_eq}
use ethdam_rope.Signing.{SignatureAlgId, secp256k1_sig, signature_alg_id_eq}
use ethdam_rope.Attestations.{Extension, Attestation, extension_eq, field_content, field_contents}

pub record Request : Type 0 where
  pub signature_alg : SignatureAlgId
  pub hash_alg : HashAlgId
  pub server_cert_commitment : ServerCertCommitment
  pub encoding_commitment_root : Option TypedHash
  pub extensions : List Extension

pub data InconsistentAttestation : Type 0 where
  signature_alg_differs : InconsistentAttestation
  hash_alg_differs : InconsistentAttestation
  cert_commitment_differs : InconsistentAttestation
  encoding_commitment_missing : InconsistentAttestation
  encoding_root_differs : InconsistentAttestation
  extension_missing : InconsistentAttestation

pub record RequestConfig : Type 0 where
  pub signature_alg : SignatureAlgId
  pub hash_alg : HashAlgId
  pub extensions : List Extension

abbrev pub default_request_config : RequestConfig
default_request_config = record {
  signature_alg = secp256k1_sig;
  hash_alg = blake3;
  extensions = [];
}

abbrev pub add_request_extension : RequestConfig → Extension → RequestConfig
add_request_extension config extension = record config {
  extensions = config.extensions ++ (extension ∷ []);
}

-- for extension in &self.extensions { if !attested.any(|e| e == extension) { return Err } }
unfoldable pub all_included : List Extension → List Extension → Bool
unfolding is_equal
all_included [] attested = true
all_included (extension ∷ extensions) attested =
    let rest = all_included extensions attested in
    if not (includes attested extension) then false else rest

unfoldable pub validate_root :
    {R : Type 0} → Option TypedHash → Attestation R → Outcome InconsistentAttestation (Unit {0})
unfolding is_equal
validate_root none attestation = returns tt
validate_root (some root) attestation = do
  commitment ←
      ok_or_else (field_content attestation.body.encoding_commitment) encoding_commitment_missing
  guard_or (is_equal commitment.root root) encoding_root_differs

unfoldable pub validate :
    {R : Type 0} → Request → Attestation R → Outcome InconsistentAttestation (Unit {0})
unfolding is_equal validate_root all_included
validate request attestation = do
  guard_or (is_equal attestation.signature.alg request.signature_alg) signature_alg_differs
  guard_or (is_equal attestation.header.root.alg request.hash_alg) hash_alg_differs
  guard_or (is_equal attestation.body.cert_commitment.content request.server_cert_commitment)
      cert_commitment_differs
  validate_root request.encoding_commitment_root attestation
  guard_or (all_included request.extensions (field_contents attestation.body.extensions))
      extension_missing
