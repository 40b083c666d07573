-- ===== src/Attestations/Build.antt =====
-- tlsn/crates/core/src/attestation/config.rs and attestation/builder.rs: the notary's side, which
-- accepts a request and builds the attestation. The random identifier is an argument, and the values
-- that the builder's setters store are fields of its state.
use ethdam_rope.Prelude.{
  ℕ, Bool, true, false, not, ◌&&◌, List, [], ◌∷◌, ◌++◌, Option, none, some, Result, ok, err,
  is_equal, includes,
}
use ethdam_rope.Outcomes.{
  Outcome, returns, fails, from_panic, from_result, ok_or_else, guard_or, ◌>>=◌, ◌>>◌,
}
use ethdam_rope.RangeSets.{RangeSet}
use ethdam_rope.Hashes.{
  HashAlgId, TypedHash, sha256, blake3, keccak256, HashProviderError, get_hash_alg, hash_alg_id_eq,
}
use ethdam_rope.Merkle.Interfaces.{RsMerkle}
use ethdam_rope.Fields.{FieldId, Field, first_field_id, next_field}
use ethdam_rope.Subsequence.{idx_empty}
use ethdam_rope.Encodings.Commitment.{EncodingCommitment}
use ethdam_rope.Encodings.Encoder.{EncoderSecret}
use ethdam_rope.Connections.{TlsCore, ConnectionInfo, ServerEphemKey, ServerCertCommitment}
use ethdam_rope.Signing.{
  VerifyingKey, SignatureAlgId, SignatureError, UnknownSignatureAlgId, get_signer,
  signature_alg_id_eq,
}
use ethdam_rope.Providers.{CryptoProvider}
use ethdam_rope.Attestations.{
  Extension, FieldKind, connection_info_kind, server_ephem_key_kind,
  server_identity_commitment_kind, encoding_commitment_kind, field_kind_eq, attestation_version,
  Header, Body, Attestation, Codecs, body_root,
}
use ethdam_rope.Requests.{Request}

pub data InvalidExtension : Type 0 where
  invalid_extension : InvalidExtension

pub record AttestationConfig : Type 0 where
  pub supported_signature_algs : List SignatureAlgId
  pub supported_hash_algs : List HashAlgId
  pub supported_fields : List FieldKind
  pub extension_validator : Option (List Extension → Result InvalidExtension (Unit {0}))

-- All extensions are disallowed by default.
abbrev pub disallow_extensions : List Extension → Result InvalidExtension (Unit {0})
disallow_extensions [] = ok tt
disallow_extensions (e ∷ es) = err invalid_extension

abbrev pub default_attestation_config : AttestationConfig
default_attestation_config = record {
  supported_signature_algs = [];
  supported_hash_algs = sha256 ∷ blake3 ∷ keccak256 ∷ [];
  supported_fields =
      connection_info_kind ∷ server_ephem_key_kind ∷ server_identity_commitment_kind
      ∷ encoding_commitment_kind ∷ [];
  extension_validator = some disallow_extensions;
}

-- The state `Sign` of the builder, once a request is accepted.
pub record Sign : Type 0 where
  pub signature_alg : SignatureAlgId
  pub hash_alg : HashAlgId
  pub connection_info : Option ConnectionInfo
  pub server_ephemeral_key : Option ServerEphemKey
  pub cert_commitment : ServerCertCommitment
  pub encoding_commitment_root : Option TypedHash
  pub encoder_secret : Option EncoderSecret
  pub extensions : List Extension

-- The kinds `Request`, `Extension`, `Config`, `Field` and `Signature`.
pub data AttestationBuilderError : Type 0 where
  unsupported_signature_alg : AttestationBuilderError
  unsupported_hash_alg : AttestationBuilderError
  encoding_commitment_unsupported : AttestationBuilderError
  extension_refused : InvalidExtension → AttestationBuilderError
  hash_alg_not_provided : HashProviderError → AttestationBuilderError
  signer_not_provided : UnknownSignatureAlgId → AttestationBuilderError
  encoder_secret_not_set : AttestationBuilderError
  connection_info_not_set : AttestationBuilderError
  handshake_data_not_set : AttestationBuilderError
  signing_failed : SignatureError → AttestationBuilderError

abbrev pub is_request_error : AttestationBuilderError → Bool
is_request_error unsupported_signature_alg = true
is_request_error unsupported_hash_alg = true
is_request_error encoding_commitment_unsupported = true
is_request_error (extension_refused e) = false
is_request_error (hash_alg_not_provided e) = false
is_request_error (signer_not_provided e) = false
is_request_error encoder_secret_not_set = false
is_request_error connection_info_not_set = false
is_request_error handshake_data_not_set = false
is_request_error (signing_failed e) = false

abbrev pub is_some : {A : Type 0} → Option A → Bool
is_some none = false
is_some (some a) = true

unfoldable pub run_validator :
    Option (List Extension → Result InvalidExtension (Unit {0}))
    → List Extension
    → Outcome AttestationBuilderError (Unit {0})
run_validator none extensions = returns tt
run_validator (some validator) extensions = from_result extension_refused (validator extensions)

unfoldable pub accept_request : AttestationConfig → Request → Outcome AttestationBuilderError Sign
unfolding is_equal run_validator
accept_request config request = do
  guard_or (includes config.supported_signature_algs request.signature_alg)
      unsupported_signature_alg
  guard_or (includes config.supported_hash_algs request.hash_alg) unsupported_hash_alg
  guard_or
      (not (
        is_some request.encoding_commitment_root
        && not (includes config.supported_fields encoding_commitment_kind)))
      encoding_commitment_unsupported
  run_validator config.extension_validator request.extensions
  returns (record {
    signature_alg = request.signature_alg;
    hash_alg = request.hash_alg;
    connection_info = none;
    server_ephemeral_key = none;
    cert_commitment = request.server_cert_commitment;
    encoding_commitment_root = request.encoding_commitment_root;
    encoder_secret = none;
    extensions = request.extensions;
  })

abbrev pub add_extension : Sign → Extension → Sign
add_extension sign extension = record sign { extensions = sign.extensions ++ (extension ∷ []) }

unfoldable pub make_commitment :
    Option TypedHash
    → Option EncoderSecret
    → Outcome AttestationBuilderError (Option EncodingCommitment)
make_commitment none secret = returns none
make_commitment (some root) none = fails encoder_secret_not_set
make_commitment (some root) (some secret) = returns (some (record { root = root; secret = secret }))

-- `encoding_commitment.map(|commitment| field_id.next(commitment))`
abbrev pub next_if : {T : Type 0} → FieldId → Option T → Option (Field T) × FieldId
next_if id none = (none, id)
next_if id (some content) = let (field, next) = next_field id content in (some field, next)

unfoldable pub number_fields : {T : Type 0} → FieldId → List T → List (Field T)
number_fields id [] = []
number_fields id (content ∷ contents) =
    let (field, next) = next_field id content in field ∷ number_fields next contents

-- The body, whose fields are numbered in this order.
unfoldable pub number_body :
    {R : Type 0}
    → ⦃rs : RangeSet R⦄ → VerifyingKey
    → ConnectionInfo
    → ServerEphemKey
    → ServerCertCommitment
    → Option EncodingCommitment
    → List Extension
    → Body R
unfolding number_fields
number_body key info ephemeral cert commitment extensions =
    let (key_field, id1) = next_field first_field_id key in
    let (info_field, id2) = next_field id1 info in
    let (ephemeral_field, id3) = next_field id2 ephemeral in
    let (cert_field, id4) = next_field id3 cert in
    let (encoding_field, id5) = next_if id4 commitment in
    record {
      verifying_key = key_field;
      connection_info = info_field;
      server_ephemeral_key = ephemeral_field;
      cert_commitment = cert_field;
      encoding_commitment = encoding_field;
      plaintext_hashes = record {
        items = [];
        field_ids = [];
        transcript_idxs = [];
        sent = idx_empty;
        recv = idx_empty;
      };
      extensions = number_fields id5 extensions;
    }

abbrev pub make_header : List ℕ → TypedHash → Header
make_header uid root = record { id = uid; version = attestation_version; root = root }

module _ {R : Type 0} ⦃rs : RangeSet R⦄ ⦃codecs : Codecs R⦄ ⦃rm : RsMerkle⦄ ⦃tls : TlsCore⦄ where
  unfoldable pub build_attestation :
      Sign → CryptoProvider → List ℕ → Outcome AttestationBuilderError (Attestation R)
  unfolding make_commitment number_body body_root
  build_attestation sign provider uid = do
    hasher ← from_result hash_alg_not_provided (get_hash_alg provider.hash sign.hash_alg)
    signer ← from_result signer_not_provided (get_signer provider.signer sign.signature_alg)
    commitment ← make_commitment sign.encoding_commitment_root sign.encoder_secret
    info ← ok_or_else sign.connection_info connection_info_not_set
    ephemeral ← ok_or_else sign.server_ephemeral_key handshake_data_not_set
    let body =
        number_body signer.verifying_key info ephemeral sign.cert_commitment commitment
          sign.extensions
    root ← from_panic (body_root body hasher)
    message ← from_panic (codecs.header.serialize (make_header uid root))
    signature ← from_result signing_failed (signer.sign message)
    returns (record { signature = signature; header = make_header uid root; body = body })
