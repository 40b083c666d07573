-- ===== src/Connections.antt =====
-- tlsn/crates/core/src/connection.rs, connection/commit.rs and connection/proof.rs: what is known of
-- the connection, and the proof of the server's identity. The certificate verifier, the names of the
-- domain name system and the encoding of the key exchange parameters are those of the crate
-- `tls_core`, a copy of another project's library: parameters.

use Prim.Native.String.{String}
use ethdam_rope.Prelude.{
  ℕ, Bool, List, [], ◌∷◌, ◌++◌, Option, none, some, MayPanic, Eq, is_equal, ℕ_discrete,
}
use ethdam_rope.Outcomes.{
  Outcome, returns, from_panic, from_result, ok_or_else, guard_or, map_fails, ◌>>=◌, ◌>>◌,
}
use ethdam_rope.Transcript.{TranscriptLength}
use ethdam_rope.Hashes.{
  TypedHash, HashAlgorithm, HashProvider, HashProviderError, get_hash_alg, Blinder, Blinded,
  new_with_blinder, CanonicalSerialize, DomainSeparator, hash_separated, hash_eq, typed_hash_eq,
}

pub data TlsVersion : Type 0 where
  v1_2 v1_3 : TlsVersion

pub record ServerName : Type 0 where
  pub name : String

pub data KeyType : Type 0 where
  secp256r1 : KeyType

pub data SignatureScheme : Type 0 where
  rsa_pkcs1_sha1 ecdsa_sha1_legacy rsa_pkcs1_sha256 ecdsa_nistp256_sha256 rsa_pkcs1_sha384 :
      SignatureScheme
  ecdsa_nistp384_sha384 rsa_pkcs1_sha512 ecdsa_nistp521_sha512 rsa_pss_sha256 : SignatureScheme
  rsa_pss_sha384 rsa_pss_sha512 ed25519 : SignatureScheme

-- The code of each scheme.
abbrev pub scheme_code : SignatureScheme → ℕ
scheme_code SignatureScheme.rsa_pkcs1_sha1 = 0x0201
scheme_code SignatureScheme.ecdsa_sha1_legacy = 0x0203
scheme_code SignatureScheme.rsa_pkcs1_sha256 = 0x0401
scheme_code SignatureScheme.ecdsa_nistp256_sha256 = 0x0403
scheme_code SignatureScheme.rsa_pkcs1_sha384 = 0x0501
scheme_code SignatureScheme.ecdsa_nistp384_sha384 = 0x0503
scheme_code SignatureScheme.rsa_pkcs1_sha512 = 0x0601
scheme_code SignatureScheme.ecdsa_nistp521_sha512 = 0x0603
scheme_code SignatureScheme.rsa_pss_sha256 = 0x0804
scheme_code SignatureScheme.rsa_pss_sha384 = 0x0805
scheme_code SignatureScheme.rsa_pss_sha512 = 0x0806
scheme_code SignatureScheme.ed25519 = 0x0807

pub record Certificate : Type 0 where
  pub der : List ℕ

pub record ServerSignature : Type 0 where
  pub scheme : SignatureScheme
  pub sig : List ℕ

pub record ServerEphemKey : Type 0 where
  pub typ : KeyType
  pub key : List ℕ

pub record ConnectionInfo : Type 0 where
  pub time : ℕ
  pub version : TlsVersion
  pub transcript_length : TranscriptLength

pub record HandshakeDataV1_2 : Type 0 where
  pub client_random : List ℕ
  pub server_random : List ℕ
  pub server_ephemeral_key : ServerEphemKey

pub data HandshakeData : Type 0 where
  v1_2 : HandshakeDataV1_2 → HandshakeData

pub record ServerCertData : Type 0 where
  pub certs : List Certificate
  pub sig : ServerSignature
  pub handshake : HandshakeData

pub record ServerCertOpening : Type 0 where
  pub blinded : Blinded ServerCertData

pub record ServerCertCommitment : Type 0 where
  pub hash : TypedHash

pub record ServerIdentityProof : Type 0 where
  pub name : ServerName
  pub opening : ServerCertOpening

pub data CertificateVerificationError : Type 0 where
  invalid_identity : ServerName → CertificateVerificationError
  missing_certs : CertificateVerificationError
  invalid_cert : CertificateVerificationError
  invalid_server_signature : CertificateVerificationError
  invalid_server_ephemeral_key : CertificateVerificationError

-- The kinds `Provider`, `Commitment` and `Certificate`.
pub data ServerIdentityProofError : Type 0 where
  identity_provider_error : HashProviderError → ServerIdentityProofError
  commitment_mismatch : ServerIdentityProofError
  certificate_error : CertificateVerificationError → ServerIdentityProofError

server_ephem_key_dec : Discrete ServerEphemKey
server_ephem_key_dec = hlevel ℕ_discrete

instance unfoldable pub server_ephem_key_eq : Eq ServerEphemKey
unfolding server_ephem_key_dec
server_ephem_key_eq = record { dec = server_ephem_key_dec }

cert_commitment_dec : Discrete ServerCertCommitment
cert_commitment_dec = hlevel ℕ_discrete

instance unfoldable pub cert_commitment_eq : Eq ServerCertCommitment
unfolding cert_commitment_dec
cert_commitment_eq = record { dec = cert_commitment_dec }

-- The crate `tls_core`: the parameters of a key exchange as they are sent, a parser of names, and a
-- verifier of certificates.
pub record TlsCore : Type 1 where
  pub DnsName : Type 0
  pub Verifier : Type 0
  pub parse_dns : String → Option DnsName
  pub encode_ecdh_params : KeyType → List ℕ → List ℕ
  pub verify_server_cert : Verifier → Certificate → List Certificate → DnsName → ℕ → Bool
  pub verify_tls12_signature : Verifier → List ℕ → Certificate → SignatureScheme → List ℕ → Bool

abbrev pub split_first : List Certificate → Option (Certificate × List Certificate)
split_first [] = none
split_first (c ∷ cs) = some (c, cs)

-- `ServerCertData::verify_with_provider`, given the `cert` of the provider.
module _ ⦃tls : TlsCore⦄ where
  abbrev pub kx_params : ServerEphemKey → List ℕ
  kx_params key = tls.encode_ecdh_params key.typ key.key

  unfoldable pub verify_cert_data :
      ServerCertData
      → tls.Verifier
      → ℕ
      → ServerEphemKey
      → ServerName
      → Outcome CertificateVerificationError (Unit {0})
  unfolding is_equal
  verify_cert_data cert_data verifier time key name = elim cert_data.handshake [
    | v1_2 handshake ↦ do
      guard_or (is_equal key handshake.server_ephemeral_key) invalid_server_ephemeral_key
      dns_name ← ok_or_else (tls.parse_dns name.name) (invalid_identity name)
      (end_entity, intermediates) ← ok_or_else (split_first cert_data.certs) missing_certs
      guard_or (tls.verify_server_cert verifier end_entity intermediates dns_name time) invalid_cert
      let message = (handshake.client_random ++ handshake.server_random) ++ kx_params key
      guard_or
          (tls.verify_tls12_signature verifier message end_entity cert_data.sig.scheme
            cert_data.sig.sig)
          invalid_server_signature
      returns tt
  ]

module _ ⦃s : CanonicalSerialize ServerCertOpening⦄ ⦃d : DomainSeparator ServerCertOpening⦄ where
  abbrev pub new_cert_opening : ServerCertData → Blinder → ServerCertOpening
  new_cert_opening cert_data blinder = record { blinded = new_with_blinder cert_data blinder }

  unfoldable pub commit_cert : ServerCertOpening → HashAlgorithm → MayPanic ServerCertCommitment
  commit_cert opening hasher = elim (hash_separated hasher opening) [
    | none ↦ none
    | some value ↦ some (record { hash = record { alg = hasher.id; value = value } })
  ]

  module _ ⦃tls : TlsCore⦄ where
    -- `ServerIdentityProof::verify_with_provider`.
    unfoldable pub verify_identity :
        ServerIdentityProof
        → HashProvider
        → tls.Verifier
        → ℕ
        → ServerEphemKey
        → ServerCertCommitment
        → Outcome ServerIdentityProofError ServerName
    unfolding is_equal verify_cert_data
    verify_identity proof provider verifier time key commitment = do
      hasher ← from_result identity_provider_error (get_hash_alg provider commitment.hash.alg)
      hash ← from_panic (hash_separated hasher proof.opening)
      guard_or (is_equal commitment.hash.value hash) commitment_mismatch
      map_fails certificate_error
          (verify_cert_data proof.opening.blinded.content verifier time key proof.name)
      returns proof.name
