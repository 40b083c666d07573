-- ===== src/Tests/Attested.antt =====
-- Instances of the theorems on attestations.
use ethdam_rope.Prelude.{
  ℕ, ◌≡◌, refl, sym, ap, subst, List, [], ◌∷◌, ◌++◌, some, none, ok, arith, get_entry, ℕ_discrete,
}
use ethdam_rope.Outcomes.{returns}
use ethdam_rope.RangeSets.Bitmap.{Bitmap, bitmap}
use ethdam_rope.Hashes.{hash_alg_id_eq, hash_eq, HashAlgorithm, blake3, get_hash_alg}
use ethdam_rope.Encodings.Encoder.{EncoderSecret}
use ethdam_rope.Connections.{TlsVersion, KeyType, ConnectionInfo, ServerEphemKey}
use ethdam_rope.Signing.{
  secp256k1_sig, signature_alg_id_eq, VerifyingKey, Signature, Signer, SignatureVerifier,
  get_signer, get_verifier,
}
use ethdam_rope.Providers.{CryptoProvider}
use ethdam_rope.Attestations.{Extension, Attestation, Codec, Codecs, field_kind_eq}
use ethdam_rope.Attestations.Build.{
  AttestationConfig, Sign, default_attestation_config, accept_request, build_attestation,
  number_body,
}
use ethdam_rope.Attestations.Proof.{
  AttestationProof, new_attestation_proof, verify_attestation_proof,
}
use ethdam_rope.Attestations.Consistent.{prepared, validate-build_attestation}
use ethdam_rope.Attestations.RoundTrip.{verify_attestation_proof-new_attestation_proof}
use ethdam_rope.Requests.{Request, validate}
use ethdam_rope.Tests.Crypto.{pairwise, leaf_list, only_blake3, any_tls, small_hash, first_bytes}

abbrev tagged : {T : Type 0} → List ℕ → (T → List ℕ) → Codec T
tagged tag bytes = record {
  bytes = record { serialize = λ x. some (bytes x) };
  separator = record { domain = tag };
}

instance unfoldable fields_codecs : Codecs Bitmap
fields_codecs = record {
  verifying_key = tagged (1 ∷ []) (λ x. x.key);
  connection_info = tagged (2 ∷ []) (λ x. x.time ∷ []);
  server_ephemeral_key = tagged (3 ∷ []) (λ x. x.key);
  cert_commitment = tagged (4 ∷ []) (λ x. x.hash.value.value);
  encoding_commitment = tagged (5 ∷ []) (λ x. x.root.value.value);
  plaintext_hash = tagged (6 ∷ []) (λ x. x.hash.value.value);
  extension = tagged (7 ∷ []) (λ x. x.id ++ x.value);
  header = record { serialize = λ x. some (x.id ++ x.root.value.value) };
}

abbrev notary_key : VerifyingKey
notary_key = record { alg = record { id = 1 }; key = 5 ∷ [] }

-- Signs with no secret, and accepts every signature.
abbrev test_signer : Signer
test_signer = record {
  alg_id = secp256k1_sig;
  sign = λ message. ok (record { alg = secp256k1_sig; bytes = message });
  verifying_key = notary_key;
}

abbrev test_verifier : SignatureVerifier
test_verifier = record { alg_id = secp256k1_sig; verify = λ key message signature. ok tt }

abbrev notary_provider : CryptoProvider
unfolding any_tls
notary_provider = record {
  hash = only_blake3;
  cert = tt;
  signer = record { signers = (secp256k1_sig, test_signer) ∷ [] };
  signature = record { verifiers = (secp256k1_sig, test_verifier) ∷ [] };
}

abbrev test_request : Request
test_request = record {
  signature_alg = secp256k1_sig;
  hash_alg = blake3;
  server_cert_commitment = record { hash = record { alg = blake3; value = small_hash } };
  encoding_commitment_root = some (record { alg = blake3; value = small_hash });
  extensions = record { id = 1 ∷ []; value = 2 ∷ [] } ∷ [];
}

-- Any extension is accepted.
abbrev test_config : AttestationConfig
test_config = record default_attestation_config {
  supported_signature_algs = secp256k1_sig ∷ [];
  extension_validator = none;
}

abbrev accepted_sign : Sign
accepted_sign = record {
  signature_alg = secp256k1_sig;
  hash_alg = blake3;
  connection_info = none;
  server_ephemeral_key = none;
  cert_commitment = test_request.server_cert_commitment;
  encoding_commitment_root = test_request.encoding_commitment_root;
  encoder_secret = none;
  extensions = test_request.extensions;
}

accept_request_runs : accept_request test_config test_request ≡ returns accepted_sign
unfolding accept_request signature_alg_id_eq hash_alg_id_eq field_kind_eq ℕ_discrete
accept_request_runs = refl

abbrev test_info : ConnectionInfo
test_info = record {
  time = 0;
  version = TlsVersion.v1_2;
  transcript_length = record { sent = 2; received = 0 };
}

abbrev test_ephemeral : ServerEphemKey
test_ephemeral = record { typ = KeyType.secp256r1; key = 6 ∷ [] }

abbrev test_secret : EncoderSecret
test_secret = record { seed = 3 ∷ []; delta = 9 ∷ [] }

abbrev notary_extension : Extension
notary_extension = record { id = 3 ∷ []; value = 4 ∷ [] }

abbrev ready_sign : Sign
ready_sign =
    prepared accepted_sign test_info test_ephemeral (some test_secret) (notary_extension ∷ [])

get_hash_alg_runs : get_hash_alg only_blake3 blake3 ≡ ok first_bytes
unfolding get_entry hash_alg_id_eq ℕ_discrete
get_hash_alg_runs = refl

get_signer_runs : get_signer notary_provider.signer secp256k1_sig ≡ ok test_signer
unfolding get_entry signature_alg_id_eq ℕ_discrete notary_provider
get_signer_runs = refl

get_verifier_runs : get_verifier notary_provider.signature secp256k1_sig ≡ ok test_verifier
unfolding get_entry signature_alg_id_eq ℕ_discrete notary_provider
get_verifier_runs = refl

get_hash_alg-only :
    (hasher : HashAlgorithm)
    → get_hash_alg notary_provider.hash blake3 ≡ ok hasher
    → first_bytes ≡ hasher
unfolding notary_provider
get_hash_alg-only hasher h = cc (h, get_hash_alg_runs)

get_signer-only :
    (signer : Signer)
    → get_signer notary_provider.signer secp256k1_sig ≡ ok signer
    → test_signer ≡ signer
get_signer-only signer h = cc (h, get_signer_runs)

signed_alg :
    (signer : Signer) (message : List ℕ) (signature : Signature)
    → get_signer notary_provider.signer secp256k1_sig ≡ ok signer
    → signer.sign message ≡ ok signature
    → signature.alg ≡ secp256k1_sig
signed_alg signer message signature h signed =
    let made = subst (λ s. s.sign message ≡ ok signature) (sym (get_signer-only signer h)) signed in
    cc made

accepted_signature :
    (signer : Signer) (message : List ℕ) (signature : Signature)
    → get_signer notary_provider.signer secp256k1_sig ≡ ok signer
    → signer.sign message ≡ ok signature
    → test_verifier.verify signer.verifying_key message signature.bytes ≡ ok tt
accepted_signature signer message signature h signed = refl

own_hash :
    (hasher : HashAlgorithm)
    → get_hash_alg notary_provider.hash blake3 ≡ ok hasher
    → (hasher.id ≡ blake3) × (get_hash_alg notary_provider.hash hasher.id ≡ ok hasher)
own_hash hasher h =
    let same = get_hash_alg-only hasher h in
    (
      sym (ap (λ x. x.id) same),
      subst (λ x. get_hash_alg notary_provider.hash x.id ≡ ok hasher) same h,
    )

abbrev test_attestation : Attestation Bitmap
unfolding bitmap
test_attestation = record {
  signature = record { alg = secp256k1_sig; bytes = 9 ∷ 1 ∷ 5 ∷ 2 ∷ 0 ∷ [] };
  header = record {
    id = 9 ∷ [];
    version = 0;
    root = record { alg = blake3; value = record { value = 1 ∷ 5 ∷ 2 ∷ 0 ∷ []; len = 4 } };
  };
  body =
      number_body notary_key test_info test_ephemeral test_request.server_cert_commitment
        (some (record { root = record { alg = blake3; value = small_hash }; secret = test_secret }))
        ready_sign.extensions;
}

build_attestation_runs :
    build_attestation ready_sign notary_provider (9 ∷ []) ≡ returns test_attestation
unfolding build_attestation fields_codecs bitmap leaf_list get_entry signature_alg_id_eq
    hash_alg_id_eq ℕ_discrete notary_provider test_attestation
build_attestation_runs = refl

validate-build_attestation_example : validate test_request test_attestation ≡ returns tt
validate-build_attestation_example =
    validate-build_attestation test_config test_request notary_provider (9 ∷ []) test_info
      test_ephemeral (some test_secret) (notary_extension ∷ []) (λ hasher h. (own_hash hasher h).0)
      signed_alg accept_request_runs build_attestation_runs

verify_attestation_proof-new_attestation_proof_example :
    (proof : AttestationProof Bitmap) × (new_attestation_proof notary_provider test_attestation
      ≡ returns proof)
    × (verify_attestation_proof proof notary_provider ≡ returns test_attestation)
unfolding test_attestation
verify_attestation_proof-new_attestation_proof_example =
    verify_attestation_proof-new_attestation_proof ready_sign notary_provider notary_provider
      (9 ∷ []) test_verifier (omega arith) build_attestation_runs own_hash get_verifier_runs
      accepted_signature
