-- ===== src/Signing.antt =====
-- tlsn/crates/core/src/signing.rs: signers and verifiers by their algorithm. The signature algorithms
-- themselves are parameters: a value of `Signer` or `SignatureVerifier` is given by its functions.
use ethdam_rope.Prelude.{
  ℕ, leb, if◌then◌else◌, List, Option, none, some, Result, ok, err, MayPanic, Eq, ℕ_discrete,
  HashMap, put_entry, get_entry,
}

pub record KeyAlgId : Type 0 where
  pub id : ℕ

pub record SignatureAlgId : Type 0 where
  pub id : ℕ

abbrev pub secp256k1_sig : SignatureAlgId
secp256k1_sig = record { id = 1 }

abbrev pub secp256r1_sig : SignatureAlgId
secp256r1_sig = record { id = 2 }

abbrev pub secp256k1eth_sig : SignatureAlgId
secp256k1eth_sig = record { id = 3 }

unfoldable pub new_key_alg_id : ℕ → MayPanic KeyAlgId
new_key_alg_id id = if leb 128 id then some (record { id = id }) else none

unfoldable pub new_signature_alg_id : ℕ → MayPanic SignatureAlgId
new_signature_alg_id id = if leb 128 id then some (record { id = id }) else none

signature_alg_id_dec : Discrete SignatureAlgId
signature_alg_id_dec = hlevel ℕ_discrete

instance unfoldable pub signature_alg_id_eq : Eq SignatureAlgId
unfolding signature_alg_id_dec
signature_alg_id_eq = record { dec = signature_alg_id_dec }

pub record VerifyingKey : Type 0 where
  pub alg : KeyAlgId
  pub key : List ℕ

pub record Signature : Type 0 where
  pub alg : SignatureAlgId
  pub bytes : List ℕ

pub data UnknownSignatureAlgId : Type 0 where
  unknown_signature_alg : SignatureAlgId → UnknownSignatureAlgId

pub data SignatureError : Type 0 where
  signature_failed : SignatureError

pub record Signer : Type 0 where
  pub alg_id : SignatureAlgId
  pub sign : List ℕ → Result SignatureError Signature
  pub verifying_key : VerifyingKey

pub record SignatureVerifier : Type 0 where
  pub alg_id : SignatureAlgId
  pub verify : VerifyingKey → List ℕ → List ℕ → Result SignatureError (Unit {0})

pub record SignerProvider : Type 0 where
  pub signers : HashMap SignatureAlgId Signer

pub record SignatureVerifierProvider : Type 0 where
  pub verifiers : HashMap SignatureAlgId SignatureVerifier

abbrev pub set_signer : SignerProvider → Signer → SignerProvider
set_signer p signer = record { signers = put_entry signer.alg_id signer p.signers }

abbrev pub set_verifier : SignatureVerifierProvider → SignatureVerifier → SignatureVerifierProvider
set_verifier p verifier = record { verifiers = put_entry verifier.alg_id verifier p.verifiers }

abbrev ok_or_unknown_sig {ℓ} :
    {A : Type ℓ} → SignatureAlgId → Option A → Result UnknownSignatureAlgId A
ok_or_unknown_sig alg none = err (unknown_signature_alg alg)
ok_or_unknown_sig alg (some a) = ok a

abbrev pub get_signer : SignerProvider → SignatureAlgId → Result UnknownSignatureAlgId Signer
get_signer p alg = ok_or_unknown_sig alg (get_entry alg p.signers)

abbrev pub get_verifier :
    SignatureVerifierProvider → SignatureAlgId → Result UnknownSignatureAlgId SignatureVerifier
get_verifier p alg = ok_or_unknown_sig alg (get_entry alg p.verifiers)
