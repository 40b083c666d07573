-- ===== src/MpcTls/Records.antt =====
-- tlsn/crates/mpc-tls/src/record_layer.rs and tlsn/crates/common/src/transcript.rs: the records, and
-- tlsn/crates/tls/core/src/cipher.rs: the additional data of TLS 1.2. A protocol version is its
-- number on the wire.
pub mod Nonces
pub mod Aad
pub mod Plaintexts
use ethdam_rope.Prelude.{
  ℕ, zero, suc, ◌/◌, ◌%◌, ◌^◌, Bool, true, false, Option, List, [], ◌∷◌, ◌++◌,
}

pub data ContentType : Type 0 where
  change_cipher_spec : ContentType
  alert : ContentType
  handshake : ContentType
  application_data : ContentType
  heartbeat : ContentType
  unknown : ℕ → ContentType

abbrev pub get_u8 : ContentType → ℕ
get_u8 change_cipher_spec = 0x14
get_u8 alert = 0x15
get_u8 handshake = 0x16
get_u8 application_data = 0x17
get_u8 heartbeat = 0x18
get_u8 (unknown n) = n

abbrev pub is_application_data : ContentType → Bool
is_application_data application_data = true
is_application_data _ = false

-- The `n` lowest bytes of a number, the highest first: `to_be_bytes` of an integer of `n` bytes.
unfoldable pub be_bytes : ℕ → ℕ → List ℕ
be_bytes zero x = []
be_bytes (suc n) x = (x / 256 ^ n) % 256 ∷ be_bytes n x

unfoldable pub make_tls12_aad : ℕ → ContentType → ℕ → ℕ → List ℕ
unfolding be_bytes
make_tls12_aad seq typ version len =
    be_bytes 8 seq ++ get_u8 typ ∷ be_bytes 2 version ++ be_bytes 2 len

pub record PlainRecord : Type 0 where
  pub typ : ContentType
  pub version : ℕ
  pub plaintext : Option (List ℕ)

pub record EncryptedRecord : Type 0 where
  pub typ : ContentType
  pub version : ℕ
  pub explicit_nonce : List ℕ
  pub ciphertext : List ℕ
  pub tag : Option (List ℕ)

-- `H` is the type of references into the virtual machine.
pub record Record (H : Type 0) : Type 0 where
  pub seq : ℕ
  pub typ : ContentType
  pub plaintext : Option (List ℕ)
  pub plaintext_ref : Option H
  pub explicit_nonce : List ℕ
  pub ciphertext : List ℕ

pub record TlsTranscript (H : Type 0) : Type 0 where
  pub sent : List (Record H)
  pub recv : List (Record H)

pub record TagData : Type 0 where
  pub explicit_nonce : List ℕ
  pub aad : List ℕ
