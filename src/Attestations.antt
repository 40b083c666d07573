-- ===== src/Attestations.antt =====
-- tlsn/crates/core/src/attestation.rs: the attestation, and its fields as the leaves of a Merkle tree.
pub mod Proof
pub mod Build
pub mod Consistent
pub mod Numbered
pub mod RoundTrip
use ethdam_rope.Prelude.{
  ℕ, List, [], ◌∷◌, ◌++◌, Option, none, some, MayPanic, map, ◌>>=◌, sort_by_key, Eq, ℕ_discrete,
}
use ethdam_rope.RangeSets.{RangeSet}
use ethdam_rope.Hashes.{
  Hash, TypedHash, HashAlgorithm, CanonicalSerialize, DomainSeparator, hash_separated,
}
use ethdam_rope.Merkle.{MerkleTree, leaf_hash, new_merkle_tree, merkle_insert, merkle_root}
use ethdam_rope.Merkle.Interfaces.{RsMerkle}
use ethdam_rope.Fields.{FieldId, Field}
use ethdam_rope.Indexes.{Index}
use ethdam_rope.PlaintextHashes.{PlaintextHash}
use ethdam_rope.Encodings.Commitment.{EncodingCommitment}
use ethdam_rope.Connections.{ConnectionInfo, ServerEphemKey, ServerCertCommitment}
use ethdam_rope.Signing.{VerifyingKey, Signature}

pub record Extension : Type 0 where
  pub id : List ℕ
  pub value : List ℕ

extension_dec : Discrete Extension
extension_dec = hlevel ℕ_discrete

instance unfoldable pub extension_eq : Eq Extension
unfolding extension_dec
extension_eq = record { dec = extension_dec }

-- The order of the constructors is that of their codes 0x01 to 0x05.
pub data FieldKind : Type 0 where
  connection_info_kind server_ephem_key_kind server_identity_commitment_kind : FieldKind
  encoding_commitment_kind plaintext_hash_kind : FieldKind

field_kind_dec : Discrete FieldKind
field_kind_dec = hlevel

instance unfoldable pub field_kind_eq : Eq FieldKind
unfolding field_kind_dec
field_kind_eq = record { dec = field_kind_dec }

abbrev pub attestation_version : ℕ
attestation_version = 0

pub record Header : Type 0 where
  pub id : List ℕ
  pub version : ℕ
  pub root : TypedHash

pub record Body (R : Type 0) : Type 0 where
  pub verifying_key : Field VerifyingKey
  pub connection_info : Field ConnectionInfo
  pub server_ephemeral_key : Field ServerEphemKey
  pub cert_commitment : Field ServerCertCommitment
  pub encoding_commitment : Option (Field EncodingCommitment)
  pub plaintext_hashes : Index (Field (PlaintextHash R)) R
  pub extensions : List (Field Extension)

pub record Attestation (R : Type 0) : Type 0 where
  pub signature : Signature
  pub header : Header
  pub body : Body R

-- `Body::extensions` and `Body::encoding_commitment`.
abbrev pub field_contents : {T : Type 0} → List (Field T) → List T
field_contents [] = []
field_contents (field ∷ fields) = field.content ∷ field_contents fields

abbrev pub field_content : {T : Type 0} → Option (Field T) → Option T
field_content none = none
field_content (some field) = some field.content

-- How the fields of a body and the header are serialized, and the domains of the fields.
pub record Codec (T : Type 0) : Type 0 where
  pub bytes : CanonicalSerialize T
  pub separator : DomainSeparator T

pub record Codecs (R : Type 0) : Type 0 where
  pub verifying_key : Codec VerifyingKey
  pub connection_info : Codec ConnectionInfo
  pub server_ephemeral_key : Codec ServerEphemKey
  pub cert_commitment : Codec ServerCertCommitment
  pub encoding_commitment : Codec EncodingCommitment
  pub plaintext_hash : Codec (PlaintextHash R)
  pub extension : Codec Extension
  pub header : CanonicalSerialize Header

abbrev pub field_index : FieldId × Hash → ℕ
field_index field = field.0.id

abbrev pub field_hash : FieldId × Hash → Hash
field_hash field = field.1

abbrev pub hash_field : {T : Type 0} → Codec T → HashAlgorithm → Field T → MayPanic (FieldId × Hash)
hash_field codec hasher field = do
  value ← hash_separated ⦃s = codec.bytes⦄ ⦃d = codec.separator⦄ hasher field.content
  some (field.id, value)

unfoldable pub hash_each :
    {T : Type 0} → Codec T → HashAlgorithm → List (Field T) → MayPanic (List (FieldId × Hash))
hash_each codec hasher [] = some []
hash_each codec hasher (field ∷ fields) = do
  first ← hash_field codec hasher field
  rest ← hash_each codec hasher fields
  some (first ∷ rest)

abbrev pub option_to_list : {T : Type 0} → Option T → List T
option_to_list none = []
option_to_list (some x) = x ∷ []

module _ {R : Type 0} ⦃codecs : Codecs R⦄ where
  -- The pairs before they are sorted.
  unfoldable pub hash_all : Body R → HashAlgorithm → MayPanic (List (FieldId × Hash))
  unfolding hash_each
  hash_all body hasher = do
    key ← hash_field codecs.verifying_key hasher body.verifying_key
    info ← hash_field codecs.connection_info hasher body.connection_info
    ephemeral ← hash_field codecs.server_ephemeral_key hasher body.server_ephemeral_key
    cert ← hash_field codecs.cert_commitment hasher body.cert_commitment
    encoding ← hash_each codecs.encoding_commitment hasher (option_to_list body.encoding_commitment)
    hashes ← hash_each codecs.plaintext_hash hasher body.plaintext_hashes.items
    extensions ← hash_each codecs.extension hasher body.extensions
    some (key ∷ info ∷ ephemeral ∷ cert ∷ (encoding ++ (hashes ++ extensions)))

  unfoldable pub hash_fields : Body R → HashAlgorithm → MayPanic (List (FieldId × Hash))
  unfolding hash_all sort_by_key
  hash_fields body hasher = do fields ← hash_all body hasher; some (sort_by_key field_index fields)

  unfoldable pub body_root : ⦃rm : RsMerkle⦄ → Body R → HashAlgorithm → MayPanic TypedHash
  unfolding hash_fields new_merkle_tree merkle_insert merkle_root
  body_root body hasher = do
    fields ← hash_fields body hasher
    tree ← merkle_insert (new_merkle_tree hasher.id) hasher (map field_hash fields)
    merkle_root tree
