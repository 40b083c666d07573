-- ===== src/Hashes.antt =====
-- tlsn/crates/core/src/hash.rs and serialize.rs: hash values, algorithms by their identifier, blinded
-- values and the hash of a serialized value. The algorithms (SHA-256, BLAKE3, Keccak-256), the
-- serialization by `bcs` and the domain separators are parameters.
pub mod Values
use ethdam_rope.Prelude.{
  ℕ, ◌-◌, leb, ltb, not, if◌then◌else◌, List, length, replicate, Option, none, some, Result, ok,
  err, MayPanic, ◌>>=◌, slice, copy_from_slice, Eq, ℕ_discrete, HashMap, put_entry, get_entry,
}

pub record HashAlgId : Type 0 where
  pub id : ℕ

abbrev pub sha256 : HashAlgId
sha256 = record { id = 1 }

abbrev pub blake3 : HashAlgId
blake3 = record { id = 2 }

abbrev pub keccak256 : HashAlgId
keccak256 = record { id = 3 }

unfoldable pub new_hash_alg_id : ℕ → MayPanic HashAlgId
new_hash_alg_id id = if leb 128 id then some (record { id = id }) else none

abbrev pub max_len : ℕ
max_len = 64

-- The array of 64 bytes, and how many of them are the value.
pub record Hash : Type 0 where
  pub value : List ℕ
  pub len : ℕ

pub record TypedHash : Type 0 where
  pub alg : HashAlgId
  pub value : Hash

pub data HashError : Type 0 where
  hash_too_long : HashError

-- [0u8; MAX_LEN]
unfoldable pub zero_value : List ℕ
zero_value = replicate max_len 0

abbrev pub default_hash : Hash
default_hash = record { value = zero_value; len = 0 }

unfoldable pub new_hash : List ℕ → MayPanic Hash
new_hash value = if not (leb (length value) max_len) then none else (do
  bytes ← copy_from_slice zero_value 0 (length value) value
  some (record { value = bytes; len = length value }))

-- The inner result is that of the source; `none` would be a panic of the copy.
unfoldable pub hash_try_from : List ℕ → MayPanic (Result HashError Hash)
hash_try_from value = if ltb max_len (length value) then some (err hash_too_long) else (do
  bytes ← copy_from_slice zero_value 0 (length value) value
  some (ok (record { value = bytes; len = length value })))

unfoldable pub hash_into_vec : Hash → MayPanic (List ℕ)
hash_into_vec h = slice h.value 0 h.len

hash_alg_id_dec : Discrete HashAlgId
hash_alg_id_dec = hlevel ℕ_discrete

instance unfoldable pub hash_alg_id_eq : Eq HashAlgId
unfolding hash_alg_id_dec
hash_alg_id_eq = record { dec = hash_alg_id_dec }

hash_dec : Discrete Hash
hash_dec = hlevel ℕ_discrete

instance unfoldable pub hash_eq : Eq Hash
unfolding hash_dec
hash_eq = record { dec = hash_dec }

typed_hash_dec : Discrete TypedHash
typed_hash_dec = hlevel ℕ_discrete

instance unfoldable pub typed_hash_eq : Eq TypedHash
unfolding typed_hash_dec
typed_hash_eq = record { dec = typed_hash_dec }

-- The trait, as the functions of its implementation.
pub record HashAlgorithm : Type 0 where
  pub id : HashAlgId
  pub hash : List ℕ → Hash
  pub hash_prefixed : List ℕ → List ℕ → Hash

pub record HashProvider : Type 0 where
  pub algs : HashMap HashAlgId HashAlgorithm

pub data HashProviderError : Type 0 where
  unknown_hash_alg : HashAlgId → HashProviderError

abbrev pub set_algorithm : HashProvider → HashAlgId → HashAlgorithm → HashProvider
set_algorithm p id algorithm = record { algs = put_entry id algorithm p.algs }

abbrev ok_or_unknown : HashAlgId → Option HashAlgorithm → Result HashProviderError HashAlgorithm
ok_or_unknown id none = err (unknown_hash_alg id)
ok_or_unknown id (some alg) = ok alg

abbrev pub get_hash_alg : HashProvider → HashAlgId → Result HashProviderError HashAlgorithm
get_hash_alg p id = ok_or_unknown id (get_entry id p.algs)

pub record Blinder : Type 0 where
  pub bytes : List ℕ

pub record Blinded (T : Type 0) : Type 0 where
  pub content : T
  pub blinder : Blinder

-- `bcs::to_bytes(self).unwrap()`, which panics on a sequence that is too long.
pub record CanonicalSerialize (T : Type 0) : Type 0 where
  pub serialize : T → MayPanic (List ℕ)

-- The first 16 bytes of the BLAKE3 hash of the type's name.
pub record DomainSeparator (T : Type 0) : Type 0 where
  pub domain : List ℕ

module _ {T : Type 0} where
  abbrev pub new_with_blinder : T → Blinder → Blinded T
  new_with_blinder content blinder = record { content = content; blinder = blinder }

  abbrev pub hash_canonical : ⦃s : CanonicalSerialize T⦄ → HashAlgorithm → T → MayPanic Hash
  hash_canonical ⦃s⦄ alg value = do bytes ← s.serialize value; some (alg.hash bytes)

  abbrev pub hash_separated :
      ⦃s : CanonicalSerialize T⦄ → ⦃d : DomainSeparator T⦄ → HashAlgorithm → T → MayPanic Hash
  hash_separated ⦃s⦄ ⦃d⦄ alg value = do
    bytes ← s.serialize value
    some (alg.hash_prefixed d.domain bytes)
