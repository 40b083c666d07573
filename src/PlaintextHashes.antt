-- ===== src/PlaintextHashes.antt =====
-- tlsn/crates/core/src/transcript/hash.rs and the two conversions of index.rs: commitments to
-- plaintext by a hash, their indices and their openings.
use ethdam_rope.Prelude.{ℕ, List, Eq, is_equal}
use ethdam_rope.Outcomes.{Outcome, returns, from_panic, from_result, guard_or, ◌>>=◌, ◌>>◌}
use ethdam_rope.RangeSets.{RangeSet}
use ethdam_rope.Subsequence.{Direction, Idx, Subsequence, InvalidSubsequence, new_subsequence}
use ethdam_rope.Hashes.{
  TypedHash, Blinder, Blinded, HashProvider, HashProviderError, get_hash_alg, CanonicalSerialize,
  hash_canonical, hash_eq,
}
use ethdam_rope.Fields.{FieldId, Field}
use ethdam_rope.Indexes.{Place, Index, new_index}

pub record PlaintextHash (R : Type 0) : Type 0 where
  pub direction : Direction
  pub idx : Idx R
  pub hash : TypedHash

pub record PlaintextHashSecret (R : Type 0) : Type 0 where
  pub direction : Direction
  pub idx : Idx R
  pub commitment : FieldId
  pub blinder : Blinder

pub record PlaintextHashProof : Type 0 where
  pub blinded : Blinded (List ℕ)
  pub commitment : FieldId

pub data PlaintextHashProofError : Type 0 where
  hash_alg_error : HashProviderError → PlaintextHashProofError
  hash_mismatch : PlaintextHashProofError
  subsequence_error : InvalidSubsequence → PlaintextHashProofError

-- The places of a commitment and of a secret, by which index.rs makes their indices.
abbrev pub hash_place : {R : Type 0} → Field (PlaintextHash R) → Place R
hash_place hash = record {
  id = hash.id;
  direction = hash.content.direction;
  idx = hash.content.idx;
}

abbrev pub secret_place : {R : Type 0} → PlaintextHashSecret R → Place R
secret_place secret = record {
  id = secret.commitment;
  direction = secret.direction;
  idx = secret.idx;
}

module _ {R : Type 0} ⦃rs : RangeSet R⦄ ⦃er : Eq (Direction × Idx R)⦄ where
  unfoldable pub index_hashes : List (Field (PlaintextHash R)) → Index (Field (PlaintextHash R)) R
  unfolding new_index
  index_hashes hashes = new_index hashes hash_place

  unfoldable index_secrets : List (PlaintextHashSecret R) → Index (PlaintextHashSecret R) R
  unfolding new_index
  index_secrets secrets = new_index secrets secret_place

module _ {R : Type 0} ⦃rs : RangeSet R⦄ ⦃s : CanonicalSerialize (Blinded (List ℕ))⦄ where
  unfoldable pub verify_plaintext_hash :
      PlaintextHashProof
      → HashProvider
      → PlaintextHash R
      → Outcome PlaintextHashProofError (Direction × Subsequence R)
  unfolding is_equal new_subsequence
  verify_plaintext_hash proof provider commitment = do
    alg ← from_result hash_alg_error (get_hash_alg provider commitment.hash.alg)
    hash ← from_panic (hash_canonical alg proof.blinded)
    guard_or (is_equal commitment.hash.value hash) hash_mismatch
    seq ← from_result subsequence_error (new_subsequence commitment.idx proof.blinded.content)
    returns (commitment.direction, seq)
