-- ===== src/Merkle.antt =====
-- tlsn/crates/core/src/merkle.rs. The Merkle trees themselves are those of the crate `rs_merkle`, and
-- the search for duplicates is that of `tlsn-utils`: parameters, with what they promise.
pub mod Interfaces
pub mod Order
pub mod Complete
use ethdam_rope.Prelude.{
  ℕ, ltb, not, Bool, true, false, ◌&&◌, if◌then◌else◌, List, [], ◌∷◌, map, Option, none, some,
  Result, ok, err, MayPanic, ◌>>=◌, sort_by_key, is_equal,
}
use ethdam_rope.Hashes.{HashAlgId, Hash, TypedHash, HashAlgorithm, hash_alg_id_eq}
use Interfaces.{RsMerkle, DuplicateCheck}

pub data MerkleError : Type 0 where
  duplicate_leaf_indices : MerkleError
  invalid_merkle_proof : MerkleError

module _ ⦃rm : RsMerkle⦄ where
  pub record MerkleProof : Type 0 where
    pub alg : HashAlgId
    pub leaf_count : ℕ
    pub proof : rm.Proof

  pub record MerkleTree : Type 0 where
    pub alg : HashAlgId
    pub tree : rm.Tree

-- indices.windows(2).all(|w| w[0] < w[1])
abbrev pub increases : List ℕ → Bool
increases [] = true
increases (i ∷ []) = true
increases (i ∷ j ∷ is) = ltb i j && increases (j ∷ is)

abbrev pub last_index : List ℕ → Option ℕ
last_index [] = none
last_index (i ∷ []) = some i
last_index (i ∷ j ∷ is) = last_index (j ∷ is)

-- `unzip`, and the order by index.
abbrev pub leaf_index : ℕ × Hash → ℕ
leaf_index leaf = leaf.0

abbrev pub leaf_hash : ℕ × Hash → Hash
leaf_hash leaf = leaf.1

module _ ⦃rm : RsMerkle⦄ ⦃dc : DuplicateCheck⦄ where
  unfoldable pub merkle_verify :
      MerkleProof → HashAlgorithm → TypedHash → List (ℕ × Hash) → Result MerkleError (Unit {0})
  unfolding sort_by_key
  merkle_verify p hasher root leaves =
      let sorted = sort_by_key leaf_index leaves in
      if dc.contains_dups (map leaf_index sorted)
      then err duplicate_leaf_indices
      else if not (
          rm.verify p.proof hasher.hash root.value (map leaf_index sorted) (map leaf_hash sorted)
            p.leaf_count)
      then err invalid_merkle_proof
      else ok tt

module _ ⦃rm : RsMerkle⦄ where
  unfoldable pub new_merkle_tree : HashAlgId → MerkleTree
  new_merkle_tree alg = record { alg = alg; tree = rm.default }

  unfoldable pub merkle_root : MerkleTree → MayPanic TypedHash
  merkle_root t = do value ← rm.root t.tree; some (record { alg = t.alg; value = value })

  unfoldable pub merkle_insert : MerkleTree → HashAlgorithm → List Hash → MayPanic MerkleTree
  unfolding is_equal
  merkle_insert t hasher leaves =
      if not (is_equal t.alg hasher.id)
      then none
      else some (record t { tree = rm.commit (rm.append t.tree leaves) hasher.hash })

  unfoldable pub merkle_proof : MerkleTree → List ℕ → MayPanic MerkleProof
  merkle_proof t indices = if not (increases indices) then none else (do
    last ← last_index indices
    if not (ltb last (rm.leaves_len t.tree))
        then none
        else some (record {
          alg = t.alg;
          leaf_count = rm.leaves_len t.tree;
          proof = rm.proof t.tree indices;
        }))
