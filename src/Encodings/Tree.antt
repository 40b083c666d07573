-- ===== src/Encodings/Tree.antt =====
-- transcript/encoding/tree.rs and provider.rs: the tree of the encodings that are committed to, and
-- its proofs. The map of the crate `bimap` is a parameter, with what it promises, and the random
-- blinders are an argument, by the number of the leaf.
use ethdam_rope.Prelude.{
  ℕ, suc, ◌≡◌, ◌⊎◌, ltb, if◌then◌else◌, Bool, true, false, List, [], ◌∷◌, ◌++◌, length, get_elem?,
  Option, none, some, HashMap, put_entry, sort_by_key, Eq, ℕ_discrete,
}
use ethdam_rope.Outcomes.{◌>>=◌, Outcome, returns, fails, from_panic, ok_or_else}
use ethdam_rope.RangeSets.{RangeSet}
use ethdam_rope.Subsequence.{Direction, Idx, idx_empty, idx_end, idx_is_empty, idx_union}
use ethdam_rope.Transcript.{Transcript, TranscriptLength, get, len_of_direction}
use ethdam_rope.Hashes.{
  HashAlgId, Hash, HashAlgorithm, Blinder, Blinded, CanonicalSerialize, new_with_blinder,
  hash_canonical,
}
use ethdam_rope.Merkle.{MerkleTree, new_merkle_tree, merkle_insert, merkle_proof}
use ethdam_rope.Merkle.Interfaces.{RsMerkle}
use ethdam_rope.Encodings.Proof.{EncodingLeaf, new_leaf, length_of, Opening, EncodingProof}

-- `bimap::BiMap`: `insert` of a pair of which neither side is there adds it.
pub record BiMap (L R : Type 0) : Type 1 where
  pub Map : Type 0
  pub empty : Map
  pub insert : L → R → Map → Map
  pub get_by_left : L → Map → Option R
  pub get_by_right : R → Map → Option L
  pub len : Map → ℕ
  pub right_values : Map → List R
  pub get_by_right-empty : (r : R) → get_by_right r empty ≡ none
  pub len-empty : len empty ≡ 0
  pub get_by_left-get_by_right :
      (l : L) (r : R) (m : Map) → get_by_left l m ≡ some r → get_by_right r m ≡ some l
  pub len-insert :
      (l : L) (r : R) (m : Map)
      → get_by_left l m ≡ none
      → get_by_right r m ≡ none
      → len (insert l r m) ≡ suc (len m)
  pub get_by_right-insert :
      (l : L) (r : R) (m : Map)
      → get_by_left l m ≡ none
      → get_by_right r m ≡ none
      → (get_by_right r (insert l r m) ≡ some l)
        × ((r' : R) (l' : L)
            → get_by_right r' m ≡ some l'
            → get_by_right r' (insert l r m) ≡ some l')
        × ((r' : R) (l' : L)
            → get_by_right r' (insert l r m) ≡ some l'
            → ((r' ≡ r) × (l' ≡ l)) ⊎ (get_by_right r' m ≡ some l'))

instance unfoldable pub leaf_index_eq : Eq ℕ
leaf_index_eq = record { dec = ℕ_discrete }

pub data EncodingTreeError (R : Type 0) : Type 0 where
  out_of_bounds : Idx R → ℕ → EncodingTreeError R
  missing_encoding : Idx R → EncodingTreeError R
  missing_leaf : Idx R → EncodingTreeError R

-- The trait, as its method.
abbrev pub EncodingProvider : Type 0 → Type 0
EncodingProvider R = Direction → Idx R → Option (List ℕ)

abbrev pub is_known {ℓ} : {A : Type ℓ} → Option A → Bool
is_known none = false
is_known (some a) = true

abbrev pub opening_index : ℕ → ℕ
opening_index i = i

abbrev pub keys : {A : Type 0} → HashMap ℕ A → List ℕ
keys [] = []
keys ((i, _) ∷ entries) = i ∷ keys entries

module _ (R : Type 0) ⦃rm : RsMerkle⦄ ⦃bm : BiMap ℕ (Direction × Idx R)⦄ where
  pub record EncodingTree : Type 0 where
    pub tree : MerkleTree
    pub nonces : List Blinder
    pub idxs : bm.Map
    pub sent_idx : Idx R
    pub received_idx : Idx R

module _ {R : Type 0} ⦃rs : RangeSet R⦄ ⦃rm : RsMerkle⦄ ⦃bm : BiMap ℕ (Direction × Idx R)⦄
    ⦃s : CanonicalSerialize (Blinded EncodingLeaf)⦄ where
  abbrev pub empty_tree : HashAlgId → EncodingTree R
  empty_tree alg = record {
    tree = new_merkle_tree alg;
    nonces = [];
    idxs = bm.empty;
    sent_idx = idx_empty;
    received_idx = idx_empty;
  }

  abbrev pub add_idx : Direction → Idx R → EncodingTree R → EncodingTree R
  add_idx Direction.sent idx this = record this { sent_idx = idx_union this.sent_idx idx }
  add_idx Direction.received idx this = record this {
    received_idx = idx_union this.received_idx idx;
  }

  -- What is stored for a new leaf.
  abbrev pub add_leaf : Direction → Idx R → Blinder → EncodingTree R → EncodingTree R
  add_leaf direction idx nonce this = add_idx direction idx (record this {
    nonces = this.nonces ++ (nonce ∷ []);
    idxs = bm.insert (bm.len this.idxs) (direction, idx) this.idxs;
  })

  -- The loop over the indices.
  unfoldable pub add_leaves :
      HashAlgorithm
      → EncodingProvider R
      → TranscriptLength
      → (ℕ → Blinder)
      → List (Direction × Idx R)
      → EncodingTree R
      → List Hash
      → Outcome (EncodingTreeError R) (EncodingTree R × List Hash)
  add_leaves hasher provide len random [] this leaves = returns (this, leaves)
  add_leaves hasher provide len random ((direction, idx) ∷ idxs) this leaves =
      let skip = add_leaves hasher provide len random idxs this leaves in
      let end = length_of direction len.sent len.received in
      if idx_is_empty idx
      then skip
      else if ltb end (idx_end idx)
      then fails (out_of_bounds idx end)
      else if is_known (bm.get_by_right (direction, idx) this.idxs)
      then skip
      else (do
        encoding ← ok_or_else (provide direction idx) (missing_encoding idx)
        let nonce = random (length leaves)
        hash ← from_panic (hash_canonical hasher (new_with_blinder (new_leaf encoding) nonce))
        add_leaves hasher provide len random idxs (add_leaf direction idx nonce this)
            (leaves ++ (hash ∷ [])))

  unfoldable pub new_encoding_tree :
      HashAlgorithm
      → List (Direction × Idx R)
      → EncodingProvider R
      → TranscriptLength
      → (ℕ → Blinder)
      → Outcome (EncodingTreeError R) (EncodingTree R)
  unfolding add_leaves merkle_insert
  new_encoding_tree hasher idxs provide len random = do
    (this, leaves) ← add_leaves hasher provide len random idxs (empty_tree hasher.id) []
    tree ← from_panic (merkle_insert this.tree hasher leaves)
    returns (record this { tree = tree })

  -- The loop of `proof` over the indices.
  unfoldable pub open_leaves :
      EncodingTree R
      → Transcript
      → List (Direction × Idx R)
      → HashMap ℕ (Opening R)
      → Outcome (EncodingTreeError R) (HashMap ℕ (Opening R))
  unfolding get put_entry len_of_direction
  open_leaves this transcript [] openings = returns openings
  open_leaves this transcript ((direction, idx) ∷ idxs) openings = do
    leaf_idx ← ok_or_else (bm.get_by_right (direction, idx) this.idxs) (missing_leaf idx)
    found ← from_panic (get transcript direction idx)
    seq ← ok_or_else found (out_of_bounds idx (len_of_direction transcript direction))
    nonce ← from_panic (get_elem? this.nonces leaf_idx)
    open_leaves this transcript idxs
        (put_entry leaf_idx (record { direction = direction; seq = seq; blinder = nonce }) openings)

  unfoldable pub encoding_tree_proof :
      EncodingTree R
      → Transcript
      → List (Direction × Idx R)
      → Outcome (EncodingTreeError R) (EncodingProof R)
  unfolding open_leaves merkle_proof sort_by_key
  encoding_tree_proof this transcript idxs = do
    openings ← open_leaves this transcript idxs []
    proof ← from_panic (merkle_proof this.tree (sort_by_key opening_index (keys openings)))
    returns (record { inclusion_proof = proof; openings = openings })

  abbrev pub tree_contains : EncodingTree R → Direction × Idx R → Bool
  tree_contains this idx = is_known (bm.get_by_right idx this.idxs)

  abbrev pub tree_idx : EncodingTree R → Direction → Idx R
  tree_idx this Direction.sent = this.sent_idx
  tree_idx this Direction.received = this.received_idx

  abbrev pub transcript_indices : EncodingTree R → List (Direction × Idx R)
  transcript_indices this = bm.right_values this.idxs
