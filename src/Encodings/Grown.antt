-- ===== src/Encodings/Grown.antt =====
-- The tree of encodings of the given places commits to them.
use ethdam_rope.Prelude.{
  ℕ, ◌≡◌, ◌⊎◌, inl, inr, refl, ap, subst, ◌∙◌, true, false, ltb, List, [], ◌∷◌, ◌++◌, length,
  Option, none, some, Bool-cases, arith, if_yes, if_no,
}
use ethdam_rope.Outcomes.{
  returns, bind-eq-returns, returns-injective, from_panic-bind, ok_or_else-bind,
}
use ethdam_rope.RangeSets.{RangeSet}
use ethdam_rope.Subsequence.{Direction, Idx, idx_end, idx_is_empty}
use ethdam_rope.Transcript.{TranscriptLength}
use ethdam_rope.Hashes.{
  Hash, HashAlgorithm, Blinder, Blinded, CanonicalSerialize, new_with_blinder, hash_canonical,
}
use ethdam_rope.Merkle.{MerkleTree, new_merkle_tree, merkle_insert}
use ethdam_rope.Merkle.Interfaces.{RsMerkle}
use ethdam_rope.Encodings.Proof.{EncodingLeaf, new_leaf, length_of}
use ethdam_rope.Encodings.Committed.{Committed, fresh_position, add_leaf-Committed}
use ethdam_rope.Encodings.Tree.{
  BiMap, EncodingTree, EncodingProvider, missing_encoding, is_known, empty_tree, add_idx, add_leaf,
  add_leaves, new_encoding_tree,
}

unknown : {A : Type 0} (o : Option A) → is_known o ≡ false → o ≡ none
unknown none h = refl
unknown (some a) h = cc h

module _ {R : Type 0} ⦃rs : RangeSet R⦄ ⦃rm : RsMerkle⦄ ⦃bm : BiMap ℕ (Direction × Idx R)⦄
    ⦃s : CanonicalSerialize (Blinded EncodingLeaf)⦄ (hasher : HashAlgorithm)
    (provide : EncodingProvider R) (len : TranscriptLength) where
  add_idx-tree :
      (d : Direction) (idx : Idx R) (this : EncodingTree R) → (add_idx d idx this).tree ≡ this.tree
  add_idx-tree Direction.sent idx this = refl
  add_idx-tree Direction.received idx this = refl

  add_idx-idxs :
      (d : Direction) (idx : Idx R) (this : EncodingTree R) → (add_idx d idx this).idxs ≡ this.idxs
  add_idx-idxs Direction.sent idx this = refl
  add_idx-idxs Direction.received idx this = refl

  -- The tree commits to each of the places, but for those that are empty.
  abbrev pub CommitsTo : List (Direction × Idx R) → EncodingTree R → Type 0
  CommitsTo [] this = Unit {0}
  CommitsTo (place ∷ places) this =
      ((idx_is_empty place.1 ≡ true) ⊎ ((i : ℕ) × (bm.get_by_right place this.idxs ≡ some i)))
      × CommitsTo places this

  -- What the loop leaves.
  record Grown (places : List (Direction × Idx R)) (this this' : EncodingTree R)
      (leaves' : List Hash) : Type 0 where
    committed : Committed hasher provide len this' leaves'
    same_tree : this'.tree ≡ this.tree
    keeps :
        (place : Direction × Idx R) (i : ℕ)
        → bm.get_by_right place this.idxs ≡ some i
        → bm.get_by_right place this'.idxs ≡ some i
    places_committed : CommitsTo places this'

  known_position : (o : Option ℕ) → is_known o ≡ true → (i : ℕ) × (o ≡ some i)
  known_position none h = cc h
  known_position (some i) h = (i, refl)

  Grown-add_leaf :
      (d : Direction) (idx : Idx R) (nonce : Blinder) (places : List (Direction × Idx R))
      (this this' : EncodingTree R) (leaves leaves' : List Hash)
      → Committed hasher provide len this leaves
      → bm.get_by_right (d, idx) this.idxs ≡ none
      → Grown places (add_leaf d idx nonce this) this' leaves'
      → Grown ((d, idx) ∷ places) this this' leaves'
  Grown-add_leaf d idx nonce places this this' leaves leaves' c new g =
      let absent = fresh_position hasher provide len this leaves c in
      let (here, before, _) =
        bm.get_by_right-insert (bm.len this.idxs) (d, idx) this.idxs absent new in
      let keep : (place : Direction × Idx R) (i : ℕ)
          → bm.get_by_right place (bm.insert (bm.len this.idxs) (d, idx) this.idxs) ≡ some i
          → bm.get_by_right place this'.idxs ≡ some i =
        λ place i there.
          g.keeps place i (ap (bm.get_by_right place) (add_idx-idxs d idx _) ∙ there) in
      record {
        committed = g.committed;
        same_tree = g.same_tree ∙ add_idx-tree d idx _;
        keeps = λ place i there. keep place i (before place i there);
        places_committed =
            (inr (bm.len this.idxs, keep (d, idx) (bm.len this.idxs) here), g.places_committed);
      }

  Grown-known :
      (place : Direction × Idx R) (places : List (Direction × Idx R)) (this this' : EncodingTree R)
      (leaves' : List Hash)
      → (idx_is_empty place.1 ≡ true) ⊎ ((i : ℕ) × (bm.get_by_right place this.idxs ≡ some i))
      → Grown places this this' leaves'
      → Grown (place ∷ places) this this' leaves'
  Grown-known place places this this' leaves' known g = record {
    committed = g.committed;
    same_tree = g.same_tree;
    keeps = g.keeps;
    places_committed = (
      elim known [ inl empty ↦ inl empty | inr (i, there) ↦ inr (i, g.keeps place i there) ],
      g.places_committed,
    );
  }

  empty_tree-Committed : Committed hasher provide len (empty_tree hasher.id) []
  empty_tree-Committed = record {
    nonces_size = refl;
    idxs_size = bm.len-empty;
    leaf = λ place i there. cc (there, bm.get_by_right-empty place);
  }

  CommitsTo-tree :
      (places : List (Direction × Idx R)) (this : EncodingTree R) (tree : MerkleTree)
      → CommitsTo places this
      → CommitsTo places (record this { tree = tree })
  CommitsTo-tree [] this tree c = tt
  CommitsTo-tree (place ∷ places) this tree c = (c.0, CommitsTo-tree places this tree c.1)

  add_leaves-Grown :
      (random : ℕ → Blinder) (idxs : List (Direction × Idx R)) (this : EncodingTree R)
      (leaves : List Hash) {r : EncodingTree R × List Hash}
      → Committed hasher provide len this leaves
      → add_leaves hasher provide len random idxs this leaves ≡ returns r
      → Grown idxs this r.0 r.1
  unfolding add_leaves
  add_leaves-Grown random [] this leaves {r} c run =
      subst (λ x. Grown [] this x.0 x.1) (returns-injective _ _ run)
        (record {
          committed = c;
          same_tree = refl;
          keeps = λ place i there. there;
          places_committed = tt;
        })
  add_leaves-Grown random ((d, idx) ∷ idxs) this leaves {r} c run =
      elim (Bool-cases (idx_is_empty idx)) [
        | inl empty ↦
            Grown-known (d, idx) idxs this r.0 r.1 (inl empty)
              (add_leaves-Grown random idxs this leaves c (if_yes (idx_is_empty idx) _ empty run))
        | inr full ↦
            let run1 = if_no (idx_is_empty idx) _ full run in
            let end = length_of d len.sent len.received in
            elim (Bool-cases (ltb end (idx_end idx))) [
              | inl beyond ↦ cc (if_yes (ltb end (idx_end idx)) _ beyond run1)
              | inr within ↦
                  let run2 = if_no (ltb end (idx_end idx)) _ within run1 in
                  elim (Bool-cases (is_known (bm.get_by_right (d, idx) this.idxs))) [
                    | inl known ↦
                        Grown-known (d, idx) idxs this r.0 r.1
                          (inr (known_position (bm.get_by_right (d, idx) this.idxs) known))
                          (add_leaves-Grown random idxs this leaves c
                            (if_yes (is_known (bm.get_by_right (d, idx) this.idxs)) _ known run2))
                    | inr not_known ↦
                        let nonce = random (length leaves) in
                        let (encoding, provided, run3) =
                          ok_or_else-bind (provide d idx) (missing_encoding idx) _ (
                            if_no (is_known (bm.get_by_right (d, idx) this.idxs)) _ not_known
                              run2) in
                        let (hash, hashed, run4) =
                          from_panic-bind
                            (hash_canonical hasher (new_with_blinder (new_leaf encoding) nonce)) _
                            run3 in
                        Grown-add_leaf d idx nonce idxs this r.0 leaves r.1 c
                          (unknown (bm.get_by_right (d, idx) this.idxs) not_known)
                          (add_leaves-Grown random idxs (add_leaf d idx nonce this)
                            (leaves ++ (hash ∷ []))
                            (add_leaf-Committed hasher provide len d idx nonce encoding hash this
                              leaves c (unknown (bm.get_by_right (d, idx) this.idxs) not_known)
                              provided hashed (ground (arith, within)) full)
                            run4)
                  ]
            ]
      ]

  -- A tree that is made commits to each given place that is not empty, its Merkle tree is that of its
  -- leaves, of which there are as many as nonces and places of the map, and the leaf of a place at a
  -- position is the hash of the provided encoding of the place, under the nonce at the position, where
  -- the place is not empty and lies within the transcript.
  pub new_encoding_tree-Committed :
      (places : List (Direction × Idx R)) (random : ℕ → Blinder) {tree : EncodingTree R}
      → new_encoding_tree hasher places provide len random ≡ returns tree
      → (leaves : List Hash) × (merkle_insert (new_merkle_tree hasher.id) hasher leaves
          ≡ some tree.tree)
        × Committed hasher provide len tree leaves
        × CommitsTo places tree
  unfolding new_encoding_tree
  new_encoding_tree-Committed places random {tree} run =
      let ((this, leaves), grew, run1) =
        bind-eq-returns (add_leaves hasher provide len random places (empty_tree hasher.id) []) _
          run in
      let g = add_leaves-Grown random places (empty_tree hasher.id) [] empty_tree-Committed grew in
      let (inserted, made, run2) = from_panic-bind (merkle_insert this.tree hasher leaves) _ run1 in
      let same : record this { tree = inserted } ≡ tree = returns-injective _ _ run2 in
      (
        leaves,
        subst (λ t. merkle_insert t hasher leaves ≡ some tree.tree) g.same_tree
            (made ∙ ap (λ t. some t.tree) same),
        subst (λ t. Committed hasher provide len t leaves) same
            (record {
              nonces_size = g.committed.nonces_size;
              idxs_size = g.committed.idxs_size;
              leaf = g.committed.leaf;
            }),
        subst (CommitsTo places) same (CommitsTo-tree places this inserted g.places_committed),
      )
