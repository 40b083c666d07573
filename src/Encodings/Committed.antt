-- ===== src/Encodings/Committed.antt =====
-- What a tree of encodings keeps of the indices that it commits to.
use ethdam_rope.Prelude.{
  ℕ, ◌≤◌, ◌≡◌, inl, inr, sym, subst, ◌∙◌, false, List, [], ◌∷◌, ◌++◌, length, get_elem?, none, some,
  Option-cases, arith, get_elem?-lt, length-append, get_elem?-append_left, get_elem?-append_last,
}
use ethdam_rope.RangeSets.{RangeSet}
use ethdam_rope.Subsequence.{Direction, Idx, idx_end, idx_is_empty}
use ethdam_rope.Transcript.{TranscriptLength}
use ethdam_rope.Hashes.{
  Hash, HashAlgorithm, Blinder, Blinded, CanonicalSerialize, new_with_blinder, hash_canonical,
}
use ethdam_rope.Merkle.Interfaces.{RsMerkle}
use ethdam_rope.Encodings.Proof.{EncodingLeaf, new_leaf, length_of}
use ethdam_rope.Encodings.Tree.{BiMap, EncodingTree, EncodingProvider, add_idx, add_leaf}

module _ {R : Type 0} ⦃rs : RangeSet R⦄ ⦃rm : RsMerkle⦄ ⦃bm : BiMap ℕ (Direction × Idx R)⦄
    ⦃s : CanonicalSerialize (Blinded EncodingLeaf)⦄ (hasher : HashAlgorithm)
    (provide : EncodingProvider R) (len : TranscriptLength) where
  -- The leaf at a position is the hash of the encoding of the place, under the nonce at the position,
  -- and the place is not empty and lies within the transcript.
  pub record IsLeaf (nonces : List Blinder) (leaves : List Hash) (place : Direction × Idx R) (i : ℕ)
      : Type 0 where
    pub encoding : List ℕ
    pub provided : provide place.0 place.1 ≡ some encoding
    pub nonce : Blinder
    pub has_nonce : get_elem? nonces i ≡ some nonce
    pub value : Hash
    pub hashed : hash_canonical hasher (new_with_blinder (new_leaf encoding) nonce) ≡ some value
    pub has_leaf : get_elem? leaves i ≡ some value
    pub within : idx_end place.1 ≤ length_of place.0 len.sent len.received
    pub not_empty : idx_is_empty place.1 ≡ false

  -- The nonces, the map and the leaves have the same number, and each place of the map is a leaf.
  pub record Committed (this : EncodingTree R) (leaves : List Hash) : Type 0 where
    pub nonces_size : length this.nonces ≡ length leaves
    pub idxs_size : bm.len this.idxs ≡ length leaves
    pub leaf :
        (place : Direction × Idx R) (i : ℕ)
        → bm.get_by_right place this.idxs ≡ some i
        → IsLeaf this.nonces leaves place i

  IsLeaf-append :
      {nonces : List Blinder} {leaves : List Hash} {place : Direction × Idx R} {i : ℕ}
      (nonce : Blinder) (hash : Hash)
      → IsLeaf nonces leaves place i
      → IsLeaf (nonces ++ (nonce ∷ [])) (leaves ++ (hash ∷ [])) place i
  IsLeaf-append {nonces} {leaves} {place} {i} nonce hash l = record {
    encoding = l.encoding;
    provided = l.provided;
    nonce = l.nonce;
    has_nonce = get_elem?-append_left nonces (nonce ∷ []) i l.has_nonce;
    value = l.value;
    hashed = l.hashed;
    has_leaf = get_elem?-append_left leaves (hash ∷ []) i l.has_leaf;
    within = l.within;
    not_empty = l.not_empty;
  }

  IsLeaf-last :
      (d : Direction) (idx : Idx R) (nonce : Blinder) (encoding : List ℕ) (hash : Hash)
      (nonces : List Blinder) (leaves : List Hash)
      → length nonces ≡ length leaves
      → provide d idx ≡ some encoding
      → hash_canonical hasher (new_with_blinder (new_leaf encoding) nonce) ≡ some hash
      → idx_end idx ≤ length_of d len.sent len.received
      → idx_is_empty idx ≡ false
      → IsLeaf (nonces ++ (nonce ∷ [])) (leaves ++ (hash ∷ [])) (d, idx) (length leaves)
  IsLeaf-last d idx nonce encoding hash nonces leaves size provided hashed within not_empty =
      record {
        encoding = encoding;
        provided = provided;
        nonce = nonce;
        has_nonce =
            subst (λ k. get_elem? (nonces ++ (nonce ∷ [])) k ≡ some nonce) size
              (get_elem?-append_last nonces nonce);
        value = hash;
        hashed = hashed;
        has_leaf = get_elem?-append_last leaves hash;
        within = within;
        not_empty = not_empty;
      }

  -- The next position is not in the map.
  pub fresh_position :
      (this : EncodingTree R) (leaves : List Hash)
      → Committed this leaves
      → bm.get_by_left (bm.len this.idxs) this.idxs ≡ none
  fresh_position this leaves c = elim (Option-cases (bm.get_by_left (bm.len this.idxs) this.idxs)) [
    | inl absent ↦ absent
    | inr (place, there) ↦
        let l =
          c.leaf place (bm.len this.idxs) (bm.get_by_left-get_by_right _ place this.idxs there) in
        absurd (omega (arith, get_elem?-lt leaves (bm.len this.idxs) l.has_leaf, c.idxs_size))
  ]

  add_idx-Committed :
      (d : Direction) (idx : Idx R) (this : EncodingTree R) (leaves : List Hash)
      → Committed this leaves
      → Committed (add_idx d idx this) leaves
  add_idx-Committed Direction.sent idx this leaves c = record {
    nonces_size = c.nonces_size;
    idxs_size = c.idxs_size;
    leaf = c.leaf;
  }
  add_idx-Committed Direction.received idx this leaves c = record {
    nonces_size = c.nonces_size;
    idxs_size = c.idxs_size;
    leaf = c.leaf;
  }

  pub add_leaf-Committed :
      (d : Direction) (idx : Idx R) (nonce : Blinder) (encoding : List ℕ) (hash : Hash)
      (this : EncodingTree R) (leaves : List Hash)
      → Committed this leaves
      → bm.get_by_right (d, idx) this.idxs ≡ none
      → provide d idx ≡ some encoding
      → hash_canonical hasher (new_with_blinder (new_leaf encoding) nonce) ≡ some hash
      → idx_end idx ≤ length_of d len.sent len.received
      → idx_is_empty idx ≡ false
      → Committed (add_leaf d idx nonce this) (leaves ++ (hash ∷ []))
  add_leaf-Committed d idx nonce encoding hash this leaves c new provided hashed within not_empty =
      let absent = fresh_position this leaves c in
      let (_, _, back) = bm.get_by_right-insert (bm.len this.idxs) (d, idx) this.idxs absent new in
      add_idx-Committed d idx _ (leaves ++ (hash ∷ [])) (record {
        nonces_size = omega (
          arith,
          length-append this.nonces (nonce ∷ []),
          length-append leaves (hash ∷ []),
          c.nonces_size,
        );
        idxs_size =
            bm.len-insert (bm.len this.idxs) (d, idx) this.idxs absent new
            ∙ omega (arith, length-append leaves (hash ∷ []), c.idxs_size);
        leaf = λ place i there. elim (back place i there) [
          | inl (same_place, same_i) ↦
              subst (λ p. IsLeaf (this.nonces ++ (nonce ∷ [])) (leaves ++ (hash ∷ [])) p i)
                (sym same_place)
                (subst (IsLeaf (this.nonces ++ (nonce ∷ [])) (leaves ++ (hash ∷ [])) (d, idx))
                  (sym (same_i ∙ c.idxs_size))
                  (IsLeaf-last d idx nonce encoding hash this.nonces leaves c.nonces_size provided
                    hashed within not_empty))
          | inr before ↦ IsLeaf-append nonce hash (c.leaf place i before)
        ];
      })
