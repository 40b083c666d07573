-- ===== src/Tests/Trees.antt =====
-- Instances of the theorems on trees of encodings, over a map that is a list of its pairs.
use ethdam_rope.Prelude.{
  ℕ, ◌≡◌, refl, ap, sym, ◌⊎◌, inl, inr, Bool, true, false, ◌==◌, if◌then◌else◌, List, [], ◌∷◌,
  length, map, replicate, Option, none, some, Eq, is_equal, is_equal-cases, is_equal_refl,
  ℕ_discrete, arith, Bool-cases, if_yes, if_no, ◌∙◌,
}
use ethdam_rope.Outcomes.{returns}
use ethdam_rope.RangeSets.Bitmap.{Bitmap, bitmap}
use ethdam_rope.Subsequence.{Direction, Idx}
use ethdam_rope.Transcript.{TranscriptLength}
use ethdam_rope.Hashes.{Hash, Blinder, blake3, hash_alg_id_eq}
use ethdam_rope.Merkle.{new_merkle_tree, merkle_insert}
use ethdam_rope.Encodings.Tree.{BiMap, EncodingTree, EncodingProvider, new_encoding_tree}
use ethdam_rope.Encodings.Committed.{Committed}
use ethdam_rope.Encodings.Grown.{CommitsTo, new_encoding_tree-Committed}
use ethdam_rope.Tests.Crypto.{leaf_list, leaf_codec, place_eq, one_idx, first_bytes}

unfoldable is_at : Option ℕ → ℕ → Bool
is_at none l = false
is_at (some k) l = k == l

is_at-true : (o : Option ℕ) (l : ℕ) → is_at o l ≡ true → o ≡ some l
unfolding is_at
is_at-true none l h = cc h
is_at-true (some k) l h = ap some (ground (arith, h))

module _ {A : Type 0} ⦃e : Eq A⦄ where
  unfoldable right_of : A → List (ℕ × A) → Option ℕ
  unfolding is_equal
  right_of r [] = none
  right_of r ((l, r') ∷ m) = if is_equal r r' then some l else right_of r m

  -- The first of the pairs at the left value, by the search from the right.
  unfoldable left_of : ℕ → List (ℕ × A) → List (ℕ × A) → Option A
  unfolding right_of is_at
  left_of l all [] = none
  left_of l all ((l', r) ∷ m) = if is_at (right_of r all) l then some r else left_of l all m

  left_of-right_of :
      (l : ℕ) (r : A) (all m : List (ℕ × A)) → left_of l all m ≡ some r → right_of r all ≡ some l
  unfolding left_of
  left_of-right_of l r all [] h = cc h
  left_of-right_of l r all ((l', r') ∷ m) h = elim (Bool-cases (is_at (right_of r' all) l)) [
    | inl found ↦
        let same : r' ≡ r = cc (if_yes (is_at (right_of r' all) l) _ found h) in
        ap (λ x. right_of x all) (sym same) ∙ is_at-true (right_of r' all) l found
    | inr other ↦ left_of-right_of l r all m (if_no (is_at (right_of r' all) l) _ other h)
  ]

  right_of-cons :
      (l : ℕ) (r : A) (m : List (ℕ × A))
      → right_of r m ≡ none
      → (right_of r ((l, r) ∷ m) ≡ some l)
        × ((r' : A) (l' : ℕ) → right_of r' m ≡ some l' → right_of r' ((l, r) ∷ m) ≡ some l')
        × ((r' : A) (l' : ℕ)
            → right_of r' ((l, r) ∷ m) ≡ some l'
            → ((r' ≡ r) × (l' ≡ l)) ⊎ (right_of r' m ≡ some l'))
  unfolding right_of
  right_of-cons l r m new = (
    rw (is_equal_refl r) refl,
    λ r' l' h. elim (is_equal-cases r' r) [
      | inl (same, _) ↦ absurd (cc (h, new, ap (λ x. right_of x m) same))
      | inr (_, no_eq) ↦ rw no_eq h
    ],
    λ r' l' h. elim (is_equal-cases r' r) [
      | inl (same, yes_eq) ↦ inl (same, cc (if_yes (is_equal r' r) _ yes_eq h))
      | inr (_, no_eq) ↦ inr (if_no (is_equal r' r) _ no_eq h)
    ],
  )

instance unfoldable pairs : BiMap ℕ (Direction × Idx Bitmap)
unfolding left_of
pairs = record {
  Map = List (ℕ × (Direction × Idx Bitmap));
  empty = [];
  insert = λ l r m. (l, r) ∷ m;
  get_by_left = λ l m. left_of l m m;
  get_by_right = right_of;
  len = λ m. length m;
  right_values = map (λ pair. pair.1);
  get_by_right-empty = λ r. refl;
  len-empty = refl;
  get_by_left-get_by_right = λ l r m. left_of-right_of l r m m;
  len-insert = λ l r m _ _. refl;
  get_by_right-insert = λ l r m _ new. right_of-cons l r m new;
}

-- Each bit has the same encoding.
abbrev constant_encodings : EncodingProvider Bitmap
constant_encodings direction idx = some (replicate 128 5)

abbrev two_ones : ℕ → Blinder
two_ones i = record { bytes = 1 ∷ 1 ∷ [] }

abbrev tree_places : List (Direction × Idx Bitmap)
tree_places = (Direction.sent, one_idx) ∷ (Direction.sent, one_idx) ∷ []

abbrev tree_length : TranscriptLength
tree_length = record { sent = 2; received = 0 }

abbrev tree_leaf : Hash
tree_leaf = record { value = 5 ∷ 5 ∷ 5 ∷ 5 ∷ []; len = 4 }

-- The same place twice, which gives one leaf.
abbrev one_tree : EncodingTree Bitmap
unfolding leaf_list pairs
one_tree = record {
  tree = record { alg = blake3; tree = (tree_leaf ∷ [], some tree_leaf) };
  nonces = record { bytes = 1 ∷ 1 ∷ [] } ∷ [];
  idxs = (0, (Direction.sent, one_idx)) ∷ [];
  sent_idx = one_idx;
  received_idx = record { ranges = [] };
}

one_tree_runs :
    new_encoding_tree first_bytes tree_places constant_encodings tree_length two_ones
    ≡ returns one_tree
unfolding new_encoding_tree leaf_list leaf_codec bitmap pairs place_eq hash_alg_id_eq one_tree
    ℕ_discrete new_merkle_tree
one_tree_runs = refl

new_encoding_tree-Committed_example :
    (leaves : List Hash) × (merkle_insert (new_merkle_tree first_bytes.id) first_bytes leaves
      ≡ some one_tree.tree)
    × Committed first_bytes constant_encodings tree_length one_tree leaves
    × CommitsTo first_bytes constant_encodings tree_length tree_places one_tree
new_encoding_tree-Committed_example =
    new_encoding_tree-Committed first_bytes constant_encodings tree_length tree_places two_ones
      one_tree_runs
