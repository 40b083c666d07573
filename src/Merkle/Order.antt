-- ===== src/Merkle/Order.antt =====
-- The order in which the leaves are given to `MerkleProof::verify`, such as that of a hash map, does
-- not matter.
use ethdam_rope.Prelude.{
  ℕ, ◌≡◌, ◌≢◌, refl, ap, sym, ◌∙◌, true, ◌||◌, ◌==◌, leb, List, [], ◌∷◌, map, arith, sort_by_key,
  insert_by_key, Bool-cases, inl, inr, ok, ◌↔◌,
}
use ethdam_rope.Hashes.{Hash, TypedHash, HashAlgorithm}
use ethdam_rope.Merkle.{MerkleProof, merkle_verify, leaf_index, leaf_hash}
use ethdam_rope.Merkle.Interfaces.{RsMerkle, DuplicateCheck, member, Distinct}

-- The same items in another order.
pub data Reorder {A : Type 0} : List A → List A → Type 0 where
  same : (xs : List A) → Reorder xs xs
  skip : {xs ys : List A} (x : A) → Reorder xs ys → Reorder (x ∷ xs) (x ∷ ys)
  flip : {xs : List A} (x y : A) → Reorder (x ∷ y ∷ xs) (y ∷ x ∷ xs)
  both : {xs ys zs : List A} → Reorder xs ys → Reorder ys zs → Reorder xs zs

module _ {A : Type 0} (key : A → ℕ) where
  member-Reorder :
      {xs ys : List A} (i : ℕ) → Reorder xs ys → member i (map key xs) ≡ member i (map key ys)
  member-Reorder i (same xs) = refl
  member-Reorder i (skip x p) = ap (λ b. i == key x || b) (member-Reorder i p)
  member-Reorder i (flip x y) = ground arith
  member-Reorder i (both p q) = member-Reorder i p ∙ member-Reorder i q

  Distinct-Reorder :
      {xs ys : List A} → Reorder xs ys → Distinct (map key xs) → Distinct (map key ys)
  Distinct-Reorder (same xs) d = d
  Distinct-Reorder (skip x p) d = (sym (member-Reorder (key x) p) ∙ d.0, Distinct-Reorder p d.1)
  Distinct-Reorder (flip x y) d = ground arith
  Distinct-Reorder (both p q) d = Distinct-Reorder q (Distinct-Reorder p d)

  pub insert_by_key-Reorder : (x : A) (ys : List A) → Reorder (insert_by_key key x ys) (x ∷ ys)
  unfolding insert_by_key
  insert_by_key-Reorder x [] = same _
  insert_by_key-Reorder x (y ∷ ys) = elim (Bool-cases (leb (key x) (key y))) [
    | inl le ↦ rw le (same _)
    | inr gt ↦ rw gt (both (skip y (insert_by_key-Reorder x ys)) (flip y x))
  ]

  pub sort_by_key-Reorder : (xs : List A) → Reorder (sort_by_key key xs) xs
  unfolding sort_by_key
  sort_by_key-Reorder [] = same []
  sort_by_key-Reorder (x ∷ xs) =
      both (insert_by_key-Reorder x (sort_by_key key xs)) (skip x (sort_by_key-Reorder xs))

  insert_by_key_comm :
      (x y : A) (l : List A)
      → key x ≢ key y
      → insert_by_key key x (insert_by_key key y l) ≡ insert_by_key key y (insert_by_key key x l)
  unfolding insert_by_key
  insert_by_key_comm x y [] n = ground arith
  insert_by_key_comm x y (z ∷ l) n = ground (arith, insert_by_key_comm x y l n)

  -- Items with keys that differ are sorted in one way.
  pub sort_by_key-Reorder_eq :
      {xs ys : List A}
      → Reorder xs ys
      → Distinct (map key xs)
      → sort_by_key key xs ≡ sort_by_key key ys
  unfolding sort_by_key
  sort_by_key-Reorder_eq (same xs) d = refl
  sort_by_key-Reorder_eq (skip x p) d = ap (insert_by_key key x) (sort_by_key-Reorder_eq p d.1)
  sort_by_key-Reorder_eq (flip {xs} x y) d =
      insert_by_key_comm x y (sort_by_key key xs) (ground arith)
  sort_by_key-Reorder_eq (both p q) d =
      sort_by_key-Reorder_eq p d ∙ sort_by_key-Reorder_eq q (Distinct-Reorder p d)

Reorder-flip_back : {A : Type 0} {xs ys : List A} → Reorder xs ys → Reorder ys xs
Reorder-flip_back (same xs) = same xs
Reorder-flip_back (skip x p) = skip x (Reorder-flip_back p)
Reorder-flip_back (flip x y) = flip y x
Reorder-flip_back (both p q) = both (Reorder-flip_back q) (Reorder-flip_back p)

pub sorted-Distinct :
    (leaves : List (ℕ × Hash))
    → Distinct (map leaf_index leaves)
    → Distinct (map leaf_index (sort_by_key leaf_index leaves))
sorted-Distinct leaves =
    Distinct-Reorder leaf_index (Reorder-flip_back (sort_by_key-Reorder leaf_index leaves))

pub Distinct-sorted :
    (leaves : List (ℕ × Hash))
    → Distinct (map leaf_index (sort_by_key leaf_index leaves))
    → Distinct (map leaf_index leaves)
Distinct-sorted leaves = Distinct-Reorder leaf_index (sort_by_key-Reorder leaf_index leaves)

module _ ⦃rm : RsMerkle⦄ ⦃dc : DuplicateCheck⦄ where
  -- Leaves in another order are verified with the same result: accepted, refused for a repeated
  -- index, or refused as an invalid proof.
  pub merkle_verify-Reorder :
      (p : MerkleProof) (hasher : HashAlgorithm) (root : TypedHash) (xs ys : List (ℕ × Hash))
      → Reorder xs ys
      → merkle_verify p hasher root xs ≡ merkle_verify p hasher root ys
  unfolding merkle_verify
  merkle_verify-Reorder p hasher root xs ys r =
      let sx = map leaf_index (sort_by_key leaf_index xs) in
      let sy = map leaf_index (sort_by_key leaf_index ys) in
      elim (Bool-cases (dc.contains_dups sx)) [
        | inl dup ↦ elim (Bool-cases (dc.contains_dups sy)) [
          | inl dup' ↦ rw (dup, dup')
          | inr free' ↦
              let d = Distinct-sorted ys ((dc.contains_dups_iff sy).0 free') in
              let d' = sorted-Distinct xs (Distinct-Reorder leaf_index (Reorder-flip_back r) d) in
              absurd (cc ((dc.contains_dups_iff sx).1 d'))
        ]
        | inr free ↦
            let d = Distinct-sorted xs ((dc.contains_dups_iff sx).0 free) in
            rw (sort_by_key-Reorder_eq leaf_index r d) refl
      ]

  -- A verified proof is for leaves with different indices, which `rs_merkle` accepts in the order of
  -- the indices; and such leaves are verified.
  pub merkle_verify_iff :
      (p : MerkleProof) (hasher : HashAlgorithm) (root : TypedHash) (leaves : List (ℕ × Hash))
      → (merkle_verify p hasher root leaves ≡ ok tt) ↔ (
          Distinct (map leaf_index leaves)
          × (rm.verify p.proof hasher.hash root.value
                (map leaf_index (sort_by_key leaf_index leaves))
                (map leaf_hash (sort_by_key leaf_index leaves))
                p.leaf_count
              ≡ true))
  unfolding merkle_verify
  merkle_verify_iff p hasher root leaves =
      let laws = dc.contains_dups_iff (map leaf_index (sort_by_key leaf_index leaves)) in
      (
        λ h. (Distinct-sorted leaves (laws.0 (ground arith)), ground arith),
        λ h. rw (laws.1 (sorted-Distinct leaves h.0), h.1),
      )
