-- ===== src/Merkle/Complete.antt =====
-- A proof that a tree gives for some of its leaves is verified under the root of the tree.
use ethdam_rope.Prelude.{
  ℕ, ◌<◌, ◌≡◌, refl, ap, true, List, [], ◌∷◌, map, length, get_elem?, some, ok, arith,
  sort_by_key-Increasing, Increasing, is_equal_refl, >>=-eq-some, get_elem?-lt, subst, sym,
}
use ethdam_rope.Hashes.{Hash, TypedHash, HashAlgorithm, hash_alg_id_eq}
use ethdam_rope.Merkle.{
  MerkleProof, MerkleTree, merkle_verify, leaf_index, leaf_hash, new_merkle_tree, merkle_insert,
  merkle_root, merkle_proof, increases, last_index,
}
use ethdam_rope.Merkle.Interfaces.{RsMerkle, DuplicateCheck, Ascends, Ascends-Distinct, leaves_at}

abbrev pub zip : List ℕ → List Hash → List (ℕ × Hash)
zip [] hs = []
zip (i ∷ is) [] = []
zip (i ∷ is) (h ∷ hs) = (i, h) ∷ zip is hs

Ascends-increases : (is : List ℕ) → Ascends is → increases is ≡ true
Ascends-increases [] a = refl
Ascends-increases (i ∷ []) a = refl
Ascends-increases (i ∷ j ∷ is) a = ground (arith, Ascends-increases (j ∷ is) a.1)

leaves_at-cons :
    (leaves : List Hash) (i : ℕ) (is : List ℕ) (picked : List Hash)
    → leaves_at leaves (i ∷ is) ≡ some picked
    → (h : Hash) × (hs : List Hash) × (get_elem? leaves i ≡ some h)
      × (leaves_at leaves is ≡ some hs)
      × (picked ≡ h ∷ hs)
leaves_at-cons leaves i is picked e =
    let (h, here, more) = >>=-eq-some (get_elem? leaves i) _ e in
    let (hs, rest, last) = >>=-eq-some (leaves_at leaves is) _ more in (h, hs, here, rest, cc)

leaves_at-last :
    (leaves : List Hash) (is : List ℕ) (picked : List Hash)
    → leaves_at leaves is ≡ some picked
    → 0 < length is
    → (l : ℕ) × (last_index is ≡ some l) × (l < length leaves)
leaves_at-last leaves [] picked e h = absurd (omega arith)
leaves_at-last leaves (i ∷ []) picked e h =
    let (x, xs, here, rest, eq) = leaves_at-cons leaves i [] picked e in
    (i, refl, get_elem?-lt leaves i here)
leaves_at-last leaves (i ∷ j ∷ is) picked e h =
    let (x, xs, here, rest, eq) = leaves_at-cons leaves i (j ∷ is) picked e in
    leaves_at-last leaves (j ∷ is) xs rest (omega arith)

-- The leaves by their positions.
record Zips (is : List ℕ) (hs : List Hash) : Type 0 where
  indices : map leaf_index (zip is hs) ≡ is
  hashes : map leaf_hash (zip is hs) ≡ hs

leaves_at-Zips :
    (leaves : List Hash) (is : List ℕ) (hs : List Hash) → leaves_at leaves is ≡ some hs → Zips is hs
leaves_at-Zips leaves [] hs e = record { indices = refl; hashes = cc }
leaves_at-Zips leaves (i ∷ is) hs e =
    let (x, xs, here, rest, eq) = leaves_at-cons leaves i is hs e in
    let z = leaves_at-Zips leaves is xs rest in
    subst (Zips (i ∷ is)) (sym eq)
      (record { indices = ap (i ∷◌) z.indices; hashes = ap (x ∷◌) z.hashes })

zip-Increasing : (is : List ℕ) (hs : List Hash) → Ascends is → Increasing leaf_index (zip is hs)
zip-Increasing [] hs a = tt
zip-Increasing (i ∷ is) [] a = tt
zip-Increasing (i ∷ []) (h ∷ hs) a = tt
zip-Increasing (i ∷ j ∷ is) (h ∷ []) a = tt
zip-Increasing (i ∷ j ∷ is) (h ∷ g ∷ hs) a = (a.0, zip-Increasing (j ∷ is) (g ∷ hs) a.1)

module _ ⦃rm : RsMerkle⦄ ⦃dc : DuplicateCheck⦄ where
  -- A new tree of at least one leaf, made with its own hash algorithm, has a root. For some of its
  -- leaves, at ascending positions, it gives a proof, and the proof is verified under the root.
  pub merkle_verify-merkle_proof :
      (alg : HashAlgorithm) (leaves : List Hash) (is : List ℕ) (picked : List Hash)
      → 0 < length is
      → Ascends is
      → leaves_at leaves is ≡ some picked
      → (tree : MerkleTree) × (root : TypedHash) × (p : MerkleProof) × (merkle_insert
            (new_merkle_tree alg.id)
            alg
            leaves
          ≡ some tree)
        × (merkle_root tree ≡ some root)
        × (root.alg ≡ alg.id)
        × (merkle_proof tree is ≡ some p)
        × (merkle_verify p alg root (zip is picked) ≡ ok tt)
  unfolding merkle_insert new_merkle_tree merkle_root merkle_proof merkle_verify
  merkle_verify-merkle_proof alg leaves is picked h a e =
      let (l, last, below) = leaves_at-last leaves is picked e h in
      let grown = rm.commit (rm.append rm.default leaves) alg.hash in
      let (r, root) = rm.root-commit leaves alg.hash (omega arith) in
      let len = rm.leaves_len-commit leaves alg.hash in
      let z = leaves_at-Zips leaves is picked e in
      (
        record { alg = alg.id; tree = grown },
        record { alg = alg.id; value = r },
        record { alg = alg.id; leaf_count = rm.leaves_len grown; proof = rm.proof grown is },
        rw (is_equal_refl alg.id),
        rw root,
        refl,
        rw (Ascends-increases is a, last, len) (ground arith),
        rw (
          sort_by_key-Increasing leaf_index (zip is picked) (zip-Increasing is picked a),
          z.indices,
          z.hashes,
          (dc.contains_dups_iff is).1 (Ascends-Distinct is a),
          len,
          rm.verify-proof leaves alg.hash r is picked root h a e,
        ),
      )
