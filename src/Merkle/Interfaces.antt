-- ===== src/Merkle/Interfaces.antt =====
-- The crates that the Merkle trees rest on, which the repository calls and does not hold.
use ethdam_rope.Prelude.{
  ℕ, ◌≤◌, ◌==◌, ◌||◌, refl, arith, ◌<◌, ◌≡◌, Bool, true, false, ◌↔◌, List, [], ◌∷◌, length,
  get_elem?, Option, some, ◌>>=◌,
}
use ethdam_rope.Hashes.{Hash}

-- The leaves at the given positions.
abbrev pub leaves_at : List Hash → List ℕ → Option (List Hash)
leaves_at leaves [] = some []
leaves_at leaves (i ∷ is) = do h ← get_elem? leaves i; rest ← leaves_at leaves is; some (h ∷ rest)

-- Each number is smaller than the next one.
abbrev pub Ascends : List ℕ → Type 0
Ascends [] = Unit {0}
Ascends (i ∷ []) = Unit {0}
Ascends (i ∷ j ∷ is) = (i < j) × Ascends (j ∷ is)

abbrev pub member : ℕ → List ℕ → Bool
member i [] = false
member i (j ∷ js) = i == j || member i js

abbrev pub Distinct : List ℕ → Type 0
Distinct [] = Unit {0}
Distinct (i ∷ is) = (member i is ≡ false) × Distinct is

Ascends-below : (i : ℕ) (is : List ℕ) → Ascends (i ∷ is) → (j : ℕ) → j ≤ i → member j is ≡ false
Ascends-below i [] a j h = refl
Ascends-below i (k ∷ is) a j h = ground (arith, Ascends-below k is a.1 j)

pub Ascends-Distinct : (is : List ℕ) → Ascends is → Distinct is
Ascends-Distinct [] a = tt
Ascends-Distinct (i ∷ []) a = (refl, tt)
Ascends-Distinct (i ∷ j ∷ is) a =
    (Ascends-below i (j ∷ is) a i (omega arith), Ascends-Distinct (j ∷ is) a.1)

-- `DuplicateCheck` of `tlsn-utils`.
pub record DuplicateCheck : Type 0 where
  pub contains_dups : List ℕ → Bool
  pub contains_dups_iff : (is : List ℕ) → (contains_dups is ≡ false) ↔ Distinct is

-- `rs_merkle`: `commit` is given the hash function, and a proof is for leaves by position. The proof
-- that a tree gives for some of its leaves is accepted under its root.
pub record RsMerkle : Type 1 where
  pub Tree : Type 0
  pub Proof : Type 0
  pub default : Tree
  pub append : Tree → List Hash → Tree
  pub commit : Tree → (List ℕ → Hash) → Tree
  pub root : Tree → Option Hash
  pub leaves_len : Tree → ℕ
  pub proof : Tree → List ℕ → Proof
  pub verify : Proof → (List ℕ → Hash) → Hash → List ℕ → List Hash → ℕ → Bool
  pub leaves_len-commit :
      (leaves : List Hash) (h : List ℕ → Hash)
      → leaves_len (commit (append default leaves) h) ≡ length leaves
  pub root-commit :
      (leaves : List Hash) (h : List ℕ → Hash)
      → 0 < length leaves
      → (r : Hash) × (root (commit (append default leaves) h) ≡ some r)
  pub verify-proof :
      (leaves : List Hash) (h : List ℕ → Hash) (r : Hash) (is : List ℕ) (picked : List Hash)
      → root (commit (append default leaves) h) ≡ some r
      → 0 < length is
      → Ascends is
      → leaves_at leaves is ≡ some picked
      → verify (proof (commit (append default leaves) h) is) h r is picked (length leaves) ≡ true
