-- ===== src/Tests/Crypto.antt =====
-- Instances of the interfaces of the crates, for runs: a tree whose proofs are all its leaves, a hash
-- that keeps the first bytes, and a serialization that joins the parts.
use ethdam_rope.Prelude.{
  ℕ_discrete, ℕ, ◌+◌, ◌<◌, ◌≡◌, refl, Bool, true, false, ◌&&◌, ◌||◌, ◌==◌, ltb, if◌then◌else◌, List,
  [], ◌∷◌, ◌++◌, take, length, length-replicate, replicate, Option, none, some, arith, Eq, is_equal,
  is_equal_refl, ◌↔◌,
}
use ethdam_rope.RangeSets.Bitmap.{Bitmap, bitmap}
use ethdam_rope.Subsequence.{Direction, Idx}
use ethdam_rope.Hashes.{
  Hash, HashAlgorithm, HashProvider, Blinded, CanonicalSerialize, hash_eq, blake3,
}
use ethdam_rope.Merkle.Interfaces.{RsMerkle, DuplicateCheck, member, Distinct, leaves_at}
use ethdam_rope.Encodings.Encoder.{ChaCha}
use ethdam_rope.Encodings.Proof.{EncodingLeaf}
use ethdam_rope.Commits.{Commit}
use ethdam_rope.Connections.{TlsCore}
use Prim.Native.String.{String}

unfoldable pub has_dups : List ℕ → Bool
has_dups [] = false
has_dups (i ∷ is) = let rest = has_dups is in member i is || rest

pub has_dups_iff : (is : List ℕ) → (has_dups is ≡ false) ↔ Distinct is
unfolding has_dups
has_dups_iff [] = (λ h. tt, λ d. refl)
has_dups_iff (i ∷ is) =
    let ih = has_dups_iff is in
    (λ h. (ground arith, ih.0 (ground arith)), λ d. ground (arith, d.0, ih.1 d.1))

instance unfoldable pub pairwise : DuplicateCheck
unfolding has_dups
pairwise = record { contains_dups = has_dups; contains_dups_iff = has_dups_iff }

abbrev joined : List Hash → List ℕ
joined [] = []
joined (h ∷ hs) = h.value ++ joined hs

abbrev root_of : (List ℕ → Hash) → List Hash → Option Hash
root_of h [] = none
root_of h (l ∷ ls) = some (h (joined (l ∷ ls)))

unfoldable pub same_hashes : List Hash → List Hash → Bool
unfolding is_equal
same_hashes [] [] = true
same_hashes [] (h ∷ hs) = false
same_hashes (g ∷ gs) [] = false
same_hashes (g ∷ gs) (h ∷ hs) = let rest = same_hashes gs hs in is_equal g h && rest

same_hashes_refl : (hs : List Hash) → same_hashes hs hs ≡ true
unfolding same_hashes
same_hashes_refl [] = refl
same_hashes_refl (h ∷ hs) = rw (is_equal_refl h, same_hashes_refl hs) refl

abbrev matches : Option (List Hash) → List Hash → Bool
matches none picked = false
matches (some hs) picked = same_hashes hs picked

abbrev is_root : Option Hash → Hash → Bool
is_root none r = false
is_root (some root) r = is_equal root r

unfoldable pub list_verify : List Hash → (List ℕ → Hash) → Hash → List ℕ → List Hash → ℕ → Bool
unfolding same_hashes is_equal
list_verify leaves h r is picked count =
    is_root (root_of h leaves) r && matches (leaves_at leaves is) picked && (length leaves == count)

pub list_verify_own :
    (leaves : List Hash) (h : List ℕ → Hash) (r : Hash) (is : List ℕ) (picked : List Hash)
    → root_of h leaves ≡ some r
    → leaves_at leaves is ≡ some picked
    → list_verify leaves h r is picked (length leaves) ≡ true
unfolding list_verify
list_verify_own leaves h r is picked root found =
    rw (root, found, is_equal_refl r, same_hashes_refl picked) (ground arith)

pub root_of-some :
    (h : List ℕ → Hash) (leaves : List Hash)
    → 0 < length leaves
    → (r : Hash) × (root_of h leaves ≡ some r)
root_of-some h [] p = absurd (omega arith)
root_of-some h (l ∷ ls) p = (h (joined (l ∷ ls)), refl)

instance unfoldable pub leaf_list : RsMerkle
unfolding list_verify
leaf_list = record {
  Tree = List Hash × Option Hash;
  Proof = List Hash;
  default = ([], none);
  append = λ t leaves. (t.0 ++ leaves, t.1);
  commit = λ t h. (t.0, root_of h t.0);
  root = λ t. t.1;
  leaves_len = λ t. length t.0;
  proof = λ t is. t.0;
  verify = list_verify;
  leaves_len-commit = λ leaves h. refl;
  root-commit = λ leaves h p. root_of-some h leaves p;
  verify-proof =
      λ leaves h r is picked root p a found. list_verify_own leaves h r is picked root found;
}

instance unfoldable pub constant_stream : ChaCha
constant_stream = record {
  fill_bytes = λ seed stream word_pos len. replicate len (stream + 1);
  length-fill_bytes = λ seed stream word_pos len. length-replicate len (stream + 1);
}

instance unfoldable pub leaf_codec : CanonicalSerialize (Blinded EncodingLeaf)
leaf_codec = record { serialize = λ leaf. some (leaf.content.encoding ++ leaf.blinder.bytes) }

-- Refuses encodings of more than 100 bytes.
unfoldable pub short_leaf_codec : CanonicalSerialize (Blinded EncodingLeaf)
short_leaf_codec = record {
  serialize = λ leaf.
      if ltb 100 (length leaf.content.encoding)
      then none
      else some (leaf.content.encoding ++ leaf.blinder.bytes);
}

instance unfoldable pub bytes_codec : CanonicalSerialize (Blinded (List ℕ))
bytes_codec = record { serialize = λ b. some (b.content ++ b.blinder.bytes) }

place_dec : Discrete (Direction × Idx Bitmap)
place_dec = hlevel

instance unfoldable pub place_eq : Eq (Direction × Idx Bitmap)
unfolding place_dec
place_eq = record { dec = place_dec }

abbrev pub first_bytes : HashAlgorithm
first_bytes = record {
  id = blake3;
  hash = λ bytes. record { value = take 4 bytes; len = 4 };
  hash_prefixed = λ prefix bytes. record { value = take 2 prefix ++ take 2 bytes; len = 4 };
}

abbrev pub only_blake3 : HashProvider
only_blake3 = record { algs = (blake3, first_bytes) ∷ [] }

-- A crate that accepts every name, certificate and signature.
instance unfoldable pub any_tls : TlsCore
any_tls = record {
  DnsName = String;
  Verifier = Unit {0};
  parse_dns = λ name. some name;
  encode_ecdh_params = λ typ key. key;
  verify_server_cert = λ verifier cert rest name time. true;
  verify_tls12_signature = λ verifier message cert scheme sig. true;
}

-- The byte 47 at index 1 of what was sent.
abbrev pub one_idx : Idx Bitmap
one_idx = record { ranges = false ∷ true ∷ [] }

abbrev pub small_hash : Hash
small_hash = record { value = 7 ∷ 8 ∷ 9 ∷ []; len = 3 }

commit_dec : Discrete (Commit Bitmap)
commit_dec = hlevel ℕ_discrete

instance unfoldable pub commit_eq : Eq (Commit Bitmap)
unfolding commit_dec
commit_eq = record { dec = commit_dec }
