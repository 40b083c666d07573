-- ===== src/Tests/Proofs.antt =====
-- Instances of the theorems on hashes, Merkle trees, indices, and proofs of transcripts.
use ethdam_rope.Prelude.{
  ℕ, ◌≡◌, refl, ◌↔◌, ◌<◌, ◌≤◌, List, [], ◌∷◌, length, some, none, ok, err, arith, replicate, true,
  sort_by_key, slice, copy_from_slice, ◌*◌, get_entry, ℕ_discrete,
}
use ethdam_rope.Hashes.{
  hash_eq, hash_alg_id_eq, Hash, TypedHash, blake3, max_len, hash_try_from, new_hash, hash_into_vec,
  hash_too_long,
}
use ethdam_rope.Hashes.Values.{hash_into_vec-hash_try_from}
use ethdam_rope.Merkle.{
  MerkleProof, MerkleTree, merkle_verify, new_merkle_tree, merkle_insert, merkle_root, merkle_proof,
}
use ethdam_rope.Merkle.Order.{flip, merkle_verify-Reorder, merkle_verify_iff}
use ethdam_rope.Merkle.Complete.{zip, merkle_verify-merkle_proof}
use ethdam_rope.Merkle.Interfaces.{Distinct}
use ethdam_rope.Tests.Crypto.{
  pairwise, leaf_list, list_verify, first_bytes, only_blake3, constant_stream, leaf_codec,
  short_leaf_codec, place_eq, one_idx,
}
use ethdam_rope.Outcomes.{returns, panics}
use ethdam_rope.RangeSets.Bitmap.{Bitmap, bitmap}
use ethdam_rope.Subsequence.{Direction, Subsequence}
use ethdam_rope.Transcript.{PartialTranscript, TranscriptLength}
use ethdam_rope.Hashes.{Blinded}
use ethdam_rope.Encodings.Commitment.{EncodingCommitment}
use ethdam_rope.Encodings.Encoder.{ChaChaEncoder, EncoderSecret, encode_subsequence}
use ethdam_rope.Encodings.Bytes.{seq_encoding, encode_subsequence-seq_encoding}
use ethdam_rope.Encodings.Proof.{EncodingLeaf, Opening, EncodingProof, verify_encoding_proof}
use ethdam_rope.Encodings.Opened.{EncodingShown, verify_encoding_proof-EncodingShown}
use ethdam_rope.Encodings.Oversized.{verify_encoding_proof_panics}

abbrev three_bytes : List ℕ
three_bytes = 1 ∷ 2 ∷ 3 ∷ []

hash_into_vec-hash_try_from_example :
    (length three_bytes ≤ max_len
      → (h : Hash) × (hash_try_from three_bytes ≡ some (ok h))
        × (new_hash three_bytes ≡ some h)
        × (length h.value ≡ max_len)
        × (hash_into_vec h ≡ some three_bytes))
    × (max_len < length three_bytes
        → (hash_try_from three_bytes ≡ some (err hash_too_long)) × (new_hash three_bytes ≡ none))
hash_into_vec-hash_try_from_example = hash_into_vec-hash_try_from three_bytes

abbrev hash_a : Hash
hash_a = record { value = 7 ∷ 8 ∷ 9 ∷ []; len = 3 }

abbrev hash_b : Hash
hash_b = record { value = 5 ∷ []; len = 1 }

abbrev hash_c : Hash
hash_c = record { value = 6 ∷ 6 ∷ []; len = 2 }

abbrev abc_root : TypedHash
abc_root = record { alg = blake3; value = record { value = 7 ∷ 8 ∷ 9 ∷ 5 ∷ []; len = 4 } }

abbrev abc_proof : MerkleProof
unfolding leaf_list
abc_proof = record { alg = blake3; leaf_count = 3; proof = hash_a ∷ hash_b ∷ hash_c ∷ [] }

merkle_verify-Reorder_example :
    merkle_verify abc_proof first_bytes abc_root ((2, hash_c) ∷ (0, hash_a) ∷ [])
    ≡ merkle_verify abc_proof first_bytes abc_root ((0, hash_a) ∷ (2, hash_c) ∷ [])
merkle_verify-Reorder_example =
    merkle_verify-Reorder abc_proof first_bytes abc_root ((2, hash_c) ∷ (0, hash_a) ∷ [])
      ((0, hash_a) ∷ (2, hash_c) ∷ []) (flip (2, hash_c) (0, hash_a))

merkle_verify_runs :
    merkle_verify abc_proof first_bytes abc_root ((2, hash_c) ∷ (0, hash_a) ∷ []) ≡ ok tt
unfolding merkle_verify leaf_list pairwise hash_eq ℕ_discrete
merkle_verify_runs = refl

merkle_verify_iff_example :
    (merkle_verify abc_proof first_bytes abc_root ((2, hash_c) ∷ (0, hash_a) ∷ []) ≡ ok tt) ↔ (
      Distinct (2 ∷ 0 ∷ [])
      × (list_verify
            (hash_a ∷ hash_b ∷ hash_c ∷ [])
            first_bytes.hash
            abc_root.value
            (0 ∷ 2 ∷ [])
            (hash_a ∷ hash_c ∷ [])
            3
          ≡ true))
unfolding leaf_list sort_by_key
merkle_verify_iff_example =
    merkle_verify_iff abc_proof first_bytes abc_root ((2, hash_c) ∷ (0, hash_a) ∷ [])

merkle_verify-merkle_proof_example :
    (tree : MerkleTree) × (root : TypedHash) × (p : MerkleProof) × (merkle_insert
        (new_merkle_tree first_bytes.id)
        first_bytes
        (hash_a ∷ hash_b ∷ hash_c ∷ [])
      ≡ some tree)
    × (merkle_root tree ≡ some root)
    × (root.alg ≡ first_bytes.id)
    × (merkle_proof tree (0 ∷ 2 ∷ []) ≡ some p)
    × (merkle_verify p first_bytes root (zip (0 ∷ 2 ∷ []) (hash_a ∷ hash_c ∷ [])) ≡ ok tt)
merkle_verify-merkle_proof_example =
    merkle_verify-merkle_proof first_bytes (hash_a ∷ hash_b ∷ hash_c ∷ []) (0 ∷ 2 ∷ [])
      (hash_a ∷ hash_c ∷ []) (omega arith) (omega arith, tt) refl

abbrev one_seq : Subsequence Bitmap
one_seq = record { idx = one_idx; bytes = 47 ∷ [] }

abbrev small_secret : EncoderSecret
small_secret = record { seed = 3 ∷ []; delta = replicate 16 9 }

abbrev small_encoder : ChaChaEncoder
small_encoder = record { seed = 3 ∷ []; delta = replicate 16 9 }

encode_subsequence-seq_encoding_example :
    (encode_subsequence small_encoder Direction.sent one_seq
      ≡ some (seq_encoding small_encoder Direction.sent one_seq))
    × (length (seq_encoding small_encoder Direction.sent one_seq) ≡ 1 * 128)
unfolding bitmap
encode_subsequence-seq_encoding_example =
    encode_subsequence-seq_encoding small_encoder Direction.sent one_seq refl

abbrev one_opening : Opening Bitmap
one_opening = record {
  direction = Direction.sent;
  seq = one_seq;
  blinder = record { bytes = 1 ∷ 1 ∷ [] };
}

abbrev two_sent : TranscriptLength
two_sent = record { sent = 2; received = 0 }

-- The leaf is the hash of the encoding, 1 xor 9 in the first bytes.
abbrev one_leaf : Hash
one_leaf = record { value = 8 ∷ 8 ∷ 8 ∷ 8 ∷ []; len = 4 }

abbrev one_commitment : EncodingCommitment
one_commitment = record { root = record { alg = blake3; value = one_leaf }; secret = small_secret }

abbrev one_proof : EncodingProof Bitmap
unfolding leaf_list
one_proof = record {
  inclusion_proof = record { alg = blake3; leaf_count = 1; proof = one_leaf ∷ [] };
  openings = (0, one_opening) ∷ [];
}

abbrev one_known : PartialTranscript Bitmap
one_known = record {
  sent = 0 ∷ 47 ∷ [];
  received = [];
  sent_authed_idx = one_idx;
  received_authed_idx = record { ranges = [] };
}

one_proof_runs :
    verify_encoding_proof one_proof only_blake3 two_sent one_commitment ≡ returns one_known
unfolding verify_encoding_proof leaf_list pairwise constant_stream leaf_codec bitmap slice
    copy_from_slice get_entry hash_alg_id_eq ℕ_discrete hash_eq
one_proof_runs = refl

verify_encoding_proof-EncodingShown_example :
    EncodingShown one_proof only_blake3 two_sent one_commitment one_known
unfolding bitmap one_proof
verify_encoding_proof-EncodingShown_example =
    verify_encoding_proof-EncodingShown one_proof only_blake3 two_sent one_commitment (refl, tt)
      one_proof_runs

short_leaf_codec_limit :
    (leaf : Blinded EncodingLeaf)
    → 100 < length leaf.content.encoding
    → short_leaf_codec.serialize leaf ≡ none
unfolding short_leaf_codec
short_leaf_codec_limit leaf h = ground arith

verify_encoding_proof_panics_example :
    verify_encoding_proof ⦃s = short_leaf_codec⦄ one_proof only_blake3 two_sent one_commitment
    ≡ panics
unfolding bitmap get_entry hash_alg_id_eq ℕ_discrete one_proof
verify_encoding_proof_panics_example =
    verify_encoding_proof_panics ⦃s = short_leaf_codec⦄ 100 one_proof.inclusion_proof 0 one_opening
      [] only_blake3 two_sent one_commitment first_bytes short_leaf_codec_limit refl refl
      (omega arith) (omega arith) (omega arith)
