-- ===== src/Tests/Opened.antt =====
-- Instances of the theorems on commitments, on the index of fields and on proofs of transcripts.
use ethdam_rope.Prelude.{
  includes, ◌&&◌, List, ℕ, ◌≡◌, refl, ◌⊎◌, [], ◌∷◌, length, some, none, arith, true, is_equal,
  slice, copy_from_slice, get_entry, put_entry, ℕ_discrete,
}
use ethdam_rope.Outcomes.{returns, panics}
use ethdam_rope.RangeSets.Bitmap.{Bitmap, bitmap}
use ethdam_rope.Subsequence.{Direction, Idx}
use ethdam_rope.Transcript.{PartialTranscript}
use ethdam_rope.Transcript.View.{idx_mem, authed_of, view, IsValid}
use ethdam_rope.Hashes.{hash_eq, hash_alg_id_eq, blake3}
use ethdam_rope.Fields.{FieldId, Field, field_id_eq}
use ethdam_rope.Indexes.{Index, new_index, get_by_field_id, get_by_transcript_idx, index_idx}
use ethdam_rope.Indexes.Lookup.{find_last, covered, new_index-find_last}
use ethdam_rope.Commits.{TranscriptCommitmentKind, build_commit_config, new_commit_builder}
use ethdam_rope.Commits.Kept.{
  Call, choose_kind, commit_as, commit_default, after_calls, asked, in_transcript,
  build_commit_config-asked,
}
use ethdam_rope.Transcript.{Transcript}
use ethdam_rope.PlaintextHashes.{hash_place, index_hashes, PlaintextHash, PlaintextHashProof}
use ethdam_rope.Connections.{TlsVersion, KeyType}
use ethdam_rope.Providers.{CryptoProvider}
use ethdam_rope.Attestations.{Body}
use ethdam_rope.TranscriptProofs.{TranscriptProof, verify_transcript_proof}
use ethdam_rope.TranscriptProofs.Verified.{HashOpens}
use ethdam_rope.TranscriptProofs.Sound.{
  EncodingSource, verify_transcript_proof-sources, verify_transcript_proof_panics,
}
use ethdam_rope.Tests.Crypto.{
  pairwise, leaf_list, constant_stream, leaf_codec, bytes_codec, place_eq, commit_eq, only_blake3,
  any_tls, one_idx, small_hash, first_bytes,
}

-- The bytes 47, and a blinder of 1 and 1.
abbrev hashed_field : Field (PlaintextHash Bitmap)
hashed_field = record {
  id = record { id = 4 };
  content = record {
    direction = Direction.sent;
    idx = one_idx;
    hash = record { alg = blake3; value = record { value = 47 ∷ 1 ∷ 1 ∷ []; len = 4 } };
  };
}

abbrev hashed_fields : Index (Field (PlaintextHash Bitmap)) Bitmap
unfolding bitmap place_eq
hashed_fields = index_hashes (hashed_field ∷ [])

new_index-find_last_example :
    ((id : FieldId)
      → get_by_field_id (new_index (hashed_field ∷ []) hash_place) id
        ≡ some (find_last (λ item. is_equal id (hash_place item).id) (hashed_field ∷ [])))
    × ((place : Direction × Idx Bitmap)
        → get_by_transcript_idx (new_index (hashed_field ∷ []) hash_place) place
          ≡ some (
              find_last
                (λ item. is_equal place ((hash_place item).direction, (hash_place item).idx))
                (hashed_field ∷ [])))
    × ((d : Direction) (i : ℕ)
        → idx_mem (index_idx (new_index (hashed_field ∷ []) hash_place) d) i
          ≡ covered hash_place (hashed_field ∷ []) d i)
new_index-find_last_example = new_index-find_last hash_place (hashed_field ∷ [])

-- An attested transcript of the given number of bytes sent.
abbrev body_of : ℕ → Body Bitmap
body_of sent_len = record {
  verifying_key = record {
    id = record { id = 0 };
    content = record { alg = record { id = 1 }; key = 5 ∷ [] };
  };
  connection_info = record {
    id = record { id = 1 };
    content = record {
      time = 0;
      version = TlsVersion.v1_2;
      transcript_length = record { sent = sent_len; received = 0 };
    };
  };
  server_ephemeral_key = record {
    id = record { id = 2 };
    content = record { typ = KeyType.secp256r1; key = 6 ∷ [] };
  };
  cert_commitment = record {
    id = record { id = 3 };
    content = record { hash = record { alg = blake3; value = small_hash } };
  };
  encoding_commitment = none;
  plaintext_hashes = hashed_fields;
  extensions = [];
}

abbrev verifying_party : CryptoProvider
unfolding any_tls
verifying_party = record {
  hash = only_blake3;
  cert = tt;
  signer = record { signers = [] };
  signature = record { verifiers = [] };
}

abbrev hash_opening : PlaintextHashProof
hash_opening = record {
  blinded = record { content = 47 ∷ []; blinder = record { bytes = 1 ∷ 1 ∷ [] } };
  commitment = record { id = 4 };
}

abbrev hash_proof : TranscriptProof Bitmap
hash_proof = record { encoding_proof = none; hash_proofs = hash_opening ∷ [] }

abbrev opened_transcript : PartialTranscript Bitmap
opened_transcript = record {
  sent = 0 ∷ 47 ∷ [];
  received = [];
  sent_authed_idx = one_idx;
  received_authed_idx = record { ranges = [] };
}

hash_proof_runs :
    verify_transcript_proof hash_proof verifying_party (body_of 2) ≡ returns opened_transcript
unfolding verify_transcript_proof bytes_codec bitmap slice copy_from_slice get_entry put_entry
    index_hashes get_by_field_id hash_alg_id_eq field_id_eq place_eq ℕ_discrete hash_eq
    verifying_party
hash_proof_runs = refl

verify_transcript_proof-sources_example :
    IsValid opened_transcript
    × (length opened_transcript.sent ≡ 2)
    × (length opened_transcript.received ≡ 0)
    × ((d : Direction) (i : ℕ)
        → idx_mem (authed_of d opened_transcript) i ≡ true
        → EncodingSource only_blake3 (body_of 2) none d i (view d opened_transcript i)
          ⊎ HashOpens only_blake3 hashed_fields
              (hash_opening ∷ [])
              d
              i
              (view d opened_transcript i))
unfolding verifying_party
verify_transcript_proof-sources_example =
    verify_transcript_proof-sources hash_proof verifying_party (body_of 2) tt hash_proof_runs

verify_transcript_proof_panics_example :
    verify_transcript_proof hash_proof verifying_party (body_of 1) ≡ panics
unfolding bytes_codec bitmap get_entry put_entry index_hashes get_by_field_id hash_alg_id_eq
    field_id_eq place_eq ℕ_discrete verifying_party
verify_transcript_proof_panics_example =
    verify_transcript_proof_panics hash_opening [] verifying_party (body_of 1) hashed_field.content
      (record {
        field = hashed_field;
        found = refl;
        attested = refl;
        alg = first_bytes;
        supported = refl;
        matches = refl;
        fits = refl;
      })
      (omega arith) (omega arith)

abbrev commit_calls : List (Call Bitmap)
commit_calls =
    commit_default one_idx Direction.received
    ∷ choose_kind (TranscriptCommitmentKind.hash blake3)
    ∷ commit_default one_idx Direction.sent
    ∷ commit_as one_idx Direction.sent TranscriptCommitmentKind.encoding
    ∷ []

abbrev two_bytes : Transcript
two_bytes = record { sent = 1 ∷ 2 ∷ []; received = [] }

build_commit_config-asked_example :
    includes
      (build_commit_config (after_calls commit_calls (new_commit_builder two_bytes))).commits
      ((Direction.sent, one_idx), TranscriptCommitmentKind.hash blake3)
    ≡ (includes
          (asked TranscriptCommitmentKind.encoding commit_calls)
          ((Direction.sent, one_idx), TranscriptCommitmentKind.hash blake3)
        && in_transcript two_bytes
            ((Direction.sent, one_idx), TranscriptCommitmentKind.hash blake3))
build_commit_config-asked_example =
    build_commit_config-asked two_bytes commit_calls
      ((Direction.sent, one_idx), TranscriptCommitmentKind.hash blake3)
