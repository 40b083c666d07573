-- ===== src/Commits.antt =====
-- tlsn/crates/core/src/transcript/commit.rs: which parts of a transcript are committed to, and how.
-- A builder takes the ranges as an `Idx`, since `to_range_set` belongs to the crate `rangeset`. The set
-- of commitments is a list without repetitions, in any order.
pub mod Kept
use ethdam_rope.Prelude.{
  ℕ, ltb, if◌then◌else◌, Bool, true, false, List, [], ◌∷◌, ◌++◌, Result, ok, err, Eq, is_equal,
  includes,
}
use ethdam_rope.RangeSets.{RangeSet}
use ethdam_rope.Subsequence.{Direction, Idx, idx_end}
use ethdam_rope.Transcript.{Transcript, len_of_direction}
use ethdam_rope.Hashes.{HashAlgId, blake3}

abbrev pub max_total_committed_data : ℕ
max_total_committed_data = 1000000000

pub data TranscriptCommitmentKind : Type 0 where
  encoding : TranscriptCommitmentKind
  hash : HashAlgId → TranscriptCommitmentKind

pub record TranscriptCommitConfig (R : Type 0) : Type 0 where
  pub encoding_hash_alg : HashAlgId
  pub commits : List ((Direction × Idx R) × TranscriptCommitmentKind)

pub record TranscriptCommitConfigBuilder (R : Type 0) : Type 0 where
  pub transcript : Transcript
  pub encoding_hash_alg : HashAlgId
  pub default_kind : TranscriptCommitmentKind
  pub commits : List ((Direction × Idx R) × TranscriptCommitmentKind)

-- The direction, the end of the index and the length of the transcript, which the message names.
pub data CommitConfigError : Type 0 where
  commit_out_of_bounds : Direction → ℕ → ℕ → CommitConfigError

-- A commitment: where, and of which kind.
abbrev pub Commit : Type 0 → Type 0
Commit R = (Direction × Idx R) × TranscriptCommitmentKind

module _ {R : Type 0} where
  unfoldable pub has_encoding : TranscriptCommitConfig R → Bool
  has_encoding config = any_encoding config.commits
    where
      any_encoding : List (Commit R) → Bool
      any_encoding [] = false
      any_encoding ((_, TranscriptCommitmentKind.encoding) ∷ commits) = true
      any_encoding ((_, TranscriptCommitmentKind.hash alg) ∷ commits) = any_encoding commits

  unfoldable pub encoding_idxs : List (Commit R) → List (Direction × Idx R)
  encoding_idxs [] = []
  encoding_idxs ((idx, TranscriptCommitmentKind.encoding) ∷ commits) = idx ∷ encoding_idxs commits
  encoding_idxs ((idx, TranscriptCommitmentKind.hash alg) ∷ commits) = encoding_idxs commits

  unfoldable pub hash_idxs : List (Commit R) → List ((Direction × Idx R) × HashAlgId)
  hash_idxs [] = []
  hash_idxs ((idx, TranscriptCommitmentKind.encoding) ∷ commits) = hash_idxs commits
  hash_idxs ((idx, TranscriptCommitmentKind.hash alg) ∷ commits) = (idx, alg) ∷ hash_idxs commits

  abbrev pub iter_encoding : TranscriptCommitConfig R → List (Direction × Idx R)
  iter_encoding config = encoding_idxs config.commits

  abbrev pub iter_hash : TranscriptCommitConfig R → List ((Direction × Idx R) × HashAlgId)
  iter_hash config = hash_idxs config.commits

  abbrev pub new_commit_builder : Transcript → TranscriptCommitConfigBuilder R
  new_commit_builder transcript = record {
    transcript = transcript;
    encoding_hash_alg = blake3;
    default_kind = TranscriptCommitmentKind.encoding;
    commits = [];
  }

  abbrev pub set_encoding_hash_alg :
      HashAlgId → TranscriptCommitConfigBuilder R → TranscriptCommitConfigBuilder R
  set_encoding_hash_alg alg builder = record builder { encoding_hash_alg = alg }

  abbrev pub set_default_kind :
      TranscriptCommitmentKind → TranscriptCommitConfigBuilder R → TranscriptCommitConfigBuilder R
  set_default_kind kind builder = record builder { default_kind = kind }

  abbrev pub build_commit_config : TranscriptCommitConfigBuilder R → TranscriptCommitConfig R
  build_commit_config builder = record {
    encoding_hash_alg = builder.encoding_hash_alg;
    commits = builder.commits;
  }

-- `HashSet::insert`.
unfoldable pub insert_commit :
    {R : Type 0} → ⦃e : Eq (Commit R)⦄ → Commit R → List (Commit R) → List (Commit R)
unfolding is_equal
insert_commit commit commits = if includes commits commit then commits else commits ++ (commit ∷ [])

module _ {R : Type 0} ⦃rs : RangeSet R⦄ ⦃e : Eq (Commit R)⦄ where
  unfoldable pub commit_with_kind :
      Idx R
      → Direction
      → TranscriptCommitmentKind
      → TranscriptCommitConfigBuilder R
      → Result CommitConfigError (TranscriptCommitConfigBuilder R)
  unfolding insert_commit len_of_direction
  commit_with_kind idx direction kind builder =
      if ltb (len_of_direction builder.transcript direction) (idx_end idx)
      then err (
          commit_out_of_bounds direction (idx_end idx)
            (len_of_direction builder.transcript direction))
      else ok (record builder { commits = insert_commit ((direction, idx), kind) builder.commits })

  abbrev pub commit_idx :
      Idx R
      → Direction
      → TranscriptCommitConfigBuilder R
      → Result CommitConfigError (TranscriptCommitConfigBuilder R)
  commit_idx idx direction builder = commit_with_kind idx direction builder.default_kind builder

  abbrev pub commit_sent_idx :
      Idx R
      → TranscriptCommitConfigBuilder R
      → Result CommitConfigError (TranscriptCommitConfigBuilder R)
  commit_sent_idx idx builder = commit_idx idx Direction.sent builder

  abbrev pub commit_recv_idx :
      Idx R
      → TranscriptCommitConfigBuilder R
      → Result CommitConfigError (TranscriptCommitConfigBuilder R)
  commit_recv_idx idx builder = commit_idx idx Direction.received builder
