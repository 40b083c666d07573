-- ===== src/Commits/Kept.antt =====
-- Which commitments a configuration has, whatever calls were made on its builder.
use ethdam_rope.Prelude.{
  ◌≡◌, refl, ap, sym, ◌∙◌, Bool, true, false, ◌&&◌, ◌||◌, leb, ltb, List, [], ◌∷◌, ◌++◌, Result, ok,
  err, Eq, is_equal, is_equal-cases, includes, arith, Bool-cases, inl, inr,
}
use ethdam_rope.RangeSets.{RangeSet}
use ethdam_rope.Subsequence.{Direction, Idx, idx_end}
use ethdam_rope.Transcript.{Transcript, len_of_direction}
use ethdam_rope.Hashes.{HashAlgId}
use ethdam_rope.Commits.{
  Commit, TranscriptCommitmentKind, TranscriptCommitConfigBuilder, CommitConfigError,
  new_commit_builder, set_encoding_hash_alg, set_default_kind, insert_commit, commit_with_kind,
  commit_idx, build_commit_config,
}

-- A call on the builder.
pub data Call (R : Type 0) : Type 0 where
  choose_alg : HashAlgId → Call R
  choose_kind : TranscriptCommitmentKind → Call R
  commit_as : Idx R → Direction → TranscriptCommitmentKind → Call R
  commit_default : Idx R → Direction → Call R

or_false : (a : Bool) → a ≡ (a || false)
or_false true = refl
or_false false = refl

or_steps : (a x y i : Bool) → ((a || (x && i)) || (y && i)) ≡ (a || ((x || y) && i))
or_steps true x y i = refl
or_steps false true y true = refl
or_steps false true true false = refl
or_steps false true false false = refl
or_steps false false y i = refl

module _ {R : Type 0} ⦃rs : RangeSet R⦄ ⦃e : Eq (Commit R)⦄ where
  -- The builder after a call that may have been refused.
  abbrev pub kept :
      TranscriptCommitConfigBuilder R
      → Result CommitConfigError (TranscriptCommitConfigBuilder R)
      → TranscriptCommitConfigBuilder R
  kept builder (err _) = builder
  kept builder (ok builder') = builder'

  abbrev pub called : Call R → TranscriptCommitConfigBuilder R → TranscriptCommitConfigBuilder R
  called (choose_alg alg) builder = set_encoding_hash_alg alg builder
  called (choose_kind kind) builder = set_default_kind kind builder
  called (commit_as idx direction kind) builder =
      kept builder (commit_with_kind idx direction kind builder)
  called (commit_default idx direction) builder = kept builder (commit_idx idx direction builder)

  abbrev pub after_calls :
      List (Call R) → TranscriptCommitConfigBuilder R → TranscriptCommitConfigBuilder R
  after_calls [] builder = builder
  after_calls (call ∷ calls) builder = after_calls calls (called call builder)

  -- The commitments that the calls ask for, the default kind being the given one.
  abbrev pub asked : TranscriptCommitmentKind → List (Call R) → List (Commit R)
  asked default [] = []
  asked default (choose_alg alg ∷ calls) = asked default calls
  asked default (choose_kind kind ∷ calls) = asked kind calls
  asked default (commit_as idx direction kind ∷ calls) =
      ((direction, idx), kind) ∷ asked default calls
  asked default (commit_default idx direction ∷ calls) =
      ((direction, idx), default) ∷ asked default calls

  -- The commitment lies within the transcript.
  unfoldable pub in_transcript : Transcript → Commit R → Bool
  in_transcript transcript c = leb (idx_end c.0.1) (len_of_direction transcript c.0.0)

  includes-append :
      (cs ds : List (Commit R)) (c : Commit R)
      → includes (cs ++ ds) c ≡ (includes cs c || includes ds c)
  includes-append [] ds c = refl
  includes-append (b ∷ cs) ds c = ground (arith, includes-append cs ds c)

  includes-insert_commit :
      (new : Commit R) (commits : List (Commit R)) (c : Commit R)
      → includes (insert_commit new commits) c ≡ (includes commits c || is_equal new c)
  unfolding insert_commit
  includes-insert_commit new commits c = elim (is_equal-cases new c) [
    | inl (same, yes_eq) ↦
        ground (arith, includes-append commits (new ∷ []) c, ap (includes commits) same)
    | inr (differ, no_eq) ↦ ground (arith, includes-append commits (new ∷ []) c)
  ]

  -- What a call that asks for a commitment leaves.
  record Took (c : Commit R) (b b' : TranscriptCommitConfigBuilder R) : Type 0 where
    same_transcript : b'.transcript ≡ b.transcript
    same_kind : b'.default_kind ≡ b.default_kind
    commits :
        (other : Commit R)
        → includes b'.commits other
          ≡ (includes b.commits other || (is_equal c other && in_transcript b.transcript other))

  refused :
      (c : Commit R) (transcript : Transcript) (other : Commit R)
      → in_transcript transcript c ≡ false
      → (is_equal c other && in_transcript transcript other) ≡ false
  refused c transcript other h = elim (is_equal-cases c other) [
    | inl (same, yes_eq) ↦ rw (yes_eq, sym (ap (in_transcript transcript) same), h) refl
    | inr (differ, no_eq) ↦ rw no_eq refl
  ]

  accepted :
      (c : Commit R) (transcript : Transcript) (other : Commit R)
      → in_transcript transcript c ≡ true
      → (is_equal c other && in_transcript transcript other) ≡ is_equal c other
  accepted c transcript other h = elim (is_equal-cases c other) [
    | inl (same, yes_eq) ↦ rw (yes_eq, sym (ap (in_transcript transcript) same), h) refl
    | inr (differ, no_eq) ↦ rw no_eq refl
  ]

  commit_with_kind-Took :
      (idx : Idx R) (d : Direction) (kind : TranscriptCommitmentKind)
      (b : TranscriptCommitConfigBuilder R)
      → Took ((d, idx), kind) b (kept b (commit_with_kind idx d kind b))
  unfolding commit_with_kind in_transcript
  commit_with_kind-Took idx d kind b =
      elim (Bool-cases (ltb (len_of_direction b.transcript d) (idx_end idx))) [
        | inl beyond ↦ rw beyond (record {
          same_transcript = refl;
          same_kind = refl;
          commits = λ other.
              or_false (includes b.commits other)
              ∙ ap (includes b.commits other ||◌)
                  (sym (refused ((d, idx), kind) b.transcript other (ground (arith, beyond))));
        })
        | inr within ↦ rw within (record {
          same_transcript = refl;
          same_kind = refl;
          commits = λ other.
              includes-insert_commit ((d, idx), kind) b.commits other
              ∙ ap (includes b.commits other ||◌)
                  (sym (accepted ((d, idx), kind) b.transcript other (ground (arith, within))));
        })
      ]

  -- A call, then the others.
  after_calls-Took :
      (calls : List (Call R)) (new : Commit R) (b b' : TranscriptCommitConfigBuilder R)
      (c : Commit R)
      → Took new b b'
      → includes (after_calls calls b').commits c ≡ (
          includes b'.commits c
          || (includes (asked b'.default_kind calls) c && in_transcript b'.transcript c))
      → includes (after_calls calls b').commits c ≡ (
          includes b.commits c
          || ((is_equal new c || includes (asked b.default_kind calls) c)
              && in_transcript b.transcript c))
  after_calls-Took calls new b b' c t rest =
      rest
      ∙ rw (t.commits c, t.same_kind, t.same_transcript)
          (or_steps (includes b.commits c) (is_equal new c)
            (includes (asked b.default_kind calls) c) (in_transcript b.transcript c))

  -- The commitments that calls leave, from any builder on.
  after_calls-commits :
      (calls : List (Call R)) (b : TranscriptCommitConfigBuilder R) (c : Commit R)
      → includes (after_calls calls b).commits c ≡ (
          includes b.commits c
          || (includes (asked b.default_kind calls) c && in_transcript b.transcript c))
  after_calls-commits [] b c = or_false (includes b.commits c)
  after_calls-commits (choose_alg alg ∷ calls) b c =
      after_calls-commits calls (set_encoding_hash_alg alg b) c
  after_calls-commits (choose_kind kind ∷ calls) b c =
      after_calls-commits calls (set_default_kind kind b) c
  after_calls-commits (commit_as idx d kind ∷ calls) b c =
      after_calls-Took calls ((d, idx), kind) b (kept b (commit_with_kind idx d kind b)) c
        (commit_with_kind-Took idx d kind b)
        (after_calls-commits calls (kept b (commit_with_kind idx d kind b)) c)
  after_calls-commits (commit_default idx d ∷ calls) b c =
      after_calls-Took calls ((d, idx), b.default_kind) b (kept b (commit_idx idx d b)) c
        (commit_with_kind-Took idx d b.default_kind b)
        (after_calls-commits calls (kept b (commit_idx idx d b)) c)

  -- A configuration has exactly the commitments that were asked for, with the default kind at the time
  -- of the call where none was given, and whose indices end within the transcript: calls that are
  -- refused leave the builder as it was.
  pub build_commit_config-asked :
      (transcript : Transcript) (calls : List (Call R)) (c : Commit R)
      → includes (build_commit_config (after_calls calls (new_commit_builder transcript))).commits c
        ≡ (includes (asked TranscriptCommitmentKind.encoding calls) c && in_transcript transcript c)
  build_commit_config-asked transcript calls c =
      after_calls-commits calls (new_commit_builder transcript) c
