-- ===== src/Transcript/Added.antt =====
-- `union_subsequence` on both directions at once, for the loops that add subsequence after
-- subsequence.
use ethdam_rope.Prelude.{
  ◌<◌, ◌⊎◌, ℕ, ◌≤◌, ◌≡◌, ◌≢◌, refl, ap, subst, Bool, true, false, ◌&&◌, ◌||◌, if◌then◌else◌, length,
  some, arith, inl, inr, length-replicate, ℕ,
}
use ethdam_rope.RangeSets.{RangeSet}
use ethdam_rope.Subsequence.{Direction, Subsequence, idx_len, idx_end}
use ethdam_rope.Transcript.{PartialTranscript, new_partial, union_subsequence}
use ethdam_rope.Transcript.View.{data_of, authed_of, idx_mem, view, seq_view, IsValid}
use ethdam_rope.Transcript.Union.{union_subsequence-Learns, LearnsOf, union_subsequence_panics}

abbrev pub same_direction : Direction → Direction → Bool
same_direction Direction.sent Direction.sent = true
same_direction Direction.sent Direction.received = false
same_direction Direction.received Direction.sent = false
same_direction Direction.received Direction.received = true

pub same_direction-true : (a d : Direction) → same_direction a d ≡ true → a ≡ d
same_direction-true Direction.sent Direction.sent h = refl
same_direction-true Direction.sent Direction.received h = cc
same_direction-true Direction.received Direction.sent h = cc
same_direction-true Direction.received Direction.received h = refl

le_or_lt : (a b : ℕ) → (a ≤ b) ⊎ (b < a)
le_or_lt a b = ground arith

module _ {R : Type 0} ⦃rs : RangeSet R⦄ where
  -- The subsequence has the index, in the direction.
  abbrev pub adds : Direction → Subsequence R → Direction → ℕ → Bool
  adds a seq d i = same_direction a d && idx_mem seq.idx i

  pub record Added (a : Direction) (seq : Subsequence R) (p p' : PartialTranscript R) : Type 0 where
    pub valid : IsValid p'
    pub size : (d : Direction) → length (data_of d p') ≡ length (data_of d p)
    pub authed :
        (d : Direction) (i : ℕ)
        → idx_mem (authed_of d p') i ≡ (adds a seq d i || idx_mem (authed_of d p) i)
    pub shows :
        (d : Direction) (i : ℕ)
        → view d p' i ≡ (if adds a seq d i then seq_view seq i else view d p i)

  Learns-Added :
      (a : Direction) (seq : Subsequence R) (p p' : PartialTranscript R)
      → IsValid p'
      → LearnsOf a p (idx_mem seq.idx) (seq_view seq) p'
      → ((d : Direction) → d ≢ a → (data_of d p' ≡ data_of d p) × (authed_of d p' ≡ authed_of d p))
      → Added a seq p p'
  Learns-Added Direction.sent seq p p' v l others =
      let (bytes, idx) = others Direction.received (λ e. cc) in
      record {
        valid = v;
        size = elim [ Direction.sent ↦ l.size | Direction.received ↦ ap length bytes ];
        authed = elim [
          | Direction.sent ↦ λ i. ground (arith, l.authed i)
          | Direction.received ↦ λ i. ap (λ a. idx_mem a i) idx
        ];
        shows = elim [
          | Direction.sent ↦ λ i. ground (arith, l.knows i)
          | Direction.received ↦ λ i. rw (bytes, idx)
        ];
      }
  Learns-Added Direction.received seq p p' v l others =
      let (bytes, idx) = others Direction.sent (λ e. cc) in
      record {
        valid = v;
        size = elim [ Direction.received ↦ l.size | Direction.sent ↦ ap length bytes ];
        authed = elim [
          | Direction.received ↦ λ i. ground (arith, l.authed i)
          | Direction.sent ↦ λ i. ap (λ a. idx_mem a i) idx
        ];
        shows = elim [
          | Direction.received ↦ λ i. ground (arith, l.knows i)
          | Direction.sent ↦ λ i. rw (bytes, idx)
        ];
      }

  pub union_subsequence-Added :
      (p : PartialTranscript R) (a : Direction) (seq : Subsequence R)
      → IsValid p
      → idx_len seq.idx ≡ length seq.bytes
      → idx_end seq.idx ≤ length (data_of a p)
      → (p' : PartialTranscript R) × (union_subsequence p a seq ≡ some p') × Added a seq p p'
  union_subsequence-Added p a seq v e h =
      let (p', run, valid, learns, others) = union_subsequence-Learns p a seq v e h in
      (p', run, Learns-Added a seq p p' valid learns others)

  -- A union that returned was within the transcript.
  pub union_subsequence-returned :
      (p : PartialTranscript R) (a : Direction) (seq : Subsequence R) {p' : PartialTranscript R}
      → IsValid p
      → idx_len seq.idx ≡ length seq.bytes
      → union_subsequence p a seq ≡ some p'
      → Added a seq p p'
  union_subsequence-returned p a seq v e run =
      elim (le_or_lt (idx_end seq.idx) (length (data_of a p))) [
        | inl within ↦
            let (out, joins, added) = union_subsequence-Added p a seq v e within in
            subst (Added a seq p) (cc (joins, run)) added
        | inr beyond ↦ absurd (cc (union_subsequence_panics p a seq beyond, run))
      ]

  -- A new partial transcript has the lengths that it is made with, and authenticates nothing.
  pub record IsNew (sent_len received_len : ℕ) (p : PartialTranscript R) : Type 0 where
    pub valid : IsValid p
    pub sent_size : length p.sent ≡ sent_len
    pub received_size : length p.received ≡ received_len
    pub authed : (d : Direction) (i : ℕ) → idx_mem (authed_of d p) i ≡ false

  pub new_partial-IsNew :
      (sent_len received_len : ℕ)
      → IsNew sent_len received_len (new_partial {R = R} sent_len received_len)
  unfolding new_partial
  new_partial-IsNew sent_len received_len = record {
    valid = record { sent_fits = rw rs.empty_ranges tt; received_fits = rw rs.empty_ranges tt };
    sent_size = length-replicate sent_len 0;
    received_size = length-replicate received_len 0;
    authed = elim [
      | Direction.sent ↦ λ i. rw rs.empty_ranges refl
      | Direction.received ↦ λ i. rw rs.empty_ranges refl
    ];
  }
