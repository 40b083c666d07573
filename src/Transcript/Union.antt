-- ===== src/Transcript/Union.antt =====
-- `PartialTranscript::union_transcript` and `PartialTranscript::union_subsequence`.
use ethdam_rope.Prelude.{
  ℕ, ◌≤◌, ◌<◌, ◌≡◌, refl, Bool, false, not, ◌&&◌, ◌||◌, if◌then◌else◌, Option, none, some, List,
  length, get_elem?, arith, subst, sym, ◌==◌, ◌≢◌, ◌⊎◌, inl, inr, Option-cases,
}
use native.Mathlib.Nat.{zero-add}
use ethdam_rope.RangeSets.{RangeSet}
use ethdam_rope.RangeSets.Bounds.{in_ranges-lt, Fits-of_mem}
use ethdam_rope.Subsequence.{
  Direction, Idx, Subsequence, idx_iter_ranges, idx_end, idx_len, idx_union, idx_difference,
  copy_ranges, copy_to, unpack_ranges,
}
use ethdam_rope.Subsequence.Ranks.{rank}
use ethdam_rope.Subsequence.Loops.{copy_ranges-Overlay, unpack_ranges-Overlay, unpack_ranges-Fits}
use ethdam_rope.Transcript.{PartialTranscript, union_transcript, union_subsequence}
use ethdam_rope.Transcript.View.{
  data_of, authed_of, idx_mem, IdxFits, view, view_of, seq_view, IsValid, IdxFits-iff,
}

module _ {R : Type 0} ⦃rs : RangeSet R⦄ where
  -- From the bytes with the authenticated index `a` to those with `a'`: at the positions of `mem`
  -- the bytes of `f` are learned, and nothing else changes.
  pub record Learns (a : Idx R) (bytes : List ℕ) (mem : ℕ → Bool) (f : ℕ → Option ℕ) (a' : Idx R)
      (bytes' : List ℕ) : Type 0 where
    pub size : length bytes' ≡ length bytes
    pub authed : (i : ℕ) → idx_mem a' i ≡ (idx_mem a i || mem i)
    pub knows : (i : ℕ) → view_of a' bytes' i ≡ (if mem i then f i else view_of a bytes i)
    pub rest : (i : ℕ) → mem i ≡ false → get_elem? bytes' i ≡ get_elem? bytes i

  -- What one direction of a partial transcript learns, as the transcript goes from `p` to `p'`.
  abbrev pub LearnsOf :
      Direction → PartialTranscript R → (ℕ → Bool) → (ℕ → Option ℕ) → PartialTranscript R → Type 0
  LearnsOf d p mem f p' = Learns (authed_of d p) (data_of d p) mem f (authed_of d p') (data_of d p')

  -- The positions that `q` knows and `p` does not.
  abbrev pub newly : Idx R → Idx R → ℕ → Bool
  newly q p i = idx_mem q i && not (idx_mem p i)

  union-fits : (n : ℕ) (a b : Idx R) → IdxFits n a → IdxFits n b → IdxFits n (idx_union a b)
  union-fits n a b fa fb =
      Fits-of_mem n 0 (idx_iter_ranges (idx_union a b)) (rs.ordered (idx_union a b).ranges) (λ i m.
        ground (
          arith,
          rs.mem-union a.ranges b.ranges i,
          in_ranges-lt n (idx_iter_ranges a) i fa,
          in_ranges-lt n (idx_iter_ranges b) i fb,
        ))

  difference-fits : (n : ℕ) (a b : Idx R) → IdxFits n a → IdxFits n (idx_difference a b)
  difference-fits n a b fa =
      Fits-of_mem n 0 (idx_iter_ranges (idx_difference a b))
        (rs.ordered (idx_difference a b).ranges)
        (λ i m.
          ground
            (arith, rs.mem-difference a.ranges b.ranges i, in_ranges-lt n (idx_iter_ranges a) i fa))

  -- One direction of `union_transcript`.
  merged :
      (a b : Idx R) (dest src : List ℕ)
      → length dest ≡ length src
      → IdxFits (length dest) a
      → IdxFits (length src) b
      → (out : List ℕ) × (copy_ranges (idx_iter_ranges (idx_difference b a)) src dest ≡ some out)
        × IdxFits (length out) (idx_union a b)
        × Learns a dest (newly b a) (view_of b src) (idx_union a b) out
  merged a b dest src e fa fb =
      let fits = difference-fits (length src) b a fb in
      let (out, run, over) =
        copy_ranges-Overlay (idx_iter_ranges (idx_difference b a)) src dest fits
          (subst (λ n. IdxFits n (idx_difference b a)) (sym e) fits) in
      (
        out,
        run,
        subst (λ n. IdxFits n (idx_union a b)) (sym over.size)
            (union-fits (length dest) a b fa (subst (λ n. IdxFits n b) (sym e) fb)),
        record {
          size = over.size;
          authed = λ i. ground (arith, rs.mem-union a.ranges b.ranges i);
          knows = λ i. ground (
            arith,
            rs.mem-union a.ranges b.ranges i,
            rs.mem-difference b.ranges a.ranges i,
            over.elem i,
          );
          rest = λ i m. ground (arith, rs.mem-difference b.ranges a.ranges i, over.elem i);
        },
      )

  -- Two well-formed partial transcripts of the same lengths are joined without a panic. The result
  -- is well formed; in each direction it learns what the second knows and the first does not, keeps
  -- what the first knows, and no other byte of the first changes.
  pub union_transcript-Learns :
      (p q : PartialTranscript R)
      → IsValid p
      → IsValid q
      → length p.sent ≡ length q.sent
      → length p.received ≡ length q.received
      → (out : PartialTranscript R) × (union_transcript p q ≡ some out)
        × IsValid out
        × ((d : Direction) → LearnsOf d p (newly (authed_of d q) (authed_of d p)) (view d q) out)
  unfolding union_transcript
  union_transcript-Learns p q vp vq es er =
      let (out_s, run_s, fits_s, learns_s) =
        merged p.sent_authed_idx q.sent_authed_idx p.sent q.sent es vp.sent_fits vq.sent_fits in
      let (out_r, run_r, fits_r, learns_r) =
        merged p.received_authed_idx q.received_authed_idx p.received q.received er vp.received_fits
          vq.received_fits in
      let same : (not (length p.sent == length q.sent)
            || not (length p.received == length q.received))
          ≡ false =
        ground arith in
      (
        record {
          sent = out_s;
          received = out_r;
          sent_authed_idx = idx_union p.sent_authed_idx q.sent_authed_idx;
          received_authed_idx = idx_union p.received_authed_idx q.received_authed_idx;
        },
        rw (same, run_s, run_r),
        record { sent_fits = fits_s; received_fits = fits_r },
        elim [ Direction.sent ↦ learns_s | Direction.received ↦ learns_r ],
      )

  overrun :
      (seq : Subsequence R) (dest : List ℕ) {out : List ℕ}
      → unpack_ranges (idx_iter_ranges seq.idx) 0 seq.bytes dest ≡ some out
      → idx_end seq.idx ≤ length dest
  overrun seq dest run =
      (IdxFits-iff (length dest) seq.idx).1
        (unpack_ranges-Fits (idx_iter_ranges seq.idx) 0 seq.bytes dest run)

  -- Partial transcripts of other lengths make `union_transcript` panic.
  pub union_transcript_panics :
      (p q : PartialTranscript R)
      → (length p.sent ≢ length q.sent) ⊎ (length p.received ≢ length q.received)
      → union_transcript p q ≡ none
  unfolding union_transcript
  union_transcript_panics p q h = ground arith

  -- One direction of `union_subsequence`.
  inserted :
      (a : Idx R) (dest : List ℕ) (seq : Subsequence R)
      → idx_len seq.idx ≡ length seq.bytes
      → idx_end seq.idx ≤ length dest
      → IdxFits (length dest) a
      → (out : List ℕ) × (copy_to seq dest ≡ some out)
        × IdxFits (length out) (idx_union a seq.idx)
        × Learns a dest (idx_mem seq.idx) (seq_view seq) (idx_union a seq.idx) out
  unfolding copy_to
  inserted a dest seq e h fa =
      let fits = (IdxFits-iff (length dest) seq.idx).0 h in
      let (out, run, over) =
        unpack_ranges-Overlay 0 (idx_iter_ranges seq.idx) 0 seq.bytes dest
          (rs.ordered seq.idx.ranges) (omega (arith, e, rs.len_lem seq.idx.ranges)) fits in
      (
        out,
        run,
        subst (λ n. IdxFits n (idx_union a seq.idx)) (sym over.size)
            (union-fits (length dest) a seq.idx fa fits),
        record {
          size = over.size;
          authed = λ i. rs.mem-union a.ranges seq.idx.ranges i;
          knows = λ i. ground (
            arith,
            rs.mem-union a.ranges seq.idx.ranges i,
            over.elem i,
            zero-add (rank (idx_iter_ranges seq.idx) i),
          );
          rest = λ i m. ground (arith, over.elem i);
        },
      )

  -- A subsequence whose index is as long as its bytes and ends within the transcript is added to a
  -- well-formed partial transcript without a panic. The result is well formed; it learns the bytes
  -- of the subsequence (also over bytes that it knew), and the other direction does not change.
  pub union_subsequence-Learns :
      (p : PartialTranscript R) (d : Direction) (seq : Subsequence R)
      → IsValid p
      → idx_len seq.idx ≡ length seq.bytes
      → idx_end seq.idx ≤ length (data_of d p)
      → (out : PartialTranscript R) × (union_subsequence p d seq ≡ some out)
        × IsValid out
        × LearnsOf d p (idx_mem seq.idx) (seq_view seq) out
        × ((d' : Direction)
            → d' ≢ d
            → (data_of d' out ≡ data_of d' p) × (authed_of d' out ≡ authed_of d' p))
  unfolding union_subsequence
  union_subsequence-Learns p Direction.sent seq v e h =
      let (out, run, fits, learns) = inserted p.sent_authed_idx p.sent seq e h v.sent_fits in
      (
        record p { sent = out; sent_authed_idx = idx_union p.sent_authed_idx seq.idx },
        rw run,
        record { sent_fits = fits; received_fits = v.received_fits },
        learns,
        elim [ Direction.sent ↦ λ n. absurd (n refl) | Direction.received ↦ λ n. (refl, refl) ],
      )
  union_subsequence-Learns p Direction.received seq v e h =
      let (out, run, fits, learns) =
        inserted p.received_authed_idx p.received seq e h v.received_fits in
      (
        record p { received = out; received_authed_idx = idx_union p.received_authed_idx seq.idx },
        rw run,
        record { sent_fits = v.sent_fits; received_fits = fits },
        learns,
        elim [ Direction.sent ↦ λ n. (refl, refl) | Direction.received ↦ λ n. absurd (n refl) ],
      )

  -- A subsequence that ends beyond the transcript makes `union_subsequence` panic.
  pub union_subsequence_panics :
      (p : PartialTranscript R) (d : Direction) (seq : Subsequence R)
      → length (data_of d p) < idx_end seq.idx
      → union_subsequence p d seq ≡ none
  unfolding union_subsequence copy_to
  union_subsequence_panics p Direction.sent seq h =
      elim (Option-cases (unpack_ranges (idx_iter_ranges seq.idx) 0 seq.bytes p.sent)) [
        | inl fails ↦ rw fails
        | inr (out, run) ↦ absurd (omega (arith, overrun seq p.sent run))
      ]
  union_subsequence_panics p Direction.received seq h =
      elim (Option-cases (unpack_ranges (idx_iter_ranges seq.idx) 0 seq.bytes p.received)) [
        | inl fails ↦ rw fails
        | inr (out, run) ↦ absurd (omega (arith, overrun seq p.received run))
      ]
