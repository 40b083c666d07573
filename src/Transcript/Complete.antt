-- ===== src/Transcript/Complete.antt =====
-- `PartialTranscript::is_complete` and `PartialTranscript::iter`.
use ethdam_rope.Prelude.{
  ℕ, zero, suc, ◌+◌, ◌-◌, ◌≤◌, ◌<◌, ◌≡◌, refl, ◌∙◌, true, ◌&&◌, some, List, [], ◌∷◌, ◌++◌, length,
  get_elem?, arith, leb, ◌↔◌, ◌>>=◌, slice, take, drop, Option-cases, inl, inr, get_elem?-none,
  add-one, drop-head, ap,
}
use ethdam_rope.RangeSets.{Range, RangeSet, in_ranges, IsOrdered, total, run_from, indices, gather}
use ethdam_rope.RangeSets.Bounds.{Fits, in_ranges_below}
use ethdam_rope.Subsequence.{Direction, idx_iter_ranges, read_all}
use ethdam_rope.Subsequence.Ranks.{Packs, gather-Packs}
use ethdam_rope.Transcript.{PartialTranscript, is_complete, iter}
use ethdam_rope.Transcript.View.{data_of, authed_of, idx_mem, IsValid}

total_le : (n lo : ℕ) (rs : List Range) → IsOrdered lo rs → Fits n rs → lo ≤ n → lo + total rs ≤ n
total_le n lo [] o f h = omega arith
total_le n lo (r ∷ rs) o f h = omega (arith, total_le n r.end rs o.2 f.2 f.1)

-- Ordered ranges within `lo` and `n` have all indices if and only if they have as many as that.
covers :
    (n lo : ℕ) (rs : List Range)
    → IsOrdered lo rs
    → Fits n rs
    → lo ≤ n
    → lo + total rs ≡ n
    → (i : ℕ) → lo ≤ i
    → i < n
    → in_ranges rs i ≡ true
covers n lo [] o f h e i hl hi = absurd (omega arith)
covers n lo (r ∷ rs) o f h e i hl hi =
    let rest = total_le n r.end rs o.2 f.2 f.1 in
    ground (arith, covers n r.end rs o.2 f.2 f.1 (omega arith) i)

counts :
    (n lo : ℕ) (rs : List Range)
    → IsOrdered lo rs
    → Fits n rs
    → lo ≤ n
    → ((i : ℕ) → lo ≤ i → i < n → in_ranges rs i ≡ true)
    → lo + total rs ≡ n
counts n lo [] o f h all = ground (arith, all lo)
counts n lo (r ∷ rs) o f h all =
    let begins : r.start ≤ lo = ground (arith, all lo, in_ranges_below r.end rs lo o.2) in
    omega (arith, counts n r.end rs o.2 f.2 f.1 (λ i hl hi. ground (arith, all i)))

-- Reading a run of indices is taking a slice.
read_run :
    (bytes : List ℕ) (a n : ℕ) (is : List ℕ)
    → a + n ≤ length bytes
    → read_all bytes (run_from a n ++ is)
      ≡ (read_all bytes is >>= λ rest. some (take n (drop a bytes) ++ rest))
unfolding read_all
read_run bytes a zero is h = elim (Option-cases (read_all bytes is)) [
  | inl e ↦ rw e
  | inr (rest, e) ↦ rw e
]
read_run bytes a (suc n) is h = elim (Option-cases (get_elem? bytes a)) [
  | inl e ↦ absurd (omega (arith, get_elem?-none bytes a e))
  | inr (b, e) ↦
      rw (e, read_run bytes (a + 1) n is (omega arith), drop-head a bytes e, add-one)
        (elim (Option-cases (read_all bytes is)) [ inl e' ↦ rw e' | inr (rest, e') ↦ rw e' ])
]

read_all-gather :
    (bytes : List ℕ) (rs : List Range)
    → Fits (length bytes) rs
    → read_all bytes (indices rs) ≡ gather bytes rs
unfolding read_all gather slice
read_all-gather bytes [] f = refl
read_all-gather bytes (r ∷ rs) f =
    let inside : (leb r.start r.end && leb r.end (length bytes)) ≡ true = ground arith in
    rw (
      read_run bytes r.start (r.end - r.start) (indices rs) (omega arith),
      inside,
      read_all-gather bytes rs f.2,
    )

module _ {R : Type 0} ⦃rs : RangeSet R⦄ where
  -- A well-formed partial transcript is complete if and only if every byte in both directions is
  -- authenticated.
  pub is_complete_iff :
      (p : PartialTranscript R)
      → IsValid p
      → (is_complete p ≡ true)
        ↔ ((d : Direction) (i : ℕ) → i < length (data_of d p) → idx_mem (authed_of d p) i ≡ true)
  unfolding is_complete
  is_complete_iff p v =
      let s = idx_iter_ranges p.sent_authed_idx in
      let r = idx_iter_ranges p.received_authed_idx in
      let os = rs.ordered p.sent_authed_idx.ranges in
      let or' = rs.ordered p.received_authed_idx.ranges in
      let es = rs.len_lem p.sent_authed_idx.ranges in
      let er = rs.len_lem p.received_authed_idx.ranges in
      (
        λ e. elim [
          | Direction.sent ↦ λ i h.
              covers (length p.sent) 0 s os v.sent_fits (omega arith) (ground (arith, es)) i
                (omega arith) h
          | Direction.received ↦ λ i h.
              covers (length p.received) 0 r or' v.received_fits (omega arith) (ground (arith, er))
                i (omega arith) h
        ],
        λ all. ground (
          arith,
          es,
          er,
          counts (length p.sent) 0 s os v.sent_fits (omega arith)
              (λ i hl hi. all Direction.sent i hi),
          counts (length p.received) 0 r or' v.received_fits (omega arith)
              (λ i hl hi. all Direction.received i hi),
        ),
      )

  -- On a well-formed partial transcript `iter` yields, without a panic, the bytes at the
  -- authenticated ranges, in order.
  pub iter_lem :
      (p : PartialTranscript R) (d : Direction)
      → IsValid p
      → (part : List ℕ) × (iter p d ≡ some part)
        × Packs (get_elem? (data_of d p)) (idx_iter_ranges (authed_of d p)) part
  unfolding iter
  iter_lem p Direction.sent v =
      let (part, run, packs) =
        gather-Packs p.sent (idx_iter_ranges p.sent_authed_idx) v.sent_fits in
      (
        part,
        ap (read_all p.sent) (rs.iter_lem p.sent_authed_idx.ranges)
            ∙ read_all-gather p.sent (idx_iter_ranges p.sent_authed_idx) v.sent_fits
            ∙ run,
        packs,
      )
  iter_lem p Direction.received v =
      let (part, run, packs) =
        gather-Packs p.received (idx_iter_ranges p.received_authed_idx) v.received_fits in
      (
        part,
        ap (read_all p.received) (rs.iter_lem p.received_authed_idx.ranges)
            ∙ read_all-gather p.received (idx_iter_ranges p.received_authed_idx) v.received_fits
            ∙ run,
        packs,
      )
