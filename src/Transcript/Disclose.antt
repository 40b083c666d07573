-- ===== src/Transcript/Disclose.antt =====
-- `Transcript::to_partial` and `Transcript::get`.
use ethdam_rope.Prelude.{
  ℕ, ◌≤◌, ◌<◌, ◌≡◌, refl, ◌∙◌, true, false, none, some, List, length, get_elem?, arith, subst, sym,
  ◌↔◌, length-replicate, ltb, get_elem?-replicate, >>=-eq-some,
}
use ethdam_rope.RangeSets.{RangeSet}
use ethdam_rope.Subsequence.{Direction, Idx, idx_iter_ranges, idx_end, copy_ranges, idx_len}
use ethdam_rope.Subsequence.Ranks.{Packs, gather-Packs}
use ethdam_rope.Subsequence.Loops.{Overlay, copy_ranges-Overlay, copy_ranges-Fits}
use ethdam_rope.Transcript.{Transcript, PartialTranscript, bytes_of, zeros, to_partial, get}
use ethdam_rope.Transcript.View.{data_of, authed_of, idx_mem, IdxFits, IsValid, IdxFits-iff}

module _ {R : Type 0} ⦃rs : RangeSet R⦄ where
  -- `p` has the bytes of `t` at the given indices, zeros elsewhere, and no other index.
  pub record Discloses (t : Transcript) (idx_of : Direction → Idx R) (p : PartialTranscript R)
      : Type 0 where
    pub authed : (d : Direction) → authed_of d p ≡ idx_of d
    pub size : (d : Direction) → length (data_of d p) ≡ length (bytes_of d t)
    pub shown :
        (d : Direction) (i : ℕ)
        → idx_mem (idx_of d) i ≡ true
        → get_elem? (data_of d p) i ≡ get_elem? (bytes_of d t) i
    pub hidden :
        (d : Direction) (i : ℕ)
        → idx_mem (idx_of d) i ≡ false
        → i < length (bytes_of d t)
        → get_elem? (data_of d p) i ≡ some 0

  abbrev pub choose : Idx R → Idx R → Direction → Idx R
  choose s r Direction.sent = s
  choose s r Direction.received = r

  copied :
      (idx : Idx R) (bytes : List ℕ)
      → idx_end idx ≤ length bytes
      → (out : List ℕ) × (copy_ranges (idx_iter_ranges idx) bytes (zeros (length bytes)) ≡ some out)
        × Overlay (idx_iter_ranges idx) (get_elem? bytes) (zeros (length bytes)) out
  copied idx bytes h =
      let fits = (IdxFits-iff (length bytes) idx).0 h in
      copy_ranges-Overlay (idx_iter_ranges idx) bytes (zeros (length bytes)) fits
        (subst (λ n. IdxFits n idx) (sym (length-replicate (length bytes) 0)) fits)

  -- If both indices end within the transcript, `to_partial` does not panic, and its result has
  -- those indices, the bytes of the transcript there, zeros elsewhere, and is well formed.
  pub to_partial-Discloses :
      (t : Transcript) (s r : Idx R)
      → idx_end s ≤ length t.sent
      → idx_end r ≤ length t.received
      → (p : PartialTranscript R) × (to_partial t s r ≡ some p)
        × Discloses t (choose s r) p
        × IsValid p
  unfolding to_partial
  to_partial-Discloses t s r hs hr =
      let (out_s, run_s, over_s) = copied s t.sent hs in
      let (out_r, run_r, over_r) = copied r t.received hr in
      let size_s = over_s.size ∙ length-replicate (length t.sent) 0 in
      let size_r = over_r.size ∙ length-replicate (length t.received) 0 in
      (
        record { sent = out_s; received = out_r; sent_authed_idx = s; received_authed_idx = r },
        rw (run_s, run_r),
        record {
          authed = elim [ Direction.sent ↦ refl | Direction.received ↦ refl ];
          size = elim [ Direction.sent ↦ size_s | Direction.received ↦ size_r ];
          shown = elim [
            | Direction.sent ↦ λ i m. over_s.elem i ∙ rw m
            | Direction.received ↦ λ i m. over_r.elem i ∙ rw m
          ];
          hidden = elim [
            | Direction.sent ↦ λ i m l.
                over_s.elem i
                ∙ rw m (ground (arith, get_elem?-replicate {A = ℕ} (length t.sent) 0 i))
            | Direction.received ↦ λ i m l.
                over_r.elem i
                ∙ rw m (ground (arith, get_elem?-replicate {A = ℕ} (length t.received) 0 i))
          ];
        },
        record {
          sent_fits = subst (λ n. IdxFits n s) (sym size_s) ((IdxFits-iff (length t.sent) s).0 hs);
          received_fits =
              subst (λ n. IdxFits n r) (sym size_r) ((IdxFits-iff (length t.received) r).0 hr);
        },
      )

  -- `to_partial` returns exactly if both indices end within the transcript; else it panics.
  pub to_partial_returns_iff :
      (t : Transcript) (s r : Idx R)
      → ((p : PartialTranscript R) × (to_partial t s r ≡ some p))
        ↔ ((idx_end s ≤ length t.sent) × (idx_end r ≤ length t.received))
  unfolding to_partial
  to_partial_returns_iff t s r = (
    λ (p, e).
        let (out_s, run_s, e') = >>=-eq-some (copy_ranges (idx_iter_ranges s) t.sent _) _ e in
        let (out_r, run_r, e'') = >>=-eq-some (copy_ranges (idx_iter_ranges r) t.received _) _ e' in
        (
          (IdxFits-iff (length t.sent) s).1 (copy_ranges-Fits (idx_iter_ranges s) t.sent _ run_s),
          (IdxFits-iff (length t.received) r).1
              (copy_ranges-Fits (idx_iter_ranges r) t.received _ run_r),
        ),
    λ (hs, hr). let (p, e, _, _) = to_partial-Discloses t s r hs hr in (p, e),
  )

  -- `get` never panics: within bounds it returns the bytes at the indices, in order, together with
  -- the index; out of bounds it returns `None`.
  pub get_lem :
      (t : Transcript) (d : Direction) (idx : Idx R)
      → (idx_end idx ≤ length (bytes_of d t)
          → (part : List ℕ) × (get t d idx ≡ some (some (record { idx = idx; bytes = part })))
            × Packs (get_elem? (bytes_of d t)) (idx_iter_ranges idx) part)
        × (length (bytes_of d t) < idx_end idx → get t d idx ≡ some none)
  unfolding get
  get_lem t d idx = (
    λ h.
        let bytes = bytes_of d t in
        let (part, gathered, packs) =
          gather-Packs bytes (idx_iter_ranges idx) ((IdxFits-iff (length bytes) idx).0 h) in
        let inside : ltb (length bytes) (idx_end idx) ≡ false = ground arith in
        let len : idx_len idx ≡ length part = rs.len_lem idx.ranges ∙ sym packs.size in
        (part, rw (inside, rs.index_ranges_lem bytes idx.ranges, gathered) (ground arith), packs),
    λ h. ground arith,
  )
