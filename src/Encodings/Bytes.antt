-- ===== src/Encodings/Bytes.antt =====
-- What the encoder computes: the encoding of a subsequence, described without positions.
use ethdam_rope.Prelude.{
  ℕ, zero, suc, ◌+◌, ◌-◌, ◌*◌, ◌/◌, ◌≤◌, ◌≡◌, refl, ap, ◌∙◌, Bool, if◌then◌else◌, List, [], ◌∷◌,
  ◌++◌, length, take, drop, replicate, some, arith, slice, copy_from_slice, write_at, length-append,
  length-take, length-drop, length-replicate, append_assoc,
}
use ethdam_rope.RangeSets.{Range, RangeSet, total}
use ethdam_rope.Subsequence.{Direction, Idx, Subsequence, idx_len, idx_iter_ranges}
use ethdam_rope.MpcTls.Xor.{xor_with, length-xor_with}
use ethdam_rope.Encodings.Encoder.{
  ChaCha, ChaChaEncoder, stream_id, bits_lsb0, byte_bits, encode_ranges, add_bits, encode_idx,
  encode_subsequence,
}

module _ {A : Type 0} where
  write_at-append :
      (pre part rest : List A) (a : ℕ)
      → length pre ≡ a
      → length part ≤ length rest
      → write_at (pre ++ rest) a part ≡ pre ++ (part ++ drop (length part) rest)
  unfolding write_at
  write_at-append [] [] [] a e h = refl
  write_at-append [] [] (r ∷ rest) zero e h = refl
  write_at-append [] [] (r ∷ rest) (suc a) e h = absurd (omega arith)
  write_at-append [] (p ∷ part) [] a e h = absurd (omega arith)
  write_at-append [] (p ∷ part) (r ∷ rest) zero e h =
      ap (p ∷◌) (write_at-append [] part rest 0 refl (omega arith))
  write_at-append [] (p ∷ part) (r ∷ rest) (suc a) e h = absurd (omega arith)
  write_at-append (x ∷ pre) part rest zero e h = absurd (omega arith)
  write_at-append (x ∷ pre) part rest (suc a) e h =
      ap (x ∷◌) (write_at-append pre part rest a (omega arith) h)

  -- A copy to behind `pre`.
  pub copy_from_slice-append :
      (pre part rest : List A) (a b : ℕ)
      → length pre ≡ a
      → a + length part ≡ b
      → length part ≤ length rest
      → copy_from_slice (pre ++ rest) a b part ≡ some ((pre ++ part) ++ drop (length part) rest)
  unfolding copy_from_slice
  copy_from_slice-append pre part rest a b e f h =
      rw (write_at-append pre part rest a e h, append_assoc pre part (drop (length part) rest))
        (ground (arith, length-append pre rest))

  drop-append : (pre rest : List A) (a : ℕ) → length pre ≡ a → drop a (pre ++ rest) ≡ rest
  drop-append [] rest zero e = refl
  drop-append [] rest (suc a) e = absurd (omega arith)
  drop-append (x ∷ pre) rest zero e = absurd (omega arith)
  drop-append (x ∷ pre) rest (suc a) e = drop-append pre rest a (omega arith)

  pub slice-append :
      (pre rest : List A) (a b n : ℕ)
      → length pre ≡ a
      → a + n ≡ b
      → n ≤ length rest
      → slice (pre ++ rest) a b ≡ some (take n rest)
  unfolding slice
  slice-append pre rest a b n e f h =
      rw (drop-append pre rest a e) (ground (arith, length-append pre rest))

-- The generator's bytes for the ranges, one after the other.
abbrev pub chunks : ⦃gen : ChaCha⦄ → List ℕ → ℕ → List Range → List ℕ
chunks seed stream [] = []
chunks ⦃gen⦄ seed stream (r ∷ rs) =
    gen.fill_bytes seed stream (r.start * 32) ((r.end - r.start) * 128) ++ chunks seed stream rs

-- Each block of 16 bytes for a bit that is set has `delta` added.
abbrev pub masked : List ℕ → List Bool → List ℕ → List ℕ
masked delta [] blocks = blocks
masked delta (bit ∷ bits) blocks =
    xor_with (take 16 blocks) (if bit then delta else replicate 16 0)
    ++ masked delta bits (drop 16 blocks)

pub length-chunks :
    ⦃gen : ChaCha⦄
    → (seed : List ℕ) (stream : ℕ) (rs : List Range)
    → length (chunks seed stream rs) ≡ total rs * 128
length-chunks seed stream [] = refl
length-chunks ⦃gen⦄ seed stream (r ∷ rs) =
    let size = (r.end - r.start) * 128 in
    omega (
      arith,
      length-append (gen.fill_bytes seed stream (r.start * 32) size) (chunks seed stream rs),
      gen.length-fill_bytes seed stream (r.start * 32) size,
      length-chunks seed stream rs,
    )

encode_ranges-chunks :
    ⦃gen : ChaCha⦄
    → (e : ChaChaEncoder) (stream : ℕ) (rs : List Range) (pos : ℕ) (pre rest : List ℕ)
    → length pre ≡ pos
    → length rest ≡ total rs * 128
    → encode_ranges e stream rs pos (pre ++ rest) ≡ some (pre ++ chunks e.seed stream rs)
unfolding encode_ranges
encode_ranges-chunks e stream [] pos pre [] h k = refl
encode_ranges-chunks e stream [] pos pre (x ∷ rest) h k = absurd (omega arith)
encode_ranges-chunks ⦃gen⦄ e stream (r ∷ rs) pos pre rest h k =
    let size = (r.end - r.start) * 128 in
    let part = gen.fill_bytes e.seed stream (r.start * 32) size in
    let filled = gen.length-fill_bytes e.seed stream (r.start * 32) size in
    rw
      (copy_from_slice-append pre part rest pos (pos + size) h (omega (arith, filled))
        (omega (arith, filled)))
      (encode_ranges-chunks e stream rs (pos + size) (pre ++ part) (drop (length part) rest)
          (omega (arith, length-append pre part, filled))
          (omega (arith, length-drop (length part) rest, filled))
        ∙ ap some (append_assoc pre part (chunks e.seed stream rs)))

pub length-masked :
    (delta : List ℕ) (bits : List Bool) (blocks : List ℕ)
    → length bits * 16 ≤ length blocks
    → length (masked delta bits blocks) ≡ length blocks
length-masked delta [] blocks h = refl
length-masked delta (bit ∷ bits) blocks h =
    let block = take 16 blocks in
    let mask = if bit then delta else replicate 16 0 in
    omega (
      arith,
      length-append (xor_with block mask) (masked delta bits (drop 16 blocks)),
      length-xor_with block mask,
      length-take 16 blocks (omega arith),
      length-drop 16 blocks,
      length-masked delta bits (drop 16 blocks) (omega (arith, length-drop 16 blocks)),
    )

add_bits-masked :
    (delta : List ℕ) (bits : List Bool) (pos : ℕ) (pre rest : List ℕ)
    → length pre ≡ pos * 16
    → length bits * 16 ≤ length rest
    → add_bits delta bits pos (pre ++ rest) ≡ some (pre ++ masked delta bits rest)
unfolding add_bits
add_bits-masked delta [] pos pre rest h k = refl
add_bits-masked delta (bit ∷ bits) pos pre rest h k =
    let part = xor_with (take 16 rest) (if bit then delta else replicate 16 0) in
    let len : length part ≡ 16 =
      length-xor_with (take 16 rest) (if bit then delta else replicate 16 0)
      ∙ length-take 16 rest (omega arith) in
    rw
      (
        slice-append pre rest (pos * 16) ((pos + 1) * 16) 16 h (omega arith) (omega arith),
        copy_from_slice-append pre part rest (pos * 16) ((pos + 1) * 16) h (omega (arith, len))
            (omega (arith, len)),
        len,
      )
      (add_bits-masked delta bits (pos + 1) (pre ++ part) (drop 16 rest)
          (omega (arith, length-append pre part, len)) (omega (arith, length-drop 16 rest))
        ∙ ap some (append_assoc pre part (masked delta bits (drop 16 rest))))

length-byte_bits : (n b : ℕ) → length (byte_bits n b) ≡ n
length-byte_bits zero b = refl
length-byte_bits (suc n) b = ap suc (length-byte_bits n (b / 2))

length-bits_lsb0 : (bs : List ℕ) → length (bits_lsb0 bs) ≡ length bs * 8
length-bits_lsb0 [] = refl
length-bits_lsb0 (b ∷ bs) =
    omega (
      arith,
      length-append (byte_bits 8 b) (bits_lsb0 bs),
      length-byte_bits 8 b,
      length-bits_lsb0 bs,
    )

module _ {R : Type 0} ⦃rs : RangeSet R⦄ ⦃gen : ChaCha⦄ where
  -- The encoding of an index and that of a subsequence, as a whole.
  abbrev pub idx_encoding : ChaChaEncoder → Direction → Idx R → List ℕ
  idx_encoding e d idx = chunks e.seed (stream_id d) (idx_iter_ranges idx)

  abbrev pub seq_encoding : ChaChaEncoder → Direction → Subsequence R → List ℕ
  seq_encoding e d seq = masked e.delta (bits_lsb0 seq.bytes) (idx_encoding e d seq.idx)

  pub encode_idx-idx_encoding :
      (e : ChaChaEncoder) (d : Direction) (idx : Idx R)
      → encode_idx e d idx ≡ some (idx_encoding e d idx)
  unfolding encode_idx
  encode_idx-idx_encoding e d idx =
      encode_ranges-chunks e (stream_id d) (idx_iter_ranges idx) 0 []
        (replicate (idx_len idx * 128) 0) refl
        (length-replicate (idx_len idx * 128) 0 ∙ ap (◌* 128) (rs.len_lem idx.ranges))

  -- A subsequence with as many bytes as its index is encoded without a panic, into 128 bytes for each
  -- of its bytes: the generator's bytes at the positions of the index, range after range, with `delta`
  -- added to the 16 bytes of every bit that is set.
  pub encode_subsequence-seq_encoding :
      (e : ChaChaEncoder) (d : Direction) (seq : Subsequence R)
      → idx_len seq.idx ≡ length seq.bytes
      → (encode_subsequence e d seq ≡ some (seq_encoding e d seq))
        × (length (seq_encoding e d seq) ≡ length seq.bytes * 128)
  unfolding encode_subsequence
  encode_subsequence-seq_encoding e d seq h =
      let size = length-chunks e.seed (stream_id d) (idx_iter_ranges seq.idx) in
      let room : length (bits_lsb0 seq.bytes) * 16 ≤ length (idx_encoding e d seq.idx) =
        omega (arith, size, h, rs.len_lem seq.idx.ranges, length-bits_lsb0 seq.bytes) in
      (
        rw (encode_idx-idx_encoding e d seq.idx) (
            add_bits-masked e.delta (bits_lsb0 seq.bytes) 0 [] (idx_encoding e d seq.idx) refl
              room),
        omega (
          arith,
          size,
          h,
          rs.len_lem seq.idx.ranges,
          length-masked e.delta (bits_lsb0 seq.bytes) (idx_encoding e d seq.idx) room,
        ),
      )
