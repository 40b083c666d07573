-- ===== src/Encodings/Encoder.antt =====
-- transcript/encoding/encoder.rs: the encoding of a subsequence of a transcript.
use ethdam_rope.Prelude.{
  ℕ, zero, suc, ◌+◌, ◌-◌, ◌*◌, ◌/◌, ◌%◌, ◌≡◌, Bool, ◌==◌, if◌then◌else◌, List, [], ◌∷◌, ◌++◌,
  length, replicate, some, MayPanic, ◌>>=◌, slice, copy_from_slice,
}
use ethdam_rope.RangeSets.{Range, RangeSet}
use ethdam_rope.Subsequence.{Direction, Idx, Subsequence, idx_len, idx_iter_ranges}
use ethdam_rope.MpcTls.Xor.{xor_with}

abbrev pub bit_encoding_size : ℕ
bit_encoding_size = 16

abbrev pub byte_encoding_size : ℕ
byte_encoding_size = 128

abbrev pub words_per_byte : ℕ
words_per_byte = 32

pub record EncoderSecret : Type 0 where
  pub seed : List ℕ
  pub delta : List ℕ

pub record ChaChaEncoder : Type 0 where
  pub seed : List ℕ
  pub delta : List ℕ

-- `ChaCha12Rng`: the bytes that `fill_bytes` writes for a seed, a stream and a word position.
pub record ChaCha : Type 0 where
  pub fill_bytes : List ℕ → ℕ → ℕ → ℕ → List ℕ
  pub length-fill_bytes :
      (seed : List ℕ) (stream word_pos len : ℕ) → length (fill_bytes seed stream word_pos len) ≡ len

abbrev pub new_encoder : EncoderSecret → ChaChaEncoder
new_encoder secret = record { seed = secret.seed; delta = secret.delta }

abbrev pub stream_id : Direction → ℕ
stream_id Direction.sent = 0
stream_id Direction.received = 1

-- The bits of bytes, the least significant of each byte first.
abbrev pub byte_bits : ℕ → ℕ → List Bool
byte_bits zero byte = []
byte_bits (suc n) byte = (byte % 2 == 1) ∷ byte_bits n (byte / 2)

abbrev pub bits_lsb0 : List ℕ → List Bool
bits_lsb0 [] = []
bits_lsb0 (b ∷ bs) = byte_bits 8 b ++ bits_lsb0 bs

-- The loop over the ranges of `encode_idx`.
unfoldable pub encode_ranges :
    ⦃gen : ChaCha⦄ → ChaChaEncoder → ℕ → List Range → ℕ → List ℕ → MayPanic (List ℕ)
encode_ranges e stream [] pos encoding = some encoding
encode_ranges ⦃gen⦄ e stream (r ∷ rs) pos encoding = do
  encoding' ← copy_from_slice encoding pos (pos + (r.end - r.start) * byte_encoding_size) (
      gen.fill_bytes e.seed stream (r.start * words_per_byte)
        ((r.end - r.start) * byte_encoding_size))
  encode_ranges e stream rs (pos + (r.end - r.start) * byte_encoding_size) encoding'

-- The loop over the bits of `encode_subsequence`, from position `pos` on.
unfoldable pub add_bits : List ℕ → List Bool → ℕ → List ℕ → MayPanic (List ℕ)
unfolding xor_with
add_bits delta [] pos encoding = some encoding
add_bits delta (bit ∷ bits) pos encoding = do
  part ← slice encoding (pos * bit_encoding_size) ((pos + 1) * bit_encoding_size)
  encoding' ←
      copy_from_slice encoding (pos * bit_encoding_size) ((pos + 1) * bit_encoding_size)
        (xor_with part (if bit then delta else replicate bit_encoding_size 0))
  add_bits delta bits (pos + 1) encoding'

module _ {R : Type 0} ⦃rs : RangeSet R⦄ ⦃gen : ChaCha⦄ where
  unfoldable pub encode_idx : ChaChaEncoder → Direction → Idx R → MayPanic (List ℕ)
  unfolding encode_ranges
  encode_idx e direction idx =
      encode_ranges e (stream_id direction) (idx_iter_ranges idx) 0
        (replicate (idx_len idx * byte_encoding_size) 0)

  unfoldable pub encode_subsequence : ChaChaEncoder → Direction → Subsequence R → MayPanic (List ℕ)
  unfolding encode_idx add_bits
  encode_subsequence e direction seq = do
    encoding ← encode_idx e direction seq.idx
    add_bits e.delta (bits_lsb0 seq.bytes) 0 encoding
