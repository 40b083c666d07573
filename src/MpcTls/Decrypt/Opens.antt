-- ===== src/MpcTls/Decrypt/Opens.antt =====
-- tlsn/crates/mpc-tls/src/record_layer/encrypt.rs and decrypt.rs: what is opened is what was encrypted.
use ethdam_rope.Prelude.{ℕ, ◌≡◌, ◌==◌, refl, arith, some, List, length, ok, true}
use ethdam_rope.MpcTls.Engine.{Engine}
use ethdam_rope.MpcTls.Encrypt.{EncryptOutput, try_encrypt}
use ethdam_rope.MpcTls.Decrypt.{DecryptOutput, try_decrypt}
use ethdam_rope.MpcTls.Xor.{xor_with, Bytes, xor_with_twice, xor_with_two-masked, length-xor_with}

module _ {V H : Type 0} ⦃e : Engine V H⦄ where
  -- A private output of the leader whose pad is as long as the keystream and whose future holds the
  -- pad under the keystream opens the ciphertext to the plaintext it was made of.
  pub try_decrypt-private :
      (future : H) (plaintext otp keystream : List ℕ) (v : V) {v' : V}
      → e.try_recv future v ≡ (ok (some (xor_with otp keystream)), v')
      → length otp ≡ length keystream
      → Bytes plaintext
      → Bytes otp
      → Bytes keystream
      → try_decrypt (DecryptOutput.private future (some otp) (xor_with plaintext keystream)) v
        ≡ (ok (some plaintext), v')
  unfolding try_decrypt
  try_decrypt-private future plaintext otp keystream v r l bp bo bk =
      rw
        (
          r,
          xor_with_two-masked (xor_with plaintext keystream) otp keystream l bo bk,
          xor_with_twice plaintext keystream bp bk,
        )
        refl

  -- A plaintext that is encrypted publicly under a keystream of its length gives a ciphertext, and
  -- that is decrypted publicly under the same keystream to the plaintext.
  pub try_decrypt-try_encrypt :
      (f g : H) (plaintext keystream : List ℕ) (v w : V) {v' w' : V}
      → e.try_recv f v ≡ (ok (some keystream), v')
      → e.try_recv g w ≡ (ok (some keystream), w')
      → length keystream ≡ length plaintext
      → Bytes plaintext
      → Bytes keystream
      → (ciphertext : List ℕ) × (try_encrypt (EncryptOutput.public f plaintext) v
          ≡ (ok ciphertext, v'))
        × (try_decrypt (DecryptOutput.public g ciphertext) w ≡ (ok (some plaintext), w'))
  unfolding try_decrypt try_encrypt
  try_decrypt-try_encrypt f g plaintext keystream v w rf rg l bp bk =
      let same : (length keystream == length plaintext) ≡ true = ground arith in
      let fits : (length keystream == length (xor_with plaintext keystream)) ≡ true =
        rw (length-xor_with plaintext keystream) same in
      (
        xor_with plaintext keystream,
        rw (rf, same) refl,
        rw (rg, fits, xor_with_twice plaintext keystream bp bk) refl,
      )
