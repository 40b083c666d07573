-- ===== src/MpcTls/AesCtr/Unmasks.antt =====
-- The leader's cipher ends with the key that was masked, and decrypts with it.
use ethdam_rope.Prelude.{ℕ, ◌≡◌, ◌==◌, refl, arith, some, List, ◌++◌, length, ok, true, replicate}
use ethdam_rope.MpcTls.Errors.{Role}
use ethdam_rope.MpcTls.Engine.{Engine}
use ethdam_rope.MpcTls.AesCtr.{
  AesCtr, decode, finish_decode, decrypt, StreamCipher, finish, unmask, decrypt_state,
  decrypt_ready,
}
use ethdam_rope.MpcTls.Xor.{xor_with, Bytes, xor_with_twice}

module _ {V H : Type 0} ⦃e : Engine V H⦄ where
  -- When the leader receives the key and the initialization vector under the pads that it masked
  -- them with, `finish_decode` succeeds, and from then on a ciphertext with a nonce of eight bytes is
  -- combined by exclusive or with the keystream of that key, from byte 32 on, whose counter block is
  -- that vector, the nonce and four zeros.
  pub decrypt-finish_decode :
      (c : AesCtr H) (masked_key masked_iv : H) (key iv key_otp iv_otp : List ℕ) (v : V)
      {v' v'' : V} (cipher : StreamCipher) (nonce ciphertext : List ℕ)
      → c.role ≡ Role.leader
      → c.state ≡ decode masked_key masked_iv (some key_otp) (some iv_otp)
      → e.try_recv masked_key v ≡ (ok (some (xor_with key key_otp)), v')
      → e.try_recv masked_iv v' ≡ (ok (some (xor_with iv iv_otp)), v'')
      → Bytes key
      → Bytes key_otp
      → Bytes iv
      → Bytes iv_otp
      → length nonce ≡ 8
      → ((finish_decode (record { ctr = c; vm = v })).0 ≡ ok tt)
        × (decrypt cipher (finish_decode (record { ctr = c; vm = v })).1.ctr nonce ciphertext
            ≡ ok (
                xor_with ciphertext
                  (cipher key (iv ++ nonce ++ replicate 4 0) 32 (length ciphertext))))
  unfolding finish_decode finish unmask decrypt decrypt_state decrypt_ready
  decrypt-finish_decode c mk mi key iv ko io v cipher nonce ciphertext role st rk ri bk bko bi bio
        l =
      let eight : (length nonce == 8) ≡ true = ground arith in
      let k = xor_with_twice key ko bk bko in
      let i = xor_with_twice iv io bi bio in
      (rw (st, role, rk, ri) refl, rw (st, role, rk, ri, k, i, eight) refl)
