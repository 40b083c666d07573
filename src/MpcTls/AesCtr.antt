-- ===== src/MpcTls/AesCtr.antt =====
-- tlsn/crates/mpc-tls/src/record_layer/aes_ctr.rs: the key of the server's records is masked for the
-- follower, decoded, and used by the leader alone.
pub mod Unmasks
use ethdam_rope.Prelude.{
  ℕ, ◌≡◌, Bool, not, ◌==◌, if◌then◌else◌, Option, none, some, List, [], ◌∷◌, ◌++◌, length, ok, err,
  replicate,
}
use ethdam_rope.MpcTls.Errors.{
  MpcTlsError, Role, record_layer, panic, Fallible, Step, pure, fail, lift, ok_or, as_record_layer,
  ◌>>=◌, ◌>>◌, and_then, leader, follower,
}
use ethdam_rope.MpcTls.Engine.{Engine}
use ethdam_rope.MpcTls.Xor.{xor_with}

pub data CtrState (H : Type 0) : Type 0 where
  init : CtrState H
  alloc : H → H → Option (List ℕ) → Option (List ℕ) → CtrState H
  decode : H → H → Option (List ℕ) → Option (List ℕ) → CtrState H
  ready : Option (List ℕ) → Option (List ℕ) → CtrState H
  error : CtrState H

pub record AesCtr (H : Type 0) : Type 0 where
  pub role : Role
  pub key : Option H
  pub iv : Option H
  pub state : CtrState H

unfoldable pub new_ctr : {H : Type 0} → Role → AesCtr H
new_ctr role = record { role = role; key = none; iv = none; state = init }

unfoldable pub set_ctr_key : {H : Type 0} → H → H → AesCtr H → AesCtr H
set_ctr_key key iv c = record c { key = some key; iv = some iv }

-- A cipher with the virtual machine.
pub record Ctr (V H : Type 0) : Type 0 where
  pub ctr : AesCtr H
  pub vm : V

abbrev on_vm {ℓ} : {V H : Type 0} {A : Type ℓ} → Step V A → Step (Ctr V H) A
on_vm m s = let (r, v) = m s.vm in (r, record s { vm = v })

-- `self.state.take()`, which leaves the error state behind.
abbrev take_state : {V H : Type 0} → Step (Ctr V H) (CtrState H)
take_state s = (ok s.ctr.state, record s { ctr = record (s.ctr) { state = error } })

abbrev set_state : {V H : Type 0} → CtrState H → Step (Ctr V H) (Unit {0})
set_state st s = (ok tt, record s { ctr = record (s.ctr) { state = st } })

abbrev get_ctr : {V H : Type 0} → Step (Ctr V H) (AesCtr H)
get_ctr s = (ok s.ctr, s)

abbrev is_init : {H : Type 0} → CtrState H → Fallible (Unit {0})
is_init init = ok tt
is_init _ = err record_layer

-- What the state holds between `alloc` and `decode_key`, and between that and `finish_decode`.
abbrev Masked : Type 0 → Type 0
Masked H = H × H × Option (List ℕ) × Option (List ℕ)

abbrev alloc_state : {H : Type 0} → CtrState H → Fallible (Masked H)
alloc_state (alloc key iv key_otp iv_otp) = ok (key, iv, key_otp, iv_otp)
alloc_state _ = err record_layer

abbrev decode_state : {H : Type 0} → CtrState H → Fallible (Masked H)
decode_state (decode key iv key_otp iv_otp) = ok (key, iv, key_otp, iv_otp)
decode_state _ = err record_layer

abbrev expect_some {ℓ} : {A : Type ℓ} → Option A → Fallible A
expect_some (some a) = ok a
expect_some none = err panic

module _ {V H : Type 0} ⦃e : Engine V H⦄ where
  -- The match on the role in `alloc`.
  mask : Role → H → H → Step V (Masked H)
  mask leader key iv = do
    key_otp ← e.random 16
    iv_otp ← e.random 4
    masked_key ← as_record_layer (e.mask_private key key_otp)
    masked_iv ← as_record_layer (e.mask_private iv iv_otp)
    pure (masked_key, masked_iv, some key_otp, some iv_otp)
  mask follower key iv = do
    masked_key ← as_record_layer (e.mask_blind key)
    masked_iv ← as_record_layer (e.mask_blind iv)
    pure (masked_key, masked_iv, none, none)

  unfoldable pub alloc_ctr : Step (Ctr V H) (Unit {0})
  unfolding mask
  alloc_ctr = do
    st ← take_state
    lift (is_init st)
    c ← get_ctr
    key ← lift (ok_or c.key record_layer)
    iv ← lift (ok_or c.iv record_layer)
    (masked_key, masked_iv, key_otp, iv_otp) ← on_vm (mask c.role key iv)
    set_state (alloc masked_key masked_iv key_otp iv_otp)

  unfoldable pub decode_key : Step (Ctr V H) (Unit {0})
  decode_key = do
    st ← take_state
    (masked_key, masked_iv, key_otp, iv_otp) ← lift (alloc_state st)
    key ← on_vm (as_record_layer (e.decode masked_key))
    iv ← on_vm (as_record_layer (e.decode masked_iv))
    set_state (decode key iv key_otp iv_otp)

  -- The leader's branch of `finish_decode`.
  unmask : Masked H → Step V (List ℕ × List ℕ)
  unmask (masked_key, masked_iv, key_otp, iv_otp) = do
    key_otp ← lift (expect_some key_otp)
    iv_otp ← lift (expect_some iv_otp)
    received ← as_record_layer (e.try_recv masked_key)
    key ← lift (ok_or received record_layer)
    received' ← as_record_layer (e.try_recv masked_iv)
    iv ← lift (ok_or received' record_layer)
    pure (xor_with key key_otp, xor_with iv iv_otp)

  finish : Role → Masked H → Step (Ctr V H) (Unit {0})
  unfolding unmask
  finish leader masked = do
    (key, iv) ← on_vm (unmask masked)
    set_state (ready (some key) (some iv))
  finish follower masked = set_state (ready none none)

  unfoldable pub finish_decode : Step (Ctr V H) (Unit {0})
  unfolding finish
  finish_decode = do
    st ← take_state
    masked ← lift (decode_state st)
    c ← get_ctr
    finish c.role masked

-- `Ctr32BE<Aes128>` of the crates ctr and aes: the keystream of a key and a counter block, from the
-- byte that was sought on, of the given length.
abbrev pub StreamCipher : Type 0
StreamCipher = List ℕ → List ℕ → ℕ → ℕ → List ℕ

-- `aes.seek(position)`, then `aes.apply_keystream(text)`.
abbrev pub apply_keystream_from : StreamCipher → List ℕ → List ℕ → ℕ → List ℕ → List ℕ
apply_keystream_from cipher key block position text =
    xor_with text (cipher key block position (length text))

-- AES in counter mode from the counter block that the key, the two nonces and zeros make.
decrypt_ready :
    StreamCipher → Role → Option (List ℕ) → Option (List ℕ) → List ℕ → List ℕ → Fallible (List ℕ)
decrypt_ready cipher follower key iv nonce ciphertext = err record_layer
decrypt_ready cipher leader none iv nonce ciphertext = err panic
decrypt_ready cipher leader (some key) none nonce ciphertext = err panic
decrypt_ready cipher leader (some key) (some iv) nonce ciphertext =
    if length nonce == 8
    then ok (apply_keystream_from cipher key (iv ++ nonce ++ replicate 4 0) 32 ciphertext)
    else err record_layer

decrypt_state :
    {H : Type 0} → StreamCipher → Role → CtrState H → List ℕ → List ℕ → Fallible (List ℕ)
unfolding decrypt_ready
decrypt_state cipher role (ready key iv) nonce ciphertext =
    decrypt_ready cipher role key iv nonce ciphertext
decrypt_state cipher role _ nonce ciphertext = err record_layer

unfoldable pub decrypt :
    {H : Type 0} → StreamCipher → AesCtr H → List ℕ → List ℕ → Fallible (List ℕ)
unfolding decrypt_state
decrypt cipher c nonce ciphertext = decrypt_state cipher c.role c.state nonce ciphertext
