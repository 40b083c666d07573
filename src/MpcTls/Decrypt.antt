-- ===== src/MpcTls/Decrypt.antt =====
-- tlsn/crates/mpc-tls/src/record_layer/decrypt.rs: the operations that decrypt records.
pub mod Pads
pub mod Opens
use ethdam_rope.Prelude.{
  ℕ, ◌-◌, ◌≡◌, Bool, true, false, not, ◌==◌, leb, if◌then◌else◌, Option, none, some, List, [], ◌∷◌,
  length, take, drop, ok, err,
}
use ethdam_rope.MpcTls.Errors.{
  MpcTlsError, Role, record_layer, Fallible, Step, pure, fail, lift, guard, ok_or, as_record_layer,
  ◌>>=◌, ◌>>◌, and_then,
}
use ethdam_rope.MpcTls.Records.{ContentType, TagData}
use ethdam_rope.MpcTls.Engine.{Engine, Side}
use ethdam_rope.MpcTls.Xor.{xor_with, xor_with_two}
use ethdam_rope.MpcTls.AesCtr.{AesCtr, decrypt}

pub data DecryptMode : Type 0 where
  private : DecryptMode
  public : DecryptMode

pub record DecryptOp : Type 0 where
  pub seq : ℕ
  pub typ : ContentType
  pub version : ℕ
  pub explicit_nonce : List ℕ
  pub ciphertext : List ℕ
  pub aad : List ℕ
  pub tag : List ℕ
  pub mode : DecryptMode

pub data DecryptOutput (H : Type 0) : Type 0 where
  private : H → Option (List ℕ) → List ℕ → DecryptOutput H
  public : H → List ℕ → DecryptOutput H
  local : Option (List ℕ) → DecryptOutput H

-- The virtual machine, and the one-time pad that the leader has left for received records.
pub record Padded (V : Type 0) : Type 0 where
  pub vm : V
  pub otp : Option (List ℕ)

abbrev pub on_vm {ℓ} : {V : Type 0} {A : Type ℓ} → Step V A → Step (Padded V) A
on_vm m s = let (r, v) = m s.vm in (r, record s { vm = v })

abbrev enough : Option (List ℕ) → List ℕ → Bool
enough none ciphertext = true
enough (some otp) ciphertext = leb (length ciphertext) (length otp)

-- `otp.split_off(otp.len() - len)`: the pad that stays, and the one that is taken.
abbrev pad_left : ℕ → Option (List ℕ) → Option (List ℕ)
pad_left len none = none
pad_left len (some otp) = some (take (length otp - len) otp)

abbrev pad_taken : ℕ → Option (List ℕ) → Option (List ℕ)
pad_taken len none = none
pad_taken len (some otp) = some (drop (length otp - len) otp)

abbrev split_pad : {V : Type 0} → ℕ → Step (Padded V) (Option (List ℕ))
split_pad len s = (ok (pad_taken len s.otp), record s { otp = pad_left len s.otp })

abbrev check_pad : {V : Type 0} → List ℕ → Step (Padded V) (Unit {0})
check_pad ciphertext s = guard (enough s.otp ciphertext) record_layer s

abbrev tags_data : List DecryptOp → List TagData
tags_data [] = []
tags_data (op ∷ ops) = record { explicit_nonce = op.explicit_nonce; aad = op.aad } ∷ tags_data ops

abbrev ciphertexts : List DecryptOp → List (List ℕ)
ciphertexts [] = []
ciphertexts (op ∷ ops) = op.ciphertext ∷ ciphertexts ops

abbrev tags : List DecryptOp → List (List ℕ)
tags [] = []
tags (op ∷ ops) = op.tag ∷ tags ops

abbrev open_private : Option (List ℕ) → List ℕ → List ℕ → Option (List ℕ)
open_private none ciphertext masked = none
open_private (some otp) ciphertext masked = some (xor_with_two ciphertext otp masked)

module _ {V H : Type 0} ⦃e : Engine V H⦄ where
  assign_if : H → Option (List ℕ) → Step V (Unit {0})
  assign_if h none = pure tt
  assign_if h (some bytes) = as_record_layer (e.assign h bytes)

  unfoldable pub private_mpc : DecryptOp → Step (Padded V) (DecryptOutput H)
  unfolding assign_if
  private_mpc op = do
    check_pad op.ciphertext
    (otp_ref, masked) ← on_vm (
        as_record_layer (e.apply_keystream Side.decrypter op.explicit_nonce (length op.ciphertext)))
    otp ← split_pad (length op.ciphertext)
    on_vm (assign_if otp_ref otp)
    on_vm (as_record_layer (e.commit otp_ref))
    future ← on_vm (as_record_layer (e.decode masked))
    pure (DecryptOutput.private future otp op.ciphertext)

  unfoldable pub public_mpc : DecryptOp → Step V (DecryptOutput H)
  public_mpc op = do
    keystream ←
        as_record_layer (e.take_keystream Side.decrypter op.explicit_nonce (length op.ciphertext))
    future ← as_record_layer (e.decode keystream)
    pure (DecryptOutput.public future op.ciphertext)

  abbrev decrypt_op : DecryptMode → DecryptOp → Step (Padded V) (DecryptOutput H)
  decrypt_op DecryptMode.private op = private_mpc op
  decrypt_op DecryptMode.public op = on_vm (public_mpc op)

  unfoldable pub decrypt_mpc : List DecryptOp → Step (Padded V) (List (DecryptOutput H))
  unfolding private_mpc public_mpc
  decrypt_mpc [] = pure []
  decrypt_mpc (op ∷ ops) = do
    first ← decrypt_op op.mode op
    rest ← decrypt_mpc ops
    pure (first ∷ rest)

  abbrev pub local_op : Role → AesCtr H → DecryptMode → DecryptOp → Step V (DecryptOutput H)
  local_op Role.leader ctr DecryptMode.private op = do
    plaintext ← lift (decrypt e.ctr_keystream ctr op.explicit_nonce op.ciphertext)
    pure (DecryptOutput.local (some plaintext))
  local_op Role.follower ctr DecryptMode.private op = pure (DecryptOutput.local none)
  local_op role ctr DecryptMode.public op = public_mpc op

  unfoldable pub decrypt_local : Role → AesCtr H → List DecryptOp → Step V (List (DecryptOutput H))
  unfolding public_mpc
  decrypt_local role ctr [] = pure []
  decrypt_local role ctr (op ∷ ops) = do
    first ← local_op role ctr op.mode op
    rest ← decrypt_local role ctr ops
    pure (first ∷ rest)

  unfoldable pub verify_tags : List DecryptOp → Step V H
  verify_tags ops = as_record_layer (e.verify_tags (tags_data ops) (ciphertexts ops) (tags ops))

  unfoldable pub try_decrypt : DecryptOutput H → Step V (Option (List ℕ))
  try_decrypt (DecryptOutput.private future otp ciphertext) = do
    received ← as_record_layer (e.try_recv future)
    masked ← lift (ok_or received record_layer)
    pure (open_private otp ciphertext masked)
  try_decrypt (DecryptOutput.public future ciphertext) = do
    received ← as_record_layer (e.try_recv future)
    keystream ← lift (ok_or received record_layer)
    guard (length keystream == length ciphertext) record_layer
    pure (some (xor_with ciphertext keystream))
  try_decrypt (DecryptOutput.local plaintext) = pure plaintext
