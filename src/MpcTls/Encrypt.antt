-- ===== src/MpcTls/Encrypt.antt =====
-- tlsn/crates/mpc-tls/src/record_layer/encrypt.rs: the operations that encrypt records.
use ethdam_rope.Prelude.{
  ℕ, Bool, true, false, not, ◌==◌, if◌then◌else◌, Option, none, some, List, [], ◌∷◌, length, ok,
  err,
}
use ethdam_rope.MpcTls.Errors.{
  record_layer, Fallible, Step, pure, lift, guard, ok_or, as_record_layer, ◌>>=◌, ◌>>◌,
}
use ethdam_rope.MpcTls.Records.{ContentType, TagData}
use ethdam_rope.MpcTls.Engine.{Engine, Side, CiphertextFuture, decoded, combined}
use ethdam_rope.MpcTls.Xor.{xor_with}

pub data EncryptMode : Type 0 where
  private : EncryptMode
  public : EncryptMode

pub record EncryptOp : Type 0 where
  pub seq : ℕ
  pub typ : ContentType
  pub version : ℕ
  pub len : ℕ
  pub plaintext : Option (List ℕ)
  pub explicit_nonce : List ℕ
  pub aad : List ℕ
  pub mode : EncryptMode

abbrev consistent : Option (List ℕ) → ℕ → Bool
consistent none len = true
consistent (some plaintext) len = length plaintext == len

abbrev lacks_plaintext : EncryptMode → Option (List ℕ) → Bool
lacks_plaintext EncryptMode.public none = true
lacks_plaintext _ _ = false

-- EncryptOp::new
unfoldable pub new_encrypt_op :
    ℕ → ContentType → ℕ → ℕ → Option (List ℕ) → List ℕ → List ℕ → EncryptMode → Fallible EncryptOp
new_encrypt_op seq typ version len plaintext explicit_nonce aad mode =
    if not (consistent plaintext len)
    then err record_layer
    else if lacks_plaintext mode plaintext
    then err record_layer
    else ok (record {
      seq = seq;
      typ = typ;
      version = version;
      len = len;
      plaintext = plaintext;
      explicit_nonce = explicit_nonce;
      aad = aad;
      mode = mode;
    })

pub data EncryptOutput (H : Type 0) : Type 0 where
  private : H → EncryptOutput H
  public : H → List ℕ → EncryptOutput H

pub record PendingEncrypt (H : Type 0) : Type 0 where
  pub plaintext_ref : Option H
  pub output : EncryptOutput H

-- What the loop of `encrypt` has pushed for one operation.
pub record Encrypting (H : Type 0) : Type 0 where
  pub pending : PendingEncrypt H
  pub future : CiphertextFuture H

abbrev futures : {H : Type 0} → List (Encrypting H) → List (CiphertextFuture H)
futures [] = []
futures (x ∷ xs) = x.future ∷ futures xs

abbrev pub pendings : {H : Type 0} → List (Encrypting H) → List (PendingEncrypt H)
pendings [] = []
pendings (x ∷ xs) = x.pending ∷ pendings xs

abbrev tags_data : List EncryptOp → List TagData
tags_data [] = []
tags_data (op ∷ ops) = record { explicit_nonce = op.explicit_nonce; aad = op.aad } ∷ tags_data ops

module _ {V H : Type 0} ⦃e : Engine V H⦄ where
  assign_if : H → Option (List ℕ) → Step V (Unit {0})
  assign_if h none = pure tt
  assign_if h (some bytes) = as_record_layer (e.assign h bytes)

  unfoldable pub encrypt_private : EncryptOp → Step V (Encrypting H)
  unfolding assign_if
  encrypt_private op = do
    (plaintext, ciphertext) ←
        as_record_layer (e.apply_keystream Side.encrypter op.explicit_nonce op.len)
    assign_if plaintext op.plaintext
    as_record_layer (e.commit plaintext)
    future ← as_record_layer (e.decode ciphertext)
    future' ← as_record_layer (e.decode ciphertext)
    pure (record {
      pending = record { plaintext_ref = some plaintext; output = EncryptOutput.private future' };
      future = decoded future;
    })

  unfoldable pub encrypt_public : EncryptOp → Step V (Encrypting H)
  encrypt_public op = do
    plaintext ← lift (ok_or op.plaintext record_layer)
    keystream ← as_record_layer (e.take_keystream Side.encrypter op.explicit_nonce op.len)
    future ← as_record_layer (e.decode keystream)
    future' ← as_record_layer (e.decode keystream)
    pure (record {
      pending = record { plaintext_ref = none; output = EncryptOutput.public future' plaintext };
      future = combined future plaintext;
    })

  abbrev encrypt_op : EncryptMode → EncryptOp → Step V (Encrypting H)
  encrypt_op EncryptMode.private op = encrypt_private op
  encrypt_op EncryptMode.public op = encrypt_public op

  unfoldable pub encrypt_ops : List EncryptOp → Step V (List (Encrypting H))
  unfolding encrypt_private encrypt_public
  encrypt_ops [] = pure []
  encrypt_ops (op ∷ ops) = do
    first ← encrypt_op op.mode op
    rest ← encrypt_ops ops
    pure (first ∷ rest)

  -- Returns the pending outputs and the computation of the tags.
  unfoldable pub encrypt : List EncryptOp → Step V (List (PendingEncrypt H) × H)
  encrypt ops = do
    outputs ← encrypt_ops ops
    tags ← as_record_layer (e.compute_tags (futures outputs) (tags_data ops))
    pure (pendings outputs, tags)

  unfoldable pub try_encrypt : EncryptOutput H → Step V (List ℕ)
  try_encrypt (EncryptOutput.private future) = do
    received ← as_record_layer (e.try_recv future)
    lift (ok_or received record_layer)
  try_encrypt (EncryptOutput.public future plaintext) = do
    received ← as_record_layer (e.try_recv future)
    keystream ← lift (ok_or received record_layer)
    guard (length keystream == length plaintext) record_layer
    pure (xor_with plaintext keystream)
