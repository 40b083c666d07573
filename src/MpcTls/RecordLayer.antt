-- ===== src/MpcTls/RecordLayer.antt =====
-- tlsn/crates/mpc-tls/src/record_layer.rs: the methods of `RecordLayer`. Sums of `usize` and the
-- sequence numbers wrap at 2^64, as in a release build. The methods that use the virtual machine are
-- in Session.
pub mod Limits
pub mod Sequence
use package.ethdam_rope.Prelude.{
  usize_add, ℕ, ◌+◌, ◌*◌, ◌/◌, ◌%◌, ◌^◌, ◌≡◌, Bool, true, false, not, ◌&&◌, ◌||◌, leb, ltb,
  if◌then◌else◌, Option, none, some, List, [], ◌∷◌, ◌++◌, length, is_nil, ok, err,
}
use package.ethdam_rope.MpcTls.Errors.{
  MpcTlsError, Role, leader, follower, record_layer, other, peer, state, Fallible, Step, pure, fail,
  lift, guard, as_record_layer, ◌>>=◌, ◌>>◌, and_then,
}
use package.ethdam_rope.MpcTls.Records.{
  ContentType, PlainRecord, EncryptedRecord, Record, TlsTranscript, is_application_data, be_bytes,
  make_tls12_aad,
}
use package.ethdam_rope.MpcTls.Engine.{Engine, Side}
use package.ethdam_rope.MpcTls.Encrypt.{
  EncryptMode, EncryptOp, PendingEncrypt, new_encrypt_op, encrypt, try_encrypt,
}
use package.ethdam_rope.MpcTls.Decrypt.{
  DecryptMode, DecryptOp, DecryptOutput, Padded, decrypt_mpc, decrypt_local, verify_tags,
  try_decrypt,
}
use package.ethdam_rope.MpcTls.AesCtr.{
  AesCtr, Ctr, new_ctr, set_ctr_key, alloc_ctr, decode_key, finish_decode,
}

abbrev pub max_record_size : ℕ
max_record_size = 1026 * 16

abbrev pub max_buffer_size : ℕ
max_buffer_size = 16 * 2 ^ 20 / max_record_size

pub data LayerState (H : Type 0) : Type 0 where
  init : LayerState H
  online : Option (List ℕ) → List (Record H) → List (Record H) → LayerState H
  complete : LayerState H
  error : LayerState H

pub record RecordLayer (H : Type 0) : Type 0 where
  pub role : Role
  pub write_seq : ℕ
  pub read_seq : ℕ
  pub aes_ctr : AesCtr H
  pub state : LayerState H
  pub started : Bool
  pub sent : ℕ
  pub recv_online : ℕ
  pub recv : ℕ
  pub max_sent : ℕ
  pub max_recv_online : ℕ
  pub max_recv : ℕ
  pub encrypt_buffer : List EncryptOp
  pub decrypt_buffer : List DecryptOp
  pub encrypted_buffer : List EncryptedRecord
  pub decrypted_buffer : List PlainRecord

unfoldable pub new : {H : Type 0} → Role → RecordLayer H
unfolding new_ctr
new role = record {
  role = role;
  write_seq = 0;
  read_seq = 0;
  aes_ctr = new_ctr role;
  state = init;
  started = false;
  sent = 0;
  recv_online = 0;
  recv = 0;
  max_sent = 0;
  max_recv_online = 0;
  max_recv = 0;
  encrypt_buffer = [];
  decrypt_buffer = [];
  encrypted_buffer = [];
  decrypted_buffer = [];
}

-- `next_write` and `next_read` take a number; the next one is this.
abbrev pub next_seq : ℕ → ℕ
next_seq seq = (seq + 1) % 2 ^ 64

module _ {H : Type 0} where
  unfoldable pub is_empty : RecordLayer H → Bool
  is_empty s =
      is_nil s.encrypt_buffer
      && is_nil s.decrypt_buffer
      && is_nil s.encrypted_buffer
      && is_nil s.decrypted_buffer

  unfoldable pub wants_flush : RecordLayer H → Bool
  wants_flush s = not (is_nil s.encrypt_buffer) || not (is_nil s.decrypt_buffer)

  unfoldable pub start_traffic : RecordLayer H → RecordLayer H
  start_traffic s = record s { started = true }

  -- The end of `push_encrypt`, where the operation has been checked.
  abbrev pub buffer_encrypt : Fallible EncryptOp → Step (RecordLayer H) (Unit {0})
  buffer_encrypt (err e) s = (err e, s)
  buffer_encrypt (ok op) s = (ok tt, record s { encrypt_buffer = s.encrypt_buffer ++ op ∷ [] })

  unfoldable pub push_encrypt :
      ContentType → ℕ → ℕ → Option (List ℕ) → EncryptMode → Step (RecordLayer H) (Unit {0})
  push_encrypt typ version len plaintext mode s =
      if leb max_buffer_size (length s.encrypt_buffer)
      then (err peer, s)
      else if ltb s.max_sent (usize_add s.sent len)
      then (err record_layer, s)
      else buffer_encrypt
          (new_encrypt_op s.write_seq typ version len plaintext (be_bytes 8 s.write_seq)
            (make_tls12_aad s.write_seq typ version len) mode)
          (record s { write_seq = next_seq s.write_seq; sent = usize_add s.sent len })

  unfoldable pub push_decrypt :
      ContentType → ℕ → List ℕ → List ℕ → List ℕ → DecryptMode → Step (RecordLayer H) (Unit {0})
  push_decrypt typ version explicit_nonce ciphertext tag mode s =
      if leb max_buffer_size (length s.decrypt_buffer)
      then (err peer, s)
      else if ltb s.max_recv (usize_add s.recv (length ciphertext))
      then (err record_layer, s)
      else (
        ok tt,
        record s {
          read_seq = next_seq s.read_seq;
          recv = usize_add s.recv (length ciphertext);
          decrypt_buffer =
              s.decrypt_buffer
              ++ record {
                seq = s.read_seq;
                typ = typ;
                version = version;
                explicit_nonce = explicit_nonce;
                ciphertext = ciphertext;
                aad = make_tls12_aad s.read_seq typ version (length ciphertext);
                tag = tag;
                mode = mode;
              }
                ∷ [];
        },
      )

  -- `next_encrypted` on the buffer that it pops.
  pop_encrypted : List EncryptedRecord → RecordLayer H → Option EncryptedRecord × RecordLayer H
  pop_encrypted [] s = (none, s)
  pop_encrypted (r ∷ rs) s =
      if not s.started && is_application_data r.typ
      then (none, s)
      else (some r, record s { encrypted_buffer = rs })

  unfoldable pub next_encrypted : RecordLayer H → Option EncryptedRecord × RecordLayer H
  unfolding pop_encrypted
  next_encrypted s = pop_encrypted s.encrypted_buffer s

  pop_decrypted : List PlainRecord → RecordLayer H → Option PlainRecord × RecordLayer H
  pop_decrypted [] s = (none, s)
  pop_decrypted (r ∷ rs) s =
      if not s.started && is_application_data r.typ
      then (none, s)
      else (some r, record s { decrypted_buffer = rs })

  unfoldable pub next_decrypted : RecordLayer H → Option PlainRecord × RecordLayer H
  unfolding pop_decrypted
  next_decrypted s = pop_decrypted s.decrypted_buffer s
