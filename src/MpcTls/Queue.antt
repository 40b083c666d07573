-- ===== src/MpcTls/Queue.antt =====
-- tlsn/crates/mpc-tls/src/record_layer.rs: what the methods that use the virtual machine work on.
-- `Locks` says which of the mutexes somebody else holds when a method is called, and `Session` is
-- the layer with the state of the virtual machine.
use ethdam_rope.Prelude.{
  usize_add, ℕ, Bool, true, false, not, if◌then◌else◌, Option, none, some, List, [], ◌∷◌, ◌++◌,
  length, ok, err,
}
use ethdam_rope.MpcTls.Errors.{MpcTlsError, other, state, Fallible, Step, guard}
use ethdam_rope.MpcTls.Records.{PlainRecord, EncryptedRecord, Record, is_application_data}
use ethdam_rope.MpcTls.Encrypt.{EncryptOp, PendingEncrypt}
use ethdam_rope.MpcTls.Decrypt.{DecryptOp}
use ethdam_rope.MpcTls.AesCtr.{Ctr}
use ethdam_rope.MpcTls.RecordLayer.{RecordLayer, LayerState, init, online, complete, error}

-- Which mutexes somebody else holds.
pub record Locks : Type 0 where
  pub vm : Bool
  pub encrypter : Bool
  pub decrypter : Bool

pub record Session (V H : Type 0) : Type 0 where
  pub layer : RecordLayer H
  pub vm : V

-- The operations before the first of application data, and those from there on.
abbrev pub before_application : List DecryptOp → List DecryptOp
before_application [] = []
before_application (op ∷ ops) =
    if is_application_data op.typ then [] else op ∷ before_application ops

abbrev pub from_application : List DecryptOp → List DecryptOp
from_application [] = []
from_application (op ∷ ops) = if is_application_data op.typ then op ∷ ops else from_application ops

-- `.map(|op| op.ciphertext.len()).sum()`; the order does not change a sum that wraps.
unfoldable pub total_len : List DecryptOp → ℕ
total_len [] = 0
total_len (op ∷ ops) = usize_add (length op.ciphertext) (total_len ops)

-- The tags are reversed and popped from the back: they are taken from the front.
abbrev pub next_tag : Option (List (List ℕ)) → Option (List ℕ)
next_tag (some (t ∷ ts)) = some t
next_tag _ = none

abbrev pub rest_tags : Option (List (List ℕ)) → Option (List (List ℕ))
rest_tags (some (t ∷ ts)) = some ts
rest_tags ts = ts

module _ {V H : Type 0} where
  abbrev pub with_vm {ℓ} : {A : Type ℓ} → Step V A → Step (Session V H) A
  with_vm m s = let (r, v) = m s.vm in (r, record s { vm = v })

  abbrev pub with_layer {ℓ} : {A : Type ℓ} → Step (RecordLayer H) A → Step (Session V H) A
  with_layer m s = let (r, l) = m s.layer in (r, record s { layer = l })

  abbrev pub with_ctr {ℓ} : {A : Type ℓ} → Step (Ctr V H) A → Step (Session V H) A
  with_ctr m s =
      let (r, c) = m (record { ctr = s.layer.aes_ctr; vm = s.vm }) in
      (r, record { layer = record (s.layer) { aes_ctr = c.ctr }; vm = c.vm })

  abbrev pub modify : (RecordLayer H → RecordLayer H) → Step (Session V H) (Unit {0})
  modify f s = (ok tt, record s { layer = f s.layer })

  abbrev pub get_layer : Step (Session V H) (RecordLayer H)
  get_layer s = (ok s.layer, s)

  -- `self.state.take()`
  abbrev pub take_state : Step (Session V H) (LayerState H)
  take_state s = (ok s.layer.state, record s { layer = record (s.layer) { state = error } })

  unfoldable pub unlocked : Bool → MpcTlsError → Step (Session V H) (Unit {0})
  unlocked held e = guard (not held) e

unfoldable pub encrypted_record : EncryptOp → List ℕ → Option (List ℕ) → EncryptedRecord
encrypted_record op ciphertext tag = record {
  typ = op.typ;
  version = op.version;
  explicit_nonce = op.explicit_nonce;
  ciphertext = ciphertext;
  tag = tag;
}

unfoldable pub plain_record : DecryptOp → Option (List ℕ) → PlainRecord
plain_record op plaintext = record { typ = op.typ; version = op.version; plaintext = plaintext }

-- The drained operations.
abbrev pub due : Bool → List DecryptOp → List DecryptOp
due true ops = ops
due false ops = before_application ops

abbrev pub kept : Bool → List DecryptOp → List DecryptOp
kept true ops = []
kept false ops = from_application ops

module _ {H : Type 0} where
  unfoldable pub expect_init : LayerState H → Fallible (Unit {0})
  expect_init init = ok tt
  expect_init _ = err other

  unfoldable pub is_online : LayerState H → Bool
  is_online (online otp sent recv) = true
  is_online _ = false

  -- Neither to be allocated nor online.
  abbrev pub is_closed : LayerState H → Bool
  is_closed complete = true
  is_closed error = true
  is_closed _ = false

  abbrev pub add_sent : Record H → LayerState H → LayerState H
  add_sent r (online otp sent recv) = online otp (sent ++ r ∷ []) recv
  add_sent r st = st

  abbrev pub add_recv : Record H → LayerState H → LayerState H
  add_recv r (online otp sent recv) = online otp sent (recv ++ r ∷ [])
  add_recv r st = st

  abbrev pub pad_of : LayerState H → Option (List ℕ)
  pad_of (online otp sent recv) = otp
  pad_of _ = none

  abbrev pub set_pad : Option (List ℕ) → LayerState H → LayerState H
  set_pad otp (online _ sent recv) = online otp sent recv
  set_pad otp st = st

  unfoldable pub sent_record : EncryptOp → PendingEncrypt H → List ℕ → Record H
  sent_record op pending ciphertext = record {
    seq = op.seq;
    typ = op.typ;
    plaintext = op.plaintext;
    plaintext_ref = pending.plaintext_ref;
    explicit_nonce = op.explicit_nonce;
    ciphertext = ciphertext;
  }

  unfoldable pub recv_record : DecryptOp → Option (List ℕ) → Record H
  recv_record op plaintext = record {
    seq = op.seq;
    typ = op.typ;
    plaintext = plaintext;
    plaintext_ref = none;
    explicit_nonce = op.explicit_nonce;
    ciphertext = op.ciphertext;
  }

  unfoldable pub expect_online : LayerState H → Fallible (List (Record H) × List (Record H))
  expect_online (online otp sent recv) = ok (sent, recv)
  expect_online _ = err state
