-- ===== src/MpcTls/Session/Counts.antt =====
-- How the counters and the limits of the record layer change.
use ethdam_rope.Prelude.{
  usize_add, usize_add-fits, ◌<◌, ◌^◌, refl, is_nil, ℕ, ◌+◌, ◌≤◌, ◌≡◌, arith, List, [], ◌∷◌, length,
  ◌&&◌, Bool-cases, inl, inr, Option, Bool, true, false,
}
use ethdam_rope.MpcTls.Records.{EncryptedRecord, PlainRecord, is_application_data}
use ethdam_rope.MpcTls.Encrypt.{EncryptOp}
use ethdam_rope.MpcTls.Decrypt.{DecryptOp}
use ethdam_rope.MpcTls.AesCtr.{AesCtr}
use ethdam_rope.MpcTls.RecordLayer.{RecordLayer, LayerState}
use ethdam_rope.MpcTls.RecordLayer.Limits.{IsBounded, Bytecount, Within, Fits, ciphertext_len}
use ethdam_rope.MpcTls.Queue.{total_len, kept, from_application}
use ethdam_rope.MpcTls.Session.Lifecycle.{Stable, grown}

length-from_application : (ops : List DecryptOp) → length (from_application ops) ≤ length ops
length-from_application [] = omega arith
length-from_application (op ∷ ops) = elim (Bool-cases (is_application_data op.typ)) [
  | inl app ↦ rw app (omega arith)
  | inr other ↦ rw other (omega (arith, length-from_application ops))
]

length-kept : (b : Bool) (ops : List DecryptOp) → length (kept b ops) ≤ length ops
length-kept true ops = omega arith
length-kept false ops = length-from_application ops

ciphertext_len-from_application :
    (ops : List DecryptOp) → ciphertext_len (from_application ops) ≤ ciphertext_len ops
ciphertext_len-from_application [] = omega arith
ciphertext_len-from_application (op ∷ ops) = elim (Bool-cases (is_application_data op.typ)) [
  | inl app ↦ rw app (omega arith)
  | inr other ↦ rw other (omega (arith, ciphertext_len-from_application ops))
]

ciphertext_len-kept :
    (b : Bool) (ops : List DecryptOp) → ciphertext_len (kept b ops) ≤ ciphertext_len ops
ciphertext_len-kept true ops = omega arith
ciphertext_len-kept false ops = ciphertext_len-from_application ops

-- A sum of lengths that fits does not wrap.
pub total_len-fits :
    (ops : List DecryptOp) → ciphertext_len ops < 2 ^ 64 → total_len ops ≡ ciphertext_len ops
unfolding total_len
total_len-fits [] h = refl
total_len-fits (op ∷ ops) h =
    let rest = total_len-fits ops (omega (arith, h)) in
    rw rest (usize_add-fits (length op.ciphertext) (ciphertext_len ops) h)

abbrev pub with_online : ℕ → Bytecount → Bytecount
with_online n c = record c { online = n }

-- What `alloc` grants when it succeeds.
abbrev pub grant : ℕ → ℕ → ℕ → Bytecount → Bytecount
grant sent_len online_len recv_len c = record {
  sent = sent_len + c.sent;
  recv = recv_len + c.recv;
  online = online_len + c.online;
}

pub idle_len :
    (ops : List EncryptOp) (rops : List DecryptOp)
    → (is_nil ops && is_nil rops) ≡ true
    → ciphertext_len rops ≡ 0
idle_len [] [] h = refl
idle_len [] (r ∷ rops) h = cc h
idle_len (o ∷ ops) rops h = cc h

-- A limit that grows without a wrap.
Within-grant :
    {used count limit granted : ℕ} (n : ℕ)
    → Within used count limit granted
    → n + granted < 2 ^ 63
    → Within used count (usize_add limit n) (n + granted)
Within-grant {used} {count} {limit} {granted} n w small =
    let adds = usize_add-fits limit n (omega (arith, w.allowed)) in
    record {
      counted = w.counted;
      limited = omega (arith, adds, w.limited);
      allowed = omega (arith, adds, w.allowed);
    }

-- What is within the limit is so if more is granted.
Within-weaken :
    {used count limit granted : ℕ} (n : ℕ)
    → Within used count limit granted
    → Within used count limit (n + granted)
Within-weaken n w = record {
  counted = w.counted;
  limited = w.limited;
  allowed = omega (arith, w.allowed);
}

module _ {H : Type 0} (used granted : Bytecount) where
  -- The limits say nothing of the state, of the cipher and of the buffers of finished records.
  pub IsBounded-other :
      (l : RecordLayer H) (st : LayerState H) (c : AesCtr H) (es : List EncryptedRecord)
      (ds : List PlainRecord)
      → IsBounded used granted l
      → IsBounded used granted
          (record l { state = st; aes_ctr = c; encrypted_buffer = es; decrypted_buffer = ds })
  IsBounded-other l st c es ds b = record {
    sent = b.sent;
    recv = b.recv;
    online = b.online;
    waiting = b.waiting;
    encrypts = b.encrypts;
    decrypts = b.decrypts;
  }

  pub IsBounded-Stable : Stable (IsBounded {H = H} used granted)
  IsBounded-Stable = record {
    dropped = λ l st e b. IsBounded-other l st l.aes_ctr l.encrypted_buffer l.decrypted_buffer b;
    keyed = λ l c b. IsBounded-other l l.state c l.encrypted_buffer l.decrypted_buffer b;
    decrypted = λ l rs b. IsBounded-other l l.state l.aes_ctr l.encrypted_buffer rs b;
    emptied = λ l b. record {
      sent = b.sent;
      recv = b.recv;
      online = b.online;
      waiting = omega arith;
      encrypts = b.encrypts;
      decrypts = omega arith;
    };
  }

  pub grown-IsBounded :
      (sent_len online_len recv_len : ℕ) (l : RecordLayer H) (pad : Option (List ℕ))
      → Fits (grant sent_len online_len recv_len granted)
      → IsBounded used granted l
      → IsBounded used
          (grant sent_len online_len recv_len granted)
          (grown sent_len online_len recv_len pad l)
  grown-IsBounded sent_len online_len recv_len l pad small b = record {
    sent = Within-grant sent_len b.sent small.sent;
    recv = Within-grant recv_len b.recv small.recv;
    online = Within-grant online_len b.online small.online;
    waiting = b.waiting;
    encrypts = b.encrypts;
    decrypts = b.decrypts;
  }

  pub drained-IsBounded :
      (b : Bool) (l : RecordLayer H)
      → IsBounded used granted l
      → IsBounded used granted
          (record l { encrypt_buffer = []; decrypt_buffer = kept b l.decrypt_buffer })
  drained-IsBounded b l h = record {
    sent = h.sent;
    recv = h.recv;
    online = h.online;
    waiting = omega (arith, ciphertext_len-kept b l.decrypt_buffer, h.waiting);
    encrypts = omega arith;
    decrypts = omega (arith, length-kept b l.decrypt_buffer, h.decrypts);
  }

  -- The limits hold if fewer bytes were decrypted online.
  pub fewer-IsBounded :
      (n : ℕ) (l : RecordLayer H)
      → IsBounded (with_online (n + used.online) used) granted l
      → IsBounded used granted l
  fewer-IsBounded n l b = record {
    sent = b.sent;
    recv = b.recv;
    online = record {
      counted = omega (arith, b.online.counted);
      limited = b.online.limited;
      allowed = b.online.allowed;
    };
    waiting = b.waiting;
    encrypts = b.encrypts;
    decrypts = b.decrypts;
  }

  pub idle-IsBounded :
      (n : ℕ) (l : RecordLayer H)
      → n ≡ 0
      → IsBounded used granted l
      → IsBounded (with_online (n + used.online) used) granted l
  idle-IsBounded n l zero_bytes b = record {
    sent = b.sent;
    recv = b.recv;
    online = record {
      counted = omega (arith, zero_bytes, b.online.counted);
      limited = b.online.limited;
      allowed = b.online.allowed;
    };
    waiting = b.waiting;
    encrypts = b.encrypts;
    decrypts = b.decrypts;
  }
