-- ===== src/MpcTls/RecordLayer/Limits.antt =====
-- What was sent and received is within the limits of the configuration, and the buffers are bounded.
use ethdam_rope.Prelude.{
  usize_add, usize_add-fits, false, ◌<◌, ◌≡◌, ◌^◌, ◌++◌, ℕ, ◌+◌, ◌≤◌, arith, List, [], ◌∷◌, length,
  length-append, leb, ltb, Bool-cases, inl, inr, ok, err, Option,
}
use ethdam_rope.MpcTls.Errors.{Fallible}
use ethdam_rope.MpcTls.Records.{ContentType, be_bytes, make_tls12_aad}
use ethdam_rope.MpcTls.Encrypt.{EncryptMode, EncryptOp, new_encrypt_op}
use ethdam_rope.MpcTls.Decrypt.{DecryptMode, DecryptOp}
use ethdam_rope.MpcTls.RecordLayer.{
  RecordLayer, max_buffer_size, push_encrypt, push_decrypt, buffer_encrypt, next_seq,
  next_encrypted, next_decrypted,
}

-- How many bytes: sent, received, and received and decrypted online.
pub record Bytecount : Type 0 where
  pub sent : ℕ
  pub recv : ℕ
  pub online : ℕ

-- The total, with `n` more bytes if the step succeeded.
abbrev pub plus_accepted {ℓ} : {A : Type ℓ} → Fallible A → ℕ → ℕ → ℕ
plus_accepted (ok _) n total = n + total
plus_accepted (err _) n total = total

-- The lengths of the ciphertexts.
abbrev pub ciphertext_len : List DecryptOp → ℕ
ciphertext_len [] = 0
ciphertext_len (op ∷ ops) = length op.ciphertext + ciphertext_len ops

pub ciphertext_len-append :
    (xs ys : List DecryptOp) → ciphertext_len (xs ++ ys) ≡ ciphertext_len xs + ciphertext_len ys
ciphertext_len-append [] ys = omega arith
ciphertext_len-append (op ∷ xs) ys = omega (arith, ciphertext_len-append xs ys)

-- What was used is counted, the count is within the limit, and the limit within what was granted.
pub record Within (used count limit granted : ℕ) : Type 0 where
  pub counted : used ≤ count
  pub limited : count ≤ limit
  pub allowed : limit ≤ granted

-- All three counts are so, the buffers are bounded, and the ciphertexts that wait were counted when
-- they were received.
pub record IsBounded {H : Type 0} (used granted : Bytecount) (s : RecordLayer H) : Type 0 where
  pub sent : Within used.sent s.sent s.max_sent granted.sent
  pub recv : Within used.recv s.recv s.max_recv granted.recv
  pub online : Within used.online s.recv_online s.max_recv_online granted.online
  pub waiting : ciphertext_len s.decrypt_buffer ≤ s.recv
  pub encrypts : length s.encrypt_buffer ≤ max_buffer_size
  pub decrypts : length s.decrypt_buffer ≤ max_buffer_size

-- No sum of what was granted can wrap.
pub record Fits (granted : Bytecount) : Type 0 where
  pub sent : granted.sent < 2 ^ 63
  pub recv : granted.recv < 2 ^ 63
  pub online : granted.online < 2 ^ 63

-- A counter that adds a number, as long as it is accepted and does not wrap.
pub Within-add :
    {used count limit granted : ℕ} (n : ℕ)
    → Within used count limit granted
    → granted < 2 ^ 63
    → n < 2 ^ 63
    → ltb limit (usize_add count n) ≡ false
    → Within (n + used) (usize_add count n) limit granted
Within-add {used} {count} {limit} {granted} n w small fits not_over =
    let adds = usize_add-fits count n (omega (arith, w.limited, w.allowed)) in
    record {
      counted = omega (arith, adds, w.counted);
      limited = ground (arith, not_over);
      allowed = w.allowed;
    }

abbrev pub with_sent : ℕ → Bytecount → Bytecount
with_sent n c = record c { sent = n }

abbrev pub with_recv : ℕ → Bytecount → Bytecount
with_recv n c = record c { recv = n }

module _ {H : Type 0} (used granted : Bytecount) where
  -- An operation that is buffered, or refused after its bytes were counted.
  buffered-IsBounded :
      (n : ℕ) (r : Fallible EncryptOp) (s : RecordLayer H)
      → length s.encrypt_buffer + 1 ≤ max_buffer_size
      → IsBounded (with_sent (n + used.sent) used) granted s
      → IsBounded
          (with_sent (plus_accepted (buffer_encrypt r s).0 n used.sent) used)
          granted
          (buffer_encrypt r s).1
  buffered-IsBounded n (err e) s h b = record {
    sent = record {
      counted = omega (arith, b.sent.counted);
      limited = b.sent.limited;
      allowed = b.sent.allowed;
    };
    recv = b.recv;
    online = b.online;
    waiting = b.waiting;
    encrypts = b.encrypts;
    decrypts = b.decrypts;
  }
  buffered-IsBounded n (ok op) s h b = record {
    sent = b.sent;
    recv = b.recv;
    online = b.online;
    waiting = b.waiting;
    encrypts = omega (arith, length-append s.encrypt_buffer (op ∷ []));
    decrypts = b.decrypts;
  }

  -- `push_encrypt` counts the bytes that it accepts, and keeps the limits, whether it succeeds or
  -- fails.
  pub push_encrypt-IsBounded :
      (s : RecordLayer H) (typ : ContentType) (version len : ℕ) (plaintext : Option (List ℕ))
      (mode : EncryptMode)
      → Fits granted
      → len < 2 ^ 63
      → IsBounded used granted s
      → IsBounded
          (with_sent
            (plus_accepted (push_encrypt typ version len plaintext mode s).0 len used.sent)
            used)
          granted
          (push_encrypt typ version len plaintext mode s).1
  unfolding push_encrypt
  push_encrypt-IsBounded s typ version len plaintext mode small l b =
      elim (Bool-cases (leb max_buffer_size (length s.encrypt_buffer))) [
        | inl full ↦ rw full b
        | inr room ↦ elim (Bool-cases (ltb s.max_sent (usize_add s.sent len))) [
          | inl over ↦ rw (room, over) b
          | inr fits ↦
              rw (room, fits)
                (buffered-IsBounded len
                  (new_encrypt_op s.write_seq typ version len plaintext (be_bytes 8 s.write_seq)
                    (make_tls12_aad s.write_seq typ version len) mode)
                  (record s { write_seq = next_seq s.write_seq; sent = usize_add s.sent len })
                  (ground arith)
                  (record {
                    sent = Within-add len b.sent small.sent l fits;
                    recv = b.recv;
                    online = b.online;
                    waiting = b.waiting;
                    encrypts = b.encrypts;
                    decrypts = b.decrypts;
                  }))
        ]
      ]

  -- So does `push_decrypt`.
  pub push_decrypt-IsBounded :
      (s : RecordLayer H) (typ : ContentType) (version : ℕ) (nonce ciphertext tag : List ℕ)
      (mode : DecryptMode)
      → Fits granted
      → length ciphertext < 2 ^ 63
      → IsBounded used granted s
      → IsBounded
          (with_recv
            (plus_accepted
              (push_decrypt typ version nonce ciphertext tag mode s).0
              (length ciphertext)
              used.recv)
            used)
          granted
          (push_decrypt typ version nonce ciphertext tag mode s).1
  unfolding push_decrypt
  push_decrypt-IsBounded s typ version nonce ciphertext tag mode small l b =
      elim (Bool-cases (leb max_buffer_size (length s.decrypt_buffer))) [
        | inl full ↦ rw full b
        | inr room ↦ elim (Bool-cases (ltb s.max_recv (usize_add s.recv (length ciphertext)))) [
          | inl over ↦ rw (room, over) b
          | inr fits ↦
              rw (room, fits)
                (record {
                  sent = b.sent;
                  recv = Within-add (length ciphertext) b.recv small.recv l fits;
                  online = b.online;
                  waiting =
                      let adds =
                        usize_add-fits s.recv (length ciphertext)
                          (omega (arith, b.recv.limited, b.recv.allowed, small.recv)) in
                      omega
                        (arith, adds, b.waiting, ciphertext_len-append s.decrypt_buffer (_ ∷ []));
                  encrypts = b.encrypts;
                  decrypts =
                      let below : length s.decrypt_buffer + 1 ≤ max_buffer_size = ground arith in
                      omega (arith, below, length-append s.decrypt_buffer (_ ∷ []));
                })
        ]
      ]

  pub next_encrypted-IsBounded :
      (s : RecordLayer H) → IsBounded used granted s → IsBounded used granted (next_encrypted s).1
  unfolding next_encrypted
  next_encrypted-IsBounded s b = ground arith

  pub next_decrypted-IsBounded :
      (s : RecordLayer H) → IsBounded used granted s → IsBounded used granted (next_decrypted s).1
  unfolding next_decrypted
  next_decrypted-IsBounded s b = ground arith
