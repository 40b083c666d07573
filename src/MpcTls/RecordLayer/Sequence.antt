-- ===== src/MpcTls/RecordLayer/Sequence.antt =====
-- The records that were sent and the operations that wait have ascending sequence numbers.
use native.Mathlib.Nat.{mod-eq_of_lt, mod-le}
use ethdam_rope.Prelude.{
  usize_add, ℕ, ◌+◌, ◌≤◌, ◌<◌, ◌^◌, ◌≡◌, refl, arith, List, [], ◌∷◌, ◌++◌, leb, ltb, length,
  Bool-cases, inl, inr, ok, err, Option, sym, ◌∙◌, append_assoc, subst, ap,
}
use ethdam_rope.MpcTls.Errors.{Fallible}
use ethdam_rope.MpcTls.Records.{ContentType, Record, be_bytes, make_tls12_aad}
use ethdam_rope.MpcTls.Encrypt.{EncryptMode, EncryptOp, new_encrypt_op}
use ethdam_rope.MpcTls.Keys.{Key, Numbered, Numbered-snoc, Numbered-weaken}
use ethdam_rope.MpcTls.RecordLayer.{
  RecordLayer, LayerState, online, max_buffer_size, push_encrypt, buffer_encrypt, next_seq,
}

abbrev pub op_key : EncryptOp → Key
op_key op = record { seq = op.seq; nonce = op.explicit_nonce }

abbrev pub op_keys : List EncryptOp → List Key
op_keys [] = []
op_keys (op ∷ ops) = op_key op ∷ op_keys ops

abbrev pub record_key : {H : Type 0} → Record H → Key
record_key r = record { seq = r.seq; nonce = r.explicit_nonce }

abbrev pub record_keys : {H : Type 0} → List (Record H) → List Key
record_keys [] = []
record_keys (r ∷ rs) = record_key r ∷ record_keys rs

abbrev pub sent_of : {H : Type 0} → LayerState H → List (Record H)
sent_of (online otp sent recv) = sent
sent_of _ = []

-- The keys of what was sent and of what waits, in this order.
abbrev pub keys_of : {H : Type 0} → RecordLayer H → List Key
keys_of s = record_keys (sent_of s.state) ++ op_keys s.encrypt_buffer

abbrev pub IsNumbered : {H : Type 0} → RecordLayer H → Type 0
IsNumbered s = Numbered 0 s.write_seq (keys_of s)

-- The same with the number named that comes next.
abbrev pub IsNumberedTo : {H : Type 0} → ℕ → RecordLayer H → Type 0
IsNumberedTo hi s = (s.write_seq ≡ hi) × Numbered 0 hi (keys_of s)

op_keys-append : (ops ops' : List EncryptOp) → op_keys (ops ++ ops') ≡ op_keys ops ++ op_keys ops'
op_keys-append [] ops' = refl
op_keys-append (op ∷ ops) ops' = ap (λ (ks : List Key). op_key op ∷ ks) (op_keys-append ops ops')

new_encrypt_op_key :
    (seq : ℕ) (typ : ContentType) (version len : ℕ) (plaintext : Option (List ℕ))
    (nonce aad : List ℕ) (mode : EncryptMode) {op : EncryptOp}
    → new_encrypt_op seq typ version len plaintext nonce aad mode ≡ ok op
    → (op.seq ≡ seq) × (op.explicit_nonce ≡ nonce)
unfolding new_encrypt_op
new_encrypt_op_key seq typ version len plaintext nonce aad mode e = ground arith

module _ {H : Type 0} where
  buffered-IsNumbered :
      (r : Fallible EncryptOp) (s : RecordLayer H) (seq : ℕ)
      → ((op : EncryptOp) → r ≡ ok op → (op.seq ≡ seq) × (op.explicit_nonce ≡ be_bytes 8 seq))
      → s.write_seq ≡ seq + 1
      → Numbered 0 seq (keys_of s)
      → IsNumbered (buffer_encrypt r s).1
  buffered-IsNumbered (err e) s seq h w n =
      rw w (Numbered-weaken 0 seq (seq + 1) (keys_of s) (omega arith) n)
  buffered-IsNumbered (ok op) s seq h w n =
      let (e, f) = h op refl in
      let moved : keys_of s ++ op_key op ∷ []
          ≡ record_keys (sent_of s.state) ++ op_keys (s.encrypt_buffer ++ op ∷ []) =
        append_assoc (record_keys (sent_of s.state)) (op_keys s.encrypt_buffer) (op_key op ∷ [])
        ∙ ap (λ (ks : List Key). record_keys (sent_of s.state) ++ ks)
            (sym (op_keys-append s.encrypt_buffer (op ∷ []))) in
      rw w (subst (Numbered 0 (seq + 1)) moved (Numbered-snoc 0 seq (keys_of s) (op_key op) n e f))

  -- As long as the sequence number does not wrap, `push_encrypt` keeps the numbering, whether it
  -- succeeds or fails.
  pub push_encrypt-IsNumbered :
      (s : RecordLayer H) (typ : ContentType) (version len : ℕ) (plaintext : Option (List ℕ))
      (mode : EncryptMode)
      → s.write_seq + 1 < 2 ^ 64
      → IsNumbered s
      → IsNumbered (push_encrypt typ version len plaintext mode s).1
  unfolding push_encrypt
  push_encrypt-IsNumbered s typ version len plaintext mode w n =
      elim (Bool-cases (leb max_buffer_size (length s.encrypt_buffer))) [
        | inl full ↦ rw full n
        | inr room ↦ elim (Bool-cases (ltb s.max_sent (usize_add s.sent len))) [
          | inl over ↦ rw (room, over) n
          | inr fits ↦
              rw (room, fits)
                (buffered-IsNumbered
                  (new_encrypt_op s.write_seq typ version len plaintext (be_bytes 8 s.write_seq)
                    (make_tls12_aad s.write_seq typ version len) mode)
                  (record s { write_seq = next_seq s.write_seq; sent = usize_add s.sent len })
                  s.write_seq
                  (λ op e.
                    new_encrypt_op_key s.write_seq typ version len plaintext
                      (be_bytes 8 s.write_seq) (make_tls12_aad s.write_seq typ version len) mode e)
                  (mod-eq_of_lt w) n)
        ]
      ]

  write_seq-buffer_encrypt :
      (r : Fallible EncryptOp) (s : RecordLayer H) → (buffer_encrypt r s).1.write_seq ≡ s.write_seq
  write_seq-buffer_encrypt (ok op) s = refl
  write_seq-buffer_encrypt (err e) s = refl

  pub write_seq-push_encrypt :
      (s : RecordLayer H) (typ : ContentType) (version len : ℕ) (plaintext : Option (List ℕ))
      (mode : EncryptMode)
      → (push_encrypt typ version len plaintext mode s).1.write_seq ≤ s.write_seq + 1
  unfolding push_encrypt
  write_seq-push_encrypt s typ version len plaintext mode =
      let after = record s { write_seq = next_seq s.write_seq; sent = usize_add s.sent len } in
      let made =
        new_encrypt_op s.write_seq typ version len plaintext (be_bytes 8 s.write_seq)
          (make_tls12_aad s.write_seq typ version len) mode in
      let below : next_seq s.write_seq ≤ s.write_seq + 1 = mod-le (s.write_seq + 1) (2 ^ 64) in
      elim (Bool-cases (leb max_buffer_size (length s.encrypt_buffer))) [
        | inl full ↦ rw full (omega arith)
        | inr room ↦ elim (Bool-cases (ltb s.max_sent (usize_add s.sent len))) [
          | inl over ↦ rw (room, over) (omega arith)
          | inr fits ↦ rw (room, fits, write_seq-buffer_encrypt made after) below
        ]
      ]
