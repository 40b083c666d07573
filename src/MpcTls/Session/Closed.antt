-- ===== src/MpcTls/Session/Closed.antt =====
-- A session that was committed, or whose methods failed with their state taken, stays closed.
use ethdam_rope.Prelude.{usize_add, ℕ, ◌≡◌, refl, arith, List, Option, Bool}
use ethdam_rope.MpcTls.Records.{ContentType}
use ethdam_rope.MpcTls.Engine.{Engine}
use ethdam_rope.MpcTls.Encrypt.{EncryptMode, EncryptOp, new_encrypt_op}
use ethdam_rope.MpcTls.Decrypt.{DecryptMode}
use ethdam_rope.MpcTls.RecordLayer.{
  RecordLayer, push_encrypt, push_decrypt, next_encrypted, next_decrypted, start_traffic,
}
use ethdam_rope.MpcTls.Queue.{Session, Locks}
use ethdam_rope.MpcTls.Session.{alloc_layer, flush, commit}
use ethdam_rope.MpcTls.Session.Lifecycle.{
  Stable, preprocess-Leaves, set_keys-Leaves, setup-Leaves, commit-Leaves, commit-Ends,
}
use ethdam_rope.MpcTls.Session.Reach.{
  Call, allocs, preprocesses, sets_keys, sets_up, starts_traffic, pushes_encrypt, pushes_decrypt,
  takes_encrypted, takes_decrypted, flushes, commits,
}
use ethdam_rope.Prelude.{ok, err, leb, ltb, length, inl, inr, Bool-cases, true, false}
use ethdam_rope.MpcTls.Errors.{Fallible, state, other}
use ethdam_rope.MpcTls.Records.{be_bytes, make_tls12_aad}
use ethdam_rope.MpcTls.RecordLayer.{
  LayerState, init, online, complete, error, buffer_encrypt, next_seq, max_buffer_size,
}
use ethdam_rope.MpcTls.Queue.{is_closed, expect_init, expect_online, is_online}
use ethdam_rope.MpcTls.Session.Lifecycle.{failed}

abbrev pub IsClosed : {H : Type 0} → RecordLayer H → Type 0
IsClosed l = is_closed l.state ≡ true

module _ {H : Type 0} where
  closed_init : (st : LayerState H) → is_closed st ≡ true → expect_init st ≡ err other
  unfolding expect_init
  closed_init init e = cc
  closed_init (online otp sent recv) e = cc
  closed_init complete e = refl
  closed_init error e = refl

  closed_offline : (st : LayerState H) → is_closed st ≡ true → is_online st ≡ false
  unfolding is_online
  closed_offline init e = cc
  closed_offline (online otp sent recv) e = cc
  closed_offline complete e = refl
  closed_offline error e = refl

  closed_expect : (st : LayerState H) → is_closed st ≡ true → expect_online st ≡ err state
  unfolding expect_online
  closed_expect init e = cc
  closed_expect (online otp sent recv) e = cc
  closed_expect complete e = refl
  closed_expect error e = refl

  state-buffer_encrypt :
      (r : Fallible EncryptOp) (l : RecordLayer H) → (buffer_encrypt r l).1.state ≡ l.state
  state-buffer_encrypt (ok op) l = refl
  state-buffer_encrypt (err e) l = refl

  state-push_encrypt :
      (l : RecordLayer H) (typ : ContentType) (version len : ℕ) (plaintext : Option (List ℕ))
      (mode : EncryptMode)
      → (push_encrypt typ version len plaintext mode l).1.state ≡ l.state
  unfolding push_encrypt
  state-push_encrypt l typ version len plaintext mode =
      let after = record l { write_seq = next_seq l.write_seq; sent = usize_add l.sent len } in
      let made =
        new_encrypt_op l.write_seq typ version len plaintext (be_bytes 8 l.write_seq)
          (make_tls12_aad l.write_seq typ version len) mode in
      elim (Bool-cases (leb max_buffer_size (length l.encrypt_buffer))) [
        | inl full ↦ rw full refl
        | inr room ↦ elim (Bool-cases (ltb l.max_sent (usize_add l.sent len))) [
          | inl over ↦ rw (room, over) refl
          | inr fits ↦ rw (room, fits) (state-buffer_encrypt made after)
        ]
      ]

  state-push_decrypt :
      (l : RecordLayer H) (typ : ContentType) (version : ℕ) (nonce ciphertext tag : List ℕ)
      (mode : DecryptMode)
      → (push_decrypt typ version nonce ciphertext tag mode l).1.state ≡ l.state
  unfolding push_decrypt
  state-push_decrypt l typ version nonce ciphertext tag mode = ground arith

  state-next_encrypted : (l : RecordLayer H) → (next_encrypted l).1.state ≡ l.state
  unfolding next_encrypted
  state-next_encrypted l = ground arith

  state-next_decrypted : (l : RecordLayer H) → (next_decrypted l).1.state ≡ l.state
  unfolding next_decrypted
  state-next_decrypted l = ground arith

  state-start_traffic : (l : RecordLayer H) → (start_traffic l).state ≡ l.state
  unfolding start_traffic
  state-start_traffic l = refl

  IsClosed-Stable : Stable {H = H} IsClosed
  IsClosed-Stable = record {
    dropped = λ l st e n. e;
    keyed = λ l c n. n;
    decrypted = λ l rs n. n;
    emptied = λ l n. n;
  }

module _ {V H : Type 0} ⦃e : Engine V H⦄ where
  alloc_closed :
      (locks : Locks) (a b c d l : ℕ) (s : Session V H)
      → IsClosed s.layer
      → alloc_layer locks a b c d l s ≡ (err other, failed s)
  unfolding alloc_layer
  alloc_closed locks a b c d l s h = rw (closed_init s.layer.state h) refl

  flush_closed :
      (locks : Locks) (b : Bool) (s : Session V H)
      → IsClosed s.layer
      → flush locks b s ≡ (err state, s)
  unfolding flush
  flush_closed locks b s h = rw (closed_offline s.layer.state h) refl

  commit_closed :
      (locks : Locks) (s : Session V H) → IsClosed s.layer → commit locks s ≡ (err state, failed s)
  unfolding commit
  commit_closed locks s h = rw (closed_expect s.layer.state h) refl

  -- A closed session stays closed.
  Call-IsClosed : {s t : Session V H} → Call s t → IsClosed s.layer → IsClosed t.layer
  Call-IsClosed {s} (allocs locks a b c d l) h = rw (alloc_closed locks a b c d l s h) refl
  Call-IsClosed {s} (preprocesses locks) h = preprocess-Leaves IsClosed IsClosed-Stable locks s h
  Call-IsClosed {s} (sets_keys locks ck ci sk si) h =
      set_keys-Leaves IsClosed IsClosed-Stable locks ck ci sk si s h
  Call-IsClosed {s} (sets_up locks) h = setup-Leaves IsClosed IsClosed-Stable locks s h
  Call-IsClosed {s} starts_traffic h = rw (state-start_traffic s.layer) h
  Call-IsClosed {s} (pushes_encrypt typ version len plaintext mode) h =
      rw (state-push_encrypt s.layer typ version len plaintext mode) h
  Call-IsClosed {s} (pushes_decrypt typ version nonce ciphertext tag mode) h =
      rw (state-push_decrypt s.layer typ version nonce ciphertext tag mode) h
  Call-IsClosed {s} takes_encrypted h = rw (state-next_encrypted s.layer) h
  Call-IsClosed {s} takes_decrypted h = rw (state-next_decrypted s.layer) h
  Call-IsClosed {s} (flushes locks b) h = rw (flush_closed locks b s h) h
  Call-IsClosed {s} (commits locks) h = commit-Leaves IsClosed IsClosed-Stable locks s h

  -- The sessions that further calls lead to.
  pub data After (s : Session V H) : Session V H → Type 0 where
    now : After s s
    then : {t u : Session V H} → After s t → Call t u → After s u

  After-IsClosed : {s t : Session V H} → After s t → IsClosed s.layer → IsClosed t.layer
  After-IsClosed now h = h
  After-IsClosed (then a c) h = Call-IsClosed c (After-IsClosed a h)

  -- Once `commit` was called, whatever came of it and whatever methods were called since then:
  -- a further `alloc`, `flush` and `commit` fail, each with its error for a wrong state, and `flush`
  -- changes nothing.
  pub After-commit :
      (locks locks' : Locks) (s : Session V H) {t : Session V H} (is_decrypting : Bool)
      (sent_records recv_records sent_len online_len recv_len : ℕ)
      → After (commit locks s).1 t
      → ((alloc_layer locks' sent_records recv_records sent_len online_len recv_len t).0
          ≡ err other)
        × (flush locks' is_decrypting t ≡ (err state, t))
        × ((commit locks' t).0 ≡ err state)
  After-commit locks locks' s {t} is_decrypting a b c d l r =
      let closed = After-IsClosed r (commit-Ends IsClosed IsClosed-Stable locks s refl) in
      (
        rw (alloc_closed locks' a b c d l t closed) refl,
        flush_closed locks' is_decrypting t closed,
        rw (commit_closed locks' t closed) refl,
      )
