-- ===== src/MpcTls/Session/Nonces.antt =====
-- No explicit nonce is used twice, whatever methods are called.
use ethdam_rope.Prelude.{
  true, [], ℕ, ◌+◌, ◌<◌, ◌≤◌, ◌^◌, ◌≡◌, ◌≢◌, refl, arith, List, some, get_elem?,
}
use ethdam_rope.MpcTls.Records.{ContentType}
use ethdam_rope.MpcTls.Engine.{Engine}
use ethdam_rope.MpcTls.Decrypt.{DecryptMode}
use ethdam_rope.MpcTls.Keys.{Key, Numbered, Numbered-nonces, Numbered-suffix}
use ethdam_rope.MpcTls.RecordLayer.{
  LayerState, init, online, complete, error, RecordLayer, new, push_decrypt, next_encrypted,
  next_decrypted, start_traffic,
}
use ethdam_rope.MpcTls.RecordLayer.Sequence.{
  op_keys, record_keys, sent_of, IsNumbered, IsNumberedTo, keys_of, push_encrypt-IsNumbered,
  write_seq-push_encrypt,
}
use ethdam_rope.MpcTls.Queue.{is_closed, Session}
use ethdam_rope.MpcTls.Session.{alloc_layer, preprocess, set_keys, setup, flush, commit}
use ethdam_rope.MpcTls.Session.Flush.{flush-IsNumbered}
use ethdam_rope.MpcTls.Session.Lifecycle.{
  Stable, alloc-Leaves, preprocess-Leaves, set_keys-Leaves, setup-Leaves, commit-Leaves,
}
use ethdam_rope.MpcTls.Session.Reach.{
  Call, Reached, fresh, later, is_push, pushes, allocs, preprocesses, sets_keys, sets_up,
  starts_traffic, pushes_encrypt, pushes_decrypt, takes_encrypted, takes_decrypted, flushes,
  commits,
}

-- Only what waits is numbered: the state no longer has the sent records.
forgotten :
    {H : Type 0} (hi : ℕ) (l : RecordLayer H)
    → IsNumberedTo hi l
    → (l.write_seq ≡ hi) × Numbered 0 hi (op_keys l.encrypt_buffer)
forgotten hi l (w, n) =
    (w, Numbered-suffix 0 hi (record_keys (sent_of l.state)) (op_keys l.encrypt_buffer) n)

module _ {H : Type 0} where
  next_encrypted-IsNumbered :
      (hi : ℕ) (l : RecordLayer H) → IsNumberedTo hi l → IsNumberedTo hi (next_encrypted l).1
  unfolding next_encrypted
  next_encrypted-IsNumbered hi l n = ground arith

  next_decrypted-IsNumbered :
      (hi : ℕ) (l : RecordLayer H) → IsNumberedTo hi l → IsNumberedTo hi (next_decrypted l).1
  unfolding next_decrypted
  next_decrypted-IsNumbered hi l n = ground arith

  push_decrypt-IsNumbered :
      (hi : ℕ) (l : RecordLayer H) (typ : ContentType) (version : ℕ) (nonce ciphertext tag : List ℕ)
      (mode : DecryptMode)
      → IsNumberedTo hi l
      → IsNumberedTo hi (push_decrypt typ version nonce ciphertext tag mode l).1
  unfolding push_decrypt
  push_decrypt-IsNumbered hi l typ version nonce ciphertext tag mode n = ground arith

  start_traffic-IsNumbered :
      (hi : ℕ) (l : RecordLayer H) → IsNumberedTo hi l → IsNumberedTo hi (start_traffic l)
  unfolding start_traffic
  start_traffic-IsNumbered hi l n = n

  sent_of-closed : (st : LayerState H) → is_closed st ≡ true → sent_of st ≡ []
  sent_of-closed init e = refl
  sent_of-closed (online otp sent recv) e = cc
  sent_of-closed complete e = refl
  sent_of-closed error e = refl

  numbered-Stable : (hi : ℕ) → Stable {H = H} (IsNumberedTo hi)
  numbered-Stable hi = record {
    dropped = λ l st e n. rw (sent_of-closed st e) (forgotten hi l n);
    keyed = λ l c n. n;
    decrypted = λ l rs n. n;
    emptied = λ l n. n;
  }

  -- The numbering holds, and no more numbers are used than records were pushed.
  abbrev Sound : ℕ → RecordLayer H → Type 0
  Sound n l = IsNumbered l × (l.write_seq ≤ n)

  kept-Sound :
      (n : ℕ) (l m : RecordLayer H)
      → Sound n l
      → (IsNumberedTo l.write_seq l → IsNumberedTo l.write_seq m)
      → Sound (0 + n) m
  kept-Sound n l m (s, h) k = let (w, d) = k (refl, s) in (rw w d, omega arith)

module _ {V H : Type 0} ⦃e : Engine V H⦄ where
  Call-Sound :
      (n : ℕ) {s t : Session V H} (c : Call s t)
      → is_push c + n < 2 ^ 64
      → Sound n s.layer
      → Sound (is_push c + n) t.layer
  Call-Sound n {s} (allocs locks a b c d l) lt h =
      kept-Sound n s.layer (alloc_layer locks a b c d l s).1.layer h (
        alloc-Leaves (IsNumberedTo s.layer.write_seq) (numbered-Stable s.layer.write_seq)
          (λ l m k j pad n. forgotten s.layer.write_seq l n) locks a b c d l s)
  Call-Sound n {s} (preprocesses locks) lt h = kept-Sound n s.layer (preprocess locks s).1.layer h (
      preprocess-Leaves (IsNumberedTo s.layer.write_seq) (numbered-Stable s.layer.write_seq) locks
        s)
  Call-Sound n {s} (sets_keys locks ck ci sk si) lt h =
      kept-Sound n s.layer (set_keys locks ck ci sk si s).1.layer h (
        set_keys-Leaves (IsNumberedTo s.layer.write_seq) (numbered-Stable s.layer.write_seq) locks
          ck ci sk si s)
  Call-Sound n {s} (sets_up locks) lt h =
      kept-Sound n s.layer (setup locks s).1.layer h
        (setup-Leaves (IsNumberedTo s.layer.write_seq) (numbered-Stable s.layer.write_seq) locks s)
  Call-Sound n {s} starts_traffic lt h =
      kept-Sound n s.layer (start_traffic s.layer) h
        (start_traffic-IsNumbered s.layer.write_seq s.layer)
  Call-Sound n {s} (pushes_encrypt typ version len plaintext mode) lt (h, w) = (
    push_encrypt-IsNumbered s.layer typ version len plaintext mode (omega arith) h,
    omega (arith, write_seq-push_encrypt s.layer typ version len plaintext mode),
  )
  Call-Sound n {s} (pushes_decrypt typ version nonce ciphertext tag mode) lt h =
      kept-Sound n s.layer (push_decrypt typ version nonce ciphertext tag mode s.layer).1 h
        (push_decrypt-IsNumbered s.layer.write_seq s.layer typ version nonce ciphertext tag mode)
  Call-Sound n {s} takes_encrypted lt h =
      kept-Sound n s.layer (next_encrypted s.layer).1 h
        (next_encrypted-IsNumbered s.layer.write_seq s.layer)
  Call-Sound n {s} takes_decrypted lt h =
      kept-Sound n s.layer (next_decrypted s.layer).1 h
        (next_decrypted-IsNumbered s.layer.write_seq s.layer)
  Call-Sound n {s} (flushes locks b) lt h =
      kept-Sound n s.layer (flush locks b s).1.layer h
        (flush-IsNumbered s.layer.write_seq locks b s)
  Call-Sound n {s} (commits locks) lt h =
      kept-Sound n s.layer (commit locks s).1.layer h
        (commit-Leaves (IsNumberedTo s.layer.write_seq) (numbered-Stable s.layer.write_seq) locks s)

  reached-Sound : {s : Session V H} (r : Reached s) → pushes r < 2 ^ 64 → Sound (pushes r) s.layer
  unfolding new
  reached-Sound (fresh role v) lt = (omega arith, omega arith)
  reached-Sound (later r c) lt = Call-Sound (pushes r) c lt (reached-Sound r (omega arith))

  -- Whatever methods were called, in any order and with any outcome, as long as fewer than 2^64
  -- records were pushed to be encrypted: no two of the records that were sent or wait to be sent
  -- have the same explicit nonce.
  pub reached_nonces_differ :
      {s : Session V H} (r : Reached s) (i j : ℕ) {k l : Key}
      → pushes r < 2 ^ 64
      → i < j
      → get_elem? (keys_of s.layer) i ≡ some k
      → get_elem? (keys_of s.layer) j ≡ some l
      → k.nonce ≢ l.nonce
  reached_nonces_differ {s} r i j lt h ei ej =
      let (n, w) = reached-Sound r lt in
      Numbered-nonces 0 s.layer.write_seq (keys_of s.layer) i j (omega arith) n h ei ej
