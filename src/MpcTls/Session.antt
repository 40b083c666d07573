-- ===== src/MpcTls/Session.antt =====
-- tlsn/crates/mpc-tls/src/record_layer.rs: the methods of `RecordLayer` that use the virtual machine.
-- The computations that `try_join` runs at the same time are one operation of the interface.
pub mod Keeps
pub mod Drain
pub mod Flush
pub mod Lifecycle
pub mod Counts
pub mod Bounds
pub mod Reach
pub mod Usage
pub mod Nonces
pub mod Limits
pub mod Closed
pub mod Commit
use ethdam_rope.Prelude.{
  usize_add, ℕ, ◌+◌, ◌*◌, ◌/◌, ◌%◌, ◌^◌, ◌≡◌, Bool, true, false, not, ◌&&◌, ◌||◌, leb, ltb,
  if◌then◌else◌, Option, none, some, List, [], ◌∷◌, ◌++◌, length, is_nil, ok, err,
}
use ethdam_rope.MpcTls.Errors.{
  MpcTlsError, Role, leader, follower, record_layer, other, peer, state, Fallible, Step, pure, fail,
  lift, guard, as_record_layer, ◌>>=◌, ◌>>◌, and_then,
}
use ethdam_rope.MpcTls.Records.{
  ContentType, PlainRecord, EncryptedRecord, Record, TlsTranscript, is_application_data, be_bytes,
  make_tls12_aad,
}
use ethdam_rope.MpcTls.Engine.{Engine, Side}
use ethdam_rope.MpcTls.Encrypt.{
  EncryptMode, EncryptOp, PendingEncrypt, new_encrypt_op, encrypt, try_encrypt,
}
use ethdam_rope.MpcTls.Decrypt.{
  DecryptMode, DecryptOp, DecryptOutput, Padded, decrypt_mpc, decrypt_local, verify_tags,
  try_decrypt,
}
use ethdam_rope.MpcTls.AesCtr.{
  AesCtr, Ctr, new_ctr, set_ctr_key, alloc_ctr, decode_key, finish_decode,
}
use ethdam_rope.MpcTls.RecordLayer.{RecordLayer, LayerState, init, online, complete, error}
use ethdam_rope.MpcTls.Queue.{
  Locks, Session, before_application, from_application, total_len, next_tag, rest_tags, with_vm,
  with_layer, with_ctr, modify, get_layer, take_state, unlocked, due, kept, expect_init, is_online,
  add_sent, add_recv, pad_of, set_pad, encrypted_record, sent_record, plain_record, recv_record,
  expect_online,
}

module _ {V H : Type 0} ⦃e : Engine V H⦄ where
  -- The one-time pad of the leader.
  unfoldable pub with_new_pad : Role → ℕ → Step (Session V H) (Option (List ℕ))
  with_new_pad leader len = do pad ← with_vm (e.random len); pure (some pad)
  with_new_pad follower len = pure none

  unfoldable pub alloc_layer : Locks → ℕ → ℕ → ℕ → ℕ → ℕ → Step (Session V H) (Unit {0})
  unfolding unlocked expect_init with_new_pad alloc_ctr
  alloc_layer locks sent_records recv_records sent_len recv_len_online recv_len = do
    st ← take_state
    lift (expect_init st)
    unlocked locks.encrypter other
    unlocked locks.decrypter other
    with_vm (as_record_layer (e.alloc Side.encrypter sent_records sent_len))
    with_vm (as_record_layer (e.alloc Side.decrypter recv_records recv_len_online))
    s ← get_layer
    recv_otp ← with_new_pad s.role recv_len_online
    with_ctr alloc_ctr
    modify (λ l. record l {
      max_sent = usize_add l.max_sent sent_len;
      max_recv_online = usize_add l.max_recv_online recv_len_online;
      max_recv = usize_add l.max_recv recv_len;
      state = online recv_otp [] [];
    })

  unfoldable pub preprocess : Locks → Step (Session V H) (Unit {0})
  unfolding unlocked
  preprocess locks = do
    unlocked locks.encrypter other
    unlocked locks.decrypter other
    with_vm (as_record_layer e.preprocess)

  unfoldable pub set_keys : Locks → H → H → H → H → Step (Session V H) (Unit {0})
  unfolding unlocked set_ctr_key
  set_keys locks client_write_key client_iv server_write_key server_iv = do
    unlocked locks.encrypter other
    unlocked locks.decrypter other
    with_vm (λ v. (ok tt, e.set_key Side.encrypter client_write_key client_iv v))
    with_vm (λ v. (ok tt, e.set_key Side.decrypter server_write_key server_iv v))
    modify (λ l. record l { aes_ctr = set_ctr_key server_write_key server_iv l.aes_ctr })

  unfoldable pub setup : Locks → Step (Session V H) (Unit {0})
  unfolding unlocked
  setup locks = do
    unlocked locks.encrypter other
    unlocked locks.decrypter other
    with_vm (as_record_layer e.setup)

  -- The pad of the online state is the one that `decrypt_mpc` takes from.
  unfoldable pub with_pad {ℓ} : {A : Type ℓ} → Step (Padded V) A → Step (Session V H) A
  with_pad m s =
      let (r, p) = m (record { vm = s.vm; otp = pad_of s.layer.state }) in
      (r, record { layer = record (s.layer) { state = set_pad p.otp s.layer.state }; vm = p.vm })

  -- The loop of `flush` over the encrypted records. `zip` ends with the shorter list.
  unfoldable pub record_sent :
      List EncryptOp
      → List (PendingEncrypt H)
      → Option (List (List ℕ))
      → Step (Session V H) (Unit {0})
  unfolding encrypted_record sent_record try_encrypt
  record_sent [] ps tags = pure tt
  record_sent (op ∷ ops) [] tags = pure tt
  record_sent (op ∷ ops) (p ∷ ps) tags = do
    ciphertext ← with_vm (try_encrypt p.output)
    modify (λ l. record l {
      encrypted_buffer = l.encrypted_buffer ++ encrypted_record op ciphertext (next_tag tags) ∷ [];
      state = add_sent (sent_record op p ciphertext) l.state;
    })
    record_sent ops ps (rest_tags tags)

  -- The loop of `flush` over the decrypted records.
  unfoldable pub record_received :
      List DecryptOp → List (DecryptOutput H) → Step (Session V H) (Unit {0})
  unfolding plain_record recv_record try_decrypt
  record_received [] ps = pure tt
  record_received (op ∷ ops) [] = pure tt
  record_received (op ∷ ops) (p ∷ ps) = do
    plaintext ← with_vm (try_decrypt p)
    modify (λ l. record l {
      decrypted_buffer = l.decrypted_buffer ++ plain_record op plaintext ∷ [];
      state = add_recv (recv_record op plaintext) l.state;
    })
    record_received ops ps

  -- `flush` from the encryption on.
  unfoldable pub process : List EncryptOp → List DecryptOp → Step (Session V H) (Unit {0})
  unfolding record_sent record_received with_pad
  process encrypt_ops decrypt_ops = do
    (pending_encrypt, compute_tags) ← with_vm (encrypt encrypt_ops)
    pending_decrypt ← with_pad (decrypt_mpc decrypt_ops)
    check_tags ← with_vm (verify_tags decrypt_ops)
    tags ← with_vm (as_record_layer (e.run_join compute_tags check_tags))
    record_sent encrypt_ops pending_encrypt tags
    record_received decrypt_ops pending_decrypt

  -- `flush` from the check of the buffers on, with the drained operations.
  unfoldable pub flush_ops : Bool → List EncryptOp → List DecryptOp → Step (Session V H) (Unit {0})
  unfolding process
  flush_ops is_decrypting encrypt_ops decrypt_ops s =
      if is_nil encrypt_ops && is_nil decrypt_ops
      then (ok tt, s)
      else if is_decrypting
          && ltb s.layer.max_recv_online (usize_add s.layer.recv_online (total_len decrypt_ops))
      then (err record_layer, s)
      else process encrypt_ops decrypt_ops (record s {
        layer = record (s.layer) {
          recv_online =
              if is_decrypting
              then usize_add s.layer.recv_online (total_len decrypt_ops)
              else s.layer.recv_online;
        };
      })

  unfoldable pub flush : Locks → Bool → Step (Session V H) (Unit {0})
  unfolding unlocked is_online flush_ops
  flush locks is_decrypting = do
    s ← get_layer
    guard (is_online s.state) state
    unlocked locks.vm record_layer
    unlocked locks.encrypter record_layer
    unlocked locks.decrypter record_layer
    modify (λ l. record l {
      encrypt_buffer = [];
      decrypt_buffer = kept is_decrypting l.decrypt_buffer;
    })
    flush_ops is_decrypting s.encrypt_buffer (due is_decrypting s.decrypt_buffer)

  -- The loop of `commit`; the received records are a local variable.
  unfoldable pub commit_received :
      List DecryptOp
      → List (DecryptOutput H)
      → List (Record H)
      → Step (Session V H) (List (Record H))
  unfolding plain_record recv_record try_decrypt
  commit_received [] ps recv = pure recv
  commit_received (op ∷ ops) [] recv = pure recv
  commit_received (op ∷ ops) (p ∷ ps) recv = do
    plaintext ← with_vm (try_decrypt p)
    modify
        (λ l. record l { decrypted_buffer = l.decrypted_buffer ++ plain_record op plaintext ∷ [] })
    commit_received ops ps (recv ++ recv_record op plaintext ∷ [])

  -- `commit` from the take of the buffer on, with the operations that it took.
  unfoldable pub commit_ops :
      List DecryptOp → List (Record H) → List (Record H) → Step (Session V H) (TlsTranscript H)
  unfolding commit_received
  commit_ops ops sent recv = do
    check_tags ← with_vm (verify_tags ops)
    with_vm (as_record_layer e.execute_all)
    with_vm (as_record_layer (e.run_verify check_tags))
    with_ctr decode_key
    with_vm (as_record_layer e.flush)
    with_ctr finish_decode
    s ← get_layer
    pending ← with_vm (decrypt_local s.role s.aes_ctr ops)
    with_vm (as_record_layer e.execute_all)
    recv' ← commit_received ops pending recv
    modify (λ l. record l { state = complete })
    pure (record { sent = sent; recv = recv' })

  unfoldable pub commit : Locks → Step (Session V H) (TlsTranscript H)
  unfolding unlocked expect_online commit_ops
  commit locks = do
    st ← take_state
    (sent, recv) ← lift (expect_online st)
    s ← get_layer
    guard (is_nil s.encrypt_buffer) state
    unlocked locks.vm record_layer
    unlocked locks.decrypter record_layer
    modify (λ l. record l { decrypt_buffer = [] })
    commit_ops s.decrypt_buffer sent recv
