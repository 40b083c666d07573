-- ===== src/MpcTls/Session/Bounds.antt =====
-- The limits hold after a flush.
use ethdam_rope.Prelude.{
  usize_add, ◌<◌, ◌^◌, subst, ℕ, ◌+◌, ◌≡◌, arith, List, [], ◌∷◌, ◌++◌, ltb, Option, true, false,
}
use ethdam_rope.MpcTls.Errors.{as_record_layer}
use ethdam_rope.MpcTls.Engine.{Engine}
use ethdam_rope.MpcTls.Encrypt.{EncryptOp, PendingEncrypt, try_encrypt, encrypt}
use ethdam_rope.MpcTls.Decrypt.{DecryptOp, DecryptOutput, try_decrypt, decrypt_mpc, verify_tags}
use ethdam_rope.MpcTls.RecordLayer.Limits.{IsBounded, Bytecount, Within-add, Fits, ciphertext_len}
use ethdam_rope.MpcTls.Queue.{
  total_len, Session, Locks, with_vm, add_sent, add_recv, encrypted_record, sent_record, next_tag,
  rest_tags, plain_record, recv_record, set_pad, due,
}
use ethdam_rope.MpcTls.Session.Keeps.{Leaves, keep, Ends}
use ethdam_rope.MpcTls.Session.Drain.{
  drained, counted, flush_ops_cases, flush_ops-Ends, flush-Ends, flush_guards,
}
use ethdam_rope.MpcTls.Session.{record_sent, record_received, process, with_pad, flush}
use ethdam_rope.MpcTls.Session.Counts.{
  IsBounded-other, drained-IsBounded, fewer-IsBounded, idle-IsBounded, total_len-fits, idle_len,
  with_online,
}

module _ {V H : Type 0} ⦃e : Engine V H⦄ (used granted : Bytecount) where
  record_sent-IsBounded :
      (ops : List EncryptOp) (ps : List (PendingEncrypt H)) (tags : Option (List (List ℕ)))
      → Leaves {V = V} (IsBounded used granted) (IsBounded used granted) (record_sent ops ps tags)
  unfolding record_sent
  record_sent-IsBounded [] ps tags s b = b
  record_sent-IsBounded (op ∷ ops) [] tags s b = b
  record_sent-IsBounded (op ∷ ops) (q ∷ qs) tags s b =
      keep (IsBounded used granted) (with_vm (try_encrypt q.output) s) _ b (λ c s' b'.
        record_sent-IsBounded ops qs (rest_tags tags) _ (
          IsBounded-other used granted s'.layer (add_sent (sent_record op q c) s'.layer.state)
            s'.layer.aes_ctr
            (s'.layer.encrypted_buffer ++ encrypted_record op c (next_tag tags) ∷ [])
            s'.layer.decrypted_buffer b'))

  record_received-IsBounded :
      (ops : List DecryptOp) (ps : List (DecryptOutput H))
      → Leaves {V = V} (IsBounded used granted) (IsBounded used granted) (record_received ops ps)
  unfolding record_received
  record_received-IsBounded [] ps s b = b
  record_received-IsBounded (op ∷ ops) [] s b = b
  record_received-IsBounded (op ∷ ops) (q ∷ qs) s b =
      keep (IsBounded used granted) (with_vm (try_decrypt q) s) _ b (λ c s' b'.
        record_received-IsBounded ops qs _ (
          IsBounded-other used granted s'.layer (add_recv (recv_record op c) s'.layer.state)
            s'.layer.aes_ctr s'.layer.encrypted_buffer
            (s'.layer.decrypted_buffer ++ plain_record op c ∷ []) b'))

  process-IsBounded :
      (ops : List EncryptOp) (rops : List DecryptOp)
      → Leaves {V = V} {H = H} (IsBounded used granted) (IsBounded used granted) (process ops rops)
  unfolding process with_pad
  process-IsBounded ops rops s b =
      keep (IsBounded used granted) (with_vm (encrypt ops) s) _ b (λ a s1 b1.
        keep (IsBounded used granted) (with_pad (decrypt_mpc rops) s1) _
          (IsBounded-other used granted s1.layer (set_pad _ s1.layer.state) s1.layer.aes_ctr
            s1.layer.encrypted_buffer s1.layer.decrypted_buffer b1)
          (λ p s2 b2. keep (IsBounded used granted) (with_vm (verify_tags rops) s2) _ b2 (λ c s3 b3.
            keep (IsBounded used granted) (with_vm (as_record_layer (e.run_join a.1 c)) s3) _ b3
              (λ tags s4 b4.
                keep (IsBounded used granted) (record_sent ops a.0 tags s4) _
                  (record_sent-IsBounded ops a.0 tags s4 b4)
                  (λ u. record_received-IsBounded rops p)))))

  -- A flush that decrypts counts the ciphertexts that it drains.
  counted-IsBounded :
      (rops : List DecryptOp) (s : Session V H)
      → ltb s.layer.max_recv_online (usize_add s.layer.recv_online (total_len rops)) ≡ false
      → Fits granted
      → ciphertext_len rops < 2 ^ 63
      → IsBounded used granted s.layer
      → IsBounded
          (with_online (ciphertext_len rops + used.online) used)
          granted
          (counted true rops s).layer
  counted-IsBounded rops s fits small len h = record {
    sent = h.sent;
    recv = h.recv;
    online =
        let same = total_len-fits rops (omega (arith, len)) in
        rw same (
          Within-add (ciphertext_len rops) h.online small.online len (
            subst (λ n. ltb s.layer.max_recv_online (usize_add s.layer.recv_online n) ≡ false) same
              fits));
    waiting = h.waiting;
    encrypts = h.encrypts;
    decrypts = h.decrypts;
  }

  -- A flush that does not decrypt online counts nothing.
  pub flush_private-IsBounded :
      (locks : Locks) (s : Session V H)
      → IsBounded used granted s.layer
      → IsBounded used granted (flush locks false s).1.layer
  flush_private-IsBounded locks s h =
      let rops = due false s.layer.decrypt_buffer in
      let start = drained-IsBounded used granted false s.layer h in
      flush_guards (IsBounded used granted) locks false s h (
        flush_ops_cases (IsBounded used granted) false s.layer.encrypt_buffer rops (drained false s)
          start
          (λ fits.
            process-IsBounded s.layer.encrypt_buffer rops (counted false rops (drained false s))
              start))

module _ {V H : Type 0} ⦃e : Engine V H⦄ (used granted : Bytecount) where
  pub flush_online-Ends :
      (locks : Locks) (s : Session V H)
      → Fits granted
      → IsBounded used granted s.layer
      → Ends
          (IsBounded used granted)
          (IsBounded
            (with_online (ciphertext_len s.layer.decrypt_buffer + used.online) used)
            granted)
          (flush locks true s)
  flush_online-Ends locks s small h =
      let rops = s.layer.decrypt_buffer in
      let more = with_online (ciphertext_len rops + used.online) used in
      let len : ciphertext_len rops < 2 ^ 63 =
        omega (arith, h.waiting, h.recv.limited, h.recv.allowed, small.recv) in
      let start = drained-IsBounded used granted true s.layer h in
      flush-Ends (IsBounded used granted) (IsBounded more granted) locks true s h (
        flush_ops-Ends (IsBounded used granted) (IsBounded more granted) true s.layer.encrypt_buffer
          rops (drained true s) (λ l q. fewer-IsBounded used granted (ciphertext_len rops) l q)
          start
          (λ idle.
            idle-IsBounded used granted (ciphertext_len rops) (drained true s).layer
              (idle_len s.layer.encrypt_buffer rops idle) start)
          (λ fits.
            process-IsBounded more granted s.layer.encrypt_buffer rops
              (counted true rops (drained true s))
              (counted-IsBounded used granted rops (drained true s) fits small len start)))
