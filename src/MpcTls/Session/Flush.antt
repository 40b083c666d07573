-- ===== src/MpcTls/Session/Flush.antt =====
-- `flush` keeps the numbering of the records, whether it succeeds or fails.
use ethdam_rope.Prelude.{
  ℕ, ◌≡◌, refl, arith, List, [], ◌∷◌, ◌++◌, Option, Bool, append_assoc, append-nil, ap,
}
use ethdam_rope.MpcTls.Errors.{as_record_layer}
use ethdam_rope.MpcTls.Records.{Record}
use ethdam_rope.MpcTls.Engine.{Engine}
use ethdam_rope.MpcTls.Encrypt.{EncryptOp, PendingEncrypt, try_encrypt, encrypt}
use ethdam_rope.MpcTls.Decrypt.{DecryptOp, DecryptOutput, try_decrypt, decrypt_mpc, verify_tags}
use ethdam_rope.MpcTls.Keys.{Key, Numbered, Numbered-prefix}
use ethdam_rope.MpcTls.RecordLayer.{RecordLayer, LayerState, init, online, complete, error}
use ethdam_rope.MpcTls.RecordLayer.Sequence.{
  IsNumberedTo, op_key, op_keys, record_key, record_keys, sent_of,
}
use ethdam_rope.MpcTls.Queue.{
  Session, with_vm, add_sent, add_recv, encrypted_record, sent_record, rest_tags, plain_record,
  recv_record, set_pad, Locks, due,
}
use ethdam_rope.MpcTls.Session.Keeps.{Leaves, and_then-Leaves}
use ethdam_rope.MpcTls.Session.Drain.{drained, counted, flush_ops_cases, flush_guards}
use ethdam_rope.MpcTls.Session.{record_sent, record_received, process, with_pad, flush, flush_ops}

-- Nothing waits in the buffer, and what was sent and `ops` are numbered.
abbrev pub Pending : {H : Type 0} → ℕ → List EncryptOp → RecordLayer H → Type 0
Pending hi ops l =
    (l.encrypt_buffer ≡ [])
    × (l.write_seq ≡ hi)
    × Numbered 0 hi (record_keys (sent_of l.state) ++ op_keys ops)

Numbered-tail : (hi : ℕ) (k : Key) (ks : List Key) → Numbered 0 hi (k ∷ ks) → Numbered 0 hi ks
Numbered-tail hi k [] n = omega (arith, n.2)
Numbered-tail hi k (j ∷ ks) n = (omega arith, n.2.1, n.2.2)

module _ {H : Type 0} where
  record_keys-append :
      (rs rs' : List (Record H)) → record_keys (rs ++ rs') ≡ record_keys rs ++ record_keys rs'
  record_keys-append [] rs' = refl
  record_keys-append (r ∷ rs) rs' =
      ap (λ (ks : List Key). record_key r ∷ ks) (record_keys-append rs rs')

  Pending-nil :
      (hi : ℕ) (ops : List EncryptOp) (l : RecordLayer H) → Pending hi ops l → Pending hi [] l
  Pending-nil hi ops l (e, w, n) = (
    e,
    w,
    Numbered-prefix 0 hi (record_keys (sent_of l.state) ++ []) (op_keys ops) (rw append-nil n),
  )

  Pending-IsNumbered : (hi : ℕ) (l : RecordLayer H) → Pending hi [] l → IsNumberedTo hi l
  Pending-IsNumbered hi l (e, w, n) = (w, rw e n)

  -- A record of the first pending operation is added to what was sent.
  Numbered-add_sent :
      (hi : ℕ) (op : EncryptOp) (ops : List EncryptOp) (r : Record H) (st : LayerState H)
      → record_key r ≡ op_key op
      → Numbered 0 hi (record_keys (sent_of st) ++ op_keys (op ∷ ops))
      → Numbered 0 hi (record_keys (sent_of (add_sent r st)) ++ op_keys ops)
  Numbered-add_sent hi op ops r (online otp sent recv) e n =
      rw (record_keys-append, append_assoc, e) n
  Numbered-add_sent hi op ops r init e n = Numbered-tail hi (op_key op) (op_keys ops) n
  Numbered-add_sent hi op ops r complete e n = Numbered-tail hi (op_key op) (op_keys ops) n
  Numbered-add_sent hi op ops r error e n = Numbered-tail hi (op_key op) (op_keys ops) n

  sent_of-add_recv : (r : Record H) (st : LayerState H) → sent_of (add_recv r st) ≡ sent_of st
  sent_of-add_recv r (online otp sent recv) = refl
  sent_of-add_recv r init = refl
  sent_of-add_recv r complete = refl
  sent_of-add_recv r error = refl

  sent_of-set_pad :
      (otp : Option (List ℕ)) (st : LayerState H) → sent_of (set_pad otp st) ≡ sent_of st
  sent_of-set_pad otp (online _ sent recv) = refl
  sent_of-set_pad otp init = refl
  sent_of-set_pad otp complete = refl
  sent_of-set_pad otp error = refl

module _ {V H : Type 0} ⦃e : Engine V H⦄ where
  record_sent-Leaves :
      (hi : ℕ) (ops : List EncryptOp) (ps : List (PendingEncrypt H)) (tags : Option (List (List ℕ)))
      → Leaves {V = V} (Pending hi ops) (Pending hi []) (record_sent ops ps tags)
  unfolding record_sent encrypted_record sent_record
  record_sent-Leaves hi [] ps tags s p = p
  record_sent-Leaves hi (op ∷ ops) [] tags s p = Pending-nil hi (op ∷ ops) s.layer p
  record_sent-Leaves hi (op ∷ ops) (q ∷ qs) tags s p =
      and_then-Leaves (Pending hi (op ∷ ops)) (Pending hi []) (with_vm (try_encrypt q.output) s) _ p
        (Pending-nil hi (op ∷ ops))
        (λ c s' p'.
          record_sent-Leaves hi ops qs (rest_tags tags) _
            (p'.0, p'.1, Numbered-add_sent hi op ops (sent_record op q c) s'.layer.state refl p'.2))

  record_received-Leaves :
      (hi : ℕ) (ops : List DecryptOp) (ps : List (DecryptOutput H))
      → Leaves {V = V} (Pending hi []) (Pending hi []) (record_received ops ps)
  unfolding record_received plain_record recv_record
  record_received-Leaves hi [] ps s p = p
  record_received-Leaves hi (op ∷ ops) [] s p = p
  record_received-Leaves hi (op ∷ ops) (q ∷ qs) s p =
      and_then-Leaves (Pending hi []) (Pending hi []) (with_vm (try_decrypt q) s) _ p (λ l n. n)
        (λ c s' p'.
          record_received-Leaves hi ops qs _
            (p'.0, p'.1, rw (sent_of-add_recv (recv_record op c) s'.layer.state) p'.2))

  process-Leaves :
      (hi : ℕ) (ops : List EncryptOp) (rops : List DecryptOp)
      → Leaves {V = V} {H = H} (Pending hi ops) (Pending hi []) (process ops rops)
  unfolding process with_pad
  process-Leaves hi ops rops s p =
      and_then-Leaves (Pending hi ops) (Pending hi []) (with_vm (encrypt ops) s) _ p
        (Pending-nil hi ops)
        (λ a s1 p1.
          and_then-Leaves (Pending hi ops) (Pending hi []) (with_pad (decrypt_mpc rops) s1) _
            (p1.0, p1.1, rw (sent_of-set_pad _ s1.layer.state) p1.2) (Pending-nil hi ops)
            (λ b s2 p2.
              and_then-Leaves (Pending hi ops) (Pending hi []) (with_vm (verify_tags rops) s2) _ p2
                (Pending-nil hi ops)
                (λ c s3 p3.
                  and_then-Leaves (Pending hi ops) (Pending hi [])
                    (with_vm (as_record_layer (e.run_join a.1 c)) s3) _ p3 (Pending-nil hi ops)
                    (λ tags s4 p4.
                      and_then-Leaves (Pending hi []) (Pending hi []) (record_sent ops a.0 tags s4)
                        _ (record_sent-Leaves hi ops a.0 tags s4 p4) (λ l n. n)
                        (λ u. record_received-Leaves hi rops b)))))

  -- `flush` keeps the numbering of the records.
  pub flush-IsNumbered :
      (hi : ℕ) (locks : Locks) (b : Bool) (s : Session V H)
      → IsNumberedTo hi s.layer
      → IsNumberedTo hi (flush locks b s).1.layer
  flush-IsNumbered hi locks b s n =
      let ops = s.layer.encrypt_buffer in
      let rops = due b s.layer.decrypt_buffer in
      let waiting : Pending hi ops (drained b s).layer = (refl, n.0, n.1) in
      flush_guards (IsNumberedTo hi) locks b s n (
        Pending-IsNumbered hi (flush_ops b ops rops (drained b s)).1.layer (
          flush_ops_cases (Pending hi []) b ops rops (drained b s)
            (Pending-nil hi ops (drained b s).layer waiting)
            (λ fits. process-Leaves hi ops rops (counted b rops (drained b s)) waiting)))
