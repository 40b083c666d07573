-- ===== src/MpcTls/Session/Lifecycle.antt =====
-- The methods that allocate, set keys and commit keep the numbering of the records.
use ethdam_rope.Prelude.{usize_add, ℕ, refl, ◌≡◌, Option, true, is_nil, List, [], ◌∷◌, ◌++◌}
use ethdam_rope.MpcTls.Errors.{
  Role, leader, follower, other, record_layer, state, guard, lift, as_record_layer,
}
use ethdam_rope.MpcTls.Engine.{Engine, Side}
use ethdam_rope.MpcTls.Decrypt.{DecryptOp, DecryptOutput, try_decrypt, verify_tags, decrypt_local}
use ethdam_rope.MpcTls.Records.{Record, PlainRecord}
use ethdam_rope.MpcTls.AesCtr.{AesCtr, alloc_ctr, decode_key, finish_decode}
use ethdam_rope.MpcTls.RecordLayer.{RecordLayer, LayerState, online, complete, error}
use ethdam_rope.MpcTls.Queue.{
  Session, Locks, with_vm, with_ctr, unlocked, is_closed, expect_init, expect_online, plain_record,
  recv_record,
}
use ethdam_rope.MpcTls.Session.Keeps.{
  Leaves, keep, Ends, and_then-Ends, Ends-weaken, unlocked-Leaves, guard-Leaves,
}
use ethdam_rope.MpcTls.Session.{
  alloc_layer, preprocess, set_keys, setup, commit, commit_ops, commit_received, with_new_pad,
}

-- What the methods that prepare and end a session change of the layer leaves `P`.
pub record Stable {H : Type 0} (P : RecordLayer H → Type 0) : Type 0 where
  pub dropped :
      (l : RecordLayer H) (st : LayerState H)
      → is_closed st ≡ true
      → P l
      → P (record l { state = st })
  pub keyed : (l : RecordLayer H) (c : AesCtr H) → P l → P (record l { aes_ctr = c })
  pub decrypted :
      (l : RecordLayer H) (rs : List PlainRecord) → P l → P (record l { decrypted_buffer = rs })
  pub emptied : (l : RecordLayer H) → P l → P (record l { decrypt_buffer = [] })

-- What `alloc` changes of the layer when it succeeds.
abbrev pub grown : {H : Type 0} → ℕ → ℕ → ℕ → Option (List ℕ) → RecordLayer H → RecordLayer H
grown sent_len online_len recv_len pad l = record l {
  max_sent = usize_add l.max_sent sent_len;
  max_recv_online = usize_add l.max_recv_online online_len;
  max_recv = usize_add l.max_recv recv_len;
  state = online pad [] [];
}

-- It leaves `P`.
abbrev pub Grows : {H : Type 0} → (RecordLayer H → Type 0) → Type 0
Grows {H} P =
    (l : RecordLayer H) (sent_len online_len recv_len : ℕ) (pad : Option (List ℕ))
    → P l
    → P (grown sent_len online_len recv_len pad l)

module _ {V H : Type 0} where
  -- `self.state.take()`
  abbrev pub failed : Session V H → Session V H
  failed s = record s { layer = record (s.layer) { state = error } }

module _ {V H : Type 0} ⦃e : Engine V H⦄ where
  with_new_pad-Leaves :
      (P : RecordLayer H → Type 0) (role : Role) (len : ℕ)
      → Leaves {V = V} P P (with_new_pad role len)
  unfolding with_new_pad
  with_new_pad-Leaves P leader len s p = keep P (with_vm (e.random len) s) _ p (λ a s' p'. p')
  with_new_pad-Leaves P follower len s p = p

  commit_received-Leaves :
      (P : RecordLayer H → Type 0) (ops : List DecryptOp) (ps : List (DecryptOutput H))
      (recv : List (Record H))
      → ((l : RecordLayer H) (r : List PlainRecord) → P l → P (record l { decrypted_buffer = r }))
      → Leaves {V = V} P P (commit_received ops ps recv)
  unfolding commit_received
  commit_received-Leaves P [] ps recv h s p = p
  commit_received-Leaves P (op ∷ ops) [] recv h s p = p
  commit_received-Leaves P (op ∷ ops) (q ∷ qs) recv h s p =
      keep P (with_vm (try_decrypt q) s) _ p (λ c s1 p1.
        commit_received-Leaves P ops qs (recv ++ recv_record op c ∷ []) h _
          (h s1.layer (s1.layer.decrypted_buffer ++ plain_record op c ∷ []) p1))

module _ {V H : Type 0} ⦃e : Engine V H⦄ (P : RecordLayer H → Type 0) (k : Stable P) where
  pub preprocess-Leaves :
      (locks : Locks) (s : Session V H) → P s.layer → P (preprocess locks s).1.layer
  unfolding preprocess
  preprocess-Leaves locks s n =
      keep P (unlocked locks.encrypter other s) _ (unlocked-Leaves P locks.encrypter other s n)
        (λ u s1 n1.
          keep P (unlocked locks.decrypter other s1) _
            (unlocked-Leaves P locks.decrypter other s1 n1) (λ u s2 n2. n2))

  pub setup-Leaves : (locks : Locks) (s : Session V H) → P s.layer → P (setup locks s).1.layer
  unfolding setup
  setup-Leaves locks s n =
      keep P (unlocked locks.encrypter other s) _ (unlocked-Leaves P locks.encrypter other s n)
        (λ u s1 n1.
          keep P (unlocked locks.decrypter other s1) _
            (unlocked-Leaves P locks.decrypter other s1 n1) (λ u s2 n2. n2))

  pub set_keys-Leaves :
      (locks : Locks) (ck ci sk si : H) (s : Session V H)
      → P s.layer
      → P (set_keys locks ck ci sk si s).1.layer
  unfolding set_keys
  set_keys-Leaves locks ck ci sk si s n =
      keep P (unlocked locks.encrypter other s) _ (unlocked-Leaves P locks.encrypter other s n)
        (λ u s1 n1.
          keep P (unlocked locks.decrypter other s1) _
            (unlocked-Leaves P locks.decrypter other s1 n1) (λ u s2 n2. k.keyed s2.layer _ n2))

  commit_ops-Leaves :
      (ops : List DecryptOp) (sent recv : List (Record H))
      → Leaves {V = V} {H = H} P P (commit_ops ops sent recv)
  unfolding commit_ops verify_tags
  commit_ops-Leaves ops sent recv s n = keep P (with_vm (verify_tags ops) s) _ n (λ c s1 n1.
      keep P (with_vm (as_record_layer e.execute_all) s1) _ n1 (λ u s2 n2.
        keep P (with_vm (as_record_layer (e.run_verify c)) s2) _ n2 (λ u s3 n3.
          keep P (with_ctr decode_key s3) _ (k.keyed s3.layer _ n3) (λ u s4 n4.
            keep P (with_vm (as_record_layer e.flush) s4) _ n4 (λ u s5 n5.
              keep P (with_ctr finish_decode s5) _ (k.keyed s5.layer _ n5) (λ u s6 n6.
                keep P (with_vm (decrypt_local s6.layer.role s6.layer.aes_ctr ops) s6) _ n6
                  (λ q s7 n7. keep P (with_vm (as_record_layer e.execute_all) s7) _ n7 (λ u s8 n8.
                    keep P (commit_received ops q recv s8) _
                      (commit_received-Leaves P ops q recv k.decrypted s8 n8)
                      (λ r s9 n9. k.dropped s9.layer complete refl n9)))))))))

  -- `commit` takes the state first of all.
  pub commit-Ends :
      (locks : Locks) (s : Session V H) → P (failed s).layer → P (commit locks s).1.layer
  unfolding commit
  commit-Ends locks s n = keep P (lift (expect_online s.layer.state) (failed s)) _ n (λ p s0 n0.
      keep P (guard (is_nil s0.layer.encrypt_buffer) state s0) _
        (guard-Leaves P (is_nil s0.layer.encrypt_buffer) state s0 n0)
        (λ u s1 n1.
          keep P (unlocked locks.vm record_layer s1) _
            (unlocked-Leaves P locks.vm record_layer s1 n1)
            (λ u s2 n2.
              keep P (unlocked locks.decrypter record_layer s2) _
                (unlocked-Leaves P locks.decrypter record_layer s2 n2)
                (λ u s3 n3.
                  commit_ops-Leaves s0.layer.decrypt_buffer p.0 p.1 _ (k.emptied s3.layer n3)))))

  pub commit-Leaves : (locks : Locks) (s : Session V H) → P s.layer → P (commit locks s).1.layer
  commit-Leaves locks s n = commit-Ends locks s (k.dropped s.layer error refl n)

  -- `alloc` changes the limits only if it succeeds.
  pub alloc-Ends :
      (Q : RecordLayer H → Type 0) (locks : Locks)
      (sent_records recv_records sent_len online_len recv_len : ℕ) (s : Session V H)
      → ((l : RecordLayer H) (pad : Option (List ℕ))
          → P l
          → Q (grown sent_len online_len recv_len pad l))
      → P s.layer
      → Ends P Q (alloc_layer locks sent_records recv_records sent_len online_len recv_len s)
  unfolding alloc_layer
  alloc-Ends Q locks sent_records recv_records sent_len online_len recv_len s grows n =
      and_then-Ends P Q (lift (expect_init s.layer.state) (failed s)) _
        (k.dropped s.layer error refl n)
        (λ u s0 n0.
          and_then-Ends P Q (unlocked locks.encrypter other s0) _
            (unlocked-Leaves P locks.encrypter other s0 n0)
            (λ u s1 n1.
              and_then-Ends P Q (unlocked locks.decrypter other s1) _
                (unlocked-Leaves P locks.decrypter other s1 n1)
                (λ u s2 n2.
                  and_then-Ends P Q
                    (with_vm (as_record_layer (e.alloc Side.encrypter sent_records sent_len)) s2) _
                    n2
                    (λ u s3 n3.
                      and_then-Ends P Q
                        (with_vm (as_record_layer (e.alloc Side.decrypter recv_records online_len))
                          s3)
                        _ n3
                        (λ u s4 n4.
                          and_then-Ends P Q (with_new_pad s4.layer.role online_len s4) _
                            (with_new_pad-Leaves P s4.layer.role online_len s4 n4)
                            (λ pad s5 n5.
                              and_then-Ends P Q (with_ctr alloc_ctr s5) _ (k.keyed s5.layer _ n5)
                                (λ u s6 n6. grows s6.layer pad n6)))))))

  pub alloc-Leaves :
      Grows P
      → (locks : Locks) (sent_records recv_records sent_len online_len recv_len : ℕ)
        (s : Session V H)
      → P s.layer
      → P (alloc_layer locks sent_records recv_records sent_len online_len recv_len s).1.layer
  alloc-Leaves grows locks sent_records recv_records sent_len online_len recv_len s n =
      Ends-weaken P P (alloc_layer locks sent_records recv_records sent_len online_len recv_len s)
        (λ l q. q)
        (alloc-Ends P locks sent_records recv_records sent_len online_len recv_len s
          (λ l pad p. grows l sent_len online_len recv_len pad p) n)
