-- ===== src/MpcTls/Session/Commit.antt =====
-- What `commit` returns.
use ethdam_rope.Prelude.{
  ℕ, suc, ◌≡◌, refl, ◌∙◌, arith, List, [], ◌∷◌, ◌++◌, length, is_nil, Option, ok, err, sym, ap,
  append_assoc, append-nil,
}
use ethdam_rope.MpcTls.Errors.{
  Role, Fallible, WhenOk, WhenOk-and_then, WhenOk-any, WhenOk-map, WhenOk-eq_ok, state,
  record_layer, guard, as_record_layer,
}
use ethdam_rope.MpcTls.Records.{Record, TlsTranscript}
use ethdam_rope.MpcTls.Engine.{Engine}
use ethdam_rope.MpcTls.Decrypt.{
  DecryptOp, DecryptOutput, decrypt_local, local_op, try_decrypt, verify_tags,
}
use ethdam_rope.MpcTls.AesCtr.{AesCtr, decode_key, finish_decode}
use ethdam_rope.MpcTls.RecordLayer.{online, complete}
use ethdam_rope.MpcTls.Queue.{
  Session, Locks, with_vm, with_ctr, unlocked, expect_online, recv_record,
}
use ethdam_rope.MpcTls.Session.Lifecycle.{failed}
use ethdam_rope.MpcTls.Session.{commit, commit_ops, commit_received}

-- One record for each operation, in order, with its number, type, nonce and ciphertext.
abbrev pub Opened : {H : Type 0} → List DecryptOp → List (Record H) → Type 0
Opened [] [] = Unit {0}
Opened [] (r ∷ rs) = ⊥
Opened (op ∷ ops) [] = ⊥
Opened (op ∷ ops) (r ∷ rs) =
    (r.seq ≡ op.seq)
    × (r.typ ≡ op.typ)
    × (r.explicit_nonce ≡ op.explicit_nonce)
    × (r.ciphertext ≡ op.ciphertext)
    × Opened ops rs

-- The records after the first are those that the operations gave.
abbrev pub Extends : {H : Type 0} → List DecryptOp → List (Record H) → List (Record H) → Type 0
Extends {H} ops before all = (new : List (Record H)) × Opened ops new × (all ≡ before ++ new)

WhenOk-with_vm :
    {V H A : Type 0} (Q : A → Type 0) (p : Fallible A × V) (s : Session V H)
    → WhenOk (λ a v. Q a) p
    → WhenOk (λ a t. Q a) (p.0, record s { vm = p.1 })
WhenOk-with_vm Q (ok a, v) s q = q
WhenOk-with_vm Q (err x, v) s q = tt

module _ {V : Type 0} (H : Type 0) ⦃e : Engine V H⦄ where
  length-decrypt_local :
      (role : Role) (ctr : AesCtr H) (ops : List DecryptOp) (v : V)
      → WhenOk (λ outs w. length outs ≡ length ops) (decrypt_local role ctr ops v)
  unfolding decrypt_local
  length-decrypt_local role ctr [] v = refl
  length-decrypt_local role ctr (op ∷ ops) v =
      let Q : List (DecryptOutput H) → V → Type 0 = λ outs w. length outs ≡ length (op ∷ ops) in
      WhenOk-any Q (local_op role ctr op.mode op v) _ (λ out w.
        WhenOk-and_then (λ outs w. length outs ≡ length ops) Q (decrypt_local role ctr ops w) _
          (length-decrypt_local role ctr ops w) (λ outs w h. ap suc h))

  commit_received-Extends :
      (ops : List DecryptOp) (outs : List (DecryptOutput H)) (recv : List (Record H))
      (s : Session V H)
      → length outs ≡ length ops
      → WhenOk (λ all t. Extends ops recv all) (commit_received ops outs recv s)
  unfolding commit_received recv_record
  commit_received-Extends [] outs recv s l = ([], tt, sym (append-nil recv))
  commit_received-Extends (op ∷ ops) [] recv s l = absurd (omega arith)
  commit_received-Extends (op ∷ ops) (out ∷ outs) recv s l =
      WhenOk-any (λ all t. Extends (op ∷ ops) recv all) (with_vm (try_decrypt out) s) _
        (λ plaintext t.
          WhenOk-map (λ all u. Extends ops (recv ++ recv_record op plaintext ∷ []) all)
            (λ all u. Extends (op ∷ ops) recv all)
            (commit_received ops outs (recv ++ recv_record op plaintext ∷ []) _)
            (commit_received-Extends ops outs (recv ++ recv_record op plaintext ∷ []) _
              (omega arith))
            (λ all u x. (
              recv_record op plaintext ∷ x.0,
              (refl, refl, refl, refl, x.1),
              x.2 ∙ append_assoc recv (recv_record op plaintext ∷ []) x.0,
            )))

  -- What `commit` makes of the received operations.
  abbrev Commits :
      List DecryptOp → List (Record H) → List (Record H) → TlsTranscript H → Session V H → Type 0
  Commits ops sent recv t s = (t.sent ≡ sent) × Extends ops recv t.recv × (s.layer.state ≡ complete)

  commit_ops-Commits :
      (ops : List DecryptOp) (sent recv : List (Record H)) (s : Session V H)
      → WhenOk (Commits ops sent recv) (commit_ops ops sent recv s)
  unfolding commit_ops
  commit_ops-Commits ops sent recv s =
      let Q = Commits ops sent recv in
      WhenOk-any Q (with_vm (verify_tags ops) s) _ (λ c s1.
        WhenOk-any Q (with_vm (as_record_layer e.execute_all) s1) _ (λ u s2.
          WhenOk-any Q (with_vm (as_record_layer (e.run_verify c)) s2) _ (λ u s3.
            WhenOk-any Q (with_ctr decode_key s3) _ (λ u s4.
              WhenOk-any Q (with_vm (as_record_layer e.flush) s4) _ (λ u s5.
                WhenOk-any Q (with_ctr finish_decode s5) _ (λ u s6.
                  WhenOk-and_then (λ outs t. length outs ≡ length ops) Q
                    (with_vm (decrypt_local s6.layer.role s6.layer.aes_ctr ops) s6) _
                    (WhenOk-with_vm (λ outs. length outs ≡ length ops)
                      (decrypt_local s6.layer.role s6.layer.aes_ctr ops s6.vm) s6
                      (length-decrypt_local s6.layer.role s6.layer.aes_ctr ops s6.vm))
                    (λ outs s7 l.
                      WhenOk-any Q (with_vm (as_record_layer e.execute_all) s7) _ (λ u s8.
                        WhenOk-and_then (λ all t. Extends ops recv all) Q
                          (commit_received ops outs recv s8) _
                          (commit_received-Extends ops outs recv s8 l)
                          (λ all s9 x. (refl, x, refl))))))))))

  commit-Commits :
      (locks : Locks) (s : Session V H) (otp : Option (List ℕ)) (sent recv : List (Record H))
      → s.layer.state ≡ online otp sent recv
      → WhenOk (Commits s.layer.decrypt_buffer sent recv) (commit locks s)
  unfolding commit expect_online
  commit-Commits locks s otp sent recv on =
      let Q = Commits s.layer.decrypt_buffer sent recv in
      rw on (
        WhenOk-any Q (guard (is_nil s.layer.encrypt_buffer) state (failed s)) _ (λ u s1.
          WhenOk-any Q (unlocked locks.vm record_layer s1) _ (λ u s2.
            WhenOk-any Q (unlocked locks.decrypter record_layer s2) _
              (λ u s3. commit_ops-Commits s.layer.decrypt_buffer sent recv _))))

module _ {V H : Type 0} ⦃e : Engine V H⦄ where
  -- When `commit` succeeds on an online layer, the transcript that it returns has the sent records
  -- as they are, and the received ones followed by one record for each operation that was still
  -- buffered, in order and with its number, type, nonce and ciphertext; and the layer is complete.
  pub commit_lem :
      (locks : Locks) (s : Session V H) {otp : Option (List ℕ)} {sent recv : List (Record H)}
      {t : TlsTranscript H} {s' : Session V H}
      → s.layer.state ≡ online otp sent recv
      → commit locks s ≡ (ok t, s')
      → (t.sent ≡ sent) × Extends s.layer.decrypt_buffer recv t.recv × (s'.layer.state ≡ complete)
  commit_lem locks s {otp} {sent} {recv} on h =
      WhenOk-eq_ok (Commits H s.layer.decrypt_buffer sent recv) (commit locks s)
        (commit-Commits H locks s otp sent recv on) h
