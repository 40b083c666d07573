-- ===== src/MpcTls/Decrypt/Pads.antt =====
-- tlsn/crates/mpc-tls/src/record_layer/decrypt.rs: every byte of the one-time pad is taken at most once.
use ethdam_rope.Prelude.{
  subst, ℕ, zero, suc, ◌-◌, ◌≡◌, refl, Option, none, some, List, [], ◌∷◌, ◌++◌, length, take, drop,
  ok, err, sym, ap, append_assoc, append-nil,
}
use ethdam_rope.MpcTls.Errors.{
  Fallible, Step, WhenOk, WhenOk-and_then, WhenOk-result, WhenOk-guard, WhenOk-any, WhenOk-map,
  WhenOk-eq_ok, record_layer, as_record_layer,
}
use ethdam_rope.MpcTls.Engine.{Engine, Side}
use ethdam_rope.MpcTls.Decrypt.{
  DecryptMode, DecryptOp, DecryptOutput, Padded, check_pad, assign_if, decrypt_op, pad_left,
  pad_taken, private_mpc, public_mpc, decrypt_mpc, on_vm,
}

-- The bytes of the pad that the outputs have, those of the last output first.
abbrev pub pads : {H : Type 0} → List (DecryptOutput H) → List ℕ
pads [] = []
pads (DecryptOutput.private future (some otp) ciphertext ∷ outs) = pads outs ++ otp
pads (_ ∷ outs) = pads outs

-- What is left and what the outputs have makes up the pad.
abbrev pub Splits :
    {H : Type 0} → Option (List ℕ) → List (DecryptOutput H) → Option (List ℕ) → Type 0
Splits none outs left = left ≡ none
Splits (some otp) outs left = (rest : List ℕ) × (left ≡ some rest) × (rest ++ pads outs ≡ otp)

take-drop : (n : ℕ) (xs : List ℕ) → take n xs ++ drop n xs ≡ xs
take-drop zero xs = refl
take-drop (suc n) [] = refl
take-drop (suc n) (x ∷ xs) = ap (λ (ys : List ℕ). x ∷ ys) (take-drop n xs)

Splits-pad :
    {H : Type 0} (otp : Option (List ℕ)) (n : ℕ) (future : H) (ciphertext : List ℕ)
    → Splits otp (DecryptOutput.private future (pad_taken n otp) ciphertext ∷ []) (pad_left n otp)
Splits-pad none n future ciphertext = refl
Splits-pad (some otp) n future ciphertext =
    (take (length otp - n) otp, refl, take-drop (length otp - n) otp)

Splits-nil : (H : Type 0) (otp : Option (List ℕ)) → Splits {H = H} otp [] otp
Splits-nil H none = refl
Splits-nil H (some otp) = (otp, refl, append-nil otp)

-- The pads of the first output follow those of the others.
pads-cons :
    {H : Type 0} (out : DecryptOutput H) (outs : List (DecryptOutput H))
    → pads (out ∷ outs) ≡ pads outs ++ pads (out ∷ [])
pads-cons (DecryptOutput.private future (some otp) ciphertext) outs = refl
pads-cons (DecryptOutput.private future none ciphertext) outs = sym (append-nil (pads outs))
pads-cons (DecryptOutput.public future ciphertext) outs = sym (append-nil (pads outs))
pads-cons (DecryptOutput.local plaintext) outs = sym (append-nil (pads outs))

Splits-cons :
    {H : Type 0} (a b c : Option (List ℕ)) (out : DecryptOutput H) (outs : List (DecryptOutput H))
    → Splits a (out ∷ []) b
    → Splits b outs c
    → Splits a (out ∷ outs) c
Splits-cons none b c out outs h k = subst (λ x. Splits x outs c) h k
Splits-cons (some otp) b c out outs (rest, e, f) k =
    let (left, g, join) = subst (λ x. Splits x outs c) e k in
    (left, g, rw (pads-cons out outs, ← append_assoc, join) f)

Splits-none :
    {H : Type 0} (otp : Option (List ℕ)) (out : DecryptOutput H)
    → pads (out ∷ []) ≡ []
    → Splits otp (out ∷ []) otp
Splits-none none out h = refl
Splits-none (some otp) out h = (otp, refl, rw (h, append-nil) refl)

-- What holds of the value of a step of the virtual machine, and that it leaves the pad.
on_vm_value :
    {V A : Type 0} (Q : A → Type 0) (p : Fallible A × V) (s : Padded V)
    → WhenOk (λ a v. Q a) p
    → WhenOk (λ a t. Q a × (t.otp ≡ s.otp)) (p.0, record s { vm = p.1 })
on_vm_value Q (ok a, v) s q = (q, refl)
on_vm_value Q (err x, v) s q = tt

-- A step of the virtual machine leaves the pad.
on_vm_otp :
    {V A : Type 0} (otp : Option (List ℕ)) (m : Step V A) (s : Padded V)
    → s.otp ≡ otp
    → WhenOk (λ a t. t.otp ≡ otp) (on_vm m s)
on_vm_otp otp m s h =
    WhenOk-result (λ a t. t.otp ≡ otp) (m s.vm).0 (record s { vm = (m s.vm).1 }) (λ a. h)

module _ {V : Type 0} (H : Type 0) ⦃e : Engine V H⦄ where
  private_mpc_pad :
      (op : DecryptOp) (s : Padded V)
      → WhenOk (λ out t. Splits {H = H} s.otp (out ∷ []) t.otp) (private_mpc op s)
  unfolding private_mpc
  private_mpc_pad op s =
      let n = length op.ciphertext in
      let Q : DecryptOutput H → Padded V → Type 0 = λ out t. Splits s.otp (out ∷ []) t.otp in
      WhenOk-and_then (λ u t. t.otp ≡ s.otp) Q (check_pad op.ciphertext s) _
        (WhenOk-guard (λ t. t.otp ≡ s.otp) _ record_layer s refl)
        (λ u s1 e1.
          WhenOk-and_then (λ r t. t.otp ≡ s.otp) Q
            (on_vm (as_record_layer (e.apply_keystream Side.decrypter op.explicit_nonce n)) s1) _
            (on_vm_otp s.otp
              (as_record_layer (e.apply_keystream Side.decrypter op.explicit_nonce n)) s1 e1)
            (λ r s2 e2.
              let left = pad_left n s2.otp in
              WhenOk-and_then (λ u t. t.otp ≡ left) Q
                (on_vm (assign_if r.0 (pad_taken n s2.otp)) (record s2 { otp = left })) _
                (on_vm_otp left (assign_if r.0 (pad_taken n s2.otp)) (record s2 { otp = left })
                  refl)
                (λ u s3 e3.
                  WhenOk-and_then (λ u t. t.otp ≡ left) Q
                    (on_vm (as_record_layer (e.commit r.0)) s3) _
                    (on_vm_otp left (as_record_layer (e.commit r.0)) s3 e3)
                    (λ u s4 e4.
                      WhenOk-and_then (λ u t. t.otp ≡ left) Q
                        (on_vm (as_record_layer (e.decode r.1)) s4) _
                        (on_vm_otp left (as_record_layer (e.decode r.1)) s4 e4)
                        (λ future s5 e5. rw (e5, e2) (Splits-pad s.otp n future op.ciphertext))))))

  public_mpc_pad :
      (op : DecryptOp) (s : Padded V)
      → WhenOk (λ out t. Splits {H = H} s.otp (out ∷ []) t.otp) (on_vm (public_mpc op) s)
  unfolding public_mpc
  public_mpc_pad op s =
      let Q : DecryptOutput H → Type 0 = λ out. pads (out ∷ []) ≡ [] in
      let n = length op.ciphertext in
      let value : WhenOk (λ out v. Q out) (public_mpc op s.vm) =
        WhenOk-any (λ out v. Q out)
          (as_record_layer (e.take_keystream Side.decrypter op.explicit_nonce n) s.vm) _
          (λ ks v.
            WhenOk-any (λ out v. Q out) (as_record_layer (e.decode ks) v) _ (λ future w. refl)) in
      WhenOk-map (λ out t. Q out × (t.otp ≡ s.otp)) (λ out t. Splits s.otp (out ∷ []) t.otp)
        (on_vm (public_mpc op) s) (on_vm_value Q (public_mpc op s.vm) s value)
        (λ out t h. rw h.1 (Splits-none s.otp out h.0))

  decrypt_op_pad :
      (mode : DecryptMode) (op : DecryptOp) (s : Padded V)
      → WhenOk (λ out t. Splits {H = H} s.otp (out ∷ []) t.otp) (decrypt_op mode op s)
  decrypt_op_pad DecryptMode.private op s = private_mpc_pad op s
  decrypt_op_pad DecryptMode.public op s = public_mpc_pad op s

  decrypt_mpc_pad :
      (ops : List DecryptOp) (s : Padded V)
      → WhenOk (λ outs t. Splits {H = H} s.otp outs t.otp) (decrypt_mpc ops s)
  unfolding decrypt_mpc
  decrypt_mpc_pad [] s = Splits-nil H s.otp
  decrypt_mpc_pad (op ∷ ops) s =
      let Q : List (DecryptOutput H) → Padded V → Type 0 = λ outs t. Splits s.otp outs t.otp in
      WhenOk-and_then (λ out t. Splits s.otp (out ∷ []) t.otp) Q (decrypt_op op.mode op s) _
        (decrypt_op_pad op.mode op s)
        (λ out s1 h.
          WhenOk-and_then (λ outs t. Splits s1.otp outs t.otp) Q (decrypt_mpc ops s1) _
            (decrypt_mpc_pad ops s1) (λ outs s2 k. Splits-cons s.otp s1.otp s2.otp out outs h k))

module _ {V H : Type 0} ⦃e : Engine V H⦄ where
  -- When `decrypt_mpc` succeeds on the leader's pad, the pads of the outputs and what is left of it
  -- make it up: the pads, those of the last record first, stand behind what is left, so no byte of
  -- the pad is used for two records.
  pub decrypt_mpc_splits :
      (ops : List DecryptOp) (s : Padded V) {otp : List ℕ} {outs : List (DecryptOutput H)}
      {t : Padded V}
      → s.otp ≡ some otp
      → decrypt_mpc ops s ≡ (ok outs, t)
      → (left : List ℕ) × (t.otp ≡ some left) × (left ++ pads outs ≡ otp)
  decrypt_mpc_splits ops s {otp} {outs} {t} h e =
      let all =
        WhenOk-eq_ok (λ outs t. Splits s.otp outs t.otp) (decrypt_mpc ops s)
          (decrypt_mpc_pad H ops s) e in
      subst (λ x. Splits x outs t.otp) h all
