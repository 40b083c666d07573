-- ===== src/MpcTls/Session/Drain.antt =====
-- The guards of `flush`: what it does before and instead of the work with the virtual machine.
use ethdam_rope.Prelude.{
  usize_add, ◌≡◌, Bool, true, false, ◌&&◌, if◌then◌else◌, ltb, is_nil, Bool-cases, inl, inr, List,
  [],
}
use ethdam_rope.MpcTls.Engine.{Engine}
use ethdam_rope.MpcTls.Encrypt.{EncryptOp}
use ethdam_rope.MpcTls.Decrypt.{DecryptOp}
use ethdam_rope.MpcTls.RecordLayer.{RecordLayer}
use ethdam_rope.MpcTls.Queue.{Session, Locks, total_len, unlocked, is_online, due, kept}
use ethdam_rope.MpcTls.Session.Keeps.{Ends, Ends-weaken, Ends-always}
use ethdam_rope.MpcTls.Session.{process, flush, flush_ops}

module _ {V H : Type 0} where
  -- The session with its buffers drained.
  abbrev pub drained : Bool → Session V H → Session V H
  drained b s = record s {
    layer = record (s.layer) {
      encrypt_buffer = [];
      decrypt_buffer = kept b s.layer.decrypt_buffer;
    };
  }

  -- The session with the received bytes counted.
  abbrev pub counted : Bool → List DecryptOp → Session V H → Session V H
  counted b rops s = record s {
    layer = record (s.layer) {
      recv_online =
          if b then usize_add s.layer.recv_online (total_len rops) else s.layer.recv_online;
    };
  }

module _ {V H : Type 0} ⦃e : Engine V H⦄ where
  pub flush_ops-Ends :
      (P Q : RecordLayer H → Type 0) (b : Bool) (ops : List EncryptOp) (rops : List DecryptOp)
      (s : Session V H)
      → ((l : RecordLayer H) → Q l → P l)
      → P s.layer
      → ((is_nil ops && is_nil rops) ≡ true → Q s.layer)
      → ((b && ltb s.layer.max_recv_online (usize_add s.layer.recv_online (total_len rops))) ≡ false
          → Q (process ops rops (counted b rops s)).1.layer)
      → Ends P Q (flush_ops b ops rops s)
  unfolding flush_ops
  flush_ops-Ends P Q b ops rops s weaken p none k = elim (Bool-cases (is_nil ops && is_nil rops)) [
    | inl idle ↦ rw idle (none idle)
    | inr busy ↦
        elim (Bool-cases
          (b && ltb s.layer.max_recv_online (usize_add s.layer.recv_online (total_len rops)))) [
            | inl over ↦ rw (busy, over) p
            | inr fits ↦
                rw (busy, fits)
                  (Ends-always P Q (process ops rops (counted b rops s)) weaken (k fits))
          ]
  ]

  pub flush_ops_cases :
      (P : RecordLayer H → Type 0) (b : Bool) (ops : List EncryptOp) (rops : List DecryptOp)
      (s : Session V H)
      → P s.layer
      → ((b && ltb s.layer.max_recv_online (usize_add s.layer.recv_online (total_len rops))) ≡ false
          → P (process ops rops (counted b rops s)).1.layer)
      → P (flush_ops b ops rops s).1.layer
  flush_ops_cases P b ops rops s p k =
      Ends-weaken P P (flush_ops b ops rops s) (λ l q. q)
        (flush_ops-Ends P P b ops rops s (λ l q. q) p (λ idle. p) k)

  pub flush-Ends :
      (P Q : RecordLayer H → Type 0) (locks : Locks) (b : Bool) (s : Session V H)
      → P s.layer
      → Ends P Q (flush_ops b s.layer.encrypt_buffer (due b s.layer.decrypt_buffer) (drained b s))
      → Ends P Q (flush locks b s)
  unfolding flush is_online unlocked
  flush-Ends P Q locks b s p k = elim (Bool-cases (is_online s.layer.state)) [
    | inr off ↦ rw off p
    | inl on ↦ elim (Bool-cases locks.vm) [
      | inl held ↦ rw (on, held) p
      | inr vm_free ↦ elim (Bool-cases locks.encrypter) [
        | inl held ↦ rw (on, vm_free, held) p
        | inr enc_free ↦ elim (Bool-cases locks.decrypter) [
          | inl held ↦ rw (on, vm_free, enc_free, held) p
          | inr dec_free ↦ rw (on, vm_free, enc_free, dec_free) k
        ]
      ]
    ]
  ]

  pub flush_guards :
      (P : RecordLayer H → Type 0) (locks : Locks) (b : Bool) (s : Session V H)
      → P s.layer
      → P (flush_ops b s.layer.encrypt_buffer (due b s.layer.decrypt_buffer) (drained b s)).1.layer
      → P (flush locks b s).1.layer
  flush_guards P locks b s p k =
      let run = flush_ops b s.layer.encrypt_buffer (due b s.layer.decrypt_buffer) (drained b s) in
      Ends-weaken P P (flush locks b s) (λ l q. q)
        (flush-Ends P P locks b s p (Ends-always P P run (λ l q. q) k))
