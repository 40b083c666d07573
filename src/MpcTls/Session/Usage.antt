-- ===== src/MpcTls/Session/Usage.antt =====
-- How many bytes the calls of a session use, and how many are granted to it: those of the calls that
-- succeeded, counted apart from the counters of the record layer and without a wrap.
use ethdam_rope.Prelude.{ℕ, ◌<◌, ◌^◌, arith, true, length, ok, err}
use ethdam_rope.MpcTls.Errors.{Fallible}
use ethdam_rope.MpcTls.Engine.{Engine}
use ethdam_rope.MpcTls.RecordLayer.{push_encrypt, push_decrypt}
use ethdam_rope.MpcTls.RecordLayer.Limits.{
  Bytecount, Fits, plus_accepted, ciphertext_len, with_sent, with_recv,
}
use ethdam_rope.MpcTls.Queue.{Session}
use ethdam_rope.MpcTls.Session.{alloc_layer, flush}
use ethdam_rope.MpcTls.Session.Counts.{with_online, grant}
use ethdam_rope.MpcTls.Session.Reach.{
  Call, Reached, fresh, later, allocs, pushes_encrypt, pushes_decrypt, flushes,
}

-- What an `alloc` with this result grants.
abbrev pub grant_accepted {ℓ} : {A : Type ℓ} → Fallible A → ℕ → ℕ → ℕ → Bytecount → Bytecount
grant_accepted (ok _) sent_len online_len recv_len c = grant sent_len online_len recv_len c
grant_accepted (err _) sent_len online_len recv_len c = c

Fits-grant_accepted {ℓ} :
    {A : Type ℓ} (r : Fallible A) (sent_len online_len recv_len : ℕ) (c : Bytecount)
    → Fits (grant_accepted r sent_len online_len recv_len c)
    → Fits c
Fits-grant_accepted (err x) sent_len online_len recv_len c f = f
Fits-grant_accepted (ok x) sent_len online_len recv_len c f = record {
  sent = omega (arith, f.sent);
  recv = omega (arith, f.recv);
  online = omega (arith, f.online);
}

module _ {V H : Type 0} ⦃e : Engine V H⦄ where
  -- The bytes that a call uses more: those of a record that is accepted to be sent, of a received
  -- record that is accepted, and of the ciphertexts that a flush decrypts online.
  abbrev pub uses : {s t : Session V H} → Call s t → Bytecount → Bytecount
  uses {s} (pushes_encrypt typ version len plaintext mode) c =
      with_sent (plus_accepted (push_encrypt typ version len plaintext mode s.layer).0 len c.sent) c
  uses {s} (pushes_decrypt typ version nonce ciphertext tag mode) c =
      with_recv
        (plus_accepted (push_decrypt typ version nonce ciphertext tag mode s.layer).0
          (length ciphertext) c.recv)
        c
  uses {s} (flushes locks true) c =
      with_online
        (plus_accepted (flush locks true s).0 (ciphertext_len s.layer.decrypt_buffer) c.online) c
  uses _ c = c

  -- The bytes that a call grants more.
  abbrev pub grants : {s t : Session V H} → Call s t → Bytecount → Bytecount
  grants {s} (allocs locks sent_records recv_records sent_len online_len recv_len) c =
      grant_accepted (alloc_layer locks sent_records recv_records sent_len online_len recv_len s).0
        sent_len online_len recv_len c
  grants _ c = c

  abbrev pub used : {s : Session V H} → Reached s → Bytecount
  used (fresh role v) = record { sent = 0; recv = 0; online = 0 }
  used (later r c) = uses c (used r)

  abbrev pub granted : {s : Session V H} → Reached s → Bytecount
  granted (fresh role v) = record { sent = 0; recv = 0; online = 0 }
  granted (later r c) = grants c (granted r)

  -- The length that is given to a push is that of data in memory.
  abbrev pub LengthFits : {s t : Session V H} → Call s t → Type 0
  LengthFits (pushes_encrypt typ version len plaintext mode) = len < 2 ^ 63
  LengthFits (pushes_decrypt typ version nonce ciphertext tag mode) = length ciphertext < 2 ^ 63
  LengthFits _ = Unit {0}

  abbrev pub LengthsFit : {s : Session V H} → Reached s → Type 0
  LengthsFit (fresh role v) = Unit {0}
  LengthsFit (later r c) = LengthFits c × LengthsFit r

  pub Fits-grants : {s t : Session V H} (k : Call s t) (c : Bytecount) → Fits (grants k c) → Fits c
  Fits-grants {s} (allocs locks sr rr sl ol rl) c f =
      Fits-grant_accepted (alloc_layer locks sr rr sl ol rl s).0 sl ol rl c f
  Fits-grants _ c f = f
