-- ===== src/MpcTls/Session/Limits.antt =====
-- What was sent and received is within what was granted, whatever methods are called.
use ethdam_rope.Prelude.{ℕ, ◌+◌, true, false, ok, err, arith}
use ethdam_rope.MpcTls.Errors.{Role, Fallible}
use ethdam_rope.MpcTls.Engine.{Engine}
use ethdam_rope.MpcTls.RecordLayer.{RecordLayer, new, start_traffic}
use ethdam_rope.MpcTls.Queue.{Session}
use ethdam_rope.MpcTls.Session.{alloc_layer, flush}
use ethdam_rope.MpcTls.Session.Keeps.{Ends}
use ethdam_rope.MpcTls.Session.Counts.{with_online, grant, IsBounded-Stable, grown-IsBounded}
use ethdam_rope.MpcTls.Session.Bounds.{flush_private-IsBounded, flush_online-Ends}
use ethdam_rope.MpcTls.Session.Lifecycle.{
  alloc-Ends, preprocess-Leaves, set_keys-Leaves, setup-Leaves, commit-Leaves,
}
use ethdam_rope.MpcTls.Session.Reach.{
  Call, Reached, fresh, later, allocs, preprocesses, sets_keys, sets_up, starts_traffic,
  pushes_encrypt, pushes_decrypt, takes_encrypted, takes_decrypted, flushes, commits,
}
use ethdam_rope.MpcTls.Session.Usage.{
  grant_accepted, uses, grants, used, granted, LengthFits, LengthsFit, Fits-grants,
}
use ethdam_rope.MpcTls.RecordLayer.Limits.{
  IsBounded, Bytecount, Fits, plus_accepted, ciphertext_len, push_encrypt-IsBounded,
  push_decrypt-IsBounded, next_encrypted-IsBounded, next_decrypted-IsBounded,
}

module _ {H : Type 0} where
  start_traffic-IsBounded :
      (u g : Bytecount) (l : RecordLayer H) → IsBounded u g l → IsBounded u g (start_traffic l)
  unfolding start_traffic
  start_traffic-IsBounded u g l b = ground arith

  new-IsBounded :
      (role : Role)
      → IsBounded
          (record { sent = 0; recv = 0; online = 0 })
          (record { sent = 0; recv = 0; online = 0 })
          (new {H = H} role)
  unfolding new
  new-IsBounded role = ground arith

module _ {V H : Type 0} (u g : Bytecount) where
  -- The limits of a layer, once it is known whether the step succeeded.
  counted_when_ok :
      {A : Type 0} (n : ℕ) (r : Fallible A × Session V H)
      → Ends (IsBounded u g) (IsBounded (with_online (n + u.online) u) g) r
      → IsBounded (with_online (plus_accepted r.0 n u.online) u) g (r.1).layer
  counted_when_ok n (ok a, s) b = b
  counted_when_ok n (err x, s) b = b

  granted_when_ok :
      {A : Type 0} (sl ol rl : ℕ) (r : Fallible A × Session V H)
      → Ends (IsBounded u g) (λ l. Fits (grant sl ol rl g) → IsBounded u (grant sl ol rl g) l) r
      → Fits (grant_accepted r.0 sl ol rl g)
      → IsBounded u (grant_accepted r.0 sl ol rl g) (r.1).layer
  granted_when_ok sl ol rl (ok a, s) b fits = b fits
  granted_when_ok sl ol rl (err x, s) b fits = b

module _ {V H : Type 0} ⦃e : Engine V H⦄ where
  Call-IsBounded :
      (u g : Bytecount) {s t : Session V H} (c : Call s t)
      → Fits (grants c g)
      → LengthFits c
      → IsBounded u g s.layer
      → IsBounded (uses c u) (grants c g) t.layer
  Call-IsBounded u g {s} (allocs locks sr rr sl ol rl) fits l b =
      granted_when_ok u g sl ol rl (alloc_layer locks sr rr sl ol rl s)
        (alloc-Ends (IsBounded u g) (IsBounded-Stable u g)
          (λ l. Fits (grant sl ol rl g) → IsBounded u (grant sl ol rl g) l) locks sr rr sl ol rl s
          (λ l pad p small. grown-IsBounded u g sl ol rl l pad small p) b)
        fits
  Call-IsBounded u g {s} (preprocesses locks) fits l b =
      preprocess-Leaves (IsBounded u g) (IsBounded-Stable u g) locks s b
  Call-IsBounded u g {s} (sets_keys locks ck ci sk si) fits l b =
      set_keys-Leaves (IsBounded u g) (IsBounded-Stable u g) locks ck ci sk si s b
  Call-IsBounded u g {s} (sets_up locks) fits l b =
      setup-Leaves (IsBounded u g) (IsBounded-Stable u g) locks s b
  Call-IsBounded u g {s} starts_traffic fits l b = start_traffic-IsBounded u g s.layer b
  Call-IsBounded u g {s} (pushes_encrypt typ version len plaintext mode) fits l b =
      push_encrypt-IsBounded u g s.layer typ version len plaintext mode fits l b
  Call-IsBounded u g {s} (pushes_decrypt typ version nonce ciphertext tag mode) fits l b =
      push_decrypt-IsBounded u g s.layer typ version nonce ciphertext tag mode fits l b
  Call-IsBounded u g {s} takes_encrypted fits l b = next_encrypted-IsBounded u g s.layer b
  Call-IsBounded u g {s} takes_decrypted fits l b = next_decrypted-IsBounded u g s.layer b
  Call-IsBounded u g {s} (flushes locks true) fits l b =
      counted_when_ok u g (ciphertext_len s.layer.decrypt_buffer) (flush locks true s)
        (flush_online-Ends u g locks s fits b)
  Call-IsBounded u g {s} (flushes locks false) fits l b = flush_private-IsBounded u g locks s b
  Call-IsBounded u g {s} (commits locks) fits l b =
      commit-Leaves (IsBounded u g) (IsBounded-Stable u g) locks s b

  -- Whatever methods were called, in any order and with any outcome, if each length that a push was
  -- given and each total that successful calls of `alloc` were given is below 2^63, so that no sum
  -- of `usize` wraps: the lengths of the records that `push_encrypt` accepted, those of the
  -- ciphertexts that `push_decrypt` accepted, and those of the ciphertexts drained by successful
  -- calls of `flush` with `is_decrypting`, are each in total at most the counter of the layer, which
  -- is at most its limit, which is at most the total that `alloc` was given. Neither buffer of
  -- operations is longer than the largest buffer size. Records that are not of application data and
  -- that `flush` decrypts without `is_decrypting` do not count as decrypted online.
  pub reached-IsBounded :
      {s : Session V H} (r : Reached s)
      → Fits (granted r)
      → LengthsFit r
      → IsBounded (used r) (granted r) s.layer
  reached-IsBounded (fresh role v) fits ls = new-IsBounded role
  reached-IsBounded (later r c) fits ls =
      Call-IsBounded (used r) (granted r) c fits ls.0
        (reached-IsBounded r (Fits-grants c (granted r) fits) ls.1)
