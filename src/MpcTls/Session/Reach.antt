-- ===== src/MpcTls/Session/Reach.antt =====
-- tlsn/crates/mpc-tls/src/record_layer.rs: the sessions that the methods of `RecordLayer` lead to, in
-- any order and whether they succeed or fail.
use ethdam_rope.Prelude.{ℕ, ◌+◌, List, Option, Bool}
use ethdam_rope.MpcTls.Errors.{Role}
use ethdam_rope.MpcTls.Records.{ContentType}
use ethdam_rope.MpcTls.Engine.{Engine}
use ethdam_rope.MpcTls.Encrypt.{EncryptMode}
use ethdam_rope.MpcTls.Decrypt.{DecryptMode}
use ethdam_rope.MpcTls.RecordLayer.{
  new, push_encrypt, push_decrypt, next_encrypted, next_decrypted, start_traffic,
}
use ethdam_rope.MpcTls.Queue.{Session, Locks, with_layer}
use ethdam_rope.MpcTls.Session.{alloc_layer, preprocess, set_keys, setup, flush, commit}

module _ {V H : Type 0} ⦃e : Engine V H⦄ where
  -- One call of a method.
  pub data Call (s : Session V H) : Session V H → Type 0 where
    allocs :
        (locks : Locks) (sent_records recv_records sent_len online_len recv_len : ℕ)
        → Call s (alloc_layer locks sent_records recv_records sent_len online_len recv_len s).1
    preprocesses : (locks : Locks) → Call s (preprocess locks s).1
    sets_keys : (locks : Locks) (ck ci sk si : H) → Call s (set_keys locks ck ci sk si s).1
    sets_up : (locks : Locks) → Call s (setup locks s).1
    starts_traffic : Call s (record s { layer = start_traffic s.layer })
    pushes_encrypt :
        (typ : ContentType) (version len : ℕ) (plaintext : Option (List ℕ)) (mode : EncryptMode)
        → Call s (with_layer (push_encrypt typ version len plaintext mode) s).1
    pushes_decrypt :
        (typ : ContentType) (version : ℕ) (nonce ciphertext tag : List ℕ) (mode : DecryptMode)
        → Call s (with_layer (push_decrypt typ version nonce ciphertext tag mode) s).1
    takes_encrypted : Call s (record s { layer = (next_encrypted s.layer).1 })
    takes_decrypted : Call s (record s { layer = (next_decrypted s.layer).1 })
    flushes : (locks : Locks) (is_decrypting : Bool) → Call s (flush locks is_decrypting s).1
    commits : (locks : Locks) → Call s (commit locks s).1

  pub data Reached : Session V H → Type 0 where
    fresh : (role : Role) (v : V) → Reached (record { layer = new role; vm = v })
    later : {s t : Session V H} → Reached s → Call s t → Reached t

  -- How many records have been pushed to be encrypted.
  abbrev pub is_push : {s t : Session V H} → Call s t → ℕ
  is_push (pushes_encrypt typ version len plaintext mode) = 1
  is_push _ = 0

  abbrev pub pushes : {s : Session V H} → Reached s → ℕ
  pushes (fresh role v) = 0
  pushes (later r c) = is_push c + pushes r
