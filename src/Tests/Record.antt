-- ===== src/Tests/Record.antt =====
-- Runs of the record layer, and instances of the theorems on its sessions.
use ethdam_rope.Prelude.{
  usize_add, ◌↔◌, ap, ℕ, ◌≡◌, ◌≢◌, refl, true, false, none, some, List, [], ◌∷◌, ◌++◌, arith,
  replicate, get_elem?, ok, err,
}
use ethdam_rope.MpcTls.Errors.{leader, other, state}
use ethdam_rope.MpcTls.Records.{Record, TlsTranscript, make_tls12_aad, be_bytes, application_data}
use ethdam_rope.Transcript.{Transcript}
use ethdam_rope.MpcTls.Records.Plaintexts.{AppData, to_transcript, to_transcript_iff}
use ethdam_rope.MpcTls.Xor.{xor_with}
use ethdam_rope.MpcTls.Encrypt.{
  new_encrypt_op, encrypt, encrypt_ops, encrypt_public, EncryptMode, try_encrypt,
}
use ethdam_rope.MpcTls.Decrypt.{verify_tags, DecryptMode, try_decrypt, decrypt_mpc}
use ethdam_rope.MpcTls.AesCtr.{new_ctr, set_ctr_key, alloc_ctr, finish_decode}
use ethdam_rope.MpcTls.Keys.{Key}
use ethdam_rope.MpcTls.RecordLayer.{online, complete, push_decrypt, new, push_encrypt}
use ethdam_rope.MpcTls.RecordLayer.Sequence.{keys_of}
use ethdam_rope.MpcTls.RecordLayer.Limits.{IsBounded, Bytecount}
use ethdam_rope.MpcTls.Queue.{
  expect_online, plain_record, recv_record, unlocked, expect_init, is_online, encrypted_record,
  sent_record, Session, Locks, total_len,
}
use ethdam_rope.MpcTls.AesCtr.{decode_key}
use ethdam_rope.MpcTls.Decrypt.{decrypt_local, public_mpc}
use ethdam_rope.MpcTls.Session.{
  commit_ops, commit_received, alloc_layer, flush, commit, set_keys, flush_ops, process,
  record_sent, record_received, with_new_pad, with_pad,
}
use ethdam_rope.MpcTls.Session.Reach.{
  Reached, fresh, later, sets_keys, allocs, pushes_encrypt, pushes_decrypt, flushes,
}
use ethdam_rope.MpcTls.Session.Nonces.{reached_nonces_differ}
use ethdam_rope.MpcTls.Session.Limits.{reached-IsBounded}
use ethdam_rope.MpcTls.Session.Commit.{Extends, commit_lem}
use ethdam_rope.MpcTls.Session.Closed.{After-commit, now}
use ethdam_rope.Tests.Machine.{fixed_engine}

abbrev free : Locks
free = record { vm = false; encrypter = false; decrypter = false }

-- The leader sends a record of two bytes and flushes.
abbrev flushed : (s : Session ℕ (List ℕ)) × Reached s
flushed = (
  _,
  later
      (later
        (later (later (fresh leader 0) (sets_keys free (1 ∷ []) (2 ∷ []) (3 ∷ []) (4 ∷ [])))
          (allocs free 2 2 10 10 10))
        (pushes_encrypt application_data 0x0303 2 (some (7 ∷ 8 ∷ [])) EncryptMode.public))
      (flushes free true),
)

-- Another record waits to be sent.
abbrev run : (s : Session ℕ (List ℕ)) × Reached s
run = (
  _,
  later flushed.1 (pushes_encrypt application_data 0x0303 1 (some (9 ∷ [])) EncryptMode.public),
)

-- A received record waits to be decrypted.
abbrev received : (s : Session ℕ (List ℕ)) × Reached s
received = (
  _,
  later flushed.1
      (pushes_decrypt application_data 0x0303 (1 ∷ []) (5 ∷ 6 ∷ []) [] DecryptMode.public),
)

abbrev first_nonce : List ℕ
first_nonce = replicate 8 0

abbrev second_nonce : List ℕ
second_nonce = replicate 7 0 ++ 1 ∷ []

two_keys :
    keys_of run.0.layer
    ≡ record { seq = 0; nonce = first_nonce } ∷ record { seq = 1; nonce = second_nonce } ∷ []
unfolding new set_keys alloc_layer push_encrypt flush set_ctr_key alloc_ctr new_encrypt_op be_bytes
    make_tls12_aad unlocked expect_init is_online flush_ops process encrypt encrypt_ops
    encrypt_public decrypt_mpc verify_tags record_sent record_received try_encrypt encrypted_record
    sent_record new_ctr with_new_pad with_pad usize_add total_len
two_keys = refl

reached_nonces_differ_example : first_nonce ≢ second_nonce
reached_nonces_differ_example =
    reached_nonces_differ run.1 0 1 (omega arith) (omega arith)
      (ap (λ (ks : List Key). get_elem? ks 0) two_keys)
      (ap (λ (ks : List Key). get_elem? ks 1) two_keys)

-- A received record is decrypted online.
abbrev decrypted : (s : Session ℕ (List ℕ)) × Reached s
decrypted = (_, later received.1 (flushes free true))

abbrev two_of_each : Bytecount
two_of_each = record { sent = 2; recv = 2; online = 2 }

abbrev ten_of_each : Bytecount
ten_of_each = record { sent = 10; recv = 10; online = 10 }

reached-IsBounded_example : IsBounded two_of_each ten_of_each decrypted.0.layer
unfolding new set_keys alloc_layer push_encrypt push_decrypt flush set_ctr_key alloc_ctr
    new_encrypt_op be_bytes make_tls12_aad unlocked expect_init is_online flush_ops process encrypt
    encrypt_ops encrypt_public decrypt_mpc verify_tags record_sent record_received try_encrypt
    encrypted_record sent_record new_ctr with_new_pad with_pad public_mpc try_decrypt plain_record
    recv_record xor_with usize_add total_len
reached-IsBounded_example =
    reached-IsBounded decrypted.1
      (record { sent = omega arith; recv = omega arith; online = omega arith })
      (tt, (omega arith, (tt, (omega arith, (tt, (tt, tt))))))

After-commit_example :
    ((alloc_layer free 1 1 1 1 1 (commit free run.0).1).0 ≡ err other)
    × (flush free true (commit free run.0).1 ≡ (err state, (commit free run.0).1))
    × ((commit free (commit free run.0).1).0 ≡ err state)
After-commit_example = After-commit free free run.0 true 1 1 1 1 1 now

abbrev received_record : Record (List ℕ)
received_record = record {
  seq = 0;
  typ = application_data;
  plaintext = some (6 ∷ 5 ∷ []);
  plaintext_ref = none;
  explicit_nonce = 1 ∷ [];
  ciphertext = 5 ∷ 6 ∷ [];
}

abbrev transcript : TlsTranscript (List ℕ)
transcript = record {
  sent =
      record {
        seq = 0;
        typ = application_data;
        plaintext = some (7 ∷ 8 ∷ []);
        plaintext_ref = none;
        explicit_nonce = first_nonce;
        ciphertext = 4 ∷ 11 ∷ [];
      }
      ∷ [];
  recv = received_record ∷ [];
}

transcript_made :
    (commit free received.0 ≡ (ok transcript, (commit free received.0).1))
    × (received.0.layer.state ≡ online (some (replicate 10 9)) transcript.sent [])
unfolding new set_keys alloc_layer push_encrypt push_decrypt flush commit set_ctr_key alloc_ctr
    new_encrypt_op be_bytes make_tls12_aad unlocked expect_init is_online expect_online flush_ops
    process encrypt encrypt_ops encrypt_public decrypt_mpc verify_tags record_sent record_received
    try_encrypt encrypted_record sent_record new_ctr with_new_pad with_pad commit_ops
    commit_received decode_key finish_decode decrypt_local public_mpc try_decrypt plain_record
    recv_record xor_with usize_add total_len
transcript_made = (refl, refl)

commit_lem_example :
    (transcript.sent ≡ transcript.sent)
    × Extends received.0.layer.decrypt_buffer [] transcript.recv
    × ((commit free received.0).1.layer.state ≡ complete)
commit_lem_example = commit_lem free received.0 transcript_made.1 transcript_made.0

abbrev application_bytes : Transcript
application_bytes = record { sent = 7 ∷ 8 ∷ []; received = 6 ∷ 5 ∷ [] }

to_transcript_run : to_transcript transcript ≡ ok application_bytes
unfolding to_transcript
to_transcript_run = refl

to_transcript_iff_example :
    (to_transcript transcript ≡ ok application_bytes)
    ↔ (AppData transcript.sent (7 ∷ 8 ∷ []) × AppData transcript.recv (6 ∷ 5 ∷ []))
to_transcript_iff_example = to_transcript_iff transcript application_bytes
