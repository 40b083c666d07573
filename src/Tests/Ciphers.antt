-- ===== src/Tests/Ciphers.antt =====
-- Instances of the theorems on records and ciphers.
use ethdam_rope.Prelude.{
  ℕ, ◌%◌, ◌≡◌, ◌^◌, refl, none, some, List, [], ◌∷◌, ◌++◌, arith, replicate, ok,
}
use ethdam_rope.MpcTls.Errors.{leader}
use ethdam_rope.MpcTls.Records.{ContentType, make_tls12_aad, get_u8, be_bytes, application_data}
use ethdam_rope.MpcTls.Records.Aad.{make_tls12_aad_inj}
use ethdam_rope.MpcTls.Xor.{xor_with}
use ethdam_rope.MpcTls.Encrypt.{EncryptOutput, try_encrypt}
use ethdam_rope.MpcTls.Decrypt.{
  private_mpc, DecryptMode, DecryptOp, DecryptOutput, Padded, try_decrypt, decrypt_mpc,
}
use ethdam_rope.MpcTls.Decrypt.Pads.{decrypt_mpc_splits}
use ethdam_rope.MpcTls.Decrypt.Opens.{try_decrypt-private, try_decrypt-try_encrypt}
use ethdam_rope.MpcTls.AesCtr.{AesCtr, decode, finish_decode, decrypt}
use ethdam_rope.MpcTls.AesCtr.Unmasks.{decrypt-finish_decode}
use ethdam_rope.Tests.Machine.{fixed_engine}

abbrev seq_no : ℕ
seq_no = 5

abbrev tls12 : ℕ
tls12 = 0x0303

aad_same :
    make_tls12_aad 5 application_data 0x0303 16
    ≡ make_tls12_aad 5 (ContentType.unknown 0x17) 0x0303 65552
unfolding make_tls12_aad be_bytes
aad_same = refl

make_tls12_aad_inj_example :
    (seq_no ≡ seq_no)
    × (get_u8 application_data ≡ get_u8 (ContentType.unknown 0x17))
    × (tls12 ≡ tls12)
    × (16 % 2 ^ 16 ≡ 65552 % 2 ^ 16)
make_tls12_aad_inj_example =
    make_tls12_aad_inj seq_no seq_no application_data (ContentType.unknown 0x17) tls12 tls12 16
      65552 (omega arith) (omega arith) (omega arith) (omega arith) aad_same

-- Two records of three bytes, and a pad of eight bytes.
abbrev op : ℕ → DecryptOp
op seq = record {
  seq = seq;
  typ = application_data;
  version = 0x0303;
  explicit_nonce = [];
  ciphertext = 1 ∷ 2 ∷ 3 ∷ [];
  aad = [];
  tag = [];
  mode = DecryptMode.private;
}

abbrev two_records : List DecryptOp
two_records = op 0 ∷ op 1 ∷ []

abbrev eight : List ℕ
eight = 1 ∷ 2 ∷ 3 ∷ 4 ∷ 5 ∷ 6 ∷ 7 ∷ 8 ∷ []

abbrev padded : Padded ℕ
padded = record { vm = 0; otp = some eight }

two_outputs : decrypt_mpc {V = ℕ} {H = List ℕ} two_records padded ≡ (
  ok (
      DecryptOutput.private (replicate 3 5) (some (6 ∷ 7 ∷ 8 ∷ [])) (1 ∷ 2 ∷ 3 ∷ [])
      ∷ DecryptOutput.private (replicate 3 5) (some (3 ∷ 4 ∷ 5 ∷ [])) (1 ∷ 2 ∷ 3 ∷ [])
      ∷ []),
  record { vm = 8; otp = some (1 ∷ 2 ∷ []) },
)
unfolding decrypt_mpc private_mpc
two_outputs = refl

decrypt_mpc_splits_example :
    (left : List ℕ) × (some (1 ∷ 2 ∷ []) ≡ some left)
    × (left ++ (3 ∷ 4 ∷ 5 ∷ 6 ∷ 7 ∷ 8 ∷ []) ≡ eight)
decrypt_mpc_splits_example = decrypt_mpc_splits two_records padded refl two_outputs

try_decrypt-private_example :
    try_decrypt {V = ℕ} {H = List ℕ}
      (DecryptOutput.private
        (xor_with (9 ∷ 9 ∷ []) (3 ∷ 5 ∷ []))
        (some (9 ∷ 9 ∷ []))
        (xor_with (7 ∷ 8 ∷ []) (3 ∷ 5 ∷ [])))
      0
    ≡ (ok (some (7 ∷ 8 ∷ [])), 1)
try_decrypt-private_example =
    try_decrypt-private (xor_with (9 ∷ 9 ∷ []) (3 ∷ 5 ∷ [])) (7 ∷ 8 ∷ []) (9 ∷ 9 ∷ []) (3 ∷ 5 ∷ [])
      0 refl refl (omega arith, (omega arith, tt)) (omega arith, (omega arith, tt))
      (omega arith, (omega arith, tt))

try_decrypt-try_encrypt_example :
    (ciphertext : List ℕ) × (try_encrypt {V = ℕ} {H = List ℕ}
        (EncryptOutput.public (3 ∷ 5 ∷ []) (7 ∷ 8 ∷ []))
        0
      ≡ (ok ciphertext, 1))
    × (try_decrypt {V = ℕ} {H = List ℕ} (DecryptOutput.public (3 ∷ 5 ∷ []) ciphertext) 4
        ≡ (ok (some (7 ∷ 8 ∷ [])), 5))
try_decrypt-try_encrypt_example =
    try_decrypt-try_encrypt (3 ∷ 5 ∷ []) (3 ∷ 5 ∷ []) (7 ∷ 8 ∷ []) (3 ∷ 5 ∷ []) 0 4 refl refl refl
      (omega arith, (omega arith, tt)) (omega arith, (omega arith, tt))

abbrev masked : AesCtr (List ℕ)
masked = record {
  role = leader;
  key = none;
  iv = none;
  state =
      decode (xor_with (1 ∷ 2 ∷ []) (9 ∷ 9 ∷ [])) (xor_with (3 ∷ []) (8 ∷ [])) (some (9 ∷ 9 ∷ []))
        (some (8 ∷ []));
}

decrypt-finish_decode_example :
    ((finish_decode {V = ℕ} {H = List ℕ} (record { ctr = masked; vm = 0 })).0 ≡ ok tt)
    × (decrypt fixed_engine.ctr_keystream
          (finish_decode {V = ℕ} {H = List ℕ} (record { ctr = masked; vm = 0 })).1.ctr
          (replicate 8 0)
          (5 ∷ 6 ∷ [])
        ≡ ok (xor_with (5 ∷ 6 ∷ []) (replicate 2 3)))
decrypt-finish_decode_example =
    decrypt-finish_decode masked (xor_with (1 ∷ 2 ∷ []) (9 ∷ 9 ∷ [])) (xor_with (3 ∷ []) (8 ∷ []))
      (1 ∷ 2 ∷ []) (3 ∷ []) (9 ∷ 9 ∷ []) (8 ∷ []) 0 fixed_engine.ctr_keystream (replicate 8 0)
      (5 ∷ 6 ∷ []) refl refl refl refl (omega arith, (omega arith, tt))
      (omega arith, (omega arith, tt)) (omega arith, tt) (omega arith, tt) refl
