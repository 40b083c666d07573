-- ===== src/MpcTls/Engine.antt =====
-- What the record layer uses of the virtual machine of the mpz crates and of its AEAD cipher
-- (tlsn/crates/mpc-tls/src/record_layer/aead): an interface. `V` is the state of both, `H` the
-- type of references, futures and pending computations.
use ethdam_rope.Prelude.{ℕ, Option, List}
use ethdam_rope.MpcTls.Errors.{Step}
use ethdam_rope.MpcTls.Records.{TagData}

-- The two AEAD ciphers of the record layer.
pub data Side : Type 0 where
  encrypter : Side
  decrypter : Side

-- The ciphertext that a tag is computed of: decoded from the virtual machine, or a decoded
-- keystream that is combined with a plaintext.
pub data CiphertextFuture (H : Type 0) : Type 0 where
  decoded : H → CiphertextFuture H
  combined : H → List ℕ → CiphertextFuture H

pub record Engine (V H : Type 0) : Type 0 where
  pub alloc : Side → ℕ → ℕ → Step V (Unit {0})
  pub preprocess : Step V (Unit {0})
  pub setup : Step V (Unit {0})
  pub set_key : Side → H → H → V → V
  pub apply_keystream : Side → List ℕ → ℕ → Step V (H × H)
  pub take_keystream : Side → List ℕ → ℕ → Step V H
  pub assign : H → List ℕ → Step V (Unit {0})
  pub commit : H → Step V (Unit {0})
  pub decode : H → Step V H
  pub try_recv : H → Step V (Option (List ℕ))
  pub mask_private : H → List ℕ → Step V H
  pub mask_blind : H → Step V H
  pub compute_tags : List (CiphertextFuture H) → List TagData → Step V H
  pub verify_tags : List TagData → List (List ℕ) → List (List ℕ) → Step V H
  -- `compute_tags.run`, `verify_tags.run` and `execute_all`, joined.
  pub run_join : H → H → Step V (Option (List (List ℕ)))
  pub run_verify : H → Step V (Unit {0})
  pub execute_all : Step V (Unit {0})
  pub flush : Step V (Unit {0})
  -- The keystream of the ctr crate: of a key and a counter block, from a byte on, of a length.
  pub ctr_keystream : List ℕ → List ℕ → ℕ → ℕ → List ℕ
  pub random : ℕ → Step V (List ℕ)
