-- ===== src/Encodings/Commitment.antt =====
-- transcript/encoding.rs: the commitment to encodings.
use ethdam_rope.Hashes.{TypedHash}
use ethdam_rope.Encodings.Encoder.{EncoderSecret}

pub record EncodingCommitment : Type 0 where
  pub root : TypedHash
  pub secret : EncoderSecret
