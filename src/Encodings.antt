-- ===== src/Encodings.antt =====
-- tlsn/crates/core/src/transcript/encoding.rs and transcript/encoding/: the encoder, the tree of
-- encodings and the proof of openings. The generator `ChaCha12Rng`, of which `set_word_pos` chooses the
-- position, is a parameter.
pub mod Encoder
pub mod Commitment
pub mod Proof
pub mod Bytes
pub mod Opened
pub mod Oversized
pub mod Tree
pub mod Committed
pub mod Grown
