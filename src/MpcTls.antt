-- ===== src/MpcTls.antt =====
-- tlsn/crates/mpc-tls: the record layer that two parties, the leader and the follower, run together.
pub mod Errors
pub mod Records
pub mod Engine
pub mod Xor
pub mod Encrypt
pub mod Decrypt
pub mod AesCtr
pub mod RecordLayer
pub mod Keys
pub mod Queue
pub mod Session
