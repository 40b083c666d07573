-- ===== src/Tests.antt =====
-- Runs of the models, and instances of the theorems at concrete inputs.
mod Transcript
mod Crypto
mod Proofs
mod Opened
mod Attested
mod Trees
mod Machine
mod Ciphers
mod Record
