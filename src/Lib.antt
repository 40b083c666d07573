-- ===== src/Lib.antt =====
-- A verification library for the TLSNotary crates under tlsn/crates: the transcripts that a prover
-- discloses, the commitments to them and the attestation of a notary with the proofs that verify them,
-- and the record layer of the TLS connection that a leader and a follower make together.
--
-- The parts of the program and their models:
--   * tlsn/crates/core/src/transcript.rs. Subsequence models `Idx` and `Subsequence`, Transcript
--     models `Transcript` and `PartialTranscript`, and Compressed models the compressed form with the
--     check that deserialization makes. A definition has the name of the method; `to_partial`,
--     `union_transcript`, `union_subsequence`, `set_unauthed` and the others are functions on the
--     record that `self` is, and return it changed. The crate rangeset is the interface `RangeSet` of
--     RangeSets, a record of operations and of the laws that their documentation states;
--     RangeSets.Bitmap fills it with lists of Booleans, over which the tests run.
--   * tlsn/crates/core/src/hash.rs and serialize.rs: Hashes; merkle.rs: Merkle; index.rs: Indexes and
--     PlaintextHashes; signing.rs: Signing; provider.rs: Providers. A trait object such as
--     `HashAlgorithm` or `Signer` is a record of its methods.
--   * tlsn/crates/core/src/transcript/encoding.rs, encoding/encoder.rs, encoding/tree.rs,
--     encoding/provider.rs and encoding/proof.rs: Encodings; transcript/hash.rs: PlaintextHashes;
--     transcript/commit.rs: Commits; transcript/proof.rs: TranscriptProofs, the verification only. A
--     verified proof gives a `PartialTranscript`, by the unions that Transcript models.
--   * tlsn/crates/core/src/connection.rs, connection/commit.rs and connection/proof.rs: Connections.
--   * tlsn/crates/core/src/attestation.rs: Fields and Attestations, attestation/proof.rs:
--     Attestations.Proof, attestation/builder.rs and config.rs: Attestations.Build; request.rs and
--     request/config.rs: Requests. The notary accepts a request, builds the body, hashes its fields
--     into a Merkle tree and signs the header with the root; the holder proves the body against the
--     root.
--   * tlsn/crates/mpc-tls/src/record_layer.rs. MpcTls.RecordLayer has the state of `RecordLayer` and
--     the methods that work on its buffers and counters, MpcTls.Session those that use the virtual
--     machine (`alloc`, `preprocess`, `set_keys`, `setup`, `flush`, `commit`), and MpcTls.Queue their
--     helpers. A session is the layer with the state of the virtual machine.
--   * tlsn/crates/mpc-tls/src/record_layer/encrypt.rs, decrypt.rs and aes_ctr.rs: MpcTls.Encrypt,
--     MpcTls.Decrypt and MpcTls.AesCtr. The record layer calls them for the operations it drains.
--   * tlsn/crates/common/src/transcript.rs, tlsn/crates/tls/core/src/cipher.rs and
--     tlsn/crates/tls/core/src/msgs/enums.rs: the records, the additional data and the content types,
--     in MpcTls.Records; `to_transcript`, which makes the transcript that a prover discloses of the
--     records that `commit` returns, in MpcTls.Records.Plaintexts.
--   * tlsn/crates/mpc-tls/src/error.rs: MpcTls.Errors.
--
-- How the code is written down:
--   * a method that can fail is a `Step`: it returns a value or an error with the state, which on an
--     error is the state that was reached; errors have their kind and no message;
--   * a slice out of bounds and an `expect` on `None` are panics: the transcript model returns
--     `none` for them (`MayPanic`), the record layer the error `panic`;
--   * the virtual machine of the mpz crates, the AEAD cipher over it and the counter mode of the ctr
--     crate are the interface `Engine` of MpcTls.Engine, whose operations may answer anything; what a
--     theorem needs of an answer is one of its hypotheses. The computations that `try_join` runs at
--     the same time are one operation of it;
--   * code of core that can both fail and panic gives an `Outcome` of Outcomes: it returns, fails with
--     an error, or panics. Errors there have a constructor for each place that makes one;
--   * the trees of the crate rs_merkle are the interface `RsMerkle` of Merkle.Interfaces, and the
--     search for duplicates of tlsn-utils is `DuplicateCheck`; the random stream of ChaCha is `ChaCha`,
--     the map of the crate bimap is `BiMap` of Encodings.Tree, serialization by bcs is
--     `CanonicalSerialize`, whose `none` is the panic of its `unwrap`, the domains of hashes are
--     `DomainSeparator`, and the copy of rustls is `TlsCore`. Each has the laws that its documentation
--     states, and Tests.Crypto and Tests.Trees fill each;
--   * a `HashMap` is a list of its entries, in any order, and the loops over one run in that order; an
--     identifier of a field is a `u32` and wraps at 2^32; random values are arguments;
--   * whether a mutex is free when a method tries to take it is an argument, `Locks`;
--   * bytes are numbers, and a theorem that needs them below 256 says so; a protocol version is its
--     number on the wire; sequence numbers wrap at 2^64 as `u64` does in a release build, and so
--     do the counters, limits and lengths that the record layer adds up, where `usize` has 64 bits
--     (`usize_add`). Other sums of `usize` are of lengths in memory and have no bound. Arrays of fixed
--     length (keys, ivs, blinders) are lists: their types in the source guarantee the lengths;
--   * every function is a structural recursion, and there is no fuel.
--
-- MpcTls.Session.Reach gives the calls of the methods of the record layer as a step relation, and the
-- sessions that they reach. MpcTls.Session.Nonces, Limits and Closed are about all of them.
-- MpcTls.Session.Usage counts the bytes of the calls that succeeded, apart from the layer's counters.
--
-- Not modelled: the key exchange, the handshake and the messages between leader and follower, the
-- circuits and the AEAD cipher, the builders of transcript proofs and of requests, presentations,
-- secrets, the HTTP and JSON formats, the notary service, and the fork of rustls but for the
-- definitions named above.
pub mod Prelude
pub mod Outcomes
pub mod RangeSets
pub mod Subsequence
pub mod Transcript
pub mod Compressed
pub mod Hashes
pub mod Merkle
pub mod Commits
pub mod Encodings
pub mod Fields
pub mod Indexes
pub mod Connections
pub mod Signing
pub mod Providers
pub mod PlaintextHashes
pub mod Attestations
pub mod TranscriptProofs
pub mod Requests
pub mod MpcTls
pub mod Tests
