-- ===== src/Providers.antt =====
-- tlsn/crates/core/src/provider.rs: the algorithms that a party has.
use ethdam_rope.Hashes.{HashProvider}
use ethdam_rope.Connections.{TlsCore}
use ethdam_rope.Signing.{SignerProvider, SignatureVerifierProvider}

module _ ⦃tls : TlsCore⦄ where
  pub record CryptoProvider : Type 0 where
    pub hash : HashProvider
    pub cert : tls.Verifier
    pub signer : SignerProvider
    pub signature : SignatureVerifierProvider
