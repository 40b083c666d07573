-- ===== src/Attestations/Consistent.antt =====
-- The notary's answer to a request passes the prover's check of it.
use ethdam_rope.Prelude.{
  ℕ, ◌≡◌, refl, ap, sym, subst, ◌∙◌, true, not, ◌&&◌, List, [], ◌∷◌, ◌++◌, Option, none, some, ok,
  arith, ◌⊎◌, inl, inr, is_equal_refl, is_equal-same, includes, append_assoc, map, >>=-eq-some,
}
use ethdam_rope.Outcomes.{
  returns, from_panic-bind, from_result-bind, ok_or_else-bind, guard_or-bind, bind-eq-returns,
  returns-injective,
}
use ethdam_rope.RangeSets.{RangeSet}
use ethdam_rope.Hashes.{Hash, TypedHash, HashAlgorithm, get_hash_alg, hash_alg_id_eq, typed_hash_eq}
use ethdam_rope.Merkle.{MerkleTree, new_merkle_tree, merkle_insert, merkle_root}
use ethdam_rope.Merkle.Interfaces.{RsMerkle}
use ethdam_rope.Fields.{FieldId, next_field}
use ethdam_rope.Encodings.Commitment.{EncodingCommitment}
use ethdam_rope.Encodings.Encoder.{EncoderSecret}
use ethdam_rope.Connections.{TlsCore, ConnectionInfo, ServerEphemKey, cert_commitment_eq}
use ethdam_rope.Signing.{Signer, Signature, get_signer, signature_alg_id_eq}
use ethdam_rope.Providers.{CryptoProvider}
use ethdam_rope.Attestations.{
  Extension, Body, Attestation, Codecs, field_contents, field_content, encoding_commitment_kind,
  field_kind_eq, field_hash, hash_fields, body_root, extension_eq,
}
use ethdam_rope.Attestations.Build.{
  AttestationConfig, Sign, unsupported_signature_alg, unsupported_hash_alg,
  encoding_commitment_unsupported, hash_alg_not_provided, signer_not_provided,
  connection_info_not_set, handshake_data_not_set, signing_failed, accept_request, run_validator,
  make_commitment, number_fields, number_body, make_header, build_attestation, is_some, next_if,
}
use ethdam_rope.Requests.{Request, validate, validate_root, all_included}
use mathlib.Core.Option.{some-injective}

field_contents-number_fields :
    {T : Type 0} (id : FieldId) (contents : List T)
    → field_contents (number_fields id contents) ≡ contents
unfolding number_fields
field_contents-number_fields id [] = refl
field_contents-number_fields id (content ∷ contents) =
    ap (content ∷◌) (field_contents-number_fields (next_field id content).1 contents)

field_content-next_if :
    {T : Type 0} (id : FieldId) (content : Option T)
    → field_content (next_if id content).0 ≡ content
field_content-next_if id none = refl
field_content-next_if id (some content) = refl

includes-append :
    (before : List Extension) (extension : Extension) (after : List Extension)
    → includes (before ++ (extension ∷ after)) extension ≡ true
includes-append [] extension after = rw (is_equal_refl extension) refl
includes-append (e ∷ before) extension after =
    ground (arith, includes-append before extension after)

-- The extensions of a request are among those of the attestation.
all_included-append :
    (before wanted after : List Extension)
    → all_included wanted (before ++ (wanted ++ after)) ≡ true
unfolding all_included
all_included-append before [] after = refl
all_included-append before (e ∷ wanted) after = rw (includes-append before e (wanted ++ after)) (
    subst (λ all. all_included wanted all ≡ true) (append_assoc before (e ∷ []) (wanted ++ after))
      (all_included-append (before ++ (e ∷ [])) wanted after))

module _ ⦃rm : RsMerkle⦄ where
  -- The tree of the given leaves.
  abbrev pub tree_of : HashAlgorithm → List Hash → MerkleTree
  tree_of hasher leaves = record {
    alg = hasher.id;
    tree = rm.commit (rm.append rm.default leaves) hasher.hash;
  }

  pub merkle_insert-tree_of :
      (hasher : HashAlgorithm) (leaves : List Hash)
      → merkle_insert (new_merkle_tree hasher.id) hasher leaves ≡ some (tree_of hasher leaves)
  unfolding merkle_insert new_merkle_tree
  merkle_insert-tree_of hasher leaves = rw (is_equal_refl hasher.id) refl

  merkle_root-alg :
      (t : MerkleTree) {root : TypedHash} → merkle_root t ≡ some root → root.alg ≡ t.alg
  unfolding merkle_root
  merkle_root-alg t run = let (value, _, eq) = >>=-eq-some (rm.root t.tree) _ run in cc

  -- The root of a body is that of the tree of its fields.
  pub body_root-tree_of :
      {R : Type 0}
      → ⦃codecs : Codecs R⦄ → (body : Body R) (hasher : HashAlgorithm) {root : TypedHash}
      → body_root body hasher ≡ some root
      → (fields : List (FieldId × Hash)) × (hash_fields body hasher ≡ some fields)
        × (merkle_root (tree_of hasher (map field_hash fields)) ≡ some root)
        × (root.alg ≡ hasher.id)
  unfolding body_root
  body_root-tree_of body hasher {root} run =
      let (fields, hashed, run1) = >>=-eq-some (hash_fields body hasher) _ run in
      let (tree, grown, run2) =
        >>=-eq-some (merkle_insert (new_merkle_tree hasher.id) hasher (map field_hash fields)) _
          run1 in
      let same : tree ≡ tree_of hasher (map field_hash fields) =
        cc (grown, merkle_insert-tree_of hasher (map field_hash fields)) in
      let rooted = subst (λ t. merkle_root t ≡ some root) same run2 in
      (fields, hashed, rooted, merkle_root-alg (tree_of hasher (map field_hash fields)) rooted)

-- What the notary adds to an accepted request before it builds.
abbrev pub prepared :
    Sign → ConnectionInfo → ServerEphemKey → Option EncoderSecret → List Extension → Sign
prepared sign info key secret extra = record sign {
  connection_info = some info;
  server_ephemeral_key = some key;
  encoder_secret = secret;
  extensions = sign.extensions ++ extra;
}

accept_request-eq_returns :
    (config : AttestationConfig) (request : Request) {sign : Sign}
    → accept_request config request ≡ returns sign
    → (sign.signature_alg ≡ request.signature_alg)
      × (sign.hash_alg ≡ request.hash_alg)
      × (sign.cert_commitment ≡ request.server_cert_commitment)
      × (sign.encoding_commitment_root ≡ request.encoding_commitment_root)
      × (sign.extensions ≡ request.extensions)
unfolding accept_request
accept_request-eq_returns config request run =
    let (_, run1) =
      guard_or-bind (includes config.supported_signature_algs request.signature_alg)
        unsupported_signature_alg _ run in
    let (_, run2) =
      guard_or-bind (includes config.supported_hash_algs request.hash_alg) unsupported_hash_alg _
        run1 in
    let (_, run3) =
      guard_or-bind
        (not (
          is_some request.encoding_commitment_root
          && not (includes config.supported_fields encoding_commitment_kind)))
        encoding_commitment_unsupported _ run2 in
    let (_, _, run4) =
      bind-eq-returns (run_validator config.extension_validator request.extensions) _ run3 in
    let eq = returns-injective _ _ run4 in (cc eq, cc eq, cc eq, cc eq, cc eq)

-- A commitment that is made has the root that was asked for.
make_commitment-root :
    (root : Option TypedHash) (secret : Option EncoderSecret)
    {commitment : Option EncodingCommitment}
    → make_commitment root secret ≡ returns commitment
    → (root ≡ none)
      ⊎ ((r : TypedHash) × (c : EncodingCommitment) × (root ≡ some r)
          × (commitment ≡ some c)
          × (c.root ≡ r))
unfolding make_commitment
make_commitment-root none secret run = inl refl
make_commitment-root (some root) none run = cc
make_commitment-root (some root) (some secret) run =
    inr (root, record { root = root; secret = secret }, refl, sym (returns-injective _ _ run), refl)

module _ {R : Type 0} ⦃rs : RangeSet R⦄ ⦃codecs : Codecs R⦄ ⦃rm : RsMerkle⦄ ⦃tls : TlsCore⦄ where
  -- The parts of an attestation that was built.
  pub record Built (sign : Sign) (provider : CryptoProvider) (uid : List ℕ) (a : Attestation R)
      : Type 0 where
    pub hasher : HashAlgorithm
    pub hash_supported : get_hash_alg provider.hash sign.hash_alg ≡ ok hasher
    pub signer : Signer
    pub sign_supported : get_signer provider.signer sign.signature_alg ≡ ok signer
    pub commitment : Option EncodingCommitment
    pub committed :
        make_commitment sign.encoding_commitment_root sign.encoder_secret ≡ returns commitment
    pub info : ConnectionInfo
    pub ephemeral : ServerEphemKey
    pub body_eq :
        a.body
        ≡ number_body signer.verifying_key info ephemeral sign.cert_commitment commitment
            sign.extensions
    pub root : body_root a.body hasher ≡ some a.header.root
    pub message : List ℕ
    pub serialized : codecs.header.serialize a.header ≡ some message
    pub signed : signer.sign message ≡ ok a.signature

  validate_root-number_body :
      (root : Option TypedHash) (secret : Option EncoderSecret)
      (commitment : Option EncodingCommitment) (a : Attestation R)
      → make_commitment root secret ≡ returns commitment
      → field_content a.body.encoding_commitment ≡ commitment
      → validate_root root a ≡ returns tt
  unfolding validate_root
  validate_root-number_body none secret commitment a made has = refl
  validate_root-number_body (some root) secret commitment a made has =
      elim (make_commitment-root (some root) secret made) [
        | inl absent ↦ cc
        | inr (r, c, root_eq, made_eq, c_root) ↦
            rw (has, made_eq, is_equal-same (c_root ∙ sym (some-injective root r root_eq))) refl
      ]

  pub build_attestation-Built :
      (sign : Sign) (provider : CryptoProvider) (uid : List ℕ) {a : Attestation R}
      → build_attestation sign provider uid ≡ returns a
      → Built sign provider uid a
  unfolding build_attestation
  build_attestation-Built sign provider uid run =
      let (hasher, has_hash, run1) =
        from_result-bind hash_alg_not_provided (get_hash_alg provider.hash sign.hash_alg) _ run in
      let (signer, has_signer, run2) =
        from_result-bind signer_not_provided (get_signer provider.signer sign.signature_alg) _
          run1 in
      let (commitment, made, run3) =
        bind-eq-returns (make_commitment sign.encoding_commitment_root sign.encoder_secret) _
          run2 in
      let (info, _, run4) = ok_or_else-bind sign.connection_info connection_info_not_set _ run3 in
      let (ephemeral, _, run5) =
        ok_or_else-bind sign.server_ephemeral_key handshake_data_not_set _ run4 in
      let body : Body R =
        number_body signer.verifying_key info ephemeral sign.cert_commitment commitment
          sign.extensions in
      let (root, rooted, run6) = from_panic-bind (body_root body hasher) _ run5 in
      let (message, serialized, run7) =
        from_panic-bind (codecs.header.serialize (make_header uid root)) _ run6 in
      let (signature, signed, run8) =
        from_result-bind signing_failed (signer.sign message) _ run7 in
      subst (Built sign provider uid) (returns-injective _ _ run8) (record {
        hasher = hasher;
        hash_supported = has_hash;
        signer = signer;
        sign_supported = has_signer;
        commitment = commitment;
        committed = made;
        info = info;
        ephemeral = ephemeral;
        body_eq = refl;
        root = rooted;
        message = message;
        serialized = serialized;
        signed = signed;
      })

  -- If the notary's algorithms are provided under their own identifiers, then an attestation that is
  -- built from an accepted request, whatever the connection and whatever extensions the notary adds,
  -- passes the prover's check of it against the request.
  pub validate-build_attestation :
      (config : AttestationConfig) (request : Request) (provider : CryptoProvider) (uid : List ℕ)
      (info : ConnectionInfo) (key : ServerEphemKey) (secret : Option EncoderSecret)
      (extra : List Extension) {sign : Sign} {a : Attestation R}
      → ((hasher : HashAlgorithm)
          → get_hash_alg provider.hash request.hash_alg ≡ ok hasher
          → hasher.id ≡ request.hash_alg)
      → ((signer : Signer) (message : List ℕ) (signature : Signature)
          → get_signer provider.signer request.signature_alg ≡ ok signer
          → signer.sign message ≡ ok signature
          → signature.alg ≡ request.signature_alg)
      → accept_request config request ≡ returns sign
      → build_attestation (prepared sign info key secret extra) provider uid ≡ returns a
      → validate request a ≡ returns tt
  unfolding validate validate_root number_body
  validate-build_attestation config request provider uid info key secret extra {sign} {a} own_hash
        own_sig accepted built =
      let (sig_eq, hash_eq, cert_eq, root_eq, ext_eq) =
        accept_request-eq_returns config request accepted in
      let b = build_attestation-Built (prepared sign info key secret extra) provider uid built in
      let (fields, _, _, alg_eq) = body_root-tree_of a.body b.hasher b.root in
      let cert : a.body.cert_commitment.content ≡ request.server_cert_commitment =
        ap (λ x. x.cert_commitment.content) b.body_eq ∙ cert_eq in
      let sig =
        own_sig b.signer b.message a.signature
          (subst (λ x. get_signer provider.signer x ≡ ok b.signer) sig_eq b.sign_supported)
          b.signed in
      let hash =
        alg_eq
        ∙ own_hash b.hasher
            (subst (λ x. get_hash_alg provider.hash x ≡ ok b.hasher) hash_eq b.hash_supported) in
      let root =
        validate_root-number_body request.encoding_commitment_root secret b.commitment a
          (subst (λ x. make_commitment x secret ≡ returns b.commitment) root_eq b.committed)
          (ap (λ x. field_content x.encoding_commitment) b.body_eq
            ∙ field_content-next_if _ b.commitment) in
      let extensions : all_included request.extensions (field_contents a.body.extensions) ≡ true =
        subst (λ x. all_included request.extensions x ≡ true)
          (sym (
            ap (λ x. field_contents x.extensions) b.body_eq
            ∙ field_contents-number_fields _ (sign.extensions ++ extra)
            ∙ ap (◌++ extra) ext_eq))
          (all_included-append [] request.extensions extra) in
      rw (is_equal-same sig, is_equal-same hash, is_equal-same cert, root, extensions) refl
