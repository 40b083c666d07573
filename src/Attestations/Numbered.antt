-- ===== src/Attestations/Numbered.antt =====
-- The fields of a body that was built are numbered from 0 on, so that their order as leaves is that of
-- their identifiers.
use ethdam_rope.Prelude.{
  ℕ, suc, ◌+◌, ◌^◌, ◌≤◌, ◌<◌, ◌≡◌, refl, ap, sym, subst, ◌∙◌, List, [], ◌∷◌, ◌++◌, map, length,
  get_elem?, Option, none, some, arith, Increasing, >>=-eq-some,
}
use mathlib.Core.Option.{some-injective}
use ethdam_rope.RangeSets.{RangeSet}
use ethdam_rope.Hashes.{Hash, HashAlgorithm, hash_separated}
use ethdam_rope.Merkle.Interfaces.{Ascends, leaves_at}
use ethdam_rope.Merkle.Complete.{zip}
use ethdam_rope.Fields.{FieldId, Field, next_field}
use ethdam_rope.Encodings.Commitment.{EncodingCommitment}
use ethdam_rope.Connections.{ConnectionInfo, ServerEphemKey, ServerCertCommitment}
use ethdam_rope.Signing.{VerifyingKey}
use ethdam_rope.Attestations.{
  Extension, Codec, Codecs, field_index, field_hash, hash_field, hash_each, hash_all,
  option_to_list,
}
use ethdam_rope.Attestations.Build.{number_fields, number_body, next_if}
use ethdam_rope.Attestations.Proof.{indexed}
use native.Mathlib.Nat.{mod-eq_of_lt}

-- The identifiers are `k`, `k + 1` and so on.
abbrev pub Counts : ℕ → List (FieldId × Hash) → Type 0
Counts k [] = Unit {0}
Counts k (field ∷ fields) = (field.0.id ≡ k) × Counts (k + 1) fields

Counts-append :
    (k : ℕ) (xs ys : List (FieldId × Hash))
    → Counts k xs
    → Counts (k + length xs) ys
    → Counts k (xs ++ ys)
Counts-append k [] ys cx cy = subst (λ n. Counts n ys) (omega arith) cy
Counts-append k (x ∷ xs) ys cx cy =
    (cx.0, Counts-append (k + 1) xs ys cx.1 (subst (λ n. Counts n ys) (omega arith) cy))

pub Counts-Increasing :
    (k : ℕ) (fs : List (FieldId × Hash)) → Counts k fs → Increasing field_index fs
Counts-Increasing k [] c = tt
Counts-Increasing k (f ∷ []) c = tt
Counts-Increasing k (f ∷ g ∷ fs) c =
    (omega (arith, c.0, c.1.0), Counts-Increasing (k + 1) (g ∷ fs) c.1)

pub Counts-Ascends :
    (k : ℕ) (fs : List (FieldId × Hash)) → Counts k fs → Ascends (map field_index fs)
Counts-Ascends k [] c = tt
Counts-Ascends k (f ∷ []) c = tt
Counts-Ascends k (f ∷ g ∷ fs) c = (omega (arith, c.0, c.1.0), Counts-Ascends (k + 1) (g ∷ fs) c.1)

pub leaves_at-Counts :
    (k : ℕ) (fs : List (FieldId × Hash)) (all : List Hash)
    → Counts k fs
    → ((j : ℕ) → get_elem? (map field_hash fs) j ≡ get_elem? all (k + j))
    → leaves_at all (map field_index fs) ≡ some (map field_hash fs)
leaves_at-Counts k [] all c h = refl
leaves_at-Counts k (f ∷ fs) all c h =
    let here : get_elem? all f.0.id ≡ some (field_hash f) =
      ap (get_elem? all) (omega (arith, c.0)) ∙ sym (h 0) in
    rw
      (
        here,
        leaves_at-Counts (k + 1) fs all c.1 (λ j. h (suc j) ∙ ap (get_elem? all) (omega arith)),
      )
      refl

pub zip-map :
    (fs : List (FieldId × Hash)) → zip (map field_index fs) (map field_hash fs) ≡ map indexed fs
zip-map [] = refl
zip-map (f ∷ fs) = ap (indexed f ∷◌) (zip-map fs)

hash_field-id :
    {T : Type 0} (codec : Codec T) (hasher : HashAlgorithm) (field : Field T) {f : FieldId × Hash}
    → hash_field codec hasher field ≡ some f
    → f.0 ≡ field.id
hash_field-id codec hasher field run =
    let (value, _, eq) =
      >>=-eq-some (hash_separated ⦃s = codec.bytes⦄ ⦃d = codec.separator⦄ hasher field.content) _
        run in
    ap (λ x. x.0) (sym (some-injective _ _ eq))

hash_each-Counts :
    {T : Type 0} (codec : Codec T) (hasher : HashAlgorithm) (id : FieldId) (contents : List T)
    {fs : List (FieldId × Hash)}
    → id.id + length contents < 2 ^ 32
    → hash_each codec hasher (number_fields id contents) ≡ some fs
    → Counts id.id fs × (length fs ≡ length contents)
unfolding hash_each number_fields
hash_each-Counts codec hasher id [] {fs} h run =
    subst (λ x. Counts id.id x × (length x ≡ 0)) (some-injective _ _ run) (tt, refl)
hash_each-Counts codec hasher id (content ∷ contents) {fs} h run =
    let next = (next_field id content).1 in
    let (f, first, run1) = >>=-eq-some (hash_field codec hasher (next_field id content).0) _ run in
    let (rest, more, run2) =
      >>=-eq-some (hash_each codec hasher (number_fields next contents)) _ run1 in
    let step : next.id ≡ id.id + 1 = mod-eq_of_lt (omega arith) in
    let (counts, len) = hash_each-Counts codec hasher next contents (omega arith) more in
    subst (λ x. Counts id.id x × (length x ≡ suc (length contents))) (some-injective _ _ run2)
      (
        (
          ap (λ x. x.id) (hash_field-id codec hasher (next_field id content).0 first),
          subst (λ n. Counts n rest) step counts,
        ),
        ap suc len,
      )

-- The optional field.
next_if-Counts :
    {T : Type 0} (codec : Codec T) (hasher : HashAlgorithm) (id : FieldId) (content : Option T)
    {fs : List (FieldId × Hash)}
    → id.id + 1 < 2 ^ 32
    → hash_each codec hasher (option_to_list (next_if id content).0) ≡ some fs
    → Counts id.id fs × ((next_if id content).1.id ≡ id.id + length fs) × (length fs ≤ 1)
unfolding hash_each
next_if-Counts codec hasher id none h run =
    subst (λ x. Counts id.id x × (id.id ≡ id.id + length x) × (length x ≤ 1))
      (some-injective _ _ run) (tt, omega arith, omega arith)
next_if-Counts codec hasher id (some content) h run =
    let (f, first, run1) = >>=-eq-some (hash_field codec hasher (next_field id content).0) _ run in
    subst (λ x. Counts id.id x × ((next_field id content).1.id ≡ id.id + length x) × (length x ≤ 1))
      (some-injective _ _ run1)
      (
        (ap (λ x. x.id) (hash_field-id codec hasher (next_field id content).0 first), tt),
        mod-eq_of_lt (omega arith),
        omega arith,
      )

module _ (R : Type 0) ⦃rs : RangeSet R⦄ ⦃codecs : Codecs R⦄ where
  -- The fields of a body with few enough extensions are numbered from 0 on, before they are sorted.
  pub hash_all-Counts :
      (key : VerifyingKey) (info : ConnectionInfo) (ephemeral : ServerEphemKey)
      (cert : ServerCertCommitment) (commitment : Option EncodingCommitment)
      (extensions : List Extension) (hasher : HashAlgorithm) {fs : List (FieldId × Hash)}
      → length extensions + 5 < 2 ^ 32
      → hash_all (number_body {R = R} key info ephemeral cert commitment extensions) hasher
        ≡ some fs
      → Counts 0 fs × (0 < length fs)
  unfolding hash_all number_body hash_each
  hash_all-Counts key info ephemeral cert commitment extensions hasher h run =
      let id4 : FieldId = record { id = 4 } in
      let (f0, r0, run1) =
        >>=-eq-some
          (hash_field codecs.verifying_key hasher
            (record { id = record { id = 0 }; content = key }))
          _ run in
      let (f1, r1, run2) =
        >>=-eq-some
          (hash_field codecs.connection_info hasher
            (record { id = record { id = 1 }; content = info }))
          _ run1 in
      let (f2, r2, run3) =
        >>=-eq-some
          (hash_field codecs.server_ephemeral_key hasher
            (record { id = record { id = 2 }; content = ephemeral }))
          _ run2 in
      let (f3, r3, run4) =
        >>=-eq-some
          (hash_field codecs.cert_commitment hasher
            (record { id = record { id = 3 }; content = cert }))
          _ run3 in
      let (fe, re, run5) =
        >>=-eq-some
          (hash_each codecs.encoding_commitment hasher (option_to_list (next_if id4 commitment).0))
          _ run4 in
      let (fx, rx, run6) =
        >>=-eq-some
          (hash_each codecs.extension hasher (number_fields (next_if id4 commitment).1 extensions))
          _ run5 in
      let (ce, next, few) =
        next_if-Counts codecs.encoding_commitment hasher id4 commitment (omega arith) re in
      let (cx, len) =
        hash_each-Counts codecs.extension hasher (next_if id4 commitment).1 extensions (omega arith)
          rx in
      subst (λ x. Counts 0 x × (0 < length x)) (some-injective _ _ run6)
        (
          (
            ap (λ x. x.id) (hash_field-id codecs.verifying_key hasher _ r0),
            (
              ap (λ x. x.id) (hash_field-id codecs.connection_info hasher _ r1),
              (
                ap (λ x. x.id) (hash_field-id codecs.server_ephemeral_key hasher _ r2),
                (
                  ap (λ x. x.id) (hash_field-id codecs.cert_commitment hasher _ r3),
                  Counts-append 4 fe fx ce (subst (λ n. Counts n fx) next cx),
                ),
              ),
            ),
          ),
          omega arith,
        )
