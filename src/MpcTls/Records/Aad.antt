-- ===== src/MpcTls/Records/Aad.antt =====
-- The additional data of a record determines its number, type, version and length.
use ethdam_rope.Prelude.{ℕ, ◌/◌, ◌%◌, ◌^◌, ◌<◌, ◌≡◌, ap, arith, List, ◌∷◌, ◌++◌, take, drop}
use ethdam_rope.MpcTls.Records.{ContentType, get_u8, be_bytes, make_tls12_aad}
use ethdam_rope.MpcTls.Records.Nonces.{be_bytes_inj}

be_bytes_2_inj : (x y : ℕ) → be_bytes 2 x ≡ be_bytes 2 y → x % 2 ^ 16 ≡ y % 2 ^ 16
unfolding be_bytes
be_bytes_2_inj x y e =
    let high : (x / 256 ^ 1) % 256 ≡ (y / 256 ^ 1) % 256 = cc in
    let low : (x / 256 ^ 0) % 256 ≡ (y / 256 ^ 0) % 256 = cc in omega (arith, high, low)

-- Records with the same additional data have the same sequence number, type byte and version, and
-- lengths that are equal modulo 2^16.
pub make_tls12_aad_inj :
    (seq seq' : ℕ) (typ typ' : ContentType) (version version' len len' : ℕ)
    → seq < 2 ^ 64
    → seq' < 2 ^ 64
    → version < 2 ^ 16
    → version' < 2 ^ 16
    → make_tls12_aad seq typ version len ≡ make_tls12_aad seq' typ' version' len'
    → (seq ≡ seq')
      × (get_u8 typ ≡ get_u8 typ')
      × (version ≡ version')
      × (len % 2 ^ 16 ≡ len' % 2 ^ 16)
unfolding make_tls12_aad be_bytes
make_tls12_aad_inj seq seq' typ typ' version version' len len' hs hs' hv hv' e =
    let at_seq : be_bytes 8 seq ≡ be_bytes 8 seq' = ap (take 8) e in
    let rest : get_u8 typ ∷ be_bytes 2 version ++ be_bytes 2 len
        ≡ get_u8 typ' ∷ be_bytes 2 version' ++ be_bytes 2 len' =
      ap (drop 8) e in
    let at_version : be_bytes 2 version ≡ be_bytes 2 version' =
      ap (λ (xs : List ℕ). take 2 (drop 1 xs)) rest in
    let at_len : be_bytes 2 len ≡ be_bytes 2 len' = ap (drop 3) rest in
    (
      be_bytes_inj seq seq' hs hs' at_seq,
      cc,
      omega (arith, be_bytes_2_inj version version' at_version),
      be_bytes_2_inj len len' at_len,
    )
