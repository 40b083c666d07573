-- ===== src/MpcTls/Records/Nonces.antt =====
-- Sequence numbers of other records make other nonces.
use native.Mathlib.Nat.{div-div-eq-div-mul, pow-suc}
use ethdam_rope.Prelude.{ℕ, zero, suc, ◌/◌, ◌%◌, ◌^◌, ◌<◌, ◌≡◌, refl, ap, arith, length, sym, ◌∙◌}
use ethdam_rope.MpcTls.Records.{be_bytes}

pub length-be_bytes : (n x : ℕ) → length (be_bytes n x) ≡ n
unfolding be_bytes
length-be_bytes zero x = refl
length-be_bytes (suc n) x = ap suc (length-be_bytes n x)

quotient : (n x : ℕ) → x / 256 ^ n / 256 ≡ x / 256 ^ suc n
quotient n x = div-div-eq-div-mul x (256 ^ n) 256 ∙ ap (λ (d : ℕ). x / d) (sym (pow-suc 256 n))

be_bytes_inj-above : (n x y : ℕ) → x / 256 ^ n ≡ y / 256 ^ n → be_bytes n x ≡ be_bytes n y → x ≡ y
unfolding be_bytes
be_bytes_inj-above zero x y q e = omega (arith, q)
be_bytes_inj-above (suc n) x y q e =
    let head : (x / 256 ^ n) % 256 ≡ (y / 256 ^ n) % 256 = cc in
    let tail : be_bytes n x ≡ be_bytes n y = cc in
    be_bytes_inj-above n x y (omega (arith, quotient n x, quotient n y, head)) tail

-- Numbers below 2^64 with the same eight bytes are equal.
pub be_bytes_inj : (x y : ℕ) → x < 2 ^ 64 → y < 2 ^ 64 → be_bytes 8 x ≡ be_bytes 8 y → x ≡ y
be_bytes_inj x y hx hy e = be_bytes_inj-above 8 x y (omega arith) e
