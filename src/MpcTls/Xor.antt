-- ===== src/MpcTls/Xor.antt =====
-- Bytes combined by exclusive or, as `iter_mut().zip(other).for_each(|(a, b)| *a ^= b)`: the bytes
-- beyond the shorter of the two stay.
use Prim.Native.Nat.{bit_xor}
use ethdam_rope.Prelude.{
  false, ℕ, zero, suc, ◌<◌, ◌≡◌, refl, ap, arith, List, [], ◌∷◌, length, Bool, true, ◌&&◌, ◌==◌,
  not, if◌then◌else◌,
}

unfoldable pub xor_with : List ℕ → List ℕ → List ℕ
xor_with [] bs = []
xor_with (a ∷ as') [] = a ∷ as'
xor_with (a ∷ as') (b ∷ bs) = bit_xor a b ∷ xor_with as' bs

-- The two keystreams of `DecryptPrivate`: `*a ^= b ^ c`, where both have a byte.
unfoldable pub xor_with_two : List ℕ → List ℕ → List ℕ → List ℕ
xor_with_two [] bs cs = []
xor_with_two (a ∷ as') [] cs = a ∷ as'
xor_with_two (a ∷ as') (b ∷ bs) [] = a ∷ as'
xor_with_two (a ∷ as') (b ∷ bs) (c ∷ cs) = bit_xor a (bit_xor b c) ∷ xor_with_two as' bs cs

-- Every value is a byte.
abbrev pub Bytes : List ℕ → Type 0
Bytes [] = Unit {0}
Bytes (b ∷ bs) = (b < 256) × Bytes bs

-- Some number below the second argument fails the test.
has_fault : (ℕ → Bool) → ℕ → Bool
has_fault test zero = false
has_fault test (suc bound) = if test bound then has_fault test bound else true

passes : (test : ℕ → Bool) (bound x : ℕ) → x < bound → has_fault test bound ≡ false → test x ≡ true
unfolding has_fault
passes test zero x below none_fail = absurd (omega arith)
passes test (suc bound) x below none_fail = ground (arith, passes test bound x)

-- Two bytes on which combining twice gives the first, from either side.
abbrev cancels : ℕ → ℕ → Bool
cancels b k = bit_xor b (bit_xor b k) == k && bit_xor (bit_xor b k) k == b

abbrev row_cancels : ℕ → Bool
row_cancels b = not (has_fault (cancels b) 256)

no_fault : has_fault row_cancels 256 ≡ false
unfolding has_fault
no_fault = refl

bytes_cancel :
    (b k : ℕ) → b < 256 → k < 256 → (bit_xor b (bit_xor b k) ≡ k) × (bit_xor (bit_xor b k) k ≡ b)
bytes_cancel b k hb hk =
    let row = passes row_cancels 256 b hb no_fault in
    let cell = passes (cancels b) 256 k hk (ground arith) in (ground arith, ground arith)

pub length-xor_with : (as' bs : List ℕ) → length (xor_with as' bs) ≡ length as'
unfolding xor_with
length-xor_with [] bs = refl
length-xor_with (a ∷ as') [] = refl
length-xor_with (a ∷ as') (b ∷ bs) = ap suc (length-xor_with as' bs)

-- Combining with the same keystream twice gives the bytes back.
pub xor_with_twice : (as' ks : List ℕ) → Bytes as' → Bytes ks → xor_with (xor_with as' ks) ks ≡ as'
unfolding xor_with
xor_with_twice [] ks h k = refl
xor_with_twice (a ∷ as') [] h k = refl
xor_with_twice (a ∷ as') (b ∷ ks) h k =
    cc ((bytes_cancel a b h.0 k.0).1, xor_with_twice as' ks h.1 k.1)

-- A one-time pad over the keystream falls out.
pub xor_with_two-masked :
    (text pad ks : List ℕ)
    → length pad ≡ length ks
    → Bytes pad
    → Bytes ks
    → xor_with_two text pad (xor_with pad ks) ≡ xor_with text ks
unfolding xor_with xor_with_two
xor_with_two-masked [] pad ks e hp hk = refl
xor_with_two-masked (t ∷ text) [] [] e hp hk = refl
xor_with_two-masked (t ∷ text) [] (k ∷ ks) e hp hk = absurd (omega arith)
xor_with_two-masked (t ∷ text) (p ∷ pad) [] e hp hk = absurd (omega arith)
xor_with_two-masked (t ∷ text) (p ∷ pad) (k ∷ ks) e hp hk =
    cc ((bytes_cancel p k hp.0 hk.0).0, xor_with_two-masked text pad ks (omega arith) hp.1 hk.1)
