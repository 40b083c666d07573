-- ===== src/Prelude/Results.antt =====
-- Code that may panic returns an `Option`, of which `none` is the panic, and chains by `do`.
use Prim.Native.Nat.{ℕ}
use mathlib.Core.Path.{◌≡◌, refl}
use mathlib.Core.Option.{Option, none, some}

infixl 5 ◌>>=◌ ◌>>◌
abbrev pub ◌>>=◌ {ℓ κ} : {A : Type ℓ} {B : Type κ} → Option A → (A → Option B) → Option B
none >>= f = none
some a >>= f = f a

abbrev pub ◌>>◌ {ℓ} : {B : Type ℓ} → Option (Unit {0}) → Option B → Option B
m >> k = m >>= λ _. k

-- `unwrap_or_default` at a number.
abbrev pub or_default : Option ℕ → ℕ
or_default none = 0
or_default (some n) = n

-- `Result<A, E>` of the source.
pub data Result {ℓ κ} (E : Type ℓ) (A : Type κ) : Type (ℓ ⊔ κ) where
  ok : A → Result E A
  err : E → Result E A

-- A function that may panic: `none` is the panic.
abbrev pub MayPanic {ℓ} : Type ℓ → Type ℓ
MayPanic A = Option A

-- `expect` and `unwrap`.
abbrev pub expect {ℓ κ} : {E : Type ℓ} {A : Type κ} → Result E A → MayPanic A
expect (ok a) = some a
expect (err e) = none

-- Inversion of a chain that returned.
pub >>=-eq-some {ℓ κ} :
    {A : Type ℓ} {B : Type κ} (m : Option A) (f : A → Option B) {b : B}
    → (m >>= f) ≡ some b
    → (a : A) × (m ≡ some a) × (f a ≡ some b)
>>=-eq-some none f h = cc
>>=-eq-some (some a) f h = (a, refl, h)
