-- ===== src/Outcomes.antt =====
-- A function that returns, fails with an error of the source, or panics, and chains by `do`.
use ethdam_rope.Prelude.{
  ◌≡◌, refl, Option, none, some, Bool, true, false, Result, ok, err, MayPanic,
}

pub data Outcome {ℓ κ} (E : Type ℓ) (A : Type κ) : Type (ℓ ⊔ κ) where
  returns : A → Outcome E A
  fails : E → Outcome E A
  panics : Outcome E A

infixl 5 ◌>>=◌ ◌>>◌
abbrev pub ◌>>=◌ {ℓ κ μ} :
    {E : Type ℓ} {A : Type κ} {B : Type μ} → Outcome E A → (A → Outcome E B) → Outcome E B
returns a >>= f = f a
fails e >>= f = fails e
panics >>= f = panics

abbrev pub ◌>>◌ {ℓ μ} : {E : Type ℓ} {B : Type μ} → Outcome E (Unit {0}) → Outcome E B → Outcome E B
m >> k = m >>= λ _. k

-- `?` on a result, with the conversion of its error.
abbrev pub from_result {ℓ κ μ} :
    {D : Type ℓ} {E : Type κ} {A : Type μ} → (D → E) → Result D A → Outcome E A
from_result f (ok a) = returns a
from_result f (err e) = fails (f e)

abbrev pub from_panic {ℓ κ} : {E : Type ℓ} {A : Type κ} → MayPanic A → Outcome E A
from_panic none = panics
from_panic (some a) = returns a

abbrev pub ok_or_else {ℓ κ} : {E : Type ℓ} {A : Type κ} → Option A → E → Outcome E A
ok_or_else none e = fails e
ok_or_else (some a) e = returns a

-- if !condition { return Err(e) }
abbrev pub guard_or {ℓ} : {E : Type ℓ} → Bool → E → Outcome E (Unit {0})
guard_or true e = returns tt
guard_or false e = fails e

-- `map_err`.
abbrev pub map_fails {ℓ κ μ} :
    {D : Type ℓ} {E : Type κ} {A : Type μ} → (D → E) → Outcome D A → Outcome E A
map_fails f (returns a) = returns a
map_fails f (fails e) = fails (f e)
map_fails f panics = panics

-- Inversion of a chain that returned.
pub bind-eq-returns {ℓ κ μ} :
    {E : Type ℓ} {A : Type κ} {B : Type μ} (m : Outcome E A) (f : A → Outcome E B) {b : B}
    → (m >>= f) ≡ returns b
    → (a : A) × (m ≡ returns a) × (f a ≡ returns b)
bind-eq-returns (returns a) f h = (a, refl, h)
bind-eq-returns (fails e) f h = cc
bind-eq-returns panics f h = cc

pub returns-injective {ℓ κ} :
    {E : Type ℓ} {A : Type κ} (a b : A) → Path (Outcome E A) (returns a) (returns b) → a ≡ b
returns-injective a b h = cc

-- Inversion of the first step of a chain that returned, by its form.
module _ {ℓ κ μ} {E : Type ℓ} {A : Type κ} {B : Type μ} where
  pub from_panic-bind :
      (m : MayPanic A) (f : A → Outcome E B) {b : B}
      → (from_panic m >>= f) ≡ returns b
      → (a : A) × (m ≡ some a) × (f a ≡ returns b)
  from_panic-bind none f h = cc
  from_panic-bind (some a) f h = (a, refl, h)

  pub ok_or_else-bind :
      (m : Option A) (e : E) (f : A → Outcome E B) {b : B}
      → (ok_or_else m e >>= f) ≡ returns b
      → (a : A) × (m ≡ some a) × (f a ≡ returns b)
  ok_or_else-bind none e f h = cc
  ok_or_else-bind (some a) e f h = (a, refl, h)

  pub from_result-bind {ν} :
      {D : Type ν} (c : D → E) (m : Result D A) (f : A → Outcome E B) {b : B}
      → (from_result c m >>= f) ≡ returns b
      → (a : A) × (m ≡ ok a) × (f a ≡ returns b)
  from_result-bind c (ok a) f h = (a, refl, h)
  from_result-bind c (err e) f h = cc

pub guard_or-bind {ℓ κ} :
    {E : Type ℓ} {B : Type κ} (c : Bool) (e : E) (f : Unit {0} → Outcome E B) {b : B}
    → (guard_or c e >>= f) ≡ returns b
    → (c ≡ true) × (f tt ≡ returns b)
guard_or-bind true e f h = (refl, h)
guard_or-bind false e f h = cc

pub map_fails-bind {ℓ κ μ ν} :
    {D : Type ν} {E : Type ℓ} {A : Type κ} {B : Type μ} (c : D → E) (m : Outcome D A)
    (f : A → Outcome E B) {b : B}
    → (map_fails c m >>= f) ≡ returns b
    → (a : A) × (m ≡ returns a) × (f a ≡ returns b)
map_fails-bind c (returns a) f h = (a, refl, h)
map_fails-bind c (fails e) f h = cc
map_fails-bind c panics f h = cc

pub from_panic-eq-returns {ℓ κ} :
    {E : Type ℓ} {A : Type κ} (m : MayPanic A) {a : A}
    → Path (Outcome E A) (from_panic m) (returns a)
    → m ≡ some a
from_panic-eq-returns none h = cc
from_panic-eq-returns (some a) h = cc
