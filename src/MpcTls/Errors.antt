-- ===== src/MpcTls/Errors.antt =====
-- tlsn/crates/mpc-tls/src/error.rs and lib.rs: the errors by their kind, without their messages, and
-- the monad of the methods: a method that fails keeps what it had changed before.
use ethdam_rope.Prelude.{subst, ◌≡◌, refl, Option, none, some, Result, ok, err, Bool, true, false}

-- `panic` is no error value of the source: it stands for a panic.
pub data MpcTlsError : Type 0 where
  peer : MpcTlsError
  io : MpcTlsError
  actor : MpcTlsError
  state : MpcTlsError
  alloc : MpcTlsError
  preprocess : MpcTlsError
  handshake : MpcTlsError
  record_layer : MpcTlsError
  other : MpcTlsError
  panic : MpcTlsError

pub data Role : Type 0 where
  leader : Role
  follower : Role

abbrev pub Fallible {ℓ} : Type ℓ → Type ℓ
Fallible A = Result MpcTlsError A

abbrev pub Step {ℓ κ} : Type ℓ → Type κ → Type (ℓ ⊔ κ)
Step S A = S → Fallible A × S

abbrev pub pure {ℓ κ} : {S : Type ℓ} {A : Type κ} → A → Step S A
pure a s = (ok a, s)

abbrev pub fail {ℓ κ} : {S : Type ℓ} {A : Type κ} → MpcTlsError → Step S A
fail e s = (err e, s)

abbrev pub and_then {ℓ κ μ} :
    {S : Type ℓ} {A : Type κ} {B : Type μ} → Fallible A × S → (A → Step S B) → Fallible B × S
and_then (ok a, s) f = f a s
and_then (err e, s) f = (err e, s)

infixl 5 ◌>>=◌ ◌>>◌
abbrev pub ◌>>=◌ {ℓ κ μ} :
    {S : Type ℓ} {A : Type κ} {B : Type μ} → Step S A → (A → Step S B) → Step S B
◌>>=◌ m f s = and_then (m s) f

abbrev pub ◌>>◌ {ℓ μ} : {S : Type ℓ} {B : Type μ} → Step S (Unit {0}) → Step S B → Step S B
m >> k = m >>= λ _. k

-- A result with no effect on the state.
abbrev pub lift {ℓ κ} : {S : Type ℓ} {A : Type κ} → Fallible A → Step S A
lift r s = (r, s)

abbrev pub guard {ℓ} : {S : Type ℓ} → Bool → MpcTlsError → Step S (Unit {0})
guard true e s = (ok tt, s)
guard false e s = (err e, s)

abbrev pub ok_or {ℓ} : {A : Type ℓ} → Option A → MpcTlsError → Fallible A
ok_or (some a) e = ok a
ok_or none e = err e

-- A chain that succeeded, step by step.
pub and_then-eq-ok {ℓ κ μ} :
    {S : Type ℓ} {A : Type κ} {B : Type μ} (r : Fallible A × S) (f : A → Step S B) {b : B} {s' : S}
    → and_then r f ≡ (ok b, s')
    → (a : A) × (s : S) × (r ≡ (ok a, s)) × (f a s ≡ (ok b, s'))
and_then-eq-ok (ok a, s) f e = (a, s, refl, e)
and_then-eq-ok (err x, s) f e = cc

-- `map_err(MpcTlsError::record_layer)`.
abbrev pub to_record_layer {ℓ} : {A : Type ℓ} → Fallible A → Fallible A
to_record_layer (ok a) = ok a
to_record_layer (err e) = err record_layer

abbrev pub as_record_layer {ℓ κ} : {S : Type ℓ} {A : Type κ} → Step S A → Step S A
as_record_layer m s = let (r, s') = m s in (to_record_layer r, s')

-- What holds of the value and of the state of a step that succeeded.
abbrev pub WhenOk {ℓ κ μ} : {S : Type ℓ} {A : Type κ} → (A → S → Type μ) → Fallible A × S → Type μ
WhenOk Q (ok a, s) = Q a s
WhenOk Q (err e, s) = Unit

pub WhenOk-and_then {ℓ κ μ ν ρ} :
    {S : Type ℓ} {A : Type κ} {B : Type μ} (P : A → S → Type ν) (Q : B → S → Type ρ)
    (r : Fallible A × S) (f : A → Step S B)
    → WhenOk P r
    → ((a : A) (s : S) → P a s → WhenOk Q (f a s))
    → WhenOk Q (and_then r f)
WhenOk-and_then P Q (ok a, s) f p k = k a s p
WhenOk-and_then P Q (err e, s) f p k = tt

pub WhenOk-result {ℓ κ μ} :
    {S : Type ℓ} {A : Type κ} (Q : A → S → Type μ) (r : Fallible A) (s : S)
    → ((a : A) → Q a s)
    → WhenOk Q (r, s)
WhenOk-result Q (ok a) s k = k a
WhenOk-result Q (err e) s k = tt

pub WhenOk-guard {ℓ μ} :
    {S : Type ℓ} (Q : S → Type μ) (b : Bool) (x : MpcTlsError) (s : S)
    → Q s
    → WhenOk (λ u t. Q t) (guard b x s)
WhenOk-guard Q true x s q = q
WhenOk-guard Q false x s q = tt

pub WhenOk-eq_ok {ℓ κ μ} :
    {S : Type ℓ} {A : Type κ} (Q : A → S → Type μ) (r : Fallible A × S) {a : A} {s : S}
    → WhenOk Q r
    → r ≡ (ok a, s)
    → Q a s
WhenOk-eq_ok Q r w e = subst (WhenOk Q) e w

-- A step of which nothing is known.
pub WhenOk-any {ℓ κ μ ρ} :
    {S : Type ℓ} {A : Type κ} {B : Type μ} (Q : B → S → Type ρ) (r : Fallible A × S)
    (f : A → Step S B)
    → ((a : A) (s : S) → WhenOk Q (f a s))
    → WhenOk Q (and_then r f)
WhenOk-any Q (ok a, s) f k = k a s
WhenOk-any Q (err e, s) f k = tt

pub WhenOk-map {ℓ κ μ ν} :
    {S : Type ℓ} {A : Type κ} (P : A → S → Type μ) (Q : A → S → Type ν) (r : Fallible A × S)
    → WhenOk P r
    → ((a : A) (s : S) → P a s → Q a s)
    → WhenOk Q r
WhenOk-map P Q (ok a, s) p k = k a s p
WhenOk-map P Q (err e, s) p k = tt
