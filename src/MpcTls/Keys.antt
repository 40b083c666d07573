-- ===== src/MpcTls/Keys.antt =====
-- Sequence numbers with the nonces that go with them, in ascending order.
use ethdam_rope.Prelude.{
  ℕ, ◌+◌, ◌≤◌, ◌<◌, ◌^◌, ◌≡◌, ◌≢◌, arith, List, [], ◌∷◌, ◌++◌, some, get_elem?, zero, suc, sym, ◌∙◌,
  ap,
}
use ethdam_rope.MpcTls.Records.{be_bytes}
use ethdam_rope.MpcTls.Records.Nonces.{be_bytes_inj}

pub record Key : Type 0 where
  pub seq : ℕ
  pub nonce : List ℕ

-- Ascending numbers from `lo` on and below `hi`, each with its nonce.
abbrev pub Numbered : ℕ → ℕ → List Key → Type 0
Numbered lo hi [] = lo ≤ hi
Numbered lo hi (k ∷ ks) = (lo ≤ k.seq) × (k.nonce ≡ be_bytes 8 k.seq) × Numbered (k.seq + 1) hi ks

pub Numbered-le : (lo hi : ℕ) (ks : List Key) → Numbered lo hi ks → lo ≤ hi
Numbered-le lo hi [] n = n
Numbered-le lo hi (k ∷ ks) n = omega (arith, Numbered-le (k.seq + 1) hi ks n.2)

pub Numbered-prefix : (lo hi : ℕ) (ks js : List Key) → Numbered lo hi (ks ++ js) → Numbered lo hi ks
Numbered-prefix lo hi [] js n = Numbered-le lo hi js n
Numbered-prefix lo hi (k ∷ ks) js n = (n.0, n.1, Numbered-prefix (k.seq + 1) hi ks js n.2)

pub Numbered-snoc :
    (lo hi : ℕ) (ks : List Key) (k : Key)
    → Numbered lo hi ks
    → k.seq ≡ hi
    → k.nonce ≡ be_bytes 8 hi
    → Numbered lo (hi + 1) (ks ++ k ∷ [])
Numbered-snoc lo hi [] k n e f = (omega arith, rw e f, omega arith)
Numbered-snoc lo hi (j ∷ ks) k n e f = (n.0, n.1, Numbered-snoc (j.seq + 1) hi ks k n.2 e f)

pub Numbered-weaken :
    (lo hi hi' : ℕ) (ks : List Key) → hi ≤ hi' → Numbered lo hi ks → Numbered lo hi' ks
Numbered-weaken lo hi hi' [] h n = omega arith
Numbered-weaken lo hi hi' (k ∷ ks) h n = (n.0, n.1, Numbered-weaken (k.seq + 1) hi hi' ks h n.2)

Numbered-above :
    (lo hi : ℕ) (ks : List Key) (i : ℕ) {k : Key}
    → Numbered lo hi ks
    → get_elem? ks i ≡ some k
    → (lo ≤ k.seq) × (k.seq + 1 ≤ hi) × (k.nonce ≡ be_bytes 8 k.seq)
Numbered-above lo hi [] i n e = cc
Numbered-above lo hi (j ∷ ks) zero {k} n e =
    let same : j ≡ k = cc in rw (← same) (n.0, Numbered-le (j.seq + 1) hi ks n.2, n.1)
Numbered-above lo hi (j ∷ ks) (suc i) n e =
    let (h, below, made) = Numbered-above (j.seq + 1) hi ks i n.2 e in (omega arith, below, made)

-- Two places of numbered keys have other nonces.
pub Numbered-nonces :
    (lo hi : ℕ) (ks : List Key) (i j : ℕ) {k l : Key}
    → hi ≤ 2 ^ 64
    → Numbered lo hi ks
    → i < j
    → get_elem? ks i ≡ some k
    → get_elem? ks j ≡ some l
    → k.nonce ≢ l.nonce
Numbered-nonces lo hi [] i j h n lt ei ej = cc
Numbered-nonces lo hi (x ∷ ks) i zero h n lt ei ej = absurd (omega arith)
Numbered-nonces lo hi (x ∷ ks) (suc i) (suc j) h n lt ei ej =
    Numbered-nonces (x.seq + 1) hi ks i j h n.2 (omega arith) ei ej
Numbered-nonces lo hi (x ∷ ks) zero (suc j) {k} {l} h n lt ei ej =
    let same : x ≡ k = cc in
    let (above, below, made) = Numbered-above (x.seq + 1) hi ks j n.2 ej in
    let rest = Numbered-le (x.seq + 1) hi ks n.2 in
    λ e.
      let bytes : be_bytes 8 x.seq ≡ be_bytes 8 l.seq =
        sym n.1 ∙ ap (λ (y : Key). y.nonce) same ∙ e ∙ made in
      absurd (omega (arith, be_bytes_inj x.seq l.seq (omega arith) (omega arith) bytes))

Numbered-lower : (lo lo' hi : ℕ) (ks : List Key) → lo' ≤ lo → Numbered lo hi ks → Numbered lo' hi ks
Numbered-lower lo lo' hi [] h n = omega arith
Numbered-lower lo lo' hi (k ∷ ks) h n = (omega (arith, n.0), n.1, n.2)

pub Numbered-suffix : (lo hi : ℕ) (ks js : List Key) → Numbered lo hi (ks ++ js) → Numbered lo hi js
Numbered-suffix lo hi [] js n = n
Numbered-suffix lo hi (k ∷ ks) js n =
    Numbered-lower (k.seq + 1) lo hi js (omega (arith, n.0))
      (Numbered-suffix (k.seq + 1) hi ks js n.2)
