-- ===== src/MpcTls/Session/Keeps.antt =====
-- What a chain of steps leaves of the record layer, whether it succeeds or fails.
use ethdam_rope.Prelude.{ok, err, Bool, true, false}
use ethdam_rope.MpcTls.Errors.{Step, Fallible, MpcTlsError, and_then, guard}
use ethdam_rope.MpcTls.RecordLayer.{RecordLayer}
use ethdam_rope.MpcTls.Queue.{Session, unlocked}

module _ {V H : Type 0} where
  -- From a layer with `P`, the step leaves one with `Q`, on every outcome.
  abbrev pub Leaves :
      {A : Type 0}
      → (RecordLayer H → Type 0)
      → (RecordLayer H → Type 0)
      → Step (Session V H) A
      → Type 0
  Leaves P Q m = (s : Session V H) → P s.layer → Q (m s).1.layer

  pub and_then-Leaves :
      {A B : Type 0} (P Q : RecordLayer H → Type 0) (r : Fallible A × Session V H)
      (f : A → Step (Session V H) B)
      → P (r.1).layer
      → ((l : RecordLayer H) → P l → Q l)
      → ((a : A) → Leaves P Q (f a))
      → Q (and_then r f).1.layer
  and_then-Leaves P Q (ok a, s) f p weaken k = k a s p
  and_then-Leaves P Q (err e, s) f p weaken k = weaken s.layer p

  -- A chain whose steps keep `P`.
  pub keep :
      {A B : Type 0} (P : RecordLayer H → Type 0) (r : Fallible A × Session V H)
      (f : A → Step (Session V H) B)
      → P (r.1).layer
      → ((a : A) → Leaves P P (f a))
      → P (and_then r f).1.layer
  keep P r f p k = and_then-Leaves P P r f p (λ l x. x) k

  -- The layer has `Q` if the step succeeded, and `P` if it failed.
  abbrev pub Ends :
      {A : Type 0}
      → (RecordLayer H → Type 0)
      → (RecordLayer H → Type 0)
      → Fallible A × Session V H
      → Type 0
  Ends P Q (ok a, s) = Q s.layer
  Ends P Q (err e, s) = P s.layer

  -- A chain whose steps keep `P`, up to the last one, which may give `Q`.
  pub and_then-Ends :
      {A B : Type 0} (P Q : RecordLayer H → Type 0) (r : Fallible A × Session V H)
      (f : A → Step (Session V H) B)
      → P (r.1).layer
      → ((a : A) (s : Session V H) → P s.layer → Ends P Q (f a s))
      → Ends P Q (and_then r f)
  and_then-Ends P Q (ok a, s) f p k = k a s p
  and_then-Ends P Q (err e, s) f p k = p

  -- Where `Q` gives `P`, all outcomes have `P`, and `Q` on all outcomes is enough.
  pub Ends-weaken :
      {A : Type 0} (P Q : RecordLayer H → Type 0) (r : Fallible A × Session V H)
      → ((l : RecordLayer H) → Q l → P l)
      → Ends P Q r
      → P (r.1).layer
  Ends-weaken P Q (ok a, s) weaken q = weaken s.layer q
  Ends-weaken P Q (err e, s) weaken p = p

  pub Ends-always :
      {A : Type 0} (P Q : RecordLayer H → Type 0) (r : Fallible A × Session V H)
      → ((l : RecordLayer H) → Q l → P l)
      → Q (r.1).layer
      → Ends P Q r
  Ends-always P Q (ok a, s) weaken q = q
  Ends-always P Q (err e, s) weaken q = weaken s.layer q

  pub unlocked-Leaves :
      (P : RecordLayer H → Type 0) (held : Bool) (e : MpcTlsError) → Leaves P P (unlocked held e)
  unfolding unlocked
  unlocked-Leaves P true e s p = p
  unlocked-Leaves P false e s p = p

  pub guard-Leaves :
      (P : RecordLayer H → Type 0) (b : Bool) (e : MpcTlsError) → Leaves P P (guard b e)
  guard-Leaves P true e s p = p
  guard-Leaves P false e s p = p
