-- ===== src/MpcTls/Records/Plaintexts.antt =====
-- tlsn/crates/common/src/transcript.rs: `TlsTranscript::to_transcript`, the application data of the
-- records.
use ethdam_rope.Prelude.{
  ℕ, ◌≡◌, ◌↔◌, refl, sym, ◌∙◌, ap, true, false, Bool-cases, inl, inr, if◌then◌else◌, Option, none,
  some, List, [], ◌∷◌, ◌++◌, append_assoc, append-nil, Result, ok, err, Option-cases, subst,
}
use ethdam_rope.Transcript.{Transcript}
use ethdam_rope.MpcTls.Records.{Record, TlsTranscript, is_application_data}

pub data IncompleteTranscript : Type 0 where
  incomplete_transcript : IncompleteTranscript

-- What a loop of `to_transcript` does with the plaintext of a record.
abbrev extend : Option (List ℕ) → List ℕ → Result IncompleteTranscript (List ℕ)
extend none bytes = err incomplete_transcript
extend (some plaintext) bytes = ok (bytes ++ plaintext)

abbrev and_also {ℓ κ} :
    {A : Type ℓ} {B : Type κ}
    → Result IncompleteTranscript A
    → (A → Result IncompleteTranscript B)
    → Result IncompleteTranscript B
and_also (ok a) f = f a
and_also (err e) f = err e

and_also-eq-ok {ℓ κ} :
    {A : Type ℓ} {B : Type κ} (r : Result IncompleteTranscript A)
    (f : A → Result IncompleteTranscript B) {b : B}
    → and_also r f ≡ ok b
    → (a : A) × (r ≡ ok a) × (f a ≡ ok b)
and_also-eq-ok (ok a) f h = (a, refl, h)
and_also-eq-ok (err e) f h = cc

-- The loop of `to_transcript` over one direction; the filter and the `?` are in it.
unfoldable pub collect :
    {H : Type 0} → List (Record H) → List ℕ → Result IncompleteTranscript (List ℕ)
collect [] bytes = ok bytes
collect (r ∷ rs) bytes =
    and_also (if is_application_data r.typ then extend r.plaintext bytes else ok bytes) (collect rs)

unfoldable pub to_transcript :
    {H : Type 0} → TlsTranscript H → Result IncompleteTranscript Transcript
unfolding collect
to_transcript t = and_also (collect t.sent []) (λ sent.
    and_also (collect t.recv []) (λ received. ok (record { sent = sent; received = received })))

-- The bytes are the plaintexts of the records of application data, in order, and each has one.
pub data AppData {H : Type 0} : List (Record H) → List ℕ → Type 0 where
  ended : AppData [] []
  passed :
      {r : Record H} {rs : List (Record H)} {bytes : List ℕ}
      → is_application_data r.typ ≡ false
      → AppData rs bytes
      → AppData (r ∷ rs) bytes
  taken :
      {r : Record H} {rs : List (Record H)} {plaintext bytes : List ℕ}
      → is_application_data r.typ ≡ true
      → r.plaintext ≡ some plaintext
      → AppData rs bytes
      → AppData (r ∷ rs) (plaintext ++ bytes)

module _ {H : Type 0} where
  collect-AppData :
      {rs : List (Record H)} {bytes : List ℕ} (before : List ℕ)
      → AppData rs bytes
      → collect rs before ≡ ok (before ++ bytes)
  unfolding collect
  collect-AppData before ended = ap ok (sym (append-nil before))
  collect-AppData before (passed n d) = rw n (collect-AppData before d)
  collect-AppData before (taken {plaintext = p} {bytes = bs} n h d) =
      rw (n, h) (collect-AppData (before ++ p) d ∙ ap ok (append_assoc before p bs))

  AppData-collect :
      (rs : List (Record H)) (before all : List ℕ)
      → collect rs before ≡ ok all
      → (bytes : List ℕ) × AppData rs bytes × (before ++ bytes ≡ all)
  unfolding collect
  AppData-collect [] before all h = ([], ended, append-nil before ∙ cc)
  AppData-collect (r ∷ rs) before all h = elim (Bool-cases (is_application_data r.typ)) [
    | inr other ↦
        let rest : collect rs before ≡ ok all = rw other at h in
        let (bytes, d, e) = AppData-collect rs before all rest in (bytes, passed other d, e)
    | inl app ↦ elim (Option-cases r.plaintext) [
      | inl gone ↦ let stuck : err incomplete_transcript ≡ ok all = rw (app, gone) at h in cc
      | inr (p, has) ↦
          let rest : collect rs (before ++ p) ≡ ok all = rw (app, has) at h in
          let (bytes, d, e) = AppData-collect rs (before ++ p) all rest in
          (p ++ bytes, taken app has d, sym (append_assoc before p bytes) ∙ e)
    ]
  ]

  there :
      (t : TlsTranscript H) (transcript : Transcript)
      → to_transcript t ≡ ok transcript
      → AppData t.sent transcript.sent × AppData t.recv transcript.received
  unfolding to_transcript
  there t transcript h =
      let (sent, from_sent, h') = and_also-eq-ok (collect t.sent []) _ h in
      let (received, from_recv, h'') = and_also-eq-ok (collect t.recv []) _ h' in
      let same : record { sent = sent; received = received } ≡ transcript = cc in
      let (ss, ds, es) = AppData-collect t.sent [] sent from_sent in
      let (rs, dr, er) = AppData-collect t.recv [] received from_recv in
      (
        subst (AppData t.sent) (es ∙ ap (λ (x : Transcript). x.sent) same) ds,
        subst (AppData t.recv) (er ∙ ap (λ (x : Transcript). x.received) same) dr,
      )

  -- `to_transcript` gives a transcript exactly when every record of application data has a
  -- plaintext, and then the transcript is these plaintexts, in order, in either direction; the other
  -- records are passed over.
  pub to_transcript_iff :
      (t : TlsTranscript H) (transcript : Transcript)
      → (to_transcript t ≡ ok transcript)
        ↔ (AppData t.sent transcript.sent × AppData t.recv transcript.received)
  unfolding to_transcript
  to_transcript_iff t transcript =
      (there t transcript, λ d. rw (collect-AppData [] d.0, collect-AppData [] d.1) refl)
