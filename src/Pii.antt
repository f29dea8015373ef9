-- ===== src/Pii.antt =====
-- src/coreason_adlc_api/middleware/pii.py: the redaction of personal data in a text. Presidio is a
-- parameter: what its analyzer finds in a text. The singleton keeps one engine for the process; its
-- construction is taken to end alike each time.
pub mod Splice
pub mod Redaction
pub mod Text
pub mod Walk
pub mod Redact
pub mod Memory
pub mod Visit
pub mod Rounds
pub mod Recursion
pub mod Compare
pub mod Clean
mod Scenarios
use Prim.Native.Char.{Char}
use Prim.Native.String.{[] as text_nil, ◌∷◌ as text_cons}
use coreason_adlc_api.Prelude.{
  ℕ, String, Bool, true, false, Option, none, some, List, [], ◌∷◌, ◌++◌, leb, max, take, drop,
  if◌then◌else◌,
}
use coreason_adlc_api.Prelude.Text.{str_eq, text_append}
use coreason_adlc_api.Outcome.{Result, ok, raised, Exn, value_error, scrubbing_failed}

-- A RecognizerResult
pub record Span : Type 0 where
  pub start : ℕ
  pub end_ : ℕ
  pub entity_type : String

-- How `analyze` ends: with its results, with the ValueError for a text that is too long, or with
-- any other exception.
pub data Analysis : Type 0 where
  found : List Span → Analysis
  too_long : Analysis
  failed : Analysis

-- AnalyzerEngine: not installed, raising when it is made, or there.
pub data Engine : Type 0 where
  not_installed : Engine
  broken : Engine
  engine : (String → Analysis) → Engine

-- `get_analyzer`, with `init_analyzer`
abbrev pub get_analyzer : Engine → Result (Option (String → Analysis))
get_analyzer not_installed = ok none
get_analyzer broken = raised Exn.unhandled
get_analyzer (engine analyze) = ok (some analyze)

-- `sorted(results, key=lambda x: x.start, reverse=True)`, which keeps the order of equal keys
abbrev pub insert_span : Span → List Span → List Span
insert_span r [] = r ∷ []
insert_span r (x ∷ xs) =
    let rest = insert_span r xs in if leb x.start r.start then r ∷ x ∷ xs else x ∷ rest

abbrev pub sorted_results : List Span → List Span
sorted_results [] = []
sorted_results (r ∷ rs) = insert_span r (sorted_results rs)

-- `l[start:end] = replacement`
abbrev pub splice {ℓ} : {A : Type ℓ} → ℕ → ℕ → List A → List A → List A
splice start end_ replacement l = take start l ++ (replacement ++ drop (max start end_) l)

-- the `for` over the sorted results
unfoldable pub splice_all {ℓ} : {A : Type ℓ} → (Span → List A) → List Span → List A → List A
splice_all replacement [] l = l
splice_all replacement (r ∷ rs) l =
    splice_all replacement rs (splice r.start r.end_ (replacement r) l)

-- `list(text)` and `"".join`
unfoldable pub chars : String → List Char
chars text_nil = []
chars (text_cons c s) = c ∷ chars s

unfoldable pub join : List Char → String
join [] = text_nil
join (c ∷ cs) = text_cons c (join cs)

-- f"<REDACTED {entity_type}>"
unfoldable pub replacement : Span → List Char
replacement r = chars (text_append "<REDACTED " (text_append r.entity_type ">"))

abbrev pub scrubbed : String → Analysis → Result String
scrubbed text (found results) =
    ok (join (splice_all replacement (sorted_results results) (chars text)))
scrubbed text too_long = ok "<REDACTED: PAYLOAD TOO LARGE FOR PII ANALYSIS>"
scrubbed text failed = raised Exn.unhandled

abbrev pub scrub_with : String → Result (Option (String → Analysis)) → Result String
scrub_with text (ok none) = ok "<REDACTED: PII ANALYZER MISSING>"
scrub_with text (ok (some analyze)) = scrubbed text (analyze text)
scrub_with text (raised e) = raised e

-- `_scrub_sync`
unfoldable pub scrub_sync : Engine → String → Result String
scrub_sync g text = scrub_with text (get_analyzer g)

abbrev pub or_failed : Result String → Result String
or_failed (ok s) = ok s
or_failed (raised e) = raised (value_error scrubbing_failed)

-- `scrub_pii_payload` of a text
unfoldable pub scrub_text : Engine → String → Result String
scrub_text g text = if str_eq text "" then ok text else or_failed (scrub_sync g text)

abbrev some_text : Result String → Result (Option String)
some_text (ok s) = ok (some s)
some_text (raised e) = raised e

-- `scrub_pii_payload`
unfoldable pub scrub_pii_payload : Engine → Option String → Result (Option String)
scrub_pii_payload g none = ok none
scrub_pii_payload g (some text) = some_text (scrub_text g text)
