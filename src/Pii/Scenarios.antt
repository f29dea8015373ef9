-- ===== src/Pii/Scenarios.antt =====
-- Concrete texts and values that run the scrubber.
use Prim.Native.Char.{Char}
use coreason_adlc_api.Prelude.{
  ◌≡◌, ◌⊎◌, inl, refl, ◌++◌, drop, String, none, some, List, [], ◌∷◌, arith,
}
use coreason_adlc_api.Json.{Value, Items, Fields}
use coreason_adlc_api.Outcome.{ok, raised}
use coreason_adlc_api.Pii.{
  Span, Analysis, found, engine, chars, join, replacement, scrub_sync, scrub_text, sorted_results,
  splice_all,
}
use coreason_adlc_api.Pii.Redaction.{redacted}
use coreason_adlc_api.Pii.Text.{scrub_text-redacted, nested_results_leak}
use coreason_adlc_api.Pii.Walk.{Returned, Cells, scrub_pii_recursive}
use coreason_adlc_api.Pii.Redact.{size}
use coreason_adlc_api.Pii.Rounds.{failure}
use coreason_adlc_api.Pii.Recursion.{scrub_pii_recursive-redact_root, redact_root, Represents}

abbrev name_and_phone : List Span
name_and_phone =
    record { start = 0; end_ = 3; entity_type = "PERSON" }
    ∷ record { start = 7; end_ = 11; entity_type = "PHONE_NUMBER" }
    ∷ []

abbrev analyze_all : String → Analysis
analyze_all text = found name_and_phone

scrub_text_run :
    scrub_text (engine analyze_all) "Bob at 5550"
    ≡ ok "<REDACTED PERSON> at <REDACTED PHONE_NUMBER>"
unfolding scrub_text scrub_sync splice_all chars join replacement
scrub_text_run = refl

scrub_text-redacted_example :
    scrub_text (engine analyze_all) "Bob at 5550"
    ≡ ok (join (redacted replacement name_and_phone 0 (chars "Bob at 5550")))
unfolding chars
scrub_text-redacted_example =
    scrub_text-redacted analyze_all "Bob at 5550" name_and_phone refl refl (
      (omega arith, omega arith),
      (((inl (omega arith)), tt), ((omega arith, omega arith), (tt, tt))),
    )

abbrev email : Span
email = record { start = 0; end_ = 18; entity_type = "EMAIL_ADDRESS" }

abbrev name_in_email : Span
name_in_email = record { start = 2; end_ = 6; entity_type = "PERSON" }

abbrev analyze_email : String → Analysis
analyze_email text = found (email ∷ name_in_email ∷ [])

scrub_text_leak :
    scrub_text (engine analyze_email) "x.jane@example.com"
    ≡ ok "<REDACTED EMAIL_ADDRESS>>@example.com"
unfolding scrub_text scrub_sync splice_all chars join replacement
scrub_text_leak = refl

nested_results_leak_example :
    (front : List Char) × (splice_all replacement
        (sorted_results (email ∷ name_in_email ∷ []))
        (chars "x.jane@example.com")
      ≡ front ++ drop 6 (chars "x.jane@example.com"))
unfolding chars replacement
nested_results_leak_example =
    nested_results_leak email name_in_email (chars "x.jane@example.com") (omega arith) (omega arith)
      (omega arith) (omega arith) (omega arith)

-- { "note": "Bob at 5550", "rows": [3, ("Bob at 5550",)] }
abbrev draft_content : Value
draft_content = Value.dict (
    Fields.field "note" (Value.str "Bob at 5550") (
      Fields.field "rows"
        (Value.list (
          Items.cons (Value.other "3")
            (Items.cons (Value.tuple (Items.cons (Value.str "Bob at 5550") Items.nil)) Items.nil)))
        Fields.end))

scrub_pii_recursive-redact_root_example :
    ((r : Returned) × (cells : Cells) × (w : Value) × (scrub_pii_recursive
          (engine analyze_all)
          3
          draft_content
        ≡ some (ok (r, cells)))
      × (redact_root (engine analyze_all) draft_content ≡ some w)
      × Represents cells r w)
    ⊎ ((scrub_pii_recursive (engine analyze_all) 3 draft_content ≡ some (raised failure))
        × (redact_root (engine analyze_all) draft_content ≡ none))
unfolding size
scrub_pii_recursive-redact_root_example =
    scrub_pii_recursive-redact_root (engine analyze_all) 3 draft_content (omega arith)
