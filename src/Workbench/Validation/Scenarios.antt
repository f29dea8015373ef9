-- ===== src/Workbench/Validation/Scenarios.antt =====
-- POST /validate at a draft that names a person.
use coreason_adlc_api.Prelude.{◌≡◌, ◌↔◌, refl, true, false, some, none, [], ◌∷◌, ◌++◌, arith}
use coreason_adlc_api.Json.{Value, Items, Fields}
use coreason_adlc_api.Budget.{answered, check_budget_status}
use coreason_adlc_api.Budget.Samples.{redis, empty, limit}
use coreason_adlc_api.Pii.{
  found, Engine, engine, splice_all, chars, join, replacement, scrub_sync, scrub_text,
}
use coreason_adlc_api.Pii.Walk.{update, visit, scrub_loop, scrub_pii_recursive}
use coreason_adlc_api.Pii.Redact.{redact, size}
use coreason_adlc_api.Pii.Clean.{is_clean}
use coreason_adlc_api.Pii.Compare.{value_eq, slot_eq, returned_eq}
use coreason_adlc_api.Workbench.Schemas.{DraftCreate, ValidationResponse}
use coreason_adlc_api.Workbench.Validation.{
  validate_draft, budget_issues, verdict, validate_draft_lem,
}

-- an analyzer that takes the first three characters of every text for a name
abbrev first_word : Engine
first_word = engine (λ text. found (record { start = 0; end_ = 3; entity_type = "PERSON" } ∷ []))

abbrev named : DraftCreate
named = record {
  auc_id = "project-a";
  title = "agent";
  oas_content =
      Fields.field "owners" (Value.list (Items.cons (Value.str "Bob") Items.nil))
        (Fields.field "version" (Value.other "1") Fields.end);
  runtime_env = none;
}

validate_draft_run :
    validate_draft redis first_word answered "k" limit empty 2 named
    ≡ some (record { is_valid = false; issues = "PII Detected" ∷ [] })
unfolding validate_draft check_budget_status scrub_pii_recursive scrub_loop visit update scrub_text
    scrub_sync splice_all chars join replacement returned_eq slot_eq value_eq
validate_draft_run = refl

validate_draft_lem_example :
    (response : ValidationResponse) × (validate_draft redis first_word answered "k" limit empty 2
        named
      ≡ some response)
    × ((response.is_valid ≡ true) ↔ (
        (check_budget_status redis answered "k" limit empty ≡ true)
        × (is_clean first_word (Value.dict named.oas_content) ≡ true)))
    × (response.issues
        ≡ budget_issues (check_budget_status redis answered "k" limit empty)
          ++ verdict redis first_word
              (redact first_word (Value.dict named.oas_content))
              (is_clean first_word (Value.dict named.oas_content)))
unfolding size
validate_draft_lem_example =
    validate_draft_lem redis first_word answered "k" limit empty 2 named (omega arith)
