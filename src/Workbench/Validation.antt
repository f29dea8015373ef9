-- ===== src/Workbench/Validation.antt =====
-- src/coreason_adlc_api/routers/workbench.py: POST /validate, with the budget of
-- middleware/budget.py and the scrubber of middleware/pii.py.
mod Scenarios
use coreason_adlc_api.Prelude.{
  ℕ, ◌≤◌, ◌≡◌, refl, ap, sym, ◌∙◌, ◌↔◌, ◌⊎◌, inl, inr, Bool, true, false, ◌&&◌, String, Option,
  none, some, List, [], ◌∷◌, ◌++◌, if◌then◌else◌, Option-cases, Bool-cases, arith,
}
use coreason_adlc_api.Json.{Value, Fields}
use coreason_adlc_api.Outcome.{Result, ok, raised}
use coreason_adlc_api.Budget.{Trip, check_budget_status}
use coreason_adlc_api.Budget.Interface.{Redis}
use coreason_adlc_api.Pii.{Engine}
use coreason_adlc_api.Pii.Walk.{Returned, Cells, scrub_pii_recursive}
use coreason_adlc_api.Pii.Redact.{redact, size}
use coreason_adlc_api.Pii.Recursion.{scrub_pii_recursive-redact_root, redact_root, Represents}
use coreason_adlc_api.Pii.Rounds.{failure}
use coreason_adlc_api.Pii.Compare.{value_eq, returned_eq, returned_eq_lem}
use coreason_adlc_api.Pii.Clean.{is_clean, value_eq-redact, is_clean-redact}
use coreason_adlc_api.Workbench.Schemas.{DraftCreate, ValidationResponse}

abbrev pub budget_issues : Bool → List String
budget_issues true = []
budget_issues false = "Budget Limit Reached" ∷ []

abbrev pub comparison_issues : Bool → List String
comparison_issues true = []
comparison_issues false = "PII Detected" ∷ []

-- the `try` around the scrubber, with its `except`
abbrev pub pii_issues : Fields → Result (Returned × Cells) → List String
pii_issues content (ok (r, cells)) = comparison_issues (returned_eq cells r (Value.dict content))
pii_issues content (raised e) = "PII Check Failed" ∷ []

abbrev no_issue : List String → Bool
no_issue [] = true
no_issue (x ∷ xs) = false

abbrev pub response_of : List String → ValidationResponse
response_of issues = record { is_valid = no_issue issues; issues = issues }

abbrev pub concluded :
    List String → Fields → Option (Result (Returned × Cells)) → Option ValidationResponse
concluded issues content none = none
concluded issues content (some result) = some (response_of (issues ++ pii_issues content result))

module _ (r : Redis) (g : Engine) where
  open r use {Store}

  -- `validate_draft`; `none` if the fuel for the walk runs out.
  unfoldable pub validate_draft :
      Trip → String → ℕ → Store → ℕ → DraftCreate → Option ValidationResponse
  validate_draft trip key limit s fuel draft =
      concluded (budget_issues (check_budget_status r trip key limit s)) draft.oas_content
        (scrub_pii_recursive g fuel (Value.dict draft.oas_content))

  -- The issue with a content, by its recursive redaction.
  abbrev pub verdict : Option Value → Bool → List String
  verdict none clean = "PII Check Failed" ∷ []
  verdict (some w) clean = comparison_issues clean

  verdict_lem :
      (fuel : ℕ) (content : Fields) (issues : List String)
      → size (Value.dict content) ≤ fuel
      → concluded issues content (scrub_pii_recursive g fuel (Value.dict content))
        ≡ some (
            response_of
              (issues ++ verdict (redact g (Value.dict content)) (is_clean g (Value.dict content))))
  unfolding redact redact_root
  verdict_lem fuel content issues enough =
      elim (scrub_pii_recursive-redact_root g fuel (Value.dict content) enough) [
        | inl (x, cells, w, done, known, rep) ↦
            let same : returned_eq cells x (Value.dict content) ≡ is_clean g (Value.dict content) =
              returned_eq_lem cells x w (Value.dict content) rep
              ∙ value_eq-redact g (Value.dict content) w known in
            rw (done, known) (ap (λ b. some (response_of (issues ++ comparison_issues b))) same)
        | inr (raises, unknown) ↦ rw (raises, unknown) refl
      ]

  valid_iff :
      (under : Bool) (known : Option Value) (clean : Bool)
      → ((known ≡ none) → clean ≡ false)
      → (no_issue (budget_issues under ++ verdict known clean) ≡ true)
        ↔ ((under ≡ true) × (clean ≡ true))
  valid_iff true none clean h = ((λ e. cc e), λ e. cc (sym (h refl) ∙ e.1))
  valid_iff true (some w) true h = ((λ e. (refl, refl)), λ e. refl)
  valid_iff true (some w) false h = ((λ e. cc e), λ e. cc e.1)
  valid_iff false known clean h = ((λ e. cc e), λ e. cc e.0)

  -- With fuel for the walk of the content, POST /validate answers. The draft is valid exactly if the
  -- budget of the user is not used up, as far as Redis tells, and the content holds no tuple and no
  -- text that the scrubber changes or fails on. The issues are the one of the budget, then the one
  -- of the content: that it cannot be checked if any text cannot be scrubbed, and otherwise that
  -- there are personal data if the content is not clean.
  pub validate_draft_lem :
      (trip : Trip) (key : String) (limit : ℕ) (s : Store) (fuel : ℕ) (draft : DraftCreate)
      → size (Value.dict draft.oas_content) ≤ fuel
      → (response : ValidationResponse) × (validate_draft trip key limit s fuel draft
          ≡ some response)
        × ((response.is_valid ≡ true) ↔ (
            (check_budget_status r trip key limit s ≡ true)
            × (is_clean g (Value.dict draft.oas_content) ≡ true)))
        × (response.issues
            ≡ budget_issues (check_budget_status r trip key limit s)
              ++ verdict
                  (redact g (Value.dict draft.oas_content))
                  (is_clean g (Value.dict draft.oas_content)))
  unfolding validate_draft
  validate_draft_lem trip key limit s fuel draft enough =
      let content = Value.dict draft.oas_content in
      let under = check_budget_status r trip key limit s in
      (
        response_of (budget_issues under ++ verdict (redact g content) (is_clean g content)),
        verdict_lem fuel draft.oas_content (budget_issues under) enough,
        valid_iff under (redact g content) (is_clean g content) (is_clean-redact g content),
        refl,
      )
