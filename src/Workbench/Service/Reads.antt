-- ===== src/Workbench/Service/Reads.antt =====
-- What the operations of the service return is what stands in the row.
use coreason_adlc_api.Prelude.{
  ℕ, ◌≡◌, inl, inr, String, some, List, [], arith, Option-cases, ◌∙◌, sym, ap,
}
use coreason_adlc_api.Json.{dict}
use coreason_adlc_api.Outcome.{ok}
use coreason_adlc_api.Workbench.Schemas.{DraftRow, DraftResponse}
use coreason_adlc_api.Workbench.Table.{Table, find}
use coreason_adlc_api.Workbench.Locking.{acquire_draft_lock}
use coreason_adlc_api.Workbench.Service.Effects.{get_draft_by_id_table, require_draft_table}
use coreason_adlc_api.Workbench.Service.{model_validate, get_draft_by_id, require_draft}

-- The response shows the columns of the row.
pub record Shows (r : DraftRow) (d : DraftResponse) : Type 0 where
  pub draft_id : d.draft_id ≡ r.draft_id
  pub auc_id : d.auc_id ≡ r.auc_id
  pub title : d.title ≡ r.title
  pub oas_content : r.oas_content ≡ dict d.oas_content
  pub status : d.status ≡ r.status
  pub updated_at : d.updated_at ≡ r.updated_at

pub model_validate-Shows :
    (r : DraftRow) (d : DraftResponse) → model_validate r ≡ some d → Shows r d
unfolding model_validate
model_validate-Shows r d e = ground arith

pub get_draft_by_id-Shows :
    (id user : ℕ) (roles : List String) (now : ℕ) (t : Table) (d : DraftResponse)
    → (get_draft_by_id id user roles now t).0 ≡ ok (some d)
    → (r : DraftRow) × (find id (get_draft_by_id id user roles now t).1 ≡ some r) × Shows r d
unfolding get_draft_by_id
get_draft_by_id-Shows id user roles now t d e =
    let t' = (acquire_draft_lock id user roles now t).1 in
    elim (Option-cases (find id t')) [
      | inl missing ↦ absurd (ground arith)
      | inr (r, f) ↦ elim (Option-cases (model_validate r)) [
        | inl refused ↦ absurd (ground arith)
        | inr (d', v) ↦ (
          r,
          ap (find id) (get_draft_by_id_table id user roles now t) ∙ f,
          ground (arith, model_validate-Shows r d' v),
        )
      ]
    ]

pub require_draft-Shows :
    (id user now : ℕ) (t : Table) (d : DraftResponse)
    → (require_draft id user now t).0 ≡ ok d
    → (r : DraftRow) × (find id (require_draft id user now t).1 ≡ some r) × Shows r d
unfolding require_draft
require_draft-Shows id user now t d e =
    let same : (require_draft id user now t).1 ≡ (get_draft_by_id id user [] now t).1 =
      require_draft_table id user now t ∙ sym (get_draft_by_id_table id user [] now t) in
    let (r, f, shows) = get_draft_by_id-Shows id user [] now t d (ground arith) in
    (r, ap (find id) same ∙ f, shows)
