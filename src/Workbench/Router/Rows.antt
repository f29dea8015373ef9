-- ===== src/Workbench/Router/Rows.antt =====
-- How a row may change under a write of the service, row by row.
use coreason_adlc_api.Prelude.{ℕ, ◌≡◌, ◌≢◌, ◌⊎◌, refl, inl, inr, some, arith, ap, ◌∙◌, ℕ_discrete}
use coreason_adlc_api.Workbench.Schemas.{ApprovalStatus, DraftRow, DraftUpdate}
use coreason_adlc_api.Workbench.Table.{
  Table, find, update, KeepsId, map_found, find-update_self, find-update_ne,
}
use coreason_adlc_api.Workbench.Locking.{take_lock}
use coreason_adlc_api.Workbench.Locking.Steps.{take_lock-KeepsId}
use coreason_adlc_api.Workbench.Service.{Codec, apply_update, set_status}
use coreason_adlc_api.Workbench.Service.Effects.{LockWrite}

-- All that the draft says is the same; its status, its lock and `updated_at` may differ.
pub record SameBody (r r' : DraftRow) : Type 0 where
  pub same_id : r'.draft_id ≡ r.draft_id
  pub same_user : r'.user_uuid ≡ r.user_uuid
  pub same_auc : r'.auc_id ≡ r.auc_id
  pub same_title : r'.title ≡ r.title
  pub same_content : r'.oas_content ≡ r.oas_content
  pub same_env : r'.runtime_env ≡ r.runtime_env
  pub same_deleted : r'.is_deleted ≡ r.is_deleted
  pub same_created : r'.created_at ≡ r.created_at

-- Only the lock may differ.
pub record Untouched (r r' : DraftRow) : Type 0 where
  pub same_body : SameBody r r'
  pub same_status : r'.status ≡ r.status
  pub same_updated : r'.updated_at ≡ r.updated_at

pub Untouched-refl : (r : DraftRow) → Untouched r r
Untouched-refl r = ground arith

pub Untouched-trans : (r s t : DraftRow) → Untouched r s → Untouched s t → Untouched r t
Untouched-trans r s t p q = ground arith

-- The row that stands under `j` after a write into the row `id`.
pub row_after :
    (id j : ℕ) (f : DraftRow → DraftRow) (t : Table) (r : DraftRow)
    → KeepsId f
    → find j t ≡ some r
    → ((j ≡ id) × (find j (update id f t) ≡ some (f r)))
      ⊎ ((j ≢ id) × (find j (update id f t) ≡ some r))
row_after id j f t r k e = elim (ℕ_discrete j id) [
  | yes same ↦ inl (same, rw (same) (find-update_self id f t k ∙ ap (map_found f) (rw same at e)))
  | no ne ↦ inr (ne, find-update_ne id j f t k ne ∙ e)
]

pub LockWrite-row :
    (id j : ℕ) (t t' : Table) (r : DraftRow)
    → LockWrite id t t'
    → find j t ≡ some r
    → (r' : DraftRow) × (find j t' ≡ some r') × Untouched r r'
LockWrite-row id j t t' r w e = elim w [
  | inl same ↦ (r, rw same e, Untouched-refl r)
  | inr (user, now, taken) ↦
      elim (row_after id j (take_lock user now) t r (take_lock-KeepsId user now) e) [
        | inl (_, found) ↦ (take_lock user now r, rw taken found, ground arith)
        | inr (_, found) ↦ (r, rw taken found, Untouched-refl r)
      ]
]

pub set_status-KeepsId : (s : ApprovalStatus) (now : ℕ) → KeepsId (set_status s now)
set_status-KeepsId s now r = refl

pub apply_update-KeepsId : (c : Codec) (u : DraftUpdate) (now : ℕ) → KeepsId (apply_update c u now)
apply_update-KeepsId c u now r = refl
