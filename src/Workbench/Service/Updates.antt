-- ===== src/Workbench/Service/Updates.antt =====
-- `update_draft` on every branch, at a draft that is there.
use coreason_adlc_api.Prelude.{ℕ, String, ◌≡◌, none, some}
use coreason_adlc_api.Json.{str, dict, Fields}
use coreason_adlc_api.Workbench.Schemas.{DraftRow, DraftUpdate}
use coreason_adlc_api.Workbench.Table.{SameElsewhere, Table}
use coreason_adlc_api.Workbench.Service.{Codec}

-- The row after an update: each column that a value is given for has it, and else what it had; the
-- rest stays, but for the time.
pub record Written (c : Codec) (u : DraftUpdate) (now : ℕ) (r r' : DraftRow) : Type 0 where
  pub title : (x : String) → u.title ≡ some x → r'.title ≡ x
  pub old_title : u.title ≡ none → r'.title ≡ r.title
  pub oas_content :
      (fs : Fields) → u.oas_content ≡ some fs → r'.oas_content ≡ c.jsonb (str (c.dumps (dict fs)))
  pub old_content : u.oas_content ≡ none → r'.oas_content ≡ r.oas_content
  pub runtime_env : (x : String) → u.runtime_env ≡ some x → r'.runtime_env ≡ some x
  pub old_env : u.runtime_env ≡ none → r'.runtime_env ≡ r.runtime_env
  pub updated_at : r'.updated_at ≡ now
  pub status : r'.status ≡ r.status
  pub rest : SameElsewhere r r'
