-- ===== src/Workbench/Samples.antt =====
-- A small workbench: a draft that can be edited, a pending one and an approved one, and a project
-- that group 1 opens to its managers.
use coreason_adlc_api.Prelude.{ℕ, false, Option, none, some, List, [], ◌∷◌}
use coreason_adlc_api.Json.{str, dict, Fields, end, field}
use coreason_adlc_api.Identity.{UserIdentity, GroupMapping}
use coreason_adlc_api.Workbench.Schemas.{ApprovalStatus, draft, pending, approved, DraftRow}
use coreason_adlc_api.Workbench.Table.{Table}
use coreason_adlc_api.Workbench.Service.{Codec}

abbrev pub content : Fields
content = field "openapi" (str "3.1.0") end

abbrev pub row : ℕ → ApprovalStatus → Option ℕ → Option ℕ → ℕ → DraftRow
row id status owner expiry updated = record {
  draft_id = id;
  user_uuid = some 7;
  auc_id = "project-a";
  title = "agent";
  oas_content = dict content;
  runtime_env = none;
  status = status;
  locked_by_user = owner;
  lock_expiry = expiry;
  is_deleted = false;
  created_at = 1;
  updated_at = updated;
}

-- Draft 1 is locked by user 7 until the time 40000000, the others are free.
abbrev pub table : Table
table =
    row 1 draft (some 7) (some 40000000) 5
    ∷ row 2 pending none none 6
    ∷ row 3 approved none none 4
    ∷ []

-- The text of every dict is taken to be the same; a value read back from jsonb is the one passed.
abbrev pub codec : Codec
codec = record { dumps = λ v. "{}"; jsonb = λ v. v }

abbrev pub mappings : List GroupMapping
mappings =
    record { sso_group_oid = 1; role_name = "MANAGER"; allowed_auc_ids = "project-a" ∷ [] } ∷ []

abbrev pub manager : UserIdentity
manager = record { oid = 8; email = "m@example.com"; groups = 1 ∷ []; full_name = none }

abbrev pub outsider : UserIdentity
outsider = record { oid = 9; email = "o@example.com"; groups = 2 ∷ []; full_name = none }
