-- ===== src/Workbench/Schemas.antt =====
-- src/coreason_adlc_api/workbench/schemas.py, and the row of workbench.agent_drafts in
-- alembic/versions/803de510a830_baseline.py. A UUID is a number, of which the code only tests
-- equality; a time is in microseconds.
use coreason_adlc_api.Prelude.{ℕ, String, Bool, true, false, Option, List}
use coreason_adlc_api.Json.{Value, Fields}

pub data AccessMode : Type 0 where
  edit safe_view : AccessMode

pub data ApprovalStatus : Type 0 where
  draft pending approved rejected : ApprovalStatus

pub ApprovalStatus-discrete : Discrete ApprovalStatus
ApprovalStatus-discrete = hlevel

abbrev pub status_eq : ApprovalStatus → ApprovalStatus → Bool
status_eq draft draft = true
status_eq pending pending = true
status_eq approved approved = true
status_eq rejected rejected = true
status_eq _ _ = false

-- A row of workbench.agent_drafts. The columns that no code of the workbench reads or writes
-- (`agent_tools_index`) are left out.
pub record DraftRow : Type 0 where
  pub draft_id : ℕ
  pub user_uuid : Option ℕ
  pub auc_id : String
  pub title : String
  pub oas_content : Value
  pub runtime_env : Option String
  pub status : ApprovalStatus
  pub locked_by_user : Option ℕ
  pub lock_expiry : Option ℕ
  pub is_deleted : Bool
  pub created_at : ℕ
  pub updated_at : ℕ

pub record DraftCreate : Type 0 where
  pub auc_id : String
  pub title : String
  pub oas_content : Fields
  pub runtime_env : Option String

pub record DraftUpdate : Type 0 where
  pub title : Option String
  pub oas_content : Option Fields
  pub runtime_env : Option String

pub record DraftResponse : Type 0 where
  pub draft_id : ℕ
  pub user_uuid : Option ℕ
  pub auc_id : String
  pub title : String
  pub oas_content : Fields
  pub runtime_env : Option String
  pub status : ApprovalStatus
  pub locked_by_user : Option ℕ
  pub lock_expiry : Option ℕ
  pub mode : AccessMode
  pub created_at : ℕ
  pub updated_at : ℕ

pub record ValidationResponse : Type 0 where
  pub is_valid : Bool
  pub issues : List String

pub record AgentArtifact : Type 0 where
  pub id : ℕ
  pub auc_id : String
  pub version : String
  pub content : Fields
  pub compliance_hash : String
  pub author_signature : Option String
  pub created_at : ℕ
