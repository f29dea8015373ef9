-- ===== src/Workbench/Router.antt =====
-- src/coreason_adlc_api/routers/workbench.py: the handlers of /workbench. The table of the group
-- mappings, which no handler writes, is an argument: `none` if the query on it raises.
pub mod Rows
pub mod Requests
pub mod Changes
pub mod Guarded
pub mod Handlers
pub mod Integrity
pub mod Lockout
use coreason_adlc_api.Prelude.{ℕ, String, Bool, true, false, not, Option, none, some, List, map}
use coreason_adlc_api.Prelude.Text.{contains}
use coreason_adlc_api.Outcome.{
  Action, Exn, http, value_error, validation_error, not_authorized_for, only_managers_approve,
  only_managers_reject, failed_validation, pure, raise_if, or_raise, rethrow_as, ◌>>=◌, ◌>>◌,
  Detail,
}
use coreason_adlc_api.Identity.{UserIdentity, GroupMapping, mappings_of, map_groups_to_projects}
use coreason_adlc_api.Workbench.Schemas.{
  ApprovalStatus, pending, approved, rejected, DraftCreate, DraftUpdate, DraftResponse,
  AgentArtifact,
}
use coreason_adlc_api.Workbench.Table.{Table}
use coreason_adlc_api.Workbench.Locking.{not_found, refresh_lock}
use coreason_adlc_api.Workbench.Service.{
  Codec, create_draft, get_drafts, get_draft_by_id, require_draft, update_draft,
  transition_draft_status, assemble_artifact, publish_artifact, Url,
}

abbrev pub Mappings : Type 0
Mappings = Option (List GroupMapping)

-- `auc_id not in allowed_projects`
abbrev pub may_access : Mappings → UserIdentity → String → Bool
may_access ms identity auc_id = contains auc_id (map_groups_to_projects ms identity.groups)

-- `_verify_project_access`
abbrev pub verify_project_access : Mappings → UserIdentity → String → Action Table (Unit {0})
verify_project_access ms identity auc_id =
    raise_if (not (may_access ms identity auc_id)) (http 403 (not_authorized_for auc_id))

-- `_get_user_roles`; a query that raises is let through.
abbrev pub user_roles : Mappings → UserIdentity → Option (List String)
user_roles none identity = none
user_roles (some ms) identity = some (map (λ m. m.role_name) (mappings_of identity.groups ms))

abbrev get_user_roles : Mappings → UserIdentity → Action Table (List String)
get_user_roles ms identity = or_raise (user_roles ms identity) Exn.unhandled

unfoldable pub list_drafts : Mappings → String → UserIdentity → Action Table (List DraftResponse)
list_drafts ms auc_id identity = do
  verify_project_access ms identity auc_id
  get_drafts auc_id false

unfoldable pub create_new_draft :
    Mappings → Codec → ℕ → ℕ → DraftCreate → UserIdentity → Action Table DraftResponse
create_new_draft ms c draft_id now d identity = do
  verify_project_access ms identity d.auc_id
  create_draft c draft_id now d identity.oid

-- The draft is read, and its lock taken, before the access is checked.
unfoldable pub get_draft : Mappings → ℕ → ℕ → UserIdentity → Action Table DraftResponse
get_draft ms draft_id now identity = do
  roles ← get_user_roles ms identity
  found ← get_draft_by_id draft_id identity.oid roles now
  d ← or_raise found not_found
  verify_project_access ms identity d.auc_id
  pure d

-- `_get_draft_and_verify_access`, and the same lines in `update_existing_draft`
unfoldable pub get_draft_and_verify_access :
    Mappings → ℕ → ℕ → UserIdentity → Action Table DraftResponse
get_draft_and_verify_access ms draft_id now identity = do
  d ← require_draft draft_id identity.oid now
  verify_project_access ms identity d.auc_id
  pure d

-- The clock readings of an update: at the first lock, at the check of it, at the lock of an update
-- without fields, and at the write.
pub record UpdateTimes : Type 0 where
  pub read : ℕ
  pub checked : ℕ
  pub locked : ℕ
  pub written : ℕ

unfoldable pub update_existing_draft :
    Mappings → Codec → ℕ → DraftUpdate → UpdateTimes → UserIdentity → Action Table DraftResponse
update_existing_draft ms c draft_id u ts identity = do
  get_draft_and_verify_access ms draft_id ts.read identity >>= λ _.
      update_draft c draft_id u identity.oid ts.checked ts.locked ts.written

unfoldable pub heartbeat_lock : ℕ → ℕ → UserIdentity → Action Table Bool
heartbeat_lock draft_id now identity = do refresh_lock draft_id identity.oid now; pure true

-- `submit_draft`, and what `approve_draft` and `reject_draft` do for a manager
unfoldable pub move_draft :
    ApprovalStatus → Mappings → ℕ → ℕ → ℕ → UserIdentity → Action Table DraftResponse
move_draft new_status ms draft_id read written identity = do
  get_draft_and_verify_access ms draft_id read identity >>= λ _.
      transition_draft_status draft_id new_status written

unfoldable pub submit_draft : Mappings → ℕ → ℕ → ℕ → UserIdentity → Action Table DraftResponse
submit_draft = move_draft pending

-- `"MANAGER" not in roles`
abbrev require_manager : Mappings → UserIdentity → Detail → Action Table (Unit {0})
require_manager ms identity detail = do
  roles ← get_user_roles ms identity
  raise_if (not (contains "MANAGER" roles)) (http 403 detail)

unfoldable pub approve_draft : Mappings → ℕ → ℕ → ℕ → UserIdentity → Action Table DraftResponse
approve_draft ms draft_id read written identity = do
  require_manager ms identity only_managers_approve
  move_draft approved ms draft_id read written identity

unfoldable pub reject_draft : Mappings → ℕ → ℕ → ℕ → UserIdentity → Action Table DraftResponse
reject_draft ms draft_id read written identity = do
  require_manager ms identity only_managers_reject
  move_draft rejected ms draft_id read written identity

-- `except ValueError`, which catches pydantic's `ValidationError` too
abbrev pub bad_request : Exn → Exn
bad_request (value_error d) = http 400 d
bad_request validation_error = http 400 failed_validation
bad_request e = e

unfoldable pub get_artifact_assembly :
    Mappings → ℕ → ℕ → ℕ → UserIdentity → Action Table AgentArtifact
get_artifact_assembly ms draft_id read assembled identity =
    get_draft_and_verify_access ms draft_id read identity >>= λ _.
    rethrow_as bad_request (assemble_artifact draft_id identity.oid assembled)

unfoldable pub publish_agent_artifact :
    Mappings → ℕ → String → ℕ → ℕ → UserIdentity → Action Table Url
publish_agent_artifact ms draft_id signature read assembled identity =
    get_draft_and_verify_access ms draft_id read identity >>= λ _.
    rethrow_as bad_request (publish_artifact draft_id signature identity.oid assembled)
