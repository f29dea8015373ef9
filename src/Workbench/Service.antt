-- ===== src/Workbench/Service.antt =====
-- src/coreason_adlc_api/workbench/service.py. Each reading of a clock is an argument: the
-- application's for the locks, and the database's NOW() for `created_at` and `updated_at`.
pub mod Effects
pub mod Reads
pub mod Workflow
pub mod Updates
pub mod Listing
pub mod Creation
use coreason_adlc_api.Prelude.{
  ℕ, String, Bool, true, false, not, ◌&&◌, ◌||◌, Option, none, some, List, [], ◌∷◌, ◌++◌, leb, ◌==◌,
  if◌then◌else◌, filter,
}
use coreason_adlc_api.Prelude.Text.{str_eq}
use coreason_adlc_api.Json.{Value, str, dict, Fields}
use coreason_adlc_api.Outcome.{
  Action, Exn, http, value_error, validation_error, cannot_edit_in_status, invalid_transition,
  must_be_approved, ok, raised, pure, raise_if, gets, modify, or_raise, ◌>>=◌, ◌>>◌,
}
use coreason_adlc_api.Workbench.Schemas.{
  AccessMode, edit, ApprovalStatus, draft, pending, approved, rejected, status_eq, DraftRow,
  DraftCreate, DraftUpdate, DraftResponse, AgentArtifact,
}
use coreason_adlc_api.Workbench.Table.{Table, find, update}
use coreason_adlc_api.Workbench.Locking.{
  not_found, fetch_draft, acquire_draft_lock, verify_lock_for_update,
}

-- What lies outside the repository between a Python value and the jsonb column: `dumps` is
-- `json.dumps`, and `jsonb v` is what a row reads back after `v` was passed for the column, through
-- the encoder and the decoder that `init_conn` registers in src/coreason_adlc_api/db.py.
pub record Codec : Type 0 where
  pub dumps : Value → String
  pub jsonb : Value → Value

-- The parameter that the statements pass for `oas_content`: the text of the dict.
abbrev pub content_column : Codec → Fields → Value
content_column c fs = c.jsonb (str (c.dumps (dict fs)))

pub validated : Value → DraftRow → Option DraftResponse
validated (dict fs) r = some record {
  draft_id = r.draft_id;
  user_uuid = r.user_uuid;
  auc_id = r.auc_id;
  title = r.title;
  oas_content = fs;
  runtime_env = r.runtime_env;
  status = r.status;
  locked_by_user = r.locked_by_user;
  lock_expiry = r.lock_expiry;
  mode = edit;
  created_at = r.created_at;
  updated_at = r.updated_at;
}
validated _ r = none

-- `DraftResponse.model_validate(dict(row))`: `oas_content` has to be a dict, `mode` has a default.
unfoldable pub model_validate : DraftRow → Option DraftResponse
unfolding validated
model_validate r = validated r.oas_content r

abbrev pub validate : DraftRow → Action Table DraftResponse
validate r = or_raise (model_validate r) validation_error

-- The row that INSERT makes, with the columns' defaults; `draft_id` is `gen_random_uuid()`.
abbrev pub new_row : Codec → ℕ → ℕ → DraftCreate → ℕ → DraftRow
new_row c draft_id now d user = record {
  draft_id = draft_id;
  user_uuid = some user;
  auc_id = d.auc_id;
  title = d.title;
  oas_content = content_column c d.oas_content;
  runtime_env = d.runtime_env;
  status = draft;
  locked_by_user = none;
  lock_expiry = none;
  is_deleted = false;
  created_at = now;
  updated_at = now;
}

unfoldable pub create_draft : Codec → ℕ → ℕ → DraftCreate → ℕ → Action Table DraftResponse
create_draft c draft_id now d user_uuid = do
  modify (λ t. t ++ new_row c draft_id now d user_uuid ∷ [])
  validate (new_row c draft_id now d user_uuid)

-- WHERE auc_id = $1 AND ($2 = TRUE OR is_deleted = FALSE)
abbrev pub listed : String → Bool → DraftRow → Bool
listed auc_id include_deleted r = str_eq r.auc_id auc_id && (include_deleted || not r.is_deleted)

-- ORDER BY updated_at DESC; rows of one time stay in the order of the table.
pub insert_by_updated : DraftRow → List DraftRow → List DraftRow
insert_by_updated r [] = r ∷ []
insert_by_updated r (x ∷ xs) =
    if leb x.updated_at r.updated_at then r ∷ x ∷ xs else x ∷ insert_by_updated r xs

unfoldable pub order_by_updated : List DraftRow → List DraftRow
unfolding insert_by_updated
order_by_updated [] = []
order_by_updated (r ∷ rs) = insert_by_updated r (order_by_updated rs)

-- The comprehension over the rows: the first row that is refused raises.
unfoldable pub validate_all : List DraftRow → Option (List DraftResponse)
validate_all [] = some []
validate_all (r ∷ rs) = elim (model_validate r) [
  | none ↦ none
  | some d ↦ elim (validate_all rs) [ none ↦ none | some ds ↦ some (d ∷ ds) ]
]

unfoldable pub get_drafts : String → Bool → Action Table (List DraftResponse)
get_drafts auc_id include_deleted = do
  rows ← gets (λ t. order_by_updated (filter (listed auc_id include_deleted) t))
  or_raise (validate_all rows) validation_error

-- `e.status_code == code`, of an `HTTPException`
abbrev pub has_status : ℕ → Exn → Bool
has_status code (http s d) = s == code
has_status code _ = false

-- the read after the lock is taken
abbrev read_draft : AccessMode → Option DraftRow → Action Table (Option DraftResponse)
read_draft mode none = pure none
read_draft mode (some r) = do resp ← validate r; pure (some record resp { mode = mode })

unfoldable pub get_draft_by_id : ℕ → ℕ → List String → ℕ → Action Table (Option DraftResponse)
get_draft_by_id draft_id user_uuid roles now t =
    let (r, t') = acquire_draft_lock draft_id user_uuid roles now t in
    elim r [
      | ok mode ↦ read_draft mode (find draft_id t') t'
      | raised e ↦ if has_status 404 e then (ok none, t') else (raised e, t')
    ]

abbrev pub is_editable : ApprovalStatus → Bool
is_editable s = status_eq s draft || status_eq s rejected

-- `_check_status_for_update`
unfoldable pub check_status_for_update : ℕ → Action Table (Unit {0})
check_status_for_update draft_id = do
  r ← fetch_draft draft_id
  raise_if (not (is_editable r.status)) (http 409 cannot_edit_in_status)

abbrev given {ℓ} : {A : Type ℓ} → Option A → A → A
given none old = old
given (some new) old = new

abbrev given_content : Codec → Option Fields → Value → Value
given_content c none old = old
given_content c (some fs) old = content_column c fs

abbrev given_env : Option String → Option String → Option String
given_env none old = old
given_env (some e) old = some e

-- SET of the fields that are given, and `updated_at = NOW()`
abbrev pub apply_update : Codec → DraftUpdate → ℕ → DraftRow → DraftRow
apply_update c u now r = record r {
  title = given u.title r.title;
  oas_content = given_content c u.oas_content r.oas_content;
  runtime_env = given_env u.runtime_env r.runtime_env;
  updated_at = now;
}

abbrev is_given {ℓ} : {A : Type ℓ} → Option A → Bool
is_given none = false
is_given (some _) = true

-- `fields` is not empty
abbrev pub has_fields : DraftUpdate → Bool
has_fields u = is_given u.title || is_given u.oas_content || is_given u.runtime_env

write_update : Codec → ℕ → DraftUpdate → ℕ → Action Table DraftResponse
write_update c draft_id u now = do
  modify (update draft_id (apply_update c u now))
  r ← fetch_draft draft_id
  validate r

-- `get_draft_by_id` with the 404 of a draft that is gone
unfoldable pub require_draft : ℕ → ℕ → ℕ → Action Table DraftResponse
require_draft draft_id user_uuid now = do
  or_raise (← get_draft_by_id draft_id user_uuid [] now) not_found

-- `checked` is the clock at the lock check, `locked` at the lock of an update without fields.
unfoldable pub update_draft : Codec → ℕ → DraftUpdate → ℕ → ℕ → ℕ → ℕ → Action Table DraftResponse
unfolding write_update
update_draft c draft_id u user_uuid checked locked now = do
  verify_lock_for_update draft_id user_uuid checked
  check_status_for_update draft_id
  if has_fields u then write_update c draft_id u now else require_draft draft_id user_uuid locked

-- the `allowed` of `transition_draft_status`
unfoldable pub allowed : ApprovalStatus → ApprovalStatus → Bool
allowed draft pending = true
allowed rejected pending = true
allowed pending approved = true
allowed pending rejected = true
allowed _ _ = false

abbrev pub set_status : ApprovalStatus → ℕ → DraftRow → DraftRow
set_status new_status now r = record r { status = new_status; updated_at = now }

-- The two statements of `transition_draft_status`: the read with the test, and the write.
unfoldable pub check_transition : ℕ → ApprovalStatus → Action Table (Unit {0})
check_transition draft_id new_status = do
  r ← fetch_draft draft_id
  raise_if (not (allowed r.status new_status)) (http 409 invalid_transition)

-- `dict(updated_row)` raises when the row is gone.
unfoldable pub write_status : ℕ → ApprovalStatus → ℕ → Action Table DraftResponse
write_status draft_id new_status now = do
  modify (update draft_id (set_status new_status now))
  r ← or_raise (← gets (find draft_id)) Exn.unhandled
  validate r

unfoldable pub transition_draft_status : ℕ → ApprovalStatus → ℕ → Action Table DraftResponse
transition_draft_status draft_id new_status now = do
  check_transition draft_id new_status
  write_status draft_id new_status now

abbrev pub artifact_of : DraftResponse → AgentArtifact
artifact_of d = record {
  id = d.draft_id;
  auc_id = d.auc_id;
  version = "1.0.0";
  content = d.oas_content;
  compliance_hash = "sha256:mock_compliance_verification_hash";
  author_signature = none;
  created_at = d.updated_at;
}

unfoldable pub assemble_artifact : ℕ → ℕ → ℕ → Action Table AgentArtifact
assemble_artifact draft_id user_oid now = do
  d ← require_draft draft_id user_oid now
  raise_if (not (status_eq d.status approved)) (value_error must_be_approved)
  pure (artifact_of d)

-- The URL https://gitlab.example.com/agents/{draft_id}/v1, by its draft. The signed artifact goes
-- into the log line of a push that is not implemented, and nowhere else.
pub data Url : Type 0 where
  agent_v1 : ℕ → Url

unfoldable pub publish_artifact : ℕ → String → ℕ → ℕ → Action Table Url
publish_artifact draft_id signature user_oid now = do
  artifact ← assemble_artifact draft_id user_oid now
  pure (agent_v1 draft_id)
