-- ===== src/Workbench/Router/Requests.antt =====
-- The requests that the handlers of /workbench serve, one after the other, with the clock readings
-- of each and, for a new draft, the id that the database gives it.
use coreason_adlc_api.Prelude.{ℕ, String, List, [], ◌∷◌}
use coreason_adlc_api.Identity.{UserIdentity}
use coreason_adlc_api.Workbench.Schemas.{DraftCreate, DraftUpdate}
use coreason_adlc_api.Workbench.Table.{Table}
use coreason_adlc_api.Workbench.Service.{Codec}
use coreason_adlc_api.Workbench.Router.{
  Mappings, list_drafts, create_new_draft, get_draft, UpdateTimes, update_existing_draft,
  heartbeat_lock, submit_draft, approve_draft, reject_draft, get_artifact_assembly,
  publish_agent_artifact,
}

pub data Request : Type 0 where
  list : String → Request
  create : ℕ → ℕ → DraftCreate → Request
  get : ℕ → ℕ → Request
  put : ℕ → DraftUpdate → UpdateTimes → Request
  heartbeat : ℕ → ℕ → Request
  submit : ℕ → ℕ → ℕ → Request
  approve : ℕ → ℕ → ℕ → Request
  reject : ℕ → ℕ → ℕ → Request
  assemble : ℕ → ℕ → ℕ → Request
  publish : ℕ → String → ℕ → ℕ → Request

module _ (ms : Mappings) (c : Codec) where
  -- The table after a request, whatever it answers.
  unfoldable pub handle : UserIdentity → Request → Table → Table
  handle i (list auc_id) t = (list_drafts ms auc_id i t).1
  handle i (create id now d) t = (create_new_draft ms c id now d i t).1
  handle i (get id now) t = (get_draft ms id now i t).1
  handle i (put id u ts) t = (update_existing_draft ms c id u ts i t).1
  handle i (heartbeat id now) t = (heartbeat_lock id now i t).1
  handle i (submit id read written) t = (submit_draft ms id read written i t).1
  handle i (approve id read written) t = (approve_draft ms id read written i t).1
  handle i (reject id read written) t = (reject_draft ms id read written i t).1
  handle i (assemble id read assembled) t = (get_artifact_assembly ms id read assembled i t).1
  handle i (publish id signature read assembled) t =
      (publish_agent_artifact ms id signature read assembled i t).1

  unfoldable pub handle_all : List (UserIdentity × Request) → Table → Table
  handle_all [] t = t
  handle_all ((i, q) ∷ qs) t = handle_all qs (handle i q t)
