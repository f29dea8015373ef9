-- ===== src/Workbench/Trials.antt =====
-- The theorems on sequences of requests, on the listing and on the creation of drafts, at the
-- sample workbench.
use coreason_adlc_api.Prelude.{
  ℕ, ◌≡◌, ◌≢◌, refl, inl, true, false, Option, none, some, List, [], ◌∷◌, arith,
}
use mathlib.Core.List.{Perm}
use coreason_adlc_api.Json.{str}
use coreason_adlc_api.Outcome.{ok, raised, http, validation_error, not_authorized_for}
use coreason_adlc_api.Identity.{UserIdentity, map_groups_to_projects}
use coreason_adlc_api.Workbench.Schemas.{
  edit, ApprovalStatus, draft, pending, approved, DraftRow, DraftCreate, DraftResponse,
}
use coreason_adlc_api.Workbench.Table.{find, update}
use coreason_adlc_api.Workbench.Locking.{acquire_draft_lock, take_lock}
use coreason_adlc_api.Workbench.Service.{
  new_row, create_draft, get_drafts, order_by_updated, validate_all, get_draft_by_id, require_draft,
  allowed, check_transition, write_status, transition_draft_status, assemble_artifact, artifact_of,
  model_validate,
}
use coreason_adlc_api.Workbench.Service.Listing.{
  Descending, Chosen, Wanted, ShowAll, get_drafts_lem,
}
use coreason_adlc_api.Workbench.Service.Creation.{create_draft_raises}
use coreason_adlc_api.Workbench.Router.{
  may_access, get_draft, get_draft_and_verify_access, move_draft, submit_draft, approve_draft,
  reject_draft,
}
use coreason_adlc_api.Workbench.Router.Changes.{IsManager}
use coreason_adlc_api.Workbench.Router.Requests.{Request, handle, handle_all}
use coreason_adlc_api.Workbench.Router.Integrity.{
  StillThere, AnyOf, approved_is_final, outsiders_change_nothing, approval_needs-IsManager,
  assemble_artifact-stable,
}
use coreason_adlc_api.Workbench.Router.Lockout.{outsider_locks_draft}
use coreason_adlc_api.Workbench.Samples.{content, row, table, codec, mappings, manager, outsider}

abbrev sketch : DraftCreate
sketch = record { auc_id = "project-a"; title = "agent"; oas_content = content; runtime_env = none }

abbrev response : ℕ → ApprovalStatus → Option ℕ → Option ℕ → ℕ → DraftResponse
response id status owner expiry updated = record {
  draft_id = id;
  user_uuid = some 7;
  auc_id = "project-a";
  title = "agent";
  oas_content = content;
  runtime_env = none;
  status = status;
  locked_by_user = owner;
  lock_expiry = expiry;
  mode = edit;
  created_at = 1;
  updated_at = updated;
}

abbrev shown_rows : List DraftResponse
shown_rows =
    response 2 pending none none 6
    ∷ response 1 draft (some 7) (some 40000000) 5
    ∷ response 3 approved none none 4
    ∷ []

get_drafts_lem_example :
    ((get_drafts "project-a" false table).1 ≡ table)
    × ((rows : List DraftRow) × (chosen : List DraftRow) × Chosen
          (Wanted "project-a" false)
          table
          chosen
        × Perm rows chosen
        × Descending rows
        × ShowAll rows shown_rows)
unfolding get_drafts order_by_updated validate_all model_validate
get_drafts_lem_example = get_drafts_lem "project-a" false table shown_rows refl

create_draft_raises_example :
    let r = new_row codec 4 50 sketch 7 in
    let (res, t') = create_draft codec 4 50 sketch 7 table in
    (res ≡ raised validation_error)
    × (find 4 t' ≡ some r)
    × (r.oas_content ≡ str "{}")
    × ((get_drafts "project-a" false t').0 ≡ raised validation_error)
unfolding find
create_draft_raises_example = create_draft_raises codec 4 50 sketch 7 table (λ v. refl) refl

-- The manager rejects draft 2, its owner's group submits it once more, and the manager approves it.
abbrev review : List (UserIdentity × Request)
review =
    (manager, Request.reject 2 10 11)
    ∷ (manager, Request.submit 2 12 13)
    ∷ (outsider, Request.get 3 14)
    ∷ (manager, Request.approve 2 15 16)
    ∷ []

approved_is_final_example :
    StillThere 3 (row 3 approved none none 4) (handle_all (some mappings) codec review table)
unfolding find
approved_is_final_example =
    approved_is_final (some mappings) codec review 3 table (row 3 approved none none 4) refl refl

outsiders_change_nothing_example :
    StillThere 1
      (row 1 draft (some 7) (some 40000000) 5)
      (handle_all (some mappings) codec ((outsider, Request.submit 1 50000000 50000001) ∷ []) table)
unfolding find map_groups_to_projects
outsiders_change_nothing_example =
    outsiders_change_nothing (some mappings) codec
      ((outsider, Request.submit 1 50000000 50000001) ∷ []) 1 table
      (row 1 draft (some 7) (some 40000000) 5) refl (refl, tt)

approval_needs-IsManager_example :
    AnyOf
      (λ q. IsManager (some mappings) q.0 × (may_access (some mappings) q.0 "project-a" ≡ true))
      review
unfolding find update map_groups_to_projects handle_all handle reject_draft approve_draft
    submit_draft move_draft get_draft get_draft_and_verify_access require_draft get_draft_by_id
    acquire_draft_lock transition_draft_status check_transition allowed write_status model_validate
    assemble_artifact
approval_needs-IsManager_example =
    approval_needs-IsManager (some mappings) codec review 2 table (row 2 pending none none 6)
      (row 2 approved (some 8) (some 30000015) 16) refl (λ e. cc) refl refl

-- Draft 3 is assembled by the manager at 20, and again after the review.
assemble_artifact-stable_example :
    artifact_of (response 3 approved none none 4) ≡ artifact_of (response 3 approved none none 4)
unfolding find update map_groups_to_projects handle_all handle reject_draft approve_draft
    submit_draft move_draft get_draft get_draft_and_verify_access require_draft get_draft_by_id
    acquire_draft_lock transition_draft_status check_transition allowed write_status model_validate
    assemble_artifact
assemble_artifact-stable_example =
    assemble_artifact-stable (some mappings) codec review 3 8 20 8 60000000 table
      (artifact_of (response 3 approved none none 4))
      (artifact_of (response 3 approved none none 4)) refl refl

outsider_locks_draft_example :
    let r = row 2 pending none none 6 in
    let (res, t') = get_draft (some mappings) 2 50 outsider table in
    (res ≡ raised (http 403 (not_authorized_for "project-a")))
    × (find 2 t' ≡ some (take_lock 9 50 r))
    × ((acquire_draft_lock 2 8 ("MANAGER" ∷ []) 30000049 t').0 ≢ ok edit)
unfolding find map_groups_to_projects
outsider_locks_draft_example =
    outsider_locks_draft mappings outsider 2 50 8 30000049 ("MANAGER" ∷ []) table
      (row 2 pending none none 6) content refl refl (inl refl) refl (omega arith) (omega arith)
