-- ===== src/Workbench/Scenarios.antt =====
-- The theorems on the locks and on the service, at the sample workbench.
use coreason_adlc_api.Prelude.{ℕ, ◌≡◌, ◌≢◌, ◌↔◌, ◌⊎◌, refl, none, some, List, [], ◌∷◌, arith}
use coreason_adlc_api.Outcome.{ok, raised, http, invalid_transition}
use coreason_adlc_api.Workbench.Schemas.{
  edit, pending, approved, rejected, DraftRow, DraftUpdate, DraftResponse,
}
use coreason_adlc_api.Workbench.Table.{find}
use coreason_adlc_api.Workbench.Locking.{acquire_draft_lock, verify_lock_for_update}
use coreason_adlc_api.Workbench.Locking.Access.{Available, acquire_draft_lock-edit_iff}
use coreason_adlc_api.Workbench.Locking.Lease.{
  LockRequest, acquire, refresh, verify, serve_all, lease_exclusive,
}
use coreason_adlc_api.Workbench.Service.{
  set_status, check_transition, write_status, transition_draft_status, model_validate,
}
use coreason_adlc_api.Workbench.Service.Workflow.{
  Edge, Moved, transition_draft_status_lem, approval_race,
}
use coreason_adlc_api.Workbench.Service.Reads.{Shows}
use coreason_adlc_api.Workbench.Samples.{row, table}

acquire_draft_lock-edit_iff_example :
    ((acquire_draft_lock 1 8 [] 40000000 table).0 ≡ ok edit)
    ↔ ((r : DraftRow) × (find 1 table ≡ some r) × Available r 8 40000000)
acquire_draft_lock-edit_iff_example = acquire_draft_lock-edit_iff 1 8 [] 40000000 table

-- User 8 asks for the lock that user 7 has just taken, and user 7 refreshes it.
abbrev lock_requests : List LockRequest
lock_requests = acquire 2 8 ("MANAGER" ∷ []) 5000000 ∷ refresh 2 7 9000000 ∷ verify 2 8 9000001 ∷ []

lease_exclusive_example :
    let t' = serve_all (acquire_draft_lock 2 7 [] 1000000 table).1 lock_requests in
    ((verify_lock_for_update 2 7 30000000 t').0 ≡ ok tt)
    × ((verify_lock_for_update 2 8 30000000 t').0 ≢ ok tt)
    × ((acquire_draft_lock 2 8 ("MANAGER" ∷ []) 30000000 t').0 ≢ ok edit)
unfolding find acquire_draft_lock
lease_exclusive_example =
    lease_exclusive 2 7 8 [] ("MANAGER" ∷ []) 1000000 30000000 table lock_requests (omega arith)
      refl (omega arith) (omega arith) (omega arith)

transition_draft_status_lem_example :
    let r = row 2 pending none none 6 in
    let (res, t') = transition_draft_status 2 rejected 50 table in
    (Edge r.status rejected
      × ((r' : DraftRow) × (find 2 t' ≡ some r')
          × Moved rejected 50 r r'
          × ((d : DraftResponse) → model_validate r' ≡ some d → (res ≡ ok d) × Shows r' d))
      × ((j : ℕ) → j ≢ 2 → find j t' ≡ find j table))
    ⊎ ((¬ Edge r.status rejected) × (res ≡ raised (http 409 invalid_transition)) × (t' ≡ table))
unfolding find
transition_draft_status_lem_example =
    transition_draft_status_lem 2 rejected 50 table (row 2 pending none none 6) refl

approval_race_example :
    let r = row 2 pending none none 6 in
    let t₁ = (write_status 2 approved 50 table).1 in
    let t₂ = (write_status 2 rejected 51 t₁).1 in
    (check_transition 2 approved table ≡ (ok tt, table))
    × (check_transition 2 rejected table ≡ (ok tt, table))
    × (find 2 t₁ ≡ some (set_status approved 50 r))
    × (find 2 t₂ ≡ some (set_status rejected 51 r))
    × ((transition_draft_status 2 rejected 51 (transition_draft_status 2 approved 50 table).1).0
        ≡ raised (http 409 invalid_transition))
unfolding find
approval_race_example = approval_race 2 50 51 table (row 2 pending none none 6) refl refl

abbrev retitle : DraftUpdate
retitle = record { title = some "agent 2"; oas_content = none; runtime_env = none }
