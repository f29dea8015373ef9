-- ===== src/Workbench/Router/Lockout.antt =====
-- What reading a draft does for a user without access to its project.
use coreason_adlc_api.Prelude.{
  ℕ, ◌+◌, ◌<◌, ◌≡◌, ◌≢◌, String, false, some, List, arith, ap, ◌∙◌, map,
}
use coreason_adlc_api.Json.{Fields, dict}
use coreason_adlc_api.Outcome.{ok, raised, http, not_authorized_for}
use coreason_adlc_api.Identity.{mappings_of, UserIdentity, GroupMapping}
use coreason_adlc_api.Workbench.Schemas.{edit, DraftRow, DraftResponse}
use coreason_adlc_api.Workbench.Table.{Table, find, update, map_found, find-update_self}
use coreason_adlc_api.Workbench.Locking.{
  acquire_draft_lock, take_lock, seconds, lock_duration_seconds,
}
use coreason_adlc_api.Workbench.Locking.Steps.{acquire_granted, acquire_held, take_lock-KeepsId}
use coreason_adlc_api.Workbench.Locking.Access.{Available, Available-free}
use coreason_adlc_api.Workbench.Service.{model_validate, get_draft_by_id}
use coreason_adlc_api.Workbench.Router.{may_access, get_draft}

module _ (id now : ℕ) (t : Table) (r : DraftRow) (fs : Fields) where
  shown : ℕ → DraftResponse
  shown user = record {
    draft_id = r.draft_id;
    user_uuid = r.user_uuid;
    auc_id = r.auc_id;
    title = r.title;
    oas_content = fs;
    runtime_env = r.runtime_env;
    status = r.status;
    locked_by_user = some user;
    lock_expiry = some (now + seconds lock_duration_seconds);
    mode = edit;
    created_at = r.created_at;
    updated_at = r.updated_at;
  }

  locked_row :
      (user : ℕ)
      → find id t ≡ some r
      → find id (update id (take_lock user now) t) ≡ some (take_lock user now r)
  locked_row user e =
      find-update_self id (take_lock user now) t (take_lock-KeepsId user now)
      ∙ ap (map_found (take_lock user now)) e

  locked_row_shown :
      (user : ℕ)
      → r.oas_content ≡ dict fs
      → model_validate (take_lock user now r) ≡ some (shown user)
  unfolding model_validate shown
  locked_row_shown user content = ground arith

  read_and_locked :
      (user : ℕ) (roles : List String)
      → find id t ≡ some r
      → r.oas_content ≡ dict fs
      → Available r user now
      → get_draft_by_id id user roles now t
        ≡ (ok (some (shown user)), update id (take_lock user now) t)
  unfolding get_draft_by_id shown
  read_and_locked user roles e content free = ground (
    arith,
    acquire_granted id user roles now t r e (Available-free r user now free),
    locked_row user e,
    locked_row_shown user content,
  )

  refused_but_locked :
      (ms : List GroupMapping) (i : UserIdentity)
      → find id t ≡ some r
      → r.oas_content ≡ dict fs
      → Available r i.oid now
      → may_access (some ms) i r.auc_id ≡ false
      → get_draft (some ms) id now i t
        ≡ (raised (http 403 (not_authorized_for r.auc_id)), update id (take_lock i.oid now) t)
  unfolding get_draft shown
  refused_but_locked ms i e content free out = ground (
    arith,
    read_and_locked i.oid (map (λ m. m.role_name) (mappings_of i.groups ms)) e content free,
  )

-- The handler of GET /workbench/drafts/{id} takes the lock before it checks the access. For a user
-- without access to the project of a draft, whose lock is available to the user and whose content
-- is a dict, it answers 403 and leaves the draft locked by that user: for thirty seconds nobody
-- else is granted the lock for editing, whatever their roles.
pub outsider_locks_draft :
    (ms : List GroupMapping) (i : UserIdentity) (id now other later : ℕ) (roles : List String)
    (t : Table) (r : DraftRow) (fs : Fields)
    → find id t ≡ some r
    → r.oas_content ≡ dict fs
    → Available r i.oid now
    → may_access (some ms) i r.auc_id ≡ false
    → other ≢ i.oid
    → later < now + seconds lock_duration_seconds
    → let (res, t') = get_draft (some ms) id now i t in
      (res ≡ raised (http 403 (not_authorized_for r.auc_id)))
      × (find id t' ≡ some (take_lock i.oid now r))
      × ((acquire_draft_lock id other roles later t').0 ≢ ok edit)
outsider_locks_draft ms i id now other later roles t r fs e content free out ne early =
    let q = refused_but_locked id now t r fs ms i e content free out in
    let found = ap (λ p. find id p.1) q ∙ locked_row id now t r fs i.oid e in
    (
      ap (λ p. p.0) q,
      found,
      ground (arith, acquire_held id other roles later _ (take_lock i.oid now r) found),
    )
