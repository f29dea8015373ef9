-- ===== src/Workbench/Service/Effects.antt =====
-- What each operation of the service leaves in the table.
use coreason_adlc_api.Prelude.{
  ℕ, ◌≡◌, ◌⊎◌, inl, inr, String, true, false, some, List, [], arith, Option-cases,
}
use coreason_adlc_api.Workbench.Schemas.{ApprovalStatus, DraftRow, DraftUpdate}
use coreason_adlc_api.Workbench.Table.{Table, find, update}
use coreason_adlc_api.Workbench.Locking.{acquire_draft_lock, take_lock, held_by, is_expired}
use coreason_adlc_api.Workbench.Locking.Steps.{acquire_table, verify_missing, verify_row}
use coreason_adlc_api.Workbench.Service.{
  Codec, get_draft_by_id, require_draft, check_status_for_update, update_draft, is_editable,
  apply_update, allowed, set_status, check_transition, write_status, transition_draft_status,
  assemble_artifact, publish_artifact,
}

-- The table as it was, or with the lock of the draft taken.
abbrev pub LockWrite : ℕ → Table → Table → Type 0
LockWrite id t t' = (t' ≡ t) ⊎ ((user : ℕ) × (now : ℕ) × (t' ≡ update id (take_lock user now) t))

acquire-LockWrite :
    (id user : ℕ) (roles : List String) (now : ℕ) (t : Table)
    → LockWrite id t (acquire_draft_lock id user roles now t).1
acquire-LockWrite id user roles now t = elim (acquire_table id user roles now t) [
  | inl same ↦ inl same
  | inr taken ↦ inr (user, now, taken)
]

pub get_draft_by_id_table :
    (id user : ℕ) (roles : List String) (now : ℕ) (t : Table)
    → (get_draft_by_id id user roles now t).1 ≡ (acquire_draft_lock id user roles now t).1
unfolding get_draft_by_id
get_draft_by_id_table id user roles now t = ground arith

pub require_draft_table :
    (id user now : ℕ) (t : Table)
    → (require_draft id user now t).1 ≡ (acquire_draft_lock id user [] now t).1
unfolding require_draft
require_draft_table id user now t = ground (arith, get_draft_by_id_table id user [] now t)

pub require_draft-LockWrite :
    (id user now : ℕ) (t : Table) → LockWrite id t (require_draft id user now t).1
require_draft-LockWrite id user now t =
    rw (require_draft_table id user now t) (acquire-LockWrite id user [] now t)

pub get_draft_by_id-LockWrite :
    (id user : ℕ) (roles : List String) (now : ℕ) (t : Table)
    → LockWrite id t (get_draft_by_id id user roles now t).1
get_draft_by_id-LockWrite id user roles now t =
    rw (get_draft_by_id_table id user roles now t) (acquire-LockWrite id user roles now t)

-- The table as it was, or with a status written that the old one allows.
pub transition_draft_status_table :
    (id : ℕ) (new_status : ApprovalStatus) (now : ℕ) (t : Table)
    → let t' = (transition_draft_status id new_status now t).1 in
      (t' ≡ t)
      ⊎ ((r : DraftRow) × (find id t ≡ some r)
          × (allowed r.status new_status ≡ true)
          × (t' ≡ update id (set_status new_status now) t))
unfolding transition_draft_status check_transition write_status
transition_draft_status_table id new_status now t = ground arith

-- The table as it was, with the lock taken (an update without fields), or with the fields written
-- into a draft that the user holds and whose status can be edited.
pub update_draft_table :
    (c : Codec) (id : ℕ) (u : DraftUpdate) (user checked locked now : ℕ) (t : Table)
    → let t' = (update_draft c id u user checked locked now t).1 in
      (t' ≡ t)
      ⊎ (t' ≡ (require_draft id user locked t).1)
      ⊎ ((r : DraftRow) × (find id t ≡ some r)
          × (held_by r.locked_by_user user ≡ true)
          × (is_expired r.lock_expiry checked ≡ false)
          × (is_editable r.status ≡ true)
          × (t' ≡ update id (apply_update c u now) t))
unfolding update_draft check_status_for_update
update_draft_table c id u user checked locked now t = elim (Option-cases (find id t)) [
  | inl missing ↦ ground (arith, verify_missing id user checked t missing)
  | inr (r, e) ↦ ground (arith, verify_row id user checked t r e)
]

pub assemble_artifact_table :
    (id user now : ℕ) (t : Table)
    → (assemble_artifact id user now t).1 ≡ (require_draft id user now t).1
unfolding assemble_artifact
assemble_artifact_table id user now t = ground arith

pub publish_artifact_table :
    (id : ℕ) (signature : String) (user now : ℕ) (t : Table)
    → (publish_artifact id signature user now t).1 ≡ (assemble_artifact id user now t).1
unfolding publish_artifact
publish_artifact_table id signature user now t = ground arith
