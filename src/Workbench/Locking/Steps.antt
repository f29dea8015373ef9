-- ===== src/Workbench/Locking/Steps.antt =====
-- Each lock operation at a row that is known: equations under which the operations can stay shut.
use coreason_adlc_api.Prelude.{
  ℕ, ◌≡◌, ◌≢◌, ◌⊎◌, inl, inr, refl, String, true, false, none, some, List, arith, if◌then◌else◌,
}
use coreason_adlc_api.Prelude.Text.{contains}
use coreason_adlc_api.Outcome.{ok, raised, http, locked_by_another, must_acquire_lock, lock_expired}
use coreason_adlc_api.Workbench.Schemas.{edit, safe_view, DraftRow}
use coreason_adlc_api.Workbench.Table.{Table, find, update, KeepsId, find-update_ne}
use coreason_adlc_api.Workbench.Locking.{
  acquire_draft_lock, refresh_lock, verify_lock_for_update, take_lock, extend_lock, locked_by_other,
  held_by, is_expired, remaining, not_found,
}

module _ (id user : ℕ) (roles : List String) (now : ℕ) (t : Table) where
  pub acquire_missing :
      find id t ≡ none → acquire_draft_lock id user roles now t ≡ (raised not_found, t)
  unfolding acquire_draft_lock
  acquire_missing e = ground arith

  pub acquire_granted :
      (r : DraftRow)
      → find id t ≡ some r
      → locked_by_other r.locked_by_user r.lock_expiry user now ≡ false
      → acquire_draft_lock id user roles now t ≡ (ok edit, update id (take_lock user now) t)
  unfolding acquire_draft_lock
  acquire_granted r e free = ground arith

  pub acquire_held :
      (r : DraftRow)
      → find id t ≡ some r
      → locked_by_other r.locked_by_user r.lock_expiry user now ≡ true
      → acquire_draft_lock id user roles now t ≡ (
          if contains "MANAGER" roles
          then (ok safe_view, t)
          else (raised (http 423 (locked_by_another (remaining r.lock_expiry now))), t))
  unfolding acquire_draft_lock
  acquire_held r e held = ground arith

pub verify_missing :
    (id user now : ℕ) (t : Table)
    → find id t ≡ none
    → verify_lock_for_update id user now t ≡ (raised not_found, t)
unfolding verify_lock_for_update
verify_missing id user now t e = ground arith

pub verify_row :
    (id user now : ℕ) (t : Table) (r : DraftRow)
    → find id t ≡ some r
    → verify_lock_for_update id user now t ≡ (
        if held_by r.locked_by_user user
        then (if is_expired r.lock_expiry now
            then (raised (http 423 lock_expired), t)
            else (ok tt, t))
        else (raised (http 423 must_acquire_lock), t))
unfolding verify_lock_for_update
verify_row id user now t r e = ground arith

pub take_lock-KeepsId : (user now : ℕ) → KeepsId (take_lock user now)
take_lock-KeepsId user now r = refl

pub extend_lock-KeepsId : (user now : ℕ) → KeepsId (extend_lock user now)
extend_lock-KeepsId user now r = ground arith

-- A refresh writes the new expiry into the rows that the user holds, whatever it then answers.
pub refresh_table :
    (id user now : ℕ) (t : Table)
    → (refresh_lock id user now t).1 ≡ update id (extend_lock user now) t
unfolding refresh_lock
refresh_table id user now t = ground arith

-- An acquisition leaves the table alone or takes the lock.
pub acquire_table :
    (id user : ℕ) (roles : List String) (now : ℕ) (t : Table)
    → ((acquire_draft_lock id user roles now t).1 ≡ t)
      ⊎ ((acquire_draft_lock id user roles now t).1 ≡ update id (take_lock user now) t)
unfolding acquire_draft_lock
acquire_table id user roles now t = ground arith

pub acquire_elsewhere :
    (id j user : ℕ) (roles : List String) (now : ℕ) (t : Table)
    → j ≢ id
    → find j (acquire_draft_lock id user roles now t).1 ≡ find j t
acquire_elsewhere id j user roles now t ne = elim (acquire_table id user roles now t) [
  | inl same ↦ rw same
  | inr taken ↦
      rw taken (find-update_ne id j (take_lock user now) t (take_lock-KeepsId user now) ne)
]

pub refresh_elsewhere :
    (id j user now : ℕ) (t : Table) → j ≢ id → find j (refresh_lock id user now t).1 ≡ find j t
refresh_elsewhere id j user now t ne =
    rw (refresh_table id user now t)
      (find-update_ne id j (extend_lock user now) t (extend_lock-KeepsId user now) ne)

pub verify_table : (id user now : ℕ) (t : Table) → (verify_lock_for_update id user now t).1 ≡ t
unfolding verify_lock_for_update
verify_table id user now t = ground arith
