-- ===== src/Workbench/Locking.antt =====
-- src/coreason_adlc_api/workbench/locking.py: the lock that a reader takes on a draft. `now` is
-- what the function reads from the clock. The acquisition runs in a transaction that holds the
-- row (FOR UPDATE), so it is one step.
pub mod Steps
pub mod Access
pub mod Lease
use coreason_adlc_api.Prelude.{
  ℕ, ◌+◌, ◌-◌, ◌*◌, ◌/◌, ◌%◌, String, Bool, true, false, not, ◌&&◌, Option, none, some, List, [],
  ◌∷◌, ltb, leb, ◌==◌, if◌then◌else◌,
}
use coreason_adlc_api.Prelude.Text.{contains}
use coreason_adlc_api.Outcome.{
  Action, Exn, http, draft_not_found, locked_by_another, not_lock_holder, must_acquire_lock,
  lock_expired, pure, raise, raise_if, gets, modify, or_raise, ◌>>=◌, ◌>>◌,
}
use coreason_adlc_api.Workbench.Schemas.{AccessMode, edit, safe_view, DraftRow}
use coreason_adlc_api.Workbench.Table.{Table, find, update}

abbrev pub lock_duration_seconds : ℕ
lock_duration_seconds = 30

-- `timedelta(seconds=n)`
abbrev pub seconds : ℕ → ℕ
seconds n = n * 1000000

abbrev pub not_found : Exn
not_found = http 404 draft_not_found

-- `fetchrow` by id, and the 404 of a missing row
abbrev pub fetch_draft : ℕ → Action Table DraftRow
fetch_draft draft_id = do or_raise (← gets (find draft_id)) not_found

-- `locked_by and locked_by != user_uuid and expiry and expiry > now`
abbrev pub locked_by_other : Option ℕ → Option ℕ → ℕ → ℕ → Bool
locked_by_other (some owner) (some expiry) user now = not (owner == user) && ltb now expiry
locked_by_other _ _ user now = false

-- `(expiry - now).seconds`: a timedelta's seconds leave its days out.
abbrev pub remaining : Option ℕ → ℕ → ℕ
remaining none now = 0
remaining (some expiry) now = (expiry - now) / seconds 1 % 86400

abbrev pub take_lock : ℕ → ℕ → DraftRow → DraftRow
take_lock user now r = record r {
  locked_by_user = some user;
  lock_expiry = some (now + seconds lock_duration_seconds);
}

-- the rest of `acquire_draft_lock`, once the row is read
acquire_row : ℕ → ℕ → List String → ℕ → DraftRow → Action Table AccessMode
acquire_row draft_id user_uuid roles now r =
    if locked_by_other r.locked_by_user r.lock_expiry user_uuid now
    then (if contains "MANAGER" roles
        then pure safe_view
        else raise (http 423 (locked_by_another (remaining r.lock_expiry now))))
    else (modify (update draft_id (take_lock user_uuid now)) >> pure edit)

unfoldable pub acquire_draft_lock : ℕ → ℕ → List String → ℕ → Action Table AccessMode
unfolding acquire_row
acquire_draft_lock draft_id user_uuid roles now = do
  r ← fetch_draft draft_id
  acquire_row draft_id user_uuid roles now r

abbrev pub held_by : Option ℕ → ℕ → Bool
held_by none user = false
held_by (some owner) user = owner == user

abbrev pub extend_lock : ℕ → ℕ → DraftRow → DraftRow
extend_lock user now r =
    if held_by r.locked_by_user user
    then record r { lock_expiry = some (now + seconds lock_duration_seconds) }
    else r

-- how many rows WHERE draft_id = $2 AND locked_by_user = $3 meets
held_rows : ℕ → ℕ → Table → ℕ
held_rows draft_id user [] = 0
held_rows draft_id user (r ∷ t) =
    let rest = held_rows draft_id user t in
    if r.draft_id == draft_id && held_by r.locked_by_user user then rest + 1 else rest

-- after "UPDATE 0"
explain_no_update : ℕ → ℕ → Action Table (Unit {0})
explain_no_update draft_id user_uuid = do
  r ← fetch_draft draft_id
  raise_if (not (held_by r.locked_by_user user_uuid)) (http 423 not_lock_holder)

unfoldable pub refresh_lock : ℕ → ℕ → ℕ → Action Table (Unit {0})
unfolding held_rows explain_no_update
refresh_lock draft_id user_uuid now = do
  count ← gets (held_rows draft_id user_uuid)
  modify (update draft_id (extend_lock user_uuid now))
  if count == 0 then explain_no_update draft_id user_uuid else pure tt

-- `expiry and expiry <= now`
abbrev pub is_expired : Option ℕ → ℕ → Bool
is_expired none now = false
is_expired (some expiry) now = leb expiry now

unfoldable pub verify_lock_for_update : ℕ → ℕ → ℕ → Action Table (Unit {0})
verify_lock_for_update draft_id user_uuid now = do
  r ← fetch_draft draft_id
  raise_if (not (held_by r.locked_by_user user_uuid)) (http 423 must_acquire_lock)
  raise_if (is_expired r.lock_expiry now) (http 423 lock_expired)
