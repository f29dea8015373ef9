-- ===== src/Workbench/Locking/Lease.antt =====
-- What an acquired lock promises over time: for thirty seconds its holder, and nobody else, may
-- edit, whatever requests on locks are served in between.
use coreason_adlc_api.Prelude.{
  ℕ, ◌+◌, ◌≤◌, ◌<◌, ◌≡◌, ◌≢◌, refl, String, some, List, [], ◌∷◌, arith, ap, ◌∙◌, ℕ_discrete,
}
use coreason_adlc_api.Outcome.{ok}
use coreason_adlc_api.Workbench.Schemas.{edit, DraftRow}
use coreason_adlc_api.Workbench.Table.{Table, find, map_found, find-update_self}
use coreason_adlc_api.Workbench.Locking.{
  acquire_draft_lock, refresh_lock, verify_lock_for_update, seconds, lock_duration_seconds,
  take_lock, extend_lock,
}
use coreason_adlc_api.Workbench.Locking.Steps.{
  acquire_granted, acquire_held, verify_row, take_lock-KeepsId, extend_lock-KeepsId, refresh_table,
  acquire_elsewhere, refresh_elsewhere, verify_table,
}
use coreason_adlc_api.Workbench.Locking.Access.{
  verify_lock_for_update-excludes, Available-free, acquire_draft_lock-edit_iff,
}

-- A request on the lock of a draft, with the time at which it is served.
pub data LockRequest : Type 0 where
  acquire : ℕ → ℕ → List String → ℕ → LockRequest
  refresh : ℕ → ℕ → ℕ → LockRequest
  verify : ℕ → ℕ → ℕ → LockRequest

abbrev pub served_at : LockRequest → ℕ
served_at (acquire id user roles now) = now
served_at (refresh id user now) = now
served_at (verify id user now) = now

-- What the request leaves in the table.
pub serve : Table → LockRequest → Table
serve t (acquire id user roles now) = (acquire_draft_lock id user roles now t).1
serve t (refresh id user now) = (refresh_lock id user now t).1
serve t (verify id user now) = (verify_lock_for_update id user now t).1

unfoldable pub serve_all : Table → List LockRequest → Table
serve_all t [] = t
serve_all t (q ∷ qs) = serve_all (serve t q) qs

abbrev pub ServedIn : ℕ → ℕ → List LockRequest → Type 0
ServedIn from until [] = Unit
ServedIn from until (q ∷ qs) = (from ≤ served_at q) × (served_at q < until) × ServedIn from until qs

-- The row is there, and `user` holds its lock until `until` or longer.
pub record Holds (id user until : ℕ) (t : Table) : Type 0 where
  pub row : DraftRow
  pub found : find id t ≡ some row
  pub owner : row.locked_by_user ≡ some user
  pub expiry : ℕ
  pub expires : row.lock_expiry ≡ some expiry
  pub long_enough : until ≤ expiry

module _ (id user until : ℕ) where
  Holds-find :
      (t t' : Table) → find id t' ≡ find id t → Holds id user until t → Holds id user until t'
  Holds-find t t' same h = record {
    row = h.row;
    found = same ∙ h.found;
    owner = h.owner;
    expiry = h.expiry;
    expires = h.expires;
    long_enough = h.long_enough;
  }

  renewed : ℕ → DraftRow → DraftRow
  renewed now r = record r { lock_expiry = some (now + seconds lock_duration_seconds) }

  -- The holder's own acquisition or refresh sets the same columns.
  renewed-Holds :
      (now : ℕ) (t t' : Table)
      → until ≤ now + seconds lock_duration_seconds
      → (h : Holds id user until t) → find id t' ≡ some (renewed now h.row)
      → Holds id user until t'
  unfolding renewed
  renewed-Holds now t t' long h e = record {
    row = renewed now h.row;
    found = e;
    owner = h.owner;
    expiry = now + seconds lock_duration_seconds;
    expires = refl;
    long_enough = long;
  }

  own_acquire :
      (roles : List String) (now : ℕ) (t : Table) (h : Holds id user until t)
      → find id (acquire_draft_lock id user roles now t).1 ≡ some (renewed now h.row)
  unfolding renewed
  own_acquire roles now t h = ground (
    arith,
    acquire_granted id user roles now t h.row h.found,
    find-update_self id (take_lock user now) t (take_lock-KeepsId user now),
  )

  others_acquire :
      (other : ℕ) (roles : List String) (now : ℕ) (t : Table)
      → other ≢ user
      → now < until
      → Holds id user until t
      → (acquire_draft_lock id other roles now t).1 ≡ t
  others_acquire other roles now t ne early h =
      ground (arith, acquire_held id other roles now t h.row h.found)

  acquire-Holds :
      (other other_id : ℕ) (roles : List String) (now : ℕ) (t : Table)
      → until ≤ now + seconds lock_duration_seconds
      → now < until
      → Holds id user until t
      → Holds id user until (acquire_draft_lock other_id other roles now t).1
  acquire-Holds other other_id roles now t long early h = elim (ℕ_discrete id other_id) [
    | no ne ↦ Holds-find t _ (acquire_elsewhere other_id id other roles now t ne) h
    | yes e ↦ elim (ℕ_discrete other user) [
      | yes own ↦ rw (← e, own) (renewed-Holds now t _ long h (own_acquire roles now t h))
      | no ne ↦ rw (← e, others_acquire other roles now t ne early h) h
    ]
  ]

  own_refresh :
      (now : ℕ) (t : Table) (h : Holds id user until t)
      → find id (refresh_lock id user now t).1 ≡ some (renewed now h.row)
  unfolding renewed
  own_refresh now t h = ground (
    arith,
    refresh_table id user now t,
    find-update_self id (extend_lock user now) t (extend_lock-KeepsId user now),
  )

  others_refresh :
      (other now : ℕ) (t : Table)
      → other ≢ user
      → Holds id user until t
      → find id (refresh_lock id other now t).1 ≡ find id t
  others_refresh other now t ne h = ground (
    arith,
    refresh_table id other now t,
    find-update_self id (extend_lock other now) t (extend_lock-KeepsId other now),
  )

  refresh-Holds :
      (other other_id now : ℕ) (t : Table)
      → until ≤ now + seconds lock_duration_seconds
      → Holds id user until t
      → Holds id user until (refresh_lock other_id other now t).1
  refresh-Holds other other_id now t long h = elim (ℕ_discrete id other_id) [
    | no ne ↦ Holds-find t _ (refresh_elsewhere other_id id other now t ne) h
    | yes e ↦ elim (ℕ_discrete other user) [
      | yes own ↦ rw (← e, own) (renewed-Holds now t _ long h (own_refresh now t h))
      | no ne ↦ rw (← e) (Holds-find t _ (others_refresh other now t ne h) h)
    ]
  ]

  serve-Holds :
      (from : ℕ) (t : Table) (q : LockRequest)
      → until ≤ from + seconds lock_duration_seconds
      → from ≤ served_at q
      → served_at q < until
      → Holds id user until t
      → Holds id user until (serve t q)
  unfolding serve
  serve-Holds from t (acquire other_id other roles now) long ge lt h =
      acquire-Holds other other_id roles now t (omega arith) lt h
  serve-Holds from t (refresh other_id other now) long ge lt h =
      refresh-Holds other other_id now t (omega arith) h
  serve-Holds from t (verify other_id other now) long ge lt h =
      rw (verify_table other_id other now t) h

  serve_all-Holds :
      (from : ℕ) (t : Table) (qs : List LockRequest)
      → until ≤ from + seconds lock_duration_seconds
      → ServedIn from until qs
      → Holds id user until t
      → Holds id user until (serve_all t qs)
  unfolding serve_all
  serve_all-Holds from t [] long k h = h
  serve_all-Holds from t (q ∷ qs) long k h =
      serve_all-Holds from (serve t q) qs long k.2 (serve-Holds from t q long k.0 k.1 h)

  verify-Holds :
      (now : ℕ) (t : Table)
      → now < until
      → Holds id user until t
      → (verify_lock_for_update id user now t).0 ≡ ok tt
  verify-Holds now t early h = ground (arith, verify_row id user now t h.row h.found)

-- An acquisition that answers `edit` holds the row for the lock duration.
edit-Holds :
    (id user : ℕ) (roles : List String) (now : ℕ) (t : Table)
    → (acquire_draft_lock id user roles now t).0 ≡ ok edit
    → Holds id user (now + seconds lock_duration_seconds) (acquire_draft_lock id user roles now t).1
edit-Holds id user roles now t granted =
    let (r, e, a) = (acquire_draft_lock-edit_iff id user roles now t).0 granted in
    let q = acquire_granted id user roles now t r e (Available-free r user now a) in
    record {
      row = take_lock user now r;
      found = rw q (
          find-update_self id (take_lock user now) t (take_lock-KeepsId user now)
          ∙ ap (map_found (take_lock user now)) e);
      owner = refl;
      expiry = now + seconds lock_duration_seconds;
      expires = refl;
      long_enough = omega arith;
    }

-- Once a user is granted the lock of a draft for editing, then for the thirty seconds that follow,
-- after any requests on locks by anyone, each served inside that time: the user passes the check
-- before an update, and any other user neither passes it nor is granted the lock for editing.
pub lease_exclusive :
    (id user other : ℕ) (roles other_roles : List String) (start now : ℕ) (t : Table)
    (qs : List LockRequest)
    → other ≢ user
    → (acquire_draft_lock id user roles start t).0 ≡ ok edit
    → ServedIn start (start + seconds lock_duration_seconds) qs
    → start ≤ now
    → now < start + seconds lock_duration_seconds
    → let t' = serve_all (acquire_draft_lock id user roles start t).1 qs in
      ((verify_lock_for_update id user now t').0 ≡ ok tt)
      × ((verify_lock_for_update id other now t').0 ≢ ok tt)
      × ((acquire_draft_lock id other other_roles now t').0 ≢ ok edit)
lease_exclusive id user other roles other_roles start now t qs ne granted served ge lt =
    let until = start + seconds lock_duration_seconds in
    let t' = serve_all (acquire_draft_lock id user roles start t).1 qs in
    let h : Holds id user until t' =
      serve_all-Holds id user until start (acquire_draft_lock id user roles start t).1 qs
        (omega arith) served (edit-Holds id user roles start t granted) in
    let passed = verify-Holds id user until now t' lt h in
    let (no_check, no_lock, _) =
      verify_lock_for_update-excludes id user other other_roles now t' h.row h.found
        (λ endless. cc (h.expires)) ne passed in
    (passed, no_check, no_lock)
