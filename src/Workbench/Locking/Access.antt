-- ===== src/Workbench/Locking/Access.antt =====
-- Who gets the lock of a draft, and whom that shuts out, at one time.
use coreason_adlc_api.Prelude.{
  ℕ, ◌≤◌, ◌≡◌, ◌≢◌, ◌↔◌, ◌⊎◌, inl, inr, String, false, none, some, List, arith, ◌==◌, Option-cases,
  Bool-cases, ==_iff, ap, ◌∙◌,
}
use coreason_adlc_api.Workbench.Locking.Steps.{
  acquire_missing, acquire_granted, acquire_held, verify_row,
}
use coreason_adlc_api.Outcome.{ok}
use coreason_adlc_api.Workbench.Schemas.{edit, DraftRow}
use coreason_adlc_api.Workbench.Table.{Table, find}
use coreason_adlc_api.Workbench.Locking.{
  acquire_draft_lock, verify_lock_for_update, locked_by_other,
}

-- Whether `user` may have the lock of the row at `now`, said of the columns.
abbrev pub Available : DraftRow → ℕ → ℕ → Type 0
Available r user now =
    (r.locked_by_user ≡ none)
    ⊎ (r.locked_by_user ≡ some user)
    ⊎ (r.lock_expiry ≡ none)
    ⊎ ((e : ℕ) × (r.lock_expiry ≡ some e) × (e ≤ now))

-- The test of the code, said of the columns.
locked_by_other-false :
    (r : DraftRow) (user now : ℕ)
    → locked_by_other r.locked_by_user r.lock_expiry user now ≡ false
    → Available r user now
locked_by_other-false r user now h = elim (Option-cases r.locked_by_user) [
  | inl free ↦ inl free
  | inr (owner, p) ↦ elim (Option-cases r.lock_expiry) [
    | inl endless ↦ inr (inr (inl endless))
    | inr (e, q) ↦ elim (Bool-cases (owner == user)) [
      | inl own ↦ inr (inl (p ∙ ap some ((==_iff owner user).0 own)))
      | inr other ↦ inr (inr (inr (e, q, ground arith)))
    ]
  ]
]

pub Available-free :
    (r : DraftRow) (user now : ℕ)
    → Available r user now
    → locked_by_other r.locked_by_user r.lock_expiry user now ≡ false
Available-free r user now a = ground arith

-- The lock of a draft is granted for editing exactly when the draft is there and its lock is free,
-- the user's own, without an expiry, or expired at `now` or before.
pub acquire_draft_lock-edit_iff :
    (id user : ℕ) (roles : List String) (now : ℕ) (t : Table)
    → ((acquire_draft_lock id user roles now t).0 ≡ ok edit)
      ↔ ((r : DraftRow) × (find id t ≡ some r) × Available r user now)
acquire_draft_lock-edit_iff id user roles now t = (
  λ granted. elim (Option-cases (find id t)) [
    | inl missing ↦ cc (acquire_missing id user roles now t missing)
    | inr (r, e) ↦ elim (Bool-cases (locked_by_other r.locked_by_user r.lock_expiry user now)) [
      | inl held ↦ absurd (ground (arith, acquire_held id user roles now t r e held))
      | inr free ↦ (r, e, locked_by_other-false r user now free)
    ]
  ],
  λ (r, e, a).
      ap (λ p. p.0) (acquire_granted id user roles now t r e (Available-free r user now a)),
)

-- A user who passes the check before an update, on a lock that has an expiry, has the draft alone:
-- at the same time any other user is refused by the check, gets no lock for editing, and changes
-- nothing by asking for it.
pub verify_lock_for_update-excludes :
    (id user other : ℕ) (roles : List String) (now : ℕ) (t : Table) (r : DraftRow)
    → find id t ≡ some r
    → r.lock_expiry ≢ none
    → other ≢ user
    → (verify_lock_for_update id user now t).0 ≡ ok tt
    → ((verify_lock_for_update id other now t).0 ≢ ok tt)
      × ((acquire_draft_lock id other roles now t).0 ≢ ok edit)
      × ((acquire_draft_lock id other roles now t).1 ≡ t)
verify_lock_for_update-excludes id user other roles now t r e endless ne passed = ground (
  arith,
  verify_row id user now t r e,
  verify_row id other now t r e,
  acquire_held id other roles now t r e,
)
