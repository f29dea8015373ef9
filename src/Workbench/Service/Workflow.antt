-- ===== src/Workbench/Service/Workflow.antt =====
-- The approval workflow: what a transition does alone, and what two of them do interleaved.
use coreason_adlc_api.Prelude.{
  ℕ, ◌≡◌, ◌≢◌, ◌⊎◌, refl, inl, inr, true, false, some, arith, ap, ◌∙◌, Bool-cases,
}
use coreason_adlc_api.Outcome.{ok, raised, http, invalid_transition}
use coreason_adlc_api.Workbench.Schemas.{
  ApprovalStatus, draft, pending, approved, rejected, DraftRow, DraftResponse,
}
use coreason_adlc_api.Workbench.Table.{
  SameElsewhere, Table, find, update, map_found, find-update_self, find-update_ne,
}
use coreason_adlc_api.Workbench.Service.Reads.{Shows, model_validate-Shows}
use coreason_adlc_api.Workbench.Service.{
  model_validate, allowed, set_status, check_transition, write_status, transition_draft_status,
}

-- The edges that the docstring of `transition_draft_status` lists.
pub data Edge : ApprovalStatus → ApprovalStatus → Type 0 where
  submit : Edge draft pending
  resubmit : Edge rejected pending
  approve : Edge pending approved
  reject : Edge pending rejected

allowed-Edge : (s s' : ApprovalStatus) → allowed s s' ≡ true → Edge s s'
unfolding allowed
allowed-Edge draft pending e = submit
allowed-Edge rejected pending e = resubmit
allowed-Edge pending approved e = approve
allowed-Edge pending rejected e = reject
allowed-Edge draft _ e = cc
allowed-Edge rejected _ e = cc
allowed-Edge pending _ e = cc
allowed-Edge approved _ e = cc

Edge-allowed : (s s' : ApprovalStatus) → Edge s s' → allowed s s' ≡ true
unfolding allowed
Edge-allowed _ _ submit = refl
Edge-allowed _ _ resubmit = refl
Edge-allowed _ _ approve = refl
Edge-allowed _ _ reject = refl

write_status_table :
    (id : ℕ) (s : ApprovalStatus) (now : ℕ) (t : Table)
    → (write_status id s now t).1 ≡ update id (set_status s now) t
unfolding write_status
write_status_table id s now t = ground arith

set_status_found :
    (id : ℕ) (s : ApprovalStatus) (now : ℕ) (t : Table) (r : DraftRow)
    → find id t ≡ some r
    → find id (update id (set_status s now) t) ≡ some (set_status s now r)
set_status_found id s now t r e =
    find-update_self id (set_status s now) t (λ x. refl) ∙ ap (map_found (set_status s now)) e

module _ (id : ℕ) (s : ApprovalStatus) (now : ℕ) (t : Table) (r : DraftRow)
    (e : find id t ≡ some r) where
  transition_moves :
      allowed r.status s ≡ true
      → (transition_draft_status id s now t).1 ≡ update id (set_status s now) t
  unfolding transition_draft_status check_transition write_status
  transition_moves may = ground arith

  transition_answers :
      allowed r.status s ≡ true
      → (d : DraftResponse) → model_validate (set_status s now r) ≡ some d
      → (transition_draft_status id s now t).0 ≡ ok d
  unfolding transition_draft_status check_transition write_status
  transition_answers may d v = ground (arith, set_status_found id s now t r e)

  transition_refused :
      allowed r.status s ≡ false
      → transition_draft_status id s now t ≡ (raised (http 409 invalid_transition), t)
  unfolding transition_draft_status check_transition
  transition_refused may = ground arith

-- The row after a transition: the new status and time, and all else as before.
pub record Moved (s : ApprovalStatus) (now : ℕ) (r r' : DraftRow) : Type 0 where
  pub status : r'.status ≡ s
  pub updated_at : r'.updated_at ≡ now
  pub title : r'.title ≡ r.title
  pub oas_content : r'.oas_content ≡ r.oas_content
  pub runtime_env : r'.runtime_env ≡ r.runtime_env
  pub rest : SameElsewhere r r'

set_status-Moved :
    (s : ApprovalStatus) (now : ℕ) (r : DraftRow) → Moved s now r (set_status s now r)
set_status-Moved s now r = ground arith

-- A transition of a draft that is there is carried out exactly along the edges of the docstring.
-- Along an edge the row gets the new status and `updated_at` and keeps its other columns, no other
-- row changes, and if the row can be shown the answer shows it. Off the edges it answers 409 and the table stays as it was.
pub transition_draft_status_lem :
    (id : ℕ) (s : ApprovalStatus) (now : ℕ) (t : Table) (r : DraftRow)
    → find id t ≡ some r
    → let (res, t') = transition_draft_status id s now t in
      (Edge r.status s
        × ((r' : DraftRow) × (find id t' ≡ some r')
            × Moved s now r r'
            × ((d : DraftResponse) → model_validate r' ≡ some d → (res ≡ ok d) × Shows r' d))
        × ((j : ℕ) → j ≢ id → find j t' ≡ find j t))
      ⊎ ((¬ Edge r.status s) × (res ≡ raised (http 409 invalid_transition)) × (t' ≡ t))
transition_draft_status_lem id s now t r e = elim (Bool-cases (allowed r.status s)) [
  | inl may ↦
      let moves = transition_moves id s now t r e may in
      inl (
        allowed-Edge r.status s may,
        (
          set_status s now r,
          ap (find id) moves ∙ set_status_found id s now t r e,
          set_status-Moved s now r,
          λ d v. (
            transition_answers id s now t r e may d v,
            model_validate-Shows (set_status s now r) d v,
          ),
        ),
        λ j ne. ap (find j) moves ∙ find-update_ne id j (set_status s now) t (λ x. refl) ne,
      )
  | inr off ↦
      let q = transition_refused id s now t r e off in
      inr (λ edge. cc (Edge-allowed r.status s edge), ap (λ p. p.0) q, ap (λ p. p.1) q)
]

-- The check and the write of a transition are two statements with no transaction around them. If
-- an approval and a rejection of a pending draft interleave so that both check before either
-- writes, both checks pass, and the draft that was approved ends up rejected; one after the other,
-- the rejection answers 409.
pub approval_race :
    (id approved_at rejected_at : ℕ) (t : Table) (r : DraftRow)
    → find id t ≡ some r
    → r.status ≡ pending
    → let t₁ = (write_status id approved approved_at t).1 in
      let t₂ = (write_status id rejected rejected_at t₁).1 in
      (check_transition id approved t ≡ (ok tt, t))
      × (check_transition id rejected t ≡ (ok tt, t))
      × (find id t₁ ≡ some (set_status approved approved_at r))
      × (find id t₂ ≡ some (set_status rejected rejected_at r))
      × ((transition_draft_status id rejected rejected_at
            (transition_draft_status id approved approved_at t).1).0
          ≡ raised (http 409 invalid_transition))
unfolding check_transition allowed
approval_race id approved_at rejected_at t r e p =
    let first = set_status_found id approved approved_at t r e in
    let second =
      set_status_found id rejected rejected_at (update id (set_status approved approved_at) t) _
        first in
    (
      ground arith,
      ground arith,
      rw (write_status_table id approved approved_at t) first,
      rw
          (
            write_status_table id approved approved_at t,
            write_status_table id rejected rejected_at _,
          )
          second,
      rw (transition_moves id approved approved_at t r e (rw p))
          (ap (λ q. q.0) (transition_refused id rejected rejected_at _ _ first refl)),
    )
