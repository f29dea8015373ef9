-- ===== src/Workbench/Router/Handlers.antt =====
-- Each handler of /workbench, and then each sequence of requests, on one row.
use coreason_adlc_api.Prelude.{
  ℕ, ◌≡◌, ◌⊎◌, refl, inl, inr, String, some, List, [], ◌∷◌, ◌++◌, arith, subst, sym, Option-cases,
  Bool-cases,
}
use coreason_adlc_api.Prelude.Text.{contains}
use coreason_adlc_api.Identity.{UserIdentity}
use coreason_adlc_api.Workbench.Schemas.{pending, approved, rejected, DraftRow, DraftCreate}
use coreason_adlc_api.Workbench.Table.{Table, find, update, find-append}
use coreason_adlc_api.Workbench.Locking.{extend_lock}
use coreason_adlc_api.Workbench.Locking.Steps.{refresh_table, extend_lock-KeepsId}
use coreason_adlc_api.Workbench.Service.{Codec, get_draft_by_id, create_draft, new_row, get_drafts}
use coreason_adlc_api.Workbench.Service.Effects.{get_draft_by_id-LockWrite}
use coreason_adlc_api.Workbench.Router.{
  Mappings, user_roles, move_draft, list_drafts, create_new_draft, get_draft, heartbeat_lock,
  submit_draft, approve_draft, reject_draft,
}
use coreason_adlc_api.Workbench.Router.Rows.{Untouched-refl, row_after}
use coreason_adlc_api.Workbench.Router.Changes.{
  RowChange, IsManager, LockWrite-RowChange, same-RowChange,
}
use coreason_adlc_api.Workbench.Router.Requests.{Request, handle}
use coreason_adlc_api.Workbench.Router.Guarded.{
  move_draft-RowChange, put-RowChange, assemble-RowChange, publish-RowChange,
}

module _ (ms : Mappings) (i : UserIdentity) where
  approve_table :
      (id read written : ℕ) (t : Table)
      → ((approve_draft ms id read written i t).1 ≡ t)
        ⊎ (IsManager ms i
            × ((approve_draft ms id read written i t).1
                ≡ (move_draft approved ms id read written i t).1))
  unfolding approve_draft
  approve_table id read written t = elim (Option-cases (user_roles ms i)) [
    | inl failed ↦ inl (ground arith)
    | inr (roles, e) ↦ elim (Bool-cases (contains "MANAGER" roles)) [
      | inl m ↦ inr ((roles, e, m), ground arith)
      | inr m ↦ inl (ground arith)
    ]
  ]

  reject_table :
      (id read written : ℕ) (t : Table)
      → ((reject_draft ms id read written i t).1 ≡ t)
        ⊎ (IsManager ms i
            × ((reject_draft ms id read written i t).1
                ≡ (move_draft rejected ms id read written i t).1))
  unfolding reject_draft
  reject_table id read written t = elim (Option-cases (user_roles ms i)) [
    | inl failed ↦ inl (ground arith)
    | inr (roles, e) ↦ elim (Bool-cases (contains "MANAGER" roles)) [
      | inl m ↦ inr ((roles, e, m), ground arith)
      | inr m ↦ inl (ground arith)
    ]
  ]

  approve-RowChange :
      (id j read written : ℕ) (t : Table) (r : DraftRow)
      → find j t ≡ some r
      → RowChange ms i j r (approve_draft ms id read written i t).1
  approve-RowChange id j read written t r e = elim (approve_table id read written t) [
    | inl same ↦ same-RowChange ms i j t _ r same e
    | inr (m, moved) ↦
        subst (RowChange ms i j r) (sym moved)
          (move_draft-RowChange ms i approved id j read written t r (λ _. m) e)
  ]

  reject-RowChange :
      (id j read written : ℕ) (t : Table) (r : DraftRow)
      → find j t ≡ some r
      → RowChange ms i j r (reject_draft ms id read written i t).1
  reject-RowChange id j read written t r e = elim (reject_table id read written t) [
    | inl same ↦ same-RowChange ms i j t _ r same e
    | inr (m, moved) ↦
        subst (RowChange ms i j r) (sym moved)
          (move_draft-RowChange ms i rejected id j read written t r (λ _. m) e)
  ]

  get_draft_table :
      (id now : ℕ) (t : Table)
      → ((get_draft ms id now i t).1 ≡ t)
        ⊎ ((roles : List String) × ((get_draft ms id now i t).1
              ≡ (get_draft_by_id id i.oid roles now t).1))
  unfolding get_draft
  get_draft_table id now t = elim (Option-cases (user_roles ms i)) [
    | inl failed ↦ inl (ground arith)
    | inr (roles, e) ↦ inr (roles, ground arith)
  ]

  get-RowChange :
      (id j now : ℕ) (t : Table) (r : DraftRow)
      → find j t ≡ some r
      → RowChange ms i j r (get_draft ms id now i t).1
  get-RowChange id j now t r e = elim (get_draft_table id now t) [
    | inl same ↦ same-RowChange ms i j t _ r same e
    | inr (roles, read) ↦
        subst (RowChange ms i j r) (sym read)
          (LockWrite-RowChange ms i id j t _ r (get_draft_by_id-LockWrite id i.oid roles now t) e)
  ]

  heartbeat-RowChange :
      (id j now : ℕ) (t : Table) (r : DraftRow)
      → find j t ≡ some r
      → RowChange ms i j r (heartbeat_lock id now i t).1
  unfolding heartbeat_lock
  heartbeat-RowChange id j now t r e =
      let same : (heartbeat_lock id now i t).1 ≡ update id (extend_lock i.oid now) t =
        ground (arith, refresh_table id i.oid now t) in
      elim (row_after id j (extend_lock i.oid now) t r (extend_lock-KeepsId i.oid now) e) [
        | inl (_, found) ↦ (extend_lock i.oid now r, rw same found, inl (ground arith))
        | inr (_, found) ↦ (r, rw same found, inl (Untouched-refl r))
      ]

  create_table :
      (c : Codec) (id now : ℕ) (d : DraftCreate) (t : Table)
      → ((create_new_draft ms c id now d i t).1 ≡ t)
        ⊎ ((create_new_draft ms c id now d i t).1 ≡ t ++ new_row c id now d i.oid ∷ [])
  unfolding create_new_draft create_draft
  create_table c id now d t = ground arith

  create-RowChange :
      (c : Codec) (id j now : ℕ) (d : DraftCreate) (t : Table) (r : DraftRow)
      → find j t ≡ some r
      → RowChange ms i j r (create_new_draft ms c id now d i t).1
  create-RowChange c id j now d t r e = elim (create_table c id now d t) [
    | inl same ↦ same-RowChange ms i j t _ r same e
    | inr added ↦
        (r, rw added (find-append j t (new_row c id now d i.oid ∷ []) e), inl (Untouched-refl r))
  ]

  list_table : (auc_id : String) (t : Table) → (list_drafts ms auc_id i t).1 ≡ t
  unfolding list_drafts get_drafts
  list_table auc_id t = ground arith

  -- Whatever the request, every row that was there is there after it, and has changed at most as
  -- the user of the request may change it.
  pub handle-RowChange :
      (c : Codec) (j : ℕ) (q : Request) (t : Table) (r : DraftRow)
      → find j t ≡ some r
      → RowChange ms i j r (handle ms c i q t)
  unfolding handle submit_draft
  handle-RowChange c j (Request.list auc_id) t r e =
      same-RowChange ms i j t _ r (list_table auc_id t) e
  handle-RowChange c j (Request.create id now d) t r e = create-RowChange c id j now d t r e
  handle-RowChange c j (Request.get id now) t r e = get-RowChange id j now t r e
  handle-RowChange c j (Request.put id u ts) t r e = put-RowChange ms i c id j u ts t r e
  handle-RowChange c j (Request.heartbeat id now) t r e = heartbeat-RowChange id j now t r e
  handle-RowChange c j (Request.submit id read written) t r e =
      move_draft-RowChange ms i pending id j read written t r (λ ne. absurd (ne refl)) e
  handle-RowChange c j (Request.approve id read written) t r e =
      approve-RowChange id j read written t r e
  handle-RowChange c j (Request.reject id read written) t r e =
      reject-RowChange id j read written t r e
  handle-RowChange c j (Request.assemble id read again) t r e =
      assemble-RowChange ms i id j read again t r e
  handle-RowChange c j (Request.publish id signature read again) t r e =
      publish-RowChange ms i id j signature read again t r e
