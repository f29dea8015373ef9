-- ===== src/Workbench/Router/Changes.antt =====
-- What a handler may do to a row, and with what right.
use coreason_adlc_api.Prelude.{ℕ, ◌≡◌, ◌≢◌, ◌⊎◌, inl, inr, String, true, some, List, arith, ap, ◌∙◌}
use coreason_adlc_api.Prelude.Text.{contains}
use coreason_adlc_api.Outcome.{ok}
use coreason_adlc_api.Identity.{UserIdentity}
use coreason_adlc_api.Workbench.Schemas.{ApprovalStatus, pending, DraftRow, DraftResponse}
use coreason_adlc_api.Workbench.Table.{Table, find}
use coreason_adlc_api.Workbench.Service.{
  require_draft, is_editable, allowed, set_status, transition_draft_status,
}
use coreason_adlc_api.Workbench.Service.Effects.{
  LockWrite, require_draft-LockWrite, transition_draft_status_table,
}
use coreason_adlc_api.Workbench.Service.Reads.{Shows, require_draft-Shows}
use coreason_adlc_api.Workbench.Router.{
  Mappings, may_access, user_roles, get_draft_and_verify_access,
}
use coreason_adlc_api.Workbench.Router.Rows.{
  SameBody, Untouched, Untouched-refl, Untouched-trans, row_after, LockWrite-row,
  set_status-KeepsId,
}

-- An update of the fields, of a draft that may be edited, by a user with access to its project.
pub record Edited (ms : Mappings) (i : UserIdentity) (r r' : DraftRow) : Type 0 where
  pub editable : is_editable r.status ≡ true
  pub access : may_access ms i r.auc_id ≡ true
  pub same_id : r'.draft_id ≡ r.draft_id
  pub same_user : r'.user_uuid ≡ r.user_uuid
  pub same_auc : r'.auc_id ≡ r.auc_id
  pub same_status : r'.status ≡ r.status
  pub same_deleted : r'.is_deleted ≡ r.is_deleted
  pub same_created : r'.created_at ≡ r.created_at

abbrev pub IsManager : Mappings → UserIdentity → Type 0
IsManager ms i =
    (roles : List String) × (user_roles ms i ≡ some roles) × (contains "MANAGER" roles ≡ true)

-- A step of the approval workflow, by a user with access to the project; an approval or a
-- rejection, by a manager.
pub record Moved (ms : Mappings) (i : UserIdentity) (r r' : DraftRow) : Type 0 where
  pub edge : allowed r.status r'.status ≡ true
  pub access : may_access ms i r.auc_id ≡ true
  pub by_manager : r'.status ≢ pending → IsManager ms i
  pub same_body : SameBody r r'

abbrev pub Change : Mappings → UserIdentity → DraftRow → DraftRow → Type 0
Change ms i r r' = Untouched r r' ⊎ Edited ms i r r' ⊎ Moved ms i r r'

-- The row under `j` is still there, and has changed at most as `i` may change it.
abbrev pub RowChange : Mappings → UserIdentity → ℕ → DraftRow → Table → Type 0
RowChange ms i j r t' = (r' : DraftRow) × (find j t' ≡ some r') × Change ms i r r'

module _ (ms : Mappings) (i : UserIdentity) where
  access_table :
      (id now : ℕ) (t : Table)
      → (get_draft_and_verify_access ms id now i t).1 ≡ (require_draft id i.oid now t).1
  unfolding get_draft_and_verify_access
  access_table id now t = ground arith

  access_granted :
      (id now : ℕ) (t : Table) (d : DraftResponse)
      → (get_draft_and_verify_access ms id now i t).0 ≡ ok d
      → ((require_draft id i.oid now t).0 ≡ ok d) × (may_access ms i d.auc_id ≡ true)
  unfolding get_draft_and_verify_access
  access_granted id now t d e = ground arith

  pub access-LockWrite :
      (id now : ℕ) (t : Table) → LockWrite id t (get_draft_and_verify_access ms id now i t).1
  access-LockWrite id now t = rw (access_table id now t) (require_draft-LockWrite id i.oid now t)

  -- The check of the access is passed only on the project of the row.
  pub access_checked :
      (id now : ℕ) (t : Table) (d : DraftResponse)
      → (get_draft_and_verify_access ms id now i t).0 ≡ ok d
      → (r : DraftRow) × (find id (get_draft_and_verify_access ms id now i t).1 ≡ some r)
        × (may_access ms i r.auc_id ≡ true)
        × Shows r d
  access_checked id now t d e =
      let (granted, may) = access_granted id now t d e in
      let (r, f, shows) = require_draft-Shows id i.oid now t d granted in
      (r, ap (find id) (access_table id now t) ∙ f, rw shows.auc_id at may, shows)

  -- A row that is only re-locked before changes as it does after.
  Change-after : (r s t : DraftRow) → Untouched r s → Change ms i s t → Change ms i r t
  Change-after r s t p c = elim c [
    | inl q ↦ inl (Untouched-trans r s t p q)
    | inr (inl e) ↦ inr (inl (ground arith))
    | inr (inr m) ↦ inr (inr (ground arith))
  ]

  pub RowChange-after :
      (j : ℕ) (t t₁ t' : Table) (id : ℕ) (r : DraftRow)
      → LockWrite id t t₁
      → find j t ≡ some r
      → ((s : DraftRow) → find j t₁ ≡ some s → RowChange ms i j s t')
      → RowChange ms i j r t'
  RowChange-after j t t₁ t' id r w e k =
      let (s, f, p) = LockWrite-row id j t t₁ r w e in
      let (r', g, c) = k s f in (r', g, Change-after r s r' p c)

  pub LockWrite-RowChange :
      (id j : ℕ) (t t' : Table) (r : DraftRow)
      → LockWrite id t t'
      → find j t ≡ some r
      → RowChange ms i j r t'
  LockWrite-RowChange id j t t' r w e =
      let (s, f, p) = LockWrite-row id j t t' r w e in (s, f, inl p)

  pub same-RowChange :
      (j : ℕ) (t t' : Table) (r : DraftRow) → t' ≡ t → find j t ≡ some r → RowChange ms i j r t'
  same-RowChange j t t' r same e = (r, rw same e, inl (Untouched-refl r))

  pub transition-RowChange :
      (id j : ℕ) (new_status : ApprovalStatus) (now : ℕ) (t : Table) (r s : DraftRow)
      → (new_status ≢ pending → IsManager ms i)
      → find id t ≡ some r
      → may_access ms i r.auc_id ≡ true
      → find j t ≡ some s
      → RowChange ms i j s (transition_draft_status id new_status now t).1
  transition-RowChange id j new_status now t r s manager e may f =
      elim (transition_draft_status_table id new_status now t) [
        | inl same ↦ same-RowChange j t _ s same f
        | inr (r', e', edge, written) ↦
            elim (row_after id j (set_status new_status now) t s (set_status-KeepsId new_status now)
              f) [
                | inl (at_id, found) ↦ (
                  set_status new_status now s,
                  rw written found,
                  inr (inr (moved (r') e' edge at_id)),
                )
                | inr (_, found) ↦ (s, rw written found, inl (Untouched-refl s))
              ]
      ]
    where
      moved :
          (r' : DraftRow)
          → find id t ≡ some r'
          → allowed r'.status new_status ≡ true
          → j ≡ id
          → Moved ms i s (set_status new_status now s)
      moved r' e' edge at_id =
          let same : s ≡ r = cc in
          let same' : s ≡ r' = cc in
          record {
            edge = rw same' edge;
            access = rw same may;
            by_manager = manager;
            same_body = ground arith;
          }
