-- ===== src/Workbench/Router/Guarded.antt =====
-- The handlers that check the access to a draft before they change it or assemble it.
use coreason_adlc_api.Prelude.{ℕ, ◌≡◌, ◌≢◌, refl, inl, inr, String, true, some, subst, ◌∙◌, sym}
use coreason_adlc_api.Outcome.{
  Action, Result-cases, ◌>>=◌, >>=-ok, >>=-raised, rethrow_as, rethrow_as_state,
}
use coreason_adlc_api.Identity.{UserIdentity}
use coreason_adlc_api.Workbench.Schemas.{
  ApprovalStatus, pending, DraftRow, DraftUpdate, DraftResponse,
}
use coreason_adlc_api.Workbench.Table.{Table, find}
use coreason_adlc_api.Workbench.Service.{
  Codec, require_draft, is_editable, apply_update, transition_draft_status, update_draft,
  assemble_artifact, publish_artifact,
}
use coreason_adlc_api.Workbench.Service.Effects.{
  require_draft-LockWrite, update_draft_table, assemble_artifact_table, publish_artifact_table,
}
use coreason_adlc_api.Workbench.Router.{
  Mappings, may_access, get_draft_and_verify_access, move_draft, update_existing_draft, UpdateTimes,
  bad_request, get_artifact_assembly, publish_agent_artifact,
}
use coreason_adlc_api.Workbench.Router.Rows.{Untouched-refl, row_after, apply_update-KeepsId}
use coreason_adlc_api.Workbench.Router.Changes.{
  Edited, RowChange, IsManager, access-LockWrite, access_checked, RowChange-after,
  LockWrite-RowChange, same-RowChange, transition-RowChange,
}

module _ (ms : Mappings) (i : UserIdentity) where
  -- A handler that first checks the access to the draft, and then does `k`.
  guarded-RowChange :
      {B : Type 0} (k : DraftResponse → Action Table B) (id now j : ℕ) (t : Table) (r : DraftRow)
      → ((d : DraftResponse) (a s : DraftRow)
          → find id (get_draft_and_verify_access ms id now i t).1 ≡ some a
          → may_access ms i a.auc_id ≡ true
          → find j (get_draft_and_verify_access ms id now i t).1 ≡ some s
          → RowChange ms i j s (k d (get_draft_and_verify_access ms id now i t).1).1)
      → find j t ≡ some r
      → RowChange ms i j r ((get_draft_and_verify_access ms id now i >>= k) t).1
  guarded-RowChange k id now j t r then_change e =
      let m = get_draft_and_verify_access ms id now i in
      let t₁ = (m t).1 in
      elim (Result-cases (m t).0) [
        | inl (d, granted) ↦
            let (a, f, may, _) = access_checked ms i id now t d granted in
            subst (λ p. RowChange ms i j r p.1) (sym (>>=-ok m k t granted))
              (RowChange-after ms i j t t₁ (k d t₁).1 id r (access-LockWrite ms i id now t) e
                (λ s g. then_change d a s f may g))
        | inr (x, refused) ↦
            subst (λ p. RowChange ms i j r p.1) (sym (>>=-raised m k t refused))
              (LockWrite-RowChange ms i id j t t₁ r (access-LockWrite ms i id now t) e)
      ]

  pub move_draft-RowChange :
      (new_status : ApprovalStatus) (id j read written : ℕ) (t : Table) (r : DraftRow)
      → (new_status ≢ pending → IsManager ms i)
      → find j t ≡ some r
      → RowChange ms i j r (move_draft new_status ms id read written i t).1
  unfolding move_draft
  move_draft-RowChange new_status id j read written t r manager e =
      guarded-RowChange (λ _. transition_draft_status id new_status written) id read j t r
        (λ d a s f may g. transition-RowChange ms i id j new_status written _ a s manager f may g) e

  update_draft-RowChange :
      (c : Codec) (id j : ℕ) (u : DraftUpdate) (ts : UpdateTimes) (t : Table) (r s : DraftRow)
      → find id t ≡ some r
      → may_access ms i r.auc_id ≡ true
      → find j t ≡ some s
      → RowChange ms i j s (update_draft c id u i.oid ts.checked ts.locked ts.written t).1
  update_draft-RowChange c id j u ts t r s e may f =
      elim (update_draft_table c id u i.oid ts.checked ts.locked ts.written t) [
        | inl same ↦ same-RowChange ms i j t _ s same f
        | inr (inl locked) ↦
            rw locked
              (LockWrite-RowChange ms i id j t _ s (require_draft-LockWrite id i.oid ts.locked t) f)
        | inr (inr (r', e', held, fresh, editable, written)) ↦
            elim (row_after id j (apply_update c u ts.written) t s
              (apply_update-KeepsId c u ts.written) f) [
                | inl (at_id, found) ↦ (
                  apply_update c u ts.written s,
                  rw written found,
                  inr (inl (edited r' e' editable at_id)),
                )
                | inr (_, found) ↦ (s, rw written found, inl (Untouched-refl s))
              ]
      ]
    where
      edited :
          (r' : DraftRow)
          → find id t ≡ some r'
          → is_editable r'.status ≡ true
          → j ≡ id
          → Edited ms i s (apply_update c u ts.written s)
      edited r' e' editable at_id =
          let same : s ≡ r = cc in
          let same' : s ≡ r' = cc in
          record {
            editable = rw same' editable;
            access = rw same may;
            same_id = refl;
            same_user = refl;
            same_auc = refl;
            same_status = refl;
            same_deleted = refl;
            same_created = refl;
          }

  pub put-RowChange :
      (c : Codec) (id j : ℕ) (u : DraftUpdate) (ts : UpdateTimes) (t : Table) (r : DraftRow)
      → find j t ≡ some r
      → RowChange ms i j r (update_existing_draft ms c id u ts i t).1
  unfolding update_existing_draft
  put-RowChange c id j u ts t r e =
      guarded-RowChange (λ _. update_draft c id u i.oid ts.checked ts.locked ts.written) id ts.read
        j t r (λ d a s f may g. update_draft-RowChange c id j u ts _ a s f may g) e

  -- The artifact operations only read the draft, and take its lock with it.
  artifact-RowChange :
      (id again j : ℕ) (t t' : Table) (s : DraftRow)
      → t' ≡ (require_draft id i.oid again t).1
      → find j t ≡ some s
      → RowChange ms i j s t'
  artifact-RowChange id again j t t' s q f =
      subst (RowChange ms i j s) (sym q)
        (LockWrite-RowChange ms i id j t _ s (require_draft-LockWrite id i.oid again t) f)

  pub assemble-RowChange :
      (id j read again : ℕ) (t : Table) (r : DraftRow)
      → find j t ≡ some r
      → RowChange ms i j r (get_artifact_assembly ms id read again i t).1
  unfolding get_artifact_assembly
  assemble-RowChange id j read again t r e =
      guarded-RowChange (λ _. rethrow_as bad_request (assemble_artifact id i.oid again)) id read j t
        r
        (λ d a s f may g.
          artifact-RowChange id again j _ _ s
            (rethrow_as_state bad_request (assemble_artifact id i.oid again) _
              ∙ assemble_artifact_table id i.oid again _)
            g)
        e

  pub publish-RowChange :
      (id j : ℕ) (signature : String) (read again : ℕ) (t : Table) (r : DraftRow)
      → find j t ≡ some r
      → RowChange ms i j r (publish_agent_artifact ms id signature read again i t).1
  unfolding publish_agent_artifact
  publish-RowChange id j signature read again t r e =
      guarded-RowChange (λ _. rethrow_as bad_request (publish_artifact id signature i.oid again)) id
        read j t r
        (λ d a s f may g.
          artifact-RowChange id again j _ _ s
            (rethrow_as_state bad_request (publish_artifact id signature i.oid again) _
              ∙ publish_artifact_table id signature i.oid again _
              ∙ assemble_artifact_table id i.oid again _)
            g)
        e
