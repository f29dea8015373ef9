-- ===== src/Workbench/Router/Integrity.antt =====
-- What no sequence of requests to /workbench can do to a draft.
use coreason_adlc_api.Prelude.{
  ℕ, ◌≡◌, ◌≢◌, ◌⊎◌, refl, inl, inr, true, false, none, some, List, [], ◌∷◌, arith, ap, subst, ◌∙◌,
  sym, All, some-injective,
}
use coreason_adlc_api.Json.{dict}
use coreason_adlc_api.Outcome.{ok, Result-cases}
use coreason_adlc_api.Identity.{UserIdentity}
use coreason_adlc_api.Workbench.Schemas.{
  ApprovalStatus-discrete, approved, DraftRow, DraftResponse, AgentArtifact,
}
use coreason_adlc_api.Workbench.Table.{Table, find}
use coreason_adlc_api.Workbench.Service.{
  Codec, allowed, require_draft, assemble_artifact, artifact_of,
}
use coreason_adlc_api.Workbench.Service.Effects.{
  LockWrite, require_draft-LockWrite, assemble_artifact_table,
}
use coreason_adlc_api.Workbench.Service.Reads.{require_draft-Shows}
use coreason_adlc_api.Workbench.Router.{Mappings, may_access}
use coreason_adlc_api.Workbench.Router.Rows.{
  Untouched, Untouched-refl, Untouched-trans, LockWrite-row,
}
use coreason_adlc_api.Workbench.Router.Changes.{Change, IsManager}
use coreason_adlc_api.Workbench.Router.Handlers.{handle-RowChange}
use coreason_adlc_api.Workbench.Router.Requests.{Request, handle, handle_all}

-- A row that is still there, with nothing but its lock changed.
abbrev pub StillThere : ℕ → DraftRow → Table → Type 0
StillThere j r t' = (r' : DraftRow) × (find j t' ≡ some r') × Untouched r r'

approved-Change :
    (ms : Mappings) (i : UserIdentity) (r r' : DraftRow)
    → r.status ≡ approved
    → Change ms i r r'
    → Untouched r r'
unfolding allowed
approved-Change ms i r r' a c = elim c [
  | inl u ↦ u
  | inr (inl e) ↦ absurd (ground (arith, e.editable))
  | inr (inr m) ↦ absurd (ground (arith, m.edge))
]

outsider-Change :
    (ms : Mappings) (i : UserIdentity) (r r' : DraftRow)
    → may_access ms i r.auc_id ≡ false
    → Change ms i r r'
    → Untouched r r'
outsider-Change ms i r r' out c = elim c [
  | inl u ↦ u
  | inr (inl e) ↦ cc (out, e.access)
  | inr (inr m) ↦ cc (out, m.access)
]

-- Some request of the sequence is one of which `P` holds.
abbrev pub AnyOf : (UserIdentity × Request → Type 0) → List (UserIdentity × Request) → Type 0
AnyOf P [] = ⊥
AnyOf P (q ∷ qs) = P q ⊎ AnyOf P qs

approved-by-IsManager :
    (ms : Mappings) (i : UserIdentity) (r s : DraftRow)
    → r.status ≢ approved
    → s.status ≡ approved
    → Change ms i r s
    → IsManager ms i × (may_access ms i r.auc_id ≡ true)
approved-by-IsManager ms i r s not_yet now c = elim c [
  | inl u ↦ absurd (not_yet (sym u.same_status ∙ now))
  | inr (inl e) ↦ absurd (not_yet (sym e.same_status ∙ now))
  | inr (inr m) ↦ (m.by_manager (λ p. cc), m.access)
]

Change-auc :
    (ms : Mappings) (i : UserIdentity) (r s : DraftRow) → Change ms i r s → s.auc_id ≡ r.auc_id
Change-auc ms i r s c = elim c [
  | inl u ↦ u.same_body.same_auc
  | inr (inl e) ↦ e.same_auc
  | inr (inr m) ↦ m.same_body.same_auc
]

-- The artifact holds the columns of an approved row.
record Assembles (r : DraftRow) (a : AgentArtifact) : Type 0 where
  id : a.id ≡ r.draft_id
  auc_id : a.auc_id ≡ r.auc_id
  version : a.version ≡ "1.0.0"
  content : r.oas_content ≡ dict a.content
  compliance_hash : a.compliance_hash ≡ "sha256:mock_compliance_verification_hash"
  author_signature : a.author_signature ≡ none
  created_at : a.created_at ≡ r.updated_at

assemble_artifact-inversion :
    (id user now : ℕ) (t : Table) (a : AgentArtifact)
    → (assemble_artifact id user now t).0 ≡ ok a
    → (d : DraftResponse) × ((require_draft id user now t).0 ≡ ok d)
      × (d.status ≡ approved)
      × (a ≡ artifact_of d)
unfolding assemble_artifact
assemble_artifact-inversion id user now t a e =
    elim (Result-cases (require_draft id user now t).0) [
      | inl (d, got) ↦ (d, got, ground arith, ground arith)
      | inr (x, refused) ↦ absurd (ground arith)
    ]

assemble_artifact-Assembles :
    (id user now : ℕ) (t : Table) (a : AgentArtifact)
    → (assemble_artifact id user now t).0 ≡ ok a
    → (r : DraftRow) × (find id (assemble_artifact id user now t).1 ≡ some r)
      × (r.status ≡ approved)
      × Assembles r a
assemble_artifact-Assembles id user now t a e =
    let (d, got, done, same) = assemble_artifact-inversion id user now t a e in
    let (r, f, shows) = require_draft-Shows id user now t d got in
    (
      r,
      ap (find id) (assemble_artifact_table id user now t) ∙ f,
      sym shows.status ∙ done,
      subst (Assembles r) (sym same) (record {
        id = shows.draft_id;
        auc_id = shows.auc_id;
        version = refl;
        content = shows.oas_content;
        compliance_hash = refl;
        author_signature = refl;
        created_at = shows.updated_at;
      }),
    )

assemble_artifact-LockWrite :
    (id user now : ℕ) (t : Table) → LockWrite id t (assemble_artifact id user now t).1
assemble_artifact-LockWrite id user now t =
    rw (assemble_artifact_table id user now t) (require_draft-LockWrite id user now t)

same_artifact :
    (r r' : DraftRow) (a a' : AgentArtifact)
    → Untouched r r'
    → Assembles r a
    → Assembles r' a'
    → a' ≡ a
same_artifact r r' a a' u p q = ground arith

module _ (ms : Mappings) (c : Codec) where
  -- Once a draft is approved, no sequence of requests by anyone, served one after the other,
  -- removes it or changes anything of it but its lock: it stays approved, with the same content.
  pub approved_is_final :
      (qs : List (UserIdentity × Request)) (j : ℕ) (t : Table) (r : DraftRow)
      → find j t ≡ some r
      → r.status ≡ approved
      → StillThere j r (handle_all ms c qs t)
  unfolding handle_all
  approved_is_final [] j t r e a = (r, e, Untouched-refl r)
  approved_is_final ((i, q) ∷ qs) j t r e a =
      let (s, f, change) = handle-RowChange ms i c j q t r e in
      let u = approved-Change ms i r s a change in
      let (r', g, u') = approved_is_final qs j (handle ms c i q t) s f (u.same_status ∙ a) in
      (r', g, Untouched-trans r s r' u u')

  -- Requests of users without access to the project of a draft, in any number, change nothing of
  -- it but its lock.
  pub outsiders_change_nothing :
      (qs : List (UserIdentity × Request)) (j : ℕ) (t : Table) (r : DraftRow)
      → find j t ≡ some r
      → All (λ q. may_access ms q.0 r.auc_id ≡ false) qs
      → StillThere j r (handle_all ms c qs t)
  unfolding handle_all
  outsiders_change_nothing [] j t r e out = (r, e, Untouched-refl r)
  outsiders_change_nothing ((i, q) ∷ qs) j t r e out =
      let (s, f, change) = handle-RowChange ms i c j q t r e in
      let u = outsider-Change ms i r s out.0 change in
      let still_out =
        subst (λ a. All (λ q. may_access ms q.0 a ≡ false) qs) (sym u.same_body.same_auc) out.1 in
      let (r', g, u') = outsiders_change_nothing qs j (handle ms c i q t) s f still_out in
      (r', g, Untouched-trans r s r' u u')

  -- A draft that is not approved, and after a sequence of requests is, was approved on a request of
  -- a manager with access to its project.
  pub approval_needs-IsManager :
      (qs : List (UserIdentity × Request)) (j : ℕ) (t : Table) (r r' : DraftRow)
      → find j t ≡ some r
      → r.status ≢ approved
      → find j (handle_all ms c qs t) ≡ some r'
      → r'.status ≡ approved
      → AnyOf (λ q. IsManager ms q.0 × (may_access ms q.0 r.auc_id ≡ true)) qs
  unfolding handle_all
  approval_needs-IsManager [] j t r r' e not_yet e' done =
      absurd (not_yet (ap (λ s. s.status) (some-injective r r' (sym e ∙ e')) ∙ done))
  approval_needs-IsManager ((i, q) ∷ qs) j t r r' e not_yet e' done =
      let (s, f, change) = handle-RowChange ms i c j q t r e in
      elim (ApprovalStatus-discrete s.status approved) [
        | yes now ↦ inl (approved-by-IsManager ms i r s not_yet now change)
        | no still ↦ inr (
            subst (λ a. AnyOf (λ q. IsManager ms q.0 × (may_access ms q.0 a ≡ true)) qs)
              (Change-auc ms i r s change)
              (approval_needs-IsManager qs j (handle ms c i q t) s r' f still e' done))
      ]

  -- Once a user has assembled the artifact of a draft, then after any requests whatever, by anyone,
  -- a second assembly of it, if it succeeds, gives the same artifact, whoever asks for it.
  pub assemble_artifact-stable :
      (qs : List (UserIdentity × Request)) (id user now user' now' : ℕ) (t : Table)
      (a a' : AgentArtifact)
      → (assemble_artifact id user now t).0 ≡ ok a
      → (assemble_artifact id user' now' (handle_all ms c qs (assemble_artifact id user now t).1)).0
        ≡ ok a'
      → a' ≡ a
  assemble_artifact-stable qs id user now user' now' t a a' e e' =
      let (r, f, done, shows) = assemble_artifact-Assembles id user now t a e in
      let (r₁, f₁, u₁) = approved_is_final qs id (assemble_artifact id user now t).1 r f done in
      let t₁ = handle_all ms c qs (assemble_artifact id user now t).1 in
      let (r₂, f₂, u₂) =
        LockWrite-row id id t₁ _ r₁ (assemble_artifact-LockWrite id user' now' t₁) f₁ in
      let (r₃, f₃, _, shows') = assemble_artifact-Assembles id user' now' t₁ a' e' in
      same_artifact r r₃ a a'
        (rw (some-injective r₃ r₂ (sym f₃ ∙ f₂)) (Untouched-trans r r₁ r₂ u₁ u₂)) shows shows'
