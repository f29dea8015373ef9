-- ===== src/Workbench/Service/Creation.antt =====
-- What `create_draft` leaves behind, given how the jsonb codec of the connection pool encodes.
use coreason_adlc_api.Prelude.{
  ℕ, String, ◌≡◌, refl, false, none, some, List, [], ◌∷◌, ◌++◌, arith, filter, filter-append, ap,
  ◌∙◌,
}
use coreason_adlc_api.Prelude.Text.{eq_refl}
use coreason_adlc_api.Json.{str, dict}
use coreason_adlc_api.Outcome.{raised, validation_error}
use coreason_adlc_api.Workbench.Schemas.{DraftRow, DraftCreate}
use coreason_adlc_api.Workbench.Table.{Table, find}
use coreason_adlc_api.Workbench.Service.{
  Codec, new_row, create_draft, get_drafts, model_validate, validate_all, order_by_updated,
  insert_by_updated, listed,
}

-- The new row stands behind the others.
find-snoc :
    (id : ℕ) (t : Table) (r : DraftRow)
    → find id t ≡ none
    → r.draft_id ≡ id
    → find id (t ++ r ∷ []) ≡ some r
unfolding find
find-snoc id [] r e k = ground arith
find-snoc id (x ∷ t) r e k = ground (arith, find-snoc id t r)

validate_all-insert :
    (r : DraftRow) (rs : List DraftRow)
    → model_validate r ≡ none
    → validate_all (insert_by_updated r rs) ≡ none
unfolding validate_all insert_by_updated
validate_all-insert r [] e = ground arith
validate_all-insert r (x ∷ xs) e = ground (arith, validate_all-insert r xs e)

validate_all-insert_none :
    (r : DraftRow) (rs : List DraftRow)
    → validate_all rs ≡ none
    → validate_all (insert_by_updated r rs) ≡ none
unfolding validate_all insert_by_updated
validate_all-insert_none r [] e = cc
validate_all-insert_none r (x ∷ xs) e = ground (arith, validate_all-insert_none r xs)

-- One row that cannot be shown spoils the listing that it is in.
validate_all-order :
    (rs : List DraftRow) (r : DraftRow)
    → model_validate r ≡ none
    → validate_all (order_by_updated (rs ++ r ∷ [])) ≡ none
unfolding order_by_updated
validate_all-order [] r e = validate_all-insert r [] e
validate_all-order (x ∷ xs) r e = validate_all-insert_none x _ (validate_all-order xs r e)

module _ (c : Codec) (id now : ℕ) (d : DraftCreate) (user : ℕ) (t : Table) where
  new_row_unshown :
      ((s : String) → c.jsonb (str s) ≡ str s) → model_validate (new_row c id now d user) ≡ none
  unfolding model_validate
  new_row_unshown same = rw (same (c.dumps (dict d.oas_content)))

  create_draft_outcome :
      model_validate (new_row c id now d user) ≡ none
      → create_draft c id now d user t
        ≡ (raised validation_error, t ++ new_row c id now d user ∷ [])
  unfolding create_draft
  create_draft_outcome e = ground arith

  new_row-listed :
      filter (listed d.auc_id false) (t ++ new_row c id now d user ∷ [])
      ≡ filter (listed d.auc_id false) t ++ new_row c id now d user ∷ []
  new_row-listed =
      filter-append (listed d.auc_id false) t (new_row c id now d user ∷ [])
      ∙ ap (λ l. filter (listed d.auc_id false) t ++ l) (rw (eq_refl d.auc_id))

  listing_spoiled :
      model_validate (new_row c id now d user) ≡ none
      → (get_drafts d.auc_id false (t ++ new_row c id now d user ∷ [])).0 ≡ raised validation_error
  unfolding get_drafts
  listing_spoiled e =
      let bad : validate_all
            (order_by_updated (filter (listed d.auc_id false) (t ++ new_row c id now d user ∷ [])))
          ≡ none =
        ap (λ l. validate_all (order_by_updated l)) new_row-listed
        ∙ validate_all-order (filter (listed d.auc_id false) t) (new_row c id now d user) e in
      rw bad

-- The code passes `json.dumps(content)` for the jsonb column, and the pool's codec dumps it once
-- more. If a text passed for the column reads back as itself, which the codec is there for, then
-- every creation of a draft raises a validation error, after it has stored the row, whose content
-- is a text; and from then on the listing of that project raises as well.
pub create_draft_raises :
    (c : Codec) (id now : ℕ) (d : DraftCreate) (user : ℕ) (t : Table)
    → ((s : String) → c.jsonb (str s) ≡ str s)
    → find id t ≡ none
    → let (res, t') = create_draft c id now d user t in
      (res ≡ raised validation_error)
      × (find id t' ≡ some (new_row c id now d user))
      × ((new_row c id now d user).oas_content ≡ str (c.dumps (dict d.oas_content)))
      × ((get_drafts d.auc_id false t').0 ≡ raised validation_error)
create_draft_raises c id now d user t same fresh =
    let unshown = new_row_unshown c id now d user t same in
    let q = create_draft_outcome c id now d user t unshown in
    (
      ap (λ p. p.0) q,
      ap (λ p. find id p.1) q ∙ find-snoc id t (new_row c id now d user) fresh refl,
      same (c.dumps (dict d.oas_content)),
      ap (λ p. (get_drafts d.auc_id false p.1).0) q ∙ listing_spoiled c id now d user t unshown,
    )
