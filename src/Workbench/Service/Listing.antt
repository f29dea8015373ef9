-- ===== src/Workbench/Service/Listing.antt =====
-- `get_drafts`: which drafts are listed, and in what order.
use coreason_adlc_api.Prelude.{
  ℕ, ◌≤◌, ◌≡◌, ◌⊎◌, ◌∙◌, sym, String, Bool, true, false, some, List, [], ◌∷◌, arith, All, filter,
  leb, Bool-cases, inl, inr, Option-cases, leb→le, subst,
}
use mathlib.Core.List.{Perm}
use mathlib.Core.List.Perm
use coreason_adlc_api.Prelude.Text.{eq_iff}
use coreason_adlc_api.Outcome.{ok}
use coreason_adlc_api.Workbench.Schemas.{DraftRow, DraftResponse}
use coreason_adlc_api.Workbench.Table.{Table}
use coreason_adlc_api.Workbench.Service.{
  listed, insert_by_updated, order_by_updated, validate_all, get_drafts, model_validate,
}
use coreason_adlc_api.Workbench.Service.Reads.{Shows, model_validate-Shows}

-- Newest first.
abbrev pub Descending : List DraftRow → Type 0
Descending [] = Unit
Descending (r ∷ rs) = All (λ x. x.updated_at ≤ r.updated_at) rs × Descending rs

-- Each response shows its row.
abbrev pub ShowAll : List DraftRow → List DraftResponse → Type 0
ShowAll [] [] = Unit
ShowAll (r ∷ rs) (d ∷ ds) = Shows r d × ShowAll rs ds
ShowAll _ _ = ⊥

insert_by_updated-perm :
    (r : DraftRow) (rs : List DraftRow) → Perm (insert_by_updated r rs) (r ∷ rs)
unfolding insert_by_updated
insert_by_updated-perm r [] = Perm.refl (r ∷ [])
insert_by_updated-perm r (x ∷ xs) = elim (Bool-cases (leb x.updated_at r.updated_at)) [
  | inl first ↦ rw first (Perm.refl (r ∷ x ∷ xs))
  | inr later ↦ rw later (Perm.trans (Perm.cons x (insert_by_updated-perm r xs)) (Perm.swap r x xs))
]

order_by_updated-perm : (rs : List DraftRow) → Perm (order_by_updated rs) rs
unfolding order_by_updated
order_by_updated-perm [] = Perm.refl []
order_by_updated-perm (r ∷ rs) =
    Perm.trans (insert_by_updated-perm r (order_by_updated rs))
      (Perm.cons r (order_by_updated-perm rs))

insert_by_updated-All :
    (n : ℕ) (r : DraftRow) (rs : List DraftRow)
    → r.updated_at ≤ n
    → All (λ x. x.updated_at ≤ n) rs
    → All (λ x. x.updated_at ≤ n) (insert_by_updated r rs)
unfolding insert_by_updated
insert_by_updated-All n r [] le a = (le, tt)
insert_by_updated-All n r (x ∷ xs) le a = elim (Bool-cases (leb x.updated_at r.updated_at)) [
  | inl first ↦ rw first (le, a)
  | inr later ↦ rw later (a.0, insert_by_updated-All n r xs le a.1)
]

All-le_trans :
    (n m : ℕ) (rs : List DraftRow)
    → n ≤ m
    → All (λ x. x.updated_at ≤ n) rs
    → All (λ x. x.updated_at ≤ m) rs
All-le_trans n m [] le a = tt
All-le_trans n m (r ∷ rs) le a = (omega arith, All-le_trans n m rs le a.1)

insert_by_updated-Descending :
    (r : DraftRow) (rs : List DraftRow) → Descending rs → Descending (insert_by_updated r rs)
unfolding insert_by_updated
insert_by_updated-Descending r [] d = (tt, tt)
insert_by_updated-Descending r (x ∷ xs) d = elim (Bool-cases (leb x.updated_at r.updated_at)) [
  | inl first ↦
      let le = leb→le x.updated_at r.updated_at first in
      rw first ((le, All-le_trans x.updated_at r.updated_at xs le d.0), d)
  | inr later ↦ rw later (
    insert_by_updated-All x.updated_at r xs (ground arith) d.0,
    insert_by_updated-Descending r xs d.1,
  )
]

order_by_updated-Descending : (rs : List DraftRow) → Descending (order_by_updated rs)
unfolding order_by_updated
order_by_updated-Descending [] = tt
order_by_updated-Descending (r ∷ rs) =
    insert_by_updated-Descending r (order_by_updated rs) (order_by_updated-Descending rs)

validate_all-ShowAll :
    (rs : List DraftRow) (ds : List DraftResponse) → validate_all rs ≡ some ds → ShowAll rs ds
unfolding validate_all
validate_all-ShowAll [] [] e = tt
validate_all-ShowAll [] (d ∷ ds) e = cc
validate_all-ShowAll (r ∷ rs) ds e = elim (Option-cases (model_validate r)) [
  | inl bad ↦ absurd (ground arith)
  | inr (d, v) ↦ elim (Option-cases (validate_all rs)) [
    | inl bad ↦ absurd (ground arith)
    | inr (ds', vs) ↦
        let q : d ∷ ds' ≡ ds = ground arith in
        subst (ShowAll (r ∷ rs)) q (model_validate-Shows r d v, validate_all-ShowAll rs ds' vs)
  ]
]

-- A row of the project, that is not deleted or may be.
abbrev pub Wanted : String → Bool → DraftRow → Type 0
Wanted auc_id include_deleted r =
    (r.auc_id ≡ auc_id) × ((include_deleted ≡ true) ⊎ (r.is_deleted ≡ false))

-- Of some rows just those of a kind, in their order.
pub data Chosen (P : DraftRow → Type 0) : Table → List DraftRow → Type 0 where
  no_more : Chosen P [] []
  taken :
      (r : DraftRow) (t : Table) (rs : List DraftRow)
      → P r
      → Chosen P t rs
      → Chosen P (r ∷ t) (r ∷ rs)
  passed :
      (r : DraftRow) (t : Table) (rs : List DraftRow)
      → (¬ P r)
      → Chosen P t rs
      → Chosen P (r ∷ t) rs

listed-Wanted :
    (auc_id : String) (b : Bool) (r : DraftRow) → listed auc_id b r ≡ true → Wanted auc_id b r
listed-Wanted auc_id true r e = ground (arith, eq_iff r.auc_id auc_id)
listed-Wanted auc_id false r e = ground (arith, eq_iff r.auc_id auc_id)

Wanted-listed :
    (auc_id : String) (b : Bool) (r : DraftRow) → Wanted auc_id b r → listed auc_id b r ≡ true
Wanted-listed auc_id b r (own, w) = rw ((eq_iff r.auc_id auc_id).1 own) (ground (arith, w))

filter-Chosen :
    (auc_id : String) (b : Bool) (t : Table)
    → Chosen (Wanted auc_id b) t (filter (listed auc_id b) t)
filter-Chosen auc_id b [] = no_more
filter-Chosen auc_id b (r ∷ t) = elim (Bool-cases (listed auc_id b r)) [
  | inl e ↦ rw e (taken r t _ (listed-Wanted auc_id b r e) (filter-Chosen auc_id b t))
  | inr e ↦
      rw e (passed r t _ (λ w. cc (sym e ∙ Wanted-listed auc_id b r w)) (filter-Chosen auc_id b t))
]

-- A listing that is answered shows each draft of the project once, newest first, the deleted ones
-- only if they are asked for, and no other; it changes nothing.
pub get_drafts_lem :
    (auc_id : String) (include_deleted : Bool) (t : Table) (ds : List DraftResponse)
    → (get_drafts auc_id include_deleted t).0 ≡ ok ds
    → ((get_drafts auc_id include_deleted t).1 ≡ t)
      × ((rows : List DraftRow) × (chosen : List DraftRow) × Chosen
            (Wanted auc_id include_deleted)
            t
            chosen
          × Perm rows chosen
          × Descending rows
          × ShowAll rows ds)
unfolding get_drafts
get_drafts_lem auc_id include_deleted t ds e =
    let rows = order_by_updated (filter (listed auc_id include_deleted) t) in
    (
      ground arith,
      (
        rows,
        filter (listed auc_id include_deleted) t,
        filter-Chosen auc_id include_deleted t,
        order_by_updated-perm _,
        order_by_updated-Descending _,
        validate_all-ShowAll rows ds (ground arith),
      ),
    )
