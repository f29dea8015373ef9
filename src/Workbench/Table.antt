-- ===== src/Workbench/Table.antt =====
-- The table workbench.agent_drafts, as the SQL statements of the workbench read and write it.
-- A statement is one atomic step; the constraints that it may violate (column lengths, foreign
-- keys) and lost connections are left out.
use coreason_adlc_api.Prelude.{
  ℕ, ◌≡◌, ◌≢◌, refl, inl, inr, Option, none, some, List, [], ◌∷◌, ◌++◌, arith, ◌==◌, All,
  Bool-cases, some-injective, subst, if◌then◌else◌,
}
use coreason_adlc_api.Workbench.Schemas.{DraftRow}

abbrev pub Table : Type 0
Table = List DraftRow

-- SELECT … WHERE draft_id = $1, of which `fetchrow` takes the first row
unfoldable pub find : ℕ → Table → Option DraftRow
find id [] = none
find id (r ∷ t) = if r.draft_id == id then some r else find id t

-- UPDATE … SET f WHERE draft_id = $1
unfoldable pub update : ℕ → (DraftRow → DraftRow) → Table → Table
update id f [] = []
update id f (r ∷ t) = (if r.draft_id == id then f r else r) ∷ update id f t

-- Whether an update writes only rows in place, under the same id.
abbrev pub KeepsId : (DraftRow → DraftRow) → Type 0
KeepsId f = (r : DraftRow) → (f r).draft_id ≡ r.draft_id

-- The columns that neither an update of the fields nor a transition writes stay.
pub record SameElsewhere (r r' : DraftRow) : Type 0 where
  pub same_draft_id : r'.draft_id ≡ r.draft_id
  pub same_user_uuid : r'.user_uuid ≡ r.user_uuid
  pub same_auc_id : r'.auc_id ≡ r.auc_id
  pub same_locked_by_user : r'.locked_by_user ≡ r.locked_by_user
  pub same_lock_expiry : r'.lock_expiry ≡ r.lock_expiry
  pub same_is_deleted : r'.is_deleted ≡ r.is_deleted
  pub same_created_at : r'.created_at ≡ r.created_at

abbrev pub map_found : (DraftRow → DraftRow) → Option DraftRow → Option DraftRow
map_found f none = none
map_found f (some r) = some (f r)

pub find-draft_id : (id : ℕ) (t : Table) {r : DraftRow} → find id t ≡ some r → r.draft_id ≡ id
unfolding find
find-draft_id id [] e = ground arith
find-draft_id id (x ∷ t) {r} e = ground (arith, find-draft_id id t {r = r})

pub find-update_self :
    (id : ℕ) (f : DraftRow → DraftRow) (t : Table)
    → KeepsId f
    → find id (update id f t) ≡ map_found f (find id t)
unfolding find update
find-update_self id f [] k = refl
find-update_self id f (r ∷ t) k = ground (arith, k r, find-update_self id f t k)

pub find-update_ne :
    (id j : ℕ) (f : DraftRow → DraftRow) (t : Table)
    → KeepsId f
    → j ≢ id
    → find j (update id f t) ≡ find j t
unfolding find update
find-update_ne id j f [] k ne = refl
find-update_ne id j f (r ∷ t) k ne = ground (arith, k r, find-update_ne id j f t k ne)

-- The keys, in order: an update keeps them, so the primary key stays unique.
pub ids : Table → List ℕ
ids [] = []
ids (r ∷ t) = r.draft_id ∷ ids t

pub ids-update :
    (id : ℕ) (f : DraftRow → DraftRow) (t : Table) → KeepsId f → ids (update id f t) ≡ ids t
unfolding ids update
ids-update id f [] k = refl
ids-update id f (r ∷ t) k = ground (arith, k r, ids-update id f t k)

-- The primary key: no id stands in two rows.
abbrev pub DistinctIds : Table → Type 0
DistinctIds [] = Unit
DistinctIds (r ∷ t) = (find r.draft_id t ≡ none) × DistinctIds t

map_found-eq-none :
    (f : DraftRow → DraftRow) (o : Option DraftRow) → o ≡ none → map_found f o ≡ none
map_found-eq-none f none e = refl
map_found-eq-none f (some r) e = cc

find-update-none :
    (id j : ℕ) (f : DraftRow → DraftRow) (t : Table)
    → KeepsId f
    → find j t ≡ none
    → find j (update id f t) ≡ none
unfolding find update
find-update-none id j f [] k e = refl
find-update-none id j f (r ∷ t) k e = ground (arith, k r, find-update-none id j f t k)

pub update-DistinctIds :
    (id : ℕ) (f : DraftRow → DraftRow) (t : Table)
    → KeepsId f
    → DistinctIds t
    → DistinctIds (update id f t)
unfolding update
update-DistinctIds id f [] k d = tt
update-DistinctIds id f (r ∷ t) k d =
    ground (arith, k r, find-update-none id r.draft_id f t k d.0, update-DistinctIds id f t k d.1)

pub update-All :
    (P : DraftRow → Type 0) (id : ℕ) (f : DraftRow → DraftRow) (t : Table)
    → ((r : DraftRow) → P r → P (f r))
    → All P t
    → All P (update id f t)
unfolding update
update-All P id f [] k a = tt
update-All P id f (r ∷ t) k a = elim (Bool-cases (r.draft_id == id)) [
  | inl e ↦ rw e (k r a.0, update-All P id f t k a.1)
  | inr e ↦ rw e (a.0, update-All P id f t k a.1)
]

pub find-All :
    (P : DraftRow → Type 0) (id : ℕ) (t : Table) {r : DraftRow} → All P t → find id t ≡ some r → P r
unfolding find
find-All P id [] a e = cc
find-All P id (x ∷ t) {r} a e = elim (Bool-cases (x.draft_id == id)) [
  | inl m ↦ subst P (some-injective _ _ (rw m at e)) a.0
  | inr m ↦ find-All P id t a.1 (rw m at e)
]

-- An appended row hides none.
pub find-append :
    (j : ℕ) (t u : Table) {r : DraftRow} → find j t ≡ some r → find j (t ++ u) ≡ some r
unfolding find
find-append j [] u e = cc
find-append j (x ∷ t) u {r} e = ground (arith, find-append j t u {r = r})
