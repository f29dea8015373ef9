-- ===== src/Vault/Rows.antt =====
-- The rows of vault.secrets: what the upsert of one leaves of the others, and of its own.
use coreason_adlc_api.Prelude.{
  ◌≡◌, inl, inr, refl, ◌∙◌, String, Bool, true, false, ◌&&◌, Option, none, some, [], ◌∷◌,
  Bool-cases, arith,
}
use coreason_adlc_api.Prelude.Text.{str_eq, eq_iff, eq_refl}
use coreason_adlc_api.Vault.Service.{
  SecretRow, Secrets, is_for, find_secret, conflict_update, upsert_secret,
}

pub is_for_iff :
    (a s : String) (r : SecretRow) → is_for a s r ≡ true → (r.auc_id ≡ a) × (r.service_name ≡ s)
is_for_iff a s r h =
    let (p, q) = both (str_eq r.auc_id a) (str_eq r.service_name s) h in
    ((eq_iff r.auc_id a).0 p, (eq_iff r.service_name s).0 q)
  where
    both : (x y : Bool) → (x && y) ≡ true → (x ≡ true) × (y ≡ true)
    both x y e = ground arith

is_for_self : (new : SecretRow) → is_for new.auc_id new.service_name new ≡ true
is_for_self new = rw (eq_refl new.auc_id) (rw (eq_refl new.service_name) refl)

-- What stands for the project and the service of a row that was inserted.
unfoldable pub Inserted : SecretRow → Option SecretRow → Type 0
Inserted new none = ⊥
Inserted new (some r) = r.encrypted_value ≡ new.encrypted_value

pub find-upsert_self :
    (new : SecretRow) (t : Secrets)
    → Inserted new (find_secret new.auc_id new.service_name (upsert_secret new t))
unfolding find_secret upsert_secret Inserted
find-upsert_self new [] = rw (is_for_self new) refl
find-upsert_self new (r ∷ t) = elim (Bool-cases (is_for new.auc_id new.service_name r)) [
  | inl e ↦
      let e' : is_for new.auc_id new.service_name (conflict_update new r) ≡ true = e in
      rw e (rw e' refl)
  | inr e ↦ rw e (rw e (find-upsert_self new t))
]

pub find-upsert_other :
    (a s : String) (new : SecretRow) (t : Secrets)
    → is_for a s new ≡ false
    → find_secret a s (upsert_secret new t) ≡ find_secret a s t
unfolding find_secret upsert_secret
find-upsert_other a s new [] ne = ground arith
find-upsert_other a s new (r ∷ t) ne = elim (Bool-cases (is_for new.auc_id new.service_name r)) [
  | inl e ↦
      let (p, q) = is_for_iff new.auc_id new.service_name r e in
      let no : is_for a s r ≡ false = rw p (rw q ne) in rw e (rw no refl)
  | inr e ↦ ground (arith, find-upsert_other a s new t ne)
]

-- A row keeps the id that it was inserted with.
unfoldable pub SameId : Option SecretRow → Option SecretRow → Type 0
SameId none o = Unit
SameId (some r) none = ⊥
SameId (some r) (some r') = r'.secret_id ≡ r.secret_id

pub SameId-refl : (o : Option SecretRow) → SameId o o
unfolding SameId
SameId-refl none = tt
SameId-refl (some r) = refl

pub SameId-trans : (o p q : Option SecretRow) → SameId o p → SameId p q → SameId o q
unfolding SameId
SameId-trans none p q h k = tt
SameId-trans (some a) none q h k = absurd h
SameId-trans (some a) (some b) none h k = absurd k
SameId-trans (some a) (some b) (some c) h k = k ∙ h

pub upsert-SameId :
    (a s : String) (new : SecretRow) (t : Secrets)
    → SameId (find_secret a s t) (find_secret a s (upsert_secret new t))
unfolding find_secret upsert_secret SameId
upsert-SameId a s new [] = tt
upsert-SameId a s new (r ∷ t) = elim (Bool-cases (is_for new.auc_id new.service_name r)) [
  | inl e ↦ elim (Bool-cases (is_for a s r)) [
    | inl own ↦ rw e (rw own refl)
    | inr other ↦ rw e (rw other (SameId-refl (find_secret a s t)))
  ]
  | inr e ↦ elim (Bool-cases (is_for a s r)) [
    | inl own ↦ rw e (rw own refl)
    | inr other ↦ rw e (rw other (upsert-SameId a s new t))
  ]
]
