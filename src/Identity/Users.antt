-- ===== src/Identity/Users.antt =====
-- The table of users under the polls of the device flow.
use coreason_adlc_api.Prelude.{
  ℕ, ◌≡◌, ◌≢◌, refl, sym, ◌∙◌, ◌⊎◌, inl, inr, String, true, false, Option, none, some, [], ◌∷◌,
  ◌==◌, ==_iff, All, Bool-cases, Option-cases, if◌then◌else◌, arith,
}
use coreason_adlc_api.Prelude.Text.{str_eq, eq_iff}
use coreason_adlc_api.Json.{Value, Fields}
use coreason_adlc_api.Outcome.{Result, ok, raised, http, no_token_endpoint}
use coreason_adlc_api.Identity.{UserIdentity}
use coreason_adlc_api.Identity.Token.{OidcCache, Discovery}
use coreason_adlc_api.Identity.Upsert.{
  UserRow, Users, email_taken, upsert_row, executed, upsert_user, Statement, runs, breaks,
}
use coreason_adlc_api.Identity.DeviceFlow.{
  Post, Models, TokenResponse, require_endpoint, token_reply, Login, user_of, token_granted, polled,
  poll_for_token,
}

abbrev pub AreApart : UserRow → UserRow → Type 0
AreApart r x = (x.user_uuid ≢ r.user_uuid) × (x.email ≢ r.email)

-- No two rows have the same id or the same email.
abbrev pub IsUsers : Users → Type 0
IsUsers [] = Unit
IsUsers (r ∷ rs) = All (AreApart r) rs × IsUsers rs

abbrev pub find_user : ℕ → Users → Option UserRow
find_user id [] = none
find_user id (r ∷ rs) = let rest = find_user id rs in if r.user_uuid == id then some r else rest

not_taken :
    (id : ℕ) (email : String) (r : UserRow) (rs : Users)
    → email_taken id email (r ∷ rs) ≡ false
    → ((r.user_uuid ≢ id) → r.email ≢ email) × (email_taken id email rs ≡ false)
not_taken id email r rs h = elim (Bool-cases (r.user_uuid == id)) [
  | inl e ↦ ((λ other. absurd (other ((==_iff r.user_uuid id).0 e))), rw e at h)
  | inr e ↦ elim (Bool-cases (str_eq r.email email)) [
    | inl same ↦ cc (rw (e, same) at h)
    | inr differs ↦
        ((λ other same. cc (sym differs ∙ (eq_iff r.email email).1 same)), rw (e, differs) at h)
  ]
]

module _ (u : UserIdentity) (now : ℕ) where
  upsert_row-All :
      (r : UserRow) (rs : Users)
      → u.oid ≢ r.user_uuid
      → u.email ≢ r.email
      → All (AreApart r) rs
      → All (AreApart r) (upsert_row u now rs)
  upsert_row-All r [] id email a = ((id, email), tt)
  upsert_row-All r (x ∷ rs) id email ((xid, xemail), a) = elim (Bool-cases (x.user_uuid == u.oid)) [
    | inl e ↦ rw e ((xid, email), a)
    | inr e ↦ rw e ((xid, xemail), upsert_row-All r rs id email a)
  ]

  others_differ :
      (r : UserRow) (rs : Users)
      → r.user_uuid ≡ u.oid
      → email_taken u.oid u.email rs ≡ false
      → All (AreApart r) rs
      → All (λ x. (x.user_uuid ≢ r.user_uuid) × (x.email ≢ u.email)) rs
  others_differ r [] e h a = tt
  others_differ r (x ∷ rs) e h ((xid, xemail), a) =
      let (email, rest) = not_taken u.oid u.email x rs h in
      ((xid, email (λ same. xid (same ∙ sym e))), others_differ r rs e rest a)

  upsert_row-IsUsers :
      (t : Users) → email_taken u.oid u.email t ≡ false → IsUsers t → IsUsers (upsert_row u now t)
  upsert_row-IsUsers [] h d = (tt, tt)
  upsert_row-IsUsers (r ∷ rs) h (a, d) =
      let (email, rest) = not_taken u.oid u.email r rs h in
      elim (Bool-cases (r.user_uuid == u.oid)) [
        | inl e ↦ rw e (others_differ r rs ((==_iff r.user_uuid u.oid).0 e) rest a, d)
        | inr e ↦
            let other : r.user_uuid ≢ u.oid =
              λ same. cc (sym e ∙ (==_iff r.user_uuid u.oid).1 same) in
            rw e (
              upsert_row-All r rs (λ same. other (sym same)) (λ same. email other (sym same)) a,
              upsert_row-IsUsers rs rest d,
            )
      ]

  find_user-upsert_row :
      (id : ℕ) (t : Users) → u.oid ≢ id → find_user id (upsert_row u now t) ≡ find_user id t
  find_user-upsert_row id [] other = ground arith
  find_user-upsert_row id (r ∷ rs) other = ground (arith, find_user-upsert_row id rs other)

  -- The table keeps this, and every row but that of the user.
  abbrev KeepsOthers : Users → Users → Type 0
  KeepsOthers t t' =
      (IsUsers t → IsUsers t') × ((id : ℕ) → u.oid ≢ id → find_user id t' ≡ find_user id t)

  executed-KeepsOthers : (t : Users) → KeepsOthers t (executed u now t)
  executed-KeepsOthers t = elim (Bool-cases (email_taken u.oid u.email t)) [
    | inl e ↦ rw e ((λ d. d), λ id other. refl)
    | inr e ↦ rw e (upsert_row-IsUsers t e, λ id other. find_user-upsert_row id t other)
  ]

  upsert_user-KeepsOthers : (x : Statement) (t : Users) → KeepsOthers t (upsert_user x u now t)
  unfolding upsert_user
  upsert_user-KeepsOthers runs t = executed-KeepsOthers t
  upsert_user-KeepsOthers (breaks true) t = executed-KeepsOthers t
  upsert_user-KeepsOthers (breaks false) t = ((λ d. d), λ id other. refl)

module _ (uuid : String → Option ℕ) (uuid5 : String → ℕ)
    (valid_email : String → Option String) where
  -- The row of this id belongs to the user of a token that the provider has granted.
  abbrev pub IsGranted : Post → (Value → Option Fields) → ℕ → Type 0
  IsGranted post decode id =
      (token : Value) × (expires_in : Value) × (u : UserIdentity) × (token_reply post
        ≡ ok (token, expires_in))
      × (user_of uuid uuid5 valid_email (decode token) ≡ some u)
      × (u.oid ≡ id)

  abbrev Effect : Post → (Value → Option Fields) → Users → Users → Type 0
  Effect post decode t t' =
      (IsUsers t → IsUsers t')
      × ((id : ℕ) → (find_user id t' ≡ find_user id t) ⊎ IsGranted post decode id)

  unchanged : (post : Post) (decode : Value → Option Fields) (t : Users) → Effect post decode t t
  unchanged post decode t = ((λ d. d), λ id. inl refl)

  token_granted_lem :
      (m : Models) (post : Post) (decode : Value → Option Fields) (x : Statement) (now : ℕ)
      (t : Users) (r : Result (Value × Value))
      → token_reply post ≡ r
      → Effect post decode t (token_granted uuid uuid5 valid_email m decode x now r t).1
  token_granted_lem m post decode x now t (raised e) h = unchanged post decode t
  token_granted_lem m post decode x now t (ok (token, life)) h =
      elim (Option-cases (user_of uuid uuid5 valid_email (decode token))) [
        | inl e ↦ rw e (unchanged post decode t)
        | inr (u, e) ↦
            let (keeps, others) = upsert_user-KeepsOthers u now x t in
            rw e (
              keeps,
              λ id. elim (Bool-cases (u.oid == id)) [
                | inl same ↦ inr (token, life, u, h, e, (==_iff u.oid id).0 same)
                | inr other ↦ inl (others id (λ same. cc (sym other ∙ (==_iff u.oid id).1 same)))
              ],
            )
      ]

  polled_lem :
      (post : Post) (decode : Value → Option Fields) (out : Result (Unit {0}) × OidcCache)
      (k : Users → Result TokenResponse × Users) (s : Login)
      → Effect post decode s.users (k s.users).1
      → Effect post decode s.users (polled uuid uuid5 valid_email out k s).1.users
  polled_lem post decode (raised e, cache) k s h = unchanged post decode s.users
  polled_lem post decode (ok _, cache) k s h = h

  -- However a poll ends, in the table of users no two rows have the same id or the same email
  -- afterwards if none had before, and the row of any id is as it was, unless the provider has granted
  -- a token whose claims name the user of this id.
  pub poll_for_token-IsUsers :
      (m : Models) (d : Discovery) (post : Post) (decode : Value → Option Fields) (x : Statement)
      (now : ℕ) (s : Login)
      → (IsUsers s.users
          → IsUsers (poll_for_token uuid uuid5 valid_email m d post decode x now s).1.users)
        × ((id : ℕ)
            → (find_user id (poll_for_token uuid uuid5 valid_email m d post decode x now s).1.users
                ≡ find_user id s.users)
              ⊎ IsGranted post decode id)
  unfolding poll_for_token
  poll_for_token-IsUsers m d post decode x now s =
      polled_lem post decode
        (require_endpoint "token_endpoint" (http 501 no_token_endpoint) d s.cache)
        (token_granted uuid uuid5 valid_email m decode x now (token_reply post)) s
        (token_granted_lem m post decode x now s.users (token_reply post) refl)
