-- ===== src/Client/Token.antt =====
-- When the client finds a token to send.
use coreason_adlc_api.Prelude.{
  ℕ, ◌*◌, ◌≤◌, ◌≡◌, ◌⊎◌, ◌↔◌, inl, inr, refl, String, true, false, Option, none, some, ltb, ◌==◌,
  arith, Bool-cases, ap, ◌∙◌, sym, subst, ==_iff, some-injective,
}
use coreason_adlc_api.Prelude.Text.{str_eq}
use coreason_adlc_api.Client.Auth.{
  Keyring, Decoded, claims, expired_signature, py_jwt_error, Token, token, get_token, check_exp,
  check_decoded,
}

-- Whether the expiry in the claims is in the future; a claim 0 is read as none.
abbrev pub IsCurrent : ℕ → Option ℕ → Type 0
IsCurrent now none = Unit
IsCurrent now (some e) = (e ≡ 0) ⊎ (now ≤ e * 1000000)

token-injective : {s t : String} → Token.token s ≡ Token.token t → s ≡ t
token-injective e = cc e

claims-injective : {a b : Option ℕ} → Decoded.claims a ≡ Decoded.claims b → a ≡ b
claims-injective e = cc e

check_exp_iff :
    (s t : String) (now : ℕ) (d : Decoded)
    → (check_exp s now d ≡ token t)
      ↔ ((s ≡ t) × ((e : Option ℕ) × (d ≡ claims e) × IsCurrent now e))
check_exp_iff s t now (claims none) =
    (λ h. (token-injective h, (none, refl, tt)), λ (q, _). ap token q)
check_exp_iff s t now (claims (some e)) = elim (Bool-cases (e == 0)) [
  | inl no_claim ↦
      let zero_claim : e ≡ 0 = (==_iff e 0).0 no_claim in
      (
        λ h. (token-injective (rw no_claim at h), (some e, refl, inl zero_claim)),
        λ (q, _). rw no_claim (ap token q),
      )
  | inr claim ↦ elim (Bool-cases (ltb (e * 1000000) now)) [
    | inl late ↦ (
      λ h. cc (rw late at (rw claim at h)),
      λ (q, (x, c, i)).
          absurd (too_late (subst (IsCurrent now) (sym (claims-injective c)) i) claim late),
    )
    | inr early ↦ (
      λ h. (token-injective (rw early at (rw claim at h)), (some e, refl, inr (ground arith))),
      λ (q, _). rw claim (rw early (ap token q)),
    )
  ]
]
  where
    too_late : IsCurrent now (some e) → (e == 0) ≡ false → ltb (e * 1000000) now ≡ true → ⊥
    too_late i a b = ground arith
check_exp_iff s t now expired_signature = (λ h. cc h, λ (q, (e, c, i)). cc c)
check_exp_iff s t now py_jwt_error = (λ h. cc h, λ (q, (e, c, i)). cc c)

check_decoded_iff :
    (s t : String) (now : ℕ) (v d : Decoded)
    → (check_decoded v (check_exp s now d) ≡ token t) ↔ (
        (s ≡ t)
        × ((x : Option ℕ) × (v ≡ claims x))
        × ((e : Option ℕ) × (d ≡ claims e) × IsCurrent now e))
check_decoded_iff s t now (claims x) d = (
  λ h. let (q, rest) = (check_exp_iff s t now d).0 h in (q, (x, refl), rest),
  λ (q, _, rest). (check_exp_iff s t now d).1 (q, rest),
)
check_decoded_iff s t now expired_signature d = (λ h. cc h, λ (q, (x, c), rest). cc c)
check_decoded_iff s t now py_jwt_error d = (λ h. cc h, λ (q, (x, c), rest). cc c)

Verified : (String → Decoded) → String → Type 0
Verified verified t = (x : Option ℕ) × (verified t ≡ claims x)

Current : (String → Decoded) → ℕ → String → Type 0
Current decode now t = (e : Option ℕ) × (decode t ≡ claims e) × IsCurrent now e

-- The client finds a token exactly if it is in the keyring and not empty, both decodings
-- of it succeed, and the expiry in its claims, if one other than 0 is given, is not over.
pub get_token_iff :
    (verified decode : String → Decoded) (now : ℕ) (k : Keyring) (t : String)
    → (get_token verified decode now k ≡ token t) ↔ (
        (k ≡ some t)
        × (str_eq t "" ≡ false)
        × ((x : Option ℕ) × (verified t ≡ claims x))
        × ((e : Option ℕ) × (decode t ≡ claims e) × IsCurrent now e))
unfolding get_token Verified Current
get_token_iff verified decode now none t = (λ h. cc h, λ (q, _, _, _). cc q)
get_token_iff verified decode now (some s) t = elim (Bool-cases (str_eq s "")) [
  | inl empty ↦ (
    λ h. cc (rw empty at h),
    λ (q, given, _, _).
        let both : true ≡ false =
          sym empty ∙ ap (λ x. str_eq x "") (some-injective _ _ q) ∙ given in
        cc both,
  )
  | inr given ↦ (
    λ h.
        let (q, v, d) = (check_decoded_iff s t now (verified s) (decode s)).0 (rw given at h) in
        (
          ap some q,
          subst (λ x. str_eq x "" ≡ false) q given,
          subst (Verified verified) q v,
          subst (Current decode now) q d,
        ),
    λ (q, _, v, d).
        let q' = some-injective _ _ q in
        rw given (
          (check_decoded_iff s t now (verified s) (decode s)).1
            (q', subst (Verified verified) (sym q') v, subst (Current decode now) (sym q') d)),
  )
]
