-- ===== src/Outcome.antt =====
-- What a coroutine of the server leaves behind: a value or an exception, and the state reached.
-- A raise keeps the state, since what a statement has written to a table stays written.
use coreason_adlc_api.Prelude.{
  ℕ, String, Bool, true, false, Option, none, some, ◌≡◌, ◌⊎◌, inl, inr, refl, arith,
}

-- The detail texts of the HTTP errors, with the values that are formatted into them.
pub data Detail : Type 0 where
  draft_not_found : Detail
  locked_by_another : ℕ → Detail
  not_lock_holder : Detail
  must_acquire_lock : Detail
  lock_expired : Detail
  cannot_edit_in_status : Detail
  invalid_transition : Detail
  not_authorized_for : String → Detail
  only_managers_approve : Detail
  only_managers_reject : Detail
  must_be_approved : Detail
  failed_validation : Detail
  negative_cost : Detail
  budget_exceeded : Detail
  budget_unavailable : Detail
  budget_internal_error : Detail
  no_api_key_for : String → Detail
  vault_access_failed : Detail
  store_secret_failed : Detail
  encryption_key_not_set : Detail
  encryption_key_not_hex : Detail
  encryption_key_of_length : ℕ → Detail
  not_encodable : Detail
  decryption_failed : Detail
  no_secret_for : String → String → Detail
  text_of : String → Detail
  identity_provider_unavailable : Detail
  invalid_header : Detail
  authentication_unavailable : Detail
  token_has_expired : Detail
  invalid_token : Detail
  malformed_claims : Detail
  scrubbing_failed : Detail
  upstream_unstable : Detail
  no_device_flow : Detail
  no_token_endpoint : Detail
  device_flow_failed : Detail
  upstream_idp_unavailable : Detail

-- The exceptions that the code raises or lets through. `validation_error` is pydantic's, which is
-- a subclass of `ValueError`; `unhandled` is any other.
pub data Exn : Type 0 where
  http : ℕ → Detail → Exn
  value_error : Detail → Exn
  validation_error : Exn
  unhandled : Exn

pub data Result (A : Type 0) : Type 0 where
  ok : A → Result A
  raised : Exn → Result A

abbrev pub Action : Type 0 → Type 0 → Type 0
Action S A = S → Result A × S

module _ {S A : Type 0} where
  abbrev pub pure : A → Action S A
  pure a s = (ok a, s)

  abbrev pub raise : Exn → Action S A
  raise e s = (raised e, s)

  abbrev pub gets : (S → A) → Action S A
  gets f s = (ok (f s), s)

  abbrev pub or_raise : Option A → Exn → Action S A
  or_raise none e = raise e
  or_raise (some a) e = pure a

abbrev pub modify : {S : Type 0} → (S → S) → Action S (Unit {0})
modify f s = (ok tt, f s)

abbrev pub raise_if : {S : Type 0} → Bool → Exn → Action S (Unit {0})
raise_if true e s = (raised e, s)
raise_if false e s = (ok tt, s)

infixl 5 ◌>>=◌ ◌>>◌
abbrev pub ◌>>=◌ : {S A B : Type 0} → Action S A → (A → Action S B) → Action S B
◌>>=◌ m f s = let (r, s') = m s in elim r [ ok a ↦ f a s' | raised e ↦ (raised e, s') ]

abbrev pub ◌>>◌ : {S A B : Type 0} → Action S A → Action S B → Action S B
m >> k = m >>= λ _. k

-- `try: m` with `except E as e: raise h(e)`, where `h` gives back what it does not handle.
abbrev pub rethrow_as : {S A : Type 0} → (Exn → Exn) → Action S A → Action S A
rethrow_as h m s = let (r, s') = m s in elim r [ ok a ↦ (ok a, s') | raised e ↦ (raised (h e), s') ]

pub Result-cases :
    {A : Type 0} (r : Result A) → ((a : A) × (r ≡ ok a)) ⊎ ((e : Exn) × (r ≡ raised e))
Result-cases (ok a) = inl (a, refl)
Result-cases (raised e) = inr (e, refl)

pub ok-injective : {A : Type 0} {a b : A} → Result.ok a ≡ ok b → a ≡ b
ok-injective e = cc e

module _ {S A B : Type 0} (m : Action S A) (k : A → Action S B) (s : S) where
  pub >>=-ok : {a : A} → (m s).0 ≡ ok a → (m >>= k) s ≡ k a (m s).1
  >>=-ok e = ground arith

  pub >>=-raised : {e : Exn} → (m s).0 ≡ raised e → (m >>= k) s ≡ (raised e, (m s).1)
  >>=-raised e = ground arith

pub >>=-pure_state :
    {S A B : Type 0} (m : Action S A) (f : A → B) (s : S) → ((m >>= λ a. pure (f a)) s).1 ≡ (m s).1
>>=-pure_state m f s = ground arith

pub rethrow_as_state :
    {S A : Type 0} (h : Exn → Exn) (m : Action S A) (s : S) → (rethrow_as h m s).1 ≡ (m s).1
rethrow_as_state h m s = ground arith
