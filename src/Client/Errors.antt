-- ===== src/Client/Errors.antt =====
-- Which exception of the client a response becomes, and which `except` clauses catch it.
use coreason_adlc_api.Prelude.{
  ℕ, ◌≡◌, ◌⊎◌, ◌↔◌, ◌≤◌, ◌<◌, inl, inr, refl, true, some, leb, ltb, ◌&&◌, arith, Bool-cases,
}
use coreason_adlc_api.Prelude.Text.{str_eq}
use coreason_adlc_api.Json.{truthy}
use coreason_adlc_api.Client.{
  ErrorClass, coreason_error, client_error, server_error, authentication_error,
  budget_exceeded_error, compliance_violation_error, rate_limit_error, service_unavailable_error,
  catches, Response, CoreasonError, returned, error, message_of, class_of, handle_response,
  body_message, new,
}

-- What httpx documents of `is_success`
abbrev pub IsDocumented : Response → Type 0
IsDocumented r = r.is_success ≡ leb 200 r.status_code && ltb r.status_code 300

-- The classes of exceptions.py by the statuses that they are for.
abbrev pub IsClassOf : ErrorClass → ℕ → Type 0
IsClassOf c s =
    ((c ≡ authentication_error) ↔ ((s ≡ 401) ⊎ (s ≡ 403)))
    × ((c ≡ budget_exceeded_error) ↔ (s ≡ 402))
    × ((c ≡ compliance_violation_error) ↔ (s ≡ 422))
    × ((c ≡ rate_limit_error) ↔ (s ≡ 429))
    × ((c ≡ service_unavailable_error) ↔ ((502 ≤ s) × (s ≤ 504)))

-- The specific classes are raised for their own statuses only.
pub class_of_iff : (s : ℕ) → IsClassOf (class_of s) s
unfolding class_of
class_of_iff s = ground arith

caught_iff :
    (s : ℕ)
    → ((catches client_error (class_of s) ≡ true) ↔ ((400 ≤ s) × (s < 500)))
      × ((catches server_error (class_of s) ≡ true) ↔ ((500 ≤ s) × (s < 600)))
      × (catches coreason_error (class_of s) ≡ true)
unfolding class_of
caught_iff s = ground arith

message_given :
    (r : Response)
    → (truthy (message_of r) ≡ true)
      ⊎ ((str_eq r.text "" ≡ true) × (str_eq r.reason_phrase "" ≡ true))
message_given r = elim (Bool-cases (truthy (body_message r.json))) [
  | inl given ↦ inl (rw given given)
  | inr absent ↦ elim (Bool-cases (str_eq r.text "")) [
    | inr text ↦ inl (rw absent (rw text (rw text refl)))
    | inl no_text ↦ elim (Bool-cases (str_eq r.reason_phrase "")) [
      | inr reason ↦ inl (rw absent (rw no_text (rw reason refl)))
      | inl no_reason ↦ inr (no_text, no_reason)
    ]
  ]
]

-- If `is_success` means what httpx documents, a response with a status from 200 to 299 is returned
-- as it is, and any other becomes an exception that carries the response and its status, and a
-- message that is not empty unless the text and the reason phrase are. It is an AuthenticationError
-- exactly for 401 and 403, a BudgetExceededError for 402, a ComplianceViolationError for 422, a
-- RateLimitError for 429, and a ServiceUnavailableError for 502 to 504. `except ClientError` catches
-- it exactly for the statuses from 400 to 499, `except ServerError` exactly for those from 500 to
-- 599, and `except CoreasonError` always.
pub handle_response_lem :
    (r : Response)
    → IsDocumented r
    → ((200 ≤ r.status_code) × (r.status_code < 300) × (handle_response r ≡ returned r))
      ⊎ (((r.status_code < 200) ⊎ (300 ≤ r.status_code))
          × ((e : CoreasonError) × (handle_response r ≡ error e)
              × (e.response ≡ r)
              × (e.status_code ≡ some r.status_code)
              × ((truthy e.message ≡ true)
                  ⊎ ((str_eq r.text "" ≡ true) × (str_eq r.reason_phrase "" ≡ true)))
              × IsClassOf e.class r.status_code
              × ((catches client_error e.class ≡ true)
                  ↔ ((400 ≤ r.status_code) × (r.status_code < 500)))
              × ((catches server_error e.class ≡ true)
                  ↔ ((500 ≤ r.status_code) × (r.status_code < 600)))
              × (catches coreason_error e.class ≡ true)))
unfolding handle_response
handle_response_lem r d = elim (Bool-cases r.is_success) [
  | inl yes_ ↦
      let within : (200 ≤ r.status_code) × (r.status_code < 300) = ground arith in
      inl (within.0, within.1, rw yes_ refl)
  | inr failure ↦
      let outside : (r.status_code < 200) ⊎ (300 ≤ r.status_code) = ground arith in
      let (client, server, base) = caught_iff r.status_code in
      inr (
        outside,
        (
          new (class_of r.status_code) (message_of r) r,
          rw failure refl,
          refl,
          refl,
          message_given r,
          class_of_iff r.status_code,
          client,
          server,
          base,
        ),
      )
]
