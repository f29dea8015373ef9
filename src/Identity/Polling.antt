-- ===== src/Identity/Polling.antt =====
-- The device flow from the provider over the server to the client, and the table of users.
use coreason_adlc_api.Prelude.{
  ℕ, ◌+◌, ◌≡◌, ◌≢◌, refl, ap, ◌∙◌, String, true, false, Option, some, ◌==◌, if◌then◌else◌, arith,
}
use coreason_adlc_api.Json.{Value, Fields, get}
use coreason_adlc_api.Outcome.{Result, ok, raised, http, Detail, text_of, no_token_endpoint}
use coreason_adlc_api.Identity.Token.{OidcCache, Discovery}
use coreason_adlc_api.Identity.Upsert.{Statement, Users}
use coreason_adlc_api.Identity.DeviceFlow.{
  Reply, Post, replied, http_error, Models, TokenResponse, is_success, item, or_default,
  require_endpoint, token_reply, Login, poll_for_token, polled, token_granted, token_and,
  or_invalid, bad_request_of, is_polling_error, error_text, token_and,
}
use coreason_adlc_api.Client.Auth.{
  Poll, Step, wait, done, on_poll, logged_in, runtime_error, token_expired, escaped,
}

-- The body of an error, as FastAPI writes it.
abbrev pub detail_value : Detail → Value
detail_value (text_of e) = Value.str e
detail_value _ = Value.str ""

-- What the client sees of an answer of the server; an exception that is no HTTPException is a 500.
abbrev pub seen : Result TokenResponse → Poll
seen (ok t) = Poll.granted (some t.access_token)
seen (raised (http status d)) =
    if status == 400 then Poll.bad_request (some (detail_value d)) else Poll.answered status
seen (raised _) = Poll.answered 500

-- What the client is to do after an answer of the provider.
pub data Leads (m : Models) (interval : ℕ) : Post → Step → Type 0 where
  pending :
      (text : String) (data_ : Fields)
      → get "error" data_ ≡ Value.str "authorization_pending"
      → Leads m interval
          (replied (record { status_code = 400; text = text; json = some (Value.dict data_) }))
          (wait interval)
  slow_down :
      (text : String) (data_ : Fields)
      → get "error" data_ ≡ Value.str "slow_down"
      → Leads m interval
          (replied (record { status_code = 400; text = text; json = some (Value.dict data_) }))
          (wait (interval + 5))
  expired :
      (text : String) (data_ : Fields)
      → get "error" data_ ≡ Value.str "expired_token"
      → Leads m interval
          (replied (record { status_code = 400; text = text; json = some (Value.dict data_) }))
          (done (runtime_error token_expired))
  success :
      (status : ℕ) (text : String) (data_ : Fields) (token : Value) (t : TokenResponse)
      → is_success status ≡ true
      → item "access_token" data_ ≡ some token
      → m.token_response token (or_default (Value.other "3600") (item "expires_in" data_)) ≡ some t
      → Leads m interval
          (replied (record { status_code = status; text = text; json = some (Value.dict data_) }))
          (done (logged_in t.access_token))
  other_status :
      (r : Reply)
      → is_success r.status_code ≡ false
      → r.status_code ≢ 400
      → Leads m interval (replied r) (done escaped)
  outage : Leads m interval http_error (done escaped)

abbrev answer_to : Models → Result (Value × Value) → Result TokenResponse
answer_to m (raised e) = raised e
answer_to m (ok (token, expires_in)) = or_invalid (m.token_response token expires_in)

-- what the client does after the POST has given this
abbrev client_step : Models → ℕ → Result (Value × Value) → Step
client_step m interval r = on_poll (seen (answer_to m r)) interval

error_reply :
    (text : String) (data_ : Fields) (e : Value)
    → get "error" data_ ≡ e
    → bad_request_of
        (record { status_code = 400; text = text; json = some (Value.dict data_) })
        (some data_)
      ≡ (if is_polling_error e then http 400 (text_of (error_text e)) else http 400 (text_of text))
error_reply text data_ e h = rw h refl

client_step_lem :
    (m : Models) (interval : ℕ) (post : Post) (step : Step)
    → Leads m interval post step
    → client_step m interval (token_reply post) ≡ step
unfolding on_poll token_reply
client_step_lem m interval post step (pending text data_ e) =
    ap (λ x. client_step m interval (raised x))
      (error_reply text data_ (Value.str "authorization_pending") e)
client_step_lem m interval post step (slow_down text data_ e) =
    ap (λ x. client_step m interval (raised x)) (error_reply text data_ (Value.str "slow_down") e)
client_step_lem m interval post step (expired text data_ e) =
    ap (λ x. client_step m interval (raised x))
      (error_reply text data_ (Value.str "expired_token") e)
client_step_lem m interval post step (success status text data_ token t good has valid) =
    let other : (status == 400) ≡ false = ground arith in
    let life = or_default (Value.other "3600") (item "expires_in" data_) in
    rw (other, good)
      (ap (λ o. client_step m interval (token_and life o)) has
        ∙ ap (λ o. on_poll (seen (or_invalid o)) interval) valid)
client_step_lem m interval post step (other_status r bad differs) =
    let other : (r.status_code == 400) ≡ false = ground arith in
    rw (other, bad)
      (ap
          (λ b.
            on_poll
              (if b
                then Poll.bad_request (some (Value.str r.text))
                else Poll.answered r.status_code)
              interval)
          other
        ∙ ap (λ b. if b then wait interval else done escaped) bad)
client_step_lem m interval post step outage = refl

module _ (uuid : String → Option ℕ) (uuid5 : String → ℕ)
    (valid_email : String → Option String) where
  polled_first :
      (out : Result (Unit {0}) × OidcCache) (k : Users → Result TokenResponse × Users) (s : Login)
      → out.0 ≡ ok tt
      → (polled uuid uuid5 valid_email out k s).0 ≡ (k s.users).0
  polled_first (raised e, cache) k s known = cc known
  polled_first (ok _, cache) k s known = refl

  token_granted_first :
      (m : Models) (decode : Value → Option Fields) (x : Statement) (now : ℕ)
      (r : Result (Value × Value)) (t : Users)
      → (token_granted uuid uuid5 valid_email m decode x now r t).0 ≡ answer_to m r
  token_granted_first m decode x now (raised e) t = refl
  token_granted_first m decode x now (ok (token, expires_in)) t = refl

  -- If the server knows the token endpoint, then the client does what the answer of the provider asks
  -- for: it waits, waits five seconds longer, gives up an expired code, or takes the token; any other
  -- status, and a provider that cannot be reached, end its login with an exception.
  pub on_poll-poll_for_token :
      (m : Models) (d : Discovery) (post : Post) (decode : Value → Option Fields) (x : Statement)
      (now interval : ℕ) (s : Login) (step : Step)
      → (require_endpoint "token_endpoint" (http 501 no_token_endpoint) d s.cache).0 ≡ ok tt
      → Leads m interval post step
      → on_poll (seen (poll_for_token uuid uuid5 valid_email m d post decode x now s).0) interval
        ≡ step
  unfolding poll_for_token
  on_poll-poll_for_token m d post decode x now interval s step known leads =
      ap (λ r. on_poll (seen r) interval)
        (polled_first (require_endpoint "token_endpoint" (http 501 no_token_endpoint) d s.cache)
            (token_granted uuid uuid5 valid_email m decode x now (token_reply post)) s known
          ∙ token_granted_first m decode x now (token_reply post) s.users)
      ∙ client_step_lem m interval post step leads
