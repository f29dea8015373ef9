-- ===== src/Identity/DeviceFlow.antt =====
-- src/coreason_adlc_api/routers/auth.py: the device flow, which the server passes on to the OIDC
-- provider. httpx, PyJWT and pydantic are parameters: how the POST to the provider ends, what a token
-- decodes to, and which values make a response.
use coreason_adlc_api.Prelude.{
  ℕ, String, Bool, true, false, not, Option, none, some, [], ◌∷◌, ◌&&◌, ◌==◌, leb, ltb,
  if◌then◌else◌,
}
use coreason_adlc_api.Prelude.Text.{str_eq, contains}
use coreason_adlc_api.Json.{Value, Fields, truthy, get}
use coreason_adlc_api.Outcome.{
  Result, ok, raised, Exn, http, Action, gets, raise_if, ◌>>=◌, ◌>>◌, validation_error, text_of,
  no_device_flow, no_token_endpoint, device_flow_failed, upstream_idp_unavailable,
}
use coreason_adlc_api.Identity.{UserIdentity}
use coreason_adlc_api.Identity.Upsert.{Users, Statement, upsert_user}
use coreason_adlc_api.Identity.Token.{
  OidcCache, Discovery, get_oidc_config, oid_of, raw_oid, name_of, email_of,
}

-- A response of the provider; `json` is `none` where `resp.json()` raises.
pub record Reply : Type 0 where
  pub status_code : ℕ
  pub text : String
  pub json : Option Value

-- How the POST ends: with a response, with an `HTTPError` that has none, or with another exception.
pub data Post : Type 0 where
  replied : Reply → Post
  http_error : Post
  other_error : Post

-- what `raise_for_status` lets through
abbrev pub is_success : ℕ → Bool
is_success status = leb 200 status && ltb status 300

-- `data[key]` and `data.get(key, default)`; `none` where they raise
abbrev pub item : String → Fields → Option Value
item key Fields.end = none
item key (Fields.field k v rest) = if str_eq k key then some v else item key rest

abbrev pub or_default : Value → Option Value → Value
or_default default none = default
or_default default (some v) = v

abbrev pub fields_of : Option Value → Option Fields
fields_of (some (Value.dict fs)) = some fs
fields_of _ = none

pub record DeviceCodeResponse : Type 0 where
  pub device_code : String
  pub user_code : String
  pub verification_uri : String
  pub expires_in : ℕ
  pub interval : ℕ

pub record TokenResponse : Type 0 where
  pub access_token : String
  pub expires_in : ℕ

-- pydantic on the values of a response; `none` for a ValidationError
pub record Models : Type 0 where
  pub device_response : Value → Value → Value → Value → Value → Option DeviceCodeResponse
  pub token_response : Value → Value → Option TokenResponse

abbrev pub or_invalid : {A : Type 0} → Option A → Result A
or_invalid none = raised validation_error
or_invalid (some a) = ok a

-- the answer to a device code, or the KeyError of what is not there
abbrev pub device_data :
    Models
    → Value
    → Option Value
    → Option Value
    → Option Value
    → Option Value
    → Result DeviceCodeResponse
device_data m interval (some code) (some user) (some uri) (some life) =
    or_invalid (m.device_response code user uri life interval)
device_data m interval _ _ _ _ = raised Exn.unhandled

abbrev pub device_fields : Models → Option Fields → Result DeviceCodeResponse
device_fields m none = raised Exn.unhandled
device_fields m (some data_) =
    device_data m (or_default (Value.other "5") (item "interval" data_)) (item "device_code" data_)
      (item "user_code" data_) (item "verification_uri" data_) (item "expires_in" data_)

unfoldable pub device_reply : Models → Post → Result DeviceCodeResponse
device_reply m (replied r) =
    if is_success r.status_code
    then device_fields m (fields_of r.json)
    else raised (http 502 (text_of r.text))
device_reply m http_error = raised (http 502 device_flow_failed)
device_reply m other_error = raised Exn.unhandled

-- Looks up the endpoint; the `get` of a document that is no object raises an AttributeError.
abbrev pub check_endpoint : String → Exn → Option Value → Action OidcCache (Unit {0})
check_endpoint key missing (some (Value.dict config)) =
    raise_if (not (truthy (get key config))) missing
check_endpoint key missing _ = raise_if true Exn.unhandled

-- The endpoint is looked up in the configuration that is cached then.
abbrev pub require_endpoint : String → Exn → Discovery → Action OidcCache (Unit {0})
require_endpoint key missing d = do
  get_oidc_config d
  config ← gets (λ s. s.config)
  check_endpoint key missing config

-- `initiate_device_code_flow`
unfoldable pub initiate_device_code_flow :
    Models → Discovery → Post → Action OidcCache DeviceCodeResponse
initiate_device_code_flow m d post = do
  require_endpoint "device_authorization_endpoint" (http 501 no_device_flow) d
  λ s. (device_reply m post, s)

-- the codes that the provider gives while it is polled
abbrev pub is_polling_error : Value → Bool
is_polling_error (Value.str e) =
    contains e ("authorization_pending" ∷ "slow_down" ∷ "expired_token" ∷ [])
is_polling_error _ = false

abbrev pub error_text : Value → String
error_text (Value.str e) = e
error_text _ = ""

abbrev pub bad_request_of : Reply → Option Fields → Exn
bad_request_of r none = Exn.unhandled
bad_request_of r (some data_) =
    if is_polling_error (get "error" data_)
    then http 400 (text_of (error_text (get "error" data_)))
    else http 400 (text_of r.text)

abbrev pub token_and : Value → Option Value → Result (Value × Value)
token_and expires_in none = raised Exn.unhandled
token_and expires_in (some token) = ok (token, expires_in)

-- What the POST gives: the token and its life, or an exception.
abbrev pub granted : Option Fields → Result (Value × Value)
granted none = raised Exn.unhandled
granted (some data_) =
    token_and (or_default (Value.other "3600") (item "expires_in" data_))
      (item "access_token" data_)

unfoldable pub token_reply : Post → Result (Value × Value)
token_reply (replied r) =
    if r.status_code == 400
    then raised (bad_request_of r (fields_of r.json))
    else if is_success r.status_code
    then granted (fields_of r.json)
    else raised (http r.status_code (text_of r.text))
token_reply http_error = raised (http 502 upstream_idp_unavailable)
token_reply other_error = raised Exn.unhandled

-- The cache, and the table of users.
pub record Login : Type 0 where
  pub cache : OidcCache
  pub users : Users

module _ (uuid : String → Option ℕ) (uuid5 : String → ℕ)
    (valid_email : String → Option String) where
  abbrev pub known_user : Option ℕ → Option String → Option (Option String) → Option UserIdentity
  known_user (some oid) (some email) (some name) =
      some (record { oid = oid; email = email; groups = []; full_name = name })
  known_user _ _ _ = none

  -- From the claims to the user; `none` where nothing is upserted.
  unfoldable pub user_of : Option Fields → Option UserIdentity
  user_of none = none
  user_of (some p) =
      known_user (oid_of uuid uuid5 (raw_oid uuid uuid5 p))
        (email_of uuid uuid5 valid_email (get "email" p)) (name_of uuid uuid5 (get "name" p))

  abbrev pub upsert_if : Statement → Option UserIdentity → ℕ → Users → Users
  upsert_if x none now t = t
  upsert_if x (some u) now t = upsert_user x u now t

  -- with what PyJWT decodes from the token, unverified
  abbrev pub token_granted :
      Models
      → (Value → Option Fields)
      → Statement
      → ℕ
      → Result (Value × Value)
      → Action Users TokenResponse
  token_granted m decode x now (raised e) t = (raised e, t)
  token_granted m decode x now (ok (token, expires_in)) t =
      (or_invalid (m.token_response token expires_in), upsert_if x (user_of (decode token)) now t)

  abbrev pub polled :
      Result (Unit {0}) × OidcCache
      → (Users → Result TokenResponse × Users)
      → Login
      → Result TokenResponse × Login
  polled (raised e, cache) k s = (raised e, record s { cache = cache })
  polled (ok _, cache) k s =
      let (r, users) = k s.users in (r, record { cache = cache; users = users })

  -- `poll_for_token`
  unfoldable pub poll_for_token :
      Models
      → Discovery
      → Post
      → (Value → Option Fields)
      → Statement
      → ℕ
      → Action Login TokenResponse
  poll_for_token m d post decode x now s =
      polled (require_endpoint "token_endpoint" (http 501 no_token_endpoint) d s.cache)
        (token_granted m decode x now (token_reply post)) s
