-- ===== src/Client.antt =====
-- src/coreason_adlc_api/client.py and exceptions.py: the client of the API for scripts. The HTTP
-- library is a parameter: what it answers, and the fields of its responses that the client reads.
pub mod Errors
pub mod Promotion
pub mod Signing
pub mod Auth
pub mod Login
pub mod Token
mod Scenarios
use coreason_adlc_api.Prelude.{
  ℕ, String, Bool, true, false, not, ◌||◌, ◌&&◌, Option, none, some, List, [], ◌∷◌, ltb, leb, ◌==◌,
  if◌then◌else◌,
}
use coreason_adlc_api.Prelude.Text.{str_eq, contains}
use coreason_adlc_api.Json.{Value, Fields, truthy, get}

-- The classes of exceptions.py, `CoreasonError` and below.
pub data ErrorClass : Type 0 where
  coreason_error client_error server_error authentication_error : ErrorClass
  budget_exceeded_error compliance_violation_error rate_limit_error : ErrorClass
  service_unavailable_error : ErrorClass

abbrev pub base_class : ErrorClass → Option ErrorClass
base_class coreason_error = none
base_class client_error = some coreason_error
base_class server_error = some coreason_error
base_class service_unavailable_error = some server_error
base_class _ = some client_error

abbrev number : ErrorClass → ℕ
number coreason_error = 0
number client_error = 1
number server_error = 2
number authentication_error = 3
number budget_exceeded_error = 4
number compliance_violation_error = 5
number rate_limit_error = 6
number service_unavailable_error = 7

abbrev class_is : Option ErrorClass → ErrorClass → Bool
class_is none d = false
class_is (some c) d = number c == number d

abbrev base_of : Option ErrorClass → Option ErrorClass
base_of none = none
base_of (some c) = base_class c

-- Whether `except d` catches an exception of class `c`; the hierarchy is three classes deep.
abbrev pub catches : ErrorClass → ErrorClass → Bool
catches d c =
    class_is (some c) d || class_is (base_class c) d || class_is (base_of (base_class c)) d

-- The fields of an httpx.Response that the client reads. `json` is what `json()` returns, `none` if
-- it raises a JSONDecodeError.
pub record Response : Type 0 where
  pub is_success : Bool
  pub status_code : ℕ
  pub json : Option Value
  pub text : String
  pub reason_phrase : String

pub record CoreasonError : Type 0 where
  pub class : ErrorClass
  pub message : Value
  pub response : Response
  pub status_code : Option ℕ

-- What a call of the client returns or raises; `failed` is any error that is not of its classes.
pub data Outcome (A : Type 0) : Type 0 where
  returned : A → Outcome A
  error : CoreasonError → Outcome A
  failed : Outcome A

-- `a or b`
abbrev pub or_else : Value → Value → Value
or_else a b = if truthy a then a else b

-- the message in the body, "" if there is none
abbrev pub body_message : Option Value → Value
body_message (some (Value.dict body)) =
    or_else (get "detail" body)
      (or_else (get "message" body) (or_else (get "error" body) (Value.str "")))
body_message _ = Value.str ""

abbrev pub message_of : Response → Value
message_of r =
    or_else (body_message r.json) (or_else (Value.str r.text) (Value.str r.reason_phrase))

-- the chain of tests on the status
unfoldable pub class_of : ℕ → ErrorClass
class_of s =
    if (s == 401) || (s == 403)
    then authentication_error
    else if s == 402
    then budget_exceeded_error
    else if s == 422
    then compliance_violation_error
    else if s == 429
    then rate_limit_error
    else if leb 400 s && ltb s 500
    then client_error
    else if (s == 502) || (s == 503) || (s == 504)
    then service_unavailable_error
    else if leb 500 s && ltb s 600
    then server_error
    else coreason_error

-- `CoreasonError.__init__`
abbrev pub new : ErrorClass → Value → Response → CoreasonError
new class message response = record {
  class = class;
  message = message;
  response = response;
  status_code = some response.status_code;
}

-- `_handle_response`
unfoldable pub handle_response : Response → Outcome Response
handle_response r =
    if r.is_success then returned r else error (new (class_of r.status_code) (message_of r) r)
