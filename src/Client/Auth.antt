-- ===== src/Client/Auth.antt =====
-- src/coreason_adlc_api/client_auth.py: the device flow of the client, and the token it keeps in
-- the keyring. `time.time()` is in whole microseconds; the other numbers are seconds.
use coreason_adlc_api.Prelude.{
  ℕ, zero, suc, ◌+◌, ◌*◌, String, Bool, true, false, ◌&&◌, Option, none, some, ltb, leb, ◌==◌,
  if◌then◌else◌,
}
use coreason_adlc_api.Prelude.Text.{str_eq}
use coreason_adlc_api.Json.{Value}

-- The end of one poll: a `RequestError`; status 200 with the access token, `none` if the body is no
-- TokenResponse; status 400 with the detail in the body, `none` if that cannot be read; or any
-- other status.
pub data Poll : Type 0 where
  network_error : Poll
  granted : Option String → Poll
  bad_request : Option Value → Poll
  answered : ℕ → Poll

-- The texts of the `RuntimeError`s
pub data Reason : Type 0 where
  initiation_failed token_expired timed_out : Reason
  authentication_failed : Value → Reason

-- `escaped` is any other exception.
pub data LoginResult : Type 0 where
  logged_in : String → LoginResult
  runtime_error : Reason → LoginResult
  escaped : LoginResult

-- What the body of the loop does: it ends the function, or waits for the interval.
pub data Step : Type 0 where
  done : LoginResult → Step
  wait : ℕ → Step

abbrev pub on_bad_request : Value → ℕ → Step
on_bad_request (Value.str d) interval =
    if str_eq d "authorization_pending"
    then wait interval
    else if str_eq d "slow_down"
    then wait (interval + 5)
    else if str_eq d "expired_token"
    then done (runtime_error token_expired)
    else done (runtime_error (authentication_failed (Value.str d)))
on_bad_request v interval = done (runtime_error (authentication_failed v))

unfoldable pub on_poll : Poll → ℕ → Step
on_poll network_error interval = wait interval
on_poll (granted (some token)) interval = done (logged_in token)
on_poll (granted none) interval = done escaped
on_poll (bad_request (some detail)) interval = on_bad_request detail interval
on_poll (bad_request none) interval = done escaped
on_poll (answered status) interval =
    if leb 200 status && ltb status 300 then wait interval else done escaped

-- The entry of the keyring for SERVICE_NAME and USERNAME.
abbrev pub Keyring : Type 0
Keyring = Option String

-- How the device code was asked for: an `HTTPError`, a body that is no DeviceCodeResponse, or the
-- interval and the life of the code.
pub data Initiation : Type 0 where
  http_error malformed : Initiation
  device_code : (interval expires_in : ℕ) → Initiation

-- What the loop meets: the clock at its n-th test, when so many seconds have been slept; the n-th
-- poll; and whether the keyring takes a token, or `set_password` raises a KeyringError.
module _ (clock : ℕ → ℕ → ℕ) (poll : ℕ → Poll) (writable : String → Bool) where
  -- the `return` or `raise` of a poll; a token is saved before it is returned.
  abbrev pub finish : LoginResult → Keyring → Option LoginResult × Keyring
  finish (logged_in token) k =
      if writable token then (some (logged_in token), some token) else (some escaped, k)
  finish r k = (some r, k)

  -- the `while`, from its n-th test on, with the `time.sleep` at the end of its body; `none` if the
  -- fuel runs out
  unfoldable pub poll_loop :
      (fuel n slept deadline interval : ℕ) → Keyring → Option LoginResult × Keyring
  poll_loop zero n slept deadline interval k = (none, k)
  poll_loop (suc fuel) n slept deadline interval k = elim (ltb (clock n slept) deadline) [
    | true ↦ elim (on_poll (poll n) interval) [
      | done r ↦ finish r k
      | wait interval' ↦ poll_loop fuel (suc n) (slept + interval') deadline interval' k
    ]
    | false ↦ (some (runtime_error timed_out), k)
  ]

  -- `login`; `start_time` is the clock before the loop.
  unfoldable pub login : (fuel start_time : ℕ) → Initiation → Keyring → Option LoginResult × Keyring
  login fuel start_time http_error k = (some (runtime_error initiation_failed), k)
  login fuel start_time malformed k = (some escaped, k)
  login fuel start_time (device_code interval expires_in) k =
      poll_loop fuel 0 0 (start_time + expires_in * 1000000) interval k

-- What `jwt.decode` does: the claim `exp` of the token, or an error.
pub data Decoded : Type 0 where
  claims : Option ℕ → Decoded
  expired_signature py_jwt_error : Decoded

-- What `get_token` returns or raises.
pub data Token : Type 0 where
  token : String → Token
  no_token raises : Token

abbrev pub check_exp : String → ℕ → Decoded → Token
check_exp t now (claims none) = token t
check_exp t now (claims (some e)) =
    if e == 0 then token t else if ltb (e * 1000000) now then no_token else token t
check_exp t now _ = raises

abbrev pub check_decoded : Decoded → Token → Token
check_decoded (claims e) t = t
check_decoded _ t = no_token

-- `get_token`; `verified` is the decoding that checks the expiry, `decode` the one that does not.
unfoldable pub get_token : (verified decode : String → Decoded) (now : ℕ) → Keyring → Token
get_token verified decode now none = no_token
get_token verified decode now (some t) =
    if str_eq t "" then no_token else check_decoded (verified t) (check_exp t now (decode t))
