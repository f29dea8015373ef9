-- ===== src/Client/Scenarios.antt =====
-- Runs of the client.
use coreason_adlc_api.Prelude.{
  ℕ, zero, suc, ◌+◌, ◌*◌, ◌≤◌, ◌<◌, ◌≡◌, ◌≢◌, ◌⊎◌, ◌↔◌, refl, String, Bool, true, false, Option,
  none, some, [], ◌∷◌, ◌++◌, arith,
}
use coreason_adlc_api.Prelude.Text.{str_eq}
use coreason_adlc_api.Json.{Value, Items, Fields}
use coreason_adlc_api.Json.{truthy}
use coreason_adlc_api.Client.{
  Response, CoreasonError, returned, error, handle_response, client_error, server_error,
  coreason_error, catches,
}
use coreason_adlc_api.Client.Errors.{handle_response_lem, IsClassOf}
use coreason_adlc_api.Client.Promotion.{
  Request, Session, promote_draft, sign_and_publish, validate_draft, get_model_config_schema,
  request, inject_auth_header,
}
use coreason_adlc_api.Client.Signing.{promote_draft_lem, IsAssembly, IsPublication}
use coreason_adlc_api.Client.Auth.{
  Poll, network_error, granted, bad_request, LoginResult, logged_in, Keyring, device_code, login,
  Decoded, claims, token, no_token, get_token,
}
use coreason_adlc_api.Client.Login.{login_ends, login_lem, slept_before}
use coreason_adlc_api.Client.Token.{get_token_iff, IsCurrent}

abbrev refused : Response
refused = record {
  is_success = false;
  status_code = 402;
  json =
      some
        (Value.dict (Fields.field "detail" (Value.str "Daily budget limit exceeded.") Fields.end));
  text = "";
  reason_phrase = "Payment Required";
}

abbrev bad_gateway : ℕ
bad_gateway = 502

handle_response_lem_example :
    ((200 ≤ 402) × (402 < 300) × (handle_response refused ≡ returned refused))
    ⊎ (((402 < 200) ⊎ (300 ≤ 402))
        × ((e : CoreasonError) × (handle_response refused ≡ error e)
            × (e.response ≡ refused)
            × (e.status_code ≡ some 402)
            × ((truthy e.message ≡ true)
                ⊎ ((str_eq "" "" ≡ true) × (str_eq "Payment Required" "" ≡ true)))
            × IsClassOf e.class 402
            × ((catches client_error e.class ≡ true) ↔ ((400 ≤ 402) × (402 < 500)))
            × ((catches server_error e.class ≡ true) ↔ ((500 ≤ 402) × (402 < 600)))
            × (catches coreason_error e.class ≡ true)))
handle_response_lem_example = handle_response_lem refused refl

-- A server whose state is the number of requests it has answered.
abbrev ok_with : Value → Response
ok_with v = record {
  is_success = true;
  status_code = 200;
  json = some v;
  text = "";
  reason_phrase = "OK";
}

abbrev artifact : Value
artifact = Value.dict (Fields.field "id" (Value.str "d1") Fields.end)

abbrev answer : Request → ℕ → Option Response × ℕ
answer q zero = (some (ok_with artifact), 1)
answer q (suc n) =
    (some (ok_with (Value.dict (Fields.field "url" (Value.str "s3://d1") Fields.end))), suc (suc n))

abbrev session : Session ℕ
session = record { headers = []; sent = []; world = 0 }

promote_draft_lem_example :
    let (out, s') =
      promote_draft answer (λ v. "text") (λ t. "signature") no_token (token "jwt") "d1" session in
    ((s'.sent ≡ []) × ((u : Value) → out ≢ returned u))
    ⊎ ((q : Request) × IsAssembly "d1" q
        × (((s'.sent ≡ [] ++ q ∷ []) × ((u : Value) → out ≢ returned u))
            ⊎ ((r : Response) × (a : Value) × (p : Request) × ((answer q 0).0 ≡ some r)
                × (r.is_success ≡ true)
                × (r.json ≡ some a)
                × IsPublication "d1" "signature" p
                × (s'.sent ≡ ([] ++ q ∷ []) ++ p ∷ [])
                × ((u : Value)
                    → out ≡ returned u
                    → (r' : Response) × ((answer p (answer q 0).1).0 ≡ some r')
                      × (r'.is_success ≡ true)))))
promote_draft_lem_example =
    promote_draft_lem answer (λ v. "text") (λ t. "signature") no_token (token "jwt") "d1" session

-- A promotion in a session without a server error sends two requests and returns the URL.
promotion_run :
    (promote_draft answer (λ v. "text") (λ t. "signature") no_token (token "jwt") "d1" session).0
    ≡ returned (Value.str "s3://d1")
unfolding promote_draft sign_and_publish request inject_auth_header handle_response
promotion_run = refl

abbrev clock : ℕ → ℕ → ℕ
clock n slept = n * 300 + slept * 1000000

abbrev writable : String → Bool
writable t = true

abbrev poll : ℕ → Poll
poll zero = bad_request (some (Value.str "authorization_pending"))
poll (suc zero) = network_error
poll (suc (suc n)) = granted (some "jwt")

login_ends_example :
    (r : LoginResult) × ((login clock poll writable 901 0 (device_code 5 900) none).0 ≡ some r)
login_ends_example =
    login_ends clock poll writable 0 5 900 none (omega arith) (λ n slept seconds. omega arith)
      (omega arith)

login_lem_example :
    ((t : String)
      → (login clock poll writable 901 0 (device_code 5 900) none).0 ≡ some (logged_in t)
      → ((login clock poll writable 901 0 (device_code 5 900) none).1 ≡ some t)
        × ((n : ℕ) × (clock n (slept_before clock poll writable 5 n) < 0 + 900 * 1000000)
            × (poll n ≡ granted (some t))))
    × (((t : String)
          → (login clock poll writable 901 0 (device_code 5 900) none).0 ≢ some (logged_in t))
        → (login clock poll writable 901 0 (device_code 5 900) none).1 ≡ none)
login_lem_example = login_lem clock poll writable 901 0 5 900 none

abbrev jwt : String
jwt = "jwt"

abbrev kept : Keyring
kept = some jwt

get_token_iff_example :
    (get_token (λ t. claims (some 9)) (λ t. claims (some 9)) 5000000 kept ≡ token jwt) ↔ (
      (kept ≡ some jwt)
      × (str_eq jwt "" ≡ false)
      × ((x : Option ℕ) × (Decoded.claims (some 9) ≡ claims x))
      × ((e : Option ℕ) × (Decoded.claims (some 9) ≡ claims e) × IsCurrent 5000000 e))
get_token_iff_example = get_token_iff (λ t. claims (some 9)) (λ t. claims (some 9)) 5000000 kept jwt

-- A validation whose body names no issues gives the empty list, and the schema is the body itself.
bodies_run :
    ((validate_draft answer no_token artifact session).0 ≡ returned (Value.list Items.nil))
    × ((get_model_config_schema answer no_token "gpt-4" session).0 ≡ returned artifact)
unfolding validate_draft get_model_config_schema request inject_auth_header handle_response
bodies_run = (refl, refl)
