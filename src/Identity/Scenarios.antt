-- ===== src/Identity/Scenarios.antt =====
-- Requests with tokens.
use coreason_adlc_api.Prelude.{
  ℕ, ◌≡◌, ◌⊎◌, refl, String, true, false, Option, none, some, List, [], ◌∷◌, All,
}
use coreason_adlc_api.Prelude.Text.{starts_with}
use coreason_adlc_api.Json.{Value, Items, Fields}
use coreason_adlc_api.Outcome.{raised, Exn}
use coreason_adlc_api.Identity.Token.{
  get_oidc_config, is_cached, OidcCache, Discovery, http_error, document, Decoding, payload,
  second_word, parse_and_validate_token, initialised,
}
use coreason_adlc_api.Identity.Upsert.{runs, upsert_user}
use coreason_adlc_api.Identity.DeviceFlow.{
  Post, replied, Models, Login, poll_for_token, token_reply, user_of,
}
use coreason_adlc_api.Identity.Polling.{seen, slow_down, on_poll-poll_for_token}
use coreason_adlc_api.Identity.Users.{IsUsers, find_user, IsGranted, poll_for_token-IsUsers}
use coreason_adlc_api.Client.Auth.{wait, on_poll}
use coreason_adlc_api.Identity.Admission.{
  IsAdmitted, IsRefused, parse_and_validate_token_lem, answers, answers-initialised,
}

abbrev uuid : String → Option ℕ
uuid s = none

abbrev uuid5 : String → ℕ
uuid5 s = 5

abbrev valid_email : String → Option String
valid_email s = some s

abbrev claims : Fields
claims =
    Fields.field "sub" (Value.str "auth0|1") (Fields.field "email" (Value.str "a@b.c") Fields.end)

abbrev decode : String → Decoding
decode t = payload claims

abbrev keys : Fields
keys = Fields.field "jwks_uri" (Value.str "https://idp/keys") Fields.end

abbrev no_keys : Fields
no_keys = Fields.field "issuer" (Value.str "https://idp/") Fields.end

abbrev empty : OidcCache
empty = record { config = none; jwks_client = false }

-- The second word of the header is the token.
token_of_header : second_word "Bearer abc" ≡ "abc"
token_of_header = refl

parse_and_validate_token_lem_example :
    ((starts_with "Bearer abc" "Bearer " ≡ true)
      × IsAdmitted uuid uuid5 valid_email
          (payload claims)
          (parse_and_validate_token uuid uuid5 valid_email
            (document (Value.dict keys))
            decode
            "Bearer abc"
            empty).0)
    ⊎ IsRefused uuid uuid5 valid_email
        (parse_and_validate_token uuid uuid5 valid_email
          (document (Value.dict keys))
          decode
          "Bearer abc"
          empty).0
parse_and_validate_token_lem_example =
    parse_and_validate_token_lem uuid uuid5 valid_email (document (Value.dict keys)) decode
      "Bearer abc" empty tt

abbrev requests : List (Discovery × String)
requests = (document (Value.dict keys), "Bearer abc") ∷ (http_error, "Bearer abc") ∷ []

answers-initialised_example :
    All
      (IsRefused uuid uuid5 valid_email)
      (answers uuid uuid5 valid_email decode requests (initialised no_keys empty))
answers-initialised_example =
    answers-initialised uuid uuid5 valid_email decode no_keys requests empty refl refl refl

-- A list in place of the document is cached before its `get` raises.
list_cached :
    let (out, s) =
      get_oidc_config (document (Value.list (Items.cons (Value.str "a") Items.nil))) empty in
    (out ≡ raised Exn.unhandled) × (is_cached s.config ≡ true) × (s.jwks_client ≡ false)
unfolding get_oidc_config
list_cached = (refl, refl, refl)

-- the device flow
abbrev endpoints : Fields
endpoints = Fields.field "token_endpoint" (Value.str "https://idp/token") Fields.end

abbrev models : Models
models = record {
  device_response = λ code user uri life interval. none;
  token_response = λ token life. some (record { access_token = "abc"; expires_in = 3600 });
}

abbrev slowed : Post
slowed = replied (record {
  status_code = 400;
  text = "";
  json = some (Value.dict (Fields.field "error" (Value.str "slow_down") Fields.end));
})

abbrev unverified : Value → Option Fields
unverified token = some claims

abbrev nobody : Login
nobody = record { cache = empty; users = [] }

on_poll-poll_for_token_example :
    on_poll
      (seen
        (poll_for_token uuid uuid5 valid_email models
          (document (Value.dict endpoints))
          slowed
          unverified
          runs
          9
          nobody).0)
      5
    ≡ wait 10
unfolding get_oidc_config
on_poll-poll_for_token_example =
    on_poll-poll_for_token uuid uuid5 valid_email models (document (Value.dict endpoints)) slowed
      unverified runs 9 5 nobody (wait 10) refl
      (slow_down "" (Fields.field "error" (Value.str "slow_down") Fields.end) refl)

abbrev granting : Post
granting = replied (record {
  status_code = 200;
  text = "";
  json = some (Value.dict (Fields.field "access_token" (Value.str "abc") Fields.end));
})

first_login :
    (poll_for_token uuid uuid5 valid_email models
      (document (Value.dict endpoints))
      granting
      unverified
      runs
      9
      nobody).1.users
    ≡ record { user_uuid = 5; email = "a@b.c"; full_name = none; created_at = 9; last_login = 9 }
      ∷ []
unfolding poll_for_token get_oidc_config token_reply user_of upsert_user
first_login = refl

poll_for_token-IsUsers_example :
    (IsUsers []
      → IsUsers
          (poll_for_token uuid uuid5 valid_email models
            (document (Value.dict endpoints))
            granting
            unverified
            runs
            9
            nobody).1.users)
    × ((id : ℕ)
        → (find_user id
              (poll_for_token uuid uuid5 valid_email models
                (document (Value.dict endpoints))
                granting
                unverified
                runs
                9
                nobody).1.users
            ≡ none)
          ⊎ IsGranted uuid uuid5 valid_email granting unverified id)
poll_for_token-IsUsers_example =
    poll_for_token-IsUsers uuid uuid5 valid_email models (document (Value.dict endpoints)) granting
      unverified runs 9 nobody
