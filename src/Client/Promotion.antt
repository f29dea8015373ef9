-- ===== src/Client/Promotion.antt =====
-- src/coreason_adlc_api/client.py: the requests of the client, and the workflow that assembles,
-- signs and publishes a draft.
use coreason_adlc_api.Prelude.{String, Option, none, some, List, [], ◌∷◌, ◌++◌, if◌then◌else◌}
use coreason_adlc_api.Prelude.Text.{str_eq, text_append, starts_with}
use coreason_adlc_api.Json.{Value, Items, Fields}
use coreason_adlc_api.Client.Auth.{Token, token, no_token, raises}
use coreason_adlc_api.Client.{Response, Outcome, returned, error, failed, handle_response}

pub record Request : Type 0 where
  pub method : String
  pub path : String
  pub json : Option Value
  pub headers : List (String × String)

abbrev pub Headers : Type 0
Headers = List (String × String)

-- `headers[name] = value`
abbrev pub set_header : String → String → Headers → Headers
set_header name value [] = (name, value) ∷ []
set_header name value (h ∷ hs) =
    let rest = set_header name value hs in if str_eq h.0 name then (name, value) ∷ hs else h ∷ rest

abbrev pub with_token : Token → Request → Option Request
with_token no_token r = some r
with_token raises r = none
with_token (token t) r = some (
    if str_eq t ""
    then r
    else record r { headers = set_header "Authorization" (text_append "Bearer " t) r.headers })

-- `_inject_auth_header`; the argument is what `get_token` does when it is called. `none` if the hook
-- raises, since `get_token` does.
unfoldable pub inject_auth_header : Token → Request → Option Request
inject_auth_header t r = if starts_with r.path "/auth/" then some r else with_token t r

-- The session: its default headers, the requests it has sent, and the world behind it, which may
-- answer a request or let it fail.
pub record Session (W : Type 0) : Type 0 where
  pub headers : Headers
  pub sent : List Request
  pub world : W

-- `data.get("url", "")`
abbrev get_url : Fields → Value
get_url Fields.end = Value.str ""
get_url (Fields.field k v rest) = if str_eq k "url" then v else get_url rest

-- the request that the session sends, after the hook
abbrev pub hooked : Token → Headers → String → String → Option Value → Option Request
hooked t headers method path body =
    inject_auth_header t (record { method = method; path = path; json = body; headers = headers })

abbrev pub draft_path : String → String → String
draft_path draft_id action =
    text_append "/workbench/drafts/" (text_append draft_id (text_append "/" action))

abbrev pub signature_body : String → Value
signature_body signature = Value.dict (Fields.field "signature" (Value.str signature) Fields.end)

abbrev pub url_of : Option Value → Outcome Value
url_of (some (Value.dict body)) = returned (get_url body)
url_of _ = failed

abbrev pub received : Option Response → Outcome Response
received none = failed
received (some r) = handle_response r

module _ {W : Type 0} (answer : Request → W → Option Response × W) where
  -- `set_project`
  abbrev pub set_project : String → Session W → Session W
  set_project auc_id s = record s { headers = set_header "X-Coreason-Project-ID" auc_id s.headers }

  abbrev pub send : Option Request → Session W → Outcome Response × Session W
  send none s = (failed, s)
  send (some q) s =
      let (response, w) = answer q s.world in
      (received response, record s { sent = s.sent ++ q ∷ []; world = w })

  -- `request`, with the hook that the session calls on it
  unfoldable pub request :
      Token → String → String → Option Value → Session W → Outcome Response × Session W
  request t method path body s = send (hooked t s.headers method path body) s

  abbrev pub published : Outcome Response × Session W → Outcome Value × Session W
  published (returned r, s) = (url_of r.json, s)
  published (error e, s) = (error e, s)
  published (failed, s) = (failed, s)

  module _ (dumps : Value → String) (sign : String → String) where
    -- from the artifact on; `response.json()` may raise
    unfoldable pub sign_and_publish :
        Token → String → Option Value → Session W → Outcome Value × Session W
    sign_and_publish t draft_id none s = (failed, s)
    sign_and_publish t draft_id (some artifact) s = published (
        request t "POST" (draft_path draft_id "publish")
          (some (signature_body (sign (dumps artifact)))) s)

    abbrev pub assembled : Token → String → Outcome Response × Session W → Outcome Value × Session W
    assembled t draft_id (returned r, s) = sign_and_publish t draft_id r.json s
    assembled t draft_id (error e, s) = (error e, s)
    assembled t draft_id (failed, s) = (failed, s)

    -- `promote_draft`; the tokens are what `get_token` does in the hook at each of its two requests.
    unfoldable pub promote_draft : Token → Token → String → Session W → Outcome Value × Session W
    promote_draft token₁ token₂ draft_id s =
        assembled token₂ draft_id (request token₁ "GET" (draft_path draft_id "assemble") none s)

  -- `data.get("issues", [])`
  abbrev pub issues_in : Fields → Value
  issues_in Fields.end = Value.list Items.nil
  issues_in (Fields.field k v rest) = if str_eq k "issues" then v else issues_in rest

  abbrev pub issues_of : Option Value → Outcome Value
  issues_of (some (Value.dict body)) = returned (issues_in body)
  issues_of _ = failed

  abbrev pub issues_read : Outcome Response × Session W → Outcome Value × Session W
  issues_read (returned r, s) = (issues_of r.json, s)
  issues_read (error e, s) = (error e, s)
  issues_read (failed, s) = (failed, s)

  -- `validate_draft`
  unfoldable pub validate_draft : Token → Value → Session W → Outcome Value × Session W
  validate_draft t draft s = issues_read (request t "POST" "/workbench/validate" (some draft) s)

  abbrev pub body_of : Option Value → Outcome Value
  body_of none = failed
  body_of (some v) = returned v

  abbrev pub body_read : Outcome Response × Session W → Outcome Value × Session W
  body_read (returned r, s) = (body_of r.json, s)
  body_read (error e, s) = (error e, s)
  body_read (failed, s) = (failed, s)

  -- `get_model_config_schema`
  unfoldable pub get_model_config_schema : Token → String → Session W → Outcome Value × Session W
  get_model_config_schema t model_id s =
      body_read
        (request t "GET" (text_append "/api/v1/models/" (text_append model_id "/schema")) none s)
