-- ===== src/Identity/Token.antt =====
-- src/coreason_adlc_api/auth/identity.py: get_oidc_config and parse_and_validate_token. The OIDC
-- provider, PyJWT and the parsing of UUIDs are parameters.
use Prim.Native.Char.{Char, code}
use Prim.Native.String.{[] as text_nil, ◌∷◌ as text_cons}
use coreason_adlc_api.Prelude.{
  ℕ, String, Bool, true, false, not, Option, none, some, List, [], ◌∷◌, ◌==◌, if◌then◌else◌,
}
use coreason_adlc_api.Prelude.Text.{str_eq, starts_with}
use coreason_adlc_api.Json.{Value, Items, Fields, truthy, get}
use coreason_adlc_api.Outcome.{
  Result, ok, raised, Exn, http, identity_provider_unavailable, invalid_header,
  authentication_unavailable, token_has_expired, invalid_token, malformed_claims, Action, raise_if,
  gets, ◌>>=◌, ◌>>◌,
}
use coreason_adlc_api.Identity.{UserIdentity}

-- `_OIDC_CONFIG_CACHE`, whatever JSON it holds, and whether `_JWKS_CLIENT` is there
pub record OidcCache : Type 0 where
  pub config : Option Value
  pub jwks_client : Bool

-- How the request to the discovery endpoint ends: an `HTTPError`, any other error before the document
-- is cached, or a JSON document.
pub data Discovery : Type 0 where
  http_error other_error : Discovery
  document : Value → Discovery

-- Whether `_OIDC_CONFIG_CACHE` is true: an empty document is not.
abbrev pub is_cached : Option Value → Bool
is_cached none = false
is_cached (some config) = truthy config

-- `if jwks_uri`: otherwise the client stays what it was.
abbrev pub initialised : Fields → OidcCache → OidcCache
initialised config s = record {
  config = some (Value.dict config);
  jwks_client = if truthy (get "jwks_uri" config) then true else s.jwks_client;
}

-- A document that is no object is cached too, before its `get` raises an AttributeError.
abbrev pub initialise : Value → Action OidcCache (Unit {0})
initialise (Value.dict config) s = (ok tt, initialised config s)
initialise config s = (raised Exn.unhandled, record s { config = some config })

abbrev pub fetched : Discovery → Action OidcCache (Unit {0})
fetched http_error s = (raised (http 503 identity_provider_unavailable), s)
fetched other_error s = (raised Exn.unhandled, s)
fetched (document config) s = initialise config s

-- `get_oidc_config`, whose result the parser does not use
unfoldable pub get_oidc_config : Discovery → Action OidcCache (Unit {0})
get_oidc_config d s = if is_cached s.config then (ok tt, s) else fetched d s

-- What `jwt.decode` does with the signing key of the token.
pub data Decoding : Type 0 where
  payload : Fields → Decoding
  expired_signature invalid_token_error any_other : Decoding

abbrev is_space : Char → Bool
is_space c = code c == 32

abbrev before_space : String → String
before_space text_nil = text_nil
before_space (text_cons c s) =
    let rest = before_space s in if is_space c then text_nil else text_cons c rest

-- `authorization.split(" ")[1]`, of a text with a space in it
abbrev pub second_word : String → String
second_word text_nil = text_nil
second_word (text_cons c s) =
    let rest = second_word s in if is_space c then before_space s else rest

module _ (uuid : String → Option ℕ) (uuid5 : String → ℕ) where
  abbrev or_hashed : Option ℕ → String → ℕ
  or_hashed (some n) raw = n
  or_hashed none raw = uuid5 raw

  -- `UUID(raw_oid)`, which raises an AttributeError for what is no text; an oid that is false raises
  abbrev pub oid_of : Value → Option ℕ
  oid_of (Value.str raw) = if str_eq raw "" then none else some (or_hashed (uuid raw) raw)
  oid_of _ = none

  -- `payload.get("oid") or payload.get("sub")`
  abbrev pub raw_oid : Fields → Value
  raw_oid p = if truthy (get "oid" p) then get "oid" p else get "sub" p

  abbrev add_group : Option ℕ → List ℕ → List ℕ
  add_group none gs = gs
  add_group (some g) gs = g ∷ gs

  abbrev also : String → Option (List ℕ) → Option (List ℕ)
  also s none = none
  also s (some gs) = some (add_group (uuid s) gs)

  abbrev pub group_uuids : Items → Option (List ℕ)
  group_uuids Items.nil = some []
  group_uuids (Items.cons (Value.str s) rest) = also s (group_uuids rest)
  group_uuids (Items.cons _ rest) = none

  abbrev key_uuids : Fields → List ℕ
  key_uuids Fields.end = []
  key_uuids (Fields.field k v rest) = add_group (uuid k) (key_uuids rest)

  -- The loop over the claim: a text is walked by its characters, of which none is a UUID, and a
  -- dictionary by its keys; a number or a null cannot be walked.
  abbrev pub groups_in : Value → Option (List ℕ)
  groups_in (Value.list gs) = group_uuids gs
  groups_in (Value.tuple gs) = group_uuids gs
  groups_in (Value.str s) = some []
  groups_in (Value.dict fs) = some (key_uuids fs)
  groups_in (Value.other repr) = none

  -- `payload.get("groups", [])`
  abbrev pub groups_of : Fields → Option (List ℕ)
  groups_of Fields.end = some []
  groups_of (Fields.field k v rest) = if str_eq k "groups" then groups_in v else groups_of rest

  abbrev pub name_of : Value → Option (Option String)
  name_of (Value.str s) = some (some s)
  name_of (Value.other repr) = if str_eq repr "None" then some none else none
  name_of _ = none

  -- The validation of an address by pydantic is a parameter too.
  module _ (valid_email : String → Option String) where
    abbrev pub email_of : Value → Option String
    email_of (Value.str s) = valid_email s
    email_of _ = none

    abbrev assemble :
        Option ℕ → Option String → Option (List ℕ) → Option (Option String) → Option UserIdentity
    assemble (some oid) (some email) (some groups) (some name) =
        some (record { oid = oid; email = email; groups = groups; full_name = name })
    assemble _ _ _ _ = none

    -- From the claims to the identity; `none` for whatever `except Exception` catches.
    unfoldable pub identity_of : Fields → Option UserIdentity
    identity_of p =
        assemble (oid_of (raw_oid p)) (email_of (get "email" p)) (groups_of p)
          (name_of (get "name" p))

    abbrev pub or_malformed : Option UserIdentity → Result UserIdentity
    or_malformed none = raised (http 401 malformed_claims)
    or_malformed (some u) = ok u

    abbrev pub judged : Decoding → Result UserIdentity
    judged (payload p) = or_malformed (identity_of p)
    judged expired_signature = raised (http 401 token_has_expired)
    judged invalid_token_error = raised (http 401 invalid_token)
    judged any_other = raised (http 401 malformed_claims)

    -- the client after `if _JWKS_CLIENT is None: await get_oidc_config()`
    abbrev pub ensure_client : Discovery → Action OidcCache (Unit {0})
    ensure_client d s = if s.jwks_client then (ok tt, s) else get_oidc_config d s

    -- `parse_and_validate_token`; `decode` is what the library does with a token.
    unfoldable pub parse_and_validate_token :
        Discovery → (String → Decoding) → String → Action OidcCache UserIdentity
    parse_and_validate_token d decode authorization = do
      raise_if (not (starts_with authorization "Bearer ")) (http 401 invalid_header)
      ensure_client d
      present ← gets (λ s. s.jwks_client)
      raise_if (not present) (http 503 authentication_unavailable)
      λ s. (judged (decode (second_word authorization)), s)
