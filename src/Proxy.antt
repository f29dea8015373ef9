-- ===== src/Proxy.antt =====
-- src/coreason_adlc_api/middleware/proxy.py: the calls of a model upstream. litellm is a parameter:
-- what it says of a model, and how its completion ends. A request is two steps, `begin_inference` up
-- to the await of the completion and `end_inference` from its end on, since other requests run in
-- between. Amounts are in 10⁻¹² dollars.
pub mod Registry
pub mod Keys
mod Scenarios
use Prim.Native.Char.{Char, code}
use Prim.Native.String.{[] as text_nil, ◌∷◌ as text_cons}
use coreason_adlc_api.Prelude.{
  ℕ, ◌+◌, ◌*◌, String, Bool, true, false, ◌||◌, Option, none, some, List, [], ◌∷◌, ◌==◌,
  if◌then◌else◌,
}
use coreason_adlc_api.Prelude.Text.{str_eq}
use coreason_adlc_api.Json.{Value, Fields}
use coreason_adlc_api.Outcome.{
  Result, ok, raised, Exn, http, no_api_key_for, vault_access_failed, upstream_unstable, text_of,
}
use coreason_adlc_api.Breaker.{AsyncCircuitBreaker, new, aenter, aexit}
use coreason_adlc_api.Vault.{Bytes, Codecs, load_key, decrypt_secret}
use coreason_adlc_api.Vault.Service.{SecretRow, Secrets, find_secret}

-- `_breakers`
abbrev pub Registry : Type 0
Registry = List (String × AsyncCircuitBreaker)

-- AsyncCircuitBreaker(fail_max=5, reset_timeout=60), in microseconds, with the default window
abbrev pub new_breaker : AsyncCircuitBreaker
new_breaker = new 5 60000000 10000000

-- `get_circuit_breaker`: the breaker of the provider, and what the registry then holds
unfoldable pub get_circuit_breaker : String → Registry → AsyncCircuitBreaker × Registry
get_circuit_breaker provider [] = (new_breaker, (provider, new_breaker) ∷ [])
get_circuit_breaker provider (e ∷ es) =
    let (b, es') = get_circuit_breaker provider es in
    if str_eq e.0 provider then (e.1, e ∷ es) else (b, e ∷ es')

-- The registry holds objects: what a breaker becomes, its entry becomes.
unfoldable pub mutate : String → AsyncCircuitBreaker → Registry → Registry
mutate provider b [] = []
mutate provider b (e ∷ es) =
    let rest = mutate provider b es in if str_eq e.0 provider then (e.0, b) ∷ es else e ∷ rest

abbrev is_slash : Char → Bool
is_slash c = code c == 47

-- `"/" in model`
abbrev has_slash : String → Bool
has_slash text_nil = false
has_slash (text_cons c s) = is_slash c || has_slash s

-- `model.split("/")[0]`
abbrev before_slash : String → String
before_slash text_nil = text_nil
before_slash (text_cons c s) =
    let rest = before_slash s in if is_slash c then text_nil else text_cons c rest

-- `get_provider_for_model`; the first argument is what litellm answers, `none` if it raises.
unfoldable pub get_provider_for_model : Option String → String → String
get_provider_for_model (some provider) model = provider
get_provider_for_model none model = if has_slash model then before_slash model else "openai"

-- `except Exception`, whatever the vault raises
abbrev pub vault_failure : Result String → Result String
vault_failure (ok key) = ok key
vault_failure (raised e) = raised (http 500 vault_access_failed)

module _ (c : Codecs) (setting : String) where
  abbrev pub opened : Result Bytes → String → Result String
  opened (ok key) encrypted = decrypt_secret c key encrypted
  opened (raised e) encrypted = raised e

  abbrev pub key_of_row : String → Option SecretRow → Result String
  key_of_row provider none = raised (http 404 (no_api_key_for provider))
  key_of_row provider (some r) = vault_failure (opened (load_key c none setting) r.encrypted_value)

  -- `get_api_key_for_model`, at the provider of the model
  unfoldable pub get_api_key : String → String → Secrets → Result String
  get_api_key auc_id provider t = key_of_row provider (find_secret auc_id provider t)

-- The arguments of the completion that are not fixed; the temperature always is 0.
pub record Completion : Type 0 where
  pub model : String
  pub messages : Value
  pub seed : Value
  pub api_key : String

-- `user_context.get("seed", 42) if user_context else 42`
abbrev seed_in : Fields → Value
seed_in Fields.end = Value.other "42"
seed_in (Fields.field k v rest) = if str_eq k "seed" then v else seed_in rest

abbrev pub seed_of : Option Fields → Value
seed_of none = Value.other "42"
seed_of (some context) = seed_in context

-- What `execute_inference` is called with; `known` is what litellm says of the provider.
pub record Inference : Type 0 where
  pub messages : Value
  pub model : String
  pub auc_id : String
  pub user_context : Option Fields
  pub known : Option String

abbrev pub provider_of : Inference → String
provider_of q = get_provider_for_model q.known q.model

-- How the first step ends: with the exception of the request, or in the call upstream.
pub data Started : Type 0 where
  refused : Exn → Started
  calling : Completion → Started

abbrev completion : Inference → String → Completion
completion q key = record {
  model = q.model;
  messages = q.messages;
  seed = seed_of q.user_context;
  api_key = key;
}

abbrev pub entered : Inference → String → Registry → Option AsyncCircuitBreaker → Started × Registry
entered q key reg none = (refused (http 503 upstream_unstable), reg)
entered q key reg (some b) = (calling (completion q key), mutate (provider_of q) b reg)

-- from `get_circuit_breaker` on, with the key
abbrev pub enter_breaker : Inference → String → ℕ → Registry → Started × Registry
enter_breaker q key now reg =
    let (b, reg') = get_circuit_breaker (provider_of q) reg in entered q key reg' (aenter now b)

abbrev pub with_key : Inference → ℕ → Result String → Registry → Started × Registry
with_key q now (ok key) reg = enter_breaker q key now reg
with_key q now (raised e) reg = (refused e, reg)

-- The exceptions of `get_api_key_for_model` are HTTP ones, which are raised again as they are.
unfoldable pub begin_inference :
    Codecs → String → Secrets → Inference → ℕ → Registry → Started × Registry
begin_inference c setting t q now reg =
    with_key q now (get_api_key c setting q.auc_id (provider_of q) t) reg

-- How the completion ends: with a response, with an exception of this text, or by the
-- cancellation of the task, which is no `Exception`.
pub data Ending : Type 0 where
  responded : Value → Ending
  failed : String → Ending
  cancelled : Ending

abbrev pub has_failed : Ending → Bool
has_failed (responded v) = false
has_failed _ = true

abbrev pub answer_of : Ending → Result Value
answer_of (responded v) = ok v
answer_of (failed text) = raised (http 500 (text_of text))
answer_of cancelled = raised Exn.unhandled

-- The registry still holds the breaker that was entered: entries are never taken out.
unfoldable pub end_inference : String → Ending → ℕ → Registry → Result Value × Registry
end_inference provider e now reg =
    let (b, reg') = get_circuit_breaker provider reg in
    (answer_of e, mutate provider (aexit (has_failed e) now b) reg')

-- What litellm's table says of a model: nothing (or an empty entry), or its costs, `none` for one
-- that is no number; a cost that is not there is 0.
abbrev pub CostInfo : Type 0
CostInfo = Option (Option ℕ × Option ℕ)

abbrev pub costs : CostInfo → ℕ × ℕ
costs (some (some input, some output)) = (input, output)
costs _ = (500000, 1500000)

-- `_estimate_sync`; `none` for the tokens is a counter that raises.
unfoldable pub estimate_sync : Option ℕ → CostInfo → ℕ
estimate_sync none info = 10000000000
estimate_sync (some tokens) info = tokens * (costs info).0 + 500 * (costs info).1
