-- ===== src/Interceptor/Scenarios.antt =====
-- One request for a completion.
use coreason_adlc_api.Prelude.{refl, true, none, some, [], ◌∷◌}
use coreason_adlc_api.Prelude.Int.{pos}
use coreason_adlc_api.Json.{Value, Items, Fields}
use coreason_adlc_api.Budget.{answered, budget_lua_script, check_budget_guardrail, evaluate}
use coreason_adlc_api.Budget.Samples.{redis, empty, limit, text_of}
use coreason_adlc_api.Vault.{load_key, encrypt_secret}
use coreason_adlc_api.Vault.Samples.{codecs, fresh, zeros, unary, to_text}
use coreason_adlc_api.Vault.Service.{
  Secrets, answered as inserted, store_secret, store_encrypted, insert_secret, upsert_secret,
  find_secret,
}
use coreason_adlc_api.Proxy.{get_provider_for_model, estimate_sync, responded}
use coreason_adlc_api.Proxy.Keys.{Carries}
use coreason_adlc_api.Pii.{found, engine}
use coreason_adlc_api.Telemetry.Samples.{messages}
use coreason_adlc_api.Interceptor.Handler.{Server, Arrived, State, inference, begin_completion}
use coreason_adlc_api.Interceptor.Audit.{begin_completion-store_secret}

abbrev server : Server
server = record {
  redis = redis;
  codecs = codecs;
  encryption_key = "00";
  limit = limit;
  uuid_text = text_of;
  engine = engine (λ text. found (record { start = 0; end_ = 3; entity_type = "PERSON" } ∷ []));
  litellm = record {
    token_counter = λ model ms. some 12;
    model_cost = λ model. none;
    llm_provider = λ model. none;
    completion_cost = λ response. none;
  };
  float_repr = λ cost. "0.000756";
  int_repr = λ n. "31";
  response_model = λ response. some response;
}

abbrev response : Value
response = Value.dict (
    Fields.field "choices"
      (Value.list (
        Items.cons
          (Value.dict (
            Fields.field "message"
              (Value.dict (Fields.field "content" (Value.str "Eve, hi") Fields.end)) Fields.end))
          Items.nil))
      Fields.end)

abbrev secrets : Secrets
secrets = (store_secret codecs (zeros 32) inserted (fresh 1) "acme" "openai" "sk-one" 1 []).1

-- The user is in no group.
abbrev asked : Arrived
asked = record {
  request = record {
    model = "gpt-4";
    messages = record { role = "user"; content = "Bob here"; name = none } ∷ [];
    auc_id = "acme";
    user_context = none;
    estimated_cost = pos 0;
  };
  user = record { oid = 7; email = "a@b.c"; groups = []; full_name = none };
  today = "2026-01-01";
  trip = answered;
  secrets = secrets;
  start_time = 1000;
  entered_at = 2000;
  left_at = 30000;
  end_time = 32000;
  ending = responded response;
}

abbrev idle : State server
idle = record { store = empty; registry = []; sent = []; tasks = [] }

abbrev nobody : State server → State server
nobody s = s

begin_completion-store_secret_example :
    Carries codecs "00"
      (zeros 32)
      (inference server asked.request)
      "sk-one"
      (begin_completion server asked idle).0
unfolding load_key store_secret store_encrypted insert_secret upsert_secret find_secret
    encrypt_secret to_text unary get_provider_for_model check_budget_guardrail evaluate
    budget_lua_script estimate_sync
begin_completion-store_secret_example =
    begin_completion-store_secret server asked inserted (fresh 1) (zeros 32) "sk-one" 1 1 [] true
      idle refl refl refl refl refl
