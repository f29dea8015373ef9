-- ===== src/Interceptor/Handler.antt =====
-- src/coreason_adlc_api/routers/interceptor.py: chat_completions. It is two steps around the await of
-- the model; what other requests do meanwhile is an argument. Before that await the code touches
-- Redis, the vault and the breakers once each, so that part is one step.
use coreason_adlc_api.Prelude.{
  ℕ, zero, suc, ◌-◌, ◌/◌, String, Bool, Option, none, some, List, [], ◌∷◌, ◌++◌, leb, if◌then◌else◌,
}
use coreason_adlc_api.Prelude.Int.{ℤ, pos, negsuc}
use coreason_adlc_api.Json.{Value, Fields}
use coreason_adlc_api.Outcome.{Result, ok, raised, validation_error}
use coreason_adlc_api.Identity.{UserIdentity}
use coreason_adlc_api.Budget.{Trip, budget_key, check_budget_guardrail}
use coreason_adlc_api.Budget.Interface.{Redis}
use coreason_adlc_api.Vault.{Codecs}
use coreason_adlc_api.Vault.Service.{Secrets}
use coreason_adlc_api.Proxy.{
  Registry, Inference, provider_of, Completion, Started, refused, calling, begin_inference, Ending,
  end_inference, estimate_sync,
}
use coreason_adlc_api.Pii.{Engine}
use coreason_adlc_api.Interceptor.{
  ChatCompletionRequest, messages_of, input_text_of, Litellm, response_content, scrub_or_empty,
  Task,
}

abbrev pub negated : ℕ → ℤ
negated zero = pos 0
negated (suc n) = negsuc n

-- int((time.time() - start_time) * 1000), of times in microseconds; the clock may go back.
abbrev pub latency : ℕ → ℕ → ℤ
latency start now =
    if leb start now then pos ((now - start) / 1000) else negated ((start - now) / 1000)

abbrev pub cost_or : ℕ → Option ℕ → ℕ
cost_or estimated none = estimated
cost_or estimated (some cost) = cost

-- Settings, libraries and the services that one server has.
pub record Server : Type 1 where
  pub redis : Redis
  pub codecs : Codecs
  pub encryption_key : String
  pub limit : ℕ
  pub uuid_text : ℕ → String
  pub engine : Engine
  pub litellm : Litellm
  pub float_repr : ℕ → String
  pub int_repr : ℤ → String
  -- ChatCompletionResponse(**response); `none` for a ValidationError
  pub response_model : Value → Option Value

-- One request with what it meets: the day, the connection to Redis, the rows of the vault, the
-- readings of the clock, and how the completion ends.
pub record Arrived : Type 0 where
  pub request : ChatCompletionRequest
  pub user : UserIdentity
  pub today : String
  pub trip : Trip
  pub secrets : Secrets
  pub start_time : ℕ
  pub entered_at : ℕ
  pub left_at : ℕ
  pub end_time : ℕ
  pub ending : Ending

module _ (v : Server) where
  -- The state that requests share; `sent` is what went to the model, and `tasks` the background
  -- tasks, which FastAPI runs after a response.
  pub record State : Type 0 where
    pub store : v.redis.Store
    pub registry : Registry
    pub sent : List Completion
    pub tasks : List Task

  abbrev pub estimate : ChatCompletionRequest → ℕ
  estimate q =
      estimate_sync (v.litellm.token_counter q.model (messages_of q)) (v.litellm.model_cost q.model)

  abbrev pub guardrail : Arrived → State → Result Bool × v.redis.Store
  guardrail a s =
      check_budget_guardrail v.redis a.trip (budget_key v.redis v.uuid_text a.today a.user.oid)
        (pos (estimate a.request)) v.limit s.store

  abbrev pub inference : ChatCompletionRequest → Inference
  inference q = record {
    messages = messages_of q;
    model = q.model;
    auc_id = q.auc_id;
    user_context = q.user_context;
    known = v.litellm.llm_provider q.model;
  }

  abbrev pub sending : Started × Registry → State → Started × State
  sending (refused e, reg) s = (refused e, record s { registry = reg })
  sending (calling k, reg) s = (calling k, record s { registry = reg; sent = s.sent ++ (k ∷ []) })

  abbrev pub proxied : Arrived → Result Bool × v.redis.Store → State → Started × State
  proxied a (raised e, store) s = (refused e, record s { store = store })
  proxied a (ok allowed, store) s =
      sending
        (begin_inference v.codecs v.encryption_key a.secrets (inference a.request) a.entered_at
          s.registry)
        (record s { store = store })

  -- up to the await of the completion
  unfoldable pub begin_completion : Arrived → State → Started × State
  begin_completion a s = proxied a (guardrail a s) s

  abbrev pub metadata_of : Arrived → Value → Fields
  metadata_of a response =
      Fields.field "cost_usd"
        (Value.other
          (v.float_repr (cost_or (estimate a.request) (v.litellm.completion_cost response))))
        (Fields.field "latency_ms" (Value.other (v.int_repr (latency a.start_time a.end_time)))
          Fields.end)

  abbrev pub task_of : Arrived → Value → String → String → Task
  task_of a response input output = record {
    user_id = a.user.oid;
    auc_id = a.request.auc_id;
    model_name = a.request.model;
    input_text = input;
    output_text = output;
    metadata = metadata_of a response;
  }

  abbrev pub answer : Option Value → Result Value
  answer none = raised validation_error
  answer (some response) = ok response

  abbrev pub logged : Arrived → Value → Result String → Result String → State → Result Value × State
  logged a response (raised e) output s = (raised e, s)
  logged a response (ok input) (raised e) s = (raised e, s)
  logged a response (ok input) (ok output) s = (
    answer (v.response_model response),
    record s { tasks = s.tasks ++ (task_of a response input output ∷ []) },
  )

  abbrev pub respond : Arrived → Result Value → State → Result Value × State
  respond a (raised e) s = (raised e, s)
  respond a (ok response) s =
      logged a response (scrub_or_empty v.engine (Value.str (input_text_of a.request.messages)))
        (scrub_or_empty v.engine (response_content response)) s

  abbrev pub ended : Arrived → Result Value × Registry → State → Result Value × State
  ended a (result, reg) s = respond a result (record s { registry = reg })

  -- from the end of the completion on
  unfoldable pub end_completion : Arrived → State → Result Value × State
  end_completion a s =
      ended a (end_inference (provider_of (inference a.request)) a.ending a.left_at s.registry) s

  abbrev pub awaited : Arrived → (State → State) → Started × State → Result Value × State
  awaited a meanwhile (refused e, s) = (raised e, s)
  awaited a meanwhile (calling k, s) = end_completion a (meanwhile s)

  -- `chat_completions`
  unfoldable pub chat_completions : Arrived → (State → State) → State → Result Value × State
  chat_completions a meanwhile s = awaited a meanwhile (begin_completion a s)
