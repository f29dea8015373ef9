-- ===== src/Interceptor.antt =====
-- src/coreason_adlc_api/routers/interceptor.py: POST /chat/completions, from the budget over the
-- model to the telemetry, with routers/schemas.py. litellm is a parameter, and so is pydantic's
-- validation of the response.
pub mod Handler
pub mod Texts
pub mod Order
pub mod Audit
mod Scenarios
use Prim.Native.Char.{char}
use Prim.Native.String.{[] as text_nil, ◌∷◌ as text_cons}
use coreason_adlc_api.Prelude.{
  ℕ, ◌+◌, ◌-◌, ◌/◌, String, Bool, true, false, Option, none, some, List, [], ◌∷◌, ◌++◌, leb,
  if◌then◌else◌,
}
use coreason_adlc_api.Prelude.Int.{ℤ, pos}
use coreason_adlc_api.Prelude.Text.{str_eq, text_append}
use coreason_adlc_api.Json.{Value, Items, Fields, truthy}
use coreason_adlc_api.Outcome.{
  Result, ok, raised, Exn, value_error, validation_error, scrubbing_failed,
}
use coreason_adlc_api.Identity.{UserIdentity}
use coreason_adlc_api.Budget.{Trip, budget_key, check_budget_guardrail}
use coreason_adlc_api.Budget.Interface.{Redis}
use coreason_adlc_api.Vault.{Codecs}
use coreason_adlc_api.Vault.Service.{Secrets}
use coreason_adlc_api.Proxy.{
  Registry, Inference, provider_of, Started, refused, calling, begin_inference, Ending,
  end_inference, CostInfo, estimate_sync, Completion,
}
use coreason_adlc_api.Pii.{Engine, not_installed, scrub_text}
use coreason_adlc_api.Telemetry.{Call}

pub record ChatMessage : Type 0 where
  pub role : String
  pub content : String
  pub name : Option String

-- `estimated_cost` of the client is not read.
pub record ChatCompletionRequest : Type 0 where
  pub model : String
  pub messages : List ChatMessage
  pub auc_id : String
  pub user_context : Option Fields
  pub estimated_cost : ℤ

abbrev pub name_field : Option String → Fields
name_field none = Fields.end
name_field (some name) = Fields.field "name" (Value.str name) Fields.end

-- `m.model_dump(exclude_none=True)`
abbrev pub model_dump : ChatMessage → Value
model_dump m = Value.dict (
    Fields.field "role" (Value.str m.role)
      (Fields.field "content" (Value.str m.content) (name_field m.name)))

abbrev pub dump_all : List ChatMessage → Items
dump_all [] = Items.nil
dump_all (m ∷ ms) = Items.cons (model_dump m) (dump_all ms)

-- `messages_dicts`
abbrev pub messages_of : ChatCompletionRequest → Value
messages_of q = Value.list (dump_all q.messages)

-- the texts of the messages with line breaks between them
unfoldable pub input_text_of : List ChatMessage → String
input_text_of [] = text_nil
input_text_of (m ∷ []) = m.content
input_text_of (m ∷ m' ∷ ms) =
    text_append m.content (text_cons (char 10 tt) (input_text_of (m' ∷ ms)))

-- What litellm says: tokens, costs and provider of a model, and what a response cost; `none` where
-- it raises.
pub record Litellm : Type 0 where
  pub token_counter : String → Value → Option ℕ
  pub model_cost : String → CostInfo
  pub llm_provider : String → Option String
  pub completion_cost : Value → Option ℕ

-- `d[key]` and `l[0]`; `none` for the KeyError, IndexError or TypeError
abbrev pub field_in : String → Fields → Option Value
field_in key Fields.end = none
field_in key (Fields.field k v rest) = if str_eq k key then some v else field_in key rest

abbrev pub at_key : String → Option Value → Option Value
at_key key (some (Value.dict fs)) = field_in key fs
at_key key _ = none

-- The first character of a text has no parts either.
abbrev pub at_first : Option Value → Option Value
at_first (some (Value.list (Items.cons v vs))) = some v
at_first (some (Value.tuple (Items.cons v vs))) = some v
at_first _ = none

abbrev pub or_empty : Option Value → Value
or_empty none = Value.str ""
or_empty (some v) = v

-- response["choices"][0]["message"]["content"]
unfoldable pub response_content : Value → Value
response_content response =
    or_empty (at_key "content" (at_key "message" (at_first (at_key "choices" (some response)))))

-- A truthy payload that is no text: the analyzer takes a text only, and raises.
abbrev pub scrub_other : Engine → Result String
scrub_other not_installed = ok "<REDACTED: PII ANALYZER MISSING>"
scrub_other _ = raised (value_error scrubbing_failed)

-- `await scrub_pii_payload(v) or ""`
unfoldable pub scrub_or_empty : Engine → Value → Result String
scrub_or_empty g (Value.str text) = scrub_text g text
scrub_or_empty g v = if truthy v then scrub_other g else ok ""

-- A background task: the arguments of `async_log_telemetry`, which reads the clock when it runs.
pub record Task : Type 0 where
  pub user_id : ℕ
  pub auc_id : String
  pub model_name : String
  pub input_text : String
  pub output_text : String
  pub metadata : Fields

abbrev pub call_of : Task → String → Call
call_of t timestamp = record {
  user_id = some t.user_id;
  auc_id = some t.auc_id;
  model_name = t.model_name;
  input_text = t.input_text;
  output_text = t.output_text;
  metadata = t.metadata;
  timestamp = timestamp;
}
