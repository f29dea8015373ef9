-- ===== src/Telemetry.antt =====
-- src/coreason_adlc_api/middleware/telemetry.py and telemetry/worker.py: calls are logged to a list
-- in Redis, from which a worker writes rows of telemetry.telemetry_logs. JSON texts, as bytes in
-- Redis, and the texts of UUIDs are parameters.
pub mod Interface
pub mod Worker
pub mod Delivery
pub mod Arrival
pub mod Samples
mod Scenarios
use coreason_adlc_api.Prelude.{
  ℕ, String, Bool, true, false, Option, none, some, List, [], ◌∷◌, ◌++◌, if◌then◌else◌,
}
use coreason_adlc_api.Prelude.Text.{str_eq}
use coreason_adlc_api.Json.{Value, Fields, truthy, get}
use coreason_adlc_api.Telemetry.Interface.{Messages}

-- The arguments of `async_log_telemetry`, with the clock that it reads.
pub record Call : Type 0 where
  pub user_id : Option ℕ
  pub auc_id : Option String
  pub model_name : String
  pub input_text : String
  pub output_text : String
  pub metadata : Fields
  pub timestamp : String

-- How the `rpush` ends: done, or with an error, before the entry is there or after.
pub data Push : Type 0 where
  pushed : Push
  push_failed : Bool → Push

-- `d.get(key, default)`
abbrev pub get_or : Value → String → Fields → Value
get_or default key Fields.end = default
get_or default key (Fields.field k v rest) = if str_eq k key then v else get_or default key rest

abbrev pub text_or_null : Option String → Value
text_or_null none = Value.other "None"
text_or_null (some s) = Value.str s

module _ (m : Messages) where
  open m use {Data, dumps, loads, is_empty, uuid_text, uuid}

  abbrev pub uuid_or_null : Option ℕ → Value
  uuid_or_null none = Value.other "None"
  uuid_or_null (some id) = Value.str (uuid_text id)

  abbrev pub payload_of : Call → Fields
  payload_of c = Fields.field "user_uuid" (uuid_or_null c.user_id) (
      Fields.field "auc_id" (text_or_null c.auc_id) (
        Fields.field "model_name" (Value.str c.model_name) (
          Fields.field "request_payload" (Value.str c.input_text) (
            Fields.field "response_payload" (Value.str c.output_text) (
              Fields.field "cost_usd" (get_or (Value.other "0.0") "cost_usd" c.metadata) (
                Fields.field "latency_ms" (get_or (Value.other "0") "latency_ms" c.metadata)
                  (Fields.field "timestamp" (Value.str c.timestamp) Fields.end)))))))

  abbrev pub push : Push → Data → List Data → List Data
  push pushed d queue = queue ++ (d ∷ [])
  push (push_failed there) d queue = if there then queue ++ (d ∷ []) else queue

  -- `async_log_telemetry`: no error leaves it.
  unfoldable pub async_log_telemetry : Push → Call → List Data → List Data
  async_log_telemetry p c queue = push p (dumps (Value.dict (payload_of c))) queue
