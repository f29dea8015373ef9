-- ===== src/Telemetry/Worker.antt =====
-- src/coreason_adlc_api/telemetry/worker.py: the loop that moves entries from the list to the table,
-- as one step for each thing that happens to it.
use coreason_adlc_api.Prelude.{
  ℕ, Bool, true, false, ◌&&◌, Option, none, some, List, [], ◌∷◌, ◌++◌, if◌then◌else◌,
}
use coreason_adlc_api.Json.{Value, Fields, truthy, get}
use coreason_adlc_api.Telemetry.Interface.{Messages}

-- How the `execute` ends if its arguments can be encoded: with the row, with an exception, or by the
-- cancellation of the task; a row may be there in spite of these.
pub data Execution : Type 0 where
  stored : Execution
  failed : Bool → Execution
  stopped : Bool → Execution

module _ (m : Messages) where
  open m use {Data, dumps, loads, is_empty, uuid, takes_timestamp}

  -- The arguments of the INSERT, in the order of its columns.
  pub record LogRow : Type 0 where
    pub user_uuid : Option ℕ
    pub auc_id : Value
    pub model_name : Value
    pub request_payload : Data
    pub response_payload : Data
    pub cost_usd : Value
    pub latency_ms : Value
    pub timestamp : Value

  -- What happens: an entry comes into the list, or at the worker, `blpop` times out, answers, or
  -- fails, with the entry lost or not, or the task is cancelled while it waits.
  pub data Event : Type 0 where
    arrived : Data → Event
    timed_out : Event
    popped : Execution → Event
    pop_failed : Bool → Event
    cancelled : Event

  pub record State : Type 0 where
    pub queue : List Data
    pub logs : List LogRow
    pub running : Bool

  abbrev pub parsed_uuid : Option ℕ → Option (Option ℕ)
  parsed_uuid none = none
  parsed_uuid (some id) = some (some id)

  abbrev pub uuid_of_text : Value → Option (Option ℕ)
  uuid_of_text (Value.str s) = parsed_uuid (uuid s)
  uuid_of_text _ = none

  -- UUID(payload["user_uuid"]) if payload.get("user_uuid") else None; `none` where it raises
  abbrev pub uuid_in : Value → Option (Option ℕ)
  uuid_in v = if truthy v then uuid_of_text v else some none

  abbrev pub row_with : Fields → Option (Option ℕ) → Option LogRow
  row_with p none = none
  row_with p (some user_uuid) = some (record {
    user_uuid = user_uuid;
    auc_id = get "auc_id" p;
    model_name = get "model_name" p;
    request_payload = dumps (get "request_payload" p);
    response_payload = dumps (get "response_payload" p);
    cost_usd = get "cost_usd" p;
    latency_ms = get "latency_ms" p;
    timestamp = get "timestamp" p;
  })

  abbrev pub row_of_json : Option Value → Option LogRow
  row_of_json (some (Value.dict p)) = row_with p (uuid_in (get "user_uuid" p))
  row_of_json _ = none

  -- `none` for an entry that raises before the INSERT
  unfoldable pub row_of : Data → Option LogRow
  row_of d = row_of_json (loads d)

  -- Where the driver does not take the timestamp, the `execute` raises before it sends the row.
  abbrev pub add_if : Bool → LogRow → State → State
  add_if there row s = record s {
    logs = if takes_timestamp row.timestamp && there then s.logs ++ (row ∷ []) else s.logs;
  }

  abbrev pub insert : Execution → Option LogRow → State → State
  insert x none s = s
  insert stored (some row) s = add_if true row s
  insert (failed there) (some row) s = add_if there row s
  insert (stopped there) (some row) s = record (add_if there row s) { running = false }

  -- `if not data: continue`
  abbrev pub process : Execution → Data → State → State
  process x d s = if is_empty d then s else insert x (row_of d) s

  -- BLPOP on an empty list comes to a time-out.
  abbrev pub take_entry : Execution → List Data → State → State
  take_entry x [] s = s
  take_entry x (d ∷ ds) s = process x d (record s { queue = ds })

  abbrev pub lose : Bool → List Data → State → State
  lose true (d ∷ ds) s = record s { queue = ds }
  lose _ _ s = s

  abbrev pub round : Event → State → State
  round (arrived d) s = s
  round timed_out s = s
  round (popped x) s = take_entry x s.queue s
  round (pop_failed lost) s = lose lost s.queue s
  round cancelled s = record s { running = false }

  -- Entries come whether the worker runs or not.
  unfoldable pub step : Event → State → State
  step (arrived d) s = record s { queue = s.queue ++ (d ∷ []) }
  step e s = if s.running then round e s else s

  -- `telemetry_worker`
  unfoldable pub telemetry_worker : List Event → State → State
  telemetry_worker [] s = s
  telemetry_worker (e ∷ es) s = telemetry_worker es (step e s)
