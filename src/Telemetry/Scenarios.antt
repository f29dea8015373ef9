-- ===== src/Telemetry/Scenarios.antt =====
-- Calls that are logged, and a worker that meets failures.
use coreason_adlc_api.Prelude.{ℕ, ◌≡◌, refl, true, false, some, List, [], ◌∷◌, All}
use coreason_adlc_api.Json.{Value, Fields}
use coreason_adlc_api.Telemetry.{Call, payload_of, async_log_telemetry}
use coreason_adlc_api.Telemetry.Samples.{messages}
use coreason_adlc_api.Telemetry.Worker.{
  stored, failed, stopped, Event, arrived, timed_out, popped, pop_failed, State, row_of, step,
  telemetry_worker,
}
use coreason_adlc_api.Telemetry.Delivery.{Moved, arrivals, telemetry_worker-Moved}
use coreason_adlc_api.Telemetry.Arrival.{IsLogged, telemetry_worker-async_log_telemetry}

abbrev metadata : Fields
metadata =
    Fields.field "cost_usd" (Value.other "0.25")
      (Fields.field "latency_ms" (Value.other "31") Fields.end)

abbrev call : ℕ → Call
call id = record {
  user_id = some id;
  auc_id = some "project-a";
  model_name = "gpt-4";
  input_text = "<REDACTED PERSON>";
  output_text = "hello";
  metadata = metadata;
  timestamp = "2026-01-01T00:00:00";
}

-- an entry that is no JSON object
abbrev poison : Value
poison = Value.other "3"

-- an entry that the table takes, for its timestamp is null
abbrev entry : Value
entry = Value.dict (Fields.field "model_name" (Value.str "gpt-4") Fields.end)

abbrev logged : ℕ → Value
logged id = Value.dict (payload_of messages (call id))

logged-IsLogged : (id : ℕ) → IsLogged messages (logged id)
unfolding async_log_telemetry
logged-IsLogged id = (call id, (tt, (tt, tt)), refl)

abbrev history : List (Event messages)
history = popped stored ∷ pop_failed false ∷ arrived (logged 2) ∷ popped stored ∷ timed_out ∷ []

abbrev on : List Value → State messages
on queue = record { queue = queue; logs = []; running = true }

telemetry_worker-async_log_telemetry_example :
    ((telemetry_worker messages history (on (logged 1 ∷ []))).logs ≡ [])
    × All (IsLogged messages) (telemetry_worker messages history (on (logged 1 ∷ []))).queue
telemetry_worker-async_log_telemetry_example =
    telemetry_worker-async_log_telemetry messages history (on (logged 1 ∷ []))
      (logged-IsLogged 1, tt) (logged-IsLogged 2, tt)

-- No statement fails, the list is emptied, and both entries are lost.
history_run : telemetry_worker messages history (on (logged 1 ∷ [])) ≡ on []
unfolding telemetry_worker step row_of
history_run = refl

abbrev troubles : List (Event messages)
troubles =
    popped (failed true)
    ∷ pop_failed true
    ∷ arrived entry
    ∷ popped stored
    ∷ popped (stopped false)
    ∷ arrived poison
    ∷ []

abbrev before : State messages
before = on (entry ∷ poison ∷ entry ∷ [])

-- Of the first four entries two are written, one of them in spite of its exception; one is lost by
-- the pop, and the last by the cancellation.
troubles_run : (telemetry_worker messages troubles before).queue ≡ poison ∷ []
unfolding telemetry_worker step row_of
troubles_run = refl

telemetry_worker-Moved_example :
    Moved messages before (telemetry_worker messages troubles before) (arrivals messages troubles)
telemetry_worker-Moved_example = telemetry_worker-Moved messages troubles before
