-- ===== src/Interceptor/Order.antt =====
-- The order of the interceptor: no call of the model without the budget, and nothing in the telemetry
-- but scrubbed texts.
use coreason_adlc_api.Prelude.{◌≡◌, ◌⊎◌, String, Bool, List, [], ◌∷◌, ◌++◌}
use coreason_adlc_api.Json.{Value, Items, Fields, get}
use coreason_adlc_api.Outcome.{Result, ok, raised, Exn}
use coreason_adlc_api.Proxy.{Inference, Completion, Started, refused, calling, responded}
use coreason_adlc_api.Pii.{scrub_text}
use coreason_adlc_api.Interceptor.{ChatMessage, Task}
use coreason_adlc_api.Interceptor.Texts.{IsInput, IsReply, IsScrubbed}
use coreason_adlc_api.Interceptor.Handler.{Server, Arrived, State, answer}

-- What is sent is for the model and with the messages of the request.
abbrev pub IsFor : Inference → Started → Type 0
IsFor q (refused e) = Unit
IsFor q (calling k) = (k.messages ≡ q.messages) × (k.model ≡ q.model)

-- The message as a dictionary.
abbrev pub IsMessage : ChatMessage → Value → Type 0
IsMessage m v =
    (fs : Fields) × (v ≡ Value.dict fs)
    × (get "role" fs ≡ Value.str m.role)
    × (get "content" fs ≡ Value.str m.content)

-- These messages, in order.
abbrev pub AreMessages : List ChatMessage → Items → Type 0
AreMessages [] Items.nil = Unit
AreMessages (m ∷ ms) (Items.cons v vs) = IsMessage m v × AreMessages ms vs
AreMessages _ _ = ⊥

module _ (v : Server) (a : Arrived) where
  -- The request ends before the model is called.
  abbrev pub EndsEarly : State v → Started × State v → Type 0
  EndsEarly s (started, s') =
      (e : Exn) × (started ≡ refused e) × (s'.sent ≡ s.sent) × (s'.tasks ≡ s.tasks)

  -- The guardrail has admitted the request, and the one call is on its way.
  abbrev pub CallsModel : Result Bool × v.redis.Store → State v → Started × State v → Type 0
  CallsModel (result, store) s (started, s') =
      (k : Completion) × (admitted : Bool) × (started ≡ calling k)
      × (result ≡ ok admitted)
      × (s'.store ≡ store)
      × (s'.sent ≡ s.sent ++ (k ∷ []))
      × (s'.tasks ≡ s.tasks)
      × ((vs : Items) × (k.messages ≡ Value.list vs) × AreMessages a.request.messages vs)
      × (k.model ≡ a.request.model)

  -- After the call: nothing more is sent or charged. Either the request fails without a trace in the
  -- telemetry, or one task is added, with the user, the project and the model of the request, a cost
  -- and a latency, whose texts are what the scrubber made of the messages of the request and of the
  -- response of the model.
  abbrev pub Logs : State v → Result Value × State v → Type 0
  Logs s (result, s') =
      (s'.sent ≡ s.sent)
      × (s'.store ≡ s.store)
      × (((e : Exn) × (result ≡ raised e) × (s'.tasks ≡ s.tasks))
          ⊎ ((response : Value) × (input : String) × (output : String) × (cost : String)
              × (latency : String) × (t : Task) × (a.ending ≡ responded response)
              × (result ≡ answer v (v.response_model response))
              × ((text : String) × IsInput a.request.messages text
                  × (scrub_text v.engine text ≡ ok input))
              × ((content : Value) × IsReply response content × IsScrubbed v.engine content output)
              × (s'.tasks ≡ s.tasks ++ (t ∷ []))
              × (t.user_id ≡ a.user.oid)
              × (t.auc_id ≡ a.request.auc_id)
              × (t.model_name ≡ a.request.model)
              × (t.input_text ≡ input)
              × (t.output_text ≡ output)
              × (t.metadata
                  ≡ Fields.field "cost_usd" (Value.other cost)
                      (Fields.field "latency_ms" (Value.other latency) Fields.end))))
