-- ===== src/Interceptor/Audit.antt =====
-- Over several components: what a request leaves in the list of the telemetry, and whose key it uses.
use coreason_adlc_api.Prelude.{ℕ, ◌≡◌, refl, sym, subst, String, Bool, none, some, length}
use coreason_adlc_api.Json.{Value, Fields}
use coreason_adlc_api.Outcome.{ok}
use coreason_adlc_api.Vault.{Bytes, load_key}
use coreason_adlc_api.Vault.Service.{Secrets, Insert, Fresh, store_secret}
use coreason_adlc_api.Proxy.{Registry, provider_of, Started, refused, calling, begin_inference}
use coreason_adlc_api.Proxy.Keys.{Carries, begin_inference-store_secret}
use coreason_adlc_api.Pii.{scrub_text}
use coreason_adlc_api.Telemetry.Interface.{Messages}
use coreason_adlc_api.Interceptor.Texts.{IsInput, IsReply, IsScrubbed}
use coreason_adlc_api.Interceptor.Handler.{
  Server, Arrived, State, guardrail, inference, sending, proxied, begin_completion,
}

module _ (v : Server) (a : Arrived) where
  sending_first : (out : Started × Registry) (s : State v) → (sending v out s).0 ≡ out.0
  sending_first (refused e, reg) s = refl
  sending_first (calling k, reg) s = refl

  -- Whoever the user is, also one whose groups do not open the project: if the guardrail admits the
  -- request, and the vault holds a secret that was stored for the project and the provider of the
  -- request under the key of the server, then the request ends in a 503 or goes to the model with
  -- that secret.
  pub begin_completion-store_secret :
      (i : Insert) (f : Fresh) (key : Bytes) (k : String) (u id : ℕ) (t : Secrets) (b : Bool)
      (s : State v)
      → load_key v.codecs none v.encryption_key ≡ ok key
      → length f.nonce ≡ 12
      → (store_secret v.codecs key i f a.request.auc_id
          (provider_of (inference v a.request))
          k
          u
          t).0
        ≡ ok id
      → a.secrets
        ≡ (store_secret v.codecs key i f a.request.auc_id
            (provider_of (inference v a.request))
            k
            u
            t).1
      → (guardrail v a s).0 ≡ ok b
      → Carries v.codecs v.encryption_key key (inference v a.request) k (begin_completion v a s).0
  unfolding begin_completion
  begin_completion-store_secret i f key k u id t b s loaded nonce stored_ there admitted =
      let q = inference v a.request in
      let begun = λ (secrets : Secrets).
        begin_inference v.codecs v.encryption_key secrets q a.entered_at s.registry in
      let C = Carries v.codecs v.encryption_key key q k in
      let carries : C (begun a.secrets).0 =
        subst (λ x. C (begun x).0) (sym there)
          (begin_inference-store_secret v.codecs v.encryption_key key i f k u id t q a.entered_at
            s.registry loaded nonce stored_) in
      let sent = record s { store = (guardrail v a s).1 } in
      subst (λ r. C (proxied v a (r, (guardrail v a s).1) s).0) (sym admitted)
        (subst C (sym (sending_first (begun a.secrets) sent)) carries)

  module _ (m : Messages) where
    open m use {Data, loads, uuid_text}

    -- What is read back from the entry is an object with who asked for what, of the texts only what
    -- the scrubber made of them, two numbers, and the time; and nothing else.
    abbrev pub IsAudit : Value → String → Data → Type 0
    IsAudit response timestamp d =
        (input : String) × (output : String) × (cost : String) × (latency : String)
        × ((text : String) × IsInput a.request.messages text
            × (scrub_text v.engine text ≡ ok input))
        × ((content : Value) × IsReply response content × IsScrubbed v.engine content output)
        × (loads d
            ≡ some (
                Value.dict (
                  Fields.field "user_uuid" (Value.str (uuid_text a.user.oid)) (
                    Fields.field "auc_id" (Value.str a.request.auc_id) (
                      Fields.field "model_name" (Value.str a.request.model) (
                        Fields.field "request_payload" (Value.str input) (
                          Fields.field "response_payload" (Value.str output) (
                            Fields.field "cost_usd" (Value.other cost) (
                              Fields.field "latency_ms" (Value.other latency)
                                (Fields.field "timestamp" (Value.str timestamp) Fields.end))))))))))
