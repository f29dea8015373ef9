-- ===== src/Proxy/Scenarios.antt =====
-- Runs of the proxy.
use coreason_adlc_api.Prelude.{◌≡◌, refl, String, none, List, [], ◌∷◌}
use coreason_adlc_api.Json.{Value}
use coreason_adlc_api.Breaker.Trace.{run}
use coreason_adlc_api.Vault.{load_key, encrypt_secret}
use coreason_adlc_api.Vault.Samples.{codecs, fresh, zeros, unary, to_text}
use coreason_adlc_api.Vault.Service.{
  answered, store_secret, store_encrypted, insert_secret, upsert_secret, find_secret,
}
use coreason_adlc_api.Proxy.{
  Inference, get_provider_for_model, provider_of, begin_inference, responded, failed,
}
use coreason_adlc_api.Proxy.Registry.{Event, begun, ended, serve, seen_by, serve_lem, breaker_of}
use coreason_adlc_api.Proxy.Keys.{Carries, begin_inference-store_secret}

abbrev chat : String → Inference
chat model = record {
  messages = Value.str "hello";
  model = model;
  auc_id = "acme";
  user_context = none;
  known = none;
}

-- The part before the slash is the provider; without one it is openai.
providers :
    (get_provider_for_model none "azure/gpt-4" ≡ "azure")
    × (get_provider_for_model none "gpt-4" ≡ "openai")
unfolding get_provider_for_model
providers = (refl, refl)

begin_inference-store_secret_example :
    Carries codecs "00"
      (zeros 32)
      (chat "gpt-4")
      "sk-one"
      (begin_inference codecs "00"
        (store_secret codecs
          (zeros 32)
          answered
          (fresh 1)
          "acme"
          (provider_of (chat "gpt-4"))
          "sk-one"
          1
          []).1
        (chat "gpt-4")
        5
        []).0
unfolding load_key store_secret store_encrypted insert_secret upsert_secret find_secret
    encrypt_secret to_text unary get_provider_for_model
begin_inference-store_secret_example =
    begin_inference-store_secret codecs "00" (zeros 32) answered (fresh 1) "sk-one" 1 1 []
      (chat "gpt-4") 5 [] refl refl refl

abbrev events : List Event
events =
    begun (chat "azure/gpt-4") 1
    ∷ ended "azure" (failed "timeout") 2
    ∷ ended "openai" (responded (Value.str "hi")) 3
    ∷ []

serve_lem_example :
    breaker_of "azure" (serve codecs "00" [] events [])
    ≡ run (breaker_of "azure" []) (seen_by codecs "00" [] "azure" events)
serve_lem_example = serve_lem codecs "00" [] "azure" events []
