-- ===== src/Vault/Scenarios.antt =====
-- Writes of secrets with the sample libraries.
use coreason_adlc_api.Prelude.{ℕ, ◌≡◌, ◌≢◌, ◌⊎◌, refl, String, none, some, List, [], ◌∷◌}
use coreason_adlc_api.Outcome.{ok}
use coreason_adlc_api.Identity.{UserIdentity, GroupMapping, map_groups_to_projects}
use coreason_adlc_api.Vault.{encrypt_secret, decrypt_secret}
use coreason_adlc_api.Vault.Service.{
  Secrets, find_secret, answered, store_secret, store_encrypted, insert_secret, upsert_secret,
  retrieve_decrypted_secret,
}
use coreason_adlc_api.Vault.Storage.{
  Request, opens, served, served-retrieve_decrypted_secret, retrieve_decrypted_secret-store_secret,
}
use coreason_adlc_api.Vault.Samples.{codecs, fresh, unary, to_text, read_text}

abbrev stored : Secrets
unfolding store_secret store_encrypted insert_secret upsert_secret encrypt_secret to_text unary
stored = (store_secret codecs [] answered (fresh 10) "acme" "openai" "sk-one" 1 []).1

retrieve_decrypted_secret-store_secret_example :
    ((id : ℕ)
      → (store_secret codecs [] answered (fresh 11) "acme" "openai" "sk-two" 1 stored).0 ≡ ok id
      → retrieve_decrypted_secret codecs [] "acme" "openai"
          (store_secret codecs [] answered (fresh 11) "acme" "openai" "sk-two" 1 stored).1
        ≡ ok "sk-two")
    × ((a s : String)
        → (a ≢ "acme") ⊎ (s ≢ "openai")
        → retrieve_decrypted_secret codecs [] a s
            (store_secret codecs [] answered (fresh 11) "acme" "openai" "sk-two" 1 stored).1
          ≡ retrieve_decrypted_secret codecs [] a s stored)
retrieve_decrypted_secret-store_secret_example =
    retrieve_decrypted_secret-store_secret codecs [] answered (fresh 11) "acme" "openai" "sk-two" 1
      stored refl

abbrev mappings : List GroupMapping
mappings = record { sso_group_oid = 5; role_name = "USER"; allowed_auc_ids = "acme" ∷ [] } ∷ []

abbrev user : ℕ → UserIdentity
user group = record { oid = 1; email = "u"; groups = group ∷ []; full_name = none }

abbrev write : ℕ → String → Request codecs []
write group key = record {
  mappings = some mappings;
  insert = answered;
  fresh = fresh 12;
  now = 12;
  body = record { auc_id = "acme"; service_name = "openai"; raw_api_key = key };
  identity = user group;
}

served-retrieve_decrypted_secret_example :
    retrieve_decrypted_secret codecs [] "acme" "openai"
      (served codecs [] (write 6 "sk-two" ∷ []) stored)
    ≡ ok "sk-one"
unfolding retrieve_decrypted_secret find_secret store_secret store_encrypted insert_secret
    upsert_secret encrypt_secret decrypt_secret to_text unary read_text map_groups_to_projects opens
served-retrieve_decrypted_secret_example =
    served-retrieve_decrypted_secret codecs [] (write 6 "sk-two" ∷ []) stored "acme" "openai"
      (refl, tt)
