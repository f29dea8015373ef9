-- ===== src/Proxy/Keys.antt =====
-- The key that a request upstream carries is the one that the vault was given.
use coreason_adlc_api.Prelude.{ℕ, ◌≡◌, refl, String, Option, none, some, length}
use coreason_adlc_api.Outcome.{ok, http, upstream_unstable}
use coreason_adlc_api.Breaker.{AsyncCircuitBreaker, aenter}
use coreason_adlc_api.Vault.{Bytes, Codecs, load_key}
use coreason_adlc_api.Vault.Service.{
  SecretRow, Secrets, Insert, Fresh, store_secret, retrieve_decrypted_secret, find_secret,
  decrypted,
}
use coreason_adlc_api.Vault.Storage.{retrieve_decrypted_secret-store_secret}
use coreason_adlc_api.Proxy.{
  Registry, Inference, provider_of, get_api_key, begin_inference, Started, calling, refused,
  entered, get_circuit_breaker, key_of_row,
}

module _ (c : Codecs) (setting : String) (key : Bytes) where
  same_key :
      (auc_id provider k : String) (o : Option SecretRow)
      → load_key c none setting ≡ ok key
      → decrypted c key auc_id provider o ≡ ok k
      → key_of_row c setting provider o ≡ ok k
  same_key auc_id provider k none l h = cc h
  same_key auc_id provider k (some r) l h = rw l (rw h refl)

  get_api_key-retrieved :
      (auc_id provider k : String) (t : Secrets)
      → load_key c none setting ≡ ok key
      → retrieve_decrypted_secret c key auc_id provider t ≡ ok k
      → get_api_key c setting auc_id provider t ≡ ok k
  unfolding get_api_key retrieve_decrypted_secret
  get_api_key-retrieved auc_id provider k t l h =
      same_key auc_id provider k (find_secret auc_id provider t) l h

  -- The first step of a request ends in a 503 or in a call with this key, for its model and with
  -- its messages.
  unfoldable pub Carries : Inference → String → Started → Type 0
  Carries q k (refused e) = e ≡ http 503 upstream_unstable
  Carries q k (calling call) =
      (call.api_key ≡ k) × (call.model ≡ q.model) × (call.messages ≡ q.messages)

  entered-Carries :
      (q : Inference) (k : String) (reg : Registry) (o : Option AsyncCircuitBreaker)
      → Carries q k (entered q k reg o).0
  unfolding Carries
  entered-Carries q k reg none = refl
  entered-Carries q k reg (some b) = (refl, refl, refl)

  -- If the server's setting holds the encryption key that a secret was stored with, under a nonce
  -- of 12 bytes, and the write was answered, then a request of the same project to a model of that
  -- provider either ends in a 503, or is sent upstream with exactly the secret as its key, and with
  -- its own model and messages.
  pub begin_inference-store_secret :
      (i : Insert) (f : Fresh) (k : String) (u id : ℕ) (t : Secrets) (q : Inference) (now : ℕ)
      (reg : Registry)
      → load_key c none setting ≡ ok key
      → length f.nonce ≡ 12
      → (store_secret c key i f q.auc_id (provider_of q) k u t).0 ≡ ok id
      → Carries q k
          (begin_inference c setting
            (store_secret c key i f q.auc_id (provider_of q) k u t).1
            q
            now
            reg).0
  unfolding begin_inference
  begin_inference-store_secret i f k u id t q now reg l n h =
      let t' = (store_secret c key i f q.auc_id (provider_of q) k u t).1 in
      let (own, _) =
        retrieve_decrypted_secret-store_secret c key i f q.auc_id (provider_of q) k u t n in
      let (b, reg') = get_circuit_breaker (provider_of q) reg in
      rw (get_api_key-retrieved q.auc_id (provider_of q) k t' l (own id h))
        (entered-Carries q k reg' (aenter now b))
