-- ===== src/Vault/Service.antt =====
-- src/coreason_adlc_api/vault/service.py and routers/vault.py: the table vault.secrets, as the SQL
-- statements read and write it, and the handler of POST /vault/secrets.
use coreason_adlc_api.Prelude.{
  ℕ, String, Bool, ◌&&◌, not, Option, none, some, List, [], ◌∷◌, if◌then◌else◌,
}
use coreason_adlc_api.Prelude.Text.{str_eq, contains}
use coreason_adlc_api.Outcome.{
  Result, ok, raised, http, value_error, store_secret_failed, no_secret_for, not_authorized_for,
  Action, raise_if, pure, ◌>>=◌, ◌>>◌,
}
use coreason_adlc_api.Identity.{UserIdentity, GroupMapping, map_groups_to_projects}
use coreason_adlc_api.Vault.{Bytes, Codecs, encrypt_secret, decrypt_secret}

-- The columns of vault.secrets that the code reads or writes.
pub record SecretRow : Type 0 where
  pub secret_id : ℕ
  pub auc_id : String
  pub service_name : String
  pub encrypted_value : String
  pub created_by : ℕ
  pub created_at : ℕ

abbrev pub Secrets : Type 0
Secrets = List SecretRow

abbrev pub is_for : String → String → SecretRow → Bool
is_for auc_id service_name r = str_eq r.auc_id auc_id && str_eq r.service_name service_name

-- SELECT … WHERE auc_id = $1 AND service_name = $2
unfoldable pub find_secret : String → String → Secrets → Option SecretRow
find_secret auc_id service_name [] = none
find_secret auc_id service_name (r ∷ t) =
    if is_for auc_id service_name r then some r else find_secret auc_id service_name t

-- DO UPDATE SET …
abbrev pub conflict_update : SecretRow → SecretRow → SecretRow
conflict_update excluded r = record r {
  encrypted_value = excluded.encrypted_value;
  created_by = excluded.created_by;
  created_at = excluded.created_at;
}

-- INSERT … ON CONFLICT (auc_id, service_name) DO UPDATE …
unfoldable pub upsert_secret : SecretRow → Secrets → Secrets
upsert_secret new [] = new ∷ []
upsert_secret new (r ∷ t) =
    let rest = upsert_secret new t in
    if is_for new.auc_id new.service_name r then conflict_update new r ∷ t else r ∷ rest

-- How the INSERT ends: with its row, or with an error of the database, of which the statement has
-- taken effect or not (a connection may be lost before the answer).
pub data Insert : Type 0 where
  answered : Insert
  failed : Bool → Insert

-- RETURNING secret_id
abbrev pub returned_id : Option SecretRow → Result ℕ
returned_id none = raised (http 500 store_secret_failed)
returned_id (some r) = ok r.secret_id

unfoldable pub insert_secret : Insert → SecretRow → Secrets → Result ℕ × Secrets
insert_secret answered new t =
    let t' = upsert_secret new t in (returned_id (find_secret new.auc_id new.service_name t'), t')
insert_secret (failed executed) new t =
    (raised (http 500 store_secret_failed), if executed then upsert_secret new t else t)

-- The state of the server that one write needs: the randomness and the clock of the database.
pub record Fresh : Type 0 where
  pub nonce : Bytes
  pub secret_id : ℕ
  pub now : ℕ

abbrev pub new_secret : String → String → ℕ → Fresh → String → SecretRow
new_secret auc_id service_name user_uuid f e = record {
  secret_id = f.secret_id;
  auc_id = auc_id;
  service_name = service_name;
  encrypted_value = e;
  created_by = user_uuid;
  created_at = f.now;
}

pub record CreateSecretRequest : Type 0 where
  pub auc_id : String
  pub service_name : String
  pub raw_api_key : String

pub record SecretResponse : Type 0 where
  pub secret_id : ℕ
  pub auc_id : String
  pub service_name : String
  pub created_at : ℕ

-- `store_secret`, from the end of the encryption on; an error of that is let through.
unfoldable pub store_encrypted :
    Insert → Fresh → String → String → ℕ → Result String → Action Secrets ℕ
store_encrypted i f auc_id service_name user_uuid (ok e) t =
    insert_secret i (new_secret auc_id service_name user_uuid f e) t
store_encrypted i f auc_id service_name user_uuid (raised e) t = (raised e, t)

module _ (c : Codecs) (key : Bytes) where
  -- `store_secret`
  unfoldable pub store_secret : Insert → Fresh → String → String → String → ℕ → Action Secrets ℕ
  store_secret i f auc_id service_name raw_api_key user_uuid t =
      store_encrypted i f auc_id service_name user_uuid (encrypt_secret c key f.nonce raw_api_key) t

  abbrev pub decrypted : String → String → Option SecretRow → Result String
  decrypted auc_id service_name none = raised (value_error (no_secret_for service_name auc_id))
  decrypted auc_id service_name (some r) = decrypt_secret c key r.encrypted_value

  -- `retrieve_decrypted_secret`, which only reads
  unfoldable pub retrieve_decrypted_secret : String → String → Secrets → Result String
  retrieve_decrypted_secret auc_id service_name t =
      decrypted auc_id service_name (find_secret auc_id service_name t)

  -- `create_or_update_secret`; `now` is the clock at the answer.
  unfoldable pub create_or_update_secret :
      Option (List GroupMapping)
      → Insert
      → Fresh
      → ℕ
      → CreateSecretRequest
      → UserIdentity
      → Action Secrets SecretResponse
  create_or_update_secret ms i f now request identity = do
    raise_if (not (contains request.auc_id (map_groups_to_projects ms identity.groups)))
        (http 403 (not_authorized_for request.auc_id))
    secret_id ←
        store_secret i f request.auc_id request.service_name request.raw_api_key identity.oid
    pure (record {
      secret_id = secret_id;
      auc_id = request.auc_id;
      service_name = request.service_name;
      created_at = now;
    })
