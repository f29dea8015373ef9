-- ===== src/Vault/Storage.antt =====
-- What is read back from the table of secrets, and who changes what in it.
use coreason_adlc_api.Prelude.{
  ℕ, ◌≡◌, ◌≢◌, ◌⊎◌, inl, inr, refl, ap, sym, ◌∙◌, String, Bool, true, false, Option, none, some,
  List, [], ◌∷◌, Bool-cases, length, All,
}
use coreason_adlc_api.Prelude.Text.{contains}
use coreason_adlc_api.Outcome.{ok, raised, http, not_authorized_for, Result-cases, >>=-pure_state}
use coreason_adlc_api.Identity.{UserIdentity, GroupMapping, map_groups_to_projects}
use coreason_adlc_api.Vault.{
  Bytes, Codecs, encrypt_secret, decrypt_secret, decrypt_secret-encrypt_secret,
}
use coreason_adlc_api.Vault.Service.{
  SecretRow, Secrets, is_for, find_secret, upsert_secret, Insert, answered, failed, insert_secret,
  Fresh, store_secret, retrieve_decrypted_secret, create_or_update_secret, store_encrypted,
  CreateSecretRequest, new_secret, decrypted,
}
use coreason_adlc_api.Vault.Rows.{
  is_for_iff, Inserted, find-upsert_self, find-upsert_other, SameId, SameId-refl, SameId-trans,
  upsert-SameId,
}

module _ (c : Codecs) (key : Bytes) where
  insert-SameId :
      (i : Insert) (a s : String) (new : SecretRow) (t : Secrets)
      → SameId (find_secret a s t) (find_secret a s (insert_secret i new t).1)
  unfolding insert_secret
  insert-SameId answered a s new t = upsert-SameId a s new t
  insert-SameId (failed true) a s new t = upsert-SameId a s new t
  insert-SameId (failed false) a s new t = SameId-refl (find_secret a s t)

  store_secret-SameId :
      (i : Insert) (f : Fresh) (a s k : String) (u : ℕ) (a' s' : String) (t : Secrets)
      → SameId (find_secret a' s' t) (find_secret a' s' (store_secret c key i f a s k u t).1)
  unfolding store_secret store_encrypted
  store_secret-SameId i f a s k u a' s' t = elim (Result-cases (encrypt_secret c key f.nonce k)) [
    | inl (e, q) ↦ rw q (insert-SameId i a' s' (new_secret a s u f e) t)
    | inr (e, q) ↦ rw q (SameId-refl (find_secret a' s' t))
  ]

  insert-other :
      (i : Insert) (a s : String) (new : SecretRow) (t : Secrets)
      → is_for a s new ≡ false
      → find_secret a s (insert_secret i new t).1 ≡ find_secret a s t
  unfolding insert_secret
  insert-other answered a s new t ne = find-upsert_other a s new t ne
  insert-other (failed true) a s new t ne = find-upsert_other a s new t ne
  insert-other (failed false) a s new t ne = refl

  store_secret-other :
      (i : Insert) (f : Fresh) (a s k : String) (u : ℕ) (a' s' : String) (t : Secrets)
      → (a' ≢ a) ⊎ (s' ≢ s)
      → find_secret a' s' (store_secret c key i f a s k u t).1 ≡ find_secret a' s' t
  unfolding store_secret store_encrypted
  store_secret-other i f a s k u a' s' t ne = elim (Result-cases (encrypt_secret c key f.nonce k)) [
    | inl (e, q) ↦ rw q (
        insert-other i a' s' (new_secret a s u f e) t
          (elim (Bool-cases (is_for a' s' (new_secret a s u f e))) [
            | inl yes_ ↦
                let (p, p') = is_for_iff a' s' (new_secret a s u f e) yes_ in
                elim ne [ inl n ↦ absurd (n (sym p)) | inr n ↦ absurd (n (sym p')) ]
            | inr differs ↦ differs
          ]))
    | inr (e, q) ↦ rw q refl
  ]

  decrypted-Inserted :
      (new : SecretRow) (k : String) (o : Option SecretRow)
      → Inserted new o
      → decrypt_secret c key new.encrypted_value ≡ ok k
      → decrypted c key new.auc_id new.service_name o ≡ ok k
  unfolding Inserted
  decrypted-Inserted new k none h d = absurd h
  decrypted-Inserted new k (some r) h d = ap (decrypt_secret c key) h ∙ d

  insert-retrieved :
      (i : Insert) (new : SecretRow) (k : String) (t : Secrets) (id : ℕ)
      → decrypt_secret c key new.encrypted_value ≡ ok k
      → (insert_secret i new t).0 ≡ ok id
      → retrieve_decrypted_secret c key new.auc_id new.service_name (insert_secret i new t).1 ≡ ok k
  unfolding insert_secret retrieve_decrypted_secret
  insert-retrieved answered new k t id d h =
      decrypted-Inserted new k (find_secret new.auc_id new.service_name (upsert_secret new t))
        (find-upsert_self new t) d
  insert-retrieved (failed b) new k t id d h = cc h

  stored :
      (i : Insert) (f : Fresh) (a s k : String) (u : ℕ) (t : Secrets) (id : ℕ)
      → length f.nonce ≡ 12
      → (store_secret c key i f a s k u t).0 ≡ ok id
      → retrieve_decrypted_secret c key a s (store_secret c key i f a s k u t).1 ≡ ok k
  unfolding store_secret store_encrypted
  stored i f a s k u t id l h = elim (Result-cases (encrypt_secret c key f.nonce k)) [
    | inl (e, q) ↦ rw q (
        insert-retrieved i (new_secret a s u f e) k t id
          (decrypt_secret-encrypt_secret c key f.nonce k e l q) (rw q at h))
    | inr (e, q) ↦ cc (rw q at h)
  ]

  -- What an answered write stored is what the read of the same project and service returns, if the
  -- nonce has 12 bytes; and every read for another project or service returns what it returned
  -- before, however the write ends.
  pub retrieve_decrypted_secret-store_secret :
      (i : Insert) (f : Fresh) (a s k : String) (u : ℕ) (t : Secrets)
      → length f.nonce ≡ 12
      → let (res, t') = store_secret c key i f a s k u t in
        ((id : ℕ) → res ≡ ok id → retrieve_decrypted_secret c key a s t' ≡ ok k)
        × ((a' s' : String)
            → (a' ≢ a) ⊎ (s' ≢ s)
            → retrieve_decrypted_secret c key a' s' t' ≡ retrieve_decrypted_secret c key a' s' t)
  unfolding retrieve_decrypted_secret
  retrieve_decrypted_secret-store_secret i f a s k u t l = (
    λ id h. stored i f a s k u t id l h,
    λ a' s' ne. ap (decrypted c key a' s') (store_secret-other i f a s k u a' s' t ne),
  )

  -- The arguments of a request to write a secret.
  pub record Request : Type 0 where
    pub mappings : Option (List GroupMapping)
    pub insert : Insert
    pub fresh : Fresh
    pub now : ℕ
    pub body : CreateSecretRequest
    pub identity : UserIdentity

  -- the table after a sequence of requests
  unfoldable pub served : List Request → Secrets → Secrets
  served [] t = t
  served (q ∷ qs) t =
      served qs
        (create_or_update_secret c key q.mappings q.insert q.fresh q.now q.body q.identity t).1

  unfoldable pub opens : Request → String → Bool
  opens q auc_id = contains auc_id (map_groups_to_projects q.mappings q.identity.groups)

  -- A write by a user whose groups do not open its project is answered 403 and changes nothing.
  refused :
      (q : Request) (t : Secrets)
      → opens q q.body.auc_id ≡ false
      → create_or_update_secret c key q.mappings q.insert q.fresh q.now q.body q.identity t
        ≡ (raised (http 403 (not_authorized_for q.body.auc_id)), t)
  unfolding create_or_update_secret opens
  refused q t h = rw h refl

  granted :
      (q : Request) (t : Secrets)
      → opens q q.body.auc_id ≡ true
      → (create_or_update_secret c key q.mappings q.insert q.fresh q.now q.body q.identity t).1
        ≡ (store_secret c key q.insert q.fresh q.body.auc_id q.body.service_name q.body.raw_api_key
            q.identity.oid t).1
  unfolding create_or_update_secret opens
  granted q t h = rw h (
      >>=-pure_state
        (store_secret c key q.insert q.fresh q.body.auc_id q.body.service_name q.body.raw_api_key
          q.identity.oid)
        (λ id. record {
          secret_id = id;
          auc_id = q.body.auc_id;
          service_name = q.body.service_name;
          created_at = q.now;
        })
        t)

  -- One request stores by `store_secret` for its own project and service, or changes nothing.
  one :
      (q : Request) (t : Secrets) (a s : String)
      → let t' =
          (create_or_update_secret c key q.mappings q.insert q.fresh q.now q.body q.identity t).1 in
        SameId (find_secret a s t) (find_secret a s t')
        × (opens q a ≡ false → find_secret a s t' ≡ find_secret a s t)
  one q t a s = elim (Bool-cases (opens q q.body.auc_id)) [
    | inl h ↦ rw (granted q t h) (
      store_secret-SameId q.insert q.fresh q.body.auc_id q.body.service_name q.body.raw_api_key
          q.identity.oid a s t,
      λ closed.
          store_secret-other q.insert q.fresh q.body.auc_id q.body.service_name q.body.raw_api_key
            q.identity.oid a s t
            (inl (λ e. let both : true ≡ false = sym h ∙ ap (opens q) (sym e) ∙ closed in cc both)),
    )
    | inr h ↦ rw (refused q t h) (SameId-refl (find_secret a s t), λ _. refl)
  ]

  -- After any sequence of requests to write secrets, by anyone and however the writes end, the row
  -- of a project and a service is still there under the id that it has.
  pub served-SameId :
      (qs : List Request) (t : Secrets) (a s : String)
      → SameId (find_secret a s t) (find_secret a s (served qs t))
  unfolding served
  served-SameId [] t a s = SameId-refl (find_secret a s t)
  served-SameId (q ∷ qs) t a s =
      let t' =
        (create_or_update_secret c key q.mappings q.insert q.fresh q.now q.body q.identity t).1 in
      SameId-trans (find_secret a s t) (find_secret a s t') (find_secret a s (served qs t'))
        (one q t a s).0 (served-SameId qs t' a s)

  -- Requests by users whose groups do not open a project leave what is read for it as it was, in
  -- every service.
  pub served-retrieve_decrypted_secret :
      (qs : List Request) (t : Secrets) (a s : String)
      → All (λ q. opens q a ≡ false) qs
      → retrieve_decrypted_secret c key a s (served qs t) ≡ retrieve_decrypted_secret c key a s t
  unfolding served retrieve_decrypted_secret
  served-retrieve_decrypted_secret [] t a s closed = refl
  served-retrieve_decrypted_secret (q ∷ qs) t a s closed =
      let t' =
        (create_or_update_secret c key q.mappings q.insert q.fresh q.now q.body q.identity t).1 in
      served-retrieve_decrypted_secret qs t' a s closed.1
      ∙ ap (decrypted c key a s) ((one q t a s).1 closed.0)
