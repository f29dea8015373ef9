-- ===== src/Vault.antt =====
-- src/coreason_adlc_api/vault/crypto.py: the encryption of the API keys of the projects.
-- AES-GCM, base64, hexadecimal and UTF-8 are libraries: a record of operations with their laws.
pub mod Service
pub mod Rows
pub mod Storage
pub mod Samples
mod Scenarios
use coreason_adlc_api.Prelude.{
  ℕ, ◌≡◌, String, Bool, Option, none, some, List, ◌++◌, refl, inl, inr, Option-cases, subst, ap,
  ◌∙◌, sym, length, take, drop, take-append, drop-append, ◌==◌, if◌then◌else◌,
}
use coreason_adlc_api.Prelude.Text.{str_eq}
use coreason_adlc_api.Outcome.{
  Result, ok, raised, value_error, encryption_key_not_set, encryption_key_not_hex,
  encryption_key_of_length, not_encodable, decryption_failed, Detail, ok-injective,
}

abbrev pub Bytes : Type 0
Bytes = List ℕ

pub record Codecs : Type 0 where
  pub from_hex : String → Option Bytes
  -- A text with a lone surrogate has no UTF-8 bytes.
  pub encode : String → Option Bytes
  pub decode : Bytes → Option String
  pub b64encode : Bytes → String
  pub b64decode : String → Option Bytes
  pub aesgcm_encrypt : Bytes → Bytes → Bytes → Bytes
  pub aesgcm_decrypt : Bytes → Bytes → Bytes → Option Bytes
  pub decode-encode : (s : String) (b : Bytes) → encode s ≡ some b → decode b ≡ some s
  pub b64decode-b64encode : (b : Bytes) → b64decode (b64encode b) ≡ some b
  pub aesgcm_decrypt-aesgcm_encrypt :
      (key nonce plain : Bytes)
      → aesgcm_decrypt key nonce (aesgcm_encrypt key nonce plain) ≡ some plain

-- `key_hex or settings.ENCRYPTION_KEY`
abbrev pub raw_key : Option String → String → String
raw_key none setting = setting
raw_key (some key_hex) setting = if str_eq key_hex "" then setting else key_hex

abbrev pub checked_key : Option Bytes → Result Bytes
checked_key none = raised (value_error encryption_key_not_hex)
checked_key (some b) =
    if length b == 32 then ok b else raised (value_error (encryption_key_of_length (length b)))

abbrev or_value_error : {A : Type 0} → Option A → Detail → Result A
or_value_error none d = raised (value_error d)
or_value_error (some a) d = ok a

module _ (c : Codecs) where
  open c use {
    from_hex, encode, decode, b64encode, b64decode, aesgcm_encrypt, aesgcm_decrypt, decode-encode,
    b64decode-b64encode, aesgcm_decrypt-aesgcm_encrypt,
  }

  -- `_load_key`
  unfoldable pub load_key : Option String → String → Result Bytes
  load_key key_hex setting =
      let key = raw_key key_hex setting in
      if str_eq key ""
      then raised (value_error encryption_key_not_set)
      else checked_key (from_hex key)

  abbrev pub sealed : Bytes → Bytes → Option Bytes → Option String
  sealed key nonce none = none
  sealed key nonce (some plain) = some (b64encode (nonce ++ aesgcm_encrypt key nonce plain))

  -- `encrypt_secret`, with the 12 bytes of `os.urandom`
  unfoldable pub encrypt_secret : Bytes → Bytes → String → Result String
  encrypt_secret key nonce raw_value =
      or_value_error (sealed key nonce (encode raw_value)) not_encodable

  abbrev pub plaintext : Bytes → Option Bytes → Option Bytes
  plaintext key none = none
  plaintext key (some decoded) = aesgcm_decrypt key (take 12 decoded) (drop 12 decoded)

  abbrev pub decoded_text : Option Bytes → Option String
  decoded_text none = none
  decoded_text (some b) = decode b

  -- `decrypt_secret`: whatever fails, the same error
  unfoldable pub decrypt_secret : Bytes → String → Result String
  decrypt_secret key encrypted_value =
      or_value_error (decoded_text (plaintext key (b64decode encrypted_value))) decryption_failed

  plaintext-sealed :
      (key nonce plain : Bytes)
      → length nonce ≡ 12
      → plaintext key (b64decode (b64encode (nonce ++ aesgcm_encrypt key nonce plain))) ≡ some plain
  plaintext-sealed key nonce plain l =
      ap (plaintext key) (b64decode-b64encode (nonce ++ aesgcm_encrypt key nonce plain))
      ∙ ap
          (λ n.
            aesgcm_decrypt key (take n (nonce ++ aesgcm_encrypt key nonce plain))
              (drop n (nonce ++ aesgcm_encrypt key nonce plain)))
          (sym l)
      ∙ ap
          (λ x.
            aesgcm_decrypt key x (drop (length nonce) (nonce ++ aesgcm_encrypt key nonce plain)))
          (take-append nonce (aesgcm_encrypt key nonce plain))
      ∙ ap (λ y. aesgcm_decrypt key nonce y) (drop-append nonce (aesgcm_encrypt key nonce plain))
      ∙ aesgcm_decrypt-aesgcm_encrypt key nonce plain

  -- With a nonce of 12 bytes, what the encryption of a text returns is decrypted to the text.
  pub decrypt_secret-encrypt_secret :
      (key nonce : Bytes) (v e : String)
      → length nonce ≡ 12
      → encrypt_secret key nonce v ≡ ok e
      → decrypt_secret key e ≡ ok v
  unfolding encrypt_secret decrypt_secret
  decrypt_secret-encrypt_secret key nonce v e l h = elim (Option-cases (encode v)) [
    | inl q ↦ cc (rw q at h)
    | inr (plain, q) ↦
        let same : b64encode (nonce ++ aesgcm_encrypt key nonce plain) ≡ e =
          ok-injective (rw q at h) in
        let opened = plaintext-sealed key nonce plain l in
        subst (λ x. decrypt_secret key x ≡ ok v) same
          (rw opened (rw (decode-encode v plain q) refl))
  ]
