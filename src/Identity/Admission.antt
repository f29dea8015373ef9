-- ===== src/Identity/Admission.antt =====
-- Who is admitted with a token, and what a discovery without keys does to all later requests.
use coreason_adlc_api.Prelude.{
  ℕ, ◌≡◌, ◌⊎◌, inl, inr, refl, ap, ◌∙◌, String, true, false, Option, none, some, List, [], ◌∷◌, All,
  Bool-cases, arith,
}
use coreason_adlc_api.Prelude.Text.{starts_with}
use coreason_adlc_api.Json.{Value, Fields, truthy, get}
use coreason_adlc_api.Outcome.{
  Result, ok, raised, http, Detail, invalid_header, authentication_unavailable,
  identity_provider_unavailable,
}
use coreason_adlc_api.Identity.{UserIdentity}
use coreason_adlc_api.Identity.Token.{
  OidcCache, Discovery, http_error, other_error, document, Decoding, payload, expired_signature,
  invalid_token_error, any_other, is_cached, initialised, get_oidc_config, second_word, identity_of,
  judged, or_malformed, parse_and_validate_token,
}

module _ (uuid : String → Option ℕ) (uuid5 : String → ℕ)
    (valid_email : String → Option String) where
  -- The request is answered 401 or 503.
  abbrev pub IsRefused : Result UserIdentity → Type 0
  IsRefused r =
      (code : ℕ) × (d : Detail) × (r ≡ raised (http code d)) × ((code ≡ 401) ⊎ (code ≡ 503))

  -- The token was decoded to claims from which the identity is taken.
  abbrev pub IsAdmitted : Decoding → Result UserIdentity → Type 0
  IsAdmitted x r =
      (u : UserIdentity) × (p : Fields) × (r ≡ ok u)
      × (x ≡ payload p)
      × (identity_of uuid uuid5 valid_email p ≡ some u)

  malformed_or_IsAdmitted :
      (p : Fields) (o : Option UserIdentity)
      → identity_of uuid uuid5 valid_email p ≡ o
      → IsAdmitted (payload p) (or_malformed uuid uuid5 valid_email o)
        ⊎ IsRefused (or_malformed uuid uuid5 valid_email o)
  malformed_or_IsAdmitted p none e = inr (401, _, refl, inl refl)
  malformed_or_IsAdmitted p (some u) e = inl (u, p, refl, refl, e)

  judged_lem :
      (x : Decoding)
      → IsAdmitted x (judged uuid uuid5 valid_email x) ⊎ IsRefused (judged uuid uuid5 valid_email x)
  judged_lem (payload p) = malformed_or_IsAdmitted p (identity_of uuid uuid5 valid_email p) refl
  judged_lem expired_signature = inr (401, _, refl, inl refl)
  judged_lem invalid_token_error = inr (401, _, refl, inl refl)
  judged_lem any_other = inr (401, _, refl, inl refl)

  no_header :
      (d : Discovery) (decode : String → Decoding) (authorization : String) (s : OidcCache)
      → starts_with authorization "Bearer " ≡ false
      → parse_and_validate_token uuid uuid5 valid_email d decode authorization s
        ≡ (raised (http 401 invalid_header), s)
  unfolding parse_and_validate_token
  no_header d decode authorization s h = rw h refl

  -- with the header, by the state of the cache
  with_client :
      (d : Discovery) (decode : String → Decoding) (authorization : String) (s : OidcCache)
      → starts_with authorization "Bearer " ≡ true
      → s.jwks_client ≡ true
      → parse_and_validate_token uuid uuid5 valid_email d decode authorization s
        ≡ (judged uuid uuid5 valid_email (decode (second_word authorization)), s)
  unfolding parse_and_validate_token
  with_client d decode authorization s h j = ground (arith, h, j)

  no_client :
      (d : Discovery) (decode : String → Decoding) (authorization : String) (s : OidcCache)
      → starts_with authorization "Bearer " ≡ true
      → s.jwks_client ≡ false
      → is_cached s.config ≡ true
      → parse_and_validate_token uuid uuid5 valid_email d decode authorization s
        ≡ (raised (http 503 authentication_unavailable), s)
  unfolding parse_and_validate_token get_oidc_config
  no_client d decode authorization s h j k = ground (arith, h, j, k)

  -- The request for the configuration ends in an HTTP error or a JSON object.
  abbrev pub IsAnswer : Discovery → Type 0
  IsAnswer http_error = Unit
  IsAnswer (document (Value.dict config)) = Unit
  IsAnswer _ = ⊥

  fetches :
      (d : Discovery) (decode : String → Decoding) (authorization : String) (s : OidcCache)
      → starts_with authorization "Bearer " ≡ true
      → s.jwks_client ≡ false
      → is_cached s.config ≡ false
      → IsAnswer d
      → IsRefused (parse_and_validate_token uuid uuid5 valid_email d decode authorization s).0
        ⊎ ((parse_and_validate_token uuid uuid5 valid_email d decode authorization s).0
            ≡ judged uuid uuid5 valid_email (decode (second_word authorization)))
  unfolding parse_and_validate_token get_oidc_config
  fetches http_error decode authorization s h j k ne =
      inl (503, identity_provider_unavailable, ground (arith, h, j, k), inr refl)
  fetches other_error decode authorization s h j k ne = absurd ne
  fetches (document (Value.other v)) decode authorization s h j k ne = absurd ne
  fetches (document (Value.str v)) decode authorization s h j k ne = absurd ne
  fetches (document (Value.list v)) decode authorization s h j k ne = absurd ne
  fetches (document (Value.tuple v)) decode authorization s h j k ne = absurd ne
  fetches (document (Value.dict config)) decode authorization s h j k ne =
      elim (Bool-cases (truthy (get "jwks_uri" config))) [
        | inl uri ↦ inr (ground (arith, h, j, k, uri))
        | inr no_uri ↦
            inl (503, authentication_unavailable, ground (arith, h, j, k, no_uri), inr refl)
      ]

  -- If the request for the configuration, should one be made, ends in a JSON object or an HTTP
  -- error, a request is admitted only with a header that begins with "Bearer ", a token that the
  -- library decodes, and the identity that its claims give; every other request is answered 401 or 503.
  pub parse_and_validate_token_lem :
      (d : Discovery) (decode : String → Decoding) (authorization : String) (s : OidcCache)
      → IsAnswer d
      → let r = (parse_and_validate_token uuid uuid5 valid_email d decode authorization s).0 in
        ((starts_with authorization "Bearer " ≡ true)
          × IsAdmitted (decode (second_word authorization)) r)
        ⊎ IsRefused r
  parse_and_validate_token_lem d decode authorization s ne =
      elim (Bool-cases (starts_with authorization "Bearer ")) [
        | inr h ↦
            inr
              (401, invalid_header, ap (λ x. x.0) (no_header d decode authorization s h), inl refl)
        | inl h ↦ elim (Bool-cases s.jwks_client) [
          | inl j ↦ decided h (ap (λ x. x.0) (with_client d decode authorization s h j))
          | inr j ↦ elim (Bool-cases (is_cached s.config)) [
            | inl k ↦ inr (
              503,
              authentication_unavailable,
              ap (λ x. x.0) (no_client d decode authorization s h j k),
              inr refl,
            )
            | inr k ↦ elim (fetches d decode authorization s h j k ne) [
              | inl refused ↦ inr refused
              | inr same ↦ decided h same
            ]
          ]
        ]
      ]
    where
      decided :
          starts_with authorization "Bearer " ≡ true
          → (parse_and_validate_token uuid uuid5 valid_email d decode authorization s).0
            ≡ judged uuid uuid5 valid_email (decode (second_word authorization))
          → ((starts_with authorization "Bearer " ≡ true)
              × IsAdmitted
                  (decode (second_word authorization))
                  (parse_and_validate_token uuid uuid5 valid_email d decode authorization s).0)
            ⊎ IsRefused (parse_and_validate_token uuid uuid5 valid_email d decode authorization s).0
      decided h same = elim (judged_lem (decode (second_word authorization))) [
        | inl (u, p, r, x, i) ↦ inl (h, (u, p, same ∙ r, x, i))
        | inr (code, detail, r, which) ↦ inr (code, detail, same ∙ r, which)
      ]

  -- the answers to a sequence of requests, each with its discovery and its header
  unfoldable pub answers :
      (String → Decoding) → List (Discovery × String) → OidcCache → List (Result UserIdentity)
  answers decode [] s = []
  answers decode (q ∷ qs) s =
      let (r, s') = parse_and_validate_token uuid uuid5 valid_email q.0 decode q.1 s in
      r ∷ answers decode qs s'

  stuck :
      (decode : String → Decoding) (qs : List (Discovery × String)) (s : OidcCache)
      → s.jwks_client ≡ false
      → is_cached s.config ≡ true
      → All IsRefused (answers decode qs s)
  unfolding answers
  stuck decode [] s j k = tt
  stuck decode (q ∷ qs) s j k = elim (Bool-cases (starts_with q.1 "Bearer ")) [
    | inr h ↦
        rw (no_header q.0 decode q.1 s h)
          ((401, invalid_header, refl, inl refl), stuck decode qs s j k)
    | inl h ↦
        rw (no_client q.0 decode q.1 s h j k)
          ((503, authentication_unavailable, refl, inr refl), stuck decode qs s j k)
  ]

  -- Once a JSON object that is not empty and names no jwks_uri is cached while there is no client for
  -- the keys, every later request is refused, with any token and whatever the provider would then
  -- answer to a discovery.
  pub answers-initialised :
      (decode : String → Decoding) (config : Fields) (qs : List (Discovery × String))
      (s : OidcCache)
      → s.jwks_client ≡ false
      → is_cached (some (Value.dict config)) ≡ true
      → truthy (get "jwks_uri" config) ≡ false
      → All IsRefused (answers decode qs (initialised config s))
  answers-initialised decode config qs s j k no_uri =
      stuck decode qs (initialised config s) (ground (arith, j, no_uri)) k
