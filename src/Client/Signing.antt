-- ===== src/Client/Signing.antt =====
-- What the promotion of a draft sends: nothing is published but the signature of what was assembled.
use coreason_adlc_api.Prelude.{
  ◌≡◌, ◌≢◌, ◌⊎◌, inl, inr, refl, ap, sym, ◌∙◌, String, Bool, true, false, Option, none, some, [],
  ◌∷◌, ◌++◌, if◌then◌else◌, Bool-cases,
}
use coreason_adlc_api.Prelude.Text.{str_eq, text_append, starts_with}
use coreason_adlc_api.Json.{Value, Fields}
use coreason_adlc_api.Client.Auth.{Token, token, no_token, raises}
use coreason_adlc_api.Client.{
  Response, Outcome, returned, error, failed, handle_response, CoreasonError, new, class_of,
  message_of,
}
use coreason_adlc_api.Client.Promotion.{
  inject_auth_header, with_token, set_header, send, Request, Session, draft_path, signature_body,
  received, request, sign_and_publish, promote_draft, assembled, published,
}

returned-injective : {A : Type 0} {a b : A} → Outcome.returned a ≡ returned b → a ≡ b
returned-injective e = cc e

chosen :
    (b : Bool) (r a : Response) (e : CoreasonError)
    → (if b then returned r else error e) ≡ returned a
    → (b ≡ true) × (r ≡ a)
chosen true r a e h = (refl, returned-injective h)
chosen false r a e h = cc h

handled : (r a : Response) → handle_response r ≡ returned a → (r ≡ a) × (a.is_success ≡ true)
unfolding handle_response
handled r a h =
    let (yes_, same) = chosen r.is_success r a (new (class_of r.status_code) (message_of r) r) h in
    (same, ap (λ x. x.is_success) (sym same) ∙ yes_)

received-returned :
    (o : Option Response) (a : Response)
    → received o ≡ returned a
    → (o ≡ some a) × (a.is_success ≡ true)
received-returned none a h = cc h
received-returned (some r) a h = let (same, yes_) = handled r a h in (ap some same, yes_)

-- The request for the artifact of a draft.
abbrev pub IsAssembly : String → Request → Type 0
IsAssembly draft_id q =
    (q.method ≡ "GET")
    × (q.path ≡ text_append "/workbench/drafts/" (text_append draft_id "/assemble"))
    × (q.json ≡ none)

-- The request to publish a draft with this signature.
abbrev pub IsPublication : String → String → Request → Type 0
IsPublication draft_id signature p =
    (p.method ≡ "POST")
    × (p.path ≡ text_append "/workbench/drafts/" (text_append draft_id "/publish"))
    × (p.json ≡ some (Value.dict (Fields.field "signature" (Value.str signature) Fields.end)))

-- The hook leaves a request what it is, or raises.
IsHooked : Request → Option Request → Type 0
IsHooked r o =
    (o ≡ none)
    ⊎ ((q : Request) × (o ≡ some q) × (q.method ≡ r.method) × (q.path ≡ r.path) × (q.json ≡ r.json))

with_token-IsHooked : (t : Token) (r : Request) → IsHooked r (with_token t r)
unfolding IsHooked
with_token-IsHooked no_token r = inr (r, refl, refl, refl, refl)
with_token-IsHooked raises r = inl refl
with_token-IsHooked (token s) r = elim (Bool-cases (str_eq s "")) [
  | inl e ↦ rw e (inr (r, refl, refl, refl, refl))
  | inr e ↦ rw e (
      inr (
        record r { headers = set_header "Authorization" (text_append "Bearer " s) r.headers },
        refl,
        refl,
        refl,
        refl,
      ))
]

inject_auth_header-IsHooked : (t : Token) (r : Request) → IsHooked r (inject_auth_header t r)
unfolding inject_auth_header IsHooked
inject_auth_header-IsHooked t r = elim (Bool-cases (starts_with r.path "/auth/")) [
  | inl e ↦ rw e (inr (r, refl, refl, refl, refl))
  | inr e ↦ rw e (with_token-IsHooked t r)
]

module _ {W : Type 0} (answer : Request → W → Option Response × W) (dumps : Value → String)
    (sign : String → String) where
  published-returned :
      (x : Outcome Response × Session W) (u : Value)
      → (published answer x).0 ≡ returned u
      → (r : Response) × (x.0 ≡ returned r)
  published-returned (returned r, s) u h = (r, refl)
  published-returned (error e, s) u h = cc h
  published-returned (failed, s) u h = cc h

  published_state : (x : Outcome Response × Session W) → (published answer x).1 ≡ x.1
  published_state (returned r, s) = refl
  published_state (error e, s) = refl
  published_state (failed, s) = refl

  -- After the artifact: nothing is sent, or the one request to publish it.
  abbrev Publishes : String → Option Value → Session W → Outcome Value × Session W → Type 0
  Publishes draft_id j s (out, s') =
      ((s'.sent ≡ s.sent) × ((u : Value) → out ≢ returned u))
      ⊎ ((artifact : Value) × (p : Request) × (j ≡ some artifact)
          × IsPublication draft_id (sign (dumps artifact)) p
          × (s'.sent ≡ s.sent ++ p ∷ [])
          × ((u : Value)
              → out ≡ returned u
              → (r : Response) × ((answer p s.world).0 ≡ some r) × (r.is_success ≡ true)))

  sent-Publishes :
      (draft_id : String) (artifact : Value) (s : Session W) (q : Request)
      → IsPublication draft_id (sign (dumps artifact)) q
      → Publishes draft_id (some artifact) s (published answer (send answer (some q) s))
  sent-Publishes draft_id artifact s q is =
      let x = send answer (some q) s in
      inr (
        artifact,
        q,
        refl,
        is,
        ap (λ s'. s'.sent) (published_state x),
        λ u h.
            let (r, g) = published-returned x u h in
            let (came, yes_) = received-returned (answer q s.world).0 r g in (r, came, yes_),
      )

  signed :
      (t : Token) (draft_id : String) (j : Option Value) (s : Session W)
      → Publishes draft_id j s (sign_and_publish answer dumps sign t draft_id j s)
  unfolding sign_and_publish request IsHooked
  signed t draft_id none s = inl (refl, λ u h. cc h)
  signed t draft_id (some artifact) s =
      let body = some (signature_body (sign (dumps artifact))) in
      elim (inject_auth_header-IsHooked t (record {
        method = "POST";
        path = draft_path draft_id "publish";
        json = body;
        headers = s.headers;
      })) [
        | inl e ↦ rw e (inl (refl, λ u h. cc h))
        | inr (q, e, method, path, json) ↦
            rw e (sent-Publishes draft_id artifact s q (method, path, json))
      ]

  assembled_lem :
      (t : Token) (draft_id : String) (o : Outcome Response) (s : Session W)
      → let (out, s') = assembled answer dumps sign t draft_id (o, s) in
        ((s'.sent ≡ s.sent) × ((u : Value) → out ≢ returned u))
        ⊎ ((r : Response) × (artifact : Value) × (p : Request) × (o ≡ returned r)
            × (r.json ≡ some artifact)
            × IsPublication draft_id (sign (dumps artifact)) p
            × (s'.sent ≡ s.sent ++ p ∷ [])
            × ((u : Value)
                → out ≡ returned u
                → (r' : Response) × ((answer p s.world).0 ≡ some r') × (r'.is_success ≡ true)))
  assembled_lem t draft_id (returned r) s = elim (signed t draft_id r.json s) [
    | inl nothing ↦ inl nothing
    | inr (artifact, p, j, is, sent, url) ↦ inr (r, artifact, p, refl, j, is, sent, url)
  ]
  assembled_lem t draft_id (error e) s = inl (refl, λ u h. cc h)
  assembled_lem t draft_id failed s = inl (refl, λ u h. cc h)

  -- However the server behaves, a promotion returns no URL and sends nothing, if the hook raises, or
  -- only the request for the artifact; or it sends, after a response to that which was a success with
  -- an artifact in it, exactly one more request: a POST to the publish path of the draft whose body
  -- holds, as "signature", the signature of the text of this artifact, and nothing else. It then
  -- returns a URL only if the second response was a success.
  pub promote_draft_lem :
      (token₁ token₂ : Token) (draft_id : String) (s : Session W)
      → let (out, s') = promote_draft answer dumps sign token₁ token₂ draft_id s in
        ((s'.sent ≡ s.sent) × ((u : Value) → out ≢ returned u))
        ⊎ ((q : Request) × IsAssembly draft_id q
            × (((s'.sent ≡ s.sent ++ q ∷ []) × ((u : Value) → out ≢ returned u))
                ⊎ ((r : Response) × (artifact : Value) × (p : Request) × ((answer q s.world).0
                      ≡ some r)
                    × (r.is_success ≡ true)
                    × (r.json ≡ some artifact)
                    × IsPublication draft_id (sign (dumps artifact)) p
                    × (s'.sent ≡ (s.sent ++ q ∷ []) ++ p ∷ [])
                    × ((u : Value)
                        → out ≡ returned u
                        → (r' : Response) × ((answer p (answer q s.world).1).0 ≡ some r')
                          × (r'.is_success ≡ true)))))
  unfolding promote_draft request IsHooked
  promote_draft_lem token₁ token₂ draft_id s =
      elim (inject_auth_header-IsHooked token₁ (record {
        method = "GET";
        path = draft_path draft_id "assemble";
        json = none;
        headers = s.headers;
      })) [
        | inl e ↦ rw e (inl (refl, λ u h. cc h))
        | inr (q, e, method, path, json) ↦
            let (came, w) = answer q s.world in
            rw e (
              inr (
                q,
                (method, path, json),
                elim (assembled_lem token₂ draft_id (received came)
                    (record s { sent = s.sent ++ q ∷ []; world = w })) [
                      | inl nothing ↦ inl nothing
                      | inr (r, artifact, p, o, j, is, sent, url) ↦
                          let (first, yes_) = received-returned came r o in
                          inr (r, artifact, p, first, yes_, j, is, sent, url)
                    ],
              ))
      ]
