-- ===== src/Interceptor/Texts.antt =====
-- src/coreason_adlc_api/routers/interceptor.py: the texts that are scrubbed for the telemetry, without
-- the functions of the code.
use Prim.Native.Char.{char}
use Prim.Native.String.{◌∷◌ as text_cons}
use coreason_adlc_api.Prelude.{
  ◌≡◌, ◌⊎◌, inl, inr, refl, ap, String, Bool, true, false, Option, none, some, List, [], ◌∷◌,
  Bool-cases, if◌then◌else◌,
}
use coreason_adlc_api.Prelude.Text.{str_eq, text_append}
use coreason_adlc_api.Json.{Value, Items, Fields, get, truthy}
use coreason_adlc_api.Outcome.{ok}
use coreason_adlc_api.Pii.{Engine, not_installed, broken, engine, scrub_text}
use coreason_adlc_api.Interceptor.{
  ChatMessage, input_text_of, field_in, at_key, at_first, or_empty, response_content, scrub_other,
  scrub_or_empty,
}

-- The contents of these messages, with a line break between two.
abbrev pub IsInput : List ChatMessage → String → Type 0
IsInput [] s = s ≡ ""
IsInput (m ∷ []) s = s ≡ m.content
IsInput (m ∷ m' ∷ ms) s =
    (rest : String) × IsInput (m' ∷ ms) rest
    × (s ≡ text_append m.content (text_cons (char 10 tt) rest))

pub input_text_of-IsInput : (ms : List ChatMessage) → IsInput ms (input_text_of ms)
unfolding input_text_of
input_text_of-IsInput [] = refl
input_text_of-IsInput (m ∷ []) = refl
input_text_of-IsInput (m ∷ m' ∷ ms) = (_, input_text_of-IsInput (m' ∷ ms), refl)

-- The content of the message of the first choice, or an empty text.
abbrev pub IsReply : Value → Value → Type 0
IsReply response v =
    ((fs : Fields) × (choice : Fields) × (message : Fields) × (rest : Items) × (response
        ≡ Value.dict fs)
      × ((get "choices" fs ≡ Value.list (Items.cons (Value.dict choice) rest))
          ⊎ (get "choices" fs ≡ Value.tuple (Items.cons (Value.dict choice) rest)))
      × (get "message" choice ≡ Value.dict message)
      × (get "content" message ≡ v))
    ⊎ (v ≡ Value.str "")

some-injective : (v w : Value) → some v ≡ some w → v ≡ w
some-injective v w e = cc e

field_in_lem : (key : String) (fs : Fields) (v : Value) → field_in key fs ≡ some v → get key fs ≡ v
field_in_lem key Fields.end v h = cc h
field_in_lem key (Fields.field k w rest) v h = elim (Bool-cases (str_eq k key)) [
  | inl e ↦ rw e (some-injective w v (rw e at h))
  | inr e ↦ rw e (field_in_lem key rest v (rw e at h))
]

-- What a lookup finds it finds in a dictionary.
at_key_lem :
    (key : String) (o : Option Value) (v : Value)
    → at_key key o ≡ some v
    → (fs : Fields) × (o ≡ some (Value.dict fs)) × (get key fs ≡ v)
at_key_lem key none v h = cc h
at_key_lem key (some (Value.other w)) v h = cc h
at_key_lem key (some (Value.str w)) v h = cc h
at_key_lem key (some (Value.list w)) v h = cc h
at_key_lem key (some (Value.tuple w)) v h = cc h
at_key_lem key (some (Value.dict fs)) v h = (fs, refl, field_in_lem key fs v h)

at_first_lem :
    (o : Option Value) (v : Value)
    → at_first o ≡ some v
    → (rest : Items) × ((o ≡ some (Value.list (Items.cons v rest)))
        ⊎ (o ≡ some (Value.tuple (Items.cons v rest))))
at_first_lem none v h = cc h
at_first_lem (some (Value.other w)) v h = cc h
at_first_lem (some (Value.str w)) v h = cc h
at_first_lem (some (Value.dict w)) v h = cc h
at_first_lem (some (Value.list Items.nil)) v h = cc h
at_first_lem (some (Value.tuple Items.nil)) v h = cc h
at_first_lem (some (Value.list (Items.cons w ws))) v h =
    (ws, inl (ap (λ x. some (Value.list (Items.cons x ws))) (some-injective w v h)))
at_first_lem (some (Value.tuple (Items.cons w ws))) v h =
    (ws, inr (ap (λ x. some (Value.tuple (Items.cons x ws))) (some-injective w v h)))

choices_lem :
    (response : Value) (choice : Fields)
    → at_first (at_key "choices" (some response)) ≡ some (Value.dict choice)
    → (fs : Fields) × (rest : Items) × (response ≡ Value.dict fs)
      × ((get "choices" fs ≡ Value.list (Items.cons (Value.dict choice) rest))
          ⊎ (get "choices" fs ≡ Value.tuple (Items.cons (Value.dict choice) rest)))
choices_lem response choice h =
    let (rest, which) = at_first_lem (at_key "choices" (some response)) (Value.dict choice) h in
    elim which [
      | inl e ↦
          let (fs, d, g) = at_key_lem "choices" (some response) _ e in
          (fs, rest, some-injective response (Value.dict fs) d, inl g)
      | inr e ↦
          let (fs, d, g) = at_key_lem "choices" (some response) _ e in
          (fs, rest, some-injective response (Value.dict fs) d, inr g)
    ]

found-IsReply :
    (response : Value) (o : Option Value)
    → at_key "content" (at_key "message" (at_first (at_key "choices" (some response)))) ≡ o
    → IsReply response (or_empty o)
found-IsReply response none h = inr refl
found-IsReply response (some v) h =
    let (message, e, content) = at_key_lem "content" _ v h in
    let (choice, e', same) = at_key_lem "message" _ (Value.dict message) e in
    let (fs, rest, d, g) = choices_lem response choice e' in
    inl (fs, choice, message, rest, d, g, same, content)

pub response_content-IsReply : (response : Value) → IsReply response (response_content response)
unfolding response_content
response_content-IsReply response = found-IsReply response _ refl

-- A text has become what the scrubber makes of it; of another value nothing is left.
abbrev pub IsScrubbed : Engine → Value → String → Type 0
IsScrubbed g (Value.str text) s = scrub_text g text ≡ ok s
IsScrubbed g v s = (s ≡ "") ⊎ (s ≡ "<REDACTED: PII ANALYZER MISSING>")

scrub_other-IsScrubbed :
    (g : Engine) (s : String)
    → scrub_other g ≡ ok s
    → (s ≡ "") ⊎ (s ≡ "<REDACTED: PII ANALYZER MISSING>")
scrub_other-IsScrubbed not_installed s h = inr (cc h)
scrub_other-IsScrubbed broken s h = cc h
scrub_other-IsScrubbed (engine f) s h = cc h

if_other :
    (b : Bool) (g : Engine) (s : String)
    → (if b then scrub_other g else ok "") ≡ ok s
    → (s ≡ "") ⊎ (s ≡ "<REDACTED: PII ANALYZER MISSING>")
if_other true g s h = scrub_other-IsScrubbed g s h
if_other false g s h = inl (cc h)

pub scrub_or_empty-IsScrubbed :
    (g : Engine) (v : Value) (s : String) → scrub_or_empty g v ≡ ok s → IsScrubbed g v s
unfolding scrub_or_empty
scrub_or_empty-IsScrubbed g (Value.str text) s h = h
scrub_or_empty-IsScrubbed g (Value.other v) s h = if_other (truthy (Value.other v)) g s h
scrub_or_empty-IsScrubbed g (Value.list v) s h = if_other (truthy (Value.list v)) g s h
scrub_or_empty-IsScrubbed g (Value.tuple v) s h = if_other (truthy (Value.tuple v)) g s h
scrub_or_empty-IsScrubbed g (Value.dict v) s h = if_other (truthy (Value.dict v)) g s h
