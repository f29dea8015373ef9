-- ===== src/Pii/Clean.antt =====
-- A value in which the scrubber finds nothing, and that it is the one that equals its redaction.
use coreason_adlc_api.Prelude.{
  ◌≡◌, refl, ap, sym, ◌∙◌, inl, inr, Bool, true, false, ◌&&◌, String, Option, none, some, List,
  Option-cases, subst, some-injective, arith,
}
use coreason_adlc_api.Prelude.Text.{str_eq, eq_refl}
use coreason_adlc_api.Json.{Value, Items, Fields}
use coreason_adlc_api.Outcome.{Result, ok, raised, Result-cases}
use coreason_adlc_api.Pii.{Engine, scrub_text}
use coreason_adlc_api.Pii.Walk.{list_shape, dict_shape, keys_of}
use coreason_adlc_api.Pii.Redact.{
  redact, redact_items, redact_fields, to_items, zip_fields, and_cons, built, text_or_none,
}
use coreason_adlc_api.Pii.Compare.{value_eq, items_eq, fields_eq}

abbrev pub is_same : String → Result String → Bool
is_same text (ok s) = str_eq s text
is_same text (raised e) = false

and_cons_cases :
    (a : Option Value) (b : Option (List Value)) (ws : List Value)
    → and_cons a b ≡ some ws
    → (x : Value) × (xs : List Value) × (a ≡ some x) × (b ≡ some xs) × (List.◌∷◌ x xs ≡ ws)
and_cons_cases none b ws e = cc e
and_cons_cases (some x) none ws e = cc e
and_cons_cases (some x) (some xs) ws e = (x, xs, refl, refl, some-injective _ _ e)

clean_none :
    (a : Option Value) (b : Option (List Value)) (x y : Bool)
    → ((a ≡ none) → x ≡ false)
    → ((b ≡ none) → y ≡ false)
    → and_cons a b ≡ none
    → (x && y) ≡ false
clean_none none b x y f h e = rw (f refl) refl
clean_none (some v) none x y f h e = rw (h refl) (ground arith)
clean_none (some v) (some vs) x y f h e = cc e

module _ (g : Engine) where
  -- The scrubber leaves every text as it is, and there is no tuple.
  unfoldable mutual
    pub is_clean : Value → Bool
    is_clean (Value.other repr) = true
    is_clean (Value.str text) = is_same text (scrub_text g text)
    is_clean (Value.list vs) = are_clean vs
    is_clean (Value.tuple vs) = false
    is_clean (Value.dict fs) = have_clean fs

    pub are_clean : Items → Bool
    are_clean Items.nil = true
    are_clean (Items.cons v vs) = is_clean v && are_clean vs

    pub have_clean : Fields → Bool
    have_clean Fields.end = true
    have_clean (Fields.field k v fs) = is_clean v && have_clean fs

  mutual
    unfolding redact value_eq is_clean

    pub value_eq-redact : (v w : Value) → redact g v ≡ some w → value_eq w v ≡ is_clean v
    value_eq-redact (Value.other r) w e =
        subst (λ w. value_eq w (Value.other r) ≡ true) (some-injective _ _ e) (eq_refl r)
    value_eq-redact (Value.str t) w e = elim (Result-cases (scrub_text g t)) [
      | inl (s, p) ↦
          let same : Value.str s ≡ w = some-injective _ _ (ap (text_or_none g) (sym p) ∙ e) in
          subst (λ w. value_eq w (Value.str t) ≡ is_clean (Value.str t)) same (rw p refl)
      | inr (x, p) ↦ cc (ap (text_or_none g) (sym p) ∙ e)
    ]
    value_eq-redact (Value.list vs) w e = elim (Option-cases (redact_items g vs)) [
      | inl n ↦ cc (ap (built list_shape) (sym n) ∙ e)
      | inr (ws, p) ↦
          let same : Value.list (to_items ws) ≡ w =
            some-injective _ _ (ap (built list_shape) (sym p) ∙ e) in
          subst (λ w. value_eq w (Value.list vs) ≡ are_clean vs) same (items_eq-redact vs ws p)
    ]
    value_eq-redact (Value.tuple vs) w e = elim (Option-cases (redact_items g vs)) [
      | inl n ↦ cc (ap (built list_shape) (sym n) ∙ e)
      | inr (ws, p) ↦
          let same : Value.list (to_items ws) ≡ w =
            some-injective _ _ (ap (built list_shape) (sym p) ∙ e) in
          subst (λ w. value_eq w (Value.tuple vs) ≡ false) same refl
    ]
    value_eq-redact (Value.dict fs) w e = elim (Option-cases (redact_fields g fs)) [
      | inl n ↦ cc (ap (built (dict_shape (keys_of fs))) (sym n) ∙ e)
      | inr (ws, p) ↦
          let same : Value.dict (zip_fields (keys_of fs) ws) ≡ w =
            some-injective _ _ (ap (built (dict_shape (keys_of fs))) (sym p) ∙ e) in
          subst (λ w. value_eq w (Value.dict fs) ≡ have_clean fs) same (fields_eq-redact fs ws p)
    ]

    items_eq-redact :
        (vs : Items) (ws : List Value)
        → redact_items g vs ≡ some ws
        → items_eq (to_items ws) vs ≡ are_clean vs
    items_eq-redact Items.nil ws e =
        subst (λ ws. items_eq (to_items ws) Items.nil ≡ true) (some-injective _ _ e) refl
    items_eq-redact (Items.cons v vs) ws e =
        let (x, xs, p, q, same) = and_cons_cases (redact g v) (redact_items g vs) ws e in
        subst (λ ws. items_eq (to_items ws) (Items.cons v vs) ≡ are_clean (Items.cons v vs)) same
          (rw (value_eq-redact v x p) (rw (items_eq-redact vs xs q) refl))

    fields_eq-redact :
        (fs : Fields) (ws : List Value)
        → redact_fields g fs ≡ some ws
        → fields_eq (zip_fields (keys_of fs) ws) fs ≡ have_clean fs
    fields_eq-redact Fields.end ws e = refl
    fields_eq-redact (Fields.field k v fs) ws e =
        let (x, xs, p, q, same) = and_cons_cases (redact g v) (redact_fields g fs) ws e in
        subst
          (λ ws.
            fields_eq (zip_fields (keys_of (Fields.field k v fs)) ws) (Fields.field k v fs)
            ≡ have_clean (Fields.field k v fs))
          same (rw (eq_refl k) (rw (value_eq-redact v x p) (rw (fields_eq-redact fs xs q) refl)))

  -- What cannot be scrubbed is not clean.
  mutual
    unfolding redact is_clean

    pub is_clean-redact : (v : Value) → redact g v ≡ none → is_clean v ≡ false
    is_clean-redact (Value.other r) e = cc e
    is_clean-redact (Value.str t) e = elim (Result-cases (scrub_text g t)) [
      | inl (s, p) ↦ cc (ap (text_or_none g) (sym p) ∙ e)
      | inr (x, p) ↦ rw p refl
    ]
    is_clean-redact (Value.list vs) e = elim (Option-cases (redact_items g vs)) [
      | inl n ↦ are_clean-redact vs n
      | inr (ws, p) ↦ cc (ap (built list_shape) (sym p) ∙ e)
    ]
    is_clean-redact (Value.tuple vs) e = refl
    is_clean-redact (Value.dict fs) e = elim (Option-cases (redact_fields g fs)) [
      | inl n ↦ have_clean-redact fs n
      | inr (ws, p) ↦ cc (ap (built (dict_shape (keys_of fs))) (sym p) ∙ e)
    ]

    are_clean-redact : (vs : Items) → redact_items g vs ≡ none → are_clean vs ≡ false
    are_clean-redact Items.nil e = cc e
    are_clean-redact (Items.cons v vs) e =
        clean_none (redact g v) (redact_items g vs) (is_clean v) (are_clean vs) (is_clean-redact v)
          (are_clean-redact vs) e

    have_clean-redact : (fs : Fields) → redact_fields g fs ≡ none → have_clean fs ≡ false
    have_clean-redact Fields.end e = cc e
    have_clean-redact (Fields.field k v fs) e =
        clean_none (redact g v) (redact_fields g fs) (is_clean v) (have_clean fs)
          (is_clean-redact v) (have_clean-redact fs) e
