-- ===== src/Pii/Redact.antt =====
-- The recursive description of what scrub_pii_recursive makes of a value, and what it is for cells
-- to hold a value.
use coreason_adlc_api.Prelude.{
  ℕ, suc, ◌+◌, ◌≡◌, refl, ap, String, Option, none, some, List, [], ◌∷◌, arith,
}
use coreason_adlc_api.Json.{Value, Items, Fields}
use coreason_adlc_api.Outcome.{Result, ok, raised}
use coreason_adlc_api.Pii.{Engine, scrub_text}
use coreason_adlc_api.Pii.Walk.{
  Shape, list_shape, dict_shape, Slot, value, ref, Cells, items_of, keys_of, values_of,
}

abbrev pub to_items : List Value → Items
to_items [] = Items.nil
to_items (v ∷ vs) = Items.cons v (to_items vs)

abbrev pub zip_fields : List String → List Value → Fields
zip_fields [] vs = Fields.end
zip_fields (k ∷ ks) [] = Fields.end
zip_fields (k ∷ ks) (v ∷ vs) = Fields.field k v (zip_fields ks vs)

abbrev pub build : Shape → List Value → Value
build list_shape vs = Value.list (to_items vs)
build (dict_shape ks) vs = Value.dict (zip_fields ks vs)

abbrev pub and_cons : Option Value → Option (List Value) → Option (List Value)
and_cons none vs = none
and_cons (some v) none = none
and_cons (some v) (some vs) = some (v ∷ vs)

abbrev pub built : Shape → Option (List Value) → Option Value
built shape none = none
built shape (some vs) = some (build shape vs)

module _ (g : Engine) where
  abbrev pub text_or_none : Result String → Option Value
  text_or_none (ok text) = some (Value.str text)
  text_or_none (raised e) = none

  -- Every text is scrubbed, tuples become lists, and the rest stays; `none` if a text cannot be
  -- scrubbed.
  unfoldable mutual
    pub redact : Value → Option Value
    redact (Value.other repr) = some (Value.other repr)
    redact (Value.str text) = text_or_none (scrub_text g text)
    redact (Value.list vs) = built list_shape (redact_items vs)
    redact (Value.tuple vs) = built list_shape (redact_items vs)
    redact (Value.dict fs) = built (dict_shape (keys_of fs)) (redact_fields fs)

    pub redact_items : Items → Option (List Value)
    redact_items Items.nil = some []
    redact_items (Items.cons v vs) = and_cons (redact v) (redact_items vs)

    pub redact_fields : Fields → Option (List Value)
    redact_fields Fields.end = some []
    redact_fields (Fields.field k v fs) = and_cons (redact v) (redact_fields fs)

  unfoldable pub redact_all : List Value → Option (List Value)
  redact_all [] = some []
  redact_all (v ∷ vs) = and_cons (redact v) (redact_all vs)

  pub redact_items_lem : (vs : Items) → redact_items vs ≡ redact_all (items_of vs)
  unfolding redact redact_all
  redact_items_lem Items.nil = refl
  redact_items_lem (Items.cons v vs) = ap (and_cons (redact v)) (redact_items_lem vs)

  pub redact_fields_lem : (fs : Fields) → redact_fields fs ≡ redact_all (values_of fs)
  unfolding redact redact_all
  redact_fields_lem Fields.end = refl
  redact_fields_lem (Fields.field k v fs) = ap (and_cons (redact v)) (redact_fields_lem fs)

-- How many containers there are in a value: the rounds of the loop.
unfoldable mutual
  pub size : Value → ℕ
  size (Value.other repr) = 0
  size (Value.str text) = 0
  size (Value.list vs) = suc (size_items vs)
  size (Value.tuple vs) = suc (size_items vs)
  size (Value.dict fs) = suc (size_fields fs)

  pub size_items : Items → ℕ
  size_items Items.nil = 0
  size_items (Items.cons v vs) = size v + size_items vs

  pub size_fields : Fields → ℕ
  size_fields Fields.end = 0
  size_fields (Fields.field k v fs) = size v + size_fields fs

unfoldable pub size_all : List Value → ℕ
size_all [] = 0
size_all (v ∷ vs) = size v + size_all vs

pub size_items_lem : (vs : Items) → size_items vs ≡ size_all (items_of vs)
unfolding size size_all
size_items_lem Items.nil = refl
size_items_lem (Items.cons v vs) = omega (arith, size_items_lem vs)

pub size_fields_lem : (fs : Fields) → size_fields fs ≡ size_all (values_of fs)
unfolding size size_all
size_fields_lem Fields.end = refl
size_fields_lem (Fields.field k v fs) = omega (arith, size_fields_lem fs)

-- The slot holds the value: it is the value, or the address of a container whose slots hold the
-- parts of the value.
mutual
  pub data Holds (cells : Cells) : Slot → Value → Type 0 where
    plain : (v : Value) → Holds cells (value v) v
    at :
        (a : ℕ) (shape : Shape) (slots : List Slot) (vs : List Value)
        → cells a ≡ some (record { shape = shape; slots = slots })
        → HoldsAll cells slots vs
        → Holds cells (ref a) (build shape vs)

  pub data HoldsAll (cells : Cells) : List Slot → List Value → Type 0 where
    none_left : HoldsAll cells [] []
    and_next :
        (x : Slot) (xs : List Slot) (v : Value) (vs : List Value)
        → Holds cells x v
        → HoldsAll cells xs vs
        → HoldsAll cells (x ∷ xs) (v ∷ vs)
