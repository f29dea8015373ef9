-- ===== src/Pii/Compare.antt =====
-- The comparison of what scrub_pii_recursive returns with its source, by `!=`. The keys of the copy
-- of a dictionary stand in the order of the source.
use coreason_adlc_api.Prelude.{
  ◌≡◌, refl, ap, ◌∙◌, Bool, true, false, ◌&&◌, String, Option, none, some, List, [], ◌∷◌,
}
use coreason_adlc_api.Prelude.Text.{str_eq}
use coreason_adlc_api.Json.{Value, Items, Fields}
use coreason_adlc_api.Pii.Walk.{
  Shape, list_shape, dict_shape, Slot, value, ref, Container, Cells, Returned, plain, container,
  as_tuple,
}
use coreason_adlc_api.Pii.Redact.{Holds, HoldsAll, none_left, and_next, at, to_items, zip_fields}
use coreason_adlc_api.Pii.Recursion.{Represents}

-- `==` of two values, of which one is made from the other
unfoldable mutual
  pub value_eq : Value → Value → Bool
  value_eq (Value.other a) (Value.other b) = str_eq a b
  value_eq (Value.str a) (Value.str b) = str_eq a b
  value_eq (Value.list a) (Value.list b) = items_eq a b
  value_eq (Value.tuple a) (Value.tuple b) = items_eq a b
  value_eq (Value.dict a) (Value.dict b) = fields_eq a b
  value_eq _ _ = false

  pub items_eq : Items → Items → Bool
  items_eq Items.nil Items.nil = true
  items_eq (Items.cons a as_) (Items.cons b bs) = value_eq a b && items_eq as_ bs
  items_eq _ _ = false

  pub fields_eq : Fields → Fields → Bool
  fields_eq Fields.end Fields.end = true
  fields_eq (Fields.field k a as_) (Fields.field j b bs) =
      str_eq k j && (value_eq a b && fields_eq as_ bs)
  fields_eq _ _ = false

abbrev if_list_shape : Shape → Bool → Bool
if_list_shape list_shape b = b
if_list_shape (dict_shape ks) b = false

abbrev if_dict_shape : Shape → (List String → Bool) → Bool
if_dict_shape list_shape test = false
if_dict_shape (dict_shape ks) test = test ks

abbrev if_list : Option Container → (List Slot → Bool) → Bool
if_list none test = false
if_list (some c) test = if_list_shape c.shape (test c.slots)

abbrev if_dict : Option Container → (List String → List Slot → Bool) → Bool
if_dict none test = false
if_dict (some c) test = if_dict_shape c.shape (λ ks. test ks c.slots)

-- The same with an object in cells on the left.
unfoldable mutual
  pub slot_eq : Cells → Slot → Value → Bool
  slot_eq cells (value w) v = value_eq w v
  slot_eq cells (ref a) (Value.list vs) = if_list (cells a) (λ xs. slots_eq cells xs vs)
  slot_eq cells (ref a) (Value.dict fs) = if_dict (cells a) (λ ks xs. entries_eq cells ks xs fs)
  slot_eq cells (ref a) v = false

  pub slots_eq : Cells → List Slot → Items → Bool
  slots_eq cells [] Items.nil = true
  slots_eq cells (x ∷ xs) (Items.cons v vs) = slot_eq cells x v && slots_eq cells xs vs
  slots_eq cells _ _ = false

  pub entries_eq : Cells → List String → List Slot → Fields → Bool
  entries_eq cells (k ∷ ks) (x ∷ xs) (Fields.field j v fs) =
      str_eq k j && (slot_eq cells x v && entries_eq cells ks xs fs)
  entries_eq cells [] xs Fields.end = true
  entries_eq cells (k ∷ ks) [] Fields.end = true
  entries_eq cells _ _ _ = false

-- `==` of what is returned with the source
unfoldable pub returned_eq : Cells → Returned → Value → Bool
returned_eq cells (plain w) v = value_eq w v
returned_eq cells container v = slot_eq cells (ref 0) v
returned_eq cells as_tuple (Value.tuple vs) = slot_eq cells (ref 0) (Value.list vs)
returned_eq cells as_tuple v = false

-- Cells that hold a value compare as the value does.
mutual
  unfolding slot_eq value_eq

  slot_eq_lem :
      (cells : Cells) (x : Slot) (w v : Value) → Holds cells x w → slot_eq cells x v ≡ value_eq w v
  slot_eq_lem cells x w v (Holds.plain u) = refl
  slot_eq_lem cells x w (Value.list us) (at a list_shape slots vs e all) =
      ap (λ c. if_list c (λ xs. slots_eq cells xs us)) e ∙ slots_eq_lem cells slots vs us all
  slot_eq_lem cells x w (Value.list us) (at a (dict_shape ks) slots vs e all) =
      ap (λ c. if_list c (λ xs. slots_eq cells xs us)) e
  slot_eq_lem cells x w (Value.dict fs) (at a list_shape slots vs e all) =
      ap (λ c. if_dict c (λ ks xs. entries_eq cells ks xs fs)) e
  slot_eq_lem cells x w (Value.dict fs) (at a (dict_shape ks) slots vs e all) =
      ap (λ c. if_dict c (λ ks xs. entries_eq cells ks xs fs)) e
      ∙ entries_eq_lem cells ks slots vs fs all
  slot_eq_lem cells x w (Value.other s) (at a list_shape slots vs e all) = refl
  slot_eq_lem cells x w (Value.other s) (at a (dict_shape ks) slots vs e all) = refl
  slot_eq_lem cells x w (Value.str s) (at a list_shape slots vs e all) = refl
  slot_eq_lem cells x w (Value.str s) (at a (dict_shape ks) slots vs e all) = refl
  slot_eq_lem cells x w (Value.tuple s) (at a list_shape slots vs e all) = refl
  slot_eq_lem cells x w (Value.tuple s) (at a (dict_shape ks) slots vs e all) = refl

  slots_eq_lem :
      (cells : Cells) (xs : List Slot) (vs : List Value) (us : Items)
      → HoldsAll cells xs vs
      → slots_eq cells xs us ≡ items_eq (to_items vs) us
  slots_eq_lem cells xs vs Items.nil none_left = refl
  slots_eq_lem cells xs vs (Items.cons u us) none_left = refl
  slots_eq_lem cells xs vs Items.nil (and_next y ys z zs h all) = refl
  slots_eq_lem cells xs vs (Items.cons u us) (and_next y ys z zs h all) =
      rw (slot_eq_lem cells y z u h) (rw (slots_eq_lem cells ys zs us all) refl)

  entries_eq_lem :
      (cells : Cells) (ks : List String) (xs : List Slot) (vs : List Value) (fs : Fields)
      → HoldsAll cells xs vs
      → entries_eq cells ks xs fs ≡ fields_eq (zip_fields ks vs) fs
  entries_eq_lem cells [] xs vs Fields.end h = refl
  entries_eq_lem cells [] xs vs (Fields.field j u fs) h = refl
  entries_eq_lem cells (k ∷ ks) xs vs Fields.end none_left = refl
  entries_eq_lem cells (k ∷ ks) xs vs (Fields.field j u fs) none_left = refl
  entries_eq_lem cells (k ∷ ks) xs vs Fields.end (and_next y ys z zs h all) = refl
  entries_eq_lem cells (k ∷ ks) xs vs (Fields.field j u fs) (and_next y ys z zs h all) =
      rw (slot_eq_lem cells y z u h) (rw (entries_eq_lem cells ks ys zs fs all) refl)

pub returned_eq_lem :
    (cells : Cells) (r : Returned) (w v : Value)
    → Represents cells r w
    → returned_eq cells r v ≡ value_eq w v
unfolding returned_eq Represents value_eq
returned_eq_lem cells (plain u) w v h = ap (λ x. value_eq x v) h
returned_eq_lem cells container w v h = slot_eq_lem cells (ref 0) w v h
returned_eq_lem cells as_tuple (Value.tuple us) (Value.tuple vs) h =
    slot_eq_lem cells (ref 0) (Value.list us) (Value.list vs) h
returned_eq_lem cells as_tuple (Value.tuple us) (Value.list vs) h = refl
returned_eq_lem cells as_tuple (Value.tuple us) (Value.dict vs) h = refl
returned_eq_lem cells as_tuple (Value.tuple us) (Value.str vs) h = refl
returned_eq_lem cells as_tuple (Value.tuple us) (Value.other vs) h = refl
returned_eq_lem cells as_tuple (Value.list us) v h = absurd h
returned_eq_lem cells as_tuple (Value.dict us) v h = absurd h
returned_eq_lem cells as_tuple (Value.str us) v h = absurd h
returned_eq_lem cells as_tuple (Value.other us) v h = absurd h
