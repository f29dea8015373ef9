-- ===== src/Json.antt =====
-- Python values as JSON data, with the tuples that only Python has.
-- `other` is any value that is no str, dict, list or tuple (a number, a bool, None), by its repr.
use coreason_adlc_api.Prelude.{String, Bool, true, false, not, [], ◌∷◌, if◌then◌else◌}
use coreason_adlc_api.Prelude.Text.{str_eq, contains}

mutual
  pub data Value : Type 0 where
    other : String → Value
    str : String → Value
    list : Items → Value
    tuple : Items → Value
    dict : Fields → Value

  pub data Items : Type 0 where
    nil : Items
    cons : Value → Items → Items

  pub data Fields : Type 0 where
    end : Fields
    field : String → Value → Fields → Fields

-- `bool(v)`
abbrev pub truthy : Value → Bool
truthy (Value.other repr) = not (contains repr ("None" ∷ "False" ∷ "0" ∷ "0.0" ∷ "-0.0" ∷ []))
truthy (Value.str s) = not (str_eq s "")
truthy (Value.list Items.nil) = false
truthy (Value.tuple Items.nil) = false
truthy (Value.dict Fields.end) = false
truthy _ = true

-- `get(key)` of a dictionary
abbrev pub get : String → Fields → Value
get key Fields.end = Value.other "None"
get key (Fields.field k v rest) = if str_eq k key then v else get key rest
