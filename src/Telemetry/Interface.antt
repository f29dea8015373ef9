-- ===== src/Telemetry/Interface.antt =====
-- What the telemetry uses of JSON, of the texts of UUIDs, of the bytes in Redis and of asyncpg.
use coreason_adlc_api.Prelude.{ℕ, ◌≡◌, String, Bool, false, Option, some}
use coreason_adlc_api.Prelude.Text.{str_eq}
use coreason_adlc_api.Json.{Value, Fields}

abbrev pub IsLeaf : Value → Type 0
IsLeaf (Value.other repr) = Unit
IsLeaf (Value.str s) = Unit
IsLeaf _ = ⊥

abbrev pub AreLeaves : Fields → Type 0
AreLeaves Fields.end = Unit
AreLeaves (Fields.field k v rest) = IsLeaf v × AreLeaves rest

pub record Messages : Type 1 where
  pub Data : Type 0
  pub dumps : Value → Data
  -- `none` where `json.loads` raises
  pub loads : Data → Option Value
  pub is_empty : Data → Bool
  pub uuid_text : ℕ → String
  -- `none` where `UUID` raises
  pub uuid : String → Option ℕ
  -- An object of texts, numbers and nulls is read back as it was written.
  pub loads-dumps :
      (fs : Fields) → AreLeaves fs → loads (dumps (Value.dict fs)) ≡ some (Value.dict fs)
  -- A JSON text is not empty, nor is that of a UUID.
  pub is_empty-dumps : (v : Value) → is_empty (dumps v) ≡ false
  pub uuid_text_lem : (id : ℕ) → str_eq (uuid_text id) "" ≡ false
  -- Whether asyncpg takes a value for a parameter of type TIMESTAMP WITH TIME ZONE: it documents that
  -- it takes a datetime, and it raises a DataError for a text.
  pub takes_timestamp : Value → Bool
  pub takes_timestamp-str : (s : String) → takes_timestamp (Value.str s) ≡ false
  pub uuid-uuid_text : (id : ℕ) → uuid (uuid_text id) ≡ some id
