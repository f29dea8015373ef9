-- ===== src/Telemetry/Samples.antt =====
-- Messages that a run can use: an entry is the value itself, and the text of a UUID is in unary.
use coreason_adlc_api.Prelude.{
  ℕ, zero, suc, ◌≡◌, refl, ap, String, Bool, false, Option, none, some, Bool-cases, inl, inr, arith,
}
use Prim.Native.Char.{char}
use Prim.Native.String.{[] as text_nil, ◌∷◌ as text_cons}
use coreason_adlc_api.Prelude.Text.{str_eq, eq_iff}
use coreason_adlc_api.Json.{Value}
use coreason_adlc_api.Telemetry.Interface.{Messages}

abbrev pub tally : ℕ → String
tally zero = text_cons (char 120 tt) text_nil
tally (suc n) = text_cons (char 120 tt) (tally n)

abbrev pub size_of : String → ℕ
size_of text_nil = 0
size_of (text_cons c s) = suc (size_of s)

abbrev pub untally : String → Option ℕ
untally text_nil = none
untally (text_cons c s) = some (size_of s)

pub untally-tally : (n : ℕ) → untally (tally n) ≡ some n
untally-tally zero = refl
untally-tally (suc n) = ap some (size_of-tally n)
  where
    size_of-tally : (n : ℕ) → size_of (tally n) ≡ suc n
    size_of-tally zero = refl
    size_of-tally (suc n) = ap suc (size_of-tally n)

pub tally_lem : (n : ℕ) → str_eq (tally n) "" ≡ false
tally_lem zero = refl
tally_lem (suc n) = elim (Bool-cases (str_eq (tally (suc n)) "")) [
  | inl e ↦ absurd (omega (arith, ap size_of ((eq_iff (tally (suc n)) "").0 e)))
  | inr e ↦ e
]

-- A NULL only.
abbrev pub takes : Value → Bool
takes (Value.other repr) = str_eq repr "None"
takes _ = false

abbrev pub messages : Messages
messages = record {
  Data = Value;
  dumps = λ v. v;
  loads = λ v. some v;
  is_empty = λ v. false;
  uuid_text = tally;
  uuid = untally;
  loads-dumps = λ fs leaves. refl;
  is_empty-dumps = λ v. refl;
  uuid_text_lem = tally_lem;
  takes_timestamp = takes;
  takes_timestamp-str = λ s. refl;
  uuid-uuid_text = untally-tally;
}
