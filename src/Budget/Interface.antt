-- ===== src/Budget/Interface.antt =====
-- The commands of Redis that the budget uses, with what their documentation says of them.
use coreason_adlc_api.Prelude.{ℕ, ◌+◌, ◌<◌, ◌≡◌, ◌≢◌, String, Option, none, some, if◌then◌else◌}
use coreason_adlc_api.Prelude.Text.{str_eq}

-- What PTTL answers: -2 for a missing key, -1 for a key with no expiry, else the time left.
pub data Ttl : Type 0 where
  missing persistent : Ttl
  expires : ℕ → Ttl

abbrev pub count : Option ℕ → ℕ
count none = 0
count (some n) = n

-- At one time, so no key runs out between the commands of a script.
pub record Redis : Type 1 where
  pub Store : Type 0
  pub get : String → Store → Option ℕ
  pub incr_by : String → ℕ → Store → ℕ × Store
  pub pttl : String → Store → Ttl
  pub expire : String → ℕ → Store → Store
  -- INCRBY counts a missing key as 0, answers the new value, and leaves the other keys.
  pub incr_by-value : (k : String) (n : ℕ) (s : Store) → (incr_by k n s).0 ≡ count (get k s) + n
  pub get-incr_by :
      (k j : String) (n : ℕ) (s : Store)
      → get j (incr_by k n s).1 ≡ (if str_eq k j then some (count (get k s) + n) else get j s)
  -- EXPIRE with a positive time keeps every value, and gives a key that is there an expiry.
  pub get-expire : (k j : String) (n : ℕ) (s : Store) → 0 < n → get j (expire k n s) ≡ get j s
  pub pttl-expire :
      (k : String) (n : ℕ) (s : Store) → 0 < n → get k s ≢ none → pttl k (expire k n s) ≢ persistent
