-- ===== src/Budget/Samples.antt =====
-- A Redis with every key in one function.
use coreason_adlc_api.Prelude.{
  ℕ, zero, suc, ◌+◌, ◌≢◌, refl, String, Option, none, some, if◌then◌else◌,
}
use coreason_adlc_api.Prelude.Text.{str_eq, eq_refl}
use coreason_adlc_api.Budget.Interface.{Redis, Ttl, missing, persistent, expires, count}

pub record Tables : Type 0 where
  pub values : String → Option ℕ
  pub timers : String → Option ℕ

abbrev pub ttl_of : Option ℕ → Option ℕ → Ttl
ttl_of none t = missing
ttl_of (some n) none = persistent
ttl_of (some n) (some t) = expires t

abbrev pub there : Option ℕ → ℕ → Option ℕ
there none n = none
there (some v) n = some n

pub timed : (o : Option ℕ) (n : ℕ) → o ≢ none → ttl_of o (there o n) ≢ persistent
timed none n h p = h refl
timed (some v) n h p = cc p

abbrev pub redis : Redis
redis = record {
  Store = Tables;
  get = λ k s. s.values k;
  incr_by = λ k n s. (
    count (s.values k) + n,
    record {
      values = λ j. if str_eq k j then some (count (s.values k) + n) else s.values j;
      timers = s.timers;
    },
  );
  pttl = λ k s. ttl_of (s.values k) (s.timers k);
  expire = λ k n s. record {
    values = s.values;
    timers = λ j. if str_eq k j then there (s.values k) n else s.timers j;
  };
  incr_by-value = λ k n s. refl;
  get-incr_by = λ k j n s. refl;
  get-expire = λ k j n s h. refl;
  pttl-expire = λ k n s h there_. rw (eq_refl k) (timed (s.values k) n there_);
}

abbrev pub empty : Tables
empty = record { values = λ k. none; timers = λ k. none }

-- 50 dollars
abbrev pub limit : ℕ
limit = 50000000000000

abbrev pub text_of : ℕ → String
text_of zero = "u0"
text_of (suc _) = "u1"
