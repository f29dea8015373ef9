-- ===== src/Budget.antt =====
-- src/coreason_adlc_api/middleware/budget.py: the daily budget of a user, kept in Redis.
-- An amount in dollars, a float in the source, is a whole number of 10⁻¹² dollars (the rounding of
-- floats is left out), and one in micros a whole number of 10⁻⁶ dollars.
pub mod Interface
pub mod Bounds
pub mod Accounts
pub mod Samples
mod Scenarios
use coreason_adlc_api.Prelude.{
  ℕ, ◌+◌, ◌/◌, String, Bool, true, false, Option, none, some, ltb, ◌==◌, if◌then◌else◌,
}
use coreason_adlc_api.Prelude.Int.{ℤ, pos, negsuc}
use coreason_adlc_api.Prelude.Text.{text_append}
use coreason_adlc_api.Outcome.{
  Result, ok, raised, http, value_error, negative_cost, budget_exceeded, budget_unavailable,
  budget_internal_error,
}
use coreason_adlc_api.Budget.Interface.{Redis, Ttl, persistent}

-- What the script returns.
pub record Reply : Type 0 where
  pub is_allowed : ℕ
  pub balance : ℕ
  pub is_new : ℕ

-- `tonumber(redis.call('GET', key) or "0")`
abbrev pub number : Option ℕ → ℕ
number none = 0
number (some n) = n

-- `ttl == -1`
abbrev pub no_expiry : Ttl → Bool
no_expiry persistent = true
no_expiry _ = false

-- How the round trip to Redis ends. A connection may break before the script has run or after.
pub data Trip : Type 0 where
  answered : Trip
  redis_error : Bool → Trip
  other_error : Bool → Trip

-- `int(amount * 1_000_000)`, for an amount that is not negative
abbrev pub micros : ℕ → ℕ
micros amount = amount / 1000000

abbrev pub budget_expiry : ℕ
budget_expiry = 172800

module _ (r : Redis) where
  open r use {Store, get, incr_by, pttl, expire}

  -- BUDGET_LUA_SCRIPT, which Redis runs as one step
  unfoldable pub budget_lua_script : String → ℕ → ℕ → ℕ → Store → Reply × Store
  budget_lua_script key cost limit expiry s =
      if ltb limit (number (get key s) + cost)
      then (record { is_allowed = 0; balance = number (get key s); is_new = 0 }, s)
      else (let (balance, s') = incr_by key cost s in
          if no_expiry (pttl key s')
          then (record { is_allowed = 1; balance = balance; is_new = 1 }, expire key expiry s')
          else (record { is_allowed = 1; balance = balance; is_new = 0 }, s'))

  -- f"budget:{today}:{user_id}", with the text of a UUID
  abbrev pub budget_key : (ℕ → String) → String → ℕ → String
  budget_key uuid_text today user_id =
      text_append "budget:" (text_append today (text_append ":" (uuid_text user_id)))

  -- from the reply to the answer of `check_budget_guardrail`
  abbrev pub decide_reply : Reply × Store → Result Bool × Store
  decide_reply (reply, s) =
      (if reply.is_allowed == 0 then raised (http 402 budget_exceeded) else ok true, s)

  abbrev pub after_failure : Bool → Reply × Store → Store → Store
  after_failure executed (reply, s') s = if executed then s' else s

  -- the `try` of `check_budget_guardrail`
  unfoldable pub evaluate : Trip → String → ℕ → ℕ → Store → Result Bool × Store
  evaluate answered key cost limit s =
      decide_reply (budget_lua_script key cost limit budget_expiry s)
  evaluate (redis_error executed) key cost limit s = (
    raised (http 503 budget_unavailable),
    after_failure executed (budget_lua_script key cost limit budget_expiry s) s,
  )
  evaluate (other_error executed) key cost limit s = (
    raised (http 500 budget_internal_error),
    after_failure executed (budget_lua_script key cost limit budget_expiry s) s,
  )

  unfoldable pub check_budget_guardrail : Trip → String → ℤ → ℕ → Store → Result Bool × Store
  check_budget_guardrail trip key (negsuc _) limit s = (raised (value_error negative_cost), s)
  check_budget_guardrail trip key (pos cost) limit s =
      evaluate trip key (micros cost) (micros limit) s

  abbrev pub status_of : Option ℕ → ℕ → Bool
  status_of none limit = true
  status_of (some spent) limit = ltb spent limit

  -- The read-only check; any error answers False.
  unfoldable pub check_budget_status : Trip → String → ℕ → Store → Bool
  check_budget_status answered key limit s = status_of (get key s) (micros limit)
  check_budget_status _ key limit s = false
