-- ===== src/Breaker.antt =====
-- src/coreason_adlc_api/middleware/circuit_breaker.py: the circuit breaker of one provider.
-- `time.time()` is read as a number of ticks; each reading is an argument. A call is two steps,
-- since other calls may run while it waits: `aenter`, then `aexit` with how the body ended.
pub mod Window
pub mod Trace
pub mod Recovery
mod Scenarios
use coreason_adlc_api.Prelude.{
  ℕ, ◌+◌, ◌-◌, Bool, Option, none, some, List, [], ◌∷◌, ◌++◌, ltb, leb, length, if◌then◌else◌,
}

pub data CircuitState : Type 0 where
  closed open_ half_open : CircuitState

pub record AsyncCircuitBreaker : Type 0 where
  pub fail_max : ℕ
  pub reset_timeout : ℕ
  pub time_window : ℕ
  pub failure_history : List ℕ
  pub state : CircuitState
  pub last_failure_time : ℕ

-- `__init__`
unfoldable pub new : ℕ → ℕ → ℕ → AsyncCircuitBreaker
new fail_max reset_timeout time_window = record {
  fail_max = fail_max;
  reset_timeout = reset_timeout;
  time_window = time_window;
  failure_history = [];
  state = closed;
  last_failure_time = 0;
}

-- `_prune_history`; `h <= now - window` is `h + window <= now`, for a difference below zero.
unfoldable pub prune_history : ℕ → ℕ → List ℕ → List ℕ
prune_history window now [] = []
prune_history window now (h ∷ hs) =
    let rest = prune_history window now hs in if leb (h + window) now then rest else h ∷ hs

-- `_handle_failure`
unfoldable pub handle_failure : ℕ → AsyncCircuitBreaker → AsyncCircuitBreaker
handle_failure now b =
    let history = prune_history b.time_window now (b.failure_history ++ now ∷ []) in
    let b' = record b { last_failure_time = now; failure_history = history } in
    if leb b.fail_max (length history) then record b' { state = open_ } else b'

abbrev recover : CircuitState → CircuitState
recover half_open = closed
recover s = s

-- `_handle_success`
unfoldable pub handle_success : AsyncCircuitBreaker → AsyncCircuitBreaker
handle_success b = record b { state = recover b.state; failure_history = [] }

-- The test that `call` and `__aenter__` begin with: `none` is `CircuitBreakerOpenError`.
admit : CircuitState → ℕ → AsyncCircuitBreaker → Option AsyncCircuitBreaker
admit open_ now b =
    if ltb b.reset_timeout (now - b.last_failure_time)
    then some (record b { state = half_open })
    else none
admit s now b = some b

-- `__aenter__`
unfoldable pub aenter : ℕ → AsyncCircuitBreaker → Option AsyncCircuitBreaker
unfolding admit
aenter now b = admit b.state now b

-- `__aexit__`; `failed` is `exc_type` being set, at the time `now`.
unfoldable pub aexit : Bool → ℕ → AsyncCircuitBreaker → AsyncCircuitBreaker
aexit failed now b = if failed then handle_failure now b else handle_success b

-- How the awaited function of `call` ends: `aborted` is an exception that is no `Exception`, such
-- as the cancellation of the task, which `except Exception` does not catch.
pub data Ending (A : Type 0) : Type 0 where
  returned : A → Ending A
  raised : Ending A
  aborted : Ending A

-- What `call` returns or raises.
pub data CallResult (A : Type 0) : Type 0 where
  circuit_open : CallResult A
  ended : Ending A → CallResult A

settle : {A : Type 0} → Ending A → ℕ → AsyncCircuitBreaker → AsyncCircuitBreaker
unfolding handle_failure handle_success
settle (returned a) now b = handle_success b
settle raised now b = handle_failure now b
settle aborted now b = b

-- `call`: the circuit is tested at `begun`; the function ends at `now` as `ending` says.
unfoldable pub call :
    {A : Type 0} → ℕ → Ending A → ℕ → AsyncCircuitBreaker → CallResult A × AsyncCircuitBreaker
unfolding aenter settle
call begun ending now b = elim (aenter begun b) [
  | none ↦ (circuit_open, b)
  | some b' ↦ (ended ending, settle ending now b')
]
