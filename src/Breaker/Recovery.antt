-- ===== src/Breaker/Recovery.antt =====
-- How a breaker that has opened behaves: it refuses for the time-out, and then tries again.
use coreason_adlc_api.Prelude.{
  ℕ, ◌+◌, ◌≤◌, ◌<◌, ◌≡◌, ◌⊎◌, none, some, List, [], ◌∷◌, ◌++◌, arith, ◌∙◌, filter-append, lt→ltb,
}
use coreason_adlc_api.Breaker.{
  AsyncCircuitBreaker, closed, open_, half_open, new, prune_history, handle_failure, handle_success,
  aenter, aexit, call, returned, raised, circuit_open, ended,
}
use coreason_adlc_api.Breaker.Window.{within, filter_old, prune_history-snoc}
use coreason_adlc_api.Breaker.Trace.{
  Event, enter, succeed, fail, last_time, step, run, Ordered, Tracks, run-Tracks, new-Tracks,
  failures_since_success,
}

-- No body is entered after `deadline`; bodies that began before may still end.
abbrev pub EntriesBy : ℕ → List Event → Type 0
EntriesBy deadline [] = Unit
EntriesBy deadline (enter t ∷ es) = (t ≤ deadline) × EntriesBy deadline es
EntriesBy deadline (succeed t ∷ es) = EntriesBy deadline es
EntriesBy deadline (fail t ∷ es) = EntriesBy deadline es

record CoolsUntil (deadline t : ℕ) (b : AsyncCircuitBreaker) : Type 0 where
  is_open : b.state ≡ open_
  until : deadline ≤ b.last_failure_time + b.reset_timeout
  past : b.last_failure_time ≤ t

enter-CoolsUntil :
    (deadline t now : ℕ) (b : AsyncCircuitBreaker)
    → t ≤ now
    → now ≤ deadline
    → CoolsUntil deadline t b
    → CoolsUntil deadline now (step b (enter now))
unfolding step aenter
enter-CoolsUntil deadline t now b le early h = ground arith

succeed-CoolsUntil :
    (deadline t now : ℕ) (b : AsyncCircuitBreaker)
    → t ≤ now
    → CoolsUntil deadline t b
    → CoolsUntil deadline now (step b (succeed now))
unfolding step aexit handle_success
succeed-CoolsUntil deadline t now b le h = ground arith

fail-CoolsUntil :
    (deadline t now : ℕ) (b : AsyncCircuitBreaker)
    → t ≤ now
    → CoolsUntil deadline t b
    → CoolsUntil deadline now (step b (fail now))
unfolding step aexit handle_failure
fail-CoolsUntil deadline t now b le h = ground arith

run-CoolsUntil :
    (deadline t : ℕ) (es : List Event) (b : AsyncCircuitBreaker)
    → Ordered t es
    → EntriesBy deadline es
    → CoolsUntil deadline t b
    → CoolsUntil deadline (last_time t es) (run b es)
unfolding run
run-CoolsUntil deadline t [] b o k h = h
run-CoolsUntil deadline t (enter now ∷ es) b o k h =
    run-CoolsUntil deadline now es (step b (enter now)) o.1 k.1
      (enter-CoolsUntil deadline t now b o.0 k.0 h)
run-CoolsUntil deadline t (succeed now ∷ es) b o k h =
    run-CoolsUntil deadline now es (step b (succeed now)) o.1 k
      (succeed-CoolsUntil deadline t now b o.0 h)
run-CoolsUntil deadline t (fail now ∷ es) b o k h =
    run-CoolsUntil deadline now es (step b (fail now)) o.1 k
      (fail-CoolsUntil deadline t now b o.0 h)

-- From an open breaker, whatever bodies that are still running end in whatever way, in order of
-- time and none before the last failure: as long as no entry is tried later than the reset
-- time-out after that failure, the breaker stays open and refuses each entry up to then.
pub open_refuses :
    (es : List Event) (t : ℕ) (b : AsyncCircuitBreaker)
    → b.state ≡ open_
    → Ordered b.last_failure_time es
    → EntriesBy (b.last_failure_time + b.reset_timeout) es
    → t ≤ b.last_failure_time + b.reset_timeout
    → ((run b es).state ≡ open_) × (aenter t (run b es) ≡ none)
unfolding aenter
open_refuses es t b o ordered early le =
    let h =
      run-CoolsUntil (b.last_failure_time + b.reset_timeout) b.last_failure_time es b ordered early
        (record { is_open = o; until = omega arith; past = omega arith }) in
    (h.is_open, ground (arith, h.is_open, h.until))

-- `call` raises `CircuitBreakerOpenError` exactly when the circuit is open and no more than the
-- reset time-out has passed since the last failure, and then it changes nothing. A call that goes
-- through and returns leaves the circuit closed with no failure on record.
pub call_success :
    {A : Type 0} (begun now : ℕ) (a : A) (b : AsyncCircuitBreaker)
    → let (r, b') = call begun (returned a) now b in
      ((r ≡ circuit_open)
        × (b' ≡ b)
        × (b.state ≡ open_)
        × (begun ≤ b.last_failure_time + b.reset_timeout))
      ⊎ ((r ≡ ended (returned a))
          × (b'.state ≡ closed)
          × (b'.failure_history ≡ [])
          × ((b.state ≡ open_) → b.last_failure_time + b.reset_timeout < begun))
unfolding call aenter handle_success
call_success begun now a b = ground arith

trial_failure :
    {A : Type 0} (begun now t : ℕ) (b : AsyncCircuitBreaker)
    → 1 < b.fail_max
    → b.state ≡ open_
    → b.last_failure_time + b.reset_timeout < begun
    → prune_history b.time_window now (b.failure_history ++ now ∷ []) ≡ now ∷ []
    → let (r, b') = call {A = A} begun raised now b in
      (r ≡ ended raised)
      × (b'.state ≡ half_open)
      × (b'.failure_history ≡ now ∷ [])
      × (aenter t b' ≡ some b')
unfolding call aenter handle_failure
trial_failure begun now t b big o late pruned = ground arith

module _ (fail_max reset_timeout window : ℕ) (some_max : 1 < fail_max) where
  alone_after :
      (now t : ℕ) (fs : List ℕ) (b : AsyncCircuitBreaker)
      → 0 < window
      → b.last_failure_time + window ≤ now
      → Tracks fail_max reset_timeout window t fs b
      → prune_history b.time_window now (b.failure_history ++ now ∷ []) ≡ now ∷ []
  alone_after now t fs b positive late h =
      rw (h.same_window, h.windowed)
        (prune_history-snoc window b.last_failure_time now fs (omega arith) h.latest h.sorted
          ∙ filter-append (within window now) fs (now ∷ [])
          ∙ rw (filter_old window b.last_failure_time now fs late h.latest)
              (rw (lt→ltb now (now + window) (omega arith))))

  -- A breaker with a `fail_max` of two or more and a window that is positive and no longer than
  -- the reset time-out, after any interleaving in order of time: if it is open and a call that
  -- begins after the time-out raises, the breaker does not open again. It stays half-open with
  -- that failure alone on record, so the next entry is let in at any time.
  pub trial_failure_stays_half_open :
      {A : Type 0} (es : List Event) (begun now t : ℕ)
      → 0 < window
      → window ≤ reset_timeout
      → Ordered 0 es
      → let b = run (new fail_max reset_timeout window) es in
        b.state ≡ open_
        → b.last_failure_time + reset_timeout < begun
        → begun ≤ now
        → let (r, b') = call {A = A} begun raised now b in
          (r ≡ ended raised)
          × (b'.state ≡ half_open)
          × (b'.failure_history ≡ now ∷ [])
          × (aenter t b' ≡ some b')
  trial_failure_stays_half_open es begun now t positive short o is_open late le =
      let b = run (new fail_max reset_timeout window) es in
      let h =
        run-Tracks fail_max reset_timeout window (omega arith) 0 es []
          (new fail_max reset_timeout window) o
          (new-Tracks fail_max reset_timeout window (omega arith)) in
      trial_failure begun now t b (rw h.same_max some_max) is_open (omega (arith, h.same_timeout))
        (alone_after now (last_time 0 es) (failures_since_success [] es) b positive (omega arith) h)
