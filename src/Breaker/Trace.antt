-- ===== src/Breaker/Trace.antt =====
-- Interleaved use of one breaker: the calls that overlap are a sequence of entries and exits, in
-- the order of the clock readings.
use coreason_adlc_api.Prelude.{
  ℕ, ◌≤◌, ◌<◌, ◌≡◌, ◌↔◌, ◌⊎◌, true, false, Option, none, some, List, [], ◌∷◌, ◌++◌, arith, length,
  filter,
}
use coreason_adlc_api.Breaker.{
  AsyncCircuitBreaker, closed, open_, new, prune_history, handle_failure, handle_success, aenter,
  aexit,
}
use coreason_adlc_api.Breaker.Window.{
  within, IsSorted, IsSorted-snoc, UpTo, UpTo-nil, UpTo-snoc, prune_history-snoc,
}

-- A body is entered, ends well, or ends with an exception.
pub data Event : Type 0 where
  enter succeed fail : ℕ → Event

abbrev pub time : Event → ℕ
time (enter t) = t
time (succeed t) = t
time (fail t) = t

abbrev pub or_same : AsyncCircuitBreaker → Option AsyncCircuitBreaker → AsyncCircuitBreaker
or_same b none = b
or_same b (some b') = b'

-- An entry that is refused leaves the breaker as it was.
unfoldable pub step : AsyncCircuitBreaker → Event → AsyncCircuitBreaker
step b (enter t) = or_same b (aenter t b)
step b (succeed t) = aexit false t b
step b (fail t) = aexit true t b

unfoldable pub run : AsyncCircuitBreaker → List Event → AsyncCircuitBreaker
run b [] = b
run b (e ∷ es) = run (step b e) es

-- The clock readings do not go back, and begin no earlier than `t`.
abbrev pub Ordered : ℕ → List Event → Type 0
Ordered t [] = Unit
Ordered t (e ∷ es) = (t ≤ time e) × Ordered (time e) es

abbrev pub last_time : ℕ → List Event → ℕ
last_time t [] = t
last_time t (e ∷ es) = last_time (time e) es

-- The failures since the last success, however old, and the time of the last one.
abbrev record_failure : Event → List ℕ → List ℕ
record_failure (enter t) fs = fs
record_failure (succeed t) fs = []
record_failure (fail t) fs = fs ++ t ∷ []

unfoldable pub failures_since_success : List ℕ → List Event → List ℕ
failures_since_success fs [] = fs
failures_since_success fs (e ∷ es) = failures_since_success (record_failure e fs) es

pub record Tracks (fail_max reset_timeout window t : ℕ) (fs : List ℕ) (b : AsyncCircuitBreaker)
    : Type 0 where
  pub same_max : b.fail_max ≡ fail_max
  pub same_timeout : b.reset_timeout ≡ reset_timeout
  pub same_window : b.time_window ≡ window
  pub past : b.last_failure_time ≤ t
  pub latest : UpTo b.last_failure_time fs
  pub sorted : IsSorted fs
  pub windowed : b.failure_history ≡ filter (within window b.last_failure_time) fs
  pub closed_below : b.state ≡ closed → length b.failure_history < fail_max

module _ (fail_max reset_timeout window : ℕ) (some_max : 0 < fail_max) where
  enter-Tracks :
      (t now : ℕ) (fs : List ℕ) (b : AsyncCircuitBreaker)
      → t ≤ now
      → Tracks fail_max reset_timeout window t fs b
      → Tracks fail_max reset_timeout window now fs (step b (enter now))
  unfolding step aenter
  enter-Tracks t now fs b le h = ground arith

  succeed-Tracks :
      (t now : ℕ) (fs : List ℕ) (b : AsyncCircuitBreaker)
      → t ≤ now
      → Tracks fail_max reset_timeout window t fs b
      → Tracks fail_max reset_timeout window now [] (step b (succeed now))
  unfolding step aexit handle_success
  succeed-Tracks t now fs b le h = ground (arith, UpTo-nil b.last_failure_time)

  pruned_at_failure :
      (t now : ℕ) (fs : List ℕ) (b : AsyncCircuitBreaker)
      → t ≤ now
      → Tracks fail_max reset_timeout window t fs b
      → prune_history b.time_window now (b.failure_history ++ now ∷ [])
        ≡ filter (within window now) (fs ++ now ∷ [])
  pruned_at_failure t now fs b le h =
      rw (h.same_window, h.windowed)
        (prune_history-snoc window b.last_failure_time now fs (omega arith) h.latest h.sorted)

  fail-Tracks :
      (t now : ℕ) (fs : List ℕ) (b : AsyncCircuitBreaker)
      → t ≤ now
      → Tracks fail_max reset_timeout window t fs b
      → Tracks fail_max reset_timeout window now (fs ++ now ∷ []) (step b (fail now))
  unfolding step aexit handle_failure
  fail-Tracks t now fs b le h = ground (
    arith,
    pruned_at_failure t now fs b le h,
    UpTo-snoc b.last_failure_time now fs,
    IsSorted-snoc b.last_failure_time now fs,
  )

  step-Tracks :
      (t : ℕ) (e : Event) (fs : List ℕ) (b : AsyncCircuitBreaker)
      → t ≤ time e
      → Tracks fail_max reset_timeout window t fs b
      → Tracks fail_max reset_timeout window (time e) (record_failure e fs) (step b e)
  step-Tracks t (enter now) fs b le h = enter-Tracks t now fs b le h
  step-Tracks t (succeed now) fs b le h = succeed-Tracks t now fs b le h
  step-Tracks t (fail now) fs b le h = fail-Tracks t now fs b le h

  pub run-Tracks :
      (t : ℕ) (es : List Event) (fs : List ℕ) (b : AsyncCircuitBreaker)
      → Ordered t es
      → Tracks fail_max reset_timeout window t fs b
      → Tracks fail_max reset_timeout window
          (last_time t es)
          (failures_since_success fs es)
          (run b es)
  unfolding run failures_since_success
  run-Tracks t [] fs b o h = h
  run-Tracks t (e ∷ es) fs b (le, o) h =
      run-Tracks (time e) es (record_failure e fs) (step b e) o (step-Tracks t e fs b le h)

  pub new-Tracks : Tracks fail_max reset_timeout window 0 [] (new fail_max reset_timeout window)
  unfolding new
  new-Tracks = ground (arith, UpTo-nil 0)

  -- However the entries and exits of concurrent calls interleave, as long as the clock does not go
  -- back, the history held is exactly the failures since the last success that are less than the
  -- window older than the last failure. For a breaker made with a positive `fail_max`.
  pub failure_history_exact :
      (es : List Event)
      → Ordered 0 es
      → let b = run (new fail_max reset_timeout window) es in
        b.failure_history
        ≡ filter (within window b.last_failure_time) (failures_since_success [] es)
  failure_history_exact es o =
      (run-Tracks 0 es [] (new fail_max reset_timeout window) o new-Tracks).windowed

  -- A breaker that starts closed, after any interleaving in order of time: a failure at a time no
  -- earlier leaves it open exactly when it was open, or `fail_max` or more of the failures since
  -- the last success, this one counted, lie less than the window back. A positive `fail_max`.
  pub failure_opens_iff :
      (es : List Event) (now : ℕ)
      → Ordered 0 es
      → last_time 0 es ≤ now
      → let b = run (new fail_max reset_timeout window) es in
        ((aexit true now b).state ≡ open_) ↔ (
          (b.state ≡ open_)
          ⊎ (fail_max
              ≤ length (filter (within window now) (failures_since_success [] es ++ now ∷ []))))
  unfolding aexit handle_failure
  failure_opens_iff es now o le =
      let b = run (new fail_max reset_timeout window) es in
      let h = run-Tracks 0 es [] (new fail_max reset_timeout window) o new-Tracks in
      ground (
        arith,
        h.same_max,
        pruned_at_failure (last_time 0 es) now (failures_since_success [] es) b le h,
      )

  -- After any interleaving in order of time, a breaker that is closed holds fewer than `fail_max`
  -- failures. A positive `fail_max`.
  pub closed_below_max :
      (es : List Event)
      → Ordered 0 es
      → let b = run (new fail_max reset_timeout window) es in
        b.state ≡ closed → length b.failure_history < fail_max
  closed_below_max es o =
      (run-Tracks 0 es [] (new fail_max reset_timeout window) o new-Tracks).closed_below
