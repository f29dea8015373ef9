-- ===== src/Breaker/Scenarios.antt =====
-- Runs of a breaker with two failures in a window of ten and a time-out of sixty, and the theorems
-- at those runs.
use coreason_adlc_api.Prelude.{
  ℕ, ◌≤◌, ◌≡◌, ◌↔◌, ◌⊎◌, refl, true, some, List, [], ◌∷◌, ◌++◌, arith, length, filter,
}
use coreason_adlc_api.Breaker.{
  AsyncCircuitBreaker, closed, open_, half_open, new, prune_history, handle_failure, handle_success,
  aenter, aexit, call, raised, ended,
}
use coreason_adlc_api.Breaker.Window.{within}
use coreason_adlc_api.Breaker.Trace.{
  Event, enter, fail, step, run, failures_since_success, failure_history_exact, failure_opens_iff,
}
use coreason_adlc_api.Breaker.Recovery.{trial_failure_stays_half_open}

abbrev fresh : AsyncCircuitBreaker
fresh = new 2 60 10

-- Two calls overlap; the second fails at 20, when the first failure is out of the window.
abbrev spread : List Event
spread = enter 1 ∷ enter 2 ∷ fail 5 ∷ fail 20 ∷ []

abbrev burst : List Event
burst = enter 1 ∷ fail 5 ∷ enter 6 ∷ fail 8 ∷ []

spread_stays_closed : (run fresh spread).state ≡ closed
unfolding run step aenter aexit handle_failure handle_success prune_history new
spread_stays_closed = refl

burst_opens : (run fresh burst).state ≡ open_
unfolding run step aenter aexit handle_failure handle_success prune_history new
burst_opens = refl

failure_history_exact_example :
    let b = run fresh spread in
    b.failure_history ≡ filter (within 10 b.last_failure_time) (failures_since_success [] spread)
failure_history_exact_example = failure_history_exact 2 60 10 (omega arith) spread (omega arith)

failure_opens_iff_example :
    let b = run fresh spread in
    ((aexit true 24 b).state ≡ open_) ↔ (
      (b.state ≡ open_)
      ⊎ (2 ≤ length (filter (within 10 24) (failures_since_success [] spread ++ 24 ∷ []))))
failure_opens_iff_example =
    failure_opens_iff 2 60 10 (omega arith) spread 24 (omega arith) (omega arith)

trial_failure_stays_half_open_example :
    let (r, b') = call {A = ℕ} 69 raised 70 (run fresh burst) in
    (r ≡ ended raised)
    × (b'.state ≡ half_open)
    × (b'.failure_history ≡ 70 ∷ [])
    × (aenter 71 b' ≡ some b')
unfolding run step aenter aexit handle_failure handle_success prune_history new
trial_failure_stays_half_open_example =
    trial_failure_stays_half_open 2 60 10 (omega arith) burst 69 70 71 (omega arith) (omega arith)
      (omega arith) refl (omega arith) (omega arith)
