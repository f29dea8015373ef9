-- ===== src/Budget/Scenarios.antt =====
-- Runs of the guardrail on the sample Redis.
use coreason_adlc_api.Prelude.{ℕ, ◌+◌, ◌≤◌, ◌<◌, ◌≡◌, ◌⊎◌, ◌↔◌, String, true, List, [], ◌∷◌, arith}
use coreason_adlc_api.Prelude.Int.{pos, negsuc}
use coreason_adlc_api.Outcome.{
  Result, ok, raised, http, value_error, negative_cost, budget_exceeded,
}
use coreason_adlc_api.Budget.Samples.{redis, empty, limit, text_of}
use coreason_adlc_api.Budget.{
  answered, redis_error, micros, budget_lua_script, budget_key, check_budget_guardrail,
  check_budget_status, evaluate,
}
use coreason_adlc_api.Budget.Bounds.{spent, Credited, check_budget_guardrail_lem}
use coreason_adlc_api.Budget.Accounts.{
  Call, run, admitted, admitted_within_limit, check_budget_status-true_iff,
}

abbrev own_key : String
own_key = budget_key redis text_of "2026-01-01" 0

abbrev other_key : String
other_key = budget_key redis text_of "2026-01-01" 1

abbrev half : Call
half = record { trip = answered; key = own_key; cost = pos 30000000000000 }

-- The reply to the second call is lost after the script has run.
abbrev day : List Call
day =
    half ∷ record { trip = redis_error true; key = own_key; cost = pos 15000000000000 } ∷ half ∷ []

check_budget_guardrail_lem_example :
    ((n : ℕ) × (pos 30000000000000 ≡ negsuc n)
      × (Result.ok true ≡ raised (value_error negative_cost))
      × ((check_budget_guardrail redis answered own_key (pos 30000000000000) limit empty).1
          ≡ empty))
    ⊎ ((n : ℕ) × (pos 30000000000000 ≡ pos n)
        × (spent redis own_key empty + micros n ≤ micros limit)
        × (Result.ok true ≡ ok true)
        × Credited redis own_key
            (spent redis own_key empty + micros n)
            empty
            (check_budget_guardrail redis answered own_key (pos 30000000000000) limit empty).1)
    ⊎ ((n : ℕ) × (pos 30000000000000 ≡ pos n)
        × (micros limit < spent redis own_key empty + micros n)
        × (Result.ok true ≡ raised (http 402 budget_exceeded))
        × ((check_budget_guardrail redis answered own_key (pos 30000000000000) limit empty).1
            ≡ empty))
unfolding check_budget_guardrail evaluate budget_lua_script
check_budget_guardrail_lem_example =
    check_budget_guardrail_lem redis own_key (pos 30000000000000) limit empty

admitted_within_limit_example :
    (spent redis own_key empty + 30000000 ≤ 45000000) × (45000000 ≤ micros limit)
unfolding run admitted check_budget_guardrail evaluate budget_lua_script
admitted_within_limit_example = admitted_within_limit redis limit own_key day empty (omega arith)

check_budget_status-true_iff_example :
    (check_budget_status redis answered own_key limit empty ≡ true) ↔ (Result.ok true ≡ ok true)
unfolding check_budget_guardrail evaluate budget_lua_script check_budget_status
check_budget_status-true_iff_example =
    check_budget_status-true_iff redis limit own_key empty (omega arith)
