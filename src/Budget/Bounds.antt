-- ===== src/Budget/Bounds.antt =====
-- What one call does to the accounts in Redis, and that no sequence of calls overdraws a budget.
use coreason_adlc_api.Prelude.{
  ℕ, ◌+◌, ◌≤◌, ◌<◌, ◌≡◌, ◌≢◌, ◌⊎◌, refl, inl, inr, String, true, false, Option, none, some, arith,
  ltb, Bool-cases, if◌then◌else◌, ltb→lt, ap, ◌∙◌,
}
use coreason_adlc_api.Prelude.Int.{ℤ, pos, negsuc}
use coreason_adlc_api.Prelude.Text.{str_eq, eq_refl}
use coreason_adlc_api.Outcome.{ok, raised, http, value_error, negative_cost, budget_exceeded}
use coreason_adlc_api.Budget.Interface.{Redis, Ttl, persistent, count}
use coreason_adlc_api.Budget.{
  answered, number, no_expiry, micros, budget_expiry, budget_lua_script, evaluate,
  check_budget_guardrail,
}

module _ (r : Redis) where
  open r use {
    Store, get, incr_by, pttl, expire, incr_by-value, get-incr_by, get-expire, pttl-expire,
  }

  abbrev pub spent : String → Store → ℕ
  spent key s = number (get key s)

  -- The account of `key` holds `n`, and the others are as they were.
  pub record Credited (key : String) (n : ℕ) (s s' : Store) : Type 0 where
    pub accounts : (j : String) → get j s' ≡ (if str_eq key j then some n else get j s)
    pub runs_out : pttl key s' ≢ persistent

  count-number : (o : Option ℕ) → count o ≡ number o
  count-number none = refl
  count-number (some n) = refl

  pub script_refuses :
      (key : String) (cost limit expiry : ℕ) (s : Store)
      → limit < spent key s + cost
      → budget_lua_script r key cost limit expiry s
        ≡ (record { is_allowed = 0; balance = spent key s; is_new = 0 }, s)
  unfolding budget_lua_script
  script_refuses key cost limit expiry s h = ground arith

  incremented :
      (key : String) (cost : ℕ) (s : Store) (j : String)
      → get j (incr_by key cost s).1 ≡ (if str_eq key j then some (spent key s + cost) else get j s)
  incremented key cost s j =
      get-incr_by key j cost s
      ∙ ap (λ n. if str_eq key j then some (n + cost) else get j s) (count-number (get key s))

  incremented_there : (key : String) (cost : ℕ) (s : Store) → get key (incr_by key cost s).1 ≢ none
  incremented_there key cost s missing_key = cc (rw (eq_refl key) at (incremented key cost s key))

  has_expiry : (t : Ttl) → no_expiry t ≡ false → t ≢ persistent
  has_expiry t h p = cc (ap no_expiry p)

  script_result :
      (key : String) (cost limit : ℕ) (s : Store)
      → spent key s + cost ≤ limit
      → budget_lua_script r key cost limit budget_expiry s ≡ (
          let s₁ = (incr_by key cost s).1 in
          if no_expiry (pttl key s₁)
          then (
            record { is_allowed = 1; balance = (incr_by key cost s).0; is_new = 1 },
            expire key budget_expiry s₁,
          )
          else (record { is_allowed = 1; balance = (incr_by key cost s).0; is_new = 0 }, s₁))
  unfolding budget_lua_script
  script_result key cost limit s h = ground arith

  pub script_admits :
      (key : String) (cost limit : ℕ) (s : Store)
      → spent key s + cost ≤ limit
      → ((budget_lua_script r key cost limit budget_expiry s).0.is_allowed ≡ 1)
        × ((budget_lua_script r key cost limit budget_expiry s).0.balance ≡ spent key s + cost)
        × Credited key (spent key s + cost) s (budget_lua_script r key cost limit budget_expiry s).1
  script_admits key cost limit s h =
      let s₁ = (incr_by key cost s).1 in
      let value = incr_by-value key cost s ∙ ap (λ n. n + cost) (count-number (get key s)) in
      elim (Bool-cases (no_expiry (pttl key s₁))) [
        | inl new_key ↦
            rw (script_result key cost limit s h, new_key)
              (
                refl,
                value,
                record {
                  accounts = λ j.
                      get-expire key j budget_expiry s₁ (omega arith) ∙ incremented key cost s j;
                  runs_out =
                      pttl-expire key budget_expiry s₁ (omega arith) (incremented_there key cost s);
                },
              )
        | inr old_key ↦
            rw (script_result key cost limit s h, old_key)
              (
                refl,
                value,
                record {
                  accounts = incremented key cost s;
                  runs_out = has_expiry (pttl key s₁) old_key;
                },
              )
      ]

  -- A call whose round trip succeeds. A negative cost raises; else the call is answered True
  -- exactly if what the account holds and the cost in whole micros stay within the limit, and then
  -- the cost is added to the account, no other account changes, and the account runs out some day;
  -- beyond the limit the call answers 402. In both other cases nothing changes.
  pub check_budget_guardrail_lem :
      (key : String) (c : ℤ) (limit : ℕ) (s : Store)
      → let (res, s') = check_budget_guardrail r answered key c limit s in
        ((n : ℕ) × (c ≡ negsuc n) × (res ≡ raised (value_error negative_cost)) × (s' ≡ s))
        ⊎ ((n : ℕ) × (c ≡ pos n)
            × (spent key s + micros n ≤ micros limit)
            × (res ≡ ok true)
            × Credited key (spent key s + micros n) s s')
        ⊎ ((n : ℕ) × (c ≡ pos n)
            × (micros limit < spent key s + micros n)
            × (res ≡ raised (http 402 budget_exceeded))
            × (s' ≡ s))
  unfolding check_budget_guardrail evaluate
  check_budget_guardrail_lem key (negsuc n) limit s = inl (n, refl, refl, refl)
  check_budget_guardrail_lem key (pos n) limit s =
      elim (Bool-cases (ltb (micros limit) (spent key s + micros n))) [
        | inl over ↦
            let h = ltb→lt (micros limit) (spent key s + micros n) over in
            let q = script_refuses key (micros n) (micros limit) budget_expiry s h in
            inr (inr (n, refl, h, rw q refl, ap (λ p. p.1) q))
        | inr within ↦
            let h : spent key s + micros n ≤ micros limit = ground arith in
            let (yes_, _, credited) = script_admits key (micros n) (micros limit) s h in
            inr (inl (n, refl, h, rw yes_ refl, credited))
      ]
