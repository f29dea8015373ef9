-- ===== src/Budget/Accounts.antt =====
-- Sequences of calls to the guardrail, by any users, with any connection failures.
use coreason_adlc_api.Prelude.{
  ℕ, ◌+◌, ◌≤◌, ◌<◌, ◌≡◌, ◌≢◌, ◌⊎◌, ◌↔◌, refl, inl, inr, String, Bool, true, false, Option, none,
  some, List, [], ◌∷◌, arith, ltb, Bool-cases, if◌then◌else◌, ltb→lt, ap, ◌∙◌, sym, All, ◌&&◌,
}
use coreason_adlc_api.Prelude.Int.{ℤ, pos, negsuc}
use coreason_adlc_api.Prelude.Text.{str_eq, eq_iff, text_append, append_cancel_left}
use coreason_adlc_api.Outcome.{Result, ok, raised, Exn}
use coreason_adlc_api.Budget.Interface.{Redis}
use coreason_adlc_api.Budget.{
  Trip, answered, redis_error, other_error, number, micros, budget_expiry, budget_lua_script,
  evaluate, check_budget_guardrail, check_budget_status, budget_key, status_of,
}
use coreason_adlc_api.Budget.Bounds.{spent, Credited, script_refuses, script_admits}

pub record Call : Type 0 where
  pub trip : Trip
  pub key : String
  pub cost : ℤ

abbrev cost_micros : ℤ → ℕ
cost_micros (pos n) = micros n
cost_micros (negsuc n) = 0

-- Whether the caller was let through.
abbrev let_through : Result Bool → Bool
let_through (ok b) = b
let_through (raised e) = false

module _ (r : Redis) (limit : ℕ) where
  open r use {Store, get}

  -- the table of accounts after a sequence of calls
  unfoldable pub run : List Call → Store → Store
  run [] s = s
  run (c ∷ cs) s = run cs (check_budget_guardrail r c.trip c.key c.cost limit s).1

  -- What the calls on the account of `k` that were let through cost together.
  unfoldable pub admitted : String → List Call → Store → ℕ
  admitted k [] s = 0
  admitted k (c ∷ cs) s =
      let (res, s') = check_budget_guardrail r c.trip c.key c.cost limit s in
      (if str_eq c.key k && let_through res then cost_micros c.cost else 0) + admitted k cs s'

  script_effect :
      (key : String) (cost : ℕ) (s : Store)
      → let (reply, s') = budget_lua_script r key cost (micros limit) budget_expiry s in
        ((s' ≡ s) × (reply.is_allowed ≡ 0))
        ⊎ ((spent r key s + cost ≤ micros limit)
            × Credited r key (spent r key s + cost) s s'
            × (reply.is_allowed ≡ 1))
  script_effect key cost s = elim (Bool-cases (ltb (micros limit) (spent r key s + cost))) [
    | inl over ↦
        let q =
          script_refuses r key cost (micros limit) budget_expiry s
            (ltb→lt (micros limit) (spent r key s + cost) over) in
        inl (ap (λ p. p.1) q, ap (λ p. p.0.is_allowed) q)
    | inr within ↦
        let h : spent r key s + cost ≤ micros limit = ground arith in
        let (one, _, credited) = script_admits r key cost (micros limit) s h in
        inr (h, credited, one)
  ]

  -- One call leaves the store alone and lets nobody through, or credits its account, within the
  -- limit, by its cost.
  Effect : String → ℕ → Store → Result Bool × Store → Type 0
  Effect key cost s (res, s') =
      ((s' ≡ s) × (let_through res ≡ false))
      ⊎ ((spent r key s + cost ≤ micros limit) × Credited r key (spent r key s + cost) s s')

  call-Effect :
      (trip : Trip) (key : String) (c : ℤ) (s : Store)
      → Effect key (cost_micros c) s (check_budget_guardrail r trip key c limit s)
  unfolding Effect check_budget_guardrail evaluate
  call-Effect trip key (negsuc n) s = inl (refl, refl)
  call-Effect answered key (pos n) s = elim (script_effect key (micros n) s) [
    | inl (same, zero_reply) ↦ inl (same, rw zero_reply refl)
    | inr (h, credited, one) ↦ inr (h, credited)
  ]
  call-Effect (redis_error false) key (pos n) s = inl (refl, refl)
  call-Effect (redis_error true) key (pos n) s = elim (script_effect key (micros n) s) [
    | inl (same, zero_reply) ↦ inl (same, refl)
    | inr (h, credited, one) ↦ inr (h, credited)
  ]
  call-Effect (other_error false) key (pos n) s = inl (refl, refl)
  call-Effect (other_error true) key (pos n) s = elim (script_effect key (micros n) s) [
    | inl (same, zero_reply) ↦ inl (same, refl)
    | inr (h, credited, one) ↦ inr (h, credited)
  ]

  -- The step of the induction: what the account of `k` holds, with what this call was let through
  -- for, is held after the call, and within the limit.
  call_bound :
      (k : String) (c : Call) (s : Store)
      → spent r k s ≤ micros limit
      → let (res, s') = check_budget_guardrail r c.trip c.key c.cost limit s in
        (spent r k s + (if str_eq c.key k && let_through res then cost_micros c.cost else 0)
          ≤ spent r k s')
        × (spent r k s' ≤ micros limit)
  unfolding Effect
  call_bound k c s h =
      let s' = (check_budget_guardrail r c.trip c.key c.cost limit s).1 in
      elim (call-Effect c.trip c.key c.cost s) [
        | inl (same, nobody) ↦
            let e : spent r k s' ≡ spent r k s = ap (λ x. spent r k x) same in ground (arith, e)
        | inr (within, credited) ↦ elim (Bool-cases (str_eq c.key k)) [
          | inl own ↦
              let at_key : c.key ≡ k = (eq_iff c.key k).0 own in
              let e : get k s' ≡ some (spent r c.key s + cost_micros c.cost) =
                credited.accounts k
                ∙ ap (λ b. if b then some (spent r c.key s + cost_micros c.cost) else get k s)
                    own in
              let same_account : spent r c.key s ≡ spent r k s = ap (λ x. spent r x s) at_key in
              let after : spent r k s' ≡ spent r c.key s + cost_micros c.cost = ap number e in
              ground (arith, same_account, after)
          | inr other ↦
              let e : get k s' ≡ get k s =
                credited.accounts k
                ∙ ap (λ b. if b then some (spent r c.key s + cost_micros c.cost) else get k s)
                    other in
              let after : spent r k s' ≡ spent r k s = ap number e in ground (arith, after)
        ]
      ]

  -- Whatever the calls and the failures of the connection: starting from an account that holds no
  -- more than the limit in whole micros, the account never holds more than that, and at the end it
  -- holds at least what it held with the costs of all the calls on it that were let through, each
  -- of them rounded down to whole micros.
  pub admitted_within_limit :
      (k : String) (cs : List Call) (s : Store)
      → spent r k s ≤ micros limit
      → (spent r k s + admitted k cs s ≤ spent r k (run cs s))
        × (spent r k (run cs s) ≤ micros limit)
  unfolding run admitted
  admitted_within_limit k [] s h = (omega arith, h)
  admitted_within_limit k (c ∷ cs) s h =
      let s' = (check_budget_guardrail r c.trip c.key c.cost limit s).1 in
      let (more, bounded) = call_bound k c s h in
      let (rest, all) = admitted_within_limit k cs s' bounded in (omega arith, all)

  -- Calls on other accounts leave an account alone.
  others_kept :
      (k : String) (cs : List Call) (s : Store)
      → All (λ c. c.key ≢ k) cs
      → get k (run cs s) ≡ get k s
  unfolding run Effect
  others_kept k [] s a = refl
  others_kept k (c ∷ cs) s a =
      let s' = (check_budget_guardrail r c.trip c.key c.cost limit s).1 in
      let one : get k s' ≡ get k s = elim (call-Effect c.trip c.key c.cost s) [
        | inl (same, _) ↦ ap (get k) same
        | inr (_, credited) ↦ elim (Bool-cases (str_eq c.key k)) [
          | inl own ↦ absurd (a.0 ((eq_iff c.key k).0 own))
          | inr other ↦ credited.accounts k ∙ rw other refl
        ]
      ] in
      others_kept k cs s' a.1 ∙ one

  -- With texts of the UUIDs that differ, whatever one user spends in calls on a day leaves the
  -- account of another user on that day as it was.
  pub users_are_separate :
      (uuid_text : ℕ → String) (today : String) (user other : ℕ) (cs : List Call) (s : Store)
      → uuid_text user ≢ uuid_text other
      → All (λ c. c.key ≡ budget_key r uuid_text today user) cs
      → get (budget_key r uuid_text today other) (run cs s)
        ≡ get (budget_key r uuid_text today other) s
  users_are_separate uuid_text today user other cs s ne own =
      others_kept (budget_key r uuid_text today other) cs s (all_other cs own)
    where
      same_text :
          {k : String}
          → k ≡ budget_key r uuid_text today other
          → k ≡ budget_key r uuid_text today user
          → uuid_text user ≡ uuid_text other
      same_text q e = append_cancel_left ":" (uuid_text user) (uuid_text other) (
          append_cancel_left today (text_append ":" (uuid_text user))
            (text_append ":" (uuid_text other))
            (append_cancel_left "budget:" (text_append today (text_append ":" (uuid_text user)))
              (text_append today (text_append ":" (uuid_text other))) (sym e ∙ q)))

      all_other :
          (l : List Call)
          → All (λ c. c.key ≡ budget_key r uuid_text today user) l
          → All (λ c. c.key ≢ budget_key r uuid_text today other) l
      all_other [] a = tt
      all_other (c ∷ l) (e, a) = (λ q. ne (same_text q e), all_other l a)

  status_true : (o : Option ℕ) (l : ℕ) → status_of r o l ≡ true → 0 < l → number o < l
  status_true none l st h = h
  status_true (some n) l st h = ltb→lt n l st

  status_within : (o : Option ℕ) (l : ℕ) → number o + 1 ≤ l → status_of r o l ≡ true
  status_within none l h = refl
  status_within (some n) l h = ground arith

  raised≢ok : {e : Exn} {b : Bool} → Result.raised e ≢ ok b
  raised≢ok p = cc p

  -- The read-only check answers True exactly when a call that costs one micro-dollar would be let
  -- through, for a limit of a micro-dollar or more, when the connection holds.
  pub check_budget_status-true_iff :
      (key : String) (s : Store)
      → 0 < micros limit
      → (check_budget_status r answered key limit s ≡ true)
        ↔ ((check_budget_guardrail r answered key (pos 1000000) limit s).0 ≡ ok true)
  unfolding check_budget_status check_budget_guardrail evaluate
  check_budget_status-true_iff key s positive =
      elim (Bool-cases (ltb (micros limit) (spent r key s + 1))) [
        | inl over ↦
            let h = ltb→lt (micros limit) (spent r key s + 1) over in
            let q = script_refuses r key 1 (micros limit) budget_expiry s h in
            rw q (
              λ st. absurd (omega (arith, status_true (get key s) (micros limit) st positive, h)),
              λ p. absurd (raised≢ok p),
            )
        | inr within ↦
            let h : spent r key s + 1 ≤ micros limit = ground arith in
            let (one, _, _) = script_admits r key 1 (micros limit) s h in
            rw one (λ _. refl, λ _. status_within (get key s) (micros limit) h)
      ]
