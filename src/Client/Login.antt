-- ===== src/Client/Login.antt =====
-- The login ends in time, and what it leaves in the keyring.
use coreason_adlc_api.Prelude.{
  ℕ, zero, suc, ◌+◌, ◌*◌, ◌≤◌, ◌<◌, ◌≡◌, ◌≢◌, ◌⊎◌, inl, inr, refl, String, true, false, Option,
  none, some, ltb, arith, Bool-cases, ap, ◌∙◌, ltb→lt, subst, sym, Bool, if◌then◌else◌,
}
use coreason_adlc_api.Prelude.Text.{str_eq, eq_iff}
use coreason_adlc_api.Json.{Value}
use coreason_adlc_api.Client.Auth.{
  Poll, network_error, granted, bad_request, answered, LoginResult, logged_in, runtime_error,
  escaped, timed_out, Step, done, wait, on_poll, Keyring, finish, device_code, poll_loop, login,
  on_bad_request,
}

Step-cases : (s : Step) → ((r : LoginResult) × (s ≡ done r)) ⊎ ((i : ℕ) × (s ≡ wait i))
Step-cases (done r) = inl (r, refl)
Step-cases (wait i) = inr (i, refl)

wait-injective : (i j : ℕ) → wait i ≡ wait j → i ≡ j
wait-injective i j e = cc e

-- The seconds that the answer to a poll adds to the interval.
abbrev pub slowed : Poll → ℕ
slowed (bad_request (some (Value.str d))) = if str_eq d "slow_down" then 5 else 0
slowed _ = 0

on_bad_request_lem :
    (v : Value) (i j : ℕ) → on_bad_request v i ≡ wait j → j ≡ i + slowed (bad_request (some v))
on_bad_request_lem (Value.str d) i j h = elim (Bool-cases (str_eq d "authorization_pending")) [
  | inl e ↦
      let same : d ≡ "authorization_pending" = (eq_iff d "authorization_pending").0 e in
      let other : str_eq d "slow_down" ≡ false = ap (λ x. str_eq x "slow_down") same in
      rw other (omega (arith, wait-injective i j (rw e at h)))
  | inr e ↦ elim (Bool-cases (str_eq d "slow_down")) [
    | inl s ↦ rw s (omega (arith, wait-injective (i + 5) j (rw (e, s) at h)))
    | inr s ↦ absurd (ground (arith, h, e, s))
  ]
]
on_bad_request_lem (Value.other d) i j h = cc h
on_bad_request_lem (Value.list d) i j h = cc h
on_bad_request_lem (Value.tuple d) i j h = cc h
on_bad_request_lem (Value.dict d) i j h = cc h

wait_lem : (p : Poll) (i j : ℕ) → on_poll p i ≡ wait j → j ≡ i + slowed p
unfolding on_poll
wait_lem network_error i j h = omega (arith, wait-injective i j h)
wait_lem (granted (some s)) i j h = cc h
wait_lem (granted none) i j h = cc h
wait_lem (bad_request none) i j h = cc h
wait_lem (bad_request (some v)) i j h = on_bad_request_lem v i j h
wait_lem (answered s) i j h = ground arith

module _ (clock : ℕ → ℕ → ℕ) (poll : ℕ → Poll) (writable : String → Bool) where
  timed_out_lem :
      (fuel n slept deadline interval : ℕ) (k : Keyring)
      → ltb (clock n slept) deadline ≡ false
      → poll_loop clock poll writable (suc fuel) n slept deadline interval k
        ≡ (some (runtime_error timed_out), k)
  unfolding poll_loop
  timed_out_lem fuel n slept deadline interval k late = ground arith

  ended :
      (fuel n slept deadline interval : ℕ) (k : Keyring) (r : LoginResult)
      → ltb (clock n slept) deadline ≡ true
      → on_poll (poll n) interval ≡ done r
      → poll_loop clock poll writable (suc fuel) n slept deadline interval k
        ≡ finish clock poll writable r k
  unfolding poll_loop
  ended fuel n slept deadline interval k r early d = ground arith

  continued :
      (fuel n slept deadline interval : ℕ) (k : Keyring) (interval' : ℕ)
      → ltb (clock n slept) deadline ≡ true
      → on_poll (poll n) interval ≡ wait interval'
      → poll_loop clock poll writable (suc fuel) n slept deadline interval k
        ≡ poll_loop clock poll writable fuel (suc n) (slept + interval') deadline interval' k
  unfolding poll_loop
  continued fuel n slept deadline interval k i early w = ground arith

  -- `time.sleep` lasts at least as long as it is asked to, and the clock is not set back.
  abbrev pub SleepsFully : Type 0
  SleepsFully =
      (n slept seconds : ℕ) → clock n slept + seconds * 1000000 ≤ clock (suc n) (slept + seconds)

  finish_ends :
      (r : LoginResult) (k : Keyring)
      → (r' : LoginResult) × ((finish clock poll writable r k).0 ≡ some r')
  finish_ends (logged_in t) k = elim (Bool-cases (writable t)) [
    | inl e ↦ rw e (logged_in t, refl)
    | inr e ↦ rw e (escaped, refl)
  ]
  finish_ends (runtime_error e) k = (runtime_error e, refl)
  finish_ends escaped k = (escaped, refl)

  loop_ends :
      (fuel n slept deadline interval : ℕ) (k : Keyring)
      → SleepsFully
      → 1 ≤ interval
      → deadline ≤ clock n slept + fuel * 1000000
      → (r : LoginResult) × ((poll_loop clock poll writable
            (suc fuel)
            n
            slept
            deadline
            interval
            k).0
          ≡ some r)
  loop_ends zero n slept deadline interval k h positive enough =
      let late : ltb (clock n slept) deadline ≡ false = ground arith in
      (runtime_error timed_out, ap (λ p. p.0) (timed_out_lem zero n slept deadline interval k late))
  loop_ends (suc fuel) n slept deadline interval k h positive enough =
      elim (Bool-cases (ltb (clock n slept) deadline)) [
        | inr late ↦ (
          runtime_error timed_out,
          ap (λ p. p.0) (timed_out_lem (suc fuel) n slept deadline interval k late),
        )
        | inl early ↦ elim (Step-cases (on_poll (poll n) interval)) [
          | inl (r, d) ↦
              let (r', q) = finish_ends r k in
              (r', ap (λ p. p.0) (ended (suc fuel) n slept deadline interval k r early d) ∙ q)
          | inr (i, w) ↦
              let longer = wait_lem (poll n) interval i w in
              let (r, q) =
                loop_ends fuel (suc n) (slept + i) deadline i k h (omega arith)
                  (omega (arith, h n slept i)) in
              (r, ap (λ p. p.0) (continued (suc fuel) n slept deadline interval k i early w) ∙ q)
        ]
      ]

  -- A login ends, returning or raising, within one test of the loop for each second of the life of
  -- the device code, and one more, if the interval that the server names is a second or more, each
  -- sleep lasts at least as long as it is asked to, by a clock that is not set back, and the first
  -- test is no earlier than the start.
  pub login_ends :
      (start interval expires_in : ℕ) (k : Keyring)
      → 1 ≤ interval
      → SleepsFully
      → start ≤ clock 0 0
      → (r : LoginResult) × ((login clock poll writable
            (suc expires_in)
            start
            (device_code interval expires_in)
            k).0
          ≡ some r)
  unfolding login
  login_ends start interval expires_in k positive h began =
      loop_ends expires_in 0 0 (start + expires_in * 1000000) interval k h positive (omega arith)

  -- The interval after n polls that are answered, and the seconds slept before the n-th test.
  abbrev pub interval_after : ℕ → ℕ → ℕ
  interval_after interval zero = interval
  interval_after interval (suc n) = interval_after interval n + slowed (poll n)

  abbrev pub slept_before : ℕ → ℕ → ℕ
  slept_before interval zero = 0
  slept_before interval (suc n) = slept_before interval n + interval_after interval (suc n)

  -- What is known of the end of a loop or of a login.
  Ends : Keyring → (ℕ → Type 0) → Option LoginResult × Keyring → Type 0
  Ends k In (none, k') = k' ≡ k
  Ends k In (some (logged_in t), k') =
      (k' ≡ some t) × ((n : ℕ) × In n × (poll n ≡ granted (some t)))
  Ends k In (some r, k') = k' ≡ k

  bad_request_waits : (v : Value) (i : ℕ) (t : String) → on_bad_request v i ≢ done (logged_in t)
  bad_request_waits (Value.str d) i t h = ground arith
  bad_request_waits (Value.other d) i t h = cc h
  bad_request_waits (Value.list d) i t h = cc h
  bad_request_waits (Value.tuple d) i t h = cc h
  bad_request_waits (Value.dict d) i t h = cc h

  only_granted :
      (p : Poll) (i : ℕ) (t : String) → on_poll p i ≡ done (logged_in t) → p ≡ granted (some t)
  unfolding on_poll
  only_granted network_error i t h = cc h
  only_granted (granted (some s)) i t h = cc h
  only_granted (granted none) i t h = cc h
  only_granted (bad_request none) i t h = cc h
  only_granted (bad_request (some v)) i t h = absurd (bad_request_waits v i t h)
  only_granted (answered s) i t h = ground arith

  finish-Ends :
      (k : Keyring) (n : ℕ) (In : ℕ → Type 0) (r : LoginResult)
      → In n
      → ((t : String) → r ≡ logged_in t → poll n ≡ granted (some t))
      → Ends k In (finish clock poll writable r k)
  unfolding Ends
  finish-Ends k n In (logged_in t) early g = elim (Bool-cases (writable t)) [
    | inl e ↦ rw e (refl, (n, early, g t refl))
    | inr e ↦ rw e refl
  ]
  finish-Ends k n In (runtime_error e) early g = refl
  finish-Ends k n In escaped early g = refl

  -- The n-th test finds the deadline ahead.
  abbrev Early : ℕ → ℕ → ℕ → Type 0
  Early interval deadline n = clock n (slept_before interval n) < deadline

  loop_result :
      (first fuel n deadline : ℕ) (k : Keyring)
      → Ends k (Early first deadline) (
          poll_loop clock poll writable fuel n
            (slept_before first n)
            deadline
            (interval_after first n)
            k)
  unfolding poll_loop Ends
  loop_result first zero n deadline k = refl
  loop_result first (suc fuel) n deadline k =
      let slept = slept_before first n in
      let interval = interval_after first n in
      elim (Bool-cases (ltb (clock n slept) deadline)) [
        | inr late ↦ rw (timed_out_lem fuel n slept deadline interval k late) refl
        | inl early ↦ elim (Step-cases (on_poll (poll n) interval)) [
          | inl (r, d) ↦ rw (ended fuel n slept deadline interval k r early d) (
              finish-Ends k n (Early first deadline) r (ltb→lt (clock n slept) deadline early)
                (λ t q. only_granted (poll n) interval t (d ∙ ap done q)))
          | inr (i, w) ↦ rw (continued fuel n slept deadline interval k i early w) (
              subst
                (λ j.
                  Ends k (Early first deadline)
                    (poll_loop clock poll writable fuel (suc n) (slept + j) deadline j k))
                (sym (wait_lem (poll n) interval i w)) (loop_result first fuel (suc n) deadline k))
        ]
      ]

  Ends-logged_in :
      (k : Keyring) (In : ℕ → Type 0) (x : Option LoginResult × Keyring)
      → Ends k In x
      → ((t : String)
          → x.0 ≡ some (logged_in t)
          → (x.1 ≡ some t) × ((n : ℕ) × In n × (poll n ≡ granted (some t))))
        × (((t : String) → x.0 ≢ some (logged_in t)) → x.1 ≡ k)
  unfolding Ends
  Ends-logged_in k In (none, k') e = (λ t q. cc q, λ _. e)
  Ends-logged_in k In (some (logged_in u), k') e = (
    λ t q.
        let same : u ≡ t = cc q in
        subst (λ v. (k' ≡ some v) × ((n : ℕ) × In n × (poll n ≡ granted (some v)))) same e,
    λ no. absurd (no u refl),
  )
  Ends-logged_in k In (some (runtime_error r), k') e = (λ t q. cc q, λ _. e)
  Ends-logged_in k In (some escaped, k') e = (λ t q. cc q, λ _. e)

  -- A login with a device code that returns a token has been granted it by a poll that began before
  -- the code expired, by the clock after the sleeps so far, each for the interval with five seconds
  -- more for each slow_down, and has saved it in the keyring; any other end of it, or none, leaves
  -- the keyring as it was.
  pub login_lem :
      (fuel start interval expires_in : ℕ) (k : Keyring)
      → let (out, k') = login clock poll writable fuel start (device_code interval expires_in) k in
        ((t : String)
          → out ≡ some (logged_in t)
          → (k' ≡ some t)
            × ((n : ℕ) × (clock n (slept_before interval n) < start + expires_in * 1000000)
                × (poll n ≡ granted (some t))))
        × (((t : String) → out ≢ some (logged_in t)) → k' ≡ k)
  unfolding login
  login_lem fuel start interval expires_in k =
      Ends-logged_in k (Early interval (start + expires_in * 1000000))
        (poll_loop clock poll writable fuel 0 0 (start + expires_in * 1000000) interval k)
        (loop_result interval fuel 0 (start + expires_in * 1000000) k)
