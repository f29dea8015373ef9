-- ===== src/Proxy/Registry.antt =====
-- One breaker for each provider: requests to the others do not touch it.
use coreason_adlc_api.Prelude.{
  ℕ, ◌≡◌, refl, sym, ap, ◌∙◌, inl, inr, String, Bool, true, false, List, [], ◌∷◌, ◌++◌,
  if◌then◌else◌, Bool-cases, Option-cases, arith, subst,
}
use coreason_adlc_api.Prelude.Text.{str_eq, eq_iff, eq_refl}
use coreason_adlc_api.Outcome.{Result, ok, raised}
use coreason_adlc_api.Breaker.{AsyncCircuitBreaker, aenter, aexit}
use coreason_adlc_api.Breaker.Trace as Trace
use coreason_adlc_api.Breaker.Trace.{step, run, or_same}
use coreason_adlc_api.Vault.{Codecs}
use coreason_adlc_api.Vault.Service.{Secrets}
use coreason_adlc_api.Proxy.{
  Registry, get_circuit_breaker, mutate, Inference, provider_of, get_api_key, enter_breaker,
  with_key, begin_inference, Ending, has_failed, end_inference,
}

-- the breaker that a request to the provider meets
abbrev pub breaker_of : String → Registry → AsyncCircuitBreaker
breaker_of p reg = (get_circuit_breaker p reg).0

get-same :
    (p q : String) (reg : Registry) → breaker_of p (get_circuit_breaker q reg).1 ≡ breaker_of p reg
unfolding get_circuit_breaker
get-same p q [] = ground arith
get-same p q (e ∷ es) = ground (arith, get-same p q es)

mutate-own :
    (q : String) (b : AsyncCircuitBreaker) (reg : Registry)
    → breaker_of q (mutate q b (get_circuit_breaker q reg).1) ≡ b
unfolding get_circuit_breaker mutate
mutate-own q b [] = ground (arith, eq_refl q)
mutate-own q b (e ∷ es) = ground (arith, mutate-own q b es)

mutate-other :
    (p q : String) (b : AsyncCircuitBreaker) (reg : Registry)
    → str_eq q p ≡ false
    → breaker_of p (mutate q b reg) ≡ breaker_of p reg
unfolding get_circuit_breaker mutate
mutate-other p q b [] ne = refl
mutate-other p q b (e ∷ es) ne = elim (Bool-cases (str_eq e.0 q)) [
  | inl own ↦
      let other : str_eq e.0 p ≡ false = ap (λ x. str_eq x p) ((eq_iff e.0 q).0 own) ∙ ne in
      ground (arith, other)
  | inr differs ↦ ground (arith, mutate-other p q b es ne)
]

-- What happens at the proxy: a request begins, or the completion of one upstream ends.
pub data Event : Type 0 where
  begun : Inference → ℕ → Event
  ended : String → Ending → ℕ → Event

module _ (c : Codecs) (setting : String) (t : Secrets) where
  -- the registry after a sequence of events, with the keys that are stored
  unfoldable pub serve : List Event → Registry → Registry
  serve [] reg = reg
  serve (begun q now ∷ es) reg = serve es (begin_inference c setting t q now reg).1
  serve (ended p e now ∷ es) reg = serve es (end_inference p e now reg).1

  abbrev tried : Result String → ℕ → List Trace.Event
  tried (ok key) now = Trace.enter now ∷ []
  tried (raised e) now = []

  abbrev exit_event : Bool → ℕ → Trace.Event
  exit_event true now = Trace.fail now
  exit_event false now = Trace.succeed now

  -- What the breaker of the provider sees of an event: an entry, if the key of the request is found
  -- and can be read, and an exit, which is a failure unless the model has responded.
  abbrev pub seen : String → Event → List Trace.Event
  seen p (begun q now) =
      if str_eq (provider_of q) p
      then tried (get_api_key c setting q.auc_id (provider_of q) t) now
      else []
  seen p (ended q e now) = if str_eq q p then exit_event (has_failed e) now ∷ [] else []

  unfoldable pub seen_by : String → List Event → List Trace.Event
  seen_by p [] = []
  seen_by p (e ∷ es) = seen p e ++ seen_by p es

  entered-own :
      (q : Inference) (key : String) (now : ℕ) (reg : Registry)
      → breaker_of (provider_of q) (enter_breaker q key now reg).1
        ≡ or_same (breaker_of (provider_of q) reg) (aenter now (breaker_of (provider_of q) reg))
  entered-own q key now reg = elim (Option-cases (aenter now (breaker_of (provider_of q) reg))) [
    | inl e ↦ rw e (get-same (provider_of q) (provider_of q) reg)
    | inr (b, e) ↦ rw e (mutate-own (provider_of q) b reg)
  ]

  entered-other :
      (p : String) (q : Inference) (key : String) (now : ℕ) (reg : Registry)
      → str_eq (provider_of q) p ≡ false
      → breaker_of p (enter_breaker q key now reg).1 ≡ breaker_of p reg
  entered-other p q key now reg ne =
      elim (Option-cases (aenter now (breaker_of (provider_of q) reg))) [
        | inl e ↦ rw e (get-same p (provider_of q) reg)
        | inr (b, e) ↦ rw e (
            mutate-other p (provider_of q) b (get_circuit_breaker (provider_of q) reg).1 ne
            ∙ get-same p (provider_of q) reg)
      ]

  with_key-tried :
      (p : String) (q : Inference) (now : ℕ) (r : Result String) (reg : Registry)
      → breaker_of p (with_key q now r reg).1
        ≡ run (breaker_of p reg) (if str_eq (provider_of q) p then tried r now else [])
  unfolding run step
  with_key-tried p q now (raised e) reg = elim (Bool-cases (str_eq (provider_of q) p)) [
    | inl own ↦ rw own refl
    | inr other ↦ rw other refl
  ]
  with_key-tried p q now (ok key) reg = elim (Bool-cases (str_eq (provider_of q) p)) [
    | inl own ↦ rw own (
        subst
          (λ x.
            breaker_of x (enter_breaker q key now reg).1
            ≡ or_same (breaker_of x reg) (aenter now (breaker_of x reg)))
          ((eq_iff (provider_of q) p).0 own) (entered-own q key now reg))
    | inr other ↦ rw other (entered-other p q key now reg other)
  ]

  left-own :
      (q : String) (e : Ending) (now : ℕ) (reg : Registry)
      → breaker_of q (end_inference q e now reg).1 ≡ aexit (has_failed e) now (breaker_of q reg)
  unfolding end_inference
  left-own q e now reg = mutate-own q (aexit (has_failed e) now (breaker_of q reg)) reg

  left-other :
      (p q : String) (e : Ending) (now : ℕ) (reg : Registry)
      → str_eq q p ≡ false
      → breaker_of p (end_inference q e now reg).1 ≡ breaker_of p reg
  unfolding end_inference
  left-other p q e now reg ne =
      mutate-other p q (aexit (has_failed e) now (breaker_of q reg)) (get_circuit_breaker q reg).1
        ne
      ∙ get-same p q reg

  run-exit :
      (failed : Bool) (now : ℕ) (b : AsyncCircuitBreaker)
      → aexit failed now b ≡ run b (exit_event failed now ∷ [])
  unfolding run step
  run-exit true now b = refl
  run-exit false now b = refl

  ended-seen :
      (p q : String) (e : Ending) (now : ℕ) (reg : Registry)
      → breaker_of p (end_inference q e now reg).1 ≡ run (breaker_of p reg) (seen p (ended q e now))
  unfolding run
  ended-seen p q e now reg = elim (Bool-cases (str_eq q p)) [
    | inl own ↦ rw own (
        subst
          (λ x.
            breaker_of x (end_inference q e now reg).1
            ≡ run (breaker_of x reg) (exit_event (has_failed e) now ∷ []))
          ((eq_iff q p).0 own)
          (left-own q e now reg ∙ run-exit (has_failed e) now (breaker_of q reg)))
    | inr other ↦ rw other (left-other p q e now reg other)
  ]

  run-append :
      (b : AsyncCircuitBreaker) (es fs : List Trace.Event) → run b (es ++ fs) ≡ run (run b es) fs
  unfolding run
  run-append b [] fs = refl
  run-append b (e ∷ es) fs = run-append (step b e) es fs

  -- After any sequence of beginnings and ends of requests, to any providers and interleaved in any
  -- way, the breaker of a provider is what the entries and exits of its own requests make of it,
  -- where a request without a readable key makes no entry, and a cancelled one exits as a failure.
  pub serve_lem :
      (p : String) (es : List Event) (reg : Registry)
      → breaker_of p (serve es reg) ≡ run (breaker_of p reg) (seen_by p es)
  unfolding serve seen_by run begin_inference
  serve_lem p [] reg = refl
  serve_lem p (begun q now ∷ es) reg =
      serve_lem p es (begin_inference c setting t q now reg).1
      ∙ ap (λ b. run b (seen_by p es))
          (with_key-tried p q now (get_api_key c setting q.auc_id (provider_of q) t) reg)
      ∙ sym (run-append (breaker_of p reg) (seen p (begun q now)) (seen_by p es))
  serve_lem p (ended q e now ∷ es) reg =
      serve_lem p es (end_inference q e now reg).1
      ∙ ap (λ b. run b (seen_by p es)) (ended-seen p q e now reg)
      ∙ sym (run-append (breaker_of p reg) (seen p (ended q e now)) (seen_by p es))
