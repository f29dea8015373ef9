-- ===== src/Pii/Rounds.antt =====
-- The rounds of the walk, and that they come to the recursive description.
use coreason_adlc_api.Prelude.{
  ℕ, zero, suc, ◌≤◌, ◌<◌, ◌≡◌, ◌⊎◌, inl, inr, refl, ap, sym, subst, ◌∙◌, Option, none, some, List,
  [], ◌∷◌, ◌++◌, length, length-append, arith, String, Bool-cases,
}
use coreason_adlc_api.Prelude.Text.{str_eq}
use coreason_adlc_api.Json.{Value}
use coreason_adlc_api.Outcome.{Result, ok, raised, Exn, value_error, scrubbing_failed, Result-cases}
use coreason_adlc_api.Pii.{Engine, scrub_text, scrub_sync, or_failed}
use coreason_adlc_api.Pii.Walk.{
  Shape, Slot, value, Cells, Stack, State, assign, assign_copy, and_then, visit_one, visit,
  next_round, scrub_loop, children, shape_of,
}
use coreason_adlc_api.Pii.Redact.{
  redact, redact_all, and_cons, Holds, none_left, size, size_all, build, built, redact_items_lem,
  redact_fields_lem, size_items_lem, size_fields_lem,
}
use coreason_adlc_api.Pii.Memory.{NotIn, Queued, total, AllHold, Fails, IsContainer}
use coreason_adlc_api.Pii.Visit.{
  Ready, Stepped, Visited, assign-Stepped, copy-Stepped, next-Ready, Stepped-Visited,
}

-- the one exception that the scrubber raises
abbrev pub failure : Exn
failure = value_error scrubbing_failed

or_failed_raised : (r : Result String) (e : Exn) → or_failed r ≡ raised e → e ≡ failure
or_failed_raised (ok s) e h = cc h
or_failed_raised (raised x) e h = cc h

pub scrub_text_raised :
    (g : Engine) (s : String) (e : Exn) → scrub_text g s ≡ raised e → e ≡ failure
unfolding scrub_text
scrub_text_raised g s e h = elim (Bool-cases (str_eq s "")) [
  | inl empty ↦ cc (rw empty at h)
  | inr given ↦ or_failed_raised (scrub_sync g s) e (rw given at h)
]

module _ (g : Engine) (t : ℕ) (shape : Shape) where
  step_lem :
      (done : List Slot) (v : Value) (vs : List Value) (s : State)
      → Ready g t shape done (v ∷ vs) s
      → ((s₁ : State) × (visit_one g t (length done) v s ≡ ok s₁)
          × Stepped g t shape done v vs s s₁)
        ⊎ ((visit_one g t (length done) v s ≡ raised failure) × (redact g v ≡ none))
  unfolding redact size
  step_lem done (Value.str text) vs s r = elim (Result-cases (scrub_text g text)) [
    | inl (x, e) ↦ inl (
      assign t (length done) (value (Value.str x)) s,
      rw e refl,
      assign-Stepped g t shape done (Value.str text) (Value.str x) vs s r refl (rw e refl),
    )
    | inr (x, e) ↦
        let one : x ≡ failure = scrub_text_raised g text x e in
        inr (rw e (ap raised one), rw e refl)
  ]
  step_lem done (Value.other x) vs s r = inl (
    assign t (length done) (value (Value.other x)) s,
    refl,
    assign-Stepped g t shape done (Value.other x) (Value.other x) vs s r refl refl,
  )
  step_lem done (Value.list x) vs s r = inl (
    assign_copy t (length done) (Value.list x) s,
    refl,
    copy-Stepped g t shape done (Value.list x) vs s r tt,
  )
  step_lem done (Value.tuple x) vs s r = inl (
    assign_copy t (length done) (Value.tuple x) s,
    refl,
    copy-Stepped g t shape done (Value.tuple x) vs s r tt,
  )
  step_lem done (Value.dict x) vs s r = inl (
    assign_copy t (length done) (Value.dict x) s,
    refl,
    copy-Stepped g t shape done (Value.dict x) vs s r tt,
  )

  none_last : (a : Option Value) (b : Option (List Value)) → b ≡ none → and_cons a b ≡ none
  none_last none b e = refl
  none_last (some w) b e = ap (and_cons (some w)) e

  unfoldable pub VisitEnds : List Slot → List Value → State → Result State → Type 0
  VisitEnds done vs s res =
      ((s' : State) × (res ≡ ok s') × Visited g t shape done vs s s')
      ⊎ ((res ≡ raised failure) × (redact_all g vs ≡ none))

  visit_lem :
      (done : List Slot) (vs : List Value) (i : ℕ) (s : State)
      → i ≡ length done
      → Ready g t shape done vs s
      → VisitEnds done vs s (visit g t i vs s)
  unfolding visit redact_all VisitEnds size_all
  visit_lem done [] i s e r = inl (
    s,
    refl,
    record {
      grown = record {
        next_le = omega arith;
        others = λ a lt ne. refl;
        apart = r.apart;
        older = λ a lt free. free;
        queued = r.queued;
        work = omega arith;
      };
      news = [];
      target = r.target;
      holds = λ h all. (all, ([], refl, none_left));
      fails = λ f. inl f;
    },
  )
  visit_lem done (v ∷ vs) i s e r =
      subst (λ k. VisitEnds done (v ∷ vs) s (and_then (visit_one g t k v s) (visit g t (suc i) vs)))
        (sym e)
        (elim (step_lem done v vs s r) [
          | inr (raises, unknown) ↦
              inr (rw raises refl, ap (λ x. and_cons x (redact_all g vs)) unknown)
          | inl (s₁, steps, step) ↦
              let rest =
                visit_lem (done ++ step.slot ∷ []) vs (suc i) s₁
                  (omega (arith, e, length-append done (step.slot ∷ [])))
                  (next-Ready g t shape done v vs s s₁ r step) in
              elim rest [
                | inl (s₂, ends, visited) ↦
                    inl (
                      s₂,
                      rw steps ends,
                      Stepped-Visited g t shape done v vs s s₁ s₂ r step visited,
                    )
                | inr (raises, unknown) ↦
                    inr (rw steps raises, none_last (redact g v) (redact_all g vs) unknown)
              ]
        ])

module _ (g : Engine) where
  redact_container :
      (v : Value) → IsContainer v → redact g v ≡ built (shape_of v) (redact_all g (children v))
  unfolding redact
  redact_container (Value.str s) is = absurd is
  redact_container (Value.other r) is = absurd is
  redact_container (Value.list vs) is =
      ap (built (shape_of (Value.list vs))) (redact_items_lem g vs)
  redact_container (Value.tuple vs) is =
      ap (built (shape_of (Value.tuple vs))) (redact_items_lem g vs)
  redact_container (Value.dict fs) is =
      ap (built (shape_of (Value.dict fs))) (redact_fields_lem g fs)

  size_container : (v : Value) → IsContainer v → size v ≡ suc (size_all (children v))
  unfolding size
  size_container (Value.str s) is = absurd is
  size_container (Value.other r) is = absurd is
  size_container (Value.list vs) is = ap suc (size_items_lem vs)
  size_container (Value.tuple vs) is = ap suc (size_items_lem vs)
  size_container (Value.dict fs) is = ap suc (size_fields_lem fs)

  continues :
      (fuel t : ℕ) (v : Value) (rest : Stack) (s s' : State)
      → visit g t 0 (children v) (record s { stack = rest }) ≡ ok s'
      → scrub_loop g (suc fuel) ((t, v) ∷ rest) s ≡ scrub_loop g fuel s'.stack s'
  unfolding scrub_loop
  continues fuel t v rest s s' e = ap (λ x. next_round g x (scrub_loop g fuel)) e

  -- The loop ends: the cells hold all that is queued, and others are as they were; or it raises,
  -- and something that is queued cannot be scrubbed.
  unfoldable pub LoopEnds : Stack → State → Option (Result Cells) → Type 0
  LoopEnds st s res =
      ((h : Cells) × (res ≡ some (ok h))
        × AllHold g h st
        × ((a : ℕ) → a < s.next → NotIn a st → h a ≡ s.cell a))
      ⊎ ((res ≡ some (raised failure)) × Fails g st)

  pub loop_lem :
      (fuel : ℕ) (st : Stack) (s : State)
      → Queued s.next s.cell st
      → total st ≤ fuel
      → LoopEnds st s (scrub_loop g fuel st s)
  unfolding scrub_loop LoopEnds Queued NotIn total AllHold Fails VisitEnds
  loop_lem fuel [] s q enough = inl (s.cell, refl, tt, λ a lt free. refl)
  loop_lem zero ((t, v) ∷ rest) s (lt, c, is, own, q) enough =
      absurd (omega (arith, size_container v is, enough))
  loop_lem (suc fuel) ((t, v) ∷ rest) s (lt, c, is, own, q) enough =
      let s₀ = record s { stack = rest } in
      let ready : Ready g t (shape_of v) [] (children v) s₀ = record {
        below = lt;
        apart = own;
        queued = q;
        target = c;
      } in
      elim (visit_lem g t (shape_of v) [] (children v) 0 s₀ refl ready) [
        | inr (raises, unknown) ↦ inr (
          ap (λ x. next_round g x (scrub_loop g fuel)) raises,
          inl (redact_container v is ∙ ap (built (shape_of v)) unknown),
        )
        | inl (s₁, ends, visited) ↦
            let rest_ends =
              loop_lem fuel s₁.stack s₁ visited.grown.queued
                (omega (arith, visited.grown.work, size_container v is, enough)) in
            elim rest_ends [
              | inr (raises, failing) ↦ inr (
                continues fuel t v rest s s₁ ends ∙ raises,
                elim (visited.fails failing) [
                  | inl before ↦ inr before
                  | inr unknown ↦ inl (redact_container v is ∙ ap (built (shape_of v)) unknown)
                ],
              )
              | inl (h, done, all, kept) ↦
                  let (before, (ws, known, held)) = visited.holds h all in
                  let cell_t =
                    kept t (omega (arith, lt, visited.grown.next_le)) visited.grown.apart in
                  inl (
                    h,
                    continues fuel t v rest s s₁ ends ∙ done,
                    (
                      (
                        build (shape_of v) ws,
                        redact_container v is ∙ ap (built (shape_of v)) known,
                        Holds.at t (shape_of v) visited.news ws (cell_t ∙ visited.target) held,
                      ),
                      before,
                    ),
                    λ a old (ne, free).
                        kept a (omega (arith, old, visited.grown.next_le))
                          (visited.grown.older a old free)
                        ∙ visited.grown.others a old (λ e. ne (sym e)),
                  )
            ]
      ]
