-- ===== src/Pii/Visit.antt =====
-- One round of the walk: the `for` over the parts of one source.
use coreason_adlc_api.Prelude.{
  append_assoc, ℕ, suc, ◌+◌, ◌≤◌, ◌<◌, ◌≡◌, ◌≢◌, ◌⊎◌, inl, inr, refl, ap, sym, ◌∙◌, Option, none,
  some, List, [], ◌∷◌, ◌++◌, map, length, arith,
}
use coreason_adlc_api.Json.{Value}
use coreason_adlc_api.Pii.{Engine}
use coreason_adlc_api.Pii.Walk.{
  Shape, Slot, value, ref, Cells, State, copy, update, set_slot, assign, assign_copy,
}
use coreason_adlc_api.Pii.Redact.{
  redact, redact_all, and_cons, Holds, HoldsAll, and_next, size, size_all,
}
use coreason_adlc_api.Pii.Memory.{
  update_own, update_other, set_at-append, NotIn, Queued, NotIn-fresh, Queued-kept, total, AllHold,
  Fails, IsContainer,
}

module _ (g : Engine) (t : ℕ) (shape : Shape) where
  -- the cell of the target, with these slots
  abbrev pub Target : Cells → List Slot → Type 0
  Target cell slots = cell t ≡ some (record { shape = shape; slots = slots })

  -- What is known before an item is visited: the target's first slots are final, the others are
  -- those of the copy.
  pub record Ready (done : List Slot) (vs : List Value) (s : State) : Type 0 where
    pub below : t < s.next
    pub apart : NotIn t s.stack
    pub queued : Queued s.next s.cell s.stack
    pub target : Target s.cell (done ++ map value vs)

  -- What a visit of items has done to the state, apart from the slots that it wrote.
  pub record Grown (n : ℕ) (s s' : State) : Type 0 where
    pub next_le : s.next ≤ s'.next
    pub others : (a : ℕ) → a < s.next → a ≢ t → s'.cell a ≡ s.cell a
    pub apart : NotIn t s'.stack
    pub older : (a : ℕ) → a < s.next → NotIn a s.stack → NotIn a s'.stack
    pub queued : Queued s'.next s'.cell s'.stack
    pub work : total s'.stack ≡ total s.stack + n

  -- One item was visited: its slot holds what it is to become, once all that is queued does.
  pub record Stepped (done : List Slot) (v : Value) (vs : List Value) (s s' : State) : Type 0 where
    pub grown : Grown (size v) s s'
    pub slot : Slot
    pub target : Target s'.cell ((done ++ slot ∷ []) ++ map value vs)
    pub holds :
        (h : Cells)
        → AllHold g h s'.stack
        → AllHold g h s.stack × ((w : Value) × (redact g v ≡ some w) × Holds h slot w)
    pub fails : Fails g s'.stack → Fails g s.stack ⊎ (redact g v ≡ none)

  pub record Visited (done : List Slot) (vs : List Value) (s s' : State) : Type 0 where
    pub grown : Grown (size_all vs) s s'
    pub news : List Slot
    pub target : Target s'.cell (done ++ news)
    pub holds :
        (h : Cells)
        → AllHold g h s'.stack
        → AllHold g h s.stack
          × ((ws : List Value) × (redact_all g vs ≡ some ws) × HoldsAll h news ws)
    pub fails : Fails g s'.stack → Fails g s.stack ⊎ (redact_all g vs ≡ none)

  assigned-Target :
      (done : List Slot) (x y : Slot) (rest : List Slot) (cell : Cells)
      → Target cell (done ++ y ∷ rest)
      → Target (update cell t (set_slot (length done) x (cell t))) ((done ++ x ∷ []) ++ rest)
  assigned-Target done x y rest cell e =
      update_own cell t (set_slot (length done) x (cell t))
      ∙ ap (set_slot (length done) x) e
      ∙ ap (λ l. some (record { shape = shape; slots = l })) (set_at-append done x y rest)

  -- a write of a final value
  pub assign-Stepped :
      (done : List Slot) (v w : Value) (vs : List Value) (s : State)
      → Ready done (v ∷ vs) s
      → size v ≡ 0
      → redact g v ≡ some w
      → Stepped done v vs s (assign t (length done) (value w) s)
  assign-Stepped done v w vs s r atom known = record {
    grown = record {
      next_le = omega arith;
      others = λ a lt ne. update_other s.cell t a (set_slot (length done) (value w) (s.cell t)) ne;
      apart = r.apart;
      older = λ a lt free. free;
      queued =
          Queued-kept s.next s.next t s.cell
            (update s.cell t (set_slot (length done) (value w) (s.cell t))) s.stack (omega arith)
            (λ a lt ne. update_other s.cell t a (set_slot (length done) (value w) (s.cell t)) ne)
            r.apart r.queued;
      work = omega (arith, atom);
    };
    slot = value w;
    target = assigned-Target done (value w) (value v) (map value vs) s.cell r.target;
    holds = λ h all. (all, (w, known, Holds.plain w));
    fails = λ f. inl f;
  }

  -- a write of a new container, which is queued
  pub copy-Stepped :
      (done : List Slot) (v : Value) (vs : List Value) (s : State)
      → Ready done (v ∷ vs) s
      → IsContainer v
      → Stepped done v vs s (assign_copy t (length done) v s)
  unfolding NotIn Queued total AllHold Fails
  copy-Stepped done v vs s r is =
      let n = s.next in
      let apart_n : t ≢ n = λ e. omega (arith, e, r.below) in
      let cell₁ = update s.cell n (some (copy v)) in
      let write = set_slot (length done) (ref n) (cell₁ t) in
      let target₁ : Target cell₁ (done ++ map value (v ∷ vs)) =
        update_other s.cell n t (some (copy v)) apart_n ∙ r.target in
      let same : (a : ℕ) → a < n → a ≢ t → update cell₁ t write a ≡ s.cell a = λ a lt ne.
        update_other cell₁ t a write ne
        ∙ update_other s.cell n a (some (copy v)) (λ e. omega (arith, e, lt)) in
      record {
        grown = record {
          next_le = omega arith;
          others = same;
          apart = (λ e. apart_n (sym e), r.apart);
          older = λ a lt free. (λ e. omega (arith, e, lt), free);
          queued = (
            omega arith,
            update_other cell₁ t n write (λ e. apart_n (sym e))
                ∙ update_own s.cell n (some (copy v)),
            is,
            NotIn-fresh n s.cell s.stack r.queued,
            Queued-kept n (suc n) t s.cell (update cell₁ t write) s.stack (omega arith) same r.apart
                r.queued,
          );
          work = omega arith;
        };
        slot = ref n;
        target = assigned-Target done (ref n) (value v) (map value vs) cell₁ target₁;
        holds = λ h all. (all.1, all.0);
        fails = λ f. elim f [ inl e ↦ inr e | inr rest ↦ inl rest ];
      }

  pub next-Ready :
      (done : List Slot) (v : Value) (vs : List Value) (s s' : State)
      → Ready done (v ∷ vs) s
      → (step : Stepped done v vs s s') → Ready (done ++ step.slot ∷ []) vs s'
  next-Ready done v vs s s' r step = record {
    below = omega (arith, r.below, step.grown.next_le);
    apart = step.grown.apart;
    queued = step.grown.queued;
    target = step.target;
  }

  and_cons-some :
      (a : Option Value) (b : Option (List Value)) (w : Value) (ws : List Value)
      → a ≡ some w
      → b ≡ some ws
      → and_cons a b ≡ some (w ∷ ws)
  and_cons-some a b w ws e f = rw (e, f) refl

  and_cons-none :
      (a : Option Value) (b : Option (List Value)) → (a ≡ none) ⊎ (b ≡ none) → and_cons a b ≡ none
  and_cons-none none b h = refl
  and_cons-none (some w) none h = refl
  and_cons-none (some w) (some ws) h = elim h [ inl e ↦ cc e | inr e ↦ cc e ]

  -- an item, and then the others
  pub Stepped-Visited :
      (done : List Slot) (v : Value) (vs : List Value) (s s₁ s₂ : State)
      → Ready done (v ∷ vs) s
      → (step : Stepped done v vs s s₁) → Visited (done ++ step.slot ∷ []) vs s₁ s₂
      → Visited done (v ∷ vs) s s₂
  unfolding redact_all size_all
  Stepped-Visited done v vs s s₁ s₂ r step rest = record {
    grown = record {
      next_le = omega (arith, step.grown.next_le, rest.grown.next_le);
      others = λ a lt ne.
          rest.grown.others a (omega (arith, step.grown.next_le, lt)) ne
          ∙ step.grown.others a lt ne;
      apart = rest.grown.apart;
      older = λ a lt free.
          rest.grown.older a (omega (arith, step.grown.next_le, lt)) (step.grown.older a lt free);
      queued = rest.grown.queued;
      work = omega (arith, step.grown.work, rest.grown.work);
    };
    news = step.slot ∷ rest.news;
    target =
        rest.target
        ∙ ap (λ l. some (record { shape = shape; slots = l }))
            (append_assoc done (step.slot ∷ []) rest.news);
    holds = λ h all.
        let (all₁, (ws, known_ws, held_ws)) = rest.holds h all in
        let (all₀, (w, known, held)) = step.holds h all₁ in
        (
          all₀,
          (
            w ∷ ws,
            and_cons-some (redact g v) (redact_all g vs) w ws known known_ws,
            and_next step.slot rest.news w ws held held_ws,
          ),
        );
    fails = λ f. elim (rest.fails f) [
      | inr e ↦ inr (and_cons-none (redact g v) (redact_all g vs) (inr e))
      | inl f₁ ↦ elim (step.fails f₁) [
        | inl f₀ ↦ inl f₀
        | inr e ↦ inr (and_cons-none (redact g v) (redact_all g vs) (inl e))
      ]
    ];
  }
