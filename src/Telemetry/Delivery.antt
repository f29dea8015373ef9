-- ===== src/Telemetry/Delivery.antt =====
-- What becomes of the entries of the list: they leave it in order, and each is written at most once.
use coreason_adlc_api.Prelude.{
  ◌≡◌, refl, ap, sym, subst, inl, inr, ◌∙◌, Bool, true, false, ◌&&◌, Option, none, some, List, [],
  ◌∷◌, ◌++◌, append_assoc, append_nil, if◌then◌else◌, Bool-cases,
}
use coreason_adlc_api.Telemetry.Interface.{Messages}
use coreason_adlc_api.Telemetry.Worker.{
  Execution, stored, failed, stopped, LogRow, insert, take_entry, lose, Event, arrived, timed_out,
  popped, pop_failed, cancelled, State, row_of, step, telemetry_worker,
}

module _ {A : Type 0} where
  -- The same elements in the same order, with some left out.
  pub data IsWithin : List A → List A → Type 0 where
    nothing : IsWithin [] []
    left_out : (x : A) (xs ys : List A) → IsWithin xs ys → IsWithin xs (x ∷ ys)
    kept : (x : A) (xs ys : List A) → IsWithin xs ys → IsWithin (x ∷ xs) (x ∷ ys)

  within_append :
      (xs ys us vs : List A) → IsWithin xs ys → IsWithin us vs → IsWithin (xs ++ us) (ys ++ vs)
  within_append xs ys us vs nothing k = k
  within_append xs ys us vs (left_out a as_ bs h) k =
      left_out a (xs ++ us) (bs ++ vs) (within_append xs bs us vs h k)
  within_append xs ys us vs (kept a as_ bs h) k =
      kept a (as_ ++ us) (bs ++ vs) (within_append as_ bs us vs h k)

  none_within : (xs : List A) → IsWithin [] xs
  none_within [] = nothing
  none_within (x ∷ xs) = left_out x [] xs (none_within xs)

module _ (m : Messages) where
  open m use {Data, is_empty, takes_timestamp}

  abbrev pub row_if : Option (LogRow m) → List (LogRow m)
  row_if none = []
  row_if (some row) = row ∷ []

  -- the row of an entry that is not empty
  abbrev pub own_row : Data → List (LogRow m)
  own_row d = if is_empty d then [] else row_if (row_of m d)

  -- The rows of the entries that have one, in order.
  abbrev pub rows_of : List Data → List (LogRow m)
  rows_of [] = []
  rows_of (d ∷ ds) = own_row d ++ rows_of ds

  abbrev pub arrivals : List (Event m) → List Data
  arrivals [] = []
  arrivals (arrived d ∷ es) = d ∷ arrivals es
  arrivals (timed_out ∷ es) = arrivals es
  arrivals (popped x ∷ es) = arrivals es
  arrivals (pop_failed lost ∷ es) = arrivals es
  arrivals (cancelled ∷ es) = arrivals es

  pub rows_of_append : (a b : List Data) → rows_of (a ++ b) ≡ rows_of a ++ rows_of b
  rows_of_append [] b = refl
  rows_of_append (d ∷ a) b =
      ap (λ x. own_row d ++ x) (rows_of_append a b)
      ∙ sym (append_assoc (own_row d) (rows_of a) (rows_of b))

  -- From s to s', while these entries arrive, some entries leave the list at its front, and for some
  -- of them, in their order, their rows are added to the table.
  abbrev pub Moved : State m → State m → List Data → Type 0
  Moved s s' ds =
      (gone : List Data) × (new : List (LogRow m)) × (gone ++ s'.queue ≡ s.queue ++ ds)
      × (s'.logs ≡ s.logs ++ new)
      × IsWithin new (rows_of gone)

  still : (s s' : State m) → s'.queue ≡ s.queue → s'.logs ≡ s.logs → Moved s s' []
  still s s' e f = ([], [], e ∙ sym (append_nil s.queue), f ∙ sym (append_nil s.logs), nothing)

  then-Moved : (s t u : State m) (a b : List Data) → Moved s t a → Moved t u b → Moved s u (a ++ b)
  then-Moved s t u a b (gone, new, e, f, h) (gone', new', e', f', h') = (
    gone ++ gone',
    new ++ new',
    append_assoc gone gone' u.queue
        ∙ ap (λ x. gone ++ x) e'
        ∙ sym (append_assoc gone t.queue b)
        ∙ ap (λ x. x ++ b) e
        ∙ append_assoc s.queue a b,
    f' ∙ ap (λ x. x ++ new') f ∙ append_assoc s.logs new new',
    rw (rows_of_append gone gone') (within_append new (rows_of gone) new' (rows_of gone') h h'),
  )

  left_front :
      (s s' : State m) (d : Data) → d ∷ s'.queue ≡ s.queue → s'.logs ≡ s.logs → Moved s s' []
  left_front s s' d e f = (
    d ∷ [],
    [],
    e ∙ sym (append_nil s.queue),
    f ∙ sym (append_nil s.logs),
    none_within (rows_of (d ∷ [])),
  )

  wrote :
      (s s' : State m) (d : Data) (row : LogRow m)
      → d ∷ s'.queue ≡ s.queue
      → s'.logs ≡ s.logs ++ (row ∷ [])
      → own_row d ≡ row ∷ []
      → Moved s s' []
  wrote s s' d row e f own =
      (d ∷ [], row ∷ [], e ∙ sym (append_nil s.queue), f, rw own (kept row [] [] nothing))

  -- An entry is taken, and its row is added or not.
  added_moves :
      (there : Bool) (s s' : State m) (d : Data) (row : LogRow m)
      → d ∷ s'.queue ≡ s.queue
      → s'.logs ≡ (if there then s.logs ++ (row ∷ []) else s.logs)
      → own_row d ≡ row ∷ []
      → Moved s s' []
  added_moves true s s' d row e f own = wrote s s' d row e f own
  added_moves false s s' d row e f own = left_front s s' d e f

  insert_moves :
      (x : Execution) (s : State m) (d : Data) (ds : List Data)
      → s.queue ≡ d ∷ ds
      → is_empty d ≡ false
      → (o : Option (LogRow m)) → row_of m d ≡ o
      → Moved s (insert m x o (record s { queue = ds })) []
  insert_moves x s d ds q full none o = left_front s (record s { queue = ds }) d (sym q) refl
  insert_moves stored s d ds q full (some row) o =
      added_moves (takes_timestamp row.timestamp && true) s
        (insert m stored (some row) (record s { queue = ds })) d row (sym q) refl
        (rw (full, o) refl)
  insert_moves (failed there) s d ds q full (some row) o =
      added_moves (takes_timestamp row.timestamp && there) s
        (insert m (failed there) (some row) (record s { queue = ds })) d row (sym q) refl
        (rw (full, o) refl)
  insert_moves (stopped there) s d ds q full (some row) o =
      added_moves (takes_timestamp row.timestamp && there) s
        (insert m (stopped there) (some row) (record s { queue = ds })) d row (sym q) refl
        (rw (full, o) refl)

  take_moves :
      (x : Execution) (s : State m) (l : List Data) → s.queue ≡ l → Moved s (take_entry m x l s) []
  take_moves x s [] q = still s s refl refl
  take_moves x s (d ∷ ds) q = elim (Bool-cases (is_empty d)) [
    | inl e ↦ rw e (left_front s (record s { queue = ds }) d (sym q) refl)
    | inr e ↦ rw e (insert_moves x s d ds q e (row_of m d) refl)
  ]

  lose_moves :
      (lost : Bool) (s : State m) (l : List Data) → s.queue ≡ l → Moved s (lose m lost l s) []
  lose_moves true s [] q = still s s refl refl
  lose_moves true s (d ∷ ds) q = left_front s (record s { queue = ds }) d (sym q) refl
  lose_moves false s l q = still s s refl refl

  if_moves : (b : Bool) (s s' : State m) → Moved s s' [] → Moved s (if b then s' else s) []
  if_moves true s s' h = h
  if_moves false s s' h = still s s refl refl

  step_moves : (e : Event m) (s : State m) → Moved s (step m e s) (arrivals (e ∷ []))
  unfolding step
  step_moves (arrived d) s = ([], [], refl, sym (append_nil s.logs), nothing)
  step_moves timed_out s = if_moves s.running s s (still s s refl refl)
  step_moves (popped x) s =
      if_moves s.running s (take_entry m x s.queue s) (take_moves x s s.queue refl)
  step_moves (pop_failed lost) s =
      if_moves s.running s (lose m lost s.queue s) (lose_moves lost s s.queue refl)
  step_moves cancelled s =
      if_moves s.running s (record s { running = false })
        (still s (record s { running = false }) refl refl)

  arrivals_cons :
      (e : Event m) (es : List (Event m)) → arrivals (e ∷ []) ++ arrivals es ≡ arrivals (e ∷ es)
  arrivals_cons (arrived d) es = refl
  arrivals_cons timed_out es = refl
  arrivals_cons (popped x) es = refl
  arrivals_cons (pop_failed lost) es = refl
  arrivals_cons cancelled es = refl

  -- Whatever happens, with any failures and with entries that cannot be read: the entries leave the
  -- list in the order in which they came, and the rows that the worker adds are those of some of
  -- them, in that order, so that no entry is written twice.
  pub telemetry_worker-Moved :
      (es : List (Event m)) (s : State m) → Moved s (telemetry_worker m es s) (arrivals es)
  unfolding telemetry_worker
  telemetry_worker-Moved [] s = still s s refl refl
  telemetry_worker-Moved (e ∷ es) s =
      subst (Moved s (telemetry_worker m es (step m e s))) (arrivals_cons e es) (
        then-Moved s (step m e s) (telemetry_worker m es (step m e s)) (arrivals (e ∷ []))
          (arrivals es) (step_moves e s) (telemetry_worker-Moved es (step m e s)))
