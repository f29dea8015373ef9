-- ===== src/Telemetry/Arrival.antt =====
-- What becomes of the entries that the calls of async_log_telemetry push: they are read back as they
-- were written, and the timestamp in them is a text.
use coreason_adlc_api.Prelude.{
  ℕ, ◌≡◌, refl, ap, sym, ◌∙◌, inl, inr, String, Bool, true, false, Option, none, some, List, [],
  ◌∷◌, ◌++◌, All, Bool-cases, if◌then◌else◌,
}
use coreason_adlc_api.Prelude.Text.{str_eq}
use coreason_adlc_api.Json.{Value, Fields, get}
use coreason_adlc_api.Telemetry.Interface.{Messages, IsLeaf, AreLeaves}
use coreason_adlc_api.Telemetry.{
  Call, pushed, async_log_telemetry, payload_of, text_or_null, uuid_or_null, get_or,
}
use coreason_adlc_api.Telemetry.Worker.{
  Execution, stored, failed, stopped, LogRow, Event, insert, take_entry, lose, arrived, timed_out,
  popped, pop_failed, cancelled, State, row_of, row_with, uuid_in, step, telemetry_worker,
}
use coreason_adlc_api.Telemetry.Delivery.{arrivals}

module _ (m : Messages) where
  open m use {Data, dumps, loads, is_empty, uuid_text, uuid, takes_timestamp}

  abbrev pub entry_of : Call → Data
  entry_of c = dumps (Value.dict (payload_of m c))

  get_or-IsLeaf :
      (v : Value) (k : String) (fs : Fields) → IsLeaf v → AreLeaves fs → IsLeaf (get_or v k fs)
  get_or-IsLeaf v k Fields.end l ls = l
  get_or-IsLeaf v k (Fields.field j u fs) l (u_leaf, ls) = elim (Bool-cases (str_eq j k)) [
    | inl e ↦ rw e u_leaf
    | inr e ↦ rw e (get_or-IsLeaf v k fs l ls)
  ]

  text-IsLeaf : (o : Option String) → IsLeaf (text_or_null o)
  text-IsLeaf none = tt
  text-IsLeaf (some s) = tt

  uuid-IsLeaf : (o : Option ℕ) → IsLeaf (uuid_or_null m o)
  uuid-IsLeaf none = tt
  uuid-IsLeaf (some id) = tt

  payload_of-AreLeaves : (c : Call) → AreLeaves c.metadata → AreLeaves (payload_of m c)
  payload_of-AreLeaves c l =
      let cost = get_or-IsLeaf (Value.other "0.0") "cost_usd" c.metadata tt l in
      let latency = get_or-IsLeaf (Value.other "0") "latency_ms" c.metadata tt l in
      (uuid-IsLeaf c.user_id, (text-IsLeaf c.auc_id, (tt, (tt, (tt, (cost, (latency, (tt, tt))))))))

  -- An entry is read back as it was written.
  pub loads-entry_of :
      (c : Call) → AreLeaves c.metadata → loads (entry_of c) ≡ some (Value.dict (payload_of m c))
  loads-entry_of c l = m.loads-dumps (payload_of m c) (payload_of-AreLeaves c l)

  -- An entry that a call pushes, with metadata of texts, numbers and nulls.
  abbrev pub IsLogged : Data → Type 0
  IsLogged d = (c : Call) × AreLeaves c.metadata × (async_log_telemetry m pushed c [] ≡ d ∷ [])

  same_entry : (d e : Data) → (d ∷ []) ≡ (e ∷ []) → d ≡ e
  same_entry d e h = cc h

  -- Whatever row is made of an entry, the driver does not take its timestamp.
  abbrev IsRefused : Option (LogRow m) → Type 0
  IsRefused none = Unit
  IsRefused (some row) = takes_timestamp row.timestamp ≡ false

  row_with-IsRefused :
      (c : Call) (o : Option (Option ℕ)) → IsRefused (row_with m (payload_of m c) o)
  row_with-IsRefused c none = tt
  row_with-IsRefused c (some user) = m.takes_timestamp-str c.timestamp

  IsLogged-IsRefused : (d : Data) → IsLogged d → IsRefused (row_of m d)
  unfolding async_log_telemetry row_of
  IsLogged-IsRefused d (c, leaves, e) =
      let read : loads d ≡ some (Value.dict (payload_of m c)) =
        ap loads (sym (same_entry (entry_of c) d e)) ∙ loads-entry_of c leaves in
      rw read (row_with-IsRefused c (uuid_in m (get "user_uuid" (payload_of m c))))

  -- The table is as before, and the list holds only entries that calls pushed.
  abbrev Kept : State m → State m → Type 0
  Kept s s' = (s'.logs ≡ s.logs) × All IsLogged s'.queue

  insert-Kept :
      (x : Execution) (o : Option (LogRow m)) (s : State m)
      → IsRefused o
      → All IsLogged s.queue
      → Kept s (insert m x o s)
  insert-Kept x none s h a = (refl, a)
  insert-Kept stored (some row) s h a = (rw h refl, a)
  insert-Kept (failed there) (some row) s h a = (rw h refl, a)
  insert-Kept (stopped there) (some row) s h a = (rw h refl, a)

  take_entry-Kept :
      (x : Execution) (q : List Data) (s : State m)
      → All IsLogged q
      → All IsLogged s.queue
      → Kept s (take_entry m x q s)
  take_entry-Kept x [] s a b = (refl, b)
  take_entry-Kept x (d ∷ ds) s (l, a) b = elim (Bool-cases (is_empty d)) [
    | inl e ↦ rw e (refl, a)
    | inr e ↦ rw e (insert-Kept x (row_of m d) (record s { queue = ds }) (IsLogged-IsRefused d l) a)
  ]

  lose-Kept :
      (lost : Bool) (q : List Data) (s : State m)
      → All IsLogged q
      → All IsLogged s.queue
      → Kept s (lose m lost q s)
  lose-Kept true [] s a b = (refl, b)
  lose-Kept true (d ∷ ds) s (l, a) b = (refl, a)
  lose-Kept false q s a b = (refl, b)

  if-Kept :
      (b : Bool) (s s' : State m) → All IsLogged s.queue → Kept s s' → Kept s (if b then s' else s)
  if-Kept true s s' a k = k
  if-Kept false s s' a k = (refl, a)

  pushed_behind :
      (q : List Data) (d : Data) → All IsLogged q → IsLogged d → All IsLogged (q ++ (d ∷ []))
  pushed_behind [] d a l = (l, tt)
  pushed_behind (e ∷ q) d (k, a) l = (k, pushed_behind q d a l)

  -- Every event but an arrival keeps the table and the origin of the list.
  step-Kept :
      (e : Event m) (s : State m)
      → All IsLogged s.queue
      → All IsLogged (arrivals m (e ∷ []))
      → Kept s (step m e s)
  unfolding step
  step-Kept (arrived d) s a (l, _) = (refl, pushed_behind s.queue d a l)
  step-Kept timed_out s a _ = if-Kept s.running s s a (refl, a)
  step-Kept (popped x) s a _ =
      if-Kept s.running s (take_entry m x s.queue s) a (take_entry-Kept x s.queue s a a)
  step-Kept (pop_failed lost) s a _ =
      if-Kept s.running s (lose m lost s.queue s) a (lose-Kept lost s.queue s a a)
  step-Kept cancelled s a _ = if-Kept s.running s (record s { running = false }) a (refl, a)

  first_arrivals :
      (e : Event m) (es : List (Event m))
      → All IsLogged (arrivals m (e ∷ es))
      → All IsLogged (arrivals m (e ∷ [])) × All IsLogged (arrivals m es)
  first_arrivals (arrived d) es (l, a) = ((l, tt), a)
  first_arrivals timed_out es a = (tt, a)
  first_arrivals (popped x) es a = (tt, a)
  first_arrivals (pop_failed lost) es a = (tt, a)
  first_arrivals cancelled es a = (tt, a)

  -- If the entries in the list and those that arrive are what calls of async_log_telemetry push, with
  -- metadata of texts, numbers and nulls, then the worker adds no row to the table, whatever happens,
  -- also where nothing fails: the driver does not take the text of the timestamp. And the list then
  -- holds only such entries.
  pub telemetry_worker-async_log_telemetry :
      (es : List (Event m)) (s : State m)
      → All IsLogged s.queue
      → All IsLogged (arrivals m es)
      → ((telemetry_worker m es s).logs ≡ s.logs) × All IsLogged (telemetry_worker m es s).queue
  unfolding telemetry_worker
  telemetry_worker-async_log_telemetry [] s a b = (refl, a)
  telemetry_worker-async_log_telemetry (e ∷ es) s a b =
      let (here, later) = first_arrivals e es b in
      let (same, logged) = step-Kept e s a here in
      let (same', logged') = telemetry_worker-async_log_telemetry es (step m e s) logged later in
      (same' ∙ same, logged')
