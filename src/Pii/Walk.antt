-- ===== src/Pii/Walk.antt =====
-- src/coreason_adlc_api/middleware/pii.py: scrub_pii_recursive. The new containers are mutable
-- objects, here cells at addresses; the source is only read, so it is a value. The body of the loop
-- writes the slots of a target one by one, each at the position that the item has in the source,
-- since the target begins as a copy of it.
use coreason_adlc_api.Prelude.{
  ℕ, zero, suc, String, Option, none, some, List, [], ◌∷◌, map, ◌==◌, if◌then◌else◌,
}
use coreason_adlc_api.Json.{Value, Items, Fields}
use coreason_adlc_api.Outcome.{Result, ok, raised}
use coreason_adlc_api.Pii.{Engine, scrub_text}

-- A list, or a dictionary with these keys in order.
pub data Shape : Type 0 where
  list_shape : Shape
  dict_shape : List String → Shape

pub data Slot : Type 0 where
  value : Value → Slot
  ref : ℕ → Slot

pub record Container : Type 0 where
  pub shape : Shape
  pub slots : List Slot

abbrev pub items_of : Items → List Value
items_of Items.nil = []
items_of (Items.cons v vs) = v ∷ items_of vs

abbrev pub keys_of : Fields → List String
keys_of Fields.end = []
keys_of (Fields.field k v fs) = k ∷ keys_of fs

abbrev pub values_of : Fields → List Value
values_of Fields.end = []
values_of (Fields.field k v fs) = v ∷ values_of fs

-- what `source.items()` or `enumerate(source)` goes through
abbrev pub children : Value → List Value
children (Value.list vs) = items_of vs
children (Value.tuple vs) = items_of vs
children (Value.dict fs) = values_of fs
children _ = []

abbrev pub shape_of : Value → Shape
shape_of (Value.dict fs) = dict_shape (keys_of fs)
shape_of _ = list_shape

-- `v.copy()`, `list(v)` or `v[:]`
abbrev pub copy : Value → Container
copy v = record { shape = shape_of v; slots = map value (children v) }

abbrev pub Cells : Type 0
Cells = ℕ → Option Container

abbrev pub Stack : Type 0
Stack = List (ℕ × Value)

-- `next` is the first address that is not in use.
pub record State : Type 0 where
  pub next : ℕ
  pub cell : Cells
  pub stack : Stack

unfoldable pub update : Cells → ℕ → Option Container → Cells
update f a c b = if b == a then c else f b

abbrev pub set_at {ℓ} : {A : Type ℓ} → ℕ → A → List A → List A
set_at i x [] = []
set_at zero x (y ∷ ys) = x ∷ ys
set_at (suc i) x (y ∷ ys) = y ∷ set_at i x ys

abbrev pub set_slot : ℕ → Slot → Option Container → Option Container
set_slot i x none = none
set_slot i x (some c) = some (record c { slots = set_at i x c.slots })

-- `target[k] = x`
abbrev pub assign : ℕ → ℕ → Slot → State → State
assign t i x s = record s { cell = update s.cell t (set_slot i x (s.cell t)) }

-- `target[k] = new_sub` and `stack.append((new_sub, v))`, with a new copy of `v`
abbrev pub assign_copy : ℕ → ℕ → Value → State → State
assign_copy t i v s = assign t i (ref s.next) (record {
  next = suc s.next;
  cell = update s.cell s.next (some (copy v));
  stack = (s.next, v) ∷ s.stack;
})

abbrev pub and_then : Result State → (State → Result State) → Result State
and_then (ok s) k = k s
and_then (raised e) k = raised e

-- What is returned: a value, the new container, or a tuple of what is in it.
pub data Returned : Type 0 where
  plain : Value → Returned
  container : Returned
  as_tuple : Returned

module _ (g : Engine) where
  abbrev pub assign_text : ℕ → ℕ → Result String → State → Result State
  assign_text t i (ok text) s = ok (assign t i (value (Value.str text)) s)
  assign_text t i (raised e) s = raised e

  -- the body of the `for`
  abbrev pub visit_one : ℕ → ℕ → Value → State → Result State
  visit_one t i (Value.str text) s = assign_text t i (scrub_text g text) s
  visit_one t i (Value.other repr) s = ok (assign t i (value (Value.other repr)) s)
  visit_one t i v s = ok (assign_copy t i v s)

  -- the `for`, from its i-th item on
  unfoldable pub visit : ℕ → ℕ → List Value → State → Result State
  visit t i [] s = ok s
  visit t i (v ∷ vs) s = and_then (visit_one t i v s) (visit t (suc i) vs)

  abbrev pub next_round :
      Result State → (Stack → State → Option (Result Cells)) → Option (Result Cells)
  next_round (ok s) k = k s.stack s
  next_round (raised e) k = some (raised e)

  -- the `while` on fuel; `none` if it runs out
  unfoldable pub scrub_loop : ℕ → Stack → State → Option (Result Cells)
  scrub_loop fuel [] s = some (ok s.cell)
  scrub_loop zero (top ∷ rest) s = none
  scrub_loop (suc fuel) ((t, source) ∷ rest) s =
      next_round (visit t 0 (children source) (record s { stack = rest })) (scrub_loop fuel)

  abbrev pub start : Value → State
  start v = record { next = 1; cell = update (λ a. none) 0 (some (copy v)); stack = (0, v) ∷ [] }

  abbrev pub with_cells : Returned → Result Cells → Result (Returned × Cells)
  with_cells r (ok cells) = ok (r, cells)
  with_cells r (raised e) = raised e

  abbrev pub after_loop : Returned → Option (Result Cells) → Option (Result (Returned × Cells))
  after_loop r none = none
  after_loop r (some x) = some (with_cells r x)

  abbrev pub plain_text : Result String → Result (Returned × Cells)
  plain_text (ok text) = ok (plain (Value.str text), λ a. none)
  plain_text (raised e) = raised e

  -- `scrub_pii_recursive`; the container that it makes first is at the address 0.
  unfoldable pub scrub_pii_recursive : ℕ → Value → Option (Result (Returned × Cells))
  scrub_pii_recursive fuel (Value.str text) = some (plain_text (scrub_text g text))
  scrub_pii_recursive fuel (Value.other repr) = some (ok (plain (Value.other repr), λ a. none))
  scrub_pii_recursive fuel (Value.tuple vs) =
      after_loop as_tuple (scrub_loop fuel ((0, Value.tuple vs) ∷ []) (start (Value.tuple vs)))
  scrub_pii_recursive fuel v = after_loop container (scrub_loop fuel ((0, v) ∷ []) (start v))
