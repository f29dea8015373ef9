-- ===== src/Pii/Memory.antt =====
-- The work list of the walk: every entry is at an address of its own, whose cell still is a copy of
-- the source.
use coreason_adlc_api.Prelude.{
  ℕ, ◌+◌, ◌≤◌, ◌<◌, ◌≡◌, ◌≢◌, ◌⊎◌, refl, ap, ◌∙◌, Option, none, some, List, [], ◌∷◌, ◌++◌, length,
  arith,
}
use coreason_adlc_api.Json.{Value}
use coreason_adlc_api.Pii.{Engine}
use coreason_adlc_api.Pii.Walk.{ref, Cells, Container, Stack, copy, update, set_at}
use coreason_adlc_api.Pii.Redact.{redact, Holds, size}

pub update_own : (f : Cells) (a : ℕ) (c : Option Container) → update f a c a ≡ c
unfolding update
update_own f a c = ground arith

pub update_other : (f : Cells) (a b : ℕ) (c : Option Container) → b ≢ a → update f a c b ≡ f b
unfolding update
update_other f a b c ne = ground arith

pub set_at-append :
    {A : Type 0} (front : List A) (x y : A) (rest : List A)
    → set_at (length front) x (front ++ y ∷ rest) ≡ (front ++ x ∷ []) ++ rest
set_at-append [] x y rest = refl
set_at-append (z ∷ front) x y rest = ap (◌∷◌ z) (set_at-append front x y rest)

unfoldable pub NotIn : ℕ → Stack → Type 0
NotIn t [] = Unit
NotIn t ((a, v) ∷ rest) = (a ≢ t) × NotIn t rest

abbrev pub IsContainer : Value → Type 0
IsContainer (Value.str s) = ⊥
IsContainer (Value.other r) = ⊥
IsContainer _ = Unit

unfoldable pub Queued : ℕ → Cells → Stack → Type 0
Queued next cell [] = Unit
Queued next cell ((a, v) ∷ rest) =
    (a < next) × (cell a ≡ some (copy v)) × IsContainer v × NotIn a rest × Queued next cell rest

pub NotIn-fresh : (next : ℕ) (cell : Cells) (st : Stack) → Queued next cell st → NotIn next st
unfolding NotIn Queued
NotIn-fresh next cell [] q = tt
NotIn-fresh next cell ((a, v) ∷ rest) (lt, c, is, apart, q) =
    (λ e. omega (arith, e, lt), NotIn-fresh next cell rest q)

-- The queue stays good where the cells of its addresses stay.
pub Queued-kept :
    (next next' t : ℕ) (cell cell' : Cells) (st : Stack)
    → next ≤ next'
    → ((a : ℕ) → a < next → a ≢ t → cell' a ≡ cell a)
    → NotIn t st
    → Queued next cell st
    → Queued next' cell' st
unfolding NotIn Queued
Queued-kept next next' t cell cell' [] le same apart q = tt
Queued-kept next next' t cell cell' ((a, v) ∷ rest) le same (ne, apart) (lt, c, is, own, q) = (
  omega arith,
  same a lt ne ∙ c,
  is,
  own,
  Queued-kept next next' t cell cell' rest le same apart q,
)

unfoldable pub total : Stack → ℕ
total [] = 0
total ((a, v) ∷ rest) = size v + total rest

module _ (g : Engine) where
  -- The cells hold what the sources of the queue are to become.
  unfoldable pub AllHold : Cells → Stack → Type 0
  AllHold cells [] = Unit
  AllHold cells ((a, v) ∷ rest) =
      ((w : Value) × (redact g v ≡ some w) × Holds cells (ref a) w) × AllHold cells rest

  -- Some source of the queue cannot be scrubbed.
  unfoldable pub Fails : Stack → Type 0
  Fails [] = ⊥
  Fails ((a, v) ∷ rest) = (redact g v ≡ none) ⊎ Fails rest
