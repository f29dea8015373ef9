-- ===== src/Breaker/Window.antt =====
-- What `_prune_history` keeps of a history in order of time: the failures inside the window.
use coreason_adlc_api.Prelude.{
  ℕ, ◌+◌, ◌≤◌, ◌≡◌, refl, ◌∙◌, sym, ap, Bool, List, [], ◌∷◌, ◌++◌, arith, ltb, All, filter,
  filter-append,
}
use coreason_adlc_api.Breaker.{prune_history}

-- Failed at `h`, less than `window` before `now`.
abbrev pub within : ℕ → ℕ → ℕ → Bool
within window now h = ltb now (h + window)

abbrev pub IsSorted : List ℕ → Type 0
IsSorted [] = Unit
IsSorted (x ∷ xs) = All (λ y. x ≤ y) xs × IsSorted xs

filter_later :
    (window now h : ℕ) (hs : List ℕ)
    → within window now h ≡ Bool.true
    → All (λ y. h ≤ y) hs
    → filter (within window now) hs ≡ hs
filter_later window now h [] k a = refl
filter_later window now h (x ∷ xs) k (le, a) = ground (arith, filter_later window now h xs k a)

-- On an ordered history the loop that stops at the first recent failure keeps all recent ones.
pub prune_history-eq-filter :
    (window now : ℕ) (hs : List ℕ)
    → IsSorted hs
    → prune_history window now hs ≡ filter (within window now) hs
unfolding prune_history
prune_history-eq-filter window now [] s = refl
prune_history-eq-filter window now (h ∷ hs) s =
    ground (arith, prune_history-eq-filter window now hs s.1, filter_later window now h hs)

-- What is too old at one time is too old later.
pub filter_twice :
    (window earlier now : ℕ) (hs : List ℕ)
    → earlier ≤ now
    → filter (within window now) (filter (within window earlier) hs) ≡ filter (within window now) hs
filter_twice window earlier now [] le = refl
filter_twice window earlier now (h ∷ hs) le = ground (arith, filter_twice window earlier now hs le)

pub All-filter :
    (p : ℕ → Bool) (n : ℕ) (hs : List ℕ) → All (λ y. n ≤ y) hs → All (λ y. n ≤ y) (filter p hs)
All-filter p n [] a = tt
All-filter p n (h ∷ hs) a = ground (arith, All-filter p n hs a.1)

pub IsSorted-filter : (p : ℕ → Bool) (hs : List ℕ) → IsSorted hs → IsSorted (filter p hs)
IsSorted-filter p [] s = tt
IsSorted-filter p (h ∷ hs) s = ground (arith, IsSorted-filter p hs s.1, All-filter p h hs s.0)

All-snoc :
    (n now : ℕ) (hs : List ℕ) → n ≤ now → All (λ y. n ≤ y) hs → All (λ y. n ≤ y) (hs ++ now ∷ [])
All-snoc n now [] le a = (le, tt)
All-snoc n now (h ∷ hs) le a = (a.0, All-snoc n now hs le a.1)

-- No failure is later than `n`. Shut, so that the tactics take it whole.
pub UpTo : ℕ → List ℕ → Type 0
UpTo n hs = All (λ y. y ≤ n) hs

pub UpTo-nil : (n : ℕ) → UpTo n []
unfolding UpTo
UpTo-nil n = tt

pub UpTo-snoc :
    (earlier now : ℕ) (hs : List ℕ) → earlier ≤ now → UpTo earlier hs → UpTo now (hs ++ now ∷ [])
unfolding UpTo
UpTo-snoc earlier now [] le a = (omega arith, tt)
UpTo-snoc earlier now (h ∷ hs) le a = (omega arith, UpTo-snoc earlier now hs le a.1)

UpTo-later : (earlier now : ℕ) (hs : List ℕ) → earlier ≤ now → UpTo earlier hs → UpTo now hs
unfolding UpTo
UpTo-later earlier now [] le a = tt
UpTo-later earlier now (h ∷ hs) le a = (omega arith, UpTo-later earlier now hs le a.1)

UpTo-filter : (p : ℕ → Bool) (n : ℕ) (hs : List ℕ) → UpTo n hs → UpTo n (filter p hs)
unfolding UpTo
UpTo-filter p n [] a = tt
UpTo-filter p n (h ∷ hs) a = ground (arith, UpTo-filter p n hs a.1)

pub IsSorted-snoc :
    (earlier now : ℕ) (hs : List ℕ)
    → earlier ≤ now
    → UpTo earlier hs
    → IsSorted hs
    → IsSorted (hs ++ now ∷ [])
unfolding UpTo
IsSorted-snoc earlier now [] le a s = (tt, tt)
IsSorted-snoc earlier now (h ∷ hs) le a s =
    (All-snoc h now hs (omega arith) s.0, IsSorted-snoc earlier now hs le a.1 s.1)

-- One more failure at `now`: pruning what an earlier pruning kept is pruning the whole record.
pub prune_history-snoc :
    (window earlier now : ℕ) (hs : List ℕ)
    → earlier ≤ now
    → UpTo earlier hs
    → IsSorted hs
    → prune_history window now (filter (within window earlier) hs ++ now ∷ [])
      ≡ filter (within window now) (hs ++ now ∷ [])
prune_history-snoc window earlier now hs le a s =
    prune_history-eq-filter window now (filter (within window earlier) hs ++ now ∷ []) (
      IsSorted-snoc earlier now _ le (UpTo-filter (within window earlier) earlier hs a)
        (IsSorted-filter _ hs s))
    ∙ filter-append (within window now) (filter (within window earlier) hs) (now ∷ [])
    ∙ ap (λ l. l ++ filter (within window now) (now ∷ [])) (filter_twice window earlier now hs le)
    ∙ sym (filter-append (within window now) hs (now ∷ []))

-- Failures that are all a window or more old are dropped.
pub filter_old :
    (window n now : ℕ) (hs : List ℕ)
    → n + window ≤ now
    → UpTo n hs
    → filter (within window now) hs ≡ []
unfolding UpTo
filter_old window n now [] le a = refl
filter_old window n now (h ∷ hs) le a = ground (arith, filter_old window n now hs le a.1)
