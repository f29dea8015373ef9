-- ===== src/Pii/Redaction.antt =====
-- What redaction means, character by character and in any order of the results, and that the
-- splices come to it when the results do not overlap.
use coreason_adlc_api.Prelude.{
  ℕ, zero, suc, ◌+◌, ◌-◌, ◌≤◌, ◌<◌, ◌≡◌, ◌⊎◌, refl, ap, sym, subst, ◌∙◌, inl, inr, Bool, true,
  false, ◌&&◌, ◌||◌, List, [], ◌∷◌, ◌++◌, leb, ltb, ◌==◌, take, drop, length, All, Bool-cases,
  if◌then◌else◌, append_assoc, arith,
}
use coreason_adlc_api.Pii.{Span, insert_span, sorted_results, splice_all}
use coreason_adlc_api.Pii.Splice.{FitsIn, IsChain, splice_all-cons, length-take, drop-drop}

abbrev pub covers : ℕ → Span → Bool
covers i r = leb r.start i && ltb i r.end_

abbrev pub covered : ℕ → List Span → Bool
covered i [] = false
covered i (r ∷ rs) = covers i r || covered i rs

module _ {ℓ} {A : Type ℓ} (replacement : Span → List A) where
  -- the replacements of the spans that begin at a position
  abbrev pub emitted : ℕ → List Span → List A
  emitted i [] = []
  emitted i (r ∷ rs) =
      let rest = emitted i rs in if r.start == i then replacement r ++ rest else rest

  abbrev kept : Bool → A → List A
  kept true c = []
  kept false c = c ∷ []

  -- Each span is replaced where it begins, and every element outside of the spans is kept.
  unfoldable pub redacted : List Span → ℕ → List A → List A
  redacted rs i [] = []
  redacted rs i (c ∷ cs) = emitted i rs ++ (kept (covered i rs) c ++ redacted rs (suc i) cs)

  emitted-insert :
      (i : ℕ) (r : Span) (xs : List Span) → emitted i (insert_span r xs) ≡ emitted i (r ∷ xs)
  emitted-insert i r [] = refl
  emitted-insert i r (x ∷ xs) = ground (arith, emitted-insert i r xs)

  covered-insert :
      (i : ℕ) (r : Span) (xs : List Span) → covered i (insert_span r xs) ≡ covered i (r ∷ xs)
  covered-insert i r [] = refl
  covered-insert i r (x ∷ xs) = ground (arith, covered-insert i r xs)

  emitted-sorted : (i : ℕ) (rs : List Span) → emitted i (sorted_results rs) ≡ emitted i rs
  emitted-sorted i [] = refl
  emitted-sorted i (r ∷ rs) =
      emitted-insert i r (sorted_results rs)
      ∙ ap (λ x. if r.start == i then replacement r ++ x else x) (emitted-sorted i rs)

  covered-sorted : (i : ℕ) (rs : List Span) → covered i (sorted_results rs) ≡ covered i rs
  covered-sorted i [] = refl
  covered-sorted i (r ∷ rs) =
      covered-insert i r (sorted_results rs) ∙ ap (λ x. covers i r || x) (covered-sorted i rs)

  pub redacted-sorted :
      (rs : List Span) (i : ℕ) (l : List A) → redacted (sorted_results rs) i l ≡ redacted rs i l
  unfolding redacted
  redacted-sorted rs i [] = refl
  redacted-sorted rs i (c ∷ cs) =
      rw (emitted-sorted i rs) (rw (covered-sorted i rs) (rw (redacted-sorted rs (suc i) cs) refl))

  -- Past a chain of spans nothing begins and nothing is covered.
  emitted-past : (i n : ℕ) (rs : List Span) → IsChain n rs → n ≤ i → emitted i rs ≡ []
  emitted-past i n [] c le = refl
  emitted-past i n (r ∷ rs) ((pos, fit), c) le =
      ground (arith, emitted-past i r.start rs c (omega arith))

  covered-past : (i n : ℕ) (rs : List Span) → IsChain n rs → n ≤ i → covered i rs ≡ false
  covered-past i n [] c le = refl
  covered-past i n (r ∷ rs) ((pos, fit), c) le =
      ground (arith, covered-past i r.start rs c (omega arith))

  redacted-past :
      (i n : ℕ) (rs : List Span) (l : List A) → IsChain n rs → n ≤ i → redacted rs i l ≡ l
  unfolding redacted
  redacted-past i n rs [] c le = refl
  redacted-past i n rs (x ∷ l) c le =
      rw (emitted-past i n rs c le)
        (rw (covered-past i n rs c le) (ap (◌∷◌ x) (redacted-past (suc i) n rs l c (omega arith))))

  module _ (r : Span) (rs : List Span) (below : IsChain r.start rs) where
    -- inside of the span, `k` elements before its end
    inside :
        (k i : ℕ) (l : List A) → i + k ≡ r.end_ → r.start < i → redacted (r ∷ rs) i l ≡ drop k l
    unfolding redacted
    inside zero i l e p =
        redacted-past i i (r ∷ rs) l ((omega arith, omega arith), below) (omega arith)
    inside (suc k) i [] e p = refl
    inside (suc k) i (x ∷ l) e p =
        let none_ : emitted i (r ∷ rs) ≡ [] =
          ground (arith, emitted-past i r.start rs below (omega arith)) in
        let cov : covered i (r ∷ rs) ≡ true = ground arith in
        rw none_ (rw cov (inside k (suc i) l (omega arith) (omega arith)))

    -- from the position `n` before the span on, where the span has `suc d` elements
    from_before :
        (n d i : ℕ) (l : List A)
        → i + n ≡ r.start
        → r.start + suc d ≡ r.end_
        → n + suc d ≤ length l
        → redacted (r ∷ rs) i l
          ≡ redacted rs i (take n l) ++ (replacement r ++ drop (suc d) (drop n l))
    unfolding redacted
    from_before zero d i [] e w fit = absurd (omega arith)
    from_before zero d i (x ∷ l) e w fit =
        let own : (r.start == i) ≡ true = ground arith in
        let cov : covered i (r ∷ rs) ≡ true = ground arith in
        let none_ : emitted i rs ≡ [] = emitted-past i r.start rs below (omega arith) in
        rw cov (
          rw own (
            rw none_ (
              append_assoc (replacement r) [] (redacted (r ∷ rs) (suc i) l)
              ∙ ap (λ y. replacement r ++ y) (inside d (suc i) l (omega arith) (omega arith)))))
    from_before (suc n) d i [] e w fit = absurd (omega arith)
    from_before (suc n) d i (x ∷ l) e w fit =
        let front = redacted rs (suc i) (take n l) in
        let tail_ = replacement r ++ drop (suc d) (drop n l) in
        let same : emitted i (r ∷ rs) ≡ emitted i rs = ground arith in
        let cov : covered i (r ∷ rs) ≡ covered i rs = ground arith in
        rw same (
          rw cov (
            rw (from_before n d (suc i) l (omega arith) w (omega arith)) (
              ap (λ y. emitted i rs ++ y) (sym (append_assoc (kept (covered i rs) x) front tail_))
              ∙ sym (append_assoc (emitted i rs) (kept (covered i rs) x ++ front) tail_))))

  splice_all-chain :
      (rs : List Span) (l : List A)
      → IsChain (length l) rs
      → splice_all replacement rs l ≡ redacted rs 0 l
  unfolding splice_all
  splice_all-chain [] l c = sym (redacted-past 0 0 [] l tt (omega arith))
  splice_all-chain (r ∷ rs) l ((pos, fit), c) =
      let below : IsChain (length (take r.start l)) rs =
        subst (λ n. IsChain n rs) (sym (length-take r.start l (omega arith))) c in
      let d = r.end_ - suc r.start in
      splice_all-cons replacement r rs l ((pos, fit), c)
      ∙ ap (λ y. y ++ (replacement r ++ drop r.end_ l)) (splice_all-chain rs (take r.start l) below)
      ∙ ap (λ y. redacted rs 0 (take r.start l) ++ (replacement r ++ y))
          (ap (λ k. drop k l) (omega arith) ∙ sym (drop-drop (suc d) r.start l))
      ∙ sym (from_before r rs c r.start d 0 l (omega arith) (omega arith) (omega arith))

-- Two spans that do not overlap, and results that each cover something of `n` characters and do
-- not overlap.
abbrev pub AreApart : Span → Span → Type 0
AreApart r x = (r.end_ ≤ x.start) ⊎ (x.end_ ≤ r.start)

abbrev pub AreDisjoint : ℕ → List Span → Type 0
AreDisjoint n [] = Unit
AreDisjoint n (r ∷ rs) = FitsIn n r × (All (AreApart r) rs × AreDisjoint n rs)

insert-All :
    (P : Span → Type 0) (r : Span) (xs : List Span) → P r → All P xs → All P (insert_span r xs)
insert-All P r [] p a = (p, tt)
insert-All P r (x ∷ xs) p (q, a) = elim (Bool-cases (leb x.start r.start)) [
  | inl e ↦ rw e (p, (q, a))
  | inr e ↦ rw e (q, insert-All P r xs p a)
]

sorted-All : (P : Span → Type 0) (rs : List Span) → All P rs → All P (sorted_results rs)
sorted-All P [] a = tt
sorted-All P (r ∷ rs) (p, a) = insert-All P r (sorted_results rs) p (sorted-All P rs a)

insert-IsChain :
    (n : ℕ) (r : Span) (xs : List Span)
    → FitsIn n r
    → All (AreApart r) xs
    → IsChain n xs
    → IsChain n (insert_span r xs)
insert-IsChain n r [] f a c = (f, tt)
insert-IsChain n r (x ∷ xs) (pos, fit) (apart, a) ((xpos, xfit), c) =
    elim (Bool-cases (leb x.start r.start)) [
      | inl e ↦ let ends : x.end_ ≤ r.start = ground arith in rw e ((pos, fit), ((xpos, ends), c))
      | inr e ↦
          let ends : r.end_ ≤ x.start = ground arith in
          rw e ((xpos, xfit), insert-IsChain x.start r xs (pos, ends) a c)
    ]

sorted-IsChain : (n : ℕ) (rs : List Span) → AreDisjoint n rs → IsChain n (sorted_results rs)
sorted-IsChain n [] d = tt
sorted-IsChain n (r ∷ rs) (f, (a, d)) =
    insert-IsChain n r (sorted_results rs) f (sorted-All (AreApart r) rs a) (sorted-IsChain n rs d)

pub splice_all-redacted :
    {A : Type 0} (replacement : Span → List A) (rs : List Span) (l : List A)
    → AreDisjoint (length l) rs
    → splice_all replacement (sorted_results rs) l ≡ redacted replacement rs 0 l
splice_all-redacted replacement rs l d =
    splice_all-chain replacement (sorted_results rs) l (sorted-IsChain (length l) rs d)
    ∙ redacted-sorted replacement rs 0 l
