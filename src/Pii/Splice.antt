-- ===== src/Pii/Splice.antt =====
-- Splicing from the last span to the first: no splice moves what a later one replaces.
use coreason_adlc_api.Prelude.{
  ℕ, zero, suc, ◌+◌, ◌≤◌, ◌<◌, ◌≡◌, refl, ap, sym, subst, ◌∙◌, List, [], ◌∷◌, ◌++◌, max, take, drop,
  length, append_assoc, arith,
}
use coreason_adlc_api.Pii.{Span, splice_all}

-- A span covers something, and ends within a list of `n` elements.
abbrev pub FitsIn : ℕ → Span → Type 0
FitsIn n r = (r.start < r.end_) × (r.end_ ≤ n)

-- From the last to the first, each span ends where the one before it begins or earlier.
abbrev pub IsChain : ℕ → List Span → Type 0
IsChain n [] = Unit
IsChain n (r ∷ rs) = FitsIn n r × IsChain r.start rs

module _ {ℓ} {A : Type ℓ} where
  pub take-drop : (n : ℕ) (l : List A) → take n l ++ drop n l ≡ l
  take-drop zero l = refl
  take-drop (suc n) [] = refl
  take-drop (suc n) (x ∷ l) = ap (◌∷◌ x) (take-drop n l)

  pub take_le : (m n : ℕ) (l : List A) → m ≤ n → take m (take n l) ≡ take m l
  take_le zero n l h = refl
  take_le (suc m) zero l h = absurd (omega arith)
  take_le (suc m) (suc n) [] h = refl
  take_le (suc m) (suc n) (x ∷ l) h = ap (◌∷◌ x) (take_le m n l (omega arith))

  pub length-take : (n : ℕ) (l : List A) → n ≤ length l → length (take n l) ≡ n
  length-take zero l h = refl
  length-take (suc n) [] h = absurd (omega arith)
  length-take (suc n) (x ∷ l) h = ap suc (length-take n l (omega arith))

  pub drop_append : (m : ℕ) (a b : List A) → m ≤ length a → drop m (a ++ b) ≡ drop m a ++ b
  drop_append zero a b h = refl
  drop_append (suc m) [] b h = absurd (omega arith)
  drop_append (suc m) (x ∷ a) b h = drop_append m a b (omega arith)

  pub take_append : (m : ℕ) (a b : List A) → m ≤ length a → take m (a ++ b) ≡ take m a
  take_append zero a b h = refl
  take_append (suc m) [] b h = absurd (omega arith)
  take_append (suc m) (x ∷ a) b h = ap (◌∷◌ x) (take_append m a b (omega arith))

  drop-nil : (n : ℕ) → drop {A = A} n [] ≡ []
  drop-nil zero = refl
  drop-nil (suc n) = refl

  pub drop-drop : (m n : ℕ) (l : List A) → drop m (drop n l) ≡ drop (n + m) l
  drop-drop m zero l = ap (λ k. drop k l) (omega arith)
  drop-drop m (suc n) [] = drop-nil m ∙ sym (drop-nil (suc n + m))
  drop-drop m (suc n) (x ∷ l) =
      let e : suc (n + m) ≡ suc n + m = omega arith in drop-drop m n l ∙ ap (λ k. drop k (x ∷ l)) e

  module _ (replacement : Span → List A) where
    -- What follows the first `n` elements is untouched by spans that end there or earlier.
    pub splice_all-append :
        (rs : List Span) (a b : List A)
        → IsChain (length a) rs
        → splice_all replacement rs (a ++ b) ≡ splice_all replacement rs a ++ b
    unfolding splice_all
    splice_all-append [] a b c = refl
    splice_all-append (r ∷ rs) a b ((pos, fit), c) =
        let m = max r.start r.end_ in
        let prefix = take r.start a in
        let below : IsChain (length prefix) rs =
          subst (λ n. IsChain n rs) (sym (length-take r.start a (omega arith))) c in
        let with_b = replacement r ++ (drop m a ++ b) in
        ap (λ x. splice_all replacement rs (x ++ (replacement r ++ drop m (a ++ b))))
          (take_append r.start a b (omega arith))
        ∙ ap (λ x. splice_all replacement rs (prefix ++ (replacement r ++ x)))
            (drop_append m a b (omega arith))
        ∙ splice_all-append rs prefix with_b below
        ∙ ap (λ x. splice_all replacement rs prefix ++ x)
            (sym (append_assoc (replacement r) (drop m a) b))
        ∙ sym (append_assoc (splice_all replacement rs prefix) (replacement r ++ drop m a) b)
        ∙ ap (λ x. x ++ b) (sym (splice_all-append rs prefix (replacement r ++ drop m a) below))

    -- So the first splice is what follows the others.
    pub splice_all-cons :
        (r : Span) (rs : List Span) (l : List A)
        → IsChain (length l) (r ∷ rs)
        → splice_all replacement (r ∷ rs) l
          ≡ splice_all replacement rs (take r.start l) ++ (replacement r ++ drop r.end_ l)
    unfolding splice_all
    splice_all-cons r rs l ((pos, fit), c) =
        let below : IsChain (length (take r.start l)) rs =
          subst (λ n. IsChain n rs) (sym (length-take r.start l (omega arith))) c in
        splice_all-append rs (take r.start l) (replacement r ++ drop (max r.start r.end_) l) below
        ∙ ap (λ m. splice_all replacement rs (take r.start l) ++ (replacement r ++ drop m l))
            (omega arith)
