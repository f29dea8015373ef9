-- ===== src/Pii/Recursion.antt =====
-- scrub_pii_recursive is the recursive redaction, with enough fuel.
use coreason_adlc_api.Prelude.{
  ℕ, ◌≤◌, ◌≡◌, ◌⊎◌, inl, inr, refl, ap, sym, ◌∙◌, Option, none, some, List, [], ◌∷◌, Option-cases,
  some-injective, subst, arith,
}
use coreason_adlc_api.Json.{Value}
use coreason_adlc_api.Outcome.{ok, raised, Result-cases}
use coreason_adlc_api.Pii.{Engine, scrub_text}
use coreason_adlc_api.Pii.Walk.{
  list_shape, ref, Cells, copy, start, Returned, plain, container, as_tuple, scrub_loop, after_loop,
  scrub_pii_recursive,
}
use coreason_adlc_api.Pii.Redact.{redact, redact_items, Holds, size, to_items, built}
use coreason_adlc_api.Pii.Memory.{NotIn, Queued, total, AllHold, Fails, IsContainer, update_own}
use coreason_adlc_api.Pii.Rounds.{failure, scrub_text_raised, LoopEnds, loop_lem}

abbrev tuple_of : Option (List Value) → Option Value
tuple_of none = none
tuple_of (some ws) = some (Value.tuple (to_items ws))

-- The redaction of a whole: a tuple outside of everything stays a tuple.
unfoldable pub redact_root : Engine → Value → Option Value
redact_root g (Value.tuple vs) = tuple_of (redact_items g vs)
redact_root g v = redact g v

-- The value that is returned, read out of the cells.
unfoldable pub Represents : Cells → Returned → Value → Type 0
Represents cells (plain w) v = w ≡ v
Represents cells container v = Holds cells (ref 0) v
Represents cells as_tuple (Value.tuple vs) = Holds cells (ref 0) (Value.list vs)
Represents cells as_tuple v = ⊥

module _ (g : Engine) where
  root_lem :
      (fuel : ℕ) (v : Value)
      → IsContainer v
      → size v ≤ fuel
      → ((h : Cells) × (w : Value) × (scrub_loop g fuel ((0, v) ∷ []) (start g v) ≡ some (ok h))
          × (redact g v ≡ some w)
          × Holds h (ref 0) w)
        ⊎ ((scrub_loop g fuel ((0, v) ∷ []) (start g v) ≡ some (raised failure))
            × (redact g v ≡ none))
  unfolding LoopEnds Queued NotIn total AllHold Fails
  root_lem fuel v is enough =
      elim (loop_lem g fuel ((0, v) ∷ []) (start g v)
        (omega arith, update_own (λ a. none) 0 (some (copy v)), is, tt, tt)
        (omega (arith, enough))) [
          | inl (h, done, ((w, known, held), _), kept) ↦ inl (h, w, done, known, held)
          | inr (raises, inl unknown) ↦ inr (raises, unknown)
          | inr (raises, inr none_) ↦ absurd none_
        ]

  -- With fuel for as many rounds as the value has containers, the walk ends. It returns what
  -- represents the recursive redaction of the value, in which every text is scrubbed, a tuple
  -- inside becomes a list and a tuple outside stays one; or, if some text cannot be scrubbed, it
  -- raises the ValueError of the scrubber.
  pub scrub_pii_recursive-redact_root :
      (fuel : ℕ) (v : Value)
      → size v ≤ fuel
      → ((r : Returned) × (cells : Cells) × (w : Value) × (scrub_pii_recursive g fuel v
            ≡ some (ok (r, cells)))
          × (redact_root g v ≡ some w)
          × Represents cells r w)
        ⊎ ((scrub_pii_recursive g fuel v ≡ some (raised failure)) × (redact_root g v ≡ none))
  unfolding scrub_pii_recursive redact_root Represents redact
  scrub_pii_recursive-redact_root fuel (Value.other r) enough =
      inl (plain (Value.other r), (λ a. none), Value.other r, refl, refl, refl)
  scrub_pii_recursive-redact_root fuel (Value.str s) enough = elim (Result-cases (scrub_text g s)) [
    | inl (x, e) ↦ inl (plain (Value.str x), (λ a. none), Value.str x, rw e refl, rw e refl, refl)
    | inr (x, e) ↦
        let one = scrub_text_raised g s x e in inr (rw e (ap (λ y. some (raised y)) one), rw e refl)
  ]
  scrub_pii_recursive-redact_root fuel (Value.list vs) enough =
      elim (root_lem fuel (Value.list vs) tt enough) [
        | inl (h, w, done, known, held) ↦
            inl (container, h, w, ap (after_loop g container) done, known, held)
        | inr (raises, unknown) ↦ inr (ap (after_loop g container) raises, unknown)
      ]
  scrub_pii_recursive-redact_root fuel (Value.dict fs) enough =
      elim (root_lem fuel (Value.dict fs) tt enough) [
        | inl (h, w, done, known, held) ↦
            inl (container, h, w, ap (after_loop g container) done, known, held)
        | inr (raises, unknown) ↦ inr (ap (after_loop g container) raises, unknown)
      ]
  scrub_pii_recursive-redact_root fuel (Value.tuple vs) enough =
      elim (root_lem fuel (Value.tuple vs) tt enough) [
        | inl (h, w, done, known, held) ↦ elim (Option-cases (redact_items g vs)) [
          | inl n ↦ cc (ap (built list_shape) (sym n) ∙ known)
          | inr (ws, e) ↦
              let same : Value.list (to_items ws) ≡ w =
                some-injective _ _ (ap (built list_shape) (sym e) ∙ known) in
              inl (
                as_tuple,
                h,
                Value.tuple (to_items ws),
                ap (after_loop g as_tuple) done,
                ap tuple_of e,
                subst (Holds h (ref 0)) (sym same) held,
              )
        ]
        | inr (raises, unknown) ↦ elim (Option-cases (redact_items g vs)) [
          | inl n ↦ inr (ap (after_loop g as_tuple) raises, ap tuple_of n)
          | inr (ws, e) ↦ cc (ap (built list_shape) (sym e) ∙ unknown)
        ]
      ]
