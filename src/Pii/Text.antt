-- ===== src/Pii/Text.antt =====
-- The scrubbing of one text: right for results that do not overlap, and what is left of a result
-- that contains another.
use Prim.Native.Char.{Char}
use coreason_adlc_api.Prelude.{
  ◌+◌, ◌≤◌, ◌<◌, ◌≡◌, ap, sym, ◌∙◌, String, false, List, [], ◌∷◌, ◌++◌, max, take, drop, length,
  length-append, leb, append_assoc, arith,
}
use coreason_adlc_api.Prelude.Text.{str_eq}
use coreason_adlc_api.Outcome.{ok}
use coreason_adlc_api.Pii.{
  Span, sorted_results, splice_all, Analysis, found, engine, chars, join, replacement, scrub_sync,
  scrub_text, scrubbed, or_failed,
}
use coreason_adlc_api.Pii.Splice.{drop_append, length-take}
use coreason_adlc_api.Pii.Redaction.{redacted, AreDisjoint, splice_all-redacted}

-- If the results for a text that is not empty each cover a part of it and do not overlap, in
-- whatever order they come, then the text is scrubbed to this: read from left to right, each result
-- is replaced by its mark where it begins, no character of a result is left, and every other
-- character is kept in its place.
pub scrub_text-redacted :
    (analyze : String → Analysis) (text : String) (rs : List Span)
    → str_eq text "" ≡ false
    → analyze text ≡ found rs
    → AreDisjoint (length (chars text)) rs
    → scrub_text (engine analyze) text ≡ ok (join (redacted replacement rs 0 (chars text)))
unfolding scrub_text scrub_sync
scrub_text-redacted analyze text rs given e d = rw given (
    ap (λ a. or_failed (scrubbed text a)) e
    ∙ ap (λ cs. ok (join cs)) (splice_all-redacted replacement rs (chars text) d))

-- If one result lies within another that begins before it, and the mark of the inner one reaches as
-- far as the outer result did, then all characters after the inner result are left at the end of the
-- text, and those that belong to the outer result too.
pub nested_results_leak :
    (outer inner : Span) (l : List Char)
    → outer.start < inner.start
    → inner.start ≤ inner.end_
    → inner.end_ < outer.end_
    → outer.end_ ≤ length l
    → outer.end_ ≤ inner.start + length (replacement inner)
    → (front : List Char) × (splice_all replacement (sorted_results (outer ∷ inner ∷ [])) l
        ≡ front ++ drop inner.end_ l)
unfolding splice_all
nested_results_leak outer inner l before own within fits long =
    let m = max outer.start outer.end_ in
    let head_ = take inner.start l ++ replacement inner in
    let d = drop inner.end_ l in
    let x = take inner.start l ++ (replacement inner ++ drop (max inner.start inner.end_) l) in
    let split : x ≡ head_ ++ d =
      sym (
        append_assoc (take inner.start l) (replacement inner) (drop (max inner.start inner.end_) l))
      ∙ ap (λ k. head_ ++ drop k l) (omega arith) in
    let reaches : m ≤ length head_ = omega (
      arith,
      length-append (take inner.start l) (replacement inner),
      length-take inner.start l (omega arith),
    ) in
    let front = take outer.start x ++ (replacement outer ++ drop m head_) in
    let order : leb inner.start outer.start ≡ false = ground arith in
    rw order (
      front,
      ap (λ y. take outer.start x ++ (replacement outer ++ drop m y)) split
          ∙ ap (λ y. take outer.start x ++ (replacement outer ++ y)) (drop_append m head_ d reaches)
          ∙ ap (λ y. take outer.start x ++ y)
              (sym (append_assoc (replacement outer) (drop m head_) d))
          ∙ sym (append_assoc (take outer.start x) (replacement outer ++ drop m head_) d),
    )
