-- ===== src/Prelude/Text.antt =====
-- Texts are only compared whole: equality of native strings, and membership in a list of them.
use Prim.Native.String.{String}
use mathlib.Core.Bool.{Bool, false, ◌||◌}
use mathlib.Core.List.{List, [], ◌∷◌}
pub use text.Mathlib.Text.{◌==◌ as str_eq}
pub use Prim.Native.String.{◌++◌ as text_append}
pub use text.Mathlib.Text.{starts_with}
pub use text.Mathlib.TextLemmas.{append_cancel_left}
pub use text.Mathlib.TextEquality.{eq_iff}
pub use text.Mathlib.TextPositions.{eq_refl}

-- Python's `s in l` at a list of strings.
abbrev pub contains : String → List String → Bool
contains s [] = false
contains s (x ∷ xs) = str_eq x s || contains s xs
