-- ===== src/Vault/Samples.antt =====
-- Libraries that a run can use: bytes as numbers in unary, a cipher that only marks, two words.
use coreason_adlc_api.Prelude.{
  ℕ, zero, suc, ◌+◌, ◌==◌, ◌∙◌, arith, Bool-cases, some-injective, subst, sym, if◌then◌else◌, ◌≡◌,
  inl, inr, refl, ap, true, false, String, Option, none, some, [], ◌∷◌,
}
use Prim.Native.Char.{char, code}
use Prim.Native.String.{[] as text_nil, ◌∷◌ as text_cons}
use coreason_adlc_api.Prelude.Text.{str_eq, eq_iff}
use coreason_adlc_api.Vault.{Bytes, Codecs}
use coreason_adlc_api.Vault.Service.{Fresh}

-- A text per list of numbers: each number in unary, with `b` after it.
unfoldable pub unary : ℕ → String → String
unary zero rest = text_cons (char 98 tt) rest
unary (suc n) rest = text_cons (char 97 tt) (unary n rest)

unfoldable pub to_text : Bytes → String
unfolding unary
to_text [] = text_nil
to_text (n ∷ b) = unary n (to_text b)

unfoldable pub read_text : ℕ → String → Bytes
read_text seen text_nil = []
read_text seen (text_cons c s) = elim (code c == 98) [
  | true ↦ seen ∷ read_text 0 s
  | false ↦ read_text (suc seen) s
]

read_text-unary :
    (seen n : ℕ) (s : String) → read_text seen (unary n s) ≡ (seen + n) ∷ read_text 0 s
unfolding unary read_text
read_text-unary seen zero s = ap (λ m. m ∷ read_text 0 s) (omega arith)
read_text-unary seen (suc n) s =
    read_text-unary (suc seen) n s ∙ ap (λ m. m ∷ read_text 0 s) (omega arith)

pub read_text-to_text : (b : Bytes) → read_text 0 (to_text b) ≡ b
unfolding to_text read_text
read_text-to_text [] = refl
read_text-to_text (n ∷ b) =
    read_text-unary 0 n (to_text b)
    ∙ ap (λ m. m ∷ read_text 0 (to_text b)) (omega arith)
    ∙ ap (◌∷◌ n) (read_text-to_text b)

abbrev pub word_of : Bytes → Option String
word_of [] = none
word_of (n ∷ b) = if n == 1 then some "sk-one" else some "sk-two"

abbrev pub bytes_of : String → Option Bytes
bytes_of s =
    if str_eq s "sk-one" then some (1 ∷ []) else if str_eq s "sk-two" then some (2 ∷ []) else none

pub word_of-bytes_of : (s : String) (b : Bytes) → bytes_of s ≡ some b → word_of b ≡ some s
word_of-bytes_of s b e = elim (Bool-cases (str_eq s "sk-one")) [
  | inl one ↦
      subst (λ x. word_of x ≡ some s) (some-injective _ _ (rw one at e))
        (ap some (sym ((eq_iff s "sk-one").0 one)))
  | inr other ↦ elim (Bool-cases (str_eq s "sk-two")) [
    | inl two ↦
        subst (λ x. word_of x ≡ some s) (some-injective _ _ (rw two at (rw other at e)))
          (ap some (sym ((eq_iff s "sk-two").0 two)))
    | inr neither ↦ cc (rw neither at (rw other at e))
  ]
]

-- A cipher that only marks the text; two texts have bytes.
abbrev pub unmark : Bytes → Option Bytes
unmark [] = none
unmark (n ∷ b) = if n == 7 then some b else none

-- A server's key of 32 zero bytes
abbrev pub zeros : ℕ → Bytes
zeros zero = []
zeros (suc n) = 0 ∷ zeros n

abbrev pub codecs : Codecs
codecs = record {
  from_hex = λ s. some (zeros 32);
  encode = bytes_of;
  decode = word_of;
  b64encode = to_text;
  b64decode = λ s. some (read_text 0 s);
  aesgcm_encrypt = λ key nonce plain. 7 ∷ plain;
  aesgcm_decrypt = λ key nonce b. unmark b;
  decode-encode = word_of-bytes_of;
  b64decode-b64encode = λ b. ap some (read_text-to_text b);
  aesgcm_decrypt-aesgcm_encrypt = λ key nonce plain. refl;
}

abbrev pub nonce : Bytes
nonce = 0 ∷ 1 ∷ 2 ∷ 3 ∷ 4 ∷ 5 ∷ 6 ∷ 7 ∷ 8 ∷ 9 ∷ 1 ∷ 2 ∷ []

abbrev pub fresh : ℕ → Fresh
fresh n = record { nonce = nonce; secret_id = n; now = n }
