-- ===== src/Commands/Quoting.antt =====
-- Quoting and unquoting, of src/commands/mod.rs.
use mathlib.Core.Bool.{true≢false}
use freeswitch_esl_rs.Prelude.{
  ◌==◌, Bool-cases, ℕ, ◌≡◌, refl, sym, ap, ◌∙◌, ◌≢◌, ◌⊎◌, inl, inr, true, false, ◌&&◌, none, some,
  [], ◌∷◌, arith, Bytes,
}
use freeswitch_esl_rs.Text.{contains}
use freeswitch_esl_rs.Text.Search.{strip_suffix-append}
use freeswitch_esl_rs.Commands.{
  escape_char, unescape_char, quoted, strip_quotes, originate_quote, originate_unquote,
}

module _ (c : ℕ) (ne : c ≢ b'\\') where
  unescape-pair : (s : Bytes) → unescape_char c (b'\\' ∷ c ∷ s) ≡ c ∷ unescape_char c s
  unfolding unescape_char
  unescape-pair s =
      let e : (b'\\' == b'\\' && c == c) ≡ true = ground arith in rw (e, unescape_char)

  unescape-skip :
      (d : ℕ) (s : Bytes)
      → d ≢ c
      → unescape_char c (d ∷ escape_char c s) ≡ d ∷ unescape_char c (escape_char c s)
  unfolding unescape_char escape_char
  unescape-skip d [] h = refl
  unescape-skip d (e ∷ s) h = elim (Bool-cases (e == c)) [
    | inl y ↦
        let k : (d == b'\\' && b'\\' == c) ≡ false = ground arith in rw y (rw (k, unescape_char))
    | inr n ↦ let k : (d == b'\\' && e == c) ≡ false = ground arith in rw n (rw (k, unescape_char))
  ]

  -- Escaping a character is undone, whatever backslashes the text has.
  pub unescape-escape : (s : Bytes) → unescape_char c (escape_char c s) ≡ s
  unfolding escape_char
  unescape-escape [] = unfold unescape_char in refl
  unescape-escape (d ∷ s) = elim (Bool-cases (d == c)) [
    | inl y ↦
        let e : d ≡ c = ground arith in
        rw y (rw e (unescape-pair (escape_char c s) ∙ ap (◌∷◌ c) (unescape-escape s)))
    | inr n ↦
        let ne' : d ≢ c = ground arith in
        rw n (unescape-skip d s ne' ∙ ap (◌∷◌ d) (unescape-escape s))
  ]

pub strip_quotes-quoted : (s : Bytes) → strip_quotes (quoted s) ≡ some s
unfolding strip_quotes
strip_quotes-quoted s = strip_suffix-append s b'\''

-- A token that is quoted reads back as itself, unless it has no space and itself stands in quotes.
pub unquote-quote :
    (token : Bytes)
    → (contains token b' ' ≡ true) ⊎ (strip_quotes token ≡ none)
    → originate_unquote (originate_quote token) ≡ token
unfolding originate_unquote originate_quote
unquote-quote token h = elim (Bool-cases (contains token b' ')) [
  | inl y ↦ rw y (
      rw (strip_quotes-quoted (escape_char b'\'' token), originate_unquote)
        (unescape-escape b'\'' (λ e. absurd (omega arith)) token))
  | inr n ↦
      let plain : strip_quotes token ≡ none = elim h [
        | inl y ↦ absurd (true≢false (sym y ∙ n))
        | inr e ↦ e
      ] in
      rw n (rw (plain, originate_unquote) refl)
]
