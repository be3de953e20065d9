-- ===== src/Commands/Tokens.antt =====
-- Tokens that are quoted by `originate_quote` and joined by spaces are split apart again by
-- `originate_split`, of src/commands/mod.rs.
use freeswitch_esl_rs.Prelude.{
  ◌==◌, if◌then◌else◌, All, ok, ℕ, ◌≡◌, refl, sym, ap, ◌∙◌, subst, ◌≢◌, ◌⊎◌, inl, inr, true, false,
  Option, none, some, List, [], ◌∷◌, map, arith, Bytes, codes, Lacks,
}
use freeswitch_esl_rs.Text.{is_empty, contains}
use freeswitch_esl_rs.Text.Search.{contains-Lacks}
use freeswitch_esl_rs.Text.Trim.{trim, trim_fixed}
use freeswitch_esl_rs.Text.Split.{join}
use freeswitch_esl_rs.Commands.{
  escape_char, quoted, strip_quotes, originate_quote, originate_unquote, toggles, originate_split,
}
use freeswitch_esl_rs.Commands.Quoting.{unquote-quote}
use freeswitch_esl_rs.Commands.Parts.{last_of, last_of-escape, quote_ne}
use freeswitch_esl_rs.Commands.Scan.{
  next, quote_after, Unsplit, IsToken, split_tokens-join, toggles_ne, toggles_quote, quoted-Unsplit,
  quoted-after,
}

-- A token in quotes, unless it ends in a backslash.
quoted-IsToken :
    (s : Bytes) → last_of (some b'\'') s ≢ some b'\\' → IsToken (quoted (escape_char b'\'' s))
unfolding toggles
quoted-IsToken s h =
    let closes : toggles (last_of (some b'\'') (escape_char b'\'' s)) b'\'' ≡ true =
      toggles_quote _ (subst (λ o. o ≢ some b'\\') (sym (last_of-escape b'\'' (some b'\'') s)) h) in
    (
      (refl, quoted-Unsplit (some b'\'') s (b'\'' ∷ []) (refl, tt)),
      quoted-after (some b'\'') s (b'\'' ∷ []) ∙ ap (λ b. if b then false else true) closes,
      trim_fixed b'\'' b'\'' (escape_char b'\'' s) (omega arith, refl) (omega arith, refl),
      refl,
    )

pub plain-Unsplit :
    (prev : Option ℕ) (t : Bytes)
    → Lacks b' ' t
    → Lacks b'\'' t
    → Unsplit prev false t × (quote_after prev false t ≡ false)
plain-Unsplit prev [] h k = (tt, refl)
plain-Unsplit prev (c ∷ t) h k =
    let e : next prev c false ≡ false =
      ap (λ b. if b then true else false) (toggles_ne prev c k.0) in
    let r = plain-Unsplit (some c) t h.1 k.1 in
    let ne : c ≢ b' ' = h.0 in
    (
      (ground arith, subst (λ b. Unsplit (some c) b t) (sym e) r.0),
      ap (λ b. quote_after (some c) b t) e ∙ r.1,
    )

-- What can be quoted: a text with a space that does not end in a backslash, or one without spaces
-- and quotes that is neither empty nor trimmed.
abbrev pub IsQuotable : Bytes → Type 0
IsQuotable t =
    ((contains t b' ' ≡ true) × (last_of none t ≢ some b'\\'))
    ⊎ ((contains t b' ' ≡ false) × Lacks b'\'' t × (trim t ≡ t) × (is_empty t ≡ false))

last_of-start : (t : Bytes) → last_of none t ≢ some b'\\' → last_of (some b'\'') t ≢ some b'\\'
last_of-start [] h = quote_ne _ refl
last_of-start (c ∷ t) h = h

pub quote-IsToken : (t : Bytes) → IsQuotable t → IsToken (originate_quote t)
unfolding originate_quote
quote-IsToken t (inl (y, h)) = rw y (quoted-IsToken t (last_of-start t h))
quote-IsToken t (inr (n, k, e, full)) =
    let r = plain-Unsplit none t (contains-Lacks t b' ' n) k in rw n (r.0, r.1, e, full)

strip_quotes-Lacks : (t : Bytes) → Lacks b'\'' t → strip_quotes t ≡ none
unfolding strip_quotes
strip_quotes-Lacks [] h = refl
strip_quotes-Lacks (c ∷ t) h = let n : (c == b'\'') ≡ false = ground (arith, h.0) in rw n refl

pub quotable-unquote : (t : Bytes) → IsQuotable t → originate_unquote (originate_quote t) ≡ t
quotable-unquote t (inl (y, h)) = unquote-quote t (inl y)
quotable-unquote t (inr (n, k, e, full)) = unquote-quote t (inr (strip_quotes-Lacks t k))

map-unquote :
    (ts : List Bytes) → All IsQuotable ts → map originate_unquote (map originate_quote ts) ≡ ts
map-unquote [] h = refl
map-unquote (t ∷ ts) h = rw (quotable-unquote t h.0, map-unquote ts h.1) refl

quote-All : (ts : List Bytes) → All IsQuotable ts → All IsToken (map originate_quote ts)
quote-All [] h = tt
quote-All (t ∷ ts) h = (quote-IsToken t h.0, quote-All ts h.1)

-- Texts that are quoted and joined by spaces are split apart into the same tokens, and unquoting
-- these gives the texts. There is at least one text; each has a space and does not end in a
-- backslash, or has neither a space nor a quote, is not empty and has no white space at its ends.
pub originate_split-quote :
    (t : Bytes) (ts : List Bytes)
    → All IsQuotable (t ∷ ts)
    → (tokens : List Bytes) × (originate_split
          (join (codes " ") (map originate_quote (t ∷ ts)))
          b' '
        ≡ ok tokens)
      × (map originate_unquote tokens ≡ t ∷ ts)
unfolding originate_split
originate_split-quote t ts h =
    let tokens = map originate_quote (t ∷ ts) in
    (
      tokens,
      split_tokens-join none (originate_quote t) (map originate_quote ts) ((λ s u. u), (λ s. refl))
          (quote-All (t ∷ ts) h),
      map-unquote (t ∷ ts) h,
    )
