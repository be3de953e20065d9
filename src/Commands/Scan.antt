-- ===== src/Commands/Scan.antt =====
-- The scan of `originate_split`, of src/commands/mod.rs, over tokens and over quoted text.
use freeswitch_esl_rs.Prelude.{
  ◌==◌, if◌then◌else◌, Bool-cases, All, ok, ◌>>=◌, ℕ, ◌≡◌, refl, sym, ap, ◌∙◌, subst, ◌≢◌, inl, inr,
  Bool, true, false, not, ◌&&◌, Option, none, some, List, [], ◌∷◌, ◌++◌, append_assoc, append-nil,
  arith, Bytes, codes,
}
use freeswitch_esl_rs.Text.{is_empty}
use freeswitch_esl_rs.Text.Trim.{trim}
use freeswitch_esl_rs.Text.Split.{join}
use freeswitch_esl_rs.Commands.{escape_char, at_split, toggles, split_tokens}
use freeswitch_esl_rs.Commands.Parts.{last_of}

-- Whether the scan stands in quotes behind one more character.
abbrev pub next : Option ℕ → ℕ → Bool → Bool
next prev c q = if toggles prev c then not q else q

-- And behind a text.
abbrev pub quote_after : Option ℕ → Bool → Bytes → Bool
quote_after prev q [] = q
quote_after prev q (c ∷ s) = quote_after (some c) (next prev c q) s

-- No space of the text stands outside of quotes.
abbrev pub Unsplit : Option ℕ → Bool → Bytes → Type 0
Unsplit prev q [] = Unit
Unsplit prev q (c ∷ s) = ((c == b' ' && not q) ≡ false) × Unsplit (some c) (next prev c q) s

pub and_false : (a b c : Bool) → (a && b) ≡ false → (a && (b && c)) ≡ false
and_false true b c h = rw h refl
and_false false b c h = refl

pub no_space : (b : Bool) → (b && false) ≡ false
no_space true = refl
no_space false = refl

pub split_tokens-scan :
    (prev : Option ℕ) (q : Bool) (t rest token : Bytes)
    → Unsplit prev q t
    → split_tokens b' ' prev (t ++ rest) token q
      ≡ split_tokens b' ' (last_of prev t) rest (token ++ t) (quote_after prev q t)
unfolding split_tokens at_split
split_tokens-scan prev q [] rest token h = rw (append-nil token) refl
split_tokens-scan prev q (c ∷ t) rest token h =
    rw (and_false (c == b' ') (not q) (not (is_empty (trim token))) h.0, split_tokens)
      (split_tokens-scan (some c) (next prev c q) t rest (token ++ c ∷ []) h.1
        ∙ ap
            (λ l.
              split_tokens b' ' (last_of (some c) t) rest l
                (quote_after (some c) (next prev c q) t))
            (append_assoc token (c ∷ []) t))

abbrev pub IsToken : Bytes → Type 0
IsToken t =
    Unsplit none false t × (quote_after none false t ≡ false) × (trim t ≡ t) × (is_empty t ≡ false)

-- Behind a space a quote opens as at the start.
pub space_start : (c : ℕ) → toggles (some b' ') c ≡ toggles none c
unfolding toggles
space_start c = ground arith

pub Unsplit-start : (t : Bytes) → Unsplit none false t → Unsplit (some b' ') false t
Unsplit-start [] h = tt
Unsplit-start (c ∷ t) h =
    (h.0, subst (λ b. Unsplit (some c) (if b then true else false) t) (sym (space_start c)) h.1)

pub quote_after-start : (t : Bytes) → quote_after (some b' ') false t ≡ quote_after none false t
quote_after-start [] = refl
quote_after-start (c ∷ t) =
    ap (λ b. quote_after (some c) (if b then true else false) t) (space_start c)

-- A scan that starts fresh, at the start of the line or behind a separator.
abbrev pub IsFreshAt : Option ℕ → Type 0
IsFreshAt prev =
    ((t : Bytes) → Unsplit none false t → Unsplit prev false t)
    × ((t : Bytes) → quote_after prev false t ≡ quote_after none false t)

pub split_tokens-cut :
    (prev : Option ℕ) (token line : Bytes)
    → trim token ≡ token
    → is_empty token ≡ false
    → split_tokens b' ' prev (b' ' ∷ line) token false
      ≡ (split_tokens b' ' (some b' ') line [] false >>= λ rest. ok (token ∷ rest))
unfolding split_tokens at_split
split_tokens-cut prev token line e n =
    let cut : at_split b' ' b' ' token false ≡ true = rw e (rw n refl) in
    rw (cut, split_tokens)
      (ap (λ w. split_tokens b' ' (some b' ') line [] false >>= λ rest. ok (w ∷ rest)) e)

pub split_tokens-end :
    (prev : Option ℕ) (token : Bytes)
    → trim token ≡ token
    → is_empty token ≡ false
    → split_tokens b' ' prev [] token false ≡ ok (token ∷ [])
unfolding split_tokens
split_tokens-end prev token e n = rw e (rw n refl)

pub split_tokens-join :
    (prev : Option ℕ) (t : Bytes) (ts : List Bytes)
    → IsFreshAt prev
    → All IsToken (t ∷ ts)
    → split_tokens b' ' prev (join (codes " ") (t ∷ ts)) [] false ≡ ok (t ∷ ts)
unfolding join
split_tokens-join prev t [] f ((u, q, e, n), _) =
    split_tokens-scan prev false t [] [] (f.0 t u)
    ∙ ap (split_tokens b' ' (last_of prev t) [] t) (f.1 t ∙ q)
    ∙ split_tokens-end (last_of prev t) t e n
split_tokens-join prev t (t' ∷ ts) f ((u, q, e, n), h) =
    split_tokens-scan prev false t (b' ' ∷ join (codes " ") (t' ∷ ts)) [] (f.0 t u)
    ∙ ap (λ b. split_tokens b' ' (last_of prev t) (b' ' ∷ join (codes " ") (t' ∷ ts)) t b)
        (f.1 t ∙ q)
    ∙ split_tokens-cut (last_of prev t) t (join (codes " ") (t' ∷ ts)) e n
    ∙ ap (λ r. r >>= λ rest. ok (t ∷ rest))
        (split_tokens-join (some b' ') t' ts (Unsplit-start, quote_after-start) h)

pub toggles_ne : (prev : Option ℕ) (c : ℕ) → c ≢ b'\'' → toggles prev c ≡ false
unfolding toggles
toggles_ne none c h = ground arith
toggles_ne (some p) c h = ground arith

pub toggles_quote : (prev : Option ℕ) → prev ≢ some b'\\' → toggles prev b'\'' ≡ true
unfolding toggles
toggles_quote none h = refl
toggles_quote (some p) h = let n : p ≢ b'\\' = λ e. h (ap some e) in ground arith

pub kept : (prev : Option ℕ) (c : ℕ) → toggles prev c ≡ false → next prev c true ≡ true
kept prev c h = ap (λ b. if b then false else true) h

pub after_backslash : (c : ℕ) → toggles (some b'\\') c ≡ false
unfolding toggles
after_backslash c = no_space (c == b'\'')

pub escaped-kept : (prev : Option ℕ) (c : ℕ) → next (some b'\\') c (next prev b'\\' true) ≡ true
escaped-kept prev c =
    ap (next (some b'\\') c) (kept prev b'\\' (toggles_ne prev b'\\' (λ e. absurd (omega arith))))
    ∙ kept (some b'\\') c (after_backslash c)

-- Escaped quotes leave the scan in quotes.
pub in_quotes : (c : ℕ) (q : Bool) → q ≡ true → (c == b' ' && not q) ≡ false
in_quotes c q e = ap (λ b. c == b' ' && not b) e ∙ no_space (c == b' ')

pub quoted-Unsplit :
    (prev : Option ℕ) (s rest : Bytes)
    → Unsplit (last_of prev (escape_char b'\'' s)) true rest
    → Unsplit prev true (escape_char b'\'' s ++ rest)
unfolding escape_char
quoted-Unsplit prev [] rest h = h
quoted-Unsplit prev (c ∷ s) rest h = elim (Bool-cases (c == b'\'')) [
  | inl y ↦
      let more = quoted-Unsplit (some c) s rest (rw y at h) in
      rw y (
        no_space (b'\\' == b' '),
        (
          in_quotes c (next prev b'\\' true)
              (kept prev b'\\' (toggles_ne prev b'\\' (λ e. absurd (omega arith)))),
          subst (λ b. Unsplit (some c) b (escape_char b'\'' s ++ rest)) (sym (escaped-kept prev c))
              more,
        ),
      )
  | inr n ↦
      let more = quoted-Unsplit (some c) s rest (rw n at h) in
      rw n (
        no_space (c == b' '),
        subst (λ b. Unsplit (some c) b (escape_char b'\'' s ++ rest))
            (sym (kept prev c (toggles_ne prev c (ground arith)))) more,
      )
]

pub quoted-after :
    (prev : Option ℕ) (s rest : Bytes)
    → quote_after prev true (escape_char b'\'' s ++ rest)
      ≡ quote_after (last_of prev (escape_char b'\'' s)) true rest
unfolding escape_char
quoted-after prev [] rest = refl
quoted-after prev (c ∷ s) rest = elim (Bool-cases (c == b'\'')) [
  | inl y ↦ rw y (
      ap (λ b. quote_after (some c) b (escape_char b'\'' s ++ rest)) (escaped-kept prev c)
      ∙ quoted-after (some c) s rest)
  | inr n ↦ rw n (
      ap (λ b. quote_after (some c) b (escape_char b'\'' s ++ rest))
        (kept prev c (toggles_ne prev c (ground arith)))
      ∙ quoted-after (some c) s rest)
]
