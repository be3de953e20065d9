-- ===== src/Commands/Parts.antt =====
-- Escaped values, and the parts between separating commas, in src/commands/originate.rs.
use freeswitch_esl_rs.Prelude.{
  ◌==◌, Bool-cases, ℕ, ◌≡◌, refl, sym, ap, ◌∙◌, ◌≢◌, ◌⊎◌, inl, inr, true, false, Option, none, some,
  [], ◌∷◌, ◌++◌, append_assoc, append-nil, arith, Bytes, Lacks,
}
use freeswitch_esl_rs.Text.{contains}
use freeswitch_esl_rs.Commands.{escape_char, unescape_char, strip_quotes}
use freeswitch_esl_rs.Commands.Quoting.{unescape-escape, strip_quotes-quoted}
use freeswitch_esl_rs.Commands.Originate.{escape_value, unescape_value, splits, split_commas}
use mathlib.Core.Bool.{true≢false}

pub strip_quotes-escaped :
    (v : Bytes) → strip_quotes (escape_char b',' (escape_char b'\'' v)) ≡ none
unfolding strip_quotes escape_char
strip_quotes-escaped [] = refl
strip_quotes-escaped (d ∷ s) = elim (Bool-cases (d == b'\'')) [
  | inl y ↦ rw y refl
  | inr n ↦ elim (Bool-cases (d == b',')) [
    | inl y ↦ rw n (rw y refl)
    | inr m ↦ rw n (rw m (rw n refl))
  ]
]

pub unescape-both :
    (v : Bytes)
    → unescape_char b'\'' (unescape_char b',' (escape_char b',' (escape_char b'\'' v))) ≡ v
unescape-both v =
    ap (unescape_char b'\'')
      (unescape-escape b',' (λ e. absurd (omega arith)) (escape_char b'\'' v))
    ∙ unescape-escape b'\'' (λ e. absurd (omega arith)) v

-- A value is read back from its escaped form, whatever it holds.
pub unescape_value-escape_value : (v : Bytes) → unescape_value (escape_value v) ≡ v
unfolding unescape_value escape_value
unescape_value-escape_value v =
    let escaped = escape_char b',' (escape_char b'\'' v) in
    elim (Bool-cases (contains escaped b' ')) [
      | inl y ↦ rw y (rw (strip_quotes-quoted escaped) (unescape-both v))
      | inr n ↦ rw n (rw (strip_quotes-escaped v) (unescape-both v))
    ]

-- The byte that ends a text, behind the byte `prev`.
abbrev pub last_of : Option ℕ → Bytes → Option ℕ
last_of prev [] = prev
last_of prev (c ∷ s) = last_of (some c) s

-- No comma of the text separates parts.
abbrev pub IsPart : Option ℕ → Bytes → Type 0
IsPart prev [] = Unit
IsPart prev (c ∷ s) = (splits prev c ≡ false) × IsPart (some c) s

pub IsPart-append :
    (prev : Option ℕ) (s t : Bytes)
    → IsPart prev s
    → IsPart (last_of prev s) t
    → IsPart prev (s ++ t)
IsPart-append prev [] t h k = k
IsPart-append prev (c ∷ s) t h k = (h.0, IsPart-append (some c) s t h.1 k)

pub last_of-append :
    (prev : Option ℕ) (s t : Bytes) → last_of prev (s ++ t) ≡ last_of (last_of prev s) t
last_of-append prev [] t = refl
last_of-append prev (c ∷ s) t = last_of-append (some c) s t

pub splits_ne : (prev : Option ℕ) (c : ℕ) → c ≢ b',' → splits prev c ≡ false
splits_ne none c h = ground arith
splits_ne (some p) c h = ground arith

pub Lacks-IsPart : (prev : Option ℕ) (s : Bytes) → Lacks b',' s → IsPart prev s
Lacks-IsPart prev [] h = tt
Lacks-IsPart prev (c ∷ s) h = (splits_ne prev c h.0, Lacks-IsPart (some c) s h.1)

pub escape-IsPart : (prev : Option ℕ) (s : Bytes) → IsPart prev (escape_char b',' s)
unfolding escape_char
escape-IsPart prev [] = tt
escape-IsPart prev (c ∷ s) = elim (Bool-cases (c == b',')) [
  | inl y ↦
      let e : c ≡ b',' = ground arith in
      rw y
        (splits_ne prev b'\\' (λ e. absurd (omega arith)), (ground arith, escape-IsPart (some c) s))
  | inr n ↦ rw n (splits_ne prev c (ground arith), escape-IsPart (some c) s)
]

pub last_of-escape :
    (c : ℕ) (prev : Option ℕ) (s : Bytes) → last_of prev (escape_char c s) ≡ last_of prev s
unfolding escape_char
last_of-escape c prev [] = refl
last_of-escape c prev (d ∷ s) = elim (Bool-cases (d == c)) [
  | inl y ↦ rw y (last_of-escape c (some d) s)
  | inr n ↦ rw n (last_of-escape c (some d) s)
]

pub split_commas-last :
    (prev : Option ℕ) (s part : Bytes) → IsPart prev s → split_commas prev s part ≡ (part ++ s) ∷ []
unfolding split_commas
split_commas-last prev [] part h = rw (append-nil part)
split_commas-last prev (c ∷ s) part h =
    rw (h.0, split_commas)
      (split_commas-last (some c) s (part ++ c ∷ []) h.1
        ∙ ap (λ l. l ∷ []) (append_assoc part (c ∷ []) s))

pub split_commas-part :
    (prev : Option ℕ) (s t part : Bytes)
    → IsPart prev s
    → splits (last_of prev s) b',' ≡ true
    → split_commas prev (s ++ b',' ∷ t) part ≡ (part ++ s) ∷ split_commas (some b',') t []
unfolding split_commas
split_commas-part prev [] t part h e = rw (e, split_commas) (rw (append-nil part) refl)
split_commas-part prev (c ∷ s) t part h e =
    rw (h.0, split_commas)
      (split_commas-part (some c) s t (part ++ c ∷ []) h.1 e
        ∙ ap (λ l. l ∷ split_commas (some b',') t []) (append_assoc part (c ∷ []) s))

pub contains-escape :
    (c b : ℕ) (s : Bytes) → b ≢ b'\\' → contains (escape_char c s) b ≡ contains s b
unfolding contains escape_char
contains-escape c b [] h = refl
contains-escape c b (d ∷ s) h = ground (arith, contains-escape c b s h)

pub escape_value-IsPart : (prev : Option ℕ) (v : Bytes) → IsPart prev (escape_value v)
unfolding escape_value
escape_value-IsPart prev v =
    let escaped = escape_char b',' (escape_char b'\'' v) in
    elim (Bool-cases (contains escaped b' ')) [
      | inl y ↦ rw y (
        splits_ne prev b'\'' (λ e. absurd (omega arith)),
        IsPart-append (some b'\'') escaped (b'\'' ∷ [])
            (escape-IsPart (some b'\'') (escape_char b'\'' v))
            (splits_ne (last_of (some b'\'') escaped) b'\'' (λ e. absurd (omega arith)), tt),
      )
      | inr n ↦ rw n (escape-IsPart prev (escape_char b'\'' v))
    ]

-- A value in quotes may end in anything; any other must not end in a backslash.
abbrev pub IsValue : Bytes → Type 0
IsValue v = (contains v b' ' ≡ true) ⊎ (last_of none v ≢ some b'\\')

abbrev pub IsKey : Bytes → Type 0
IsKey k = Lacks b',' k × Lacks b'=' k

abbrev pub IsVariable : Bytes × Bytes → Type 0
IsVariable (k, v) = IsKey k × IsValue v

pub splits_comma : (o : Option ℕ) → o ≢ some b'\\' → splits o b',' ≡ true
splits_comma none h = refl
splits_comma (some p) h = let n : p ≢ b'\\' = λ e. h (ap some e) in ground arith

pub last_of-some :
    (p : ℕ) (v : Bytes) → p ≢ b'\\' → last_of none v ≢ some b'\\' → last_of (some p) v ≢ some b'\\'
last_of-some p [] h n e = let i : p ≡ b'\\' = cc in h i
last_of-some p (c ∷ v) h n e = n e

pub quote_ne : (o : Option ℕ) → o ≡ some b'\'' → o ≢ some b'\\'
quote_ne o h e =
    let same : ◌≡◌ {A = Option ℕ} (some b'\'') (some b'\\') = sym h ∙ e in
    let q : ◌≡◌ {A = ℕ} b'\'' b'\\' = cc in absurd (omega (arith, q))

pub escape_value-last :
    (p : ℕ) (v : Bytes) → p ≢ b'\\' → IsValue v → last_of (some p) (escape_value v) ≢ some b'\\'
unfolding escape_value
escape_value-last p v h value =
    let escaped = escape_char b',' (escape_char b'\'' v) in
    let same : contains escaped b' ' ≡ contains v b' ' =
      contains-escape b',' b' ' (escape_char b'\'' v) (λ e. absurd (omega arith))
      ∙ contains-escape b'\'' b' ' v (λ e. absurd (omega arith)) in
    elim (Bool-cases (contains escaped b' ')) [
      | inl y ↦ rw y (quote_ne _ (last_of-append (some b'\'') escaped (b'\'' ∷ [])))
      | inr n ↦
          let ends : last_of none v ≢ some b'\\' = elim value [
            | inl y ↦ absurd (true≢false (sym y ∙ (sym same ∙ n)))
            | inr e ↦ e
          ] in
          rw n (
            rw (last_of-escape b',' (some p) (escape_char b'\'' v))
              (rw (last_of-escape b'\'' (some p) v) (last_of-some p v h ends)))
    ]
