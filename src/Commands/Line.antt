-- ===== src/Commands/Line.antt =====
-- The line of an `Originate` of src/commands/originate.rs, as the words that it is split into again.
use freeswitch_esl_rs.Prelude.{
  ltb, ◌==◌, ltb→lt, Bool-cases, All, All-split, ok, ℕ, zero, suc, ◌+◌, ◌-◌, ◌*◌, ◌/◌, ◌%◌, ◌^◌,
  ◌≤◌, ◌<◌, ◌≡◌, refl, sym, ap, ◌∙◌, subst, ◌≢◌, inl, inr, false, ◌||◌, none, List, [], ◌∷◌, ◌++◌,
  append_assoc, append-nil, arith, Bytes, codes, Lacks,
}
use freeswitch_esl_rs.Text.Trim.{trim_start, trim_end, trim, IsSolid}
use freeswitch_esl_rs.Text.Solid.{
  IsWord, IsWord-Lacks, trim_start_solid, trim_start_space, trim_end_solid, unsnoc, trim_word,
}
use freeswitch_esl_rs.Text.Decimal.{digits, decimal}
use freeswitch_esl_rs.Text.Digits.{IsDigit, decimal-IsDigit, All-map}
use freeswitch_esl_rs.Text.Split.{separated, join}
use freeswitch_esl_rs.Commands.Originate.{xml, DialplanType, inline, dialplan_name}
use freeswitch_esl_rs.Commands.Scan.{IsToken}
use freeswitch_esl_rs.Commands.Tokens.{plain-Unsplit}
use freeswitch_esl_rs.Commands.Builder.{scan_u32, parse_u32}

abbrev pub Starts : Bytes → Type 0
Starts [] = ⊥
Starts (c ∷ s) = IsSolid c

abbrev pub Ends : Bytes → Type 0
Ends t = (s : Bytes) × (c : ℕ) × (t ≡ s ++ c ∷ []) × IsSolid c

-- An argument: a token that starts and ends in a character that is no white space.
abbrev pub IsArgument : Bytes → Type 0
IsArgument t = IsToken t × Ends t

Ends-append : (s t : Bytes) → Ends t → Ends (s ++ t)
Ends-append s t (r, c, e, h) = (s ++ r, c, ap (λ l. s ++ l) e ∙ sym (append_assoc s r (c ∷ [])), h)

Ends-join : (t : Bytes) (ts : List Bytes) → Ends t → All Ends ts → Ends (join (codes " ") (t ∷ ts))
unfolding join separated
Ends-join t [] h k = subst Ends (sym (append-nil t)) h
Ends-join t (u ∷ us) h k =
    Ends-append t (b' ' ∷ u ++ separated (codes " ") us)
      (Ends-append (b' ' ∷ []) (u ++ separated (codes " ") us) (Ends-join u us k.0 k.1))

trim_start-Starts : (s : Bytes) → Starts s → trim_start s ≡ s
trim_start-Starts [] h = absurd h
trim_start-Starts (c ∷ s) h = trim_start_solid c s h

trim_end-Ends : (s : Bytes) → Ends s → trim_end s ≡ s
trim_end-Ends s (r, c, e, h) = rw e (trim_end_solid r c h)

Starts-append : (s t : Bytes) → Starts s → Starts (s ++ t)
Starts-append [] t h = absurd h
Starts-append (c ∷ s) t h = h

-- What stands behind `originate ` loses the space in front and nothing else.
pub trim_line :
    (t : Bytes) (ts : List Bytes)
    → Starts t
    → Ends t
    → All Ends ts
    → trim (b' ' ∷ join (codes " ") (t ∷ ts)) ≡ join (codes " ") (t ∷ ts)
unfolding trim join
trim_line t ts h k ks =
    ap trim_end (
      trim_start_space (join (codes " ") (t ∷ ts))
      ∙ trim_start-Starts (join (codes " ") (t ∷ ts))
          (Starts-append t (separated (codes " ") ts) h))
    ∙ trim_end-Ends (join (codes " ") (t ∷ ts)) (Ends-join t ts k ks)

-- Words of ASCII without quotes.
pub word-IsArgument :
    (c : ℕ) (s : Bytes) → IsWord (c ∷ s) → Lacks b'\'' (c ∷ s) → IsArgument (c ∷ s)
word-IsArgument c s w k =
    let (t, d, e) = unsnoc c s in
    let r = plain-Unsplit none (c ∷ s) (IsWord-Lacks b' ' (c ∷ s) refl w) k in
    let solid : IsSolid d = (All-split IsSolid t (d ∷ []) (subst IsWord e w)).1.0 in
    ((r.0, r.1, trim_word (c ∷ s) w, refl), (t, d, e, solid))

pub dialplan-IsArgument : (d : DialplanType) → IsArgument (dialplan_name d)
unfolding dialplan_name
dialplan-IsArgument inline = word-IsArgument b'i' (codes "nline") (ground arith) (ground arith)
dialplan-IsArgument xml = word-IsArgument b'X' (codes "ML") (ground arith) (ground arith)

Digits-IsArgument : (s : Bytes) → All IsDigit s → s ≢ [] → IsArgument s
Digits-IsArgument [] h n = absurd (n refl)
Digits-IsArgument (c ∷ s) h n =
    word-IsArgument c s
      (All-map (c ∷ s) (λ d k. (omega (arith, k.0, k.1), ground (arith, k.0, k.1))) h)
      (Digits-Lacks (c ∷ s) h)
  where
    Digits-Lacks : (s : Bytes) → All IsDigit s → Lacks b'\'' s
    Digits-Lacks [] h = tt
    Digits-Lacks (c ∷ s) h = ((λ e. absurd (omega (arith, e, h.0.0))), Digits-Lacks s h.1)

digits_more : (f n c : ℕ) (out : Bytes) → digits f n (c ∷ out) ≢ []
unfolding digits
digits_more zero n c out e = cc e
digits_more (suc f) n c out e = elim (Bool-cases (ltb n 10)) [
  | inl y ↦ cc (rw y at e)
  | inr z ↦ digits_more f (n / 10) (b'0' + n % 10) (c ∷ out) (rw z at e)
]

pub decimal_full : (n : ℕ) → decimal n ≢ []
unfolding decimal digits
decimal_full n = elim (Bool-cases (ltb n 10)) [
  | inl y ↦ rw y (λ e. cc e)
  | inr z ↦ rw z (digits_more n (n / 10) (b'0' + n % 10) [])
]

pub decimal-IsArgument : (n : ℕ) → IsArgument (decimal n)
decimal-IsArgument n = Digits-IsArgument (decimal n) (decimal-IsDigit n) (decimal_full n)

-- A number is read back.
scan_u32-digits :
    (f n : ℕ) (out : Bytes) → n < f → n < 2 ^ 32 → scan_u32 (digits f n out) 0 ≡ scan_u32 out n
unfolding scan_u32 digits
scan_u32-digits zero n out h k = absurd (omega (arith, h))
scan_u32-digits (suc f) n out h k = elim (Bool-cases (ltb n 10)) [
  | inl y ↦
      let lt = ltb→lt n 10 y in
      let d : (ltb (b'0' + n) b'0' || ltb b'9' (b'0' + n)) ≡ false = ground (arith, lt) in
      let m : 0 * 10 + ((b'0' + n) - b'0') ≡ n = omega arith in
      let b : ltb (2 ^ 32 - 1) n ≡ false = ground (arith, k) in rw y (rw d (rw m (rw b refl)))
  | inr z ↦
      let ge : 10 ≤ n = ground (arith, z) in
      let d : (ltb (b'0' + n % 10) b'0' || ltb b'9' (b'0' + n % 10)) ≡ false =
        (let lt : n % 10 < 10 = omega arith in ground (arith, lt)) in
      let m : n / 10 * 10 + ((b'0' + n % 10) - b'0') ≡ n = omega arith in
      let b : ltb (2 ^ 32 - 1) n ≡ false = ground (arith, k) in
      rw z (
        scan_u32-digits f (n / 10) ((b'0' + n % 10) ∷ out) (omega (arith, h, ge)) (omega (arith, k))
        ∙ rw d (rw m (rw b refl)))
]

parse_u32-digits : (s : Bytes) → All IsDigit s → s ≢ [] → parse_u32 s ≡ scan_u32 s 0
unfolding parse_u32
parse_u32-digits [] h n = absurd (n refl)
parse_u32-digits (c ∷ []) h n = refl
parse_u32-digits (c ∷ d ∷ s) h n = let ne : (c == b'+') ≡ false = ground (arith, h.0) in rw ne refl

pub parse_u32-decimal : (n : ℕ) → n < 2 ^ 32 → parse_u32 (decimal n) ≡ ok n
unfolding decimal scan_u32
parse_u32-decimal n h =
    parse_u32-digits (decimal n) (decimal-IsDigit n) (decimal_full n)
    ∙ scan_u32-digits (suc n) n [] (omega arith) h
