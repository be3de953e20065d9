-- ===== src/Text/Decimal.antt =====
-- Decimal numbers: `Display` of the unsigned integers, and their `FromStr`.
use freeswitch_esl_rs.Prelude.{
  ℕ, zero, suc, ◌+◌, ◌-◌, ◌*◌, ◌/◌, ◌%◌, ◌^◌, ◌||◌, ◌==◌, ltb, if◌then◌else◌, Option, none, some,
  [], ◌∷◌, Bytes,
}

-- `usize` has 64 bits.
abbrev pub max_usize : ℕ
max_usize = 2 ^ 64 - 1

-- The digits of a number in front of a text. The first argument bounds the number of digits.
unfoldable pub digits : ℕ → ℕ → Bytes → Bytes
digits zero n out = out
digits (suc f) n out =
    let more = digits f (n / 10) ((b'0' + n % 10) ∷ out) in
    if ltb n 10 then (b'0' + n) ∷ out else more

-- A number has no more digits than its value and one more.
unfoldable pub decimal : ℕ → Bytes
unfolding digits
decimal n = digits (suc n) n []

-- `checked_mul` by ten and `checked_add` of the digit, below the bound of the type.
unfoldable pub scan : ℕ → Bytes → ℕ → Option ℕ
scan bound [] n = some n
scan bound (c ∷ s) n =
    let m = n * 10 + (c - b'0') in
    if ltb c b'0' || ltb b'9' c then none else if ltb bound m then none else scan bound s m

-- `str::parse` of an unsigned type whose greatest value is `bound`: a `+` may stand in front, and
-- there is at least one digit.
unfoldable pub parse_unsigned : ℕ → Bytes → Option ℕ
unfolding scan
parse_unsigned bound [] = none
parse_unsigned bound (c ∷ []) = scan bound (c ∷ []) 0
parse_unsigned bound (c ∷ d ∷ s) =
    if c == b'+' then scan bound (d ∷ s) 0 else scan bound (c ∷ d ∷ s) 0
