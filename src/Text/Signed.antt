-- ===== src/Text/Signed.antt =====
-- Signed numbers, and the `FromStr` of `i64`.
use freeswitch_esl_rs.Prelude.{
  ◌==◌, if◌then◌else◌, ℕ, zero, suc, ◌+◌, ◌-◌, ◌^◌, Option, none, some, [], ◌∷◌, Bytes,
}
use freeswitch_esl_rs.Text.Decimal.{scan}

pub data ℤ : Type 0 where
  pos negsuc : ℕ → ℤ

abbrev pub max_i64 : ℕ
max_i64 = 2 ^ 63 - 1

abbrev negate : ℕ → ℤ
negate zero = pos zero
negate (suc n) = negsuc n

abbrev pub map_some {ℓ κ} : {A : Type ℓ} {B : Type κ} → (A → B) → Option A → Option B
map_some f none = none
map_some f (some a) = some (f a)

-- One sign may stand in front of the digits, of which there is at least one.
unfoldable pub parse_i64 : Bytes → Option ℤ
unfolding scan
parse_i64 [] = none
parse_i64 (c ∷ []) = map_some pos (scan max_i64 (c ∷ []) 0)
parse_i64 (c ∷ d ∷ s) =
    if c == b'+'
    then map_some pos (scan max_i64 (d ∷ s) 0)
    else if c == b'-'
    then map_some negate (scan (max_i64 + 1) (d ∷ s) 0)
    else map_some pos (scan max_i64 (c ∷ d ∷ s) 0)
