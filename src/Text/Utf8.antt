-- ===== src/Text/Utf8.antt =====
-- `String::from_utf8`: the bytes are kept if they are well-formed UTF-8 (Unicode, table 3-7).
use freeswitch_esl_rs.Prelude.{
  ℕ, Bool, true, false, ◌&&◌, ◌==◌, leb, ltb, if◌then◌else◌, Option, none, some, List, [], ◌∷◌, ◌<◌,
  ◌≡◌, refl, arith, Bytes, All,
}

abbrev within : ℕ × ℕ → ℕ → Bool
within r c = leb r.0 c && leb c r.1

-- A continuation byte.
abbrev tail_byte : ℕ × ℕ
tail_byte = (0x80, 0xbf)

-- The ranges of the bytes that must follow a lead byte.
unfoldable pub followers : ℕ → Option (List (ℕ × ℕ))
followers b =
    if ltb b 0x80
    then some []
    else if within (0xc2, 0xdf) b
    then some (tail_byte ∷ [])
    else if b == 0xe0
    then some ((0xa0, 0xbf) ∷ tail_byte ∷ [])
    else if b == 0xed
    then some ((0x80, 0x9f) ∷ tail_byte ∷ [])
    else if within (0xe1, 0xef) b
    then some (tail_byte ∷ tail_byte ∷ [])
    else if b == 0xf0
    then some ((0x90, 0xbf) ∷ tail_byte ∷ tail_byte ∷ [])
    else if within (0xf1, 0xf3) b
    then some (tail_byte ∷ tail_byte ∷ tail_byte ∷ [])
    else if b == 0xf4
    then some ((0x80, 0x8f) ∷ tail_byte ∷ tail_byte ∷ [])
    else none

-- The first argument holds the ranges that the character being read still wants.
unfoldable pub valid_from : List (ℕ × ℕ) → Bytes → Bool
unfolding followers
valid_from [] [] = true
valid_from (r ∷ rs) [] = false
valid_from (r ∷ rs) (b ∷ s) = within r b && valid_from rs s
valid_from [] (b ∷ s) = elim (followers b) [ none ↦ false | some rs ↦ valid_from rs s ]

unfoldable pub from_utf8 : Bytes → Option Bytes
unfolding valid_from
from_utf8 s = if valid_from [] s then some s else none

valid_from-ascii : (s : Bytes) → All (λ c. c < 0x80) s → valid_from [] s ≡ true
unfolding valid_from
valid_from-ascii [] h = refl
valid_from-ascii (c ∷ s) h = ground (arith, valid_from-ascii s h.1)

-- ASCII is UTF-8.
pub from_utf8-ascii : (s : Bytes) → All (λ c. c < 0x80) s → from_utf8 s ≡ some s
unfolding from_utf8
from_utf8-ascii s h = ground (arith, valid_from-ascii s h)

pub from_utf8_sound : (s : Bytes) {t : Bytes} → from_utf8 s ≡ some t → t ≡ s
unfolding from_utf8
from_utf8_sound s h = ground arith
