-- ===== src/Text/Case.antt =====
-- `str::to_uppercase` and `str::to_lowercase`, as far as the source can tell: it only compares the
-- result with ASCII texts. ASCII letters are mapped, and so are the other characters whose mapping
-- is ASCII; a character whose mapping is not ASCII stays, and the text matches nothing either way.
use freeswitch_esl_rs.Prelude.{
  leb, ◌==◌, if◌then◌else◌, ℕ, zero, suc, ◌+◌, ◌-◌, not, ◌&&◌, ◌||◌, Option, none, some, [], ◌∷◌,
  ◌++◌, Bytes, codes,
}

abbrev pub ascii_upper : ℕ → ℕ
ascii_upper c = if leb b'a' c && leb c b'z' then c - 32 else c

abbrev pub ascii_lower : ℕ → ℕ
ascii_lower c = if leb b'A' c && leb c b'Z' then c + 32 else c

-- U+00DF, U+0131 and U+017F: a sharp s, a dotless i and a long s.
upper2 : ℕ → ℕ → Option Bytes
upper2 a b =
    if a == 0xc3 && b == 0x9f
    then some (codes "SS")
    else if a == 0xc4 && b == 0xb1
    then some (codes "I")
    else if a == 0xc5 && b == 0xbf
    then some (codes "S")
    else none

-- U+FB00 to U+FB06: the Latin ligatures.
upper3 : ℕ → ℕ → ℕ → Option Bytes
upper3 a b c =
    if not (a == 0xef && b == 0xac)
    then none
    else if c == 0x80
    then some (codes "FF")
    else if c == 0x81
    then some (codes "FI")
    else if c == 0x82
    then some (codes "FL")
    else if c == 0x83
    then some (codes "FFI")
    else if c == 0x84
    then some (codes "FFL")
    else if c == 0x85 || c == 0x86
    then some (codes "ST")
    else none

-- What the first character becomes, and how many more bytes it has.
upper_char : Bytes → Bytes × ℕ
unfolding upper2 upper3
upper_char [] = ([], 0)
upper_char (a ∷ []) = (ascii_upper a ∷ [], 0)
upper_char (a ∷ b ∷ []) = elim (upper2 a b) [ none ↦ (ascii_upper a ∷ [], 0) | some t ↦ (t, 1) ]
upper_char (a ∷ b ∷ c ∷ s) = elim (upper2 a b) [
  | some t ↦ (t, 1)
  | none ↦ elim (upper3 a b c) [ none ↦ (ascii_upper a ∷ [], 0) | some t ↦ (t, 2) ]
]

-- U+212A, the Kelvin sign, is the one character beside the letters whose lower case is ASCII.
lower_char : Bytes → Bytes × ℕ
lower_char [] = ([], 0)
lower_char (a ∷ []) = (ascii_lower a ∷ [], 0)
lower_char (a ∷ b ∷ []) = (ascii_lower a ∷ [], 0)
lower_char (a ∷ b ∷ c ∷ s) =
    if a == 0xe2 && (b == 0x84 && c == 0xaa) then (codes "k", 2) else (ascii_lower a ∷ [], 0)

-- The first argument maps a character, the second counts the bytes left of the one just mapped.
unfoldable pub map_chars : (Bytes → Bytes × ℕ) → ℕ → Bytes → Bytes
map_chars f n [] = []
map_chars f (suc n) (c ∷ s) = map_chars f n s
map_chars f zero (c ∷ s) = let (t, more) = f (c ∷ s) in t ++ map_chars f more s

unfoldable pub to_uppercase : Bytes → Bytes
unfolding map_chars upper_char
to_uppercase s = map_chars upper_char 0 s

unfoldable pub to_lowercase : Bytes → Bytes
unfolding map_chars lower_char
to_lowercase s = map_chars lower_char 0 s
