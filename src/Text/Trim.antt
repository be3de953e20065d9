-- ===== src/Text/Trim.antt =====
-- `str::trim` and `str::lines`. White space is Unicode's `White_Space`, spelled in UTF-8.
use mathlib.Core.List.{reverse-append, reverse-reverse}
use freeswitch_esl_rs.Prelude.{
  leb, ◌==◌, if◌then◌else◌, ℕ, zero, suc, ◌<◌, ◌≡◌, refl, sym, ap, ◌∙◌, Bool, true, false, ◌&&◌,
  ◌||◌, none, some, List, [], ◌∷◌, ◌++◌, reverse, arith, Bytes,
}
use freeswitch_esl_rs.Text.{is_empty, strip_suffix}

-- U+0009 to U+000D, and the space.
abbrev pub is_ascii_white : ℕ → Bool
is_ascii_white c = (leb 0x09 c && leb c 0x0d) || c == 0x20

-- U+0085 and U+00A0.
abbrev is_white2 : ℕ → ℕ → Bool
is_white2 a b = a == 0xc2 && (b == 0x85 || b == 0xa0)

-- U+1680, U+2000 to U+200A, U+2028, U+2029, U+202F, U+205F and U+3000.
abbrev is_white3 : ℕ → ℕ → ℕ → Bool
is_white3 a b c =
    (a == 0xe1 && (b == 0x9a && c == 0x80))
    || ((a == 0xe2
          && (b == 0x80 && ((leb 0x80 c && leb c 0x8a) || (c == 0xa8 || (c == 0xa9 || c == 0xaf)))))
        || ((a == 0xe2 && (b == 0x81 && c == 0x9f)) || (a == 0xe3 && (b == 0x80 && c == 0x80))))

-- The number of bytes of the white space character at the front, 0 if there is none.
unfoldable pub white_width : Bytes → ℕ
white_width [] = 0
white_width (a ∷ []) = if is_ascii_white a then 1 else 0
white_width (a ∷ b ∷ []) = if is_ascii_white a then 1 else if is_white2 a b then 2 else 0
white_width (a ∷ b ∷ c ∷ s) =
    if is_ascii_white a then 1 else if is_white2 a b then 2 else if is_white3 a b c then 3 else 0

-- The same at the end of a text, which is read backwards.
unfoldable pub white_width_back : Bytes → ℕ
white_width_back [] = 0
white_width_back (a ∷ []) = if is_ascii_white a then 1 else 0
white_width_back (b ∷ a ∷ []) = if is_ascii_white b then 1 else if is_white2 a b then 2 else 0
white_width_back (c ∷ b ∷ a ∷ s) =
    if is_ascii_white c then 1 else if is_white2 b c then 2 else if is_white3 a b c then 3 else 0

-- The first argument counts the bytes left of the white space character being dropped.
unfoldable pub drop_white : (Bytes → ℕ) → ℕ → Bytes → Bytes
drop_white width n [] = []
drop_white width (suc n) (c ∷ s) = drop_white width n s
drop_white width zero (c ∷ s) = elim (width (c ∷ s)) [ zero ↦ c ∷ s | suc n ↦ drop_white width n s ]

unfoldable pub trim_start : Bytes → Bytes
unfolding drop_white white_width
trim_start s = drop_white white_width 0 s

unfoldable pub trim_end : Bytes → Bytes
unfolding drop_white white_width_back
trim_end s = reverse (drop_white white_width_back 0 (reverse s))

unfoldable pub trim : Bytes → Bytes
unfolding trim_start trim_end
trim s = trim_end (trim_start s)

-- A line loses the `\r` in front of its `\n`.
unfoldable pub strip_cr : Bytes → Bytes
unfolding strip_suffix
strip_cr line = elim (strip_suffix line b'\r') [ none ↦ line | some l ↦ l ]

-- The second argument holds the line read so far. There is no empty line behind the last `\n`.
unfoldable pub lines_from : Bytes → Bytes → List Bytes
unfolding strip_cr
lines_from [] cur = if is_empty cur then [] else cur ∷ []
lines_from (c ∷ s) cur = elim (c == b'\n') [
  | true ↦ strip_cr cur ∷ lines_from s []
  | false ↦ lines_from s (cur ++ c ∷ [])
]

unfoldable pub lines : Bytes → List Bytes
unfolding lines_from
lines s = lines_from s []

-- An ASCII character that is no white space.
abbrev pub IsSolid : ℕ → Type 0
IsSolid c = (c < 128) × (is_ascii_white c ≡ false)

white2_front : (a b : ℕ) → a < 128 → is_white2 a b ≡ false
white2_front a b h = ground arith

white2_back : (a b : ℕ) → b < 128 → is_white2 a b ≡ false
white2_back a b h = ground arith

white3_front : (a b c : ℕ) → a < 128 → is_white3 a b c ≡ false
white3_front a b c h =
    let e1 : (a == 0xe1) ≡ false = ground arith in
    let e2 : (a == 0xe2) ≡ false = ground arith in
    let e3 : (a == 0xe3) ≡ false = ground arith in rw (e1, e2, e3) refl

and_false : (x y : Bool) → (x && (y && false)) ≡ false
and_false true true = refl
and_false true false = refl
and_false false y = refl

none_holds :
    (x y z u v w : Bool)
    → ((x && (u && false)) || ((y && (v && false)) || ((y && (w && false)) || (z && (v && false)))))
      ≡ false
none_holds x y z u v w = rw (and_false x u, and_false y v, and_false y w, and_false z v) refl

white3_back : (a b c : ℕ) → c < 128 → is_white3 a b c ≡ false
white3_back a b c h =
    let e0 : (c == 0x80) ≡ false = ground arith in
    let e1 : leb 0x80 c ≡ false = ground arith in
    let e2 : (c == 0xa8) ≡ false = ground arith in
    let e3 : (c == 0xa9) ≡ false = ground arith in
    let e4 : (c == 0xaf) ≡ false = ground arith in
    let e5 : (c == 0x9f) ≡ false = ground arith in
    rw (e0, e1, e2, e3, e4, e5)
      (none_holds (a == 0xe1) (a == 0xe2) (a == 0xe3) (b == 0x9a) (b == 0x80) (b == 0x81))

pub white_width_solid : (c : ℕ) (s : Bytes) → IsSolid c → white_width (c ∷ s) ≡ 0
unfolding white_width
white_width_solid c [] h = rw h.1 refl
white_width_solid c (d ∷ []) h = rw (h.1, white2_front c d h.0) refl
white_width_solid c (d ∷ e ∷ s) h = rw (h.1, white2_front c d h.0, white3_front c d e h.0) refl

pub white_width_back_solid : (c : ℕ) (s : Bytes) → IsSolid c → white_width_back (c ∷ s) ≡ 0
unfolding white_width_back
white_width_back_solid c [] h = rw h.1 refl
white_width_back_solid c (d ∷ []) h = rw (h.1, white2_back d c h.0) refl
white_width_back_solid c (d ∷ e ∷ s) h = rw (h.1, white2_back d c h.0, white3_back e d c h.0) refl

-- A text between two such characters stays as it is.
pub trim_fixed :
    (a b : ℕ) (s : Bytes) → IsSolid a → IsSolid b → trim (a ∷ s ++ b ∷ []) ≡ a ∷ s ++ b ∷ []
unfolding trim trim_start trim_end drop_white
trim_fixed a b s h k =
    rw (white_width_solid a (s ++ b ∷ []) h, drop_white)
      (let ends : reverse (a ∷ s ++ b ∷ []) ≡ b ∷ reverse (a ∷ s) =
          reverse-append (a ∷ s) (b ∷ []) in
        rw ends (
          rw (white_width_back_solid b (reverse (a ∷ s)) k)
            (ap reverse (sym ends) ∙ reverse-reverse (a ∷ s ++ b ∷ []))))
