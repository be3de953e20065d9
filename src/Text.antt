-- ===== src/Text.antt =====
-- The operations of Rust's `str` and `[u8]` that the program uses, over lists of bytes: equality,
-- prefixes, searches and cuts. Its children have `trim` and `lines`, UTF-8, decimal numbers, case
-- mapping and `replace`.
pub mod Search
pub mod Trim
pub mod Solid
pub mod Utf8
pub mod Decimal
pub mod Digits
pub mod Signed
pub mod Split
pub mod Case
use freeswitch_esl_rs.Prelude.{
  ℕ, zero, suc, ◌+◌, Bool, true, false, ◌&&◌, ◌||◌, ◌==◌, if◌then◌else◌, Option, none, some, List,
  [], ◌∷◌, ◌++◌, reverse, Bytes, take, drop,
}

-- `==` on `[u8]` and on `str`.
unfoldable pub bytes_eq : Bytes → Bytes → Bool
bytes_eq [] [] = true
bytes_eq (x ∷ xs) (y ∷ ys) = x == y && bytes_eq xs ys
bytes_eq _ _ = false

-- `str::is_empty`.
abbrev pub is_empty {ℓ} : {A : Type ℓ} → List A → Bool
is_empty [] = true
is_empty (x ∷ xs) = false

-- `str::strip_prefix`.
unfoldable pub strip_prefix : Bytes → Bytes → Option Bytes
strip_prefix s [] = some s
strip_prefix [] (p ∷ ps) = none
strip_prefix (c ∷ s) (p ∷ ps) = if c == p then strip_prefix s ps else none

-- `str::starts_with`.
unfoldable pub starts_with : Bytes → Bytes → Bool
starts_with s [] = true
starts_with [] (p ∷ ps) = false
starts_with (c ∷ s) (p ∷ ps) = c == p && starts_with s ps

-- `str::strip_suffix`, at a suffix of one ASCII character.
unfoldable pub strip_suffix : Bytes → ℕ → Option Bytes
strip_suffix [] q = none
strip_suffix (c ∷ []) q = if c == q then some [] else none
strip_suffix (c ∷ d ∷ s) q = elim (strip_suffix (d ∷ s) q) [ none ↦ none | some r ↦ some (c ∷ r) ]

-- `str::find`, and `str::contains`, at one ASCII character.
unfoldable pub find : Bytes → ℕ → Option ℕ
find [] b = none
find (c ∷ s) b = if c == b then some 0 else elim (find s b) [ none ↦ none | some i ↦ some (suc i) ]

unfoldable pub contains : Bytes → ℕ → Bool
contains [] b = false
contains (c ∷ s) b = c == b || contains s b

-- `str::split_once`, at one ASCII character.
unfoldable pub split_once : Bytes → ℕ → Option (Bytes × Bytes)
unfolding find
split_once s b = elim (find s b) [ none ↦ none | some i ↦ some (take i s, drop (i + 1) s) ]
