-- ===== src/Commands.antt =====
-- src/commands: the builders of API commands. Here are the quoting and the splitting of
-- src/commands/mod.rs; the children have originate.rs and channel.rs, and prove the round trips.
pub mod Quoting
pub mod Originate
pub mod Parts
pub mod Scan
pub mod Tokens
pub mod Application
pub mod Uuid
pub mod Conference
pub mod Variables
pub mod Builder
pub mod Line
pub mod Arguments
pub mod Restored
use freeswitch_esl_rs.Prelude.{
  ◌==◌, if◌then◌else◌, Result, ok, err, ◌>>=◌, ◌>>◌, ℕ, Bool, true, false, not, ◌&&◌, Option, none,
  some, List, [], ◌∷◌, ◌++◌, Bytes,
}
use freeswitch_esl_rs.Text.{is_empty, strip_suffix, contains}
use freeswitch_esl_rs.Text.Trim.{trim}
use freeswitch_esl_rs.Error.{OriginateError, unclosed_quote}

-- `s.replace(c, "\\c")`: a backslash in front of each `c`.
unfoldable pub escape_char : ℕ → Bytes → Bytes
escape_char c [] = []
escape_char c (d ∷ s) = if d == c then b'\\' ∷ d ∷ escape_char c s else d ∷ escape_char c s

-- `s.replace("\\c", "c")`: from the left, and matches do not overlap.
unfoldable pub unescape_char : ℕ → Bytes → Bytes
unescape_char c [] = []
unescape_char c (d ∷ []) = d ∷ []
unescape_char c (d ∷ e ∷ s) = elim (d == b'\\' && e == c) [
  | true ↦ c ∷ unescape_char c s
  | false ↦ d ∷ unescape_char c (e ∷ s)
]

-- `format!("'{}'", s)`.
abbrev pub quoted : Bytes → Bytes
quoted s = b'\'' ∷ s ++ b'\'' ∷ []

-- `strip_prefix('\'').and_then(|s| s.strip_suffix('\''))`.
unfoldable pub strip_quotes : Bytes → Option Bytes
unfolding strip_suffix
strip_quotes [] = none
strip_quotes (c ∷ s) = if c == b'\'' then strip_suffix s b'\'' else none

unfoldable pub originate_quote : Bytes → Bytes
unfolding contains escape_char
originate_quote token = if contains token b' ' then quoted (escape_char b'\'' token) else token

unfoldable pub originate_unquote : Bytes → Bytes
unfolding strip_quotes unescape_char
originate_unquote token = elim (strip_quotes token) [
  | some inner ↦ unescape_char b'\'' inner
  | none ↦ token
]

-- The last token, if there is one.
abbrev last_token : Bytes → List Bytes
last_token token = if is_empty token then [] else token ∷ []

-- `ch == split_at && !in_quote && !token.trim().is_empty()`.
unfoldable pub at_split : ℕ → ℕ → Bytes → Bool → Bool
unfolding trim
at_split split_at ch token in_quote =
    ch == split_at && (not in_quote && not (is_empty (trim token)))

-- `ch == '\'' && !(i > 0 && chars[i - 1] == '\\')`: a quote opens or closes.
unfoldable pub toggles : Option ℕ → ℕ → Bool
toggles none ch = ch == b'\''
toggles (some prev) ch = ch == b'\'' && not (prev == b'\\')

-- The loop. The second argument is the character before, the fourth the token read so far.
unfoldable pub split_tokens :
    ℕ → Option ℕ → Bytes → Bytes → Bool → Result OriginateError (List Bytes)
unfolding at_split toggles trim
split_tokens split_at prev [] token true = err (unclosed_quote token)
split_tokens split_at prev [] token false = ok (last_token (trim token))
split_tokens split_at prev (ch ∷ line) token in_quote = elim (at_split split_at ch token in_quote) [
  | true ↦ do rest ← split_tokens split_at (some ch) line [] in_quote; ok (trim token ∷ rest)
  | false ↦
      split_tokens split_at (some ch) line (token ++ ch ∷ [])
        (if toggles prev ch then not in_quote else in_quote)
]

unfoldable pub originate_split : Bytes → ℕ → Result OriginateError (List Bytes)
unfolding split_tokens
originate_split line split_at = split_tokens split_at none line [] false
