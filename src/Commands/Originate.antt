-- ===== src/Commands/Originate.antt =====
-- src/commands/originate.rs: the dialplan types and the channel variables. The crate `indexmap` is
-- the parameter of the functions on variables.
use freeswitch_esl_rs.Prelude.{
  ltb, ◌==◌, if◌then◌else◌, length, Result, ok, err, ◌>>=◌, ok_or, ℕ, ◌≡◌, Bool, true, false, not,
  ◌&&◌, Option, none, some, List, [], ◌∷◌, ◌++◌, map, Bytes, codes, unwrap_or,
}
use freeswitch_esl_rs.Text.{strip_suffix, contains, split_once}
use freeswitch_esl_rs.Text.Trim.{trim}
use freeswitch_esl_rs.Text.Split.{join}
use freeswitch_esl_rs.Wire.{match_arms}
use freeswitch_esl_rs.Error.{OriginateError, parse_error}
use freeswitch_esl_rs.Headers.{get}
use freeswitch_esl_rs.Commands.{escape_char, unescape_char, quoted, strip_quotes}

pub data DialplanType : Type 0 where
  inline xml : DialplanType

unfoldable pub dialplan_name : DialplanType → Bytes
dialplan_name inline = codes "inline"
dialplan_name xml = codes "XML"

unfoldable pub dialplan_from_str : Bytes → Result OriginateError DialplanType
unfolding match_arms
dialplan_from_str s =
    ok_or (match_arms ((codes "inline", inline) ∷ (codes "XML", xml) ∷ []) s)
      (parse_error (codes "unknown dialplan type: " ++ s))

pub data VariablesType : Type 0 where
  enterprise default channel : VariablesType

unfoldable pub delimiters : VariablesType → ℕ × ℕ
delimiters enterprise = (b'<', b'>')
delimiters default = (b'{', b'}')
delimiters channel = (b'[', b']')

-- The operations of `indexmap::IndexMap<String, String>` that the source calls.
pub record IndexMap : Type 1 where
  pub Map : Type 0
  pub new : Map
  pub insert : Map → Bytes → Bytes → Map
  pub iter : Map → List (Bytes × Bytes)

-- What the source relies on: a new map is empty, and a new key comes last.
abbrev pub IsOrdered : IndexMap → Type 0
IsOrdered I =
    (I.iter I.new ≡ [])
    × ((m : I.Map) (k v : Bytes)
        → get (I.iter m) k ≡ none
        → I.iter (I.insert m k v) ≡ I.iter m ++ (k, v) ∷ [])

pub record Variables (M : Type 0) : Type 0 where
  pub vars_type : VariablesType
  pub inner : M

unfoldable pub escape_value : Bytes → Bytes
unfolding escape_char contains
escape_value value =
    let escaped = escape_char b',' (escape_char b'\'' value) in
    if contains escaped b' ' then quoted escaped else escaped

unfoldable pub unescape_value : Bytes → Bytes
unfolding strip_quotes unescape_char
unescape_value value =
    unescape_char b'\'' (unescape_char b',' (unwrap_or (strip_quotes value) value))

-- `bytes[i] == b',' && !(i > 0 && bytes[i - 1] == b'\\')`.
abbrev pub splits : Option ℕ → ℕ → Bool
splits none c = c == b','
splits (some prev) c = c == b',' && not (prev == b'\\')

-- The first argument is the byte before, the third the part read so far.
unfoldable pub split_commas : Option ℕ → Bytes → Bytes → List Bytes
split_commas prev [] part = part ∷ []
split_commas prev (c ∷ s) part = elim (splits prev c) [
  | true ↦ part ∷ split_commas (some c) s []
  | false ↦ split_commas (some c) s (part ++ c ∷ [])
]

unfoldable pub split_unescaped_commas : Bytes → List Bytes
unfolding split_commas
split_unescaped_commas s = split_commas none s []

-- `key=value`.
unfoldable pub variable_text : Bytes × Bytes → Bytes
unfolding escape_value
variable_text (key, value) = key ++ b'=' ∷ escape_value value

unfoldable pub scoped : VariablesType → Option Bytes → Option (VariablesType × Bytes)
scoped t none = none
scoped t (some inner) = some (t, inner)

-- `match (s.as_bytes()[0], s.as_bytes()[s.len() - 1])`, and what stands between the delimiters.
unfoldable pub block : Bytes → Option (VariablesType × Bytes)
unfolding strip_suffix scoped
block [] = none
block (c ∷ s) =
    if c == b'{'
    then scoped default (strip_suffix s b'}')
    else if c == b'<'
    then scoped enterprise (strip_suffix s b'>')
    else if c == b'['
    then scoped channel (strip_suffix s b']')
    else none

module _ (I : IndexMap) where
  -- `Variables::new`, `with_vars` and `insert`.
  unfoldable variables_new : VariablesType → Variables I.Map
  variables_new vars_type = record { vars_type = vars_type; inner = I.new }

  unfoldable variables_with_vars : VariablesType → I.Map → Variables I.Map
  variables_with_vars vars_type vars = record { vars_type = vars_type; inner = vars }

  unfoldable variables_insert : Variables I.Map → Bytes → Bytes → Variables I.Map
  variables_insert v key value = record v { inner = I.insert v.inner key value }

  unfoldable pub variables_display : Variables I.Map → Bytes
  unfolding delimiters variable_text join
  variables_display v =
      (delimiters v.vars_type).0 ∷ join (codes ",") (map variable_text (I.iter v.inner))
      ++ (delimiters v.vars_type).1 ∷ []

  unfoldable pub insert_parts : List Bytes → I.Map → Result OriginateError I.Map
  unfolding split_once unescape_value
  insert_parts [] inner = ok inner
  insert_parts (part ∷ parts) inner = do
    (key, value) ←
        ok_or (split_once part b'=') (parse_error (codes "missing = in variable: " ++ part))
    insert_parts parts (I.insert inner key (unescape_value value))

  unfoldable pub parse_block :
      Bytes → Option (VariablesType × Bytes) → Result OriginateError (Variables I.Map)
  unfolding insert_parts split_unescaped_commas
  parse_block s none = err (parse_error (codes "unknown variable delimiters: " ++ s))
  parse_block s (some (vars_type, inner_str)) = do
    inner ← insert_parts (split_unescaped_commas inner_str) I.new
    ok (record { vars_type = vars_type; inner = inner })

  unfoldable pub variables_from_str : Bytes → Result OriginateError (Variables I.Map)
  unfolding trim block parse_block
  variables_from_str text =
      let s = trim text in
      if ltb (length s) 2
      then err (parse_error (codes "variable block too short"))
      else parse_block s (block s)
