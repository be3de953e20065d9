-- ===== src/Command.antt =====
-- src/command.rs: responses, the command builder and the commands' wire format.
pub mod Response
pub mod Wire
pub mod Checked
pub mod Framed
pub mod Safety
pub mod Debug
use freeswitch_esl_rs.Prelude.{
  length, ok, ◌>>=◌, ◌>>◌, reject_if, Bool, not, ◌||◌, Option, none, some, [], ◌∷◌, ◌++◌, Bytes,
  codes,
}
use freeswitch_esl_rs.Constants.{line_terminator}
use freeswitch_esl_rs.Text.{contains}
use freeswitch_esl_rs.Text.Decimal.{decimal}
use freeswitch_esl_rs.Error.{protocol_error, EslResult}
use freeswitch_esl_rs.Headers.{Headers, insert}

-- `s.contains('\n') || s.contains('\r')`.
unfoldable pub has_newline : Bytes → Bool
unfolding contains
has_newline s = contains s b'\n' || contains s b'\r'

unfoldable pub validate_no_newlines : Bytes → Bytes → EslResult (Unit {0})
unfolding has_newline
validate_no_newlines s context =
    reject_if (has_newline s) (protocol_error (context ++ codes " must not contain newlines"))

-- `if let Some(s) = o { validate_no_newlines(s, …)? }`.
unfoldable pub validate_option : Option Bytes → Bytes → EslResult (Unit {0})
unfolding validate_no_newlines
validate_option none context = ok tt
validate_option (some s) context = validate_no_newlines s context

pub record CommandBuilder : Type 0 where
  pub command : Bytes
  pub headers : Headers
  pub body : Option Bytes

unfoldable pub new : Bytes → CommandBuilder
new command = record { command = command; headers = []; body = none }

unfoldable pub header : CommandBuilder → Bytes → Bytes → EslResult CommandBuilder
unfolding validate_no_newlines insert
header b name value = do
  validate_no_newlines name (codes "header name")
  validate_no_newlines value (codes "header value")
  ok (record b { headers = insert b.headers name value })

unfoldable pub with_body : CommandBuilder → Bytes → CommandBuilder
with_body b body = record b { body = some body }

-- `write!(result, "{}: {}{}", key, value, LINE_TERMINATOR)` for each header.
unfoldable pub header_lines : Headers → Bytes
header_lines [] = []
header_lines ((k, v) ∷ m) = k ++ (codes ": " ++ (v ++ (line_terminator ++ header_lines m)))

-- What stands behind the headers.
unfoldable pub body_part : Option Bytes → Bytes
unfolding decimal
body_part none = line_terminator
body_part (some body) =
    codes "Content-Length: "
    ++ (decimal (length body) ++ (line_terminator ++ (line_terminator ++ body)))

-- A `HashMap` is walked in an order of its own, which differs from one map to the next: the order
-- is the parameter `order`.
module _ (order : Headers → Headers) where
  unfoldable pub build : CommandBuilder → Bytes
  unfolding header_lines body_part
  build b = b.command ++ (line_terminator ++ (header_lines (order b.headers) ++ body_part b.body))
