-- ===== src/Command/Wire.antt =====
-- `EslCommand` and `to_wire_format` of src/command.rs.
use freeswitch_esl_rs.Prelude.{
  if◌then◌else◌, ok, ◌>>=◌, ◌>>◌, ℕ, Bool, Option, none, some, List, [], ◌∷◌, ◌++◌, Bytes, codes,
  unwrap_or,
}
use freeswitch_esl_rs.Constants.{header_terminator}
use freeswitch_esl_rs.Text.{bytes_eq}
use freeswitch_esl_rs.Text.Decimal.{decimal}
use freeswitch_esl_rs.Error.{EslResult}
use freeswitch_esl_rs.Headers.{Headers}
use freeswitch_esl_rs.Event.Types.{wire_name}
use freeswitch_esl_rs.Event.{EslEvent, set_header}
use freeswitch_esl_rs.Command.{
  validate_no_newlines, validate_option, CommandBuilder, with_body, build,
}
use freeswitch_esl_rs.Command
use freeswitch_esl_rs.Event

pub data EslCommand : Type 0 where
  auth : (password : Bytes) → EslCommand
  user_auth : (user password : Bytes) → EslCommand
  api : (c : Bytes) → EslCommand
  bg_api : (c : Bytes) → EslCommand
  events : (format events : Bytes) → EslCommand
  filter : (header value : Bytes) → EslCommand
  send_msg : (uuid : Option Bytes) (e : EslEvent) → EslCommand
  execute : (app : Bytes) (args uuid : Option Bytes) → EslCommand
  exit : EslCommand
  log : (level : Bytes) → EslCommand
  no_log no_op : EslCommand
  send_event : (e : EslEvent) → EslCommand
  my_events : (format : Bytes) (uuid : Option Bytes) → EslCommand
  linger : (timeout : Option ℕ) → EslCommand
  no_linger resume : EslCommand
  nix_event : (events : Bytes) → EslCommand
  no_events : EslCommand
  filter_delete : (header : Bytes) (value : Option Bytes) → EslCommand
  divert_events : (on : Bool) → EslCommand
  get_var : (name : Bytes) → EslCommand
  connect : EslCommand

-- The words of a command line, each argument behind a space.
unfoldable pub command_line : Bytes → List Bytes → Bytes
command_line cmd [] = cmd
command_line cmd (arg ∷ args) = command_line (cmd ++ b' ' ∷ arg) args

unfoldable pub format_simple_command : Bytes → List Bytes → Bytes
unfolding command_line
format_simple_command cmd args = command_line cmd args ++ header_terminator

-- `for (key, value) in e.headers() { builder = builder.header(key, value)?; }`.
unfoldable pub add_headers : CommandBuilder → Headers → EslResult CommandBuilder
unfolding Command.header
add_headers b [] = ok b
add_headers b ((k, v) ∷ m) = do b' ← Command.header b k v; add_headers b' m

unfoldable pub add_body : CommandBuilder → Option Bytes → CommandBuilder
unfolding Command.with_body
add_body b none = b
add_body b (some body) = Command.with_body b body

-- The name behind `sendevent`: the type's, the `Event-Name` header's, or `CUSTOM`.
unfoldable pub event_name : EslEvent → Bytes
unfolding wire_name Event.header
event_name e = elim e.event_type [
  | some t ↦ wire_name t
  | none ↦ unwrap_or (Event.header e (codes "Event-Name")) (codes "CUSTOM")
]

-- The header `execute-app-arg`, if there are arguments.
unfoldable pub set_args : EslEvent → Option Bytes → EslEvent
unfolding Event.set_header
set_args e none = e
set_args e (some args) = Event.set_header e (codes "execute-app-arg") args

unfoldable pub execute_event : Bytes → Option Bytes → EslEvent
unfolding set_args Event.set_header Event.new
execute_event app args =
    set_args
      (Event.set_header (Event.set_header Event.new (codes "call-command") (codes "execute"))
        (codes "execute-app-name") app)
      args

-- The words behind a command's name for an optional argument.
abbrev pub optional_word : Option Bytes → List Bytes
optional_word none = []
optional_word (some s) = s ∷ []

unfoldable pub filter_delete_args : Bytes → Option Bytes → List Bytes
unfolding bytes_eq
filter_delete_args header value =
    if bytes_eq header (codes "all")
    then codes "delete" ∷ codes "all" ∷ []
    else codes "delete" ∷ header ∷ optional_word value

unfoldable pub my_events_args : Bytes → Option Bytes → List Bytes
my_events_args format none = format ∷ []
my_events_args format (some u) = u ∷ format ∷ []

unfoldable pub linger_args : Option ℕ → List Bytes
unfolding decimal
linger_args none = []
linger_args (some n) = decimal n ∷ []

-- The walk over an event's `HashMap`, and that over the builder's, are in the map's own order.
module _ (order : Headers → Headers) where
  unfoldable pub build_with : Bytes → EslEvent → EslResult Bytes
  unfolding add_headers add_body Command.build Command.new
  build_with cmd e = do
    builder ← add_headers (Command.new cmd) (order e.headers)
    ok (Command.build order (add_body builder e.body))

  unfoldable pub send_msg_wire : Option Bytes → EslEvent → EslResult Bytes
  unfolding validate_option build_with
  send_msg_wire uuid e = do
    validate_option uuid (codes "sendmsg uuid")
    build_with (command_line (codes "sendmsg") (optional_word uuid)) e

  unfoldable pub to_wire_format : EslCommand → EslResult Bytes
  unfolding validate_no_newlines validate_option send_msg_wire build_with execute_event event_name
      filter_delete_args my_events_args linger_args format_simple_command
  to_wire_format (auth password) = do
    validate_no_newlines password (codes "password")
    ok (format_simple_command (codes "auth") (password ∷ []))
  to_wire_format (user_auth user password) = do
    validate_no_newlines user (codes "user")
    validate_no_newlines password (codes "password")
    ok (format_simple_command (codes "userauth") ((user ++ (codes ":" ++ password)) ∷ []))
  to_wire_format (api c) = do
    validate_no_newlines c (codes "api command")
    ok (format_simple_command (codes "api") (c ∷ []))
  to_wire_format (bg_api c) = do
    validate_no_newlines c (codes "bgapi command")
    ok (format_simple_command (codes "bgapi") (c ∷ []))
  to_wire_format (events format evs) = do
    validate_no_newlines format (codes "event format")
    validate_no_newlines evs (codes "event list")
    ok (format_simple_command (codes "event") (format ∷ evs ∷ []))
  to_wire_format (filter header value) = do
    validate_no_newlines header (codes "filter header")
    validate_no_newlines value (codes "filter value")
    ok (format_simple_command (codes "filter") (header ∷ value ∷ []))
  to_wire_format (send_msg uuid e) = send_msg_wire uuid e
  to_wire_format (execute app args uuid) = do
    validate_no_newlines app (codes "execute app")
    validate_option args (codes "execute args")
    validate_option uuid (codes "execute uuid")
    send_msg_wire uuid (execute_event app args)
  to_wire_format exit = ok (format_simple_command (codes "exit") [])
  to_wire_format (log level) = do
    validate_no_newlines level (codes "log level")
    ok (format_simple_command (codes "log") (level ∷ []))
  to_wire_format no_log = ok (format_simple_command (codes "nolog") [])
  to_wire_format no_op = ok (format_simple_command (codes "noop") [])
  to_wire_format (send_event e) = build_with (codes "sendevent " ++ event_name e) e
  to_wire_format (my_events format uuid) = do
    validate_no_newlines format (codes "myevents format")
    validate_option uuid (codes "myevents uuid")
    ok (format_simple_command (codes "myevents") (my_events_args format uuid))
  to_wire_format (linger timeout) =
      ok (format_simple_command (codes "linger") (linger_args timeout))
  to_wire_format no_linger = ok (format_simple_command (codes "nolinger") [])
  to_wire_format resume = ok (format_simple_command (codes "resume") [])
  to_wire_format (nix_event evs) = do
    validate_no_newlines evs (codes "nixevent list")
    ok (format_simple_command (codes "nixevent") (evs ∷ []))
  to_wire_format no_events = ok (format_simple_command (codes "noevents") [])
  to_wire_format (filter_delete header value) = do
    validate_no_newlines header (codes "filter delete header")
    validate_option value (codes "filter delete value")
    ok (format_simple_command (codes "filter") (filter_delete_args header value))
  to_wire_format (divert_events on) = ok (
      format_simple_command (codes "divert_events") ((if on then codes "on" else codes "off") ∷ []))
  to_wire_format (get_var name) = do
    validate_no_newlines name (codes "getvar name")
    ok (format_simple_command (codes "getvar") (name ∷ []))
  to_wire_format connect = ok (format_simple_command (codes "connect") [])
