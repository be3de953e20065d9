-- ===== src/Command/Debug.antt =====
-- The `Debug` output of `EslCommand` in src/command.rs, which logs may show: passwords are redacted.
use freeswitch_esl_rs.Prelude.{ℕ, ◌≡◌, refl, Bool, Option, List, [], ◌∷◌, Bytes, codes}
use freeswitch_esl_rs.Event.{EslEvent}
use freeswitch_esl_rs.Command.Wire.{EslCommand}
use freeswitch_esl_rs.Command.Wire

-- What is handed to the `Formatter` for a field.
data DebugValue : Type 0 where
  text : Bytes → DebugValue
  optional_text : Option Bytes → DebugValue
  optional_number : Option ℕ → DebugValue
  flag : Bool → DebugValue
  an_event : EslEvent → DebugValue

-- `debug_struct` with its fields, or a name alone.
record DebugStruct : Type 0 where
  name : Bytes
  fields : List (Bytes × DebugValue)

abbrev redaction : DebugValue
redaction = text (codes "[REDACTED]")

unfoldable debug_fmt : EslCommand → DebugStruct
debug_fmt (Wire.auth _) = record {
  name = codes "Auth";
  fields = (codes "password", redaction) ∷ [];
}
debug_fmt (Wire.user_auth user _) = record {
  name = codes "UserAuth";
  fields = (codes "user", text user) ∷ (codes "password", redaction) ∷ [];
}
debug_fmt (Wire.api c) = record { name = codes "Api"; fields = (codes "command", text c) ∷ [] }
debug_fmt (Wire.bg_api c) = record { name = codes "BgApi"; fields = (codes "command", text c) ∷ [] }
debug_fmt (Wire.events format evs) = record {
  name = codes "Events";
  fields = (codes "format", text format) ∷ (codes "events", text evs) ∷ [];
}
debug_fmt (Wire.filter h v) = record {
  name = codes "Filter";
  fields = (codes "header", text h) ∷ (codes "value", text v) ∷ [];
}
debug_fmt (Wire.send_msg uuid e) = record {
  name = codes "SendMsg";
  fields = (codes "uuid", optional_text uuid) ∷ (codes "event", an_event e) ∷ [];
}
debug_fmt (Wire.execute app args uuid) = record {
  name = codes "Execute";
  fields =
      (codes "app", text app)
      ∷ (codes "args", optional_text args)
      ∷ (codes "uuid", optional_text uuid)
      ∷ [];
}
debug_fmt Wire.exit = record { name = codes "Exit"; fields = [] }
debug_fmt (Wire.log level) = record {
  name = codes "Log";
  fields = (codes "level", text level) ∷ [];
}
debug_fmt Wire.no_log = record { name = codes "NoLog"; fields = [] }
debug_fmt Wire.no_op = record { name = codes "NoOp"; fields = [] }
debug_fmt (Wire.send_event e) = record {
  name = codes "SendEvent";
  fields = (codes "event", an_event e) ∷ [];
}
debug_fmt (Wire.my_events format uuid) = record {
  name = codes "MyEvents";
  fields = (codes "format", text format) ∷ (codes "uuid", optional_text uuid) ∷ [];
}
debug_fmt (Wire.linger seconds) = record {
  name = codes "Linger";
  fields = (codes "timeout", optional_number seconds) ∷ [];
}
debug_fmt Wire.no_linger = record { name = codes "NoLinger"; fields = [] }
debug_fmt Wire.resume = record { name = codes "Resume"; fields = [] }
debug_fmt (Wire.nix_event evs) = record {
  name = codes "NixEvent";
  fields = (codes "events", text evs) ∷ [];
}
debug_fmt Wire.no_events = record { name = codes "NoEvents"; fields = [] }
debug_fmt (Wire.filter_delete h v) = record {
  name = codes "FilterDelete";
  fields = (codes "header", text h) ∷ (codes "value", optional_text v) ∷ [];
}
debug_fmt (Wire.divert_events on) = record {
  name = codes "DivertEvents";
  fields = (codes "on", flag on) ∷ [];
}
debug_fmt (Wire.get_var name) = record {
  name = codes "GetVar";
  fields = (codes "name", text name) ∷ [];
}
debug_fmt Wire.connect = record { name = codes "Connect"; fields = [] }

-- The command with another password, if it has one.
abbrev with_password : Bytes → EslCommand → EslCommand
with_password s (Wire.auth _) = Wire.auth s
with_password s (Wire.user_auth user _) = Wire.user_auth user s
with_password s c = c

-- The output does not depend on the password.
debug_fmt-with_password : (s : Bytes) (c : EslCommand) → debug_fmt (with_password s c) ≡ debug_fmt c
unfolding debug_fmt
debug_fmt-with_password s (Wire.auth _) = refl
debug_fmt-with_password s (Wire.user_auth _ _) = refl
debug_fmt-with_password s _ = refl
