-- ===== src/Connection/Methods.antt =====
-- The methods of `EslClient` in src/connection.rs that are one command each, and those that read or
-- set the shared state.
use freeswitch_esl_rs.Command.Wire
use freeswitch_esl_rs.Prelude.{
  if◌then◌else◌, ok, err, ◌>>=◌, ℕ, ◌%◌, ◌^◌, Bool, true, false, Option, none, some, List, [], ◌∷◌,
  map, Bytes, codes, unwrap_or,
}
use freeswitch_esl_rs.Text.Split.{join}
use freeswitch_esl_rs.Error.{EslResult}
use freeswitch_esl_rs.Event.Types.{EslEventType, wire_name}
use freeswitch_esl_rs.Event.{EventFormat, format_name, EslEvent}
use freeswitch_esl_rs.Command.Response.{EslResponse, reply_text, into_result}
use freeswitch_esl_rs.Command.Wire.{EslCommand}
use freeswitch_esl_rs.Connection.{SharedState}
use freeswitch_esl_rs.Event.Types

unfoldable event_types_to_string : List EslEventType → Bytes
unfolding wire_name join
event_types_to_string events = join (codes " ") (map wire_name events)

-- `events.contains(&EslEventType::All)`.
unfoldable contains_all : List EslEventType → Bool
contains_all [] = false
contains_all (Types.all ∷ events) = true
contains_all (_ ∷ events) = contains_all events

-- The shared state, the bytes written, and the result.
abbrev pub Sent {ℓ} : Type ℓ → Type ℓ
Sent A = SharedState × Option Bytes × EslResult A

-- `map(|_| ())`.
unfoldable discard : EslResult EslResponse → EslResult (Unit {0})
discard (ok r) = ok tt
discard (err e) = err e

-- `getvar`: the reply as it is.
unfoldable value_of : EslResult EslResponse → EslResult Bytes
unfolding reply_text
value_of (ok r) = ok (unwrap_or (reply_text r) [])
value_of (err e) = err e

unfoldable required : Sent EslResponse → Sent (Unit {0})
unfolding discard into_result
required (shared, written, r) = (shared, written, discard (r >>= into_result))

unfoldable valued : Sent EslResponse → Sent Bytes
unfolding value_of
valued (shared, written, r) = (shared, written, value_of r)

-- `send_command`, in the state in which the method is called.
module _ (send_command : EslCommand → Sent EslResponse) where
  unfoldable send_command_ok : EslCommand → Sent (Unit {0})
  unfolding required
  send_command_ok command = required (send_command command)

  unfoldable api : Bytes → Sent EslResponse
  api command = send_command (Wire.api command)

  unfoldable bgapi : Bytes → Sent EslResponse
  bgapi command = send_command (Wire.bg_api command)

  unfoldable subscribe_events_raw : EventFormat → Bytes → Sent (Unit {0})
  unfolding send_command_ok format_name
  subscribe_events_raw format events = send_command_ok (Wire.events (format_name format) events)

  unfoldable pub subscribe_events : EventFormat → List EslEventType → Sent (Unit {0})
  unfolding send_command_ok format_name event_types_to_string contains_all
  subscribe_events format events = send_command_ok (
      Wire.events (format_name format)
        (if contains_all events then codes "ALL" else event_types_to_string events))

  unfoldable pub filter_events : Bytes → Bytes → Sent (Unit {0})
  unfolding send_command_ok
  filter_events header value = send_command_ok (Wire.filter header value)

  unfoldable execute : Bytes → Option Bytes → Option Bytes → Sent EslResponse
  execute app args uuid = send_command (Wire.execute app args uuid)

  unfoldable sendmsg : Option Bytes → EslEvent → Sent EslResponse
  sendmsg uuid event = send_command (Wire.send_msg uuid event)

  unfoldable sendevent : EslEvent → Sent EslResponse
  sendevent event = send_command (Wire.send_event event)

  unfoldable myevents : EventFormat → Sent (Unit {0})
  unfolding send_command_ok format_name
  myevents format = send_command_ok (Wire.my_events (format_name format) none)

  unfoldable myevents_uuid : Bytes → EventFormat → Sent (Unit {0})
  unfolding send_command_ok format_name
  myevents_uuid uuid format = send_command_ok (Wire.my_events (format_name format) (some uuid))

  unfoldable linger : Option ℕ → Sent (Unit {0})
  unfolding send_command_ok
  linger timeout = send_command_ok (Wire.linger timeout)

  unfoldable nolinger : Sent (Unit {0})
  unfolding send_command_ok
  nolinger = send_command_ok Wire.no_linger

  unfoldable resume : Sent (Unit {0})
  unfolding send_command_ok
  resume = send_command_ok Wire.resume

  unfoldable connect_session : Sent EslResponse
  connect_session = send_command Wire.connect

  unfoldable nixevent_raw : Bytes → Sent (Unit {0})
  unfolding send_command_ok
  nixevent_raw events = send_command_ok (Wire.nix_event events)

  unfoldable nixevent : List EslEventType → Sent (Unit {0})
  unfolding nixevent_raw event_types_to_string
  nixevent events = nixevent_raw (event_types_to_string events)

  unfoldable noevents : Sent (Unit {0})
  unfolding send_command_ok
  noevents = send_command_ok Wire.no_events

  unfoldable filter_delete : Bytes → Option Bytes → Sent (Unit {0})
  unfolding send_command_ok
  filter_delete header value = send_command_ok (Wire.filter_delete header value)

  unfoldable filter_delete_all : Sent (Unit {0})
  unfolding filter_delete
  filter_delete_all = filter_delete (codes "all") none

  unfoldable divert_events : Bool → Sent (Unit {0})
  unfolding send_command_ok
  divert_events on = send_command_ok (Wire.divert_events on)

  unfoldable pub getvar : Bytes → Sent Bytes
  unfolding valued
  getvar name = valued (send_command (Wire.get_var name))

  unfoldable log : Bytes → Sent EslResponse
  log level = send_command (Wire.log level)

  unfoldable nolog : Sent EslResponse
  nolog = send_command Wire.no_log

  unfoldable noop : Sent EslResponse
  noop = send_command Wire.no_op

  unfoldable exit : Sent EslResponse
  exit = send_command Wire.exit

-- `duration.as_millis() as u64`: the cast keeps the lower 64 bits.
unfoldable set_liveness_timeout : ℕ → SharedState → SharedState
set_liveness_timeout millis shared = record shared { liveness_timeout_ms = millis % 2 ^ 64 }

unfoldable set_command_timeout : ℕ → SharedState → SharedState
set_command_timeout millis shared = record shared { command_timeout_ms = millis % 2 ^ 64 }
