-- ===== src/Filter/Output.antt =====
-- What examples/event_filter.rs subscribes to, and how it writes the events that come.
use freeswitch_esl_rs.Prelude.{
  if◌then◌else◌, Result, ok, err, ◌>>=◌, ok_or, ◌≡◌, refl, Option, none, some, List, [], ◌∷◌, ◌++◌,
  map, Bytes, codes, unwrap_or,
}
use freeswitch_esl_rs.Text.Signed.{map_some}
use freeswitch_esl_rs.Error.{EslResult}
use freeswitch_esl_rs.Headers.{Headers}
use freeswitch_esl_rs.Event.Types.{EslEventType, wire_name, parse_event_type-wire_name}
use freeswitch_esl_rs.Event.{EventFormat, plain, json, EslEvent, unique_id}
use freeswitch_esl_rs.Event.Named.{caller_id_number}
use freeswitch_esl_rs.Command.Response.{EslResponse}
use freeswitch_esl_rs.Command.Wire.{EslCommand}
use freeswitch_esl_rs.Channel.{call_direction_name}
use freeswitch_esl_rs.Connection.{SharedState}
use freeswitch_esl_rs.Connection.Handshake.{AuthMethod, password_method, user_method, check_user}
use freeswitch_esl_rs.Connection.Methods.{Sent, subscribe_events, filter_events}
use freeswitch_esl_rs.Tracker.Tracked.{first_bytes, display_or}
use freeswitch_esl_rs.Filter.{Args, accepted, parse_args}
use freeswitch_esl_rs.Filter.Arguments.{IsUser}
use freeswitch_esl_rs.Filter.Accepted.{parse_args_iff}
use freeswitch_esl_rs.Event
use freeswitch_esl_rs.Event.Types
use freeswitch_esl_rs.Event.Named
use freeswitch_esl_rs.Channel.Accessors

unfoldable parse_event_type : Bytes → Result Bytes EslEventType
unfolding Types.parse_event_type
parse_event_type name = ok_or (Types.parse_event_type name) (codes "Unknown event type: " ++ name)

-- `collect` into a `Result`: the first error, if there is one.
unfoldable event_types : List Bytes → Result Bytes (List EslEventType)
unfolding parse_event_type
event_types [] = ok []
event_types (name ∷ names) = do t ← parse_event_type name; ts ← event_types names; ok (t ∷ ts)

unfoldable output_format : Args → EventFormat
output_format args = if args.json_output then json else plain

-- None where the first eight bytes of the UUID are not a text, at which the source panics.
unfoldable short_id : Option Bytes → Option Bytes
unfolding first_bytes
short_id none = some (codes "-")
short_id (some uuid) = first_bytes 8 uuid

unfoldable pub format_event_summary : EslEvent → Option Bytes
unfolding wire_name call_direction_name Named.caller_id_number Event.header Accessors.call_direction
    unique_id short_id
format_event_summary e =
    map_some
      (λ uuid.
        codes "["
        ++ (unwrap_or (map_some wire_name e.event_type) (codes "UNKNOWN")
            ++ (codes "] "
                ++ (unwrap_or (Named.caller_id_number e) (codes "-")
                    ++ (codes " -> "
                        ++ (unwrap_or (Event.header e (codes "Caller-Destination-Number"))
                              (codes "-")
                            ++ (codes " ("
                                ++ (display_or call_direction_name (Accessors.call_direction e)
                                    ++ (codes ") uuid:" ++ (uuid ++ codes "..."))))))))))
      (short_id (unique_id e))

module _ (order : Headers → Headers) where
  unfoldable full_lines : Headers → Bytes
  full_lines [] = []
  full_lines ((key, value) ∷ rest) =
      key ++ (codes ": " ++ (value ++ (codes "\n" ++ full_lines rest)))

  unfoldable full_body : Option Bytes → Bytes
  full_body none = []
  full_body (some body) = codes "\n" ++ (body ++ codes "\n")

  -- The headers are walked in the order of the map.
  unfoldable format_event_full : EslEvent → Bytes
  unfolding full_lines full_body
  format_event_full e =
      codes "---EVENT---\n"
      ++ (full_lines (order e.headers) ++ (full_body e.body ++ codes "-----------\n"))

  -- The crate serde_json is a parameter.
  module _ (to_json : Headers → Result Bytes Bytes) where
    abbrev or_empty_object : Result Bytes Bytes → Bytes
    or_empty_object (ok s) = s
    or_empty_object (err e) = codes "{}"

    unfoldable format_event_json : EslEvent → Bytes
    format_event_json e = or_empty_object (to_json e.headers)

    unfoldable output : Args → EslEvent → Option Bytes
    unfolding format_event_json format_event_full format_event_summary
    output args e =
        if args.json_output
        then some (format_event_json e)
        else if args.raw_output
        then some (format_event_full e)
        else if args.quiet
        then format_event_summary e
        else some (format_event_full e)

-- The names of event types, in capitals or not, are those of the types subscribed to.
event_types-wire_name : (ts : List EslEventType) → event_types (map wire_name ts) ≡ ok ts
unfolding event_types parse_event_type
event_types-wire_name [] = refl
event_types-wire_name (t ∷ ts) =
    rw (parse_event_type, Types.parse_event_type-wire_name t, event_types-wire_name ts) refl

-- Which of `connect` and `connect_with_user` is called.
unfoldable method_of : Args → AuthMethod
method_of args = elim args.user [
  | none ↦ password_method args.password
  | some user ↦ user_method user args.password
]

-- A user that was accepted on the command line is not refused by the client.
method_of-check_user :
    (args : List Bytes) (a : Args) → parse_args args ≡ accepted a → check_user (method_of a) ≡ ok tt
unfolding method_of check_user
method_of-check_user args a e = passes a.user ((parse_args_iff a).1 (args, e)).1
  where
    passes :
        (o : Option Bytes)
        → IsUser o
        → check_user
            (elim o [ none ↦ password_method a.password | some user ↦ user_method user a.password ])
          ≡ ok tt
    passes none h = refl
    passes (some u) h = rw h refl

-- `send_command`, in the shared state in which it is called.
module _ (send_command : SharedState → EslCommand → Sent EslResponse) where
  -- The filter is set if it was given.
  unfoldable filter_by : SharedState → Option Bytes → Option Bytes → Sent (Unit {0})
  unfolding filter_events
  filter_by shared (some header_name) (some value) =
      filter_events (send_command shared) header_name value
  filter_by shared (some header_name) none = (shared, none, ok tt)
  filter_by shared none value = (shared, none, ok tt)

  -- What was written, command by command.
  unfoldable then_filters :
      Args → Sent (Unit {0}) → SharedState × List (Option Bytes) × EslResult (Unit {0})
  unfolding filter_by
  then_filters args (shared, written, err e) = (shared, written ∷ [], err e)
  then_filters args (shared, written, ok _) =
      let (shared', written', r) = filter_by shared args.filter_header args.filter_value in
      (shared', written ∷ written' ∷ [], r)

  unfoldable subscribed :
      Args
      → List EslEventType
      → SharedState
      → SharedState × List (Option Bytes) × EslResult (Unit {0})
  unfolding then_filters subscribe_events output_format
  subscribed args types shared =
      then_filters args (subscribe_events (send_command shared) (output_format args) types)
