-- ===== src/Filter.antt =====
-- examples/event_filter.rs: the arguments of the program, the event types and the filter that it
-- subscribes to, and the text of an event.
pub mod Arguments
pub mod Choices
pub mod Accepted
pub mod Output
use freeswitch_esl_rs.Prelude.{
  if◌then◌else◌, Result, ok, err, ℕ, Bool, true, false, not, ◌||◌, Option, none, some, List, [],
  ◌∷◌, ◌++◌, Bytes, codes,
}
use freeswitch_esl_rs.Text.{bytes_eq, contains}
use freeswitch_esl_rs.Text.Decimal.{parse_unsigned}
use freeswitch_esl_rs.Commands.Originate.{default}

pub record Args : Type 0 where
  pub host : Bytes
  pub port : ℕ
  pub user : Option Bytes
  pub password : Bytes
  pub events : List Bytes
  pub filter_header : Option Bytes
  pub filter_value : Option Bytes
  pub json_output : Bool
  pub raw_output : Bool
  pub quiet : Bool

abbrev pub default_event : Bytes
default_event = codes "CHANNEL_CREATE"

-- `Args::default`.
abbrev pub default_args : Args
default_args = record {
  host = codes "localhost";
  port = 8021;
  user = none;
  password = codes "ClueCon";
  events = default_event ∷ [];
  filter_header = none;
  filter_value = none;
  json_output = false;
  raw_output = false;
  quiet = false;
}

-- How an argument is read: alone, or with the value behind it and the message if there is none.
pub data Choice : Type 0 where
  help unheard_of : Choice
  switch : (Args → Args) → Choice
  with_value : Bytes → (Args → Bytes → Result Bytes Args) → Choice

unfoldable pub set_port : Args → Bytes → Result Bytes Args
unfolding parse_unsigned
set_port r v = elim (parse_unsigned 65535 v) [
  | none ↦ err (codes "Invalid port number")
  | some n ↦ ok (record r { port = n })
]

unfoldable pub set_user : Args → Bytes → Result Bytes Args
unfolding contains
set_user r user =
    if contains user b'@'
    then ok (record r { user = some user })
    else err (
        codes "Invalid user format '"
        ++ (user ++ codes "': must be user@domain (e.g., admin@default)"))

abbrev pub is_one_of : Bytes → Bytes → Bytes → Bool
is_one_of arg short long = bytes_eq arg short || bytes_eq arg long

-- The arms of the match, in their order.
unfoldable pub choice : Bytes → Choice
unfolding set_port set_user
choice arg =
    if is_one_of arg (codes "-h") (codes "--help")
    then help
    else if is_one_of arg (codes "-H") (codes "--host")
    then with_value (codes "Missing host value") (λ r v. ok (record r { host = v }))
    else if is_one_of arg (codes "-P") (codes "--port")
    then with_value (codes "Missing port value") set_port
    else if is_one_of arg (codes "-p") (codes "--password")
    then with_value (codes "Missing password value") (λ r v. ok (record r { password = v }))
    else if is_one_of arg (codes "-u") (codes "--user")
    then with_value (codes "Missing user value") set_user
    else if is_one_of arg (codes "-e") (codes "--event")
    then with_value (codes "Missing event value")
        (λ r v. ok (record r { events = r.events ++ v ∷ [] }))
    else if is_one_of arg (codes "-f") (codes "--filter")
    then with_value (codes "Missing filter header")
        (λ r v. ok (record r { filter_header = some v }))
    else if is_one_of arg (codes "-v") (codes "--value")
    then with_value (codes "Missing filter value") (λ r v. ok (record r { filter_value = some v }))
    else if is_one_of arg (codes "-j") (codes "--json")
    then switch (λ r. record r { json_output = true })
    else if is_one_of arg (codes "-r") (codes "--raw")
    then switch (λ r. record r { raw_output = true })
    else if is_one_of arg (codes "-q") (codes "--quiet")
    then switch (λ r. record r { quiet = true })
    else unheard_of

-- `--help` prints the usage and ends the program.
pub data Parsed : Type 0 where
  usage : Parsed
  rejected : (message : Bytes) → Parsed
  accepted : Args → Parsed

abbrev pub is_given : Option Bytes → Bool
is_given none = false
is_given (some v) = true

-- The event types are those given, or the default one.
abbrev pub events_or_default : List Bytes → List Bytes
events_or_default [] = default_event ∷ []
events_or_default (e ∷ es) = e ∷ es

abbrev pub differ : Bool → Bool → Bool
differ true b = not b
differ false b = b

unfoldable pub completed : Args → Parsed
completed r =
    if differ (is_given r.filter_header) (is_given r.filter_value)
    then rejected (codes "Both --filter and --value must be specified together")
    else accepted (record r { events = events_or_default r.events })

abbrev pub unknown_argument : Bytes → Parsed
unknown_argument arg = rejected (codes "Unknown argument: " ++ arg)

-- The loop over the arguments behind the program's name.
unfoldable pub parse_from : Args → List Bytes → Parsed
unfolding completed choice
parse_from r [] = completed r
parse_from r (arg ∷ []) = elim (choice arg) [
  | help ↦ usage
  | unheard_of ↦ unknown_argument arg
  | switch set ↦ completed (set r)
  | with_value missing set ↦ rejected missing
]
parse_from r (arg ∷ v ∷ rest) = elim (choice arg) [
  | help ↦ usage
  | unheard_of ↦ unknown_argument arg
  | switch set ↦ parse_from (set r) (v ∷ rest)
  | with_value missing set ↦ elim (set r v) [
    | err message ↦ rejected message
    | ok r' ↦ parse_from r' rest
  ]
]

unfoldable pub parse_args : List Bytes → Parsed
unfolding parse_from
parse_args args = parse_from (record default_args { events = [] }) args
