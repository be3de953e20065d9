-- ===== src/Event.antt =====
-- src/event.rs: events, their headers and their body. The crate `percent_encoding` is the parameter
-- `percent_encode` of the plain format. The children have the event types, and prove what the
-- stacked headers and the plain format do.
pub mod Types
pub mod Stack
pub mod Sorted
pub mod Keys
pub mod Named
use freeswitch_esl_rs.Prelude.{
  ltb, if◌then◌else◌, length, Bool, true, false, ◌||◌, Option, none, some, [], ◌∷◌, ◌++◌, Bytes,
  codes, unwrap_or,
}
use freeswitch_esl_rs.Constants.{
  header_content_length, header_event_name, header_unique_id, header_caller_uuid,
}
use freeswitch_esl_rs.Text.{bytes_eq}
use freeswitch_esl_rs.Text.Decimal.{decimal}
use freeswitch_esl_rs.Text.Case.{to_uppercase}
use freeswitch_esl_rs.Wire.{match_arms}
use freeswitch_esl_rs.Headers.{Headers, get, insert, remove}
use freeswitch_esl_rs.Variables.EslArray.{EslArray, push, unshift, to_string}
use freeswitch_esl_rs.Event.Types.{EslEventType, wire_name}
use freeswitch_esl_rs.Variables.EslArray

pub data EventFormat : Type 0 where
  plain json xml : EventFormat

unfoldable pub format_from_content_type : Bytes → EventFormat
unfolding bytes_eq
format_from_content_type ct =
    if bytes_eq ct (codes "text/event-json")
    then json
    else if bytes_eq ct (codes "text/event-xml")
    then xml
    else plain

unfoldable pub format_name : EventFormat → Bytes
format_name plain = codes "plain"
format_name json = codes "json"
format_name xml = codes "xml"

unfoldable pub format_from_str : Bytes → Option EventFormat
unfolding match_arms
format_from_str =
    match_arms ((codes "plain", plain) ∷ (codes "json", json) ∷ (codes "xml", xml) ∷ [])

pub data EslEventPriority : Type 0 where
  normal low high : EslEventPriority

unfoldable pub priority_name : EslEventPriority → Bytes
priority_name normal = codes "NORMAL"
priority_name low = codes "LOW"
priority_name high = codes "HIGH"

unfoldable pub priority_from_str : Bytes → Option EslEventPriority
unfolding match_arms to_uppercase
priority_from_str s =
    match_arms ((codes "NORMAL", normal) ∷ (codes "LOW", low) ∷ (codes "HIGH", high) ∷ [])
      (to_uppercase s)

pub record EslEvent : Type 0 where
  pub event_type : Option EslEventType
  pub headers : Headers
  pub body : Option Bytes

unfoldable pub new : EslEvent
new = record { event_type = none; headers = []; body = none }

unfoldable pub with_type : EslEventType → EslEvent
with_type t = record { event_type = some t; headers = []; body = none }

unfoldable pub set_event_type : EslEvent → Option EslEventType → EslEvent
set_event_type e t = record e { event_type = t }

unfoldable pub header : EslEvent → Bytes → Option Bytes
header e name = get e.headers name

unfoldable pub set_header : EslEvent → Bytes → Bytes → EslEvent
set_header e name value = record e { headers = insert e.headers name value }

unfoldable pub del_header : EslEvent → Bytes → EslEvent × Option Bytes
del_header e name = (record e { headers = remove e.headers name }, get e.headers name)

unfoldable pub set_body : EslEvent → Bytes → EslEvent
set_body e body = record e { body = some body }

unfoldable pub set_priority : EslEvent → EslEventPriority → EslEvent
unfolding set_header priority_name
set_priority e p = set_header e (codes "priority") (priority_name p)

unfoldable pub priority : EslEvent → Option EslEventPriority
unfolding header priority_from_str
priority e = elim (header e (codes "priority")) [ none ↦ none | some s ↦ priority_from_str s ]

-- The array that a header holds: its items, or the plain value as one item.
unfoldable pub stacked_array : Bytes → EslArray
stacked_array existing = unwrap_or (EslArray.parse existing) (record { items = existing ∷ [] })

-- What `stack_header` stores, by what the header held.
unfoldable pub stacked_value : Option Bytes → Bytes → (EslArray → Bytes → EslArray) → Bytes
unfolding stacked_array
stacked_value none value op = value
stacked_value (some existing) value op = EslArray.to_string (op (stacked_array existing) value)

unfoldable pub stack_header : EslEvent → Bytes → Bytes → (EslArray → Bytes → EslArray) → EslEvent
unfolding stacked_value set_header
stack_header e name value op = set_header e name (stacked_value (get e.headers name) value op)

unfoldable pub push_header : EslEvent → Bytes → Bytes → EslEvent
unfolding stack_header
push_header e name value = stack_header e name value EslArray.push

unfoldable pub unshift_header : EslEvent → Bytes → Bytes → EslEvent
unfolding stack_header
unshift_header e name value = stack_header e name value EslArray.unshift

unfoldable pub unique_id : EslEvent → Option Bytes
unfolding header
unique_id e = elim (header e header_unique_id) [
  | some id ↦ some id
  | none ↦ header e header_caller_uuid
]

unfoldable pub variable : EslEvent → Bytes → Option Bytes
unfolding header
variable e name = header e (codes "variable_" ++ name)

-- Event types are equal if their wire names are, since those tell them apart.
unfoldable pub is_event_type : EslEvent → EslEventType → Bool
unfolding wire_name bytes_eq
is_event_type e t = elim e.event_type [
  | none ↦ false
  | some u ↦ bytes_eq (wire_name u) (wire_name t)
]

-- The order of `String`: by the first byte that differs, and a prefix comes first.
unfoldable pub bytes_le : Bytes → Bytes → Bool
bytes_le [] b = true
bytes_le (x ∷ a) [] = false
bytes_le (x ∷ a) (y ∷ b) = if ltb x y then true else if ltb y x then false else bytes_le a b

unfoldable pub insert_sorted : Bytes × Bytes → Headers → Headers
unfolding bytes_le
insert_sorted h [] = h ∷ []
insert_sorted h (g ∷ m) = if bytes_le h.0 g.0 then h ∷ g ∷ m else g ∷ insert_sorted h m

-- `sort_by_key`: the keys of a map differ, so the sorted order is one.
unfoldable pub sort_by_key : Headers → Headers
unfolding insert_sorted
sort_by_key [] = []
sort_by_key (h ∷ m) = insert_sorted h (sort_by_key m)

-- `filter`: neither `Event-Name` nor `Content-Length`.
unfoldable pub other_headers : Headers → Headers
unfolding bytes_eq
other_headers [] = []
other_headers ((k, v) ∷ m) =
    let rest = other_headers m in
    if bytes_eq k header_event_name || bytes_eq k header_content_length then rest else (k, v) ∷ rest

module _ (percent_encode : Bytes → Bytes) where
  -- `writeln!(result, "{}: {}", key, percent_encode(…))`.
  unfoldable pub plain_line : Bytes → Bytes → Bytes
  plain_line k v = k ++ (codes ": " ++ (percent_encode v ++ codes "\n"))

  unfoldable pub plain_lines : Headers → Bytes
  unfolding plain_line
  plain_lines [] = []
  plain_lines ((k, v) ∷ m) = plain_line k v ++ plain_lines m

  unfoldable pub plain_body : Option Bytes → Bytes
  unfolding decimal
  plain_body none = codes "\n"
  plain_body (some body) =
      codes "Content-Length: " ++ (decimal (length body) ++ (codes "\n" ++ (codes "\n" ++ body)))

  unfoldable pub plain_name : Option Bytes → Bytes
  unfolding plain_line
  plain_name none = []
  plain_name (some event_name) = plain_line (codes "Event-Name") event_name

  unfoldable pub to_plain_format : EslEvent → Bytes
  unfolding plain_name plain_lines plain_body get sort_by_key other_headers
  to_plain_format e =
      plain_name (get e.headers (codes "Event-Name"))
      ++ (plain_lines (sort_by_key (other_headers e.headers)) ++ plain_body e.body)
