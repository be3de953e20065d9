-- ===== src/Protocol/Events.antt =====
-- `parse_event` of src/protocol.rs: the event inside a message, in the plain, the JSON and the XML
-- format. The crates serde_json and quick_xml are the parameters `SerdeJson` and `XmlReader`.
use freeswitch_esl_rs.Prelude.{
  if◌then◌else◌, take, drop, Result, ok, err, ◌>>=◌, ◌>>◌, reject_if, ok_or, ◌+◌, Bool, true, false,
  not, Option, none, some, List, [], ◌∷◌, Bytes, codes, unwrap_or,
}
use freeswitch_esl_rs.Constants.{header_terminator, header_event_name}
use freeswitch_esl_rs.Text.{bytes_eq, is_empty, find}
use freeswitch_esl_rs.Text.Trim.{trim, lines}
use freeswitch_esl_rs.Error.{protocol_error, json_error, xml_error, EslResult}
use freeswitch_esl_rs.Buffer.Pattern.{index_of}
use freeswitch_esl_rs.Protocol.{MessageType, event, EslMessage, decode_value}
use freeswitch_esl_rs.Event.Types.{parse_event_type}
use freeswitch_esl_rs.Event.{
  EventFormat, plain, json, xml, EslEvent, set_event_type, header, set_header, set_body,
}
use freeswitch_esl_rs.Event

-- `set_event_type` where the event has a name.
unfoldable pub typed : EslEvent → EslEvent
unfolding header set_event_type parse_event_type
typed e = elim (header e header_event_name) [
  | none ↦ e
  | some event_name ↦ set_event_type e (parse_event_type event_name)
]

-- The event headers, and what stands behind the first blank line.
unfoldable pub sections : Bytes → Bytes × Option Bytes
unfolding index_of
sections body = elim (index_of body header_terminator) [
  | none ↦ (body, none)
  | some i ↦ (take i body, some (drop (i + 2) body))
]

unfoldable pub with_inner : EslEvent → Option Bytes → EslEvent
unfolding set_body
with_inner e none = e
with_inner e (some ib) = if is_empty ib then e else set_body e ib

abbrev pub is_event : MessageType → Bool
is_event event = true
is_event _ = false

module _ (percent_decode : Bytes → Bytes) where
  -- A line that is trimmed: one without a colon is passed over.
  unfoldable pub event_line : Bytes → EslEvent → EslEvent
  unfolding find trim decode_value set_header
  event_line line e = elim (find line b':') [
    | none ↦ e
    | some colon_pos ↦
        set_header e (trim (take colon_pos line))
          (decode_value percent_decode (trim (drop (colon_pos + 1) line)))
  ]

  unfoldable pub event_lines : List Bytes → EslEvent → EslEvent
  unfolding event_line trim
  event_lines [] e = e
  event_lines (raw_line ∷ rest) e =
      let line = trim raw_line in event_lines rest (if is_empty line then e else event_line line e)

  unfoldable pub event_body : Bytes → EslEvent
  unfolding Event.new event_lines lines sections with_inner
  event_body body =
      let parts = sections body in with_inner (event_lines (lines parts.0) Event.new) parts.1

  unfoldable pub parse_plain_event : EslMessage → EslResult EslEvent
  unfolding event_body typed
  parse_plain_event m = do
    reject_if (not (is_event m.message_type)) (protocol_error (codes "Not an event message"))
    body ← ok_or m.body (protocol_error (codes "Plain event missing body"))
    ok (typed (event_body body))

-- What the source calls of `serde_json::Value`: an object is the list of its entries, in the order
-- in which they are walked.
pub record SerdeJson : Type 1 where
  pub Value : Type 0
  pub from_str : Bytes → Result Bytes Value
  pub as_object : Value → Option (List (Bytes × Value))
  pub as_str : Value → Option Bytes
  pub to_string : Value → Bytes

module _ (J : SerdeJson) where
  unfoldable pub value_str : J.Value → Bytes
  value_str value = unwrap_or (J.as_str value) (J.to_string value)

  unfoldable pub object_headers : List (Bytes × J.Value) → EslEvent → EslEvent
  unfolding value_str set_header
  object_headers [] e = e
  object_headers ((key, value) ∷ obj) e = object_headers obj (set_header e key (value_str value))

  unfoldable pub json_event : Option (List (Bytes × J.Value)) → EslEvent
  unfolding Event.new object_headers typed
  json_event none = Event.new
  json_event (some obj) = typed (object_headers obj Event.new)

  unfoldable pub json_result : Result Bytes J.Value → EslResult EslEvent
  unfolding json_event
  json_result (err e) = err (json_error e)
  json_result (ok json_value) = ok (json_event (J.as_object json_value))

  unfoldable pub parse_json_event : EslMessage → EslResult EslEvent
  unfolding json_result
  parse_json_event m = do
    body ← ok_or m.body (protocol_error (codes "JSON event missing body"))
    json_result (J.from_str body)

-- What `read_event` of quick_xml returns in front of `Eof` or an error: the tags by their names, and
-- a text with what `unescape` makes of it. All other markup is passed over.
pub data XmlEvent : Type 0 where
  open_tag : Bytes → XmlEvent
  close_tag : Bytes → XmlEvent
  characters : Result Bytes Bytes → XmlEvent
  markup : XmlEvent

-- The calls of `read_event` on a text: the events, and the error if it is not `Eof` that ends them.
abbrev pub XmlReader : Type 0
XmlReader = Bytes → List XmlEvent × Option Bytes

-- The variables of the loop.
pub record XmlState : Type 0 where
  pub parsed : EslEvent
  pub in_headers : Bool
  pub current_tag : Option Bytes
  pub in_body : Bool

unfoldable pub tag_opened : XmlState → Bytes → XmlState
unfolding bytes_eq
tag_opened s tag =
    if bytes_eq tag (codes "headers")
    then record s { in_headers = true }
    else if bytes_eq tag (codes "body")
    then record s { in_body = true }
    else if s.in_headers
    then record s { current_tag = some tag }
    else s

unfoldable pub tag_closed : XmlState → Bytes → XmlState
unfolding bytes_eq
tag_closed s tag =
    if bytes_eq tag (codes "headers")
    then record s { in_headers = false }
    else if bytes_eq tag (codes "body")
    then record s { in_body = false }
    else if s.in_headers
    then record s { current_tag = none }
    else s

unfoldable pub text_read : XmlState → Bytes → XmlState
unfolding set_body set_header
text_read s text =
    if s.in_body then record s { parsed = set_body s.parsed text } else elim s.current_tag [
      | none ↦ s
      | some tag ↦ record s { parsed = set_header s.parsed tag text }
    ]

unfoldable pub xml_step : XmlState → XmlEvent → EslResult XmlState
unfolding tag_opened tag_closed text_read
xml_step s (open_tag tag) = ok (tag_opened s tag)
xml_step s (close_tag tag) = ok (tag_closed s tag)
xml_step s (characters (ok text)) = ok (text_read s text)
xml_step s (characters (err e)) = err (xml_error e)
xml_step s markup = ok s

unfoldable pub xml_steps : XmlState → List XmlEvent → EslResult XmlState
unfolding xml_step
xml_steps s [] = ok s
xml_steps s (x ∷ xs) = do t ← xml_step s x; xml_steps t xs

-- How the loop ends: `Eof`, or an error of the reader.
unfoldable pub xml_end : XmlState → Option Bytes → EslResult EslEvent
unfolding typed
xml_end s none = ok (typed s.parsed)
xml_end s (some e) = err (xml_error e)

abbrev pub xml_start : XmlState
unfolding Event.new
xml_start = record { parsed = Event.new; in_headers = false; current_tag = none; in_body = false }

unfoldable pub parse_xml_event : XmlReader → EslMessage → EslResult EslEvent
unfolding xml_steps xml_end
parse_xml_event read m = do
  body ← ok_or m.body (protocol_error (codes "XML event missing body"))
  let events = read body
  s ← xml_steps xml_start events.0
  xml_end s events.1

module _ (percent_decode : Bytes → Bytes) (J : SerdeJson) (read : XmlReader) where
  unfoldable pub parse_event : EslMessage → EventFormat → EslResult EslEvent
  unfolding parse_plain_event parse_json_event parse_xml_event
  parse_event m plain = parse_plain_event percent_decode m
  parse_event m json = parse_json_event J m
  parse_event m xml = parse_xml_event read m
