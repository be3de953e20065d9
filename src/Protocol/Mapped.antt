-- ===== src/Protocol/Mapped.antt =====
-- The names of an event's headers differ, whatever message src/protocol.rs parsed it from.
use freeswitch_esl_rs.Prelude.{
  if◌then◌else◌, Bool-cases, Option-cases, take, drop, Result, ok, err, ◌>>=◌, ◌>>◌, reject_if,
  ok_or, ◌+◌, ◌≡◌, refl, sym, subst, inl, inr, Bool, true, false, not, Option, none, some, List, [],
  ◌∷◌, arith, Bytes, codes,
}
use freeswitch_esl_rs.Constants.{header_event_name}
use freeswitch_esl_rs.Text.{is_empty, find}
use freeswitch_esl_rs.Text.Trim.{trim, lines}
use freeswitch_esl_rs.Error.{protocol_error, EslResult}
use freeswitch_esl_rs.Protocol.{EslMessage, decode_value}
use freeswitch_esl_rs.Event.{EventFormat, EslEvent, set_event_type, set_header, set_body}
use freeswitch_esl_rs.Event.Sorted.{Distinct}
use freeswitch_esl_rs.Event.Keys.{Distinct-insert}
use freeswitch_esl_rs.Protocol.Events.{
  typed, sections, with_inner, is_event, event_line, event_lines, event_body, parse_plain_event,
  SerdeJson, value_str, object_headers, json_event, json_result, parse_json_event, XmlEvent,
  open_tag, close_tag, characters, markup, XmlReader, XmlState, tag_opened, tag_closed, text_read,
  xml_step, xml_steps, xml_end, xml_start, parse_xml_event, parse_event,
}
use freeswitch_esl_rs.Event

abbrev IsMap : EslEvent → Type 0
IsMap e = Distinct e.headers

set_header-IsMap : (e : EslEvent) (k v : Bytes) → IsMap e → IsMap (set_header e k v)
unfolding set_header
set_header-IsMap e k v d = Distinct-insert e.headers k v d

typed-headers : (e : EslEvent) → (typed e).headers ≡ e.headers
unfolding typed set_event_type
typed-headers e = elim (Option-cases (Event.header e header_event_name)) [
  | inl z ↦ rw (typed, z) refl
  | inr (n, s) ↦ rw (typed, s) refl
]

typed-IsMap : (e : EslEvent) → IsMap e → IsMap (typed e)
typed-IsMap e d = subst Distinct (sym (typed-headers e)) d

-- A result, if it is one, is a map.
abbrev pub IsMapResult : EslResult EslEvent → Type 0
IsMapResult (ok e) = Distinct e.headers
IsMapResult (err x) = Unit

bind-IsMapResult {ℓ} :
    {A : Type ℓ} (r : EslResult A) (f : A → EslResult EslEvent)
    → ((a : A) → IsMapResult (f a))
    → IsMapResult (r >>= f)
bind-IsMapResult (ok a) f h = h a
bind-IsMapResult (err e) f h = tt

then-IsMapResult :
    (r : EslResult (Unit {0})) (s : EslResult EslEvent) → IsMapResult s → IsMapResult (r >> s)
then-IsMapResult (ok a) s h = h
then-IsMapResult (err e) s h = tt

module _ (percent_decode : Bytes → Bytes) where
  event_line-IsMap :
      (line : Bytes) (e : EslEvent) → IsMap e → IsMap (event_line percent_decode line e)
  unfolding event_line
  event_line-IsMap line e d = elim (Option-cases (find line b':')) [
    | inl z ↦ rw (event_line, z) d
    | inr (i, s) ↦
        rw (event_line, s)
          (set_header-IsMap e (trim (take i line))
            (decode_value percent_decode (trim (drop (i + 1) line))) d)
  ]

  event_lines-IsMap :
      (ls : List Bytes) (e : EslEvent) → IsMap e → IsMap (event_lines percent_decode ls e)
  unfolding event_lines
  event_lines-IsMap [] e d = d
  event_lines-IsMap (l ∷ ls) e d =
      event_lines-IsMap ls (if is_empty (trim l) then e else event_line percent_decode (trim l) e)
        (chosen (is_empty (trim l)))
    where
      chosen : (b : Bool) → IsMap (if b then e else event_line percent_decode (trim l) e)
      chosen true = d
      chosen false = event_line-IsMap (trim l) e d

  with_inner-IsMap : (e : EslEvent) (b : Option Bytes) → IsMap e → IsMap (with_inner e b)
  unfolding with_inner set_body
  with_inner-IsMap e none d = d
  with_inner-IsMap e (some b) d = elim (Bool-cases (is_empty b)) [ inl y ↦ rw y d | inr n ↦ rw n d ]

  event_body-IsMap : (body : Bytes) → IsMap (event_body percent_decode body)
  unfolding event_body Event.new
  event_body-IsMap body =
      let ls = lines (sections body).0 in
      with_inner-IsMap (event_lines percent_decode ls Event.new) (sections body).1
        (event_lines-IsMap ls Event.new tt)

  parse_plain_event-IsMap : (m : EslMessage) → IsMapResult (parse_plain_event percent_decode m)
  unfolding parse_plain_event
  parse_plain_event-IsMap m =
      then-IsMapResult
        (reject_if (not (is_event m.message_type)) (protocol_error (codes "Not an event message")))
        (ok_or m.body (protocol_error (codes "Plain event missing body")) >>= λ body.
          ok (typed (event_body percent_decode body)))
        (bind-IsMapResult (ok_or m.body (protocol_error (codes "Plain event missing body")))
          (λ body. ok (typed (event_body percent_decode body)))
          (λ body. typed-IsMap (event_body percent_decode body) (event_body-IsMap body)))

module _ (J : SerdeJson) where
  object_headers-IsMap :
      (obj : List (Bytes × J.Value)) (e : EslEvent) → IsMap e → IsMap (object_headers J obj e)
  unfolding object_headers
  object_headers-IsMap [] e d = d
  object_headers-IsMap ((key, value) ∷ obj) e d =
      object_headers-IsMap obj (set_header e key (value_str J value))
        (set_header-IsMap e key (value_str J value) d)

  json_event-IsMap : (o : Option (List (Bytes × J.Value))) → IsMap (json_event J o)
  unfolding json_event Event.new
  json_event-IsMap none = tt
  json_event-IsMap (some obj) =
      typed-IsMap (object_headers J obj Event.new) (object_headers-IsMap obj Event.new tt)

  json_result-IsMap : (r : Result Bytes J.Value) → IsMapResult (json_result J r)
  unfolding json_result
  json_result-IsMap (err e) = tt
  json_result-IsMap (ok v) = json_event-IsMap (J.as_object v)

  parse_json_event-IsMap : (m : EslMessage) → IsMapResult (parse_json_event J m)
  unfolding parse_json_event
  parse_json_event-IsMap m =
      bind-IsMapResult (ok_or m.body (protocol_error (codes "JSON event missing body")))
        (λ body. json_result J (J.from_str body)) (λ body. json_result-IsMap (J.from_str body))

-- The event that the loop builds.
abbrev IsMapState : EslResult XmlState → Type 0
IsMapState (ok s) = Distinct s.parsed.headers
IsMapState (err e) = Unit

text_read-IsMap : (s : XmlState) (text : Bytes) → IsMap s.parsed → IsMap (text_read s text).parsed
unfolding text_read set_body
text_read-IsMap s text d = elim (Bool-cases s.in_body) [
  | inl y ↦ rw (text_read, y) d
  | inr n ↦ elim (Option-cases s.current_tag) [
    | inl z ↦ rw (text_read, n, z) d
    | inr (tag, t) ↦ rw (text_read, n, t) (set_header-IsMap s.parsed tag text d)
  ]
]

tag_opened-parsed : (s : XmlState) (tag : Bytes) → (tag_opened s tag).parsed ≡ s.parsed
unfolding tag_opened
tag_opened-parsed s tag = ground arith

tag_closed-parsed : (s : XmlState) (tag : Bytes) → (tag_closed s tag).parsed ≡ s.parsed
unfolding tag_closed
tag_closed-parsed s tag = ground arith

xml_step-IsMap : (s : XmlState) (x : XmlEvent) → IsMap s.parsed → IsMapState (xml_step s x)
unfolding xml_step
xml_step-IsMap s (open_tag tag) d = subst IsMap (sym (tag_opened-parsed s tag)) d
xml_step-IsMap s (close_tag tag) d = subst IsMap (sym (tag_closed-parsed s tag)) d
xml_step-IsMap s (characters (ok text)) d = text_read-IsMap s text d
xml_step-IsMap s (characters (err e)) d = tt
xml_step-IsMap s markup d = d

xml_steps-IsMap : (xs : List XmlEvent) (s : XmlState) → IsMap s.parsed → IsMapState (xml_steps s xs)
unfolding xml_steps
xml_steps-IsMap [] s d = d
xml_steps-IsMap (x ∷ xs) s d = on (xml_step s x) (xml_step-IsMap s x d) (xml_steps-IsMap xs)
  where
    on :
        (r : EslResult XmlState)
        → IsMapState r
        → ((t : XmlState) → IsMap t.parsed → IsMapState (xml_steps t xs))
        → IsMapState (r >>= λ t. xml_steps t xs)
    on (ok t) h next_steps = next_steps t h
    on (err e) h next_steps = tt

xml_end-IsMapResult :
    (r : EslResult XmlState) (e : Option Bytes)
    → IsMapState r
    → IsMapResult (r >>= λ s. xml_end s e)
unfolding xml_end
xml_end-IsMapResult (err x) e d = tt
xml_end-IsMapResult (ok s) none d = typed-IsMap s.parsed d
xml_end-IsMapResult (ok s) (some x) d = tt

parse_xml_event-IsMapResult :
    (read : XmlReader) (m : EslMessage) → IsMapResult (parse_xml_event read m)
unfolding parse_xml_event Event.new
parse_xml_event-IsMapResult read m =
    bind-IsMapResult (ok_or m.body (protocol_error (codes "XML event missing body")))
      (λ body. xml_steps xml_start (read body).0 >>= λ s. xml_end s (read body).1)
      (λ body.
        xml_end-IsMapResult (xml_steps xml_start (read body).0) (read body).1
          (xml_steps-IsMap (read body).0 xml_start tt))

-- Whatever message an event is parsed from, in each of the three formats, its headers have names that
-- differ, as a map's do.
pub parse_event-IsMapResult :
    (percent_decode : Bytes → Bytes) (J : SerdeJson) (read : XmlReader) (m : EslMessage)
    (format : EventFormat)
    → IsMapResult (parse_event percent_decode J read m format)
unfolding parse_event
parse_event-IsMapResult percent_decode J read m Event.plain =
    parse_plain_event-IsMap percent_decode m
parse_event-IsMapResult percent_decode J read m Event.json = parse_json_event-IsMap J m
parse_event-IsMapResult percent_decode J read m Event.xml = parse_xml_event-IsMapResult read m
