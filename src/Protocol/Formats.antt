-- ===== src/Protocol/Formats.antt =====
-- The JSON and the XML format of src/protocol.rs: what an event in either is read as.
use freeswitch_esl_rs.Prelude.{
  All, ok, err, ◌>>=◌, ◌≡◌, refl, ap, ◌∙◌, ◌≢◌, true, false, ◌++◌, Option, none, some, List, [],
  ◌∷◌, Bytes, codes,
}
use freeswitch_esl_rs.Text.Search.{bytes_eq_ne}
use freeswitch_esl_rs.Headers.{Headers, insert}
use freeswitch_esl_rs.Protocol.{event}
use freeswitch_esl_rs.Event.{json, xml, EslEvent, set_header, set_body}
use freeswitch_esl_rs.Event.Keys.{inserts}
use freeswitch_esl_rs.Protocol.Events.{
  typed, SerdeJson, object_headers, json_event, json_result, XmlEvent, open_tag, close_tag,
  characters, markup, XmlReader, XmlState, tag_opened, tag_closed, text_read, xml_steps, xml_end,
  xml_start, parse_event,
}
use freeswitch_esl_rs.Event

-- The event that some headers and a body stand for.
abbrev pub event_from : Headers → Option Bytes → EslEvent
event_from hs body = typed (record { event_type = none; headers = inserts [] hs; body = body })

-- Markup that stands between the elements: text, such as the indentation, comments and the like.
abbrev pub IsBetween : XmlEvent → Type 0
IsBetween (characters (ok _)) = Unit
IsBetween markup = Unit
IsBetween _ = ⊥

-- The elements of some headers, with whatever stands between them. An element without a text has no
-- event for one, and may close itself.
pub data Elements : List XmlEvent → Headers → Type 0 where
  between :
      (x : XmlEvent) {xs : List XmlEvent} {hs : Headers}
      → IsBetween x
      → Elements xs hs
      → Elements (x ∷ xs) hs
  no_more : Elements [] []
  with_text :
      (k v : Bytes) {xs : List XmlEvent} {hs : Headers}
      → v ≢ []
      → Elements xs hs
      → Elements (open_tag k ∷ characters (ok v) ∷ close_tag k ∷ xs) ((k, v) ∷ hs)
  without_text :
      (k : Bytes) {xs : List XmlEvent} {hs : Headers}
      → Elements xs hs
      → Elements (open_tag k ∷ close_tag k ∷ xs) ((k, []) ∷ hs)
  closes_itself :
      (k : Bytes) {xs : List XmlEvent} {hs : Headers}
      → Elements xs hs
      → Elements (markup ∷ xs) ((k, []) ∷ hs)

-- What stands behind the headers: the element of the body, if there is one, and the end.
pub data Ending : List XmlEvent → Option Bytes → Type 0 where
  gap :
      (x : XmlEvent) {xs : List XmlEvent} {b : Option Bytes}
      → IsBetween x
      → Ending xs b
      → Ending (x ∷ xs) b
  ends : Ending (close_tag (codes "event") ∷ []) none
  body_text :
      (v : Bytes) {xs : List XmlEvent}
      → v ≢ []
      → Ending xs none
      → Ending
          (open_tag (codes "body") ∷ characters (ok v) ∷ close_tag (codes "body") ∷ xs)
          (some v)
  body_empty :
      {xs : List XmlEvent}
      → Ending xs none
      → Ending (open_tag (codes "body") ∷ close_tag (codes "body") ∷ xs) (some [])

-- A document of some headers and a body.
pub data Document : List XmlEvent → Headers → Option Bytes → Type 0 where
  document :
      (declaration space : List XmlEvent) {headers ending : List XmlEvent} {hs : Headers}
      {body : Option Bytes}
      → All IsBetween declaration
      → All IsBetween space
      → Elements headers hs
      → Ending ending body
      → Document
          (declaration
            ++ open_tag (codes "event")
              ∷ (space
                  ++ open_tag (codes "headers")
                    ∷ (headers ++ close_tag (codes "headers") ∷ ending)))
          hs
          body

-- The headers that have a value, and a body that has a text.
abbrev pub with_values : Headers → Headers
with_values [] = []
with_values ((k, []) ∷ hs) = with_values hs
with_values ((k, c ∷ v) ∷ hs) = (k, c ∷ v) ∷ with_values hs

abbrev pub with_text_only : Option Bytes → Option Bytes
with_text_only (some (c ∷ s)) = some (c ∷ s)
with_text_only _ = none

-- A name that is not that of the markup around it.
abbrev pub IsTag : Bytes × Bytes → Type 0
IsTag e = (e.0 ≢ codes "headers") × (e.0 ≢ codes "body")

abbrev reading : EslEvent → XmlState
reading e = record { parsed = e; in_headers = true; current_tag = none; in_body = false }

tag_opened-header :
    (e : EslEvent) (k v : Bytes)
    → IsTag (k, v)
    → tag_opened (reading e) k ≡ record (reading e) { current_tag = some k }
unfolding tag_opened
tag_opened-header e k v h =
    rw (bytes_eq_ne k (codes "headers") h.0, tag_opened)
      (rw (bytes_eq_ne k (codes "body") h.1) refl)

tag_closed-header :
    (e : EslEvent) (k v : Bytes)
    → IsTag (k, v)
    → tag_closed (record (reading e) { current_tag = some k }) k ≡ reading e
unfolding tag_closed
tag_closed-header e k v h =
    rw (bytes_eq_ne k (codes "headers") h.0, tag_closed)
      (rw (bytes_eq_ne k (codes "body") h.1) refl)

xml_steps-between :
    (s : XmlState) (x : XmlEvent) (rest : List XmlEvent)
    → s.current_tag ≡ none
    → s.in_body ≡ false
    → IsBetween x
    → xml_steps s (x ∷ rest) ≡ xml_steps s rest
unfolding xml_steps text_read
xml_steps-between s (characters (ok v)) rest t b h = simp (b, t) refl
xml_steps-between s markup rest t b h = refl
xml_steps-between s (open_tag k) rest t b h = absurd h
xml_steps-between s (close_tag k) rest t b h = absurd h
xml_steps-between s (characters (err e)) rest t b h = absurd h

xml_steps-gap :
    (s : XmlState) (xs rest : List XmlEvent)
    → s.current_tag ≡ none
    → s.in_body ≡ false
    → All IsBetween xs
    → xml_steps s (xs ++ rest) ≡ xml_steps s rest
xml_steps-gap s [] rest t b h = refl
xml_steps-gap s (x ∷ xs) rest t b h =
    xml_steps-between s x (xs ++ rest) t b h.0 ∙ xml_steps-gap s xs rest t b h.1

xml_steps-value :
    (e : EslEvent) (k v : Bytes) (rest : List XmlEvent)
    → IsTag (k, v)
    → xml_steps (reading e) (open_tag k ∷ characters (ok v) ∷ close_tag k ∷ rest)
      ≡ xml_steps (reading (record e { headers = insert e.headers k v })) rest
unfolding xml_steps set_header
xml_steps-value e k v rest h =
    ap (λ s. xml_steps s (characters (ok v) ∷ close_tag k ∷ rest)) (tag_opened-header e k v h)
    ∙ ap (λ s. xml_steps s rest)
        (tag_closed-header (record e { headers = insert e.headers k v }) k v h)

xml_steps-empty :
    (e : EslEvent) (k : Bytes) (rest : List XmlEvent)
    → IsTag (k, [])
    → xml_steps (reading e) (open_tag k ∷ close_tag k ∷ rest) ≡ xml_steps (reading e) rest
unfolding xml_steps
xml_steps-empty e k rest h =
    ap (λ s. xml_steps s (close_tag k ∷ rest)) (tag_opened-header e k [] h)
    ∙ ap (λ s. xml_steps s rest) (tag_closed-header e k [] h)

-- The elements of the headers insert those that have a value.
xml_steps-Elements :
    {xs : List XmlEvent} {hs : Headers} (e : EslEvent) (rest : List XmlEvent)
    → Elements xs hs
    → All IsTag hs
    → xml_steps (reading e) (xs ++ rest)
      ≡ xml_steps (reading (record e { headers = inserts e.headers (with_values hs) })) rest
unfolding inserts
xml_steps-Elements e rest no_more h = refl
xml_steps-Elements e rest (between x {xs = xs} b d) h =
    xml_steps-between (reading e) x (xs ++ rest) refl refl b ∙ xml_steps-Elements e rest d h
xml_steps-Elements e rest (with_text k [] ne d) h = absurd (ne refl)
xml_steps-Elements e rest (with_text k (c ∷ v) {xs = xs} ne d) h =
    xml_steps-value e k (c ∷ v) (xs ++ rest) h.0
    ∙ xml_steps-Elements (record e { headers = insert e.headers k (c ∷ v) }) rest d h.1
xml_steps-Elements e rest (without_text k {xs = xs} d) h =
    xml_steps-empty e k (xs ++ rest) h.0 ∙ xml_steps-Elements e rest d h.1
xml_steps-Elements e rest (closes_itself k {xs = xs} d) h =
    xml_steps-between (reading e) markup (xs ++ rest) refl refl tt ∙ xml_steps-Elements e rest d h.1

abbrev unnamed : Headers → Option Bytes → EslEvent
unnamed hs body = record { event_type = none; headers = hs; body = body }

-- The body that was read last.
abbrev or_body : Option Bytes → Option Bytes → Option Bytes
or_body (some b) old = some b
or_body none old = old

or_body-none : (b : Option Bytes) → or_body b none ≡ b
or_body-none (some b) = refl
or_body-none none = refl

abbrev closing : EslEvent → XmlState
closing e = record { parsed = e; in_headers = false; current_tag = none; in_body = false }

-- Behind the headers, the body is set.
xml_steps-Ending :
    {xs : List XmlEvent} {body : Option Bytes} (e : EslEvent)
    → Ending xs body
    → xml_steps (closing e) xs
      ≡ ok (closing (record e { body = or_body (with_text_only body) e.body }))
unfolding xml_steps set_body
xml_steps-Ending e (gap x {xs = xs} b d) =
    xml_steps-between (closing e) x xs refl refl b ∙ xml_steps-Ending e d
xml_steps-Ending e ends = refl
xml_steps-Ending e (body_text [] ne d) = absurd (ne refl)
xml_steps-Ending e (body_text (c ∷ v) ne d) = xml_steps-Ending (record e { body = some (c ∷ v) }) d
xml_steps-Ending e (body_empty d) = xml_steps-Ending e d

xml_steps-Document :
    {xs : List XmlEvent} {hs : Headers} {body : Option Bytes}
    → Document xs hs body
    → All IsTag hs
    → xml_steps xml_start xs
      ≡ ok (closing (unnamed (inserts [] (with_values hs)) (with_text_only body)))
unfolding xml_steps Event.new
xml_steps-Document {hs = hs} {body = body}
      (document declaration space {headers = headers} {ending = ending} d s els end') h =
    let tail = close_tag (codes "headers") ∷ ending in
    let start = closing (unnamed [] none) in
    let read = unnamed (inserts [] (with_values hs)) none in
    xml_steps-gap start declaration _ refl refl d
    ∙ xml_steps-gap start space _ refl refl s
    ∙ xml_steps-Elements (unnamed [] none) tail els h
    ∙ xml_steps-Ending read end'
    ∙ ap (λ b. ok (closing (record read { body = b }))) (or_body-none (with_text_only body))

module _ (J : SerdeJson) where
  -- An object whose values are these texts.
  abbrev pub IsObject : List (Bytes × J.Value) → Headers → Type 0
  IsObject [] [] = Unit
  IsObject ((k, x) ∷ obj) ((j, v) ∷ hs) = (k ≡ j) × (J.as_str x ≡ some v) × IsObject obj hs
  IsObject _ _ = ⊥

  object_headers-IsObject :
      (obj : List (Bytes × J.Value)) (hs : Headers) (e : EslEvent)
      → IsObject obj hs
      → object_headers J obj e ≡ record e { headers = inserts e.headers hs }
  unfolding object_headers inserts set_header
  object_headers-IsObject [] [] e h = refl
  object_headers-IsObject [] (a ∷ hs) e h = absurd h
  object_headers-IsObject (a ∷ obj) [] e h = absurd h
  object_headers-IsObject ((k, x) ∷ obj) ((j, v) ∷ hs) e h =
      rw (h.1)
        (rw h.0 (object_headers-IsObject obj hs (record e { headers = insert e.headers j v }) h.2))

module _ (percent_decode : Bytes → Bytes) (J : SerdeJson) (read : XmlReader) where
  -- The JSON object of some headers is read as the event of these headers, and an XML document of
  -- the same headers, with a body or without and with whatever text, comments or other markup between
  -- its elements, as the event of those of them that have a value, with the body if it has a text: an
  -- element without a text inserts no header. Each header is inserted in turn, and the type is what
  -- `Event-Name` names. No header is named `headers` or `body`.
  pub parse_event_lem :
      (json_text xml_text : Bytes) (value : J.Value) (obj : List (Bytes × J.Value))
      (hs envelope : Headers) (body : Option Bytes) (markup_events : List XmlEvent)
      → J.from_str json_text ≡ ok value
      → J.as_object value ≡ some obj
      → IsObject J obj hs
      → read xml_text ≡ (markup_events, none)
      → Document markup_events hs body
      → All IsTag hs
      → (parse_event percent_decode J read
            (record { message_type = event; headers = envelope; body = some json_text })
            json
          ≡ ok (event_from hs none))
        × (parse_event percent_decode J read
              (record { message_type = event; headers = envelope; body = some xml_text })
              xml
            ≡ ok (event_from (with_values hs) (with_text_only body)))
  unfolding parse_event json_result json_event xml_end Event.new
  parse_event_lem json_text xml_text value obj hs envelope body xs p q o r d h = (
    ap (json_result J) p
        ∙ ap (λ o. ok (json_event J o)) q
        ∙ ap (λ e. ok (typed e)) (object_headers-IsObject J obj hs (unnamed [] none) o),
    ap (λ x. xml_steps xml_start x.0 >>= λ t. xml_end t x.1) r
        ∙ ap (λ x. x >>= λ t. xml_end t none) (xml_steps-Document d h),
  )
