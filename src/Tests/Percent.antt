-- ===== src/Tests/Percent.antt =====
-- A percent coding, as percent_encoding has it, and the theorems on event formats at concrete inputs.
use freeswitch_esl_rs.Event.Types
use freeswitch_esl_rs.Prelude.{
  ltb, leb, ◌==◌, if◌then◌else◌, Bool-cases, All, ok, ℕ, ◌+◌, ◌-◌, ◌*◌, ◌/◌, ◌%◌, ◌<◌, ◌≡◌, refl,
  sym, ap, ◌∙◌, ◌≢◌, inl, inr, Bool, true, false, ◌&&◌, ◌||◌, Option, none, some, List, [], ◌∷◌,
  ◌++◌, arith, Bytes, codes, Lacks,
}
use freeswitch_esl_rs.Text.{starts_with}
use freeswitch_esl_rs.Text.Utf8.{from_utf8}
use freeswitch_esl_rs.Headers.{get, insert}
use freeswitch_esl_rs.Protocol.{event}
use freeswitch_esl_rs.Event.{json, xml, EslEvent, to_plain_format}
use freeswitch_esl_rs.Protocol.Events.{
  parse_plain_event, SerdeJson, XmlEvent, open_tag, close_tag, characters, markup, XmlReader,
  parse_event,
}
use freeswitch_esl_rs.Protocol.Written.{is_encoded, IsPercentCoding, IsEntry, Restores}
use freeswitch_esl_rs.Protocol.RoundTrip.{parse_plain_event-to_plain_format}
use freeswitch_esl_rs.Protocol.Formats.{
  event_from, between, no_more, with_text, without_text, gap, ends, body_text, Document, document,
  with_values, with_text_only, parse_event_lem,
}
use freeswitch_esl_rs.Event.Types

abbrev is_alphanumeric : ℕ → Bool
is_alphanumeric c =
    (leb b'0' c && leb c b'9') || ((leb b'A' c && leb c b'Z') || (leb b'a' c && leb c b'z'))

hex : ℕ → ℕ
hex n = if ltb n 10 then b'0' + n else b'A' + (n - 10)

unhex : ℕ → ℕ
unhex c = if ltb c b'A' then c - b'0' else c + 10 - b'A'

unfoldable pub percent_encode : Bytes → Bytes
unfolding hex
percent_encode [] = []
percent_encode (c ∷ s) =
    if is_alphanumeric c
    then c ∷ percent_encode s
    else b'%' ∷ hex (c / 16) ∷ hex (c % 16) ∷ percent_encode s

-- The two characters behind a `%` are taken for digits.
unfoldable pub percent_decode : Bytes → Bytes
unfolding unhex
percent_decode [] = []
percent_decode (c ∷ []) = c ∷ []
percent_decode (c ∷ d ∷ []) = c ∷ d ∷ []
percent_decode (c ∷ d ∷ e ∷ s) = elim (c == b'%') [
  | true ↦ (unhex d * 16 + unhex e) ∷ percent_decode s
  | false ↦ c ∷ percent_decode (d ∷ e ∷ s)
]

unhex-hex : (n : ℕ) → n < 16 → unhex (hex n) ≡ n
unfolding unhex hex
unhex-hex n h = ground arith

percent_decode_plain :
    (c : ℕ) (s : Bytes) → c ≢ b'%' → percent_decode (c ∷ s) ≡ c ∷ percent_decode s
unfolding percent_decode
percent_decode_plain c [] h = refl
percent_decode_plain c (d ∷ []) h = refl
percent_decode_plain c (d ∷ e ∷ s) h =
    let n : (c == b'%') ≡ false = ground (arith, h) in rw (n, percent_decode) refl

percent_decode-encode : (s : Bytes) → All (λ c. c < 256) s → percent_decode (percent_encode s) ≡ s
unfolding percent_encode percent_decode
percent_decode-encode [] h = refl
percent_decode-encode (c ∷ s) h = elim (Bool-cases (is_alphanumeric c)) [
  | inl y ↦
      let ne : c ≢ b'%' = λ e. cc (ap is_alphanumeric (sym e) ∙ y) in
      rw y (
        percent_decode_plain c (percent_encode s) ne
        ∙ ap (λ l. c ∷ l) (percent_decode-encode s h.1))
  | inr n ↦
      let e : unhex (hex (c / 16)) * 16 + unhex (hex (c % 16)) ≡ c =
        rw (unhex-hex (c / 16) (omega arith), unhex-hex (c % 16) (omega arith)) (omega arith) in
      rw n (rw (e, percent_decode-encode s h.1) refl)
]

hex-encoded : (n : ℕ) → n < 16 → is_encoded (hex n) ≡ true
unfolding hex
hex-encoded n h = ground arith

percent_encode-encoded :
    (s : Bytes) → All (λ c. c < 256) s → All (λ c. is_encoded c ≡ true) (percent_encode s)
unfolding percent_encode
percent_encode-encoded [] h = tt
percent_encode-encoded (c ∷ s) h = elim (Bool-cases (is_alphanumeric c)) [
  | inl y ↦ rw y (ground arith, percent_encode-encoded s h.1)
  | inr n ↦ rw n (
    refl,
    (
      hex-encoded (c / 16) (omega arith),
      (hex-encoded (c % 16) (omega arith), percent_encode-encoded s h.1),
    ),
  )
]

percent_decode-Lacks : (s : Bytes) → Lacks b'%' s → percent_decode s ≡ s
percent_decode-Lacks [] h = unfold percent_decode in refl
percent_decode-Lacks (c ∷ s) h =
    percent_decode_plain c s h.0 ∙ ap (λ l. c ∷ l) (percent_decode-Lacks s h.1)

coding : IsPercentCoding percent_encode percent_decode
coding = (
  (λ v t. percent_decode-encode v t.1),
  (λ v t. percent_encode-encoded v t.1),
  percent_decode-Lacks,
)

abbrev written : EslEvent
written = record {
  event_type = none;
  headers =
      (codes "Event-Name", codes "API")
      ∷ (codes "Content-Length", codes "9")
      ∷ (codes "Core", codes "a b")
      ∷ [];
  body = some (codes "ok");
}

written-IsEntry : All IsEntry written.headers
unfolding from_utf8
written-IsEntry = ground arith

parse_plain_event-to_plain_format_example :
    (r : EslEvent) × (parse_plain_event percent_decode (record {
      message_type = event;
      headers = [];
      body = some (to_plain_format percent_encode written);
    })
      ≡ ok r)
    × Restores written r
parse_plain_event-to_plain_format_example =
    parse_plain_event-to_plain_format percent_encode percent_decode coding written [] (ground arith)
      written-IsEntry

test_parse_plain_event :
    parse_plain_event percent_decode (record {
      message_type = event;
      headers = [];
      body = some (codes "Event-Name: API\nno colon\r\n Up : a%20b \n\nok");
    })
    ≡ ok (record {
      event_type = some Types.api;
      headers = (codes "Event-Name", codes "API") ∷ (codes "Up", codes "a b") ∷ [];
      body = some (codes "ok");
    })
unfolding parse_plain_event starts_with get insert percent_decode
test_parse_plain_event = refl

-- A JSON value: a text, or an object of texts.
pub data Json : Type 0 where
  text : Bytes → Json
  object : List (Bytes × Bytes) → Json

abbrev texts : List (Bytes × Bytes) → List (Bytes × Json)
texts [] = []
texts ((k, v) ∷ hs) = (k, text v) ∷ texts hs

abbrev entries : Json → Option (List (Bytes × Json))
entries (text _) = none
entries (object hs) = some (texts hs)

abbrev as_text : Json → Option Bytes
as_text (text s) = some s
as_text (object _) = none

abbrev three : List (Bytes × Bytes)
three = (codes "Event-Name", codes "API") ∷ (codes "Up", codes "a b") ∷ (codes "Empty", []) ∷ []

abbrev pub reads_three : SerdeJson
reads_three = record {
  Value = Json;
  from_str = λ s. ok (object three);
  as_object = entries;
  as_str = as_text;
  to_string = λ v. [];
}

abbrev indentation : XmlEvent
indentation = characters (ok (codes "\n  "))

abbrev of_headers : List XmlEvent
of_headers =
    indentation
    ∷ open_tag (codes "Event-Name")
    ∷ characters (ok (codes "API"))
    ∷ close_tag (codes "Event-Name")
    ∷ indentation
    ∷ open_tag (codes "Up")
    ∷ characters (ok (codes "a b"))
    ∷ close_tag (codes "Up")
    ∷ open_tag (codes "Empty")
    ∷ close_tag (codes "Empty")
    ∷ indentation
    ∷ []

abbrev behind_headers : List XmlEvent
behind_headers =
    indentation
    ∷ open_tag (codes "body")
    ∷ characters (ok (codes "ok"))
    ∷ close_tag (codes "body")
    ∷ close_tag (codes "event")
    ∷ []

abbrev marked_up : List XmlEvent
marked_up =
    markup
    ∷ open_tag (codes "event")
    ∷ indentation
    ∷ open_tag (codes "headers")
    ∷ (of_headers ++ close_tag (codes "headers") ∷ behind_headers)

abbrev pub reads_document : XmlReader
reads_document s = (marked_up, none)

marked_up-Document : Document marked_up three (some (codes "ok"))
marked_up-Document =
    document (markup ∷ []) (indentation ∷ []) (tt, tt) (tt, tt)
      (between indentation tt (
        with_text (codes "Event-Name") (codes "API") (λ e. cc)
          (between indentation tt (
            with_text (codes "Up") (codes "a b") (λ e. cc)
              (without_text (codes "Empty") (between indentation tt no_more))))))
      (gap indentation tt (body_text (codes "ok") (λ e. cc) ends))

parse_event_lem_example :
    (parse_event percent_decode reads_three reads_document
        (record { message_type = event; headers = []; body = some (codes "{}") })
        json
      ≡ ok (event_from three none))
    × (parse_event percent_decode reads_three reads_document
          (record { message_type = event; headers = []; body = some (codes "<event>") })
          xml
        ≡ ok (event_from (with_values three) (with_text_only (some (codes "ok")))))
parse_event_lem_example =
    parse_event_lem percent_decode reads_three reads_document (codes "{}") (codes "<event>")
      (object three) (texts three) three [] (some (codes "ok")) marked_up refl refl
      (refl, refl, (refl, refl, (refl, refl, tt))) refl marked_up-Document (ground arith)
