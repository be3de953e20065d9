-- ===== src/Protocol/RoundTrip.antt =====
-- `to_plain_format` of src/event.rs is read back by `parse_plain_event` of src/protocol.rs.
use freeswitch_esl_rs.Prelude.{
  Bool-cases, length, length-append, All, All-append, ok, ℕ, ◌<◌, ◌≡◌, refl, ap, ◌∙◌, subst, inl,
  inr, Option, none, some, [], ◌∷◌, ◌++◌, map, map-append, arith, Bytes, unwrap_or,
}
use freeswitch_esl_rs.Constants.{header_event_name}
use freeswitch_esl_rs.Text.{bytes_eq}
use freeswitch_esl_rs.Text.Utf8.{from_utf8-ascii}
use freeswitch_esl_rs.Text.Decimal.{decimal}
use freeswitch_esl_rs.Text.Digits.{decimal-Lacks, IsDigit, decimal-IsDigit, All-map}
use freeswitch_esl_rs.Headers.{Headers, get}
use freeswitch_esl_rs.Protocol.{event, decode_value}
use freeswitch_esl_rs.Event.{EslEvent, sort_by_key, other_headers, to_plain_format}
use freeswitch_esl_rs.Event.Sorted.{Distinct, All-other_headers}
use freeswitch_esl_rs.Event.Keys.{All-sort_by_key, inserts, inserts-append}
use freeswitch_esl_rs.Protocol.Events.{typed, with_inner, event_body, parse_plain_event}
use freeswitch_esl_rs.Protocol.Plain.{IsLine, decode_entry, event_body-ended}
use freeswitch_esl_rs.Protocol.Written.{
  IsText, IsPercentCoding, IsEntry, restored_body, named_type, Restores, is_encoded-IsSolid,
  decimal-IsWord, named, length_entry, encode_entry, wire, to_plain_format-ended,
}
use freeswitch_esl_rs.Protocol.Restored.{others, get-restored, with_inner-body, typed_lem}

-- The value of a header is a text.
get-IsText : (m : Headers) (k : Bytes) {v : Bytes} → All IsEntry m → get m k ≡ some v → IsText v
unfolding get
get-IsText [] k h e = cc
get-IsText ((j, w) ∷ m) k {v} h e = elim (Bool-cases (bytes_eq j k)) [
  | inl y ↦ let q : some w ≡ some v = rw y at e in subst IsText (cc q) h.0.2
  | inr n ↦ let q : get m k ≡ some v = rw n at e in get-IsText m k h.1 q
]

named-IsEntry : (o : Option Bytes) → ((v : Bytes) → o ≡ some v → IsText v) → All IsEntry (named o)
named-IsEntry none h = tt
named-IsEntry (some v) h = ((ground arith, ground arith, h v refl), tt)

length_entry-IsLine : (o : Option Bytes) → All IsLine (length_entry o)
length_entry-IsLine none = tt
length_entry-IsLine (some body) = ((ground arith, ground arith, decimal-IsWord (length body)), tt)

module _ (percent_encode percent_decode : Bytes → Bytes)
    (coding : IsPercentCoding percent_encode percent_decode) where
  encode-IsLine : (m : Headers) → All IsEntry m → All IsLine (map (encode_entry percent_encode) m)
  encode-IsLine [] h = tt
  encode-IsLine ((k, v) ∷ m) h = (
    (h.0.0, h.0.1, All-map (percent_encode v) is_encoded-IsSolid (coding.1 v h.0.2)),
    encode-IsLine m h.1,
  )

  decode_value-encode : (v : Bytes) → IsText v → decode_value percent_decode (percent_encode v) ≡ v
  unfolding decode_value
  decode_value-encode v t = rw (coding.0 v t, decode_value) (rw t.0 refl)

  decode_value-decimal : (n : ℕ) → decode_value percent_decode (decimal n) ≡ decimal n
  unfolding decode_value
  decode_value-decimal n =
      let ascii : All (λ c. c < 0x80) (decimal n) =
        All-map (decimal n) (λ c (h : IsDigit c). omega arith) (decimal-IsDigit n) in
      rw (coding.2 (decimal n) (decimal-Lacks b'%' n (omega arith)), decode_value)
        (rw (from_utf8-ascii (decimal n) ascii) refl)

  decode-encode :
      (m : Headers)
      → All IsEntry m
      → map (decode_entry percent_decode) (map (encode_entry percent_encode) m) ≡ m
  decode-encode [] h = refl
  decode-encode ((k, v) ∷ m) h = rw (decode_value-encode v h.0.2, decode-encode m h.1) refl

  decode-length_entry :
      (o : Option Bytes) → map (decode_entry percent_decode) (length_entry o) ≡ length_entry o
  decode-length_entry none = refl
  decode-length_entry (some body) = rw (decode_value-decimal (length body)) refl

length_entry_absent :
    (es fs : Headers) (o : Option Bytes) → es ++ (fs ++ length_entry o) ≡ [] → unwrap_or o [] ≡ []
length_entry_absent es fs none h = refl
length_entry_absent es fs (some body) h =
    let l = length_entry (some body) in
    absurd (omega (arith, ap length h, length-append es (fs ++ l), length-append fs l))

module _ (percent_encode percent_decode : Bytes → Bytes)
    (coding : IsPercentCoding percent_encode percent_decode) where
  wire-IsLine : (e : EslEvent) → All IsEntry e.headers → All IsLine (wire percent_encode e)
  wire-IsLine e h =
      let o = get e.headers header_event_name in
      let rest = sort_by_key (other_headers e.headers) in
      let entries : All IsEntry (named o) =
        named-IsEntry o (λ v q. get-IsText e.headers header_event_name h q) in
      let kept : All IsEntry rest =
        All-sort_by_key IsEntry (other_headers e.headers) (All-other_headers IsEntry e.headers h) in
      All-append IsLine (map (encode_entry percent_encode) (named o))
        (map (encode_entry percent_encode) rest ++ length_entry e.body)
        (encode-IsLine percent_encode percent_decode coding (named o) entries)
        (All-append IsLine (map (encode_entry percent_encode) rest) (length_entry e.body)
          (encode-IsLine percent_encode percent_decode coding rest kept)
          (length_entry-IsLine e.body))

  decode-wire :
      (e : EslEvent)
      → Distinct e.headers
      → All IsEntry e.headers
      → inserts [] (map (decode_entry percent_decode) (wire percent_encode e))
        ≡ inserts (others e.headers) (length_entry e.body)
  decode-wire e d h =
      let o = get e.headers header_event_name in
      let rest = sort_by_key (other_headers e.headers) in
      let entries : All IsEntry (named o) =
        named-IsEntry o (λ v q. get-IsText e.headers header_event_name h q) in
      let kept : All IsEntry rest =
        All-sort_by_key IsEntry (other_headers e.headers) (All-other_headers IsEntry e.headers h) in
      let dec = decode_entry percent_decode in
      let enc = encode_entry percent_encode in
      rw
        (
          map-append dec (map enc (named o)) (map enc rest ++ length_entry e.body),
          map-append dec (map enc rest) (length_entry e.body),
          decode-encode percent_encode percent_decode coding (named o) entries,
          decode-encode percent_encode percent_decode coding rest kept,
          decode-length_entry percent_encode percent_decode coding e.body,
        )
        (inserts-append (named o) (rest ++ length_entry e.body) []
          ∙ inserts-append rest (length_entry e.body) (inserts [] (named o)))

  -- An event that is written in the plain format and read back as the body of a message of type
  -- `event` is read without an error. It has its headers, but that `Content-Length` is there exactly
  -- if it has a body, and says that body's length; its body, but that an empty body counts as none;
  -- and the type that its header `Event-Name` names. The keys differ, are ASCII without white space
  -- and colon, and the values are texts in UTF-8; the coding is what the crate documents.
  pub parse_plain_event-to_plain_format :
      (e : EslEvent) (headers : Headers)
      → Distinct e.headers
      → All IsEntry e.headers
      → (r : EslEvent) × (parse_plain_event percent_decode (record {
        message_type = event;
        headers = headers;
        body = some (to_plain_format percent_encode e);
      })
          ≡ ok r)
        × Restores e r
  unfolding parse_plain_event
  parse_plain_event-to_plain_format e headers d h =
      let o = get e.headers header_event_name in
      let hs = inserts (others e.headers) (length_entry e.body) in
      let rest = unwrap_or e.body [] in
      let read =
        ap (event_body percent_decode) (to_plain_format-ended percent_encode e)
        ∙ event_body-ended percent_decode (wire percent_encode e) rest (wire-IsLine e h) (
            length_entry_absent (map (encode_entry percent_encode) (named o))
              (map (encode_entry percent_encode) (sort_by_key (other_headers e.headers))) e.body)
        ∙ ap (λ m. with_inner (record { event_type = none; headers = m; body = none }) (some rest))
            (decode-wire e d h)
        ∙ with_inner-body hs e.body in
      (
        record {
          event_type = named_type (get hs header_event_name);
          headers = hs;
          body = restored_body e.body;
        },
        ap (λ r. ok (typed r)) read ∙ ap ok (typed_lem hs (restored_body e.body)),
        (
          get-restored e.headers d e.body,
          refl,
          ap named_type
              (get-restored e.headers d e.body header_event_name ∙ unfold bytes_eq in refl),
        ),
      )
