-- ===== src/Protocol/Validity.antt =====
-- The parser keeps its buffer valid: no operation of it underflows or slices out of bounds.
use freeswitch_esl_rs.Prelude.{
  leb, Bool-cases, Option-cases, ok, err, ℕ, zero, suc, ◌≡◌, refl, inl, inr, Option, none, some,
  Bytes,
}
use freeswitch_esl_rs.Constants.{header_terminator}
use freeswitch_esl_rs.Text.Utf8.{from_utf8}
use freeswitch_esl_rs.Error.{EslResult}
use freeswitch_esl_rs.Buffer.{
  EslBuffer, len, find_pattern, extract_until_pattern, extract_bytes, compact,
}
use freeswitch_esl_rs.Buffer.Queue.{compact_lem}
use freeswitch_esl_rs.Headers.{Headers}
use freeswitch_esl_rs.Protocol.{
  MessageType, EslMessage, ParseState, waiting_for_headers, waiting_for_body, EslParser, after_body,
  body_read, parse_body, after_envelope, headers_read, parse_in, parse_message,
}
use freeswitch_esl_rs.Buffer

-- What compaction gives, and what a read that finds nothing leaves, the parser keeps.
module _ (P : EslBuffer → Type 0) (compact-P : (b : EslBuffer) → P (Buffer.compact b)) where
  abbrev Keeps : EslParser × EslResult (Option EslMessage) → Type 0
  Keeps (p, r) = P p.buffer

  after_body-Keeps :
      (p : EslParser) (mt : MessageType) (h : Headers) (s : Bytes)
      → P p.buffer
      → Keeps (after_body p mt h s)
  unfolding after_body
  after_body-Keeps p mt h s v = elim (Option-cases (from_utf8 s)) [
    | inl bad ↦ rw (bad, after_body) v
    | inr (x, good) ↦ rw (good, after_body) v
  ]

  body_read-Keeps :
      (p : EslParser) (mt : MessageType) (h : Headers) (b : EslBuffer) (r : Option Bytes)
      → (r ≡ none → P b)
      → Keeps (body_read p mt h (b, r))
  unfolding body_read
  body_read-Keeps p mt h b none v = v refl
  body_read-Keeps p mt h b (some s) v =
      after_body-Keeps (record p { buffer = Buffer.compact b }) mt h s (compact-P b)

  extract_bytes-none :
      (b : EslBuffer) (n : ℕ)
      → P b
      → (Buffer.extract_bytes b n).1 ≡ none
      → P (Buffer.extract_bytes b n).0
  unfolding Buffer.extract_bytes
  extract_bytes-none b n v = elim (Bool-cases (leb n (len b))) [
    | inl there ↦ rw (there, len) (λ h. cc)
    | inr short ↦ rw (short, len) (λ h. v)
  ]

  extract_until_pattern-none :
      (b : EslBuffer) (s : Bytes)
      → P b
      → (Buffer.extract_until_pattern b s).1 ≡ none
      → P (Buffer.extract_until_pattern b s).0
  unfolding Buffer.extract_until_pattern
  extract_until_pattern-none b s v = elim (Option-cases (find_pattern b s)) [
    | inl absent ↦ rw (absent, Buffer.extract_until_pattern) (λ h. v)
    | inr (i, found) ↦ rw (found, Buffer.extract_until_pattern) (λ h. cc)
  ]

  parse_body-Keeps :
      (p : EslParser) (mt : MessageType) (h : Headers) (n : ℕ)
      → P p.buffer
      → Keeps (parse_body p mt h n)
  unfolding parse_body
  parse_body-Keeps p mt h n v = body_read-Keeps p mt h _ _ (extract_bytes-none p.buffer n v)

  after_envelope-Keeps :
      (p : EslParser) (r : EslResult (MessageType × Headers × Option ℕ))
      → P p.buffer
      → Keeps (after_envelope p r)
  unfolding after_envelope
  after_envelope-Keeps p (err e) v = v
  after_envelope-Keeps p (ok (mt, h, none)) v = v
  after_envelope-Keeps p (ok (mt, h, some zero)) v = v
  after_envelope-Keeps p (ok (mt, h, some (suc n))) v = parse_body-Keeps _ mt h (suc n) v

  headers_read-Keeps :
      (percent_decode : Bytes → Bytes) (p : EslParser) (b : EslBuffer) (r : Option Bytes)
      → (r ≡ none → P b)
      → Keeps (headers_read percent_decode p (b, r))
  unfolding headers_read
  headers_read-Keeps percent_decode p b none v = v refl
  headers_read-Keeps percent_decode p b (some s) v = after_envelope-Keeps _ _ (compact-P b)

  parse_in-Keeps :
      (percent_decode : Bytes → Bytes) (st : ParseState) (p : EslParser)
      → P p.buffer
      → Keeps (parse_in percent_decode st p)
  unfolding parse_in
  parse_in-Keeps percent_decode waiting_for_headers p v =
      headers_read-Keeps percent_decode p _ _
        (extract_until_pattern-none p.buffer header_terminator v)
  parse_in-Keeps percent_decode (waiting_for_body mt h n) p v = parse_body-Keeps p mt h n v

  parse_message-Keeps :
      (percent_decode : Bytes → Bytes) (p : EslParser)
      → P p.buffer
      → P (parse_message percent_decode p).0.buffer
  unfolding parse_message
  parse_message-Keeps percent_decode p v = parse_in-Keeps percent_decode p.state p v

-- All bytes of the buffer are unread.
abbrev pub IsCompact : EslBuffer → Type 0
IsCompact b = b.position ≡ 0

compact-IsCompact : (b : EslBuffer) → IsCompact (Buffer.compact b)
compact-IsCompact b = rw (compact_lem b)

pub parse_message-IsCompact :
    (percent_decode : Bytes → Bytes) (p : EslParser)
    → IsCompact p.buffer
    → IsCompact (parse_message percent_decode p).0.buffer
parse_message-IsCompact percent_decode p =
    parse_message-Keeps IsCompact compact-IsCompact percent_decode p
