-- ===== src/Protocol/Refinement.antt =====
-- `parse_message` implements the abstract parser.
use freeswitch_esl_rs.Prelude.{
  leb, leb→le, le→leb, Bool-cases, Option-cases, length, take, drop, ok, err, ℕ, zero, suc, ◌+◌,
  ◌≤◌, ◌≡◌, refl, ap, ◌∙◌, inl, inr, Option, none, some, [], ◌∷◌, arith, Bytes,
}
use freeswitch_esl_rs.Constants.{header_terminator}
use freeswitch_esl_rs.Text.Utf8.{from_utf8}
use freeswitch_esl_rs.Error.{EslResult}
use freeswitch_esl_rs.Buffer.{EslBuffer, unread, extract_until_pattern, compact}
use freeswitch_esl_rs.Buffer.Queue.{fresh, unread-advance, compact_lem}
use freeswitch_esl_rs.Buffer.Pattern.{index_of}
use freeswitch_esl_rs.Buffer.Extract.{
  extract_until_none, extract_until_some, extract_bytes-some, extract_bytes-none,
}
use freeswitch_esl_rs.Headers.{Headers}
use freeswitch_esl_rs.Protocol.{
  MessageType, ParseState, waiting_for_headers, waiting_for_body, EslParser, after_body, body_read,
  parse_body, after_envelope, parse_envelope, headers_read, parse_in, parse_message,
}
use freeswitch_esl_rs.Protocol.Framer.{
  frame_body, frame_after, frame_headers, frame_in, frame, view, view_outcome,
}
use freeswitch_esl_rs.Buffer

-- Compaction behind a read leaves the bytes that follow what was read, at position 0.
compact-advance :
    (b : EslBuffer) (n : ℕ)
    → Buffer.compact (record b { position = b.position + n }) ≡ fresh (drop n (Buffer.unread b))
compact-advance b n =
    compact_lem (record b { position = b.position + n }) ∙ ap fresh (unread-advance b n)

unread-fresh : (s : Bytes) → Buffer.unread (fresh s) ≡ s
unfolding Buffer.unread
unread-fresh s = refl

abbrev at : ParseState → Bytes → EslParser
at st s = record { buffer = fresh s; state = st }

module _ (message_type : MessageType) (headers : Headers) (n : ℕ) where
  abbrev waiting : ParseState
  waiting = waiting_for_body message_type headers n

  after_body-view :
      (s : Bytes)
      → n ≤ length s
      → view_outcome (after_body (at waiting (drop n s)) message_type headers (take n s))
        ≡ frame_body s message_type headers n
  unfolding after_body frame_body Buffer.unread
  after_body-view s h =
      rw (le→leb _ _ h, frame_body)
        (elim (Option-cases (from_utf8 (take n s))) [
          | inl bad ↦ rw (bad, after_body)
          | inr (t, good) ↦ rw (good, after_body)
        ])

  parse_body-view :
      (b : EslBuffer)
      → view_outcome (parse_body (record { buffer = b; state = waiting }) message_type headers n)
        ≡ frame_body (Buffer.unread b) message_type headers n
  unfolding parse_body
  parse_body-view b = elim (Bool-cases (leb n (length (Buffer.unread b)))) [
    | inl there ↦ rw (extract_bytes-some b n (leb→le _ _ there)) (
        unfold body_read in
        rw (compact-advance b n) (after_body-view (Buffer.unread b) (leb→le _ _ there)))
    | inr short ↦
        rw (extract_bytes-none b n (ground arith)) (unfold body_read frame_body in rw short)
  ]

after_envelope-view :
    (s : Bytes) (r : EslResult (MessageType × Headers × Option ℕ))
    → view_outcome (after_envelope (at waiting_for_headers s) r) ≡ frame_after s r
unfolding after_envelope frame_after Buffer.unread
after_envelope-view s (err e) = refl
after_envelope-view s (ok (mt, h, none)) = refl
after_envelope-view s (ok (mt, h, some zero)) = refl
after_envelope-view s (ok (mt, h, some (suc n))) = parse_body-view mt h (suc n) (fresh s)

module _ (percent_decode : Bytes → Bytes) where
  headers_read-view :
      (b : EslBuffer)
      → view_outcome (
          headers_read percent_decode
            (record { buffer = b; state = waiting_for_headers })
            (Buffer.extract_until_pattern b header_terminator))
        ≡ frame_headers percent_decode (Buffer.unread b)
  unfolding frame_headers
  headers_read-view b = elim (Option-cases (index_of (Buffer.unread b) header_terminator)) [
    | inl absent ↦
        rw (extract_until_none b b'\n' (b'\n' ∷ []) absent)
          (unfold headers_read in rw (absent, frame_headers))
    | inr (i, found) ↦ rw (extract_until_some b b'\n' (b'\n' ∷ []) i found) (
        unfold headers_read in
        rw (found, frame_headers)
          (rw (compact-advance b (i + 2)) (
            after_envelope-view (drop (i + 2) (Buffer.unread b))
              (parse_envelope percent_decode (take i (Buffer.unread b))))))
  ]

  view-parse_in :
      (st : ParseState) (b : EslBuffer)
      → view_outcome (parse_in percent_decode st (record { buffer = b; state = st }))
        ≡ frame_in percent_decode st (Buffer.unread b)
  unfolding parse_in frame_in
  view-parse_in waiting_for_headers b = headers_read-view b
  view-parse_in (waiting_for_body mt h n) b = parse_body-view mt h n b

  -- Seen as an abstract parser, `parse_message` returns what the abstract parser returns and
  -- leaves it in the state and with the pending bytes in which the abstract parser is left.
  pub view-parse_message :
      (p : EslParser)
      → view_outcome (parse_message percent_decode p) ≡ frame percent_decode (view p)
  unfolding parse_message frame
  view-parse_message p = view-parse_in p.state p.buffer
