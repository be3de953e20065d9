-- ===== src/Protocol/Message.antt =====
-- A message that stands whole in the buffer is returned, and no byte behind it is touched: the
-- framing of `parse_message` in src/protocol.rs.
use freeswitch_esl_rs.Prelude.{
  leb, ◌==◌, le→leb, length, take, drop, length-append, take-length, drop-length, drop-drop, ok, ℕ,
  suc, ◌+◌, ◌≡◌, refl, sym, ap, ◌∙◌, ◌≢◌, true, false, ◌&&◌, some, [], ◌∷◌, ◌++◌, arith, Bytes,
}
use freeswitch_esl_rs.Constants.{header_terminator}
use freeswitch_esl_rs.Text.{starts_with}
use freeswitch_esl_rs.Text.Utf8.{from_utf8}
use freeswitch_esl_rs.Text.Split.{Avoids}
use freeswitch_esl_rs.Buffer.Pattern.{index_of, shifted, index_of-cons}
use freeswitch_esl_rs.Headers.{Headers}
use freeswitch_esl_rs.Protocol.{
  MessageType, waiting_for_headers, EslParser, parse_envelope, parse_message,
}
use freeswitch_esl_rs.Protocol.Framer.{
  body_framed, frame_body, frame_after, headers_framed, frame_headers, frame, view, view_outcome,
}
use freeswitch_esl_rs.Protocol.Refinement.{view-parse_message}

abbrev pub IsHead : Bytes → Type 0
IsHead head = Avoids b'\n' b'\n' (head ++ b'\n' ∷ [])

starts_with-blank :
    (c d : ℕ) (s : Bytes) → starts_with (c ∷ d ∷ s) header_terminator ≡ (c == b'\n' && d == b'\n')
unfolding starts_with
starts_with-blank c d s = ground arith

index_of-later :
    (c d : ℕ) (s : Bytes) (n : ℕ)
    → (c == b'\n' && d == b'\n') ≡ false
    → index_of (d ∷ s) header_terminator ≡ some n
    → index_of (c ∷ d ∷ s) header_terminator ≡ some (suc n)
index_of-later c d s n h e =
    rw (index_of-cons c (d ∷ s) header_terminator, starts_with-blank c d s, h) (ap shifted e)

-- The first blank line stands behind the head.
pub index_of-head :
    (head t : Bytes)
    → IsHead head
    → index_of (head ++ (header_terminator ++ t)) header_terminator ≡ some (length head)
index_of-head [] t h =
    rw (index_of-cons b'\n' (b'\n' ∷ t) header_terminator, starts_with-blank b'\n' b'\n' t) refl
index_of-head (c ∷ []) t h = index_of-later c b'\n' (b'\n' ∷ t) 0 h.0 (index_of-head [] t tt)
index_of-head (c ∷ d ∷ head) t h =
    index_of-later c d (head ++ (header_terminator ++ t)) (suc (length head)) h.0
      (index_of-head (d ∷ head) t h.1)

pub drop-head : (head t : Bytes) → drop (length head + 2) (head ++ (header_terminator ++ t)) ≡ t
drop-head head t =
    sym (drop-drop (length head) 2 (head ++ (header_terminator ++ t)))
    ∙ ap (drop 2) (drop-length head (header_terminator ++ t))

frame_after-whole :
    (message_type : MessageType) (headers : Headers) (body rest text : Bytes)
    → body ≢ []
    → from_utf8 body ≡ some text
    → frame_after (body ++ rest) (ok (message_type, headers, some (length body))) ≡ (
      record { state = waiting_for_headers; pending = rest },
      ok (some (record { message_type = message_type; headers = headers; body = some text })),
    )
unfolding frame_after frame_body body_framed
frame_after-whole message_type headers [] rest text ne u = absurd (ne refl)
frame_after-whole message_type headers (c ∷ body) rest text ne u =
    let fits : leb (length (c ∷ body)) (length ((c ∷ body) ++ rest)) ≡ true =
      le→leb _ _ (omega (arith, length-append (c ∷ body) rest)) in
    let s = (c ∷ body) ++ rest in
    let n = length (c ∷ body) in
    rw fits (
      ap (λ x. body_framed message_type headers n x (from_utf8 (take n s)))
        (drop-length (c ∷ body) rest)
      ∙ ap (λ o. body_framed message_type headers n rest o)
          (ap from_utf8 (take-length (c ∷ body) rest) ∙ u))

frame_headers-whole :
    (percent_decode : Bytes → Bytes) (head t : Bytes)
    → IsHead head
    → frame_headers percent_decode (head ++ (header_terminator ++ t))
      ≡ frame_after t (parse_envelope percent_decode head)
unfolding frame_headers headers_framed
frame_headers-whole percent_decode head t h =
    rw (index_of-head head t h, headers_framed)
      (rw (drop-head head t, take-length head (header_terminator ++ t)) refl)

module _ (percent_decode : Bytes → Bytes) (p : EslParser) (head body rest : Bytes) where
  -- A message that stands whole in front of other bytes, in a parser that waits for headers, is
  -- returned with its body, and the parser is left waiting for headers with exactly the other bytes
  -- pending. The head holds no blank line and says that the body has the length it has; the body is
  -- a text and not empty.
  pub parse_message-framed :
      (message_type : MessageType) (headers : Headers) (text : Bytes)
      → view p ≡ record {
        state = waiting_for_headers;
        pending = head ++ (header_terminator ++ (body ++ rest));
      }
      → IsHead head
      → parse_envelope percent_decode head ≡ ok (message_type, headers, some (length body))
      → body ≢ []
      → from_utf8 body ≡ some text
      → view_outcome (parse_message percent_decode p) ≡ (
        record { state = waiting_for_headers; pending = rest },
        ok (some (record { message_type = message_type; headers = headers; body = some text })),
      )
  unfolding frame
  parse_message-framed message_type headers text v h e ne u =
      let s = head ++ (header_terminator ++ (body ++ rest)) in
      view-parse_message percent_decode p
      ∙ ap (frame percent_decode) v
      ∙ frame_headers-whole percent_decode head (body ++ rest) h
      ∙ ap (frame_after (body ++ rest)) e
      ∙ frame_after-whole message_type headers body rest text ne u
