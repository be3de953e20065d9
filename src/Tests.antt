-- ===== src/Tests.antt =====
-- The theorems at concrete inputs, and runs of the definitions.
mod Formats
mod Percent
mod Reader
mod Calls
mod Handshake
mod Methods
mod Tracker
mod Filter
mod Queue
mod Commands
mod Originate
use freeswitch_esl_rs.Prelude.{
  ◌==◌, length, ok, ℕ, ◌≤◌, ◌≡◌, refl, ◌↔◌, Bool, true, not, ◌&&◌, Option, none, some, List, [],
  ◌∷◌, ◌++◌, arith, Bytes, codes,
}
use freeswitch_esl_rs.Text.{bytes_eq}
use freeswitch_esl_rs.Text.Utf8.{from_utf8}
use freeswitch_esl_rs.Text.Decimal.{decimal, parse_unsigned}
use freeswitch_esl_rs.Text.Split.{Avoids}
use freeswitch_esl_rs.Text.Case.{to_uppercase, to_lowercase}
use freeswitch_esl_rs.Error.{EslError}
use freeswitch_esl_rs.Buffer.{unread, find_pattern, extract_until_pattern}
use freeswitch_esl_rs.Buffer.Occurrence.{First, find_pattern-First}
use freeswitch_esl_rs.Buffer.Extract.{Extracts, extract_until_pattern-Extracts}
use freeswitch_esl_rs.Headers.{Headers, get, insert}
use freeswitch_esl_rs.Protocol.{
  auth_request, command_reply, EslMessage, waiting_for_headers, EslParser, add_data, parse_envelope,
  parse_message,
}
use freeswitch_esl_rs.Protocol.Framer.{frame, view, view_outcome}
use freeswitch_esl_rs.Protocol.Refinement.{view-parse_message}
use freeswitch_esl_rs.Protocol.Stream.{stops, returns, Parses}
use freeswitch_esl_rs.Protocol.Progress.{size, Parses-total}
use freeswitch_esl_rs.Protocol.Segmentation.{Receives, done, reads, pending, segmentation}
use freeswitch_esl_rs.Protocol.Message.{parse_message-framed}
use freeswitch_esl_rs.Variables.EslArray.{EslArray, to_string, parse-to_string}
use freeswitch_esl_rs.Event.Types.{background_job}
use freeswitch_esl_rs.Event.{EslEvent, set_header, stacked_array, push_header, unshift_header}
use freeswitch_esl_rs.Event.Stack.{values, Untouched, stack_header-values}
use freeswitch_esl_rs.Command.Response.{response_new, into_result, Answers, into_result-Answers}
use freeswitch_esl_rs.Command.Wire.{send_event, to_wire_format}
use freeswitch_esl_rs.Command.Checked.{Checked}
use freeswitch_esl_rs.Command.Framed.{IsClean, event_of, IsFramed}
use freeswitch_esl_rs.Command.Safety.{to_wire_format-Checked}
use freeswitch_esl_rs.Channel.{
  ChannelState, as_number, channel_state_name, call_state_name, answer_state_name,
  call_direction_name,
}
use freeswitch_esl_rs.Channel.Accessors.{
  channel_state, channel_state_number, call_state, answer_state, call_direction, ReadsNames,
  accessors-set_header,
}
use mathlib.Core.List.{flatten}
use mathlib.Core.List.Permᴰ
use freeswitch_esl_rs.Protocol
use freeswitch_esl_rs.Variables.EslArray
use freeswitch_esl_rs.Event

-- The percent codings and the walk over a map, instantiated.
abbrev decode : Bytes → Bytes
decode s = s

abbrev in_order : Headers → Headers
in_order m = m

abbrev auth_message : EslMessage
auth_message = record {
  message_type = auth_request;
  headers = (codes "Content-Type", codes "auth/request") ∷ [];
  body = none;
}

abbrev reply_text_input : Bytes
reply_text_input = codes "Content-Type: command/reply\nContent-Length: 2\n\nok"

abbrev loaded : EslParser
unfolding add_data Protocol.new
loaded = (add_data Protocol.new reply_text_input).0

abbrev chunk1 : Bytes
chunk1 = codes "Content-Type: auth/req"

abbrev chunk2 : Bytes
chunk2 = codes "uest\n\n"

whole : Receives decode Protocol.new ((chunk1 ++ chunk2) ∷ []) (auth_message ∷ []) none
unfolding add_data parse_message Protocol.new bytes_eq get insert
whole = reads refl (returns refl (stops refl)) done

pieces : Receives decode Protocol.new (chunk1 ∷ chunk2 ∷ []) (auth_message ∷ []) none
unfolding add_data parse_message Protocol.new bytes_eq get insert
pieces = reads refl (stops refl) (reads refl (returns refl (stops refl)) done)

-- A parser that has consumed nothing of `s`.
abbrev waiting : Bytes → EslParser
waiting s = record { buffer = record { buffer = s; position = 0 }; state = waiting_for_headers }

segmentation_example : (auth_message ∷ [] ≡ auth_message ∷ []) × (Path (Option EslError) none none)
unfolding Protocol.new flatten unread
segmentation_example =
    segmentation decode Protocol.new (chunk1 ++ chunk2) chunk1 [] (chunk2 ∷ []) refl refl
      (omega arith) whole pieces

view-parse_message_example : view_outcome (parse_message decode loaded) ≡ frame decode (view loaded)
view-parse_message_example = view-parse_message decode loaded

Parses-total_example :
    (q : EslParser) × (ms : List EslMessage) × (e : Option EslError) × Parses decode q loaded ms e
    × (length ms ≤ size (view loaded))
Parses-total_example = Parses-total decode loaded

extract_until_pattern-Extracts_example :
    Extracts loaded.buffer (codes "\n\n") (extract_until_pattern loaded.buffer (codes "\n\n"))
unfolding add_data Protocol.new
extract_until_pattern-Extracts_example =
    extract_until_pattern-Extracts loaded.buffer b'\n' (codes "\n") (omega arith)

find_pattern-First_example :
    First (unread loaded.buffer) (codes "\n\n") (find_pattern loaded.buffer (codes "\n\n"))
find_pattern-First_example = find_pattern-First loaded.buffer b'\n' (codes "\n")

abbrev stacked : EslEvent
stacked = record {
  event_type = some background_job;
  headers = (codes "via", codes "a") ∷ [];
  body = some (codes "ok");
}

to_wire_format-Checked_example :
    Checked
      (IsClean (send_event stacked))
      (IsFramed (event_of (send_event stacked)).body)
      (to_wire_format in_order (send_event stacked))
to_wire_format-Checked_example =
    to_wire_format-Checked in_order (λ m. Permᴰ.refl m) (send_event stacked)

abbrev failed : Headers
failed = (codes "Reply-Text", codes "-ERR no such command") ∷ []

into_result-Answers_example :
    Answers failed (response_new failed none) (into_result (response_new failed none))
into_result-Answers_example = into_result-Answers failed none

parse-to_string_example :
    EslArray.parse (EslArray.to_string (record { items = codes "a" ∷ codes "b" ∷ [] }))
    ≡ some (record { items = codes "a" ∷ codes "b" ∷ [] })
parse-to_string_example = parse-to_string (codes "a") (codes "b" ∷ []) (tt, (tt, tt))

stack_header-values_example :
    (values (Event.header (push_header stacked (codes "via") (codes "b")) (codes "via"))
      ≡ values (Event.header stacked (codes "via")) ++ codes "b" ∷ [])
    × Untouched stacked (codes "via") (codes "b") (push_header stacked (codes "via") (codes "b"))
    × (values (Event.header (unshift_header stacked (codes "via") (codes "b")) (codes "via"))
        ≡ codes "b" ∷ values (Event.header stacked (codes "via")))
    × Untouched stacked (codes "via") (codes "b") (unshift_header stacked (codes "via") (codes "b"))
unfolding Event.header get EslArray.parse bytes_eq Event.stacked_array
stack_header-values_example =
    stack_header-values stacked (codes "via") (codes "b") (tt, tt) (tt, tt) refl

accessors-set_header_example :
    ReadsNames stacked channel_state (codes "Channel-State") to_uppercase channel_state_name
    × ReadsNames stacked call_state (codes "Channel-Call-State") to_uppercase call_state_name
    × ReadsNames stacked answer_state (codes "Answer-State") to_lowercase answer_state_name
    × ReadsNames stacked call_direction (codes "Call-Direction") to_lowercase call_direction_name
    × ((t : ChannelState)
        → ((s : Bytes)
            → (channel_state_number (Event.set_header stacked (codes "Channel-State-Number") s)
                ≡ some t)
              ↔ (parse_unsigned 255 s ≡ some (as_number t)))
          × (channel_state_number
                (Event.set_header stacked (codes "Channel-State-Number") (decimal (as_number t)))
              ≡ some t))
accessors-set_header_example = accessors-set_header stacked

abbrev head : Bytes
head = codes "Content-Type: command/reply\nContent-Length: 2"

abbrev reply_headers : Headers
reply_headers =
    (codes "Content-Type", codes "command/reply") ∷ (codes "Content-Length", codes "2") ∷ []

-- `Avoids` as a test.
abbrev avoids : ℕ → ℕ → Bytes → Bool
avoids a b [] = true
avoids a b (c ∷ []) = true
avoids a b (c ∷ d ∷ s) = not (c == a && d == b) && avoids a b (d ∷ s)

avoids-Avoids : (a b : ℕ) (s : Bytes) → avoids a b s ≡ true → Avoids a b s
avoids-Avoids a b [] h = tt
avoids-Avoids a b (c ∷ []) h = tt
avoids-Avoids a b (c ∷ d ∷ s) h = ground (arith, avoids-Avoids a b (d ∷ s))

parse_message-framed_example :
    view_outcome
      (parse_message decode (waiting (head ++ (codes "\n\n" ++ (codes "ok" ++ codes "rest")))))
    ≡ (
      record { state = waiting_for_headers; pending = codes "rest" },
      ok (
          some (record {
            message_type = command_reply;
            headers = reply_headers;
            body = some (codes "ok");
          })),
    )
unfolding unread parse_envelope bytes_eq get insert from_utf8
parse_message-framed_example =
    parse_message-framed decode (waiting (head ++ (codes "\n\n" ++ (codes "ok" ++ codes "rest"))))
      head (codes "ok") (codes "rest") command_reply reply_headers (codes "ok") refl
      (avoids-Avoids b'\n' b'\n' (head ++ b'\n' ∷ []) refl) refl (λ e. cc) refl
