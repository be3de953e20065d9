-- ===== src/Tests/Reader.antt =====
-- The theorems on the reader task, at concrete sessions.
use mathlib.Core.List.{flatten}
use freeswitch_esl_rs.Prelude.{
  length, ℕ, ◌+◌, ◌≤◌, ◌<◌, ◌≡◌, refl, Bool, true, false, none, some, [], ◌∷◌, ◌++◌, arith, Bytes,
  codes,
}
use freeswitch_esl_rs.Constants.{socket_buf_size, max_buffer_size}
use freeswitch_esl_rs.Text.{bytes_eq}
use freeswitch_esl_rs.Buffer.{unread}
use freeswitch_esl_rs.Headers.{get, insert}
use freeswitch_esl_rs.Protocol.{command_reply, EslMessage, add_data, parse_message}
use freeswitch_esl_rs.Connection.{heartbeat_expired, connected, disconnected, shared_new}
use freeswitch_esl_rs.Connection.Reader.{
  no_bytes, bytes, elapsed, Decoders, is_expired, Served, Reader, end_with, route_reply, handle_in,
  handle, parsed, turn, added, received,
}
use freeswitch_esl_rs.Connection.Session.{
  settles, again, Reads, quiet, breaks_off, serves, Loop, reads_on,
}
use freeswitch_esl_rs.Connection.Chunks.{at_times}
use freeswitch_esl_rs.Connection.Stream.{Reads-segmentation}
use freeswitch_esl_rs.Connection.Ending.{Loop-total}
use freeswitch_esl_rs.Connection.Status.{Says, Loop-Says}
use freeswitch_esl_rs.Connection.Liveness.{silent, expired, silence}
use freeswitch_esl_rs.Connection.Bounds.{Loop-Bounded}
use freeswitch_esl_rs.Tests.Queue.{list_channel, list_channel-IsFifo}
use freeswitch_esl_rs.Tests.Percent.{reads_three, reads_document}
use freeswitch_esl_rs.Protocol

abbrev pub decoders : Decoders
decoders = record { percent_decode = λ s. s; serde_json = reads_three; quick_xml = reads_document }

abbrev pub reply_message : EslMessage
reply_message = record {
  message_type = command_reply;
  headers = (codes "Content-Type", codes "command/reply") ∷ [];
  body = none;
}

-- A new connection whose call 7 waits, with a queue of two places and a timeout of a second.
abbrev opened : Served list_channel
unfolding shared_new
opened = record {
  shared = record shared_new { pending_reply = some 7; liveness_timeout_ms = 1000 };
  chan = ([], 2);
  status = connected;
  sent = [];
}

abbrev fresh : Reader list_channel
fresh = record { parser = Protocol.new; last_recv = 0; served = opened }

abbrev answered : Served list_channel
unfolding shared_new
answered = record opened {
  shared = record shared_new { liveness_timeout_ms = 1000 };
  sent = (7, reply_message) ∷ [];
}

abbrev begin : Bytes
begin = codes "Content-Type: command/"

abbrev end' : Bytes
end' = codes "reply\n\n"

abbrev after : ℕ → Reader list_channel
unfolding Protocol.new
after now = record { parser = Protocol.new; last_recv = now; served = answered }

abbrev halfway : Reader list_channel
unfolding add_data Protocol.new
halfway = record { parser = (add_data Protocol.new begin).0; last_recv = 3; served = opened }

whole : Reads list_channel decoders fresh (at_times (5 ∷ []) ((begin ++ end') ∷ [])) (after 5) false
unfolding add_data parse_message received added turn parsed handle_in handle route_reply
    Protocol.new bytes_eq get insert shared_new
whole = serves refl (again refl (settles refl (λ e. cc e))) quiet

pieces : Reads list_channel decoders fresh (at_times (3 ∷ []) (begin ∷ end' ∷ [])) (after 0) false
unfolding add_data parse_message received added turn parsed handle_in handle route_reply
    Protocol.new bytes_eq get insert shared_new
pieces =
    serves {t = halfway} refl (settles refl (λ e. cc e))
      (serves refl (again refl (settles refl (λ e. cc e))) quiet)

Reads-segmentation_example : (answered ≡ answered) × (false ≡ false)
unfolding Protocol.new flatten unread
Reads-segmentation_example =
    Reads-segmentation list_channel decoders fresh (begin ++ end') begin [] (end' ∷ []) (5 ∷ [])
      (3 ∷ []) refl refl (omega arith) whole pieces

Loop-total_example :
    (t : Reader list_channel) × (b : Bool) × Loop list_channel decoders fresh
      ((1, bytes begin) ∷ (2, elapsed) ∷ (9, no_bytes) ∷ [])
      t
      b
Loop-total_example =
    Loop-total list_channel decoders fresh ((1, bytes begin) ∷ (2, elapsed) ∷ (9, no_bytes) ∷ [])

-- Silence for more than a second.
expires :
    Loop list_channel decoders fresh
      ((900000000, elapsed) ∷ (1000000001, elapsed) ∷ [])
      (record fresh { served = record opened { status = disconnected heartbeat_expired } })
      true
unfolding parse_message received added turn parsed is_expired end_with Protocol.new shared_new
expires =
    reads_on (settles refl (λ e. cc e)) (serves refl (settles refl (λ e. cc e)) (breaks_off refl))

Loop-Says_example :
    Says list_channel (record opened { status = disconnected heartbeat_expired }) true
unfolding opened
Loop-Says_example = Loop-Says list_channel decoders list_channel-IsFifo expires refl

silence_example :
    Reads list_channel decoders fresh (silent (900000000 ∷ 1000000000 ∷ [])) fresh false
    × (0 < 1000000000
        → 0 + 1000000000 < 1000000001
        → Reads list_channel decoders fresh
            (silent (900000000 ∷ 1000000000 ∷ 1000000001 ∷ []))
            (expired list_channel decoders fresh)
            true)
unfolding parse_message Protocol.new shared_new
silence_example =
    silence list_channel decoders fresh refl (900000000 ∷ 1000000000 ∷ []) [] 1000000001
      (ground arith)

serves_one :
    Loop list_channel decoders fresh (at_times (5 ∷ []) ((begin ++ end') ∷ [])) (after 5) false
unfolding parse_message turn parsed Protocol.new
serves_one = reads_on (settles refl (λ e. cc e)) whole

Loop-Bounded_example :
    (length (after 5).parser.buffer.buffer ≤ max_buffer_size + socket_buf_size)
    × (false ≡ false → length (after 5).parser.buffer.buffer ≤ max_buffer_size)
unfolding Protocol.new
Loop-Bounded_example =
    Loop-Bounded list_channel decoders serves_one (refl, omega arith) (omega arith, tt)
