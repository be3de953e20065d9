-- ===== src/Tracker/Tracked.antt =====
-- `TrackedChannel` of examples/channel_tracker.rs: all that was heard of one channel.
use freeswitch_esl_rs.Prelude.{
  ltb, leb, if◌then◌else◌, take, drop, ℕ, ◌+◌, Bool, true, ◌||◌, Option, none, some, List, [], ◌∷◌,
  ◌++◌, Bytes, codes, unwrap_or,
}
use freeswitch_esl_rs.Text.Trim.{lines}
use freeswitch_esl_rs.Buffer.Pattern.{index_of}
use freeswitch_esl_rs.Headers.{Headers, insert}
use freeswitch_esl_rs.Event.{EslEvent}
use freeswitch_esl_rs.Event.Keys.{inserts}
use freeswitch_esl_rs.Channel.{
  ChannelState, channel_state_name, channel_state_from_str, CallState, call_state_name,
  call_state_from_str, CallDirection, call_direction_name, call_direction_from_str,
}
use freeswitch_esl_rs.Channel.Accessors.{and_then}
use freeswitch_esl_rs.Headers

pub record TrackedChannel : Type 0 where
  pub values : Headers

unfoldable pub new : TrackedChannel
new = record { values = [] }

unfoldable pub get : TrackedChannel → Bytes → Option Bytes
get ch key = Headers.get ch.values key

unfoldable pub var : TrackedChannel → Bytes → Option Bytes
var ch name = Headers.get ch.values (codes "variable_" ++ name)

unfoldable pub channel_state : TrackedChannel → Option ChannelState
unfolding get channel_state_from_str
channel_state ch = and_then (get ch (codes "Channel-State")) channel_state_from_str

unfoldable pub call_state : TrackedChannel → Option CallState
unfolding get call_state_from_str
call_state ch = and_then (get ch (codes "Channel-Call-State")) call_state_from_str

unfoldable pub call_direction : TrackedChannel → Option CallDirection
unfolding get call_direction_from_str
call_direction ch = and_then (get ch (codes "Call-Direction")) call_direction_from_str

unfoldable pub hangup_cause : TrackedChannel → Option Bytes
unfolding get
hangup_cause ch = get ch (codes "Hangup-Cause")

-- Whether a text may be cut in front of the byte: it starts a character.
abbrev pub starts_char : Bytes → Bool
starts_char [] = true
starts_char (c ∷ s) = ltb c 0x80 || leb 0xC0 c

-- `&s[..n.min(s.len())]`: none where it panics, since it cuts a character in two.
unfoldable pub first_bytes : ℕ → Bytes → Option Bytes
first_bytes n s = if starts_char (drop n s) then some (take n s) else none

unfoldable pub short_uuid : Bytes → Option Bytes
unfolding first_bytes
short_uuid uuid = first_bytes 8 uuid

-- `Some(v)` by its text, `None` by a dash.
abbrev pub display_or {ℓ} : {T : Type ℓ} → (T → Bytes) → Option T → Bytes
display_or display (some v) = display v
display_or display none = codes "-"

unfoldable pub format_fields : TrackedChannel → Bytes × Bytes × Bytes × Bytes × Bytes
unfolding channel_state call_state call_direction get channel_state_name call_state_name
    call_direction_name
format_fields ch = (
  display_or channel_state_name (channel_state ch),
  display_or call_state_name (call_state ch),
  display_or call_direction_name (call_direction ch),
  unwrap_or (get ch (codes "Caller-Caller-ID-Number")) (codes "-"),
  unwrap_or (get ch (codes "Channel-Name")) (codes "-"),
)

-- The headers of the event are walked in the order of its map.
unfoldable pub update_from_event : (Headers → Headers) → TrackedChannel → EslEvent → TrackedChannel
unfolding inserts
update_from_event order ch event = record { values = inserts ch.values (order event.headers) }

-- `percent_decode_str(value).decode_utf8_lossy()` is the parameter.
module _ (percent_decode_lossy : Bytes → Bytes) where
  unfoldable pub dump_line : Headers → Bytes → Headers
  unfolding index_of
  dump_line m line = elim (index_of line (codes ": ")) [
    | none ↦ m
    | some i ↦ insert m (take i line) (percent_decode_lossy (drop (i + 2) line))
  ]

  unfoldable pub dump_lines : Headers → List Bytes → Headers
  unfolding dump_line
  dump_lines m [] = m
  dump_lines m (line ∷ rest) = dump_lines (dump_line m line) rest

  unfoldable pub update_from_dump : TrackedChannel → Bytes → TrackedChannel
  unfolding dump_lines lines
  update_from_dump ch body = record { values = dump_lines ch.values (lines body) }
