-- ===== src/Tracker.antt =====
-- `ChannelTracker` of examples/channel_tracker.rs: the channels that events tell of, by their
-- UUIDs. The log lines that it prints are left out.
use freeswitch_esl_rs.Prelude.{Option, none, some, List, [], Bytes, codes}
use freeswitch_esl_rs.Headers.{Headers}
use freeswitch_esl_rs.Event.Types.{EslEventType}
use freeswitch_esl_rs.Event.{EslEvent, unique_id}
use freeswitch_esl_rs.Event.Named.{job_uuid}
use freeswitch_esl_rs.Tracker.Tracked.{TrackedChannel, update_from_event, update_from_dump}
pub mod Tracked
pub mod Views
pub mod Heard
pub mod Bootstrap
pub mod Started
pub mod Fields
pub mod Rows
pub mod Main
pub mod Dumps
pub mod Said
pub mod Jobs
pub mod Arrival
pub mod Refinement
pub mod Start
use freeswitch_esl_rs.Event.Types
use freeswitch_esl_rs.Headers
use freeswitch_esl_rs.Tracker.Tracked

pub record ChannelTracker : Type 0 where
  pub channels : List (Bytes × TrackedChannel)
  pub pending_dumps : Headers

unfoldable pub new : ChannelTracker
new = record { channels = []; pending_dumps = [] }

-- `if let Some(ch) = channels.get_mut(uuid)`, with what is done to the channel.
unfoldable pub with_channel :
    List (Bytes × TrackedChannel)
    → Bytes
    → (TrackedChannel → TrackedChannel)
    → List (Bytes × TrackedChannel)
unfolding Headers.get Headers.insert
with_channel m uuid f = elim (Headers.get m uuid) [
  | none ↦ m
  | some ch ↦ Headers.insert m uuid (f ch)
]

-- `ch.data.remove("Other-Leg-Unique-ID")`.
unfoldable pub unbridged : TrackedChannel → TrackedChannel
unfolding Headers.remove
unbridged ch = record { values = Headers.remove ch.values (codes "Other-Leg-Unique-ID") }

module _ (order : Headers → Headers) where
  unfoldable pub update_channel : ChannelTracker → Bytes → EslEvent → ChannelTracker
  unfolding with_channel update_from_event
  update_channel t uuid event = record t {
    channels = with_channel t.channels uuid (λ ch. update_from_event order ch event);
  }

  -- The channel is updated for the log line, and removed if it is there.
  unfoldable pub destroyed : ChannelTracker → Bytes → EslEvent → ChannelTracker
  unfolding Headers.get Headers.insert Headers.remove update_from_event
  destroyed t uuid event = elim (Headers.get t.channels uuid) [
    | none ↦ t
    | some ch ↦ record t {
      channels =
          Headers.remove (Headers.insert t.channels uuid (update_from_event order ch event)) uuid;
    }
  ]

  -- The match on the type of the event.
  unfoldable pub process_typed : ChannelTracker → EslEvent → EslEventType → Bytes → ChannelTracker
  unfolding update_channel destroyed update_from_event with_channel unbridged Headers.insert
      Tracked.new
  process_typed t event Types.channel_create uuid = record t {
    channels = Headers.insert t.channels uuid (update_from_event order Tracked.new event);
  }
  process_typed t event Types.channel_destroy uuid = destroyed t uuid event
  process_typed t event Types.channel_hangup uuid = update_channel t uuid event
  process_typed t event Types.channel_hangup_complete uuid = update_channel t uuid event
  process_typed t event Types.channel_unbridge uuid = record t {
    channels = with_channel t.channels uuid (λ ch. unbridged (update_from_event order ch event));
  }
  process_typed t event _ uuid = update_channel t uuid event

  -- An event without a type, or that names no channel, changes nothing.
  unfoldable pub process_named :
      ChannelTracker → EslEvent → Option EslEventType → Option Bytes → ChannelTracker
  unfolding process_typed
  process_named t event none uuid = t
  process_named t event (some event_type) none = t
  process_named t event (some event_type) (some uuid) = process_typed t event event_type uuid

  unfoldable pub process_event : ChannelTracker → EslEvent → ChannelTracker
  unfolding process_named unique_id
  process_event t event = process_named t event event.event_type (unique_id event)

module _ (percent_decode_lossy : Bytes → Bytes) where
  unfoldable pub apply_dump : ChannelTracker → Bytes → Bytes → ChannelTracker
  unfolding with_channel update_from_dump
  apply_dump t uuid body = record t {
    channels = with_channel t.channels uuid (λ ch. update_from_dump percent_decode_lossy ch body);
  }

  -- The body of a job's result, if it has one, for the channel of the job.
  unfoldable pub job_done : ChannelTracker → Bytes → Option Bytes → ChannelTracker
  unfolding apply_dump
  job_done t uuid none = t
  job_done t uuid (some body) = apply_dump t uuid body

  unfoldable pub handle_background_job : ChannelTracker → EslEvent → ChannelTracker
  unfolding job_uuid job_done Headers.get Headers.remove
  handle_background_job t event = elim (job_uuid event) [
    | none ↦ t
    | some job ↦ elim (Headers.get t.pending_dumps job) [
      | none ↦ t
      | some channel_uuid ↦
          job_done (record t { pending_dumps = Headers.remove t.pending_dumps job }) channel_uuid
            event.body
    ]
  ]
