-- ===== src/Tracker/Main.antt =====
-- `main` of examples/channel_tracker.rs. What the client's `bgapi` returns is a parameter, at the
-- number of calls made before, and the events are what `recv` returned until the connection closed.
use freeswitch_esl_rs.Prelude.{
  ok, err, ℕ, ◌+◌, Option, none, some, List, [], ◌∷◌, ◌++◌, Bytes, codes,
}
use freeswitch_esl_rs.Error.{EslResult}
use freeswitch_esl_rs.Headers.{Headers}
use freeswitch_esl_rs.Event.Types.{EslEventType}
use freeswitch_esl_rs.Event.{EslEvent, unique_id}
use freeswitch_esl_rs.Command.Response.{EslResponse}
use freeswitch_esl_rs.Tracker.{ChannelTracker, process_event, handle_background_job}
use freeswitch_esl_rs.Tracker.Bootstrap.{JsonRows, bootstrap}
use freeswitch_esl_rs.Event.Types
use freeswitch_esl_rs.Command.Response
use freeswitch_esl_rs.Headers
use freeswitch_esl_rs.Tracker

-- The tracker, and the number of calls of `bgapi` so far.
pub record Running : Type 0 where
  pub tracker : ChannelTracker
  pub calls : ℕ

-- Waits for the dump of a channel, if the reply names the job.
unfoldable pub expects_dump : ChannelTracker → Bytes → EslResult EslResponse → ChannelTracker
unfolding Response.job_uuid Headers.insert
expects_dump t uuid (err e) = t
expects_dump t uuid (ok response) = elim (Response.job_uuid response) [
  | none ↦ t
  | some job ↦ record t { pending_dumps = Headers.insert t.pending_dumps job uuid }
]

module _ (bgapi : ℕ → Bytes → EslResult EslResponse) where
  unfoldable pub request_dump : Running → Bytes → Running
  unfolding expects_dump
  request_dump r uuid = record {
    tracker = expects_dump r.tracker uuid (bgapi r.calls (codes "uuid_dump " ++ uuid));
    calls = r.calls + 1;
  }

  unfoldable pub request_dumps : Running → List Bytes → Running
  unfolding request_dump
  request_dumps r [] = r
  request_dumps r (uuid ∷ uuids) = request_dumps (request_dump r uuid) uuids

  -- The dump that a channel's create event asks for.
  unfoldable pub dump_for : Running → Option Bytes → Running
  unfolding request_dump
  dump_for r none = r
  dump_for r (some uuid) = request_dump r uuid

  module _ (order : Headers → Headers) (percent_decode_lossy : Bytes → Bytes) where
    -- The match in the loop. A heartbeat only prints.
    unfoldable pub handled : Running → EslEvent → Option EslEventType → Running
    unfolding handle_background_job process_event dump_for unique_id
    handled r event (some Types.heartbeat) = r
    handled r event (some Types.background_job) = record r {
      tracker = handle_background_job percent_decode_lossy r.tracker event;
    }
    handled r event (some Types.channel_create) =
        dump_for (record r { tracker = process_event order r.tracker event }) (unique_id event)
    handled r event _ = record r { tracker = process_event order r.tracker event }

    -- What one `recv` returned: an error is logged.
    unfoldable pub next_event : Running → EslResult EslEvent → Running
    unfolding handled
    next_event r (err e) = r
    next_event r (ok event) = handled r event event.event_type

    unfoldable pub event_loop : Running → List (EslResult EslEvent) → Running
    unfolding next_event
    event_loop r [] = r
    event_loop r (result ∷ results) = event_loop (next_event r result) results

    module _ (J : JsonRows) where
      -- The channels of the body, then a dump of each.
      unfoldable pub bootstrapped : Option Bytes → Running
      unfolding bootstrap request_dumps Tracker.new
      bootstrapped none = record { tracker = Tracker.new; calls = 0 }
      bootstrapped (some body) =
          let (t, uuids) = bootstrap J order Tracker.new body in
          request_dumps (record { tracker = t; calls = 0 }) uuids

      -- The reply to `show channels as json`.
      unfoldable pub started : EslResult EslResponse → Running
      unfolding bootstrapped Tracker.new
      started (err e) = record { tracker = Tracker.new; calls = 0 }
      started (ok response) = bootstrapped response.body
