-- ===== src/Tracker/Heard.antt =====
-- What `process_event` changes of what the tracker shows, for every type of event.
use freeswitch_esl_rs.Prelude.{
  if◌then◌else◌, Bool-cases, ◌≡◌, refl, ap, ◌∙◌, inl, inr, Option, none, some, Bytes,
}
use freeswitch_esl_rs.Text.{bytes_eq}
use freeswitch_esl_rs.Headers.{Headers}
use freeswitch_esl_rs.Headers.Laws.{get-insert}
use freeswitch_esl_rs.Event.Types.{EslEventType}
use freeswitch_esl_rs.Event.{EslEvent, unique_id}
use freeswitch_esl_rs.Event.Sorted.{Distinct}
use freeswitch_esl_rs.Event.Keys.{or_else}
use freeswitch_esl_rs.Tracker.Tracked.{update_from_event}
use freeswitch_esl_rs.Tracker.{
  ChannelTracker, unbridged, destroyed, process_typed, process_named, process_event,
}
use freeswitch_esl_rs.Tracker.Views.{
  shown, channel_view, change_of, over, without_other_leg, heard, noted_of, noted,
  shown-with_channel, get-destroyed, get-update_from_event, get-unbridged,
  channel_view-update_channel,
}
use mathlib.Core.List.{Permᴰ}
use mathlib.Core.Path.{fun_ext}
use freeswitch_esl_rs.Event.Types
use freeswitch_esl_rs.Headers
use freeswitch_esl_rs.Tracker.Tracked

-- The names of an event's headers differ, as they do in a map.
abbrev pub IsMapped : EslEvent → Type 0
IsMapped e = Distinct e.headers

module _ (order : Headers → Headers) (perm : (m : Headers) → Permᴰ (order m) m) where
  new-events :
      (e : EslEvent)
      → IsMapped e
      → Headers.get (update_from_event order Tracked.new e).values ≡ Headers.get e.headers
  unfolding Tracked.new Headers.get
  new-events e d =
      get-update_from_event order perm e d Tracked.new
      ∙ fun_ext λ k. or_else-none (Headers.get e.headers k)
    where
      or_else-none : (o : Option Bytes) → or_else o none ≡ o
      or_else-none none = refl
      or_else-none (some v) = refl

  channel_view-begun :
      (t : ChannelTracker) (e : EslEvent) (u v : Bytes)
      → IsMapped e
      → channel_view (process_typed order t e Types.channel_create u) v
        ≡ (if bytes_eq u v then some (Headers.get e.headers) else channel_view t v)
  unfolding channel_view process_typed shown
  channel_view-begun t e u v d =
      ap shown (get-insert t.channels u (update_from_event order Tracked.new e) v)
      ∙ elim (Bool-cases (bytes_eq u v)) [
        | inl y ↦ rw y (ap some (new-events e d))
        | inr n ↦ rw n refl
      ]

  channel_view-ended :
      (t : ChannelTracker) (e : EslEvent) (u v : Bytes)
      → channel_view (destroyed order t u e) v ≡ (if bytes_eq u v then none else channel_view t v)
  unfolding channel_view shown
  channel_view-ended t e u v =
      ap shown (get-destroyed order t u e v)
      ∙ elim (Bool-cases (bytes_eq u v)) [ inl y ↦ rw y refl | inr n ↦ rw n refl ]

  channel_view-process_typed :
      (t : ChannelTracker) (e : EslEvent) (ty : EslEventType) (u v : Bytes)
      → IsMapped e
      → channel_view (process_typed order t e ty u) v ≡ (
          if bytes_eq u v
          then heard (change_of ty) (Headers.get e.headers) (channel_view t v)
          else channel_view t v)
  unfolding process_typed channel_view
  channel_view-process_typed t e Types.channel_create u v d = channel_view-begun t e u v d
  channel_view-process_typed t e Types.channel_destroy u v d = channel_view-ended t e u v
  channel_view-process_typed t e Types.channel_unbridge u v d =
      shown-with_channel t.channels u (λ ch. unbridged (update_from_event order ch e))
        (λ old. without_other_leg (over (Headers.get e.headers) old)) (get-unbridged order perm e d)
        v
  channel_view-process_typed t e _ u v d = channel_view-update_channel order perm e d t u v

  channel_view-process_named :
      (t : ChannelTracker) (e : EslEvent) (o : Option EslEventType) (i : Option Bytes) (v : Bytes)
      → IsMapped e
      → channel_view (process_named order t e o i) v
        ≡ noted_of (channel_view t) (Headers.get e.headers) o i v
  unfolding process_named
  channel_view-process_named t e none i v d = refl
  channel_view-process_named t e (some ty) none v d = refl
  channel_view-process_named t e (some ty) (some u) v d = channel_view-process_typed t e ty u v d

  pub channel_view-process_event :
      (t : ChannelTracker) (e : EslEvent) (v : Bytes)
      → IsMapped e
      → channel_view (process_event order t e) v ≡ noted (channel_view t) e v
  unfolding process_event noted
  channel_view-process_event t e v d = channel_view-process_named t e e.event_type (unique_id e) v d
