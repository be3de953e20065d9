-- ===== src/Tests/Tracker.antt =====
-- The channel tracker of the examples, at concrete events.
use freeswitch_esl_rs.Prelude.{
  if◌then◌else◌, All, ok, err, ℕ, zero, suc, ◌≡◌, refl, sym, ◌∙◌, ◌≢◌, ◌||◌, Option, none, some,
  List, [], ◌∷◌, ◌++◌, map, arith, Bytes, codes,
}
use freeswitch_esl_rs.Text.{bytes_eq, starts_with}
use freeswitch_esl_rs.Text.Trim.{lines}
use freeswitch_esl_rs.Text.Signed.{map_some}
use freeswitch_esl_rs.Error.{queue_full, EslResult}
use freeswitch_esl_rs.Buffer.Pattern.{index_of}
use freeswitch_esl_rs.Headers.{Headers}
use freeswitch_esl_rs.Event.{EslEvent, unique_id}
use freeswitch_esl_rs.Protocol.Written.{named}
use freeswitch_esl_rs.Command.Response.{success, EslResponse}
use freeswitch_esl_rs.Channel.Accessors.{and_then}
use freeswitch_esl_rs.Tracker.Tracked.{short_uuid}
use freeswitch_esl_rs.Tracker.Views.{channel_view}
use freeswitch_esl_rs.Tracker.Bootstrap.{db_to_event, JsonRows, text_at, bootstrap}
use freeswitch_esl_rs.Tracker.Started.{is_tracked, listed, bootstrap-is_tracked}
use freeswitch_esl_rs.Tracker.Fields.{filled_in}
use freeswitch_esl_rs.Tracker.Rows.{bootstrap-filled_in}
use freeswitch_esl_rs.Tracker.Main.{Running, event_loop}
use freeswitch_esl_rs.Tracker.Jobs.{Names}
use freeswitch_esl_rs.Tracker.Arrival.{Dumped, event_loop-Dumped}
use freeswitch_esl_rs.Tracker.Refinement.{registry, follows_all, registry-event_loop}
use mathlib.Core.List.Permᴰ
use freeswitch_esl_rs.Event.Types
use freeswitch_esl_rs.Tracker
use freeswitch_esl_rs.Headers
use freeswitch_esl_rs.Event.Named
use freeswitch_esl_rs.Command.Response

-- What a parser of JSON makes of a list of channels: a document, a row, a text.
data Cell : Type 0 where
  document : List (List (Bytes × Bytes)) → Cell
  record_of : List (Bytes × Bytes) → Cell
  text_of : Bytes → Cell

unfoldable member_of : Cell → Bytes → Option Cell
unfolding Headers.get bytes_eq
member_of (document rows) key = if bytes_eq key (codes "rows") then some (document rows) else none
member_of (record_of fields) key = map_some text_of (Headers.get fields key)
member_of (text_of s) key = none

abbrev text_in : Cell → Option Bytes
text_in (text_of s) = some s
text_in (document rows) = none
text_in (record_of fields) = none

abbrev rows_in : Cell → Option (List Cell)
rows_in (document rows) = some (map record_of rows)
rows_in (record_of fields) = none
rows_in (text_of s) = none

abbrev first_row : List (Bytes × Bytes)
first_row = (codes "uuid", codes "a-1") ∷ (codes "dest", codes "") ∷ []

abbrev second_row : List (Bytes × Bytes)
second_row = (codes "uuid", codes "b-2") ∷ (codes "state", codes "CS_EXECUTE") ∷ []

abbrev two_channels : JsonRows
two_channels = record {
  Value = Cell;
  from_str = λ s. ok (document (first_row ∷ second_row ∷ []));
  member = member_of;
  as_str = text_in;
  as_array = rows_in;
}

abbrev as_it_is : Headers → Headers
as_it_is m = m

abbrev created : EslEvent
created = record {
  event_type = some Types.channel_create;
  headers = (codes "Unique-ID", codes "a-1") ∷ (codes "Channel-Name", codes "x") ∷ [];
  body = none;
}

abbrev bridged : EslEvent
bridged = record {
  event_type = some Types.channel_bridge;
  headers = (codes "Unique-ID", codes "a-1") ∷ (codes "Other-Leg-Unique-ID", codes "b-2") ∷ [];
  body = none;
}

abbrev parted : EslEvent
parted = record {
  event_type = some Types.channel_unbridge;
  headers = (codes "Unique-ID", codes "a-1") ∷ (codes "Channel-Name", codes "y") ∷ [];
  body = none;
}

bootstrap-is_tracked_example :
    is_tracked (bootstrap two_channels as_it_is Tracker.new (codes "{}")).0 (codes "b-2")
    ≡ listed (codes "b-2") (bootstrap two_channels as_it_is Tracker.new (codes "{}")).1
      || is_tracked Tracker.new (codes "b-2")
bootstrap-is_tracked_example =
    bootstrap-is_tracked two_channels as_it_is (codes "b-2") Tracker.new (codes "{}")

-- Both channels of the list.
test_bootstrap :
    (bootstrap two_channels as_it_is Tracker.new (codes "{}")).1 ≡ codes "a-1" ∷ codes "b-2" ∷ []
unfolding bootstrap member_of
test_bootstrap = refl

bootstrap-filled_in_example :
    All
      (λ f.
        and_then
          (channel_view (bootstrap two_channels as_it_is Tracker.new (codes "{}")).0 (codes "a-1"))
          (λ reads. reads f.1)
        ≡ filled_in (text_at two_channels (record_of first_row) f.0))
      db_to_event
unfolding Headers.get bytes_eq
bootstrap-filled_in_example =
    bootstrap-filled_in two_channels as_it_is (λ m. Permᴰ.refl m) Tracker.new (codes "{}")
      (document (first_row ∷ second_row ∷ [])) (document (first_row ∷ second_row ∷ []))
      (record_of first_row) [] (record_of second_row ∷ []) (codes "a-1") refl rows_member refl
      (uuid_of first_row (codes "a-1") refl) refl
      ((λ e. other (sym (uuid_of second_row (codes "b-2") refl) ∙ e)), tt)
  where
    rows_member :
        member_of (document (first_row ∷ second_row ∷ [])) (codes "rows")
        ≡ some (document (first_row ∷ second_row ∷ []))
    rows_member = unfold member_of in refl

    uuid_of :
        (fields : List (Bytes × Bytes)) (u : Bytes)
        → Headers.get fields (codes "uuid") ≡ some u
        → text_at two_channels (record_of fields) (codes "uuid") ≡ some u
    uuid_of fields u e = unfold text_at member_of in rw e refl

    other : some (codes "b-2") ≢ some (codes "a-1")
    other = ground arith

abbrev one_job : ℕ → Bytes → EslResult EslResponse
one_job zero command =
    ok (record { headers = (codes "Job-UUID", codes "j") ∷ []; body = none; status = success })
one_job (suc n) command = err queue_full

one_job_once : (n : ℕ) (command : Bytes) → Names (codes "j") (one_job n command) → n ≡ 0
one_job_once zero command named = refl
one_job_once (suc n) command (response, e, s) = cc

abbrev decoded : Bytes → Bytes
decoded s = s

abbrev beginning : Running
beginning = record { tracker = record { channels = []; pending_dumps = [] }; calls = 0 }

abbrev dump_done : EslEvent
dump_done = record {
  event_type = some Types.background_job;
  headers = (codes "Job-UUID", codes "j") ∷ [];
  body = some (codes "variable_a: 1\nno colon\n");
}

abbrev between : List (EslResult EslEvent)
between = ok bridged ∷ err queue_full ∷ ok created ∷ []

event_loop-dump_example :
    Dumped decoded
      (codes "a-1")
      (codes "j")
      (codes "variable_a: 1\nno colon\n")
      (event_loop one_job as_it_is decoded beginning (ok created ∷ between))
      (event_loop one_job as_it_is decoded beginning (ok created ∷ between ++ ok dump_done ∷ []))
unfolding unique_id Named.job_uuid Response.job_uuid Headers.get bytes_eq
event_loop-dump_example =
    event_loop-Dumped one_job as_it_is decoded beginning created dump_done (codes "a-1") (codes "j")
      (codes "variable_a: 1\nno colon\n") between refl refl (_, refl, refl) one_job_once
      ((λ e. cc), (tt, ((λ e. cc), tt))) refl refl refl

-- The eighth byte is the first of two of `é`.
test_short_uuid : short_uuid (codes "0123456" ++ 0xC3 ∷ 0xA9 ∷ []) ≡ none
unfolding short_uuid
test_short_uuid = refl

abbrev all_events : List (EslResult EslEvent)
all_events = ok created ∷ ok bridged ∷ ok parted ∷ ok dump_done ∷ []

registry-event_loop_example :
    registry (event_loop one_job as_it_is decoded beginning all_events)
    ≡ follows_all one_job as_it_is decoded (registry beginning) all_events
registry-event_loop_example =
    registry-event_loop one_job as_it_is decoded (λ m. Permᴰ.refl m) beginning all_events
      (
        ((ground arith, tt), (tt, tt)),
        (((ground arith, tt), (tt, tt)), (((ground arith, tt), (tt, tt)), ((tt, tt), tt))),
      )

-- What is known of the channel after that.
abbrev known : Bytes → Option Bytes
unfolding event_loop channel_view bytes_eq Headers.get
known key =
    and_then
      (channel_view (event_loop one_job as_it_is decoded beginning all_events).tracker
        (codes "a-1"))
      (λ reads. reads key)

test_event_loop :
    (known (codes "Channel-Name") ≡ some (codes "y"))
    × (known (codes "Other-Leg-Unique-ID") ≡ none)
    × (known (codes "variable_a") ≡ some (codes "1"))
unfolding known event_loop channel_view bytes_eq Headers.get lines index_of starts_with
test_event_loop = (refl, refl, refl)
