-- ===== src/Tracker/Bootstrap.antt =====
-- The channels that are there at the start, of examples/channel_tracker.rs: the rows of `show
-- channels as json` become events. The crate serde_json is the parameter `JsonRows`.
use freeswitch_esl_rs.Prelude.{
  if◌then◌else◌, Result, ok, err, Option, none, some, List, [], ◌∷◌, ◌++◌, Bytes, codes, unwrap_or,
}
use freeswitch_esl_rs.Text.{is_empty}
use freeswitch_esl_rs.Text.Signed.{map_some}
use freeswitch_esl_rs.Headers.{Headers}
use freeswitch_esl_rs.Event.{EslEvent, with_type, set_header, unique_id}
use freeswitch_esl_rs.Channel.Accessors.{and_then}
use freeswitch_esl_rs.Tracker.{ChannelTracker, process_event}
use freeswitch_esl_rs.Event
use freeswitch_esl_rs.Event.Types

abbrev pub db_to_event : List (Bytes × Bytes)
db_to_event =
    (codes "uuid", codes "Unique-ID")
    ∷ (codes "name", codes "Channel-Name")
    ∷ (codes "state", codes "Channel-State")
    ∷ (codes "callstate", codes "Channel-Call-State")
    ∷ (codes "direction", codes "Call-Direction")
    ∷ (codes "cid_name", codes "Caller-Caller-ID-Name")
    ∷ (codes "cid_num", codes "Caller-Caller-ID-Number")
    ∷ (codes "initial_cid_name", codes "Caller-Orig-Caller-ID-Name")
    ∷ (codes "initial_cid_num", codes "Caller-Orig-Caller-ID-Number")
    ∷ (codes "callee_name", codes "Caller-Callee-ID-Name")
    ∷ (codes "callee_num", codes "Caller-Callee-ID-Number")
    ∷ (codes "dest", codes "Caller-Destination-Number")
    ∷ (codes "call_uuid", codes "Channel-Call-UUID")
    ∷ []

-- What the source calls of `serde_json::Value`.
pub record JsonRows : Type 1 where
  pub Value : Type 0
  pub from_str : Bytes → Result Bytes Value
  pub member : Value → Bytes → Option Value
  pub as_str : Value → Option Bytes
  pub as_array : Value → Option (List Value)

module _ (J : JsonRows) where
  unfoldable pub text_at : J.Value → Bytes → Option Bytes
  text_at row key = and_then (J.member row key) J.as_str

  -- A field that is no text, or the empty one, gives no header.
  unfoldable pub with_field : EslEvent → Bytes → Option Bytes → EslEvent
  unfolding set_header
  with_field event header_name none = event
  with_field event header_name (some val) =
      if is_empty val then event else set_header event header_name val

  unfoldable pub with_fields : J.Value → List (Bytes × Bytes) → EslEvent → EslEvent
  unfolding with_field text_at
  with_fields row [] event = event
  with_fields row ((json_key, header_name) ∷ table) event =
      with_fields row table (with_field event header_name (text_at row json_key))

  unfoldable pub fake_event : J.Value → EslEvent
  unfolding with_fields Event.with_type
  fake_event row = with_fields row db_to_event (Event.with_type Types.channel_create)

  -- A row without a text for its UUID gives no event.
  unfoldable pub fake_channel_create : J.Value → Option EslEvent
  unfolding fake_event text_at
  fake_channel_create row = map_some (λ _. fake_event row) (text_at row (codes "uuid"))

  module _ (order : Headers → Headers) where
    abbrev pub pushed : List Bytes → Option Bytes → List Bytes
    pushed uuids none = uuids
    pushed uuids (some uuid) = uuids ++ uuid ∷ []

    unfoldable pub bootstrap_row :
        ChannelTracker × List Bytes → Option EslEvent → ChannelTracker × List Bytes
    unfolding process_event unique_id
    bootstrap_row s none = s
    bootstrap_row (t, uuids) (some event) =
        (process_event order t event, pushed uuids (unique_id event))

    unfoldable pub bootstrap_rows :
        ChannelTracker × List Bytes → List J.Value → ChannelTracker × List Bytes
    unfolding bootstrap_row fake_channel_create
    bootstrap_rows s [] = s
    bootstrap_rows s (row ∷ rows) = bootstrap_rows (bootstrap_row s (fake_channel_create row)) rows

    unfoldable pub bootstrap_json :
        ChannelTracker → Result Bytes J.Value → ChannelTracker × List Bytes
    unfolding bootstrap_rows
    bootstrap_json t (err e) = (t, [])
    bootstrap_json t (ok json) =
        bootstrap_rows (t, []) (unwrap_or (and_then (J.member json (codes "rows")) J.as_array) [])

    -- The tracker, and the UUIDs of the channels, for a dump of each.
    unfoldable pub bootstrap : ChannelTracker → Bytes → ChannelTracker × List Bytes
    unfolding bootstrap_json
    bootstrap t body = bootstrap_json t (J.from_str body)
