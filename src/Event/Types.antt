-- ===== src/Event/Types.antt =====
-- The event types of src/event.rs, which the macro `esl_event_types` generates from a list of
-- variants and wire names: the type, `Display` and `parse_event_type`.
use freeswitch_esl_rs.Prelude.{◌≡◌, refl, ◌↔◌, Option, some, List, [], ◌∷◌, Bytes, codes}
use freeswitch_esl_rs.Text.Case.{to_uppercase}
use freeswitch_esl_rs.Wire.{match_name, IsWire, match_name_iff}

pub data EslEventType : Type 0 where
  custom clone channel_create channel_destroy channel_state channel_callstate : EslEventType
  channel_answer channel_hangup channel_hangup_complete channel_execute : EslEventType
  channel_execute_complete channel_hold channel_unhold channel_bridge : EslEventType
  channel_unbridge channel_progress channel_progress_media channel_outgoing : EslEventType
  channel_park channel_unpark channel_application channel_originate : EslEventType
  channel_uuid api log inbound_chan outbound_chan startup shutdown publish : EslEventType
  unpublish talk notalk session_crash module_load module_unload dtmf message : EslEventType
  presence_in notify_in presence_out presence_probe message_waiting : EslEventType
  message_query roster codec background_job detected_speech detected_tone : EslEventType
  private_command heartbeat trap add_schedule del_schedule exe_schedule : EslEventType
  re_schedule reload_xml notify phone_feature phone_feature_subscribe : EslEventType
  send_message recv_message request_params channel_data general command : EslEventType
  session_heartbeat client_disconnected server_disconnected send_info recv_info : EslEventType
  recv_rtcp_message send_rtcp_message call_secure nat record_start record_stop : EslEventType
  playback_start playback_stop call_update failure socket_data media_bug_start : EslEventType
  media_bug_stop conference_data_query conference_data call_setup_req : EslEventType
  call_setup_result call_detail device_state text shutdown_requested all : EslEventType
  start_recording : EslEventType

-- `Display`.
unfoldable pub wire_name : EslEventType → Bytes
wire_name custom = codes "CUSTOM"
wire_name clone = codes "CLONE"
wire_name channel_create = codes "CHANNEL_CREATE"
wire_name channel_destroy = codes "CHANNEL_DESTROY"
wire_name channel_state = codes "CHANNEL_STATE"
wire_name channel_callstate = codes "CHANNEL_CALLSTATE"
wire_name channel_answer = codes "CHANNEL_ANSWER"
wire_name channel_hangup = codes "CHANNEL_HANGUP"
wire_name channel_hangup_complete = codes "CHANNEL_HANGUP_COMPLETE"
wire_name channel_execute = codes "CHANNEL_EXECUTE"
wire_name channel_execute_complete = codes "CHANNEL_EXECUTE_COMPLETE"
wire_name channel_hold = codes "CHANNEL_HOLD"
wire_name channel_unhold = codes "CHANNEL_UNHOLD"
wire_name channel_bridge = codes "CHANNEL_BRIDGE"
wire_name channel_unbridge = codes "CHANNEL_UNBRIDGE"
wire_name channel_progress = codes "CHANNEL_PROGRESS"
wire_name channel_progress_media = codes "CHANNEL_PROGRESS_MEDIA"
wire_name channel_outgoing = codes "CHANNEL_OUTGOING"
wire_name channel_park = codes "CHANNEL_PARK"
wire_name channel_unpark = codes "CHANNEL_UNPARK"
wire_name channel_application = codes "CHANNEL_APPLICATION"
wire_name channel_originate = codes "CHANNEL_ORIGINATE"
wire_name channel_uuid = codes "CHANNEL_UUID"
wire_name api = codes "API"
wire_name log = codes "LOG"
wire_name inbound_chan = codes "INBOUND_CHAN"
wire_name outbound_chan = codes "OUTBOUND_CHAN"
wire_name startup = codes "STARTUP"
wire_name shutdown = codes "SHUTDOWN"
wire_name publish = codes "PUBLISH"
wire_name unpublish = codes "UNPUBLISH"
wire_name talk = codes "TALK"
wire_name notalk = codes "NOTALK"
wire_name session_crash = codes "SESSION_CRASH"
wire_name module_load = codes "MODULE_LOAD"
wire_name module_unload = codes "MODULE_UNLOAD"
wire_name dtmf = codes "DTMF"
wire_name message = codes "MESSAGE"
wire_name presence_in = codes "PRESENCE_IN"
wire_name notify_in = codes "NOTIFY_IN"
wire_name presence_out = codes "PRESENCE_OUT"
wire_name presence_probe = codes "PRESENCE_PROBE"
wire_name message_waiting = codes "MESSAGE_WAITING"
wire_name message_query = codes "MESSAGE_QUERY"
wire_name roster = codes "ROSTER"
wire_name codec = codes "CODEC"
wire_name background_job = codes "BACKGROUND_JOB"
wire_name detected_speech = codes "DETECTED_SPEECH"
wire_name detected_tone = codes "DETECTED_TONE"
wire_name private_command = codes "PRIVATE_COMMAND"
wire_name heartbeat = codes "HEARTBEAT"
wire_name trap = codes "TRAP"
wire_name add_schedule = codes "ADD_SCHEDULE"
wire_name del_schedule = codes "DEL_SCHEDULE"
wire_name exe_schedule = codes "EXE_SCHEDULE"
wire_name re_schedule = codes "RE_SCHEDULE"
wire_name reload_xml = codes "RELOADXML"
wire_name notify = codes "NOTIFY"
wire_name phone_feature = codes "PHONE_FEATURE"
wire_name phone_feature_subscribe = codes "PHONE_FEATURE_SUBSCRIBE"
wire_name send_message = codes "SEND_MESSAGE"
wire_name recv_message = codes "RECV_MESSAGE"
wire_name request_params = codes "REQUEST_PARAMS"
wire_name channel_data = codes "CHANNEL_DATA"
wire_name general = codes "GENERAL"
wire_name command = codes "COMMAND"
wire_name session_heartbeat = codes "SESSION_HEARTBEAT"
wire_name client_disconnected = codes "CLIENT_DISCONNECTED"
wire_name server_disconnected = codes "SERVER_DISCONNECTED"
wire_name send_info = codes "SEND_INFO"
wire_name recv_info = codes "RECV_INFO"
wire_name recv_rtcp_message = codes "RECV_RTCP_MESSAGE"
wire_name send_rtcp_message = codes "SEND_RTCP_MESSAGE"
wire_name call_secure = codes "CALL_SECURE"
wire_name nat = codes "NAT"
wire_name record_start = codes "RECORD_START"
wire_name record_stop = codes "RECORD_STOP"
wire_name playback_start = codes "PLAYBACK_START"
wire_name playback_stop = codes "PLAYBACK_STOP"
wire_name call_update = codes "CALL_UPDATE"
wire_name failure = codes "FAILURE"
wire_name socket_data = codes "SOCKET_DATA"
wire_name media_bug_start = codes "MEDIA_BUG_START"
wire_name media_bug_stop = codes "MEDIA_BUG_STOP"
wire_name conference_data_query = codes "CONFERENCE_DATA_QUERY"
wire_name conference_data = codes "CONFERENCE_DATA"
wire_name call_setup_req = codes "CALL_SETUP_REQ"
wire_name call_setup_result = codes "CALL_SETUP_RESULT"
wire_name call_detail = codes "CALL_DETAIL"
wire_name device_state = codes "DEVICE_STATE"
wire_name text = codes "TEXT"
wire_name shutdown_requested = codes "SHUTDOWN_REQUESTED"
wire_name all = codes "ALL"
wire_name start_recording = codes "START_RECORDING"

-- The variants in the order of the macro's list.
abbrev pub variants : List EslEventType
variants =
    custom ∷ clone ∷ channel_create ∷ channel_destroy ∷ channel_state ∷ channel_callstate
    ∷ channel_answer ∷ channel_hangup ∷ channel_hangup_complete ∷ channel_execute
    ∷ channel_execute_complete ∷ channel_hold ∷ channel_unhold ∷ channel_bridge ∷ channel_unbridge
    ∷ channel_progress ∷ channel_progress_media ∷ channel_outgoing ∷ channel_park ∷ channel_unpark
    ∷ channel_application ∷ channel_originate ∷ channel_uuid ∷ api ∷ log ∷ inbound_chan
    ∷ outbound_chan ∷ startup ∷ shutdown ∷ publish ∷ unpublish ∷ talk ∷ notalk ∷ session_crash
    ∷ module_load ∷ module_unload ∷ dtmf ∷ message ∷ presence_in ∷ notify_in ∷ presence_out
    ∷ presence_probe ∷ message_waiting ∷ message_query ∷ roster ∷ codec ∷ background_job
    ∷ detected_speech ∷ detected_tone ∷ private_command ∷ heartbeat ∷ trap ∷ add_schedule
    ∷ del_schedule ∷ exe_schedule ∷ re_schedule ∷ reload_xml ∷ notify ∷ phone_feature
    ∷ phone_feature_subscribe ∷ send_message ∷ recv_message ∷ request_params ∷ channel_data
    ∷ general ∷ command ∷ session_heartbeat ∷ client_disconnected ∷ server_disconnected ∷ send_info
    ∷ recv_info ∷ recv_rtcp_message ∷ send_rtcp_message ∷ call_secure ∷ nat ∷ record_start
    ∷ record_stop ∷ playback_start ∷ playback_stop ∷ call_update ∷ failure ∷ socket_data
    ∷ media_bug_start ∷ media_bug_stop ∷ conference_data_query ∷ conference_data ∷ call_setup_req
    ∷ call_setup_result ∷ call_detail ∷ device_state ∷ text ∷ shutdown_requested ∷ all
    ∷ start_recording ∷ []

-- The arms of the generated `match`, in order, on the text in upper case.
unfoldable pub parse_event_type : Bytes → Option EslEventType
unfolding wire_name to_uppercase match_name
parse_event_type s = match_name wire_name variants (to_uppercase s)

match-wire_name : IsWire wire_name variants
unfolding match_name wire_name
match-wire_name custom = refl
match-wire_name _ = refl

-- A text is parsed to an event type exactly if in upper case it is the type's wire name.
parse_event_type_iff :
    (s : Bytes) (t : EslEventType) → (parse_event_type s ≡ some t) ↔ (to_uppercase s ≡ wire_name t)
unfolding parse_event_type
parse_event_type_iff s t = match_name_iff wire_name variants (to_uppercase s) t match-wire_name

-- Every event type is read back from its wire name.
pub parse_event_type-wire_name : (t : EslEventType) → parse_event_type (wire_name t) ≡ some t
unfolding parse_event_type wire_name
parse_event_type-wire_name custom = refl
parse_event_type-wire_name _ = refl
