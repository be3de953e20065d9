-- ===== src/Constants.antt =====
-- src/constants.rs: limits and the names that stand on the wire.
use freeswitch_esl_rs.Prelude.{ℕ, ◌*◌, Bytes, codes}

abbrev pub socket_buf_size : ℕ
socket_buf_size = 65536

abbrev pub max_message_size : ℕ
max_message_size = 8 * 1024 * 1024

abbrev pub max_buffer_size : ℕ
max_buffer_size = 16 * 1024 * 1024

abbrev pub header_terminator : Bytes
header_terminator = codes "\n\n"

abbrev pub line_terminator : Bytes
line_terminator = codes "\n"

abbrev pub content_type_auth_request : Bytes
content_type_auth_request = codes "auth/request"

abbrev pub content_type_command_reply : Bytes
content_type_command_reply = codes "command/reply"

abbrev pub content_type_api_response : Bytes
content_type_api_response = codes "api/response"

abbrev pub content_type_text_event_plain : Bytes
content_type_text_event_plain = codes "text/event-plain"

abbrev pub content_type_text_event_json : Bytes
content_type_text_event_json = codes "text/event-json"

abbrev pub content_type_text_event_xml : Bytes
content_type_text_event_xml = codes "text/event-xml"

abbrev pub header_content_type : Bytes
header_content_type = codes "Content-Type"

abbrev pub header_content_length : Bytes
header_content_length = codes "Content-Length"

abbrev pub header_reply_text : Bytes
header_reply_text = codes "Reply-Text"

abbrev pub header_event_name : Bytes
header_event_name = codes "Event-Name"

abbrev pub header_unique_id : Bytes
header_unique_id = codes "Unique-ID"

abbrev pub header_caller_uuid : Bytes
header_caller_uuid = codes "Caller-Unique-ID"

abbrev pub header_job_uuid : Bytes
header_job_uuid = codes "Job-UUID"

abbrev pub default_timeout_ms : ℕ
default_timeout_ms = 2000

abbrev pub max_event_queue_size : ℕ
max_event_queue_size = 1000
