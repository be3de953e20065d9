-- ===== src/Error.antt =====
-- src/error.rs: the error type, its texts, and the two questions that callers ask of an error. A
-- foreign error (I/O, JSON, XML, UTF-8) is the text that it displays. `OriginateError` is that of
-- src/commands/originate.rs.
use freeswitch_esl_rs.Prelude.{Result, ℕ, Bool, true, false, ◌++◌, Bytes, codes}
use freeswitch_esl_rs.Text.Decimal.{decimal}

pub data OriginateError : Type 0 where
  unclosed_quote : Bytes → OriginateError
  too_many_applications : OriginateError
  parse_error : Bytes → OriginateError

pub data EslError : Type 0 where
  io : Bytes → EslError
  not_connected : EslError
  authentication_failed : (reason : Bytes) → EslError
  protocol_error : (message : Bytes) → EslError
  command_failed : (reply_text : Bytes) → EslError
  unexpected_reply : (reply_text : Bytes) → EslError
  timeout : (timeout_ms : ℕ) → EslError
  invalid_event_format : (format : Bytes) → EslError
  json_error : Bytes → EslError
  xml_error : Bytes → EslError
  utf8_error : Bytes → EslError
  buffer_overflow : (size limit : ℕ) → EslError
  invalid_header : (header : Bytes) → EslError
  missing_header : (header : Bytes) → EslError
  connection_closed : EslError
  heartbeat_expired : (interval_ms : ℕ) → EslError
  invalid_uuid : (uuid : Bytes) → EslError
  queue_full : EslError
  generic : (message : Bytes) → EslError
  originate : OriginateError → EslError

abbrev pub EslResult {ℓ} : Type ℓ → Type ℓ
EslResult A = Result EslError A

unfoldable pub originate_error_display : OriginateError → Bytes
originate_error_display (unclosed_quote s) = codes "unclosed quote at: " ++ s
originate_error_display too_many_applications =
    codes "too many applications for non-inline dialplan"
originate_error_display (parse_error s) = codes "parse error: " ++ s

-- The `#[error("…")]` texts.
unfoldable pub display : EslError → Bytes
unfolding originate_error_display decimal
display (io e) = codes "IO error: " ++ e
display not_connected = codes "Not connected to FreeSWITCH"
display (authentication_failed reason) = codes "Authentication failed: " ++ reason
display (protocol_error message) = codes "Protocol error: " ++ message
display (command_failed reply_text) = codes "Command failed: " ++ reply_text
display (unexpected_reply reply_text) = codes "Unexpected reply: " ++ reply_text
display (timeout timeout_ms) =
    codes "Operation timed out after " ++ decimal timeout_ms ++ codes "ms"
display (invalid_event_format format) = codes "Invalid event format: " ++ format
display (json_error e) = codes "JSON parsing error: " ++ e
display (xml_error e) = codes "XML parsing error: " ++ e
display (utf8_error e) = codes "UTF-8 conversion error: " ++ e
display (buffer_overflow size limit) =
    codes "Buffer overflow: message size "
    ++ decimal size
    ++ codes " exceeds limit "
    ++ decimal limit
display (invalid_header header) = codes "Invalid header format: " ++ header
display (missing_header header) = codes "Missing required header: " ++ header
display connection_closed = codes "Connection closed by FreeSWITCH"
display (heartbeat_expired interval_ms) =
    codes "Heartbeat expired after " ++ decimal interval_ms ++ codes "ms without traffic"
display (invalid_uuid uuid) = codes "Invalid UUID format: " ++ uuid
display queue_full = codes "Event queue is full - dropping events"
display (generic message) = codes "ESL error: " ++ message
display (originate e) = codes "Originate error: " ++ originate_error_display e

unfoldable pub is_recoverable : EslError → Bool
is_recoverable (io _) = false
is_recoverable not_connected = false
is_recoverable connection_closed = false
is_recoverable (authentication_failed _) = false
is_recoverable (heartbeat_expired _) = false
is_recoverable (timeout _) = true
is_recoverable (command_failed _) = true
is_recoverable (unexpected_reply _) = true
is_recoverable queue_full = true
is_recoverable _ = false

unfoldable pub is_connection_error : EslError → Bool
is_connection_error (io _) = true
is_connection_error not_connected = true
is_connection_error connection_closed = true
is_connection_error (heartbeat_expired _) = true
is_connection_error _ = false
