-- ===== src/Connection/Reader.antt =====
-- `reader_loop_inner` of src/connection.rs: what the task that reads the socket makes of a message,
-- of what a read returns, and of the time without traffic.
use freeswitch_esl_rs.Prelude.{
  ltb, if◌then◌else◌, ok, err, ℕ, ◌-◌, ◌*◌, Bool, true, false, ◌&&◌, Option, none, some, List, [],
  ◌∷◌, ◌++◌, Bytes, codes,
}
use freeswitch_esl_rs.Constants.{header_content_type}
use freeswitch_esl_rs.Text.{bytes_eq}
use freeswitch_esl_rs.Error.{EslResult, display}
use freeswitch_esl_rs.Headers.{get}
use freeswitch_esl_rs.Protocol.{
  MessageType, auth_request, command_reply, api_response, event, disconnect, unknown, EslMessage,
  EslParser, add_data, parse_message,
}
use freeswitch_esl_rs.Event.{EventFormat, plain, format_from_content_type}
use freeswitch_esl_rs.Protocol.Events.{SerdeJson, XmlReader, parse_event}
use freeswitch_esl_rs.Connection.{
  connection_closed, heartbeat_expired, DisconnectReason, server_notice, io_error, ConnectionStatus,
  disconnected, MpscChannel, SharedState, dispatch_event,
}

-- Whether the loop goes on, waits for the socket, or returns.
pub data Flow : Type 0 where
  goes_on waits exits : Flow

-- What `timeout(…, reader.read(…))` returns: no bytes at the end of the stream, bytes, an I/O error
-- by its text, or nothing within two seconds.
pub data SocketRead : Type 0 where
  no_bytes : SocketRead
  bytes : Bytes → SocketRead
  read_error : Bytes → SocketRead
  elapsed : SocketRead

-- `EventFormat` of a message, by its content type.
unfoldable pub format_of : Option Bytes → EventFormat
unfolding format_from_content_type
format_of none = plain
format_of (some ct) = format_from_content_type ct

-- The crates that the decoding of a message uses.
pub record Decoders : Type 1 where
  pub percent_decode : Bytes → Bytes
  pub serde_json : SerdeJson
  pub quick_xml : XmlReader

abbrev pub is_linger : Option Bytes → Bool
unfolding bytes_eq
is_linger none = false
is_linger (some disposition) = bytes_eq disposition (codes "linger")

abbrev pub nanoseconds_per_ms : ℕ
nanoseconds_per_ms = 1000000

-- The liveness check.
unfoldable pub is_expired : SharedState → ℕ → ℕ → Bool
is_expired shared last now =
    ltb 0 shared.liveness_timeout_ms
    && ltb (shared.liveness_timeout_ms * nanoseconds_per_ms) (now - last)

module _ (C : MpscChannel) where
  -- What messages change. `sent` are the messages that were sent to callers, each with the call
  -- whose sender it was.
  pub record Served : Type 0 where
    pub shared : SharedState
    pub chan : C.Chan
    pub status : ConnectionStatus
    pub sent : List (ℕ × EslMessage)

  -- The variables of the loop; times are in nanoseconds.
  pub record Reader : Type 0 where
    pub parser : EslParser
    pub last_recv : ℕ
    pub served : Served

  unfoldable pub end_with : DisconnectReason → Served → Served
  end_with reason s = record s { status = disconnected reason }

  -- `reader_loop`: the inner loop is left in this state, having panicked or not.
  unfoldable reader_loop : Served → Bool → Served
  unfolding end_with
  reader_loop s true = end_with (io_error (codes "reader task panicked")) s
  reader_loop s false = s

  -- `pending.take()`, and the sender is used.
  unfoldable pub route_reply : Option ℕ → EslMessage → Served → Served
  route_reply none m s = s
  route_reply (some call) m s = record s {
    shared = record s.shared { pending_reply = none };
    sent = s.sent ++ (call, m) ∷ [];
  }

  -- The event is handed to the application; the loop goes on if that has not closed the channel.
  unfoldable pub dispatched : Served → SharedState × C.Chan × Bool → Served × Bool
  dispatched s (shared, chan, open') = (record s { shared = shared; chan = chan }, open')

  module _ (D : Decoders) where
    unfoldable pub handle_in : MessageType → Served → EslMessage → Served × Bool
    unfolding dispatched dispatch_event parse_event format_of route_reply end_with get
    handle_in event s m = dispatched s (
        dispatch_event C s.shared s.chan (
          parse_event D.percent_decode D.serde_json D.quick_xml m
            (format_of (get m.headers header_content_type))))
    handle_in command_reply s m = (route_reply s.shared.pending_reply m s, true)
    handle_in api_response s m = (route_reply s.shared.pending_reply m s, true)
    handle_in disconnect s m =
        if is_linger (get m.headers (codes "Content-Disposition"))
        then (s, true)
        else (end_with server_notice s, false)
    handle_in auth_request s m = (s, true)
    handle_in (unknown _) s m = (s, true)

    -- The branch `Ok(Some(message))`: whether the loop goes on.
    unfoldable pub handle : Served → EslMessage → Served × Bool
    unfolding handle_in
    handle s m = handle_in m.message_type s m

    -- The parser has been asked for a message.
    unfoldable pub parsed : Served → EslResult (Option EslMessage) → Served × Flow
    unfolding handle end_with display
    parsed s (ok (some m)) = let (t, on) = handle s m in (t, if on then goes_on else exits)
    parsed s (ok none) = (s, waits)
    parsed s (err e) = (end_with (io_error (display e)) s, exits)

    -- The first half of the loop's body.
    unfoldable pub turn : Reader → Reader × Flow
    unfolding parse_message parsed
    turn r =
        let p = parse_message D.percent_decode r.parser in
        let (s, flow) = parsed r.served p.1 in (record r { parser = p.0; served = s }, flow)

  unfoldable pub added : Reader → EslParser × EslResult (Unit {0}) → Reader × Bool
  unfolding end_with display
  added r (p, ok _) = (record r { parser = p }, true)
  added r (p, err e) =
      (record r { parser = p; served = end_with (io_error (display e)) r.served }, false)

  -- The second half: the socket was read, and it is now this late. Does the loop go on?
  unfoldable pub received : Reader → ℕ → SocketRead → Reader × Bool
  unfolding added add_data end_with is_expired
  received r now no_bytes = (record r { served = end_with connection_closed r.served }, false)
  received r now (bytes s) = added (record r { last_recv = now }) (add_data r.parser s)
  received r now (read_error e) = (record r { served = end_with (io_error e) r.served }, false)
  received r now elapsed =
      if is_expired r.served.shared r.last_recv now
      then (record r { served = end_with heartbeat_expired r.served }, false)
      else (r, true)
