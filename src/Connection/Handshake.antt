-- ===== src/Connection/Handshake.antt =====
-- The handshake of src/connection.rs: `recv_message`, `authenticate` and `connect_inner`, on what the
-- socket gives.
use Prim.Native.Nat.{max}
use freeswitch_esl_rs.Prelude.{
  if◌then◌else◌, ok, err, ◌>>◌, ℕ, Bool, true, false, Option, none, some, List, [], ◌∷◌, ◌++◌,
  Bytes, codes, unwrap_or,
}
use freeswitch_esl_rs.Constants.{default_timeout_ms}
use freeswitch_esl_rs.Text.{contains}
use freeswitch_esl_rs.Error.{
  io, authentication_failed, protocol_error, timeout, connection_closed, EslResult,
}
use freeswitch_esl_rs.Headers.{Headers}
use freeswitch_esl_rs.Protocol.{
  MessageType, auth_request, EslMessage, EslParser, add_data, parse_message,
}
use freeswitch_esl_rs.Command.Response.{EslResponse, is_success, reply_text}
use freeswitch_esl_rs.Command.Wire.{EslCommand, auth, user_auth, to_wire_format}
use freeswitch_esl_rs.Commands.Scan.{next}
use freeswitch_esl_rs.Connection.{connected, MpscChannel, shared_new}
use freeswitch_esl_rs.Connection.Reader.{SocketRead, no_bytes, bytes, read_error, elapsed, Reader}
use freeswitch_esl_rs.Connection.Client.{into_response}
use freeswitch_esl_rs.Protocol

pub data AuthMethod : Type 0 where
  password_method : (password : Bytes) → AuthMethod
  user_method : (user password : Bytes) → AuthMethod

-- What came of `TcpStream::connect` within its time.
pub data TcpConnect : Type 0 where
  established : TcpConnect
  refused : Bytes → TcpConnect
  unanswered : TcpConnect

unfoldable pub tcp_connect_with_timeout : TcpConnect → EslResult (Unit {0})
tcp_connect_with_timeout established = ok tt
tcp_connect_with_timeout (refused e) = err (io e)
tcp_connect_with_timeout unanswered = err (timeout default_timeout_ms)

-- The parser, the reads that are left, and the result; there is none while the socket is waited for.
abbrev pub Recv : Type 0
Recv = EslParser × List SocketRead × Option (EslResult EslMessage)

unfoldable pub stored :
    (EslParser → Recv) → List SocketRead → EslParser × EslResult (Unit {0}) → Recv
stored next xs (p, ok _) = next p
stored next xs (p, err e) = (p, xs, some (err e))

unfoldable pub read : (EslParser → Recv) → List SocketRead → EslParser → SocketRead → Recv
unfolding stored add_data
read next xs p no_bytes = (p, xs, some (err connection_closed))
read next xs p (bytes s) = stored next xs (add_data p s)
read next xs p (read_error e) = (p, xs, some (err (io e)))
read next xs p elapsed = (p, xs, some (err (timeout default_timeout_ms)))

-- The parser was asked for a message, with the read `x` to come.
unfoldable pub got :
    (EslParser → Recv)
    → SocketRead
    → List SocketRead
    → EslParser × EslResult (Option EslMessage)
    → Recv
unfolding read
got next x xs (p, ok (some m)) = (p, x ∷ xs, some (ok m))
got next x xs (p, ok none) = read next xs p x
got next x xs (p, err e) = (p, x ∷ xs, some (err e))

unfoldable pub got_last : EslParser × EslResult (Option EslMessage) → Recv
got_last (p, ok (some m)) = (p, [], some (ok m))
got_last (p, ok none) = (p, [], none)
got_last (p, err e) = (p, [], some (err e))

abbrev pub is_auth_request : MessageType → Bool
is_auth_request auth_request = true
is_auth_request _ = false

unfoldable pub auth_cmd : AuthMethod → EslCommand
auth_cmd (password_method password) = auth password
auth_cmd (user_method user password) = user_auth user password

unfoldable pub auth_result : EslResponse → EslResult (Unit {0})
unfolding is_success reply_text
auth_result r =
    if is_success r
    then ok tt
    else err (authentication_failed (unwrap_or (reply_text r) (codes "Authentication failed")))

-- What the handshake leaves: `written` is the command, if it was written.
pub record Handshake : Type 0 where
  pub parser : EslParser
  pub rest : List SocketRead
  pub written : Option Bytes
  pub result : Option (EslResult (Unit {0}))

-- It ends here.
abbrev pub ended : EslParser → List SocketRead → Option (EslResult (Unit {0})) → Handshake
ended p xs r = record { parser = p; rest = xs; written = none; result = r }

-- The reply came.
unfoldable pub answered_with : Bytes → Recv → Handshake
unfolding auth_result into_response
answered_with text (p, xs, none) = record {
  parser = p;
  rest = xs;
  written = some text;
  result = none;
}
answered_with text (p, xs, some (err e)) = record {
  parser = p;
  rest = xs;
  written = some text;
  result = some (err e);
}
answered_with text (p, xs, some (ok m)) = record {
  parser = p;
  rest = xs;
  written = some text;
  result = some (auth_result (into_response m));
}

-- `user.contains('@')`.
unfoldable pub check_user : AuthMethod → EslResult (Unit {0})
check_user (password_method _) = ok tt
check_user (user_method user _) =
    if contains user b'@'
    then ok tt
    else err (
        authentication_failed (
          codes "Invalid username format '"
          ++ (user ++ codes "': must be user@domain (e.g., admin@default)")))

module _ (percent_decode : Bytes → Bytes) where
  unfoldable pub recv_message : EslParser → List SocketRead → Recv
  unfolding got got_last parse_message
  recv_message p [] = got_last (parse_message percent_decode p)
  recv_message p (x ∷ xs) = got (λ q. recv_message q xs) x xs (parse_message percent_decode p)

module _ (percent_decode : Bytes → Bytes) (order : Headers → Headers) where
  -- The command is written, with the error of `write_all` if it fails.
  unfoldable pub sends : EslParser → List SocketRead → Option Bytes → EslResult Bytes → Handshake
  unfolding recv_message answered_with
  sends p xs write (err e) = ended p xs (some (err e))
  sends p xs (some e) (ok text) = ended p xs (some (err (io e)))
  sends p xs none (ok text) = answered_with text (recv_message percent_decode p xs)

  -- Whether the first message is a request.
  unfoldable pub asked_by :
      AuthMethod → Option Bytes → EslParser → List SocketRead → Bool → Handshake
  unfolding sends auth_cmd to_wire_format
  asked_by method write p xs true = sends p xs write (to_wire_format order (auth_cmd method))
  asked_by method write p xs false =
      ended p xs (some (err (protocol_error (codes "Expected auth request"))))

  -- The first message came.
  unfoldable pub asked : AuthMethod → Option Bytes → Recv → Handshake
  unfolding asked_by
  asked method write (p, xs, none) = ended p xs none
  asked method write (p, xs, some (err e)) = ended p xs (some (err e))
  asked method write (p, xs, some (ok m)) =
      asked_by method write p xs (is_auth_request m.message_type)

  unfoldable pub authenticate : EslParser → List SocketRead → AuthMethod → Option Bytes → Handshake
  unfolding asked recv_message
  authenticate p xs method write = asked method write (recv_message percent_decode p xs)

  unfoldable pub connected_by :
      AuthMethod → Option Bytes → List SocketRead → EslResult (Unit {0}) → Handshake
  unfolding authenticate Protocol.new
  connected_by method write xs (err e) = ended Protocol.new xs (some (err e))
  connected_by method write xs (ok _) = authenticate Protocol.new xs method write

  -- Before the connection is split and the reader task starts.
  unfoldable pub connect_inner :
      AuthMethod → TcpConnect → Option Bytes → List SocketRead → Handshake
  unfolding check_user tcp_connect_with_timeout connected_by Protocol.new
  connect_inner method tcp write xs =
      connected_by method write xs (check_user method >> tcp_connect_with_timeout tcp)

-- `open` is `mpsc::channel`, by its bound. The reader task starts at the time `now`.
module _ (C : MpscChannel) (open' : ℕ → C.Chan) where
  unfoldable pub split_and_spawn_with_options : EslParser → ℕ → ℕ → Reader C
  unfolding shared_new
  split_and_spawn_with_options parser event_queue_size now = record {
    parser = parser;
    last_recv = now;
    served = record {
      shared = shared_new;
      chan = open' (max event_queue_size 1);
      status = connected;
      sent = [];
    };
  }
