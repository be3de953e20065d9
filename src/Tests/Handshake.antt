-- ===== src/Tests/Handshake.antt =====
-- The theorems on the handshake, at a concrete session.
use freeswitch_esl_rs.Prelude.{ok, ◌>>◌, ◌≡◌, refl, true, none, some, List, [], ◌∷◌, Bytes, codes}
use freeswitch_esl_rs.Text.{bytes_eq, starts_with}
use freeswitch_esl_rs.Headers.{Headers, get, insert}
use freeswitch_esl_rs.Protocol.{EslMessage, EslParser, add_data, parse_message}
use freeswitch_esl_rs.Command.Response.{is_success}
use freeswitch_esl_rs.Command.Wire.{to_wire_format}
use freeswitch_esl_rs.Connection.Reader.{SocketRead, bytes, elapsed}
use freeswitch_esl_rs.Connection.Client.{into_response}
use freeswitch_esl_rs.Connection.Handshake.{
  recv_message, AuthMethod, password_method, established, tcp_connect_with_timeout, stored, read,
  got, is_auth_request, auth_cmd, auth_result, answered_with, check_user, sends, asked_by, asked,
  authenticate, connected_by, connect_inner,
}
use freeswitch_esl_rs.Connection.Leftover.{TakesMessage}
use freeswitch_esl_rs.Connection.Connect.{Continues, connect_inner-asks, connect_inner-takes}
use freeswitch_esl_rs.Protocol

abbrev decode : Bytes → Bytes
decode s = s

abbrev in_order : Headers → Headers
in_order m = m

abbrev method : AuthMethod
method = password_method (codes "ClueCon")

-- The request comes in two reads, the second of which has the reply and the start of an event.
abbrev session : List SocketRead
session =
    bytes (codes "Content-Type: auth/re")
    ∷ bytes (codes "quest\n\nContent-Type: command/reply\nReply-Text: +OK accepted\n\nContent-Ty")
    ∷ elapsed
    ∷ []

succeeds : (connect_inner decode in_order method established none session).result ≡ some (ok tt)
unfolding connect_inner connected_by authenticate asked asked_by sends answered_with recv_message
    got read stored add_data parse_message Protocol.new bytes_eq get insert check_user
    tcp_connect_with_timeout auth_result auth_cmd to_wire_format is_success starts_with
    into_response
succeeds = refl

writes_command :
    (connect_inner decode in_order method established none session).written
    ≡ some (codes "auth ClueCon\n\n")
unfolding connect_inner connected_by authenticate asked asked_by sends answered_with recv_message
    got read stored add_data parse_message Protocol.new bytes_eq get insert check_user
    tcp_connect_with_timeout auth_result auth_cmd to_wire_format is_success starts_with
    into_response
writes_command = refl

connect_inner-takes_example :
    Continues decode in_order session method
      (connect_inner decode in_order method established none session)
connect_inner-takes_example =
    connect_inner-takes decode in_order method established none session succeeds

connect_inner-asks_example :
    ((check_user method >> tcp_connect_with_timeout established) ≡ ok tt)
    × (to_wire_format in_order (auth_cmd method) ≡ ok (codes "auth ClueCon\n\n"))
    × (q : EslParser) × (ys : List SocketRead) × (request : EslMessage) × TakesMessage decode
        Protocol.new session q ys request
    × (is_auth_request request.message_type ≡ true)
connect_inner-asks_example =
    connect_inner-asks decode in_order method established none session (codes "auth ClueCon\n\n")
      writes_command
