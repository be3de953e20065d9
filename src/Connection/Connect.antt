-- ===== src/Connection/Connect.antt =====
-- What is so of a connection of src/connection.rs once `connect_inner` has returned: who was asked,
-- what was written, and where the reader task goes on.
use mathlib.Core.List.{flatten}
use freeswitch_esl_rs.Prelude.{
  Bool-cases, ok, err, ◌>>◌, ◌≡◌, refl, sym, ap, ◌∙◌, inl, inr, Bool, true, false, Option, none,
  some, List, ◌∷◌, ◌++◌, Bytes,
}
use freeswitch_esl_rs.Error.{EslError, EslResult}
use freeswitch_esl_rs.Headers.{Headers}
use freeswitch_esl_rs.Protocol.{EslMessage, EslParser}
use freeswitch_esl_rs.Protocol.Framer.{Framer, view}
use freeswitch_esl_rs.Protocol.Resume.{feed}
use freeswitch_esl_rs.Protocol.Stream.{Frames}
use freeswitch_esl_rs.Protocol.Validity.{IsCompact}
use freeswitch_esl_rs.Command.Response.{EslResponse, is_success}
use freeswitch_esl_rs.Command.Wire.{to_wire_format}
use freeswitch_esl_rs.Connection.Reader.{SocketRead}
use freeswitch_esl_rs.Connection.Client.{into_response}
use freeswitch_esl_rs.Connection.Handshake.{
  recv_message, AuthMethod, TcpConnect, tcp_connect_with_timeout, Recv, is_auth_request, auth_cmd,
  auth_result, Handshake, answered_with, check_user, sends, asked_by, asked, authenticate,
  connected_by, connect_inner,
}
use freeswitch_esl_rs.Connection.Leftover.{
  chunk_reads, TakesMessage, Returned, recv_message-Returned, takes_two,
}
use freeswitch_esl_rs.Protocol

module _ (percent_decode : Bytes → Bytes) (order : Headers → Headers) where
  -- The command of the method was written, if it was, only once the first message of the stream had
  -- asked for it.
  abbrev pub Authenticated : EslParser → List SocketRead → AuthMethod → Handshake → Type 0
  Authenticated p xs method h =
      (text : Bytes)
      → h.written ≡ some text
      → (q : EslParser) × (ys : List SocketRead) × (request : EslMessage) × TakesMessage
          percent_decode p xs q ys request
        × (is_auth_request request.message_type ≡ true)
        × (to_wire_format order (auth_cmd method) ≡ ok text)

  -- If the handshake succeeds, the reply came next, and it is one of success. The parser that is
  -- left has what comes behind it.
  abbrev pub Succeeded : EslParser → List SocketRead → AuthMethod → Handshake → Type 0
  Succeeded p xs method h =
      h.result ≡ some (ok tt)
      → (text : Bytes) × (q : EslParser) × (ys : List SocketRead) × (request reply : EslMessage)
        × (h.written ≡ some text)
        × (to_wire_format order (auth_cmd method) ≡ ok text)
        × TakesMessage percent_decode p xs q ys request
        × (is_auth_request request.message_type ≡ true)
        × TakesMessage percent_decode q ys h.parser h.rest reply
        × (is_success (into_response reply) ≡ true)

  auth_result-ok : (r : EslResponse) → auth_result r ≡ ok tt → is_success r ≡ true
  unfolding auth_result
  auth_result-ok r h = elim (Bool-cases (is_success r)) [ inl y ↦ y | inr n ↦ cc (rw n at h) ]

  answered_with-written : (text : Bytes) (z : Recv) → (answered_with text z).written ≡ some text
  unfolding answered_with
  answered_with-written text (q, ys, none) = refl
  answered_with-written text (q, ys, some (err e)) = refl
  answered_with-written text (q, ys, some (ok m)) = refl

  answered_with-ok :
      (p : EslParser) (xs : List SocketRead) (text : Bytes) (z : Recv)
      → Returned percent_decode p xs z
      → (answered_with text z).result ≡ some (ok tt)
      → (reply : EslMessage) × TakesMessage percent_decode p xs
          (answered_with text z).parser
          (answered_with text z).rest
          reply
        × (is_success (into_response reply) ≡ true)
  unfolding answered_with
  answered_with-ok p xs text (q, ys, none) t h = cc h
  answered_with-ok p xs text (q, ys, some (err e)) t h = cc h
  answered_with-ok p xs text (q, ys, some (ok m)) t h =
      (m, t, auth_result-ok (into_response m) (cc h))

  sends-Authenticated :
      (p : EslParser) (xs : List SocketRead) (write : Option Bytes) (c : EslResult Bytes)
      (text : Bytes)
      → (sends percent_decode order p xs write c).written ≡ some text
      → c ≡ ok text
  unfolding sends
  sends-Authenticated p xs write (err e) text h = cc h
  sends-Authenticated p xs (some e) (ok t) text h = cc h
  sends-Authenticated p xs none (ok t) text h =
      ap ok (cc (sym (answered_with-written t (recv_message percent_decode p xs)) ∙ h))

  asked_by-Authenticated :
      (p : EslParser) (xs : List SocketRead) (method : AuthMethod) (write : Option Bytes) (b : Bool)
      (text : Bytes)
      → (asked_by percent_decode order method write p xs b).written ≡ some text
      → (b ≡ true) × (to_wire_format order (auth_cmd method) ≡ ok text)
  unfolding asked_by
  asked_by-Authenticated p xs method write true text h =
      (refl, sends-Authenticated p xs write (to_wire_format order (auth_cmd method)) text h)
  asked_by-Authenticated p xs method write false text h = cc h

  asked-Authenticated :
      (p : EslParser) (xs : List SocketRead) (method : AuthMethod) (write : Option Bytes) (z : Recv)
      → Returned percent_decode p xs z
      → Authenticated p xs method (asked percent_decode order method write z)
  unfolding asked
  asked-Authenticated p xs method write (q, ys, none) t text h = cc h
  asked-Authenticated p xs method write (q, ys, some (err e)) t text h = cc h
  asked-Authenticated p xs method write (q, ys, some (ok m)) t text h =
      let (y, c) =
        asked_by-Authenticated q ys method write (is_auth_request m.message_type) text h in
      (q, ys, m, t, y, c)

  sends-Succeeded :
      (p : EslParser) (xs : List SocketRead) (write : Option Bytes) (c : EslResult Bytes)
      → IsCompact p.buffer
      → (sends percent_decode order p xs write c).result ≡ some (ok tt)
      → (text : Bytes) × (reply : EslMessage) × ((sends percent_decode order p xs write c).written
          ≡ some text)
        × (c ≡ ok text)
        × TakesMessage percent_decode p xs
            (sends percent_decode order p xs write c).parser
            (sends percent_decode order p xs write c).rest
            reply
        × (is_success (into_response reply) ≡ true)
  unfolding sends
  sends-Succeeded p xs write (err e) k h = cc h
  sends-Succeeded p xs (some e) (ok t) k h = cc h
  sends-Succeeded p xs none (ok t) k h =
      let z = recv_message percent_decode p xs in
      let (reply, takes, good) =
        answered_with-ok p xs t z (recv_message-Returned percent_decode p xs k) h in
      (t, reply, answered_with-written t z, refl, takes, good)

  -- What `Succeeded` says from the request on.
  abbrev GoesOn : EslParser → List SocketRead → AuthMethod → Bool → Handshake → Type 0
  GoesOn p xs method b h =
      (text : Bytes) × (reply : EslMessage) × (h.written ≡ some text)
      × (to_wire_format order (auth_cmd method) ≡ ok text)
      × TakesMessage percent_decode p xs h.parser h.rest reply
      × (is_success (into_response reply) ≡ true)
      × (b ≡ true)

  asked_by-Succeeded :
      (p : EslParser) (xs : List SocketRead) (method : AuthMethod) (write : Option Bytes) (b : Bool)
      → IsCompact p.buffer
      → (asked_by percent_decode order method write p xs b).result ≡ some (ok tt)
      → GoesOn p xs method b (asked_by percent_decode order method write p xs b)
  unfolding asked_by
  asked_by-Succeeded p xs method write true k h =
      let (text, reply, w, c, takes, good) =
        sends-Succeeded p xs write (to_wire_format order (auth_cmd method)) k h in
      (text, reply, w, c, takes, good, refl)
  asked_by-Succeeded p xs method write false k h = cc h

  asked-Succeeded :
      (p : EslParser) (xs : List SocketRead) (method : AuthMethod) (write : Option Bytes) (z : Recv)
      → Returned percent_decode p xs z
      → Succeeded p xs method (asked percent_decode order method write z)
  unfolding asked
  asked-Succeeded p xs method write (q, ys, none) t h = cc h
  asked-Succeeded p xs method write (q, ys, some (err e)) t h = cc h
  asked-Succeeded p xs method write (q, ys, some (ok m)) t h =
      let (text, reply, w, c, takes, good, y) =
        asked_by-Succeeded q ys method write (is_auth_request m.message_type) t.3 h in
      (text, q, ys, m, reply, w, c, t, y, takes, good)

  new-IsCompact : IsCompact (Protocol.new).buffer
  unfolding Protocol.new
  new-IsCompact = refl

  recv_new :
      (xs : List SocketRead)
      → Returned percent_decode Protocol.new xs (recv_message percent_decode Protocol.new xs)
  recv_new xs = recv_message-Returned percent_decode Protocol.new xs new-IsCompact

  connected_by-written :
      (method : AuthMethod) (write : Option Bytes) (xs : List SocketRead) (c : EslResult (Unit {0}))
      (text : Bytes)
      → (connected_by percent_decode order method write xs c).written ≡ some text
      → (c ≡ ok tt)
        × ((authenticate percent_decode order Protocol.new xs method write).written ≡ some text)
  unfolding connected_by
  connected_by-written method write xs (err e) text h = cc h
  connected_by-written method write xs (ok tt) text h = (refl, h)

  -- The first two messages of the stream, and where the parser that is left goes on.
  abbrev pub Continues : List SocketRead → AuthMethod → Handshake → Type 0
  Continues xs method h =
      (text : Bytes) × (request reply : EslMessage) × (cs : List Bytes) × (is_auth_request
          request.message_type
        ≡ true)
      × (to_wire_format order (auth_cmd method) ≡ ok text)
      × (h.written ≡ some text)
      × (is_success (into_response reply) ≡ true)
      × (xs ≡ chunk_reads cs ++ h.rest)
      × ((g : Framer) (ns : List EslMessage) (e : Option EslError)
          → Frames percent_decode g (view h.parser) ns e
          → Frames percent_decode g (feed (view Protocol.new) (flatten cs)) (request ∷ reply ∷ ns)
              e)

  connected_by-Continues :
      (method : AuthMethod) (write : Option Bytes) (xs : List SocketRead) (c : EslResult (Unit {0}))
      → (connected_by percent_decode order method write xs c).result ≡ some (ok tt)
      → Continues xs method (connected_by percent_decode order method write xs c)
  unfolding connected_by authenticate
  connected_by-Continues method write xs (err e) h = cc h
  connected_by-Continues method write xs (ok tt) h =
      let z = recv_message percent_decode Protocol.new xs in
      let (text, q, ys, request, reply, w, c, t, y, t', good) =
        asked-Succeeded Protocol.new xs method write z (recv_new xs) h in
      let (cs, a, run) =
        takes_two percent_decode Protocol.new q (asked percent_decode order method write z).parser
          xs ys (asked percent_decode order method write z).rest request reply t t' in
      (text, request, reply, cs, y, c, w, good, a, run)

  -- A password is written only on a connection that was established, with a well-formed user
  -- name, and only after a complete first message in which the server asks for it; what is written is
  -- the command of the method.
  pub connect_inner-asks :
      (method : AuthMethod) (tcp : TcpConnect) (write : Option Bytes) (xs : List SocketRead)
      (text : Bytes)
      → (connect_inner percent_decode order method tcp write xs).written ≡ some text
      → ((check_user method >> tcp_connect_with_timeout tcp) ≡ ok tt)
        × (to_wire_format order (auth_cmd method) ≡ ok text)
        × (q : EslParser) × (ys : List SocketRead) × (request : EslMessage) × TakesMessage
            percent_decode Protocol.new xs q ys request
        × (is_auth_request request.message_type ≡ true)
  unfolding connect_inner authenticate
  connect_inner-asks method tcp write xs text h =
      let (c, w) =
        connected_by-written method write xs (check_user method >> tcp_connect_with_timeout tcp)
          text h in
      let (q, ys, request, t, y, e) =
        asked-Authenticated Protocol.new xs method write
          (recv_message percent_decode Protocol.new xs) (recv_new xs) text w in
      (c, e, q, ys, request, t, y)

  -- A connection is made only if the server asked, the command was written and a reply of success
  -- came. These two messages are the first of the stream, however it was cut, and what the parser
  -- that the reader task goes on with returns from then on is what comes behind them: no byte is
  -- lost and none is read twice.
  pub connect_inner-takes :
      (method : AuthMethod) (tcp : TcpConnect) (write : Option Bytes) (xs : List SocketRead)
      → (connect_inner percent_decode order method tcp write xs).result ≡ some (ok tt)
      → Continues xs method (connect_inner percent_decode order method tcp write xs)
  unfolding connect_inner
  connect_inner-takes method tcp write xs h =
      connected_by-Continues method write xs (check_user method >> tcp_connect_with_timeout tcp) h
