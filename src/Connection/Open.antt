-- ===== src/Connection/Open.antt =====
-- The ways in which src/connection.rs opens a connection, and how a client ends one.
use freeswitch_esl_rs.Prelude.{
  Result, ok, err, ℕ, ◌≡◌, refl, subst, Bool, Option, none, some, List, [], Bytes,
}
use freeswitch_esl_rs.Constants.{max_event_queue_size}
use freeswitch_esl_rs.Error.{io, EslResult}
use freeswitch_esl_rs.Headers.{Headers}
use freeswitch_esl_rs.Protocol.{EslParser}
use freeswitch_esl_rs.Commands.Arguments.{options}
use freeswitch_esl_rs.Connection.{ConnectionStatus, connected, Item, MpscChannel, shared_new}
use freeswitch_esl_rs.Connection.Queue.{IsFifo}
use freeswitch_esl_rs.Connection.Reader.{SocketRead, Decoders, Reader}
use freeswitch_esl_rs.Connection.Session.{Loop}
use freeswitch_esl_rs.Connection.Status.{Says, Loop-Says}
use freeswitch_esl_rs.Connection.Handshake.{
  AuthMethod, password_method, user_method, TcpConnect, Handshake, connect_inner,
  split_and_spawn_with_options,
}
use freeswitch_esl_rs.Protocol

pub record EslConnectOptions : Type 0 where
  pub event_queue_size : ℕ

abbrev default_options : EslConnectOptions
default_options = record { event_queue_size = max_event_queue_size }

module _ (C : MpscChannel) (open' : ℕ → C.Chan) where
  -- What the handshake leaves, and the reader task that is started if it succeeded.
  abbrev Opened : Type 0
  Opened = Handshake × Option (EslResult (Reader C))

  unfoldable spawned_by : Handshake → EslConnectOptions → ℕ → Option (EslResult (Unit {0})) → Opened
  unfolding split_and_spawn_with_options
  spawned_by h options now none = (h, none)
  spawned_by h options now (some (err e)) = (h, some (err e))
  spawned_by h options now (some (ok _)) =
      (h, some (ok (split_and_spawn_with_options C open' h.parser options.event_queue_size now)))

  unfoldable spawned : Handshake → EslConnectOptions → ℕ → Opened
  unfolding spawned_by
  spawned h options now = spawned_by h options now h.result

  module _ (percent_decode : Bytes → Bytes) (order : Headers → Headers) (now : ℕ) where
    module _ (tcp : TcpConnect) (write : Option Bytes) (xs : List SocketRead) where
      unfoldable opened_by : AuthMethod → EslConnectOptions → Opened
      unfolding spawned connect_inner
      opened_by method options =
          spawned (connect_inner percent_decode order method tcp write xs) options now

      unfoldable connect : Bytes → Opened
      unfolding opened_by
      connect password = opened_by (password_method password) default_options

      unfoldable connect_with_options : Bytes → EslConnectOptions → Opened
      unfolding opened_by
      connect_with_options password options = opened_by (password_method password) options

      unfoldable connect_with_user : Bytes → Bytes → Opened
      unfolding opened_by
      connect_with_user user password = opened_by (user_method user password) default_options

      unfoldable connect_with_user_and_options : Bytes → Bytes → EslConnectOptions → Opened
      unfolding opened_by
      connect_with_user_and_options user password options =
          opened_by (user_method user password) options

    -- What `listener.accept()` returns: an error by its text.
    unfoldable accept_outbound_with_options :
        Result Bytes (Unit {0}) → EslConnectOptions → EslResult (Reader C)
    unfolding split_and_spawn_with_options Protocol.new
    accept_outbound_with_options (err e) options = err (io e)
    accept_outbound_with_options (ok _) options =
        ok (split_and_spawn_with_options C open' Protocol.new options.event_queue_size now)

    unfoldable accept_outbound : Result Bytes (Unit {0}) → EslResult (Reader C)
    unfolding accept_outbound_with_options
    accept_outbound accepted = accept_outbound_with_options accepted default_options

  -- `EslEventStream::recv`: none while the queue is empty.
  unfoldable recv : C.Chan → C.Chan × Option Item
  recv c = C.try_recv c

-- The write half is shut down, with the error of `shutdown` if it fails. The status is left to the
-- reader task.
unfoldable disconnect : Option Bytes → ConnectionStatus → ConnectionStatus × EslResult (Unit {0})
disconnect none status = (status, ok tt)
disconnect (some e) status = (status, err (io e))

module _ (C : MpscChannel) (open' : ℕ → C.Chan) where
  -- A connection starts connected, with no command in flight and what the handshake has not used.
  abbrev Starts : EslParser → Reader C → Type 0
  Starts p r =
      (r.parser ≡ p)
      × (r.served.status ≡ connected)
      × (r.served.shared.pending_reply ≡ none)
      × (r.served.sent ≡ [])

  spawned_by-Starts :
      (h : Handshake) (options : EslConnectOptions) (now : ℕ) (o : Option (EslResult (Unit {0})))
      (r : Reader C)
      → (spawned_by C open' h options now o).1 ≡ some (ok r)
      → (o ≡ some (ok tt)) × Starts h.parser r
  unfolding spawned_by split_and_spawn_with_options shared_new
  spawned_by-Starts h options now none r e = cc e
  spawned_by-Starts h options now (some (err x)) r e = cc e
  spawned_by-Starts h options now (some (ok tt)) r e =
      let same : split_and_spawn_with_options C open' h.parser options.event_queue_size now ≡ r =
        cc in
      (refl, subst (Starts h.parser) same (refl, refl, refl, refl))

  -- However a client connects, a reader task runs only if the handshake succeeded, and it starts
  -- connected, with the parser that the handshake has left; what it then leaves in the status when it
  -- returns is said of it as of any run that starts connected.
  opened_by-Says :
      (percent_decode : Bytes → Bytes) (order : Headers → Headers) (D : Decoders) (now : ℕ)
      (tcp : TcpConnect) (write : Option Bytes) (xs : List SocketRead) (method : AuthMethod)
      (options : EslConnectOptions) {r t : Reader C} {reads : List (ℕ × SocketRead)} {b : Bool}
      → IsFifo C
      → (opened_by C open' percent_decode order now tcp write xs method options).1 ≡ some (ok r)
      → Loop C D r reads t b
      → ((connect_inner percent_decode order method tcp write xs).result ≡ some (ok tt))
        × Says C t.served b
  unfolding opened_by spawned
  opened_by-Says percent_decode order D now tcp write xs method options {r} f e run =
      let h = connect_inner percent_decode order method tcp write xs in
      let (good, starts') = spawned_by-Starts h options now h.result r e in
      (good, Loop-Says C D f run starts'.1)
