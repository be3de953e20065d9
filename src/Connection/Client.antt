-- ===== src/Connection/Client.antt =====
-- `send_command` of src/connection.rs, cut where it gives way to other tasks.
use freeswitch_esl_rs.Prelude.{
  ok, err, ◌>>◌, reject_if, ℕ, Bool, true, false, not, Option, none, some, Bytes,
}
use freeswitch_esl_rs.Error.{io, not_connected, timeout, connection_closed, EslResult}
use freeswitch_esl_rs.Headers.{Headers}
use freeswitch_esl_rs.Protocol.{EslMessage}
use freeswitch_esl_rs.Command.Response.{EslResponse, response_new}
use freeswitch_esl_rs.Command.Wire.{EslCommand, to_wire_format}
use freeswitch_esl_rs.Connection.{ConnectionStatus, connected, disconnected, SharedState}

unfoldable pub into_response : EslMessage → EslResponse
unfolding response_new
into_response m = response_new m.headers m.body

unfoldable pub is_connected : ConnectionStatus → Bool
is_connected connected = true
is_connected (disconnected _) = false

-- `*pending = Some(tx)`, for the sender of this call.
unfoldable pub register : ℕ → SharedState → SharedState
register call shared = record shared { pending_reply = some call }

-- `pending.take()` behind a timeout.
unfoldable pub withdraw : SharedState → SharedState
withdraw shared = record shared { pending_reply = none }

-- What `timeout(…, rx)` returns: the reply, that the sender was dropped, or that time is up.
pub data Waited : Type 0 where
  replied : EslMessage → Waited
  dropped timed_out : Waited

unfoldable pub reply_result : SharedState → Waited → EslResult EslResponse
unfolding into_response
reply_result shared (replied m) = ok (into_response m)
reply_result shared dropped = err connection_closed
reply_result shared timed_out = err (timeout shared.command_timeout_ms)

unfoldable pub after_wait : SharedState → Waited → SharedState
unfolding withdraw
after_wait shared (replied m) = shared
after_wait shared dropped = shared
after_wait shared timed_out = withdraw shared

module _ (order : Headers → Headers) where
  -- What `send_command` does before it waits for the writer: the text to be written.
  unfoldable pub check : ConnectionStatus → EslCommand → EslResult Bytes
  unfolding is_connected to_wire_format
  check status command = do
    reject_if (not (is_connected status)) not_connected
    to_wire_format order command

  -- And behind the lock: the shared state, the bytes written if `write_all` succeeds, and the result.
  unfoldable pub under_lock :
      ℕ
      → SharedState
      → Bytes
      → Option Bytes
      → Waited
      → SharedState × Option Bytes × EslResult EslResponse
  unfolding register after_wait reply_result
  under_lock call shared text (some e) waited = (register call shared, none, err (io e))
  under_lock call shared text none waited =
      let s = register call shared in (after_wait s waited, some text, reply_result s waited)

  unfoldable pub exchanged :
      ℕ
      → SharedState
      → EslResult Bytes
      → Option Bytes
      → Waited
      → SharedState × Option Bytes × EslResult EslResponse
  unfolding under_lock
  exchanged call shared (err e) write waited = (shared, none, err e)
  exchanged call shared (ok text) write waited = under_lock call shared text write waited

  -- The whole call: `write` is the error of `write_all`, if it fails, and `waited` what the wait for
  -- the reply returns.
  unfoldable pub send_command :
      ℕ
      → ConnectionStatus
      → SharedState
      → EslCommand
      → Option Bytes
      → Waited
      → SharedState × Option Bytes × EslResult EslResponse
  unfolding check exchanged
  send_command call status shared command write waited =
      exchanged call shared (check status command) write waited
