-- ===== src/Tests/Methods.antt =====
-- Methods of the client, each with a reply of its own.
use freeswitch_esl_rs.Prelude.{ok, err, ◌≡◌, refl, none, some, [], ◌∷◌, Bytes, codes}
use freeswitch_esl_rs.Text.{bytes_eq, starts_with}
use freeswitch_esl_rs.Error.{command_failed}
use freeswitch_esl_rs.Headers.{Headers, get}
use freeswitch_esl_rs.Protocol.{command_reply, EslMessage}
use freeswitch_esl_rs.Event.{json}
use freeswitch_esl_rs.Command.Response.{into_result}
use freeswitch_esl_rs.Connection.{connected, shared_new}
use freeswitch_esl_rs.Connection.Client.{is_connected, register, replied, send_command}
use freeswitch_esl_rs.Connection.Methods.{subscribe_events, getvar}
use freeswitch_esl_rs.Event.Types

abbrev in_order : Headers → Headers
in_order m = m

abbrev replies_with : Bytes → EslMessage
replies_with text = record {
  message_type = command_reply;
  headers = (codes "Reply-Text", text) ∷ [];
  body = none;
}

-- Two event types, and a reply that is an error.
test_subscribe :
    subscribe_events
      (λ c.
        send_command in_order 3 connected shared_new c none
          (replied (replies_with (codes "-ERR no"))))
      json
      (Types.heartbeat ∷ Types.custom ∷ [])
    ≡ (
      register 3 shared_new,
      some (codes "event json HEARTBEAT CUSTOM\n\n"),
      err (command_failed (codes "-ERR no")),
    )
unfolding subscribe_events send_command into_result starts_with get bytes_eq is_connected register
    shared_new
test_subscribe = refl

-- Any of them is all of them, and the value of a variable has no prefix.
test_all :
    subscribe_events
      (λ c.
        send_command in_order 3 connected shared_new c none (replied (replies_with (codes "+OK"))))
      json
      (Types.heartbeat ∷ Types.all ∷ [])
    ≡ (register 3 shared_new, some (codes "event json ALL\n\n"), ok tt)
unfolding subscribe_events send_command into_result starts_with get bytes_eq is_connected register
    shared_new
test_all = refl

test_getvar :
    getvar
      (λ c.
        send_command in_order 3 connected shared_new c none (replied (replies_with (codes "blue"))))
      (codes "colour")
    ≡ (register 3 shared_new, some (codes "getvar colour\n\n"), ok (codes "blue"))
unfolding getvar send_command get bytes_eq is_connected register shared_new
test_getvar = refl
