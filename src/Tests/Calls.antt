-- ===== src/Tests/Calls.antt =====
-- The theorems on calls beside the reader task, at concrete runs.
use native.Mathlib.Decide.{ℕ_discrete}
use freeswitch_esl_rs.Prelude.{
  length, ok, err, ℕ, ◌≡◌, refl, ◌⊎◌, true, false, none, some, [], ◌∷◌, ◌++◌, arith, Bytes, codes,
}
use freeswitch_esl_rs.Error.{timeout}
use freeswitch_esl_rs.Headers.{Headers}
use freeswitch_esl_rs.Command.Response.{EslResponse}
use freeswitch_esl_rs.Command.Response.{EslResponse}
use freeswitch_esl_rs.Command.Wire.{no_op, command_line, format_simple_command, to_wire_format}
use freeswitch_esl_rs.Connection.{connected, shared_new}
use freeswitch_esl_rs.Connection.Reader.{Served}
use freeswitch_esl_rs.Connection.Client.{
  into_response, is_connected, register, withdraw, reply_result, check,
}
use freeswitch_esl_rs.Connection.Calls.{
  done, idle, checked, locked, registered, waiting, late, update, Calls, slot, Step, checks, locks,
  registers, writes, expires, withdraws, Reach, starts, later,
}
use freeswitch_esl_rs.Connection.Slot.{Attends}
use freeswitch_esl_rs.Connection.Attended.{Reach-Attends}
use freeswitch_esl_rs.Connection.Phase.{callers}
use freeswitch_esl_rs.Connection.Order.{Reach-answers}
use freeswitch_esl_rs.Connection.Late.{Steps, after_reply, Reach-late}
use freeswitch_esl_rs.Tests.Queue.{list_channel}
use freeswitch_esl_rs.Tests.Reader.{decoders, reply_message}

abbrev in_order : Headers → Headers
in_order m = m

abbrev opened : Served list_channel
unfolding shared_new
opened = record { shared = shared_new; chan = ([], 2); status = connected; sent = [] }

abbrev Run : Calls list_channel decoders in_order → Type 0
Run s = Reach list_channel decoders in_order opened s

abbrev text : Bytes
text = codes "noop\n\n"

-- Call 0 has written its command and waits.
abbrev asking : Calls list_channel decoders in_order
unfolding register shared_new
asking = record {
  served = record opened { shared = register 0 shared_new };
  writer = some 0;
  pc =
      update
        (update (update (update (λ i. idle) 0 (checked text)) 0 (locked text)) 0 (registered text))
        0 waiting;
  written = 0 ∷ [];
  answered = 0;
  troubled = false;
}

asks : Run asking
unfolding register shared_new check to_wire_format is_connected format_simple_command command_line
    ℕ_discrete
asks =
    later
      (later (later (later starts (checks 0 no_op refl refl)) (locks 0 refl refl))
        (registers 0 refl))
      (writes 0 refl)

Reach-Attends_example :
    (asking.writer ≡ some 0)
    × Attends (slot list_channel decoders in_order asking) asking.served.sent 0
unfolding shared_new asking ℕ_discrete
Reach-Attends_example = Reach-Attends list_channel decoders in_order refl refl asks 0 refl

Reach-answers_example :
    (0 ≡ length (callers []))
    × ((callers [] ≡ 0 ∷ [])
        ⊎ ((i : ℕ) × (callers [] ++ i ∷ [] ≡ 0 ∷ [])
            × (slot list_channel decoders in_order asking ≡ some i)
            × (asking.pc i ≡ waiting)))
unfolding shared_new asking
Reach-answers_example = Reach-answers list_channel decoders in_order refl refl asks refl

-- Its time is up, and call 1 is about to take the lock.
abbrev gave_up : Calls list_channel decoders in_order
unfolding shared_new withdraw register reply_result
gave_up = record asking {
  served = record opened { shared = shared_new };
  writer = none;
  pc = update (update (update asking.pc 0 late) 0 (done (err (timeout 5000)))) 1 (checked text);
  troubled = true;
}

gives_up : Run gave_up
unfolding shared_new withdraw register reply_result check to_wire_format is_connected
    format_simple_command command_line ℕ_discrete
gives_up = later (later (later asks (expires 0 refl)) (withdraws 0 refl)) (checks 1 no_op refl refl)

-- It has the lock, and its sender is in the slot.
abbrev ahead : Calls list_channel decoders in_order
unfolding register
ahead = record gave_up {
  served = record gave_up.served { shared = register 1 gave_up.served.shared };
  writer = some 1;
  pc = update (update gave_up.pc 1 (locked text)) 1 (registered text);
}

gets_ahead : Run ahead
unfolding gave_up register ℕ_discrete
gets_ahead = later (later gives_up (locks 1 refl refl)) (registers 1 refl)

Reach-late_example :
    Step list_channel decoders in_order ahead
      (after_reply list_channel decoders in_order ahead reply_message)
    × ((t : Calls list_channel decoders in_order) (r : EslResponse)
        → Steps list_channel decoders in_order
            (after_reply list_channel decoders in_order ahead reply_message)
            t
        → t.pc 1 ≡ done (ok r)
        → r ≡ into_response reply_message)
    × ((t : Calls list_channel decoders in_order) × Steps list_channel decoders in_order
          (after_reply list_channel decoders in_order ahead reply_message)
          t
        × (t.written ≡ (0 ∷ []) ++ 1 ∷ [])
        × (t.pc 1 ≡ done (ok (into_response reply_message))))
unfolding shared_new ahead gave_up register ℕ_discrete
Reach-late_example =
    Reach-late list_channel decoders in_order refl refl gets_ahead 1 text reply_message refl refl
      (ground arith) refl
