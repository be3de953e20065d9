-- ===== src/Connection/Calls.antt =====
-- Any number of calls of `send_command` in src/connection.rs beside the reader task: where each
-- stands, and the steps that they take in any order. A call is known by its number.
use freeswitch_esl_rs.Prelude.{
  ◌==◌, if◌then◌else◌, length, ok, err, ℕ, ◌+◌, ◌<◌, ◌≡◌, ◌≢◌, Bool, true, false, Option, none,
  some, List, [], ◌∷◌, ◌++◌, Bytes,
}
use freeswitch_esl_rs.Error.{EslError, io, EslResult}
use freeswitch_esl_rs.Headers.{Headers}
use freeswitch_esl_rs.Protocol.{MessageType, command_reply, api_response, EslMessage}
use freeswitch_esl_rs.Command.Response.{EslResponse}
use freeswitch_esl_rs.Command.Wire.{EslCommand}
use freeswitch_esl_rs.Connection.{DisconnectReason, MpscChannel, SharedState}
use freeswitch_esl_rs.Connection.Reader.{Decoders, Served, end_with, handle}
use freeswitch_esl_rs.Connection.Client.{
  register, withdraw, replied, dropped, timed_out, reply_result, check,
}
use native.Mathlib.Decide.{ℕ_discrete}
use mathlib.Core.Logic.{ite}

-- Where a call stands: not made; checked, with the text to be written; behind the lock of the
-- writer; registered in the reply slot; waiting for the reply; out of time; returned; dropped by its
-- caller at an `await`.
pub data Pc : Type 0 where
  idle : Pc
  checked locked registered : Bytes → Pc
  waiting late cancelled : Pc
  done : EslResult EslResponse → Pc

abbrev pub update : (ℕ → Pc) → ℕ → Pc → ℕ → Pc
update f i p j = ite (ℕ_discrete i j) p (f j)

-- Dropping the call gives the lock back.
abbrev pub holds_lock : Pc → Bool
holds_lock (locked _) = true
holds_lock (registered _) = true
holds_lock waiting = true
holds_lock late = true
holds_lock _ = false

abbrev pub is_reply : MessageType → Bool
is_reply command_reply = true
is_reply api_response = true
is_reply _ = false

-- The reply that the sender of a call was used for.
abbrev pub reply_to : List (ℕ × EslMessage) → ℕ → Option EslMessage
reply_to [] i = none
reply_to ((j, m) ∷ rs) i = if j == i then some m else reply_to rs i

module _ (C : MpscChannel) (D : Decoders) (order : Headers → Headers) where
  -- `writer` is the call that holds the lock. The rest records what has happened: the calls whose
  -- commands were written, the number of replies that came, and whether a call has run out of time,
  -- failed to write, or was dropped while it held the lock.
  pub record Calls : Type 0 where
    pub served : Served C
    pub writer : Option ℕ
    pub pc : ℕ → Pc
    pub written : List ℕ
    pub answered : ℕ
    pub troubled : Bool

  abbrev pub start : Served C → Calls
  start s = record {
    served = s;
    writer = none;
    pc = λ i. idle;
    written = [];
    answered = 0;
    troubled = false;
  }

  abbrev pub slot : Calls → Option ℕ
  slot s = s.served.shared.pending_reply

  abbrev pub with_shared : Calls → SharedState → Calls
  with_shared s shared = record s { served = record s.served { shared = shared } }

  -- The steps of a call, and of the reader task when it handles a message or ends. The server
  -- answers a command once it was written, and none twice. A wait ends with a reply if the sender
  -- was used, and without one if it was dropped; time may be up whenever, and a caller may drop the
  -- call at every `await`, the last of a write included. A command whose write is cut short so
  -- counts as not written.
  pub data Step (s : Calls) : Calls → Type 0 where
    refuses :
        (i : ℕ) (command : EslCommand) {e : EslError}
        → s.pc i ≡ idle
        → check order s.served.status command ≡ err e
        → Step s (record s { pc = update s.pc i (done (err e)) })
    checks :
        (i : ℕ) (command : EslCommand) {text : Bytes}
        → s.pc i ≡ idle
        → check order s.served.status command ≡ ok text
        → Step s (record s { pc = update s.pc i (checked text) })
    locks :
        (i : ℕ) {text : Bytes}
        → s.pc i ≡ checked text
        → s.writer ≡ none
        → Step s (record s { writer = some i; pc = update s.pc i (locked text) })
    registers :
        (i : ℕ) {text : Bytes}
        → s.pc i ≡ locked text
        → Step s (record s {
          served = record s.served { shared = register i s.served.shared };
          pc = update s.pc i (registered text);
        })
    writes :
        (i : ℕ) {text : Bytes}
        → s.pc i ≡ registered text
        → Step s (record s { pc = update s.pc i waiting; written = s.written ++ i ∷ [] })
    write_fails :
        (i : ℕ) {text : Bytes} (e : Bytes)
        → s.pc i ≡ registered text
        → Step s
            (record s { writer = none; pc = update s.pc i (done (err (io e))); troubled = true })
    returns :
        (i : ℕ) (m : EslMessage)
        → s.pc i ≡ waiting
        → reply_to s.served.sent i ≡ some m
        → Step s (record s {
          writer = none;
          pc = update s.pc i (done (reply_result s.served.shared (replied m)));
        })
    loses :
        (i : ℕ)
        → s.pc i ≡ waiting
        → slot s ≢ some i
        → reply_to s.served.sent i ≡ none
        → Step s (record s {
          writer = none;
          pc = update s.pc i (done (reply_result s.served.shared dropped));
        })
    expires :
        (i : ℕ) → s.pc i ≡ waiting → Step s (record s { pc = update s.pc i late; troubled = true })
    withdraws :
        (i : ℕ)
        → s.pc i ≡ late
        → Step s (record s {
          served = record s.served { shared = withdraw s.served.shared };
          writer = none;
          pc = update s.pc i (done (reply_result s.served.shared timed_out));
        })
    drops_before :
        (i : ℕ) {text : Bytes}
        → s.pc i ≡ checked text
        → Step s (record s { pc = update s.pc i cancelled })
    drops :
        (i : ℕ) {p : Pc}
        → s.pc i ≡ p
        → holds_lock p ≡ true
        → Step s (record s { writer = none; pc = update s.pc i cancelled; troubled = true })
    drops_written :
        (i : ℕ) {text : Bytes}
        → s.pc i ≡ registered text
        → Step s (record s {
          writer = none;
          pc = update s.pc i cancelled;
          written = s.written ++ i ∷ [];
          troubled = true;
        })
    replies :
        (m : EslMessage)
        → is_reply m.message_type ≡ true
        → s.answered < length s.written
        → Step s (record s { served = (handle C D s.served m).0; answered = s.answered + 1 })
    handles :
        (m : EslMessage)
        → is_reply m.message_type ≡ false
        → Step s (record s { served = (handle C D s.served m).0 })
    ends : (reason : DisconnectReason) → Step s (record s { served = end_with C reason s.served })

  -- What can be reached from a new connection.
  pub data Reach (s₀ : Served C) : Calls → Type 0 where
    starts : Reach s₀ (start s₀)
    later : {s t : Calls} → Reach s₀ s → Step s t → Reach s₀ t
