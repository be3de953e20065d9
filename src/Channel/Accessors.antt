-- ===== src/Channel/Accessors.antt =====
-- What src/event.rs and src/channel.rs read of a channel from an event's headers.
use freeswitch_esl_rs.Prelude.{
  if◌then◌else◌, ℕ, ◌≡◌, refl, sym, ap, ◌↔◌, Bool, true, false, Option, none, some, List, [], ◌∷◌,
  ◌++◌, Bytes, codes,
}
use freeswitch_esl_rs.Text.Case.{to_uppercase, to_lowercase}
use freeswitch_esl_rs.Text.Decimal.{decimal, parse_unsigned}
use freeswitch_esl_rs.Text.Signed.{ℤ, parse_i64}
use freeswitch_esl_rs.Headers.Laws.{get-insert_self}
use freeswitch_esl_rs.Event.{EslEvent, set_header}
use freeswitch_esl_rs.Channel.{
  ChannelState, cs_new, as_number, from_number, from_number_iff, from_str_iff, channel_state_name,
  channel_state_from_str, CallState, call_down, call_state_name, call_state_from_str, AnswerState,
  answer_hangup, answer_state_name, answer_state_from_str, CallDirection, inbound, outbound,
  call_direction_name, call_direction_from_str,
}
use freeswitch_esl_rs.Event

abbrev pub and_then {ℓ κ} : {A : Type ℓ} {B : Type κ} → Option A → (A → Option B) → Option B
and_then none f = none
and_then (some a) f = f a

unfoldable pub channel_state : EslEvent → Option ChannelState
unfolding Event.header channel_state_from_str
channel_state e = and_then (Event.header e (codes "Channel-State")) channel_state_from_str

unfoldable pub channel_state_number : EslEvent → Option ChannelState
unfolding Event.header parse_unsigned from_number
channel_state_number e =
    and_then (and_then (Event.header e (codes "Channel-State-Number")) (parse_unsigned 255))
      from_number

unfoldable pub call_state : EslEvent → Option CallState
unfolding Event.header call_state_from_str
call_state e = and_then (Event.header e (codes "Channel-Call-State")) call_state_from_str

unfoldable pub answer_state : EslEvent → Option AnswerState
unfolding Event.header answer_state_from_str
answer_state e = and_then (Event.header e (codes "Answer-State")) answer_state_from_str

unfoldable pub call_direction : EslEvent → Option CallDirection
unfolding Event.header call_direction_from_str
call_direction e = and_then (Event.header e (codes "Call-Direction")) call_direction_from_str

-- Times in microseconds.
pub record ChannelTimetable : Type 0 where
  pub profile_created : Option ℤ
  pub created : Option ℤ
  pub answered : Option ℤ
  pub progress : Option ℤ
  pub progress_media : Option ℤ
  pub hungup : Option ℤ
  pub transferred : Option ℤ
  pub resurrected : Option ℤ
  pub bridged : Option ℤ
  pub last_hold : Option ℤ
  pub hold_accum : Option ℤ

-- What `field!` stores, if it stores anything.
unfoldable pub field : EslEvent → Bytes → Bytes → Option ℤ
unfolding Event.header parse_i64
field e prefix suffix = and_then (Event.header e (prefix ++ (codes "-" ++ suffix))) parse_i64

abbrev any_some : List (Option ℤ) → Bool
any_some [] = false
any_some (none ∷ os) = any_some os
any_some (some t ∷ os) = true

abbrev times : ChannelTimetable → List (Option ℤ)
times t =
    t.profile_created ∷ t.created ∷ t.answered ∷ t.progress ∷ t.progress_media ∷ t.hungup
    ∷ t.transferred ∷ t.resurrected ∷ t.bridged ∷ t.last_hold ∷ t.hold_accum ∷ []

-- The timetable if one of its fields was found.
unfoldable pub from_event : EslEvent → Bytes → Option ChannelTimetable
unfolding field
from_event e prefix =
    let found : ChannelTimetable = record {
      profile_created = field e prefix (codes "Profile-Created-Time");
      created = field e prefix (codes "Channel-Created-Time");
      answered = field e prefix (codes "Channel-Answered-Time");
      progress = field e prefix (codes "Channel-Progress-Time");
      progress_media = field e prefix (codes "Channel-Progress-Media-Time");
      hungup = field e prefix (codes "Channel-Hangup-Time");
      transferred = field e prefix (codes "Channel-Transfer-Time");
      resurrected = field e prefix (codes "Channel-Resurrect-Time");
      bridged = field e prefix (codes "Channel-Bridged-Time");
      last_hold = field e prefix (codes "Channel-Last-Hold");
      hold_accum = field e prefix (codes "Channel-Hold-Accum");
    } in
    if any_some (times found) then some found else none

unfoldable timetable : EslEvent → Bytes → Option ChannelTimetable
unfolding from_event
timetable e prefix = from_event e prefix

unfoldable caller_timetable : EslEvent → Option ChannelTimetable
unfolding timetable
caller_timetable e = timetable e (codes "Caller")

unfoldable other_leg_timetable : EslEvent → Option ChannelTimetable
unfolding timetable
other_leg_timetable e = timetable e (codes "Other-Leg")

state-from_str : (s : ChannelState) → channel_state_from_str (channel_state_name s) ≡ some s
unfolding channel_state_from_str channel_state_name
state-from_str cs_new = refl
state-from_str _ = refl

number-parse :
    (s : ChannelState) → and_then (parse_unsigned 255 (decimal (as_number s))) from_number ≡ some s
unfolding parse_unsigned decimal as_number from_number
number-parse cs_new = refl
number-parse _ = refl

call-from_str : (s : CallState) → call_state_from_str (call_state_name s) ≡ some s
unfolding call_state_from_str call_state_name
call-from_str call_down = refl
call-from_str _ = refl

answer-from_str : (s : AnswerState) → answer_state_from_str (answer_state_name s) ≡ some s
unfolding answer_state_from_str answer_state_name
answer-from_str answer_hangup = refl
answer-from_str _ = refl

direction-from_str : (s : CallDirection) → call_direction_from_str (call_direction_name s) ≡ some s
unfolding call_direction_from_str call_direction_name
direction-from_str inbound = refl
direction-from_str outbound = refl

-- What `read` returns where a text stands under `key`: a value exactly if `fold` of the text is its
-- name, and so each value that is stored by its name.
abbrev pub ReadsNames :
    {T : Type 0} → EslEvent → (EslEvent → Option T) → Bytes → (Bytes → Bytes) → (T → Bytes) → Type 0
ReadsNames {T} e read key fold name =
    (t : T)
    → ((s : Bytes) → (read (Event.set_header e key s) ≡ some t) ↔ (fold s ≡ name t))
      × (read (Event.set_header e key (name t)) ≡ some t)

-- An accessor that parses what stands under `key`.
accessor-ReadsNames :
    {T : Type 0} (e : EslEvent) (key : Bytes) (from_str : Bytes → Option T) (fold : Bytes → Bytes)
    (name : T → Bytes)
    → ((s : Bytes) (t : T) → (from_str s ≡ some t) ↔ (fold s ≡ name t))
    → ((t : T) → from_str (name t) ≡ some t)
    → ReadsNames e (λ e. and_then (Event.header e key) from_str) key fold name
unfolding Event.header Event.set_header
accessor-ReadsNames e key from_str fold name iff back t = (
  (λ s. rw (get-insert_self e.headers key s) (iff s t)),
  rw (get-insert_self e.headers key (name t)) (back t),
)

numbered :
    (o : Option ℕ) (t : ChannelState) → (and_then o from_number ≡ some t) ↔ (o ≡ some (as_number t))
numbered none t = ((λ e. cc), (λ e. cc))
numbered (some n) t =
    ((λ e. ap some (sym ((from_number_iff n t).0 e))), (λ e. (from_number_iff n t).1 (cc)))

-- A text that stands under its header is read as a channel state or a call state exactly if in upper
-- case it is the state's name, and as an answer state or a direction exactly if in lower case it is
-- the name; so the names that `Display` writes are read back. Under the header of the number it is
-- read as a channel state exactly if it is an integer of eight bits and the state's number, and the
-- number that is written in decimal is read back.
pub accessors-set_header :
    (e : EslEvent)
    → ReadsNames e channel_state (codes "Channel-State") to_uppercase channel_state_name
      × ReadsNames e call_state (codes "Channel-Call-State") to_uppercase call_state_name
      × ReadsNames e answer_state (codes "Answer-State") to_lowercase answer_state_name
      × ReadsNames e call_direction (codes "Call-Direction") to_lowercase call_direction_name
      × ((t : ChannelState)
          → ((s : Bytes)
              → (channel_state_number (Event.set_header e (codes "Channel-State-Number") s)
                  ≡ some t)
                ↔ (parse_unsigned 255 s ≡ some (as_number t)))
            × (channel_state_number
                  (Event.set_header e (codes "Channel-State-Number") (decimal (as_number t)))
                ≡ some t))
unfolding channel_state channel_state_number call_state answer_state call_direction Event.header
    Event.set_header
accessors-set_header e = (
  accessor-ReadsNames e (codes "Channel-State") channel_state_from_str to_uppercase
      channel_state_name (λ s. (from_str_iff s).0) state-from_str,
  accessor-ReadsNames e (codes "Channel-Call-State") call_state_from_str to_uppercase
      call_state_name (λ s. (from_str_iff s).1) call-from_str,
  accessor-ReadsNames e (codes "Answer-State") answer_state_from_str to_lowercase answer_state_name
      (λ s. (from_str_iff s).2) answer-from_str,
  accessor-ReadsNames e (codes "Call-Direction") call_direction_from_str to_lowercase
      call_direction_name (λ s. (from_str_iff s).3) direction-from_str,
  (λ t. (
    (λ s.
        rw (get-insert_self e.headers (codes "Channel-State-Number") s)
          (numbered (parse_unsigned 255 s) t)),
    rw (get-insert_self e.headers (codes "Channel-State-Number") (decimal (as_number t)))
        (number-parse t),
  )),
)
