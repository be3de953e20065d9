-- ===== src/Channel.antt =====
-- src/channel.rs: the states that a channel's headers name, their numbers, and the timetable. The
-- child reads them from an event, as src/event.rs does.
pub mod Accessors
use freeswitch_esl_rs.Prelude.{
  ◌==◌, if◌then◌else◌, ℕ, ◌≡◌, refl, subst, ◌↔◌, Option, none, some, List, [], ◌∷◌, arith, Bytes,
  codes,
}
use freeswitch_esl_rs.Text.Case.{to_uppercase, to_lowercase}
use freeswitch_esl_rs.Wire.{match_name, match_arms, IsWire, match_name_iff}

pub data ChannelState : Type 0 where
  cs_new cs_init cs_routing cs_soft_execute cs_execute cs_exchange_media cs_park : ChannelState
  cs_consume_media cs_hibernate cs_reset cs_hangup cs_reporting cs_destroy cs_none : ChannelState

-- The discriminant, `*self as u8`.
unfoldable pub as_number : ChannelState → ℕ
as_number cs_new = 0
as_number cs_init = 1
as_number cs_routing = 2
as_number cs_soft_execute = 3
as_number cs_execute = 4
as_number cs_exchange_media = 5
as_number cs_park = 6
as_number cs_consume_media = 7
as_number cs_hibernate = 8
as_number cs_reset = 9
as_number cs_hangup = 10
as_number cs_reporting = 11
as_number cs_destroy = 12
as_number cs_none = 13

-- The arms of the `match`, in order, are the tests of a number.
unfoldable pub from_number : ℕ → Option ChannelState
from_number n =
    if n == 0
    then some cs_new
    else if n == 1
    then some cs_init
    else if n == 2
    then some cs_routing
    else if n == 3
    then some cs_soft_execute
    else if n == 4
    then some cs_execute
    else if n == 5
    then some cs_exchange_media
    else if n == 6
    then some cs_park
    else if n == 7
    then some cs_consume_media
    else if n == 8
    then some cs_hibernate
    else if n == 9
    then some cs_reset
    else if n == 10
    then some cs_hangup
    else if n == 11
    then some cs_reporting
    else if n == 12
    then some cs_destroy
    else if n == 13
    then some cs_none
    else none

unfoldable pub channel_state_name : ChannelState → Bytes
channel_state_name cs_new = codes "CS_NEW"
channel_state_name cs_init = codes "CS_INIT"
channel_state_name cs_routing = codes "CS_ROUTING"
channel_state_name cs_soft_execute = codes "CS_SOFT_EXECUTE"
channel_state_name cs_execute = codes "CS_EXECUTE"
channel_state_name cs_exchange_media = codes "CS_EXCHANGE_MEDIA"
channel_state_name cs_park = codes "CS_PARK"
channel_state_name cs_consume_media = codes "CS_CONSUME_MEDIA"
channel_state_name cs_hibernate = codes "CS_HIBERNATE"
channel_state_name cs_reset = codes "CS_RESET"
channel_state_name cs_hangup = codes "CS_HANGUP"
channel_state_name cs_reporting = codes "CS_REPORTING"
channel_state_name cs_destroy = codes "CS_DESTROY"
channel_state_name cs_none = codes "CS_NONE"

abbrev pub channel_state_variants : List ChannelState
channel_state_variants =
    cs_new ∷ cs_init ∷ cs_routing ∷ cs_soft_execute ∷ cs_execute ∷ cs_exchange_media ∷ cs_park
    ∷ cs_consume_media ∷ cs_hibernate ∷ cs_reset ∷ cs_hangup ∷ cs_reporting ∷ cs_destroy ∷ cs_none
    ∷ []

-- The arms of the `match`, with the literals of `FromStr`.
abbrev pub channel_state_arms : List (Bytes × ChannelState)
channel_state_arms =
    (codes "CS_NEW", cs_new)
    ∷ (codes "CS_INIT", cs_init)
    ∷ (codes "CS_ROUTING", cs_routing)
    ∷ (codes "CS_SOFT_EXECUTE", cs_soft_execute)
    ∷ (codes "CS_EXECUTE", cs_execute)
    ∷ (codes "CS_EXCHANGE_MEDIA", cs_exchange_media)
    ∷ (codes "CS_PARK", cs_park)
    ∷ (codes "CS_CONSUME_MEDIA", cs_consume_media)
    ∷ (codes "CS_HIBERNATE", cs_hibernate)
    ∷ (codes "CS_RESET", cs_reset)
    ∷ (codes "CS_HANGUP", cs_hangup)
    ∷ (codes "CS_REPORTING", cs_reporting)
    ∷ (codes "CS_DESTROY", cs_destroy)
    ∷ (codes "CS_NONE", cs_none)
    ∷ []

unfoldable pub channel_state_from_str : Bytes → Option ChannelState
unfolding match_arms to_uppercase
channel_state_from_str s = match_arms channel_state_arms (to_uppercase s)

pub data CallState : Type 0 where
  call_down call_dialing call_ringing call_early call_active call_held call_ring_wait call_hangup
        call_unheld :
      CallState

unfoldable pub call_state_name : CallState → Bytes
call_state_name call_down = codes "DOWN"
call_state_name call_dialing = codes "DIALING"
call_state_name call_ringing = codes "RINGING"
call_state_name call_early = codes "EARLY"
call_state_name call_active = codes "ACTIVE"
call_state_name call_held = codes "HELD"
call_state_name call_ring_wait = codes "RING_WAIT"
call_state_name call_hangup = codes "HANGUP"
call_state_name call_unheld = codes "UNHELD"

abbrev pub call_state_variants : List CallState
call_state_variants =
    call_down ∷ call_dialing ∷ call_ringing ∷ call_early ∷ call_active ∷ call_held ∷ call_ring_wait
    ∷ call_hangup ∷ call_unheld ∷ []

-- The arms of the `match`, with the literals of `FromStr`.
abbrev pub call_state_arms : List (Bytes × CallState)
call_state_arms =
    (codes "DOWN", call_down)
    ∷ (codes "DIALING", call_dialing)
    ∷ (codes "RINGING", call_ringing)
    ∷ (codes "EARLY", call_early)
    ∷ (codes "ACTIVE", call_active)
    ∷ (codes "HELD", call_held)
    ∷ (codes "RING_WAIT", call_ring_wait)
    ∷ (codes "HANGUP", call_hangup)
    ∷ (codes "UNHELD", call_unheld)
    ∷ []

unfoldable pub call_state_from_str : Bytes → Option CallState
unfolding match_arms to_uppercase
call_state_from_str s = match_arms call_state_arms (to_uppercase s)

pub data AnswerState : Type 0 where
  answer_hangup answer_answered answer_early answer_ringing : AnswerState

unfoldable pub answer_state_name : AnswerState → Bytes
answer_state_name answer_hangup = codes "hangup"
answer_state_name answer_answered = codes "answered"
answer_state_name answer_early = codes "early"
answer_state_name answer_ringing = codes "ringing"

abbrev pub answer_state_variants : List AnswerState
answer_state_variants = answer_hangup ∷ answer_answered ∷ answer_early ∷ answer_ringing ∷ []

-- The arms of the `match`, with the literals of `FromStr`.
abbrev pub answer_state_arms : List (Bytes × AnswerState)
answer_state_arms =
    (codes "hangup", answer_hangup)
    ∷ (codes "answered", answer_answered)
    ∷ (codes "early", answer_early)
    ∷ (codes "ringing", answer_ringing)
    ∷ []

unfoldable pub answer_state_from_str : Bytes → Option AnswerState
unfolding match_arms to_lowercase
answer_state_from_str s = match_arms answer_state_arms (to_lowercase s)

pub data CallDirection : Type 0 where
  inbound outbound : CallDirection

unfoldable pub call_direction_name : CallDirection → Bytes
call_direction_name inbound = codes "inbound"
call_direction_name outbound = codes "outbound"

abbrev pub call_direction_variants : List CallDirection
call_direction_variants = inbound ∷ outbound ∷ []

-- The arms of the `match`, with the literals of `FromStr`.
abbrev pub call_direction_arms : List (Bytes × CallDirection)
call_direction_arms = (codes "inbound", inbound) ∷ (codes "outbound", outbound) ∷ []

unfoldable pub call_direction_from_str : Bytes → Option CallDirection
unfolding match_arms to_lowercase
call_direction_from_str s = match_arms call_direction_arms (to_lowercase s)

-- A number is read as a state exactly if it is the state's.
pub from_number_iff : (n : ℕ) (s : ChannelState) → (from_number n ≡ some s) ↔ (as_number s ≡ n)
unfolding from_number as_number
from_number_iff n s = (number_of n s, λ e. subst (λ m. from_number m ≡ some s) e (number-state s))
  where
    number-state : (s : ChannelState) → from_number (as_number s) ≡ some s
    number-state cs_new = refl
    number-state _ = refl

    number_of : (n : ℕ) (s : ChannelState) → from_number n ≡ some s → as_number s ≡ n
    number_of n cs_new h = ground arith
    number_of n _ h = ground arith

channel_state-IsWire : IsWire channel_state_name channel_state_variants
unfolding match_name channel_state_name
channel_state-IsWire cs_new = refl
channel_state-IsWire _ = refl

call_state-IsWire : IsWire call_state_name call_state_variants
unfolding match_name call_state_name
call_state-IsWire call_down = refl
call_state-IsWire _ = refl

answer_state-IsWire : IsWire answer_state_name answer_state_variants
unfolding match_name answer_state_name
answer_state-IsWire answer_hangup = refl
answer_state-IsWire _ = refl

call_direction-IsWire : IsWire call_direction_name call_direction_variants
unfolding match_name call_direction_name
call_direction-IsWire inbound = refl
call_direction-IsWire outbound = refl

channel_state_from_str-match_name :
    (s : Bytes)
    → channel_state_from_str s
      ≡ match_name channel_state_name channel_state_variants (to_uppercase s)
unfolding channel_state_from_str channel_state_name match_name match_arms
channel_state_from_str-match_name s = refl

call_state_from_str-match_name :
    (s : Bytes)
    → call_state_from_str s ≡ match_name call_state_name call_state_variants (to_uppercase s)
unfolding call_state_from_str call_state_name match_name match_arms
call_state_from_str-match_name s = refl

answer_state_from_str-match_name :
    (s : Bytes)
    → answer_state_from_str s ≡ match_name answer_state_name answer_state_variants (to_lowercase s)
unfolding answer_state_from_str answer_state_name match_name match_arms
answer_state_from_str-match_name s = refl

call_direction_from_str-match_name :
    (s : Bytes)
    → call_direction_from_str s
      ≡ match_name call_direction_name call_direction_variants (to_lowercase s)
unfolding call_direction_from_str call_direction_name match_name match_arms
call_direction_from_str-match_name s = refl

-- A text is read as a channel state or a call state exactly if in upper case it is the state's
-- name, and as an answer state or a direction exactly if in lower case it is the name.
pub from_str_iff :
    (s : Bytes)
    → ((t : ChannelState)
        → (channel_state_from_str s ≡ some t) ↔ (to_uppercase s ≡ channel_state_name t))
      × ((t : CallState) → (call_state_from_str s ≡ some t) ↔ (to_uppercase s ≡ call_state_name t))
      × ((t : AnswerState)
          → (answer_state_from_str s ≡ some t) ↔ (to_lowercase s ≡ answer_state_name t))
      × ((t : CallDirection)
          → (call_direction_from_str s ≡ some t) ↔ (to_lowercase s ≡ call_direction_name t))
from_str_iff s = (
  (λ t. rw (channel_state_from_str-match_name s) (
      match_name_iff channel_state_name channel_state_variants (to_uppercase s) t
        channel_state-IsWire)),
  (λ t.
      rw (call_state_from_str-match_name s)
        (match_name_iff call_state_name call_state_variants (to_uppercase s) t call_state-IsWire)),
  (λ t. rw (answer_state_from_str-match_name s) (
      match_name_iff answer_state_name answer_state_variants (to_lowercase s) t
        answer_state-IsWire)),
  (λ t. rw (call_direction_from_str-match_name s) (
      match_name_iff call_direction_name call_direction_variants (to_lowercase s) t
        call_direction-IsWire)),
)
