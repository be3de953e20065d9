-- ===== src/Tracker/Start.antt =====
-- How `main` of examples/channel_tracker.rs begins: what it connects and subscribes to.
use freeswitch_esl_rs.Prelude.{
  if◌then◌else◌, ℕ, ◌≤◌, ◌≡◌, refl, true, Option, none, some, List, [], ◌∷◌, ◌++◌, arith, Bytes,
  codes, Lacks,
}
use freeswitch_esl_rs.Text.{contains, split_once}
use freeswitch_esl_rs.Text.Search.{split_once-append}
use freeswitch_esl_rs.Text.Decimal.{decimal, parse_unsigned}
use freeswitch_esl_rs.Text.Digits.{parse_unsigned-decimal}
use freeswitch_esl_rs.Text.Signed.{map_some}
use freeswitch_esl_rs.Event.Types.{EslEventType}
use freeswitch_esl_rs.Event.{plain}
use freeswitch_esl_rs.Command.Response.{EslResponse}
use freeswitch_esl_rs.Command.Wire.{EslCommand}
use freeswitch_esl_rs.Channel.Accessors.{and_then}
use freeswitch_esl_rs.Connection.Client.{send_command}
use freeswitch_esl_rs.Connection.Methods.{Sent, subscribe_events}
use freeswitch_esl_rs.Event.Types

abbrev default_esl_port : ℕ
default_esl_port = 8021

-- The host and the port of the first argument; none where `expect` panics.
unfoldable connect_target : Option Bytes → Option (Bytes × ℕ)
unfolding contains split_once parse_unsigned
connect_target none = some (codes "localhost", default_esl_port)
connect_target (some hp) =
    if contains hp b':'
    then and_then (split_once hp b':')
        (λ (h, p). map_some (λ port. (h, port)) (parse_unsigned 65535 p))
    else some (hp, default_esl_port)

-- What is subscribed to.
abbrev subscribed_events : List EslEventType
subscribed_events =
    Types.channel_create ∷ Types.channel_destroy ∷ Types.channel_state ∷ Types.channel_callstate
    ∷ Types.channel_answer ∷ Types.channel_hangup ∷ Types.channel_hangup_complete
    ∷ Types.channel_execute ∷ Types.channel_execute_complete ∷ Types.channel_hold
    ∷ Types.channel_unhold ∷ Types.channel_bridge ∷ Types.channel_unbridge ∷ Types.channel_progress
    ∷ Types.channel_progress_media ∷ Types.channel_outgoing ∷ Types.channel_park
    ∷ Types.channel_unpark ∷ Types.channel_application ∷ Types.channel_originate
    ∷ Types.channel_uuid ∷ Types.call_secure ∷ Types.call_update ∷ Types.background_job
    ∷ Types.heartbeat ∷ []

unfoldable subscribes : (EslCommand → Sent EslResponse) → Sent (Unit {0})
unfolding subscribe_events
subscribes send_command = subscribe_events send_command plain subscribed_events

-- A host and a port are read as they were written.
connect_target-append :
    (h : Bytes) (port : ℕ)
    → Lacks b':' h
    → port ≤ 65535
    → connect_target (some (h ++ b':' ∷ decimal port)) ≡ some (h, port)
unfolding connect_target
connect_target-append h port lacks fits =
    rw
      (
        connect_target,
        contains_within h b':' (decimal port),
        split_once-append h b':' (decimal port) lacks,
        parse_unsigned-decimal 65535 port fits,
      )
      refl
  where
    contains_within : (h : Bytes) (c : ℕ) (s : Bytes) → contains (h ++ c ∷ s) c ≡ true
    contains_within [] c s = unfold contains in ground arith
    contains_within (x ∷ h) c s = unfold contains in ground (arith, contains_within h c s)
