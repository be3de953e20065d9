-- ===== src/Event/Named.antt =====
-- The accessors of `EslEvent` in src/event.rs that read one named header.
use freeswitch_esl_rs.Prelude.{All, ◌≡◌, Option, some, List, [], ◌∷◌, Bytes, codes}
use freeswitch_esl_rs.Headers.Laws.{get-insert_self}
use freeswitch_esl_rs.Event.{EslEvent, header, set_header}
use freeswitch_esl_rs.Event

unfoldable pub job_uuid : EslEvent → Option Bytes
unfolding Event.header
job_uuid e = Event.header e (codes "Job-UUID")

unfoldable channel_name : EslEvent → Option Bytes
unfolding Event.header
channel_name e = Event.header e (codes "Channel-Name")

unfoldable pub caller_id_number : EslEvent → Option Bytes
unfolding Event.header
caller_id_number e = Event.header e (codes "Caller-Caller-ID-Number")

unfoldable caller_id_name : EslEvent → Option Bytes
unfolding Event.header
caller_id_name e = Event.header e (codes "Caller-Caller-ID-Name")

unfoldable hangup_cause : EslEvent → Option Bytes
unfolding Event.header
hangup_cause e = Event.header e (codes "Hangup-Cause")

unfoldable event_subclass : EslEvent → Option Bytes
unfolding Event.header
event_subclass e = Event.header e (codes "Event-Subclass")

abbrev named : List ((EslEvent → Option Bytes) × Bytes)
named =
    (job_uuid, codes "Job-UUID")
    ∷ (channel_name, codes "Channel-Name")
    ∷ (caller_id_number, codes "Caller-Caller-ID-Number")
    ∷ (caller_id_name, codes "Caller-Caller-ID-Name")
    ∷ (hangup_cause, codes "Hangup-Cause")
    ∷ (event_subclass, codes "Event-Subclass")
    ∷ []

-- Each returns what was set last under its name.
named-set_header : (e : EslEvent) (v : Bytes) → All (λ f. f.0 (set_header e f.1 v) ≡ some v) named
unfolding job_uuid channel_name caller_id_number caller_id_name hangup_cause event_subclass
    Event.header set_header
named-set_header e v = (
  get-insert_self e.headers (codes "Job-UUID") v,
  (
    get-insert_self e.headers (codes "Channel-Name") v,
    (
      get-insert_self e.headers (codes "Caller-Caller-ID-Number") v,
      (
        get-insert_self e.headers (codes "Caller-Caller-ID-Name") v,
        (
          get-insert_self e.headers (codes "Hangup-Cause") v,
          (get-insert_self e.headers (codes "Event-Subclass") v, tt),
        ),
      ),
    ),
  ),
)
