-- ===== src/Filter/Accepted.antt =====
-- Which options examples/event_filter.rs accepts.
use freeswitch_esl_rs.Prelude.{
  if◌then◌else◌, Result, ok, err, ◌≡◌, refl, ap, ◌∙◌, subst, ◌≢◌, ◌↔◌, Bool, true, false, List, [],
  ◌∷◌, ◌++◌, arith, Bytes, codes,
}
use freeswitch_esl_rs.Text.Decimal.{decimal}
use freeswitch_esl_rs.Text.Digits.{parse_unsigned-decimal}
use freeswitch_esl_rs.Filter.{
  Args, default_args, Choice, help, unheard_of, switch, with_value, choice, usage, rejected,
  accepted, is_given, events_or_default, differ, completed, unknown_argument, parse_from,
  parse_args,
}
use freeswitch_esl_rs.Filter.Arguments.{
  IsChecked, IsComplete, option_args, event_args, switches, arguments, parse-host, parse-port,
  parse-password, parse-events, parse-user_args, parse-header_args, parse-value_args,
  parse-switches,
}
use freeswitch_esl_rs.Filter.Choices.{KeepsChecked, choice-KeepsChecked}

differ_iff : (a b : Bool) → (differ a b ≡ false) ↔ (a ≡ b)
differ_iff true b = ground arith
differ_iff false b = ground arith

events_given : (es : List Bytes) → es ≢ [] → events_or_default es ≡ es
events_given [] h = absurd (h refl)
events_given (e ∷ es) h = refl

events_or_default-ne-nil : (es : List Bytes) → events_or_default es ≢ []
events_or_default-ne-nil [] e = cc
events_or_default-ne-nil (v ∷ es) e = cc

completed-IsComplete : (a : Args) → IsComplete a → parse_from a [] ≡ accepted a
unfolding parse_from
completed-IsComplete a (port, user, events, both) =
    let alike = (differ_iff (is_given a.filter_header) (is_given a.filter_value)).1 both in
    rw (completed, alike)
      (ap (λ es. accepted (record a { events = es })) (events_given a.events events))

IsComplete-completed : (r : Args) {a : Args} → IsChecked r → completed r ≡ accepted a → IsComplete a
unfolding completed
IsComplete-completed r {a} (port, user) e =
    of_test (differ (is_given r.filter_header) (is_given r.filter_value)) refl e
  where
    with_events : Args
    with_events = record r { events = events_or_default r.events }

    of_test :
        (b : Bool)
        → differ (is_given r.filter_header) (is_given r.filter_value) ≡ b
        → (if b
            then rejected (codes "Both --filter and --value must be specified together")
            else accepted (record r { events = events_or_default r.events }))
          ≡ accepted a
        → IsComplete a
    of_test true t e = cc
    of_test false t e =
        let same : record r { events = events_or_default r.events } ≡ a = cc in
        subst IsComplete same (
          port,
          user,
          events_or_default-ne-nil r.events,
          (differ_iff (is_given r.filter_header) (is_given r.filter_value)).0 t,
        )

last-IsComplete :
    (r : Args) (arg : Bytes) {a : Args} (c : Choice)
    → KeepsChecked c
    → IsChecked r
    → elim c [
      | help ↦ usage
      | unheard_of ↦ unknown_argument arg
      | switch set ↦ completed (set r)
      | with_value missing set ↦ rejected missing
    ]
      ≡ accepted a
    → IsComplete a
last-IsComplete r arg help k h e = cc
last-IsComplete r arg unheard_of k h e = cc
last-IsComplete r arg (switch set) k h e = IsComplete-completed (set r) (k r h) e
last-IsComplete r arg (with_value missing set) k h e = cc

-- What is accepted from the arguments as `a` is complete.
abbrev Sound : Args → List Bytes → Type 0
Sound a args = (r : Args) → IsChecked r → parse_from r args ≡ accepted a → IsComplete a

module _ (v : Bytes) (rest : List Bytes) (a : Args) where
  value-IsComplete :
      (result : Result Bytes Args)
      → ((r' : Args) → result ≡ ok r' → IsChecked r')
      → Sound a rest
      → elim result [ err message ↦ rejected message | ok r' ↦ parse_from r' rest ] ≡ accepted a
      → IsComplete a
  value-IsComplete (err message) h sound e = cc
  value-IsComplete (ok r') h sound e = sound r' (h r' refl) e

  more-IsComplete :
      (r : Args) (arg : Bytes) (c : Choice)
      → KeepsChecked c
      → IsChecked r
      → Sound a rest
      → Sound a (v ∷ rest)
      → elim c [
        | help ↦ usage
        | unheard_of ↦ unknown_argument arg
        | switch set ↦ parse_from (set r) (v ∷ rest)
        | with_value missing set ↦ elim (set r v) [
          | err message ↦ rejected message
          | ok r' ↦ parse_from r' rest
        ]
      ]
        ≡ accepted a
      → IsComplete a
  more-IsComplete r arg help k h s t e = cc
  more-IsComplete r arg unheard_of k h s t e = cc
  more-IsComplete r arg (switch set) k h s t e = t (set r) (k r h) e
  more-IsComplete r arg (with_value missing set) k h s t e =
      value-IsComplete (set r v) (λ r'. k r v r' h) s e

parse_from-IsComplete : (a : Args) (args : List Bytes) → Sound a args
unfolding parse_from
parse_from-IsComplete a [] r h e = IsComplete-completed r h e
parse_from-IsComplete a (arg ∷ []) r h e =
    last-IsComplete r arg (choice arg) (choice-KeepsChecked arg) h e
parse_from-IsComplete a (arg ∷ v ∷ rest) r h e =
    more-IsComplete v rest a r arg (choice arg) (choice-KeepsChecked arg) h
      (parse_from-IsComplete a rest) (parse_from-IsComplete a (v ∷ rest)) e

parse_args-arguments : (a : Args) → IsComplete a → parse_args (arguments a) ≡ accepted a
unfolding parse_args arguments
parse_args-arguments a h =
    let switched = switches a.json_output a.raw_output a.quiet in
    let valued_args = option_args (codes "-v") a.filter_value ++ switched in
    let headed = option_args (codes "-f") a.filter_header ++ valued_args in
    let evented = event_args a.events ++ headed in
    let usered = option_args (codes "-u") a.user ++ evented in
    let r0 = record default_args { events = [] } in
    let r1 = record r0 { host = a.host } in
    let r2 = record r1 { port = a.port } in
    let r3 = record r2 { password = a.password } in
    let r4 = record r3 { user = a.user } in
    let r5 = record r4 { events = a.events } in
    let r6 = record r5 { filter_header = a.filter_header } in
    let r7 = record r6 { filter_value = a.filter_value } in
    parse-host r0 a.host (codes "-P" ∷ decimal a.port ∷ codes "-p" ∷ a.password ∷ usered)
    ∙ parse-port r1 (decimal a.port) (codes "-p" ∷ a.password ∷ usered)
        (parse_unsigned-decimal 65535 a.port h.0)
    ∙ parse-password r2 a.password usered
    ∙ parse-user_args r3 evented a.user h.1
    ∙ parse-events a.events r4 headed
    ∙ parse-header_args r5 valued_args a.filter_header
    ∙ parse-value_args r6 switched a.filter_value
    ∙ parse-switches r7 a.json_output a.raw_output a.quiet
    ∙ completed-IsComplete a h

-- Options are accepted from some arguments exactly if the port has 16 bits, the user, if one is
-- given, has an at sign, there is at least one event, and both a header and a value to filter by are
-- given or neither.
pub parse_args_iff :
    (a : Args) → IsComplete a ↔ ((args : List Bytes) × (parse_args args ≡ accepted a))
unfolding parse_args
parse_args_iff a = (
  (λ h. (arguments a, parse_args-arguments a h)),
  (λ (args, e).
      parse_from-IsComplete a args (record default_args { events = [] }) (omega arith, tt) e),
)
