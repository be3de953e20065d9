-- ===== src/Command/Safety.antt =====
-- What `to_wire_format` of src/command.rs lets through: no text of the caller ends a line early.
use freeswitch_esl_rs.Prelude.{
  Bool-cases, Option-cases, All, All-append, All-split, ok, ◌>>◌, ◌≡◌, refl, sym, ◌∙◌, subst, ◌↔◌,
  inl, inr, true, false, Option, none, some, List, [], ◌∷◌, ◌++◌, arith, Bytes, codes,
}
use freeswitch_esl_rs.Text.{bytes_eq}
use freeswitch_esl_rs.Text.Decimal.{decimal}
use freeswitch_esl_rs.Text.Digits.{decimal-Lacks}
use freeswitch_esl_rs.Error.{EslResult}
use freeswitch_esl_rs.Headers.{Headers, get, insert}
use freeswitch_esl_rs.Event.Types.{EslEventType, custom, wire_name}
use freeswitch_esl_rs.Event.{EslEvent, set_header}
use freeswitch_esl_rs.Command.{has_newline, validate_no_newlines}
use freeswitch_esl_rs.Command.Wire.{
  resume, api, log, EslCommand, auth, user_auth, bg_api, events, filter, send_msg, execute, exit,
  no_log, no_op, send_event, my_events, linger, no_linger, nix_event, no_events, filter_delete,
  divert_events, get_var, connect, command_line, format_simple_command, event_name, set_args,
  execute_event, optional_word, filter_delete_args, my_events_args, linger_args, send_msg_wire,
  to_wire_format,
}
use freeswitch_esl_rs.Command.Checked.{
  IsLine, IsPair, Checked, literal-IsLine, append-IsLine, Checked-map, validate-Checked,
  IsOptionalLine, validate_option-Checked,
}
use freeswitch_esl_rs.Command.Framed.{
  IsClean, event_of, IsFramed, command_line-IsLine, line-IsFramed, build_with-Checked,
}
use freeswitch_esl_rs.Event
use mathlib.Core.List.{Permᴰ}

get-IsLine : (m : Headers) (k : Bytes) {v : Bytes} → All IsPair m → get m k ≡ some v → IsLine v
unfolding get
get-IsLine [] k h e = cc
get-IsLine ((j, w) ∷ m) k {v} h e = elim (Bool-cases (bytes_eq j k)) [
  | inl q ↦ let s : some w ≡ some v = sym (rw q refl) ∙ e in ground (arith, h.0.1)
  | inr q ↦ get-IsLine m k {v = v} h.1 (sym (rw q refl) ∙ e)
]

wire_name-IsLine : (t : EslEventType) → has_newline (wire_name t) ≡ false
unfolding wire_name has_newline
wire_name-IsLine custom = refl
wire_name-IsLine _ = refl

event_name-IsLine : (e : EslEvent) → All IsPair e.headers → IsLine (event_name e)
unfolding event_name Event.header has_newline
event_name-IsLine e h = elim (Option-cases e.event_type) [
  | inr (t, i) ↦ rw (i, event_name) (literal-IsLine (wire_name t) (wire_name-IsLine t))
  | inl i ↦ elim (Option-cases (Event.header e (codes "Event-Name"))) [
    | inl n ↦ rw (i, event_name) (rw n (literal-IsLine (codes "CUSTOM") refl))
    | inr (s, n) ↦ rw (i, event_name) (rw n (get-IsLine e.headers (codes "Event-Name") h n))
  ]
]

option-IsLine : (o : Option Bytes) → IsOptionalLine o ↔ All IsLine (optional_word o)
option-IsLine none = (λ _. tt, λ _. tt)
option-IsLine (some s) = (λ l. (l, tt), λ l. l.0)

-- A command that is checked, then written as one line.
module _ (cmd : Bytes) (h : has_newline cmd ≡ false) where
  written-Checked :
      (P : Type 0) (args : List Bytes)
      → P
      → All IsLine args
      → Checked P (IsFramed none) (ok (format_simple_command cmd args))
  written-Checked P args p l = (p, line-IsFramed cmd args h l)

  one-Checked :
      (s context : Bytes)
      → Checked
          (IsLine s × Unit)
          (IsFramed none)
          (validate_no_newlines s context >> ok (format_simple_command cmd (s ∷ [])))
  one-Checked s context =
      validate-Checked Unit (IsFramed none) s context _
        λ l. written-Checked Unit (s ∷ []) tt (l, tt)

-- Without headers of an event, the texts alone decide.
no_headers :
    (P : Type 0) (r : EslResult Bytes)
    → Checked P (IsFramed none) r
    → Checked (P × Unit) (IsFramed none) r
no_headers P r h =
    Checked-map {Q = IsFramed none} {Q' = IsFramed none} r (λ p. (p, tt)) (λ p. p.0) (λ _ _ q. q) h

execute_event-body : (app : Bytes) (args : Option Bytes) → (execute_event app args).body ≡ none
unfolding execute_event set_args Event.set_header Event.new
execute_event-body app none = refl
execute_event-body app (some s) = refl

execute_event-IsPair :
    (app : Bytes) (args : Option Bytes)
    → IsLine app
    → IsOptionalLine args
    → All IsPair (execute_event app args).headers
unfolding execute_event set_args Event.set_header Event.new insert bytes_eq has_newline
execute_event-IsPair app none l o = (
  (literal-IsLine (codes "call-command") refl, literal-IsLine (codes "execute") refl),
  ((literal-IsLine (codes "execute-app-name") refl, l), tt),
)
execute_event-IsPair app (some s) l o = (
  (literal-IsLine (codes "call-command") refl, literal-IsLine (codes "execute") refl),
  (
    (literal-IsLine (codes "execute-app-name") refl, l),
    ((literal-IsLine (codes "execute-app-arg") refl, o), tt),
  ),
)

filter_delete_args-IsLine :
    (h : Bytes) (o : Option Bytes)
    → IsLine h
    → IsOptionalLine o
    → All IsLine (filter_delete_args h o)
unfolding filter_delete_args has_newline
filter_delete_args-IsLine h o l k = elim (Bool-cases (bytes_eq h (codes "all"))) [
  | inl e ↦ rw e (literal-IsLine (codes "delete") refl, (literal-IsLine (codes "all") refl, tt))
  | inr e ↦ rw e (literal-IsLine (codes "delete") refl, (l, (option-IsLine o).0 k))
]

module _ (order : Headers → Headers) (perm : (m : Headers) → Permᴰ (order m) m) where
  send_msg-Checked :
      (uuid : Option Bytes) (e : EslEvent)
      → Checked
          (All IsLine (optional_word uuid) × All IsPair e.headers)
          (IsFramed e.body)
          (send_msg_wire order uuid e)
  unfolding send_msg_wire has_newline
  send_msg-Checked uuid e =
      Checked-map {Q = IsFramed e.body} {Q' = IsFramed e.body} (send_msg_wire order uuid e)
        (λ p. ((option-IsLine uuid).0 p.0, p.1)) (λ p. ((option-IsLine uuid).1 p.0, p.1))
        (λ _ _ q. q)
        (validate_option-Checked (All IsPair e.headers) (IsFramed e.body) uuid
          (codes "sendmsg uuid") _
          λ l.
            build_with-Checked order perm (command_line (codes "sendmsg") (optional_word uuid)) e
              λ _.
                command_line-IsLine (codes "sendmsg") (optional_word uuid)
                  (literal-IsLine (codes "sendmsg") refl) ((option-IsLine uuid).0 l))

  execute-Checked :
      (app : Bytes) (args uuid : Option Bytes)
      → Checked
          (IsLine app × (IsOptionalLine args × (IsOptionalLine uuid × Unit)))
          (IsFramed none)
          (to_wire_format order (execute app args uuid))
  unfolding to_wire_format
  execute-Checked app args uuid =
      validate-Checked (IsOptionalLine args × (IsOptionalLine uuid × Unit)) (IsFramed none) app
        (codes "execute app") _
        λ l.
          validate_option-Checked (IsOptionalLine uuid × Unit) (IsFramed none) args
            (codes "execute args") _
            λ a. validate_option-Checked Unit (IsFramed none) uuid (codes "execute uuid") _ λ u.
              Checked-map (send_msg_wire order uuid (execute_event app args)) (λ _. tt)
                (λ _. ((option-IsLine uuid).0 u, execute_event-IsPair app args l a))
                (λ w _ q. subst (λ o. IsFramed o w) (execute_event-body app args) q)
                (send_msg-Checked uuid (execute_event app args))

  -- A command is written exactly if none of its texts, and no header of its event, has a newline,
  -- and is rejected with a protocol error otherwise. What is written is one line, the header lines
  -- of names and values without newlines, and the event's body behind its length, and nothing else:
  -- no text of the caller starts a line of its own.
  pub to_wire_format-Checked :
      (c : EslCommand) → Checked (IsClean c) (IsFramed (event_of c).body) (to_wire_format order c)
  unfolding to_wire_format has_newline my_events_args filter_delete_args bytes_eq linger_args
      Event.new decimal
  to_wire_format-Checked (auth s) =
      no_headers (All IsLine (s ∷ [])) _ (one-Checked (codes "auth") refl s (codes "password"))
  to_wire_format-Checked (user_auth u p) = no_headers (All IsLine (u ∷ p ∷ [])) _ (
      validate-Checked (IsLine p × Unit) (IsFramed none) u (codes "user") _ λ la.
        validate-Checked Unit (IsFramed none) p (codes "password") _ λ lb.
          written-Checked (codes "userauth") refl Unit ((u ++ (codes ":" ++ p)) ∷ []) tt (
            append-IsLine u (codes ":" ++ p) la
                (append-IsLine (codes ":") p (literal-IsLine (codes ":") refl) lb),
            tt,
          ))
  to_wire_format-Checked (api s) =
      no_headers (All IsLine (s ∷ [])) _ (one-Checked (codes "api") refl s (codes "api command"))
  to_wire_format-Checked (bg_api s) =
      no_headers (All IsLine (s ∷ [])) _
        (one-Checked (codes "bgapi") refl s (codes "bgapi command"))
  to_wire_format-Checked (events f s) = no_headers (All IsLine (f ∷ s ∷ [])) _ (
      validate-Checked (IsLine s × Unit) (IsFramed none) f (codes "event format") _ λ la.
        validate-Checked Unit (IsFramed none) s (codes "event list") _
          λ lb. written-Checked (codes "event") refl Unit (f ∷ s ∷ []) tt (la, (lb, tt)))
  to_wire_format-Checked (filter f s) = no_headers (All IsLine (f ∷ s ∷ [])) _ (
      validate-Checked (IsLine s × Unit) (IsFramed none) f (codes "filter header") _ λ la.
        validate-Checked Unit (IsFramed none) s (codes "filter value") _
          λ lb. written-Checked (codes "filter") refl Unit (f ∷ s ∷ []) tt (la, (lb, tt)))
  to_wire_format-Checked (send_msg uuid e) = send_msg-Checked uuid e
  to_wire_format-Checked (execute app args uuid) =
      Checked-map {Q = IsFramed none} {Q' = IsFramed none}
        (to_wire_format order (execute app args uuid))
        (λ p. (
          (
            p.0,
            All-append IsLine (optional_word args) (optional_word uuid)
                ((option-IsLine args).0 p.1.0) ((option-IsLine uuid).0 p.1.1.0),
          ),
          tt,
        ))
        (λ p.
          let r = All-split IsLine (optional_word args) (optional_word uuid) p.0.1 in
          (p.0.0, ((option-IsLine args).1 r.0, ((option-IsLine uuid).1 r.1, tt))))
        (λ _ _ q. q) (execute-Checked app args uuid)
  to_wire_format-Checked exit = ((tt, tt), line-IsFramed (codes "exit") [] refl tt)
  to_wire_format-Checked (log s) =
      no_headers (All IsLine (s ∷ [])) _ (one-Checked (codes "log") refl s (codes "log level"))
  to_wire_format-Checked no_log = ((tt, tt), line-IsFramed (codes "nolog") [] refl tt)
  to_wire_format-Checked no_op = ((tt, tt), line-IsFramed (codes "noop") [] refl tt)
  to_wire_format-Checked (send_event e) =
      Checked-map {Q = IsFramed e.body} {Q' = IsFramed e.body} (to_wire_format order (send_event e))
        (λ p. (tt, p)) (λ p. p.1) (λ _ _ q. q)
        (build_with-Checked order perm (codes "sendevent " ++ event_name e) e λ h.
          append-IsLine (codes "sendevent ") (event_name e)
            (literal-IsLine (codes "sendevent ") refl) (event_name-IsLine e h))
  to_wire_format-Checked (my_events f none) =
      no_headers (All IsLine (f ∷ [])) _
        (one-Checked (codes "myevents") refl f (codes "myevents format"))
  to_wire_format-Checked (my_events f (some s)) = no_headers (All IsLine (f ∷ s ∷ [])) _ (
      validate-Checked (IsLine s × Unit) (IsFramed none) f (codes "myevents format") _ λ la.
        validate-Checked Unit (IsFramed none) s (codes "myevents uuid") _
          λ lb. written-Checked (codes "myevents") refl Unit (s ∷ f ∷ []) tt (lb, (la, tt)))
  to_wire_format-Checked (linger none) = ((tt, tt), line-IsFramed (codes "linger") [] refl tt)
  to_wire_format-Checked (linger (some n)) = (
    (tt, tt),
    line-IsFramed (codes "linger") (decimal n ∷ []) refl
        ((decimal-Lacks b'\n' n (omega arith), decimal-Lacks b'\r' n (omega arith)), tt),
  )
  to_wire_format-Checked no_linger = ((tt, tt), line-IsFramed (codes "nolinger") [] refl tt)
  to_wire_format-Checked resume = ((tt, tt), line-IsFramed (codes "resume") [] refl tt)
  to_wire_format-Checked (nix_event s) =
      no_headers (All IsLine (s ∷ [])) _
        (one-Checked (codes "nixevent") refl s (codes "nixevent list"))
  to_wire_format-Checked no_events = ((tt, tt), line-IsFramed (codes "noevents") [] refl tt)
  to_wire_format-Checked (filter_delete h none) = no_headers (All IsLine (h ∷ [])) _ (
      validate-Checked Unit (IsFramed none) h (codes "filter delete header") _ λ l.
        written-Checked (codes "filter") refl Unit (filter_delete_args h none) tt
          (filter_delete_args-IsLine h none l tt))
  to_wire_format-Checked (filter_delete h (some v)) = no_headers (All IsLine (h ∷ v ∷ [])) _ (
      validate-Checked (IsLine v × Unit) (IsFramed none) h (codes "filter delete header") _ λ l.
        validate-Checked Unit (IsFramed none) v (codes "filter delete value") _ λ k.
          written-Checked (codes "filter") refl Unit (filter_delete_args h (some v)) tt
            (filter_delete_args-IsLine h (some v) l k))
  to_wire_format-Checked (divert_events true) = (
    (tt, tt),
    line-IsFramed (codes "divert_events") (codes "on" ∷ []) refl
        (literal-IsLine (codes "on") refl, tt),
  )
  to_wire_format-Checked (divert_events false) = (
    (tt, tt),
    line-IsFramed (codes "divert_events") (codes "off" ∷ []) refl
        (literal-IsLine (codes "off") refl, tt),
  )
  to_wire_format-Checked (get_var s) =
      no_headers (All IsLine (s ∷ [])) _ (one-Checked (codes "getvar") refl s (codes "getvar name"))
  to_wire_format-Checked connect = ((tt, tt), line-IsFramed (codes "connect") [] refl tt)
