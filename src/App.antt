-- ===== src/App.antt =====
-- src/app/dptools.rs: the constructors of `execute` commands. A function there is a constructor here.
use freeswitch_esl_rs.Prelude.{
  All, ◌≡◌, refl, subst, ◌↔◌, false, Option, none, some, List, [], ◌∷◌, ◌++◌, Bytes, codes,
}
use freeswitch_esl_rs.Headers.{Headers}
use freeswitch_esl_rs.Command.{has_newline}
use freeswitch_esl_rs.Command.Wire.{
  EslCommand, execute, command_line, optional_word, to_wire_format,
}
use freeswitch_esl_rs.Command.Checked.{IsLine, Checked, literal-IsLine, append-IsLine, Checked-map}
use freeswitch_esl_rs.Command.Framed.{IsClean, event_of, IsFramed, command_line-IsLine}
use freeswitch_esl_rs.Command.Safety.{to_wire_format-Checked}
use freeswitch_esl_rs.Commands.Uuid.{split-IsLine, IsLine-command_line}
use freeswitch_esl_rs.Event
use mathlib.Core.List.{Permᴰ}

pub data AppCommand : Type 0 where
  answer : AppCommand
  hangup : (cause : Option Bytes) → AppCommand
  playback : (file : Bytes) → AppCommand
  bridge : (destination : Bytes) → AppCommand
  set_var : (name value : Bytes) → AppCommand
  park : AppCommand
  transfer : (extension : Bytes) (dialplan context : Option Bytes) → AppCommand

unfoldable pub app_command : AppCommand → EslCommand
unfolding command_line
app_command answer = execute (codes "answer") none none
app_command (hangup cause) = execute (codes "hangup") cause none
app_command (playback file) = execute (codes "playback") (some file) none
app_command (bridge destination) = execute (codes "bridge") (some destination) none
app_command (set_var name value) = execute (codes "set") (some (name ++ (codes "=" ++ value))) none
app_command park = execute (codes "park") none none
app_command (transfer extension dialplan context) =
    execute (codes "transfer")
      (some (command_line extension (optional_word dialplan ++ optional_word context))) none

-- The texts of the caller.
abbrev pub app_texts : AppCommand → List Bytes
app_texts answer = []
app_texts (hangup cause) = optional_word cause
app_texts (playback file) = file ∷ []
app_texts (bridge destination) = destination ∷ []
app_texts (set_var name value) = name ∷ value ∷ []
app_texts park = []
app_texts (transfer extension dialplan context) =
    extension ∷ optional_word dialplan ++ optional_word context

-- The name of the application is a line.
named :
    (app : Bytes) (args : Option Bytes) (P : Type 0)
    → has_newline app ≡ false
    → All IsLine (optional_word args) ↔ P
    → IsClean (execute app args none) ↔ P
unfolding Event.new
named app none P h i = ((λ _. i.0 tt), (λ p. ((literal-IsLine app h, tt), tt)))
named app (some a) P h i = ((λ c. i.0 (c.0.1.0, tt)), (λ p. ((literal-IsLine app h, i.1 p), tt)))

app_iff : (a : AppCommand) → IsClean (app_command a) ↔ All IsLine (app_texts a)
unfolding app_command has_newline
app_iff answer = named (codes "answer") none Unit refl ((λ u. u), (λ u. u))
app_iff (hangup cause) = named (codes "hangup") cause _ refl ((λ u. u), (λ u. u))
app_iff (playback file) = named (codes "playback") (some file) _ refl ((λ u. u), (λ u. u))
app_iff (bridge destination) = named (codes "bridge") (some destination) _ refl ((λ u. u), (λ u. u))
app_iff (set_var name value) = named (codes "set") (some (name ++ (codes "=" ++ value))) _ refl (
  (λ u.
      let s = split-IsLine name (codes "=" ++ value) u.0 in
      (s.0, ((split-IsLine (codes "=") value s.1).1, tt))),
  (λ u. (
    append-IsLine name (codes "=" ++ value) u.0
        (append-IsLine (codes "=") value (literal-IsLine (codes "=") refl) u.1.0),
    tt,
  )),
)
app_iff park = named (codes "park") none Unit refl ((λ u. u), (λ u. u))
app_iff (transfer extension dialplan context) =
    let words = optional_word dialplan ++ optional_word context in
    named (codes "transfer") (some (command_line extension words)) _ refl (
      (λ u. IsLine-command_line extension words u.0),
      (λ u. (command_line-IsLine extension words u.0 u.1, tt)),
    )

app-body : (a : AppCommand) → (event_of (app_command a)).body ≡ none
unfolding app_command Event.new
app-body answer = refl
app-body _ = refl

-- An application command is written exactly if no text of the caller has a newline, as one line,
-- header lines and a blank line; otherwise it is rejected with a protocol error.
app_command-Checked :
    (order : Headers → Headers)
    → ((m : Headers) → Permᴰ (order m) m)
    → (a : AppCommand)
    → Checked (All IsLine (app_texts a)) (IsFramed none) (to_wire_format order (app_command a))
app_command-Checked order perm a =
    Checked-map (to_wire_format order (app_command a)) (λ p. (app_iff a).0 p) (λ p. (app_iff a).1 p)
      (λ w _ q. subst (λ o. IsFramed o w) (app-body a) q)
      (to_wire_format-Checked order perm (app_command a))
