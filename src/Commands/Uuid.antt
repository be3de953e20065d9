-- ===== src/Commands/Uuid.antt =====
-- The builders of src/commands/channel.rs, which write a command that is sent by `api`: a structure
-- there is a constructor here.
use freeswitch_esl_rs.Event
use freeswitch_esl_rs.Prelude.{
  All, All-split, ◌≡◌, refl, ◌↔◌, Bool, true, false, Option, none, List, [], ◌∷◌, ◌++◌, Bytes,
  codes,
}
use freeswitch_esl_rs.Headers.{Headers}
use freeswitch_esl_rs.Command.{has_newline}
use freeswitch_esl_rs.Command.Wire.{api, command_line, optional_word, to_wire_format}
use freeswitch_esl_rs.Command.Checked.{IsLine, Checked, literal-IsLine, Checked-map}
use freeswitch_esl_rs.Command.Framed.{IsFramed, command_line-IsLine}
use freeswitch_esl_rs.Command.Safety.{to_wire_format-Checked}
use mathlib.Core.List.{Permᴰ}

pub data UuidCommand : Type 0 where
  uuid_answer : (uuid : Bytes) → UuidCommand
  uuid_bridge : (uuid other_uuid : Bytes) → UuidCommand
  uuid_deflect : (uuid uri : Bytes) → UuidCommand
  uuid_hold : (uuid : Bytes) (off : Bool) → UuidCommand
  uuid_kill : (uuid : Bytes) (cause : Option Bytes) → UuidCommand
  uuid_get_var : (uuid key : Bytes) → UuidCommand
  uuid_set_var : (uuid key value : Bytes) → UuidCommand
  uuid_transfer : (uuid destination : Bytes) (dialplan : Option Bytes) → UuidCommand
  uuid_send_dtmf : (uuid dtmf : Bytes) → UuidCommand

-- The `Display` of each.
unfoldable pub uuid_display : UuidCommand → Bytes
unfolding command_line
uuid_display (uuid_answer u) = command_line (codes "uuid_answer") (u ∷ [])
uuid_display (uuid_bridge u v) = command_line (codes "uuid_bridge") (u ∷ v ∷ [])
uuid_display (uuid_deflect u r) = command_line (codes "uuid_deflect") (u ∷ r ∷ [])
uuid_display (uuid_hold u true) = command_line (codes "uuid_hold off") (u ∷ [])
uuid_display (uuid_hold u false) = command_line (codes "uuid_hold") (u ∷ [])
uuid_display (uuid_kill u o) = command_line (codes "uuid_kill") (u ∷ optional_word o)
uuid_display (uuid_get_var u k) = command_line (codes "uuid_getvar") (u ∷ k ∷ [])
uuid_display (uuid_set_var u k v) = command_line (codes "uuid_setvar") (u ∷ k ∷ v ∷ [])
uuid_display (uuid_transfer u d o) = command_line (codes "uuid_transfer") (u ∷ d ∷ optional_word o)
uuid_display (uuid_send_dtmf u d) = command_line (codes "uuid_send_dtmf") (u ∷ d ∷ [])

-- The texts of the caller.
abbrev pub uuid_texts : UuidCommand → List Bytes
uuid_texts (uuid_answer u) = u ∷ []
uuid_texts (uuid_bridge u v) = u ∷ v ∷ []
uuid_texts (uuid_deflect u r) = u ∷ r ∷ []
uuid_texts (uuid_hold u off) = u ∷ []
uuid_texts (uuid_kill u o) = u ∷ optional_word o
uuid_texts (uuid_get_var u k) = u ∷ k ∷ []
uuid_texts (uuid_set_var u k v) = u ∷ k ∷ v ∷ []
uuid_texts (uuid_transfer u d o) = u ∷ d ∷ optional_word o
uuid_texts (uuid_send_dtmf u d) = u ∷ d ∷ []

pub split-IsLine : (a b : Bytes) → IsLine (a ++ b) → IsLine a × IsLine b
split-IsLine a b (n, r) =
    let (an, bn) = All-split _ a b n in let (ar, br) = All-split _ a b r in ((an, ar), (bn, br))

pub IsLine-command_line :
    (cmd : Bytes) (args : List Bytes)
    → IsLine (command_line cmd args)
    → IsLine cmd × All IsLine args
unfolding command_line
IsLine-command_line cmd [] h = (h, tt)
IsLine-command_line cmd (a ∷ args) h =
    let (c, t) = IsLine-command_line (cmd ++ b' ' ∷ a) args h in
    let (l, s) = split-IsLine cmd (b' ' ∷ a) c in (l, ((s.0.1, s.1.1), t))

-- A line of words is a line exactly if the words are.
pub words_iff :
    (cmd : Bytes) (args : List Bytes)
    → has_newline cmd ≡ false
    → IsLine (command_line cmd args) ↔ All IsLine args
words_iff cmd args h = (
  (λ l. (IsLine-command_line cmd args l).1),
  (λ t. command_line-IsLine cmd args (literal-IsLine cmd h) t),
)

display_iff : (c : UuidCommand) → IsLine (uuid_display c) ↔ All IsLine (uuid_texts c)
unfolding uuid_display has_newline
display_iff (uuid_answer u) = words_iff (codes "uuid_answer") (u ∷ []) refl
display_iff (uuid_bridge u v) = words_iff (codes "uuid_bridge") (u ∷ v ∷ []) refl
display_iff (uuid_deflect u r) = words_iff (codes "uuid_deflect") (u ∷ r ∷ []) refl
display_iff (uuid_hold u true) = words_iff (codes "uuid_hold off") (u ∷ []) refl
display_iff (uuid_hold u false) = words_iff (codes "uuid_hold") (u ∷ []) refl
display_iff (uuid_kill u o) = words_iff (codes "uuid_kill") (u ∷ optional_word o) refl
display_iff (uuid_get_var u k) = words_iff (codes "uuid_getvar") (u ∷ k ∷ []) refl
display_iff (uuid_set_var u k v) = words_iff (codes "uuid_setvar") (u ∷ k ∷ v ∷ []) refl
display_iff (uuid_transfer u d o) = words_iff (codes "uuid_transfer") (u ∷ d ∷ optional_word o) refl
display_iff (uuid_send_dtmf u d) = words_iff (codes "uuid_send_dtmf") (u ∷ d ∷ []) refl

-- A `uuid_` command that is sent by `api` is written exactly if no text of it has a newline, as one
-- line and a blank line; otherwise it is rejected with a protocol error, although the builder itself
-- checks nothing.
pub uuid_display-Checked :
    (order : Headers → Headers)
    → ((m : Headers) → Permᴰ (order m) m)
    → (c : UuidCommand)
    → Checked
        (All IsLine (uuid_texts c))
        (IsFramed none)
        (to_wire_format order (api (uuid_display c)))
unfolding Event.new
uuid_display-Checked order perm c =
    Checked-map (to_wire_format order (api (uuid_display c))) (λ p. (display_iff c).0 p.0.0)
      (λ p. (((display_iff c).1 p, tt), tt)) (λ _ _ q. q)
      (to_wire_format-Checked order perm (api (uuid_display c)))
