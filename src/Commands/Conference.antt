-- ===== src/Commands/Conference.antt =====
-- The builders of src/commands/conference.rs, which write a command that is sent by `api`: a
-- structure there is a constructor here.
use freeswitch_esl_rs.Prelude.{
  All, ◌≡◌, refl, ◌↔◌, false, Option, none, List, [], ◌∷◌, Bytes, codes,
}
use freeswitch_esl_rs.Headers.{Headers}
use freeswitch_esl_rs.Command.{has_newline}
use freeswitch_esl_rs.Command.Wire.{api, command_line, optional_word, to_wire_format}
use freeswitch_esl_rs.Command.Checked.{IsLine, Checked, literal-IsLine, Checked-map}
use freeswitch_esl_rs.Command.Framed.{IsFramed}
use freeswitch_esl_rs.Command.Safety.{to_wire_format-Checked}
use freeswitch_esl_rs.Commands.Uuid.{words_iff}
use freeswitch_esl_rs.Event
use mathlib.Core.List.{Permᴰ}

pub data MuteAction : Type 0 where
  mute unmute : MuteAction

unfoldable pub mute_display : MuteAction → Bytes
mute_display mute = codes "mute"
mute_display unmute = codes "unmute"

pub data HoldAction : Type 0 where
  hold unhold : HoldAction

unfoldable pub hold_display : HoldAction → Bytes
hold_display hold = codes "hold"
hold_display unhold = codes "unhold"

pub data ConferenceCommand : Type 0 where
  conference_mute : (name : Bytes) (action : MuteAction) (member_id : Bytes) → ConferenceCommand
  conference_hold :
      (name : Bytes) (action : HoldAction) (member : Bytes) (stream : Option Bytes)
      → ConferenceCommand
  conference_dtmf : (name member dtmf : Bytes) → ConferenceCommand

-- The `Display` of each.
unfoldable pub conference_display : ConferenceCommand → Bytes
unfolding command_line mute_display hold_display
conference_display (conference_mute n a m) =
    command_line (codes "conference") (n ∷ mute_display a ∷ m ∷ [])
conference_display (conference_hold n a m s) =
    command_line (codes "conference") (n ∷ hold_display a ∷ m ∷ optional_word s)
conference_display (conference_dtmf n m d) =
    command_line (codes "conference") (n ∷ codes "dtmf" ∷ m ∷ d ∷ [])

-- The texts of the caller.
abbrev pub conference_texts : ConferenceCommand → List Bytes
conference_texts (conference_mute n a m) = n ∷ m ∷ []
conference_texts (conference_hold n a m s) = n ∷ m ∷ optional_word s
conference_texts (conference_dtmf n m d) = n ∷ m ∷ d ∷ []

-- A fixed word among the others.
fixed_word :
    (name word : Bytes) (rest : List Bytes)
    → has_newline word ≡ false
    → IsLine (command_line (codes "conference") (name ∷ word ∷ rest)) ↔ All IsLine (name ∷ rest)
unfolding has_newline
fixed_word name word rest h =
    let w = words_iff (codes "conference") (name ∷ word ∷ rest) refl in
    ((λ l. let t = w.0 l in (t.0, t.1.1)), (λ t. w.1 (t.0, (literal-IsLine word h, t.1))))

conference_iff :
    (c : ConferenceCommand) → IsLine (conference_display c) ↔ All IsLine (conference_texts c)
unfolding conference_display has_newline mute_display hold_display
conference_iff (conference_mute n mute m) = fixed_word n (codes "mute") (m ∷ []) refl
conference_iff (conference_mute n unmute m) = fixed_word n (codes "unmute") (m ∷ []) refl
conference_iff (conference_hold n hold m s) = fixed_word n (codes "hold") (m ∷ optional_word s) refl
conference_iff (conference_hold n unhold m s) =
    fixed_word n (codes "unhold") (m ∷ optional_word s) refl
conference_iff (conference_dtmf n m d) = fixed_word n (codes "dtmf") (m ∷ d ∷ []) refl

-- A `conference` command that is sent by `api` is written exactly if no text of it has a newline, as
-- one line and a blank line; otherwise it is rejected with a protocol error, although the builder
-- itself checks nothing.
conference_display-Checked :
    (order : Headers → Headers)
    → ((m : Headers) → Permᴰ (order m) m)
    → (c : ConferenceCommand)
    → Checked
        (All IsLine (conference_texts c))
        (IsFramed none)
        (to_wire_format order (api (conference_display c)))
unfolding Event.new
conference_display-Checked order perm c =
    Checked-map (to_wire_format order (api (conference_display c)))
      (λ p. (conference_iff c).0 p.0.0) (λ p. (((conference_iff c).1 p, tt), tt)) (λ _ _ q. q)
      (to_wire_format-Checked order perm (api (conference_display c)))
