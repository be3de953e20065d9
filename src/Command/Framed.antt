-- ===== src/Command/Framed.antt =====
-- What a command's texts are, and what the builder of src/command.rs makes of lines.
use freeswitch_esl_rs.Prelude.{
  All, ◌≡◌, refl, sym, ◌∙◌, subst, false, Option, none, some, List, [], ◌∷◌, ◌++◌, Bytes, codes,
}
use freeswitch_esl_rs.Constants.{line_terminator}
use freeswitch_esl_rs.Headers.{Headers}
use freeswitch_esl_rs.Headers.Laws.{All-insert, All-Permᴰ}
use freeswitch_esl_rs.Event.{EslEvent}
use freeswitch_esl_rs.Command.{
  has_newline, CommandBuilder, with_body, header_lines, body_part, build,
}
use freeswitch_esl_rs.Command.Wire.{
  api, log, EslCommand, auth, user_auth, bg_api, events, filter, send_msg, execute, send_event,
  my_events, nix_event, filter_delete, get_var, command_line, format_simple_command, add_headers,
  add_body, optional_word, build_with,
}
use freeswitch_esl_rs.Command.Checked.{
  IsLine, IsPair, Checked, literal-IsLine, append-IsLine, Checked-map, validate-Checked,
  Checked-bind,
}
use freeswitch_esl_rs.Command
use freeswitch_esl_rs.Event
use mathlib.Core.List.{Permᴰ}
use mathlib.Core.List.Permᴰ

-- The texts of a command, but those of an event.
abbrev pub texts : EslCommand → List Bytes
texts (auth p) = p ∷ []
texts (user_auth u p) = u ∷ p ∷ []
texts (api c) = c ∷ []
texts (bg_api c) = c ∷ []
texts (events f e) = f ∷ e ∷ []
texts (filter h v) = h ∷ v ∷ []
texts (send_msg uuid e) = optional_word uuid
texts (execute app args uuid) = app ∷ optional_word args ++ optional_word uuid
texts (log level) = level ∷ []
texts (my_events f uuid) = f ∷ optional_word uuid
texts (nix_event e) = e ∷ []
texts (filter_delete h v) = h ∷ optional_word v
texts (get_var n) = n ∷ []
texts _ = []

-- The event that goes with a command.
abbrev pub event_of : EslCommand → EslEvent
unfolding Event.new
event_of (send_msg uuid e) = e
event_of (send_event e) = e
event_of _ = Event.new

-- No text of the command and no header of its event has a newline.
abbrev pub IsClean : EslCommand → Type 0
IsClean c = All IsLine (texts c) × All IsPair (event_of c).headers

-- One line, then header lines, then a blank line, or the length of the body in front of it and
-- the body behind it.
abbrev pub IsFramed : Option Bytes → Bytes → Type 0
IsFramed body w =
    (line : Bytes) × (headers : Headers) × (w
      ≡ line ++ (line_terminator ++ (header_lines headers ++ body_part body)))
    × IsLine line
    × All IsPair headers

pub command_line-IsLine :
    (cmd : Bytes) (args : List Bytes)
    → IsLine cmd
    → All IsLine args
    → IsLine (command_line cmd args)
unfolding command_line has_newline
command_line-IsLine cmd [] h t = h
command_line-IsLine cmd (a ∷ args) h (l, t) =
    command_line-IsLine (cmd ++ b' ' ∷ a) args
      (append-IsLine cmd (b' ' ∷ a) h
        (append-IsLine (codes " ") a (literal-IsLine (codes " ") refl) l))
      t

-- A line alone is framed.
pub line-IsFramed :
    (cmd : Bytes) (args : List Bytes)
    → has_newline cmd ≡ false
    → All IsLine args
    → IsFramed none (format_simple_command cmd args)
unfolding format_simple_command header_lines body_part
line-IsFramed cmd args h t =
    (command_line cmd args, [], refl, command_line-IsLine cmd args (literal-IsLine cmd h) t, tt)

-- A builder that is `b` but for headers, all of which stay on their lines.
abbrev pub Extends : CommandBuilder → CommandBuilder → Type 0
Extends b b' = All IsPair b'.headers × (b'.command ≡ b.command) × (b'.body ≡ b.body)

-- The builder takes exactly the headers without a newline.
pub header-Checked :
    (b : CommandBuilder) (k v : Bytes)
    → All IsPair b.headers
    → Checked (IsPair (k, v)) (Extends b) (Command.header b k v)
unfolding Command.header
header-Checked b k v h =
    Checked-map (Command.header b k v) (λ p. (p.0, p.1.0)) (λ p. (p.0, (p.1, tt))) (λ _ _ q. q)
      (validate-Checked (IsLine v × Unit) (Extends b) k (codes "header name") _ λ lk.
        validate-Checked Unit (Extends b) v (codes "header value") _ λ lv.
          (tt, (All-insert IsPair b.headers k v (λ j w p _. (p.0, lv)) (lk, lv) h, refl, refl)))

pub add_headers-Checked :
    (b : CommandBuilder) (m : Headers)
    → All IsPair b.headers
    → Checked (All IsPair m) (Extends b) (add_headers b m)
unfolding add_headers
add_headers-Checked b [] h = (tt, (h, refl, refl))
add_headers-Checked b ((k, v) ∷ m) h =
    Checked-bind (IsPair (k, v)) (All IsPair m) (Extends b) (Extends b) (Command.header b k v)
      (λ b'. add_headers b' m) (header-Checked b k v h)
      λ b' _ q.
        Checked-map {Q = Extends b'} {Q' = Extends b} (add_headers b' m) (λ p. p) (λ p. p)
          (λ c _ r. (r.0, r.1 ∙ q.1, r.2 ∙ q.2)) (add_headers-Checked b' m q.0)

module _ (order : Headers → Headers) (perm : (m : Headers) → Permᴰ (order m) m) where
  -- What is built from a builder with a line for its command is framed.
  pub build-IsFramed :
      (b : CommandBuilder) (body : Option Bytes)
      → All IsPair b.headers
      → IsLine b.command
      → b.body ≡ none
      → IsFramed body (Command.build order (add_body b body))
  unfolding Command.build add_body Command.with_body
  build-IsFramed b none h l e =
      (b.command, order b.headers, rw e refl, l, All-Permᴰ IsPair (Permᴰ.symm (perm b.headers)) h)
  build-IsFramed b (some body) h l e =
      (b.command, order b.headers, refl, l, All-Permᴰ IsPair (Permᴰ.symm (perm b.headers)) h)

  pub build_with-Checked :
      (cmd : Bytes) (e : EslEvent)
      → (All IsPair e.headers → IsLine cmd)
      → Checked (All IsPair e.headers) (IsFramed e.body) (build_with order cmd e)
  unfolding build_with Command.new
  build_with-Checked cmd e line =
      Checked-map (build_with order cmd e) (λ p. All-Permᴰ IsPair (perm e.headers) p.0)
        (λ p. (All-Permᴰ IsPair (Permᴰ.symm (perm e.headers)) p, tt)) (λ _ _ q. q)
        (Checked-bind (All IsPair (order e.headers)) Unit (Extends (Command.new cmd))
          (IsFramed e.body) (add_headers (Command.new cmd) (order e.headers)) _
          (add_headers-Checked (Command.new cmd) (order e.headers) tt)
          λ b p q. (
            tt,
            build-IsFramed b e.body q.0
                (subst IsLine (sym q.1) (line (All-Permᴰ IsPair (perm e.headers) p))) q.2,
          ))
