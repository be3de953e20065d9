-- ===== src/Protocol/Plain.antt =====
-- The header lines of a plain event, as `parse_plain_event` of src/protocol.rs reads them.
use freeswitch_esl_rs.Prelude.{
  take-length, All, All-append, ℕ, ◌≡◌, refl, sym, ap, ◌∙◌, subst, ◌≢◌, true, false, none, some, [],
  ◌∷◌, ◌++◌, map, append_assoc, arith, Bytes, Lacks,
}
use freeswitch_esl_rs.Constants.{header_terminator}
use freeswitch_esl_rs.Text.{is_empty, starts_with}
use freeswitch_esl_rs.Text.Search.{find-append, drop_past}
use freeswitch_esl_rs.Text.Trim.{is_ascii_white, trim, lines_from, lines, IsSolid}
use freeswitch_esl_rs.Text.Solid.{
  IsWord, IsWord-Lacks, trim_word, trim_space, trim_between, trim_trailing, lines_from-line,
  lines_from-last,
}
use freeswitch_esl_rs.Text.Split.{Avoids}
use freeswitch_esl_rs.Headers.{Headers, insert}
use freeswitch_esl_rs.Protocol.{decode_value}
use freeswitch_esl_rs.Protocol.Message.{index_of-head, drop-head}
use freeswitch_esl_rs.Event.{EslEvent, set_header}
use freeswitch_esl_rs.Event.Keys.{inserts}
use freeswitch_esl_rs.Protocol.Events.{sections, with_inner, event_line, event_lines, event_body}
use freeswitch_esl_rs.Event

-- A header as it stands on the wire, with its value encoded.
abbrev pub line_of : Bytes × Bytes → Bytes
line_of (k, w) = k ++ b':' ∷ b' ' ∷ w

abbrev pub IsLine : Bytes × Bytes → Type 0
IsLine (k, w) = IsWord k × Lacks b':' k × IsWord w

-- The lines, each with its `\n`, and the same without the last `\n`.
unfoldable pub ended : Headers → Bytes
ended [] = []
ended (a ∷ es) = line_of a ++ b'\n' ∷ ended es

unfoldable headed : Bytes × Bytes → Headers → Bytes
headed a [] = line_of a
headed a (b ∷ es) = line_of a ++ b'\n' ∷ headed b es

ended-headed : (a : Bytes × Bytes) (es : Headers) → ended (a ∷ es) ≡ headed a es ++ b'\n' ∷ []
unfolding ended headed
ended-headed a [] = refl
ended-headed a (b ∷ es) =
    ap (λ s. line_of a ++ b'\n' ∷ s) (ended-headed b es)
    ∙ sym (append_assoc (line_of a) (b'\n' ∷ headed b es) (b'\n' ∷ []))

IsLine-Lacks :
    (b : ℕ) (a : Bytes × Bytes)
    → is_ascii_white b ≡ true
    → b ≢ b' '
    → IsLine a
    → Lacks b (line_of a)
IsLine-Lacks b (k, w) white ne (hk, colon, hw) =
    All-append (λ c. c ≢ b) k (b':' ∷ b' ' ∷ w) (IsWord-Lacks b k white hk)
      (
        (λ e. cc (sym white ∙ ap is_ascii_white (sym e))),
        ((λ e. ne (sym e)), IsWord-Lacks b w white hw),
      )

-- A line starts with a character of its own.
line_starts :
    (a : Bytes × Bytes) → IsLine a → (c : ℕ) × (t : Bytes) × (line_of a ≡ c ∷ t) × IsSolid c
line_starts ([], w) h = (b':', b' ' ∷ w, refl, (omega arith, refl))
line_starts (c ∷ k, w) h = (c, k ++ b':' ∷ b' ' ∷ w, refl, h.0.0)

Avoids-cons : (c : ℕ) (s : Bytes) → c ≢ b'\n' → Avoids b'\n' b'\n' s → Avoids b'\n' b'\n' (c ∷ s)
Avoids-cons c [] ne h = tt
Avoids-cons c (d ∷ s) ne h = (ground (arith, ne), h)

Avoids-append : (l s : Bytes) → Lacks b'\n' l → Avoids b'\n' b'\n' s → Avoids b'\n' b'\n' (l ++ s)
Avoids-append [] s h k = k
Avoids-append (c ∷ l) s h k = Avoids-cons c (l ++ s) h.0 (Avoids-append l s h.1 k)

-- A blank line does not start in front of a line.
Avoids-line :
    (a : Bytes × Bytes) (s : Bytes)
    → IsLine a
    → Avoids b'\n' b'\n' (line_of a ++ s)
    → Avoids b'\n' b'\n' (b'\n' ∷ line_of a ++ s)
Avoids-line a s h k =
    let (c, t, e, solid) = line_starts a h in
    let ne : c ≢ b'\n' = λ q. cc (ap is_ascii_white (sym q) ∙ solid.1) in
    rw e ((ground (arith, ne), rw e at k))

headed-line :
    (a : Bytes × Bytes) (es : Headers) (s : Bytes)
    → (t : Bytes) × (headed a es ++ s ≡ line_of a ++ t)
unfolding headed
headed-line a [] s = (s, refl)
headed-line a (b ∷ es) s =
    (b'\n' ∷ headed b es ++ s, append_assoc (line_of a) (b'\n' ∷ headed b es) s)

headed-Avoids :
    (a : Bytes × Bytes) (es : Headers) (s : Bytes)
    → All IsLine (a ∷ es)
    → Avoids b'\n' b'\n' s
    → Avoids b'\n' b'\n' (headed a es ++ s)
unfolding headed
headed-Avoids a [] s h k =
    Avoids-append (line_of a) s (IsLine-Lacks b'\n' a refl (λ e. absurd (omega arith)) h.0) k
headed-Avoids a (b ∷ es) s h k =
    let (t, e) = headed-line b es s in
    let later = subst (Avoids b'\n' b'\n') e (headed-Avoids b es s h.1 k) in
    let blank : Avoids b'\n' b'\n' (b'\n' ∷ headed b es ++ s) =
      rw e (Avoids-line b t h.1.0 later) in
    rw (append_assoc (line_of a) (b'\n' ∷ headed b es) s) (
      Avoids-append (line_of a) (b'\n' ∷ headed b es ++ s)
        (IsLine-Lacks b'\n' a refl (λ q. absurd (omega arith)) h.0) blank)

-- The lines are read back.
lines-headed :
    (a : Bytes × Bytes) (es : Headers)
    → All IsLine (a ∷ es)
    → lines (headed a es) ≡ map line_of (a ∷ es)
unfolding lines headed
lines-headed a [] h =
    let (c, t, e, solid) = line_starts a h.0 in
    let l : Lacks b'\n' (c ∷ t) =
      subst (Lacks b'\n') e (IsLine-Lacks b'\n' a refl (λ q. absurd (omega arith)) h.0) in
    ap (λ s. lines_from s []) e ∙ lines_from-last c t [] l ∙ ap (λ s. s ∷ []) (sym e)
lines-headed a (b ∷ es) h =
    lines_from-line (line_of a) (headed b es) []
      (IsLine-Lacks b'\n' a refl (λ q. absurd (omega arith)) h.0)
      (IsLine-Lacks b'\r' a refl (λ q. absurd (omega arith)) h.0)
    ∙ ap (◌∷◌ (line_of a)) (lines-headed b es h.1)

-- The header section and the inner body are told apart.
sections-headed :
    (a : Bytes × Bytes) (es : Headers) (rest : Bytes)
    → All IsLine (a ∷ es)
    → sections (ended (a ∷ es) ++ b'\n' ∷ rest) ≡ (headed a es, some rest)
unfolding sections
sections-headed a es rest h =
    let s : ended (a ∷ es) ++ b'\n' ∷ rest ≡ headed a es ++ (header_terminator ++ rest) =
      ap (λ l. l ++ b'\n' ∷ rest) (ended-headed a es)
      ∙ append_assoc (headed a es) (b'\n' ∷ []) (b'\n' ∷ rest) in
    let head = headed-Avoids a es (b'\n' ∷ []) h tt in
    rw s (
      rw (index_of-head (headed a es) rest head, sections)
        (rw (take-length (headed a es) (header_terminator ++ rest), drop-head (headed a es) rest)
          refl))

-- What stands behind the colon of a trimmed line.
abbrev spaced : Bytes → Bytes
spaced [] = []
spaced (c ∷ w) = b' ' ∷ c ∷ w

trim-spaced : (w : Bytes) → IsWord w → trim (spaced w) ≡ w
trim-spaced [] h = trim_word [] tt
trim-spaced (c ∷ w) h = trim_space (c ∷ w) h

trim-line : (a : Bytes × Bytes) → IsLine a → trim (line_of a) ≡ a.0 ++ b':' ∷ spaced a.1
trim-line ([], []) h = trim_trailing b':' [] ((omega arith, refl), tt)
trim-line ([], c ∷ w) h = trim_between b':' (b' ' ∷ []) c w (omega arith, refl) h.2
trim-line (c ∷ k, []) h =
    let e : c ∷ k ++ b':' ∷ b' ' ∷ [] ≡ c ∷ (k ++ b':' ∷ []) ++ b' ' ∷ [] =
      sym (append_assoc (c ∷ k) (b':' ∷ []) (b' ' ∷ [])) in
    ap trim e
    ∙ trim_trailing c (k ++ b':' ∷ [])
        (h.0.0, All-append IsSolid k (b':' ∷ []) h.0.1 ((omega arith, refl), tt))
trim-line (c ∷ k, d ∷ w) h =
    let e : c ∷ k ++ b':' ∷ b' ' ∷ d ∷ w ≡ c ∷ (k ++ b':' ∷ b' ' ∷ []) ++ d ∷ w =
      sym (append_assoc (c ∷ k) (b':' ∷ b' ' ∷ []) (d ∷ w)) in
    ap trim e ∙ trim_between c (k ++ b':' ∷ b' ' ∷ []) d w h.0.0 h.2 ∙ sym e

is_empty-line : (k w : Bytes) → is_empty (k ++ b':' ∷ w) ≡ false
is_empty-line [] w = refl
is_empty-line (c ∷ k) w = refl

event_body-blank :
    (percent_decode : Bytes → Bytes) → event_body percent_decode (b'\n' ∷ []) ≡ Event.new
unfolding event_body starts_with
event_body-blank percent_decode = refl

module _ (percent_decode : Bytes → Bytes) where
  abbrev pub decode_entry : Bytes × Bytes → Bytes × Bytes
  decode_entry (k, w) = (k, decode_value percent_decode w)

  event_line-line :
      (a : Bytes × Bytes) (e : EslEvent)
      → IsLine a
      → event_line percent_decode (a.0 ++ b':' ∷ spaced a.1) e
        ≡ record e { headers = insert e.headers a.0 (decode_value percent_decode a.1) }
  unfolding event_line set_header
  event_line-line (k, w) e h =
      rw (find-append k b':' (spaced w) h.1, event_line)
        (rw
          (
            take-length k (b':' ∷ spaced w),
            drop_past k b':' (spaced w),
            trim_word k h.0,
            trim-spaced w h.2,
          )
          refl)

  event_lines-lines :
      (es : Headers) (e : EslEvent)
      → All IsLine es
      → event_lines percent_decode (map line_of es) e
        ≡ record e { headers = inserts e.headers (map decode_entry es) }
  unfolding event_lines inserts
  event_lines-lines [] e h = refl
  event_lines-lines (a ∷ es) e h =
      let t = trim-line a h.0 in
      rw (t, event_lines)
        (rw (is_empty-line a.0 (spaced a.1)) (
          rw (event_line-line a e h.0) (
            event_lines-lines es
              (record e { headers = insert e.headers a.0 (decode_value percent_decode a.1) }) h.1)))

  -- What is written as lines and an inner body is read back.
  pub event_body-ended :
      (es : Headers) (rest : Bytes)
      → All IsLine es
      → (es ≡ [] → rest ≡ [])
      → event_body percent_decode (ended es ++ b'\n' ∷ rest)
        ≡ with_inner
            (record { event_type = none; headers = inserts [] (map decode_entry es); body = none })
            (some rest)
  unfolding event_body Event.new
  event_body-ended [] rest h full =
      rw (full refl) (unfold ended inserts in event_body-blank percent_decode)
  event_body-ended (a ∷ es) rest h full =
      ap (λ parts. with_inner (event_lines percent_decode (lines parts.0) Event.new) parts.1)
        (sections-headed a es rest h)
      ∙ ap (λ l. with_inner (event_lines percent_decode l Event.new) (some rest))
          (lines-headed a es h)
      ∙ ap (λ e. with_inner e (some rest)) (event_lines-lines (a ∷ es) Event.new h)
