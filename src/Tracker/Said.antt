-- ===== src/Tracker/Said.antt =====
-- What the lines of a dump say of a key, in examples/channel_tracker.rs.
use freeswitch_esl_rs.Prelude.{
  All, Bool-cases, Option-cases, length, length-take, take, take-length, drop, drop-length, ℕ, ◌+◌,
  ◌<◌, ◌≡◌, refl, sym, ap, append_assoc, All-append, ◌∙◌, subst, inl, inr, Option, none, some, List,
  [], ◌∷◌, ◌++◌, arith, Bytes, codes,
}
use freeswitch_esl_rs.Text.{bytes_eq, starts_with}
use freeswitch_esl_rs.Text.Search.{bytes_eq_iff}
use freeswitch_esl_rs.Text.Trim.{lines}
use freeswitch_esl_rs.Buffer.Pattern.{index_of}
use freeswitch_esl_rs.Buffer.Occurrence.{Occurs, First, index_of-First, index_of-split}
use freeswitch_esl_rs.Headers.{Headers}
use freeswitch_esl_rs.Headers.Laws.{get-insert}
use freeswitch_esl_rs.Event.Keys.{or_else}
use freeswitch_esl_rs.Tracker.Tracked.{dump_line, dump_lines}
use freeswitch_esl_rs.Tracker.Dumps.{get-dump_lines, dump_of}
use freeswitch_esl_rs.Headers

-- The line has a text behind the key and a colon with a space, which are its first.
abbrev pub Gives : Bytes → Bytes → Bytes → Type 0
Gives key text line =
    (line ≡ key ++ (codes ": " ++ text)) × ((j : ℕ) → j < length key → ¬ Occurs line (codes ": ") j)

abbrev pub IsSilent : Bytes → Bytes → Type 0
IsSilent key line = (text : Bytes) → ¬ Gives key text line

-- What some lines say of a key: nothing, or what the last line that gives it has, decoded.
pub data Says (decode : Bytes → Bytes) (ls : List Bytes) (key : Bytes) : Option Bytes → Type 0 where
  nothing : All (IsSilent key) ls → Says decode ls key none
  last :
      (before : List Bytes) (line text : Bytes) (after : List Bytes)
      → ls ≡ before ++ line ∷ after
      → Gives key text line
      → All (IsSilent key) after
      → Says decode ls key (some (decode text))

there : (key text : Bytes) → Occurs (key ++ (codes ": " ++ text)) (codes ": ") (length key)
unfolding starts_with
there key text = rw (drop-length key (codes ": " ++ text)) refl

-- The key of a line that has one.
key_of :
    (line key text : Bytes) (i : ℕ)
    → index_of line (codes ": ") ≡ some i
    → Gives key text line
    → take i line ≡ key
key_of line key text i at (e, earliest) =
    let first : First line (codes ": ") (some i) =
      subst (First line (codes ": ")) at (index_of-First line b':' (codes " ")) in
    let here : Occurs line (codes ": ") (length key) =
      subst (λ l. Occurs l (codes ": ") (length key)) (sym e) (there key text) in
    let same : i ≡ length key = ground (
      arith,
      λ (h : i < length key). earliest i h first.0,
      λ (h : length key < i). first.1 (length key) h here,
    ) in
    rw (same, e) (take-length key (codes ": " ++ text))

unkeyed : (line key : Bytes) → index_of line (codes ": ") ≡ none → IsSilent key line
unkeyed line key at text (e, earliest) =
    let first : First line (codes ": ") none =
      subst (First line (codes ": ")) at (index_of-First line b':' (codes " ")) in
    first (length key) (subst (λ l. Occurs l (codes ": ") (length key)) (sym e) (there key text))

gives :
    (line key : Bytes) (i : ℕ)
    → index_of line (codes ": ") ≡ some i
    → take i line ≡ key
    → Gives key (drop (i + 2) line) line
gives line key i at e =
    let first : First line (codes ": ") (some i) =
      subst (First line (codes ": ")) at (index_of-First line b':' (codes " ")) in
    let (fits, split) = index_of-split line (codes ": ") i at in
    let len : length key ≡ i = omega (arith, ap length e, length-take i line, fits) in
    (
      split ∙ ap (λ k. k ++ (codes ": " ++ drop (i + 2) line)) e,
      (λ j h. first.1 j (omega (arith, h, len))),
    )

module _ (decode : Bytes → Bytes) where
  dump_line-Says :
      (line key : Bytes) → Says decode (line ∷ []) key (Headers.get (dump_line decode [] line) key)
  unfolding dump_line Headers.get
  dump_line-Says line key = elim (Option-cases (index_of line (codes ": "))) [
    | inl z ↦ rw (z, dump_line) (nothing (unkeyed line key z, tt))
    | inr (i, at) ↦ rw (at, dump_line) (keyed i at)
  ]
    where
      keyed :
          (i : ℕ)
          → index_of line (codes ": ") ≡ some i
          → Says decode
              (line ∷ [])
              key
              (Headers.get (Headers.insert [] (take i line) (decode (drop (i + 2) line))) key)
      keyed i at = elim (Bool-cases (bytes_eq (take i line) key)) [
        | inl y ↦
            rw (get-insert [] (take i line) (decode (drop (i + 2) line)) key, y)
              (last [] line (drop (i + 2) line) [] refl
                (gives line key i at ((bytes_eq_iff (take i line) key).0 y)) tt)
        | inr n ↦
            rw (get-insert [] (take i line) (decode (drop (i + 2) line)) key, n)
              (nothing (
                (λ text g.
                    cc (sym n ∙ (bytes_eq_iff (take i line) key).1 (key_of line key text i at g))),
                tt,
              ))
      ]

  Says-cons :
      (line key : Bytes) (ls : List Bytes) {o p : Option Bytes}
      → Says decode (line ∷ []) key o
      → Says decode ls key p
      → Says decode (line ∷ ls) key (or_else p o)
  Says-cons line key ls (nothing h) (nothing t) = nothing (h.0, t)
  Says-cons line key ls (last before l text after e g silent) (nothing t) =
      last before l text (after ++ ls) (ap (λ x. x ++ ls) e ∙ append_assoc before (l ∷ after) ls) g
        (All-append (IsSilent key) after ls silent t)
  Says-cons line key ls h (last before l text after e g silent) =
      last (line ∷ before) l text after (ap (λ x. line ∷ x) e) g silent

  dump_lines-Says :
      (ls : List Bytes) (key : Bytes)
      → Says decode ls key (Headers.get (dump_lines decode [] ls) key)
  unfolding dump_lines Headers.get
  dump_lines-Says [] key = nothing tt
  dump_lines-Says (line ∷ ls) key =
      subst (Says decode (line ∷ ls) key)
        (sym (get-dump_lines decode ls (dump_line decode [] line) key))
        (Says-cons line key ls (dump_line-Says line key) (dump_lines-Says ls key))

  pub dump_of-Says : (body key : Bytes) → Says decode (lines body) key (dump_of decode body key)
  dump_of-Says body key = dump_lines-Says (lines body) key
