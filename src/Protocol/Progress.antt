-- ===== src/Protocol/Progress.antt =====
-- Each message consumes bytes, so the calls of `parse_message` on what is buffered come to an end.
use native.Mathlib.Nat.{le_trans}
use freeswitch_esl_rs.Prelude.{
  leb, Bool-cases, Option-cases, length, take, drop, length-drop, ok, err, ℕ, zero, suc, ◌+◌, ◌≤◌,
  ◌<◌, ◌≡◌, refl, inl, inr, Option, none, some, List, [], ◌∷◌, arith, Bytes,
}
use freeswitch_esl_rs.Constants.{header_terminator}
use freeswitch_esl_rs.Text.Utf8.{from_utf8}
use freeswitch_esl_rs.Error.{EslError, EslResult}
use freeswitch_esl_rs.Buffer.Pattern.{index_of}
use freeswitch_esl_rs.Buffer.Occurrence.{index_of-split}
use freeswitch_esl_rs.Headers.{Headers}
use freeswitch_esl_rs.Protocol.{
  MessageType, EslMessage, ParseState, waiting_for_headers, waiting_for_body, EslParser,
  parse_envelope,
}
use freeswitch_esl_rs.Protocol.Framer.{
  Framer, Outcome, body_framed, frame_body, frame_after, headers_framed, frame_headers, frame_in,
  frame, view,
}
use freeswitch_esl_rs.Protocol.Stream.{stops, fails, returns, Parses, Frames, Frames-Parses}

-- A message whose header section is consumed still counts for one byte.
abbrev pub state_size : ParseState → ℕ
state_size waiting_for_headers = 0
state_size (waiting_for_body _ _ _) = 1

abbrev pub size : Framer → ℕ
size f = length f.pending + state_size f.state

abbrev Progress : ℕ → Outcome → Type 0
Progress k (g, ok (some m)) = size g < k
Progress k (g, ok none) = Unit
Progress k (g, err e) = Unit

body_framed-Progress :
    (k : ℕ) (mt : MessageType) (h : Headers) (n : ℕ) (r : Bytes) (x : Option Bytes)
    → length r < k
    → Progress k (body_framed mt h n r x)
unfolding body_framed
body_framed-Progress k mt h n r none l = tt
body_framed-Progress k mt h n r (some x) l = omega arith

frame_body-Progress :
    (k : ℕ) (s : Bytes) (mt : MessageType) (h : Headers) (n : ℕ)
    → length s < k
    → Progress k (frame_body s mt h n)
unfolding frame_body
frame_body-Progress k s mt h n l = elim (Bool-cases (leb n (length s))) [
  | inl there ↦ rw there (
      body_framed-Progress k mt h n (drop n s) (from_utf8 (take n s))
        (omega (arith, length-drop n s)))
  | inr short ↦ rw short tt
]

frame_after-Progress :
    (k : ℕ) (s : Bytes) (r : EslResult (MessageType × Headers × Option ℕ))
    → length s < k
    → Progress k (frame_after s r)
unfolding frame_after
frame_after-Progress k s (err e) l = tt
frame_after-Progress k s (ok (mt, h, none)) l = omega arith
frame_after-Progress k s (ok (mt, h, some zero)) l = omega arith
frame_after-Progress k s (ok (mt, h, some (suc n))) l = frame_body-Progress k s mt h (suc n) l

module _ (percent_decode : Bytes → Bytes) where
  frame_headers-Progress : (s : Bytes) → Progress (length s + 0) (frame_headers percent_decode s)
  unfolding frame_headers headers_framed
  frame_headers-Progress s = elim (Option-cases (index_of s header_terminator)) [
    | inl absent ↦ rw absent tt
    | inr (i, found) ↦
        let (fits, _) = index_of-split s header_terminator i found in
        rw found (
          frame_after-Progress _ (drop (i + 2) s) (parse_envelope percent_decode (take i s))
            (omega (arith, length-drop (i + 2) s)))
  ]

  frame-Progress : (f : Framer) → Progress (size f) (frame percent_decode f)
  unfolding frame
  frame-Progress f = go f.state f.pending
    where
      go :
          (st : ParseState) (s : Bytes)
          → Progress (length s + state_size st) (frame_in percent_decode st s)
      go waiting_for_headers s = frame_headers-Progress s
      go (waiting_for_body mt h n) s = frame_body-Progress _ s mt h n (omega arith)

  abbrev Ends : Framer → Type 0
  Ends f =
      (g : Framer) × (ms : List EslMessage) × (e : Option EslError) × Frames percent_decode g f ms e
      × (length ms ≤ size f)

  step-Ends :
      (f : Framer) (o : Outcome)
      → frame percent_decode f ≡ o
      → Progress (size f) o
      → ((g : Framer) → size g < size f → Ends g)
      → Ends f
  step-Ends f (g, ok none) h p later = (g, [], none, stops h, omega arith)
  step-Ends f (g, err e) h p later = (g, [], some e, fails h, omega arith)
  step-Ends f (g, ok (some m)) h p later =
      let (last, ms, e, d, few) = later g p in (last, m ∷ ms, e, returns h d, omega arith)

  Frames-total : (k : ℕ) (f : Framer) → size f < k → Ends f
  Frames-total zero f l = absurd (omega arith)
  Frames-total (suc k) f l =
      step-Ends f (frame percent_decode f) refl (frame-Progress f)
        (λ g p. Frames-total k g (omega arith))

  -- From every state the parser returns messages, at most one for each pending byte and one more
  -- for a body that is awaited, and then stops: it wants more bytes, or it fails.
  pub Parses-total :
      (p : EslParser)
      → (q : EslParser) × (ms : List EslMessage) × (e : Option EslError) × Parses percent_decode q p
          ms e
        × (length ms ≤ size (view p))
  Parses-total p =
      let (g, ms, e, d, few) = Frames-total (suc (size (view p))) (view p) (omega arith) in
      let (q, d', _) = Frames-Parses percent_decode p d refl in (q, ms, e, d', few)

-- A step consumes pending bytes and adds none.
abbrev Shrinks : ℕ → Outcome → Type 0
Shrinks k (g, r) = length g.pending ≤ k

body_framed-Shrinks :
    (k : ℕ) (mt : MessageType) (h : Headers) (n : ℕ) (r : Bytes) (x : Option Bytes)
    → length r ≤ k
    → Shrinks k (body_framed mt h n r x)
unfolding body_framed
body_framed-Shrinks k mt h n r none l = l
body_framed-Shrinks k mt h n r (some x) l = l

frame_body-Shrinks :
    (k : ℕ) (s : Bytes) (mt : MessageType) (h : Headers) (n : ℕ)
    → length s ≤ k
    → Shrinks k (frame_body s mt h n)
unfolding frame_body
frame_body-Shrinks k s mt h n l = elim (Bool-cases (leb n (length s))) [
  | inl there ↦ rw there (
      body_framed-Shrinks k mt h n (drop n s) (from_utf8 (take n s))
        (omega (arith, length-drop n s)))
  | inr short ↦ rw short l
]

frame_after-Shrinks :
    (k : ℕ) (s : Bytes) (r : EslResult (MessageType × Headers × Option ℕ))
    → length s ≤ k
    → Shrinks k (frame_after s r)
unfolding frame_after
frame_after-Shrinks k s (err e) l = l
frame_after-Shrinks k s (ok (mt, h, none)) l = l
frame_after-Shrinks k s (ok (mt, h, some zero)) l = l
frame_after-Shrinks k s (ok (mt, h, some (suc n))) l = frame_body-Shrinks k s mt h (suc n) l

module _ (percent_decode : Bytes → Bytes) where
  headers_framed-Shrinks :
      (s : Bytes) (i : Option ℕ) → Shrinks (length s) (headers_framed percent_decode s i)
  unfolding headers_framed
  headers_framed-Shrinks s none = omega arith
  headers_framed-Shrinks s (some i) =
      frame_after-Shrinks _ (drop (i + 2) s) (parse_envelope percent_decode (take i s))
        (omega (arith, length-drop (i + 2) s))

  pub frame-Shrinks : (f : Framer) → Shrinks (length f.pending) (frame percent_decode f)
  unfolding frame frame_headers
  frame-Shrinks f = go f.state f.pending
    where
      go : (st : ParseState) (s : Bytes) → Shrinks (length s) (frame_in percent_decode st s)
      go waiting_for_headers s = headers_framed-Shrinks s (index_of s header_terminator)
      go (waiting_for_body mt h n) s = frame_body-Shrinks _ s mt h n (omega arith)

  pub Frames-Shrinks :
      {g f : Framer} {ms : List EslMessage} {e : Option EslError}
      → Frames percent_decode g f ms e
      → length g.pending ≤ length f.pending
  Frames-Shrinks (stops {s = f} h) = rw h at (frame-Shrinks f)
  Frames-Shrinks (fails {s = f} h) = rw h at (frame-Shrinks f)
  Frames-Shrinks (returns {s = f} h d) = le_trans (Frames-Shrinks d) (rw h at (frame-Shrinks f))
