-- ===== src/Protocol/Stream.antt =====
-- A stream of messages: `parse_message` called until it wants more bytes, as both loops of
-- src/connection.rs do, and chunks of bytes handed over by `add_data` in between.
use freeswitch_esl_rs.Prelude.{
  ok, err, ◌≡◌, refl, sym, ap, ◌∙◌, subst, Option, none, some, List, [], ◌∷◌, ◌++◌, Bytes,
}
use freeswitch_esl_rs.Error.{EslError, EslResult}
use freeswitch_esl_rs.Protocol.{EslMessage, EslParser, parse_message}
use freeswitch_esl_rs.Protocol.Framer.{Framer, Outcome, frame, view, view_outcome}
use freeswitch_esl_rs.Protocol.Refinement.{view-parse_message}
use freeswitch_esl_rs.Protocol.Resume.{feed, resume, frame-feed}

-- From state `s` the parser returns the messages and then stops in state `last`, with an error
-- or for want of bytes.
pub data Drains {ℓ} {S : Type ℓ} (step : S → S × EslResult (Option EslMessage)) (last : S)
    : S → List EslMessage → Option EslError → Type ℓ where
  stops : {s : S} → step s ≡ (last, ok none) → Drains step last s [] none
  fails : {s : S} {e : EslError} → step s ≡ (last, err e) → Drains step last s [] (some e)
  returns :
      {s t : S} {m : EslMessage} {ms : List EslMessage} {e : Option EslError}
      → step s ≡ (t, ok (some m))
      → Drains step last t ms e
      → Drains step last s (m ∷ ms) e

-- A run starts with a step, so states with the same step have the same runs.
Drains-same {ℓ} :
    {S : Type ℓ} {step : S → S × EslResult (Option EslMessage)} {last : S} {s' : S}
    {ms : List EslMessage} {e : Option EslError} (s : S)
    → Drains step last s' ms e
    → step s ≡ step s'
    → Drains step last s ms e
Drains-same s (stops h) same = stops (same ∙ h)
Drains-same s (fails h) same = fails (same ∙ h)
Drains-same s (returns h d) same = returns (same ∙ h) d

-- A state has one run at most.
pub Drains-unique {ℓ} :
    {S : Type ℓ} {step : S → S × EslResult (Option EslMessage)} {last last' : S} {s : S}
    {ms : List EslMessage} {e : Option EslError} {ms' : List EslMessage} {e' : Option EslError}
    → Drains step last s ms e
    → Drains step last' s ms' e'
    → (ms ≡ ms') × (e ≡ e')
Drains-unique (stops x) (stops y) = (refl, refl)
Drains-unique (stops x) (fails y) = cc (sym x ∙ y)
Drains-unique (stops x) (returns y d') = cc (sym x ∙ y)
Drains-unique (fails x) (stops y) = cc (sym x ∙ y)
Drains-unique (fails x) (fails y) = (refl, cc (sym x ∙ y))
Drains-unique (fails x) (returns y d') = cc (sym x ∙ y)
Drains-unique (returns x d) (stops y) = cc (sym x ∙ y)
Drains-unique (returns x d) (fails y) = cc (sym x ∙ y)
Drains-unique {step = step} {last' = last'} (returns {m = m} x d)
      (returns {ms = ms'} {e = e'} y d') =
    let at = sym y ∙ x in
    let (same, done) =
      Drains-unique d (subst (λ t. Drains step last' t ms' e') (λ i. (at i).0) d') in
    (cc (same, at), done)

module _ (percent_decode : Bytes → Bytes) where
  abbrev pub Parses : EslParser → EslParser → List EslMessage → Option EslError → Type 0
  Parses = Drains (parse_message percent_decode)

  abbrev pub Frames : Framer → Framer → List EslMessage → Option EslError → Type 0
  Frames = Drains (frame percent_decode)

  -- The bytes `t` behind the pending ones are read after the messages that were there.
  pub Frames-feed :
      {g h : Framer} {ns : List EslMessage} {e : Option EslError} (t : Bytes) {f : Framer}
      {ms : List EslMessage}
      → Frames g f ms none
      → Frames h (feed g t) ns e
      → Frames h (feed f t) (ms ++ ns) e
  Frames-feed t (stops {s = f} x) d' =
      Drains-same (feed f t) d' (frame-feed percent_decode t f ∙ ap (resume percent_decode t) x)
  Frames-feed t (returns {s = f} x d) d' =
      returns (frame-feed percent_decode t f ∙ ap (resume percent_decode t) x) (Frames-feed t d d')

  pub Frames-feed_fails :
      {g : Framer} {e : EslError} (t : Bytes) {f : Framer} {ms : List EslMessage}
      → Frames g f ms (some e)
      → Frames (feed g t) (feed f t) ms (some e)
  Frames-feed_fails t (fails {s = f} x) =
      fails (frame-feed percent_decode t f ∙ ap (resume percent_decode t) x)
  Frames-feed_fails t (returns {s = f} x d) =
      returns (frame-feed percent_decode t f ∙ ap (resume percent_decode t) x)
        (Frames-feed_fails t d)

  pub Parses-Frames :
      {q p : EslParser} {ms : List EslMessage} {e : Option EslError}
      → Parses q p ms e
      → Frames (view q) (view p) ms e
  Parses-Frames (stops {s = p} h) =
      stops (sym (view-parse_message percent_decode p) ∙ ap view_outcome h)
  Parses-Frames (fails {s = p} h) =
      fails (sym (view-parse_message percent_decode p) ∙ ap view_outcome h)
  Parses-Frames (returns {s = p} h d) =
      returns (sym (view-parse_message percent_decode p) ∙ ap view_outcome h) (Parses-Frames d)

  parse_message-frame :
      {f : Framer} {o : Outcome} (p : EslParser)
      → frame percent_decode f ≡ o
      → view p ≡ f
      → (q : EslParser) × (parse_message percent_decode p ≡ (q, o.1)) × (view q ≡ o.0)
  parse_message-frame p h v =
      let same = view-parse_message percent_decode p ∙ ap (frame percent_decode) v ∙ h in
      (
        (parse_message percent_decode p).0,
        (λ i. ((parse_message percent_decode p).0, (same i).1)),
        (λ i. (same i).0),
      )

  -- A run of the abstract parser is one of the parser, and ends in the same view.
  pub Frames-Parses :
      {g f : Framer} {ms : List EslMessage} {e : Option EslError} (p : EslParser)
      → Frames g f ms e
      → view p ≡ f
      → (q : EslParser) × Parses q p ms e × (view q ≡ g)
  Frames-Parses p (stops h) v = let (q, x, w) = parse_message-frame p h v in (q, stops x, w)
  Frames-Parses p (fails h) v = let (q, x, w) = parse_message-frame p h v in (q, fails x, w)
  Frames-Parses p (returns h d) v =
      let (q, x, w) = parse_message-frame p h v in
      let (r, d', w') = Frames-Parses q d w in (r, returns x d', w')
