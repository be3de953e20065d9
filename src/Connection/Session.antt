-- ===== src/Connection/Session.antt =====
-- The loop of `reader_loop_inner` in src/connection.rs, run on what the socket gives: its turns, and
-- what a stream of messages comes to.
use freeswitch_esl_rs.Prelude.{
  if◌then◌else◌, Bool-cases, ok, ℕ, ◌≡◌, refl, sym, ap, ◌∙◌, subst, ◌≢◌, inl, inr, Bool, true,
  false, Option, none, some, List, [], ◌∷◌,
}
use freeswitch_esl_rs.Error.{EslError, EslResult, display}
use freeswitch_esl_rs.Protocol.{EslMessage, EslParser, parse_message}
use freeswitch_esl_rs.Protocol.Stream.{stops, fails, returns, Parses}
use freeswitch_esl_rs.Connection.{io_error, MpscChannel}
use freeswitch_esl_rs.Connection.Reader.{
  Flow, goes_on, waits, exits, SocketRead, Decoders, Served, Reader, end_with, handle, parsed, turn,
  received,
}

module _ (C : MpscChannel) (D : Decoders) where
  -- Messages are parsed and handled until the loop waits for the socket or returns.
  pub data Turns : Reader C → Reader C → Flow → Type 0 where
    settles :
        {r s : Reader C} {flow : Flow} → turn C D r ≡ (s, flow) → flow ≢ goes_on → Turns r s flow
    again :
        {r s t : Reader C} {flow : Flow}
        → turn C D r ≡ (s, goes_on)
        → Turns s t flow
        → Turns r t flow

  -- From where it waits for the socket: what the reads return, each with its time, and whether the
  -- loop has returned. The loop runs alone: meanwhile no call registers in the slot, and the
  -- application takes nothing from the channel.
  pub data Reads : Reader C → List (ℕ × SocketRead) → Reader C → Bool → Type 0 where
    quiet : {r : Reader C} → Reads r [] r false
    breaks_off :
        {r s : Reader C} {now : ℕ} {x : SocketRead} {xs : List (ℕ × SocketRead)}
        → received C r now x ≡ (s, false)
        → Reads r ((now, x) ∷ xs) s true
    leaves :
        {r s t : Reader C} {now : ℕ} {x : SocketRead} {xs : List (ℕ × SocketRead)}
        → received C r now x ≡ (s, true)
        → Turns s t exits
        → Reads r ((now, x) ∷ xs) t true
    serves :
        {r s t u : Reader C} {now : ℕ} {x : SocketRead} {xs : List (ℕ × SocketRead)} {b : Bool}
        → received C r now x ≡ (s, true)
        → Turns s t waits
        → Reads t xs u b
        → Reads r ((now, x) ∷ xs) u b

  -- The whole loop, alone as well.
  pub data Loop : Reader C → List (ℕ × SocketRead) → Reader C → Bool → Type 0 where
    returns_first :
        {r s : Reader C} {xs : List (ℕ × SocketRead)} → Turns r s exits → Loop r xs s true
    reads_on :
        {r s t : Reader C} {xs : List (ℕ × SocketRead)} {b : Bool}
        → Turns r s waits
        → Reads s xs t b
        → Loop r xs t b

  -- The messages are handled in turn, until one makes the loop return.
  unfoldable pub serve : List EslMessage → Served C → Served C × Bool
  unfolding handle
  serve [] s = (s, true)
  serve (m ∷ ms) s =
      let rest = serve ms (handle C D s m).0 in
      if (handle C D s m).1 then rest else ((handle C D s m).0, false)

  -- And then the parser wants more bytes, or fails.
  abbrev pub settled : Option EslError → Served C × Bool → Served C × Flow
  unfolding end_with display
  settled e (s, false) = (s, exits)
  settled none (s, true) = (s, waits)
  settled (some e) (s, true) = (end_with C (io_error (display e)) s, exits)

  turn_lem :
      (r : Reader C) {o : EslParser × EslResult (Option EslMessage)}
      → parse_message D.percent_decode r.parser ≡ o
      → turn C D r ≡ (
        record r { parser = o.0; served = (parsed C D r.served o.1).0 },
        (parsed C D r.served o.1).1,
      )
  unfolding turn
  turn_lem r h =
      ap
        (λ o. (
          record r { parser = o.0; served = (parsed C D r.served o.1).0 },
          (parsed C D r.served o.1).1,
        ))
        h

  -- What the turns come to, from a parser that returns the messages `ms`.
  abbrev pub Serves : Reader C → EslParser → Served C × Flow → Type 0
  Serves r q o =
      (t : Reader C) × Turns r t o.1
      × (t.served ≡ o.0)
      × (t.last_recv ≡ r.last_recv)
      × (o.1 ≡ waits → t.parser ≡ q)

  Serves-again :
      (r : Reader C) (q : EslParser) (s : Reader C) (o : Served C × Flow)
      → turn C D r ≡ (s, goes_on)
      → s.last_recv ≡ r.last_recv
      → Serves s q o
      → Serves r q o
  Serves-again r q s o h l (t, d, e, l', p) = (t, again h d, e, l' ∙ l, p)

  pub serve_on :
      (m : EslMessage) (ms : List EslMessage) (s : Served C)
      → (handle C D s m).1 ≡ true
      → serve (m ∷ ms) s ≡ serve ms (handle C D s m).0
  unfolding serve
  serve_on m ms s h = rw h refl

  pub serve_off :
      (m : EslMessage) (ms : List EslMessage) (s : Served C)
      → (handle C D s m).1 ≡ false
      → serve (m ∷ ms) s ≡ ((handle C D s m).0, false)
  unfolding serve
  serve_off m ms s h = rw h refl

  -- The turn that handles the message `m`.
  turn_handles :
      (r : Reader C) (t : EslParser) (m : EslMessage)
      → parse_message D.percent_decode r.parser ≡ (t, ok (some m))
      → turn C D r ≡ (
        record r { parser = t; served = (handle C D r.served m).0 },
        (if (handle C D r.served m).1 then goes_on else exits),
      )
  unfolding parsed
  turn_handles r t m h = turn_lem r h

  Serves-handle :
      (r : Reader C) (q t : EslParser) (m : EslMessage) (ms : List EslMessage) (e : Option EslError)
      → parse_message D.percent_decode r.parser ≡ (t, ok (some m))
      → Serves
          (record r { parser = t; served = (handle C D r.served m).0 })
          q
          (settled e (serve ms (handle C D r.served m).0))
      → Serves r q (settled e (serve (m ∷ ms) r.served))
  unfolding settled end_with display
  Serves-handle r q t m ms e h rest = elim (Bool-cases (handle C D r.served m).1) [
    | inl y ↦
        let s = record r { parser = t; served = (handle C D r.served m).0 } in
        subst (λ x. Serves r q (settled e x)) (sym (serve_on m ms r.served y))
          (Serves-again r q s (settled e (serve ms (handle C D r.served m).0))
            (turn_handles r t m h ∙ ap (λ b. (s, (if b then goes_on else exits))) y) refl rest)
    | inr n ↦
        let s = record r { parser = t; served = (handle C D r.served m).0 } in
        subst (λ x. Serves r q (settled e x)) (sym (serve_off m ms r.served n))
          (
            s,
            settles (turn_handles r t m h ∙ ap (λ b. (s, (if b then goes_on else exits))) n)
                (λ x. cc),
            refl,
            refl,
            (λ x. cc),
          )
  ]

  pub Parses-Serves :
      {q p : EslParser} {ms : List EslMessage} {e : Option EslError}
      → Parses D.percent_decode q p ms e
      → (r : Reader C) → r.parser ≡ p
      → Serves r q (settled e (serve ms r.served))
  unfolding serve settled parsed
  Parses-Serves {q} (stops {s = p} h) r e = (
    record r { parser = q },
    settles (turn_lem r (ap (parse_message D.percent_decode) e ∙ h)) (λ x. cc),
    refl,
    refl,
    (λ _. refl),
  )
  Parses-Serves {q} (fails {s = p} {e = x} h) r e = (
    record r { parser = q; served = end_with C (io_error (display x)) r.served },
    settles (turn_lem r (ap (parse_message D.percent_decode) e ∙ h)) (λ x. cc),
    refl,
    refl,
    (λ x. cc),
  )
  Parses-Serves {q} {e = e'} (returns {s = p} {t = t} {m = m} {ms = ms} h d) r e =
      Serves-handle r q t m ms e' (ap (parse_message D.percent_decode) e ∙ h)
        (Parses-Serves d (record r { parser = t; served = (handle C D r.served m).0 }) refl)
