-- ===== src/Connection/Chunks.antt =====
-- What `reader_loop_inner` of src/connection.rs does with a stream of bytes does not depend on how
-- the socket cuts it into reads.
use freeswitch_esl_rs.Prelude.{
  Bool-cases, ok, err, ℕ, ◌≡◌, refl, sym, ap, ◌∙◌, subst, inl, inr, Bool, true, false, Option, none,
  some, List, [], ◌∷◌, ◌++◌, Bytes,
}
use freeswitch_esl_rs.Error.{EslError, display}
use freeswitch_esl_rs.Protocol.{EslMessage, EslParser, add_data}
use freeswitch_esl_rs.Protocol.Stream.{Parses}
use freeswitch_esl_rs.Protocol.Segmentation.{Receives, done, overflows, breaks, reads}
use freeswitch_esl_rs.Connection.{io_error, MpscChannel}
use freeswitch_esl_rs.Connection.Reader.{
  waits, exits, SocketRead, bytes, Decoders, Served, Reader, end_with, handle, added, received,
}
use freeswitch_esl_rs.Connection.Session.{
  Turns, Reads, quiet, breaks_off, leaves, serves, serve, settled, serve_on, serve_off,
  Parses-Serves,
}

-- The reads of these chunks, at these times; where times are missing, at time 0.
abbrev pub at_times : List ℕ → List Bytes → List (ℕ × SocketRead)
at_times ts [] = []
at_times [] (c ∷ cs) = (0, bytes c) ∷ at_times [] cs
at_times (t ∷ ts) (c ∷ cs) = (t, bytes c) ∷ at_times ts cs

abbrev head_time : List ℕ → ℕ
head_time [] = 0
head_time (t ∷ ts) = t

abbrev tail_times : List ℕ → List ℕ
tail_times [] = []
tail_times (t ∷ ts) = ts

at_times-cons :
    (ts : List ℕ) (c : Bytes) (cs : List Bytes)
    → at_times ts (c ∷ cs) ≡ (head_time ts, bytes c) ∷ at_times (tail_times ts) cs
at_times-cons [] c cs = refl
at_times-cons (t ∷ ts) c cs = refl

module _ (C : MpscChannel) (D : Decoders) where
  -- What the loop has done at the end of the stream, or where it returns.
  abbrev pub finished : Option EslError → Served C × Bool → Served C × Bool
  unfolding end_with display
  finished e (s, false) = (s, true)
  finished none (s, true) = (s, false)
  finished (some e) (s, true) = (end_with C (io_error (display e)) s, true)

  serve-append_on :
      (ms ns : List EslMessage) (s : Served C)
      → (serve C D ms s).1 ≡ true
      → serve C D (ms ++ ns) s ≡ serve C D ns (serve C D ms s).0
  unfolding serve
  serve-append_on [] ns s h = refl
  serve-append_on (m ∷ ms) ns s h = elim (Bool-cases (handle C D s m).1) [
    | inl y ↦
        let e = serve_on C D m ms s y in
        serve_on C D m (ms ++ ns) s y
        ∙ serve-append_on ms ns (handle C D s m).0 (ap (λ x. x.1) (sym e) ∙ h)
        ∙ ap (λ x. serve C D ns x.0) (sym e)
    | inr n ↦ cc (ap (λ x. x.1) (sym (serve_off C D m ms s n)) ∙ h)
  ]

  serve-append_off :
      (ms ns : List EslMessage) (s : Served C)
      → (serve C D ms s).1 ≡ false
      → serve C D (ms ++ ns) s ≡ ((serve C D ms s).0, false)
  unfolding serve
  serve-append_off [] ns s h = cc
  serve-append_off (m ∷ ms) ns s h = elim (Bool-cases (handle C D s m).1) [
    | inl y ↦
        let e = serve_on C D m ms s y in
        serve_on C D m (ms ++ ns) s y
        ∙ serve-append_off ms ns (handle C D s m).0 (ap (λ x. x.1) (sym e) ∙ h)
        ∙ ap (λ (x : Served C × Bool). (x.0, false)) (sym e)
    | inr n ↦
        serve_off C D m (ms ++ ns) s n
        ∙ ap (λ (x : Served C × Bool). (x.0, false)) (sym (serve_off C D m ms s n))
  ]

  -- A run of the loop and what it comes to.
  abbrev pub Comes : Reader C → List (ℕ × SocketRead) → Served C × Bool → Type 0
  Comes r xs o = (t : Reader C) × (b : Bool) × Reads C D r xs t b × ((t.served, b) ≡ o)

  pub read_on :
      (r : Reader C) (now : ℕ) (c : Bytes)
      → (add_data r.parser c).1 ≡ ok tt
      → received C r now (bytes c)
        ≡ (record r { last_recv = now; parser = (add_data r.parser c).0 }, true)
  unfolding received added
  read_on r now c h =
      ap (λ x. added C (record r { last_recv = now }) ((add_data r.parser c).0, x)) h

  pub read_off :
      (r : Reader C) (now : ℕ) (c : Bytes) (e : EslError)
      → (add_data r.parser c).1 ≡ err e
      → received C r now (bytes c) ≡ (
        record {
          parser = (add_data r.parser c).0;
          last_recv = now;
          served = end_with C (io_error (display e)) r.served;
        },
        false,
      )
  unfolding received added
  read_off r now c e h =
      ap (λ x. added C (record r { last_recv = now }) ((add_data r.parser c).0, x)) h

  -- A chunk has been read and its messages handled.
  read_served :
      (r : Reader C) (q : EslParser) (now : ℕ) (c : Bytes) (ms : List EslMessage)
      (xs : List (ℕ × SocketRead)) (ns : List EslMessage) (e : Option EslError)
      → (add_data r.parser c).1 ≡ ok tt
      → Parses D.percent_decode q (add_data r.parser c).0 ms none
      → ((t : Reader C) → t.parser ≡ q → Comes t xs (finished e (serve C D ns t.served)))
      → Comes r ((now, bytes c) ∷ xs) (finished e (serve C D (ms ++ ns) r.served))
  unfolding finished end_with display
  read_served r q now c ms xs ns e fits d rest =
      let s = record r { last_recv = now; parser = (add_data r.parser c).0 } in
      let (t, turns, same, _, parser) = Parses-Serves C D d s refl in
      elim (Bool-cases (serve C D ms r.served).1) [
        | inl y ↦
            let o : serve C D ms r.served ≡ ((serve C D ms r.served).0, true) =
              ap (λ b. ((serve C D ms r.served).0, b)) y in
            let w : (settled C D none (serve C D ms r.served)).1 ≡ waits =
              ap (λ b. (settled C D none ((serve C D ms r.served).0, b)).1) y in
            let here : t.served ≡ (serve C D ms r.served).0 =
              same ∙ ap (λ b. (settled C D none ((serve C D ms r.served).0, b)).0) y in
            let (u, b, run, end') = rest t (parser w) in
            (
              u,
              b,
              serves (read_on r now c fits) (subst (λ f. Turns C D s t f) w turns) run,
              end'
                  ∙ ap (λ z. finished e (serve C D ns z)) here
                  ∙ ap (finished e) (sym (serve-append_on ms ns r.served y)),
            )
        | inr n ↦
            let x : (settled C D none (serve C D ms r.served)).1 ≡ exits =
              ap (λ b. (settled C D none ((serve C D ms r.served).0, b)).1) n in
            let here : t.served ≡ (serve C D ms r.served).0 =
              same ∙ ap (λ b. (settled C D none ((serve C D ms r.served).0, b)).0) n in
            (
              t,
              true,
              leaves (read_on r now c fits) (subst (λ f. Turns C D s t f) x turns),
              ap (λ (z : Served C). (z, true)) here
                  ∙ ap (finished e) (sym (serve-append_off ms ns r.served n)),
            )
      ]

  -- The last chunk of a stream that fails.
  read_fails :
      (r : Reader C) (q : EslParser) (now : ℕ) (c : Bytes) (ms : List EslMessage)
      (xs : List (ℕ × SocketRead)) (e : EslError)
      → (add_data r.parser c).1 ≡ ok tt
      → Parses D.percent_decode q (add_data r.parser c).0 ms (some e)
      → Comes r ((now, bytes c) ∷ xs) (finished (some e) (serve C D ms r.served))
  unfolding finished end_with display
  read_fails r q now c ms xs e fits d =
      let s = record r { last_recv = now; parser = (add_data r.parser c).0 } in
      let (t, turns, same, _, parser) = Parses-Serves C D d s refl in
      let o = serve C D ms r.served in
      elim (Bool-cases o.1) [
        | inl y ↦ (
          t,
          true,
          leaves (read_on r now c fits)
              (subst (λ f. Turns C D s t f) (ap (λ b. (settled C D (some e) (o.0, b)).1) y) turns),
          ap (λ (z : Served C). (z, true)) (same ∙ ap (λ b. (settled C D (some e) (o.0, b)).0) y)
              ∙ ap (λ b. finished (some e) (o.0, b)) (sym y),
        )
        | inr n ↦ (
          t,
          true,
          leaves (read_on r now c fits)
              (subst (λ f. Turns C D s t f) (ap (λ b. (settled C D (some e) (o.0, b)).1) n) turns),
          ap (λ (z : Served C). (z, true)) (same ∙ ap (λ b. (settled C D (some e) (o.0, b)).0) n)
              ∙ ap (λ b. finished (some e) (o.0, b)) (sym n),
        )
      ]

  -- The loop does with the chunks what their messages and their error say.
  pub Receives-Comes :
      {p : EslParser} {cs : List Bytes} {ms : List EslMessage} {e : Option EslError}
      → Receives D.percent_decode p cs ms e
      → (r : Reader C) (ts : List ℕ) → r.parser ≡ p
      → Comes r (at_times ts cs) (finished e (serve C D ms r.served))
  unfolding serve end_with display
  Receives-Comes done r ts h = (r, false, quiet, refl)
  Receives-Comes (overflows {p = p} {c = c} {cs = cs} {e = e} x) r ts h =
      rw (at_times-cons ts c cs) (
        _,
        true,
        breaks_off (read_off r (head_time ts) c e (ap (λ p. (add_data p c).1) h ∙ x)),
        refl,
      )
  Receives-Comes (breaks {p = p} {q = q} {c = c} {cs = cs} {ms = ms} {e = e} x d) r ts h =
      subst (λ xs. Comes r xs (finished (some e) (serve C D ms r.served)))
        (sym (at_times-cons ts c cs))
        (read_fails r q (head_time ts) c ms (at_times (tail_times ts) cs) e
          (ap (λ p. (add_data p c).1) h ∙ x)
          (subst (λ p. Parses D.percent_decode q (add_data p c).0 ms (some e)) (sym h) d))
  Receives-Comes (reads {p = p} {q = q} {c = c} {cs = cs} {ms = ms} {ns = ns} {e = e} x d more) r ts
        h =
      subst (λ xs. Comes r xs (finished e (serve C D (ms ++ ns) r.served)))
        (sym (at_times-cons ts c cs))
        (read_served r q (head_time ts) c ms (at_times (tail_times ts) cs) ns e
          (ap (λ p. (add_data p c).1) h ∙ x)
          (subst (λ p. Parses D.percent_decode q (add_data p c).0 ms none) (sym h) d)
          (λ t same. Receives-Comes more t (tail_times ts) same))
