-- ===== src/Protocol/Segmentation.antt =====
-- How TCP cuts the stream into chunks does not matter: the messages and the error are those of the
-- bytes in a row.
use mathlib.Core.List.{flatten}
use freeswitch_esl_rs.Prelude.{
  ltb, length, length-append, ok, err, Result-cases, ◌+◌, ◌≤◌, ◌≡◌, sym, ap, ◌∙◌, subst, inl, inr,
  false, Option, none, some, List, [], ◌∷◌, ◌++◌, append_assoc, append-nil, arith, Bytes,
}
use freeswitch_esl_rs.Constants.{max_buffer_size}
use freeswitch_esl_rs.Error.{EslError}
use freeswitch_esl_rs.Buffer.{unread}
use freeswitch_esl_rs.Protocol.{EslMessage, EslParser, add_data}
use freeswitch_esl_rs.Protocol.Framer.{view}
use freeswitch_esl_rs.Protocol.Resume.{feed}
use freeswitch_esl_rs.Protocol.Stream.{
  stops, fails, returns, Drains-unique, Parses, Frames, Frames-feed, Frames-feed_fails,
  Parses-Frames, Frames-Parses,
}
use freeswitch_esl_rs.Protocol.Validity.{IsCompact, parse_message-IsCompact}
use freeswitch_esl_rs.Protocol.Progress.{size, Parses-total, Frames-Shrinks}
use freeswitch_esl_rs.Buffer

-- The parser is handed the chunks in turn and called until it wants more; the first error, of
-- `add_data` or of `parse_message`, ends the session.
module _ (percent_decode : Bytes → Bytes) where
  pub data Receives : EslParser → List Bytes → List EslMessage → Option EslError → Type 0 where
    done : {p : EslParser} → Receives p [] [] none
    overflows :
        {p : EslParser} {c : Bytes} {cs : List Bytes} {e : EslError}
        → (add_data p c).1 ≡ err e
        → Receives p (c ∷ cs) [] (some e)
    breaks :
        {p q : EslParser} {c : Bytes} {cs : List Bytes} {ms : List EslMessage} {e : EslError}
        → (add_data p c).1 ≡ ok tt
        → Parses percent_decode q (add_data p c).0 ms (some e)
        → Receives p (c ∷ cs) ms (some e)
    reads :
        {p q : EslParser} {c : Bytes} {cs : List Bytes} {ms ns : List EslMessage}
        {e : Option EslError}
        → (add_data p c).1 ≡ ok tt
        → Parses percent_decode q (add_data p c).0 ms none
        → Receives q cs ns e
        → Receives p (c ∷ cs) (ms ++ ns) e

abbrev pub pending : EslParser → Bytes
pending p = Buffer.unread p.buffer

pub add_data-view :
    (p : EslParser) (c : Bytes) → IsCompact p.buffer → view (add_data p c).0 ≡ feed (view p) c
unfolding add_data Buffer.unread
add_data-view p c h = rw h

pub add_data-IsCompact :
    (p : EslParser) (c : Bytes) → IsCompact p.buffer → IsCompact (add_data p c).0.buffer
unfolding add_data
add_data-IsCompact p c h = h

add_data_ok :
    (p : EslParser) (c : Bytes)
    → IsCompact p.buffer
    → length (pending p) + length c ≤ max_buffer_size
    → (add_data p c).1 ≡ ok tt
unfolding add_data Buffer.unread
add_data_ok p c h l =
    let l' : length p.buffer.buffer + length c ≤ max_buffer_size = rw h at l in
    let small : ltb max_buffer_size (length (p.buffer.buffer ++ c)) ≡ false =
      ground (arith, length-append p.buffer.buffer c) in
    rw small

length-add_data :
    (p : EslParser) (c : Bytes)
    → IsCompact p.buffer
    → length (pending (add_data p c).0) ≡ length (pending p) + length c
length-add_data p c h =
    ap (λ f. length f.pending) (add_data-view p c h) ∙ length-append (pending p) c

module _ (percent_decode : Bytes → Bytes) where
  Parses-IsCompact :
      {q p : EslParser} {ms : List EslMessage} {e : Option EslError}
      → Parses percent_decode q p ms e
      → IsCompact p.buffer
      → IsCompact q.buffer
  Parses-IsCompact (stops {s = p} x) h = rw x at (parse_message-IsCompact percent_decode p h)
  Parses-IsCompact (fails {s = p} x) h = rw x at (parse_message-IsCompact percent_decode p h)
  Parses-IsCompact (returns {s = p} x d) h =
      Parses-IsCompact d (rw x at (parse_message-IsCompact percent_decode p h))

  length-Parses :
      {q p : EslParser} {ms : List EslMessage} {e : Option EslError}
      → Parses percent_decode q p ms e
      → length (pending q) ≤ length (pending p)
  length-Parses d = Frames-Shrinks percent_decode (Parses-Frames percent_decode d)

  feed-feed :
      (p : EslParser) (c t : Bytes)
      → IsCompact p.buffer
      → view (add_data p (c ++ t)).0 ≡ feed (view (add_data p c).0) t
  feed-feed p c t h =
      add_data-view p (c ++ t) h
      ∙ ap (λ s. record { state = p.state; pending = s }) (sym (append_assoc (pending p) c t))
      ∙ ap (λ f. feed f t) (sym (add_data-view p c h))

  -- Two runs, with the bytes `t` handed over in between, are one run on all the bytes.
  join :
      {q r : EslParser} {ms ns : List EslMessage} {e : Option EslError} (p : EslParser)
      (c t : Bytes)
      → IsCompact p.buffer
      → Parses percent_decode q (add_data p c).0 ms none
      → Parses percent_decode r (add_data q t).0 ns e
      → (x : EslParser) × Parses percent_decode x (add_data p (c ++ t)).0 (ms ++ ns) e
  join {q} {r} {ns = ns} {e = e} p c t h d d' =
      let still = Parses-IsCompact d (add_data-IsCompact p c h) in
      let both = Frames-feed percent_decode t (Parses-Frames percent_decode d) (
        subst (λ f. Frames percent_decode (view r) f ns e) (add_data-view q t still)
          (Parses-Frames percent_decode d')) in
      let (x, run, _) = Frames-Parses percent_decode _ both (feed-feed p c t h) in (x, run)

  join_fails :
      {q : EslParser} {ms : List EslMessage} {e : EslError} (p : EslParser) (c t : Bytes)
      → IsCompact p.buffer
      → Parses percent_decode q (add_data p c).0 ms (some e)
      → (x : EslParser) × Parses percent_decode x (add_data p (c ++ t)).0 ms (some e)
  join_fails p c t h d =
      let (x, run, _) =
        Frames-Parses percent_decode _
          (Frames-feed_fails percent_decode t (Parses-Frames percent_decode d))
          (feed-feed p c t h) in
      (x, run)

  -- A run on one chunk, read either way.
  one :
      {q : EslParser} (p : EslParser) (c : Bytes) (ms : List EslMessage) (e : Option EslError)
      → (add_data p c).1 ≡ ok tt
      → Parses percent_decode q (add_data p c).0 ms e
      → Receives percent_decode p (c ∷ []) ms e
  one p c ms none fits d =
      subst (λ l. Receives percent_decode p (c ∷ []) l none) (append-nil ms) (reads fits d done)
  one p c ms (some e) fits d = breaks fits d

  Receives-one :
      {p : EslParser} {c : Bytes} {ms : List EslMessage} {e : Option EslError}
      → (add_data p c).1 ≡ ok tt
      → Receives percent_decode p (c ∷ []) ms e
      → (q : EslParser) × Parses percent_decode q (add_data p c).0 ms e
  Receives-one fits (overflows x) = cc
  Receives-one fits (breaks {q = q} _ d) = (q, d)
  Receives-one {p} {c} fits (reads {q = q} {ms = ms} _ d done) =
      (q, subst (λ l. Parses percent_decode q (add_data p c).0 l none) (sym (append-nil ms)) d)

  -- The chunks `c`, `cs` in a row.
  Receives-flatten :
      (p : EslParser) (c : Bytes) (cs : List Bytes) {ms : List EslMessage} {e : Option EslError}
      → IsCompact p.buffer
      → length (pending p) + length (c ++ flatten cs) ≤ max_buffer_size
      → Receives percent_decode p (c ∷ cs) ms e
      → Receives percent_decode p ((c ++ flatten cs) ∷ []) ms e
  unfolding flatten
  Receives-flatten p c [] {ms} {e} h l r =
      unfold flatten in subst (λ s. Receives percent_decode p (s ∷ []) ms e) (sym (append-nil c)) r
  Receives-flatten p c (c' ∷ cs) h l (overflows x) =
      let fits = add_data_ok p c h (omega (arith, length-append c (flatten (c' ∷ cs)))) in cc
  Receives-flatten p c (c' ∷ cs) h l (breaks {ms = ms} {e = e} _ d) =
      let (x, run) = join_fails p c (flatten (c' ∷ cs)) h d in
      one p (c ++ flatten (c' ∷ cs)) ms (some e) (add_data_ok p _ h l) run
  Receives-flatten p c (c' ∷ cs) {e = e} h l (reads {q = q} {ms = ms} {ns = ns} _ d r) =
      let t = c' ++ flatten cs in
      let still = Parses-IsCompact d (add_data-IsCompact p c h) in
      let room : length (pending q) + length t ≤ max_buffer_size =
        omega (arith, length-Parses d, length-add_data p c h, length-append c t) in
      let (_, d') =
        Receives-one (add_data_ok q t still room) (Receives-flatten q c' cs still room r) in
      let (x, run) = join p c t h d d' in
      one p (c ++ t) (ms ++ ns) e (add_data_ok p (c ++ t) h l) run

  -- Two ways to cut the same bytes into chunks, at least one chunk each, give the same messages and
  -- the same error, on a parser whose consumed bytes are gone, as those of a new one are. The bytes
  -- must fit in the buffer, since `add_data` refuses more.
  pub segmentation :
      (p : EslParser) (c c' : Bytes) (cs cs' : List Bytes) {ms ms' : List EslMessage}
      {e e' : Option EslError}
      → IsCompact p.buffer
      → c ++ flatten cs ≡ c' ++ flatten cs'
      → length (pending p) + length (c ++ flatten cs) ≤ max_buffer_size
      → Receives percent_decode p (c ∷ cs) ms e
      → Receives percent_decode p (c' ∷ cs') ms' e'
      → (ms ≡ ms') × (e ≡ e')
  segmentation p c c' cs cs' {ms' = ms'} {e' = e'} h same l r r' =
      let l' : length (pending p) + length (c' ++ flatten cs') ≤ max_buffer_size = rw (← same) l in
      let fits = add_data_ok p (c ++ flatten cs) h l in
      let whole' =
        subst (λ s. Receives percent_decode p (s ∷ []) ms' e') (sym same)
          (Receives-flatten p c' cs' h l' r') in
      let (_, d) = Receives-one fits (Receives-flatten p c cs h l r) in
      let (_, d') = Receives-one fits whole' in Drains-unique d d'

  -- Whatever the chunks are, the session gives some messages and comes to an end of the input or to
  -- an error.
  pub Receives-total :
      (p : EslParser) (cs : List Bytes)
      → (ms : List EslMessage) × (e : Option EslError) × Receives percent_decode p cs ms e
  Receives-total p [] = ([], none, done)
  Receives-total p (c ∷ cs) = elim (Result-cases (add_data p c).1) [
    | inr (e, full) ↦ ([], some e, overflows full)
    | inl (_, fits) ↦
        read fits (λ q. Receives-total q cs) (Parses-total percent_decode (add_data p c).0)
  ]
    where
      read :
          (add_data p c).1 ≡ ok tt
          → ((q : EslParser)
              → (ms : List EslMessage) × (e : Option EslError) × Receives percent_decode q cs ms e)
          → (q : EslParser) × (ms : List EslMessage) × (e : Option EslError) × Parses percent_decode
              q
              (add_data p c).0
              ms
              e
            × (length ms ≤ size (view (add_data p c).0))
          → (ms : List EslMessage) × (e : Option EslError) × Receives percent_decode p (c ∷ cs) ms e
      read fits later (q, ms, some e, d, few) = (ms, some e, breaks fits d)
      read fits later (q, ms, none, d, few) =
          let (ns, e, r) = later q in (ms ++ ns, e, reads fits d r)
