-- ===== src/Connection/Leftover.antt =====
-- What the handshake of src/connection.rs takes from the stream: its two messages, and no byte of
-- what follows.
use mathlib.Core.List.{flatten}
use freeswitch_esl_rs.Prelude.{
  ok, err, ◌≡◌, refl, sym, ap, ◌∙◌, subst, Option, none, some, List, [], ◌∷◌, ◌++◌, append_assoc,
  append-nil, Bytes,
}
use freeswitch_esl_rs.Error.{EslError, EslResult}
use freeswitch_esl_rs.Protocol.{EslMessage, EslParser, add_data, parse_message}
use freeswitch_esl_rs.Protocol.Framer.{Framer, frame, view, view_outcome}
use freeswitch_esl_rs.Protocol.Refinement.{view-parse_message}
use freeswitch_esl_rs.Protocol.Resume.{feed, resume, frame-feed}
use freeswitch_esl_rs.Protocol.Stream.{returns, Frames}
use freeswitch_esl_rs.Protocol.Validity.{IsCompact, parse_message-IsCompact}
use freeswitch_esl_rs.Protocol.Segmentation.{add_data-view, add_data-IsCompact}
use freeswitch_esl_rs.Connection.Reader.{SocketRead, no_bytes, bytes, read_error, elapsed}
use freeswitch_esl_rs.Connection.Handshake.{recv_message, Recv, stored, read, got, got_last}

-- Reads that return these chunks.
abbrev pub chunk_reads : List Bytes → List SocketRead
chunk_reads [] = []
chunk_reads (c ∷ cs) = bytes c ∷ chunk_reads cs

module _ (percent_decode : Bytes → Bytes) where
  -- Chunks were read, of which the message is the first; it leaves the parser `q`.
  abbrev pub TakesMessage :
      EslParser → List SocketRead → EslParser → List SocketRead → EslMessage → Type 0
  TakesMessage p xs q ys m =
      (cs : List Bytes) × (xs ≡ chunk_reads cs ++ ys)
      × (frame percent_decode (feed (view p) (flatten cs)) ≡ (view q, ok (some m)))
      × IsCompact q.buffer

  view_parse :
      (p : EslParser) {o : EslParser × EslResult (Option EslMessage)}
      → parse_message percent_decode p ≡ o
      → frame percent_decode (view p) ≡ view_outcome o
  view_parse p h = sym (view-parse_message percent_decode p) ∙ ap view_outcome h

  IsCompact-parse :
      (p : EslParser) {o : EslParser × EslResult (Option EslMessage)}
      → parse_message percent_decode p ≡ o
      → IsCompact p.buffer
      → IsCompact o.0.buffer
  IsCompact-parse p h c =
      subst (λ x. IsCompact x.0.buffer) h (parse_message-IsCompact percent_decode p c)

  -- Nothing is read if a message is buffered.
  takes_buffered :
      (p q : EslParser) (xs : List SocketRead) (m : EslMessage)
      → parse_message percent_decode p ≡ (q, ok (some m))
      → IsCompact p.buffer
      → TakesMessage p xs q xs m
  unfolding flatten
  takes_buffered p q xs m h c = (
    [],
    refl,
    ap (λ s. frame percent_decode (record { state = p.state; pending = s }))
          (append-nil (view p).pending)
        ∙ view_parse p h,
    IsCompact-parse p h c,
  )

  -- A chunk was read, since no message was buffered.
  takes_read :
      (p q r : EslParser) (c : Bytes) (xs ys : List SocketRead) (m : EslMessage)
      → parse_message percent_decode p ≡ (q, ok none)
      → IsCompact p.buffer
      → TakesMessage (add_data q c).0 xs r ys m
      → TakesMessage p (bytes c ∷ xs) r ys m
  unfolding flatten
  takes_read p q r c xs ys m h k (cs, e, f, l) = (
    c ∷ cs,
    ap (λ l. bytes c ∷ l) e,
    frame-feed percent_decode (c ++ flatten cs) (view p)
        ∙ ap (resume percent_decode (c ++ flatten cs)) (view_parse p h)
        ∙ ap (λ s. frame percent_decode (record { state = q.state; pending = s }))
            (sym (append_assoc (view q).pending c (flatten cs)))
        ∙ ap (λ g. frame percent_decode (feed g (flatten cs)))
            (sym (add_data-view q c (IsCompact-parse p h k)))
        ∙ f,
    l,
  )

  abbrev pub Returned : EslParser → List SocketRead → Recv → Type 0
  Returned p xs (q, ys, some (ok m)) = TakesMessage p xs q ys m
  Returned p xs (q, ys, some (err e)) = Unit
  Returned p xs (q, ys, none) = Unit

  Returned-read :
      (p q : EslParser) (c : Bytes) (xs : List SocketRead) (z : Recv)
      → parse_message percent_decode p ≡ (q, ok none)
      → IsCompact p.buffer
      → Returned (add_data q c).0 xs z
      → Returned p (bytes c ∷ xs) z
  Returned-read p q c xs (r, ys, some (ok m)) h k t = takes_read p q r c xs ys m h k t
  Returned-read p q c xs (r, ys, some (err e)) h k t = tt
  Returned-read p q c xs (r, ys, none) h k t = tt

  module _ (next : EslParser → Recv) (xs : List SocketRead)
      (rest : (q : EslParser) → IsCompact q.buffer → Returned q xs (next q)) where
    stored-Returned :
        (p q : EslParser) (c : Bytes) (o : EslParser × EslResult (Unit {0}))
        → parse_message percent_decode p ≡ (q, ok none)
        → IsCompact p.buffer
        → add_data q c ≡ o
        → Returned p (bytes c ∷ xs) (stored next xs o)
    unfolding stored
    stored-Returned p q c (r, ok _) h k e =
        let k' = add_data-IsCompact q c (IsCompact-parse p h k) in
        subst (λ (z : EslParser × EslResult (Unit {0})). Returned p (bytes c ∷ xs) (next z.0)) e
          (Returned-read p q c xs (next (add_data q c).0) h k (rest (add_data q c).0 k'))
    stored-Returned p q c (r, err e) h k f = tt

    read-Returned :
        (p q : EslParser) (x : SocketRead)
        → parse_message percent_decode p ≡ (q, ok none)
        → IsCompact p.buffer
        → Returned p (x ∷ xs) (read next xs q x)
    unfolding read
    read-Returned p q no_bytes h k = tt
    read-Returned p q (bytes c) h k = stored-Returned p q c (add_data q c) h k refl
    read-Returned p q (read_error e) h k = tt
    read-Returned p q elapsed h k = tt

    got-Returned :
        (p : EslParser) (x : SocketRead) (o : EslParser × EslResult (Option EslMessage))
        → parse_message percent_decode p ≡ o
        → IsCompact p.buffer
        → Returned p (x ∷ xs) (got next x xs o)
    unfolding got
    got-Returned p x (q, ok (some m)) h k = takes_buffered p q (x ∷ xs) m h k
    got-Returned p x (q, ok none) h k = read-Returned p q x h k
    got-Returned p x (q, err e) h k = tt

  got_last-Returned :
      (p : EslParser) (o : EslParser × EslResult (Option EslMessage))
      → parse_message percent_decode p ≡ o
      → IsCompact p.buffer
      → Returned p [] (got_last o)
  unfolding got_last
  got_last-Returned p (q, ok (some m)) h k = takes_buffered p q [] m h k
  got_last-Returned p (q, ok none) h k = tt
  got_last-Returned p (q, err e) h k = tt

  -- A message that is returned is the first of what was buffered and of the chunks read in a row.
  pub recv_message-Returned :
      (p : EslParser) (xs : List SocketRead)
      → IsCompact p.buffer
      → Returned p xs (recv_message percent_decode p xs)
  unfolding recv_message
  recv_message-Returned p [] k = got_last-Returned p (parse_message percent_decode p) refl k
  recv_message-Returned p (x ∷ xs) k =
      got-Returned (λ q. recv_message percent_decode q xs) xs (λ q l. recv_message-Returned q xs l)
        p x (parse_message percent_decode p) refl k

  flatten-append : (cs ds : List Bytes) → flatten (cs ++ ds) ≡ flatten cs ++ flatten ds
  unfolding flatten
  flatten-append [] ds = refl
  flatten-append (c ∷ cs) ds =
      ap (λ s. c ++ s) (flatten-append cs ds) ∙ sym (append_assoc c (flatten cs) (flatten ds))

  chunk_reads-append :
      (cs ds : List Bytes) → chunk_reads (cs ++ ds) ≡ chunk_reads cs ++ chunk_reads ds
  chunk_reads-append [] ds = refl
  chunk_reads-append (c ∷ cs) ds = ap (λ l. bytes c ∷ l) (chunk_reads-append cs ds)

  -- Two messages taken, and what the rest comes to.
  pub takes_two :
      (p q r : EslParser) (xs ys zs : List SocketRead) (m n : EslMessage)
      → TakesMessage p xs q ys m
      → TakesMessage q ys r zs n
      → (cs : List Bytes) × (xs ≡ chunk_reads cs ++ zs)
        × ((g : Framer) (ns : List EslMessage) (e : Option EslError)
            → Frames percent_decode g (view r) ns e
            → Frames percent_decode g (feed (view p) (flatten cs)) (m ∷ n ∷ ns) e)
  takes_two p q r xs ys zs m n (cs, a, f, _) (ds, b, f', _) = (
    cs ++ ds,
    a
        ∙ ap (λ l. chunk_reads cs ++ l) b
        ∙ sym (append_assoc (chunk_reads cs) (chunk_reads ds) zs)
        ∙ ap (λ l. l ++ zs) (sym (chunk_reads-append cs ds)),
    (λ g ns e run.
        returns
          (ap (λ s. frame percent_decode (feed (view p) s)) (flatten-append cs ds)
            ∙ ap (λ s. frame percent_decode (record { state = p.state; pending = s }))
                (sym (append_assoc (view p).pending (flatten cs) (flatten ds)))
            ∙ frame-feed percent_decode (flatten ds) (feed (view p) (flatten cs))
            ∙ ap (resume percent_decode (flatten ds)) f)
          (returns f' run)),
  )
