-- ===== src/Connection/Bounds.antt =====
-- How much the reader task of src/connection.rs buffers.
use native.Mathlib.Nat.{le_trans}
use freeswitch_esl_rs.Buffer
use freeswitch_esl_rs.Prelude.{
  ltb, Bool-cases, length, drop, length-append, All, ℕ, ◌+◌, ◌≤◌, ◌≡◌, sym, ap, subst, inl, inr,
  Bool, true, false, not, List, ◌++◌, arith, Bytes,
}
use freeswitch_esl_rs.Constants.{socket_buf_size, max_buffer_size}
use freeswitch_esl_rs.Buffer.{unread}
use freeswitch_esl_rs.Protocol.{EslParser, add_data, parse_message}
use freeswitch_esl_rs.Protocol.Framer.{Outcome, view}
use freeswitch_esl_rs.Protocol.Refinement.{view-parse_message}
use freeswitch_esl_rs.Protocol.Validity.{IsCompact, parse_message-IsCompact}
use freeswitch_esl_rs.Protocol.Progress.{frame-Shrinks}
use freeswitch_esl_rs.Protocol.Segmentation.{pending}
use freeswitch_esl_rs.Connection.{MpscChannel}
use freeswitch_esl_rs.Connection.Reader.{
  Flow, SocketRead, no_bytes, bytes, read_error, elapsed, Decoders, is_expired, Reader, end_with,
  turn, added, received,
}
use freeswitch_esl_rs.Connection.Session.{
  Turns, settles, again, Reads, quiet, breaks_off, leaves, serves, Loop, returns_first, reads_on,
}

-- A read fills at most the buffer that is handed to it.
abbrev pub Fits : SocketRead → Type 0
Fits (bytes s) = length s ≤ socket_buf_size
Fits _ = Unit

all_pending : (p : EslParser) → IsCompact p.buffer → pending p ≡ p.buffer.buffer
unfolding Buffer.unread
all_pending p k = ap (λ n. drop n p.buffer.buffer) k

module _ (C : MpscChannel) (D : Decoders) where
  -- Nothing consumed is kept, and this much is buffered at most.
  abbrev pub Holds : ℕ → Reader C → Type 0
  Holds n r = IsCompact r.parser.buffer × (length r.parser.buffer.buffer ≤ n)

  Holds-mono : (m n : ℕ) (r : Reader C) → m ≤ n → Holds m r → Holds n r
  Holds-mono m n r l (k, h) = (k, omega (arith, l, h))

  parse_message-Holds :
      (n : ℕ) (r : Reader C)
      → Holds n r
      → IsCompact (parse_message D.percent_decode r.parser).0.buffer
        × (length (parse_message D.percent_decode r.parser).0.buffer.buffer ≤ n)
  parse_message-Holds n r (k, h) =
      let p = (parse_message D.percent_decode r.parser).0 in
      let k' = parse_message-IsCompact D.percent_decode r.parser k in
      let less : length (pending p) ≤ length (pending r.parser) =
        subst (λ (o : Outcome). length o.0.pending ≤ length (pending r.parser))
          (sym (view-parse_message D.percent_decode r.parser))
          (frame-Shrinks D.percent_decode (view r.parser)) in
      (
        k',
        le_trans (subst (λ s. length s ≤ length (pending r.parser)) (all_pending p k') less)
            (subst (λ s. length s ≤ n) (sym (all_pending r.parser k)) h),
      )

  turn-Holds : (n : ℕ) (r : Reader C) → Holds n r → Holds n (turn C D r).0
  unfolding turn
  turn-Holds n r h = parse_message-Holds n r h

  Turns-Holds : {r t : Reader C} {flow : Flow} (n : ℕ) → Turns C D r t flow → Holds n r → Holds n t
  Turns-Holds n (settles {r = r} e ne) h = subst (λ z. Holds n z.0) e (turn-Holds n r h)
  Turns-Holds n (again {r = r} e d) h =
      Turns-Holds n d (subst (λ z. Holds n z.0) e (turn-Holds n r h))

  -- What is buffered between reads, and what is buffered once the loop has returned.
  abbrev Bounded : Reader C → Bool → Type 0
  Bounded r true = Holds max_buffer_size r
  Bounded r false = Holds (max_buffer_size + socket_buf_size) r

  added-Bounded :
      (r : Reader C) (s : Bytes)
      → Holds max_buffer_size r
      → length s ≤ socket_buf_size
      → Bounded (added C r (add_data r.parser s)).0 (added C r (add_data r.parser s)).1
  unfolding added add_data end_with
  added-Bounded r s (k, h) l =
      elim (Bool-cases (ltb max_buffer_size (length (r.parser.buffer.buffer ++ s)))) [
        | inl y ↦ rw y (k, omega (arith, length-append r.parser.buffer.buffer s, h, l))
        | inr n ↦ rw n (k, ground (arith, n))
      ]

  more : (r : Reader C) → Holds max_buffer_size r → Holds (max_buffer_size + socket_buf_size) r
  more r h = Holds-mono max_buffer_size (max_buffer_size + socket_buf_size) r (omega arith) h

  received-Bounded :
      (r : Reader C) (now : ℕ) (x : SocketRead)
      → Holds max_buffer_size r
      → Fits x
      → Bounded (received C r now x).0 (received C r now x).1
  unfolding received end_with
  received-Bounded r now no_bytes h l = more r h
  received-Bounded r now (bytes s) h l = added-Bounded (record r { last_recv = now }) s h l
  received-Bounded r now (read_error e) h l = more r h
  received-Bounded r now elapsed h l =
      elim (Bool-cases (is_expired r.served.shared r.last_recv now)) [
        | inl y ↦ rw y (more r h)
        | inr n ↦ rw n h
      ]

  abbrev pub AllFit : List (ℕ × SocketRead) → Type 0
  AllFit xs = All (λ x. Fits x.1) xs

  Reads-Bounded :
      {r t : Reader C} {xs : List (ℕ × SocketRead)} {b : Bool}
      → Reads C D r xs t b
      → Holds max_buffer_size r
      → AllFit xs
      → Bounded t (not b)
  Reads-Bounded quiet h l = h
  Reads-Bounded (breaks_off {r = r} {now = now} {x = x} e) h l =
      subst (λ z. Bounded z.0 z.1) e (received-Bounded r now x h l.0)
  Reads-Bounded (leaves {r = r} {t = t} {now = now} {x = x} e d) h l = more t (
      Turns-Holds max_buffer_size d
        (subst (λ z. Bounded z.0 z.1) e (received-Bounded r now x h l.0)))
  Reads-Bounded (serves {r = r} {now = now} {x = x} e d run) h l =
      Reads-Bounded run
        (Turns-Holds max_buffer_size d
          (subst (λ z. Bounded z.0 z.1) e (received-Bounded r now x h l.0)))
        l.1

  -- However long a session lasts: while the loop has not returned, no more than `MAX_BUFFER_SIZE` bytes
  -- are buffered, and never more than one read in addition. It starts with no more, and without
  -- consumed bytes, as a new parser does; no read returns more than it was given room for.
  pub Loop-Bounded :
      {r t : Reader C} {xs : List (ℕ × SocketRead)} {b : Bool}
      → Loop C D r xs t b
      → Holds max_buffer_size r
      → AllFit xs
      → (length t.parser.buffer.buffer ≤ max_buffer_size + socket_buf_size)
        × (b ≡ false → length t.parser.buffer.buffer ≤ max_buffer_size)
  Loop-Bounded (returns_first {s = s} d) h l =
      ((more s (Turns-Holds max_buffer_size d h)).1, (λ e. cc e))
  Loop-Bounded (reads_on {t = t} {b = true} d run) h l =
      let w = Reads-Bounded run (Turns-Holds max_buffer_size d h) l in (w.1, (λ e. cc e))
  Loop-Bounded (reads_on {t = t} {b = false} d run) h l =
      let w = Reads-Bounded run (Turns-Holds max_buffer_size d h) l in ((more t w).1, (λ e. w.1))
