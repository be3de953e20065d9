-- ===== src/Connection/Attended.antt =====
-- No sender of a reply is dropped before it is used, in src/connection.rs: a caller waits until its
-- reply comes or its time is up.
use freeswitch_esl_rs.Prelude.{
  ℕ, ◌≡◌, refl, sym, ap, ◌∙◌, subst, ◌≢◌, inl, inr, true, Option, none, some, List, [],
}
use freeswitch_esl_rs.Headers.{Headers}
use freeswitch_esl_rs.Protocol.{EslMessage}
use freeswitch_esl_rs.Connection.{MpscChannel}
use freeswitch_esl_rs.Connection.Reader.{Decoders, Served, end_with, route_reply, handle}
use freeswitch_esl_rs.Connection.Client.{register, withdraw}
use freeswitch_esl_rs.Connection.Calls.{
  returns, done, Pc, idle, checked, locked, registered, waiting, late, cancelled, update,
  holds_lock, reply_to, Calls, slot, Step, refuses, checks, locks, registers, writes, write_fails,
  loses, expires, withdraws, drops_before, drops, drops_written, replies, handles, ends, Reach,
  starts, later,
}
use freeswitch_esl_rs.Connection.Slot.{
  Unused, Attends, Local, update-all, lock-Local, unlock-Local, register-Local, withdraw-Local,
  reply-Local,
}
use freeswitch_esl_rs.Connection.Routing.{handle-slot, handle-reply}

module _ (C : MpscChannel) (D : Decoders) (order : Headers → Headers) where
  abbrev pub Inv : Calls C D order → Type 0
  Inv s = (j : ℕ) → Local s.writer (slot C D order s) s.served.sent j (s.pc j)

  -- A call that holds the lock, and moves on.
  pub at :
      (s : Calls C D order) (i : ℕ) {p : Pc}
      → Inv s
      → s.pc i ≡ p
      → Local s.writer (slot C D order s) s.served.sent i p
  at s i inv e = subst (Local s.writer (slot C D order s) s.served.sent i) e (inv i)

  -- The others, once the lock is given back.
  others :
      (s : Calls C D order) (i j : ℕ)
      → Inv s
      → s.writer ≡ some i
      → i ≢ j
      → Local none (slot C D order s) s.served.sent j (s.pc j)
  others s i j inv w ne =
      unlock-Local i (slot C D order s) s.served.sent j (s.pc j) ne
        (subst (λ x. Local x (slot C D order s) s.served.sent j (s.pc j)) w (inv j))

  unused :
      (q : Option ℕ) (rs : List (ℕ × EslMessage)) (i : ℕ)
      → Attends q rs i
      → q ≡ some i
      → Unused rs i
  unused q rs i (inl (e, u)) h = u
  unused q rs i (inr (ne, m, e)) h = absurd (ne h)

  -- A call that gives the lock back, wherever it stands.
  dropped-Local :
      (w q : Option ℕ) (rs : List (ℕ × EslMessage)) (i : ℕ) (p : Pc)
      → holds_lock p ≡ true
      → Local w q rs i p
      → (w ≡ some i) × (q ≡ some i → Unused rs i)
  dropped-Local w q rs i idle h l = cc h
  dropped-Local w q rs i (checked _) h l = cc h
  dropped-Local w q rs i (locked _) h l = (l.0, (λ e. absurd (l.1 e)))
  dropped-Local w q rs i (registered _) h l = (l.0, unused q rs i l.1)
  dropped-Local w q rs i waiting h l = (l.0, unused q rs i l.1)
  dropped-Local w q rs i late h l = l
  dropped-Local w q rs i (done _) h l = cc h
  dropped-Local w q rs i cancelled h l = cc h

  drop-Inv :
      (s : Calls C D order) (i : ℕ) (p : Pc)
      → Inv s
      → s.pc i ≡ p
      → holds_lock p ≡ true
      → (j : ℕ) → Local none (slot C D order s) s.served.sent j (update s.pc i cancelled j)
  drop-Inv s i p inv e h =
      let (w, u) = dropped-Local s.writer (slot C D order s) s.served.sent i p h (at s i inv e) in
      update-all (Local none (slot C D order s) s.served.sent) s.pc i cancelled u
        (λ j ne. others s i j inv w ne)

  routed-Inv :
      (s : Calls C D order) (m : EslMessage) (q : Option ℕ)
      → Inv s
      → slot C D order s ≡ q
      → (j : ℕ)
      → Local s.writer
          (route_reply C q m s.served).shared.pending_reply
          (route_reply C q m s.served).sent
          j
          (s.pc j)
  unfolding route_reply
  routed-Inv s m none inv e j = inv j
  routed-Inv s m (some k) inv e j =
      reply-Local s.writer k s.served.sent m j (s.pc j)
        (subst (λ x. Local s.writer x s.served.sent j (s.pc j)) e (inv j))

  Step-Inv : {s t : Calls C D order} → Step C D order s t → Inv s → Inv t
  unfolding register withdraw end_with
  Step-Inv {s} (refuses i command e h) inv =
      update-all (Local s.writer (slot C D order s) s.served.sent) s.pc i _
        (λ x. absurd ((at s i inv e).0 x)) (λ j _. inv j)
  Step-Inv {s} (checks i command e h) inv =
      update-all (Local s.writer (slot C D order s) s.served.sent) s.pc i _ (at s i inv e)
        (λ j _. inv j)
  Step-Inv {s} (locks i {text = text} e h) inv =
      let here = at s i inv e in
      update-all (Local (some i) (slot C D order s) s.served.sent) s.pc i (locked text)
        (refl, here.0, here.1)
        (λ j _.
          lock-Local (some i) (slot C D order s) s.served.sent j (s.pc j)
            (subst (λ x. Local x (slot C D order s) s.served.sent j (s.pc j)) h (inv j)))
  Step-Inv {s} (registers i {text = text} e) inv =
      let here = at s i inv e in
      update-all (Local s.writer (some i) s.served.sent) s.pc i (registered text)
        (here.0, inl (refl, here.2))
        (λ j ne.
          subst (λ x. Local x (some i) s.served.sent j (s.pc j)) (sym here.0)
            (register-Local i (slot C D order s) s.served.sent j (s.pc j) ne
              (subst (λ x. Local x (slot C D order s) s.served.sent j (s.pc j)) here.0 (inv j))))
  Step-Inv {s} (writes i e) inv =
      update-all (Local s.writer (slot C D order s) s.served.sent) s.pc i waiting (at s i inv e)
        (λ j _. inv j)
  Step-Inv {s} (write_fails i x e) inv =
      let here = at s i inv e in
      update-all (Local none (slot C D order s) s.served.sent) s.pc i _
        (unused (slot C D order s) s.served.sent i here.1) (λ j ne. others s i j inv here.0 ne)
  Step-Inv {s} (returns i m e h) inv =
      let here = at s i inv e in
      update-all (Local none (slot C D order s) s.served.sent) s.pc i _
        (unused (slot C D order s) s.served.sent i here.1) (λ j ne. others s i j inv here.0 ne)
  Step-Inv {s} (loses i e n h) inv =
      let here = at s i inv e in
      update-all (Local none (slot C D order s) s.served.sent) s.pc i _
        (unused (slot C D order s) s.served.sent i here.1) (λ j ne. others s i j inv here.0 ne)
  Step-Inv {s} (expires i e) inv =
      let here = at s i inv e in
      update-all (Local s.writer (slot C D order s) s.served.sent) s.pc i late
        (here.0, unused (slot C D order s) s.served.sent i here.1) (λ j _. inv j)
  Step-Inv {s} (withdraws i e) inv =
      let here = at s i inv e in
      update-all (Local none none s.served.sent) s.pc i _ (λ x. cc x)
        (λ j ne.
          withdraw-Local i (slot C D order s) s.served.sent j (s.pc j) ne
            (subst (λ x. Local x (slot C D order s) s.served.sent j (s.pc j)) here.0 (inv j)))
  Step-Inv {s} (drops_before i e) inv =
      let here = at s i inv e in
      update-all (Local s.writer (slot C D order s) s.served.sent) s.pc i cancelled
        (λ x. absurd (here.0 x)) (λ j _. inv j)
  Step-Inv {s} (drops i {p = p} e h) inv = drop-Inv s i p inv e h
  Step-Inv {s} (drops_written i {text = text} e) inv = drop-Inv s i (registered text) inv e refl
  Step-Inv {s} (replies m y less) inv = λ j.
      subst (λ x. Local s.writer x.shared.pending_reply x.sent j (s.pc j))
        (sym (handle-reply C D s.served m y)) (routed-Inv s m (slot C D order s) inv refl j)
  Step-Inv {s} (handles m n) inv = λ j.
      let (a, b) = handle-slot C D s.served m n in
      subst (λ x. Local s.writer x (handle C D s.served m).0.sent j (s.pc j)) (sym a)
        (subst (λ x. Local s.writer (slot C D order s) x j (s.pc j)) (sym b) (inv j))
  Step-Inv {s} (ends reason) inv = inv

  pub Reach-Inv :
      {s₀ : Served C} {s : Calls C D order}
      → s₀.shared.pending_reply ≡ none
      → s₀.sent ≡ []
      → Reach C D order s₀ s
      → Inv s
  Reach-Inv e f starts = λ j. ((λ x. cc (sym e ∙ x)), ap (λ rs. reply_to rs j) f)
  Reach-Inv e f (later r st) = Step-Inv st (Reach-Inv e f r)

  -- However calls and the reader task interleave on a new connection, and even once that task has
  -- ended: a call that waits has its sender in the slot or its reply in hand. So its wait ends with
  -- the reply or because its time is up, never because the sender was dropped.
  pub Reach-Attends :
      {s₀ : Served C} {s : Calls C D order}
      → s₀.shared.pending_reply ≡ none
      → s₀.sent ≡ []
      → Reach C D order s₀ s
      → (i : ℕ) → s.pc i ≡ waiting
      → (s.writer ≡ some i) × Attends (slot C D order s) s.served.sent i
  Reach-Attends {s = s} e f r i w = at s i (Reach-Inv e f r) w
