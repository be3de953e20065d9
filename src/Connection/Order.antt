-- ===== src/Connection/Order.antt =====
-- The order of replies in src/connection.rs: as long as no call runs out of time, fails to write or is
-- dropped, each reply goes to the call whose command it answers.
use freeswitch_esl_rs.Prelude.{
  length, err, ℕ, ◌+◌, ◌≡◌, refl, sym, ap, subst, ◌⊎◌, inl, inr, false, Option, none, some, List,
  [], ◌∷◌, ◌++◌,
}
use freeswitch_esl_rs.Headers.{Headers}
use freeswitch_esl_rs.Protocol.{EslMessage}
use freeswitch_esl_rs.Connection.{MpscChannel}
use freeswitch_esl_rs.Connection.Reader.{Decoders, Served, end_with}
use freeswitch_esl_rs.Connection.Client.{register, withdraw}
use freeswitch_esl_rs.Connection.Calls.{
  returns, done, Pc, idle, checked, locked, waiting, cancelled, Calls, slot, Step, refuses, checks,
  locks, registers, writes, write_fails, loses, expires, withdraws, drops_before, drops,
  drops_written, replies, handles, ends, Reach, starts, later,
}
use freeswitch_esl_rs.Connection.Routing.{handle-reply}
use freeswitch_esl_rs.Connection.Attended.{Inv, at, Reach-Inv}
use freeswitch_esl_rs.Connection.Phase.{
  settled, callers, Phase, ready, awaits, moves, Ordered, registers-Phase, writes-Phase,
  returns-Phase, withdraws-Phase, in_hand, replies-Ordered, handles-Phase,
}

module _ (C : MpscChannel) (D : Decoders) (order : Headers → Headers) where
  Step-Ordered :
      {s t : Calls C D order}
      → Step C D order s t
      → Inv C D order s
      → t.troubled ≡ false
      → Ordered C D order s
      → Ordered C D order t
  unfolding register withdraw end_with
  Step-Ordered {s} (refuses i command {e = x} e h) inv calm (a, p) =
      (a, moves i idle (done (err x)) e (λ t f. cc f) (λ f. cc f) (λ t f. cc f) p)
  Step-Ordered {s} (checks i command {text = text} e h) inv calm (a, p) =
      (a, moves i idle (checked text) e (λ t f. cc f) (λ f. cc f) (λ t f. cc f) p)
  Step-Ordered {s} (locks i {text = text} e h) inv calm (a, p) =
      (a, moves i (checked text) (locked text) e (λ t f. cc f) (λ f. cc f) (λ t f. cc f) p)
  Step-Ordered {s} (registers i {text = text} e) inv calm (a, p) =
      (a, registers-Phase C D order s i text inv e p)
  Step-Ordered {s} (writes i {text = text} e) inv calm (a, p) =
      (a, writes-Phase C D order s i text inv e p)
  Step-Ordered {s} (write_fails i x e) inv calm (a, p) = cc calm
  Step-Ordered {s} (returns i m e h) inv calm (a, p) =
      let here = at C D order s i inv e in
      (
        a,
        returns-Phase C D order s i _ inv e
            (in_hand C D order (slot C D order s) s.served.sent i m here.1 h) p,
      )
  Step-Ordered {s} (loses i e n h) inv calm (a, p) = (a, returns-Phase C D order s i _ inv e n p)
  Step-Ordered {s} (expires i e) inv calm (a, p) = cc calm
  Step-Ordered {s} (withdraws i e) inv calm (a, p) = (a, withdraws-Phase C D order s i _ inv e p)
  Step-Ordered {s} (drops_before i {text = text} e) inv calm (a, p) =
      (a, moves i (checked text) cancelled e (λ t f. cc f) (λ f. cc f) (λ t f. cc f) p)
  Step-Ordered {s} (drops i e h) inv calm (a, p) = cc calm
  Step-Ordered {s} (drops_written i e) inv calm (a, p) = cc calm
  Step-Ordered {s} (replies m y less) inv calm o =
      subst
        (λ x.
          (s.answered + 1 ≡ length (callers x.sent))
          × Phase x.shared.pending_reply x.sent s.written s.pc)
        (sym (handle-reply C D s.served m y))
        (replies-Ordered C D order s m inv less o (s.answered + 1) refl)
  Step-Ordered {s} (handles m n) inv calm o = handles-Phase C D order s m n o
  Step-Ordered {s} (ends reason) inv calm o = o

  -- A run that ends without trouble had none before.
  calm_before :
      {s t : Calls C D order} → Step C D order s t → t.troubled ≡ false → s.troubled ≡ false
  calm_before (refuses i command e h) calm = calm
  calm_before (checks i command e h) calm = calm
  calm_before (locks i e h) calm = calm
  calm_before (registers i e) calm = calm
  calm_before (writes i e) calm = calm
  calm_before (write_fails i x e) calm = cc calm
  calm_before (returns i m e h) calm = calm
  calm_before (loses i e n h) calm = calm
  calm_before (expires i e) calm = cc calm
  calm_before (withdraws i e) calm = calm
  calm_before (drops_before i e) calm = calm
  calm_before (drops i e h) calm = cc calm
  calm_before (drops_written i e) calm = cc calm
  calm_before (replies m y less) calm = calm
  calm_before (handles m n) calm = calm
  calm_before (ends reason) calm = calm

  Reach-Ordered :
      {s₀ : Served C} {s : Calls C D order}
      → s₀.shared.pending_reply ≡ none
      → s₀.sent ≡ []
      → Reach C D order s₀ s
      → s.troubled ≡ false
      → Ordered C D order s
  Reach-Ordered e f starts calm =
      (ap (λ rs. length (callers rs)) (sym f), settled e (ap callers f) (λ i text h. cc h))
  Reach-Ordered e f (later r st) calm =
      Step-Ordered st (Reach-Inv C D order e f r) calm (Reach-Ordered e f r (calm_before st calm))

  Phase-written :
      {q : Option ℕ} {rs : List (ℕ × EslMessage)} {written : List ℕ} {pc : ℕ → Pc}
      → Phase q rs written pc
      → (callers rs ≡ written)
        ⊎ ((i : ℕ) × (callers rs ++ i ∷ [] ≡ written) × (q ≡ some i) × (pc i ≡ waiting))
  Phase-written (settled x y z) = inl y
  Phase-written (ready i text x y z) = inl y
  Phase-written (awaits i x y z) = inr (i, y, x, z)

  -- However calls and the reader task interleave on a new connection, as long as no call has run
  -- out of time, failed to write, or been dropped while it held the lock: every reply that came was
  -- sent to a call, in the order in which their commands were written, and at most the last command
  -- written has no reply yet. Its call waits with its sender in the slot.
  pub Reach-answers :
      {s₀ : Served C} {s : Calls C D order}
      → s₀.shared.pending_reply ≡ none
      → s₀.sent ≡ []
      → Reach C D order s₀ s
      → s.troubled ≡ false
      → (s.answered ≡ length (callers s.served.sent))
        × ((callers s.served.sent ≡ s.written)
            ⊎ ((i : ℕ) × (callers s.served.sent ++ i ∷ [] ≡ s.written)
                × (slot C D order s ≡ some i)
                × (s.pc i ≡ waiting)))
  Reach-answers e f r calm = let (a, p) = Reach-Ordered e f r calm in (a, Phase-written p)
