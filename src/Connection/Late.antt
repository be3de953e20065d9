-- ===== src/Connection/Late.antt =====
-- What a reply that comes too late does in src/connection.rs: it goes to the next command.
use freeswitch_esl_rs.Prelude.{
  length, ok, err, ℕ, ◌+◌, ◌<◌, ◌≡◌, refl, sym, ◌∙◌, subst, inl, inr, true, Option, none, some, [],
  ◌∷◌, ◌++◌, Bytes,
}
use native.Mathlib.Decide.{ℕ_discrete}
use mathlib.Core.Logic.{ite}
use freeswitch_esl_rs.Headers.{Headers}
use freeswitch_esl_rs.Protocol.{EslMessage}
use freeswitch_esl_rs.Command.Response.{EslResponse}
use freeswitch_esl_rs.Connection.{MpscChannel}
use freeswitch_esl_rs.Connection.Reader.{Decoders, Served, end_with, route_reply, handle}
use freeswitch_esl_rs.Connection.Client.{into_response, register, withdraw, reply_result}
use freeswitch_esl_rs.Connection.Calls.{
  returns, done, Pc, idle, checked, locked, registered, waiting, late, cancelled, update, is_reply,
  reply_to, Calls, slot, Step, refuses, checks, locks, registers, writes, write_fails, loses,
  expires, withdraws, drops_before, drops, drops_written, replies, handles, ends, Reach,
}
use freeswitch_esl_rs.Connection.Slot.{Attends, append_self, append-used}
use freeswitch_esl_rs.Connection.Routing.{handle-slot, handle-reply}
use freeswitch_esl_rs.Connection.Attended.{at, Reach-Inv}
use freeswitch_esl_rs.Connection.Phase.{update_self}

module _ (C : MpscChannel) (D : Decoders) (order : Headers → Headers) where
  -- The steps that follow a state.
  pub data Steps (s : Calls C D order) : Calls C D order → Type 0 where
    here : Steps s s
    next : {t u : Calls C D order} → Steps s t → Step C D order t u → Steps s u

  -- The state once the reader task has handled a reply.
  abbrev pub after_reply : Calls C D order → EslMessage → Calls C D order
  after_reply s m = record s { served = (handle C D s.served m).0; answered = s.answered + 1 }

  -- A call that has registered, and that returns no response but that of `m`.
  abbrev Returns : EslMessage → Pc → Type 0
  Returns m idle = ⊥
  Returns m (checked _) = ⊥
  Returns m (locked _) = ⊥
  Returns m (registered _) = Unit
  Returns m waiting = Unit
  Returns m late = Unit
  Returns m cancelled = Unit
  Returns m (done (ok r)) = r ≡ into_response m
  Returns m (done (err e)) = Unit

  abbrev Owns : ℕ → EslMessage → Calls C D order → Type 0
  Owns j m s = (reply_to s.served.sent j ≡ some m) × Returns m (s.pc j)

  moved :
      (m : EslMessage) (pc : ℕ → Pc) (i j : ℕ) {q : Pc} (p : Pc)
      → pc i ≡ q
      → Returns m (pc j)
      → (i ≡ j → Returns m q → Returns m p)
      → Returns m (update pc i p j)
  moved m pc i j p e h f = elim (ℕ_discrete i j) as (λ d. Returns m (ite d p (pc j))) [
    | yes same ↦ f same (subst (Returns m) e (subst (λ k. Returns m (pc k)) (sym same) h))
    | no n ↦ h
  ]

  routed-used :
      (s : Served C) (q : Option ℕ) (n m : EslMessage) (j : ℕ)
      → reply_to s.sent j ≡ some m
      → reply_to (route_reply C q n s).sent j ≡ some m
  unfolding route_reply
  routed-used s none n m j h = h
  routed-used s (some k) n m j h = append-used s.sent k n m j h

  Step-Owns :
      (j : ℕ) (m : EslMessage) {s t : Calls C D order}
      → Step C D order s t
      → Owns j m s
      → Owns j m t
  unfolding register withdraw end_with reply_result
  Step-Owns j m {s} (refuses i command e h) (u, o) = (u, moved m s.pc i j _ e o (λ _ x. absurd x))
  Step-Owns j m {s} (checks i command e h) (u, o) = (u, moved m s.pc i j _ e o (λ _ x. absurd x))
  Step-Owns j m {s} (locks i e h) (u, o) = (u, moved m s.pc i j _ e o (λ _ x. absurd x))
  Step-Owns j m {s} (registers i e) (u, o) = (u, moved m s.pc i j _ e o (λ _ x. absurd x))
  Step-Owns j m {s} (writes i e) (u, o) = (u, moved m s.pc i j _ e o (λ _ x. tt))
  Step-Owns j m {s} (write_fails i x e) (u, o) = (u, moved m s.pc i j _ e o (λ _ x. tt))
  Step-Owns j m {s} (returns i n e h) (u, o) = (
    u,
    moved m s.pc i j (done (ok (into_response n))) e o
        (λ same _. cc (sym h ∙ (λ k. reply_to s.served.sent (same k)) ∙ u)),
  )
  Step-Owns j m {s} (loses i e n h) (u, o) = (u, moved m s.pc i j _ e o (λ _ x. tt))
  Step-Owns j m {s} (expires i e) (u, o) = (u, moved m s.pc i j _ e o (λ _ x. tt))
  Step-Owns j m {s} (withdraws i e) (u, o) = (u, moved m s.pc i j _ e o (λ _ x. tt))
  Step-Owns j m {s} (drops_before i e) (u, o) = (u, moved m s.pc i j _ e o (λ _ x. tt))
  Step-Owns j m {s} (drops i e h) (u, o) = (u, moved m s.pc i j _ e o (λ _ x. tt))
  Step-Owns j m {s} (drops_written i e) (u, o) = (u, moved m s.pc i j _ e o (λ _ x. tt))
  Step-Owns j m {s} (replies n y less) (u, o) = (
    subst (λ x. reply_to x.sent j ≡ some m) (sym (handle-reply C D s.served n y))
        (routed-used s.served (slot C D order s) n m j u),
    o,
  )
  Step-Owns j m {s} (handles n y) (u, o) =
      (subst (λ x. reply_to x j ≡ some m) (sym (handle-slot C D s.served n y).1) u, o)
  Step-Owns j m {s} (ends reason) (u, o) = (u, o)

  Steps-Owns :
      (j : ℕ) (m : EslMessage) {s t : Calls C D order} → Steps s t → Owns j m s → Owns j m t
  Steps-Owns j m here o = o
  Steps-Owns j m (next r st) o = Step-Owns j m st (Steps-Owns j m r o)

  -- The reply comes when this call's sender is in the slot.
  routed_self :
      (s : Served C) (j : ℕ) (m : EslMessage)
      → is_reply m.message_type ≡ true
      → s.shared.pending_reply ≡ some j
      → Attends (s.shared.pending_reply) s.sent j
      → reply_to (handle C D s m).0.sent j ≡ some m
  unfolding route_reply
  routed_self s j m y e (inl (same, u)) =
      subst (λ x. reply_to x.sent j ≡ some m) (sym (handle-reply C D s m y))
        (rw e (append_self s.sent j m u))
  routed_self s j m y e (inr (ne, n, u)) = absurd (ne e)

  -- On a connection that was new at first, a call has registered its sender in the slot and has not
  -- written its command yet, while a command written earlier has no reply. Then that reply may come.
  -- Once it has, whatever steps follow, the only response that the call returns is this reply to the
  -- earlier command; and there are steps by which the call writes its command and returns it.
  pub Reach-late :
      {s₀ : Served C} {s : Calls C D order}
      → s₀.shared.pending_reply ≡ none
      → s₀.sent ≡ []
      → Reach C D order s₀ s
      → (j : ℕ) (text : Bytes) (m : EslMessage) → s.pc j ≡ registered text
      → slot C D order s ≡ some j
      → s.answered < length s.written
      → is_reply m.message_type ≡ true
      → Step C D order s (after_reply s m)
        × ((t : Calls C D order) (r : EslResponse)
            → Steps (after_reply s m) t
            → t.pc j ≡ done (ok r)
            → r ≡ into_response m)
        × ((t : Calls C D order) × Steps (after_reply s m) t
            × (t.written ≡ s.written ++ j ∷ [])
            × (t.pc j ≡ done (ok (into_response m))))
  unfolding reply_result
  Reach-late {s = s} e f r j text m p q less y =
      let used : reply_to (handle C D s.served m).0.sent j ≡ some m =
        routed_self s.served j m y q (at C D order s j (Reach-Inv C D order e f r) p).1 in
      let owns : Owns j m (after_reply s m) = (used, subst (Returns m) (sym p) tt) in
      (
        replies m y less,
        (λ t r run d. subst (Returns m) d (Steps-Owns j m run owns).1),
        (
          _,
          next (next here (writes j p)) (returns j m (update_self s.pc j waiting) used),
          refl,
          update_self (update s.pc j waiting) j (done (ok (into_response m))),
        ),
      )
