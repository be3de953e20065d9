-- ===== src/Connection/Phase.antt =====
-- How far the replies are behind the commands written in src/connection.rs, as long as no call runs
-- out of time or fails to write, and how the steps of calls and of the reader task change it.
use native.Mathlib.Decide.{ℕ_discrete}
use mathlib.Core.Logic.{ite}
use freeswitch_esl_rs.Prelude.{
  length, ℕ, ◌+◌, ◌<◌, ◌≡◌, refl, sym, ap, ◌∙◌, subst, ◌≢◌, inl, inr, false, Option, none, some,
  List, [], ◌∷◌, ◌++◌, arith, Bytes,
}
use freeswitch_esl_rs.Error.{EslResult}
use freeswitch_esl_rs.Headers.{Headers}
use freeswitch_esl_rs.Protocol.{EslMessage}
use freeswitch_esl_rs.Command.Response.{EslResponse}
use freeswitch_esl_rs.Connection.{MpscChannel}
use freeswitch_esl_rs.Connection.Reader.{Decoders, route_reply, handle}
use freeswitch_esl_rs.Connection.Calls.{
  done, Pc, locked, registered, waiting, late, update, is_reply, reply_to, Calls, slot,
}
use freeswitch_esl_rs.Connection.Slot.{Attends}
use freeswitch_esl_rs.Connection.Routing.{handle-slot}
use freeswitch_esl_rs.Connection.Attended.{Inv, at}

-- The calls that replies were sent to.
abbrev pub callers : List (ℕ × EslMessage) → List ℕ
callers [] = []
callers ((i, m) ∷ rs) = i ∷ callers rs

callers-append :
    (rs : List (ℕ × EslMessage)) (i : ℕ) (m : EslMessage)
    → callers (rs ++ (i, m) ∷ []) ≡ callers rs ++ i ∷ []
callers-append [] i m = refl
callers-append ((j, n) ∷ rs) i m = ap (λ l. j ∷ l) (callers-append rs i m)

length-callers :
    (rs : List (ℕ × EslMessage)) (i : ℕ) (m : EslMessage)
    → length (callers (rs ++ (i, m) ∷ [])) ≡ length (callers rs) + 1
length-callers [] i m = refl
length-callers ((j, n) ∷ rs) i m = let e = length-callers rs i m in ground arith

-- The other calls, and this one.
update-other :
    (pc : ℕ → Pc) (i j : ℕ) (p q : Pc)
    → pc i ≡ p
    → pc j ≡ q
    → p ≢ q
    → (r : Pc) → update pc i r j ≡ q
update-other pc i j p q e f ne r = elim (ℕ_discrete i j) as (λ d. ite d r (pc j) ≡ q) [
  | yes same ↦ absurd (ne (sym e ∙ ap pc same ∙ f))
  | no n ↦ f
]

pub update_self : (pc : ℕ → Pc) (i : ℕ) (r : Pc) → update pc i r i ≡ r
update_self pc i r = elim (ℕ_discrete i i) as (λ d. ite d r (pc i) ≡ r) [
  | yes same ↦ refl
  | no n ↦ absurd (n refl)
]

-- No call has registered its sender without having written its command.
abbrev NoneReady : (ℕ → Pc) → Type 0
NoneReady pc = (i : ℕ) (text : Bytes) → pc i ≢ registered text

-- What is so of the slot, of the replies sent to callers and of the commands written: all are
-- answered; or they are, and the next is about to be written; or the last is not.
pub data Phase (q : Option ℕ) (rs : List (ℕ × EslMessage)) (written : List ℕ) (pc : ℕ → Pc)
    : Type 0 where
  settled : q ≡ none → callers rs ≡ written → NoneReady pc → Phase q rs written pc
  ready :
      (i : ℕ) (text : Bytes)
      → q ≡ some i
      → callers rs ≡ written
      → pc i ≡ registered text
      → Phase q rs written pc
  awaits :
      (i : ℕ) → q ≡ some i → callers rs ++ i ∷ [] ≡ written → pc i ≡ waiting → Phase q rs written pc

NoneReady-update :
    (pc : ℕ → Pc) (i : ℕ) (p : Pc)
    → NoneReady pc
    → ((text : Bytes) → p ≢ registered text)
    → NoneReady (update pc i p)
NoneReady-update pc i p none_ready ne j text =
    elim (ℕ_discrete i j) as (λ d. ite d p (pc j) ≢ registered text) [
      | yes same ↦ ne text
      | no n ↦ none_ready j text
    ]

-- A call that is neither registered nor waiting moves on, and does not register.
pub moves :
    {q : Option ℕ} {rs : List (ℕ × EslMessage)} {written : List ℕ} {pc : ℕ → Pc} (i : ℕ) (p p' : Pc)
    → pc i ≡ p
    → ((text : Bytes) → p ≢ registered text)
    → p ≢ waiting
    → ((text : Bytes) → p' ≢ registered text)
    → Phase q rs written pc
    → Phase q rs written (update pc i p')
moves {pc = pc} i p p' e nr nw nr' (settled x y z) = settled x y (NoneReady-update pc i p' z nr')
moves {pc = pc} i p p' e nr nw nr' (ready j text x y z) =
    ready j text x y (update-other pc i j p (registered text) e z (nr text) p')
moves {pc = pc} i p p' e nr nw nr' (awaits j x y z) =
    awaits j x y (update-other pc i j p waiting e z nw p')

module _ (C : MpscChannel) (D : Decoders) (order : Headers → Headers) where
  -- Every reply that came was sent to a caller, and the phase.
  abbrev pub Ordered : Calls C D order → Type 0
  Ordered s =
      (s.answered ≡ length (callers s.served.sent))
      × Phase (slot C D order s) s.served.sent s.written s.pc

  -- Two calls do not hold the lock.
  only : {w : Option ℕ} (i j : ℕ) → w ≡ some i → w ≡ some j → i ≡ j
  only i j e f = cc (sym e ∙ f)

  -- While another call holds the lock, none is registered.
  no_ready :
      (s : Calls C D order) (i : ℕ)
      → Inv C D order s
      → s.writer ≡ some i
      → ((text : Bytes) → s.pc i ≢ registered text)
      → NoneReady s.pc
  no_ready s i inv w ne j text e = ne text (ap s.pc (only i j w (at C D order s j inv e).0) ∙ e)

  pub registers-Phase :
      (s : Calls C D order) (i : ℕ) (text : Bytes)
      → Inv C D order s
      → s.pc i ≡ locked text
      → Phase (slot C D order s) s.served.sent s.written s.pc
      → Phase (some i) s.served.sent s.written (update s.pc i (registered text))
  registers-Phase s i text inv e (settled x y z) =
      ready i text refl y (update_self s.pc i (registered text))
  registers-Phase s i text inv e (ready j old x y z) =
      let same = only i j (at C D order s i inv e).0 (at C D order s j inv z).0 in
      cc (sym e ∙ ap s.pc same ∙ z)
  registers-Phase s i text inv e (awaits j x y z) =
      let same = only i j (at C D order s i inv e).0 (at C D order s j inv z).0 in
      cc (sym e ∙ ap s.pc same ∙ z)

  pub writes-Phase :
      (s : Calls C D order) (i : ℕ) (text : Bytes)
      → Inv C D order s
      → s.pc i ≡ registered text
      → Phase (slot C D order s) s.served.sent s.written s.pc
      → Phase (slot C D order s) s.served.sent (s.written ++ i ∷ []) (update s.pc i waiting)
  writes-Phase s i text inv e (settled x y z) = absurd (z i text e)
  writes-Phase s i text inv e (ready j old x y z) =
      let same = only j i (at C D order s j inv z).0 (at C D order s i inv e).0 in
      awaits i (x ∙ ap some same) (ap (λ l. l ++ i ∷ []) y) (update_self s.pc i waiting)
  writes-Phase s i text inv e (awaits j x y z) =
      let same = only i j (at C D order s i inv e).0 (at C D order s j inv z).0 in
      cc (sym e ∙ ap s.pc same ∙ z)

  -- A wait ends, once the slot does not hold the sender of the call.
  pub returns-Phase :
      (s : Calls C D order) (i : ℕ) (r : EslResult EslResponse)
      → Inv C D order s
      → s.pc i ≡ waiting
      → slot C D order s ≢ some i
      → Phase (slot C D order s) s.served.sent s.written s.pc
      → Phase (slot C D order s) s.served.sent s.written (update s.pc i (done r))
  returns-Phase s i r inv e ne (settled x y z) =
      settled x y (NoneReady-update s.pc i (done r) z (λ text f. cc f))
  returns-Phase s i r inv e ne (ready j text x y z) =
      let same = only i j (at C D order s i inv e).0 (at C D order s j inv z).0 in
      cc (sym e ∙ ap s.pc same ∙ z)
  returns-Phase s i r inv e ne (awaits j x y z) =
      let same = only i j (at C D order s i inv e).0 (at C D order s j inv z).0 in
      absurd (ne (x ∙ ap some (sym same)))

  pub withdraws-Phase :
      (s : Calls C D order) (i : ℕ) (r : EslResult EslResponse)
      → Inv C D order s
      → s.pc i ≡ late
      → Phase (slot C D order s) s.served.sent s.written s.pc
      → Phase none s.served.sent s.written (update s.pc i (done r))
  withdraws-Phase s i r inv e (settled x y z) =
      settled refl y (NoneReady-update s.pc i (done r) z (λ text f. cc f))
  withdraws-Phase s i r inv e (ready j text x y z) =
      let same = only i j (at C D order s i inv e).0 (at C D order s j inv z).0 in
      cc (sym e ∙ ap s.pc same ∙ z)
  withdraws-Phase s i r inv e (awaits j x y z) =
      let same = only i j (at C D order s i inv e).0 (at C D order s j inv z).0 in
      cc (sym e ∙ ap s.pc same ∙ z)

  -- The reply that a waiting call has in hand has emptied the slot.
  pub in_hand :
      (q : Option ℕ) (rs : List (ℕ × EslMessage)) (i : ℕ) (m : EslMessage)
      → Attends q rs i
      → reply_to rs i ≡ some m
      → q ≢ some i
  in_hand q rs i m (inl (e, u)) h f = cc (sym u ∙ h)
  in_hand q rs i m (inr (ne, n, e)) h f = ne f

  -- There is a reply to come, and it goes to the call that waits.
  pub replies-Ordered :
      (s : Calls C D order) (m : EslMessage)
      → Inv C D order s
      → s.answered < length s.written
      → Ordered s
      → (n : ℕ) → n ≡ s.answered + 1
      → (n ≡ length (callers (route_reply C (slot C D order s) m s.served).sent))
        × Phase
            (route_reply C (slot C D order s) m s.served).shared.pending_reply
            (route_reply C (slot C D order s) m s.served).sent
            s.written
            s.pc
  unfolding route_reply
  replies-Ordered s m inv less (a, settled x y z) n e =
      let l = ap length y in absurd (ground (arith, a, l, less))
  replies-Ordered s m inv less (a, ready i text x y z) n e =
      let l = ap length y in absurd (ground (arith, a, l, less))
  replies-Ordered s m inv less (a, awaits i x y z) n e =
      let here = at C D order s i inv z in
      rw x (
        e ∙ ap (λ k. k + 1) a ∙ sym (length-callers s.served.sent i m),
        settled refl (callers-append s.served.sent i m ∙ y)
            (no_ready s i inv here.0 (λ text f. cc (sym z ∙ f))),
      )

  pub handles-Phase :
      (s : Calls C D order) (m : EslMessage)
      → is_reply m.message_type ≡ false
      → Ordered s
      → (s.answered ≡ length (callers (handle C D s.served m).0.sent))
        × Phase
            (handle C D s.served m).0.shared.pending_reply
            (handle C D s.served m).0.sent
            s.written
            s.pc
  handles-Phase s m n (a, p) =
      let (e, f) = handle-slot C D s.served m n in
      (
        subst (λ x. s.answered ≡ length (callers x)) (sym f) a,
        subst (λ x. Phase x (handle C D s.served m).0.sent s.written s.pc) (sym e)
            (subst (λ x. Phase (slot C D order s) x s.written s.pc) (sym f) p),
      )
