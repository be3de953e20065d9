-- ===== src/Connection/Slot.antt =====
-- What is so of one call of `send_command` in src/connection.rs, and how the steps of the others and
-- of the reader task leave it so.
use native.Mathlib.Decide.{ℕ_discrete}
use mathlib.Core.Logic.{ite}
use freeswitch_esl_rs.Prelude.{
  ◌==◌, if◌then◌else◌, Bool-cases, ℕ, ◌≡◌, refl, sym, ap, ◌∙◌, subst, ◌≢◌, ◌⊎◌, inl, inr, true,
  false, Option, none, some, List, [], ◌∷◌, ◌++◌, arith,
}
use freeswitch_esl_rs.Protocol.{EslMessage}
use freeswitch_esl_rs.Connection.Calls.{
  done, Pc, idle, checked, locked, registered, waiting, late, cancelled, update, reply_to,
}

abbrev pub Unused : List (ℕ × EslMessage) → ℕ → Type 0
Unused rs i = reply_to rs i ≡ none

-- The sender of a call is in the slot and unused, or it was used and is not in the slot.
abbrev pub Attends : Option ℕ → List (ℕ × EslMessage) → ℕ → Type 0
Attends q rs i =
    ((q ≡ some i) × Unused rs i) ⊎ ((q ≢ some i) × (m : EslMessage) × (reply_to rs i ≡ some m))

-- What is so of a call, by where it stands.
abbrev pub Local : Option ℕ → Option ℕ → List (ℕ × EslMessage) → ℕ → Pc → Type 0
Local writer q rs i idle = (q ≢ some i) × Unused rs i
Local writer q rs i (checked _) = (q ≢ some i) × Unused rs i
Local writer q rs i (locked _) = (writer ≡ some i) × (q ≢ some i) × Unused rs i
Local writer q rs i (registered _) = (writer ≡ some i) × Attends q rs i
Local writer q rs i waiting = (writer ≡ some i) × Attends q rs i
Local writer q rs i late = (writer ≡ some i) × (q ≡ some i → Unused rs i)
Local writer q rs i (done _) = q ≡ some i → Unused rs i
Local writer q rs i cancelled = q ≡ some i → Unused rs i

-- The calls but one are left where they were.
pub update-all {ℓ} :
    (Q : ℕ → Pc → Type ℓ) (pc : ℕ → Pc) (i : ℕ) (p : Pc)
    → Q i p
    → ((j : ℕ) → i ≢ j → Q j (pc j))
    → (j : ℕ) → Q j (update pc i p j)
update-all Q pc i p here there j = elim (ℕ_discrete i j) as (λ d. Q j (ite d p (pc j))) [
  | yes e ↦ subst (λ k. Q k p) e here
  | no n ↦ there j n
]

-- The lock is free and is taken by another call, or is given back by one.
pub lock-Local :
    (w : Option ℕ) (q : Option ℕ) (rs : List (ℕ × EslMessage)) (j : ℕ) (p : Pc)
    → Local none q rs j p
    → Local w q rs j p
lock-Local w q rs j idle h = h
lock-Local w q rs j (checked _) h = h
lock-Local w q rs j (locked _) h = cc
lock-Local w q rs j (registered _) h = cc
lock-Local w q rs j waiting h = cc
lock-Local w q rs j late h = cc
lock-Local w q rs j (done _) h = h
lock-Local w q rs j cancelled h = h

pub unlock-Local :
    (i : ℕ) (q : Option ℕ) (rs : List (ℕ × EslMessage)) (j : ℕ) (p : Pc)
    → i ≢ j
    → Local (some i) q rs j p
    → Local none q rs j p
unlock-Local i q rs j idle ne h = h
unlock-Local i q rs j (checked _) ne h = h
unlock-Local i q rs j (locked _) ne h = absurd (ne (cc h.0))
unlock-Local i q rs j (registered _) ne h = absurd (ne (cc h.0))
unlock-Local i q rs j waiting ne h = absurd (ne (cc h.0))
unlock-Local i q rs j late ne h = absurd (ne (cc h.0))
unlock-Local i q rs j (done _) ne h = h
unlock-Local i q rs j cancelled ne h = h

-- Another call's sender is put into the slot by the call that holds the lock.
pub register-Local :
    (i : ℕ) (q : Option ℕ) (rs : List (ℕ × EslMessage)) (j : ℕ) (p : Pc)
    → i ≢ j
    → Local (some i) q rs j p
    → Local (some i) (some i) rs j p
register-Local i q rs j idle ne h = ((λ e. ne (cc e)), h.1)
register-Local i q rs j (checked _) ne h = ((λ e. ne (cc e)), h.1)
register-Local i q rs j (locked _) ne h = absurd (ne (cc h.0))
register-Local i q rs j (registered _) ne h = absurd (ne (cc h.0))
register-Local i q rs j waiting ne h = absurd (ne (cc h.0))
register-Local i q rs j late ne h = absurd (ne (cc h.0))
register-Local i q rs j (done _) ne h = (λ e. absurd (ne (cc e)))
register-Local i q rs j cancelled ne h = (λ e. absurd (ne (cc e)))

-- The slot is emptied by the call that holds the lock and returns.
pub withdraw-Local :
    (i : ℕ) (q : Option ℕ) (rs : List (ℕ × EslMessage)) (j : ℕ) (p : Pc)
    → i ≢ j
    → Local (some i) q rs j p
    → Local none none rs j p
withdraw-Local i q rs j idle ne h = ((λ e. cc e), h.1)
withdraw-Local i q rs j (checked _) ne h = ((λ e. cc e), h.1)
withdraw-Local i q rs j (locked _) ne h = absurd (ne (cc h.0))
withdraw-Local i q rs j (registered _) ne h = absurd (ne (cc h.0))
withdraw-Local i q rs j waiting ne h = absurd (ne (cc h.0))
withdraw-Local i q rs j late ne h = absurd (ne (cc h.0))
withdraw-Local i q rs j (done _) ne h = (λ e. cc e)
withdraw-Local i q rs j cancelled ne h = (λ e. cc e)

reply_to-append :
    (rs : List (ℕ × EslMessage)) (k : ℕ) (m : EslMessage) (j : ℕ)
    → reply_to (rs ++ (k, m) ∷ []) j
      ≡ elim (reply_to rs j) [ some n ↦ some n | none ↦ (if k == j then some m else none) ]
reply_to-append [] k m j = refl
reply_to-append ((i, n) ∷ rs) k m j = elim (Bool-cases (i == j)) [
  | inl y ↦ rw y refl
  | inr z ↦ rw z (reply_to-append rs k m j)
]

-- A reply does not change whether another call's sender is used.
append-Unused :
    (rs : List (ℕ × EslMessage)) (k : ℕ) (m : EslMessage) (j : ℕ)
    → k ≢ j
    → Unused rs j
    → Unused (rs ++ (k, m) ∷ []) j
append-Unused rs k m j ne h =
    let n : (k == j) ≡ false = ground (arith, ne) in reply_to-append rs k m j ∙ rw (h, n) refl

pub append-used :
    (rs : List (ℕ × EslMessage)) (k : ℕ) (m n : EslMessage) (j : ℕ)
    → reply_to rs j ≡ some n
    → reply_to (rs ++ (k, m) ∷ []) j ≡ some n
append-used rs k m n j h = reply_to-append rs k m j ∙ rw h refl

pub append_self :
    (rs : List (ℕ × EslMessage)) (k : ℕ) (m : EslMessage)
    → Unused rs k
    → reply_to (rs ++ (k, m) ∷ []) k ≡ some m
append_self rs k m h =
    let y : (k == k) ≡ true = ground arith in reply_to-append rs k m k ∙ rw (h, y) refl

module _ (w : Option ℕ) (k : ℕ) (rs : List (ℕ × EslMessage)) (m : EslMessage) where
  apart : (j : ℕ) → some k ≢ some j → k ≢ j
  apart j ne e = ne (ap some e)

  reply-Attends : (j : ℕ) → Attends (some k) rs j → Attends none (rs ++ (k, m) ∷ []) j
  reply-Attends j (inl (e, u)) =
      let same : k ≡ j = cc e in
      inr (
        (λ x. cc x),
        m,
        subst (λ i. reply_to (rs ++ (k, m) ∷ []) i ≡ some m) same
            (append_self rs k m (subst (Unused rs) (sym same) u)),
      )
  reply-Attends j (inr (ne, n, h)) = inr ((λ x. cc x), n, append-used rs k m n j h)

  -- The sender in the slot is used.
  pub reply-Local :
      (j : ℕ) (p : Pc) → Local w (some k) rs j p → Local w none (rs ++ (k, m) ∷ []) j p
  reply-Local j idle h = ((λ x. cc x), append-Unused rs k m j (apart j h.0) h.1)
  reply-Local j (checked _) h = ((λ x. cc x), append-Unused rs k m j (apart j h.0) h.1)
  reply-Local j (locked _) h = (h.0, (λ x. cc x), append-Unused rs k m j (apart j h.1) h.2)
  reply-Local j (registered _) h = (h.0, reply-Attends j h.1)
  reply-Local j waiting h = (h.0, reply-Attends j h.1)
  reply-Local j late h = (h.0, (λ x. cc x))
  reply-Local j (done _) h = (λ x. cc x)
  reply-Local j cancelled h = (λ x. cc x)
