-- ===== src/Connection/Overflow.antt =====
-- Events that the application does not take in time: what `dispatch_event` of src/connection.rs
-- keeps, counts and reports, with the receiver running beside it.
use freeswitch_esl_rs.Prelude.{
  length, length-append, err, ℕ, suc, ◌+◌, ◌%◌, ◌^◌, ◌≡◌, refl, sym, ap, ◌∙◌, subst, ◌⊎◌, inl, inr,
  Bool, true, false, List, [], ◌∷◌, ◌++◌, append_assoc, append-nil, arith,
}
use freeswitch_esl_rs.Error.{queue_full}
use freeswitch_esl_rs.Connection.{
  notify, Item, TrySend, sent, full, closed, MpscChannel, SharedState, notified, notify_if, tried,
  after_notice, dispatch_event,
}
use freeswitch_esl_rs.Connection.Queue.{
  Sends, Takes, IsFifo, is_notice, events_of, Told, Keeps, start, keep, skip, Runs, opens, notifies,
  tries, receives, Accounts,
}

events_of-append : (is js : List Item) → events_of (is ++ js) ≡ events_of is ++ events_of js
events_of-append [] js = refl
events_of-append (i ∷ is) js = ground (arith, events_of-append is js)

append-Told :
    (is stream : List Item) (i : Item)
    → is_notice i ≡ false
    → Told is stream
    → Told (is ++ i ∷ []) (stream ++ i ∷ [])
append-Told is stream i n (before, after, earlier, s, d) =
    let single : events_of (i ∷ []) ≡ i ∷ [] = rw n refl in
    let more : events_of (after ++ i ∷ []) ≡ events_of after ++ i ∷ [] =
      events_of-append after (i ∷ []) ∙ ap (λ l. events_of after ++ l) single in
    (
      before,
      after ++ i ∷ [],
      earlier,
      ap (λ l. l ++ i ∷ []) s ∙ append_assoc before (err queue_full ∷ after) (i ∷ []),
      ap (λ l. l ++ i ∷ []) d
          ∙ append_assoc earlier (events_of after) (i ∷ [])
          ∙ ap (λ l. earlier ++ l) (sym more),
    )

-- A notice at the end of the stream changes none of its events.
noticed-Accounts :
    (C : MpscChannel) (is stream : List Item) (s : SharedState) (k : ℕ)
    → Accounts C is stream s k
    → Accounts C is (stream ++ err queue_full ∷ []) (record s { event_overflow = false }) k
noticed-Accounts C is stream s k (keeps, count, dropped, told) =
    let e : events_of (stream ++ err queue_full ∷ []) ≡ events_of stream =
      events_of-append stream (err queue_full ∷ []) ∙ append-nil (events_of stream) in
    (
      subst (λ l. Keeps l is) (sym e) keeps,
      ap (λ l. length l + k) e ∙ count,
      dropped,
      inr (inr (stream, [], is, refl, sym (append-nil is))),
    )

-- An event at the end of the stream is one more event.
sent-Accounts :
    (C : MpscChannel) (is stream : List Item) (s : SharedState) (k : ℕ) (i : Item)
    → is_notice i ≡ false
    → Accounts C is stream s k
    → Accounts C (is ++ i ∷ []) (stream ++ i ∷ []) s k
sent-Accounts C is stream s k i n (keeps, count, dropped, told) =
    let told_after : (k ≡ 0)
        ⊎ ((s.event_overflow ≡ true) ⊎ Told (is ++ i ∷ []) (stream ++ i ∷ [])) =
      elim told [
        | inl z ↦ inl z
        | inr (inl o) ↦ inr (inl o)
        | inr (inr h) ↦ inr (inr (append-Told is stream i n h))
      ] in
    let single : events_of (i ∷ []) ≡ i ∷ [] = rw n refl in
    let e : events_of (stream ++ i ∷ []) ≡ events_of stream ++ i ∷ [] =
      events_of-append stream (i ∷ []) ∙ ap (λ l. events_of stream ++ l) single in
    (
      subst (λ l. Keeps l (is ++ i ∷ [])) (sym e) (keep i keeps),
      ap (λ l. length l + k) e
          ∙ omega
              (arith, count, length-append is (i ∷ []), length-append (events_of stream) (i ∷ [])),
      dropped,
      told_after,
    )

-- A lost event is counted, and the flag is set.
lost-Accounts :
    (C : MpscChannel) (is stream : List Item) (s : SharedState) (k : ℕ) (i : Item)
    → Accounts C is stream s k
    → Accounts C
        (is ++ i ∷ [])
        stream
        (record s {
          event_overflow = true;
          dropped_event_count = (s.dropped_event_count + 1) % 2 ^ 64;
        })
        (suc k)
lost-Accounts C is stream s k i (keeps, count, dropped, told) = (
  skip i keeps,
  omega (arith, count, length-append is (i ∷ [])),
  omega (arith, dropped),
  inr (inl refl),
)

module _ (C : MpscChannel) (is ts : List Item) (k : ℕ) where
  -- What is accounted for after a step that leaves the channel open.
  abbrev After : SharedState × C.Chan × Bool → Type 0
  After (s, c, open') = Accounts C is (ts ++ C.queue c) s k

  notified-Accounts :
      (s : SharedState) (c : C.Chan) (p : C.Chan × TrySend)
      → Sends C c (err queue_full) p
      → Accounts C is (ts ++ C.queue c) s k
      → After (notified C s p)
  unfolding notified
  notified-Accounts s c (c', sent) (_, q) h =
      subst (λ l. Accounts C is l (record s { event_overflow = false }) k)
        (append_assoc ts (C.queue c) (err queue_full ∷ []) ∙ ap (λ l. ts ++ l) (sym q))
        (noticed-Accounts C is (ts ++ C.queue c) s k h)
  notified-Accounts s c (c', full) (_, e) h =
      subst (λ d. Accounts C is (ts ++ C.queue d) s k) (sym e) h
  notified-Accounts s c (c', closed) (_, e) h =
      subst (λ d. Accounts C is (ts ++ C.queue d) s k) (sym e) h

  notify_if-Accounts :
      (b : Bool) (s : SharedState) (c : C.Chan)
      → IsFifo C
      → Accounts C is (ts ++ C.queue c) s k
      → After (notify_if C b s c)
  unfolding notify_if
  notify_if-Accounts true s c f h =
      notified-Accounts s c (C.try_send c (err queue_full)) (f.0 c (err queue_full)) h
  notify_if-Accounts false s c f h = h

  notify-Accounts :
      (s : SharedState) (c : C.Chan)
      → IsFifo C
      → Accounts C is (ts ++ C.queue c) s k
      → After (notify C s c)
  unfolding notify
  notify-Accounts s c f h = notify_if-Accounts s.event_overflow s c f h

-- The events that a run accounts for, with those that it has lost.
abbrev pub Accounted : (C : MpscChannel) → List Item → List Item → SharedState → C.Chan → Type 0
Accounted C is ts s c = (k : ℕ) × Accounts C is (ts ++ C.queue c) s k

module _ (C : MpscChannel) (is ts : List Item) (i : Item) where
  -- A trial that leaves the channel open accounts for one more item.
  abbrev Tried : SharedState × C.Chan × Bool → Type 0
  Tried (s, c, true) = Accounted C (is ++ i ∷ []) ts s c
  Tried (s, c, false) = Unit

  tried-Accounted :
      (s : SharedState) (c : C.Chan) (p : C.Chan × TrySend)
      → is_notice i ≡ false
      → Sends C c i p
      → Accounted C is ts s c
      → Tried (tried C s p)
  unfolding tried
  tried-Accounted s c (c', sent) n (_, q) (k, h) = (
    k,
    subst (λ l. Accounts C (is ++ i ∷ []) l s k)
        (append_assoc ts (C.queue c) (i ∷ []) ∙ ap (λ l. ts ++ l) (sym q))
        (sent-Accounts C is (ts ++ C.queue c) s k i n h),
  )
  tried-Accounted s c (c', full) n (_, e) (k, h) = (
    suc k,
    subst
        (λ d.
          Accounts C (is ++ i ∷ []) (ts ++ C.queue d)
            (record s {
              event_overflow = true;
              dropped_event_count = (s.dropped_event_count + 1) % 2 ^ 64;
            })
            (suc k))
        (sym e) (lost-Accounts C is (ts ++ C.queue c) s k i h),
  )
  tried-Accounted s c (c', closed) n _ _ = tt

-- Whatever the receiver does meanwhile, and between the two halves of `dispatch_event`, on a channel
-- that is empty at first and whose receiver is not gone: the events that the application takes and
-- has yet to take are those that were dispatched, in their order, less the lost ones; the counter is
-- the number of the lost ones, up to its 64 bits; and if any is lost, then the flag is set, or the
-- application takes or has yet to take a notice behind which no dispatched event is missing.
pub Runs-Accounted :
    (C : MpscChannel)
    → IsFifo C
    → (c₀ : C.Chan) → C.queue c₀ ≡ []
    → {is ts : List Item} {s : SharedState} {c : C.Chan} → Runs C c₀ is ts s c
    → Accounted C is ts s c
Runs-Accounted C f c₀ e (opens flag count) = (0, (rw e start, rw e refl, count, inl refl))
Runs-Accounted C f c₀ e (notifies {is = is} {ts = ts} {s = s} {c = c} r x) =
    let (k, h) = Runs-Accounted C f c₀ e r in
    (k, subst (After C is ts k) x (notify-Accounts C is ts k s c f h))
Runs-Accounted C f c₀ e (tries i {is = is} {ts = ts} {s = s} {c = c} r n x) =
    subst (Tried C is ts i) x
      (tried-Accounted C is ts i s c (C.try_send c i) n (f.0 c i) (Runs-Accounted C f c₀ e r))
Runs-Accounted C f c₀ e (receives i {is = is} {ts = ts} {s = s} {c = c} {c' = c'} r x) =
    let (k, h) = Runs-Accounted C f c₀ e r in
    let q : C.queue c ≡ i ∷ C.queue c' = subst (Takes C c) x (f.1 c) in
    (
      k,
      subst (λ l. Accounts C is l s k)
          (ap (λ l. ts ++ l) q ∙ sym (append_assoc ts (i ∷ []) (C.queue c'))) h,
    )

dispatched-Runs :
    (C : MpscChannel) (c₀ : C.Chan) (i : Item) {is ts : List Item} {s : SharedState} {c : C.Chan}
    (r : SharedState × C.Chan × Bool) {s' : SharedState} {c' : C.Chan}
    → Runs C c₀ is ts s c
    → is_notice i ≡ false
    → notify C s c ≡ r
    → after_notice C i r ≡ (s', c', true)
    → Runs C c₀ (is ++ i ∷ []) ts s' c'
unfolding after_notice
dispatched-Runs C c₀ i (s₁, c₁, true) run n e x = tries i (notifies run e) n x
dispatched-Runs C c₀ i (s₁, c₁, false) run n e x = cc

-- A call of `dispatch_event` that reports the channel open is a notification and a trial, so that
-- it continues a run by one dispatched item.
dispatch_event-Runs :
    (C : MpscChannel) (c₀ : C.Chan) (i : Item) {is ts : List Item} {s s' : SharedState}
    {c c' : C.Chan}
    → Runs C c₀ is ts s c
    → is_notice i ≡ false
    → dispatch_event C s c i ≡ (s', c', true)
    → Runs C c₀ (is ++ i ∷ []) ts s' c'
unfolding dispatch_event
dispatch_event-Runs C c₀ i {s = s} {c = c} run n x =
    dispatched-Runs C c₀ i (notify C s c) run n refl x
