-- ===== src/Connection/Notices.antt =====
-- `dispatch_event` of src/connection.rs where the application takes nothing in the middle of a call: no
-- event follows a lost one without a notice in front of it.
use freeswitch_esl_rs.Prelude.{
  Bool-cases, length, err, ℕ, suc, ◌%◌, ◌^◌, ◌≤◌, ◌<◌, ◌≡◌, refl, sym, ◌∙◌, subst, inl, inr, Bool,
  true, false, some, List, [], ◌∷◌, ◌++◌, arith,
}
use freeswitch_esl_rs.Error.{queue_full}
use freeswitch_esl_rs.Connection.{
  notify, Item, TrySend, sent, full, closed, MpscChannel, SharedState, notified, notify_if, tried,
  after_notice, dispatch_event,
}
use freeswitch_esl_rs.Connection.Queue.{Sends, Takes, IsFifo, is_notice}

-- A bounded queue that owes its reader a notice of every loss: the items that were dispatched, those
-- that were taken and those in the queue, whether a notice is owed, and the number of lost items. An
-- item is lost only where the queue is full, and none is put behind a lost one before the notice.
pub data Delivered (capacity : ℕ) : List Item → List Item → List Item → Bool → ℕ → Type 0 where
  nothing : Delivered capacity [] [] [] false 0
  delivers :
      (i : Item) {is ts q : List Item} {k : ℕ}
      → is_notice i ≡ false
      → Delivered capacity is ts q false k
      → Delivered capacity (is ++ i ∷ []) ts (q ++ i ∷ []) false k
  loses :
      (i : Item) {is ts q : List Item} {owed : Bool} {k : ℕ}
      → is_notice i ≡ false
      → capacity ≤ length q
      → Delivered capacity is ts q owed k
      → Delivered capacity (is ++ i ∷ []) ts q true (suc k)
  tells :
      {is ts q : List Item} {k : ℕ}
      → Delivered capacity is ts q true k
      → Delivered capacity is ts (q ++ err queue_full ∷ []) false k
  takes :
      (i : Item) {is ts q : List Item} {owed : Bool} {k : ℕ}
      → Delivered capacity is ts (i ∷ q) owed k
      → Delivered capacity is (ts ++ i ∷ []) q owed k

module _ (C : MpscChannel) where
  -- An item is accepted only where the channel has room, and its capacity stays.
  abbrev pub IsBounded : Type 0
  IsBounded =
      ((c : C.Chan) (i : Item) → (C.try_send c i).1 ≡ sent → length (C.queue c) < C.capacity c)
      × ((c : C.Chan) (i : Item) → C.capacity (C.try_send c i).0 ≡ C.capacity c)
      × ((c : C.Chan) → C.capacity (C.try_recv c).0 ≡ C.capacity c)

  -- Calls of `dispatch_event`, and between them what the application takes.
  pub data Dispatches (c₀ : C.Chan) : List Item → List Item → SharedState → C.Chan → Type 0 where
    opens :
        {s : SharedState}
        → s.event_overflow ≡ false
        → s.dropped_event_count ≡ 0
        → Dispatches c₀ [] [] s c₀
    dispatches :
        (i : Item) {is ts : List Item} {s s' : SharedState} {c c' : C.Chan}
        → Dispatches c₀ is ts s c
        → is_notice i ≡ false
        → dispatch_event C s c i ≡ (s', c', true)
        → Dispatches c₀ (is ++ i ∷ []) ts s' c'
    receives :
        (i : Item) {is ts : List Item} {s : SharedState} {c c' : C.Chan}
        → Dispatches c₀ is ts s c
        → C.try_recv c ≡ (c', some i)
        → Dispatches c₀ is (ts ++ i ∷ []) s c'

  -- The queue, the flag and the counter are those of the bounded queue.
  abbrev pub Follows : List Item → List Item → SharedState → C.Chan → Type 0
  Follows is ts s c =
      (k : ℕ) × Delivered (C.capacity c) is ts (C.queue c) s.event_overflow k
      × (s.dropped_event_count ≡ k % 2 ^ 64)

module _ (C : MpscChannel) (is ts : List Item) where
  -- If the channel is still open: and a notice is owed only if there was no room for it.
  abbrev Told : SharedState × C.Chan × Bool → Type 0
  Told (s, c, false) = Unit
  Told (s, c, true) =
      Follows C is ts s c × (s.event_overflow ≡ true → C.capacity c ≤ length (C.queue c))

  notified-Told :
      (s : SharedState) (c : C.Chan) (p : C.Chan × TrySend)
      → Sends C c (err queue_full) p
      → C.capacity p.0 ≡ C.capacity c
      → s.event_overflow ≡ true
      → Follows C is ts s c
      → Told (notified C s p)
  unfolding notified
  notified-Told s c (c', sent) (_, q) stays owed (k, d, n) = (
    (
      k,
      subst (λ m. Delivered m is ts (C.queue c') false k) (sym stays)
          (subst (λ l. Delivered (C.capacity c) is ts l false k) (sym q)
            (tells (subst (λ b. Delivered (C.capacity c) is ts (C.queue c) b k) owed d))),
      n,
    ),
    (λ e. cc e),
  )
  notified-Told s c (c', full) (no_room, e) stays owed h = (
    subst (Follows C is ts s) (sym e) h,
    (λ _. subst (λ x. C.capacity x ≤ length (C.queue x)) (sym e) no_room),
  )
  notified-Told s c (c', closed) _ stays owed h = tt

  notify-Told :
      (s : SharedState) (c : C.Chan)
      → IsFifo C
      → IsBounded C
      → Follows C is ts s c
      → Told (notify C s c)
  unfolding notify notify_if
  notify-Told s c f room h = elim (Bool-cases s.event_overflow) [
    | inl owed ↦
        subst (λ b. Told (notify_if C b s c)) (sym owed)
          (notified-Told s c (C.try_send c (err queue_full)) (f.0 c (err queue_full))
            (room.1 c (err queue_full)) owed h)
    | inr settled ↦
        subst (λ b. Told (notify_if C b s c)) (sym settled) (h, (λ e. cc (sym settled ∙ e)))
  ]

  -- The item is tried then.
  abbrev After : Item → SharedState × C.Chan × Bool → Type 0
  After i (s, c, true) = Follows C (is ++ i ∷ []) ts s c
  After i (s, c, false) = Unit

  tried-After :
      (i : Item) (s : SharedState) (c : C.Chan) (p : C.Chan × TrySend)
      → is_notice i ≡ false
      → Sends C c i p
      → (p.1 ≡ sent → length (C.queue c) < C.capacity c)
      → C.capacity p.0 ≡ C.capacity c
      → Told (s, c, true)
      → After i (tried C s p)
  unfolding tried
  tried-After i s c (c', sent) plain (_, q) room stays ((k, d, n), owed) =
      elim (Bool-cases s.event_overflow) [
        | inl o ↦ absurd (omega (arith, owed o, room refl))
        | inr settled ↦ (
          k,
          subst (λ m. Delivered m (is ++ i ∷ []) ts (C.queue c') s.event_overflow k) (sym stays)
              (subst (λ l. Delivered (C.capacity c) (is ++ i ∷ []) ts l s.event_overflow k) (sym q)
                (subst (λ b. Delivered (C.capacity c) (is ++ i ∷ []) ts (C.queue c ++ i ∷ []) b k)
                  (sym settled)
                  (delivers i plain
                    (subst (λ b. Delivered (C.capacity c) is ts (C.queue c) b k) settled d)))),
          n,
        )
      ]
  tried-After i s c (c', full) plain (no_room, e) room stays ((k, d, n), owed) = (
    suc k,
    subst (λ x. Delivered (C.capacity x) (is ++ i ∷ []) ts (C.queue x) true (suc k)) (sym e)
        (loses i plain no_room d),
    omega (arith, n),
  )
  tried-After i s c (c', closed) plain _ room stays h = tt

  after_notice-After :
      (i : Item) (r : SharedState × C.Chan × Bool)
      → IsFifo C
      → IsBounded C
      → is_notice i ≡ false
      → Told r
      → After i (after_notice C i r)
  unfolding after_notice
  after_notice-After i (s, c, false) f room plain h = tt
  after_notice-After i (s, c, true) f room plain h =
      tried-After i s c (C.try_send c i) plain (f.0 c i) (room.0 c i) (room.1 c i) h

-- On a bounded channel that is empty at first and whose receiver is not gone, while the application
-- takes nothing in the middle of a call of `dispatch_event`: the calls and the receipts are those of
-- a bounded queue that owes a notice. Every dispatched event is put into the queue in its turn, or is
-- lost because the queue is full; once one is lost, the next thing put into the queue is a notice,
-- and there is no other notice. The flag is whether a notice is owed, and the counter the number of
-- the lost events, up to its 64 bits.
pub Dispatches-Delivered :
    (C : MpscChannel)
    → IsFifo C
    → IsBounded C
    → (c₀ : C.Chan) → C.queue c₀ ≡ []
    → {is ts : List Item} {s : SharedState} {c : C.Chan} → Dispatches C c₀ is ts s c
    → Follows C is ts s c
unfolding dispatch_event
Dispatches-Delivered C f room c₀ e (opens {s = s} settled count) =
    (0, rw (e, settled) nothing, count)
Dispatches-Delivered C f room c₀ e (dispatches i {is = is} {ts = ts} {s = s} {c = c} r plain x) =
    subst (After C is ts i) x (
      after_notice-After C is ts i (notify C s c) f room plain
        (notify-Told C is ts s c f room (Dispatches-Delivered C f room c₀ e r)))
Dispatches-Delivered C f room c₀ e (receives i {is = is} {ts = ts} {s = s} {c = c} {c' = c'} r x) =
    let (k, d, n) = Dispatches-Delivered C f room c₀ e r in
    let q : C.queue c ≡ i ∷ C.queue c' = subst (Takes C c) x (f.1 c) in
    let stays : C.capacity c' ≡ C.capacity c =
      subst (λ z. C.capacity z.0 ≡ C.capacity c) x (room.2 c) in
    (
      k,
      subst (λ m. Delivered m is (ts ++ i ∷ []) (C.queue c') s.event_overflow k) (sym stays)
          (takes i (subst (λ l. Delivered (C.capacity c) is ts l s.event_overflow k) q d)),
      n,
    )
