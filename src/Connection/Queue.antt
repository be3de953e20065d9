-- ===== src/Connection/Queue.antt =====
-- The event queue of src/connection.rs: what is asked of the channel, and the runs of the sender with
-- the receiver beside it.
use freeswitch_esl_rs.Prelude.{
  if◌then◌else◌, length, err, ℕ, ◌+◌, ◌%◌, ◌^◌, ◌≤◌, ◌≡◌, ◌⊎◌, Bool, true, false, Option, none,
  some, List, [], ◌∷◌, ◌++◌,
}
use freeswitch_esl_rs.Error.{queue_full}
use freeswitch_esl_rs.Connection.{
  notify, Item, TrySend, sent, full, closed, MpscChannel, SharedState, tried,
}

-- What the documentation of the channel says of each outcome of `try_send`.
abbrev pub Sends : (C : MpscChannel) → C.Chan → Item → C.Chan × TrySend → Type 0
Sends C c i (c', sent) = (C.is_closed c ≡ false) × (C.queue c' ≡ C.queue c ++ i ∷ [])
Sends C c i (c', full) = (C.capacity c ≤ length (C.queue c)) × (c' ≡ c)
Sends C c i (c', closed) = (C.is_closed c ≡ true) × (c' ≡ c)

-- What it says of a receipt: the oldest item, if there is one.
abbrev pub Takes : (C : MpscChannel) → C.Chan → C.Chan × Option Item → Type 0
Takes C c (c', some i) = C.queue c ≡ i ∷ C.queue c'
Takes C c (c', none) = C.queue c' ≡ C.queue c

abbrev pub IsFifo : MpscChannel → Type 0
IsFifo C =
    ((c : C.Chan) (i : Item) → Sends C c i (C.try_send c i))
    × ((c : C.Chan) → Takes C c (C.try_recv c))

abbrev pub is_notice : Item → Bool
is_notice (err queue_full) = true
is_notice _ = false

-- The items that are no notices.
abbrev pub events_of : List Item → List Item
events_of [] = []
events_of (i ∷ is) = if is_notice i then events_of is else i ∷ events_of is

-- Behind some notice of the stream stands every event that was dispatched since.
abbrev pub Told : List Item → List Item → Type 0
Told is stream =
    (before after earlier : List Item) × (stream ≡ before ++ err queue_full ∷ after)
    × (is ≡ earlier ++ events_of after)

-- The first list is the second without some of its items, in the same order.
pub data Keeps : List Item → List Item → Type 0 where
  start : Keeps [] []
  keep : (i : Item) {is js : List Item} → Keeps is js → Keeps (is ++ i ∷ []) (js ++ i ∷ [])
  skip : (i : Item) {is js : List Item} → Keeps is js → Keeps is (js ++ i ∷ [])

-- What has happened: the items handed to `dispatch_event`, and those that the application took. The
-- receiver may run between the two halves of `dispatch_event`, so each is a step.
module _ (C : MpscChannel) where
  pub data Runs (c₀ : C.Chan) : List Item → List Item → SharedState → C.Chan → Type 0 where
    opens :
        {s : SharedState}
        → s.event_overflow ≡ false
        → s.dropped_event_count ≡ 0
        → Runs c₀ [] [] s c₀
    notifies :
        {is ts : List Item} {s s' : SharedState} {c c' : C.Chan}
        → Runs c₀ is ts s c
        → notify C s c ≡ (s', c', true)
        → Runs c₀ is ts s' c'
    tries :
        (i : Item) {is ts : List Item} {s s' : SharedState} {c c' : C.Chan}
        → Runs c₀ is ts s c
        → is_notice i ≡ false
        → tried C s (C.try_send c i) ≡ (s', c', true)
        → Runs c₀ (is ++ i ∷ []) ts s' c'
    receives :
        (i : Item) {is ts : List Item} {s : SharedState} {c c' : C.Chan}
        → Runs c₀ is ts s c
        → C.try_recv c ≡ (c', some i)
        → Runs c₀ is (ts ++ i ∷ []) s c'

  -- `stream` is what the application has taken and will take, `k` the number of lost events.
  abbrev pub Accounts : List Item → List Item → SharedState → ℕ → Type 0
  Accounts is stream s k =
      Keeps (events_of stream) is
      × (length (events_of stream) + k ≡ length is)
      × (s.dropped_event_count ≡ k % 2 ^ 64)
      × ((k ≡ 0) ⊎ ((s.event_overflow ≡ true) ⊎ Told is stream))
