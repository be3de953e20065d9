-- ===== src/Tests/Queue.antt =====
-- The theorems on the event queue, on a channel that is a list.
use freeswitch_esl_rs.Prelude.{
  ltb, length, ok, err, ℕ, ◌<◌, ◌≡◌, refl, Bool, true, false, Option, none, some, List, [], ◌∷◌,
  ◌++◌, arith,
}
use freeswitch_esl_rs.Error.{connection_closed, queue_full}
use freeswitch_esl_rs.Connection.{
  notify, Item, TrySend, sent, full, MpscChannel, SharedState, shared_new, tried, dispatch_event,
}
use freeswitch_esl_rs.Connection.Queue.{Sends, Takes, IsFifo, Runs, tries}
use freeswitch_esl_rs.Connection.Notices.{
  IsBounded, Dispatches, opens, dispatches, receives, Follows, Dispatches-Delivered,
}
use freeswitch_esl_rs.Connection.Overflow.{Accounted, Runs-Accounted}

abbrev push_bounded : List Item × ℕ → Item → Bool → (List Item × ℕ) × TrySend
push_bounded (q, n) i true = ((q ++ i ∷ [], n), sent)
push_bounded (q, n) i false = ((q, n), full)

abbrev send_bounded : List Item × ℕ → Item → (List Item × ℕ) × TrySend
send_bounded (q, n) i = push_bounded (q, n) i (ltb (length q) n)

abbrev take_first : List Item × ℕ → (List Item × ℕ) × Option Item
take_first ([], n) = (([], n), none)
take_first (i ∷ q, n) = ((q, n), some i)

abbrev pub list_channel : MpscChannel
list_channel = record {
  Chan = List Item × ℕ;
  try_send = send_bounded;
  try_recv = take_first;
  queue = λ c. c.0;
  capacity = λ c. c.1;
  is_closed = λ c. false;
}

push_bounded-Sends :
    (q : List Item) (n : ℕ) (i : Item) (b : Bool)
    → ltb (length q) n ≡ b
    → Sends list_channel (q, n) i (push_bounded (q, n) i b)
push_bounded-Sends q n i true h = (refl, refl)
push_bounded-Sends q n i false h = (ground arith, refl)

pub list_channel-IsFifo : IsFifo list_channel
list_channel-IsFifo = ((λ c i. push_bounded-Sends c.0 c.1 i (ltb (length c.0) c.1) refl), take)
  where
    take : (c : List Item × ℕ) → Takes list_channel c (take_first c)
    take ([], n) = refl
    take (i ∷ q, n) = refl

abbrev first_event : Item
first_event = ok (record { event_type = none; headers = []; body = none })

abbrev second_event : Item
second_event = err connection_closed

-- A queue of one place: the second event is lost, and the next dispatch brings a notice.
abbrev lossy : SharedState
unfolding shared_new
lossy = record shared_new { event_overflow = true; dropped_event_count = 1 }

lost_one :
    Runs list_channel ([], 1) (first_event ∷ second_event ∷ []) (first_event ∷ []) lossy ([], 1)
unfolding notify tried shared_new
lost_one =
    Runs.receives first_event
      (tries second_event (tries first_event (Runs.opens {s = shared_new} refl refl) refl refl) refl
        refl)
      refl

Runs-Accounted_example :
    Accounted list_channel (first_event ∷ second_event ∷ []) (first_event ∷ []) lossy ([], 1)
Runs-Accounted_example = Runs-Accounted list_channel list_channel-IsFifo ([], 1) refl lost_one

push_bounded-room :
    (q : List Item) (n : ℕ) (i : Item) (b : Bool)
    → ltb (length q) n ≡ b
    → (push_bounded (q, n) i b).1 ≡ sent
    → length q < n
push_bounded-room q n i true h e = ground arith
push_bounded-room q n i false h e = cc

push_bounded-capacity :
    (q : List Item) (n : ℕ) (i : Item) (b : Bool) → (push_bounded (q, n) i b).0.1 ≡ n
push_bounded-capacity q n i true = refl
push_bounded-capacity q n i false = refl

take_first-capacity : (c : List Item × ℕ) → (take_first c).0.1 ≡ c.1
take_first-capacity ([], n) = refl
take_first-capacity (i ∷ q, n) = refl

list_channel-IsBounded : IsBounded list_channel
list_channel-IsBounded = (
  (λ c i. push_bounded-room c.0 c.1 i (ltb (length c.0) c.1) refl),
  (λ c i. push_bounded-capacity c.0 c.1 i (ltb (length c.0) c.1)),
  take_first-capacity,
)

-- The first event is taken once the second was lost; the third call brings the notice, and its event
-- is lost as well, since the notice fills the queue; so it is with the fourth, once that was taken.
lost_twice :
    Dispatches list_channel
      ([], 1)
      (first_event ∷ second_event ∷ first_event ∷ first_event ∷ [])
      (first_event ∷ err queue_full ∷ [])
      (record shared_new { event_overflow = true; dropped_event_count = 3 })
      (err queue_full ∷ [], 1)
unfolding dispatch_event shared_new
lost_twice =
    dispatches first_event
      (receives (err queue_full)
        (dispatches first_event
          (receives first_event
            (dispatches second_event
              (dispatches first_event (opens {s = shared_new} refl refl) refl refl) refl refl)
            refl)
          refl refl)
        refl)
      refl refl

Dispatches-Delivered_example :
    Follows list_channel
      (first_event ∷ second_event ∷ first_event ∷ first_event ∷ [])
      (first_event ∷ err queue_full ∷ [])
      (record shared_new { event_overflow = true; dropped_event_count = 3 })
      (err queue_full ∷ [], 1)
Dispatches-Delivered_example =
    Dispatches-Delivered list_channel list_channel-IsFifo list_channel-IsBounded ([], 1) refl
      lost_twice
