-- ===== src/Connection.antt =====
-- src/connection.rs: the status of a connection, and the queue through which the reader task hands
-- events to the application. The channel of tokio is the parameter `MpscChannel`. The children have
-- the reader task, the calls of the client and the handshake, and what is proved of them.
pub mod Queue
pub mod Overflow
pub mod Notices
pub mod Reader
pub mod Session
pub mod Chunks
pub mod Stream
pub mod Ending
pub mod Status
pub mod Liveness
pub mod Bounds
pub mod Client
pub mod Calls
pub mod Slot
pub mod Routing
pub mod Attended
pub mod Phase
pub mod Order
pub mod Late
pub mod Handshake
pub mod Leftover
pub mod Connect
pub mod Methods
pub mod Open
use freeswitch_esl_rs.Prelude.{
  err, ℕ, ◌+◌, ◌%◌, ◌^◌, Bool, true, false, Option, none, List, ◌++◌, Bytes, codes,
}
use freeswitch_esl_rs.Error.{timeout, queue_full, EslResult}
use freeswitch_esl_rs.Protocol.{disconnect}
use freeswitch_esl_rs.Event.{EslEvent}

pub data DisconnectReason : Type 0 where
  server_notice heartbeat_expired : DisconnectReason
  io_error : Bytes → DisconnectReason
  connection_closed client_requested : DisconnectReason

pub data ConnectionStatus : Type 0 where
  connected : ConnectionStatus
  disconnected : DisconnectReason → ConnectionStatus

unfoldable pub disconnect_display : DisconnectReason → Bytes
disconnect_display server_notice = codes "server sent disconnect notice"
disconnect_display heartbeat_expired = codes "liveness timeout expired"
disconnect_display (io_error m) = codes "I/O error: " ++ m
disconnect_display connection_closed = codes "connection closed"
disconnect_display client_requested = codes "client requested disconnect"

-- `Result<EslEvent, EslError>`.
abbrev pub Item : Type 0
Item = EslResult EslEvent

-- What `try_send` returns.
pub data TrySend : Type 0 where
  sent full closed : TrySend

-- `tokio::sync::mpsc` with a bound: the sender's and the receiver's operations, and what can be
-- said of a channel's state: the items in the queue, the bound, and whether the receiver is gone.
pub record MpscChannel : Type 1 where
  pub Chan : Type 0
  pub try_send : Chan → Item → Chan × TrySend
  pub try_recv : Chan → Chan × Option Item
  pub queue : Chan → List Item
  pub capacity : Chan → ℕ
  pub is_closed : Chan → Bool

abbrev pub default_command_timeout_ms : ℕ
default_command_timeout_ms = 5000

-- `SharedState`: the sender in the reply slot is known by the call that it answers.
pub record SharedState : Type 0 where
  pub pending_reply : Option ℕ
  pub liveness_timeout_ms : ℕ
  pub command_timeout_ms : ℕ
  pub event_overflow : Bool
  pub dropped_event_count : ℕ

-- The state that `split_and_spawn_with_options` starts with.
unfoldable pub shared_new : SharedState
shared_new = record {
  pending_reply = none;
  liveness_timeout_ms = 0;
  command_timeout_ms = default_command_timeout_ms;
  event_overflow = false;
  dropped_event_count = 0;
}

module _ (C : MpscChannel) where
  -- The notification has been tried.
  unfoldable pub notified : SharedState → C.Chan × TrySend → SharedState × C.Chan × Bool
  notified shared (c, sent) = (record shared { event_overflow = false }, c, true)
  notified shared (c, closed) = (shared, c, false)
  notified shared (c, full) = (shared, c, true)

  -- The test of the flag.
  unfoldable pub notify_if : Bool → SharedState → C.Chan → SharedState × C.Chan × Bool
  unfolding notified
  notify_if true shared c = notified shared (C.try_send c (err queue_full))
  notify_if false shared c = (shared, c, true)

  -- If events were dropped, the application is told so before the next event.
  unfoldable pub notify : SharedState → C.Chan → SharedState × C.Chan × Bool
  unfolding notify_if
  notify shared c = notify_if shared.event_overflow shared c

  -- The item has been tried; `fetch_add` on an `AtomicU64` wraps around.
  unfoldable pub tried : SharedState → C.Chan × TrySend → SharedState × C.Chan × Bool
  tried shared (c, sent) = (shared, c, true)
  tried shared (c, closed) = (shared, c, false)
  tried shared (c, full) = (
    record shared {
      event_overflow = true;
      dropped_event_count = (shared.dropped_event_count + 1) % 2 ^ 64;
    },
    c,
    true,
  )

  unfoldable pub after_notice : Item → SharedState × C.Chan × Bool → SharedState × C.Chan × Bool
  unfolding tried
  after_notice item (shared, c, false) = (shared, c, false)
  after_notice item (shared, c, true) = tried shared (C.try_send c item)

  unfoldable pub dispatch_event : SharedState → C.Chan → Item → SharedState × C.Chan × Bool
  unfolding notify after_notice
  dispatch_event shared c item = after_notice item (notify shared c)
