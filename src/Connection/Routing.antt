-- ===== src/Connection/Routing.antt =====
-- What the messages that the reader task of src/connection.rs handles make of the reply slot and of
-- the replies.
use freeswitch_esl_rs.Prelude.{Bool-cases, err, ◌≡◌, refl, ◌∙◌, inl, inr, Bool, true, false, codes}
use freeswitch_esl_rs.Constants.{header_content_type}
use freeswitch_esl_rs.Error.{queue_full}
use freeswitch_esl_rs.Headers.{get}
use freeswitch_esl_rs.Protocol.{
  MessageType, auth_request, command_reply, api_response, event, disconnect, unknown, EslMessage,
}
use freeswitch_esl_rs.Protocol.Events.{parse_event}
use freeswitch_esl_rs.Connection.{
  notify, Item, TrySend, sent, full, closed, MpscChannel, SharedState, notified, notify_if, tried,
  after_notice, dispatch_event,
}
use freeswitch_esl_rs.Connection.Reader.{
  format_of, Decoders, is_linger, Served, end_with, route_reply, dispatched, handle_in, handle,
}
use freeswitch_esl_rs.Connection.Calls.{is_reply}

module _ (C : MpscChannel) (D : Decoders) where
  -- What a message makes of the slot and of the replies.
  notified-slot :
      (s : SharedState) (o : C.Chan × TrySend) → (notified C s o).0.pending_reply ≡ s.pending_reply
  unfolding notified
  notified-slot s (c, sent) = refl
  notified-slot s (c, full) = refl
  notified-slot s (c, closed) = refl

  notify-slot :
      (b : Bool) (s : SharedState) (c : C.Chan)
      → (notify_if C b s c).0.pending_reply ≡ s.pending_reply
  unfolding notify_if
  notify-slot true s c = notified-slot s (C.try_send c (err queue_full))
  notify-slot false s c = refl

  tried-slot :
      (s : SharedState) (o : C.Chan × TrySend) → (tried C s o).0.pending_reply ≡ s.pending_reply
  unfolding tried
  tried-slot s (c, sent) = refl
  tried-slot s (c, full) = refl
  tried-slot s (c, closed) = refl

  after_notice-slot :
      (i : Item) (o : SharedState × C.Chan × Bool)
      → (after_notice C i o).0.pending_reply ≡ o.0.pending_reply
  unfolding after_notice
  after_notice-slot i (s, c, false) = refl
  after_notice-slot i (s, c, true) = tried-slot s (C.try_send c i)

  dispatch_event-slot :
      (s : SharedState) (c : C.Chan) (i : Item)
      → (dispatch_event C s c i).0.pending_reply ≡ s.pending_reply
  unfolding dispatch_event notify
  dispatch_event-slot s c i = after_notice-slot i (notify C s c) ∙ notify-slot s.event_overflow s c

  dispatched-slot :
      (s : Served C) (o : SharedState × C.Chan × Bool)
      → ((dispatched C s o).0.shared.pending_reply ≡ o.0.pending_reply)
        × ((dispatched C s o).0.sent ≡ s.sent)
  unfolding dispatched
  dispatched-slot s (shared, c, b) = (refl, refl)

  abbrev pub KeepsSlot : Served C → Served C → Type 0
  KeepsSlot s t = (t.shared.pending_reply ≡ s.shared.pending_reply) × (t.sent ≡ s.sent)

  handle_in-slot :
      (t : MessageType) (s : Served C) (m : EslMessage)
      → is_reply t ≡ false
      → KeepsSlot s (handle_in C D t s m).0
  unfolding handle_in end_with
  handle_in-slot event s m e =
      let i =
        parse_event D.percent_decode D.serde_json D.quick_xml m
          (format_of (get m.headers header_content_type)) in
      let h = dispatched-slot s (dispatch_event C s.shared s.chan i) in
      (h.0 ∙ dispatch_event-slot s.shared s.chan i, h.1)
  handle_in-slot command_reply s m e = cc
  handle_in-slot api_response s m e = cc
  handle_in-slot disconnect s m e =
      elim (Bool-cases (is_linger (get m.headers (codes "Content-Disposition")))) [
        | inl y ↦ rw y (refl, refl)
        | inr n ↦ rw n (refl, refl)
      ]
  handle_in-slot auth_request s m e = (refl, refl)
  handle_in-slot (unknown _) s m e = (refl, refl)

  handle_in-reply :
      (t : MessageType) (s : Served C) (m : EslMessage)
      → is_reply t ≡ true
      → (handle_in C D t s m).0 ≡ route_reply C s.shared.pending_reply m s
  unfolding handle_in
  handle_in-reply event s m e = cc
  handle_in-reply command_reply s m e = refl
  handle_in-reply api_response s m e = refl
  handle_in-reply disconnect s m e = cc
  handle_in-reply auth_request s m e = cc
  handle_in-reply (unknown _) s m e = cc

  -- A message that is no reply leaves both alone.
  pub handle-slot :
      (s : Served C) (m : EslMessage)
      → is_reply m.message_type ≡ false
      → KeepsSlot s (handle C D s m).0
  unfolding handle
  handle-slot s m h = handle_in-slot m.message_type s m h

  pub handle-reply :
      (s : Served C) (m : EslMessage)
      → is_reply m.message_type ≡ true
      → (handle C D s m).0 ≡ route_reply C s.shared.pending_reply m s
  unfolding handle
  handle-reply s m h = handle_in-reply m.message_type s m h
