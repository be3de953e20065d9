-- ===== src/Connection/Status.antt =====
-- What the reader task of src/connection.rs leaves in the status when it returns.
use freeswitch_esl_rs.Prelude.{
  if◌then◌else◌, Bool-cases, ok, err, ℕ, ◌≡◌, refl, sym, ◌∙◌, subst, ◌≢◌, ◌⊎◌, inl, inr, Bool, true,
  false, not, Option, none, some, List, codes,
}
use freeswitch_esl_rs.Constants.{header_content_type}
use freeswitch_esl_rs.Error.{queue_full, EslResult, display}
use freeswitch_esl_rs.Headers.{get}
use freeswitch_esl_rs.Protocol.{
  MessageType, auth_request, command_reply, api_response, event, disconnect, unknown, EslMessage,
  EslParser, add_data, parse_message,
}
use freeswitch_esl_rs.Protocol.Events.{parse_event}
use freeswitch_esl_rs.Connection.{
  connection_closed, heartbeat_expired, notify, DisconnectReason, server_notice, io_error,
  client_requested, connected, disconnected, Item, TrySend, sent, full, closed, MpscChannel,
  SharedState, notified, notify_if, tried, after_notice, dispatch_event,
}
use freeswitch_esl_rs.Connection.Queue.{Sends, IsFifo}
use freeswitch_esl_rs.Connection.Reader.{
  Flow, goes_on, waits, exits, SocketRead, no_bytes, bytes, read_error, elapsed, format_of,
  Decoders, is_linger, is_expired, Served, Reader, end_with, route_reply, dispatched, handle_in,
  handle, parsed, turn, added, received,
}
use freeswitch_esl_rs.Connection.Session.{
  Turns, settles, again, Reads, quiet, breaks_off, leaves, serves, Loop, returns_first, reads_on,
}

module _ (C : MpscChannel) where
  -- The application has closed the channel, if the event could not be handed over.
  abbrev Open : SharedState × C.Chan × Bool → Type 0
  Open (s, c, true) = Unit
  Open (s, c, false) = C.is_closed c ≡ true

  notified-Open :
      (s : SharedState) (c : C.Chan) (i : Item) (p : C.Chan × TrySend)
      → Sends C c i p
      → Open (notified C s p)
  unfolding notified
  notified-Open s c i (c', sent) h = tt
  notified-Open s c i (c', full) h = tt
  notified-Open s c i (c', closed) (h, e) = subst (λ x. C.is_closed x ≡ true) (sym e) h

  tried-Open :
      (s : SharedState) (c : C.Chan) (i : Item) (p : C.Chan × TrySend)
      → Sends C c i p
      → Open (tried C s p)
  unfolding tried
  tried-Open s c i (c', sent) h = tt
  tried-Open s c i (c', full) h = tt
  tried-Open s c i (c', closed) (h, e) = subst (λ x. C.is_closed x ≡ true) (sym e) h

  notify_if-Open : (b : Bool) (s : SharedState) (c : C.Chan) → IsFifo C → Open (notify_if C b s c)
  unfolding notify_if
  notify_if-Open true s c f =
      notified-Open s c (err queue_full) (C.try_send c (err queue_full)) (f.0 c (err queue_full))
  notify_if-Open false s c f = tt

  after_notice-Open :
      (i : Item) (o : SharedState × C.Chan × Bool) → IsFifo C → Open o → Open (after_notice C i o)
  unfolding after_notice
  after_notice-Open i (s, c, false) f h = h
  after_notice-Open i (s, c, true) f h = tried-Open s c i (C.try_send c i) (f.0 c i)

  dispatch_event-Open :
      (s : SharedState) (c : C.Chan) (i : Item) → IsFifo C → Open (dispatch_event C s c i)
  unfolding dispatch_event notify
  dispatch_event-Open s c i f =
      after_notice-Open i (notify C s c) f (notify_if-Open s.event_overflow s c f)

  -- What the status says once the loop has returned, and before.
  abbrev pub IsEnded : Served C → Type 0
  IsEnded s =
      ((reason : DisconnectReason) × (s.status ≡ disconnected reason) × (reason ≢ client_requested))
      ⊎ ((s.status ≡ connected) × (C.is_closed s.chan ≡ true))

  abbrev pub Says : Served C → Bool → Type 0
  Says s true = IsEnded s
  Says s false = s.status ≡ connected

  module _ (D : Decoders) (f : IsFifo C) where
    dispatched-Says :
        (s : Served C) (o : SharedState × C.Chan × Bool)
        → s.status ≡ connected
        → Open o
        → Says (dispatched C s o).0 (not (dispatched C s o).1)
    unfolding dispatched
    dispatched-Says s (shared, c, true) h o = h
    dispatched-Says s (shared, c, false) h o = inr (h, o)

    route_reply-status :
        (o : Option ℕ) (m : EslMessage) (s : Served C) → (route_reply C o m s).status ≡ s.status
    unfolding route_reply
    route_reply-status none m s = refl
    route_reply-status (some i) m s = refl

    handle_in-Says :
        (t : MessageType) (s : Served C) (m : EslMessage)
        → s.status ≡ connected
        → Says (handle_in C D t s m).0 (not (handle_in C D t s m).1)
    unfolding handle_in end_with
    handle_in-Says event s m h =
        let i =
          parse_event D.percent_decode D.serde_json D.quick_xml m
            (format_of (get m.headers header_content_type)) in
        dispatched-Says s (dispatch_event C s.shared s.chan i) h
          (dispatch_event-Open s.shared s.chan i f)
    handle_in-Says command_reply s m h = route_reply-status s.shared.pending_reply m s ∙ h
    handle_in-Says api_response s m h = route_reply-status s.shared.pending_reply m s ∙ h
    handle_in-Says disconnect s m h =
        elim (Bool-cases (is_linger (get m.headers (codes "Content-Disposition")))) [
          | inl y ↦ rw y h
          | inr n ↦ rw n (inl (server_notice, refl, λ z. cc))
        ]
    handle_in-Says auth_request s m h = h
    handle_in-Says (unknown _) s m h = h

    abbrev Settles : Served C → Flow → Type 0
    Settles s goes_on = s.status ≡ connected
    Settles s waits = s.status ≡ connected
    Settles s exits = IsEnded s

    flow-Settles :
        (s : Served C) (on : Bool) → Says s (not on) → Settles s (if on then goes_on else exits)
    flow-Settles s true h = h
    flow-Settles s false h = h

    parsed-Settles :
        (s : Served C) (o : EslResult (Option EslMessage))
        → s.status ≡ connected
        → Settles (parsed C D s o).0 (parsed C D s o).1
    unfolding parsed end_with
    parsed-Settles s (ok none) h = h
    parsed-Settles s (ok (some m)) h =
        flow-Settles (handle C D s m).0 (handle C D s m).1
          (unfold handle in handle_in-Says m.message_type s m h)
    parsed-Settles s (err e) h = inl (io_error (display e), refl, λ z. cc)

    Turns-Settles :
        {r t : Reader C} {flow : Flow}
        → Turns C D r t flow
        → r.served.status ≡ connected
        → Settles t.served flow
    unfolding turn
    Turns-Settles (settles {r = r} x ne) h =
        subst (λ z. Settles z.0.served z.1) x
          (parsed-Settles r.served (parse_message D.percent_decode r.parser).1 h)
    Turns-Settles (again {r = r} x d) h = Turns-Settles d (
        subst (λ z. Settles z.0.served z.1) x
          (parsed-Settles r.served (parse_message D.percent_decode r.parser).1 h))

    added-Says :
        (r : Reader C) (o : EslParser × EslResult (Unit {0}))
        → r.served.status ≡ connected
        → Says (added C r o).0.served (not (added C r o).1)
    unfolding added end_with
    added-Says r (p, ok x) h = h
    added-Says r (p, err e) h = inl (io_error (display e), refl, λ z. cc)

    received-Says :
        (r : Reader C) (now : ℕ) (x : SocketRead)
        → r.served.status ≡ connected
        → Says (received C r now x).0.served (not (received C r now x).1)
    unfolding received end_with
    received-Says r now no_bytes h = inl (connection_closed, refl, λ z. cc)
    received-Says r now (bytes s) h =
        added-Says (record r { last_recv = now }) (add_data r.parser s) h
    received-Says r now (read_error e) h = inl (io_error e, refl, λ z. cc)
    received-Says r now elapsed h = elim (Bool-cases (is_expired r.served.shared r.last_recv now)) [
      | inl y ↦ rw y (inl (heartbeat_expired, refl, λ z. cc))
      | inr n ↦ rw n h
    ]

    Reads-Says :
        {r t : Reader C} {xs : List (ℕ × SocketRead)} {b : Bool}
        → Reads C D r xs t b
        → r.served.status ≡ connected
        → Says t.served b
    Reads-Says quiet h = h
    Reads-Says (breaks_off {r = r} {now = now} {x = x} e) h =
        subst (λ z. Says z.0.served (not z.1)) e (received-Says r now x h)
    Reads-Says (leaves {r = r} {now = now} {x = x} e d) h =
        Turns-Settles d (subst (λ z. Says z.0.served (not z.1)) e (received-Says r now x h))
    Reads-Says (serves {r = r} {now = now} {x = x} e d m) h =
        Reads-Says m
          (Turns-Settles d (subst (λ z. Says z.0.served (not z.1)) e (received-Says r now x h)))

    -- A run of the reader task that starts connected: while it has not returned, the status is
    -- `Connected`; once it has, the status is `Disconnected` with a reason, which is never
    -- `ClientRequested`, or it is still `Connected` and the application has closed the event channel.
    pub Loop-Says :
        {r t : Reader C} {xs : List (ℕ × SocketRead)} {b : Bool}
        → Loop C D r xs t b
        → r.served.status ≡ connected
        → Says t.served b
    Loop-Says (returns_first d) h = Turns-Settles d h
    Loop-Says (reads_on d m) h = Reads-Says m (Turns-Settles d h)
