-- ===== src/Tracker/Arrival.antt =====
-- The dump of a new channel, from the event that makes the tracker ask for it to the one that has it.
use freeswitch_esl_rs.Prelude.{
  if◌then◌else◌, All, ok, ℕ, ◌<◌, ◌≡◌, refl, sym, ◌∙◌, subst, Option, none, some, List, [], ◌∷◌,
  ◌++◌, arith, Bytes, codes,
}
use freeswitch_esl_rs.Text.{bytes_eq}
use freeswitch_esl_rs.Text.Search.{bytes_eq_self}
use freeswitch_esl_rs.Text.Signed.{map_some}
use freeswitch_esl_rs.Error.{EslResult}
use freeswitch_esl_rs.Headers.{Headers}
use freeswitch_esl_rs.Headers.Laws.{get-remove}
use freeswitch_esl_rs.Event.{EslEvent, unique_id}
use freeswitch_esl_rs.Protocol.Written.{named}
use freeswitch_esl_rs.Command.Response.{EslResponse}
use freeswitch_esl_rs.Tracker.{
  ChannelTracker, process_event, apply_dump, job_done, handle_background_job,
}
use freeswitch_esl_rs.Tracker.Views.{channel_view, over}
use freeswitch_esl_rs.Tracker.Main.{
  Running, request_dump, dump_for, handled, next_event, event_loop,
}
use freeswitch_esl_rs.Tracker.Said.{Says, dump_of-Says}
use freeswitch_esl_rs.Text.Trim.{lines}
use freeswitch_esl_rs.Tracker.Dumps.{dump_of, channel_view-apply_dump}
use freeswitch_esl_rs.Tracker.Jobs.{Names, Unrelated, expects_dump-named, Waits-event_loop}
use freeswitch_esl_rs.Event.Types
use freeswitch_esl_rs.Event.Named
use freeswitch_esl_rs.Headers

module _ (decode : Bytes → Bytes) where
  job_result :
      (t : ChannelTracker) (e : EslEvent) (j u body : Bytes)
      → Named.job_uuid e ≡ some j
      → e.body ≡ some body
      → Headers.get t.pending_dumps j ≡ some u
      → handle_background_job decode t e
        ≡ apply_dump decode (record t { pending_dumps = Headers.remove t.pending_dumps j }) u body
  unfolding handle_background_job job_done
  job_result t e j u body job has p = rw (handle_background_job, job, p, has) refl

  pub view-job_result :
      (t : ChannelTracker) (m : Headers) (u body v : Bytes)
      → channel_view (apply_dump decode (record t { pending_dumps = m }) u body) v ≡ (
          if bytes_eq u v
          then map_some (over (dump_of decode body)) (channel_view t v)
          else channel_view t v)
  unfolding channel_view
  view-job_result t m u body v =
      channel_view-apply_dump decode (record t { pending_dumps = m }) u body v

  pending-job_result :
      (t : ChannelTracker) (u j body : Bytes)
      → Headers.get
          (apply_dump decode
            (record t { pending_dumps = Headers.remove t.pending_dumps j })
            u
            body).pending_dumps
          j
        ≡ none
  unfolding apply_dump
  pending-job_result t u j body = get-remove t.pending_dumps j j ∙ rw (bytes_eq_self j) refl

  -- What a dump for `u` makes of the state, with what its lines say of each key.
  abbrev pub Dumped : Bytes → Bytes → Bytes → Running → Running → Type 0
  Dumped u j body before after =
      (says : Bytes → Option Bytes) × ((key : Bytes) → Says decode (lines body) key (says key))
      × ((v : Bytes)
          → channel_view after.tracker v ≡ (
              if bytes_eq u v
              then map_some (over says) (channel_view before.tracker v)
              else channel_view before.tracker v))
      × (Headers.get after.tracker.pending_dumps j ≡ none)

module _ (bgapi : ℕ → Bytes → EslResult EslResponse) (order : Headers → Headers)
    (decode : Bytes → Bytes) where
  event_loop-append :
      (r : Running) (xs ys : List (EslResult EslEvent))
      → event_loop bgapi order decode r (xs ++ ys)
        ≡ event_loop bgapi order decode (event_loop bgapi order decode r xs) ys
  unfolding event_loop
  event_loop-append r [] ys = refl
  event_loop-append r (x ∷ xs) ys = event_loop-append (next_event bgapi order decode r x) xs ys

  abbrev Asked : Bytes → Bytes → Running → Running → Type 0
  Asked u j before after =
      (Headers.get after.tracker.pending_dumps j ≡ some u) × (before.calls < after.calls)

  asks :
      (r : Running) (e : EslEvent) (u j : Bytes)
      → e.event_type ≡ some Types.channel_create
      → unique_id e ≡ some u
      → Names j (bgapi r.calls (codes "uuid_dump " ++ u))
      → Asked u j r (next_event bgapi order decode r (ok e))
  unfolding next_event handled dump_for request_dump
  asks r e u j ty id named =
      let t = process_event order r.tracker e in
      subst (λ o. Asked u j r (handled bgapi order decode r e o)) (sym ty)
        (subst (λ i. Asked u j r (dump_for bgapi (record r { tracker = t }) i)) (sym id)
          (expects_dump-named t u j (bgapi r.calls (codes "uuid_dump " ++ u)) named, omega arith))

  job_ends :
      (r : Running) (d : EslEvent) (j u body : Bytes)
      → d.event_type ≡ some Types.background_job
      → Named.job_uuid d ≡ some j
      → d.body ≡ some body
      → Headers.get r.tracker.pending_dumps j ≡ some u
      → Dumped decode u j body r (next_event bgapi order decode r (ok d))
  unfolding next_event handled
  job_ends r d j u body ty job has p =
      let m = Headers.remove r.tracker.pending_dumps j in
      subst (λ o. Dumped decode u j body r (handled bgapi order decode r d o)) (sym ty)
        (subst (λ t. Dumped decode u j body r (record r { tracker = t }))
          (sym (job_result decode r.tracker d j u body job has p))
          (
            dump_of decode body,
            dump_of-Says decode body,
            view-job_result decode r.tracker m u body,
            pending-job_result decode r.tracker u j body,
          ))

  -- When a channel is created and the reply to the request of its dump names a job, then whatever
  -- events come before the result of that job, the result's body is merged into that channel, if it
  -- is still tracked, and changes no other. In that channel a key that a line of the body gives in
  -- front of the line's first colon with a space reads as the decoded text behind it, as the last
  -- such line has it, and every other key as before. The job is forgotten then. No other request
  -- gets the same job.
  pub event_loop-Dumped :
      (r : Running) (e d : EslEvent) (u j body : Bytes) (results : List (EslResult EslEvent))
      → e.event_type ≡ some Types.channel_create
      → unique_id e ≡ some u
      → Names j (bgapi r.calls (codes "uuid_dump " ++ u))
      → ((n : ℕ) (command : Bytes) → Names j (bgapi n command) → n ≡ r.calls)
      → All (Unrelated j) results
      → d.event_type ≡ some Types.background_job
      → Named.job_uuid d ≡ some j
      → d.body ≡ some body
      → Dumped decode u j body
          (event_loop bgapi order decode r (ok e ∷ results))
          (event_loop bgapi order decode r (ok e ∷ results ++ ok d ∷ []))
  unfolding event_loop
  event_loop-Dumped r e d u j body results ty id named once others job_ty job has =
      let r' = next_event bgapi order decode r (ok e) in
      let before = event_loop bgapi order decode r' results in
      let waiting =
        Waits-event_loop bgapi order decode j u r.calls once r' results others
          (asks r e u j ty id named) in
      subst (Dumped decode u j body before) (sym (event_loop-append r' results (ok d ∷ [])))
        (job_ends before d j u body job_ty job has waiting.0)
