-- ===== src/Tracker/Jobs.antt =====
-- The job of a dump between its request and its result.
use freeswitch_esl_rs.Prelude.{
  Option-cases, All, ok, err, ℕ, ◌<◌, ◌≡◌, refl, ap, ◌∙◌, ◌≢◌, inl, inr, false, Option, none, some,
  List, [], ◌∷◌, ◌++◌, arith, Bytes, codes,
}
use freeswitch_esl_rs.Text.{bytes_eq}
use freeswitch_esl_rs.Text.Search.{bytes_eq_ne}
use freeswitch_esl_rs.Error.{EslResult}
use freeswitch_esl_rs.Headers.{Headers}
use freeswitch_esl_rs.Headers.Laws.{get-insert_self, get-insert_ne, get-remove}
use freeswitch_esl_rs.Event.Types.{EslEventType}
use freeswitch_esl_rs.Event.{EslEvent, unique_id}
use freeswitch_esl_rs.Command.Response.{other, EslResponse}
use freeswitch_esl_rs.Tracker.{
  ChannelTracker, update_channel, destroyed, process_typed, process_named, process_event,
  apply_dump, job_done, handle_background_job,
}
use freeswitch_esl_rs.Tracker.Main.{
  Running, expects_dump, request_dump, dump_for, handled, next_event, event_loop,
}
use freeswitch_esl_rs.Event.Types
use freeswitch_esl_rs.Event.Named
use freeswitch_esl_rs.Command.Response
use freeswitch_esl_rs.Headers

module _ (order : Headers → Headers) (t : ChannelTracker) (e : EslEvent) where
  pending-destroyed : (u : Bytes) → (destroyed order t u e).pending_dumps ≡ t.pending_dumps
  unfolding destroyed
  pending-destroyed u = elim (Option-cases (Headers.get t.channels u)) [
    | inl z ↦ rw (destroyed, z) refl
    | inr (ch, s) ↦ rw (destroyed, s) refl
  ]

  pending-process_typed :
      (ty : EslEventType) (u : Bytes)
      → (process_typed order t e ty u).pending_dumps ≡ t.pending_dumps
  unfolding process_typed update_channel
  pending-process_typed Types.channel_destroy u = pending-destroyed u
  pending-process_typed _ u = refl

  pending-process_named :
      (o : Option EslEventType) (i : Option Bytes)
      → (process_named order t e o i).pending_dumps ≡ t.pending_dumps
  unfolding process_named
  pending-process_named none i = refl
  pending-process_named (some ty) none = refl
  pending-process_named (some ty) (some u) = pending-process_typed ty u

  -- Channel events leave the jobs alone.
  pub pending-process_event : (process_event order t e).pending_dumps ≡ t.pending_dumps
  unfolding process_event
  pending-process_event = pending-process_named e.event_type (unique_id e)

-- The reply names the job.
abbrev pub Names : Bytes → EslResult EslResponse → Type 0
Names j r = (response : EslResponse) × (r ≡ ok response) × (Response.job_uuid response ≡ some j)

-- Not the result of the job.
abbrev pub Unrelated : Bytes → EslResult EslEvent → Type 0
Unrelated j (err e) = Unit
Unrelated j (ok e) = e.event_type ≡ some Types.background_job → Named.job_uuid e ≢ some j

pending-expects_dump :
    (t : ChannelTracker) (u j : Bytes) (r : EslResult EslResponse)
    → ¬ Names j r
    → Headers.get (expects_dump t u r).pending_dumps j ≡ Headers.get t.pending_dumps j
unfolding expects_dump
pending-expects_dump t u j (err e) n = refl
pending-expects_dump t u j (ok response) n = elim (Option-cases (Response.job_uuid response)) [
  | inl z ↦ rw (expects_dump, z) refl
  | inr (i, s) ↦
      rw (expects_dump, s)
        (get-insert_ne t.pending_dumps i u j
          (bytes_eq_ne i j (λ e. n (response, refl, s ∙ ap some e))))
]

pub expects_dump-named :
    (t : ChannelTracker) (u j : Bytes) (r : EslResult EslResponse)
    → Names j r
    → Headers.get (expects_dump t u r).pending_dumps j ≡ some u
unfolding expects_dump
expects_dump-named t u j r (response, e, s) =
    rw (expects_dump, e, s) (get-insert_self t.pending_dumps j u)

module _ (decode : Bytes → Bytes) (t : ChannelTracker) where
  pending-job_done :
      (u : Bytes) (b : Option Bytes) → (job_done decode t u b).pending_dumps ≡ t.pending_dumps
  unfolding job_done apply_dump
  pending-job_done u none = refl
  pending-job_done u (some b) = refl

module _ (decode : Bytes → Bytes) (t : ChannelTracker) (e : EslEvent) where
  pending-handle_background_job :
      (j : Bytes)
      → Named.job_uuid e ≢ some j
      → Headers.get (handle_background_job decode t e).pending_dumps j
        ≡ Headers.get t.pending_dumps j
  unfolding handle_background_job
  pending-handle_background_job j ne = elim (Option-cases (Named.job_uuid e)) [
    | inl z ↦ rw (handle_background_job, z) refl
    | inr (i, s) ↦ elim (Option-cases (Headers.get t.pending_dumps i)) [
      | inl z ↦ rw (handle_background_job, s, z) refl
      | inr (u, p) ↦
          let other : bytes_eq i j ≡ false = bytes_eq_ne i j (λ q. ne (s ∙ ap some q)) in
          rw (handle_background_job, s, p)
            (ap (λ m. Headers.get m j)
                (pending-job_done decode
                  (record t { pending_dumps = Headers.remove t.pending_dumps i }) u e.body)
              ∙ get-remove t.pending_dumps i j
              ∙ rw other refl)
    ]
  ]

module _ (bgapi : ℕ → Bytes → EslResult EslResponse) (order : Headers → Headers)
    (decode : Bytes → Bytes) (j u : Bytes) (asked : ℕ)
    (once : (n : ℕ) (command : Bytes) → Names j (bgapi n command) → n ≡ asked) where
  -- The job is known, and it has been asked for.
  abbrev pub Waits : Running → Type 0
  Waits r = (Headers.get r.tracker.pending_dumps j ≡ some u) × (asked < r.calls)

  Waits-request_dump : (r : Running) (id : Bytes) → Waits r → Waits (request_dump bgapi r id)
  unfolding request_dump
  Waits-request_dump r id (p, l) =
      let command = codes "uuid_dump " ++ id in
      let new : ¬ Names j (bgapi r.calls command) =
        λ n. let e : r.calls ≡ asked = once r.calls command n in absurd (omega arith) in
      (pending-expects_dump r.tracker id j (bgapi r.calls command) new ∙ p, omega arith)

  Waits-dump_for : (r : Running) (i : Option Bytes) → Waits r → Waits (dump_for bgapi r i)
  unfolding dump_for
  Waits-dump_for r none w = w
  Waits-dump_for r (some id) w = Waits-request_dump r id w

  Waits-process_event :
      (r : Running) (e : EslEvent)
      → Waits r
      → Waits (record r { tracker = process_event order r.tracker e })
  Waits-process_event r e (p, l) =
      (ap (λ m. Headers.get m j) (pending-process_event order r.tracker e) ∙ p, l)

  Waits-handled :
      (r : Running) (e : EslEvent) (o : Option EslEventType)
      → (o ≡ some Types.background_job → Named.job_uuid e ≢ some j)
      → Waits r
      → Waits (handled bgapi order decode r e o)
  unfolding handled
  Waits-handled r e (some Types.heartbeat) n w = w
  Waits-handled r e (some Types.background_job) n (p, l) =
      (pending-handle_background_job decode r.tracker e j (n refl) ∙ p, l)
  Waits-handled r e (some Types.channel_create) n w =
      Waits-dump_for (record r { tracker = process_event order r.tracker e }) (unique_id e)
        (Waits-process_event r e w)
  Waits-handled r e (some ty) n w = Waits-process_event r e w
  Waits-handled r e none n w = Waits-process_event r e w

  Waits-next_event :
      (r : Running) (result : EslResult EslEvent)
      → Unrelated j result
      → Waits r
      → Waits (next_event bgapi order decode r result)
  unfolding next_event
  Waits-next_event r (err e) n w = w
  Waits-next_event r (ok e) n w = Waits-handled r e e.event_type n w

  pub Waits-event_loop :
      (r : Running) (results : List (EslResult EslEvent))
      → All (Unrelated j) results
      → Waits r
      → Waits (event_loop bgapi order decode r results)
  unfolding event_loop
  Waits-event_loop r [] n w = w
  Waits-event_loop r (result ∷ results) n w =
      Waits-event_loop (next_event bgapi order decode r result) results n.1
        (Waits-next_event r result n.0 w)
