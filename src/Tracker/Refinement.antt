-- ===== src/Tracker/Refinement.antt =====
-- The loop of the tracker against a registry: functions from UUIDs to what is known of a channel, and
-- from jobs to the channel whose dump they fetch.
use mathlib.Core.List.{Permᴰ}
use freeswitch_esl_rs.Prelude.{
  if◌then◌else◌, Option-cases, All, ok, err, ℕ, ◌+◌, ◌≡◌, refl, ap, ◌∙◌, inl, inr, Option, none,
  some, List, [], ◌∷◌, ◌++◌, Bytes, codes,
}
use freeswitch_esl_rs.Text.{bytes_eq}
use freeswitch_esl_rs.Text.Signed.{map_some}
use freeswitch_esl_rs.Error.{EslResult}
use freeswitch_esl_rs.Headers.{Headers}
use freeswitch_esl_rs.Headers.Laws.{get-insert, get-remove}
use freeswitch_esl_rs.Event.Types.{EslEventType}
use freeswitch_esl_rs.Event.{EslEvent, unique_id}
use freeswitch_esl_rs.Protocol.Mapped.{IsMapResult}
use freeswitch_esl_rs.Command.Response.{EslResponse}
use freeswitch_esl_rs.Tracker.{
  ChannelTracker, process_event, apply_dump, job_done, handle_background_job,
}
use freeswitch_esl_rs.Tracker.Views.{View, channel_view, over, noted}
use freeswitch_esl_rs.Tracker.Heard.{IsMapped, channel_view-process_event}
use freeswitch_esl_rs.Tracker.Main.{
  Running, expects_dump, request_dump, dump_for, handled, next_event, event_loop,
}
use freeswitch_esl_rs.Tracker.Dumps.{dump_of}
use freeswitch_esl_rs.Tracker.Jobs.{pending-process_event}
use freeswitch_esl_rs.Tracker.Arrival.{view-job_result}
use mathlib.Core.Path.{fun_ext}
use freeswitch_esl_rs.Event.Types
use freeswitch_esl_rs.Event.Named
use freeswitch_esl_rs.Command.Response
use freeswitch_esl_rs.Headers

pub record Registry : Type 0 where
  pub entries : Bytes → View
  pub jobs : Bytes → Option Bytes
  pub requested : ℕ

-- A function, changed at one key.
abbrev changed_at {ℓ} : {A : Type ℓ} → Bytes → A → (Bytes → A) → Bytes → A
changed_at k a f j = if bytes_eq k j then a else f j

-- A request names the job that fetches the dump, or none.
abbrev awaits_job : Registry → Bytes → Option Bytes → Registry
awaits_job g u none = record g { requested = g.requested + 1 }
awaits_job g u (some j) = record g {
  jobs = changed_at j (some u) g.jobs;
  requested = g.requested + 1;
}

abbrev awaits : Registry → Bytes → EslResult EslResponse → Registry
awaits g u (err e) = awaits_job g u none
awaits g u (ok response) = awaits_job g u (Response.job_uuid response)

unfoldable pub registry : Running → Registry
unfolding channel_view Headers.get
registry r = record {
  entries = channel_view r.tracker;
  jobs = Headers.get r.tracker.pending_dumps;
  requested = r.calls;
}

registry_ext :
    {g h : Registry} → g.entries ≡ h.entries → g.jobs ≡ h.jobs → g.requested ≡ h.requested → g ≡ h
registry_ext p q n = λ i. record { entries = p i; jobs = q i; requested = n i }

registry-expects_dump :
    (t : ChannelTracker) (n : ℕ) (u : Bytes) (reply : EslResult EslResponse)
    → registry (record { tracker = expects_dump t u reply; calls = n + 1 })
      ≡ awaits (registry (record { tracker = t; calls = n })) u reply
unfolding registry expects_dump channel_view
registry-expects_dump t n u (err e) = refl
registry-expects_dump t n u (ok response) = elim (Option-cases (Response.job_uuid response)) [
  | inl z ↦ rw (expects_dump, z) refl
  | inr (j, s) ↦
      rw (expects_dump, s) (registry_ext refl (fun_ext λ i. get-insert t.pending_dumps j u i) refl)
]

module _ (bgapi : ℕ → Bytes → EslResult EslResponse) (order : Headers → Headers)
    (decode : Bytes → Bytes) where
  abbrev requests : Registry → Option Bytes → Registry
  requests g none = g
  requests g (some u) = awaits g u (bgapi g.requested (codes "uuid_dump " ++ u))

  -- A dump is merged into what is known of a channel.
  abbrev merged : Bytes → Option Bytes → (Bytes → View) → Bytes → View
  merged u none f v = f v
  merged u (some body) f v =
      if bytes_eq u v then map_some (over (dump_of decode body)) (f v) else f v

  -- The result of a job, by the channel that it was for.
  abbrev ends_job : Registry → Bytes → Option Bytes → Option Bytes → Registry
  ends_job g j none body = g
  ends_job g j (some u) body = record g {
    entries = merged u body g.entries;
    jobs = changed_at j none g.jobs;
  }

  abbrev fetches : Registry → Option Bytes → Option Bytes → Registry
  fetches g none body = g
  fetches g (some j) body = ends_job g j (g.jobs j) body

  abbrev acts : Registry → EslEvent → Option EslEventType → Registry
  acts g e (some Types.heartbeat) = g
  acts g e (some Types.background_job) = fetches g (Named.job_uuid e) e.body
  acts g e (some Types.channel_create) =
      requests (record g { entries = noted g.entries e }) (unique_id e)
  acts g e _ = record g { entries = noted g.entries e }

  -- What a registry becomes by what `recv` returns.
  abbrev follows : Registry → EslResult EslEvent → Registry
  follows g (err e) = g
  follows g (ok e) = acts g e e.event_type

  abbrev pub follows_all : Registry → List (EslResult EslEvent) → Registry
  follows_all g [] = g
  follows_all g (x ∷ xs) = follows_all (follows g x) xs

  registry-dump_for :
      (r : Running) (i : Option Bytes) → registry (dump_for bgapi r i) ≡ requests (registry r) i
  unfolding dump_for request_dump registry
  registry-dump_for r none = refl
  registry-dump_for r (some u) =
      registry-expects_dump r.tracker r.calls u (bgapi r.calls (codes "uuid_dump " ++ u))

  registry-job_done :
      (t : ChannelTracker) (n : ℕ) (j u : Bytes) (body : Option Bytes)
      → registry (record {
        tracker =
            job_done decode (record t { pending_dumps = Headers.remove t.pending_dumps j }) u body;
        calls = n;
      })
        ≡ ends_job (registry (record { tracker = t; calls = n })) j (some u) body
  unfolding registry job_done apply_dump channel_view
  registry-job_done t n j u none =
      registry_ext refl (fun_ext λ i. get-remove t.pending_dumps j i) refl
  registry-job_done t n j u (some body) =
      registry_ext
        (fun_ext λ v. view-job_result decode t (Headers.remove t.pending_dumps j) u body v)
        (fun_ext λ i. get-remove t.pending_dumps j i) refl

  registry-handle_background_job :
      (t : ChannelTracker) (n : ℕ) (e : EslEvent)
      → registry (record { tracker = handle_background_job decode t e; calls = n })
        ≡ fetches (registry (record { tracker = t; calls = n })) (Named.job_uuid e) e.body
  unfolding registry handle_background_job channel_view
  registry-handle_background_job t n e = elim (Option-cases (Named.job_uuid e)) [
    | inl z ↦ rw (handle_background_job, z) refl
    | inr (j, s) ↦ elim (Option-cases (Headers.get t.pending_dumps j)) [
      | inl z ↦ rw (handle_background_job, s, z) refl
      | inr (u, p) ↦ rw (handle_background_job, s, p) (registry-job_done t n j u e.body)
    ]
  ]

  module _ (perm : (m : Headers) → Permᴰ (order m) m) where
    registry-process_event :
        (r : Running) (e : EslEvent)
        → IsMapped e
        → registry (record r { tracker = process_event order r.tracker e })
          ≡ record (registry r) { entries = noted (channel_view r.tracker) e }
    unfolding registry
    registry-process_event r e d =
        registry_ext (fun_ext λ v. channel_view-process_event order perm r.tracker e v d)
          (ap Headers.get (pending-process_event order r.tracker e)) refl

    registry-handled :
        (r : Running) (e : EslEvent) (o : Option EslEventType)
        → IsMapped e
        → registry (handled bgapi order decode r e o) ≡ acts (registry r) e o
    unfolding handled registry channel_view
    registry-handled r e (some Types.heartbeat) d = refl
    registry-handled r e (some Types.background_job) d =
        registry-handle_background_job r.tracker r.calls e
    registry-handled r e (some Types.channel_create) d =
        registry-dump_for (record r { tracker = process_event order r.tracker e }) (unique_id e)
        ∙ ap (λ g. requests g (unique_id e)) (registry-process_event r e d)
    registry-handled r e (some ty) d = registry-process_event r e d
    registry-handled r e none d = registry-process_event r e d

    registry-next_event :
        (r : Running) (x : EslResult EslEvent)
        → IsMapResult x
        → registry (next_event bgapi order decode r x) ≡ follows (registry r) x
    unfolding next_event
    registry-next_event r (err e) d = refl
    registry-next_event r (ok e) d = registry-handled r e e.event_type d

    -- The loop does what a registry of functions does: whatever `recv` and `bgapi` return, a channel
    -- reads as its create event, the events about it after that and the dumps requested for it say, the
    -- newest last, without the other leg from an unbridge event on, and not at all once it is
    -- destroyed. What is said of one channel leaves all others alone, a dump goes to the channel
    -- that its job was started for, and a job's result counts once. The header names of each event
    -- differ, and the order in which a map is walked is not seen.
    pub registry-event_loop :
        (r : Running) (results : List (EslResult EslEvent))
        → All IsMapResult results
        → registry (event_loop bgapi order decode r results) ≡ follows_all (registry r) results
    unfolding event_loop
    registry-event_loop r [] d = refl
    registry-event_loop r (x ∷ xs) d =
        registry-event_loop (next_event bgapi order decode r x) xs d.1
        ∙ ap (λ g. follows_all g xs) (registry-next_event r x d.0)
