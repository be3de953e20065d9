-- ===== src/Tracker/Views.antt =====
-- What a `ChannelTracker` shows of its channels, and how each event changes it.
use mathlib.Core.List.{Permᴰ}
use mathlib.Core.List.Permᴰ
use mathlib.Core.Path.{fun_ext}
use freeswitch_esl_rs.Prelude.{
  if◌then◌else◌, Bool-cases, Option-cases, ◌≡◌, refl, ap, ◌∙◌, subst, inl, inr, Option, none, some,
  List, Bytes, codes,
}
use freeswitch_esl_rs.Text.{bytes_eq}
use freeswitch_esl_rs.Text.Search.{bytes_eq_iff}
use freeswitch_esl_rs.Text.Signed.{map_some}
use freeswitch_esl_rs.Headers.{Headers}
use freeswitch_esl_rs.Headers.Laws.{get-insert, get-insert_ne, get-remove}
use freeswitch_esl_rs.Event.Types.{EslEventType}
use freeswitch_esl_rs.Event.{EslEvent, unique_id}
use freeswitch_esl_rs.Event.Sorted.{Distinct, Distinct-Permᴰ, get-Permᴰ}
use freeswitch_esl_rs.Event.Keys.{or_else, get-inserts}
use freeswitch_esl_rs.Tracker.Tracked.{TrackedChannel, update_from_event}
use freeswitch_esl_rs.Tracker.{ChannelTracker, with_channel, unbridged, update_channel, destroyed}
use freeswitch_esl_rs.Event.Types
use freeswitch_esl_rs.Headers

-- For a channel that is tracked, the function that reads its data.
abbrev pub View : Type 0
View = Option (Bytes → Option Bytes)

unfoldable pub shown : Option TrackedChannel → View
unfolding Headers.get
shown o = map_some (λ ch. Headers.get ch.values) o

unfoldable pub channel_view : ChannelTracker → Bytes → View
unfolding shown Headers.get
channel_view t u = shown (Headers.get t.channels u)

-- What an event of a type does to the channel that it is about.
pub data Change : Type 0 where
  begins ends separates refreshes : Change

abbrev pub change_of : EslEventType → Change
change_of Types.channel_create = begins
change_of Types.channel_destroy = ends
change_of Types.channel_unbridge = separates
change_of _ = refreshes

-- The newer value, where there is one.
abbrev pub over : (Bytes → Option Bytes) → (Bytes → Option Bytes) → Bytes → Option Bytes
over new old k = or_else (new k) (old k)

abbrev pub without_other_leg : (Bytes → Option Bytes) → Bytes → Option Bytes
without_other_leg f k = if bytes_eq (codes "Other-Leg-Unique-ID") k then none else f k

-- The view once an event with these headers has been heard.
abbrev pub heard : Change → (Bytes → Option Bytes) → View → View
heard begins headers v = some headers
heard ends headers v = none
heard separates headers v = map_some (λ old. without_other_leg (over headers old)) v
heard refreshes headers v = map_some (over headers) v

-- By the type of an event and the channel that it is about, where it has both.
abbrev pub noted_of :
    (Bytes → View) → (Bytes → Option Bytes) → Option EslEventType → Option Bytes → Bytes → View
noted_of r headers none id u = r u
noted_of r headers (some ty) none u = r u
noted_of r headers (some ty) (some id) u =
    if bytes_eq id u then heard (change_of ty) headers (r u) else r u

unfoldable pub noted : (Bytes → View) → EslEvent → Bytes → View
unfolding Headers.get unique_id
noted r e u = noted_of r (Headers.get e.headers) e.event_type (unique_id e) u

with_channel_absent :
    (m : List (Bytes × TrackedChannel)) (u : Bytes) (f : TrackedChannel → TrackedChannel)
    → Headers.get m u ≡ none
    → with_channel m u f ≡ m
unfolding with_channel
with_channel_absent m u f z = rw (with_channel, z) refl

with_channel_present :
    (m : List (Bytes × TrackedChannel)) (u : Bytes) (f : TrackedChannel → TrackedChannel)
    {ch : TrackedChannel}
    → Headers.get m u ≡ some ch
    → with_channel m u f ≡ Headers.insert m u (f ch)
unfolding with_channel
with_channel_present m u f s = rw (with_channel, s) refl

get-with_channel :
    (m : List (Bytes × TrackedChannel)) (u : Bytes) (f : TrackedChannel → TrackedChannel)
    (v : Bytes)
    → Headers.get (with_channel m u f) v
      ≡ (if bytes_eq u v then map_some f (Headers.get m v) else Headers.get m v)
get-with_channel m u f v = elim (Option-cases (Headers.get m u)) [
  | inl z ↦ rw (with_channel_absent m u f z) (elim (Bool-cases (bytes_eq u v)) [
    | inl y ↦
        let z' : Headers.get m v ≡ none =
          subst (λ w. Headers.get m w ≡ none) ((bytes_eq_iff u v).0 y) z in
        rw (y, z') refl
    | inr n ↦ rw n refl
  ])
  | inr (ch, s) ↦
      with_present ch s
        (ap (λ n. Headers.get n v) (with_channel_present m u f s) ∙ get-insert m u (f ch) v)
]
  where
    with_present :
        (ch : TrackedChannel)
        → Headers.get m u ≡ some ch
        → Headers.get (with_channel m u f) v
          ≡ (if bytes_eq u v then some (f ch) else Headers.get m v)
        → Headers.get (with_channel m u f) v
          ≡ (if bytes_eq u v then map_some f (Headers.get m v) else Headers.get m v)
    with_present ch s r = elim (Bool-cases (bytes_eq u v)) [
      | inl y ↦
          let s' : Headers.get m v ≡ some ch =
            subst (λ w. Headers.get m w ≡ some ch) ((bytes_eq_iff u v).0 y) s in
          r ∙ rw (y, s') refl
      | inr n ↦ r ∙ rw n refl
    ]

shown-update :
    (f : TrackedChannel → TrackedChannel) (g : (Bytes → Option Bytes) → Bytes → Option Bytes)
    → ((ch : TrackedChannel) → Headers.get (f ch).values ≡ g (Headers.get ch.values))
    → (o : Option TrackedChannel) → shown (map_some f o) ≡ map_some g (shown o)
unfolding shown
shown-update f g h none = refl
shown-update f g h (some ch) = ap some (h ch)

pub shown-with_channel :
    (m : List (Bytes × TrackedChannel)) (u : Bytes) (f : TrackedChannel → TrackedChannel)
    (g : (Bytes → Option Bytes) → Bytes → Option Bytes)
    → ((ch : TrackedChannel) → Headers.get (f ch).values ≡ g (Headers.get ch.values))
    → (v : Bytes)
    → shown (Headers.get (with_channel m u f) v)
      ≡ (if bytes_eq u v then map_some g (shown (Headers.get m v)) else shown (Headers.get m v))
shown-with_channel m u f g h v =
    ap shown (get-with_channel m u f v) ∙ elim (Bool-cases (bytes_eq u v)) [
      | inl y ↦ rw y (shown-update f g h (Headers.get m v))
      | inr n ↦ rw n refl
    ]

module _ (order : Headers → Headers) where
  destroyed_absent :
      (t : ChannelTracker) (u : Bytes) (e : EslEvent)
      → Headers.get t.channels u ≡ none
      → destroyed order t u e ≡ t
  unfolding destroyed
  destroyed_absent t u e z = rw (destroyed, z) refl

  destroyed_present :
      (t : ChannelTracker) (u : Bytes) (e : EslEvent) {ch : TrackedChannel}
      → Headers.get t.channels u ≡ some ch
      → (destroyed order t u e).channels
        ≡ Headers.remove (Headers.insert t.channels u (update_from_event order ch e)) u
  unfolding destroyed
  destroyed_present t u e s = rw (destroyed, s) refl

  pub get-destroyed :
      (t : ChannelTracker) (u : Bytes) (e : EslEvent) (v : Bytes)
      → Headers.get (destroyed order t u e).channels v
        ≡ (if bytes_eq u v then none else Headers.get t.channels v)
  get-destroyed t u e v = elim (Option-cases (Headers.get t.channels u)) [
    | inl z ↦ rw (destroyed_absent t u e z) (elim (Bool-cases (bytes_eq u v)) [
      | inl y ↦ rw y (subst (λ w. Headers.get t.channels w ≡ none) ((bytes_eq_iff u v).0 y) z)
      | inr n ↦ rw n refl
    ])
    | inr (ch, s) ↦
        let updated = Headers.insert t.channels u (update_from_event order ch e) in
        ap (λ m. Headers.get m v) (destroyed_present t u e s)
        ∙ get-remove updated u v
        ∙ elim (Bool-cases (bytes_eq u v)) [
          | inl y ↦ rw y refl
          | inr n ↦ rw n (get-insert_ne t.channels u (update_from_event order ch e) v n)
        ]
  ]

  module _ (perm : (m : Headers) → Permᴰ (order m) m) (e : EslEvent) (d : Distinct e.headers) where
    -- The order in which the headers are walked is not seen.
    pub get-update_from_event :
        (ch : TrackedChannel)
        → Headers.get (update_from_event order ch e).values
          ≡ over (Headers.get e.headers) (Headers.get ch.values)
    unfolding update_from_event
    get-update_from_event ch = fun_ext λ k.
        let walked : Distinct (order e.headers) = Distinct-Permᴰ (Permᴰ.symm (perm e.headers)) d in
        get-inserts (order e.headers) ch.values k walked
        ∙ rw (get-Permᴰ (perm e.headers) walked k) refl

    pub get-unbridged :
        (ch : TrackedChannel)
        → Headers.get (unbridged (update_from_event order ch e)).values
          ≡ without_other_leg (over (Headers.get e.headers) (Headers.get ch.values))
    unfolding unbridged
    get-unbridged ch = fun_ext λ k.
        get-remove (update_from_event order ch e).values (codes "Other-Leg-Unique-ID") k
        ∙ ap (λ f. if bytes_eq (codes "Other-Leg-Unique-ID") k then none else f k)
            (get-update_from_event ch)

    pub channel_view-update_channel :
        (t : ChannelTracker) (u v : Bytes)
        → channel_view (update_channel order t u e) v ≡ (
            if bytes_eq u v
            then heard refreshes (Headers.get e.headers) (channel_view t v)
            else channel_view t v)
    unfolding channel_view update_channel
    channel_view-update_channel t u v =
        shown-with_channel t.channels u (λ ch. update_from_event order ch e)
          (over (Headers.get e.headers)) get-update_from_event v
