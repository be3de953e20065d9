-- ===== src/Tracker/Started.antt =====
-- What the tracker knows once it has read the list of channels.
use freeswitch_esl_rs.Prelude.{
  Bool-cases, Result, ok, err, ◌≡◌, refl, sym, ap, ◌∙◌, inl, inr, Bool, true, false, ◌||◌, Option,
  none, some, List, [], ◌∷◌, arith, Bytes, codes, unwrap_or,
}
use freeswitch_esl_rs.Text.{bytes_eq}
use freeswitch_esl_rs.Text.Signed.{map_some}
use freeswitch_esl_rs.Headers.{Headers}
use freeswitch_esl_rs.Headers.Laws.{get-insert}
use freeswitch_esl_rs.Event.{EslEvent, with_type, set_header, unique_id}
use freeswitch_esl_rs.Channel.Accessors.{and_then}
use freeswitch_esl_rs.Tracker.Tracked.{update_from_event}
use freeswitch_esl_rs.Tracker.{ChannelTracker, process_typed, process_named, process_event}
use freeswitch_esl_rs.Tracker.Bootstrap.{
  db_to_event, JsonRows, text_at, with_field, with_fields, fake_event, fake_channel_create, pushed,
  bootstrap_row, bootstrap_rows, bootstrap_json, bootstrap,
}
use freeswitch_esl_rs.Event.Types
use freeswitch_esl_rs.Headers
use freeswitch_esl_rs.Tracker.Tracked

abbrev is_some {ℓ} : {A : Type ℓ} → Option A → Bool
is_some none = false
is_some (some a) = true

unfoldable pub is_tracked : ChannelTracker → Bytes → Bool
unfolding Headers.get
is_tracked t u = is_some (Headers.get t.channels u)

abbrev pub listed : Bytes → List Bytes → Bool
listed u [] = false
listed u (x ∷ xs) = bytes_eq x u || listed u xs

-- Whether the event is about the channel.
abbrev about : Bytes → Option Bytes → Bool
about u none = false
about u (some id) = bytes_eq id u

listed-pushed :
    (J : JsonRows) (order : Headers → Headers) (u : Bytes) (uuids : List Bytes) (i : Option Bytes)
    → listed u (pushed J order uuids i) ≡ about u i || listed u uuids
listed-pushed J order u uuids none = refl
listed-pushed J order u [] (some x) = ground arith
listed-pushed J order u (y ∷ uuids) (some x) =
    ground (arith, listed-pushed J order u uuids (some x))

module _ (order : Headers → Headers) where
  is_tracked-begun :
      (t : ChannelTracker) (e : EslEvent) (i : Option Bytes) (u : Bytes)
      → is_tracked (process_named order t e (some Types.channel_create) i) u
        ≡ about u i || is_tracked t u
  unfolding is_tracked process_named process_typed
  is_tracked-begun t e none u = refl
  is_tracked-begun t e (some id) u =
      ap is_some (get-insert t.channels id (update_from_event order Tracked.new e) u)
      ∙ elim (Bool-cases (bytes_eq id u)) [ inl y ↦ rw y refl | inr n ↦ rw n refl ]

module _ (J : JsonRows) where
  with_fields-type :
      (row : J.Value) (table : List (Bytes × Bytes)) (e : EslEvent)
      → (with_fields J row table e).event_type ≡ e.event_type
  unfolding with_fields
  with_fields-type row [] e = refl
  with_fields-type row ((k, h) ∷ table) e =
      with_fields-type row table (with_field J e h (text_at J row k)) ∙ one (text_at J row k)
    where
      one : (o : Option Bytes) → (with_field J e h o).event_type ≡ e.event_type
      one none = unfold with_field in refl
      one (some v) = unfold with_field set_header in ground arith

  abbrev IsCreate : Option EslEvent → Type 0
  IsCreate none = Unit
  IsCreate (some e) = e.event_type ≡ some Types.channel_create

  pub fake_event-type : (row : J.Value) → (fake_event J row).event_type ≡ some Types.channel_create
  unfolding fake_event with_type
  fake_event-type row = with_fields-type row db_to_event (with_type Types.channel_create)

  fake-IsCreate : (row : J.Value) → IsCreate (fake_channel_create J row)
  unfolding fake_channel_create
  fake-IsCreate row = of_text (text_at J row (codes "uuid"))
    where
      of_text : (o : Option Bytes) → IsCreate (map_some (λ _. fake_event J row) o)
      of_text none = tt
      of_text (some v) = fake_event-type row

  -- Whether the event of a row, if it has one, is about the channel.
  unfoldable about_event : Bytes → Option EslEvent → Bool
  unfolding unique_id
  about_event u none = false
  about_event u (some e) = about u (unique_id e)

  module _ (order : Headers → Headers) (u : Bytes) where
    bootstrap_row-is_tracked :
        (s : ChannelTracker × List Bytes) (o : Option EslEvent)
        → IsCreate o
        → (is_tracked (bootstrap_row J order s o).0 u ≡ about_event u o || is_tracked s.0 u)
          × (listed u (bootstrap_row J order s o).1 ≡ about_event u o || listed u s.1)
    unfolding bootstrap_row about_event process_event
    bootstrap_row-is_tracked s none c = (refl, refl)
    bootstrap_row-is_tracked (t, uuids) (some e) c = (
      ap (λ o. is_tracked (process_named order t e o (unique_id e)) u) c
          ∙ is_tracked-begun order t e (unique_id e) u,
      listed-pushed J order u uuids (unique_id e),
    )

    -- Each channel is tracked in the end if it was before or one of the rows is about it, and
    -- listed likewise.
    bootstrap_rows-is_tracked :
        (s : ChannelTracker × List Bytes) (rows : List J.Value)
        → (b : Bool) × (is_tracked (bootstrap_rows J order s rows).0 u ≡ b || is_tracked s.0 u)
          × (listed u (bootstrap_rows J order s rows).1 ≡ b || listed u s.1)
    unfolding bootstrap_rows
    bootstrap_rows-is_tracked s [] = (false, refl, refl)
    bootstrap_rows-is_tracked s (row ∷ rows) =
        let o = fake_channel_create J row in
        let (b, t, l) = bootstrap_rows-is_tracked (bootstrap_row J order s o) rows in
        let (p, q) = bootstrap_row-is_tracked s o (fake-IsCreate row) in
        (
          about_event u o || b,
          t ∙ rw p (swap b (about_event u o) _),
          l ∙ rw q (swap b (about_event u o) _),
        )
      where
        swap : (b a c : Bool) → b || (a || c) ≡ (a || b) || c
        swap b a c = ground arith

    bootstrap_json-is_tracked :
        (t : ChannelTracker) (r : Result Bytes J.Value)
        → is_tracked (bootstrap_json J order t r).0 u
          ≡ listed u (bootstrap_json J order t r).1 || is_tracked t u
    unfolding bootstrap_json
    bootstrap_json-is_tracked t (err e) = refl
    bootstrap_json-is_tracked t (ok json) =
        let rows = unwrap_or (and_then (J.member json (codes "rows")) J.as_array) [] in
        let (b, p, q) = bootstrap_rows-is_tracked (t, []) rows in
        p ∙ ap (λ c. c || is_tracked t u) (sym (q ∙ ground arith))

    -- After the list of channels has been read, whatever it is, the tracked channels are those that
    -- were tracked before and those whose UUIDs are returned: none for which a dump is requested is
    -- unknown, and none becomes known without a request.
    pub bootstrap-is_tracked :
        (t : ChannelTracker) (body : Bytes)
        → is_tracked (bootstrap J order t body).0 u
          ≡ listed u (bootstrap J order t body).1 || is_tracked t u
    unfolding bootstrap
    bootstrap-is_tracked t body = bootstrap_json-is_tracked t (J.from_str body)
