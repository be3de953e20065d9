-- ===== src/Tracker/Rows.antt =====
-- What a channel from the list of channels is known by: the fields of its row.
use freeswitch_esl_rs.Prelude.{
  Bool-cases, All, ok, ◌≡◌, refl, ap, ◌∙◌, ◌≢◌, inl, inr, false, Option, none, some, List, [], ◌∷◌,
  ◌++◌, Bytes, codes,
}
use freeswitch_esl_rs.Text.{bytes_eq, is_empty}
use freeswitch_esl_rs.Text.Search.{bytes_eq_self, bytes_eq_ne}
use freeswitch_esl_rs.Text.Signed.{map_some}
use freeswitch_esl_rs.Headers.{Headers}
use freeswitch_esl_rs.Channel.Accessors.{and_then}
use freeswitch_esl_rs.Tracker.{ChannelTracker}
use freeswitch_esl_rs.Tracker.Views.{channel_view, noted_of, noted}
use freeswitch_esl_rs.Tracker.Heard.{channel_view-process_event}
use freeswitch_esl_rs.Tracker.Bootstrap.{
  db_to_event, JsonRows, text_at, fake_event, fake_channel_create, bootstrap_row, bootstrap_rows,
  bootstrap_json, bootstrap,
}
use freeswitch_esl_rs.Tracker.Started.{fake_event-type}
use freeswitch_esl_rs.Tracker.Fields.{
  filled_in, fake_event-Filled, fake_event-IsMapped, fake_event-unique_id,
}
use mathlib.Core.List.{Permᴰ}
use freeswitch_esl_rs.Event.Types
use freeswitch_esl_rs.Headers

module _ (J : JsonRows) (order : Headers → Headers) (perm : (m : Headers) → Permᴰ (order m) m) where
  -- What a row's event changes.
  row-view :
      (s : ChannelTracker × List Bytes) (row : J.Value) (u : Bytes)
      → channel_view (bootstrap_row J order s (some (fake_event J row))).0 u
        ≡ noted_of
            (channel_view s.0)
            (Headers.get (fake_event J row).headers)
            (some Types.channel_create)
            (filled_in (text_at J row (codes "uuid")))
            u
  unfolding bootstrap_row
  row-view s row u =
      channel_view-process_event order perm s.0 (fake_event J row) u (fake_event-IsMapped J row)
      ∙ unfold noted in rw (fake_event-type J row, fake_event-unique_id J row) refl

  row-other :
      (s : ChannelTracker × List Bytes) (row : J.Value) (u : Bytes)
      → text_at J row (codes "uuid") ≢ some u
      → channel_view (bootstrap_row J order s (fake_channel_create J row)).0 u ≡ channel_view s.0 u
  unfolding fake_channel_create
  row-other s row u ne = of_text (text_at J row (codes "uuid")) refl
    where
      about_other :
          (o : Option Bytes)
          → o ≢ some u
          → noted_of
              (channel_view s.0)
              (Headers.get (fake_event J row).headers)
              (some Types.channel_create)
              (filled_in o)
              u
            ≡ channel_view s.0 u
      about_other none ne = refl
      about_other (some v) ne = elim (Bool-cases (is_empty v)) [
        | inl y ↦ rw y refl
        | inr n ↦
            let other : bytes_eq v u ≡ false = bytes_eq_ne v u (λ e. ne (ap some e)) in
            rw (n, other) refl
      ]

      of_text :
          (o : Option Bytes)
          → text_at J row (codes "uuid") ≡ o
          → channel_view (bootstrap_row J order s (map_some (λ _. fake_event J row) o)).0 u
            ≡ channel_view s.0 u
      of_text none e = unfold bootstrap_row in refl
      of_text (some v) e = row-view s row u ∙ about_other (text_at J row (codes "uuid")) ne

  rows-other :
      (s : ChannelTracker × List Bytes) (rows : List J.Value) (u : Bytes)
      → All (λ row. text_at J row (codes "uuid") ≢ some u) rows
      → channel_view (bootstrap_rows J order s rows).0 u ≡ channel_view s.0 u
  unfolding bootstrap_rows
  rows-other s [] u h = refl
  rows-other s (row ∷ rows) u h =
      rows-other (bootstrap_row J order s (fake_channel_create J row)) rows u h.1
      ∙ row-other s row u h.0

  bootstrap_rows-append :
      (s : ChannelTracker × List Bytes) (rows more : List J.Value)
      → bootstrap_rows J order s (rows ++ more)
        ≡ bootstrap_rows J order (bootstrap_rows J order s rows) more
  unfolding bootstrap_rows
  bootstrap_rows-append s [] more = refl
  bootstrap_rows-append s (row ∷ rows) more =
      bootstrap_rows-append (bootstrap_row J order s (fake_channel_create J row)) rows more

  bootstrap-rows :
      (t : ChannelTracker) (body : Bytes) (json list : J.Value) (rows : List J.Value)
      → J.from_str body ≡ ok json
      → J.member json (codes "rows") ≡ some list
      → J.as_array list ≡ some rows
      → bootstrap J order t body ≡ bootstrap_rows J order (t, []) rows
  unfolding bootstrap bootstrap_json
  bootstrap-rows t body json list rows p m a = rw (bootstrap, p, m, a) refl

  row-begun :
      (s : ChannelTracker × List Bytes) (row : J.Value) (u : Bytes)
      → text_at J row (codes "uuid") ≡ some u
      → is_empty u ≡ false
      → channel_view (bootstrap_row J order s (fake_channel_create J row)).0 u
        ≡ some (Headers.get (fake_event J row).headers)
  row-begun s row u has nonempty =
      let made : fake_channel_create J row ≡ some (fake_event J row) =
        unfold fake_channel_create in rw has refl in
      ap (λ o. channel_view (bootstrap_row J order s o).0 u) made
      ∙ row-view s row u
      ∙ rw (has, nonempty, bytes_eq_self u) refl

  view_after :
      (t : ChannelTracker) (body : Bytes) (json list row : J.Value) (before after : List J.Value)
      (u : Bytes)
      → J.from_str body ≡ ok json
      → J.member json (codes "rows") ≡ some list
      → J.as_array list ≡ some (before ++ row ∷ after)
      → text_at J row (codes "uuid") ≡ some u
      → is_empty u ≡ false
      → All (λ r. text_at J r (codes "uuid") ≢ some u) after
      → channel_view (bootstrap J order t body).0 u ≡ some (Headers.get (fake_event J row).headers)
  unfolding bootstrap_rows
  view_after t body json list row before after u p m a has nonempty others =
      let s = bootstrap_rows J order (t, []) before in
      ap (λ r. channel_view r.0 u)
        (bootstrap-rows t body json list (before ++ row ∷ after) p m a
          ∙ bootstrap_rows-append (t, []) before (row ∷ after))
      ∙ rows-other (bootstrap_row J order s (fake_channel_create J row)) after u others
      ∙ row-begun s row u has nonempty

  -- After the list of channels has been read, a channel that has a row, and no later one, and a UUID
  -- that is not empty, reads in each header of the table as the field of its last row says, where
  -- that is a text and not empty, and has no other value there.
  pub bootstrap-filled_in :
      (t : ChannelTracker) (body : Bytes) (json list row : J.Value) (before after : List J.Value)
      (u : Bytes)
      → J.from_str body ≡ ok json
      → J.member json (codes "rows") ≡ some list
      → J.as_array list ≡ some (before ++ row ∷ after)
      → text_at J row (codes "uuid") ≡ some u
      → is_empty u ≡ false
      → All (λ r. text_at J r (codes "uuid") ≢ some u) after
      → All
          (λ f.
            and_then (channel_view (bootstrap J order t body).0 u) (λ read. read f.1)
            ≡ filled_in (text_at J row f.0))
          db_to_event
  bootstrap-filled_in t body json list row before after u p m a has nonempty others =
      rw (view_after t body json list row before after u p m a has nonempty others)
        (fake_event-Filled J row)
