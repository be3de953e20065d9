-- ===== src/Tracker/Dumps.antt =====
-- From the request of a dump to its result, which comes as an event much later.
use freeswitch_esl_rs.Prelude.{
  if◌then◌else◌, Bool-cases, take, drop, ℕ, ◌+◌, ◌≡◌, refl, sym, ap, ◌∙◌, inl, inr, Option, none,
  some, List, [], ◌∷◌, Bytes, codes,
}
use freeswitch_esl_rs.Text.{bytes_eq}
use freeswitch_esl_rs.Text.Trim.{lines}
use freeswitch_esl_rs.Text.Signed.{map_some}
use freeswitch_esl_rs.Buffer.Pattern.{index_of}
use freeswitch_esl_rs.Headers.{Headers}
use freeswitch_esl_rs.Headers.Laws.{get-insert}
use freeswitch_esl_rs.Event.Keys.{or_else}
use freeswitch_esl_rs.Tracker.Tracked.{dump_line, dump_lines, update_from_dump}
use freeswitch_esl_rs.Tracker.{ChannelTracker, apply_dump}
use freeswitch_esl_rs.Tracker.Views.{channel_view, over, shown-with_channel}
use mathlib.Core.Path.{fun_ext}
use freeswitch_esl_rs.Headers

module _ (decode : Bytes → Bytes) where
  get-dump_line :
      (m : Headers) (line k : Bytes)
      → Headers.get (dump_line decode m line) k
        ≡ or_else (Headers.get (dump_line decode [] line) k) (Headers.get m k)
  unfolding dump_line Headers.get
  get-dump_line m line k = at (index_of line (codes ": ")) refl
    where
      at :
          (o : Option ℕ)
          → index_of line (codes ": ") ≡ o
          → Headers.get (dump_line decode m line) k
            ≡ or_else (Headers.get (dump_line decode [] line) k) (Headers.get m k)
      at none z = rw (dump_line, z) refl
      at (some i) s = rw (dump_line, s) (both (take i line) (decode (drop (i + 2) line)))
        where
          both :
              (j v : Bytes)
              → Headers.get (Headers.insert m j v) k
                ≡ or_else (Headers.get (Headers.insert [] j v) k) (Headers.get m k)
          both j v = get-insert m j v k ∙ elim (Bool-cases (bytes_eq j k)) [
            | inl y ↦ rw (get-insert [] j v k, y) refl
            | inr n ↦ rw (get-insert [] j v k, n) refl
          ]

  or_else_assoc : (a b c : Option Bytes) → or_else a (or_else b c) ≡ or_else (or_else a b) c
  or_else_assoc none b c = refl
  or_else_assoc (some v) b c = refl

  pub get-dump_lines :
      (ls : List Bytes) (m : Headers) (k : Bytes)
      → Headers.get (dump_lines decode m ls) k
        ≡ or_else (Headers.get (dump_lines decode [] ls) k) (Headers.get m k)
  unfolding dump_lines Headers.get
  get-dump_lines [] m k = refl
  get-dump_lines (l ∷ ls) m k =
      let rest = Headers.get (dump_lines decode [] ls) k in
      get-dump_lines ls (dump_line decode m l) k
      ∙ ap (or_else rest) (get-dump_line m l k)
      ∙ or_else_assoc rest (Headers.get (dump_line decode [] l) k) (Headers.get m k)
      ∙ ap (λ o. or_else o (Headers.get m k)) (sym (get-dump_lines ls (dump_line decode [] l) k))

  -- What a dump says, on its own.
  abbrev pub dump_of : Bytes → Bytes → Option Bytes
  dump_of body k = Headers.get (dump_lines decode [] (lines body)) k

  pub channel_view-apply_dump :
      (t : ChannelTracker) (u body v : Bytes)
      → channel_view (apply_dump decode t u body) v ≡ (
          if bytes_eq u v
          then map_some (over (dump_of body)) (channel_view t v)
          else channel_view t v)
  unfolding channel_view apply_dump update_from_dump
  channel_view-apply_dump t u body v =
      shown-with_channel t.channels u (λ ch. update_from_dump decode ch body) (over (dump_of body))
        (λ ch. fun_ext λ k. get-dump_lines (lines body) ch.values k) v
