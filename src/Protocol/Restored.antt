-- ===== src/Protocol/Restored.antt =====
-- What is read from a plain event once its lines are inserted, its body set and its type named.
use freeswitch_esl_rs.Prelude.{
  if◌then◌else◌, Bool-cases, Option-cases, length, ◌≡◌, refl, ◌∙◌, inl, inr, Option, none, some, [],
  ◌∷◌, arith, Bytes, unwrap_or,
}
use freeswitch_esl_rs.Constants.{header_content_length, header_event_name}
use freeswitch_esl_rs.Text.{bytes_eq}
use freeswitch_esl_rs.Text.Search.{bytes_eq_iff, bytes_eq_sym}
use freeswitch_esl_rs.Text.Decimal.{decimal}
use freeswitch_esl_rs.Headers.{Headers, get, insert}
use freeswitch_esl_rs.Headers.Laws.{get-insert}
use freeswitch_esl_rs.Event.{set_body, sort_by_key, other_headers}
use freeswitch_esl_rs.Event.Sorted.{Distinct, Distinct-other_headers}
use freeswitch_esl_rs.Event.Keys.{
  Distinct-sort_by_key, get-sort_by_key, get-other_headers, inserts, get-inserts,
}
use freeswitch_esl_rs.Protocol.Events.{typed, with_inner}
use freeswitch_esl_rs.Protocol.Written.{length_text, restored_body, named_type, named, length_entry}

get-named :
    (o : Option Bytes) (k : Bytes)
    → get (inserts [] (named o)) k ≡ (if bytes_eq k header_event_name then o else none)
unfolding inserts get insert
get-named none k = ground arith
get-named (some v) k = rw (bytes_eq_sym header_event_name k) refl

-- The headers but the length, once they are all inserted.
abbrev pub others : Headers → Headers
others m = inserts (inserts [] (named (get m header_event_name))) (sort_by_key (other_headers m))

module _ (m : Headers) (d : Distinct m) where
  get-others :
      (k : Bytes) → get (others m) k ≡ (if bytes_eq k header_content_length then none else get m k)
  get-others k =
      get-inserts (sort_by_key (other_headers m)) (inserts [] (named (get m header_event_name))) k
        (Distinct-sort_by_key (other_headers m) (Distinct-other_headers m d))
      ∙ rw
          (
            get-sort_by_key (other_headers m) k (Distinct-other_headers m d),
            get-other_headers m k,
            get-named (get m header_event_name) k,
          )
          (elim (Bool-cases (bytes_eq k header_event_name)) [
            | inl y ↦ rw y (rw ((bytes_eq_iff k header_event_name).0 y) (unfold bytes_eq in refl))
            | inr n ↦ rw n (ground arith)
          ])

  pub get-restored :
      (body : Option Bytes) (k : Bytes)
      → get (inserts (others m) (length_entry body)) k
        ≡ (if bytes_eq k header_content_length then length_text body else get m k)
  unfolding inserts
  get-restored none k = get-others k
  get-restored (some body) k =
      get-insert (others m) header_content_length (decimal (length body)) k
      ∙ rw (bytes_eq_sym header_content_length k, get-others k) (ground arith)

pub with_inner-body :
    (hs : Headers) (o : Option Bytes)
    → with_inner (record { event_type = none; headers = hs; body = none }) (some (unwrap_or o []))
      ≡ record { event_type = none; headers = hs; body = restored_body o }
unfolding with_inner set_body
with_inner-body hs none = refl
with_inner-body hs (some []) = refl
with_inner-body hs (some (c ∷ body)) = refl

pub typed_lem :
    (hs : Headers) (body : Option Bytes)
    → typed (record { event_type = none; headers = hs; body = body })
      ≡ record { event_type = named_type (get hs header_event_name); headers = hs; body = body }
unfolding typed
typed_lem hs body = elim (Option-cases (get hs header_event_name)) [
  | inl n ↦ rw (n, typed) refl
  | inr (v, y) ↦ rw (y, typed) refl
]
