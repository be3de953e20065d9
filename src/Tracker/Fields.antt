-- ===== src/Tracker/Fields.antt =====
-- The headers of the event that a row of the list of channels becomes.
use freeswitch_esl_rs.Prelude.{
  if◌then◌else◌, Bool-cases, All, ◌≡◌, refl, ◌∙◌, inl, inr, Bool, true, false, not, ◌&&◌, Option,
  none, some, List, [], ◌∷◌, arith, Bytes, codes,
}
use freeswitch_esl_rs.Constants.{header_unique_id, header_caller_uuid}
use freeswitch_esl_rs.Text.{bytes_eq, is_empty}
use freeswitch_esl_rs.Text.Search.{bytes_eq_sym}
use freeswitch_esl_rs.Headers.{Headers}
use freeswitch_esl_rs.Headers.Laws.{get-insert_self, get-insert_ne}
use freeswitch_esl_rs.Event.{EslEvent, with_type, header, set_header, unique_id}
use freeswitch_esl_rs.Event.Keys.{Distinct-insert}
use freeswitch_esl_rs.Tracker.Heard.{IsMapped}
use freeswitch_esl_rs.Tracker.Bootstrap.{
  db_to_event, JsonRows, text_at, with_field, with_fields, fake_event,
}
use freeswitch_esl_rs.Event.Types
use freeswitch_esl_rs.Headers

-- The text of a field that is not empty.
abbrev pub filled_in : Option Bytes → Option Bytes
filled_in none = none
filled_in (some v) = if is_empty v then none else some v

-- No field goes into the header.
abbrev unlisted : Bytes → List (Bytes × Bytes) → Bool
unlisted h [] = true
unlisted h ((k, j) ∷ table) = not (bytes_eq j h) && unlisted h table

abbrev differs : List (Bytes × Bytes) → Bool
differs [] = true
differs ((k, h) ∷ table) = unlisted h table && differs table

module _ (J : JsonRows) (row : J.Value) where
  get-with_field_other :
      (e : EslEvent) (j h : Bytes) (o : Option Bytes)
      → bytes_eq j h ≡ false
      → Headers.get (with_field J e j o).headers h ≡ Headers.get e.headers h
  unfolding with_field set_header
  get-with_field_other e j h none n = refl
  get-with_field_other e j h (some v) n = elim (Bool-cases (is_empty v)) [
    | inl y ↦ rw y refl
    | inr m ↦ rw m (get-insert_ne e.headers j v h n)
  ]

  get-with_field :
      (e : EslEvent) (h : Bytes) (o : Option Bytes)
      → Headers.get e.headers h ≡ none
      → Headers.get (with_field J e h o).headers h ≡ filled_in o
  unfolding with_field set_header
  get-with_field e h none z = z
  get-with_field e h (some v) z = elim (Bool-cases (is_empty v)) [
    | inl y ↦ rw y z
    | inr m ↦ rw m (get-insert_self e.headers h v)
  ]

  get-with_fields_other :
      (table : List (Bytes × Bytes)) (e : EslEvent) (h : Bytes)
      → unlisted h table ≡ true
      → Headers.get (with_fields J row table e).headers h ≡ Headers.get e.headers h
  unfolding with_fields
  get-with_fields_other [] e h u = refl
  get-with_fields_other ((k, j) ∷ table) e h u =
      let n : bytes_eq j h ≡ false = ground arith in
      let rest : unlisted h table ≡ true = ground arith in
      get-with_fields_other table (with_field J e j (text_at J row k)) h rest
      ∙ get-with_field_other e j h (text_at J row k) n

  abbrev pub Filled : EslEvent → Bytes × Bytes → Type 0
  Filled e f = Headers.get e.headers f.1 ≡ filled_in (text_at J row f.0)

  get-with_fields :
      (table : List (Bytes × Bytes)) (e : EslEvent)
      → differs table ≡ true
      → All (λ f. Headers.get e.headers f.1 ≡ none) table
      → All (Filled (with_fields J row table e)) table
  unfolding with_fields
  get-with_fields [] e d z = tt
  get-with_fields ((k, h) ∷ table) e d z =
      let u : unlisted h table ≡ true = ground arith in
      let rest : differs table ≡ true = ground arith in
      let filled = with_field J e h (text_at J row k) in
      (
        get-with_fields_other table filled h u ∙ get-with_field e h (text_at J row k) z.0,
        get-with_fields table filled rest (still table h u e (text_at J row k) z.1),
      )
    where
      still :
          (table : List (Bytes × Bytes)) (h : Bytes)
          → unlisted h table ≡ true
          → (e : EslEvent) (o : Option Bytes) → All (λ f. Headers.get e.headers f.1 ≡ none) table
          → All (λ f. Headers.get (with_field J e h o).headers f.1 ≡ none) table
      still [] h u e o z = tt
      still ((k, j) ∷ table) h u e o z =
          let n : bytes_eq h j ≡ false = ground (arith, bytes_eq_sym h j) in
          let rest : unlisted h table ≡ true = ground arith in
          (get-with_field_other e h j o n ∙ z.0, still table h rest e o z.1)

  pub fake_event-Filled : All (Filled (fake_event J row)) db_to_event
  unfolding fake_event with_type Headers.get bytes_eq
  fake_event-Filled = get-with_fields db_to_event (with_type Types.channel_create) refl (
    refl,
    (
      refl,
      (refl, (refl, (refl, (refl, (refl, (refl, (refl, (refl, (refl, (refl, (refl, tt))))))))))),
    ),
  )

  with_fields-IsMapped :
      (table : List (Bytes × Bytes)) (e : EslEvent)
      → IsMapped e
      → IsMapped (with_fields J row table e)
  unfolding with_fields
  with_fields-IsMapped [] e d = d
  with_fields-IsMapped ((k, h) ∷ table) e d =
      with_fields-IsMapped table (with_field J e h (text_at J row k)) (one (text_at J row k))
    where
      one : (o : Option Bytes) → IsMapped (with_field J e h o)
      one none = unfold with_field in d
      one (some v) =
          unfold with_field set_header in
          elim (Bool-cases (is_empty v)) [
            | inl y ↦ rw y d
            | inr n ↦ rw n (Distinct-insert e.headers h v d)
          ]

  pub fake_event-IsMapped : IsMapped (fake_event J row)
  unfolding fake_event with_type
  fake_event-IsMapped = with_fields-IsMapped db_to_event (with_type Types.channel_create) tt

  unique_id-headers :
      (e : EslEvent) (o : Option Bytes)
      → Headers.get e.headers header_unique_id ≡ o
      → Headers.get e.headers header_caller_uuid ≡ none
      → unique_id e ≡ o
  unfolding unique_id header
  unique_id-headers e none p q = rw (unique_id, header, p) q
  unique_id-headers e (some u) p q = rw (unique_id, header, p) refl

  pub fake_event-unique_id : unique_id (fake_event J row) ≡ filled_in (text_at J row (codes "uuid"))
  unfolding fake_event with_type Headers.get bytes_eq
  fake_event-unique_id =
      unique_id-headers (fake_event J row) (filled_in (text_at J row (codes "uuid")))
        fake_event-Filled.0
        (get-with_fields_other db_to_event (with_type Types.channel_create) header_caller_uuid refl)
