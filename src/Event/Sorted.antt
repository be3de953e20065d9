-- ===== src/Event/Sorted.antt =====
-- The plain format of src/event.rs does not depend on the order in which the map is walked.
use mathlib.Core.List.{Permᴰ}
use mathlib.Core.List.Permᴰ
use freeswitch_esl_rs.Prelude.{
  if◌then◌else◌, Bool-cases, All, ◌≡◌, refl, sym, ap, ◌∙◌, subst, ◌≢◌, ◌⊎◌, inl, inr, Bool, true,
  false, some, ◌||◌, [], ◌∷◌, arith, Bytes,
}
use freeswitch_esl_rs.Constants.{header_content_length, header_event_name}
use freeswitch_esl_rs.Text.{bytes_eq}
use freeswitch_esl_rs.Text.Search.{bytes_eq_iff}
use freeswitch_esl_rs.Headers.{Headers, get}
use freeswitch_esl_rs.Headers.Laws.{All-Permᴰ}
use freeswitch_esl_rs.Event.{
  EslEvent, to_plain_format, bytes_le, insert_sorted, sort_by_key, other_headers,
}

bytes_le_total : (a b : Bytes) → bytes_le a b ≡ false → bytes_le b a ≡ true
unfolding bytes_le
bytes_le_total [] b h = cc
bytes_le_total (x ∷ a) [] h = refl
bytes_le_total (x ∷ a) (y ∷ b) h = ground (arith, bytes_le_total a b)

bytes_le_antisym : (a b : Bytes) → bytes_le a b ≡ true → bytes_le b a ≡ true → a ≡ b
unfolding bytes_le
bytes_le_antisym [] [] h k = refl
bytes_le_antisym [] (y ∷ b) h k = cc
bytes_le_antisym (x ∷ a) [] h k = cc
bytes_le_antisym (x ∷ a) (y ∷ b) h k = ground (arith, bytes_le_antisym a b)

bytes_le_trans : (a b c : Bytes) → bytes_le a b ≡ true → bytes_le b c ≡ true → bytes_le a c ≡ true
unfolding bytes_le
bytes_le_trans [] b c h k = refl
bytes_le_trans (x ∷ a) [] c h k = cc
bytes_le_trans (x ∷ a) (y ∷ b) [] h k = cc
bytes_le_trans (x ∷ a) (y ∷ b) (z ∷ c) h k = ground (arith, bytes_le_trans a b c)

module _ (x y : Bytes × Bytes) (ne : x.0 ≢ y.0) where
  one_way : (bytes_le x.0 y.0 ≡ true) ⊎ (bytes_le y.0 x.0 ≡ true)
  one_way = elim (Bool-cases (bytes_le x.0 y.0)) [
    | inl h ↦ inl h
    | inr h ↦ inr (bytes_le_total x.0 y.0 h)
  ]

  not_both : bytes_le x.0 y.0 ≡ true → bytes_le y.0 x.0 ≡ false
  not_both h = elim (Bool-cases (bytes_le y.0 x.0)) [
    | inl k ↦ absurd (ne (bytes_le_antisym x.0 y.0 h k))
    | inr k ↦ k
  ]

insert_sorted_comm :
    (x y : Bytes × Bytes)
    → x.0 ≢ y.0
    → (m : Headers) → insert_sorted x (insert_sorted y m) ≡ insert_sorted y (insert_sorted x m)
unfolding insert_sorted
insert_sorted_comm x y ne [] = ground (arith, not_both x y ne, one_way x y ne)
insert_sorted_comm x y ne (g ∷ m) = ground (
  arith,
  not_both x y ne,
  one_way x y ne,
  insert_sorted_comm x y ne m,
  bytes_le_trans x.0 y.0 g.0,
  bytes_le_trans y.0 x.0 g.0,
)

-- The keys of a map differ.
abbrev pub Distinct : Headers → Type 0
Distinct [] = Unit
Distinct (a ∷ m) = All (λ e. a.0 ≢ e.0) m × Distinct m

pub Distinct-Permᴰ : {m m' : Headers} → Permᴰ m m' → Distinct m → Distinct m'
Distinct-Permᴰ Permᴰ.nil d = tt
Distinct-Permᴰ (Permᴰ.cons {l₂ = l₂} e p) d =
    (subst (λ z. All (λ x. z.0 ≢ x.0) l₂) e (All-Permᴰ _ p d.0), Distinct-Permᴰ p d.1)
Distinct-Permᴰ (Permᴰ.swap {a = a} {b = b} {a' = a'} {b' = b'} {l = l} e f) d =
    let ne : a'.0 ≢ b'.0 = λ q. d.0.0 (ap (λ z. z.0) e ∙ sym (ap (λ z. z.0) f ∙ q)) in
    (
      (ne, subst (λ z. All (λ x. z.0 ≢ x.0) l) f d.1.0),
      (subst (λ z. All (λ x. z.0 ≢ x.0) l) e d.0.1, d.1.1),
    )
Distinct-Permᴰ (Permᴰ.trans p q) d = Distinct-Permᴰ q (Distinct-Permᴰ p d)

sort_by_key-Permᴰ : {m m' : Headers} → Permᴰ m m' → Distinct m → sort_by_key m ≡ sort_by_key m'
unfolding sort_by_key
sort_by_key-Permᴰ Permᴰ.nil d = refl
sort_by_key-Permᴰ (Permᴰ.cons {b = b} {l₁ = l₁} e p) d =
    ap (λ z. insert_sorted z (sort_by_key l₁)) e ∙ ap (insert_sorted b) (sort_by_key-Permᴰ p d.1)
sort_by_key-Permᴰ (Permᴰ.swap {a = a} {b = b} {a' = a'} {b' = b'} {l = l} e f) d =
    insert_sorted_comm a b d.0.0 (sort_by_key l)
    ∙ ap (λ z. insert_sorted z (insert_sorted a (sort_by_key l))) f
    ∙ ap (λ z. insert_sorted a' (insert_sorted z (sort_by_key l))) e
sort_by_key-Permᴰ (Permᴰ.trans p q) d =
    sort_by_key-Permᴰ p d ∙ sort_by_key-Permᴰ q (Distinct-Permᴰ p d)

abbrev hidden : Bytes × Bytes → Bool
hidden a = bytes_eq a.0 header_event_name || bytes_eq a.0 header_content_length

other_headers_cons :
    (a : Bytes × Bytes) (m : Headers)
    → other_headers (a ∷ m) ≡ (if hidden a then other_headers m else a ∷ other_headers m)
unfolding other_headers
other_headers_cons (k, v) m = refl

pub All-other_headers :
    (P : Bytes × Bytes → Type 0) (m : Headers) → All P m → All P (other_headers m)
All-other_headers P [] h = unfold other_headers in tt
All-other_headers P (a ∷ m) h = elim (Bool-cases (hidden a)) [
  | inl y ↦ rw (other_headers_cons a m) (rw y (All-other_headers P m h.1))
  | inr n ↦ rw (other_headers_cons a m) (rw n (h.0, All-other_headers P m h.1))
]

other_headers-Permᴰ : {m m' : Headers} → Permᴰ m m' → Permᴰ (other_headers m) (other_headers m')
other_headers-Permᴰ Permᴰ.nil = Permᴰ.refl (other_headers [])
other_headers-Permᴰ (Permᴰ.cons {a = a} {b = b} {l₁ = l₁} {l₂ = l₂} e p) =
    subst (λ z. Permᴰ (other_headers (a ∷ l₁)) (other_headers (z ∷ l₂))) e
      (kept a l₁ l₂ (other_headers-Permᴰ p))
  where
    kept :
        (a : Bytes × Bytes) (m m' : Headers)
        → Permᴰ (other_headers m) (other_headers m')
        → Permᴰ (other_headers (a ∷ m)) (other_headers (a ∷ m'))
    kept a m m' p = elim (Bool-cases (hidden a)) [
      | inl y ↦ rw (other_headers_cons a m, other_headers_cons a m') (rw y p)
      | inr n ↦ rw (other_headers_cons a m, other_headers_cons a m') (rw n (Permᴰ.cons refl p))
    ]
other_headers-Permᴰ (Permᴰ.swap {a = a} {b = b} {a' = a'} {b' = b'} {l = l} e f) =
    subst (λ z. Permᴰ (other_headers (a ∷ b ∷ l)) (other_headers (a' ∷ z ∷ l))) e
      (subst (λ z. Permᴰ (other_headers (a ∷ b ∷ l)) (other_headers (z ∷ a ∷ l))) f (swapped a b l))
  where
    swapped :
        (a b : Bytes × Bytes) (m : Headers)
        → Permᴰ (other_headers (a ∷ b ∷ m)) (other_headers (b ∷ a ∷ m))
    swapped a b m =
        rw
          (
            other_headers_cons a (b ∷ m),
            other_headers_cons b m,
            other_headers_cons b (a ∷ m),
            other_headers_cons a m,
          )
          (elim (Bool-cases (hidden a)) [
            | inl y ↦ elim (Bool-cases (hidden b)) [
              | inl z ↦ rw (y, z) (Permᴰ.refl _)
              | inr z ↦ rw (y, z) (Permᴰ.refl _)
            ]
            | inr y ↦ elim (Bool-cases (hidden b)) [
              | inl z ↦ rw (y, z) (Permᴰ.refl _)
              | inr z ↦ rw (y, z) (Permᴰ.swap refl refl)
            ]
          ])
other_headers-Permᴰ (Permᴰ.trans p q) = Permᴰ.trans (other_headers-Permᴰ p) (other_headers-Permᴰ q)

pub get-Permᴰ : {m m' : Headers} → Permᴰ m m' → Distinct m → (k : Bytes) → get m k ≡ get m' k
unfolding get
get-Permᴰ Permᴰ.nil d k = refl
get-Permᴰ (Permᴰ.cons {b = b} {l₁ = l₁} e p) d k =
    ap (λ z. get (z ∷ l₁) k) e
    ∙ ap (λ r. if bytes_eq b.0 k then some b.1 else r) (get-Permᴰ p d.1 k)
get-Permᴰ (Permᴰ.swap {a = a} {b = b} {a' = a'} {l = l} e f) d k =
    exchange a b l d.0.0 k ∙ ap (λ z. get (z ∷ a ∷ l) k) f ∙ ap (λ z. get (a' ∷ z ∷ l) k) e
  where
    exchange :
        (a b : Bytes × Bytes) (m : Headers)
        → a.0 ≢ b.0
        → (k : Bytes) → get (a ∷ b ∷ m) k ≡ get (b ∷ a ∷ m) k
    exchange a b m ne k = ground (arith, bytes_eq_iff a.0 k, bytes_eq_iff b.0 k)
get-Permᴰ (Permᴰ.trans p q) d k = get-Permᴰ p d k ∙ get-Permᴰ q (Distinct-Permᴰ p d) k

pub Distinct-other_headers : (m : Headers) → Distinct m → Distinct (other_headers m)
Distinct-other_headers [] d = unfold other_headers in tt
Distinct-other_headers (a ∷ m) d = elim (Bool-cases (hidden a)) [
  | inl y ↦ rw (other_headers_cons a m) (rw y (Distinct-other_headers m d.1))
  | inr n ↦
      rw (other_headers_cons a m) (rw n (All-other_headers _ m d.0, Distinct-other_headers m d.1))
]

-- The plain format depends only on the body and on the headers as a map: whatever order the
-- map is walked in, provided that its keys differ, and whatever the event's type is, the text
-- is the same.
pub to_plain_format-Permᴰ :
    (percent_encode : Bytes → Bytes) (e f : EslEvent)
    → Permᴰ e.headers f.headers
    → Distinct e.headers
    → e.body ≡ f.body
    → to_plain_format percent_encode e ≡ to_plain_format percent_encode f
unfolding to_plain_format
to_plain_format-Permᴰ percent_encode e f p d body =
    rw
      (
        get-Permᴰ p d header_event_name,
        sort_by_key-Permᴰ (other_headers-Permᴰ p) (Distinct-other_headers e.headers d),
        body,
      )
      refl
