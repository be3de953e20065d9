-- ===== src/Event/Keys.antt =====
-- The headers of an event as a map: what is read from them once they are sorted, filtered, or put
-- into another map one after the other.
use mathlib.Core.List.{Permᴰ}
use mathlib.Core.List.Permᴰ
use mathlib.Core.Bool.{false≢true}
use freeswitch_esl_rs.Prelude.{
  if◌then◌else◌, Bool-cases, All, ◌≡◌, refl, sym, ◌∙◌, subst, ◌≢◌, inl, inr, false, ◌||◌, Option,
  none, some, [], ◌∷◌, ◌++◌, arith, Bytes,
}
use freeswitch_esl_rs.Constants.{header_content_length, header_event_name}
use freeswitch_esl_rs.Text.{bytes_eq}
use freeswitch_esl_rs.Text.Search.{bytes_eq_iff, bytes_eq_self, bytes_eq_ne}
use freeswitch_esl_rs.Headers.{Headers, get, insert}
use freeswitch_esl_rs.Headers.Laws.{get-insert, get-insert_ne, All-insert, All-Permᴰ}
use freeswitch_esl_rs.Event.{bytes_le, insert_sorted, sort_by_key, other_headers}
use freeswitch_esl_rs.Event.Sorted.{Distinct, Distinct-Permᴰ, get-Permᴰ}

insert_sorted-Permᴰ : (h : Bytes × Bytes) (m : Headers) → Permᴰ (h ∷ m) (insert_sorted h m)
unfolding insert_sorted
insert_sorted-Permᴰ h [] = Permᴰ.refl (h ∷ [])
insert_sorted-Permᴰ h (g ∷ m) = elim (Bool-cases (bytes_le h.0 g.0)) [
  | inl y ↦ rw y (Permᴰ.refl (h ∷ g ∷ m))
  | inr n ↦ rw n (Permᴰ.trans (Permᴰ.swap refl refl) (Permᴰ.cons refl (insert_sorted-Permᴰ h m)))
]

sorted-Permᴰ : (m : Headers) → Permᴰ m (sort_by_key m)
unfolding sort_by_key
sorted-Permᴰ [] = Permᴰ.refl []
sorted-Permᴰ (h ∷ m) =
    Permᴰ.trans (Permᴰ.cons refl (sorted-Permᴰ m)) (insert_sorted-Permᴰ h (sort_by_key m))

pub All-sort_by_key : (P : Bytes × Bytes → Type 0) (m : Headers) → All P m → All P (sort_by_key m)
All-sort_by_key P m h = All-Permᴰ P (sorted-Permᴰ m) h

pub Distinct-sort_by_key : (m : Headers) → Distinct m → Distinct (sort_by_key m)
Distinct-sort_by_key m d = Distinct-Permᴰ (sorted-Permᴰ m) d

pub get-sort_by_key : (m : Headers) (k : Bytes) → Distinct m → get (sort_by_key m) k ≡ get m k
get-sort_by_key m k d = sym (get-Permᴰ (sorted-Permᴰ m) d k)

pub get-other_headers :
    (m : Headers) (k : Bytes)
    → get (other_headers m) k
      ≡ (if bytes_eq k header_event_name || bytes_eq k header_content_length then none else get m k)
unfolding other_headers get
get-other_headers [] k = ground arith
get-other_headers ((j, v) ∷ m) k = elim (Bool-cases (bytes_eq j k)) [
  | inl y ↦
      let e : j ≡ k = (bytes_eq_iff j k).0 y in
      rw e (ground (arith, get-other_headers m k, bytes_eq_self k))
  | inr n ↦ ground (arith, get-other_headers m k)
]

-- The entries are inserted in their order.
unfoldable pub inserts : Headers → Headers → Headers
inserts m [] = m
inserts m ((k, v) ∷ es) = inserts (insert m k v) es

pub inserts-append : (es fs m : Headers) → inserts m (es ++ fs) ≡ inserts (inserts m es) fs
unfolding inserts
inserts-append [] fs m = refl
inserts-append ((k, v) ∷ es) fs m = inserts-append es fs (insert m k v)

abbrev pub or_else : Option Bytes → Option Bytes → Option Bytes
or_else none o = o
or_else (some v) o = some v

get-absent : (k : Bytes) (m : Headers) → All (λ e. k ≢ e.0) m → get m k ≡ none
unfolding get
get-absent k [] h = refl
get-absent k ((j, v) ∷ m) h =
    let n : bytes_eq j k ≡ false = bytes_eq_ne j k (λ e. h.0 (sym e)) in rw n (get-absent k m h.1)

pub get-inserts :
    (es m : Headers) (k : Bytes) → Distinct es → get (inserts m es) k ≡ or_else (get es k) (get m k)
unfolding inserts get
get-inserts [] m k d = refl
get-inserts ((j, v) ∷ es) m k d = elim (Bool-cases (bytes_eq j k)) [
  | inl y ↦
      let e : j ≡ k = (bytes_eq_iff j k).0 y in
      let absent : get es k ≡ none = subst (λ z. get es z ≡ none) e (get-absent j es d.0) in
      get-inserts es (insert m j v) k d.1 ∙ rw (absent, get-insert m j v k, y) refl
  | inr n ↦ get-inserts es (insert m j v) k d.1 ∙ rw (get-insert_ne m j v k n, n) refl
]

pub Distinct-insert : (m : Headers) (k v : Bytes) → Distinct m → Distinct (insert m k v)
unfolding insert
Distinct-insert [] k v d = (tt, tt)
Distinct-insert ((j, w) ∷ m) k v d = elim (Bool-cases (bytes_eq j k)) [
  | inl y ↦ rw y d
  | inr n ↦
      let ne : j ≢ k = λ e. false≢true (sym n ∙ (bytes_eq_iff j k).1 e) in
      rw n (All-insert (λ e. j ≢ e.0) m k v (λ i u h s. h) ne d.0, Distinct-insert m k v d.1)
]
