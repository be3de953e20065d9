-- ===== src/Headers/Laws.antt =====
-- The laws of the map.
use mathlib.Core.List.{Permᴰ}
use freeswitch_esl_rs.Prelude.{
  if◌then◌else◌, Bool-cases, All, ◌≡◌, refl, subst, inl, inr, true, false, none, some, List, [],
  ◌∷◌, arith, Bytes,
}
use freeswitch_esl_rs.Text.{bytes_eq}
use freeswitch_esl_rs.Text.Search.{bytes_eq_iff, bytes_eq_self}
use freeswitch_esl_rs.Headers.{Headers, get, insert, remove}

module _ {ℓ} {V : Type ℓ} where
  pub get-insert :
      (m : List (Bytes × V)) (k : Bytes) (v : V) (j : Bytes)
      → get (insert m k v) j ≡ (if bytes_eq k j then some v else get m j)
  unfolding get insert
  get-insert [] k v j = refl
  get-insert ((i, w) ∷ m) k v j =
      ground (arith, bytes_eq_iff k j, bytes_eq_iff i k, bytes_eq_iff i j, get-insert m k v j)

  pub get-insert_self : (m : List (Bytes × V)) (k : Bytes) (v : V) → get (insert m k v) k ≡ some v
  get-insert_self m k v = rw (get-insert m k v k, bytes_eq_self k)

  pub get-insert_ne :
      (m : List (Bytes × V)) (k : Bytes) (v : V) (j : Bytes)
      → bytes_eq k j ≡ false
      → get (insert m k v) j ≡ get m j
  get-insert_ne m k v j h = rw (get-insert m k v j, h)

  pub get-remove :
      (m : List (Bytes × V)) (k j : Bytes)
      → get (remove m k) j ≡ (if bytes_eq k j then none else get m j)
  unfolding get remove
  get-remove [] k j = ground arith
  get-remove ((i, w) ∷ m) k j =
      ground (arith, bytes_eq_iff k j, bytes_eq_iff i k, bytes_eq_iff i j, get-remove m k j)

-- A property of pairs that an insertion brings in and the map has, the new map has.
pub All-insert {κ} :
    (P : Bytes × Bytes → Type κ) (m : Headers) (k v : Bytes)
    → ((j w : Bytes) → P (j, w) → bytes_eq j k ≡ true → P (j, v))
    → P (k, v)
    → All P m
    → All P (insert m k v)
unfolding insert
All-insert P [] k v same p h = (p, tt)
All-insert P ((j, w) ∷ m) k v same p h = elim (Bool-cases (bytes_eq j k)) [
  | inl e ↦ rw e (same j w h.0 e, h.1)
  | inr n ↦ rw n (h.0, All-insert P m k v same p h.1)
]

-- The entries of a map in another order.
pub All-Permᴰ : (P : Bytes × Bytes → Type 0) {m m' : Headers} → Permᴰ m m' → All P m → All P m'
All-Permᴰ P Permᴰ.nil h = h
All-Permᴰ P (Permᴰ.cons e p) (a, h) = (subst P e a, All-Permᴰ P p h)
All-Permᴰ P (Permᴰ.swap e f) (a, (b, h)) = (subst P f b, (subst P e a, h))
All-Permᴰ P (Permᴰ.trans p q) h = All-Permᴰ P q (All-Permᴰ P p h)
