-- ===== src/Buffer/Pattern.antt =====
-- The search for a pattern is that for its first occurrence.
use freeswitch_esl_rs.Prelude.{
  ltb, leb, if◌then◌else◌, ltb→lt, leb→le, Bool-cases, length, take, ℕ, zero, suc, ◌+◌, ◌-◌, ◌≤◌,
  ◌<◌, ◌≡◌, refl, sym, inl, inr, Bool, false, Option, none, some, [], ◌∷◌, arith, Bytes,
}
use freeswitch_esl_rs.Text.{bytes_eq, starts_with}
use freeswitch_esl_rs.Buffer.{EslBuffer, unread, find_in_range, slice, find_pattern}

-- The first index at which the pattern stands, by recursion on the text.
unfoldable pub index_of : Bytes → Bytes → Option ℕ
index_of [] pattern = none
index_of (c ∷ s) pattern =
    if starts_with (c ∷ s) pattern
    then some 0
    else elim (index_of s pattern) [ none ↦ none | some i ↦ some (suc i) ]

abbrev pub shifted : Option ℕ → Option ℕ
shifted none = none
shifted (some i) = some (suc i)

find_in_range-suc :
    (n i : ℕ) (p : ℕ → Bool)
    → find_in_range n (suc i) p ≡ shifted (find_in_range n i (λ j. p (suc j)))
unfolding find_in_range
find_in_range-suc zero i p = refl
find_in_range-suc (suc n) i p = ground (arith, find_in_range-suc n (suc i) p)

bytes_eq-take :
    (s p : Bytes) → length p ≤ length s → bytes_eq (take (length p) s) p ≡ starts_with s p
unfolding bytes_eq starts_with
bytes_eq-take s [] h = refl
bytes_eq-take [] (c ∷ p) h = absurd (omega arith)
bytes_eq-take (d ∷ s) (c ∷ p) h = rw (bytes_eq-take s p (omega arith)) refl

starts_with-short : (s p : Bytes) → length s < length p → starts_with s p ≡ false
unfolding starts_with
starts_with-short s [] h = absurd (omega arith)
starts_with-short [] (c ∷ p) h = refl
starts_with-short (d ∷ s) (c ∷ p) h = ground (arith, starts_with-short s p)

index_of-short : (s p : Bytes) → length s < length p → index_of s p ≡ none
unfolding index_of
index_of-short [] p h = refl
index_of-short (c ∷ s) p h =
    rw (starts_with-short (c ∷ s) p h) (rw (index_of-short s p (omega arith)))

abbrev occurs_at : Bytes → Bytes → ℕ → Bool
occurs_at s p i = bytes_eq (slice s i (length p)) p

find_in_range-step :
    (n i : ℕ) (p : ℕ → Bool)
    → find_in_range (suc n) i p ≡ (if p i then some i else find_in_range n (suc i) p)
unfolding find_in_range
find_in_range-step n i p = ground arith

-- The loop over a text is a test at its front and the loop over its tail.
find_in_range-cons :
    (n c : ℕ) (s p : Bytes)
    → length p ≤ length (c ∷ s)
    → find_in_range (suc n) 0 (occurs_at (c ∷ s) p)
      ≡ (if starts_with (c ∷ s) p then some 0 else shifted (find_in_range n 0 (occurs_at s p)))
find_in_range-cons n c s p h =
    rw (find_in_range-step, bytes_eq-take (c ∷ s) p h, find_in_range-suc n 0 (occurs_at (c ∷ s) p))

pub index_of-cons :
    (c : ℕ) (s p : Bytes)
    → index_of (c ∷ s) p ≡ (if starts_with (c ∷ s) p then some 0 else shifted (index_of s p))
unfolding index_of
index_of-cons c s p = ground arith

find_in_range-index_of :
    (s p : Bytes)
    → 0 < length p
    → length p ≤ length s
    → find_in_range (length s - length p + 1) 0 (occurs_at s p) ≡ index_of s p
find_in_range-index_of [] p pos h = absurd (omega arith)
find_in_range-index_of (c ∷ s) p pos h = elim (Bool-cases (leb (length p) (length s))) [
  | inl fits ↦
      let e : length (c ∷ s) - length p + 1 ≡ suc (length s - length p + 1) = ground arith in
      rw (
        e,
        find_in_range-cons _ c s p h,
        find_in_range-index_of s p pos (leb→le _ _ fits),
        index_of-cons c s p,
      )
  | inr full ↦
      let e : length (c ∷ s) - length p + 1 ≡ suc 0 = ground arith in
      rw (e, find_in_range-cons 0 c s p h, index_of-cons c s p, index_of-short s p (ground arith))
        (unfold find_in_range in refl)
]

-- `find_pattern` finds the first occurrence of a pattern in the unread bytes.
pub find_pattern-index_of :
    (b : EslBuffer) (c : ℕ) (p : Bytes) → find_pattern b (c ∷ p) ≡ index_of (unread b) (c ∷ p)
unfolding find_pattern
find_pattern-index_of b c p = elim (Bool-cases (ltb (length (unread b)) (length (c ∷ p)))) [
  | inl short ↦ rw short (sym (index_of-short _ _ (ltb→lt _ _ short)))
  | inr long ↦ rw long (find_in_range-index_of (unread b) (c ∷ p) (omega arith) (ground arith))
]
