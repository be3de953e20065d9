-- ===== src/Buffer/Occurrence.antt =====
-- What a first occurrence is, and what more bytes behind the text change about it: nothing.
use freeswitch_esl_rs.Prelude.{
  Bool-cases, length, take, drop, ℕ, zero, suc, ◌+◌, ◌-◌, ◌≤◌, ◌<◌, ◌≡◌, refl, ap, inl, inr, true,
  Option, none, some, [], ◌∷◌, ◌++◌, arith, Bytes,
}
use freeswitch_esl_rs.Text.{starts_with}
use freeswitch_esl_rs.Buffer.{EslBuffer, unread, find_pattern}
use freeswitch_esl_rs.Buffer.Pattern.{index_of, shifted, index_of-cons, find_pattern-index_of}

-- The pattern stands in the text at index `i`.
abbrev pub Occurs : Bytes → Bytes → ℕ → Type 0
Occurs s p i = starts_with (drop i s) p ≡ true

abbrev pub First : Bytes → Bytes → Option ℕ → Type 0
First s p (some i) = Occurs s p i × ((j : ℕ) → j < i → ¬ Occurs s p j)
First s p none = (j : ℕ) → ¬ Occurs s p j

none-suc : (c : ℕ) (s p : Bytes) → ¬ Occurs (c ∷ s) p 0 → First s p none → First (c ∷ s) p none
none-suc c s p h f zero = h
none-suc c s p h f (suc j) = f j

earlier-suc :
    (c : ℕ) (s p : Bytes) (i : ℕ)
    → ¬ Occurs (c ∷ s) p 0
    → ((j : ℕ) → j < i → ¬ Occurs s p j)
    → (j : ℕ) → j < suc i
    → ¬ Occurs (c ∷ s) p j
earlier-suc c s p i h f zero l = h
earlier-suc c s p i h f (suc j) l = f j (omega arith)

First-suc :
    (c : ℕ) (s p : Bytes) (r : Option ℕ)
    → ¬ Occurs (c ∷ s) p 0
    → First s p r
    → First (c ∷ s) p (shifted r)
First-suc c s p none h f = none-suc c s p h f
First-suc c s p (some i) h f = (f.0, earlier-suc c s p i h f.1)

none-nil : (c : ℕ) (p : Bytes) → First [] (c ∷ p) none
unfolding starts_with
none-nil c p zero o = cc
none-nil c p (suc j) o = cc

First-zero : (s p : Bytes) → Occurs s p 0 → First s p (some 0)
First-zero s p o = (o, λ j l _. absurd (omega arith))

pub index_of-First : (s : Bytes) (c : ℕ) (p : Bytes) → First s (c ∷ p) (index_of s (c ∷ p))
index_of-First [] c p = unfold index_of in none-nil c p
index_of-First (d ∷ s) c p = elim (Bool-cases (starts_with (d ∷ s) (c ∷ p))) [
  | inl now ↦ rw (index_of-cons d s (c ∷ p), now) (First-zero (d ∷ s) (c ∷ p) now)
  | inr later ↦
      rw (index_of-cons d s (c ∷ p), later)
        (First-suc d s (c ∷ p) _ (λ o. cc) (index_of-First s c p))
]

-- `find_pattern` finds the first occurrence of a pattern in the unread bytes, and finds none only
-- where there is none.
pub find_pattern-First :
    (b : EslBuffer) (c : ℕ) (p : Bytes) → First (unread b) (c ∷ p) (find_pattern b (c ∷ p))
find_pattern-First b c p = rw (find_pattern-index_of b c p) (index_of-First (unread b) c p)

pub starts_with-append :
    (s t p : Bytes) → length p ≤ length s → starts_with (s ++ t) p ≡ starts_with s p
unfolding starts_with
starts_with-append s t [] h = refl
starts_with-append [] t (c ∷ p) h = absurd (omega arith)
starts_with-append (d ∷ s) t (c ∷ p) h = rw (starts_with-append s t p (omega arith))

starts_with-split : (s p : Bytes) → starts_with s p ≡ true → s ≡ p ++ drop (length p) s
unfolding starts_with
starts_with-split s [] h = refl
starts_with-split [] (c ∷ p) h = cc
starts_with-split (d ∷ s) (c ∷ p) h = ground (arith, starts_with-split s p)

starts_with-le : (s p : Bytes) → starts_with s p ≡ true → length p ≤ length s
unfolding starts_with
starts_with-le s [] h = omega arith
starts_with-le [] (c ∷ p) h = cc
starts_with-le (d ∷ s) (c ∷ p) h = ground (arith, starts_with-le s p)

-- A found pattern splits the text around it.
abbrev pub Splits : Bytes → Bytes → Option ℕ → Type 0
Splits s p none = Unit {0}
Splits s p (some i) = (i + length p ≤ length s) × (s ≡ take i s ++ (p ++ drop (i + length p) s))

Splits-zero : (s p : Bytes) → starts_with s p ≡ true → Splits s p (some 0)
Splits-zero s p o =
    let e : 0 + length p ≡ length p = omega arith in
    rw e (starts_with-le s p o, starts_with-split s p o)

Splits-suc : (c : ℕ) (s p : Bytes) (r : Option ℕ) → Splits s p r → Splits (c ∷ s) p (shifted r)
Splits-suc c s p none h = tt
Splits-suc c s p (some i) h =
    let e : suc i + length p ≡ suc (i + length p) = omega arith in
    rw e (omega arith, ap (◌∷◌ c) h.1)

pub index_of-Splits : (s p : Bytes) → Splits s p (index_of s p)
index_of-Splits [] p = unfold index_of in tt
index_of-Splits (c ∷ s) p = elim (Bool-cases (starts_with (c ∷ s) p)) [
  | inl now ↦ rw (index_of-cons c s p, now) (Splits-zero (c ∷ s) p now)
  | inr later ↦ rw (index_of-cons c s p, later) (Splits-suc c s p _ (index_of-Splits s p))
]

pub index_of-split :
    (s p : Bytes) (i : ℕ)
    → index_of s p ≡ some i
    → (i + length p ≤ length s) × (s ≡ take i s ++ (p ++ drop (i + length p) s))
index_of-split s p i h = rw h at (index_of-Splits s p)

-- More bytes behind the text do not move a pattern that was found.
pub index_of-append : (s t p : Bytes) (i : ℕ) → index_of s p ≡ some i → index_of (s ++ t) p ≡ some i
index_of-append [] t p i h = unfold index_of in cc
index_of-append (c ∷ s) t p i h = ground (
  arith,
  index_of-cons c s p,
  index_of-cons c (s ++ t) p,
  index_of-split (c ∷ s) p i h,
  starts_with-append (c ∷ s) t p,
  index_of-append s t p (i - 1),
)
