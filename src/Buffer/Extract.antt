-- ===== src/Buffer/Extract.antt =====
-- What the two extractions return, and what they leave.
use freeswitch_esl_rs.Prelude.{
  leb, le→leb, Option-cases, length, take, length-take, ℕ, ◌+◌, ◌≤◌, ◌<◌, ◌≡◌, refl, ◌∙◌, inl, inr,
  true, false, Option, none, some, ◌∷◌, ◌++◌, arith, Bytes,
}
use freeswitch_esl_rs.Buffer.{EslBuffer, len, unread, extract_until_pattern, extract_bytes}
use freeswitch_esl_rs.Buffer.Queue.{
  IsValid, len-unread, advance_ok, advance-IsValid, unread-advance,
}
use freeswitch_esl_rs.Buffer.Pattern.{index_of, find_pattern-index_of}
use freeswitch_esl_rs.Buffer.Occurrence.{Occurs, First, index_of-First, index_of-split}

module _ (b : EslBuffer) (c : ℕ) (p : Bytes) where
  pub extract_until_none :
      index_of (unread b) (c ∷ p) ≡ none → extract_until_pattern b (c ∷ p) ≡ (b, none)
  unfolding extract_until_pattern
  extract_until_none h = rw (find_pattern-index_of b c p, h, extract_until_pattern)

  pub extract_until_some :
      (i : ℕ)
      → index_of (unread b) (c ∷ p) ≡ some i
      → extract_until_pattern b (c ∷ p)
        ≡ (record b { position = b.position + (i + length (c ∷ p)) }, some (take i (unread b)))
  unfolding extract_until_pattern
  extract_until_some i h =
      rw (find_pattern-index_of b c p, h, extract_until_pattern)
        (rw (advance_ok b _ (index_of-split (unread b) (c ∷ p) i h).0))

pub extract_bytes-some :
    (b : EslBuffer) (n : ℕ)
    → n ≤ length (unread b)
    → extract_bytes b n ≡ (record b { position = b.position + n }, some (take n (unread b)))
unfolding extract_bytes
extract_bytes-some b n h =
    let e : leb n (len b) ≡ true = le→leb _ _ (omega (arith, len-unread b)) in
    rw (e, extract_bytes) (rw (advance_ok b n h))

pub extract_bytes-none :
    (b : EslBuffer) (n : ℕ) → length (unread b) < n → extract_bytes b n ≡ (b, none)
unfolding extract_bytes
extract_bytes-none b n h =
    let e : leb n (len b) ≡ false = ground (arith, len-unread b) in rw (e, extract_bytes)

-- The two outcomes of `extract_until_pattern`.
abbrev pub Extracts : EslBuffer → Bytes → EslBuffer × Option Bytes → Type 0
Extracts b p (b', none) = (b' ≡ b) × ((j : ℕ) → ¬ Occurs (unread b) p j)
Extracts b p (b', some s) =
    IsValid b' × (unread b ≡ s ++ (p ++ unread b')) × First (unread b) p (some (length s))

Extracts-some :
    (b : EslBuffer) (c : ℕ) (p : Bytes) (i : ℕ)
    → IsValid b
    → index_of (unread b) (c ∷ p) ≡ some i
    → Extracts b (c ∷ p) (extract_until_pattern b (c ∷ p))
Extracts-some b c p i v h =
    let (fits, splits) = index_of-split (unread b) (c ∷ p) i h in
    let at : length (take i (unread b)) ≡ i = length-take i (unread b) ∙ omega arith in
    rw (extract_until_some b c p i h) (
      advance-IsValid b _ v fits,
      rw (unread-advance b (i + length (c ∷ p))) splits,
      rw at (rw h at (index_of-First (unread b) c p)),
    )

-- `extract_until_pattern` splits the unread bytes at the first occurrence of the pattern and
-- consumes both parts, on a valid buffer, which stays valid; if the pattern does not occur it
-- leaves the buffer as it is.
pub extract_until_pattern-Extracts :
    (b : EslBuffer) (c : ℕ) (p : Bytes)
    → IsValid b
    → Extracts b (c ∷ p) (extract_until_pattern b (c ∷ p))
extract_until_pattern-Extracts b c p v = elim (Option-cases (index_of (unread b) (c ∷ p))) [
  | inl absent ↦
      rw (extract_until_none b c p absent) (refl, rw absent at (index_of-First (unread b) c p))
  | inr (i, found) ↦ Extracts-some b c p i v found
]
