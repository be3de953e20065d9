-- ===== src/Text/Split.antt =====
-- `str::split` at a pattern of two characters, and `join`.
use freeswitch_esl_rs.Prelude.{
  ◌==◌, Bool-cases, drop, All, ℕ, ◌≡◌, refl, sym, ap, ◌∙◌, ◌≢◌, inl, inr, true, false, ◌&&◌, List,
  [], ◌∷◌, ◌++◌, append_assoc, append-nil, arith, Bytes,
}

-- The third argument is the text, the fourth the part read so far. Matches do not overlap.
unfoldable pub split_from : ℕ → ℕ → Bytes → Bytes → List Bytes
split_from a b [] cur = cur ∷ []
split_from a b (c ∷ []) cur = (cur ++ c ∷ []) ∷ []
split_from a b (c ∷ d ∷ s) cur = elim (c == a && d == b) [
  | true ↦ cur ∷ split_from a b s []
  | false ↦ split_from a b (d ∷ s) (cur ++ c ∷ [])
]

unfoldable pub split : ℕ → ℕ → Bytes → List Bytes
unfolding split_from
split a b s = split_from a b s []

-- Each part but the first behind the separator.
unfoldable pub separated : Bytes → List Bytes → Bytes
separated sep [] = []
separated sep (p ∷ ps) = sep ++ (p ++ separated sep ps)

unfoldable pub join : Bytes → List Bytes → Bytes
unfolding separated
join sep [] = []
join sep (p ∷ ps) = p ++ separated sep ps

-- The pair `a`, `b` stands nowhere in the text.
abbrev pub Avoids : ℕ → ℕ → Bytes → Type 0
Avoids a b [] = Unit
Avoids a b (c ∷ []) = Unit
Avoids a b (c ∷ d ∷ s) = ((c == a && d == b) ≡ false) × Avoids a b (d ∷ s)

module _ (a b : ℕ) where
  split_from-keep :
      (c d : ℕ) (s cur : Bytes)
      → (c == a && d == b) ≡ false
      → split_from a b (c ∷ d ∷ s) cur ≡ split_from a b (d ∷ s) (cur ++ c ∷ [])
  unfolding split_from
  split_from-keep c d s cur h = rw (h, split_from)

  split_from-cut : (s cur : Bytes) → split_from a b (a ∷ b ∷ s) cur ≡ cur ∷ split_from a b s []
  unfolding split_from
  split_from-cut s cur =
      let same : (a == a && b == b) ≡ true = ground arith in rw (same, split_from)

  -- A part is read up to the separator behind it, which it cannot overlap.
  split_from-part :
      (p s cur : Bytes)
      → a ≢ b
      → Avoids a b p
      → split_from a b (p ++ (a ∷ b ∷ s)) cur ≡ (cur ++ p) ∷ split_from a b s []
  split_from-part [] s cur ne h = split_from-cut s cur ∙ rw (append-nil cur)
  split_from-part (c ∷ []) s cur ne h =
      split_from-keep c a (b ∷ s) cur (ground arith) ∙ split_from-cut s (cur ++ c ∷ [])
  split_from-part (c ∷ d ∷ p) s cur ne h =
      split_from-keep c d (p ++ (a ∷ b ∷ s)) cur h.0
      ∙ split_from-part (d ∷ p) s (cur ++ c ∷ []) ne h.1
      ∙ ap (λ x. x ∷ split_from a b s []) (append_assoc cur (c ∷ []) (d ∷ p))

  split_from-last : (p cur : Bytes) → Avoids a b p → split_from a b p cur ≡ (cur ++ p) ∷ []
  split_from-last [] cur h = unfold split_from in rw (append-nil cur)
  split_from-last (c ∷ []) cur h = unfold split_from in refl
  split_from-last (c ∷ d ∷ p) cur h =
      split_from-keep c d p cur h.0
      ∙ split_from-last (d ∷ p) (cur ++ c ∷ []) h.1
      ∙ ap (λ x. x ∷ []) (append_assoc cur (c ∷ []) (d ∷ p))

  split-separated :
      (p : Bytes) (ps : List Bytes)
      → a ≢ b
      → All (Avoids a b) (p ∷ ps)
      → split_from a b (p ++ separated (a ∷ b ∷ []) ps) [] ≡ p ∷ ps
  unfolding separated
  split-separated p [] ne h =
      ap (λ s. split_from a b s []) (append-nil p) ∙ split_from-last p [] h.0
  split-separated p (q ∷ ps) ne h =
      split_from-part p (q ++ separated (a ∷ b ∷ []) ps) [] ne h.0
      ∙ ap (◌∷◌ p) (split-separated q ps ne h.1)

  -- Parts that do not hold the separator are read back from their join.
  pub split-join :
      (p : Bytes) (ps : List Bytes)
      → a ≢ b
      → All (Avoids a b) (p ∷ ps)
      → split a b (join (a ∷ b ∷ []) (p ∷ ps)) ≡ p ∷ ps
  unfolding split join
  split-join p ps = split-separated p ps

  separated-split_from :
      (s cur : Bytes) → separated (a ∷ b ∷ []) (split_from a b s cur) ≡ a ∷ b ∷ (cur ++ s)
  unfolding separated
  separated-split_from [] cur = unfold split_from in refl
  separated-split_from (c ∷ []) cur = unfold split_from in simp append-nil
  separated-split_from (c ∷ d ∷ s) cur = elim (Bool-cases (c == a && d == b)) [
    | inl here ↦
        let cut : split_from a b (c ∷ d ∷ s) cur ≡ cur ∷ split_from a b s [] =
          unfold split_from in rw (here, split_from) in
        let same : (c ≡ a) × (d ≡ b) = ground arith in
        ap (separated (a ∷ b ∷ [])) cut
        ∙ ap (λ x. a ∷ b ∷ (cur ++ x)) (separated-split_from s [])
        ∙ rw (same.0, same.1)
    | inr later ↦
        ap (separated (a ∷ b ∷ [])) (split_from-keep c d s cur later)
        ∙ separated-split_from (d ∷ s) (cur ++ c ∷ [])
        ∙ ap (λ x. a ∷ b ∷ x) (append_assoc cur (c ∷ []) (d ∷ s))
  ]

  split_from-ne-nil : (s cur : Bytes) → split_from a b s cur ≢ []
  split_from-ne-nil [] cur = unfold split_from in (λ h. cc)
  split_from-ne-nil (c ∷ []) cur = unfold split_from in (λ h. cc)
  split_from-ne-nil (c ∷ d ∷ s) cur = elim (Bool-cases (c == a && d == b)) [
    | inl here ↦ unfold split_from in rw (here, split_from) (λ h. cc)
    | inr later ↦ rw (split_from-keep c d s cur later) (split_from-ne-nil (d ∷ s) (cur ++ c ∷ []))
  ]

  separated-join :
      (ps : List Bytes) → ps ≢ [] → separated (a ∷ b ∷ []) ps ≡ a ∷ b ∷ join (a ∷ b ∷ []) ps
  unfolding separated join
  separated-join [] h = absurd (h refl)
  separated-join (p ∷ ps) h = refl

  -- The parts of a split spell the text.
  pub join-split : (s : Bytes) → join (a ∷ b ∷ []) (split a b s) ≡ s
  unfolding split
  join-split s = ap (drop 2) (
      sym (separated-join (split_from a b s []) (split_from-ne-nil s []))
      ∙ separated-split_from s [])
