-- ===== src/Text/Solid.antt =====
-- Texts of ASCII characters that are no white space: what `trim` and `lines` of `Text.Trim` make of
-- them.
use mathlib.Core.List.{reverse-append, reverse-reverse}
use freeswitch_esl_rs.Prelude.{
  ◌==◌, All, All-append, All-split, ℕ, ◌≡◌, refl, sym, ap, ◌∙◌, subst, true, false, none, [], ◌∷◌,
  ◌++◌, reverse, append_assoc, append-nil, arith, Bytes, Lacks,
}
use freeswitch_esl_rs.Text.{strip_suffix}
use freeswitch_esl_rs.Text.Trim.{
  is_ascii_white, white_width, white_width_back, drop_white, trim_start, trim_end, trim, strip_cr,
  lines_from, IsSolid, white_width_solid, white_width_back_solid,
}

-- Such a text.
abbrev pub IsWord : Bytes → Type 0
IsWord = All IsSolid

pub IsWord-Lacks : (b : ℕ) (s : Bytes) → is_ascii_white b ≡ true → IsWord s → Lacks b s
IsWord-Lacks b [] w h = tt
IsWord-Lacks b (c ∷ s) w h =
    ((λ e. cc (sym w ∙ ap is_ascii_white (sym e) ∙ h.0.1)), IsWord-Lacks b s w h.1)

IsWord-reverse : (s : Bytes) → IsWord s → IsWord (reverse s)
IsWord-reverse [] h = tt
IsWord-reverse (c ∷ s) h =
    rw (reverse-append (c ∷ []) s)
      (All-append IsSolid (reverse s) (c ∷ []) (IsWord-reverse s h.1) (h.0, tt))

pub trim_start_solid : (c : ℕ) (s : Bytes) → IsSolid c → trim_start (c ∷ s) ≡ c ∷ s
unfolding trim_start drop_white
trim_start_solid c s h = rw (white_width_solid c s h, drop_white) refl

trim_start_word : (s : Bytes) → IsWord s → trim_start s ≡ s
trim_start_word [] h = unfold trim_start drop_white in refl
trim_start_word (c ∷ s) h = trim_start_solid c s h.0

white_width_space : (s : Bytes) → white_width (b' ' ∷ s) ≡ 1
unfolding white_width
white_width_space [] = refl
white_width_space (d ∷ []) = refl
white_width_space (d ∷ e ∷ s) = refl

white_width_back_space : (s : Bytes) → white_width_back (b' ' ∷ s) ≡ 1
unfolding white_width_back
white_width_back_space [] = refl
white_width_back_space (d ∷ []) = refl
white_width_back_space (d ∷ e ∷ s) = refl

pub trim_start_space : (s : Bytes) → trim_start (b' ' ∷ s) ≡ trim_start s
unfolding trim_start drop_white
trim_start_space s = rw (white_width_space s, drop_white) refl

pub trim_end_solid : (s : Bytes) (c : ℕ) → IsSolid c → trim_end (s ++ c ∷ []) ≡ s ++ c ∷ []
unfolding trim_end drop_white
trim_end_solid s c h =
    let ends : reverse (s ++ c ∷ []) ≡ c ∷ reverse s = reverse-append s (c ∷ []) in
    rw ends (
      rw (white_width_back_solid c (reverse s) h, drop_white)
        (ap reverse (sym ends) ∙ reverse-reverse (s ++ c ∷ [])))

trim_end_space : (s : Bytes) → trim_end (s ++ b' ' ∷ []) ≡ trim_end s
unfolding trim_end drop_white
trim_end_space s =
    let ends : reverse (s ++ b' ' ∷ []) ≡ b' ' ∷ reverse s = reverse-append s (b' ' ∷ []) in
    rw ends (rw (white_width_back_space (reverse s), drop_white) refl)

-- A text that is not empty, by its last element.
pub unsnoc : (c : ℕ) (s : Bytes) → (t : Bytes) × (d : ℕ) × (c ∷ s ≡ t ++ d ∷ [])
unsnoc c [] = ([], c, refl)
unsnoc c (d ∷ s) = let (t, e, q) = unsnoc d s in (c ∷ t, e, ap (λ l. c ∷ l) q)

-- `trim_end` leaves a text that ends in a word.
pub trim_end_word :
    (s : Bytes) (c : ℕ) (w : Bytes) → IsWord (c ∷ w) → trim_end (s ++ c ∷ w) ≡ s ++ c ∷ w
trim_end_word s c w h =
    let (t, d, q) = unsnoc c w in
    let k : IsWord (t ++ d ∷ []) = subst IsWord q h in
    let solid : IsSolid d = (All-split IsSolid t (d ∷ []) k).1.0 in
    let e : s ++ c ∷ w ≡ (s ++ t) ++ d ∷ [] =
      ap (λ l. s ++ l) q ∙ sym (append_assoc s t (d ∷ [])) in
    rw e (trim_end_solid (s ++ t) d solid)

pub trim_word : (w : Bytes) → IsWord w → trim w ≡ w
unfolding trim
trim_word [] h = unfold trim_start trim_end drop_white in refl
trim_word (c ∷ w) h = ap trim_end (trim_start_solid c w h.0) ∙ trim_end_word [] c w h

-- A space in front goes.
pub trim_space : (w : Bytes) → IsWord w → trim (b' ' ∷ w) ≡ w
unfolding trim
trim_space w h = ap trim_end (trim_start_space w) ∙ trim_word w h

-- A text between words stays, and loses a space at its end.
pub trim_between :
    (c : ℕ) (s : Bytes) (d : ℕ) (w : Bytes)
    → IsSolid c
    → IsWord (d ∷ w)
    → trim (c ∷ s ++ d ∷ w) ≡ c ∷ s ++ d ∷ w
unfolding trim
trim_between c s d w h k =
    ap trim_end (trim_start_solid c (s ++ d ∷ w) h) ∙ trim_end_word (c ∷ s) d w k

pub trim_trailing : (c : ℕ) (s : Bytes) → IsWord (c ∷ s) → trim (c ∷ s ++ b' ' ∷ []) ≡ c ∷ s
unfolding trim
trim_trailing c s h =
    ap trim_end (trim_start_solid c (s ++ b' ' ∷ []) h.0)
    ∙ trim_end_space (c ∷ s)
    ∙ trim_end_word [] c s h

strip_suffix-Lacks : (s : Bytes) (q : ℕ) → Lacks q s → strip_suffix s q ≡ none
unfolding strip_suffix
strip_suffix-Lacks [] q h = refl
strip_suffix-Lacks (c ∷ []) q h = ground (arith, h.0)
strip_suffix-Lacks (c ∷ d ∷ s) q h = rw (strip_suffix-Lacks (d ∷ s) q h.1) refl

strip_cr-Lacks : (l : Bytes) → Lacks b'\r' l → strip_cr l ≡ l
unfolding strip_cr
strip_cr-Lacks l h = rw (strip_suffix-Lacks l b'\r' h, strip_cr) refl

-- A line that ends in `\n`, and has no `\r`, is read as it is.
pub lines_from-line :
    (l t cur : Bytes)
    → Lacks b'\n' l
    → Lacks b'\r' (cur ++ l)
    → lines_from (l ++ b'\n' ∷ t) cur ≡ (cur ++ l) ∷ lines_from t []
unfolding lines_from
lines_from-line [] t cur h k =
    let e : cur ++ [] ≡ cur = append-nil cur in
    ap (λ x. x ∷ lines_from t []) (strip_cr-Lacks cur (subst (Lacks b'\r') e k) ∙ sym e)
lines_from-line (c ∷ l) t cur h k =
    let n : (c == b'\n') ≡ false = ground (arith, h.0) in
    let e = append_assoc cur (c ∷ []) l in
    rw (n, lines_from)
      (lines_from-line l t (cur ++ c ∷ []) h.1 (subst (Lacks b'\r') (sym e) k)
        ∙ ap (λ x. x ∷ lines_from t []) e)

-- The last line has no `\n` behind it.
pub lines_from-last :
    (c : ℕ) (l cur : Bytes) → Lacks b'\n' (c ∷ l) → lines_from (c ∷ l) cur ≡ (cur ++ c ∷ l) ∷ []
unfolding lines_from
lines_from-last c [] [] h =
    let n : (c == b'\n') ≡ false = ground (arith, h.0) in rw (n, lines_from) refl
lines_from-last c [] (x ∷ cur) h =
    let n : (c == b'\n') ≡ false = ground (arith, h.0) in rw (n, lines_from) refl
lines_from-last c (d ∷ l) cur h =
    let n : (c == b'\n') ≡ false = ground (arith, h.0) in
    rw (n, lines_from)
      (lines_from-last d l (cur ++ c ∷ []) h.1
        ∙ ap (λ x. x ∷ []) (append_assoc cur (c ∷ []) (d ∷ l)))
