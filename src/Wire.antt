-- ===== src/Wire.antt =====
-- A `match` of a text with the names of an enum's variants, which each `FromStr` of an enum is, and
-- what makes it the inverse of `Display`.
use freeswitch_esl_rs.Prelude.{
  if◌then◌else◌, ◌≡◌, ◌↔◌, Option, none, some, List, [], ◌∷◌, arith, Bytes,
}
use freeswitch_esl_rs.Text.{bytes_eq}
use freeswitch_esl_rs.Text.Search.{bytes_eq_iff}

module _ {T : Type 0} (display : T → Bytes) where
  -- The arms in order; the first whose name is the text wins.
  unfoldable pub match_name : List T → Bytes → Option T
  unfolding bytes_eq
  match_name [] s = none
  match_name (v ∷ vs) s = if bytes_eq (display v) s then some v else match_name vs s

  -- What is matched has the text for its name.
  pub match_name_sound :
      (vs : List T) (s : Bytes) {v : T} → match_name vs s ≡ some v → s ≡ display v
  unfolding match_name
  match_name_sound [] s h = cc
  match_name_sound (w ∷ vs) s {v} h =
      ground (arith, bytes_eq_iff (display w) s, match_name_sound vs s {v = v})

-- A `match` of a text with literals: the arms in order, each with what it yields.
module _ {T : Type 0} where
  unfoldable pub match_arms : List (Bytes × T) → Bytes → Option T
  unfolding bytes_eq
  match_arms [] s = none
  match_arms ((literal, v) ∷ arms) s = if bytes_eq literal s then some v else match_arms arms s

-- An enum whose names tell its variants apart: each name is matched to its variant.
abbrev pub IsWire : {T : Type 0} → (T → Bytes) → List T → Type 0
IsWire {T} display vs = (t : T) → match_name display vs (display t) ≡ some t

-- Then a text is matched to a variant exactly if it is the variant's name.
pub match_name_iff :
    {T : Type 0} (display : T → Bytes) (vs : List T) (s : Bytes) (t : T)
    → IsWire display vs
    → (match_name display vs s ≡ some t) ↔ (s ≡ display t)
match_name_iff display vs s t w = (match_name_sound display vs s, λ e. rw e (w t))
