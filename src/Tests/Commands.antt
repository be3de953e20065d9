-- ===== src/Tests/Commands.antt =====
-- The theorems on quoting and on channel variables at concrete inputs.
use freeswitch_esl_rs.Prelude.{
  Bool-cases, All, ok, ℕ, ◌≡◌, refl, sym, ap, ◌∙◌, ◌≢◌, inl, inr, Option, none, some, List, [], ◌∷◌,
  ◌++◌, map, arith, Bytes, codes, Lacks,
}
use freeswitch_esl_rs.Text.{bytes_eq, contains}
use freeswitch_esl_rs.Text.Trim.{trim}
use freeswitch_esl_rs.Text.Split.{join}
use freeswitch_esl_rs.Headers.{Headers, get, insert}
use freeswitch_esl_rs.Command.Wire.{api, to_wire_format}
use freeswitch_esl_rs.Command.Checked.{IsLine, Checked}
use freeswitch_esl_rs.Command.Framed.{IsFramed}
use freeswitch_esl_rs.Commands.{originate_quote, originate_unquote, originate_split}
use freeswitch_esl_rs.Commands.Quoting.{unquote-quote}
use freeswitch_esl_rs.Commands.Originate.{
  xml, default, IndexMap, IsOrdered, Variables, escape_value, unescape_value, variables_display,
  variables_from_str,
}
use freeswitch_esl_rs.Commands.Parts.{unescape_value-escape_value}
use freeswitch_esl_rs.Commands.Tokens.{originate_split-quote}
use freeswitch_esl_rs.Commands.Application.{Application, list_text, ReadsBack, list_text-ReadsBack}
use freeswitch_esl_rs.Commands.Uuid.{
  UuidCommand, uuid_kill, uuid_display, uuid_texts, uuid_display-Checked,
}
use freeswitch_esl_rs.Commands.Variables.{variables_from_str-display}
use mathlib.Core.List.Permᴰ

unquote-quote_example : originate_unquote (originate_quote (codes "it's a b")) ≡ codes "it's a b"
unfolding contains
unquote-quote_example = unquote-quote (codes "it's a b") (inl refl)

unescape_value-escape_value_example :
    unescape_value (escape_value (codes "a,'b c")) ≡ codes "a,'b c"
unescape_value-escape_value_example = unescape_value-escape_value (codes "a,'b c")

-- `IndexMap` as an association list.
abbrev pub list_map : IndexMap
list_map = record { Map = Headers; new = []; insert = insert; iter = λ m. m }

insert-fresh : (m : Headers) (k v : Bytes) → get m k ≡ none → insert m k v ≡ m ++ (k, v) ∷ []
unfolding insert get
insert-fresh [] k v h = refl
insert-fresh ((j, w) ∷ m) k v h = elim (Bool-cases (bytes_eq j k)) [
  | inl y ↦ let e : some w ≡ none = sym (rw y refl) ∙ h in cc
  | inr n ↦
      let e : get m k ≡ none = sym (rw n refl) ∙ h in rw n (ap (◌∷◌ (j, w)) (insert-fresh m k v e))
]

list_map-IsOrdered : IsOrdered list_map
list_map-IsOrdered = (refl, insert-fresh)

abbrev two_variables : Variables Headers
two_variables = record {
  vars_type = default;
  inner = (codes "a", codes "1,2") ∷ (codes "b", codes "x y") ∷ [];
}

two_ne : ◌≢◌ {A = Option ℕ} (some b'2') (some b'\\')
two_ne e = let i : ◌≡◌ {A = ℕ} b'2' b'\\' = cc in absurd (omega (arith, i))

variables_from_str-display_example :
    (w : Variables Headers) × (variables_from_str list_map
        (variables_display list_map two_variables)
      ≡ ok w)
    × (w.vars_type ≡ default)
    × (w.inner ≡ two_variables.inner)
unfolding contains get bytes_eq
variables_from_str-display_example =
    variables_from_str-display list_map list_map-IsOrdered two_variables (codes "a", codes "1,2")
      ((codes "b", codes "x y") ∷ []) refl
      (
        (((λ e. absurd (omega arith), tt), (λ e. absurd (omega arith), tt)), inr two_ne),
        ((((λ e. absurd (omega arith), tt), (λ e. absurd (omega arith), tt)), inl refl), tt),
      )
      (refl, (refl, tt))

one_ne : ◌≢◌ {A = Option ℕ} (some b'1') (some b'\\')
one_ne e = let i : ◌≡◌ {A = ℕ} b'1' b'\\' = cc in absurd (omega (arith, i))

no_quote : Lacks b'\'' (codes "park")
no_quote = ground arith

no_paren : Lacks b'(' (codes "park")
no_paren = ground arith

abbrev texts_to_quote : List Bytes
texts_to_quote = codes "it's 1" ∷ codes "park" ∷ []

originate_split-quote_example :
    (tokens : List Bytes) × (originate_split
        (join (codes " ") (map originate_quote texts_to_quote))
        b' '
      ≡ ok tokens)
    × (map originate_unquote tokens ≡ texts_to_quote)
unfolding contains trim
originate_split-quote_example =
    originate_split-quote (codes "it's 1") (codes "park" ∷ [])
      (inl (refl, one_ne), (inr (refl, no_quote, refl, refl), tt))

abbrev park : Application
park = record { name = codes "park"; args = some [] }

list_text-ReadsBack_example :
    ReadsBack (park ∷ []) (some xml) (list_text (park ∷ []) xml)
    × ReadsBack (park ∷ []) none (list_text (park ∷ []) xml)
list_text-ReadsBack_example = list_text-ReadsBack (park ∷ []) (no_paren, tt)

abbrev kill : UuidCommand
kill = uuid_kill (codes "a1") (some (codes "USER_BUSY"))

uuid_display-Checked_example :
    Checked
      (All IsLine (uuid_texts kill))
      (IsFramed none)
      (to_wire_format (λ m. m) (api (uuid_display kill)))
uuid_display-Checked_example = uuid_display-Checked (λ m. m) (λ m. Permᴰ.refl m) kill
