-- ===== src/Commands/Variables.antt =====
-- Channel variables are read back from their text: `Display` and `FromStr` of `Variables` in
-- src/commands/originate.rs.
use freeswitch_esl_rs.Prelude.{
  ltb, length, length-append, All, ok, ℕ, ◌≡◌, refl, sym, ap, ◌∙◌, subst, ◌≢◌, true, false, Option,
  none, some, List, [], ◌∷◌, ◌++◌, map, append_assoc, append-nil, arith, Bytes, codes, Lacks,
}
use freeswitch_esl_rs.Text.Search.{strip_suffix-append, split_once-append}
use freeswitch_esl_rs.Text.Trim.{trim, trim_fixed}
use freeswitch_esl_rs.Text.Split.{join}
use freeswitch_esl_rs.Headers.{get}
use freeswitch_esl_rs.Commands.Originate.{
  VariablesType, enterprise, default, channel, delimiters, IndexMap, IsOrdered, Variables,
  escape_value, splits, split_commas, split_unescaped_commas, variable_text, scoped, block,
  variables_display, insert_parts, parse_block, variables_from_str,
}
use freeswitch_esl_rs.Commands.Parts.{
  unescape_value-escape_value, last_of, IsPart, IsPart-append, last_of-append, splits_ne,
  Lacks-IsPart, split_commas-last, split_commas-part, escape_value-IsPart, IsVariable, splits_comma,
  escape_value-last,
}

variable_text-IsPart :
    (prev : Option ℕ) (e : Bytes × Bytes) → IsVariable e → IsPart prev (variable_text e)
unfolding variable_text
variable_text-IsPart prev (k, v) ((commas, _), _) =
    IsPart-append prev k (b'=' ∷ escape_value v) (Lacks-IsPart prev k commas) (
      splits_ne (last_of prev k) b'=' (λ e. absurd (omega arith)),
      escape_value-IsPart (some b'=') v,
    )

variable_text-splits :
    (prev : Option ℕ) (e : Bytes × Bytes)
    → IsVariable e
    → splits (last_of prev (variable_text e)) b',' ≡ true
unfolding variable_text
variable_text-splits prev (k, v) (_, value) = splits_comma _ (
    subst (λ o. o ≢ some b'\\') (sym (last_of-append prev k (b'=' ∷ escape_value v)))
      (escape_value-last b'=' v (λ e. absurd (omega arith)) value))

split-variables :
    (prev : Option ℕ) (e : Bytes × Bytes) (es : List (Bytes × Bytes))
    → All IsVariable (e ∷ es)
    → split_commas prev (join (codes ",") (map variable_text (e ∷ es))) []
      ≡ map variable_text (e ∷ es)
unfolding join
split-variables prev e [] h =
    rw (append-nil (variable_text e))
      (split_commas-last prev (variable_text e) [] (variable_text-IsPart prev e h.0))
split-variables prev e (f ∷ es) h =
    split_commas-part prev (variable_text e) (join (codes ",") (map variable_text (f ∷ es))) []
      (variable_text-IsPart prev e h.0) (variable_text-splits prev e h.0)
    ∙ ap (◌∷◌ (variable_text e)) (split-variables (some b',') f es h.1)

-- No key is among those before it.
abbrev pub IsFresh : List (Bytes × Bytes) → List (Bytes × Bytes) → Type 0
IsFresh before [] = Unit
IsFresh before ((k, v) ∷ es) = (get before k ≡ none) × IsFresh (before ++ (k, v) ∷ []) es

module _ (I : IndexMap) (ordered : IsOrdered I) where
  insert_parts-step :
      (m : I.Map) (k v : Bytes) (ps : List Bytes)
      → Lacks b'=' k
      → insert_parts I (variable_text (k, v) ∷ ps) m ≡ insert_parts I ps (I.insert m k v)
  unfolding insert_parts variable_text
  insert_parts-step m k v ps h =
      rw (split_once-append k b'=' (escape_value v) h) (rw (unescape_value-escape_value v) refl)

  insert_parts-variables :
      (m : I.Map) (before es : List (Bytes × Bytes))
      → I.iter m ≡ before
      → All IsVariable es
      → IsFresh before es
      → (n : I.Map) × (insert_parts I (map variable_text es) m ≡ ok n) × (I.iter n ≡ before ++ es)
  unfolding insert_parts
  insert_parts-variables m before [] i h f = (m, refl, i ∙ sym (append-nil before))
  insert_parts-variables m before ((k, v) ∷ es) i h f =
      let fresh : get (I.iter m) k ≡ none = ap (λ l. get l k) i ∙ f.0 in
      let (n, run, all) =
        insert_parts-variables (I.insert m k v) (before ++ (k, v) ∷ []) es
          (ordered.1 m k v fresh ∙ ap (λ l. l ++ (k, v) ∷ []) i) h.1 f.1 in
      (
        n,
        insert_parts-step m k v (map variable_text es) h.0.0.1 ∙ run,
        all ∙ append_assoc before ((k, v) ∷ []) es,
      )

block-delimited :
    (t : VariablesType) (s : Bytes)
    → block ((delimiters t).0 ∷ s ++ (delimiters t).1 ∷ []) ≡ some (t, s)
unfolding block delimiters scoped
block-delimited enterprise s = ap (scoped enterprise) (strip_suffix-append s b'>')
block-delimited default s = ap (scoped default) (strip_suffix-append s b'}')
block-delimited channel s = ap (scoped channel) (strip_suffix-append s b']')

delimited-trim :
    (t : VariablesType) (s : Bytes)
    → trim ((delimiters t).0 ∷ s ++ (delimiters t).1 ∷ [])
      ≡ (delimiters t).0 ∷ s ++ (delimiters t).1 ∷ []
unfolding delimiters
delimited-trim enterprise s = trim_fixed b'<' b'>' s (omega arith, refl) (omega arith, refl)
delimited-trim default s = trim_fixed b'{' b'}' s (omega arith, refl) (omega arith, refl)
delimited-trim channel s = trim_fixed b'[' b']' s (omega arith, refl) (omega arith, refl)

module _ (I : IndexMap) (ordered : IsOrdered I) where
  -- Variables are read back from their text, in their order and with their scope, if there is at
  -- least one, the keys differ and have neither comma nor `=`, and no value without a space ends in
  -- a backslash. The map keeps the order in which new keys come in.
  pub variables_from_str-display :
      (v : Variables I.Map) (e : Bytes × Bytes) (es : List (Bytes × Bytes))
      → I.iter v.inner ≡ e ∷ es
      → All IsVariable (e ∷ es)
      → IsFresh [] (e ∷ es)
      → (w : Variables I.Map) × (variables_from_str I (variables_display I v) ≡ ok w)
        × (w.vars_type ≡ v.vars_type)
        × (I.iter w.inner ≡ I.iter v.inner)
  unfolding variables_from_str variables_display parse_block split_unescaped_commas
  variables_from_str-display v e es i h f =
      let text = join (codes ",") (map variable_text (e ∷ es)) in
      let (n, run, all) = insert_parts-variables I ordered I.new [] (e ∷ es) ordered.0 h f in
      let long : ltb (length ((delimiters v.vars_type).0 ∷ text ++ (delimiters v.vars_type).1 ∷ []))
            2
          ≡ false =
        ground (arith, length-append text ((delimiters v.vars_type).1 ∷ [])) in
      (
        record { vars_type = v.vars_type; inner = n },
        rw i (
            rw (delimited-trim v.vars_type text) (
              rw long (
                rw (block-delimited v.vars_type text)
                  (rw (split-variables none e es h) (rw run refl))))),
        refl,
        all ∙ sym i,
      )
