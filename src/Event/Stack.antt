-- ===== src/Event/Stack.antt =====
-- The multi-value headers: what `push_header` and `unshift_header` make of a header.
use freeswitch_esl_rs.Prelude.{
  All-append, ◌≡◌, ap, ◌∙◌, false, Option, none, some, List, [], ◌∷◌, ◌++◌, Bytes, unwrap_or,
}
use freeswitch_esl_rs.Text.{bytes_eq}
use freeswitch_esl_rs.Text.Split.{Avoids}
use freeswitch_esl_rs.Headers.{get}
use freeswitch_esl_rs.Headers.Laws.{get-insert_self, get-insert_ne}
use freeswitch_esl_rs.Variables.EslArray.{
  EslArray, push, unshift, to_string, IsClean, parse-to_string,
}
use freeswitch_esl_rs.Event.{
  EslEvent, header, stacked_array, stacked_value, push_header, unshift_header,
}
use freeswitch_esl_rs.Variables.EslArray

-- The values that a header stands for: none if it is absent, the items of an array, or one value.
abbrev pub values : Option Bytes → List Bytes
values none = []
values (some s) = (stacked_array s).items

-- A stored array with at least one item is read back as its items.
values-to_string :
    (p : Bytes) (ps : List Bytes)
    → IsClean (p ∷ ps)
    → values (some (EslArray.to_string (record { items = p ∷ ps }))) ≡ p ∷ ps
unfolding stacked_array
values-to_string p ps h =
    ap
      (λ o.
        (unwrap_or {A = EslArray} o
          (record { items = EslArray.to_string (record { items = p ∷ ps }) ∷ [] })).items)
      (EslArray.parse-to_string p ps h)

values-push :
    (a : EslArray) (v : Bytes)
    → IsClean a.items
    → IsClean (v ∷ [])
    → values (some (EslArray.to_string (EslArray.push a v))) ≡ a.items ++ v ∷ []
unfolding EslArray.push
values-push a v h hv = go a.items h
  where
    go :
        (vs : List Bytes)
        → IsClean vs
        → values (some (EslArray.to_string (record { items = vs ++ v ∷ [] }))) ≡ vs ++ v ∷ []
    go [] h = values-to_string v [] hv
    go (w ∷ vs) h =
        values-to_string w (vs ++ v ∷ []) (All-append (Avoids b'|' b':') (w ∷ vs) (v ∷ []) h hv)

-- A value that is no array itself stands for one value.
values_plain : (v : Bytes) → EslArray.parse v ≡ none → values (some v) ≡ v ∷ []
unfolding stacked_array
values_plain v h = ap (λ o. (unwrap_or {A = EslArray} o (record { items = v ∷ [] })).items) h

values-stacked_push :
    (o : Option Bytes) (v : Bytes)
    → IsClean (values o)
    → IsClean (v ∷ [])
    → EslArray.parse v ≡ none
    → values (some (stacked_value o v EslArray.push)) ≡ values o ++ v ∷ []
unfolding stacked_value
values-stacked_push none v h hv single = values_plain v single
values-stacked_push (some s) v h hv single = values-push (stacked_array s) v h hv

values-stacked_unshift :
    (o : Option Bytes) (v : Bytes)
    → IsClean (values o)
    → IsClean (v ∷ [])
    → EslArray.parse v ≡ none
    → values (some (stacked_value o v EslArray.unshift)) ≡ v ∷ values o
unfolding stacked_value EslArray.unshift
values-stacked_unshift none v h hv single = values_plain v single
values-stacked_unshift (some s) v h hv single = values-to_string v (stacked_array s).items (hv.0, h)

module _ (e : EslEvent) (name v : Bytes) where
  -- The other headers of an event.
  abbrev pub Untouched : EslEvent → Type 0
  Untouched e' = (j : Bytes) → bytes_eq name j ≡ false → header e' j ≡ header e j

  -- After `push_header` the header stands for the values it stood for with the new one behind them,
  -- and after `unshift_header` with the new one in front of them; other headers stay. No value holds
  -- the separator, and the new one is not itself an array.
  pub stack_header-values :
      IsClean (values (header e name))
      → IsClean (v ∷ [])
      → EslArray.parse v ≡ none
      → (values (header (push_header e name v) name) ≡ values (header e name) ++ v ∷ [])
        × Untouched (push_header e name v)
        × (values (header (unshift_header e name v) name) ≡ v ∷ values (header e name))
        × Untouched (unshift_header e name v)
  unfolding header push_header unshift_header
  stack_header-values h hv single =
      let o = get e.headers name in
      let pushed = stacked_value o v EslArray.push in
      let unshifted = stacked_value o v EslArray.unshift in
      (
        ap values (get-insert_self e.headers name pushed) ∙ values-stacked_push o v h hv single,
        (λ j ne. get-insert_ne e.headers name pushed j ne),
        ap values (get-insert_self e.headers name unshifted)
            ∙ values-stacked_unshift o v h hv single,
        (λ j ne. get-insert_ne e.headers name unshifted j ne),
      )
