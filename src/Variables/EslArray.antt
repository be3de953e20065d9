-- ===== src/Variables/EslArray.antt =====
-- src/variables/esl_array.rs: `ARRAY::item1|:item2|:item3`.
use freeswitch_esl_rs.Prelude.{
  All, ◌≡◌, refl, sym, ap, ◌∙◌, Option, none, some, List, [], ◌∷◌, ◌++◌, arith, Bytes, codes,
}
use freeswitch_esl_rs.Text.{strip_prefix}
use freeswitch_esl_rs.Text.Search.{strip_prefix-append, strip_prefix_sound}
use freeswitch_esl_rs.Text.Split.{split, join, Avoids, split-join, join-split}

abbrev pub array_header : Bytes
array_header = codes "ARRAY::"

abbrev pub array_separator : Bytes
array_separator = codes "|:"

-- `EslArray(Vec<String>)`.
pub record EslArray : Type 0 where
  pub items : List Bytes

-- The items of what follows the header.
items_of : Option Bytes → Option EslArray
items_of none = none
items_of (some body) = some (record { items = split b'|' b':' body })

unfoldable pub parse : Bytes → Option EslArray
unfolding items_of strip_prefix split
parse s = items_of (strip_prefix s array_header)

unfoldable pub push : EslArray → Bytes → EslArray
push a value = record { items = a.items ++ value ∷ [] }

unfoldable pub unshift : EslArray → Bytes → EslArray
unshift a value = record { items = value ∷ a.items }

-- `Display`.
unfoldable pub to_string : EslArray → Bytes
unfolding join
to_string a = array_header ++ join array_separator a.items

-- No item holds the separator.
abbrev pub IsClean : List Bytes → Type 0
IsClean = All (Avoids b'|' b':')

-- An array with at least one item, none of which holds the separator, is read back from its text.
pub parse-to_string :
    (p : Bytes) (ps : List Bytes)
    → IsClean (p ∷ ps)
    → parse (to_string (record { items = p ∷ ps })) ≡ some (record { items = p ∷ ps })
parse-to_string p ps h =
    unfold parse to_string items_of in
    ap items_of (strip_prefix-append array_header (join array_separator (p ∷ ps)))
    ∙ ap (λ x. some (record { items = x })) (split-join b'|' b':' p ps (λ e. omega arith) h)

to_string-items_of :
    (o : Option Bytes) {a : EslArray}
    → items_of o ≡ some a
    → (body : Bytes) × (o ≡ some body) × (to_string a ≡ array_header ++ body)
to_string-items_of none h = unfold items_of in cc
to_string-items_of (some body) {a} h =
    unfold items_of to_string in
    let same : a ≡ record { items = split b'|' b':' body } = cc in
    (body, refl, rw same (ap (λ x. array_header ++ x) (join-split b'|' b':' body)))

-- Whatever text is read as an array, the array prints as that text.
to_string-parse : (s : Bytes) {a : EslArray} → parse s ≡ some a → to_string a ≡ s
unfolding parse
to_string-parse s h =
    let (body, prefixed, printed) = to_string-items_of (strip_prefix s array_header) h in
    printed ∙ sym (strip_prefix_sound s array_header prefixed)
