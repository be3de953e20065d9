-- ===== src/Variables/Multipart.antt =====
-- src/variables/sip_multipart.rs: the parts of a SIP body, an array of `mime/type:data`.
use freeswitch_esl_rs.Prelude.{if◌then◌else◌, Option, none, some, List, [], ◌∷◌, Bytes}
use freeswitch_esl_rs.Text.{bytes_eq, split_once}
use freeswitch_esl_rs.Variables.EslArray.{EslArray}
use freeswitch_esl_rs.Variables.EslArray

pub record MultipartItem : Type 0 where
  pub mime_type : Bytes
  pub content : Bytes

-- `filter_map` of the entries that have a `:`.
unfoldable pub items_of : List Bytes → List MultipartItem
unfolding split_once
items_of [] = []
items_of (entry ∷ rest) =
    let more = items_of rest in
    elim (split_once entry b':') [
      | none ↦ more
      | some (mime_type, content) ↦ (record { mime_type = mime_type; content = content }) ∷ more
    ]

unfoldable pub parse : Bytes → Option (List MultipartItem)
unfolding EslArray.parse items_of
parse s = elim (EslArray.parse s) [ none ↦ none | some array ↦ some (items_of array.items) ]

unfoldable pub by_mime_type : List MultipartItem → Bytes → List Bytes
unfolding bytes_eq
by_mime_type [] mime = []
by_mime_type (item ∷ rest) mime =
    let more = by_mime_type rest mime in
    if bytes_eq item.mime_type mime then item.content ∷ more else more
