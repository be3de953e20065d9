-- ===== src/Commands/Application.antt =====
-- Applications and their lists, of src/commands/originate.rs, and `parse_application_list` of
-- src/commands/mod.rs, which reads them back.
use freeswitch_esl_rs.Prelude.{
  if◌then◌else◌, All, Result, ok, err, ◌>>=◌, ok_or, ◌≡◌, refl, ◌≢◌, Option, none, some, List, [],
  ◌∷◌, ◌++◌, map, Bytes, codes, Lacks, unwrap_or,
}
use freeswitch_esl_rs.Text.{is_empty, strip_prefix, strip_suffix, split_once}
use freeswitch_esl_rs.Text.Search.{strip_suffix-append, split_once-append}
use freeswitch_esl_rs.Text.Split.{join}
use freeswitch_esl_rs.Error.{OriginateError, too_many_applications, parse_error}
use freeswitch_esl_rs.Commands.{originate_split}
use freeswitch_esl_rs.Commands.Originate.{xml, DialplanType, inline}

pub record Application : Type 0 where
  pub name : Bytes
  pub args : Option Bytes

-- `Application::to_string_with_dialplan`.
unfoldable pub application_text : Application → DialplanType → Bytes
application_text app inline = app.name ++ b':' ∷ unwrap_or app.args []
application_text app xml = b'&' ∷ app.name ++ b'(' ∷ unwrap_or app.args [] ++ b')' ∷ []

-- `ApplicationList::to_string_with_dialplan`.
unfoldable pub list_text : List Application → DialplanType → Result OriginateError Bytes
unfolding application_text join
list_text apps inline = ok (join (codes ",") (map (λ app. application_text app inline) apps))
list_text (app ∷ []) xml = ok (application_text app xml)
list_text _ xml = err too_many_applications

-- The loop over the parts of an inline list.
unfoldable pub parse_inline : List Bytes → Result OriginateError (List Application)
unfolding split_once
parse_inline [] = ok []
parse_inline (part ∷ parts) = do
  (name, args) ←
      ok_or (split_once part b':') (parse_error (codes "invalid inline application: " ++ part))
  apps ← parse_inline parts
  ok (record { name = name; args = some args } ∷ apps)

-- `if args.is_empty() { None } else { Some(args) }`.
unfoldable pub non_empty : Bytes → Option Bytes
non_empty args = if is_empty args then none else some args

unfoldable pub parse_ampersand : Bytes → Result OriginateError (List Application)
unfolding strip_suffix split_once non_empty
parse_ampersand rest = do
  rest ← ok_or (strip_suffix rest b')') (parse_error (codes "missing closing paren"))
  (name, args) ← ok_or (split_once rest b'(') (parse_error (codes "missing opening paren"))
  ok (record { name = name; args = non_empty args } ∷ [])

-- Any dialplan but `Inline`.
unfoldable pub parse_xml : Bytes → Option Bytes → Result OriginateError (List Application)
unfolding parse_ampersand
parse_xml s none = ok (record { name = s; args = none } ∷ [])
parse_xml s (some rest) = parse_ampersand rest

unfoldable pub parse_application_list :
    Bytes → Option DialplanType → Result OriginateError (List Application)
unfolding originate_split parse_inline parse_xml strip_prefix
parse_application_list s (some inline) = originate_split s b',' >>= parse_inline
parse_application_list s (some xml) = parse_xml s (strip_prefix s (codes "&"))
parse_application_list s none = parse_xml s (strip_prefix s (codes "&"))

-- An application without arguments, and one with empty arguments, are written alike.
abbrev pub normal : Application → Application
unfolding non_empty
normal app = record { name = app.name; args = non_empty (unwrap_or app.args []) }

-- What is asked of a list that was written for the XML dialplan.
abbrev pub ReadsBack : List Application → Option DialplanType → Result OriginateError Bytes → Type 0
ReadsBack apps dialplan (ok text) =
    (app : Application) × (apps ≡ app ∷ [])
    × (parse_application_list text dialplan ≡ ok (normal app ∷ []))
ReadsBack apps dialplan (err e) =
    (e ≡ too_many_applications) × ((app : Application) → apps ≢ app ∷ [])

parse_ampersand-text :
    (name args : Bytes)
    → Lacks b'(' name
    → parse_ampersand (name ++ b'(' ∷ args ++ b')' ∷ [])
      ≡ ok (record { name = name; args = non_empty args } ∷ [])
unfolding parse_ampersand
parse_ampersand-text name args h =
    rw (strip_suffix-append (name ++ b'(' ∷ args) b')')
      (rw (split_once-append name b'(' args h) refl)

pub parse_xml-text :
    (app : Application)
    → Lacks b'(' app.name
    → parse_xml (application_text app xml) (strip_prefix (application_text app xml) (codes "&"))
      ≡ ok (normal app ∷ [])
unfolding parse_xml application_text strip_prefix
parse_xml-text app h = parse_ampersand-text app.name (unwrap_or app.args []) h

-- Writing a list for the XML dialplan fails exactly if it has not one application. What is written
-- for one is read back as it, in the XML dialplan and where no dialplan is named, but that empty
-- arguments count as none. No name has an opening parenthesis.
pub list_text-ReadsBack :
    (apps : List Application)
    → All (λ app. Lacks b'(' app.name) apps
    → ReadsBack apps (some xml) (list_text apps xml) × ReadsBack apps none (list_text apps xml)
unfolding list_text parse_application_list
list_text-ReadsBack [] h = ((refl, (λ app e. cc)), (refl, (λ app e. cc)))
list_text-ReadsBack (app ∷ []) h =
    ((app, refl, parse_xml-text app h.0), (app, refl, parse_xml-text app h.0))
list_text-ReadsBack (a ∷ b ∷ apps) h = ((refl, (λ app e. cc)), (refl, (λ app e. cc)))
