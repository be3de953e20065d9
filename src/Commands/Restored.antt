-- ===== src/Commands/Restored.antt =====
-- An `Originate` of src/commands/originate.rs is read back from the text that it displays.
use freeswitch_esl_rs.Prelude.{
  ok, ◌>>=◌, ◌≡◌, refl, ap, ◌∙◌, ◌≢◌, false, Option, none, some, [], ◌∷◌, ◌++◌, Bytes, codes, Lacks,
  unwrap_or,
}
use freeswitch_esl_rs.Text.{contains}
use freeswitch_esl_rs.Text.Trim.{trim}
use freeswitch_esl_rs.Text.Split.{separated, join}
use freeswitch_esl_rs.Commands.{originate_quote, originate_split}
use freeswitch_esl_rs.Commands.Originate.{xml, DialplanType, inline, IndexMap}
use freeswitch_esl_rs.Commands.Scan.{split_tokens-join}
use freeswitch_esl_rs.Commands.Tokens.{quote-IsToken}
use freeswitch_esl_rs.Commands.Application.{
  normal, Application, application_text, list_text, parse_application_list, parse_xml-text,
}
use freeswitch_esl_rs.Commands.Builder.{
  generic, Originate, endpoint_display, endpoint_from_str, arguments_text, originate_text,
  originate_display, from_arguments, originate_from_str,
}
use freeswitch_esl_rs.Commands.Line.{trim_line}
use freeswitch_esl_rs.Commands.Arguments.{
  Arguments-split, words, arguments_text-words, IsWritable, words-IsArgument, with_endpoint-words,
}

module _ (I : IndexMap) where
  -- The line is split into the words that it was made of.
  originate_split-line :
      (o : Originate I.Map) (apps : Bytes)
      → IsWritable I o apps
      → originate_from_str I (
          codes "originate "
          ++ (endpoint_display I o.endpoint ++ b' ' ∷ (originate_quote apps ++ arguments_text I o)))
        ≡ from_arguments I (endpoint_display I o.endpoint ∷ originate_quote apps ∷ words I o)
  unfolding originate_from_str originate_split join separated
  originate_split-line o apps w =
      let e = endpoint_display I o.endpoint in
      let q = originate_quote apps in
      let (tokens, ends) = Arguments-split (words I o) (words-IsArgument I o apps w) in
      let line : trim (b' ' ∷ (e ++ b' ' ∷ (q ++ separated (codes " ") (words I o))))
          ≡ join (codes " ") (e ∷ q ∷ words I o) =
        trim_line e (q ∷ words I o) w.0 w.1.1 (w.3, ends) in
      ap
        (λ s.
          originate_split (trim (b' ' ∷ (e ++ b' ' ∷ (q ++ s)))) b' ' >>= λ ws. from_arguments I ws)
        (arguments_text-words I o)
      ∙ ap (λ s. originate_split s b' ' >>= λ ws. from_arguments I ws) line
      ∙ ap (λ r. r >>= λ ws. from_arguments I ws)
          (split_tokens-join none e (q ∷ words I o) ((λ s u. u), (λ s. refl))
            (w.1.0, (quote-IsToken apps w.2, tokens)))

  -- What an `Originate` displays is read back: the endpoint as its text is read, and the applications
  -- as theirs is, in the dialplan that is given; all else is the same.
  originate_from_str-text :
      (o : Originate I.Map) (apps : Bytes)
      → IsWritable I o apps
      → originate_from_str I (
          codes "originate "
          ++ (endpoint_display I o.endpoint ++ b' ' ∷ (originate_quote apps ++ arguments_text I o)))
        ≡ (endpoint_from_str I (endpoint_display I o.endpoint) >>= λ e.
            parse_application_list apps o.dialplan >>= λ list.
            ok (record o { endpoint = e; applications = list }))
  unfolding from_arguments
  originate_from_str-text o apps w = originate_split-line o apps w ∙ (λ i.
      endpoint_from_str I (endpoint_display I o.endpoint) >>= λ e.
      with_endpoint-words I o apps e w i)

  endpoint_from_str_plain :
      (s : Bytes) → contains s b'{' ≡ false → endpoint_from_str I s ≡ ok (generic s none)
  unfolding endpoint_from_str
  endpoint_from_str_plain s h = rw h refl

  dialplan_xml :
      (d : Option DialplanType) (app : Application)
      → d ≢ some inline
      → Lacks b'(' app.name
      → (unwrap_or d xml ≡ xml)
        × (parse_application_list (application_text app xml) d ≡ ok (normal app ∷ []))
  unfolding parse_application_list
  dialplan_xml none app ne h = (refl, parse_xml-text app h)
  dialplan_xml (some xml) app ne h = (refl, parse_xml-text app h)
  dialplan_xml (some inline) app ne h = absurd (ne refl)

  -- An `Originate` with one application, for the XML dialplan or none, displays a text that is read
  -- back as it. The endpoint comes back as `Generic` with its text, and empty arguments of the
  -- application as none. The endpoint has no variables in braces; its text and the arguments are
  -- tokens; the application's text can be quoted, and its name has no opening parenthesis; no argument is missing in front of one that is given, and without a dialplan the
  -- context is not the name of one; the timeout is a `u32`.
  pub originate_from_str-display :
      (o : Originate I.Map) (app : Application)
      → o.applications ≡ app ∷ []
      → o.dialplan ≢ some inline
      → Lacks b'(' app.name
      → IsWritable I o (application_text app xml)
      → contains (endpoint_display I o.endpoint) b'{' ≡ false
      → (text : Bytes) × (originate_display I o ≡ some text)
        × (originate_from_str I text
            ≡ ok (record o {
              endpoint = generic (endpoint_display I o.endpoint) none;
              applications = normal app ∷ [];
            }))
  unfolding originate_display originate_text list_text
  originate_from_str-display o app one ne h w p =
      let (d, r) = dialplan_xml o.dialplan app ne h in
      (
        _,
        ap (λ l. originate_text I o (list_text l (unwrap_or o.dialplan xml))) one
            ∙ ap (λ x. originate_text I o (list_text (app ∷ []) x)) d,
        originate_from_str-text o (application_text app xml) w
            ∙ rw (endpoint_from_str_plain (endpoint_display I o.endpoint) p) (rw r refl),
      )
