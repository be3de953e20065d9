-- ===== src/Tests/Originate.antt =====
-- The round trip of `Originate`, at a concrete command.
use freeswitch_esl_rs.Prelude.{ok, ◌≡◌, refl, inl, none, some, [], ◌∷◌, arith, Bytes, codes}
use freeswitch_esl_rs.Text.{bytes_eq, strip_prefix, strip_suffix, find, contains, split_once}
use freeswitch_esl_rs.Text.Trim.{trim}
use freeswitch_esl_rs.Wire.{match_arms}
use freeswitch_esl_rs.Commands.{
  escape_char, originate_quote, at_split, toggles, split_tokens, originate_split,
}
use freeswitch_esl_rs.Commands.Originate.{xml, dialplan_from_str}
use freeswitch_esl_rs.Commands.Application.{
  normal, Application, application_text, parse_application_list,
}
use freeswitch_esl_rs.Commands.Builder.{
  generic, loopback, Originate, first_dialplan, write_variables, endpoint_display,
  endpoint_from_str, originate_display, with_endpoint, from_arguments, originate_from_str,
}
use freeswitch_esl_rs.Commands.Line.{word-IsArgument}
use freeswitch_esl_rs.Commands.Arguments.{IsWritable}
use freeswitch_esl_rs.Commands.Restored.{originate_from_str-display}
use freeswitch_esl_rs.Tests.Commands.{list_map}

abbrev call : Originate list_map.Map
call = record {
  endpoint = loopback (codes "9199") (codes "default") none;
  applications = record { name = codes "conference"; args = some (codes "1 @wide") } ∷ [];
  dialplan = some xml;
  context = some (codes "public");
  cid_name = some (codes "Bob");
  cid_num = none;
  timeout = none;
}

abbrev app : Application
app = record { name = codes "conference"; args = some (codes "1 @wide") }

call-IsWritable : IsWritable list_map call (application_text app xml)
unfolding endpoint_display write_variables application_text originate_quote contains escape_char
call-IsWritable = (
  (ground arith, refl),
  word-IsArgument b'l' (codes "oopback/9199/default") (ground arith) (ground arith),
  inl (refl, (λ e. cc e)),
  (codes "'&conference(1 @wide)", b'\'', refl, (ground arith, refl)),
  (word-IsArgument b'p' (codes "ublic") (ground arith) (ground arith), tt),
  (word-IsArgument b'B' (codes "ob") (ground arith) (ground arith), tt),
  tt,
  (λ e. cc e),
  (λ e. cc e),
)

originate_from_str-display_example :
    (text : Bytes) × (originate_display list_map call ≡ some text)
    × (originate_from_str list_map text
        ≡ ok (record call {
          endpoint = generic (endpoint_display list_map call.endpoint) none;
          applications = normal app ∷ [];
        }))
unfolding endpoint_display write_variables contains
originate_from_str-display_example =
    originate_from_str-display list_map call app refl (λ e. cc e) (ground arith) call-IsWritable
      refl

-- A caller's name without a context is read as the context.
test_gap :
    originate_from_str list_map (codes "originate loopback/9199/default &park() XML Bob")
    ≡ ok (record {
      endpoint = generic (codes "loopback/9199/default") none;
      applications = record { name = codes "park"; args = none } ∷ [];
      dialplan = some xml;
      context = some (codes "Bob");
      cid_name = none;
      cid_num = none;
      timeout = none;
    })
unfolding originate_from_str strip_prefix originate_split trim split_tokens at_split toggles
    from_arguments endpoint_from_str contains with_endpoint first_dialplan dialplan_from_str
    match_arms bytes_eq parse_application_list strip_suffix split_once find
test_gap = refl
