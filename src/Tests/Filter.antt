-- ===== src/Tests/Filter.antt =====
-- The arguments and the output of the event filter of the examples, on concrete inputs.
use freeswitch_esl_rs.Prelude.{◌≡◌, refl, ◌↔◌, true, false, none, some, List, [], ◌∷◌, Bytes, codes}
use freeswitch_esl_rs.Text.{bytes_eq, contains}
use freeswitch_esl_rs.Text.Decimal.{parse_unsigned}
use freeswitch_esl_rs.Headers.{Headers}
use freeswitch_esl_rs.Channel.{call_direction_from_str}
use freeswitch_esl_rs.Filter.{
  Args, set_port, set_user, choice, rejected, accepted, completed, parse_args,
}
use freeswitch_esl_rs.Filter.Arguments.{IsComplete}
use freeswitch_esl_rs.Filter.Accepted.{parse_args_iff}
use freeswitch_esl_rs.Filter.Output.{format_event_summary}
use freeswitch_esl_rs.Event.Types
use freeswitch_esl_rs.Headers

abbrev asked_for : Args
asked_for = record {
  host = codes "pbx";
  port = 8022;
  user = some (codes "admin@default");
  password = codes "secret";
  events = codes "CHANNEL_CREATE" ∷ codes "ALL" ∷ [];
  filter_header = some (codes "Call-Direction");
  filter_value = some (codes "inbound");
  json_output = true;
  raw_output = false;
  quiet = true;
}

parse_args_iff_example :
    IsComplete asked_for ↔ ((args : List Bytes) × (parse_args args ≡ accepted asked_for))
parse_args_iff_example = parse_args_iff asked_for

test_parse_args :
    parse_args (
      codes "--port"
      ∷ codes "8022"
      ∷ codes "-H"
      ∷ codes "pbx"
      ∷ codes "-p"
      ∷ codes "secret"
      ∷ codes "-q"
      ∷ codes "-u"
      ∷ codes "admin@default"
      ∷ codes "-e"
      ∷ codes "CHANNEL_CREATE"
      ∷ codes "-j"
      ∷ codes "-v"
      ∷ codes "inbound"
      ∷ codes "-f"
      ∷ codes "Call-Direction"
      ∷ codes "--event"
      ∷ codes "ALL"
      ∷ [])
    ≡ accepted asked_for
unfolding parse_args choice bytes_eq set_port set_user parse_unsigned contains completed
test_parse_args = refl

test_no_value : parse_args (codes "-P" ∷ []) ≡ rejected (codes "Missing port value")
unfolding parse_args choice bytes_eq
test_no_value = refl

test_no_filter_value :
    parse_args (codes "-f" ∷ codes "Unique-ID" ∷ [])
    ≡ rejected (codes "Both --filter and --value must be specified together")
unfolding parse_args choice bytes_eq completed
test_no_filter_value = refl

test_format_event_summary :
    format_event_summary (record {
      event_type = some Types.channel_create;
      headers =
          (codes "Unique-ID", codes "0123456789") ∷ (codes "Call-Direction", codes "inbound") ∷ [];
      body = none;
    })
    ≡ some (codes "[CHANNEL_CREATE] - -> - (inbound) uuid:01234567...")
unfolding format_event_summary bytes_eq call_direction_from_str Headers.get
test_format_event_summary = refl
