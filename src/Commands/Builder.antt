-- ===== src/Commands/Builder.antt =====
-- The `Endpoint` and the `Originate` of src/commands/originate.rs, with `Display` and `FromStr`.
use freeswitch_esl_rs.Prelude.{
  ltb, ◌==◌, if◌then◌else◌, take, drop, Result, ok, err, ◌>>=◌, ℕ, ◌+◌, ◌-◌, ◌*◌, ◌^◌, ◌||◌, Option,
  none, some, List, [], ◌∷◌, ◌++◌, Bytes, codes, unwrap_or,
}
use freeswitch_esl_rs.Text.{is_empty, strip_prefix, find, contains}
use freeswitch_esl_rs.Text.Trim.{trim}
use freeswitch_esl_rs.Text.Decimal.{decimal}
use freeswitch_esl_rs.Error.{OriginateError, parse_error}
use freeswitch_esl_rs.Commands.{originate_quote, originate_unquote, originate_split}
use freeswitch_esl_rs.Commands.Originate.{
  xml, DialplanType, dialplan_name, dialplan_from_str, IndexMap, Variables, variables_display,
  variables_from_str,
}
use freeswitch_esl_rs.Commands.Application.{Application, list_text, parse_application_list}

-- The operations of `indexmap` are those of `I`.
pub data Endpoint (M : Type 0) : Type 0 where
  generic : (uri : Bytes) (variables : Option (Variables M)) → Endpoint M
  loopback : (uri context : Bytes) (variables : Option (Variables M)) → Endpoint M
  sofia_gateway :
      (uri : Bytes) (profile : Option Bytes) (gateway : Bytes) (variables : Option (Variables M))
      → Endpoint M

pub record Originate (M : Type 0) : Type 0 where
  pub endpoint : Endpoint M
  pub applications : List Application
  pub dialplan : Option DialplanType
  pub context : Option Bytes
  pub cid_name : Option Bytes
  pub cid_num : Option Bytes
  pub timeout : Option ℕ

unfoldable pub profile_text : Option Bytes → Bytes
profile_text none = []
profile_text (some p) = p ++ codes "::"

-- An argument behind a space, if it is there.
unfoldable pub argument_text : Option Bytes → Bytes
argument_text none = []
argument_text (some s) = b' ' ∷ s

unfoldable pub dialplan_word : Option DialplanType → Option Bytes
unfolding dialplan_name
dialplan_word none = none
dialplan_word (some d) = some (dialplan_name d)

unfoldable pub timeout_word : Option ℕ → Option Bytes
unfolding decimal
timeout_word none = none
timeout_word (some n) = some (decimal n)

-- `str::parse::<u32>`, behind a sign: the number, or the text of the error.
unfoldable pub scan_u32 : Bytes → ℕ → Result Bytes ℕ
scan_u32 [] n = ok n
scan_u32 (c ∷ s) n =
    let m = n * 10 + (c - b'0') in
    let rest = scan_u32 s m in
    if ltb c b'0' || ltb b'9' c
    then err (codes "invalid digit found in string")
    else if ltb (2 ^ 32 - 1) m
    then err (codes "number too large to fit in target type")
    else rest

unfoldable pub parse_u32 : Bytes → Result Bytes ℕ
unfolding scan_u32
parse_u32 [] = err (codes "cannot parse integer from empty string")
parse_u32 (c ∷ []) = scan_u32 (c ∷ []) 0
parse_u32 (c ∷ d ∷ s) = if c == b'+' then scan_u32 (d ∷ s) 0 else scan_u32 (c ∷ d ∷ s) 0

-- `map_err` of the error.
unfoldable pub timeout_result : Result Bytes ℕ → Result OriginateError (Option ℕ)
timeout_result (ok n) = ok (some n)
timeout_result (err e) = err (parse_error (codes "invalid timeout: " ++ e))

unfoldable pub parse_timeout : List Bytes → Result OriginateError (Option ℕ)
unfolding parse_u32 timeout_result
parse_timeout [] = ok none
parse_timeout (s ∷ args) = timeout_result (parse_u32 s)

-- `args.remove(0)`, if there is an argument.
abbrev pub first : List Bytes → Option Bytes
first [] = none
first (s ∷ args) = some s

abbrev pub others : List Bytes → List Bytes
others [] = []
others (s ∷ args) = args

-- `Result::ok`.
abbrev if_ok : Result OriginateError DialplanType → Option DialplanType
if_ok (ok d) = some d
if_ok (err e) = none

unfoldable pub first_dialplan : List Bytes → Option DialplanType
unfolding dialplan_from_str
first_dialplan [] = none
first_dialplan (s ∷ args) = if_ok (dialplan_from_str s)

-- The arguments behind the dialplan, if one was there.
unfoldable pub past_dialplan : Option DialplanType → List Bytes → List Bytes
past_dialplan none args = args
past_dialplan (some d) args = others args

module _ (I : IndexMap) where
  unfoldable pub write_variables : Option (Variables I.Map) → Bytes
  unfolding variables_display
  write_variables none = []
  write_variables (some v) = if is_empty (I.iter v.inner) then [] else variables_display I v

  unfoldable pub endpoint_display : Endpoint I.Map → Bytes
  unfolding write_variables profile_text
  endpoint_display (generic uri variables) = write_variables variables ++ uri
  endpoint_display (loopback uri context variables) =
      write_variables variables ++ codes "loopback/" ++ uri ++ b'/' ∷ context
  endpoint_display (sofia_gateway uri profile gateway variables) =
      write_variables variables
      ++ codes "sofia/gateway/"
      ++ profile_text profile
      ++ gateway
      ++ b'/' ∷ uri

  -- `if vars.is_empty() { None } else { Some(vars) }`.
  unfoldable pub non_empty_variables : Variables I.Map → Option (Variables I.Map)
  non_empty_variables v = if is_empty (I.iter v.inner) then none else some v

  unfoldable pub endpoint_block : Bytes → Option ℕ → Result OriginateError (Endpoint I.Map)
  unfolding variables_from_str non_empty_variables trim
  endpoint_block s none = err (parse_error (codes "unclosed { in endpoint"))
  endpoint_block s (some close) = do
    vars ← variables_from_str I (take (close + 1) s)
    ok (generic (trim (drop (close + 1) s)) (non_empty_variables vars))

  unfoldable pub endpoint_from_str : Bytes → Result OriginateError (Endpoint I.Map)
  unfolding contains find endpoint_block
  endpoint_from_str s =
      if contains s b'{' then endpoint_block s (find s b'}') else ok (generic s none)

  -- The arguments behind the applications.
  unfoldable pub arguments_text : Originate I.Map → Bytes
  unfolding argument_text dialplan_word timeout_word
  arguments_text o =
      argument_text (dialplan_word o.dialplan)
      ++ (argument_text o.context
          ++ (argument_text o.cid_name
              ++ (argument_text o.cid_num ++ argument_text (timeout_word o.timeout))))

  -- With the applications' text; there is none where `fmt` fails.
  unfoldable pub originate_text : Originate I.Map → Result OriginateError Bytes → Option Bytes
  unfolding endpoint_display originate_quote arguments_text
  originate_text o (err e) = none
  originate_text o (ok apps) = some (
      codes "originate "
      ++ (endpoint_display o.endpoint ++ b' ' ∷ (originate_quote apps ++ arguments_text o)))

  unfoldable pub originate_display : Originate I.Map → Option Bytes
  unfolding originate_text list_text
  originate_display o = originate_text o (list_text o.applications (unwrap_or o.dialplan xml))

  -- The arguments behind the applications have been read.
  unfoldable pub with_arguments :
      Endpoint I.Map
      → List Application
      → Option DialplanType
      → List Bytes
      → Result OriginateError (Originate I.Map)
  unfolding parse_timeout
  with_arguments endpoint applications dialplan args = do
    timeout ← parse_timeout (others (others (others args)))
    ok (record {
      endpoint = endpoint;
      applications = applications;
      dialplan = dialplan;
      context = first args;
      cid_name = first (others args);
      cid_num = first (others (others args));
      timeout = timeout;
    })

  unfoldable pub with_endpoint :
      Endpoint I.Map → List Bytes → Result OriginateError (Originate I.Map)
  unfolding originate_unquote first_dialplan past_dialplan parse_application_list with_arguments
  with_endpoint endpoint [] = err (parse_error (codes "missing application in originate"))
  with_endpoint endpoint (app ∷ args) = do
    let dialplan = first_dialplan args
    applications ← parse_application_list (originate_unquote app) dialplan
    with_arguments endpoint applications dialplan (past_dialplan dialplan args)

  unfoldable pub from_arguments : List Bytes → Result OriginateError (Originate I.Map)
  unfolding endpoint_from_str with_endpoint
  from_arguments [] = err (parse_error (codes "empty originate"))
  from_arguments (s ∷ args) = do endpoint ← endpoint_from_str s; with_endpoint endpoint args

  unfoldable pub originate_from_str : Bytes → Result OriginateError (Originate I.Map)
  unfolding strip_prefix trim originate_split from_arguments
  originate_from_str s = do
    args ← originate_split (trim (unwrap_or (strip_prefix s (codes "originate")) s)) b' '
    from_arguments args
