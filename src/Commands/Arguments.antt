-- ===== src/Commands/Arguments.antt =====
-- The arguments of an `Originate` of src/commands/originate.rs, written and read.
use freeswitch_esl_rs.Prelude.{
  All, All-append, ok, ◌>>=◌, ℕ, ◌^◌, ◌<◌, ◌≡◌, refl, sym, ap, ◌≢◌, Option, none, some, List, [],
  ◌∷◌, ◌++◌, append-nil, Bytes, codes,
}
use freeswitch_esl_rs.Text.{bytes_eq}
use freeswitch_esl_rs.Text.Split.{separated}
use freeswitch_esl_rs.Wire.{match_arms}
use freeswitch_esl_rs.Commands.{originate_quote}
use freeswitch_esl_rs.Commands.Originate.{
  xml, DialplanType, inline, dialplan_name, dialplan_from_str, IndexMap,
}
use freeswitch_esl_rs.Commands.Scan.{IsToken}
use freeswitch_esl_rs.Commands.Tokens.{IsQuotable, quotable-unquote}
use freeswitch_esl_rs.Commands.Application.{Application, parse_application_list}
use freeswitch_esl_rs.Commands.Builder.{
  Endpoint, Originate, argument_text, dialplan_word, timeout_word, timeout_result, parse_timeout,
  first_dialplan, past_dialplan, endpoint_display, arguments_text, with_arguments, with_endpoint,
}
use freeswitch_esl_rs.Commands.Line.{
  Starts, Ends, IsArgument, dialplan-IsArgument, decimal-IsArgument, parse_u32-decimal,
}

abbrev pub present : Option Bytes → List Bytes
present none = []
present (some s) = s ∷ []

-- The arguments are given from the first on, without a gap, and the number fits.
abbrev pub InOrder : Option Bytes → Option Bytes → Option Bytes → Option ℕ → Type 0
InOrder context name num (some n) = (context ≢ none) × (name ≢ none) × (num ≢ none) × (n < 2 ^ 32)
InOrder context name (some num) none = (context ≢ none) × (name ≢ none)
InOrder context (some name) none none = context ≢ none
InOrder context none none none = Unit

argument_text-append :
    (o : Option Bytes) (ws : List Bytes)
    → argument_text o ++ separated (codes " ") ws ≡ separated (codes " ") (present o ++ ws)
unfolding argument_text separated
argument_text-append none ws = refl
argument_text-append (some s) ws = refl

argument_text-last : (o : Option Bytes) → argument_text o ≡ separated (codes " ") (present o)
unfolding argument_text separated
argument_text-last none = refl
argument_text-last (some s) = ap (λ l. b' ' ∷ l) (sym (append-nil s))

if_dialplan :
    (d : DialplanType) (args : List Bytes) → first_dialplan (dialplan_name d ∷ args) ≡ some d
unfolding first_dialplan dialplan_from_str dialplan_name bytes_eq match_arms
if_dialplan inline args = refl
if_dialplan xml args = refl

dialplan_word-All : (d : Option DialplanType) → All IsArgument (present (dialplan_word d))
unfolding dialplan_word
dialplan_word-All none = tt
dialplan_word-All (some d) = (dialplan-IsArgument d, tt)

timeout_word-All : (t : Option ℕ) → All IsArgument (present (timeout_word t))
unfolding timeout_word
timeout_word-All none = tt
timeout_word-All (some n) = (decimal-IsArgument n, tt)

pub Arguments-split : (ws : List Bytes) → All IsArgument ws → All IsToken ws × All Ends ws
Arguments-split [] h = (tt, tt)
Arguments-split (t ∷ ws) h = let (a, b) = Arguments-split ws h.1 in ((h.0.0, a), (h.0.1, b))

module _ (I : IndexMap) where
  -- The arguments behind the dialplan.
  abbrev pub options : Originate I.Map → List Bytes
  options o =
      present o.context
      ++ (present o.cid_name ++ (present o.cid_num ++ present (timeout_word o.timeout)))

  abbrev pub words : Originate I.Map → List Bytes
  words o = present (dialplan_word o.dialplan) ++ options o

  pub arguments_text-words :
      (o : Originate I.Map) → arguments_text I o ≡ separated (codes " ") (words o)
  unfolding arguments_text
  arguments_text-words o =
      let t = present (timeout_word o.timeout) in
      let n = present o.cid_num ++ t in
      let m = present o.cid_name ++ n in
      rw (argument_text-last (timeout_word o.timeout)) (
        rw (argument_text-append o.cid_num t) (
          rw (argument_text-append o.cid_name n) (
            rw (argument_text-append o.context m)
              (argument_text-append (dialplan_word o.dialplan) (options o)))))

  -- The arguments are taken one by one.
  with_arguments-options :
      (e : Endpoint I.Map) (apps : List Application) (d : Option DialplanType)
      (context name num : Option Bytes) (timeout : Option ℕ)
      → InOrder context name num timeout
      → with_arguments I e apps d
          (present context ++ (present name ++ (present num ++ present (timeout_word timeout))))
        ≡ ok (record {
          endpoint = e;
          applications = apps;
          dialplan = d;
          context = context;
          cid_name = name;
          cid_num = num;
          timeout = timeout;
        })
  unfolding with_arguments parse_timeout timeout_result timeout_word
  with_arguments-options e apps d (some c) (some m) (some n) (some t) (_, _, _, small) =
      rw (parse_u32-decimal t small) refl
  with_arguments-options e apps d none m n (some t) h = absurd (h.0 refl)
  with_arguments-options e apps d (some c) none n (some t) h = absurd (h.1 refl)
  with_arguments-options e apps d (some c) (some m) none (some t) h = absurd (h.2 refl)
  with_arguments-options e apps d (some c) (some m) (some n) none h = refl
  with_arguments-options e apps d none m (some n) none h = absurd (h.0 refl)
  with_arguments-options e apps d (some c) none (some n) none h = absurd (h.1 refl)
  with_arguments-options e apps d (some c) (some m) none none h = refl
  with_arguments-options e apps d none (some m) none none h = absurd (h refl)
  with_arguments-options e apps d (some c) none none none h = refl
  with_arguments-options e apps d none none none none h = refl

  -- What is asked of the words of an `Originate`, whose applications are written as `apps`.
  abbrev pub IsWritable : Originate I.Map → Bytes → Type 0
  IsWritable o apps =
      Starts (endpoint_display I o.endpoint)
      × IsArgument (endpoint_display I o.endpoint)
      × IsQuotable apps
      × Ends (originate_quote apps)
      × All IsArgument (present o.context)
      × All IsArgument (present o.cid_name)
      × All IsArgument (present o.cid_num)
      × InOrder o.context o.cid_name o.cid_num o.timeout
      × (o.dialplan ≡ none → first_dialplan (present o.context) ≡ none)

  pub words-IsArgument :
      (o : Originate I.Map) (apps : Bytes) → IsWritable o apps → All IsArgument (words o)
  words-IsArgument o apps (_, _, _, _, c, m, n, _, _) =
      All-append IsArgument (present (dialplan_word o.dialplan)) (options o)
        (dialplan_word-All o.dialplan)
        (All-append IsArgument (present o.context) _ c (
          All-append IsArgument (present o.cid_name) _ m
            (All-append IsArgument (present o.cid_num) _ n (timeout_word-All o.timeout))))

  -- The dialplan is told from the context.
  first_dialplan-words :
      (d : Option DialplanType) (c m n : Option Bytes) (t : Option ℕ)
      → InOrder c m n t
      → (d ≡ none → first_dialplan (present c) ≡ none)
      → let ws = present c ++ (present m ++ (present n ++ present (timeout_word t))) in
        (first_dialplan (present (dialplan_word d) ++ ws) ≡ d)
        × (past_dialplan d (present (dialplan_word d) ++ ws) ≡ ws)
  unfolding dialplan_word past_dialplan timeout_word first_dialplan
  first_dialplan-words (some d) c m n t h k =
      (if_dialplan d (present c ++ (present m ++ (present n ++ present (timeout_word t)))), refl)
  first_dialplan-words none (some c) m n t h k = (k refl, refl)
  first_dialplan-words none none m n (some t) h k = absurd (h.0 refl)
  first_dialplan-words none none m (some n) none h k = absurd (h.0 refl)
  first_dialplan-words none none (some m) none none h k = absurd (h refl)
  first_dialplan-words none none none none none h k = (refl, refl)

  pub with_endpoint-words :
      (o : Originate I.Map) (apps : Bytes) (e : Endpoint I.Map)
      → IsWritable o apps
      → with_endpoint I e (originate_quote apps ∷ words o) ≡ (
          parse_application_list apps o.dialplan >>= λ list.
          ok (record o { endpoint = e; applications = list }))
  unfolding with_endpoint
  with_endpoint-words o apps e (_, _, q, _, _, _, _, order, known) =
      let (f, p) =
        first_dialplan-words o.dialplan o.context o.cid_name o.cid_num o.timeout order known in
      rw (quotable-unquote apps q) (
        rw f (
          rw p (λ i. parse_application_list apps o.dialplan >>= λ list.
          with_arguments-options e list o.dialplan o.context o.cid_name o.cid_num o.timeout order
            i)))
