-- ===== src/Filter/Arguments.antt =====
-- Arguments of examples/event_filter.rs that are written for options, and how they are read.
use freeswitch_esl_rs.Prelude.{
  Result, ok, ℕ, ◌≤◌, ◌≡◌, refl, sym, ap, ◌∙◌, ◌≢◌, Bool, true, false, Option, none, some, List, [],
  ◌∷◌, ◌++◌, append_assoc, append-nil, Bytes, codes,
}
use freeswitch_esl_rs.Text.{bytes_eq, contains}
use freeswitch_esl_rs.Text.Decimal.{decimal, parse_unsigned}
use freeswitch_esl_rs.Filter.{
  Args, switch, with_value, set_port, set_user, choice, is_given, parse_from,
}

-- What the program relies on.
abbrev pub IsUser : Option Bytes → Type 0
IsUser none = Unit
IsUser (some u) = contains u b'@' ≡ true

abbrev pub IsChecked : Args → Type 0
IsChecked r = (r.port ≤ 65535) × IsUser r.user

-- Given together, or not at all.
abbrev pub IsComplete : Args → Type 0
IsComplete r =
    (r.port ≤ 65535)
    × IsUser r.user
    × (r.events ≢ [])
    × (is_given r.filter_header ≡ is_given r.filter_value)

-- Arguments that give the same options, each by its short name.
abbrev pub option_args : Bytes → Option Bytes → List Bytes
option_args name none = []
option_args name (some v) = name ∷ v ∷ []

abbrev pub switch_args : Bytes → Bool → List Bytes
switch_args name true = name ∷ []
switch_args name false = []

abbrev pub event_args : List Bytes → List Bytes
event_args [] = []
event_args (e ∷ es) = codes "-e" ∷ e ∷ event_args es

abbrev pub switches : Bool → Bool → Bool → List Bytes
switches j r q =
    switch_args (codes "-j") j ++ (switch_args (codes "-r") r ++ switch_args (codes "-q") q)

unfoldable pub arguments : Args → List Bytes
unfolding decimal
arguments a =
    codes "-H"
    ∷ a.host
    ∷ codes "-P"
    ∷ decimal a.port
    ∷ codes "-p"
    ∷ a.password
    ∷ (option_args (codes "-u") a.user
        ++ (event_args a.events
            ++ (option_args (codes "-f") a.filter_header
                ++ (option_args (codes "-v") a.filter_value
                    ++ switches a.json_output a.raw_output a.quiet))))

-- An argument and its value.
pub parse-with_value :
    (arg missing : Bytes) (set : Args → Bytes → Result Bytes Args)
    → choice arg ≡ with_value missing set
    → (r : Args) (v : Bytes) (rest : List Bytes) {r' : Args} → set r v ≡ ok r'
    → parse_from r (arg ∷ v ∷ rest) ≡ parse_from r' rest
unfolding parse_from
parse-with_value arg missing set e r v rest p = rw (parse_from, e, p) refl

module _ (r : Args) (v : Bytes) (rest : List Bytes) where
  pub parse-host : parse_from r (codes "-H" ∷ v ∷ rest) ≡ parse_from (record r { host = v }) rest
  unfolding choice bytes_eq
  parse-host = parse-with_value (codes "-H") _ _ refl r v rest refl

  pub parse-port :
      {n : ℕ}
      → parse_unsigned 65535 v ≡ some n
      → parse_from r (codes "-P" ∷ v ∷ rest) ≡ parse_from (record r { port = n }) rest
  unfolding choice bytes_eq
  parse-port e =
      parse-with_value (codes "-P") _ _ refl r v rest (unfold set_port in rw (set_port, e) refl)

  pub parse-password :
      parse_from r (codes "-p" ∷ v ∷ rest) ≡ parse_from (record r { password = v }) rest
  unfolding choice bytes_eq
  parse-password = parse-with_value (codes "-p") _ _ refl r v rest refl

  pub parse-user :
      contains v b'@' ≡ true
      → parse_from r (codes "-u" ∷ v ∷ rest) ≡ parse_from (record r { user = some v }) rest
  unfolding choice bytes_eq
  parse-user h =
      parse-with_value (codes "-u") _ _ refl r v rest (unfold set_user in rw (set_user, h) refl)

  pub parse-event :
      parse_from r (codes "-e" ∷ v ∷ rest)
      ≡ parse_from (record r { events = r.events ++ v ∷ [] }) rest
  unfolding choice bytes_eq
  parse-event = parse-with_value (codes "-e") _ _ refl r v rest refl

  pub parse-header :
      parse_from r (codes "-f" ∷ v ∷ rest) ≡ parse_from (record r { filter_header = some v }) rest
  unfolding choice bytes_eq
  parse-header = parse-with_value (codes "-f") _ _ refl r v rest refl

  pub parse-value :
      parse_from r (codes "-v" ∷ v ∷ rest) ≡ parse_from (record r { filter_value = some v }) rest
  unfolding choice bytes_eq
  parse-value = parse-with_value (codes "-v") _ _ refl r v rest refl

pub parse-events :
    (es : List Bytes) (r : Args) (rest : List Bytes)
    → parse_from r (event_args es ++ rest) ≡ parse_from (record r { events = r.events ++ es }) rest
parse-events [] r rest =
    ap (λ l. parse_from (record r { events = l }) rest) (sym (append-nil r.events))
parse-events (e ∷ es) r rest =
    parse-event r e (event_args es ++ rest)
    ∙ parse-events es (record r { events = r.events ++ e ∷ [] }) rest
    ∙ ap (λ l. parse_from (record r { events = l }) rest) (append_assoc r.events (e ∷ []) es)

module _ (r : Args) (rest : List Bytes) where
  pub parse-user_args :
      (o : Option Bytes)
      → IsUser o
      → parse_from (record r { user = none }) (option_args (codes "-u") o ++ rest)
        ≡ parse_from (record r { user = o }) rest
  parse-user_args none h = refl
  parse-user_args (some u) h = parse-user (record r { user = none }) u rest h

  pub parse-header_args :
      (o : Option Bytes)
      → parse_from (record r { filter_header = none }) (option_args (codes "-f") o ++ rest)
        ≡ parse_from (record r { filter_header = o }) rest
  parse-header_args none = refl
  parse-header_args (some v) = parse-header (record r { filter_header = none }) v rest

  pub parse-value_args :
      (o : Option Bytes)
      → parse_from (record r { filter_value = none }) (option_args (codes "-v") o ++ rest)
        ≡ parse_from (record r { filter_value = o }) rest
  parse-value_args none = refl
  parse-value_args (some v) = parse-value (record r { filter_value = none }) v rest

-- A switch, with more arguments behind it or none.
pub parse-switch :
    (name : Bytes) (set : Args → Args)
    → choice name ≡ switch set
    → (r : Args) (rest : List Bytes) → parse_from r (name ∷ rest) ≡ parse_from (set r) rest
unfolding parse_from
parse-switch name set e r [] = rw (parse_from, e) refl
parse-switch name set e r (v ∷ rest) = rw (parse_from, e) refl

pub parse-json :
    (r : Args) (rest : List Bytes) (b : Bool)
    → parse_from (record r { json_output = false }) (switch_args (codes "-j") b ++ rest)
      ≡ parse_from (record r { json_output = b }) rest
unfolding choice bytes_eq
parse-json r rest false = refl
parse-json r rest true =
    parse-switch (codes "-j") (λ r. record r { json_output = true }) refl
      (record r { json_output = false }) rest

pub parse-raw :
    (r : Args) (rest : List Bytes) (b : Bool)
    → parse_from (record r { raw_output = false }) (switch_args (codes "-r") b ++ rest)
      ≡ parse_from (record r { raw_output = b }) rest
unfolding choice bytes_eq
parse-raw r rest false = refl
parse-raw r rest true =
    parse-switch (codes "-r") (λ r. record r { raw_output = true }) refl
      (record r { raw_output = false }) rest

pub parse-quiet :
    (r : Args) (b : Bool)
    → parse_from (record r { quiet = false }) (switch_args (codes "-q") b)
      ≡ parse_from (record r { quiet = b }) []
unfolding choice bytes_eq
parse-quiet r false = refl
parse-quiet r true =
    parse-switch (codes "-q") (λ r. record r { quiet = true }) refl (record r { quiet = false }) []

pub parse-switches :
    (r : Args) (j w q : Bool)
    → parse_from
        (record r { json_output = false; raw_output = false; quiet = false })
        (switches j w q)
      ≡ parse_from (record r { json_output = j; raw_output = w; quiet = q }) []
parse-switches r j w q =
    parse-json (record r { raw_output = false; quiet = false })
      (switch_args (codes "-r") w ++ switch_args (codes "-q") q) j
    ∙ parse-raw (record r { json_output = j; quiet = false }) (switch_args (codes "-q") q) w
    ∙ parse-quiet (record r { json_output = j; raw_output = w }) q
