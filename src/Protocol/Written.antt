-- ===== src/Protocol/Written.antt =====
-- The lines that `to_plain_format` of src/event.rs writes, and when they can be read back.
use freeswitch_esl_rs.Prelude.{
  leb, ◌==◌, if◌then◌else◌, length, All, ℕ, ◌<◌, ◌≡◌, refl, sym, ap, ◌∙◌, Bool, true, ◌&&◌, ◌||◌,
  Option, none, some, [], ◌∷◌, ◌++◌, map, append_assoc, append-nil, arith, Bytes, codes, Lacks,
  unwrap_or,
}
use freeswitch_esl_rs.Constants.{header_content_length, header_event_name}
use freeswitch_esl_rs.Text.{bytes_eq, is_empty}
use freeswitch_esl_rs.Text.Trim.{IsSolid}
use freeswitch_esl_rs.Text.Solid.{IsWord}
use freeswitch_esl_rs.Text.Utf8.{from_utf8}
use freeswitch_esl_rs.Text.Decimal.{decimal}
use freeswitch_esl_rs.Text.Digits.{IsDigit, decimal-IsDigit, All-map}
use freeswitch_esl_rs.Headers.{Headers, get}
use freeswitch_esl_rs.Event.Types.{EslEventType, parse_event_type}
use freeswitch_esl_rs.Event.{
  EslEvent, sort_by_key, other_headers, plain_line, plain_lines, plain_body, plain_name,
  to_plain_format,
}
use freeswitch_esl_rs.Protocol.Plain.{line_of, ended}

-- What the encoding leaves of a byte: an alphanumeric, or a part of `%XX`.
abbrev pub is_encoded : ℕ → Bool
is_encoded c =
    (leb b'0' c && leb c b'9')
    || ((leb b'A' c && leb c b'Z') || ((leb b'a' c && leb c b'z') || c == b'%'))

-- A text in UTF-8, by bytes.
abbrev pub IsText : Bytes → Type 0
IsText v = (from_utf8 v ≡ some v) × All (λ c. c < 256) v

-- What the documentation of percent_encoding says of `percent_encode` at `NON_ALPHANUMERIC` and of
-- `percent_decode_str`: decoding undoes encoding, all but alphanumerics is encoded, and a text
-- without a `%` is decoded to itself.
abbrev pub IsPercentCoding : (Bytes → Bytes) → (Bytes → Bytes) → Type 0
IsPercentCoding percent_encode percent_decode =
    ((v : Bytes) → IsText v → percent_decode (percent_encode v) ≡ v)
    × ((v : Bytes) → IsText v → All (λ c. is_encoded c ≡ true) (percent_encode v))
    × ((s : Bytes) → Lacks b'%' s → percent_decode s ≡ s)

-- A header whose name needs no encoding.
abbrev pub IsEntry : Bytes × Bytes → Type 0
IsEntry (k, v) = IsWord k × Lacks b':' k × IsText v

-- What `Content-Length` says, and the body that is read: an empty one counts as none.
abbrev pub length_text : Option Bytes → Option Bytes
length_text none = none
length_text (some body) = some (decimal (length body))

abbrev pub restored_body : Option Bytes → Option Bytes
restored_body none = none
restored_body (some body) = if is_empty body then none else some body

abbrev pub named_type : Option Bytes → Option EslEventType
named_type none = none
named_type (some event_name) = parse_event_type event_name

-- What an event comes back as: its headers, but that `Content-Length` is that of the body; its body;
-- and the type that its `Event-Name` names.
abbrev pub Restores : EslEvent → EslEvent → Type 0
Restores e r =
    ((k : Bytes)
      → get r.headers k
        ≡ (if bytes_eq k header_content_length then length_text e.body else get e.headers k))
    × (r.body ≡ restored_body e.body)
    × (r.event_type ≡ named_type (get e.headers header_event_name))

pub is_encoded-IsSolid : (c : ℕ) → is_encoded c ≡ true → IsSolid c
is_encoded-IsSolid c h = (ground arith, ground arith)

pub digit-IsSolid : (c : ℕ) → IsDigit c → IsSolid c
digit-IsSolid c h = (omega arith, ground arith)

pub decimal-IsWord : (n : ℕ) → IsWord (decimal n)
decimal-IsWord n = All-map (decimal n) digit-IsSolid (decimal-IsDigit n)

ended-append : (es fs : Headers) → ended (es ++ fs) ≡ ended es ++ ended fs
unfolding ended
ended-append [] fs = refl
ended-append (a ∷ es) fs =
    ap (λ s. line_of a ++ b'\n' ∷ s) (ended-append es fs)
    ∙ sym (append_assoc (line_of a) (b'\n' ∷ ended es) (ended fs))

-- The entries in front of the others.
abbrev pub named : Option Bytes → Headers
named none = []
named (some event_name) = (header_event_name, event_name) ∷ []

abbrev pub length_entry : Option Bytes → Headers
length_entry none = []
length_entry (some body) = (header_content_length, decimal (length body)) ∷ []

module _ (percent_encode : Bytes → Bytes) where
  abbrev pub encode_entry : Bytes × Bytes → Bytes × Bytes
  encode_entry (k, v) = (k, percent_encode v)

  plain_line-ended :
      (k v s : Bytes)
      → plain_line percent_encode k v ++ s ≡ line_of (k, percent_encode v) ++ b'\n' ∷ s
  unfolding plain_line
  plain_line-ended k v s =
      append_assoc k (codes ": " ++ (percent_encode v ++ codes "\n")) s
      ∙ ap (λ l. k ++ b':' ∷ b' ' ∷ l) (append_assoc (percent_encode v) (codes "\n") s)
      ∙ sym (append_assoc k (b':' ∷ b' ' ∷ percent_encode v) (b'\n' ∷ s))

  plain_lines-ended : (m : Headers) → plain_lines percent_encode m ≡ ended (map encode_entry m)
  unfolding plain_lines ended
  plain_lines-ended [] = refl
  plain_lines-ended ((k, v) ∷ m) =
      ap (λ s. plain_line percent_encode k v ++ s) (plain_lines-ended m)
      ∙ plain_line-ended k v (ended (map encode_entry m))

  plain_name-ended :
      (o : Option Bytes) → plain_name percent_encode o ≡ ended (map encode_entry (named o))
  unfolding plain_name ended
  plain_name-ended none = refl
  plain_name-ended (some v) =
      sym (append-nil (plain_line percent_encode header_event_name v))
      ∙ plain_line-ended header_event_name v []

  plain_body-ended :
      (o : Option Bytes)
      → plain_body percent_encode o ≡ ended (length_entry o) ++ b'\n' ∷ unwrap_or o []
  unfolding plain_body ended
  plain_body-ended none = refl
  plain_body-ended (some body) =
      sym (append_assoc (codes "Content-Length: ") (decimal (length body)) (b'\n' ∷ b'\n' ∷ body))
      ∙ sym (
          append_assoc (codes "Content-Length: " ++ decimal (length body)) (b'\n' ∷ [])
            (b'\n' ∷ body))

  -- The lines of the plain format.
  abbrev pub wire : EslEvent → Headers
  wire e =
      map encode_entry (named (get e.headers header_event_name))
      ++ (map encode_entry (sort_by_key (other_headers e.headers)) ++ length_entry e.body)

  pub to_plain_format-ended :
      (e : EslEvent)
      → to_plain_format percent_encode e ≡ ended (wire e) ++ b'\n' ∷ unwrap_or e.body []
  unfolding to_plain_format
  to_plain_format-ended e =
      let names = map encode_entry (named (get e.headers header_event_name)) in
      let others = map encode_entry (sort_by_key (other_headers e.headers)) in
      let t = b'\n' ∷ unwrap_or e.body [] in
      rw
        (
          plain_name-ended (get e.headers header_event_name),
          plain_lines-ended (sort_by_key (other_headers e.headers)),
          plain_body-ended e.body,
          ended-append names (others ++ length_entry e.body),
          ended-append others (length_entry e.body),
          append_assoc (ended names) (ended others ++ ended (length_entry e.body)) t,
          append_assoc (ended others) (ended (length_entry e.body)) t,
        )
        refl
