-- ===== src/Command/Response.antt =====
-- `EslResponse`: the reply to a command, classified by its `Reply-Text`.
use freeswitch_esl_rs.Prelude.{
  if◌then◌else◌, Bool-cases, ok, err, ℕ, ◌≡◌, refl, ◌≢◌, ◌⊎◌, inl, inr, Bool, true, false, Option,
  none, some, [], ◌∷◌, Bytes, codes, unwrap_or,
}
use freeswitch_esl_rs.Constants.{header_reply_text, header_job_uuid}
use freeswitch_esl_rs.Text.{is_empty, starts_with}
use freeswitch_esl_rs.Error.{command_failed, unexpected_reply, EslResult}
use freeswitch_esl_rs.Headers.{Headers, get}

pub data ReplyStatus : Type 0 where
  success failure other : ReplyStatus

pub record EslResponse : Type 0 where
  pub headers : Headers
  pub body : Option Bytes
  pub status : ReplyStatus

-- The status that a `Reply-Text` header, or its absence, stands for.
unfoldable pub reply_status_of : Option Bytes → ReplyStatus
unfolding starts_with
reply_status_of none = success
reply_status_of (some t) =
    if is_empty t
    then success
    else if starts_with t (codes "+OK")
    then success
    else if starts_with t (codes "-ERR")
    then failure
    else other

unfoldable pub response_new : Headers → Option Bytes → EslResponse
unfolding reply_status_of get
response_new headers body = record {
  headers = headers;
  body = body;
  status = reply_status_of (get headers header_reply_text);
}

unfoldable pub is_success : EslResponse → Bool
is_success r = elim r.status [ success ↦ true | failure ↦ false | other ↦ false ]

unfoldable pub reply_text : EslResponse → Option Bytes
reply_text r = get r.headers header_reply_text

unfoldable pub job_uuid : EslResponse → Option Bytes
job_uuid r = get r.headers header_job_uuid

unfoldable pub body_string : EslResponse → Bytes
body_string r = unwrap_or r.body []

result_of : ReplyStatus → EslResponse → EslResult EslResponse
unfolding reply_text
result_of success r = ok r
result_of failure r = err (command_failed (unwrap_or (reply_text r) (codes "-ERR")))
result_of other r = err (unexpected_reply (unwrap_or (reply_text r) []))

unfoldable pub into_result : EslResponse → EslResult EslResponse
unfolding result_of
into_result r = result_of r.status r

-- The three outcomes of `into_result`, by what the reply says.
abbrev pub Answers : Headers → EslResponse → EslResult EslResponse → Type 0
Answers h r (ok r') =
    (r' ≡ r)
    × ((get h header_reply_text ≡ none)
        ⊎ ((t : Bytes) × (get h header_reply_text ≡ some t)
            × ((t ≡ []) ⊎ (starts_with t (codes "+OK") ≡ true))))
Answers h r (err (command_failed t)) =
    (get h header_reply_text ≡ some t) × (starts_with t (codes "-ERR") ≡ true)
Answers h r (err (unexpected_reply t)) =
    (get h header_reply_text ≡ some t)
    × (t ≢ [])
    × (starts_with t (codes "+OK") ≡ false)
    × (starts_with t (codes "-ERR") ≡ false)
Answers h r (err _) = ⊥

-- What a `Reply-Text` of each status is.
abbrev pub HasStatus : Option Bytes → ReplyStatus → Type 0
HasStatus o success =
    (o ≡ none) ⊎ ((t : Bytes) × (o ≡ some t) × ((t ≡ []) ⊎ (starts_with t (codes "+OK") ≡ true)))
HasStatus o failure = (t : Bytes) × (o ≡ some t) × (starts_with t (codes "-ERR") ≡ true)
HasStatus o other =
    (t : Bytes) × (o ≡ some t)
    × (t ≢ [])
    × (starts_with t (codes "+OK") ≡ false)
    × (starts_with t (codes "-ERR") ≡ false)

text_status : (c : ℕ) (t : Bytes) → HasStatus (some (c ∷ t)) (reply_status_of (some (c ∷ t)))
unfolding reply_status_of
text_status c t = elim (Bool-cases (starts_with (c ∷ t) (codes "+OK"))) [
  | inl p ↦ rw p (inr (c ∷ t, refl, inr p))
  | inr p ↦ elim (Bool-cases (starts_with (c ∷ t) (codes "-ERR"))) [
    | inl q ↦ rw (p, q) (c ∷ t, refl, q)
    | inr q ↦ rw (p, q) (c ∷ t, refl, (λ e. cc), p, q)
  ]
]

reply_status_of-HasStatus : (o : Option Bytes) → HasStatus o (reply_status_of o)
unfolding reply_status_of
reply_status_of-HasStatus none = inl refl
reply_status_of-HasStatus (some []) = inr ([], refl, inl refl)
reply_status_of-HasStatus (some (c ∷ t)) = text_status c t

result-Answers :
    (h : Headers) (body : Option Bytes) (s : ReplyStatus) (r : EslResponse)
    → r ≡ record { headers = h; body = body; status = s }
    → HasStatus (get h header_reply_text) s
    → Answers h r (result_of s r)
unfolding result_of reply_text
result-Answers h body success r e i = (refl, i)
result-Answers h body failure r e (t, i, p) = rw e (rw i (refl, p))
result-Answers h body other r e (t, i, n, p, q) = rw e (rw i (refl, n, p, q))

-- A reply is turned into a result by its `Reply-Text`: no text, an empty one or one that starts
-- with `+OK` is a success and hands out the response, one that starts with `-ERR` is a failed
-- command with the whole text, and any other is unexpected, with the whole text.
pub into_result-Answers :
    (h : Headers) (body : Option Bytes)
    → Answers h (response_new h body) (into_result (response_new h body))
unfolding into_result response_new
into_result-Answers h body =
    result-Answers h body (reply_status_of (get h header_reply_text)) (response_new h body) refl
      (reply_status_of-HasStatus (get h header_reply_text))
