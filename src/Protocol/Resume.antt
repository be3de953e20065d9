-- ===== src/Protocol/Resume.antt =====
-- More bytes behind the pending ones: what was decided stays, and what waited goes on.
use freeswitch_esl_rs.Prelude.{
  leb, leb→le, le→leb, Bool-cases, Option-cases, length, take, drop, length-append, take-append,
  drop-append, ok, err, ℕ, zero, suc, ◌+◌, ◌≡◌, refl, inl, inr, true, Option, none, some, ◌++◌,
  arith, Bytes,
}
use freeswitch_esl_rs.Constants.{header_terminator}
use freeswitch_esl_rs.Text.Utf8.{from_utf8}
use freeswitch_esl_rs.Error.{EslResult}
use freeswitch_esl_rs.Buffer.Pattern.{index_of}
use freeswitch_esl_rs.Buffer.Occurrence.{index_of-split, index_of-append}
use freeswitch_esl_rs.Headers.{Headers}
use freeswitch_esl_rs.Protocol.{
  MessageType, ParseState, waiting_for_headers, waiting_for_body, parse_envelope,
}
use freeswitch_esl_rs.Protocol.Framer.{
  Framer, Outcome, body_framed, frame_body, frame_after, frame_headers, frame_in, frame,
}

abbrev pub feed : Framer → Bytes → Framer
feed f t = record f { pending = f.pending ++ t }

module _ (percent_decode : Bytes → Bytes) (t : Bytes) where
  -- The outcome with the bytes `t` behind those that it was computed from.
  abbrev pub resume : Outcome → Outcome
  resume (f, ok none) = frame percent_decode (feed f t)
  resume (f, ok (some m)) = (feed f t, ok (some m))
  resume (f, err e) = (feed f t, err e)

  body_framed-append :
      (mt : MessageType) (h : Headers) (n : ℕ) (r : Bytes) (x : Option Bytes)
      → body_framed mt h n (r ++ t) x ≡ resume (body_framed mt h n r x)
  unfolding body_framed
  body_framed-append mt h n r none = refl
  body_framed-append mt h n r (some x) = refl

  frame_body-append :
      (s : Bytes) (mt : MessageType) (h : Headers) (n : ℕ)
      → frame_body (s ++ t) mt h n ≡ resume (frame_body s mt h n)
  frame_body-append s mt h n = elim (Bool-cases (leb n (length s))) [
    | inl there ↦
        let fits = leb→le n (length s) there in
        let still : leb n (length (s ++ t)) ≡ true =
          le→leb _ _ (omega (arith, length-append s t)) in
        unfold frame_body in
        rw (there, still, drop-append n s t fits, take-append n s t fits)
          (body_framed-append mt h n (drop n s) (from_utf8 (take n s)))
    | inr short ↦ unfold frame_body frame in rw short
  ]

  frame_after-append :
      (s : Bytes) (r : EslResult (MessageType × Headers × Option ℕ))
      → frame_after (s ++ t) r ≡ resume (frame_after s r)
  unfolding frame_after
  frame_after-append s (err e) = refl
  frame_after-append s (ok (mt, h, none)) = refl
  frame_after-append s (ok (mt, h, some zero)) = refl
  frame_after-append s (ok (mt, h, some (suc n))) = frame_body-append s mt h (suc n)

  frame_headers-append :
      (s : Bytes) → frame_headers percent_decode (s ++ t) ≡ resume (frame_headers percent_decode s)
  frame_headers-append s = elim (Option-cases (index_of s header_terminator)) [
    | inl absent ↦ unfold frame_headers frame in rw absent
    | inr (i, found) ↦
        let (fits, _) = index_of-split s header_terminator i found in
        unfold frame_headers in
        rw
          (
            found,
            index_of-append s t header_terminator i found,
            take-append i s t (omega arith),
            drop-append (i + 2) s t fits,
          )
          (frame_after-append (drop (i + 2) s) (parse_envelope percent_decode (take i s)))
  ]

  -- The abstract parser on `s ++ t` goes on from where it stopped on `s`.
  pub frame-feed : (f : Framer) → frame percent_decode (feed f t) ≡ resume (frame percent_decode f)
  unfolding frame
  frame-feed f = go f.state f.pending
    where
      go :
          (st : ParseState) (s : Bytes)
          → frame_in percent_decode st (s ++ t) ≡ resume (frame_in percent_decode st s)
      go waiting_for_headers s = frame_headers-append s
      go (waiting_for_body mt h n) s = frame_body-append s mt h n
