-- ===== src/Connection/Liveness.antt =====
-- The liveness check of the reader task in src/connection.rs: silence ends the loop once it is longer
-- than the timeout, and not before.
use freeswitch_esl_rs.Prelude.{
  All, ok, ℕ, ◌+◌, ◌*◌, ◌≤◌, ◌<◌, ◌≡◌, refl, ap, ◌⊎◌, true, false, none, List, [], ◌∷◌, ◌++◌, arith,
}
use freeswitch_esl_rs.Protocol.{parse_message}
use freeswitch_esl_rs.Connection.{heartbeat_expired, MpscChannel, SharedState}
use freeswitch_esl_rs.Connection.Reader.{
  waits, SocketRead, elapsed, Decoders, nanoseconds_per_ms, is_expired, Reader, end_with, parsed,
  turn, received,
}
use freeswitch_esl_rs.Connection.Session.{settles, Reads, quiet, breaks_off, serves}

-- Reads that time out, at these times.
abbrev pub silent : List ℕ → List (ℕ × SocketRead)
silent [] = []
silent (t ∷ ts) = (t, elapsed) ∷ silent ts

is_expired_late :
    (shared : SharedState) (last now : ℕ)
    → 0 < shared.liveness_timeout_ms * nanoseconds_per_ms
    → last + shared.liveness_timeout_ms * nanoseconds_per_ms < now
    → is_expired shared last now ≡ true
unfolding is_expired
is_expired_late shared last now p l = ground arith

is_expired_within :
    (shared : SharedState) (last now : ℕ)
    → (shared.liveness_timeout_ms * nanoseconds_per_ms ≡ 0)
      ⊎ (now ≤ last + shared.liveness_timeout_ms * nanoseconds_per_ms)
    → is_expired shared last now ≡ false
unfolding is_expired
is_expired_within shared last now w = ground arith

module _ (C : MpscChannel) (D : Decoders) (r : Reader C) where
  abbrev threshold : ℕ
  threshold = r.served.shared.liveness_timeout_ms * nanoseconds_per_ms

  -- No timeout is set, or it has not passed since the last bytes came.
  abbrev pub Within : ℕ → Type 0
  Within now = (threshold ≡ 0) ⊎ (now ≤ r.last_recv + threshold)

  abbrev pub expired : Reader C
  unfolding end_with
  expired = record r { served = end_with C heartbeat_expired r.served }

  module _ (quiet_parser : parse_message D.percent_decode r.parser ≡ (r.parser, ok none)) where
    turn_quiet : turn C D r ≡ (r, waits)
    unfolding turn parsed
    turn_quiet =
        ap
          (λ o. (
            record r { parser = o.0; served = (parsed C D r.served o.1).0 },
            (parsed C D r.served o.1).1,
          ))
          quiet_parser

    received-Within : (now : ℕ) → Within now → received C r now elapsed ≡ (r, true)
    unfolding received
    received-Within now w = rw (is_expired_within r.served.shared r.last_recv now w) refl

    received-late :
        (now : ℕ)
        → 0 < threshold
        → r.last_recv + threshold < now
        → received C r now elapsed ≡ (expired, false)
    unfolding received
    received-late now p l = rw (is_expired_late r.served.shared r.last_recv now p l) refl

    -- As long as nothing comes and no time is later than the timeout allows, the loop waits and
    -- changes nothing. The first read that times out later than that ends it with the status
    -- `HeartbeatExpired`, if a timeout is set; nothing else has changed then. No complete message is
    -- buffered.
    pub silence :
        (before after : List ℕ) (now : ℕ)
        → All Within before
        → Reads C D r (silent before) r false
          × (0 < threshold
              → r.last_recv + threshold < now
              → Reads C D r (silent (before ++ now ∷ after)) expired true)
    silence [] after now h = (quiet, (λ p l. breaks_off (received-late now p l)))
    silence (t ∷ before) after now h =
        let (wait, late) = silence before after now h.1 in
        let d = settles turn_quiet (λ e. cc) in
        (
          serves (received-Within t h.0) d wait,
          (λ p l. serves (received-Within t h.0) d (late p l)),
        )
