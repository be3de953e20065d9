-- ===== src/Connection/Ending.antt =====
-- The reader task of src/connection.rs comes to wait for the socket or to return.
use freeswitch_esl_rs.Prelude.{
  ℕ, ◌≡◌, refl, ◌⊎◌, inl, inr, Bool, true, false, Option, none, some, List, [], ◌∷◌,
}
use freeswitch_esl_rs.Error.{EslError, display}
use freeswitch_esl_rs.Protocol.Progress.{Parses-total}
use freeswitch_esl_rs.Connection.{MpscChannel}
use freeswitch_esl_rs.Connection.Reader.{
  waits, exits, SocketRead, Decoders, Served, Reader, end_with, received,
}
use freeswitch_esl_rs.Connection.Session.{
  Turns, Reads, quiet, breaks_off, leaves, serves, Loop, returns_first, reads_on, serve, settled,
  Parses-Serves,
}

module _ (C : MpscChannel) (D : Decoders) where
  abbrev ComesTo : Reader C → Type 0
  ComesTo r = ((t : Reader C) × Turns C D r t waits) ⊎ ((t : Reader C) × Turns C D r t exits)

  settled-cases :
      (e : Option EslError) (o : Served C × Bool) (r t : Reader C)
      → Turns C D r t (settled C D e o).1
      → ComesTo r
  unfolding end_with display
  settled-cases e (s, false) r t d = inr (t, d)
  settled-cases none (s, true) r t d = inl (t, d)
  settled-cases (some e) (s, true) r t d = inr (t, d)

  -- Whatever is buffered, the turns come to wait or to return.
  Turns-total : (r : Reader C) → ComesTo r
  Turns-total r =
      let (q, ms, e, d, _) = Parses-total D.percent_decode r.parser in
      let (t, turns, _, _, _) = Parses-Serves C D d r refl in
      settled-cases e (serve C D ms r.served) r t turns

  Reads-total :
      (r : Reader C) (xs : List (ℕ × SocketRead)) → (t : Reader C) × (b : Bool) × Reads C D r xs t b
  Reads-total r [] = (r, false, quiet)
  Reads-total r ((now, x) ∷ xs) = after (received C r now x) refl (λ t. Reads-total t xs)
    where
      after :
          (o : Reader C × Bool)
          → received C r now x ≡ o
          → ((t : Reader C) → (u : Reader C) × (b : Bool) × Reads C D t xs u b)
          → (t : Reader C) × (b : Bool) × Reads C D r ((now, x) ∷ xs) t b
      after (s, false) h later = (s, true, breaks_off h)
      after (s, true) h later = elim (Turns-total s) [
        | inl (t, d) ↦ let (u, b, m) = later t in (u, b, serves h d m)
        | inr (t, d) ↦ (t, true, leaves h d)
      ]

  -- The loop can be run on whatever the socket gives, in any order and at any times: it returns, or
  -- it waits for the socket once all was read.
  pub Loop-total :
      (r : Reader C) (xs : List (ℕ × SocketRead)) → (t : Reader C) × (b : Bool) × Loop C D r xs t b
  Loop-total r xs = elim (Turns-total r) [
    | inl (s, d) ↦ let (t, b, m) = Reads-total s xs in (t, b, reads_on d m)
    | inr (t, d) ↦ (t, true, returns_first d)
  ]
