-- ===== src/Connection/Stream.antt =====
-- The reader task of src/connection.rs over a whole stream: it has one run, and what it does with
-- the bytes does not depend on how the socket cuts them into reads.
use freeswitch_esl_rs.Prelude.{
  length, ℕ, ◌+◌, ◌≤◌, ◌≡◌, refl, sym, ap, ◌∙◌, subst, Bool, List, ◌∷◌, ◌++◌, Bytes,
}
use freeswitch_esl_rs.Constants.{max_buffer_size}
use freeswitch_esl_rs.Protocol.Validity.{IsCompact}
use freeswitch_esl_rs.Protocol.Segmentation.{pending, segmentation, Receives-total}
use freeswitch_esl_rs.Connection.{MpscChannel}
use freeswitch_esl_rs.Connection.Reader.{Flow, waits, exits, SocketRead, Decoders, Reader}
use freeswitch_esl_rs.Connection.Session.{
  Turns, settles, again, Reads, quiet, breaks_off, leaves, serves, serve,
}
use freeswitch_esl_rs.Connection.Chunks.{at_times, finished, Receives-Comes}
use mathlib.Core.List.{flatten}

module _ (C : MpscChannel) (D : Decoders) where
  Turns-unique :
      {r s t : Reader C} {f g : Flow} → Turns C D r s f → Turns C D r t g → (s ≡ t) × (f ≡ g)
  Turns-unique (settles x n) (settles y m) = (cc (sym x ∙ y), cc (sym x ∙ y))
  Turns-unique (settles x n) (again y d) = absurd (n (ap (λ z. z.1) (sym x ∙ y)))
  Turns-unique (again x d) (settles y m) = absurd (m (ap (λ z. z.1) (sym y ∙ x)))
  Turns-unique {t = t} {g = g} (again {s = s} x d) (again {s = s'} y d') =
      Turns-unique d (subst (λ z. Turns C D z t g) (ap (λ z. z.0) (sym y ∙ x)) d')

  Reads-unique :
      {r t u : Reader C} {xs : List (ℕ × SocketRead)} {b b' : Bool}
      → Reads C D r xs t b
      → Reads C D r xs u b'
      → (t ≡ u) × (b ≡ b')
  Reads-unique quiet quiet = (refl, refl)
  Reads-unique (breaks_off x) (breaks_off y) = (ap (λ z. z.0) (sym x ∙ y), refl)
  Reads-unique (breaks_off x) (leaves y d) = cc (ap (λ z. z.1) (sym x ∙ y))
  Reads-unique (breaks_off x) (serves y d m) = cc (ap (λ z. z.1) (sym x ∙ y))
  Reads-unique (leaves x d) (breaks_off y) = cc (ap (λ z. z.1) (sym x ∙ y))
  Reads-unique (leaves x d) (leaves {t = t} y d') =
      ((Turns-unique d (subst (λ z. Turns C D z t exits) (ap (λ z. z.0) (sym y ∙ x)) d')).0, refl)
  Reads-unique (leaves x d) (serves {t = t} y d' m) =
      cc (Turns-unique d (subst (λ z. Turns C D z t waits) (ap (λ z. z.0) (sym y ∙ x)) d')).1
  Reads-unique (serves x d m) (breaks_off y) = cc (ap (λ z. z.1) (sym x ∙ y))
  Reads-unique (serves x d m) (leaves {t = t} y d') =
      cc (Turns-unique d (subst (λ z. Turns C D z t exits) (ap (λ z. z.0) (sym y ∙ x)) d')).1
  Reads-unique (serves x d m) (serves {t = t} {u = u} {xs = xs} {b = b} y d' m') =
      let same =
        (Turns-unique d (subst (λ z. Turns C D z t waits) (ap (λ z. z.0) (sym y ∙ x)) d')).0 in
      Reads-unique m (subst (λ z. Reads C D z xs u b) (sym same) m')

  -- The reader task alone, so that while it runs no call registers in the reply slot and the
  -- application takes nothing from the channel, on two ways to cut the same bytes into reads, at least
  -- one read each and at any times: it returns in both or in neither, and has done the same, which is
  -- to say that the events in the channel, the replies that were sent to callers, the reply slot, the
  -- counters and the status are the same. Its consumed bytes are gone, as those of a new parser are,
  -- and the bytes fit in the buffer.
  pub Reads-segmentation :
      (r : Reader C) (c c' : Bytes) (cs cs' : List Bytes) (ts ts' : List ℕ) {t u : Reader C}
      {b b' : Bool}
      → IsCompact r.parser.buffer
      → c ++ flatten cs ≡ c' ++ flatten cs'
      → length (pending r.parser) + length (c ++ flatten cs) ≤ max_buffer_size
      → Reads C D r (at_times ts (c ∷ cs)) t b
      → Reads C D r (at_times ts' (c' ∷ cs')) u b'
      → (t.served ≡ u.served) × (b ≡ b')
  Reads-segmentation r c c' cs cs' ts ts' {t} {u} {b} {b'} gone same room run run' =
      let (ms, e, rs) = Receives-total D.percent_decode r.parser (c ∷ cs) in
      let (ms', e', rs') = Receives-total D.percent_decode r.parser (c' ∷ cs') in
      let (q, p) = segmentation D.percent_decode r.parser c c' cs cs' gone same room rs rs' in
      let (v, d, w, o) = Receives-Comes C D rs r ts refl in
      let (v', d', w', o') = Receives-Comes C D rs' r ts' refl in
      let (i, j) = Reads-unique run w in
      let (i', j') = Reads-unique run' w' in
      let all : (t.served, b) ≡ (u.served, b') =
        (λ k. ((i k).served, j k))
        ∙ o
        ∙ (λ k. finished C D e (serve C D (q k) r.served))
        ∙ (λ k. finished C D (p k) (serve C D ms' r.served))
        ∙ sym o'
        ∙ sym (λ k. ((i' k).served, j' k)) in
      (ap (λ z. z.0) all, ap (λ z. z.1) all)
