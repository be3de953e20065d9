-- ===== src/Command/Checked.antt =====
-- The newline checks of src/command.rs: what a chain of them accepts, and with what it rejects.
use freeswitch_esl_rs.Prelude.{
  Bool-cases, All-append, ok, err, ◌>>=◌, ◌>>◌, ◌≡◌, sym, ◌∙◌, ◌↔◌, inl, inr, false, Option, none,
  some, ◌++◌, arith, Bytes, Lacks,
}
use freeswitch_esl_rs.Text.Search.{contains-Lacks, Lacks-contains}
use freeswitch_esl_rs.Error.{EslError, protocol_error, EslResult}
use freeswitch_esl_rs.Command.{has_newline, validate_no_newlines, validate_option}
use mathlib.Core.Bool.{true≢false}

-- A text that stays on its line.
abbrev pub IsLine : Bytes → Type 0
IsLine s = Lacks b'\n' s × Lacks b'\r' s

abbrev pub IsPair : Bytes × Bytes → Type 0
IsPair (k, v) = IsLine k × IsLine v

abbrev pub IsProtocolError : EslError → Type 0
IsProtocolError (protocol_error m) = Unit
IsProtocolError _ = ⊥

-- A computation that succeeds exactly if `P` holds, with a result of `Q`, and whose only error is
-- `EslError::ProtocolError`.
abbrev pub Checked {ℓ} : {A : Type ℓ} → Type 0 → (A → Type 0) → EslResult A → Type 0
Checked P Q (ok a) = P × Q a
Checked P Q (err e) = (¬ P) × IsProtocolError e

pub has_newline_iff : (s : Bytes) → (has_newline s ≡ false) ↔ IsLine s
unfolding has_newline
has_newline_iff s = ground (
  arith,
  contains-Lacks s b'\n',
  contains-Lacks s b'\r',
  Lacks-contains s b'\n',
  Lacks-contains s b'\r',
)

pub literal-IsLine : (s : Bytes) → has_newline s ≡ false → IsLine s
literal-IsLine s h = (has_newline_iff s).0 h

pub append-IsLine : (a b : Bytes) → IsLine a → IsLine b → IsLine (a ++ b)
append-IsLine a b (an, ar) (bn, br) = (All-append _ a b an bn, All-append _ a b ar br)

module _ {ℓ} {A : Type ℓ} where
  pub Checked-map :
      {P P' : Type 0} {Q Q' : A → Type 0} (r : EslResult A)
      → (P → P')
      → (P' → P)
      → ((a : A) → P → Q a → Q' a)
      → Checked P Q r
      → Checked P' Q' r
  Checked-map (ok a) f g h (p, q) = (f p, h a p q)
  Checked-map (err e) f g h (n, i) = (λ p'. n (g p'), i)

  -- A check in front of a computation adds its condition.
  pub validate-Checked :
      (P : Type 0) (Q : A → Type 0) (s context : Bytes) (k : EslResult A)
      → (IsLine s → Checked P Q k)
      → Checked (IsLine s × P) Q (validate_no_newlines s context >> k)
  unfolding validate_no_newlines
  validate-Checked P Q s context k h = elim (Bool-cases (has_newline s)) [
    | inl e ↦ rw e (λ p. absurd (true≢false (sym e ∙ (has_newline_iff s).1 p.0)), tt)
    | inr n ↦ rw n (
        let l = (has_newline_iff s).0 n in
        Checked-map {Q = Q} {Q' = Q} k (λ p. (l, p)) (λ p. p.1) (λ _ _ q. q) (h l))
  ]

abbrev pub IsOptionalLine : Option Bytes → Type 0
IsOptionalLine none = Unit
IsOptionalLine (some s) = IsLine s

module _ {ℓ} {A : Type ℓ} where
  pub validate_option-Checked :
      (P : Type 0) (Q : A → Type 0) (o : Option Bytes) (context : Bytes) (k : EslResult A)
      → (IsOptionalLine o → Checked P Q k)
      → Checked (IsOptionalLine o × P) Q (validate_option o context >> k)
  unfolding validate_option
  validate_option-Checked P Q none context k h =
      Checked-map {Q = Q} {Q' = Q} k (λ p. (tt, p)) (λ p. p.1) (λ _ _ q. q) (h tt)
  validate_option-Checked P Q (some s) context k h = validate-Checked P Q s context k h

module _ {ℓ κ} {A : Type ℓ} {B : Type κ} where
  -- A second computation adds its condition to that of the first.
  pub Checked-bind :
      (P P' : Type 0) (R : A → Type 0) (Q : B → Type 0) (m : EslResult A) (f : A → EslResult B)
      → Checked P R m
      → ((a : A) → P → R a → Checked P' Q (f a))
      → Checked (P × P') Q (m >>= f)
  Checked-bind P P' R Q (ok a) f (p, r) h =
      Checked-map {Q = Q} {Q' = Q} (f a) (λ q. (p, q)) (λ q. q.1) (λ _ _ q. q) (h a p r)
  Checked-bind P P' R Q (err e) f (n, i) h = (λ p. n p.0, i)
