-- ===== src/Text/Digits.antt =====
-- What `decimal` writes.
use freeswitch_esl_rs.Prelude.{
  ltb, ltb→lt, Bool-cases, All, ℕ, zero, suc, ◌+◌, ◌-◌, ◌*◌, ◌/◌, ◌%◌, ◌≤◌, ◌<◌, ◌≡◌, refl, ◌∙◌,
  ◌≢◌, inl, inr, some, [], ◌∷◌, arith, Bytes, Lacks,
}
use freeswitch_esl_rs.Text.Decimal.{digits, decimal, scan, parse_unsigned}

digits-Lacks : (b f n : ℕ) (out : Bytes) → b < b'0' → Lacks b out → Lacks b (digits f n out)
unfolding digits
digits-Lacks b zero n out h l = l
digits-Lacks b (suc f) n out h l =
    ground
      (arith, digits-Lacks b f (n / 10) ((b'0' + n % 10) ∷ out) h (λ e. absurd (omega arith), l))

-- A number has only digits.
pub decimal-Lacks : (b n : ℕ) → b < b'0' → Lacks b (decimal n)
unfolding decimal
decimal-Lacks b n h = digits-Lacks b (suc n) n [] h tt

abbrev pub IsDigit : ℕ → Type 0
IsDigit c = (b'0' ≤ c) × (c ≤ b'9')

digits-IsDigit : (f n : ℕ) (out : Bytes) → All IsDigit out → All IsDigit (digits f n out)
unfolding digits
digits-IsDigit zero n out h = h
digits-IsDigit (suc f) n out h = elim (Bool-cases (ltb n 10)) [
  | inl y ↦ rw y ((omega arith, omega (arith, ltb→lt n 10 y)), h)
  | inr z ↦ rw z (digits-IsDigit f (n / 10) ((b'0' + n % 10) ∷ out) ((omega arith, omega arith), h))
]

pub decimal-IsDigit : (n : ℕ) → All IsDigit (decimal n)
unfolding decimal
decimal-IsDigit n = digits-IsDigit (suc n) n [] tt

pub All-map {κ μ} :
    {P : ℕ → Type κ} {Q : ℕ → Type μ} (s : Bytes) → ((c : ℕ) → P c → Q c) → All P s → All Q s
All-map [] f h = tt
All-map (c ∷ s) f h = (f c h.0, All-map s f h.1)

scan-digits :
    (bound f n : ℕ) (out : Bytes)
    → n < f
    → n ≤ bound
    → scan bound (digits f n out) 0 ≡ scan bound out n
unfolding scan digits
scan-digits bound zero n out h l = absurd (omega arith)
scan-digits bound (suc f) n out h l = elim (Bool-cases (ltb n 10)) [
  | inl y ↦ ground (arith, ltb→lt n 10 y)
  | inr z ↦ rw z (
      scan-digits bound f (n / 10) ((b'0' + n % 10) ∷ out) (ground arith) (omega arith)
      ∙ ground arith)
]

digits-ne-nil : (f n : ℕ) (c : ℕ) (out : Bytes) → digits f n (c ∷ out) ≢ []
unfolding digits
digits-ne-nil zero n c out e = cc
digits-ne-nil (suc f) n c out e = elim (Bool-cases (ltb n 10)) [
  | inl y ↦ ground (arith, e)
  | inr z ↦ digits-ne-nil f (n / 10) (b'0' + n % 10) (c ∷ out) (ground (arith, e))
]

decimal-ne-nil : (n : ℕ) → decimal n ≢ []
unfolding decimal digits
decimal-ne-nil n e = elim (Bool-cases (ltb n 10)) [
  | inl y ↦ ground (arith, e)
  | inr z ↦ digits-ne-nil n (n / 10) (b'0' + n % 10) [] (ground (arith, e))
]

parse_unsigned-scan :
    (bound : ℕ) (s : Bytes) → All IsDigit s → s ≢ [] → parse_unsigned bound s ≡ scan bound s 0
unfolding parse_unsigned
parse_unsigned-scan bound [] d h = absurd (h refl)
parse_unsigned-scan bound (c ∷ []) d h = refl
parse_unsigned-scan bound (c ∷ e ∷ s) d h = ground (arith, d.0)

-- A number that fits is read back from its digits.
pub parse_unsigned-decimal : (bound n : ℕ) → n ≤ bound → parse_unsigned bound (decimal n) ≡ some n
unfolding decimal scan
parse_unsigned-decimal bound n l =
    parse_unsigned-scan bound (decimal n) (decimal-IsDigit n) (decimal-ne-nil n)
    ∙ scan-digits bound (suc n) n [] (omega arith) l

scan_le : (bound : ℕ) (s : Bytes) (n : ℕ) {k : ℕ} → n ≤ bound → scan bound s n ≡ some k → k ≤ bound
unfolding scan
scan_le bound [] n l e = ground arith
scan_le bound (c ∷ s) n {k} l e = ground (arith, scan_le bound s (n * 10 + (c - b'0')) {k = k})

-- What is read is within the bound.
pub parse_unsigned_le :
    (bound : ℕ) (s : Bytes) {k : ℕ} → parse_unsigned bound s ≡ some k → k ≤ bound
unfolding parse_unsigned
parse_unsigned_le bound [] e = cc
parse_unsigned_le bound (c ∷ []) e = scan_le bound (c ∷ []) 0 (omega arith) e
parse_unsigned_le bound (c ∷ d ∷ s) {k} e =
    ground (arith, scan_le bound (d ∷ s) 0 {k = k}, scan_le bound (c ∷ d ∷ s) 0 {k = k})
