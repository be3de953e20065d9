-- ===== src/Filter/Choices.antt =====
-- What each option of examples/event_filter.rs stores is checked.
use freeswitch_esl_rs.Prelude.{
  if◌then◌else◌, ok, err, ℕ, ◌≡◌, refl, subst, Bool, true, false, Option, none, some, [], ◌∷◌, ◌++◌,
  Bytes, codes,
}
use freeswitch_esl_rs.Text.{contains}
use freeswitch_esl_rs.Text.Decimal.{parse_unsigned}
use freeswitch_esl_rs.Text.Digits.{parse_unsigned_le}
use freeswitch_esl_rs.Filter.{
  Args, Choice, help, unheard_of, switch, with_value, set_port, set_user, is_one_of, choice,
}
use freeswitch_esl_rs.Filter.Arguments.{IsChecked}

-- What an option stores is checked.
abbrev pub KeepsChecked : Choice → Type 0
KeepsChecked help = Unit
KeepsChecked unheard_of = Unit
KeepsChecked (switch set) = (r : Args) → IsChecked r → IsChecked (set r)
KeepsChecked (with_value missing set) =
    (r : Args) (v : Bytes) (r' : Args) → IsChecked r → set r v ≡ ok r' → IsChecked r'

if-KeepsChecked :
    (b : Bool) (c d : Choice) → KeepsChecked c → KeepsChecked d → KeepsChecked (if b then c else d)
if-KeepsChecked true c d h k = h
if-KeepsChecked false c d h k = k

ok_keeps :
    (set : Args → Bytes → Args)
    → ((r : Args) (v : Bytes) → IsChecked r → IsChecked (set r v))
    → (missing : Bytes) → KeepsChecked (with_value missing (λ r v. ok (set r v)))
ok_keeps set h missing r v r' c e = let same : set r v ≡ r' = cc in subst IsChecked same (h r v c)

set_port-KeepsChecked : (missing : Bytes) → KeepsChecked (with_value missing set_port)
unfolding set_port
set_port-KeepsChecked missing r v r' c e = of_number (parse_unsigned 65535 v) refl e
  where
    of_number :
        (o : Option ℕ)
        → parse_unsigned 65535 v ≡ o
        → elim o [ none ↦ err (codes "Invalid port number") | some n ↦ ok (record r { port = n }) ]
          ≡ ok r'
        → IsChecked r'
    of_number none t e = cc
    of_number (some n) t e =
        let same : record r { port = n } ≡ r' = cc in
        subst IsChecked same (parse_unsigned_le 65535 v t, c.1)

set_user-KeepsChecked : (missing : Bytes) → KeepsChecked (with_value missing set_user)
unfolding set_user
set_user-KeepsChecked missing r v r' c e = of_test (contains v b'@') refl e
  where
    of_test :
        (b : Bool)
        → contains v b'@' ≡ b
        → (if b
            then ok (record r { user = some v })
            else err (
                codes "Invalid user format '"
                ++ (v ++ codes "': must be user@domain (e.g., admin@default)")))
          ≡ ok r'
        → IsChecked r'
    of_test true t e =
        let same : record r { user = some v } ≡ r' = cc in subst IsChecked same (c.0, t)
    of_test false t e = cc

pub choice-KeepsChecked : (arg : Bytes) → KeepsChecked (choice arg)
unfolding choice
choice-KeepsChecked arg = if-KeepsChecked (is_one_of arg (codes "-h") (codes "--help")) _ _ tt (
    if-KeepsChecked (is_one_of arg (codes "-H") (codes "--host")) _ _
      (ok_keeps (λ r v. record r { host = v }) (λ r v c. c) (codes "Missing host value"))
      (if-KeepsChecked (is_one_of arg (codes "-P") (codes "--port")) _ _
        (set_port-KeepsChecked (codes "Missing port value"))
        (if-KeepsChecked (is_one_of arg (codes "-p") (codes "--password")) _ _
          (ok_keeps (λ r v. record r { password = v }) (λ r v c. c)
            (codes "Missing password value"))
          (if-KeepsChecked (is_one_of arg (codes "-u") (codes "--user")) _ _
            (set_user-KeepsChecked (codes "Missing user value"))
            (if-KeepsChecked (is_one_of arg (codes "-e") (codes "--event")) _ _
              (ok_keeps (λ r v. record r { events = r.events ++ v ∷ [] }) (λ r v c. c)
                (codes "Missing event value"))
              (if-KeepsChecked (is_one_of arg (codes "-f") (codes "--filter")) _ _
                (ok_keeps (λ r v. record r { filter_header = some v }) (λ r v c. c)
                  (codes "Missing filter header"))
                (if-KeepsChecked (is_one_of arg (codes "-v") (codes "--value")) _ _
                  (ok_keeps (λ r v. record r { filter_value = some v }) (λ r v c. c)
                    (codes "Missing filter value"))
                  (if-KeepsChecked (is_one_of arg (codes "-j") (codes "--json")) _ _ (λ r c. c)
                    (if-KeepsChecked (is_one_of arg (codes "-r") (codes "--raw")) _ _ (λ r c. c)
                      (if-KeepsChecked (is_one_of arg (codes "-q") (codes "--quiet")) _ _ (λ r c. c)
                        tt))))))))))
