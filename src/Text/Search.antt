-- ===== src/Text/Search.antt =====
-- What the searches of `Text` find.
use freeswitch_esl_rs.Prelude.{
  length, drop, take-length, ℕ, suc, ◌+◌, ◌≡◌, refl, ◌≢◌, ◌↔◌, true, false, none, some, [], ◌∷◌,
  ◌++◌, arith, Bytes, Lacks,
}
use freeswitch_esl_rs.Text.{bytes_eq, strip_prefix, strip_suffix, find, contains, split_once}

pub bytes_eq_iff : (a b : Bytes) → (bytes_eq a b ≡ true) ↔ (a ≡ b)
unfolding bytes_eq
bytes_eq_iff (x ∷ a) (y ∷ b) = ground (arith, bytes_eq_iff a b)
bytes_eq_iff _ _ = ground arith

pub bytes_eq_self : (a : Bytes) → bytes_eq a a ≡ true
bytes_eq_self a = (bytes_eq_iff a a).1 refl

pub bytes_eq_ne : (a b : Bytes) → a ≢ b → bytes_eq a b ≡ false
bytes_eq_ne a b h = ground (arith, bytes_eq_iff a b)

pub strip_prefix-append : (p s : Bytes) → strip_prefix (p ++ s) p ≡ some s
unfolding strip_prefix
strip_prefix-append [] s = refl
strip_prefix-append (c ∷ p) s = ground (arith, strip_prefix-append p s)

pub strip_prefix_sound : (s p : Bytes) {r : Bytes} → strip_prefix s p ≡ some r → s ≡ p ++ r
unfolding strip_prefix
strip_prefix_sound s [] h = cc
strip_prefix_sound [] (p ∷ ps) h = cc
strip_prefix_sound (c ∷ s) (p ∷ ps) {r} h = ground (arith, strip_prefix_sound s ps {r = r})

pub strip_suffix-append : (s : Bytes) (q : ℕ) → strip_suffix (s ++ q ∷ []) q ≡ some s
unfolding strip_suffix
strip_suffix-append [] q = ground arith
strip_suffix-append (c ∷ []) q = ground arith
strip_suffix-append (c ∷ d ∷ s) q = ground (arith, strip_suffix-append (d ∷ s) q)

pub find-append :
    (k : Bytes) (b : ℕ) (s : Bytes) → Lacks b k → find (k ++ b ∷ s) b ≡ some (length k)
unfolding find
find-append [] b s h = ground arith
find-append (c ∷ k) b s h = ground (arith, find-append k b s h.1)

pub find-Lacks : (s : Bytes) (b : ℕ) → Lacks b s → find s b ≡ none
unfolding find
find-Lacks [] b h = refl
find-Lacks (c ∷ s) b h = ground (arith, find-Lacks s b h.1)

pub contains-Lacks : (s : Bytes) (b : ℕ) → contains s b ≡ false → Lacks b s
unfolding contains
contains-Lacks [] b h = tt
contains-Lacks (c ∷ s) b h = ground (arith, contains-Lacks s b)

pub Lacks-contains : (s : Bytes) (b : ℕ) → Lacks b s → contains s b ≡ false
unfolding contains
Lacks-contains [] b h = refl
Lacks-contains (c ∷ s) b h = ground (arith, Lacks-contains s b h.1)

pub drop_past : (k : Bytes) (b : ℕ) (s : Bytes) → drop (length k + 1) (k ++ b ∷ s) ≡ s
drop_past [] b s = refl
drop_past (c ∷ k) b s =
    let e : suc (length k) + 1 ≡ suc (length k + 1) = omega arith in rw e (drop_past k b s)

pub split_once-append :
    (k : Bytes) (b : ℕ) (s : Bytes) → Lacks b k → split_once (k ++ b ∷ s) b ≡ some (k, s)
unfolding split_once
split_once-append k b s h =
    rw (find-append k b s h, split_once) (rw (take-length k (b ∷ s), drop_past k b s) refl)

pub bytes_eq_sym : (a b : Bytes) → bytes_eq a b ≡ bytes_eq b a
unfolding bytes_eq
bytes_eq_sym [] [] = refl
bytes_eq_sym [] (y ∷ b) = refl
bytes_eq_sym (x ∷ a) [] = refl
bytes_eq_sym (x ∷ a) (y ∷ b) = ground (arith, bytes_eq_sym a b)
