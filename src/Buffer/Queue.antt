-- ===== src/Buffer/Queue.antt =====
-- The buffer as a queue of bytes: what each operation does to the unread bytes.
use freeswitch_esl_rs.Prelude.{
  ltb, if◌then◌else◌, lt→ltb, Bool-cases, length, take, drop, length-append, length-drop,
  drop-append, take-length, drop-drop, ok, err, ℕ, zero, suc, ◌+◌, ◌-◌, ◌≤◌, ◌<◌, ◌≡◌, refl, sym,
  ap, ◌∙◌, inl, inr, true, false, [], ◌∷◌, ◌++◌, arith, Bytes,
}
use freeswitch_esl_rs.Error.{EslError}
use freeswitch_esl_rs.Buffer.{EslBuffer, len, extend_from_slice, unread, advance, compact}

-- `position` never passes the end, so `len` does not underflow and `data` does not panic.
pub record IsValid (b : EslBuffer) : Type 0 where
  pub within : b.position ≤ length b.buffer

-- The buffer that holds the unread bytes and nothing else.
abbrev pub fresh : Bytes → EslBuffer
fresh s = record { buffer = s; position = 0 }

pub fresh-IsValid : (s : Bytes) → IsValid (fresh s)
fresh-IsValid s = omega arith

pub len-unread : (b : EslBuffer) → len b ≡ length (unread b)
unfolding len unread
len-unread b = sym (length-drop b.position b.buffer)

pub extend-IsValid : {b : EslBuffer} (s : Bytes) → IsValid b → IsValid (extend_from_slice b s)
unfolding extend_from_slice
extend-IsValid {b} s v = omega (arith, length-append b.buffer s)

pub unread-extend :
    (b : EslBuffer) (s : Bytes) → IsValid b → unread (extend_from_slice b s) ≡ unread b ++ s
unfolding unread extend_from_slice
unread-extend b s v = drop-append b.position b.buffer s v.within

pub advance_ok :
    (b : EslBuffer) (n : ℕ)
    → n ≤ length (unread b)
    → advance b n ≡ (record b { position = b.position + n }, ok tt)
unfolding advance
advance_ok b n h =
    let e : ltb (len b) n ≡ false = ground (arith, len-unread b) in unfold len in rw e

pub advance_err :
    (b : EslBuffer) (n : ℕ)
    → length (unread b) < n
    → ((advance b n).0 ≡ b) × ((e : EslError) × ((advance b n).1 ≡ err e))
unfolding advance
advance_err b n h =
    let e : ltb (len b) n ≡ true = lt→ltb _ _ (omega (arith, len-unread b)) in
    unfold len in rw e (refl, (_, refl))

-- Consuming what is there keeps the buffer valid, and drops it from the front of the queue.
pub advance-IsValid :
    (b : EslBuffer) (n : ℕ)
    → IsValid b
    → n ≤ length (unread b)
    → IsValid (record b { position = b.position + n })
unfolding unread
advance-IsValid b n v h = omega (arith, length-drop b.position b.buffer)

pub unread-advance :
    (b : EslBuffer) (n : ℕ) → unread (record b { position = b.position + n }) ≡ drop n (unread b)
unfolding unread
unread-advance b n = sym (drop-drop b.position n b.buffer)

length-zero : (s : Bytes) → length s ≡ 0 → s ≡ []
length-zero [] h = refl
length-zero (c ∷ s) h = absurd (omega arith)

take_moved :
    (s : Bytes) (p : ℕ)
    → take (length s - p) (if ltb 0 (length s - p) then drop p s ++ drop (length s - p) s else s)
      ≡ drop p s
take_moved s p = elim (Bool-cases (ltb 0 (length s - p))) [
  | inl more ↦ rw more (rw (← length-drop p s) (take-length (drop p s) _))
  | inr none_left ↦
      let gone : length s - p ≡ 0 = ground arith in
      rw gone (sym (length-zero (drop p s) (length-drop p s ∙ gone)))
]

unused_lem : (s : Bytes) (p : ℕ) → p ≡ 0 → record { buffer = s; position = p } ≡ fresh (drop p s)
unused_lem s zero h = refl
unused_lem s (suc p) h = absurd (omega arith)

-- Compaction forgets the consumed bytes, and nothing else.
pub compact_lem : (b : EslBuffer) → compact b ≡ fresh (unread b)
unfolding compact unread
compact_lem b = elim (Bool-cases (ltb 0 b.position)) [
  | inl used ↦ rw used (ap fresh (take_moved b.buffer b.position))
  | inr unused ↦ rw unused (unused_lem b.buffer b.position (ground arith))
]
