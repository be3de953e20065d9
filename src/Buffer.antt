-- ===== src/Buffer.antt =====
-- src/buffer.rs: `EslBuffer`, bytes of which the first `position` are consumed. The `BytesMut` is
-- its contents. Its capacity is left out: `reserve` changes nothing else. The children prove what
-- the operations do to the unread bytes.
pub mod Queue
pub mod Pattern
pub mod Occurrence
pub mod Extract
use freeswitch_esl_rs.Prelude.{
  ltb, leb, if◌then◌else◌, length, take, drop, ok, err, ℕ, zero, suc, ◌+◌, ◌-◌, Bool, true, false,
  ◌||◌, Option, none, some, [], ◌++◌, Bytes, codes,
}
use freeswitch_esl_rs.Constants.{max_buffer_size}
use freeswitch_esl_rs.Error.{EslError, protocol_error, buffer_overflow, EslResult}
use freeswitch_esl_rs.Text.{bytes_eq, is_empty}
use freeswitch_esl_rs.Text.Decimal.{decimal}

pub record EslBuffer : Type 0 where
  pub buffer : Bytes
  pub position : ℕ

unfoldable pub new : EslBuffer
new = record { buffer = []; position = 0 }

unfoldable pub len : EslBuffer → ℕ
len b = length b.buffer - b.position

unfoldable pub extend_from_slice : EslBuffer → Bytes → EslBuffer
extend_from_slice b s = record b { buffer = b.buffer ++ s }

-- `data`: the bytes from `position` on.
unfoldable pub unread : EslBuffer → Bytes
unread b = drop b.position b.buffer

cannot_advance : ℕ → ℕ → EslError
cannot_advance count available = protocol_error (
    codes "cannot advance "
    ++ decimal count
    ++ codes " bytes, only "
    ++ decimal available
    ++ codes " available")

unfoldable pub advance : EslBuffer → ℕ → EslBuffer × EslResult (Unit {0})
unfolding len cannot_advance
advance b count =
    let available = len b in
    if ltb available count
    then (b, err (cannot_advance count available))
    else (record b { position = b.position + count }, ok tt)

-- `(i..i + n).find(p)`.
unfoldable pub find_in_range : ℕ → ℕ → (ℕ → Bool) → Option ℕ
find_in_range zero i p = none
find_in_range (suc n) i p = elim (p i) [ true ↦ some i | false ↦ find_in_range n (suc i) p ]

-- `s[i..i + n]`.
abbrev pub slice : Bytes → ℕ → ℕ → Bytes
slice s i n = take n (drop i s)

unfoldable pub find_pattern : EslBuffer → Bytes → Option ℕ
unfolding unread find_in_range
find_pattern b pattern =
    let s = unread b in
    if is_empty pattern || ltb (length s) (length pattern)
    then none
    else find_in_range (length s - length pattern + 1) 0
        (λ i. bytes_eq (slice s i (length pattern)) pattern)

unfoldable pub extract_until_pattern : EslBuffer → Bytes → EslBuffer × Option Bytes
unfolding find_pattern advance
extract_until_pattern b pattern = elim (find_pattern b pattern) [
  | none ↦ (b, none)
  | some pos ↦ ((advance b (pos + length pattern)).0, some (take pos (unread b)))
]

unfoldable pub extract_bytes : EslBuffer → ℕ → EslBuffer × Option Bytes
unfolding len advance unread
extract_bytes b count =
    if leb count (len b) then ((advance b count).0, some (take count (unread b))) else (b, none)

-- `copy_within(start.., 0)`: the bytes from `start` on overwrite the front.
copy_to_front : Bytes → ℕ → Bytes
copy_to_front s start = drop start s ++ drop (length s - start) s

unfoldable pub compact : EslBuffer → EslBuffer
unfolding len copy_to_front
compact b =
    let remaining_len = len b in
    let moved = if ltb 0 remaining_len then copy_to_front b.buffer b.position else b.buffer in
    if ltb 0 b.position then record { buffer = take remaining_len moved; position = 0 } else b

unfoldable pub check_size_limits : EslBuffer → EslResult (Unit {0})
check_size_limits b =
    if ltb max_buffer_size (length b.buffer)
    then err (buffer_overflow (length b.buffer) max_buffer_size)
    else ok tt
