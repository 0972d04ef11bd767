-- ===== src/Parse/Leb128.antt =====
-- storage/parse/leb128.rs: the reader of LEB128 numbers. An `i64` is kept as its bit pattern until
-- the end of its loop.
pub mod Writer
pub mod RoundTrip
pub mod Canonical
use automerge_r.Common.{
  ℕ, ◌+◌, ◌-◌, ◌*◌, ◌%◌, ◌^◌, ◌≤◌, ◌<◌, Bool, List, [], ◌∷◌, ltb, leb, ◌==◌, ◌&&◌, ◌||◌, not,
  if◌then◌else◌, Result, ok, err, ◌>>=◌, bit_and, bit_or,
}
use automerge_r.Common.Int.{ℤ, pos, negsuc}
use automerge_r.Parse.Input.{Input, ParseResult, Parser, error, incomplete, size}

pub data LebError : Type 0 where
  leb128_too_large leb128_overlong unexpected_zero : LebError

-- `E: From<leb128::Error>`
pub record FromLeb (E : Type 0) : Type 0 where
  pub from : LebError → E

instance abbrev pub leb_from_leb : FromLeb LebError
leb_from_leb = record { from = λ e. e }

-- `x << s` on a u64
abbrev pub shl64 : ℕ → ℕ → ℕ
shl64 x s = x * 2 ^ s % 2 ^ 64

-- The number that a 64-bit pattern stands for as an i64.
abbrev pub signed64 : ℕ → ℤ
signed64 w = if ltb w (2 ^ 63) then pos w else negsuc (2 ^ 64 - w - 1)

module _ {E : Type 0} ⦃f : FromLeb E⦄ where
  -- The loop, by recursion on the bytes that are left: `take1` fails when there are none.
  unfoldable pub u64_loop : List ℕ → ℕ → List ℕ → ℕ → ℕ → ParseResult ℕ E
  u64_loop [] position original res shift = err (incomplete (size 1))
  u64_loop (byte ∷ bytes) position original res shift =
      let res' = bit_or res (shl64 (bit_and byte 0x7f) shift) in
      let shift' = shift + 7 in
      let more = u64_loop bytes (position + 1) original res' shift' in
      if bit_and byte 0x80 == 0
      then if ltb 64 shift' && ltb 1 byte
        then err (error (f.from leb128_too_large))
        else if ltb 7 shift' && byte == 0
        then err (error (f.from leb128_overlong))
        else ok (record { bytes = bytes; position = position + 1; original = original }, res')
      else if ltb 64 shift'
      then err (error (f.from leb128_too_large))
      else more

  unfoldable pub leb128_u64 : Parser ℕ E
  unfolding u64_loop
  leb128_u64 input = u64_loop input.bytes input.position input.original 0 0

  unfoldable pub i64_loop : List ℕ → ℕ → List ℕ → ℕ → ℕ → ℕ → ParseResult ℤ E
  i64_loop [] position original res shift prev = err (incomplete (size 1))
  i64_loop (byte ∷ bytes) position original res shift prev =
      let res' = bit_or res (shl64 (bit_and byte 0x7f) shift) in
      let shift' = shift + 7 in
      let more = i64_loop bytes (position + 1) original res' shift' byte in
      let i : Input = record { bytes = bytes; position = position + 1; original = original } in
      if bit_and byte 0x80 == 0
      then if ltb 64 shift' && not (byte == 0) && not (byte == 0x7f)
        then err (error (f.from leb128_too_large))
        else if ltb 7 shift'
            && (byte == 0 && bit_and prev 0x40 == 0 || byte == 0x7f && ltb 0 (bit_and prev 0x40))
        then err (error (f.from leb128_overlong))
        else if ltb shift' 64 && ltb 0 (bit_and byte 0x40)
        then ok (i, signed64 (bit_or res' (2 ^ 64 - 2 ^ shift')))
        else ok (i, signed64 res')
      else if ltb 64 shift'
      then err (error (f.from leb128_too_large))
      else more

  unfoldable pub leb128_i64 : Parser ℤ E
  unfolding i64_loop
  leb128_i64 input = i64_loop input.bytes input.position input.original 0 0 0

  unfoldable pub leb128_u32 : Parser ℕ E
  unfolding leb128_u64
  leb128_u32 input = do
    (i, num) ← leb128_u64 input
    if ltb num (2 ^ 32) then ok (i, num) else err (error (f.from leb128_too_large))

  unfoldable pub nonzero_leb128_u64 : Parser ℕ E
  unfolding leb128_u64
  nonzero_leb128_u64 input = do
    (i, num) ← leb128_u64 input
    if num == 0 then err (error (f.from unexpected_zero)) else ok (i, num)
