-- ===== src/Columnar/Encodable.antt =====
-- The integers of a column (columnar/encoding/encodable_impls.rs): seven-bit groups, lowest
-- first, the top bit set on every byte but the last. A `u64` or `i64` has at most ten groups,
-- which is the fuel of the loops.
pub mod RoundTrip
use automerge_r.Common.{
  ℕ, zero, suc, ◌+◌, ◌-◌, ◌/◌, ◌%◌, bit_and, bit_or, Bool, true, false, List, [], ◌∷◌, ◌==◌,
  if◌then◌else◌,
}
use automerge_r.Common.Int.{ℤ, pos, negsuc}

abbrev pub continuation_bit : ℕ
continuation_bit = 0x80

-- `!CONTINUATION_BIT` of a `u8` is 0x7f.
unfoldable pub low_bits_of_byte : ℕ → ℕ
low_bits_of_byte byte = bit_and byte 0x7f

-- `(val & 0xff) as u8`
unfoldable pub low_bits_of_u64 : ℕ → ℕ
low_bits_of_u64 val = low_bits_of_byte (val % 256)

unfoldable pub encode_u64_loop : ℕ → ℕ → List ℕ
encode_u64_loop zero val = []
encode_u64_loop (suc fuel) val =
    let byte = low_bits_of_u64 val in
    let next = val / 128 in
    let more = encode_u64_loop fuel next in
    if next == 0 then byte ∷ [] else bit_or byte continuation_bit ∷ more

unfoldable pub encode_u64 : ℕ → List ℕ
encode_u64 val = encode_u64_loop 10 val

-- `val as u8`
abbrev pub as_u8 : ℤ → ℕ
as_u8 (pos n) = n % 256
as_u8 (negsuc n) = 255 - n % 256

-- `val >> 6` and the `val >> 1` after it.
abbrev pub shr_six : ℤ → ℤ
shr_six (pos n) = pos (n / 64)
shr_six (negsuc n) = negsuc (n / 64)

abbrev pub shr_one : ℤ → ℤ
shr_one (pos n) = pos (n / 2)
shr_one (negsuc n) = negsuc (n / 2)

-- `val == 0 || val == -1`
abbrev pub is_done : ℤ → Bool
is_done (pos n) = n == 0
is_done (negsuc n) = n == 0

unfoldable pub encode_i64_loop : ℕ → ℤ → List ℕ
encode_i64_loop zero val = []
encode_i64_loop (suc fuel) val =
    let byte = as_u8 val in
    let next = shr_six val in
    let more = encode_i64_loop fuel (shr_one next) in
    if is_done next then bit_and byte 0x7f ∷ [] else bit_or byte continuation_bit ∷ more

unfoldable pub encode_i64 : ℤ → List ℕ
encode_i64 val = encode_i64_loop 10 val
