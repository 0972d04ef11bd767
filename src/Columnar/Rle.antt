-- ===== src/Columnar/Rle.antt =====
-- columnar/encoding/rle.rs: run length encoding of a column of optional values. A positive count
-- is a run of one value, a negative one that many different values, zero a run of nulls.
pub mod Encoder
pub mod Decoder
pub mod Format
pub mod Nulls
pub mod Encoded
pub mod Flushed
pub mod Appended
pub mod Finished
pub mod Stepped
pub mod Decoded
pub mod RoundTrip
pub mod Terminates
use automerge_r.Common.{ℕ, zero, suc, ◌-◌, ◌^◌, ltb, ◌==◌, if◌then◌else◌}
use automerge_r.Common.Int.{ℤ, pos, negsuc}

-- `len as i64`, and `len as isize` of the decoder.
abbrev pub as_i64 : ℕ → ℤ
as_i64 len = if ltb len (2 ^ 63) then pos len else negsuc (2 ^ 64 - 1 - len)

-- `-n` and `n - 1` of an `i64` or `isize`, which wrap at the lowest number.
abbrev pub neg_i64 : ℤ → ℤ
neg_i64 (pos zero) = pos zero
neg_i64 (pos (suc n)) = negsuc n
neg_i64 (negsuc n) = if suc n == 2 ^ 63 then negsuc n else pos (suc n)

abbrev pub pred_i64 : ℤ → ℤ
pred_i64 (pos zero) = negsuc zero
pred_i64 (pos (suc n)) = pos n
pred_i64 (negsuc n) = if suc n == 2 ^ 63 then pos n else negsuc (suc n)
