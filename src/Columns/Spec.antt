-- ===== src/Columns/Spec.antt =====
-- storage/columns/column_specification.rs: a column's id, its type and whether it is compressed, in
-- a `u32`.
pub mod Fields
use automerge_r.Common.{
  ℕ, zero, suc, ◌*◌, ◌/◌, ◌%◌, ◌^◌, bit_and, bit_or, Bool, true, false, ltb, if◌then◌else◌,
}

pub data ColumnType : Type 0 where
  group actor integer delta_integer boolean string value_metadata value : ColumnType

-- The last clause also takes what the source marks as unreachable.
abbrev pub of_bits : ℕ → ColumnType
of_bits zero = group
of_bits (suc zero) = actor
of_bits (suc (suc zero)) = integer
of_bits (suc (suc (suc zero))) = delta_integer
of_bits (suc (suc (suc (suc zero)))) = boolean
of_bits (suc (suc (suc (suc (suc zero))))) = string
of_bits (suc (suc (suc (suc (suc (suc zero)))))) = value_metadata
of_bits (suc (suc (suc (suc (suc (suc (suc n))))))) = value

unfoldable pub from_u8 : ℕ → ColumnType
from_u8 val = of_bits (bit_and val 0x07)

abbrev pub type_as_u8 : ColumnType → ℕ
type_as_u8 group = 0
type_as_u8 actor = 1
type_as_u8 integer = 2
type_as_u8 delta_integer = 3
type_as_u8 boolean = 4
type_as_u8 string = 5
type_as_u8 value_metadata = 6
type_as_u8 value = 7

-- `ColumnSpec(u32)` and `ColumnId(u32)`
abbrev pub ColumnSpec : Type 0
ColumnSpec = ℕ

abbrev pub ColumnId : Type 0
ColumnId = ℕ

unfoldable pub new : ColumnId → ColumnType → Bool → ColumnSpec
new id col_type deflate =
    let raw = bit_or (id * 16 % 2 ^ 32) (type_as_u8 col_type) in
    if deflate then bit_or raw 0x08 else bit_and raw 0xf7

-- The last byte of the number, big end first.
unfoldable pub col_type : ColumnSpec → ColumnType
col_type spec = from_u8 (spec % 256)

unfoldable pub id : ColumnSpec → ColumnId
id spec = spec / 16

unfoldable pub deflate : ColumnSpec → Bool
deflate spec = ltb 0 (bit_and spec 0x08)

unfoldable pub deflated : ColumnSpec → ColumnSpec
deflated spec = new (id spec) (col_type spec) true

unfoldable pub inflated : ColumnSpec → ColumnSpec
inflated spec = new (id spec) (col_type spec) false

unfoldable pub normalize : ColumnSpec → ℕ
normalize spec = bit_and spec 0xf7
