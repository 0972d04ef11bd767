-- ===== src/Columns/Spec/Fields.antt =====
-- storage/columns/column_specification.rs: what `new` puts together and the accessors take apart.
use automerge_r.Common.{
  ℕ, zero, suc, ◌+◌, ◌*◌, ◌/◌, ◌%◌, ◌^◌, ◌<◌, ◌≡◌, refl, ap, ◌∙◌, bit_and, bit_or, Bool, true,
  false, if◌then◌else◌, arith, min,
}
use Prim.Native.Nat.{max}
use automerge_r.Common.Bits.{and_halves, or_halves, bit_or_zero, bit_and_zero}
use automerge_r.Columns.Spec.{
  ColumnType, group, actor, integer, delta_integer, boolean, string, value_metadata, value, of_bits,
  from_u8, type_as_u8, ColumnSpec, ColumnId, new, col_type, id, deflate, deflated, inflated,
}

and_half :
    (a b a' b' : ℕ)
    → a' ≡ a / 2
    → b' ≡ b / 2
    → bit_and a b ≡ min (a % 2) (b % 2) + 2 * bit_and a' b'
and_half a b a' b' ea eb = rw ea (rw eb (and_halves a b))

or_half :
    (a b a' b' : ℕ) → a' ≡ a / 2 → b' ≡ b / 2 → bit_or a b ≡ max (a % 2) (b % 2) + 2 * bit_or a' b'
or_half a b a' b' ea eb = rw ea (rw eb (or_halves a b))

-- `x & 7`, `x & 8` and `x & 0xf7`
and_seven : (x : ℕ) → bit_and x 7 ≡ x % 8
and_seven x = omega (
  arith,
  and_half x 7 (x / 2) 3 (omega arith) refl,
  and_half (x / 2) 3 (x / 4) 1 (omega arith) refl,
  and_half (x / 4) 1 (x / 8) 0 (omega arith) refl,
  bit_and_zero (x / 8),
)

pub and_eight : (x : ℕ) → bit_and x 8 ≡ x / 8 % 2 * 8
and_eight x = omega (
  arith,
  and_half x 8 (x / 2) 4 (omega arith) refl,
  and_half (x / 2) 4 (x / 4) 2 (omega arith) refl,
  and_half (x / 4) 2 (x / 8) 1 (omega arith) refl,
  and_half (x / 8) 1 (x / 16) 0 (omega arith) refl,
  bit_and_zero (x / 16),
)

and_fifteen : (x : ℕ) → bit_and x 0x0f ≡ x % 16
and_fifteen x = omega (arith, and_half x 15 (x / 2) 7 (omega arith) refl, and_seven (x / 2))

pub and_f7 : (x : ℕ) → bit_and x 0xf7 ≡ x % 8 + x / 16 % 16 * 16
and_f7 x = omega (
  arith,
  and_half x 247 (x / 2) 123 (omega arith) refl,
  and_half (x / 2) 123 (x / 4) 61 (omega arith) refl,
  and_half (x / 4) 61 (x / 8) 30 (omega arith) refl,
  and_half (x / 8) 30 (x / 16) 15 (omega arith) refl,
  and_fifteen (x / 16),
)

-- `(x << 4) | t` for a type's number, and `| 8` on top of it
or_type : (x t : ℕ) → t < 8 → bit_or (x * 16) t ≡ x * 16 + t
or_type x t h = omega (
  arith,
  or_half (x * 16) t (x * 8) (t / 2) (omega arith) refl,
  or_half (x * 8) (t / 2) (x * 4) (t / 4) (omega arith) (omega arith),
  or_half (x * 4) (t / 4) (x * 2) 0 (omega arith) (omega arith),
  bit_or_zero (x * 2),
)

or_eight : (y : ℕ) → y / 8 % 2 ≡ 0 → bit_or y 8 ≡ y + 8
or_eight y h = omega (
  arith,
  or_half y 8 (y / 2) 4 (omega arith) refl,
  or_half (y / 2) 4 (y / 4) 2 (omega arith) refl,
  or_half (y / 4) 2 (y / 8) 1 (omega arith) refl,
  or_half (y / 8) 1 (y / 16) 0 (omega arith) refl,
  bit_or_zero (y / 16),
)

type_bound : (t : ColumnType) → type_as_u8 t < 8
type_bound group = omega arith
type_bound actor = omega arith
type_bound integer = omega arith
type_bound delta_integer = omega arith
type_bound boolean = omega arith
type_bound string = omega arith
type_bound value_metadata = omega arith
type_bound value = omega arith

of_bits-type_as_u8 : (t : ColumnType) → of_bits (type_as_u8 t) ≡ t
of_bits-type_as_u8 group = refl
of_bits-type_as_u8 actor = refl
of_bits-type_as_u8 integer = refl
of_bits-type_as_u8 delta_integer = refl
of_bits-type_as_u8 boolean = refl
of_bits-type_as_u8 string = refl
of_bits-type_as_u8 value_metadata = refl
of_bits-type_as_u8 value = refl

-- The number that `new` makes: without the flag, only the lowest four bits of the id are left.
new_arith :
    (i : ColumnId) (t : ColumnType) (d : Bool)
    → i < 2 ^ 28
    → new i t d ≡ (if d then i * 16 + type_as_u8 t + 8 else i % 16 * 16 + type_as_u8 t)
unfolding new
new_arith i t true h =
    let e : i * 16 % 2 ^ 32 ≡ i * 16 = omega arith in
    rw e (
      omega (
        arith,
        or_type i (type_as_u8 t) (type_bound t),
        type_bound t,
        or_eight (bit_or (i * 16) (type_as_u8 t))
            (omega (arith, or_type i (type_as_u8 t) (type_bound t), type_bound t)),
      ))
new_arith i t false h =
    let e : i * 16 % 2 ^ 32 ≡ i * 16 = omega arith in
    rw e (
      omega (
        arith,
        or_type i (type_as_u8 t) (type_bound t),
        type_bound t,
        and_f7 (bit_or (i * 16) (type_as_u8 t)),
      ))

col_type_arith : (x : ColumnSpec) (t : ColumnType) → x % 8 ≡ type_as_u8 t → col_type x ≡ t
unfolding col_type from_u8
col_type_arith x t h =
    let e : bit_and (x % 256) 7 ≡ type_as_u8 t = omega (arith, and_seven (x % 256), h) in
    ap of_bits e ∙ of_bits-type_as_u8 t

-- The type and the flag of a new specification are the ones given to `new`, and so is its id if the
-- flag is set; without the flag the id is taken modulo 16. The id is below 2^28.
pub new-fields :
    (i : ColumnId) (t : ColumnType) (d : Bool)
    → i < 2 ^ 28
    → (id (new i t d) ≡ (if d then i else i % 16))
      × (col_type (new i t d) ≡ t)
      × (deflate (new i t d) ≡ d)
unfolding id deflate
new-fields i t true h =
    let e = new_arith i t true h in
    (
      omega (arith, e, type_bound t),
      col_type_arith (new i t true) t (omega (arith, e, type_bound t)),
      ground (arith, and_eight (new i t true), e, type_bound t),
    )
new-fields i t false h =
    let e = new_arith i t false h in
    (
      omega (arith, e, type_bound t),
      col_type_arith (new i t false) t (omega (arith, e, type_bound t)),
      ground (arith, and_eight (new i t false), e, type_bound t),
    )

type_as_u8-of_bits : (n : ℕ) → n < 8 → type_as_u8 (of_bits n) ≡ n
type_as_u8-of_bits zero h = refl
type_as_u8-of_bits (suc zero) h = refl
type_as_u8-of_bits (suc (suc zero)) h = refl
type_as_u8-of_bits (suc (suc (suc zero))) h = refl
type_as_u8-of_bits (suc (suc (suc (suc zero)))) h = refl
type_as_u8-of_bits (suc (suc (suc (suc (suc zero))))) h = refl
type_as_u8-of_bits (suc (suc (suc (suc (suc (suc zero)))))) h = refl
type_as_u8-of_bits (suc (suc (suc (suc (suc (suc (suc zero))))))) h = refl
type_as_u8-of_bits (suc (suc (suc (suc (suc (suc (suc (suc n)))))))) h = absurd (omega arith)

type_number : (x : ColumnSpec) → type_as_u8 (col_type x) ≡ x % 8
unfolding col_type from_u8
type_number x =
    ap (λ (n : ℕ). type_as_u8 (of_bits n)) (and_seven (x % 256))
    ∙ type_as_u8-of_bits (x % 256 % 8) (omega arith)
    ∙ omega arith

-- A specification is compressed once `deflated`.
pub deflate-deflated : (x : ColumnSpec) → x < 2 ^ 32 → deflate (deflated x) ≡ true
unfolding deflated id
deflate-deflated x h = (new-fields (x / 16) (col_type x) true (omega arith)).2

-- Deflating an uncompressed specification with an id of four bits and inflating it gives it back.
pub inflated-deflated : (x : ColumnSpec) → x < 256 → deflate x ≡ false → inflated (deflated x) ≡ x
unfolding inflated deflated deflate id
inflated-deflated x h plain =
    let d = new-fields (x / 16) (col_type x) true (omega arith) in
    let low : x / 8 % 2 ≡ 0 = ground (arith, and_eight x, plain) in
    ap (λ (t : ColumnType). new (id (deflated x)) t false) d.1
    ∙ ap (λ (i : ℕ). new i (col_type x) false) d.0
    ∙ new_arith (x / 16) (col_type x) false (omega arith)
    ∙ omega (arith, type_number x, low)
