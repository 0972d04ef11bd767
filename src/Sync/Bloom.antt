-- ===== src/Sync/Bloom.antt =====
-- sync/bloom.rs: the Bloom filter that summarises the changes of a peer. A `u32` wraps as in a
-- release build, and a panic is `none`.
pub mod Bits
pub mod Filter
pub mod Codec
use automerge_r.Common.{
  ℕ, zero, suc, ◌+◌, ◌-◌, ◌*◌, ◌/◌, ◌%◌, ◌^◌, Bool, true, false, List, [], ◌∷◌, ◌++◌, Option, none,
  some, ltb, ◌==◌, if◌then◌else◌, length, get_elem?, set, replicate, ok, ◌>>=◌, bit_and, bit_or,
}
use automerge_r.Parse.Input.{Input, Parser, is_empty, take_n}
use automerge_r.Parse.Leb128.{FromLeb, leb128_u32}
use automerge_r.Parse.Leb128.Writer.{Writer}

-- A hash of a change: 32 bytes.
abbrev pub ChangeHash : Type 0
ChangeHash = List ℕ

abbrev pub bits_per_entry : ℕ
bits_per_entry = 10

abbrev pub probes_per_entry : ℕ
probes_per_entry = 7

pub record BloomFilter : Type 0 where
  pub num_entries : ℕ
  pub num_bits_per_entry : ℕ
  pub num_probes : ℕ
  pub bits : List ℕ

abbrev pub default_filter : BloomFilter
default_filter = record {
  num_entries = 0;
  num_bits_per_entry = bits_per_entry;
  num_probes = probes_per_entry;
  bits = [];
}

-- The source computes the quotient in an f64 and rounds it up, which is exact while the product is
-- below 2 ^ 53. Past that the capacity is more bytes than a slice can hold, in either computation.
unfoldable pub bits_capacity : ℕ → ℕ → ℕ
bits_capacity num_entries num_bits_per_entry = (num_entries * num_bits_per_entry + 7) / 8

unfoldable pub to_bytes : Writer → BloomFilter → List ℕ
to_bytes w b =
    if b.num_entries == 0
    then []
    else w.unsigned b.num_entries
      ++ (w.unsigned b.num_bits_per_entry ++ (w.unsigned b.num_probes ++ b.bits))

unfoldable pub parse_fields : {E : Type 0} ⦃f : FromLeb E⦄ → Parser BloomFilter E
unfolding bits_capacity take_n leb128_u32
parse_fields input = do
  (i₁, num_entries) ← leb128_u32 input
  (i₂, num_bits_per_entry) ← leb128_u32 i₁
  (i₃, num_probes) ← leb128_u32 i₂
  (i₄, bits) ← take_n (bits_capacity num_entries num_bits_per_entry) i₃
  ok (
    i₄,
    record {
      num_entries = num_entries;
      num_bits_per_entry = num_bits_per_entry;
      num_probes = num_probes;
      bits = bits;
    },
  )

unfoldable pub parse : {E : Type 0} ⦃f : FromLeb E⦄ → Parser BloomFilter E
unfolding parse_fields
parse input = if is_empty input then ok (input, default_filter) else parse_fields input

-- Byte `i` of a hash: a hash has all the bytes that are read here.
abbrev pub byte_at : ChangeHash → ℕ → ℕ
byte_at hash i = elim (get_elem? hash i) [ none ↦ 0 | some b ↦ b ]

-- `u32::from_le_bytes` of the four bytes from `i` on
unfoldable pub u32_at : ChangeHash → ℕ → ℕ
u32_at hash i =
    byte_at hash i
    + 2 ^ 8 * byte_at hash (i + 1)
    + 2 ^ 16 * byte_at hash (i + 2)
    + 2 ^ 24 * byte_at hash (i + 3)

-- The rounds of the loop over `1..num_probes`
unfoldable pub more_probes : ℕ → ℕ → ℕ → ℕ → ℕ → List ℕ
more_probes zero x y z modulo = []
more_probes (suc n) x y z modulo =
    let x' = (x + y) % 2 ^ 32 % modulo in x' ∷ more_probes n x' ((y + z) % 2 ^ 32 % modulo) z modulo

-- A remainder by 0 panics.
unfoldable pub get_probes : BloomFilter → ChangeHash → Option (List ℕ)
unfolding u32_at more_probes
get_probes b hash =
    let modulo = 8 * (length b.bits % 2 ^ 32) % 2 ^ 32 in
    let x = u32_at hash 0 % modulo in
    let y = u32_at hash 4 % modulo in
    let z = u32_at hash 8 % modulo in
    if modulo == 0 then none else some (x ∷ more_probes (b.num_probes - 1) x y z modulo)

-- Outside the filter nothing is written.
unfoldable pub set_bit : List ℕ → ℕ → List ℕ
set_bit bits probe = elim (get_elem? bits (probe / 8)) [
  | none ↦ bits
  | some byte ↦ set bits (probe / 8) (bit_or byte (2 ^ (probe % 8)))
]

unfoldable pub get_bit : List ℕ → ℕ → Option ℕ
get_bit bits probe = elim (get_elem? bits (probe / 8)) [
  | none ↦ none
  | some byte ↦ some (bit_and byte (2 ^ (probe % 8)))
]

unfoldable pub set_bits : List ℕ → List ℕ → List ℕ
unfolding set_bit
set_bits bits [] = bits
set_bits bits (probe ∷ probes) = set_bits (set_bit bits probe) probes

unfoldable pub add_hash : BloomFilter → ChangeHash → Option BloomFilter
unfolding get_probes set_bits
add_hash b hash = elim (get_probes b hash) [
  | none ↦ none
  | some probes ↦ some (record b { bits = set_bits b.bits probes })
]

-- The loop of `contains_hash`
unfoldable pub check_probes : List ℕ → List ℕ → Bool
unfolding get_bit
check_probes bits [] = true
check_probes bits (probe ∷ probes) =
    let more = check_probes bits probes in
    elim (get_bit bits probe) [ none ↦ more | some bit ↦ if bit == 0 then false else more ]

unfoldable pub contains_hash : BloomFilter → ChangeHash → Option Bool
unfolding get_probes check_probes
contains_hash b hash =
    if b.num_entries == 0
    then some false
    else elim (get_probes b hash) [ none ↦ none | some probes ↦ some (check_probes b.bits probes) ]

unfoldable pub add_hashes : BloomFilter → List ChangeHash → Option BloomFilter
unfolding add_hash
add_hashes b [] = some b
add_hashes b (hash ∷ hashes) = elim (add_hash b hash) [
  | none ↦ none
  | some b' ↦ add_hashes b' hashes
]

unfoldable pub from_hashes : List ChangeHash → Option BloomFilter
unfolding bits_capacity add_hashes
from_hashes hashes =
    let num_entries = length hashes % 2 ^ 32 in
    add_hashes
      (record {
        num_entries = num_entries;
        num_bits_per_entry = bits_per_entry;
        num_probes = probes_per_entry;
        bits = replicate (bits_capacity num_entries bits_per_entry) 0;
      })
      hashes
