-- ===== src/Sync/Bloom/Codec.antt =====
-- sync/bloom.rs: `to_bytes` and `parse`.
use automerge_r.Common.{
  ℕ, ◌^◌, ◌<◌, ◌≡◌, refl, sym, ◌∙◌, false, List, [], ◌++◌, none, if◌then◌else◌, length, arith, ok,
  append-nil, ltb, lt→ltb, ◌≢◌,
}
use native.Mathlib.Decide.{ℕ_discrete}
use automerge_r.Parse.Input.{Input, new, advance, take_n, is_empty}
use automerge_r.Parse.Leb128.{FromLeb, leb128_u32}
use automerge_r.Parse.Leb128.Writer.{Writer, unsigned_shape}
use automerge_r.Parse.Combinators.Reads.{
  Reads, Reads-bind, Reads-ok, Reads-cast, is_empty-append, take_n-Reads, leb128_u64-Reads,
}
use automerge_r.Sync.Bloom.{
  ChangeHash, BloomFilter, default_filter, bits_capacity, to_bytes, parse_fields, parse, get_probes,
  contains_hash,
}

-- What `to_bytes` keeps: the numbers fit a u32, and the bits have the capacity that they give. A
-- filter without entries is the default one.
pub record IsWritten (b : BloomFilter) : Type 0 where
  pub entries : b.num_entries < 2 ^ 32
  pub per_entry : b.num_bits_per_entry < 2 ^ 32
  pub probes : b.num_probes < 2 ^ 32
  pub capacity : length b.bits ≡ bits_capacity b.num_entries b.num_bits_per_entry
  pub no_entries : b.num_entries ≡ 0 → b ≡ default_filter

-- The three numbers and the bits.
fields : Writer → BloomFilter → List ℕ
fields w b =
    w.unsigned b.num_entries
    ++ (w.unsigned b.num_bits_per_entry ++ (w.unsigned b.num_probes ++ (b.bits ++ [])))

to_bytes-fields : (w : Writer) (b : BloomFilter) → b.num_entries ≢ 0 → to_bytes w b ≡ fields w b
unfolding to_bytes fields
to_bytes-fields w b nz = ground (arith, append-nil b.bits)

module _ {E : Type 0} ⦃f : FromLeb E⦄ (w : Writer) where
  leb128_u32-Reads : (v : ℕ) → v < 2 ^ 32 → Reads {E = E} leb128_u32 (w.unsigned v) v
  unfolding leb128_u32
  leb128_u32-Reads v h = Reads-cast (append-nil (w.unsigned v)) (
      Reads-bind (λ n i. if ltb n (2 ^ 32) then ok (i, n) else _)
        (leb128_u64-Reads w v (omega arith)) (rw (lt→ltb v (2 ^ 32) h) (Reads-ok v)))

  parse_default :
      parse {E = E} (new (to_bytes w default_filter))
      ≡ ok (
        advance (new (to_bytes w default_filter)) [] (length (to_bytes w default_filter)),
        default_filter,
      )
  unfolding parse to_bytes
  parse_default = refl

  bits-Reads :
      (b : BloomFilter)
      → IsWritten b
      → Reads {E = E} (take_n (bits_capacity b.num_entries b.num_bits_per_entry)) b.bits b.bits
  bits-Reads b h = rw (← h.capacity) (take_n-Reads b.bits)

  parse_fields-Reads : (b : BloomFilter) → IsWritten b → Reads {E = E} parse_fields (fields w b) b
  unfolding parse_fields fields
  parse_fields-Reads b h = Reads-bind _ (leb128_u32-Reads b.num_entries h.entries) (
      Reads-bind _ (leb128_u32-Reads b.num_bits_per_entry h.per_entry) (
        Reads-bind _ (leb128_u32-Reads b.num_probes h.probes)
          (Reads-bind _ (bits-Reads b h) (Reads-ok b))))

  parse_more : (i : Input) → is_empty i ≡ false → parse {E = E} i ≡ parse_fields i
  unfolding parse
  parse_more i h = ground arith

  parse_written :
      (b : BloomFilter)
      → IsWritten b
      → b.num_entries ≢ 0
      → parse {E = E} (new (to_bytes w b))
        ≡ ok (advance (new (to_bytes w b)) [] (length (to_bytes w b)), b)
  unfolding fields
  parse_written b h nz = rw (to_bytes-fields w b nz) (
      parse_more (new (fields w b)) (
        is_empty-append (new (fields w b)) (w.unsigned b.num_entries) _ refl
          (unsigned_shape w b.num_entries (omega arith)).1)
      ∙ (parse_fields-Reads b h).run (new (fields w b)) [] (sym (append-nil (fields w b))))

  -- `parse` reads back every well-formed filter from the bytes of `to_bytes`, and uses them all.
  pub parse-to_bytes :
      (b : BloomFilter)
      → IsWritten b
      → parse {E = E} (new (to_bytes w b))
        ≡ ok (advance (new (to_bytes w b)) [] (length (to_bytes w b)), b)
  parse-to_bytes b h = elim (ℕ_discrete b.num_entries 0) [
    | yes z ↦ rw (h.no_entries z) parse_default
    | no nz ↦ parse_written b h nz
  ]

panics :
    (b : BloomFilter) (hash : ChangeHash)
    → 0 < b.num_entries
    → b.bits ≡ []
    → contains_hash b hash ≡ none
unfolding contains_hash get_probes
panics b hash h e = ground arith

-- A filter that claims entries and has no bits.
abbrev pub bitless : ℕ → ℕ → BloomFilter
bitless n p = record { num_entries = n; num_bits_per_entry = 0; num_probes = p; bits = [] }

bitless-IsWritten : (n p : ℕ) → 0 < n → n < 2 ^ 32 → p < 2 ^ 32 → IsWritten (bitless n p)
unfolding bits_capacity
bitless-IsWritten n p h hn hp = record {
  entries = hn;
  per_entry = omega arith;
  probes = hp;
  capacity = omega arith;
  no_entries = λ e. absurd (omega arith);
}

-- A peer can send a filter that claims entries and has no bits: `parse` accepts its bytes, and
-- `contains_hash` then takes a remainder by 0 and panics, whatever the hash.
pub contains_hash_panics :
    {E : Type 0} ⦃f : FromLeb E⦄ (w : Writer) (n p : ℕ) (hash : ChangeHash)
    → 0 < n
    → n < 2 ^ 32
    → p < 2 ^ 32
    → (parse {E = E} (new (to_bytes w (bitless n p)))
        ≡ ok (
          advance (new (to_bytes w (bitless n p))) [] (length (to_bytes w (bitless n p))),
          bitless n p,
        ))
      × (contains_hash (bitless n p) hash ≡ none)
contains_hash_panics w n p hash h hn hp = (
  parse-to_bytes w (bitless n p) (bitless-IsWritten n p h hn hp),
  panics (bitless n p) hash h refl,
)
