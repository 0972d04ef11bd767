-- ===== src/Sync/Bloom/Bits.antt =====
-- sync/bloom.rs: the bits of a filter under `set_bit`.
use automerge_r.Common.{
  ℕ, ◌/◌, ◌%◌, ◌^◌, ◌<◌, ◌≡◌, refl, Bool, true, List, [], ◌∷◌, none, some, ◌==◌, ◌&&◌, ◌||◌, not,
  ltb, length, get_elem?, All, arith, Option-cases, bit_and, bit_or, inl, inr, get_elem?-set,
  get_elem?-All, All-set, length-set, ◌∙◌,
}
use automerge_r.Common.Bits.{holds_below, holds_below_sound}
use automerge_r.Sync.Bloom.{set_bit, get_bit, set_bits, check_probes}

-- What the bits of a byte are after one of them has been set, for every byte.
abbrev keeps : ℕ → ℕ → ℕ → Bool
keeps b k j = (bit_and b (2 ^ k) == 0) || not (bit_and (bit_or b (2 ^ j)) (2 ^ k) == 0)

abbrev sets : ℕ → ℕ → Bool
sets b j = not (bit_and (bit_or b (2 ^ j)) (2 ^ j) == 0) && ltb (bit_or b (2 ^ j)) 256

keep_table : holds_below 256 (λ b. holds_below 8 (λ k. holds_below 8 (λ j. keeps b k j))) ≡ true
unfolding holds_below
keep_table = refl

set_table : holds_below 256 (λ b. holds_below 8 (λ j. sets b j)) ≡ true
unfolding holds_below
set_table = refl

keeps_byte : (b k j : ℕ) → b < 256 → k < 8 → j < 8 → keeps b k j ≡ true
keeps_byte b k j hb hk hj =
    holds_below_sound 8 _ j (holds_below_sound 8 _ k (holds_below_sound 256 _ b keep_table hb) hk)
      hj

sets_byte : (b j : ℕ) → b < 256 → j < 8 → sets b j ≡ true
sets_byte b j hb hj = holds_below_sound 8 _ j (holds_below_sound 256 _ b set_table hb) hj

-- What `contains_hash` asks of one probe: the bit is set, or lies outside the filter.
unfoldable pub bit_on : List ℕ → ℕ → Bool
unfolding get_bit
bit_on bits probe = elim (get_bit bits probe) [ none ↦ true | some bit ↦ not (bit == 0) ]

module _ (bits : List ℕ) (all_bytes : All (λ b. b < 256) bits) where
  pub set_bit-bytes : (p : ℕ) → All (λ b. b < 256) (set_bit bits p)
  unfolding set_bit
  set_bit-bytes p = elim (Option-cases (get_elem? bits (p / 8))) [
    | inl e ↦ rw (e, set_bit) all_bytes
    | inr (b, e) ↦
        let hb = get_elem?-All (λ b. b < 256) bits (p / 8) all_bytes e in
        rw (e, set_bit)
          (All-set (λ b. b < 256) bits (p / 8) (bit_or b (2 ^ (p % 8))) all_bytes
            (ground (arith, sets_byte b (p % 8) hb (omega arith))))
  ]

  bit_on-set_bit_self : (p : ℕ) → bit_on (set_bit bits p) p ≡ true
  unfolding bit_on set_bit
  bit_on-set_bit_self p = elim (Option-cases (get_elem? bits (p / 8))) [
    | inl e ↦ ground arith
    | inr (b, e) ↦
        let hb = get_elem?-All (λ b. b < 256) bits (p / 8) all_bytes e in
        ground (
          arith,
          get_elem?-set bits (p / 8) (p / 8) (bit_or b (2 ^ (p % 8))),
          sets_byte b (p % 8) hb (omega arith),
        )
  ]

  bit_on-set_bit_keep : (p q : ℕ) → bit_on bits q ≡ true → bit_on (set_bit bits p) q ≡ true
  unfolding bit_on set_bit
  bit_on-set_bit_keep p q h = elim (Option-cases (get_elem? bits (p / 8))) [
    | inl e ↦ ground arith
    | inr (b, e) ↦
        let hb = get_elem?-All (λ b. b < 256) bits (p / 8) all_bytes e in
        ground (
          arith,
          get_elem?-set bits (p / 8) (q / 8) (bit_or b (2 ^ (p % 8))),
          keeps_byte b (q % 8) (p % 8) hb (omega arith) (omega arith),
        )
  ]

pub set_bits-bytes :
    (probes bits : List ℕ) → All (λ b. b < 256) bits → All (λ b. b < 256) (set_bits bits probes)
unfolding set_bits
set_bits-bytes [] bits h = h
set_bits-bytes (p ∷ ps) bits h = set_bits-bytes ps (set_bit bits p) (set_bit-bytes bits h p)

length-set_bit : (bits : List ℕ) (p : ℕ) → length (set_bit bits p) ≡ length bits
unfolding set_bit
length-set_bit bits p = elim (Option-cases (get_elem? bits (p / 8))) [
  | inl e ↦ rw (e, set_bit)
  | inr (b, e) ↦ rw (e, set_bit) (length-set bits (p / 8) (bit_or b (2 ^ (p % 8))))
]

pub length-set_bits : (probes bits : List ℕ) → length (set_bits bits probes) ≡ length bits
unfolding set_bits
length-set_bits [] bits = refl
length-set_bits (p ∷ ps) bits = length-set_bits ps (set_bit bits p) ∙ length-set_bit bits p

-- The bits of the probes that were set, and those that were on before, are on.
pub set_bits_keep :
    (probes bits : List ℕ) (q : ℕ)
    → All (λ b. b < 256) bits
    → bit_on bits q ≡ true
    → bit_on (set_bits bits probes) q ≡ true
unfolding set_bits
set_bits_keep [] bits q hb h = h
set_bits_keep (p ∷ ps) bits q hb h =
    set_bits_keep ps (set_bit bits p) q (set_bit-bytes bits hb p)
      (bit_on-set_bit_keep bits hb p q h)

pub set_bits_on :
    (probes bits : List ℕ)
    → All (λ b. b < 256) bits
    → All (λ q. bit_on (set_bits bits probes) q ≡ true) probes
unfolding set_bits
set_bits_on [] bits hb = tt
set_bits_on (p ∷ ps) bits hb =
    let hb' = set_bit-bytes bits hb p in
    (
      set_bits_keep ps (set_bit bits p) p hb' (bit_on-set_bit_self bits hb p),
      set_bits_on ps (set_bit bits p) hb',
    )

-- `contains_hash` answers yes exactly if all its probes are on.
pub check_probes-on :
    (probes bits : List ℕ)
    → All (λ q. bit_on bits q ≡ true) probes
    → check_probes bits probes ≡ true
unfolding check_probes bit_on
check_probes-on [] bits h = refl
check_probes-on (p ∷ ps) bits (h, hs) = ground (arith, check_probes-on ps bits hs)
