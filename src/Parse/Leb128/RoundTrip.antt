-- ===== src/Parse/Leb128/RoundTrip.antt =====
-- storage/parse/leb128.rs: `leb128_u64` reads back what the writer wrote.
use automerge_r.Common.{
  ℕ, zero, suc, ◌+◌, ◌*◌, ◌/◌, ◌%◌, ◌^◌, ◌≤◌, ◌<◌, ◌≡◌, ap, ◌∙◌, inl, inr, List, ◌∷◌, ◌++◌, length,
  arith, ok,
}
use automerge_r.Common.Bits.{low_bits, top_bit, bit_or_shifted}
use automerge_r.Parse.Input.{Input, advance}
use automerge_r.Parse.Leb128.{FromLeb, u64_loop, leb128_u64}
use automerge_r.Parse.Leb128.Writer.{Writer, IsU64, small_or_large}
use native.Mathlib.Numerals.{towards_suc}
use native.Mathlib.Nat.{div-add-mod}

pub shift_seven : (s : ℕ) → 2 ^ (s + 7) ≡ 128 * 2 ^ s
shift_seven s = simp towards_suc (omega arith)

-- The lowest group of `v` and the other groups, shifted by `s`.
pub split_group : (v s : ℕ) → v * 2 ^ s ≡ v % 128 * 2 ^ s + v / 128 * 2 ^ (s + 7)
split_group v s = omega (
  arith,
  ap (λ (t : ℕ). t * 2 ^ s) (div-add-mod v 128),
  ap (λ (t : ℕ). v / 128 * t) (shift_seven s),
)

-- A group of seven bits at bit `s` stays below bit `s + 7`.
mod_room : (v s : ℕ) → v % 128 * 2 ^ s ≤ 127 * 2 ^ s
mod_room v s = grind arith

-- From bit 58 on only the tenth byte is left, and it holds one bit.
top_group : (k j v res s : ℕ) → j + k ≡ 9 → s ≡ 7 * j → 57 < s → IsU64 (res + v * 2 ^ s) → v ≤ 1
top_group k j v res s hj hs late fits =
    let e : s ≡ 63 = omega arith in omega (arith, ap (λ (t : ℕ). v * 2 ^ t) e)

module _ {E : Type 0} ⦃f : FromLeb E⦄ where
  -- A byte without its top bit ends the loop, and one with it goes on.
  last_byte :
      (v res s p : ℕ) (rest orig : List ℕ)
      → v < 128
      → res < 2 ^ s
      → (0 < s → 0 < v)
      → (57 < s → v ≤ 1)
      → IsU64 (res + v * 2 ^ s)
      → u64_loop {E = E} (v ∷ rest) p orig res s
        ≡ ok (record { bytes = rest; position = p + 1; original = orig }, res + v * 2 ^ s)
  unfolding u64_loop
  last_byte v res s p rest orig hv hr nz top fits =
      ground (arith, low_bits v, top_bit v, bit_or_shifted s res v)

  inner_byte :
      (g res s p : ℕ) (rest orig : List ℕ)
      → g < 128
      → res < 2 ^ s
      → s + 7 ≤ 63
      → IsU64 (res + g * 2 ^ s)
      → u64_loop {E = E} ((g + 128) ∷ rest) p orig res s
        ≡ u64_loop rest (p + 1) orig (res + g * 2 ^ s) (s + 7)
  unfolding u64_loop
  inner_byte g res s p rest orig hg hr hs fits =
      ground (arith, low_bits (g + 128), top_bit (g + 128), bit_or_shifted s res g)

  -- `v` is what is still to be read, and it counts from bit `s` on.
  u64_loop-unsigned :
      (w : Writer) (k j v res s p : ℕ) (rest orig : List ℕ)
      → j + k ≡ 9
      → s ≡ 7 * j
      → res < 2 ^ s
      → (0 < s → 0 < v)
      → IsU64 (res + v * 2 ^ s)
      → u64_loop {E = E} (w.unsigned v ++ rest) p orig res s
        ≡ ok (
          record { bytes = rest; position = p + length (w.unsigned v); original = orig },
          res + v * 2 ^ s,
        )
  u64_loop-unsigned w zero j v res s p rest orig hj hs hr nz fits =
      let tiny = top_group zero j v res s hj hs (omega arith) fits in
      rw (w.last_group v (omega arith))
        (last_byte v res s p rest orig (omega arith) hr nz (λ _. tiny) fits)
  u64_loop-unsigned w (suc k) j v res s p rest orig hj hs hr nz fits = elim (small_or_large v) [
    | inl small ↦ rw (w.last_group v small) (
        last_byte v res s p rest orig small hr nz
          (λ late. top_group (suc k) j v res s hj hs late fits) fits)
    | inr large ↦
        let split = split_group v s in
        let seven = shift_seven s in
        let ih =
          u64_loop-unsigned w k (j + 1) (v / 128) (res + v % 128 * 2 ^ s) (s + 7) (p + 1) rest orig
            (omega arith) (omega arith) (omega (arith, seven, mod_room v s)) (λ _. omega arith)
            (omega (arith, split)) in
        rw (w.more_groups v large) (
          inner_byte (v % 128) res s p (w.unsigned (v / 128) ++ rest) orig (omega arith) hr
            (omega arith) (omega (arith, split))
          ∙ ground (arith, ih, split))
  ]

  -- `leb128_u64` reads back every u64 that the writer wrote, whatever follows it, and leaves the
  -- input just after it.
  pub leb128_u64-unsigned :
      (w : Writer) (v : ℕ) (i : Input) (rest : List ℕ)
      → IsU64 v
      → i.bytes ≡ w.unsigned v ++ rest
      → leb128_u64 {E = E} i ≡ ok (advance i rest (length (w.unsigned v)), v)
  unfolding leb128_u64
  leb128_u64-unsigned w v i rest h e = rw e (
      u64_loop-unsigned w 9 0 v 0 0 i.position rest i.original (omega arith) (omega arith)
        (omega arith) (λ z. absurd (omega arith)) (omega arith)
      ∙ ground arith)
