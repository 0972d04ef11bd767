-- ===== src/Common/Bits.antt =====
-- `|`, `&` and shifts on unsigned words, as arithmetic.
use Prim.Native.Nat.{
  ℕ, zero, suc, ◌+◌, ◌*◌, ◌/◌, ◌%◌, ◌^◌, ◌≤◌, ◌<◌, max, bit_and, bit_or, digits, bit_or-bitwise,
  bit_and-bitwise, min,
}
use mathlib.Core.Path.{◌≡◌, refl, sym, ap, ◌∙◌}
use mathlib.Core.Bool.{Bool, true, false, ◌&&◌}
use native.Mathlib.Nat.{pow-suc}
use native.Mathlib.Omega.{arith}
use Prim.Native.Nat.{compare, Ordering}

-- A check of every value below a bound, by evaluation.
unfoldable pub holds_below : ℕ → (ℕ → Bool) → Bool
holds_below zero p = true
holds_below (suc n) p = holds_below n p && p n

pub holds_below_sound : (n : ℕ) (p : ℕ → Bool) (x : ℕ) → holds_below n p ≡ true → x < n → p x ≡ true
unfolding holds_below
holds_below_sound zero p x h lt = absurd (omega arith)
holds_below_sound (suc n) p x h lt = ground (arith, holds_below_sound n p x)

abbrev eqb : ℕ → ℕ → Bool
eqb a b = elim (compare a b) [ Ordering.eq ↦ true | _ ↦ false ]

eqb→eq : (a b : ℕ) → eqb a b ≡ true → a ≡ b
eqb→eq a b h = ground arith

low_table : holds_below 256 (λ b. eqb (bit_and b 0x7f) (b % 128)) ≡ true
unfolding holds_below
low_table = refl

top_table : holds_below 256 (λ b. eqb (bit_and b 0x80) (b / 128 * 128)) ≡ true
unfolding holds_below
top_table = refl

-- `byte & 0x7f` and `byte & 0x80`
pub low_bits : (b : ℕ) → b < 256 → bit_and b 0x7f ≡ b % 128
low_bits b h = eqb→eq _ _ (holds_below_sound 256 _ b low_table h)

pub top_bit : (b : ℕ) → b < 256 → bit_and b 0x80 ≡ b / 128 * 128
top_bit b h = eqb→eq _ _ (holds_below_sound 256 _ b top_table h)

-- The recursion on binary digits that `&` and `|` stand for does not depend on its count, once that
-- is enough for the first number.
module _ (z : ℕ → ℕ) (f : ℕ → ℕ → ℕ) where
  no_digits : (count y : ℕ) → digits z f count 0 y ≡ z y
  no_digits zero y = refl
  no_digits (suc count) y = refl

  enough_digits :
      (count other x y : ℕ) → x ≤ count → x ≤ other → digits z f count x y ≡ digits z f other x y
  enough_digits count other zero y hc ho = no_digits count y ∙ sym (no_digits other y)
  enough_digits zero other (suc x) y hc ho = absurd (omega arith)
  enough_digits (suc count) zero (suc x) y hc ho = absurd (omega arith)
  enough_digits (suc count) (suc other) (suc x) y hc ho =
      let half = suc x / 2 in
      let rest = enough_digits count other half (y / 2) (omega arith) (omega arith) in
      ap (λ (t : ℕ). t * 2 + f (suc x % 2) (y % 2)) rest

  -- An operation that the recursion stands for, by the lowest digit and the others.
  halves :
      (op : ℕ → ℕ → ℕ)
      → ((x y : ℕ) → op x y ≡ digits z f x x y)
      → ((y : ℕ) → z y ≡ f 0 (y % 2) + 2 * z (y / 2))
      → (x y : ℕ) → op x y ≡ f (x % 2) (y % 2) + 2 * op (x / 2) (y / 2)
  halves op means ends zero y = omega (arith, means 0 y, means 0 (y / 2), ends y)
  halves op means ends (suc x) y =
      let half = suc x / 2 in
      let rest = enough_digits x half half (y / 2) (omega arith) (omega arith) in
      omega (arith, means (suc x) y, means half (y / 2), rest)

pub or_halves : (x y : ℕ) → bit_or x y ≡ max (x % 2) (y % 2) + 2 * bit_or (x / 2) (y / 2)
or_halves = halves (λ y. y) max bit_or bit_or-bitwise (λ y. omega arith)

pub and_halves : (x y : ℕ) → bit_and x y ≡ min (x % 2) (y % 2) + 2 * bit_and (x / 2) (y / 2)
and_halves = halves (λ y. 0) min bit_and bit_and-bitwise (λ y. omega arith)

nothing_or : (y : ℕ) → bit_or 0 y ≡ y
nothing_or y = bit_or-bitwise 0 y

shift_suc : (q s : ℕ) → q * 2 ^ suc s ≡ 2 * (q * 2 ^ s)
shift_suc q s = omega (arith, ap (λ (t : ℕ). q * t) (pow-suc 2 s))

-- `a | (q << s)` is a sum where `a` has no bit from `s` on.
pub bit_or_shifted : (s a q : ℕ) → a < 2 ^ s → bit_or a (q * 2 ^ s) ≡ a + q * 2 ^ s
bit_or_shifted zero zero q h = omega (arith, nothing_or (q * 2 ^ 0))
bit_or_shifted zero (suc a) q h = absurd (omega arith)
bit_or_shifted (suc s) a q h = ground (
  arith,
  or_halves a (q * 2 ^ suc s),
  shift_suc q s,
  pow-suc 2 s,
  bit_or_shifted s (a / 2) q (omega (arith, pow-suc 2 s)),
)

or_nothing : (count x : ℕ) → x < count → bit_or x 0 ≡ x
or_nothing zero x h = absurd (omega arith)
or_nothing (suc count) zero h = nothing_or 0
or_nothing (suc count) (suc x) h =
    omega (arith, or_halves (suc x) 0, or_nothing count (suc x / 2) (omega arith))

pub bit_or_zero : (x : ℕ) → bit_or x 0 ≡ x
bit_or_zero x = or_nothing (suc x) x (omega arith)

and_nothing : (count x : ℕ) → x < count → bit_and x 0 ≡ 0
and_nothing zero x h = absurd (omega arith)
and_nothing (suc count) zero h = bit_and-bitwise 0 0
and_nothing (suc count) (suc x) h =
    omega (arith, and_halves (suc x) 0, and_nothing count (suc x / 2) (omega arith))

pub bit_and_zero : (x : ℕ) → bit_and x 0 ≡ 0
bit_and_zero x = and_nothing (suc x) x (omega arith)
