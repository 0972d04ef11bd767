-- ===== src/Columnar/Sizes.antt =====
-- columnar/encoding/leb128.rs: the number of bytes that an integer takes, from its bits.
use automerge_r.Common.{
  ℕ, zero, suc, ◌+◌, ◌-◌, ◌*◌, ◌/◌, ◌^◌, ◌≤◌, ◌<◌, ◌≡◌, refl, ap, ◌∙◌, inl, inr, ◌==◌,
  if◌then◌else◌, length, arith,
}
use automerge_r.Common.Int.{ℤ, pos, negsuc}
use automerge_r.Columnar.Leb128.{IsI64}
use automerge_r.Columnar.Encodable.{encode_u64, encode_u64_loop, encode_i64, encode_i64_loop}
use automerge_r.Columnar.Encodable.RoundTrip.{
  IsU64, small_or_large, u64_last, u64_more, i64_last_pos, i64_last_neg, i64_more_pos, i64_more_neg,
}
use automerge_r.Parse.Leb128.RoundTrip.{shift_seven}
use native.Mathlib.Nat.{pow-suc}

-- The number of binary digits.
unfoldable pub bit_length : ℕ → ℕ → ℕ
bit_length zero val = 0
bit_length (suc fuel) val = let more = bit_length fuel (val / 2) in if val == 0 then 0 else suc more

-- `u64::leading_zeros`
abbrev pub leading_zeros : ℕ → ℕ
leading_zeros val = 64 - bit_length 64 val

unfoldable pub leb_bytes : ℕ → ℕ
leb_bytes bits = (bits + 6) / 7

unfoldable pub ulebsize : ℕ → ℕ
ulebsize val = if val == 0 then 1 else leb_bytes (64 - leading_zeros val)

-- `if val < 0 { val = !val }`
abbrev pub magnitude : ℤ → ℕ
magnitude (pos n) = n
magnitude (negsuc n) = n

unfoldable pub lebsize : ℤ → ℕ
lebsize val = leb_bytes (1 + 64 - leading_zeros (magnitude val))

bits_bound : (f m v : ℕ) → v < 2 ^ m → bit_length f v ≤ m
unfolding bit_length
bits_bound zero m v h = omega arith
bits_bound (suc f) zero v h = ground arith
bits_bound (suc f) (suc m) v h = ground (arith, bits_bound f m (v / 2) (omega (arith, pow-suc 2 m)))

pow_positive : (m : ℕ) → 0 < 2 ^ m
pow_positive zero = omega arith
pow_positive (suc m) = omega (arith, pow-suc 2 m, pow_positive m)

bits_low : (f m v : ℕ) → 2 ^ m ≤ v → m < f → m < bit_length f v
unfolding bit_length
bits_low zero m v h lt = absurd (omega arith)
bits_low (suc f) zero v h lt = ground arith
bits_low (suc f) (suc m) v h lt =
    let nz : 0 < v = omega (arith, pow_positive (suc m)) in
    ground (arith, nz, bits_low f m (v / 2) (omega (arith, pow-suc 2 m)) (omega arith))

bits_step : (g f v w : ℕ) → g ≡ suc f → w ≡ v / 2 → 0 < v → bit_length g v ≡ suc (bit_length f w)
unfolding bit_length
bits_step g f v w eg ew h = rw eg (rw ew (ground arith))

-- Seven digits are one group.
bits_seven : (f v : ℕ) → 128 ≤ v → bit_length (f + 7) v ≡ 7 + bit_length f (v / 128)
bits_seven f v h = omega (
  arith,
  bits_step (f + 7) (f + 6) v (v / 2) (omega arith) refl (omega arith),
  bits_step (f + 6) (f + 5) (v / 2) (v / 4) (omega arith) (omega arith) (omega arith),
  bits_step (f + 5) (f + 4) (v / 4) (v / 8) (omega arith) (omega arith) (omega arith),
  bits_step (f + 4) (f + 3) (v / 8) (v / 16) (omega arith) (omega arith) (omega arith),
  bits_step (f + 3) (f + 2) (v / 16) (v / 32) (omega arith) (omega arith) (omega arith),
  bits_step (f + 2) (f + 1) (v / 32) (v / 64) (omega arith) (omega arith) (omega arith),
  bits_step (f + 1) f (v / 64) (v / 128) (omega arith) (omega arith) (omega arith),
)

-- The digits of seven more than `7 * k + 1` bits.
bits_group :
    (k v : ℕ) → 128 ≤ v → bit_length (suc (7 * suc k)) v ≡ 7 + bit_length (suc (7 * k)) (v / 128)
bits_group k v h =
    let e : suc (7 * suc k) ≡ suc (7 * k) + 7 = omega arith in
    ap (λ (t : ℕ). bit_length t v) e ∙ bits_seven (suc (7 * k)) v h

-- From bit 6 on there is a second group.
bits_high :
    (k v : ℕ)
    → 64 ≤ v
    → leb_bytes (1 + bit_length (suc (7 * suc k)) v)
      ≡ suc (leb_bytes (1 + bit_length (suc (7 * k)) (v / 128)))
unfolding leb_bytes
bits_high k v h = elim (small_or_large 128 v) [
  | inl small ↦ omega (
    arith,
    bits_low (suc (7 * suc k)) 6 v h (omega arith),
    bits_bound (suc (7 * suc k)) 7 v small,
    bits_bound (suc (7 * k)) 0 (v / 128) (omega arith),
  )
  | inr large ↦ omega (arith, bits_group k v large)
]

pow_group : (k : ℕ) → 2 ^ suc (7 * suc k) ≡ 128 * 2 ^ suc (7 * k)
pow_group k =
    let e : suc (7 * suc k) ≡ suc (7 * k) + 7 = omega arith in
    ap (λ (t : ℕ). 2 ^ t) e ∙ shift_seven (suc (7 * k))

length-u64_loop :
    (k v : ℕ)
    → 0 < v
    → v < 2 ^ suc (7 * k)
    → length (encode_u64_loop (suc k) v) ≡ leb_bytes (bit_length (suc (7 * k)) v)
unfolding leb_bytes
length-u64_loop zero v nz h = omega (
  arith,
  ap length (u64_last 0 v (omega arith)),
  bits_bound 1 1 v h,
  bits_low 1 0 v nz (omega arith),
)
length-u64_loop (suc k) v nz h = elim (small_or_large 128 v) [
  | inl small ↦ omega (
    arith,
    ap length (u64_last (suc k) v small),
    bits_bound (suc (7 * suc k)) 7 v small,
    bits_low (suc (7 * suc k)) 0 v nz (omega arith),
  )
  | inr large ↦ omega (
    arith,
    ap length (u64_more (suc k) v large),
    bits_group k v large,
    length-u64_loop k (v / 128) (omega arith) (omega (arith, pow_group k)),
  )
]

-- `ulebsize` is the number of bytes that `encode` writes of a `u64`.
pub length-encode_u64 : (v : ℕ) → IsU64 v → length (encode_u64 v) ≡ ulebsize v
unfolding encode_u64 ulebsize
length-encode_u64 zero h = ap length (u64_last 9 0 (omega arith))
length-encode_u64 (suc v) h =
    ground (arith, bits_bound 64 64 (suc v) h, length-u64_loop 9 (suc v) (omega arith) h)

spare_digit :
    (n : ℕ)
    → n < 2 ^ 63
    → leb_bytes (1 + 64 - (64 - bit_length 64 n)) ≡ leb_bytes (1 + bit_length 64 n)
spare_digit n h =
    let bits : bit_length 64 n ≤ 63 = bits_bound 64 63 n h in
    let e : 1 + 64 - (64 - bit_length 64 n) ≡ 1 + bit_length 64 n = omega arith in ap leb_bytes e

length-i64_pos :
    (k n : ℕ)
    → n < 2 ^ (7 * k)
    → length (encode_i64_loop (suc k) (pos n)) ≡ leb_bytes (1 + bit_length (suc (7 * k)) n)
unfolding leb_bytes
length-i64_pos zero n h =
    omega (arith, ap length (i64_last_pos 0 n (omega arith)), bits_bound 1 0 n (omega arith))
length-i64_pos (suc k) n h = elim (small_or_large 64 n) [
  | inl small ↦
      omega
        (arith, ap length (i64_last_pos (suc k) n small), bits_bound (suc (7 * suc k)) 6 n small)
  | inr large ↦ omega (
    arith,
    ap length (i64_more_pos (suc k) n large),
    bits_high k n large,
    length-i64_pos k (n / 128)
        (omega (arith, pow_group k, pow-suc 2 (7 * k), pow-suc 2 (7 * suc k))),
  )
]

length-i64_neg :
    (k n : ℕ)
    → n < 2 ^ (7 * k)
    → length (encode_i64_loop (suc k) (negsuc n)) ≡ leb_bytes (1 + bit_length (suc (7 * k)) n)
unfolding leb_bytes
length-i64_neg zero n h =
    omega (arith, ap length (i64_last_neg 0 n (omega arith)), bits_bound 1 0 n (omega arith))
length-i64_neg (suc k) n h = elim (small_or_large 64 n) [
  | inl small ↦
      omega
        (arith, ap length (i64_last_neg (suc k) n small), bits_bound (suc (7 * suc k)) 6 n small)
  | inr large ↦ omega (
    arith,
    ap length (i64_more_neg (suc k) n large),
    bits_high k n large,
    length-i64_neg k (n / 128)
        (omega (arith, pow_group k, pow-suc 2 (7 * k), pow-suc 2 (7 * suc k))),
  )
]

-- `lebsize` is the number of bytes that `encode` writes of an `i64`.
pub length-encode_i64 : (z : ℤ) → IsI64 z → length (encode_i64 z) ≡ lebsize z
unfolding encode_i64 lebsize
length-encode_i64 (pos n) h =
    omega (arith, bits_bound 64 63 n h, length-i64_pos 9 n h, spare_digit n h)
length-encode_i64 (negsuc n) h =
    omega (arith, bits_bound 64 63 n h, length-i64_neg 9 n h, spare_digit n h)
