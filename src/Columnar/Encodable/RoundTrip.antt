-- ===== src/Columnar/Encodable/RoundTrip.antt =====
-- columnar/encoding/encodable_impls.rs: the readers get back the written integers.
use automerge_r.Common.{
  ℕ, zero, suc, ◌+◌, ◌-◌, ◌*◌, ◌/◌, ◌%◌, ◌^◌, ◌≤◌, ◌<◌, bit_or, ◌≡◌, refl, ap, ◌∙◌, inl, inr, ◌⊎◌,
  true, List, [], ◌∷◌, ◌++◌, ◌==◌, ==_iff, length, length-append, ok, arith,
}
use automerge_r.Common.Bits.{low_bits, holds_below, holds_below_sound}
use automerge_r.Common.Int.{ℤ, pos, negsuc}
use automerge_r.Columnar.Leb128.{Reader, IsI64}
use automerge_r.Columnar.Encodable.{
  low_bits_of_byte, low_bits_of_u64, encode_u64_loop, encode_u64, encode_i64_loop, encode_i64,
  shr_six, shr_one,
}
use native.Mathlib.Nat.{pow-suc}

abbrev pub IsU64 : ℕ → Type 0
IsU64 v = v < 2 ^ 64

or_table : holds_below 256 (λ b. bit_or b 0x80 == b % 128 + 128) ≡ true
unfolding holds_below
or_table = refl

with_top : (b : ℕ) → b < 256 → bit_or b 0x80 ≡ b % 128 + 128
with_top b h = (==_iff _ _).0 (holds_below_sound 256 _ b or_table h)

pub u64_last : (k v : ℕ) → v < 128 → encode_u64_loop (suc k) v ≡ v ∷ []
unfolding encode_u64_loop low_bits_of_u64 low_bits_of_byte
u64_last k v h = ground (arith, low_bits v)

pub u64_more :
    (k v : ℕ) → 128 ≤ v → encode_u64_loop (suc k) v ≡ (v % 128 + 128) ∷ encode_u64_loop k (v / 128)
unfolding encode_u64_loop low_bits_of_u64 low_bits_of_byte
u64_more k v h = ground (arith, low_bits (v % 256), with_top (v % 128))

pub i64_last_pos : (k n : ℕ) → n < 64 → encode_i64_loop (suc k) (pos n) ≡ n ∷ []
unfolding encode_i64_loop
i64_last_pos k n h = ground (arith, low_bits (n % 256))

pub i64_last_neg : (k n : ℕ) → n < 64 → encode_i64_loop (suc k) (negsuc n) ≡ (127 - n) ∷ []
unfolding encode_i64_loop
i64_last_neg k n h = ground (arith, low_bits (255 - n % 256))

pub i64_more_pos :
    (k n : ℕ)
    → 64 ≤ n
    → encode_i64_loop (suc k) (pos n) ≡ (n % 128 + 128) ∷ encode_i64_loop k (pos (n / 128))
unfolding encode_i64_loop
i64_more_pos k n h =
    let e : n / 64 / 2 ≡ n / 128 = omega arith in ground (arith, with_top (n % 256), e)

pub i64_more_neg :
    (k n : ℕ)
    → 64 ≤ n
    → encode_i64_loop (suc k) (negsuc n)
      ≡ (127 - n % 128 + 128) ∷ encode_i64_loop k (negsuc (n / 128))
unfolding encode_i64_loop
i64_more_neg k n h =
    let e : n / 64 / 2 ≡ n / 128 = omega arith in ground (arith, with_top (255 - n % 256), e)

pub small_or_large : (m v : ℕ) → (v < m) ⊎ (m ≤ v)
small_or_large m v = ground arith

length-encode_u64_loop : (k v : ℕ) → length (encode_u64_loop k v) ≤ k
unfolding encode_u64_loop
length-encode_u64_loop zero v = omega arith
length-encode_u64_loop (suc k) v = ground (arith, length-encode_u64_loop k (v / 128))

length-encode_i64_loop : (k : ℕ) (z : ℤ) → length (encode_i64_loop k z) ≤ k
unfolding encode_i64_loop
length-encode_i64_loop zero z = omega arith
length-encode_i64_loop (suc k) z = ground (arith, length-encode_i64_loop k (shr_one (shr_six z)))

short :
    (k : ℕ) (z : ℤ) (rest : List ℕ) → k ≤ 9 → length (encode_i64_loop k z ++ rest) ≤ 9 + length rest
short k z rest h =
    omega (arith, length-encode_i64_loop k z, length-append (encode_i64_loop k z) rest)

module _ {E : Type 0} (r : Reader E) where
  unsigned-encode_u64_loop :
      (k v : ℕ) (rest : List ℕ)
      → k ≤ 9
      → v < 128 ^ suc k
      → IsU64 v
      → r.unsigned (encode_u64_loop (suc k) v ++ rest) ≡ ok (v, rest)
  unsigned-encode_u64_loop zero v rest hk h fits =
      rw (u64_last 0 v (omega arith)) (r.unsigned_last v rest (omega arith))
  unsigned-encode_u64_loop (suc k) v rest hk h fits = elim (small_or_large 128 v) [
    | inl small ↦ rw (u64_last (suc k) v small) (r.unsigned_last v rest small)
    | inr large ↦
        let ih =
          unsigned-encode_u64_loop k (v / 128) rest (omega arith)
            (omega (arith, pow-suc 128 (suc k))) (omega arith) in
        let bs : List ℕ = encode_u64_loop (suc k) (v / 128) ++ rest in
        let short : length bs ≤ 9 + length rest = omega (
          arith,
          length-encode_u64_loop (suc k) (v / 128),
          length-append (encode_u64_loop (suc k) (v / 128)) rest,
        ) in
        let whole : v % 128 + 128 * (v / 128) ≡ v = omega arith in
        rw (u64_more (suc k) v large) (
          r.unsigned_more (v % 128) (v / 128) bs rest (omega arith) ih short (omega arith)
          ∙ ap (λ (t : ℕ). ok (t, rest)) whole)
  ]

  -- What `encode` writes of a `u64`, `read::unsigned` reads, and leaves the bytes after it.
  pub unsigned-encode_u64 :
      (v : ℕ) (rest : List ℕ) → IsU64 v → r.unsigned (encode_u64 v ++ rest) ≡ ok (v, rest)
  unfolding encode_u64
  unsigned-encode_u64 v rest h = unsigned-encode_u64_loop 9 v rest (omega arith) (omega arith) h

  signed-encode_i64_pos :
      (k n : ℕ) (rest : List ℕ)
      → k ≤ 9
      → n < 64 * 128 ^ k
      → n < 2 ^ 63
      → r.signed (encode_i64_loop (suc k) (pos n) ++ rest) ≡ ok (pos n, rest)
  signed-encode_i64_pos zero n rest hk h fits =
      rw (i64_last_pos 0 n (omega arith)) (r.signed_pos n rest (omega arith))
  signed-encode_i64_pos (suc k) n rest hk h fits = elim (small_or_large 64 n) [
    | inl small ↦ rw (i64_last_pos (suc k) n small) (r.signed_pos n rest small)
    | inr large ↦
        let ih =
          signed-encode_i64_pos k (n / 128) rest (omega arith) (omega (arith, pow-suc 128 k))
            (omega arith) in
        let whole : n % 128 + 128 * (n / 128) ≡ n = omega arith in
        rw (i64_more_pos (suc k) n large) (
          r.signed_more (n % 128) (pos (n / 128)) (encode_i64_loop (suc k) (pos (n / 128)) ++ rest)
            rest (omega arith) ih (short (suc k) (pos (n / 128)) rest hk) (omega arith)
          ∙ ap (λ (t : ℕ). ok (pos t, rest)) whole)
  ]

  signed-encode_i64_neg :
      (k n : ℕ) (rest : List ℕ)
      → k ≤ 9
      → n < 64 * 128 ^ k
      → n < 2 ^ 63
      → r.signed (encode_i64_loop (suc k) (negsuc n) ++ rest) ≡ ok (negsuc n, rest)
  signed-encode_i64_neg zero n rest hk h fits =
      rw (i64_last_neg 0 n (omega arith)) (r.signed_neg n rest (omega arith))
  signed-encode_i64_neg (suc k) n rest hk h fits = elim (small_or_large 64 n) [
    | inl small ↦ rw (i64_last_neg (suc k) n small) (r.signed_neg n rest small)
    | inr large ↦
        let ih =
          signed-encode_i64_neg k (n / 128) rest (omega arith) (omega (arith, pow-suc 128 k))
            (omega arith) in
        let whole : 127 - (127 - n % 128) + 128 * (n / 128) ≡ n = omega arith in
        rw (i64_more_neg (suc k) n large) (
          r.signed_more (127 - n % 128) (negsuc (n / 128))
            (encode_i64_loop (suc k) (negsuc (n / 128)) ++ rest) rest (omega arith) ih
            (short (suc k) (negsuc (n / 128)) rest hk) (omega arith)
          ∙ ap (λ (t : ℕ). ok (negsuc t, rest)) whole)
  ]

  -- What `encode` writes of an `i64`, `read::signed` reads, and leaves the bytes after it.
  pub signed-encode_i64 :
      (z : ℤ) (rest : List ℕ) → IsI64 z → r.signed (encode_i64 z ++ rest) ≡ ok (z, rest)
  unfolding encode_i64
  signed-encode_i64 (pos n) rest h = signed-encode_i64_pos 9 n rest (omega arith) (omega arith) h
  signed-encode_i64 (negsuc n) rest h = signed-encode_i64_neg 9 n rest (omega arith) (omega arith) h

pub encode_u64_nonempty : (v : ℕ) → 0 < length (encode_u64 v)
unfolding encode_u64 encode_u64_loop
encode_u64_nonempty v = ground arith

pub encode_i64_nonempty : (z : ℤ) → 0 < length (encode_i64 z)
unfolding encode_i64 encode_i64_loop
encode_i64_nonempty z = ground arith
