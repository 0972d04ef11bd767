-- ===== src/Parse/Leb128/Canonical.antt =====
-- storage/parse/leb128.rs: `leb128_u64` accepts nothing but what the writer writes.
use automerge_r.Common.{
  ℕ, ◌+◌, ◌-◌, ◌*◌, ◌/◌, ◌%◌, ◌^◌, ◌≤◌, ◌<◌, ◌≡◌, ap, ◌∙◌, inl, inr, List, [], ◌∷◌, ◌++◌, length,
  All, arith, ok, ◌⊎◌,
}
use automerge_r.Common.Bits.{low_bits, top_bit, bit_or_shifted}
use automerge_r.Parse.Input.{Input, advance}
use automerge_r.Parse.Leb128.{FromLeb, u64_loop, leb128_u64}
use automerge_r.Parse.Leb128.Writer.{Writer, IsByte, IsU64, small_or_large}
use automerge_r.Parse.Leb128.RoundTrip.{shift_seven}
use native.Mathlib.Nat.{pow-le-pow_right}

early_or_late : (s : ℕ) → (s ≤ 57) ⊎ (57 < s)
early_or_late s = ground arith

room_below : (res x t : ℕ) → x < 128 → t ≤ 2 ^ 56 → res < t → res + x * t < 2 ^ 64
room_below res x t h k r = grind arith

-- A group that the loop reads at bit `s` has room in a u64, with the bits before it.
group_fits :
    (j s x res : ℕ)
    → s ≡ 7 * j
    → j ≤ 9
    → x < 128
    → (57 < s → x ≤ 1)
    → res < 2 ^ s
    → res + x * 2 ^ s < 2 ^ 64
group_fits j s x res hs hj hx top hr = elim (early_or_late s) [
  | inl early ↦
      let small = pow-le-pow_right {n = 2} (omega arith) {i = s} {j = 56} (omega arith) in
      room_below res x (2 ^ s) hx small hr
  | inr late ↦
      let e : s ≡ 63 = omega arith in
      omega (arith, top late, ap (λ (t : ℕ). x * 2 ^ t) e, ap (λ (t : ℕ). 2 ^ t) e)
]

times_le : (x t : ℕ) → x ≤ 127 → x * t ≤ 127 * t
times_le x t h = grind arith

inner_room : (b s : ℕ) → b < 256 → (b - 128) * 2 ^ s ≤ 127 * 2 ^ s
inner_room b s h = times_le (b - 128) (2 ^ s) (omega arith)

-- What the loop has read when it ends in the value `v`.
record Read (w : Writer) (bs : List ℕ) (res s p v : ℕ) (orig : List ℕ) (i : Input) : Type 0 where
  number : ℕ
  value : v ≡ res + number * 2 ^ s
  fits : IsU64 v
  shortest : 0 < s → 0 < number
  written : bs ≡ w.unsigned number ++ i.bytes
  left : i ≡ record { bytes = i.bytes; position = p + length (w.unsigned number); original = orig }

-- A first byte with its top bit set, before what the other rounds have read.
Read-join :
    (w : Writer) (b res s p v : ℕ) (bs orig : List ℕ) (i : Input)
    → 128 ≤ b
    → b < 256
    → Read w bs (res + (b - 128) * 2 ^ s) (s + 7) (p + 1) v orig i
    → Read w (b ∷ bs) res s p v orig i
Read-join w b res s p v bs orig i large hb r =
    let x = b - 128 + 128 * r.number in
    let pos = r.shortest (omega arith) in
    let low : x % 128 + 128 ≡ b = omega arith in
    let high : x / 128 ≡ r.number = omega arith in
    let e : w.unsigned x ≡ b ∷ w.unsigned r.number =
      w.more_groups x (omega arith) ∙ ground (arith, low, high) in
    record {
      number = x;
      value = omega (arith, ap (λ (t : ℕ). r.number * t) (shift_seven s));
      fits = r.fits;
      shortest = λ _. omega arith;
      written = rw e (ap (◌∷◌ b) r.written);
      left = rw e ground arith;
    }

module _ {E : Type 0} ⦃f : FromLeb E⦄ where
  -- What the first round has read, where the loop ends in a value.
  round_cases :
      (j b res s p v : ℕ) (bs orig : List ℕ) (i : Input)
      → b < 256
      → res < 2 ^ s
      → s ≡ 7 * j
      → j ≤ 9
      → u64_loop {E = E} (b ∷ bs) p orig res s ≡ ok (i, v)
      → ((b < 128)
          × (0 < s → 0 < b)
          × (57 < s → b ≤ 1)
          × (i ≡ record { bytes = bs; position = p + 1; original = orig })
          × (v ≡ res + b * 2 ^ s))
        ⊎ ((128 ≤ b)
            × (s ≤ 57)
            × (u64_loop {E = E} bs (p + 1) orig (res + (b - 128) * 2 ^ s) (s + 7) ≡ ok (i, v)))
  unfolding u64_loop
  round_cases j b res s p v bs orig i hb hr hs hj e = elim (small_or_large b) [
    | inl small ↦ inl (
      small,
      ground (
        arith,
        low_bits b,
        top_bit b,
        bit_or_shifted s res (b % 128),
        group_fits j s (b % 128) res,
      ),
      ground (
        arith,
        low_bits b,
        top_bit b,
        bit_or_shifted s res (b % 128),
        group_fits j s (b % 128) res,
      ),
      ground (
        arith,
        low_bits b,
        top_bit b,
        bit_or_shifted s res (b % 128),
        group_fits j s (b % 128) res,
      ),
      ground (
        arith,
        low_bits b,
        top_bit b,
        bit_or_shifted s res (b % 128),
        group_fits j s (b % 128) res,
      ),
    )
    | inr large ↦ inr (
      large,
      ground (
        arith,
        low_bits b,
        top_bit b,
        bit_or_shifted s res (b % 128),
        group_fits j s (b % 128) res,
      ),
      ground (
        arith,
        low_bits b,
        top_bit b,
        bit_or_shifted s res (b % 128),
        group_fits j s (b % 128) res,
      ),
    )
  ]

  u64_loop-canonical :
      (w : Writer) (bs : List ℕ) (j res s p v : ℕ) (orig : List ℕ) (i : Input)
      → All IsByte bs
      → res < 2 ^ s
      → s ≡ 7 * j
      → j ≤ 9
      → u64_loop {E = E} bs p orig res s ≡ ok (i, v)
      → Read w bs res s p v orig i
  u64_loop-canonical w [] j res s p v orig i hb hr hs hj e = unfold u64_loop in cc
  u64_loop-canonical w (b ∷ bs) j res s p v orig i (hb, hbs) hr hs hj e =
      elim (round_cases j b res s p v bs orig i hb hr hs hj e) [
        | inl (small, nz, top, ei, ev) ↦ record {
          number = b;
          value = ev;
          fits = omega (arith, group_fits j s b res hs hj small top hr);
          shortest = nz;
          written = rw (w.last_group b small) (ground arith);
          left = rw (w.last_group b small) (ground arith);
        }
        | inr (large, early, more) ↦
            let ih =
              u64_loop-canonical w bs (j + 1) (res + (b - 128) * 2 ^ s) (s + 7) (p + 1) v orig i hbs
                (omega (arith, shift_seven s, inner_room b s hb)) (omega arith) (omega arith)
                more in
            Read-join w b res s p v bs orig i large hb ih
      ]

-- Whatever `leb128_u64` accepts is a u64 in the one form that the writer gives it, followed by
-- what is left to read: padded forms and numbers past 64 bits are refused.
pub leb128_u64-canonical :
    {E : Type 0} ⦃f : FromLeb E⦄ (w : Writer) (i i' : Input) (v : ℕ)
    → All IsByte i.bytes
    → leb128_u64 {E = E} i ≡ ok (i', v)
    → IsU64 v
      × (i.bytes ≡ w.unsigned v ++ i'.bytes)
      × (i' ≡ advance i i'.bytes (length (w.unsigned v)))
unfolding leb128_u64
leb128_u64-canonical w i i' v hb e =
    let r =
      u64_loop-canonical w i.bytes 0 0 0 i.position v i.original i' hb (omega arith) (omega arith)
        (omega arith) e in
    let n : v ≡ r.number = omega (arith, r.value) in (r.fits, rw n r.written, rw n r.left)
