-- ===== src/Columnar/Leb128.antt =====
-- The `leb128` crate's readers, which the decoders call and the program does not contain. Their
-- documented behaviour: seven bits of each byte, lowest first, up to the first byte without its
-- top bit; the sixth bit of that byte is the sign of a signed number.
use automerge_r.Common.{
  ℕ, ◌+◌, ◌-◌, ◌*◌, ◌^◌, ◌≤◌, ◌<◌, ◌≡◌, List, [], ◌∷◌, length, ltb, if◌then◌else◌, Result, ok, err,
  ◌>>=◌, arith,
}
use automerge_r.Common.Int.{ℤ, pos, negsuc}

abbrev pub IsI64 : ℤ → Type 0
IsI64 (pos n) = n < 2 ^ 63
IsI64 (negsuc n) = n < 2 ^ 63

-- The number whose lowest seven bits are `g` and whose others are `z`.
abbrev pub join : ℕ → ℤ → ℤ
join g (pos n) = pos (g + 128 * n)
join g (negsuc n) = negsuc (127 - g + 128 * n)

pub record Reader (E : Type 0) : Type 0 where
  pub unsigned : List ℕ → Result E (ℕ × List ℕ)
  pub signed : List ℕ → Result E (ℤ × List ℕ)
  pub unsigned_last : (b : ℕ) (bs : List ℕ) → b < 128 → unsigned (b ∷ bs) ≡ ok (b, bs)
  pub unsigned_more :
      (g v : ℕ) (bs rest : List ℕ)
      → g < 128
      → unsigned bs ≡ ok (v, rest)
      → length bs ≤ 9 + length rest
      → g + 128 * v < 2 ^ 64
      → unsigned ((g + 128) ∷ bs) ≡ ok (g + 128 * v, rest)
  pub signed_pos : (b : ℕ) (bs : List ℕ) → b < 64 → signed (b ∷ bs) ≡ ok (pos b, bs)
  pub signed_neg : (b : ℕ) (bs : List ℕ) → b < 64 → signed ((127 - b) ∷ bs) ≡ ok (negsuc b, bs)
  pub signed_more :
      (g : ℕ) (z : ℤ) (bs rest : List ℕ)
      → g < 128
      → signed bs ≡ ok (z, rest)
      → length bs ≤ 9 + length rest
      → IsI64 (join g z)
      → signed ((g + 128) ∷ bs) ≡ ok (join g z, rest)

-- A reader that meets the description.
unfoldable pub read_unsigned : {E : Type 0} → E → List ℕ → Result E (ℕ × List ℕ)
read_unsigned e [] = err e
read_unsigned e (b ∷ bs) =
    let more = read_unsigned e bs in
    if ltb b 128 then ok (b, bs) else (more >>= λ r. ok (b - 128 + 128 * r.0, r.1))

unfoldable pub read_signed : {E : Type 0} → E → List ℕ → Result E (ℤ × List ℕ)
read_signed e [] = err e
read_signed e (b ∷ bs) =
    let more = read_signed e bs in
    if ltb b 64
    then ok (pos b, bs)
    else (if ltb b 128
        then ok (negsuc (127 - b), bs)
        else (more >>= λ r. ok (join (b - 128) r.0, r.1)))

module _ {E : Type 0} (e : E) where
  pub unsigned_last : (b : ℕ) (bs : List ℕ) → b < 128 → read_unsigned e (b ∷ bs) ≡ ok (b, bs)
  unfolding read_unsigned
  unsigned_last b bs h = ground arith

  pub unsigned_more :
      (g v : ℕ) (bs rest : List ℕ)
      → read_unsigned e bs ≡ ok (v, rest)
      → read_unsigned e ((g + 128) ∷ bs) ≡ ok (g + 128 * v, rest)
  unfolding read_unsigned
  unsigned_more g v bs rest h = ground arith

  pub signed_pos : (b : ℕ) (bs : List ℕ) → b < 64 → read_signed e (b ∷ bs) ≡ ok (pos b, bs)
  unfolding read_signed
  signed_pos b bs h = ground arith

  pub signed_neg :
      (b : ℕ) (bs : List ℕ) → b < 64 → read_signed e ((127 - b) ∷ bs) ≡ ok (negsuc b, bs)
  unfolding read_signed
  signed_neg b bs h = ground arith

  pub signed_more :
      (g : ℕ) (z : ℤ) (bs rest : List ℕ)
      → read_signed e bs ≡ ok (z, rest)
      → read_signed e ((g + 128) ∷ bs) ≡ ok (join g z, rest)
  unfolding read_signed
  signed_more g z bs rest h = ground arith

  abbrev pub reader : Reader E
  reader = record {
    unsigned = read_unsigned e;
    signed = read_signed e;
    unsigned_last = unsigned_last;
    unsigned_more = λ g v bs rest _ h _ _. unsigned_more g v bs rest h;
    signed_pos = signed_pos;
    signed_neg = signed_neg;
    signed_more = λ g z bs rest _ h _ _. signed_more g z bs rest h;
  }
