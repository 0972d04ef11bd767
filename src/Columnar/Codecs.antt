-- ===== src/Columnar/Codecs.antt =====
-- columnar/encoding/encodable_impls.rs and decodable_impls.rs: the integers as values of a column.
use automerge_r.Common.{ℕ, ◌≡◌, Bool, true, false, ◌==◌, ==_iff, ap}
use automerge_r.Common.Int.{ℤ, pos, negsuc}
use automerge_r.Columnar.Leb128.{Reader, IsI64}
use automerge_r.Columnar.Encodable.{encode_u64, encode_i64}
use automerge_r.Columnar.Encodable.RoundTrip.{
  IsU64, unsigned-encode_u64, signed-encode_i64, encode_u64_nonempty, encode_i64_nonempty,
}
use automerge_r.Columnar.Raw.{Codec}

-- `==` of `i64`
abbrev pub eq_ℤ : ℤ → ℤ → Bool
eq_ℤ (pos m) (pos n) = m == n
eq_ℤ (negsuc m) (negsuc n) = m == n
eq_ℤ _ _ = false

pub eq_ℤ_sound : (a b : ℤ) → eq_ℤ a b ≡ true → a ≡ b
eq_ℤ_sound (pos m) (pos n) h = ap pos ((==_iff m n).0 h)
eq_ℤ_sound (pos m) (negsuc n) h = absurd (cc)
eq_ℤ_sound (negsuc m) (pos n) h = absurd (cc)
eq_ℤ_sound (negsuc m) (negsuc n) h = ap negsuc ((==_iff m n).0 h)

module _ {E : Type 0} (r : Reader E) where
  unfoldable pub u64_codec : Codec E ℕ
  u64_codec = record {
    encode = encode_u64;
    decode = r.unsigned;
    eq = λ a b. a == b;
    IsEncodable = IsU64;
    decode-encode = unsigned-encode_u64 r;
    encode_nonempty = encode_u64_nonempty;
    eq_sound = λ a b h. (==_iff a b).0 h;
  }

  unfoldable pub i64_codec : Codec E ℤ
  i64_codec = record {
    encode = encode_i64;
    decode = r.signed;
    eq = eq_ℤ;
    IsEncodable = IsI64;
    decode-encode = signed-encode_i64 r;
    encode_nonempty = encode_i64_nonempty;
    eq_sound = eq_ℤ_sound;
  }
