-- ===== src/Columnar/Raw.antt =====
-- columnar/encoding/raw.rs: a decoder of consecutive values, and what a value type gives it
-- (`Encodable`, `Decodable` and `PartialEq`).
pub mod Position
use automerge_r.Common.{
  ℕ, zero, suc, ◌+◌, ◌-◌, ◌<◌, ◌≤◌, ◌≡◌, Bool, true, false, List, [], ◌∷◌, ◌++◌, length, ltb, leb,
  ◌==◌, if◌then◌else◌, take, drop, Result, ok, err, ◌>>=◌,
}

-- The trait impls of a value type. `IsEncodable` is the range of the type.
pub record Codec (E T : Type 0) : Type 1 where
  pub encode : T → List ℕ
  pub decode : List ℕ → Result E (T × List ℕ)
  pub eq : T → T → Bool
  pub IsEncodable : T → Type 0
  pub decode-encode :
      (v : T) (rest : List ℕ) → IsEncodable v → decode (encode v ++ rest) ≡ ok (v, rest)
  pub encode_nonempty : (v : T) → 0 < length (encode v)
  pub eq_sound : (a b : T) → eq a b ≡ true → a ≡ b

pub data Error (E : Type 0) : Type 0 where
  buffer_size_did_not_change : Error E
  trying_to_read_past_end : Error E
  decode_error : E → Error E

pub record RawDecoder : Type 0 where
  pub offset : ℕ
  pub last_read : ℕ
  pub data_bytes : List ℕ

abbrev pub new : List ℕ → RawDecoder
new data_bytes = record { offset = 0; last_read = 0; data_bytes = data_bytes }

abbrev pub buf : RawDecoder → List ℕ
buf d = drop d.offset d.data_bytes

abbrev pub moved : RawDecoder → ℕ → RawDecoder
moved d delta = record { offset = d.offset + delta; last_read = delta; data_bytes = d.data_bytes }

abbrev pub after :
    {E T : Type 0} → RawDecoder → Result E (T × List ℕ) → Result (Error E) (RawDecoder × T)
after d (err e) = err (decode_error e)
after d (ok (v, rest)) =
    let delta = length (buf d) - length rest in
    if delta == 0 then err buffer_size_did_not_change else ok (moved d delta, v)

unfoldable pub read :
    {E T : Type 0}
    → (List ℕ → Result E (T × List ℕ))
    → RawDecoder
    → Result (Error E) (RawDecoder × T)
read decode d = after d (decode (buf d))

unfoldable pub read_bytes : {E : Type 0} → RawDecoder → ℕ → Result (Error E) (RawDecoder × List ℕ)
read_bytes d index =
    if ltb (length d.data_bytes) (d.offset + index)
    then err trying_to_read_past_end
    else ok (moved d index, take index (drop d.offset d.data_bytes))

unfoldable pub done : RawDecoder → Bool
done d = leb (length d.data_bytes) d.offset

unfoldable pub is_empty : RawDecoder → Bool
is_empty d = length d.data_bytes == 0
