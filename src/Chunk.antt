-- ===== src/Chunk.antt =====
-- rust/automerge/src/storage/chunk.rs: the header of a chunk, with its checksum and the hash of its
-- data. SHA-256 is the `sha2` crate's.
pub mod RoundTrip
use automerge_r.Common.{
  ℕ, zero, suc, ◌+◌, ◌-◌, ◌≡◌, Bool, true, false, List, [], ◌∷◌, ◌++◌, length, take, Result, ok,
  err, ◌>>=◌,
}
use automerge_r.Common.Hash.{ChangeHash, hash_eq}
use automerge_r.Parse.Input.{Input, Parser, ParseResult, error, take_1, take_n, take_4, range_of}
use automerge_r.Parse.Leb128.{FromLeb, leb128_u64}
use automerge_r.Parse.Leb128.Writer.{Writer}
use automerge_r.Columnar.Sizes.{ulebsize}

-- The `sha2` crate: a digest has 32 bytes.
pub record Sha256 : Type 0 where
  pub digest : List ℕ → List ℕ
  pub digest_length : (bytes : List ℕ) → length (digest bytes) ≡ 32

pub data ChunkType : Type 0 where
  document change compressed bundle : ChunkType

abbrev pub chunk_type_as_u8 : ChunkType → ℕ
chunk_type_as_u8 document = 0
chunk_type_as_u8 change = 1
chunk_type_as_u8 compressed = 2
chunk_type_as_u8 bundle = 3

-- The errors of a caller that `error::Header` turns into.
pub record FromHeader (E : Type 0) : Type 0 where
  pub unknown_chunk_type : ℕ → E
  pub invalid_magic_bytes : E

abbrev pub try_from : ℕ → Result ℕ ChunkType
try_from zero = ok document
try_from (suc zero) = ok change
try_from (suc (suc zero)) = ok compressed
try_from (suc (suc (suc zero))) = ok bundle
try_from (suc (suc (suc (suc n)))) = err (suc (suc (suc (suc n))))

abbrev pub magic_bytes : List ℕ
magic_bytes = 0x85 ∷ 0x6f ∷ 0x4a ∷ 0x83 ∷ []

-- `ChangeHash::checksum`
abbrev pub checksum_of : ChangeHash → List ℕ
checksum_of hash = take 4 hash

pub record Header : Type 0 where
  pub checksum : List ℕ
  pub chunk_type : ChunkType
  pub data_len : ℕ
  pub header_size : ℕ
  pub hash : ChangeHash

abbrev pub size_of_header : List ℕ → ℕ
size_of_header bytes = length magic_bytes + 4 + 1 + ulebsize (length bytes)

unfoldable pub write : Writer → Header → List ℕ
write w h = magic_bytes ++ (h.checksum ++ (chunk_type_as_u8 h.chunk_type ∷ w.unsigned h.data_len))

module _ (w : Writer) (sha : Sha256) where
  unfoldable pub hash_chunk : ChunkType → List ℕ → ChangeHash
  hash_chunk typ bytes = sha.digest ((chunk_type_as_u8 typ ∷ w.unsigned (length bytes)) ++ bytes)

  unfoldable pub new : ChunkType → List ℕ → Header
  new chunk_type bytes = record {
    checksum = checksum_of (hash_chunk chunk_type bytes);
    chunk_type = chunk_type;
    data_len = length bytes;
    header_size = size_of_header bytes;
    hash = hash_chunk chunk_type bytes;
  }

  unfoldable pub with_data : Header → ChunkType → List ℕ → Header
  with_data h chunk_type bytes = record {
    checksum = h.checksum;
    chunk_type = chunk_type;
    data_len = length bytes;
    header_size = size_of_header bytes;
    hash = hash_chunk chunk_type bytes;
  }

-- The range of the data behind the header.
unfoldable pub data_range : Header → ℕ × ℕ
data_range h = (h.header_size, h.header_size + h.data_len)

unfoldable pub checksum_valid : Header → Bool
checksum_valid h = hash_eq (checksum_of h.hash) h.checksum

module _ {E : Type 0} ⦃f : FromLeb E⦄ (g : FromHeader E) where
  abbrev pub with_type : {A : Type 0} → Result ℕ ChunkType → (ChunkType → Parser A E) → Parser A E
  with_type (ok t) k i = k t i
  with_type (err raw) k i = err (error (g.unknown_chunk_type raw))

  abbrev pub length_field : List ℕ → ChunkType → Parser (List ℕ × ChunkType × ℕ) E
  length_field checksum t i = leb128_u64 i >>= λ p. ok (p.0, (checksum, t, p.1))

  abbrev pub type_field : List ℕ → Parser (List ℕ × ChunkType × ℕ) E
  type_field checksum i = take_1 i >>= λ p. with_type (try_from p.1) (length_field checksum) p.0

  abbrev pub with_magic : {A : Type 0} → Bool → Parser A E → Parser A E
  with_magic true k i = k i
  with_magic false k i = err (error g.invalid_magic_bytes)

  abbrev pub checksum_field : Parser (List ℕ × ChunkType × ℕ) E
  checksum_field i = take_4 i >>= λ p. type_field p.1 p.0

  abbrev pub after_magic : List ℕ → Parser (List ℕ × ChunkType × ℕ) E
  after_magic magic = with_magic (hash_eq magic magic_bytes) checksum_field

  unfoldable pub fields : Parser (List ℕ × ChunkType × ℕ) E
  fields i = take_4 i >>= λ p. after_magic p.1 p.0

  abbrev pub header_of :
      Writer → Sha256 → Input → (ℕ × ℕ) × (List ℕ × ChunkType × ℕ) → ParseResult Header E
  header_of w sha i r = take_n r.1.2 i >>= λ p. ok (
    i,
    record {
      checksum = r.1.0;
      chunk_type = r.1.1;
      data_len = length p.1;
      header_size = r.0.1 - r.0.0;
      hash = hash_chunk w sha r.1.1 p.1;
    },
  )

  unfoldable pub parse : Writer → Sha256 → Parser Header E
  parse w sha input = range_of fields input >>= λ p. header_of w sha p.0 p.1
