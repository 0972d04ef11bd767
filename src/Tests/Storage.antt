-- ===== src/Tests/Storage.antt =====
-- The theorems on the columns of a chunk, applied to concrete columns.
use automerge_r.Common.{
  zero, suc, ◌++◌, length, true, ℕ, ◌≡◌, refl, List, [], ◌∷◌, false, ok, arith, Result, ◌>>=◌,
}
use automerge_r.Columns.Spec.{ColumnSpec, new, id, col_type, deflate, integer, string}
use automerge_r.Columns.Spec
use automerge_r.Columns.Spec.Fields.{new-fields}
use automerge_r.Columns.RawColumn.{Deflater, RawColumn, compress, uncompress, slice}
use automerge_r.Parse.Leb128.{LebError, leb128_too_large, leb_from_leb}
use automerge_r.Parse.Leb128.Writer.{writer}
use automerge_r.Parse.Combinators.Reads.{Reads}
use automerge_r.Columns.Headers.{FromColumns, write, parse}
use automerge_r.Columns.Headers.RoundTrip.{IsLaidOut, IsInOrder, parse-write}
use automerge_r.Chunk.{Sha256, FromHeader, change}
use automerge_r.Chunk
use automerge_r.Chunk.RoundTrip.{parse-write_header}
use automerge_r.Parse.Input.{Input, advance}
use automerge_r.Parse.Input
use automerge_r.Columns.RawColumn.RoundTrip.{Parts, laid_out, joined, uncompress-compress}

new-fields_example :
    (id (new 17 string false) ≡ 1)
    × (col_type (new 17 string false) ≡ string)
    × (deflate (new 17 string false) ≡ false)
new-fields_example = new-fields 17 string false (omega arith)

-- A coding that puts a byte in front.
abbrev tail_of : List ℕ → List ℕ
tail_of [] = []
tail_of (x ∷ xs) = xs

abbrev zlib : Deflater ℕ
zlib = record {
  encode = λ bytes. 255 ∷ bytes;
  decode = λ bytes. ok (tail_of bytes);
  decode-encode = λ bytes. refl;
}

abbrev block : List ℕ
block = 1 ∷ 2 ∷ 3 ∷ 4 ∷ 5 ∷ []

abbrev cols : List RawColumn
cols = record { spec = 18; start = 1; stop = 4 } ∷ record { spec = 37; start = 4; stop = 5 } ∷ []

abbrev parts : Parts
parts = (18, 2 ∷ 3 ∷ 4 ∷ []) ∷ (37, 5 ∷ []) ∷ []

uncompress-compress_example :
    ◌≡◌ {A = Result _ (List RawColumn × List ℕ)}
      (compress zlib cols block 2 >>= λ r. uncompress zlib r.0 r.1)
      (ok (laid_out 0 parts, joined parts))
unfolding slice Spec.deflate
uncompress-compress_example =
    uncompress-compress zlib cols block 2 parts ((refl, refl, (refl, refl, tt)))
      ((omega arith, refl), ((omega arith, refl), tt))

abbrev order_error : FromColumns LebError
order_error = record { not_in_normal_order = leb128_too_large }

abbrev headers : List RawColumn
headers =
    record { spec = 1; start = 0; stop = 300 }
    ∷ record { spec = 18; start = 300; stop = 305 }
    ∷ record { spec = 37; start = 305; stop = 305 }
    ∷ []

headers-IsLaidOut : IsLaidOut 0 headers
headers-IsLaidOut = (
  omega arith,
  refl,
  omega arith,
  omega arith,
  (omega arith, refl, omega arith, omega arith, (omega arith, refl, omega arith, omega arith, tt)),
)

headers-IsInOrder : IsInOrder headers
unfolding Spec.normalize
headers-IsInOrder = (omega arith, (omega arith, tt))

parse-write_example : Reads (parse order_error) (write writer headers) headers
parse-write_example =
    parse-write writer order_error headers (omega arith) headers-IsLaidOut headers-IsInOrder

abbrev repeated : ℕ → List ℕ
repeated zero = []
repeated (suc n) = n ∷ repeated n

-- A digest of 32 bytes.
abbrev sha : Sha256
sha = record { digest = λ bytes. length bytes ∷ repeated 31; digest_length = λ bytes. refl }

abbrev header_errors : FromHeader LebError
header_errors = record {
  unknown_chunk_type = λ raw. leb128_too_large;
  invalid_magic_bytes = leb128_too_large;
}

abbrev chunk_input : Input
chunk_input =
    Input.new (Chunk.write writer (Chunk.new writer sha change block) ++ (block ++ (9 ∷ [])))

parse-write_header_example :
    (Chunk.parse header_errors writer sha chunk_input
      ≡ ok (
        advance chunk_input
            (block ++ (9 ∷ []))
            (length (Chunk.write writer (Chunk.new writer sha change block))),
        Chunk.new writer sha change block,
      ))
    × (Chunk.data_range (Chunk.new writer sha change block) ≡ (
      length (Chunk.write writer (Chunk.new writer sha change block)),
      length (Chunk.write writer (Chunk.new writer sha change block) ++ block),
    ))
    × (Chunk.checksum_valid (Chunk.new writer sha change block) ≡ true)
parse-write_header_example =
    parse-write_header header_errors writer sha change block (9 ∷ []) chunk_input (omega arith) refl
