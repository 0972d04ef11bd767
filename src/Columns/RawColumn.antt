-- ===== src/Columns/RawColumn.antt =====
-- storage/columns/raw_column.rs: columns as ranges of a data block, compressed and uncompressed one
-- by one. DEFLATE is the `flate2` crate's.
pub mod RoundTrip
use automerge_r.Common.{
  ℕ, zero, suc, ◌+◌, ◌-◌, ◌≤◌, ◌≡◌, Bool, true, false, ◌&&◌, ◌||◌, List, [], ◌∷◌, ◌++◌, length,
  take, drop, ltb, leb, if◌then◌else◌, Result, ok, err, ◌>>=◌, map_err,
}
use automerge_r.Columns.Spec.{ColumnSpec, deflate, deflated, inflated}

-- The `flate2` crate: inflating what was deflated gives it back.
pub record Deflater (E : Type 0) : Type 0 where
  pub encode : List ℕ → List ℕ
  pub decode : List ℕ → Result E (List ℕ)
  pub decode-encode : (bytes : List ℕ) → decode (encode bytes) ≡ ok bytes

pub record RawColumn : Type 0 where
  pub spec : ColumnSpec
  pub start : ℕ
  pub stop : ℕ

-- A slice out of bounds panics.
pub data ParseError (E : Type 0) : Type 0 where
  out_of_bounds : ParseError E
  deflate_error : E → ParseError E

abbrev pub data_len : RawColumn → ℕ
data_len col = col.stop - col.start

module _ {E : Type 0} (z : Deflater E) where
  -- `&input[self.data.clone()]`
  unfoldable pub slice : List ℕ → ℕ → ℕ → Result (ParseError E) (List ℕ)
  slice input start stop =
      if leb start stop && leb stop (length input)
      then ok (take (stop - start) (drop start input))
      else err out_of_bounds

  -- One column's specification and bytes in the output.
  abbrev pub compress_bytes : RawColumn → ℕ → List ℕ → ColumnSpec × List ℕ
  compress_bytes col threshold bytes =
      if ltb (data_len col) threshold || deflate col.spec
      then (col.spec, bytes)
      else (deflated col.spec, z.encode bytes)

  unfoldable pub compress_one : RawColumn → List ℕ → ℕ → Result (ParseError E) (ColumnSpec × List ℕ)
  compress_one col input threshold =
      slice input col.start col.stop >>= λ bytes. ok (compress_bytes col threshold bytes)

  abbrev pub uncompress_bytes : ColumnSpec → List ℕ → Result (ParseError E) (ColumnSpec × List ℕ)
  uncompress_bytes spec bytes =
      if deflate spec
      then (map_err deflate_error (z.decode bytes) >>= λ plain. ok (inflated spec, plain))
      else ok (spec, bytes)

  unfoldable pub uncompress_one : RawColumn → List ℕ → Result (ParseError E) (ColumnSpec × List ℕ)
  uncompress_one col input =
      slice input col.start col.stop >>= λ bytes. uncompress_bytes col.spec bytes

  -- A column behind `start` bytes of output, in front of the others.
  abbrev pub placed : ℕ → ColumnSpec × List ℕ → List RawColumn × List ℕ → List RawColumn × List ℕ
  placed start part rest = (
    record { spec = part.0; start = start; stop = start + length part.1 } ∷ rest.0,
    part.1 ++ rest.1,
  )

  unfoldable pub compress_from :
      List RawColumn → List ℕ → ℕ → ℕ → Result (ParseError E) (List RawColumn × List ℕ)
  compress_from [] input threshold start = ok ([], [])
  compress_from (col ∷ cols) input threshold start = compress_one col input threshold >>= λ part.
      compress_from cols input threshold (start + length part.1) >>= λ rest.
      ok (placed start part rest)

  unfoldable pub compress :
      List RawColumn → List ℕ → ℕ → Result (ParseError E) (List RawColumn × List ℕ)
  compress cols input threshold = compress_from cols input threshold 0

  unfoldable pub uncompress_from :
      List RawColumn → List ℕ → ℕ → Result (ParseError E) (List RawColumn × List ℕ)
  uncompress_from [] input start = ok ([], [])
  uncompress_from (col ∷ cols) input start = uncompress_one col input >>= λ part.
      uncompress_from cols input (start + length part.1) >>= λ rest. ok (placed start part rest)

  unfoldable pub uncompress :
      List RawColumn → List ℕ → Result (ParseError E) (List RawColumn × List ℕ)
  uncompress cols input = uncompress_from cols input 0
