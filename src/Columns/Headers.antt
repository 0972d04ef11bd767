-- ===== src/Columns/Headers.antt =====
-- storage/columns/raw_column.rs: the specifications and lengths of columns in front of their data.
pub mod RoundTrip
use automerge_r.Common.{
  ℕ, zero, suc, ◌+◌, ◌-◌, ◌^◌, Bool, true, false, ◌&&◌, List, [], ◌∷◌, ◌++◌, length, ltb,
  if◌then◌else◌, ok, err, ◌>>=◌, min,
}
use automerge_r.Parse.Input.{Input, Parser, error}
use automerge_r.Parse.Leb128.{FromLeb, leb128_u64, leb128_u32}
use automerge_r.Parse.Leb128.Writer.{Writer}
use automerge_r.Parse.Combinators.{tuple2, apply_n, map_parser}
use automerge_r.Columns.Spec.{ColumnSpec, normalize}
use automerge_r.Columns.RawColumn.{RawColumn, data_len}

-- The error of a caller that `ParseError::NotInNormalOrder` turns into.
pub record FromColumns (E : Type 0) : Type 0 where
  pub not_in_normal_order : E

-- `usize::saturating_add`
abbrev pub saturating_add : ℕ → ℕ → ℕ
saturating_add a b = min (a + b) (2 ^ 64 - 1)

-- The specifications and lengths as columns one behind the other.
unfoldable pub scan : ℕ → List (ColumnSpec × ℕ) → List RawColumn
scan offset [] = []
scan offset (s ∷ specs_and_lens) =
    let end = saturating_add offset s.1 in
    record { spec = s.0; start = offset; stop = end } ∷ scan end specs_and_lens

unfoldable pub are_normal_sorted : List RawColumn → Bool
are_normal_sorted [] = true
are_normal_sorted (c ∷ []) = true
are_normal_sorted (c ∷ d ∷ cols) =
    let rest = are_normal_sorted (d ∷ cols) in
    if ltb (normalize d.spec) (normalize c.spec) then false else rest

unfoldable pub write_column : Writer → RawColumn → List ℕ
write_column w col = w.unsigned col.spec ++ w.unsigned (data_len col)

abbrev pub write_columns : Writer → List RawColumn → List ℕ
write_columns w [] = []
write_columns w (col ∷ cols) = write_column w col ++ write_columns w cols

unfoldable pub write : Writer → List RawColumn → List ℕ
write w cols = w.unsigned (length cols) ++ write_columns w cols

unfoldable pub spec_and_len : {E : Type 0} → ⦃f : FromLeb E⦄ → Parser (ColumnSpec × ℕ) E
spec_and_len input = tuple2 (map_parser leb128_u32 (λ raw. raw)) leb128_u64 input

module _ {E : Type 0} ⦃f : FromLeb E⦄ (g : FromColumns E) where
  abbrev pub check_order : List RawColumn → Parser (List RawColumn) E
  check_order columns i =
      if are_normal_sorted columns then ok (i, columns) else err (error g.not_in_normal_order)

  unfoldable pub parse : Parser (List RawColumn) E
  parse input =
      leb128_u64 input >>= λ p. apply_n p.1 spec_and_len p.0 >>= λ q. check_order (scan 0 q.1) q.0
