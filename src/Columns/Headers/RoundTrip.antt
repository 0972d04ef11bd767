-- ===== src/Columns/Headers/RoundTrip.antt =====
-- storage/columns/raw_column.rs: `parse` reads back what `write` wrote, and checks the order.
use automerge_r.Common.{
  ◌≤◌, false, ℕ, suc, ◌+◌, ◌-◌, ◌^◌, ◌<◌, ◌≡◌, refl, sym, ap, ◌∙◌, true, List, [], ◌∷◌, ◌++◌,
  length, ltb, if◌then◌else◌, ok, err, ◌>>=◌, All, arith, append-nil,
}
use automerge_r.Parse.Input.{error}
use automerge_r.Parse.Leb128.{FromLeb, leb128_u64, leb128_u32, leb128_too_large}
use automerge_r.Parse.Leb128.Writer.{Writer, IsU64}
use automerge_r.Parse.Combinators.{tuple2, apply_n, map_parser, parse_times}
use automerge_r.Parse.Combinators.Reads.{
  Reads, Reads-bind, Reads-ok, Reads-cast, leb128_u64-Reads, parse_times-Reads, concat_map,
}
use automerge_r.Columns.Spec.{ColumnSpec, normalize}
use automerge_r.Columns.RawColumn.{RawColumn}
use mathlib.Core.Path.{subst}
use automerge_r.Columns.Headers.{
  FromColumns, saturating_add, scan, are_normal_sorted, write_column, write_columns, write,
  spec_and_len, check_order, parse,
}

-- The lengths of consecutive columns that end before 2^64, and specifications of 32 bits.
abbrev pub Fit : ℕ → List (ColumnSpec × ℕ) → Type 0
Fit offset [] = Unit
Fit offset (s ∷ ss) = (s.0 < 2 ^ 32) × (offset + s.1 < 2 ^ 64) × Fit (offset + s.1) ss

module _ (w : Writer) where
  pair_bytes : ColumnSpec × ℕ → List ℕ
  pair_bytes s = w.unsigned s.0 ++ w.unsigned s.1

  write_columns-scan :
      (offset : ℕ) (ss : List (ColumnSpec × ℕ))
      → Fit offset ss
      → write_columns w (scan offset ss) ≡ concat_map pair_bytes ss
  unfolding scan write_column pair_bytes
  write_columns-scan offset [] h = refl
  write_columns-scan offset (s ∷ ss) h =
      let end : saturating_add offset s.1 ≡ offset + s.1 = omega (arith, h.1) in
      let size : saturating_add offset s.1 - offset ≡ s.1 = omega (arith, h.1) in
      ap
        (λ (n : ℕ).
          (w.unsigned s.0 ++ w.unsigned n) ++ write_columns w (scan (saturating_add offset s.1) ss))
        size
      ∙ ap (λ (n : ℕ). (w.unsigned s.0 ++ w.unsigned s.1) ++ write_columns w (scan n ss)) end
      ∙ ap (λ bs. (w.unsigned s.0 ++ w.unsigned s.1) ++ bs)
          (write_columns-scan (offset + s.1) ss h.2)

  length-scan : (offset : ℕ) (ss : List (ColumnSpec × ℕ)) → length (scan offset ss) ≡ length ss
  unfolding scan
  length-scan offset [] = refl
  length-scan offset (s ∷ ss) = ap suc (length-scan (saturating_add offset s.1) ss)

module _ {E : Type 0} ⦃f : FromLeb E⦄ (w : Writer) where
  leb128_u32-Reads : (v : ℕ) → v < 2 ^ 32 → Reads {E = E} leb128_u32 (w.unsigned v) v
  unfolding leb128_u32
  leb128_u32-Reads v h =
      let small : ltb v (2 ^ 32) ≡ true = ground arith in
      Reads-cast (append-nil (w.unsigned v)) (
        Reads-bind
          (λ num i. if ltb num (2 ^ 32) then ok (i, num) else err (error (f.from leb128_too_large)))
          (leb128_u64-Reads w v (omega arith)) (rw small (Reads-ok v)))

  raw_spec-Reads :
      (v : ℕ) → v < 2 ^ 32 → Reads {E = E} (map_parser leb128_u32 (λ raw. raw)) (w.unsigned v) v
  unfolding map_parser
  raw_spec-Reads v h =
      Reads-cast (append-nil (w.unsigned v))
        (Reads-bind (λ raw i. ok (i, raw)) (leb128_u32-Reads v h) (Reads-ok v))

  spec_and_len-Reads :
      (s : ColumnSpec × ℕ)
      → s.0 < 2 ^ 32
      → IsU64 s.1
      → Reads {E = E} spec_and_len (pair_bytes w s) s
  unfolding spec_and_len tuple2 pair_bytes
  spec_and_len-Reads s h k =
      Reads-bind (λ raw i. leb128_u64 i >>= λ q. ok (q.0, (raw, q.1))) (raw_spec-Reads s.0 h)
        (Reads-cast (append-nil (w.unsigned s.1))
          (Reads-bind (λ len i. ok (i, (s.0, len))) (leb128_u64-Reads w s.1 k) (Reads-ok s)))

all_Reads :
    (E : Type 0) ⦃f : FromLeb E⦄ (w : Writer) (offset : ℕ) (ss : List (ColumnSpec × ℕ))
    → Fit offset ss
    → All (λ s. Reads {E = E} spec_and_len (pair_bytes w s) s) ss
all_Reads E w offset [] h = tt
all_Reads E w offset (s ∷ ss) h =
    (spec_and_len-Reads w s h.0 (omega (arith, h.1)), all_Reads E w (offset + s.1) ss h.2)

module _ {E : Type 0} ⦃f : FromLeb E⦄ (w : Writer) where
  ordered :
      (g : FromColumns E) (ss : List (ColumnSpec × ℕ))
      → are_normal_sorted (scan 0 ss) ≡ true
      → Reads (λ i. check_order g (scan 0 ss) i) [] (scan 0 ss)
  ordered g ss sorted = rw sorted (Reads-ok (scan 0 ss))

  scanned-Reads :
      (g : FromColumns E) (ss : List (ColumnSpec × ℕ))
      → IsU64 (length ss)
      → Fit 0 ss
      → are_normal_sorted (scan 0 ss) ≡ true
      → Reads (parse g) (write w (scan 0 ss)) (scan 0 ss)
  unfolding parse write apply_n
  scanned-Reads g ss n h sorted =
      let body =
        Reads-bind (λ specs_and_lens i. check_order g (scan 0 specs_and_lens) i)
          (parse_times-Reads spec_and_len (pair_bytes w) ss [] (all_Reads E w 0 ss h))
          (ordered g ss sorted) in
      let bytes : concat_map (pair_bytes w) ss ++ [] ≡ write_columns w (scan 0 ss) =
        append-nil _ ∙ sym (write_columns-scan w 0 ss h) in
      Reads-cast
        (ap (λ bs. w.unsigned (length ss) ++ bs) bytes
          ∙ ap (λ (k : ℕ). w.unsigned k ++ write_columns w (scan 0 ss)) (sym (length-scan w 0 ss)))
        (Reads-bind
          (λ num i. parse_times num spec_and_len i [] >>= λ q. check_order g (scan 0 q.1) q.0)
          (leb128_u64-Reads w (length ss) n) body)

-- The columns stand one behind the other from an offset on and end before 2^64, and their
-- specifications have 32 bits.
abbrev pub IsLaidOut : ℕ → List RawColumn → Type 0
IsLaidOut offset [] = Unit
IsLaidOut offset (col ∷ cols) =
    (col.spec < 2 ^ 32)
    × (col.start ≡ offset)
    × (offset ≤ col.stop)
    × (col.stop < 2 ^ 64)
    × IsLaidOut col.stop cols

-- No column's specification, its compression flag apart, is below the one before.
abbrev pub IsInOrder : List RawColumn → Type 0
IsInOrder [] = Unit
IsInOrder (c ∷ []) = Unit
IsInOrder (c ∷ d ∷ cols) = (normalize c.spec ≤ normalize d.spec) × IsInOrder (d ∷ cols)

abbrev specs_and_lens : List RawColumn → List (ColumnSpec × ℕ)
specs_and_lens [] = []
specs_and_lens (col ∷ cols) = (col.spec, col.stop - col.start) ∷ specs_and_lens cols

scan-specs_and_lens :
    (offset : ℕ) (cols : List RawColumn)
    → IsLaidOut offset cols
    → scan offset (specs_and_lens cols) ≡ cols
unfolding scan
scan-specs_and_lens offset [] h = refl
scan-specs_and_lens offset (col ∷ cols) (_, start, le, stop, h) =
    let end : saturating_add offset (col.stop - col.start) ≡ col.stop = omega arith in
    ap
      (λ (n : ℕ).
        record { spec = col.spec; start = offset; stop = n } ∷ scan n (specs_and_lens cols))
      end
    ∙ ap
        (λ (n : ℕ).
          record { spec = col.spec; start = n; stop = col.stop }
          ∷ scan col.stop (specs_and_lens cols))
        (sym start)
    ∙ ap (λ cs. col ∷ cs) (scan-specs_and_lens col.stop cols h)

specs_and_lens-Fit :
    (offset : ℕ) (cols : List RawColumn) → IsLaidOut offset cols → Fit offset (specs_and_lens cols)
specs_and_lens-Fit offset [] h = tt
specs_and_lens-Fit offset (col ∷ cols) (spec, start, le, stop, h) =
    let end : offset + (col.stop - col.start) ≡ col.stop = omega arith in
    (
      spec,
      omega arith,
      subst (λ (n : ℕ). Fit n (specs_and_lens cols)) (sym end) (specs_and_lens-Fit col.stop cols h),
    )

length-specs_and_lens : (cols : List RawColumn) → length (specs_and_lens cols) ≡ length cols
length-specs_and_lens [] = refl
length-specs_and_lens (col ∷ cols) = ap suc (length-specs_and_lens cols)

IsInOrder-sorted : (cols : List RawColumn) → IsInOrder cols → are_normal_sorted cols ≡ true
unfolding are_normal_sorted
IsInOrder-sorted [] h = refl
IsInOrder-sorted (c ∷ []) h = refl
IsInOrder-sorted (c ∷ d ∷ cols) (le, h) =
    let test : ltb (normalize d.spec) (normalize c.spec) ≡ false = ground arith in
    rw test (IsInOrder-sorted (d ∷ cols) h)

-- Columns in normal order that stand one behind the other from 0 on, with specifications of 32
-- bits, and that end before 2^64 are read back from what is written of them, whatever follows.
pub parse-write :
    {E : Type 0}
    → ⦃f : FromLeb E⦄ → (w : Writer) (g : FromColumns E) (cols : List RawColumn)
    → IsU64 (length cols)
    → IsLaidOut 0 cols
    → IsInOrder cols
    → Reads (parse g) (write w cols) cols
parse-write w g cols n h o =
    let same = scan-specs_and_lens 0 cols h in
    subst (λ (cs : List RawColumn). Reads (parse g) (write w cs) cs) same
      (scanned-Reads w g (specs_and_lens cols) (omega (arith, length-specs_and_lens cols))
        (specs_and_lens-Fit 0 cols h) (ap are_normal_sorted same ∙ IsInOrder-sorted cols o))
