-- ===== src/Columns/RawColumn/RoundTrip.antt =====
-- storage/columns/raw_column.rs: uncompressing what was compressed.
use automerge_r.Common.{
  length-take, ℕ, ◌+◌, ◌-◌, ◌<◌, ◌≤◌, ◌≡◌, refl, sym, ap, ◌∙◌, Bool, true, false, ◌&&◌, ◌||◌, List,
  [], ◌∷◌, ◌++◌, length, length-append, length-drop, append_assoc, take, drop, take-append_left,
  drop-append_left, ltb, leb, if◌then◌else◌, Result, ok, err, ◌>>=◌, All, arith, Bool-cases, inl,
  inr,
}
use automerge_r.Columns.Spec.{ColumnSpec, deflate, deflated}
use automerge_r.Columns.Spec.Fields.{inflated-deflated, deflate-deflated}
use automerge_r.Columns.RawColumn.{
  Deflater, RawColumn, ParseError, out_of_bounds, data_len, slice, compress_one, uncompress_bytes,
  uncompress_one, placed, compress_from, compress, uncompress_from, uncompress,
}

-- The specifications and the bytes of columns.
abbrev pub Parts : Type 0
Parts = List (ColumnSpec × List ℕ)

-- The columns of consecutive parts behind `start` bytes, and their data.
abbrev pub laid_out : ℕ → Parts → List RawColumn
laid_out start [] = []
laid_out start (p ∷ ps) =
    record { spec = p.0; start = start; stop = start + length p.1 }
    ∷ laid_out (start + length p.1) ps

abbrev pub joined : Parts → List ℕ
joined [] = []
joined (p ∷ ps) = p.1 ++ joined ps

-- An uncompressed specification whose id has four bits.
abbrev pub IsPlain : ColumnSpec → Type 0
IsPlain spec = (spec < 256) × (deflate spec ≡ false)

then_ok :
    {E A B : Type 0} {r : Result E A} (f : A → Result E B) {a : A} {b : B}
    → r ≡ ok a
    → f a ≡ ok b
    → (r >>= f) ≡ ok b
then_ok f e h = ap (λ r. r >>= f) e ∙ h

module _ {E : Type 0} (z : Deflater E) where
  -- The columns have these parts in the data block.
  abbrev pub Holds : List ℕ → List RawColumn → Parts → Type 0
  Holds input [] [] = Unit
  Holds input [] (p ∷ ps) = ⊥
  Holds input (c ∷ cs) [] = ⊥
  Holds input (c ∷ cs) (p ∷ ps) =
      (c.spec ≡ p.0) × (slice z input c.start c.stop ≡ ok p.1) × Holds input cs ps

  slice_back :
      (front bytes back : List ℕ) (start stop : ℕ)
      → start ≡ length front
      → stop ≡ length front + length bytes
      → slice z (front ++ (bytes ++ back)) start stop ≡ ok bytes
  unfolding slice
  slice_back front bytes back start stop e1 e2 =
      let n : stop - start ≡ length bytes = omega arith in
      let inside : (leb start stop && leb stop (length (front ++ (bytes ++ back)))) ≡ true =
        ground (arith, length-append front (bytes ++ back), length-append bytes back) in
      let cut : take (stop - start) (drop start (front ++ (bytes ++ back))) ≡ bytes =
        ap (λ (k : ℕ). take k (drop start (front ++ (bytes ++ back)))) n
        ∙ ap (λ (k : ℕ). take (length bytes) (drop k (front ++ (bytes ++ back)))) e1
        ∙ ap (take (length bytes)) (drop-append_left front (bytes ++ back))
        ∙ take-append_left bytes back in
      rw inside (ap ok cut)

  sliced_length :
      (b : Bool) (n : ℕ) (xs bytes : List ℕ)
      → (b ≡ true → n ≤ length xs)
      → ◌≡◌ {A = Result (ParseError E) (List ℕ)}
          (if b then ok (take n xs) else err out_of_bounds)
          (ok bytes)
      → n ≡ length bytes
  sliced_length true n xs bytes h e =
      let same : take n xs ≡ bytes = cc in sym (length-take n xs (h refl)) ∙ ap length same
  sliced_length false n xs bytes h e = absurd (cc)

  slice-length :
      (input : List ℕ) (start stop : ℕ) (bytes : List ℕ)
      → slice z input start stop ≡ ok bytes
      → stop - start ≡ length bytes
  unfolding slice
  slice-length input start stop bytes e =
      sliced_length (leb start stop && leb stop (length input)) (stop - start) (drop start input)
        bytes (λ inside. ground (arith, length-drop start input, inside)) e

  -- What compression makes of a part.
  abbrev packed_part : ℕ → ColumnSpec × List ℕ → ColumnSpec × List ℕ
  packed_part threshold p =
      if ltb (length p.1) threshold || deflate p.0 then p else (deflated p.0, z.encode p.1)

  abbrev packed : ℕ → Parts → Parts
  packed threshold [] = []
  packed threshold (p ∷ ps) = packed_part threshold p ∷ packed threshold ps

  compress_one_lem :
      (col : RawColumn) (input : List ℕ) (threshold : ℕ) (p : ColumnSpec × List ℕ)
      → col.spec ≡ p.0
      → slice z input col.start col.stop ≡ ok p.1
      → compress_one z col input threshold ≡ ok (packed_part threshold p)
  unfolding compress_one
  compress_one_lem col input threshold p es eb =
      let n : data_len col ≡ length p.1 = slice-length input col.start col.stop p.1 eb in
      rw eb (rw n (rw es refl))

  compress_from_lem :
      (cols : List RawColumn) (input : List ℕ) (threshold start : ℕ) (ps : Parts)
      → Holds input cols ps
      → compress_from z cols input threshold start
        ≡ ok (laid_out start (packed threshold ps), joined (packed threshold ps))
  unfolding compress_from
  compress_from_lem [] input threshold start [] h = refl
  compress_from_lem [] input threshold start (p ∷ ps) h = absurd h
  compress_from_lem (c ∷ cols) input threshold start [] h = absurd h
  compress_from_lem (c ∷ cols) input threshold start (p ∷ ps) h =
      rw (compress_one_lem c input threshold p h.0 h.1) (
        rw
          (compress_from_lem cols input threshold (start + length (packed_part threshold p).1) ps
            h.2)
          refl)

  -- The parts that compression leaves as they are, and those that it deflates.
  uncompress_part :
      (threshold : ℕ) (p : ColumnSpec × List ℕ)
      → IsPlain p.0
      → uncompress_bytes z (packed_part threshold p).0 (packed_part threshold p).1 ≡ ok p
  uncompress_part threshold p h = elim (Bool-cases (ltb (length p.1) threshold)) [
    | inl short ↦ rw short (rw h.1 refl)
    | inr long ↦ rw long (
        rw h.1 rw (deflate-deflated p.0 (omega (arith, h.0))) (
          rw (z.decode-encode p.1)
            (ap (λ (x : ColumnSpec). ok (x, p.1)) (inflated-deflated p.0 h.0 h.1))))
  ]

  uncompress_one_lem :
      (front back : List ℕ) (threshold at : ℕ) (p : ColumnSpec × List ℕ)
      → at ≡ length front
      → IsPlain p.0
      → uncompress_one z
          (record {
            spec = (packed_part threshold p).0;
            start = at;
            stop = at + length (packed_part threshold p).1;
          })
          (front ++ ((packed_part threshold p).1 ++ back))
        ≡ ok p
  unfolding uncompress_one
  uncompress_one_lem front back threshold at p e h =
      let q : ColumnSpec × List ℕ = packed_part threshold p in
      ap (λ r. r >>= λ bytes. uncompress_bytes z q.0 bytes)
        (slice_back front q.1 back at (at + length q.1) e (omega arith))
      ∙ uncompress_part threshold p h

  uncompress_from_lem :
      (front : List ℕ) (threshold start at : ℕ) (ps : Parts)
      → at ≡ length front
      → All (λ (p : ColumnSpec × List ℕ). IsPlain p.0) ps
      → uncompress_from z
          (laid_out at (packed threshold ps))
          (front ++ joined (packed threshold ps))
          start
        ≡ ok (laid_out start ps, joined ps)
  unfolding uncompress_from
  uncompress_from_lem front threshold start at [] e h = refl
  uncompress_from_lem front threshold start at (p ∷ ps) e h =
      let q : ColumnSpec × List ℕ = packed_part threshold p in
      let rest =
        uncompress_from_lem (front ++ q.1) threshold (start + length p.1) (at + length q.1) ps
          (omega (arith, length-append front q.1)) h.1 in
      then_ok _ (uncompress_one_lem front (joined (packed threshold ps)) threshold at p e h.0) (
        ap (λ r. r >>= λ (t : List RawColumn × List ℕ). ok (placed z start p t))
          (ap
              (λ (input : List ℕ).
                uncompress_from z (laid_out (at + length q.1) (packed threshold ps)) input
                  (start + length p.1))
              (sym (append_assoc front q.1 (joined (packed threshold ps))))
            ∙ rest))

  -- Compressing columns with uncompressed specifications of four-bit ids, and uncompressing the
  -- result, gives the same specifications and bytes, laid out one behind the other.
  pub uncompress-compress :
      (cols : List RawColumn) (input : List ℕ) (threshold : ℕ) (ps : Parts)
      → Holds input cols ps
      → All (λ (p : ColumnSpec × List ℕ). IsPlain p.0) ps
      → (compress z cols input threshold >>= λ r. uncompress z r.0 r.1)
        ≡ ok (laid_out 0 ps, joined ps)
  unfolding compress uncompress
  uncompress-compress cols input threshold ps h plain =
      then_ok _ (compress_from_lem cols input threshold 0 ps h)
        (uncompress_from_lem [] threshold 0 0 ps refl plain)
