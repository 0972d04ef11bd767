-- ===== src/Chunk/RoundTrip.antt =====
-- storage/chunk.rs: `Header::parse` on what `Header::write` wrote in front of the data.
use automerge_r.Common.{
  length-take, ℕ, zero, suc, ◌+◌, ◌-◌, ◌/◌, ◌%◌, ◌^◌, ◌<◌, ◌≡◌, refl, sym, ap, ◌∙◌, Bool, true,
  false, List, ◌∷◌, ◌++◌, length, length-append, append-nil, ok, arith, inl, inr,
}
use automerge_r.Common.Hash.{hash_eq, hash_eq_iff}
use automerge_r.Parse.Input.{Input, Parser, advance, take_4, take_n, range_of}
use automerge_r.Parse.Leb128.{FromLeb}
use automerge_r.Parse.Leb128.Writer.{Writer, IsU64, small_or_large}
use automerge_r.Parse.Combinators.Reads.{
  Reads, Reads-bind, Reads-ok, Reads-cast, leb128_u64-Reads, take_1-Reads, take_n-Reads,
}
use automerge_r.Columnar.Encodable.{encode_u64, encode_u64_loop}
use automerge_r.Columnar.Encodable.RoundTrip.{u64_last, u64_more}
use automerge_r.Columnar.Sizes.{ulebsize, length-encode_u64}
use automerge_r.Chunk.{
  Sha256, ChunkType, document, change, compressed, bundle, chunk_type_as_u8, FromHeader, try_from,
  magic_bytes, checksum_of, hash_chunk, size_of_header, new, write, checksum_valid, data_range,
  with_type, length_field, type_field, with_magic, checksum_field, after_magic, fields, header_of,
  parse,
}
use native.Mathlib.Nat.{pow-suc}
use mathlib.Core.Path.{subst}

module _ (w : Writer) where
  -- The crate's writer writes what `Encodable` writes.
  unsigned-encode_u64_loop : (k v : ℕ) → v < 128 ^ suc k → w.unsigned v ≡ encode_u64_loop (suc k) v
  unsigned-encode_u64_loop zero v h =
      w.last_group v (omega arith) ∙ sym (u64_last 0 v (omega arith))
  unsigned-encode_u64_loop (suc k) v h = elim (small_or_large v) [
    | inl small ↦ w.last_group v small ∙ sym (u64_last (suc k) v small)
    | inr large ↦
        w.more_groups v large
        ∙ ap (◌∷◌ (v % 128 + 128))
            (unsigned-encode_u64_loop k (v / 128) (omega (arith, pow-suc 128 (suc k))))
        ∙ sym (u64_more (suc k) v large)
  ]

  length-unsigned : (v : ℕ) → IsU64 v → length (w.unsigned v) ≡ ulebsize v
  unfolding encode_u64
  length-unsigned v h =
      ap length (unsigned-encode_u64_loop 9 v (omega arith)) ∙ length-encode_u64 v h

module _ {E : Type 0} where
  take_4-Reads : (bs : List ℕ) → length bs ≡ 4 → Reads {E = E} take_4 bs bs
  unfolding take_4 take_n
  take_4-Reads bs h =
      let four : Reads {E = E} (take_n 4) bs bs =
        subst (λ (n : ℕ). Reads {E = E} (take_n n) bs bs) h (take_n-Reads bs) in
      record { run = λ i rest e. four.run i rest e }

try_from-chunk_type_as_u8 : (t : ChunkType) → try_from (chunk_type_as_u8 t) ≡ ok t
try_from-chunk_type_as_u8 document = refl
try_from-chunk_type_as_u8 change = refl
try_from-chunk_type_as_u8 compressed = refl
try_from-chunk_type_as_u8 bundle = refl

module _ {E : Type 0} ⦃f : FromLeb E⦄ (g : FromHeader E) (w : Writer) where
  length_field-Reads :
      (checksum : List ℕ) (t : ChunkType) (n : ℕ)
      → IsU64 n
      → Reads (length_field g checksum t) (w.unsigned n) (checksum, t, n)
  length_field-Reads checksum t n h = Reads-cast (append-nil (w.unsigned n)) (
      Reads-bind (λ len i. ok (i, (checksum, t, len))) (leb128_u64-Reads w n h)
        (Reads-ok (checksum, t, n)))

  type_field-Reads :
      (checksum : List ℕ) (t : ChunkType) (n : ℕ)
      → IsU64 n
      → Reads (type_field g checksum) (chunk_type_as_u8 t ∷ w.unsigned n) (checksum, t, n)
  type_field-Reads checksum t n h =
      Reads-bind (λ raw i. with_type g (try_from raw) (length_field g checksum) i)
        (take_1-Reads (chunk_type_as_u8 t))
        (rw (try_from-chunk_type_as_u8 t) (length_field-Reads checksum t n h))

  checksum_field-Reads :
      (checksum : List ℕ) (t : ChunkType) (n : ℕ)
      → length checksum ≡ 4
      → IsU64 n
      → Reads (checksum_field g) (checksum ++ (chunk_type_as_u8 t ∷ w.unsigned n)) (checksum, t, n)
  checksum_field-Reads checksum t n four h =
      Reads-bind (λ c i. type_field g c i) (take_4-Reads checksum four)
        (type_field-Reads checksum t n h)

  with_magic-Reads :
      {A : Type 0} {p : Parser A E} {bs : List ℕ} {v : A} (b : Bool)
      → b ≡ true
      → Reads p bs v
      → Reads (with_magic g b p) bs v
  with_magic-Reads true h r = record { run = λ i rest e. r.run i rest e }
  with_magic-Reads false h r = absurd (cc)

  after_magic-Reads :
      (checksum : List ℕ) (t : ChunkType) (n : ℕ)
      → length checksum ≡ 4
      → IsU64 n
      → Reads
          (after_magic g magic_bytes)
          (checksum ++ (chunk_type_as_u8 t ∷ w.unsigned n))
          (checksum, t, n)
  after_magic-Reads checksum t n four h =
      with_magic-Reads (hash_eq magic_bytes magic_bytes)
        ((hash_eq_iff magic_bytes magic_bytes).1 refl) (checksum_field-Reads checksum t n four h)

  fields-Reads :
      (checksum : List ℕ) (t : ChunkType) (n : ℕ)
      → length checksum ≡ 4
      → IsU64 n
      → Reads
          (fields g)
          (magic_bytes ++ (checksum ++ (chunk_type_as_u8 t ∷ w.unsigned n)))
          (checksum, t, n)
  unfolding fields
  fields-Reads checksum t n four h =
      Reads-bind (λ magic i. after_magic g magic i) (take_4-Reads magic_bytes refl)
        (after_magic-Reads checksum t n four h)

  module _ (sha : Sha256) where
    length-checksum_of :
        (t : ChunkType) (bytes : List ℕ) → length (checksum_of (hash_chunk w sha t bytes)) ≡ 4
    unfolding hash_chunk
    length-checksum_of t bytes = length-take 4 (hash_chunk w sha t bytes) (
        rw (sha.digest_length (chunk_type_as_u8 t ∷ (w.unsigned (length bytes) ++ bytes)))
          (omega arith))

    length-write :
        (t : ChunkType) (bytes : List ℕ)
        → IsU64 (length bytes)
        → length (write w (new w sha t bytes)) ≡ size_of_header bytes
    unfolding write new
    length-write t bytes h = omega (
      arith,
      length-checksum_of t bytes,
      length-unsigned w (length bytes) h,
      length-append (checksum_of (hash_chunk w sha t bytes))
          (chunk_type_as_u8 t ∷ w.unsigned (length bytes)),
    )

    header_of-new :
        (t : ChunkType) (bytes rest : List ℕ) (i : Input) (n : ℕ)
        → n ≡ size_of_header bytes
        → header_of g w sha (advance i (bytes ++ rest) n) (
          (i.position, i.position + n),
          (checksum_of (hash_chunk w sha t bytes), t, length bytes),
        )
          ≡ ok (advance i (bytes ++ rest) n, new w sha t bytes)
    unfolding new
    header_of-new t bytes rest i n size =
        let payload = (take_n-Reads {E = E} bytes).run (advance i (bytes ++ rest) n) rest refl in
        let same : i.position + n - i.position ≡ size_of_header bytes = omega arith in
        rw (payload, same) refl

    parse-fields :
        (i i' : Input) (v : List ℕ × ChunkType × ℕ)
        → fields g i ≡ ok (i', v)
        → parse g w sha i ≡ header_of g w sha i' ((i.position, i'.position), v)
    unfolding parse range_of
    parse-fields i i' v e = rw e refl

    -- The header of a chunk, written in front of its data, is read back, with the same checksum,
    -- hash and size; the parser stops in front of the data, which lies at the range that `data_bytes`
    -- gives, and the checksum of the header is valid.
    pub parse-write_header :
        (t : ChunkType) (bytes rest : List ℕ) (i : Input)
        → IsU64 (length bytes)
        → i.bytes ≡ write w (new w sha t bytes) ++ (bytes ++ rest)
        → (parse g w sha i
            ≡ ok (
              advance i (bytes ++ rest) (length (write w (new w sha t bytes))),
              new w sha t bytes,
            ))
          × (data_range (new w sha t bytes) ≡ (
            length (write w (new w sha t bytes)),
            length (write w (new w sha t bytes) ++ bytes),
          ))
          × (checksum_valid (new w sha t bytes) ≡ true)
    unfolding write new data_range checksum_valid
    parse-write_header t bytes rest i h e =
        let n = length (write w (new w sha t bytes)) in
        let sum = checksum_of (hash_chunk w sha t bytes) in
        let size : n ≡ size_of_header bytes = length-write t bytes h in
        (
          parse-fields i (advance i (bytes ++ rest) n) (sum, t, length bytes)
                ((fields-Reads sum t (length bytes) (length-checksum_of t bytes) h).run i
                  (bytes ++ rest) e)
              ∙ header_of-new t bytes rest i n size,
          rw (length-append (write w (new w sha t bytes)) bytes, size) refl,
          (hash_eq_iff sum sum).1 refl,
        )
