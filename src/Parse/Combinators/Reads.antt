-- ===== src/Parse/Combinators/Reads.antt =====
-- What it is for a parser to read a value back from its bytes, and how the combinators keep that.
use automerge_r.Common.{
  ℕ, ◌<◌, ◌≡◌, refl, sym, ap, ◌∙◌, List, [], ◌∷◌, ◌++◌, length, length-append, take-append_left,
  drop-append_left, All, append_assoc, append-nil, false, arith, ok, ◌>>=◌,
}
use automerge_r.Parse.Input.{Input, Parser, advance, is_empty, take_1, take_n}
use automerge_r.Parse.Leb128.{FromLeb, leb128_u64}
use automerge_r.Parse.Leb128.Writer.{Writer, IsU64}
use automerge_r.Parse.Leb128.RoundTrip.{leb128_u64-unsigned}
use automerge_r.Parse.Combinators.{parse_times, length_prefixed, length_prefixed_bytes}

-- On an input that begins with `bs` the parser returns `a` and leaves what follows.
pub record Reads {A E : Type 0} (g : Parser A E) (bs : List ℕ) (a : A) : Type 0 where
  pub run :
      (i : Input) (rest : List ℕ) → i.bytes ≡ bs ++ rest → g i ≡ ok (advance i rest (length bs), a)

-- On an input that holds `bs` and no more the parser returns `a` and leaves nothing.
pub record ReadsEnd {A E : Type 0} (g : Parser A E) (bs : List ℕ) (a : A) : Type 0 where
  pub run : (i : Input) → i.bytes ≡ bs → g i ≡ ok (advance i [] (length bs), a)

pub is_empty-append :
    (i : Input) (xs ys : List ℕ) → i.bytes ≡ xs ++ ys → 0 < length xs → is_empty i ≡ false
is_empty-append i [] ys e h = absurd (omega arith)
is_empty-append i (x ∷ xs) ys e h = ground arith

-- Two advances are one.
advance-advance :
    (i : Input) (mid rest bs cs : List ℕ)
    → advance (advance i mid (length bs)) rest (length cs) ≡ advance i rest (length (bs ++ cs))
advance-advance i mid rest bs cs = ground (arith, length-append bs cs)

module _ {E : Type 0} where
  pub take_1-Reads : (b : ℕ) → Reads {E = E} take_1 (b ∷ []) b
  unfolding take_1
  take_1-Reads b = record { run = λ i rest e. rw (e, take_1) refl }

  pub take_n-Reads : (bs : List ℕ) → Reads {E = E} (take_n (length bs)) bs bs
  unfolding take_n
  take_n-Reads bs = record {
    run = λ i rest e.
        ground (arith, length-append bs rest, take-append_left bs rest, drop-append_left bs rest);
  }

  pub Reads-ok : {A : Type 0} (a : A) → Reads {E = E} (λ i. ok (i, a)) [] a
  Reads-ok a = record { run = λ i rest e. ground arith }

  -- The rule for `?`: one parser after another reads the one's bytes before the other's.
  pub Reads-bind :
      {A B : Type 0} {g : Parser A E} (k : A → Parser B E) {bs cs : List ℕ} {a : A} {b : B}
      → Reads g bs a
      → Reads (k a) cs b
      → Reads (λ i. g i >>= λ p. k p.1 p.0) (bs ++ cs) b
  Reads-bind {g} k {bs} {cs} {a} {b} r s = record {
    run = λ i rest e.
        let first = r.run i (cs ++ rest) (e ∙ append_assoc bs cs rest) in
        ap (λ z. z >>= λ p. k p.1 p.0) first
        ∙ s.run (advance i (cs ++ rest) (length bs)) rest refl
        ∙ ap (λ z. ok (z, b)) (advance-advance i (cs ++ rest) rest bs cs);
  }

  -- The same where the second parser reads to the end of the input.
  pub ReadsEnd-bind :
      {A B : Type 0} {g : Parser A E} (k : A → Parser B E) {bs cs : List ℕ} {a : A} {b : B}
      → Reads g bs a
      → ReadsEnd (k a) cs b
      → ReadsEnd (λ i. g i >>= λ p. k p.1 p.0) (bs ++ cs) b
  ReadsEnd-bind {g} k {bs} {cs} {a} {b} r s = record {
    run = λ i e.
        ap (λ z. z >>= λ p. k p.1 p.0) (r.run i cs e)
        ∙ s.run (advance i cs (length bs)) refl
        ∙ ap (λ z. ok (z, b)) (advance-advance i cs [] bs cs);
  }

  pub ReadsEnd-map :
      {A B : Type 0} {g : Parser A E} (k : A → B) {bs : List ℕ} {a : A}
      → ReadsEnd g bs a
      → ReadsEnd (λ i. g i >>= λ p. ok (p.0, k p.1)) bs (k a)
  ReadsEnd-map k r = record { run = λ i e. ap (λ z. z >>= λ p. ok (p.0, k p.1)) (r.run i e) }

  pub Reads-ReadsEnd :
      {A : Type 0} {g : Parser A E} {bs : List ℕ} {a : A} → Reads g bs a → ReadsEnd g bs a
  Reads-ReadsEnd {bs} r = record { run = λ i e. r.run i [] (e ∙ sym (append-nil bs)) }

  -- A parser that reads `bs` reads the same bytes written another way.
  pub Reads-cast :
      {A : Type 0} {g : Parser A E} {bs cs : List ℕ} {a : A} → bs ≡ cs → Reads g bs a → Reads g cs a
  Reads-cast e r = rw e at r

-- The bytes of a list of values, each written by `enc`.
abbrev pub concat_map : {A : Type 0} → (A → List ℕ) → List A → List ℕ
concat_map enc [] = []
concat_map enc (x ∷ xs) = enc x ++ concat_map enc xs

module _ {A E : Type 0} (g : Parser A E) (enc : A → List ℕ) where
  pub parse_times-Reads :
      (xs done : List A)
      → All (λ x. Reads g (enc x) x) xs
      → Reads (λ i. parse_times (length xs) g i done) (concat_map enc xs) (done ++ xs)
  unfolding parse_times
  parse_times-Reads [] done h = rw append-nil (Reads-ok done)
  parse_times-Reads (x ∷ xs) done (h, hs) = rw (sym (append_assoc done (x ∷ []) xs)) (
      Reads-bind (λ e i. parse_times (length xs) g i (done ++ (e ∷ []))) h
        (parse_times-Reads xs (done ++ (x ∷ [])) hs))

module _ {E : Type 0} ⦃f : FromLeb E⦄ (w : Writer) where
  pub leb128_u64-Reads : (v : ℕ) → IsU64 v → Reads {E = E} leb128_u64 (w.unsigned v) v
  leb128_u64-Reads v h = record { run = λ i rest e. leb128_u64-unsigned w v i rest h e }

  -- A list with its length in front.
  pub length_prefixed-Reads :
      {A : Type 0} (g : Parser A E) (enc : A → List ℕ) (xs : List A)
      → IsU64 (length xs)
      → All (λ x. Reads g (enc x) x) xs
      → Reads (length_prefixed g) (w.unsigned (length xs) ++ concat_map enc xs) xs
  unfolding length_prefixed
  length_prefixed-Reads g enc xs h hs =
      Reads-bind (λ n i. parse_times n g i []) (leb128_u64-Reads (length xs) h)
        (parse_times-Reads g enc xs [] hs)

  -- Bytes with their number in front.
  pub length_prefixed_bytes-Reads :
      (bs : List ℕ)
      → IsU64 (length bs)
      → Reads {E = E} length_prefixed_bytes (w.unsigned (length bs) ++ bs) bs
  unfolding length_prefixed_bytes
  length_prefixed_bytes-Reads bs h =
      Reads-bind take_n (leb128_u64-Reads (length bs) h) (take_n-Reads bs)
