-- ===== src/Parse/Input.antt =====
-- storage/parse.rs: `Input`, `ParseError`, `Needed` and the operations that cut an input.
use automerge_r.Common.{
  ℕ, ◌+◌, ◌-◌, Bool, true, false, List, [], ◌∷◌, Option, none, some, ltb, leb, if◌then◌else◌,
  length, take, drop, Result, ok, err, ◌>>=◌,
}

pub record Input : Type 0 where
  pub bytes : List ℕ
  pub position : ℕ
  pub original : List ℕ

pub data Needed : Type 0 where
  unknown : Needed
  size : ℕ → Needed

pub data ParseError (E : Type 0) : Type 0 where
  error : E → ParseError E
  incomplete : Needed → ParseError E

abbrev pub ParseResult : Type 0 → Type 0 → Type 0
ParseResult O E = Result (ParseError E) (Input × O)

abbrev pub Parser : Type 0 → Type 0 → Type 0
Parser O E = Input → ParseResult O E

-- `ParseError::lift`, with the conversion of the errors as its argument.
abbrev pub lift : {E F : Type 0} → (E → F) → ParseError E → ParseError F
lift from (error e) = error (from e)
lift from (incomplete n) = incomplete n

abbrev pub new : List ℕ → Input
new bytes = record { bytes = bytes; position = 0; original = bytes }

abbrev pub empty : Input
empty = record { bytes = []; position = 0; original = [] }

module _ {E : Type 0} where
  unfoldable pub take_1 : Parser ℕ E
  take_1 i = elim i.bytes [
    | [] ↦ err (incomplete (size 1))
    | b ∷ rest ↦ ok (record i { bytes = rest; position = i.position + 1 }, b)
  ]

  unfoldable pub take_n : ℕ → Parser (List ℕ) E
  take_n n i =
      if ltb (length i.bytes) n
      then err (incomplete (size (n - length i.bytes)))
      else ok (record i { bytes = drop n i.bytes; position = i.position + n }, take n i.bytes)

  unfoldable pub take_4 : Parser (List ℕ) E
  take_4 i =
      if ltb (length i.bytes) 4
      then err (incomplete (size (4 - length i.bytes)))
      else ok (record i { bytes = drop 4 i.bytes; position = i.position + 4 }, take 4 i.bytes)

  unfoldable pub rest : Parser (List ℕ) E
  rest i = ok (record i { bytes = []; position = i.position + length i.bytes }, i.bytes)

  -- The value with the range of positions that its parser read.
  unfoldable pub range_of : {R : Type 0} → Parser R E → Parser ((ℕ × ℕ) × R) E
  range_of parser i = do (i', value) ← parser i; ok (i', ((i.position, i'.position), value))

-- `&xs[..n]` and `&xs[n..]`, which panic if `n` is past the end.
abbrev pub slice_to {ℓ} : {A : Type ℓ} → List A → ℕ → Option (List A)
slice_to xs n = if leb n (length xs) then some (take n xs) else none

abbrev pub slice_from {ℓ} : {A : Type ℓ} → List A → ℕ → Option (List A)
slice_from xs n = if leb n (length xs) then some (drop n xs) else none

unfoldable pub truncate : Input → ℕ → Option Input
truncate i length' =
    let n = if ltb (length i.bytes) length' then length i.bytes else length' in
    elim (slice_to i.original (i.position + n)) [
      | none ↦ none
      | some original ↦
          some (record { bytes = take n i.bytes; position = i.position; original = original })
    ]

unfoldable pub skip : Input → ℕ → Option Input
skip i length' =
    if ltb (length i.bytes) length'
    then some (record { bytes = []; position = length i.bytes; original = i.original })
    else elim (slice_from i.original (i.position + length')) [
      | none ↦ none
      | some original ↦ some (record {
        bytes = drop length' i.bytes;
        position = i.position + length';
        original = original;
      })
    ]

pub record Split : Type 0 where
  pub first : Input
  pub remaining : Input

unfoldable pub split : Input → ℕ → Option Split
unfolding truncate skip
split i length' = elim (truncate i length') [
  | none ↦ none
  | some first ↦ elim (skip i length') [
    | none ↦ none
    | some remaining ↦ some (record { first = first; remaining = remaining })
  ]
]

abbrev pub reset : Input → Input
reset i = new i.bytes

abbrev pub is_empty : Input → Bool
is_empty i = elim i.bytes [ [] ↦ true | _ ∷ _ ↦ false ]

abbrev pub unconsumed_bytes : Input → List ℕ
unconsumed_bytes i = i.bytes

-- `Input::bytes` returns the whole input.
abbrev pub all_bytes : Input → List ℕ
all_bytes i = i.original

-- The input after its first `n` bytes have been read.
abbrev pub advance : Input → List ℕ → ℕ → Input
advance i left n = record { bytes = left; position = i.position + n; original = i.original }
