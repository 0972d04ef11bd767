-- ===== src/Parse/Leb128/Writer.antt =====
-- The `leb128` crate's writer of unsigned numbers, which the program calls and does not contain.
-- Its documented behaviour: the shortest sequence of seven-bit groups, lowest first, with the top
-- bit set on every byte but the last.
use automerge_r.Common.{
  ℕ, zero, suc, ◌+◌, ◌/◌, ◌%◌, ◌^◌, ◌≤◌, ◌<◌, ◌≡◌, ◌⊎◌, inl, inr, List, [], ◌∷◌, ltb, if◌then◌else◌,
  length, All, arith,
}
use native.Mathlib.Nat.{pow-suc}

pub record Writer : Type 0 where
  pub unsigned : ℕ → List ℕ
  pub last_group : (v : ℕ) → v < 128 → unsigned v ≡ v ∷ []
  pub more_groups : (v : ℕ) → 128 ≤ v → unsigned v ≡ (v % 128 + 128) ∷ unsigned (v / 128)

abbrev pub IsByte : ℕ → Type 0
IsByte b = b < 256

abbrev pub IsU64 : ℕ → Type 0
IsU64 v = v < 2 ^ 64

pub small_or_large : (v : ℕ) → (v < 128) ⊎ (128 ≤ v)
small_or_large v = ground arith

module _ (w : Writer) where
  bytes_fuel : (k v : ℕ) → v < 2 ^ suc k → All IsByte (w.unsigned v) × (0 < length (w.unsigned v))
  bytes_fuel zero v h = rw (w.last_group v (omega arith)) (omega arith)
  bytes_fuel (suc k) v h = elim (small_or_large v) [
    | inl small ↦ rw (w.last_group v small) (omega arith)
    | inr large ↦
        let ih = bytes_fuel k (v / 128) (omega (arith, pow-suc 2 (suc k))) in
        rw (w.more_groups v large) ((omega arith, ih.0), omega arith)
  ]

  -- Every number is written as at least one byte.
  pub unsigned_shape : (v : ℕ) → IsU64 v → All IsByte (w.unsigned v) × (0 < length (w.unsigned v))
  unsigned_shape v h = bytes_fuel 63 v h

-- A writer that meets the description.
unfoldable pub write_fuel : ℕ → ℕ → List ℕ
write_fuel zero v = v ∷ []
write_fuel (suc k) v =
    let more = write_fuel k (v / 128) in if ltb v 128 then v ∷ [] else (v % 128 + 128) ∷ more

write_fuel-eq : (k m v : ℕ) → v < k → v < m → write_fuel k v ≡ write_fuel m v
unfolding write_fuel
write_fuel-eq zero m v h h' = absurd (omega arith)
write_fuel-eq (suc k) zero v h h' = absurd (omega arith)
write_fuel-eq (suc k) (suc m) v h h' = ground (arith, write_fuel-eq k m (v / 128))

pub write_fuel-small : (v : ℕ) → v < 128 → write_fuel (suc v) v ≡ v ∷ []
unfolding write_fuel
write_fuel-small v h = ground arith

pub write_fuel-large :
    (v : ℕ)
    → 128 ≤ v
    → write_fuel (suc v) v ≡ (v % 128 + 128) ∷ write_fuel (suc (v / 128)) (v / 128)
unfolding write_fuel
write_fuel-large v h = ground (arith, write_fuel-eq v (suc (v / 128)) (v / 128))

abbrev pub writer : Writer
writer = record {
  unsigned = λ v. write_fuel (suc v) v;
  last_group = write_fuel-small;
  more_groups = write_fuel-large;
}
