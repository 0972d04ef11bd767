-- ===== src/Common/Hash.antt =====
-- Hashes of changes as keys: equality, the lexicographic order, and sets of hashes as lists.
use automerge_r.Common.{
  ℕ, Bool, true, false, List, [], ◌∷◌, ◌++◌, ◌==◌, ltb, ◌&&◌, ◌||◌, not, if◌then◌else◌, ◌≡◌, ◌↔◌,
  refl, ap, arith,
}

-- A hash of a change: 32 bytes.
abbrev pub ChangeHash : Type 0
ChangeHash = List ℕ

unfoldable pub hash_eq : ChangeHash → ChangeHash → Bool
hash_eq [] [] = true
hash_eq [] (y ∷ ys) = false
hash_eq (x ∷ xs) [] = false
hash_eq (x ∷ xs) (y ∷ ys) = x == y && hash_eq xs ys

-- `a <= b` in the derived order of the bytes
unfoldable pub hash_leb : ChangeHash → ChangeHash → Bool
hash_leb [] ys = true
hash_leb (x ∷ xs) [] = false
hash_leb (x ∷ xs) (y ∷ ys) = ltb x y || x == y && hash_leb xs ys

pub hash_eq_iff : (a b : ChangeHash) → (hash_eq a b ≡ true) ↔ (a ≡ b)
unfolding hash_eq
hash_eq_iff [] [] = (λ _. refl, λ _. refl)
hash_eq_iff [] (y ∷ ys) = (λ e. cc, λ e. cc)
hash_eq_iff (x ∷ xs) [] = (λ e. cc, λ e. cc)
hash_eq_iff (x ∷ xs) (y ∷ ys) =
    (λ e. ground (arith, hash_eq_iff xs ys), λ e. ground (arith, hash_eq_iff xs ys))

unfoldable pub hash_mem : ChangeHash → List ChangeHash → Bool
unfolding hash_eq
hash_mem h [] = false
hash_mem h (x ∷ xs) = hash_eq h x || hash_mem h xs

-- `insert`, `remove` and `extend` of a set
unfoldable pub hash_insert : ChangeHash → List ChangeHash → List ChangeHash
unfolding hash_mem
hash_insert h xs = if hash_mem h xs then xs else xs ++ (h ∷ [])

unfoldable pub hash_remove : ChangeHash → List ChangeHash → List ChangeHash
unfolding hash_eq
hash_remove h [] = []
hash_remove h (x ∷ xs) = let rest = hash_remove h xs in if hash_eq h x then rest else x ∷ rest

unfoldable pub hash_filter : (ChangeHash → Bool) → List ChangeHash → List ChangeHash
hash_filter p [] = []
hash_filter p (x ∷ xs) = let rest = hash_filter p xs in if p x then x ∷ rest else rest

pub hash_mem-append :
    (k : ChangeHash) (xs ys : List ChangeHash)
    → hash_mem k (xs ++ ys) ≡ (hash_mem k xs || hash_mem k ys)
unfolding hash_mem
hash_mem-append k [] ys = refl
hash_mem-append k (x ∷ xs) ys = ground (arith, hash_mem-append k xs ys)

-- A hash that is equal to a member is a member.
pub hash_mem-eq :
    (k h : ChangeHash) (xs : List ChangeHash) → hash_eq k h ≡ true → hash_mem k xs ≡ hash_mem h xs
hash_mem-eq k h xs e = ap (λ x. hash_mem x xs) ((hash_eq_iff k h).0 e)

pub hash_mem-insert :
    (k h : ChangeHash) (xs : List ChangeHash)
    → hash_mem k (hash_insert h xs) ≡ (hash_eq k h || hash_mem k xs)
unfolding hash_insert hash_mem
hash_mem-insert k h xs = ground (arith, hash_mem-append k xs (h ∷ []), hash_mem-eq k h xs)

pub hash_mem-remove :
    (k h : ChangeHash) (xs : List ChangeHash)
    → hash_mem k (hash_remove h xs) ≡ (not (hash_eq h k) && hash_mem k xs)
unfolding hash_remove hash_mem
hash_mem-remove k h [] = ground arith
hash_mem-remove k h (x ∷ xs) =
    ground (arith, hash_mem-remove k h xs, hash_eq_iff h x, hash_eq_iff k x, hash_eq_iff h k)

pub hash_mem-filter :
    (p : ChangeHash → Bool) (k : ChangeHash) (xs : List ChangeHash)
    → hash_mem k (hash_filter p xs) ≡ (p k && hash_mem k xs)
unfolding hash_filter hash_mem
hash_mem-filter p k [] = ground arith
hash_mem-filter p k (x ∷ xs) = ground (arith, hash_mem-filter p k xs, hash_eq_iff k x)
