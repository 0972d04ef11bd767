-- ===== src/Columnar/Rle/Nulls.antt =====
-- columnar/encoding/rle.rs: columns of nulls only, and lists of equal values.
use automerge_r.Common.{
  ℕ, zero, suc, ◌+◌, ◌<◌, ◌≡◌, refl, ap, ◌∙◌, Bool, true, false, List, [], ◌∷◌, ◌++◌, Option, none,
  some, map, length, replicate, arith,
}

-- The values are nulls.
abbrev pub all_null : {T : Type 0} → List (Option T) → Bool
all_null [] = true
all_null (none ∷ vs) = all_null vs
all_null (some v ∷ vs) = false

pub all_null-append_right :
    {T : Type 0} (us vs : List (Option T)) → all_null vs ≡ false → all_null (us ++ vs) ≡ false
all_null-append_right [] vs h = h
all_null-append_right (none ∷ us) vs h = all_null-append_right us vs h
all_null-append_right (some u ∷ us) vs h = refl

pub all_null-append_left :
    {T : Type 0} (us vs : List (Option T)) → all_null us ≡ false → all_null (us ++ vs) ≡ false
all_null-append_left [] vs h = absurd (cc)
all_null-append_left (none ∷ us) vs h = all_null-append_left us vs h
all_null-append_left (some u ∷ us) vs h = refl

pub all_null-replicate : (T : Type 0) (n : ℕ) → all_null {T = T} (replicate n none) ≡ true
all_null-replicate T zero = refl
all_null-replicate T (suc n) = all_null-replicate T n

pub length-map : {T : Type 0} (vs : List T) → length (map some vs) ≡ length vs
length-map [] = refl
length-map (v ∷ vs) = ap suc (length-map vs)

pub replicate-append : {A : Type 0} (n : ℕ) (a : A) → replicate (n + 1) a ≡ replicate n a ++ a ∷ []
replicate-append zero a = refl
replicate-append (suc n) a =
    let e : suc n + 1 ≡ suc (n + 1) = omega arith in
    ap (λ (t : ℕ). replicate t a) e ∙ ap (◌∷◌ a) (replicate-append n a)

pub all_null-run : {T : Type 0} (n : ℕ) (v : T) → 0 < n → all_null (replicate n (some v)) ≡ false
all_null-run zero v h = absurd (omega arith)
all_null-run (suc n) v h = refl

pub all_null-literals : {T : Type 0} (vs : List T) → 0 < length vs → all_null (map some vs) ≡ false
all_null-literals [] h = absurd (omega arith)
all_null-literals (v ∷ vs) h = refl

pub map-some-append :
    {T : Type 0} (us vs : List T) → map some (us ++ vs) ≡ map some us ++ map some vs
map-some-append [] vs = refl
map-some-append (u ∷ us) vs = ap (◌∷◌ (some u)) (map-some-append us vs)
