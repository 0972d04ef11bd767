-- ===== src/Clock/Order.antt =====
-- clock.rs: `include` and `merge` as operations on what a clock has seen.
use automerge_r.Common.{
  ℕ, zero, suc, ◌≤◌, ◌<◌, ◌≡◌, ◌↔◌, refl, ap, Bool, true, false, [], ◌∷◌, Option, none, some, ltb,
  ◌==◌, if◌then◌else◌, get_elem?, get_elem?-set, set, length, length-set, arith, Bool-cases, inl,
  inr,
}
use Prim.Native.Nat.{max}
use automerge_r.Clock.{SeqClock, opt_lt, non_zero, new, get_for_actor, include, merge}

-- How many changes of an actor the clock has seen.
abbrev pub seen : Option ℕ → ℕ
seen none = 0
seen (some n) = n

unfoldable pub count : SeqClock → ℕ → ℕ
unfolding get_for_actor
count clock a = seen (get_for_actor clock a)

pub count-new : (n a : ℕ) → count (new n) a ≡ 0
unfolding count new
count-new zero a = refl
count-new (suc n) zero = refl
count-new (suc n) (suc a) = count-new n a

pub length-merge : (a b : SeqClock) → length (merge a b) ≡ length a
unfolding merge
length-merge [] b = refl
length-merge (x ∷ a) [] = refl
length-merge (x ∷ a) (y ∷ b) = ap suc (length-merge a b)

merge_entry : (x y : Option ℕ) → seen (if opt_lt x y then y else x) ≡ max (seen x) (seen y)
merge_entry none none = omega arith
merge_entry none (some y) = omega arith
merge_entry (some x) none = omega arith
merge_entry (some x) (some y) = ground arith

pub count-merge :
    (a b : SeqClock) (k : ℕ)
    → length a ≡ length b
    → count (merge a b) k ≡ max (count a k) (count b k)
unfolding count merge
count-merge [] [] k h = omega arith
count-merge [] (y ∷ b) k h = absurd (omega arith)
count-merge (x ∷ a) [] k h = absurd (omega arith)
count-merge (x ∷ a) (y ∷ b) zero h = merge_entry x y
count-merge (x ∷ a) (y ∷ b) (suc k) h = count-merge a b k (omega arith)

pub record Included (clock : SeqClock) (i d : ℕ) : Type 0 where
  pub result : SeqClock
  pub changed : Bool
  pub returned : include clock i (some d) ≡ some (result, changed)
  pub size : length result ≡ length clock
  pub counts : (k : ℕ) → count result k ≡ (if k == i then max (count clock k) d else count clock k)

include_entry :
    (clock : SeqClock) (i d : ℕ) (old : Option ℕ)
    → get_elem? clock i ≡ some old
    → Included clock i d
unfolding include count get_for_actor
include_entry clock i d none e = record {
  result = set clock i (non_zero d);
  changed = true;
  returned = ground arith;
  size = length-set clock i (non_zero d);
  counts = λ k. ground (arith, get_elem?-set clock i k (non_zero d));
}
include_entry clock i d (some old) e = elim (Bool-cases (ltb old d)) [
  | inl more ↦ record {
    result = set clock i (non_zero d);
    changed = true;
    returned = ground arith;
    size = length-set clock i (non_zero d);
    counts = λ k. ground (arith, get_elem?-set clock i k (non_zero d));
  }
  | inr less ↦ record {
    result = clock;
    changed = false;
    returned = ground arith;
    size = refl;
    counts = λ k. ground arith;
  }
]

entry_at :
    (clock : SeqClock) (i : ℕ)
    → i < length clock
    → (old : Option ℕ) × (get_elem? clock i ≡ some old)
entry_at [] i h = absurd (omega arith)
entry_at (x ∷ clock) zero h = (x, refl)
entry_at (x ∷ clock) (suc i) h = entry_at clock i (omega arith)

-- Within the clock `include` does not panic, and the actor's count becomes the larger one.
pub include-Included : (clock : SeqClock) (i d : ℕ) → i < length clock → Included clock i d
include-Included clock i d h = let (old, e) = entry_at clock i h in include_entry clock i d old e

abbrev pub ClockLe : SeqClock → SeqClock → Type 0
ClockLe a b = (k : ℕ) → count a k ≤ count b k

-- The merge of two clocks of one document is their least upper bound: what is above it is what is
-- above both.
pub merge_bound :
    (a b c : SeqClock) → length a ≡ length b → ClockLe (merge a b) c ↔ (ClockLe a c × ClockLe b c)
merge_bound a b c h = (
  λ p. (λ k. omega (arith, count-merge a b k h, p k), λ k. omega (arith, count-merge a b k h, p k)),
  λ p k. omega (arith, count-merge a b k h, p.0 k, p.1 k),
)
