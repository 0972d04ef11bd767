-- ===== src/Clock.antt =====
-- rust/automerge/src/clock.rs: clocks by actor index. An index out of range panics: `none`.
pub mod Order
pub mod Renumber
use automerge_r.Common.{
  ℕ, zero, suc, Bool, true, false, List, [], ◌∷◌, Option, none, some, ltb, leb, ◌==◌, if◌then◌else◌,
  get_elem?, set, length, replicate,
}
use automerge_r.Ids.OpId.{OpId}

-- The number of changes seen of each actor; `None` where there are none.
abbrev pub SeqClock : Type 0
SeqClock = List (Option ℕ)

-- `<` on `Option<NonZeroU32>`
abbrev pub opt_lt : Option ℕ → Option ℕ → Bool
opt_lt none none = false
opt_lt none (some b) = true
opt_lt (some a) none = false
opt_lt (some a) (some b) = ltb a b

-- `NonZeroU32::try_from(data).ok()`
abbrev pub non_zero : ℕ → Option ℕ
non_zero n = if n == 0 then none else some n

unfoldable pub new : ℕ → SeqClock
new size = replicate size none

unfoldable pub get_for_actor : SeqClock → ℕ → Option ℕ
get_for_actor clock actor_index = elim (get_elem? clock actor_index) [
  | none ↦ none
  | some entry ↦ entry
]

unfoldable pub include : SeqClock → ℕ → Option ℕ → Option (SeqClock × Bool)
include clock actor_idx none = some (clock, false)
include clock actor_idx (some data') = elim (get_elem? clock actor_idx) [
  | none ↦ none
  | some none ↦ some (set clock actor_idx (non_zero data'), true)
  | some (some old_data) ↦
      if ltb old_data data'
      then some (set clock actor_idx (non_zero data'), true)
      else some (clock, false)
]

unfoldable pub merge : SeqClock → SeqClock → SeqClock
merge [] b = []
merge (x ∷ xs) [] = x ∷ xs
merge (x ∷ xs) (y ∷ ys) = (if opt_lt x y then y else x) ∷ merge xs ys

-- `Vec::remove` and `Vec::insert`
unfoldable pub remove_actor : SeqClock → ℕ → Option SeqClock
remove_actor [] idx = none
remove_actor (x ∷ xs) zero = some xs
remove_actor (x ∷ xs) (suc idx) = elim (remove_actor xs idx) [ none ↦ none | some r ↦ some (x ∷ r) ]

unfoldable pub rewrite_with_new_actor : SeqClock → ℕ → Option SeqClock
rewrite_with_new_actor xs zero = some (none ∷ xs)
rewrite_with_new_actor [] (suc idx) = none
rewrite_with_new_actor (x ∷ xs) (suc idx) = elim (rewrite_with_new_actor xs idx) [
  | none ↦ none
  | some r ↦ some (x ∷ r)
]

-- The largest operation counter seen of each actor.
abbrev pub Clock : Type 0
Clock = List ℕ

unfoldable pub covers : Clock → OpId → Option Bool
covers clock id = elim (get_elem? clock id.actor) [
  | none ↦ none
  | some max ↦ some (leb id.counter max)
]

-- An isolated actor sees all its own operations.
unfoldable pub isolate : Clock → ℕ → Option Clock
isolate clock actor_index =
    if ltb actor_index (length clock) then some (set clock actor_index 0xffff_ffff) else none

pub data ClockRange : Type 0 where
  current : Option Clock → ClockRange
  diff : Clock → Clock → ClockRange

unfoldable pub range_after : ClockRange → Option Clock
range_after (current none) = none
range_after (current (some after)) = some after
range_after (diff before after) = some after

unfoldable pub visible_after : ClockRange → OpId → Option Bool
unfolding covers
visible_after (current none) id = some true
visible_after (current (some after)) id = covers after id
visible_after (diff before after) id = covers after id

unfoldable pub predates : ClockRange → OpId → Option Bool
unfolding covers
predates (current after) id = some false
predates (diff before after) id = covers before id
