-- ===== src/Clock/Renumber.antt =====
-- clock.rs: a clock follows the renumbering of the actors.
use automerge_r.Common.{
  ℕ, zero, suc, ◌+◌, ◌^◌, ◌≤◌, ◌<◌, ◌≡◌, refl, [], ◌∷◌, none, some, length, arith, leb,
  if◌then◌else◌,
}
use automerge_r.Clock.{SeqClock, get_for_actor, remove_actor, rewrite_with_new_actor}
use automerge_r.Ids.OpId.{OpId, with_new_actor}

record Rewritten (clock : SeqClock) (idx : ℕ) : Type 0 where
  result : SeqClock
  returned : rewrite_with_new_actor clock idx ≡ some result
  undone : remove_actor result idx ≡ some clock
  fresh : get_for_actor result idx ≡ none
  moved : (k : ℕ) → get_for_actor result (if leb idx k then k + 1 else k) ≡ get_for_actor clock k

rewrite : (clock : SeqClock) (idx : ℕ) → idx ≤ length clock → Rewritten clock idx
unfolding rewrite_with_new_actor remove_actor get_for_actor
rewrite [] zero h = record {
  result = none ∷ [];
  returned = refl;
  undone = refl;
  fresh = refl;
  moved = λ k. ground arith;
}
rewrite (x ∷ clock) zero h = record {
  result = none ∷ x ∷ clock;
  returned = refl;
  undone = refl;
  fresh = refl;
  moved = λ k. ground arith;
}
rewrite [] (suc idx) h = absurd (omega arith)
rewrite (x ∷ clock) (suc idx) h =
    let r = rewrite clock idx (omega arith) in
    record {
      result = x ∷ r.result;
      returned = ground (arith, r.returned);
      undone = ground (arith, r.undone);
      fresh = r.fresh;
      moved = elim [ zero ↦ ground arith | suc k ↦ ground (arith, r.moved k) ];
    }

-- When an actor is inserted, a clock and an id that are renumbered agree as before, the new actor
-- has nothing in the clock, and removing it gives the clock back.
pub clock_renumber :
    (clock : SeqClock) (idx : ℕ) (id : OpId)
    → idx ≤ length clock
    → id.actor + 1 < 2 ^ 32
    → (c : SeqClock) × (rewrite_with_new_actor clock idx ≡ some c)
      × (remove_actor c idx ≡ some clock)
      × (get_for_actor c idx ≡ none)
      × (get_for_actor c (with_new_actor id idx).actor ≡ get_for_actor clock id.actor)
unfolding with_new_actor
clock_renumber clock idx id h room =
    let r = rewrite clock idx h in
    (r.result, r.returned, r.undone, r.fresh, ground (arith, r.moved id.actor))
