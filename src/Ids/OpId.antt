-- ===== src/Ids/OpId.antt =====
-- types.rs: operation, object and element ids. An actor is an index into the document's sorted list
-- of actors, so ids are renumbered when an actor is inserted there or removed.
pub mod Renumber
use automerge_r.Common.{
  ℕ, ◌+◌, ◌-◌, ◌%◌, ◌^◌, Bool, List, [], ◌∷◌, Option, none, some, leb, ltb, ◌==◌, ◌&&◌, ◌||◌,
  if◌then◌else◌, get_elem?, Result, ok, err, ◌>>=◌,
}
use Prim.Native.Nat.{compare, Ordering}

pub record OpId : Type 0 where
  pub counter : ℕ
  pub actor : ℕ

-- `AutomergeError::InvalidActorIndex`
pub data IdError : Type 0 where
  invalid_actor_index : ℕ → IdError

abbrev pub root : OpId
root = record { counter = 0; actor = 0 }

-- `OpId::new` in two u32; `none` is the panic of its `unwrap`.
unfoldable pub op_id_new : ℕ → ℕ → Option OpId
op_id_new counter actor =
    if ltb counter (2 ^ 32) && ltb actor (2 ^ 32)
    then some (record { counter = counter; actor = actor })
    else none

-- The derived order: by counter, then by actor.
unfoldable pub op_id_lt : OpId → OpId → Bool
op_id_lt a b = ltb a.counter b.counter || a.counter == b.counter && ltb a.actor b.actor

unfoldable pub with_new_actor : OpId → ℕ → OpId
with_new_actor id idx =
    if leb idx id.actor then record id { actor = (id.actor + 1) % 2 ^ 32 } else id

unfoldable pub without_actor : OpId → ℕ → Option OpId
without_actor id idx = elim (compare id.actor idx) [
  | Ordering.gt ↦ some (record id { actor = id.actor - 1 })
  | Ordering.eq ↦ none
  | Ordering.lt ↦ some id
]

unfoldable pub map_actor : OpId → List ℕ → Result IdError OpId
map_actor id actor_map = elim (get_elem? actor_map id.actor) [
  | none ↦ err (invalid_actor_index id.actor)
  | some actor ↦ ok (record id { actor = actor % 2 ^ 32 })
]

-- An object id is the id of the operation that made the object; the root has counter 0.
abbrev pub is_root : OpId → Bool
is_root id = id.counter == 0

unfoldable pub obj_with_new_actor : OpId → ℕ → OpId
unfolding with_new_actor
obj_with_new_actor id idx = if is_root id then id else with_new_actor id idx

unfoldable pub obj_without_actor : OpId → ℕ → Option OpId
unfolding without_actor
obj_without_actor id idx = if is_root id then some id else without_actor id idx

-- The outer `none` is a panic.
unfoldable pub obj_load : Option ℕ → Option ℕ → Option (Option OpId)
unfolding op_id_new
obj_load none none = some (some root)
obj_load none (some a) = some none
obj_load (some c) none = some none
obj_load (some c) (some a) = elim (op_id_new c a) [ none ↦ none | some id ↦ some (some id) ]

unfoldable pub obj_map : OpId → List ℕ → Result IdError OpId
unfolding map_actor
obj_map id actor_map = if is_root id then ok id else map_actor id actor_map

-- The head of a sequence is the element id 0@0.
abbrev pub is_head : OpId → Bool
is_head id = id.counter == 0 && id.actor == 0

unfoldable pub elem_map : OpId → List ℕ → Result IdError OpId
unfolding map_actor
elem_map id actor_map = if is_head id then ok id else map_actor id actor_map
