-- ===== src/Ids/OpId/Renumber.antt =====
-- types.rs: renumbering the actors of ids loses nothing and keeps their order.
use automerge_r.Common.{ℕ, ◌+◌, ◌^◌, ◌<◌, ◌≡◌, ◌≢◌, ◌↔◌, none, some, arith}
use automerge_r.Ids.OpId.{
  OpId, op_id_lt, with_new_actor, without_actor, obj_with_new_actor, obj_without_actor,
}

-- Room for one more actor in a u32.
abbrev pub HasRoom : OpId → Type 0
HasRoom id = id.actor + 1 < 2 ^ 32

-- Removing an actor from an object id gives an id exactly where inserting the actor into that id
-- gives the first one, the root's included, and removal refuses exactly the ids of the actor.
pub renumber_inverse :
    (id id' : OpId) (idx : ℕ)
    → HasRoom id'
    → ((obj_without_actor id idx ≡ some id') ↔ (obj_with_new_actor id' idx ≡ id))
      × ((obj_without_actor id idx ≡ none) ↔ ((id.counter ≢ 0) × (id.actor ≡ idx)))
unfolding obj_without_actor obj_with_new_actor
renumber_inverse id id' idx h =
    ((λ e. ground arith, λ e. ground arith), (λ e. ground arith, λ p. ground arith))

-- Inserting an actor keeps the order of operation ids, in both directions; no id is the new actor's
-- then, and removing the actor gives the id back.
pub renumber_order :
    (a b : OpId) (idx : ℕ)
    → HasRoom a
    → HasRoom b
    → (op_id_lt (with_new_actor a idx) (with_new_actor b idx) ≡ op_id_lt a b)
      × ((with_new_actor a idx).actor ≢ idx)
      × (without_actor (with_new_actor a idx) idx ≡ some a)
unfolding op_id_lt with_new_actor without_actor
renumber_order a b idx ha hb = (ground arith, λ e. ground arith, ground arith)
