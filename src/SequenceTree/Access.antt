-- ===== src/SequenceTree/Access.antt =====
-- sequence_tree.rs: the lookup, the collection of an iterator into a tree, and the iterator of a tree.
use automerge_r.Common.{
  ℕ, zero, suc, ◌+◌, ◌-◌, List, [], ◌∷◌, Option, none, some, get_elem?, if◌then◌else◌,
}
use Prim.Native.Nat.{compare, Ordering}
use automerge_r.SequenceTree.{
  SequenceTreeNode, node, Nodes, nil, cons, len, is_empty, and_then, SequenceTreeInternal, new,
  tree_len, push,
}

-- A `match` on an ordering.
abbrev pub by_order : {R : Type 0} → Ordering → R → R → R → R
by_order Ordering.lt less equal greater = less
by_order Ordering.eq less equal greater = equal
by_order Ordering.gt less equal greater = greater

-- `get`, and its loop over the children.
unfoldable mutual
  pub get_node : {T : Type 0} → SequenceTreeNode T → ℕ → Option T
  get_node (node es cs l) index =
      let below = get_child es cs 0 0 index in if is_empty cs then get_elem? es index else below

  pub get_child : {T : Type 0} → List T → Nodes T → ℕ → ℕ → ℕ → Option T
  get_child es nil i cumulative index = none
  get_child es (cons c cs) i cumulative index =
      let later = get_child es cs (suc i) (cumulative + (len c + 1)) index in
      let here = get_node c (index - cumulative) in
      by_order (compare (cumulative + len c) index) later (get_elem? es i) here

unfoldable pub get : {T : Type 0} → SequenceTreeInternal T → ℕ → Option T
get none index = none
get (some root) index = get_node root index

-- `from_iter`: the elements are pushed one by one.
unfoldable pub push_all :
    {T : Type 0} → SequenceTreeInternal T → List T → Option (SequenceTreeInternal T)
push_all t [] = some t
push_all t (x ∷ xs) = and_then (push t x) (λ t'. push_all t' xs)

unfoldable pub from_iter : {T : Type 0} → List T → Option (SequenceTreeInternal T)
from_iter xs = push_all new xs

-- The value of `next` in front of the others, up to the first `None`.
abbrev pub up_to_none : {T : Type 0} → Option T → List T → List T
up_to_none none rest = []
up_to_none (some x) rest = x ∷ rest

-- `Iter`, which looks up one index after the other; the number of elements and one more is fuel
-- enough.
unfoldable pub iter_from : {T : Type 0} → SequenceTreeInternal T → ℕ → ℕ → List T
iter_from t zero index = []
iter_from t (suc fuel) index = up_to_none (get t index) (iter_from t fuel (suc index))

unfoldable pub iter : {T : Type 0} → SequenceTreeInternal T → List T
iter t = iter_from t (suc (tree_len t)) 0
