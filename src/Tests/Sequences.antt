-- ===== src/Tests/Sequences.antt =====
-- The theorems on sequence trees, applied to concrete trees.
use automerge_r.Common.{ℕ, suc, zero, ◌≡◌, refl, inl, inr, List, [], ◌∷◌, some, get_elem?, arith}
use automerge_r.SequenceTree.{SequenceTreeInternal, node, nil, cons, insert}
use automerge_r.SequenceTree.Access.{get, from_iter, iter}
use automerge_r.SequenceTree.Flatten.{IsValid}
use automerge_r.SequenceTree.Flatten
use automerge_r.SequenceTree.Lookup.{sequence, IsTree, get-sequence}
use automerge_r.SequenceTree.Refine.{TreeInserted, insert-sequence}
use automerge_r.SequenceTree.Collect.{Returns, from_iter-sequence, iter-sequence}

abbrev numbers_from : ℕ → ℕ → List ℕ
numbers_from zero i = []
numbers_from (suc n) i = i ∷ numbers_from n (suc i)

-- A full leaf, and a root above two leaves.
abbrev full_root : SequenceTreeInternal ℕ
full_root = some (node (numbers_from 31 0) nil 31)

abbrev two_leaves : SequenceTreeInternal ℕ
two_leaves =
    some (node (10 ∷ []) (cons (node (8 ∷ 9 ∷ []) nil 2) (cons (node (11 ∷ []) nil 1) nil)) 4)

full_root-IsTree : IsTree full_root
unfolding Flatten.between
full_root-IsTree = (refl, inl refl, omega arith, tt)

two_leaves-IsTree : IsTree two_leaves
unfolding Flatten.between
two_leaves-IsTree = (
  refl,
  inr refl,
  omega arith,
  ((refl, inl refl, omega arith, tt), ((refl, inl refl, omega arith, tt), tt)),
)

get-sequence_example : get two_leaves 3 ≡ get_elem? (sequence two_leaves) 3
get-sequence_example = get-sequence two_leaves 3 two_leaves-IsTree

insert-sequence_example : TreeInserted (insert full_root 20 99) full_root 20 99
unfolding Flatten.to_list
insert-sequence_example = insert-sequence full_root 20 99 full_root-IsTree (omega arith)

from_iter-sequence_example : Returns (from_iter (numbers_from 70 0)) (numbers_from 70 0)
from_iter-sequence_example = from_iter-sequence (numbers_from 70 0)

iter-sequence_example : iter two_leaves ≡ sequence two_leaves
iter-sequence_example = iter-sequence two_leaves two_leaves-IsTree
