-- ===== src/SequenceTree/Flatten.antt =====
-- sequence_tree.rs: the sequence that a tree stands for, and what holds of every tree the code builds.
use automerge_r.Common.{suc, ◌-◌, ◌*◌, ◌≤◌, ◌≡◌, ◌⊎◌, List, [], ◌∷◌, ◌++◌, length}
use automerge_r.SequenceTree.{SequenceTreeNode, node, Nodes, nil, cons, len, count, b}

-- The children's sequences with the elements between them; a leaf is its elements.
unfoldable mutual
  pub to_list : {T : Type 0} → SequenceTreeNode T → List T
  to_list (node es cs l) = between es cs

  pub between : {T : Type 0} → List T → Nodes T → List T
  between es nil = es
  between [] (cons c cs) = to_list c ++ between [] cs
  between (e ∷ es) (cons c cs) = to_list c ++ e ∷ between es cs

-- The elements and the children of a node fit, no node has more than `2 * b - 1` elements, and every
-- length is the number of elements below.
abbrev mutual
  pub IsValid : {T : Type 0} → SequenceTreeNode T → Type 0
  IsValid (node es cs l) =
      (l ≡ length (between es cs))
      × ((cs ≡ nil) ⊎ (count cs ≡ suc (length es)))
      × (length es ≤ 2 * b - 1)
      × AllValid cs

  pub AllValid : {T : Type 0} → Nodes T → Type 0
  AllValid nil = Unit
  AllValid (cons c cs) = IsValid c × AllValid cs

pub len-IsValid : {T : Type 0} (n : SequenceTreeNode T) → IsValid n → len n ≡ length (to_list n)
unfolding to_list
len-IsValid (node es cs l) v = v.0
