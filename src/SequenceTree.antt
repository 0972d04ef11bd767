-- ===== src/SequenceTree.antt =====
-- rust/automerge/src/sequence_tree.rs: a sequence as a B-tree, and its insertion. A panic,
-- of an index or of an assertion, is `none`.
pub mod Access
pub mod Children
pub mod Flatten
pub mod Lookup
pub mod Split
pub mod Focus
pub mod Insert
pub mod Refine
pub mod Collect
use automerge_r.Common.{
  ℕ, zero, suc, ◌+◌, ◌-◌, ◌*◌, Bool, true, false, not, List, [], ◌∷◌, Option, none, some, length,
  get_elem?, take, drop, ltb, leb, ◌==◌, if◌then◌else◌,
}
use Prim.Native.Nat.{compare, Ordering, max}
use mathlib.Core.Option

-- `const B`
abbrev pub b : ℕ
b = 16

-- A node holds its elements, its children and the number of elements below it.
mutual
  pub data SequenceTreeNode (T : Type 0) : Type 0 where
    node : List T → Nodes T → ℕ → SequenceTreeNode T

  pub data Nodes (T : Type 0) : Type 0 where
    nil : Nodes T
    cons : SequenceTreeNode T → Nodes T → Nodes T

module _ {T : Type 0} where
  abbrev pub elements : SequenceTreeNode T → List T
  elements (node es cs l) = es

  abbrev pub children : SequenceTreeNode T → Nodes T
  children (node es cs l) = cs

  abbrev pub len : SequenceTreeNode T → ℕ
  len (node es cs l) = l

  abbrev pub is_empty : Nodes T → Bool
  is_empty nil = true
  is_empty (cons c cs) = false

  abbrev pub is_leaf : SequenceTreeNode T → Bool
  is_leaf n = is_empty (children n)

  abbrev pub is_full : SequenceTreeNode T → Bool
  is_full n = leb (2 * b - 1) (length (elements n))

  -- Vectors of children: `get`, the write at an index, `insert`, `split_off` and the sum of lengths.
  abbrev pub child_at : Nodes T → ℕ → Option (SequenceTreeNode T)
  child_at nil i = none
  child_at (cons c cs) zero = some c
  child_at (cons c cs) (suc i) = child_at cs i

  abbrev pub set_child : Nodes T → ℕ → SequenceTreeNode T → Nodes T
  set_child nil i c' = nil
  set_child (cons c cs) zero c' = cons c' cs
  set_child (cons c cs) (suc i) c' = cons c (set_child cs i c')

  abbrev pub insert_child : Nodes T → ℕ → SequenceTreeNode T → Option (Nodes T)
  insert_child cs zero c' = some (cons c' cs)
  insert_child nil (suc i) c' = none
  insert_child (cons c cs) (suc i) c' = Option.map (cons c) (insert_child cs i c')

  abbrev pub take_children : ℕ → Nodes T → Nodes T
  take_children zero cs = nil
  take_children (suc n) nil = nil
  take_children (suc n) (cons c cs) = cons c (take_children n cs)

  abbrev pub drop_children : ℕ → Nodes T → Nodes T
  drop_children zero cs = cs
  drop_children (suc n) nil = nil
  drop_children (suc n) (cons c cs) = drop_children n cs

  abbrev pub sum_len : Nodes T → ℕ
  sum_len nil = 0
  sum_len (cons c cs) = len c + sum_len cs

  abbrev pub count : Nodes T → ℕ
  count nil = 0
  count (cons c cs) = suc (count cs)

-- `Vec::insert`
abbrev pub insert_at : {T : Type 0} → List T → ℕ → T → Option (List T)
insert_at xs zero x = some (x ∷ xs)
insert_at [] (suc i) x = none
insert_at (y ∷ ys) (suc i) x = Option.map (◌∷◌ y) (insert_at ys i x)

-- `assert!`
abbrev pub assert : {R : Type 0} → Bool → Option R → Option R
assert true k = k
assert false k = none

abbrev pub and_then : {R S : Type 0} → Option R → (R → Option S) → Option S
and_then none f = none
and_then (some a) f = f a

module _ {T : Type 0} where
  -- The child that holds an index, with the index in it: `cumulative` is the number of elements
  -- before the children left, `i` the index of the first of them.
  unfoldable pub find_child_from : Nodes T → ℕ → ℕ → ℕ → Option (ℕ × ℕ)
  find_child_from nil i cumulative index = none
  find_child_from (cons c cs) i cumulative index =
      let later = find_child_from cs (suc i) (cumulative + (len c + 1)) index in
      if leb index (cumulative + len c) then some (i, index - cumulative) else later

  unfoldable pub find_child_index : Nodes T → ℕ → Option (ℕ × ℕ)
  find_child_index cs index = find_child_from cs 0 0 index

  -- The new lengths of the halves, from their elements and children.
  abbrev pub measured : List T → Nodes T → SequenceTreeNode T
  measured es cs = node es cs (length es + sum_len cs)

  -- The halves of a full child, its first `b` elements less the last of them, which is the middle.
  abbrev pub left_half : SequenceTreeNode T → SequenceTreeNode T
  left_half (node es cs l) =
      measured (take (b - 1) es) (if is_empty cs then cs else take_children b cs)

  abbrev pub right_half : SequenceTreeNode T → SequenceTreeNode T
  right_half (node es cs l) = measured (drop b es) (if is_empty cs then nil else drop_children b cs)

  abbrev pub middle : SequenceTreeNode T → Option T
  middle n = get_elem? (elements n) (b - 1)

  -- `split_child`: the right half goes behind the left one and the middle between them.
  unfoldable pub split_with :
      SequenceTreeNode T → ℕ → SequenceTreeNode T → Option (SequenceTreeNode T)
  split_with (node es cs l) i full_child = assert (is_full full_child) (
      and_then (middle full_child) (λ m.
        and_then
          (insert_child (set_child cs i (left_half full_child)) (suc i) (right_half full_child))
          (λ cs'. and_then (insert_at es i m) (λ es'.
            assert (len (left_half full_child) + len (right_half full_child) + 1 == len full_child)
              (some (node es' cs' l))))))

  unfoldable pub split_child : SequenceTreeNode T → ℕ → Option (SequenceTreeNode T)
  split_child n i = and_then (child_at (children n) i) (split_with n i)

  -- A longer node with another child in the place of one.
  abbrev pub grown : SequenceTreeNode T → ℕ → SequenceTreeNode T → SequenceTreeNode T
  grown (node es cs l) i c' = node es (set_child cs i c') (l + 1)

  -- Going down into the child that holds the index, which is not full.
  abbrev pub descend :
      (ℕ → T → SequenceTreeNode T → Option (SequenceTreeNode T))
      → SequenceTreeNode T
      → ℕ
      → T
      → Option (SequenceTreeNode T)
  descend insert n index element = and_then (find_child_index (children n) index) (λ f.
      and_then (child_at (children n) f.0) (λ c. Option.map (grown n f.0) (insert f.1 element c)))

  -- `insert_into_non_full_node`, with the depth of the node as fuel.
  unfoldable pub insert_into_non_full_node :
      ℕ → ℕ → T → SequenceTreeNode T → Option (SequenceTreeNode T)
  insert_into_non_full_node zero index element n = none
  insert_into_non_full_node (suc fuel) index element n = assert (not (is_full n)) (
      if is_leaf n
      then Option.map (λ es. node es (children n) (len n + 1))
          (insert_at (elements n) index element)
      else and_then (find_child_index (children n) index) (λ f.
        and_then (child_at (children n) f.0) (λ c.
          if is_full c
          then and_then (split_child n f.0)
              (λ n'. descend (insert_into_non_full_node fuel) n' index element)
          else Option.map (grown n f.0) (insert_into_non_full_node fuel f.1 element c))))

-- The levels of a tree.
unfoldable mutual
  pub depth : {T : Type 0} → SequenceTreeNode T → ℕ
  depth (node es cs l) = suc (depth_children cs)

  pub depth_children : {T : Type 0} → Nodes T → ℕ
  depth_children nil = 0
  depth_children (cons c cs) = max (depth c) (depth_children cs)

-- `SequenceTreeInternal`, by its root.
abbrev pub SequenceTreeInternal : Type 0 → Type 0
SequenceTreeInternal T = Option (SequenceTreeNode T)

module _ {T : Type 0} where
  unfoldable pub new : SequenceTreeInternal T
  new = none

  abbrev pub tree_len : SequenceTreeInternal T → ℕ
  tree_len none = 0
  tree_len (some root) = len root

  abbrev pub insert_node : ℕ → T → SequenceTreeNode T → Option (SequenceTreeNode T)
  insert_node index element n = insert_into_non_full_node (depth n) index element n

  -- A new root above a full one, which is split.
  unfoldable pub split_root : SequenceTreeNode T → Option (SequenceTreeNode T)
  split_root root = split_child (node [] (cons root nil) (len root)) 0

  unfoldable pub insert_below : SequenceTreeNode T → ℕ → T → Option (SequenceTreeNode T)
  insert_below root index element = and_then (child_at (children root) 0) (λ first.
      if ltb (len first) index
      then and_then (child_at (children root) 1)
          (λ c. Option.map (grown root 1) (insert_node (index - (len first + 1)) element c))
      else Option.map (grown root 0) (insert_node index element first))

  unfoldable pub insert_into : SequenceTreeInternal T → ℕ → T → Option (SequenceTreeInternal T)
  insert_into none index element = some (some (node (element ∷ []) nil 1))
  insert_into (some root) index element =
      if is_full root
      then and_then (split_root root) (λ new_root.
        assert (len root == len new_root) (Option.map some (insert_below new_root index element)))
      else Option.map some (insert_node index element root)

  unfoldable pub insert : SequenceTreeInternal T → ℕ → T → Option (SequenceTreeInternal T)
  insert t index element =
      and_then (insert_into t index element)
        (λ t'. assert (tree_len t' == tree_len t + 1) (some t'))

  unfoldable pub push : SequenceTreeInternal T → T → Option (SequenceTreeInternal T)
  push t element = insert t (tree_len t) element
