-- ===== src/SequenceTree/Refine.antt =====
-- sequence_tree.rs: `SequenceTreeInternal` implements a list, its root being split when it is full.
use automerge_r.Common.{
  ℕ, ◌+◌, ◌-◌, ◌≤◌, ◌≡◌, refl, sym, ap, ◌∙◌, inl, inr, true, [], ◌∷◌, append-nil, Option, none,
  some, length, arith, ltb, ◌==◌, Bool-cases,
}
use mathlib.Core.Option
use mathlib.Core.Path.{subst}
use automerge_r.SequenceTree.{
  SequenceTreeNode, node, nil, cons, len, is_full, left_half, right_half, split_with, split_child,
  depth, grown, SequenceTreeInternal, tree_len, split_root, insert_below, insert_into, insert,
}
use automerge_r.SequenceTree.Flatten.{to_list, IsValid, len-IsValid}
use automerge_r.SequenceTree.Lookup.{sequence, IsTree}
use automerge_r.SequenceTree.Split.{Halved, full-Halved, length-Halved}
use automerge_r.SequenceTree.Focus.{Focus, here, there, Inserted, length-Inserted}
use automerge_r.SequenceTree.Focus.Splits.{halves_between}
use automerge_r.SequenceTree.Insert.{Done, grown_lem, insert_into_non_full_node_lem}

module _ {T : Type 0} where
  -- The root above the halves of a full one.
  abbrev above : (root : SequenceTreeNode T) → Halved root → SequenceTreeNode T
  above root h = node (h.m ∷ []) (cons (left_half root) (cons (right_half root) nil)) (len root)

  split_root_lem :
      (root : SequenceTreeNode T) (h : Halved root)
      → IsValid root
      → is_full root ≡ true
      → split_root root ≡ some (above root h)
  unfolding split_root split_child split_with
  split_root_lem root h v full =
      let lens : (len (left_half root) + len (right_half root) + 1 == len root) ≡ true =
        ground (arith, length-Halved root h v) in
      rw full (rw h.middle_is (rw lens refl))

  above_sequence :
      (root : SequenceTreeNode T) (h : Halved root) → to_list (above root h) ≡ to_list root
  unfolding to_list
  above_sequence root h = halves_between [] root h nil ∙ append-nil (to_list root)

  above-IsValid :
      (root : SequenceTreeNode T) (h : Halved root) → IsValid root → IsValid (above root h)
  unfolding to_list
  above-IsValid root h v = (
    len-IsValid root v ∙ sym (ap length (above_sequence root h)),
    inr refl,
    omega arith,
    (h.left_valid, (h.right_valid, tt)),
  )

  insert_below_lem :
      (root : SequenceTreeNode T) (h : Halved root) (index : ℕ) (x : T)
      → IsValid root
      → index ≤ len root
      → Done (insert_below (above root h) index x) (to_list (above root h)) index x
  unfolding insert_below
  insert_below_lem root h index x v le = elim (Bool-cases (ltb (len (left_half root)) index)) [
    | inl right ↦
        let sub = index - (len (left_half root) + 1) in
        let fits : sub ≤ len (right_half root) = ground (arith, length-Halved root h v, right) in
        let d =
          insert_into_non_full_node_lem (depth (right_half root)) sub x (right_half root)
            h.right_valid (omega arith) h.right_room
            (omega (arith, fits, len-IsValid (right_half root) h.right_valid)) in
        let f : Focus (cons (left_half root) (cons (right_half root) nil)) index 1 (right_half root)
            sub =
          there (left_half root) (cons (right_half root) nil) index (ground (arith, right))
            (here (right_half root) nil sub fits) in
        let (valid, ins) =
          grown_lem (above root h) d.result x (above-IsValid root h v) refl f d.valid d.inserted in
        record {
          result = grown (above root h) 1 d.result;
          returns = rw right (ap (Option.map (grown (above root h) 1)) d.returns);
          valid = valid;
          inserted = ins;
        }
    | inr left ↦
        let fits : index ≤ len (left_half root) = ground (arith, left) in
        let d =
          insert_into_non_full_node_lem (depth (left_half root)) index x (left_half root)
            h.left_valid (omega arith) h.left_room
            (omega (arith, fits, len-IsValid (left_half root) h.left_valid)) in
        let (valid, ins) =
          grown_lem (above root h) d.result x (above-IsValid root h v) refl
            (here (left_half root) (cons (right_half root) nil) index fits) d.valid d.inserted in
        record {
          result = grown (above root h) 0 d.result;
          returns = rw left (ap (Option.map (grown (above root h) 0)) d.returns);
          valid = valid;
          inserted = ins;
        }
  ]

  -- A tree that returns, is valid, and has the element at its index.
  pub record TreeInserted (o : Option (SequenceTreeInternal T)) (t : SequenceTreeInternal T)
      (index : ℕ) (x : T) : Type 0 where
    pub result : SequenceTreeInternal T
    pub returns : o ≡ some result
    pub valid : IsTree result
    pub inserted : Inserted (sequence t) index x (sequence result)

  insert_into_lem :
      (t : SequenceTreeInternal T) (index : ℕ) (x : T)
      → IsTree t
      → index ≤ length (sequence t)
      → TreeInserted (insert_into t index x) t index x
  unfolding insert_into to_list
  insert_into_lem none index x v h = record {
    result = some (node (x ∷ []) nil 1);
    returns = refl;
    valid = (refl, inl refl, omega arith, tt);
    inserted = record { front = []; back = []; before = refl; index = omega arith; behind = refl };
  }
  insert_into_lem (some root) index x v h = elim (Bool-cases (is_full root)) [
    | inl full ↦
        let hv = full-Halved root v full in
        let d = insert_below_lem root hv index x v (omega (arith, h, len-IsValid root v)) in
        let same : (len root == len root) ≡ true = ground arith in
        record {
          result = some d.result;
          returns =
              rw full
                (rw (split_root_lem root hv v full) (rw same (ap (Option.map some) d.returns)));
          valid = d.valid;
          inserted =
              subst (λ us. Inserted us index x (to_list d.result)) (above_sequence root hv)
                d.inserted;
        }
    | inr room ↦
        let d = insert_into_non_full_node_lem (depth root) index x root v (omega arith) room h in
        record {
          result = some d.result;
          returns = rw room (ap (Option.map some) d.returns);
          valid = d.valid;
          inserted = d.inserted;
        }
  ]

  -- `len` is the number of the elements.
  pub tree_len-sequence : (t : SequenceTreeInternal T) → IsTree t → tree_len t ≡ length (sequence t)
  tree_len-sequence none v = refl
  tree_len-sequence (some root) v = len-IsValid root v

  -- `insert` returns for every index up to the length, so that none of its assertions fails, and
  -- gives a tree that is valid again and whose sequence has the element inserted at the index.
  pub insert-sequence :
      (t : SequenceTreeInternal T) (index : ℕ) (x : T)
      → IsTree t
      → index ≤ length (sequence t)
      → TreeInserted (insert t index x) t index x
  unfolding insert
  insert-sequence t index x v h =
      let s = insert_into_lem t index x v h in
      let grows : (tree_len s.result == tree_len t + 1) ≡ true = ground (
        arith,
        tree_len-sequence t v,
        tree_len-sequence s.result s.valid,
        length-Inserted s.inserted,
      ) in
      record {
        result = s.result;
        returns = rw s.returns (rw grows refl);
        valid = s.valid;
        inserted = s.inserted;
      }
