-- ===== src/SequenceTree/Insert.antt =====
-- sequence_tree.rs: `insert` puts the element at its index, for every index up to the length.
use automerge_r.Common.{
  ℕ, zero, suc, ◌+◌, ◌≤◌, ◌≡◌, refl, ap, ◌∙◌, inl, inr, true, false, List, [], ◌∷◌, Option, some,
  length, arith, Bool-cases,
}
use mathlib.Core.Option
use mathlib.Core.Path.{subst}
use automerge_r.SequenceTree.{
  SequenceTreeNode, node, Nodes, nil, cons, elements, children, count, insert_at, is_full, is_empty,
  depth, grown, descend, insert_into_non_full_node,
}
use automerge_r.SequenceTree.Flatten.{to_list, IsValid, AllValid, len-IsValid}
use automerge_r.SequenceTree.Focus.{
  Focus, Inserted, length-Inserted, child_at-Focus, Focus-IsValid, Focus-bound, depth-Focus,
  find_child_index-Focus, set_child-AllValid, between-set_child, focused,
}
use automerge_r.SequenceTree.Focus.Splits.{SplitNode, split_node}

-- An operation that returns a valid node with `x` inserted.
pub record Done {T : Type 0} (o : Option (SequenceTreeNode T)) (xs : List T) (index : ℕ) (x : T)
    : Type 0 where
  pub result : SequenceTreeNode T
  pub returns : o ≡ some result
  pub valid : IsValid result
  pub inserted : Inserted xs index x (to_list result)

record InsertedAt {T : Type 0} (xs : List T) (i : ℕ) (x : T) : Type 0 where
  ys : List T
  returns : insert_at xs i x ≡ some ys
  inserted : Inserted xs i x ys

insert_at_lem : {T : Type 0} (xs : List T) (i : ℕ) (x : T) → i ≤ length xs → InsertedAt xs i x
insert_at_lem xs zero x h = record {
  ys = x ∷ xs;
  returns = refl;
  inserted = record { front = []; back = xs; before = refl; index = refl; behind = refl };
}
insert_at_lem [] (suc i) x h = absurd (omega arith)
insert_at_lem (y ∷ ys) (suc i) x h =
    let s = insert_at_lem ys i x (omega arith) in
    record {
      ys = y ∷ s.ys;
      returns = ap (Option.map (◌∷◌ y)) s.returns;
      inserted = record {
        front = y ∷ s.inserted.front;
        back = s.inserted.back;
        before = ap (◌∷◌ y) s.inserted.before;
        index = ap suc s.inserted.index;
        behind = ap (◌∷◌ y) s.inserted.behind;
      };
    }

module _ {T : Type 0} where
  -- The node above a child that took the element.
  pub grown_lem :
      (n c' : SequenceTreeNode T) {index i sub : ℕ} {c : SequenceTreeNode T} (x : T)
      → IsValid n
      → count (children n) ≡ suc (length (elements n))
      → Focus (children n) index i c sub
      → IsValid c'
      → Inserted (to_list c) sub x (to_list c')
      → IsValid (grown n i c') × Inserted (to_list n) index x (to_list (grown n i c'))
  unfolding to_list
  grown_lem (node es cs l) c' x v fit f vc s =
      let (all, n) = set_child-AllValid c' f v.3 vc in
      let ins = between-set_child es c' x f v.3 fit s in
      ((omega (arith, v.0, length-Inserted ins), inr (n ∙ fit), v.2, all), ins)

  -- A child that takes the element is found and put back.
  descend_lem :
      (insert_child : ℕ → T → SequenceTreeNode T → Option (SequenceTreeNode T))
      (n : SequenceTreeNode T) {index i sub : ℕ} {c : SequenceTreeNode T} (x : T)
      → IsValid n
      → count (children n) ≡ suc (length (elements n))
      → Focus (children n) index i c sub
      → Done (insert_child sub x c) (to_list c) sub x
      → Done (descend insert_child n index x) (to_list n) index x
  descend_lem insert_child n {index} {i} {sub} {c} x v fit f d =
      let (valid, ins) = grown_lem n d.result x v fit f d.valid d.inserted in
      record {
        result = grown n i d.result;
        returns =
            rw (find_child_index-Focus f)
              (rw (child_at-Focus f) (ap (Option.map (grown n i)) d.returns));
        valid = valid;
        inserted = ins;
      }

  leaf_lem :
      (fuel : ℕ) (es : List T) (l index : ℕ) (x : T)
      → IsValid (node es nil l)
      → is_full (node es nil l) ≡ false
      → index ≤ length es
      → Done (insert_into_non_full_node (suc fuel) index x (node es nil l)) es index x
  unfolding insert_into_non_full_node to_list
  leaf_lem fuel es l index x v room h =
      let s = insert_at_lem es index x h in
      record {
        result = node s.ys nil (l + 1);
        returns = rw room (ap (Option.map (λ ys. node ys nil (l + 1))) s.returns);
        valid = (
          omega (arith, v.0, length-Inserted s.inserted),
          inl refl,
          ground (arith, length-Inserted s.inserted, room),
          tt,
        );
        inserted = s.inserted;
      }

  valid_children : (n : SequenceTreeNode T) → IsValid n → AllValid (children n)
  valid_children (node es cs l) v = v.3

  same_sequence :
      {o : Option (SequenceTreeNode T)} (xs ys : List T) {index : ℕ} {x : T}
      → xs ≡ ys
      → Done o xs index x
      → Done o ys index x
  same_sequence {o} xs ys {index} {x} e d = subst (λ us. Done o us index x) e d

  -- The branches of an inner node, from what the recursive calls do.
  inner_full :
      (fuel : ℕ) (es : List T) (cs : Nodes T) (l : ℕ) {index i sub : ℕ} {c : SequenceTreeNode T}
      (x : T)
      → is_empty cs ≡ false
      → is_full (node es cs l) ≡ false
      → Focus cs index i c sub
      → is_full c ≡ true
      → (s : SplitNode (node es cs l) i index)
      → Done (descend (insert_into_non_full_node fuel) s.n' index x) (to_list s.n') index x
      → Done
          (insert_into_non_full_node (suc fuel) index x (node es cs l))
          (to_list (node es cs l))
          index
          x
  unfolding insert_into_non_full_node
  inner_full fuel es cs l {index} x inner room f full s d =
      let e = same_sequence (to_list s.n') (to_list (node es cs l)) s.same d in
      record {
        result = e.result;
        returns = rw room (
            rw inner (
              rw (find_child_index-Focus f)
                (rw (child_at-Focus f) (rw full (rw s.splits e.returns)))));
        valid = e.valid;
        inserted = e.inserted;
      }

  inner_room :
      (fuel : ℕ) (es : List T) (cs : Nodes T) (l : ℕ) {index i sub : ℕ} {c : SequenceTreeNode T}
      (x : T)
      → is_empty cs ≡ false
      → is_full (node es cs l) ≡ false
      → Focus cs index i c sub
      → is_full c ≡ false
      → IsValid (node es cs l)
      → count cs ≡ suc (length es)
      → Done (insert_into_non_full_node fuel sub x c) (to_list c) sub x
      → Done
          (insert_into_non_full_node (suc fuel) index x (node es cs l))
          (to_list (node es cs l))
          index
          x
  unfolding insert_into_non_full_node
  inner_room fuel es cs l {index} {i} x inner room f child_room v fit d =
      let (valid, ins) = grown_lem (node es cs l) d.result x v fit f d.valid d.inserted in
      record {
        result = grown (node es cs l) i d.result;
        returns = rw room (
            rw inner (
              rw (find_child_index-Focus f) (
                rw (child_at-Focus f)
                  (rw child_room (ap (Option.map (grown (node es cs l) i)) d.returns)))));
        valid = valid;
        inserted = ins;
      }

  pub insert_into_non_full_node_lem :
      (fuel index : ℕ) (x : T) (n : SequenceTreeNode T)
      → IsValid n
      → depth n ≤ fuel
      → is_full n ≡ false
      → index ≤ length (to_list n)
      → Done (insert_into_non_full_node fuel index x n) (to_list n) index x
  unfolding to_list depth
  insert_into_non_full_node_lem zero index x (node es cs l) v deep room h = absurd (omega arith)
  insert_into_non_full_node_lem (suc fuel) index x (node es nil l) v deep room h =
      leaf_lem fuel es l index x v room h
  insert_into_non_full_node_lem (suc fuel) index x (node es (cons c0 cs0) l) v deep room h =
      let cs : Nodes T = cons c0 cs0 in
      let fit : count cs ≡ suc (length es) = elim (v.1) [ inl e ↦ absurd (cc) | inr e ↦ e ] in
      let at = focused es cs index v.3 fit h in
      elim (Bool-cases (is_full at.c)) [
        | inl full ↦
            let s = split_node es cs l v fit (ground (arith, room)) at.focus full in
            let vs = valid_children s.n' s.valid in
            let vd = Focus-IsValid s.focus vs in
            let ih =
              insert_into_non_full_node_lem fuel s.sub x s.d vd
                (omega (arith, depth-Focus s.focus, s.shallow, deep)) s.room
                (omega (arith, Focus-bound s.focus, len-IsValid s.d vd)) in
            inner_full fuel es cs l x refl room at.focus full s
              (descend_lem (insert_into_non_full_node fuel) s.n' x s.valid s.fit s.focus ih)
        | inr child_room ↦
            let vc = Focus-IsValid at.focus v.3 in
            let ih =
              insert_into_non_full_node_lem fuel at.sub x at.c vc
                (omega (arith, depth-Focus at.focus, deep)) child_room
                (omega (arith, Focus-bound at.focus, len-IsValid at.c vc)) in
            inner_room fuel es cs l x refl room at.focus child_room v fit ih
      ]
