-- ===== src/SequenceTree/Focus/Splits.antt =====
-- sequence_tree.rs: `split_child` at the child that an index falls into, and where it falls then.
use automerge_r.Common.{
  ℕ, suc, ◌+◌, ◌-◌, ◌*◌, ◌≤◌, ◌≡◌, refl, sym, ap, ◌∙◌, inl, inr, true, false, List, [], ◌∷◌, ◌++◌,
  append_assoc, some, length, arith, ◌==◌,
}
use mathlib.Core.Option
use automerge_r.SequenceTree.{
  SequenceTreeNode, node, Nodes, cons, elements, children, len, count, set_child, insert_child,
  insert_at, is_full, left_half, right_half, split_with, split_child, and_then, depth,
  depth_children, b,
}
use automerge_r.SequenceTree.Flatten.{to_list, between, IsValid, AllValid}
use automerge_r.SequenceTree.Split.{Halved, length-Halved, full-Halved}
use automerge_r.SequenceTree.Focus.{
  Focus, here, there, at_most, count-Focus, child_at-Focus, Focus-IsValid,
}

-- The elements and the children behind a split, and the focus among them, which is not full.
pub record SplitAt {T : Type 0} (es : List T) (cs : Nodes T) (i index : ℕ) (c : SequenceTreeNode T)
    (m : T) : Type 0 where
  pub es' : List T
  pub cs' : Nodes T
  pub inserted_child : insert_child (set_child cs i (left_half c)) (suc i) (right_half c) ≡ some cs'
  pub inserted_element : insert_at es i m ≡ some es'
  pub same : between es' cs' ≡ between es cs
  pub more_elements : length es' ≡ suc (length es)
  pub more_children : count cs' ≡ suc (count cs)
  pub valid : AllValid cs'
  pub shallow : depth_children cs' ≤ depth_children cs
  pub j : ℕ
  pub d : SequenceTreeNode T
  pub sub : ℕ
  pub focus : Focus cs' index j d sub
  pub room : is_full d ≡ false

module _ {T : Type 0} where
  -- The half that an index of the child falls into.
  record Half (cl cr : SequenceTreeNode T) (cs : Nodes T) (index : ℕ) : Type 0 where
    j : ℕ
    d : SequenceTreeNode T
    sub : ℕ
    focus : Focus (cons cl (cons cr cs)) index j d sub
    room : is_full d ≡ false

  half :
      (c : SequenceTreeNode T) (h : Halved c) (cs : Nodes T) (index : ℕ)
      → IsValid c
      → index ≤ len c
      → Half (left_half c) (right_half c) cs index
  half c h cs index v le = elim (at_most index (len (left_half c))) [
    | inl small ↦ record {
      j = 0;
      d = left_half c;
      sub = index;
      focus = here (left_half c) (cons (right_half c) cs) index small;
      room = h.left_room;
    }
    | inr large ↦
        let sub = index - (len (left_half c) + 1) in
        record {
          j = 1;
          d = right_half c;
          sub = sub;
          focus =
              there (left_half c) (cons (right_half c) cs) index (omega arith)
                (here (right_half c) cs sub (omega (arith, length-Halved c h v)));
          room = h.right_room;
        }
  ]

  -- The halves with the middle between them, in the place of the child.
  pub halves_between :
      (es : List T) (c : SequenceTreeNode T) (h : Halved c) (cs : Nodes T)
      → between (h.m ∷ es) (cons (left_half c) (cons (right_half c) cs)) ≡ between es (cons c cs)
  unfolding between
  halves_between [] c h cs = sym (
      ap (λ us. us ++ between [] cs) h.whole
      ∙ append_assoc (to_list (left_half c)) (h.m ∷ to_list (right_half c)) (between [] cs))
  halves_between (e ∷ es) c h cs = sym (
      ap (λ us. us ++ e ∷ between es cs) h.whole
      ∙ append_assoc (to_list (left_half c)) (h.m ∷ to_list (right_half c)) (e ∷ between es cs))

  split-Focus :
      (es : List T) {cs : Nodes T} {index i sub : ℕ} {c : SequenceTreeNode T} (h : Halved c)
      → Focus cs index i c sub
      → AllValid cs
      → count cs ≡ suc (length es)
      → SplitAt es cs i index c h.m
  unfolding between depth
  split-Focus es h (here c cs index le) v fit =
      let half_at = half c h cs index v.0 le in
      record {
        es' = h.m ∷ es;
        cs' = cons (left_half c) (cons (right_half c) cs);
        inserted_child = refl;
        inserted_element = refl;
        same = halves_between es c h cs;
        more_elements = refl;
        more_children = refl;
        valid = (h.left_valid, (h.right_valid, v.1));
        shallow = omega (arith, h.left_depth, h.right_depth);
        j = half_at.j;
        d = half_at.d;
        sub = half_at.sub;
        focus = half_at.focus;
        room = half_at.room;
      }
  split-Focus [] h (there c cs all e f) v fit = absurd (omega (arith, count-Focus f))
  split-Focus (x ∷ es) h (there c cs all e f) v fit =
      let s = split-Focus es h f v.1 (omega arith) in
      record {
        es' = x ∷ s.es';
        cs' = cons c s.cs';
        inserted_child = ap (Option.map (cons c)) s.inserted_child;
        inserted_element = ap (Option.map (◌∷◌ x)) s.inserted_element;
        same = ap (λ us. to_list c ++ x ∷ us) s.same;
        more_elements = ap suc s.more_elements;
        more_children = ap suc s.more_children;
        valid = (v.0, s.valid);
        shallow = omega (arith, s.shallow);
        j = suc s.j;
        d = s.d;
        sub = s.sub;
        focus = there c s.cs' all e s.focus;
        room = s.room;
      }

  split_with_lem :
      (es : List T) (cs : Nodes T) (l i index : ℕ) (c : SequenceTreeNode T) (h : Halved c)
      (s : SplitAt es cs i index c h.m)
      → IsValid c
      → is_full c ≡ true
      → split_with (node es cs l) i c ≡ some (node s.es' s.cs' l)
  unfolding split_with
  split_with_lem es cs l i index c h s v full =
      let lens : (len (left_half c) + len (right_half c) + 1 == len c) ≡ true =
        ground (arith, length-Halved c h v) in
      rw full (rw h.middle_is (rw s.inserted_child (rw s.inserted_element (rw lens refl))))

  -- Splitting the full child that an index falls into: the node stands for the same sequence, and
  -- the index falls into a child that is not full.
  pub record SplitNode (n : SequenceTreeNode T) (i index : ℕ) : Type 0 where
    pub n' : SequenceTreeNode T
    pub splits : split_child n i ≡ some n'
    pub valid : IsValid n'
    pub same : to_list n' ≡ to_list n
    pub shallow : depth_children (children n') ≤ depth_children (children n)
    pub elements_grown : length (elements n') ≡ suc (length (elements n))
    pub fit : count (children n') ≡ suc (length (elements n'))
    pub j : ℕ
    pub d : SequenceTreeNode T
    pub sub : ℕ
    pub focus : Focus (children n') index j d sub
    pub room : is_full d ≡ false

  pub split_node :
      (es : List T) (cs : Nodes T) (l : ℕ) {index i sub : ℕ} {c : SequenceTreeNode T}
      → IsValid (node es cs l)
      → count cs ≡ suc (length es)
      → length es ≤ 2 * b - 2
      → Focus cs index i c sub
      → is_full c ≡ true
      → SplitNode (node es cs l) i index
  unfolding to_list split_child
  split_node es cs l {index} {i} {c = c} v fit room f full =
      let vc = Focus-IsValid f v.3 in
      let h = full-Halved c vc full in
      let s = split-Focus es h f v.3 fit in
      let fit' : count s.cs' ≡ suc (length s.es') =
        omega (arith, s.more_children, s.more_elements, fit) in
      record {
        n' = node s.es' s.cs' l;
        splits =
            ap (λ o. and_then o (split_with (node es cs l) i)) (child_at-Focus f)
            ∙ split_with_lem es cs l i index c h s vc full;
        valid =
            (v.0 ∙ sym (ap length s.same), inr fit', omega (arith, s.more_elements, room), s.valid);
        same = s.same;
        shallow = s.shallow;
        elements_grown = s.more_elements;
        fit = fit';
        j = s.j;
        d = s.d;
        sub = s.sub;
        focus = s.focus;
        room = s.room;
      }
