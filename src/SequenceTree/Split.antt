-- ===== src/SequenceTree/Split.antt =====
-- sequence_tree.rs: `split_child` keeps the sequence of a node, and its halves are not full.
use automerge_r.Common.{
  length-take, ℕ, zero, suc, ◌+◌, ◌-◌, ◌*◌, ◌<◌, ◌≤◌, ◌≡◌, refl, sym, ap, ◌⊎◌, inl, inr, true,
  false, List, [], ◌∷◌, ◌++◌, some, length, length-append, length-drop, get_elem?, take, drop,
  arith,
}
use automerge_r.SequenceTree.{
  SequenceTreeNode, node, Nodes, nil, cons, len, is_full, count, b, take_children, drop_children,
  measured, left_half, right_half, middle, depth,
}
use automerge_r.SequenceTree.Flatten.{to_list, IsValid, AllValid, len-IsValid}
use automerge_r.SequenceTree.Children.{
  count-take_children, count-drop_children, AllValid-take_children, AllValid-drop_children,
  depth-take_children, depth-drop_children, length-between, between_split,
}

element_at :
    {T : Type 0} (xs : List T) (i : ℕ) → i < length xs → (x : T) × (get_elem? xs i ≡ some x)
element_at [] i h = absurd (omega arith)
element_at (x ∷ xs) zero h = (x, refl)
element_at (x ∷ xs) (suc i) h = element_at xs i (omega arith)

-- What the halves of a full child are.
pub record Halved {T : Type 0} (c : SequenceTreeNode T) : Type 0 where
  pub m : T
  pub middle_is : middle c ≡ some m
  pub left_valid : IsValid (left_half c)
  pub right_valid : IsValid (right_half c)
  pub left_room : is_full (left_half c) ≡ false
  pub right_room : is_full (right_half c) ≡ false
  pub whole : to_list c ≡ to_list (left_half c) ++ m ∷ to_list (right_half c)
  pub left_depth : depth (left_half c) ≤ depth c
  pub right_depth : depth (right_half c) ≤ depth c

module _ {T : Type 0} where
  measured-IsValid :
      (es : List T) (cs : Nodes T)
      → (cs ≡ nil) ⊎ (count cs ≡ suc (length es))
      → length es ≤ 2 * b - 1
      → AllValid cs
      → IsValid (measured es cs)
  measured-IsValid es cs fit bound v = (sym (length-between es cs v), fit, bound, v)

  Halved-leaf : (es : List T) (l : ℕ) → length es ≡ 31 → Halved (node es nil l)
  unfolding to_list depth
  Halved-leaf es l full =
      let (m, e) = element_at es 15 (omega arith) in
      let left : length (take 15 es) ≡ 15 = length-take 15 es (omega arith) in
      let right : length (drop 16 es) ≡ 15 = omega (arith, length-drop 16 es) in
      record {
        m = m;
        middle_is = e;
        left_valid = measured-IsValid (take 15 es) nil (inl refl) (omega arith) tt;
        right_valid = measured-IsValid (drop 16 es) nil (inl refl) (omega arith) tt;
        left_room = ground (arith, left);
        right_room = ground (arith, right);
        whole = between_split 15 es nil m e;
        left_depth = omega arith;
        right_depth = omega arith;
      }

  Halved-inner :
      (es : List T) (c : SequenceTreeNode T) (cs : Nodes T) (l : ℕ)
      → length es ≡ 31
      → count (cons c cs) ≡ 32
      → AllValid (cons c cs)
      → Halved (node es (cons c cs) l)
  unfolding to_list depth
  Halved-inner es c cs l full fit v =
      let (m, e) = element_at es 15 (omega arith) in
      let left : length (take 15 es) ≡ 15 = length-take 15 es (omega arith) in
      let right : length (drop 16 es) ≡ 15 = omega (arith, length-drop 16 es) in
      record {
        m = m;
        middle_is = e;
        left_valid =
            measured-IsValid (take 15 es) (take_children 16 (cons c cs))
              (inr (omega (arith, count-take_children 16 (cons c cs) (omega arith)))) (omega arith)
              (AllValid-take_children 16 (cons c cs) v);
        right_valid =
            measured-IsValid (drop 16 es) (drop_children 16 (cons c cs))
              (inr (omega (arith, count-drop_children 16 (cons c cs)))) (omega arith)
              (AllValid-drop_children 16 (cons c cs) v);
        left_room = ground (arith, left);
        right_room = ground (arith, right);
        whole = between_split 15 es (cons c cs) m e;
        left_depth = omega (arith, depth-take_children 16 (cons c cs));
        right_depth = omega (arith, depth-drop_children 16 (cons c cs));
      }

  -- A full child of a valid tree has exactly `2 * b - 1` elements.
  pub full-Halved : (c : SequenceTreeNode T) → IsValid c → is_full c ≡ true → Halved c
  full-Halved (node es nil l) v full = Halved-leaf es l (ground (arith, v.2, full))
  full-Halved (node es (cons c cs) l) v full =
      let n : length es ≡ 31 = ground (arith, v.2, full) in
      elim (v.1) [
        | inl e ↦ absurd (cc)
        | inr e ↦ Halved-inner es c cs l n (omega (arith, e, n)) v.3
      ]

  -- The lengths of the halves add up, which the code asserts.
  pub length-Halved :
      (c : SequenceTreeNode T) (h : Halved c)
      → IsValid c
      → len (left_half c) + len (right_half c) + 1 ≡ len c
  length-Halved c h v = omega (
    arith,
    ap length h.whole,
    length-append (to_list (left_half c)) (h.m ∷ to_list (right_half c)),
    len-IsValid c v,
    len-IsValid (left_half c) h.left_valid,
    len-IsValid (right_half c) h.right_valid,
  )
