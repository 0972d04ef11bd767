-- ===== src/SequenceTree/Children.antt =====
-- sequence_tree.rs: the vectors of children that a split makes, their counts, validity and depth.
use automerge_r.Common.{
  ℕ, zero, suc, ◌+◌, ◌-◌, ◌≤◌, ◌≡◌, refl, sym, ap, ◌∙◌, List, [], ◌∷◌, ◌++◌, append_assoc,
  append-nil, some, length, length-append, get_elem?, take, drop, arith,
}
use automerge_r.SequenceTree.{
  Nodes, nil, cons, count, sum_len, take_children, drop_children, depth_children,
}
use automerge_r.SequenceTree.Flatten.{to_list, between, AllValid, len-IsValid}

module _ {T : Type 0} where
  pub count-take_children : (n : ℕ) (cs : Nodes T) → n ≤ count cs → count (take_children n cs) ≡ n
  count-take_children zero cs h = refl
  count-take_children (suc n) nil h = absurd (omega arith)
  count-take_children (suc n) (cons c cs) h = ap suc (count-take_children n cs (omega arith))

  pub count-drop_children : (n : ℕ) (cs : Nodes T) → count (drop_children n cs) ≡ count cs - n
  count-drop_children zero cs = omega arith
  count-drop_children (suc n) nil = omega arith
  count-drop_children (suc n) (cons c cs) = omega (arith, count-drop_children n cs)

  pub AllValid-take_children : (n : ℕ) (cs : Nodes T) → AllValid cs → AllValid (take_children n cs)
  AllValid-take_children zero cs v = tt
  AllValid-take_children (suc n) nil v = tt
  AllValid-take_children (suc n) (cons c cs) v = (v.0, AllValid-take_children n cs v.1)

  pub AllValid-drop_children : (n : ℕ) (cs : Nodes T) → AllValid cs → AllValid (drop_children n cs)
  AllValid-drop_children zero cs v = v
  AllValid-drop_children (suc n) nil v = tt
  AllValid-drop_children (suc n) (cons c cs) v = AllValid-drop_children n cs v.1

  pub depth-take_children :
      (n : ℕ) (cs : Nodes T) → depth_children (take_children n cs) ≤ depth_children cs
  unfolding depth_children
  depth-take_children zero cs = omega arith
  depth-take_children (suc n) nil = omega arith
  depth-take_children (suc n) (cons c cs) = omega (arith, depth-take_children n cs)

  pub depth-drop_children :
      (n : ℕ) (cs : Nodes T) → depth_children (drop_children n cs) ≤ depth_children cs
  unfolding depth_children
  depth-drop_children zero cs = omega arith
  depth-drop_children (suc n) nil = omega arith
  depth-drop_children (suc n) (cons c cs) = omega (arith, depth-drop_children n cs)

  -- The length of a node from its elements and the lengths of its children.
  pub length-between :
      (es : List T) (cs : Nodes T) → AllValid cs → length (between es cs) ≡ length es + sum_len cs
  unfolding between
  length-between es nil v = omega arith
  length-between [] (cons c cs) v = omega (
    arith,
    length-append (to_list c) (between [] cs),
    length-between [] cs v.1,
    len-IsValid c v.0,
  )
  length-between (e ∷ es) (cons c cs) v = omega (
    arith,
    length-append (to_list c) (e ∷ between es cs),
    length-between es cs v.1,
    len-IsValid c v.0,
  )

  -- The sequence of a node around one of its elements.
  pub between_split :
      (n : ℕ) (es : List T) (cs : Nodes T) (m : T)
      → get_elem? es n ≡ some m
      → between es cs
        ≡ between (take n es) (take_children (suc n) cs)
          ++ m ∷ between (drop (suc n) es) (drop_children (suc n) cs)
  unfolding between
  between_split n [] cs m h = absurd (cc)
  between_split zero (e ∷ es) nil m h = cc
  between_split zero (e ∷ es) (cons c cs) m h =
      let same : e ≡ m = cc in
      ap (λ (t : T). to_list c ++ t ∷ between es cs) same
      ∙ ap (λ us. us ++ m ∷ between es cs) (sym (append-nil (to_list c)))
  between_split (suc n) (e ∷ es) nil m h = ap (◌∷◌ e) (between_split n es nil m h)
  between_split (suc n) (e ∷ es) (cons c cs) m h =
      ap (λ us. to_list c ++ e ∷ us) (between_split n es cs m h)
      ∙ sym (append_assoc (to_list c) (e ∷ between (take n es) (take_children (suc n) cs)) _)
