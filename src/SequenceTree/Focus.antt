-- ===== src/SequenceTree/Focus.antt =====
-- sequence_tree.rs: the child that `find_child_index` finds, before and after a split.
pub mod Splits
use automerge_r.Common.{
  ℕ, zero, suc, ◌+◌, ◌-◌, ◌*◌, ◌<◌, ◌≤◌, ◌≡◌, refl, sym, ap, ◌∙◌, ◌⊎◌, inl, inr, Bool, true, false,
  List, [], ◌∷◌, ◌++◌, append_assoc, append-nil, Option, none, some, length, length-append, arith,
  if◌then◌else◌, leb,
}
use automerge_r.SequenceTree.{
  SequenceTreeNode, node, Nodes, nil, cons, len, count, child_at, set_child, find_child_from,
  find_child_index, depth, depth_children,
}
use automerge_r.SequenceTree.Flatten.{to_list, between, IsValid, AllValid, len-IsValid}

-- `ys` is `xs` with `x` at index `i`.
pub record Inserted {T : Type 0} (xs : List T) (i : ℕ) (x : T) (ys : List T) : Type 0 where
  pub front : List T
  pub back : List T
  pub before : xs ≡ front ++ back
  pub index : length front ≡ i
  pub behind : ys ≡ front ++ x ∷ back

-- Index `index` of a node falls into the child `c` of index `i`, at index `sub` there.
pub data Focus {T : Type 0} : Nodes T → ℕ → ℕ → SequenceTreeNode T → ℕ → Type 0 where
  here :
      (c : SequenceTreeNode T) (cs : Nodes T) (index : ℕ)
      → index ≤ len c
      → Focus (cons c cs) index 0 c index
  there :
      (c : SequenceTreeNode T) (cs : Nodes T) {index i sub : ℕ} {d : SequenceTreeNode T} (all : ℕ)
      → all ≡ len c + 1 + index
      → Focus cs index i d sub
      → Focus (cons c cs) all (suc i) d sub

pub at_most : (m n : ℕ) → (m ≤ n) ⊎ (n < m)
at_most m n = ground arith

module _ {T : Type 0} where
  pub length-Inserted :
      {xs ys : List T} {i : ℕ} {x : T} → Inserted xs i x ys → length ys ≡ length xs + 1
  length-Inserted {x = x} s = omega (
    arith,
    ap length s.before,
    ap length s.behind,
    length-append s.front s.back,
    length-append s.front (x ∷ s.back),
  )

  Inserted-append_right :
      (qs : List T) {xs ys : List T} {i : ℕ} {x : T}
      → Inserted xs i x ys
      → Inserted (xs ++ qs) i x (ys ++ qs)
  Inserted-append_right qs {x = x} s = record {
    front = s.front;
    back = s.back ++ qs;
    before = ap (λ us. us ++ qs) s.before ∙ append_assoc s.front s.back qs;
    index = s.index;
    behind = ap (λ us. us ++ qs) s.behind ∙ append_assoc s.front (x ∷ s.back) qs;
  }

  Inserted-append_left :
      (ps : List T) {xs ys : List T} {i : ℕ} (j : ℕ) {x : T}
      → j ≡ length ps + i
      → Inserted xs i x ys
      → Inserted (ps ++ xs) j x (ps ++ ys)
  Inserted-append_left ps j {x} ej s = record {
    front = ps ++ s.front;
    back = s.back;
    before = ap (λ us. ps ++ us) s.before ∙ sym (append_assoc ps s.front s.back);
    index = omega (arith, length-append ps s.front, s.index);
    behind = ap (λ us. ps ++ us) s.behind ∙ sym (append_assoc ps s.front (x ∷ s.back));
  }

  find_child_from-Focus :
      {cs : Nodes T} {index i sub : ℕ} {c : SequenceTreeNode T}
      → Focus cs index i c sub
      → (k cumulative all : ℕ) → all ≡ cumulative + index
      → find_child_from cs k cumulative all ≡ some (k + i, sub)
  unfolding find_child_from
  find_child_from-Focus (here c cs index h) k cumulative all e = ground arith
  find_child_from-Focus (there c cs all' e' f) k cumulative all e =
      ground (arith, find_child_from-Focus f (suc k) (cumulative + (len c + 1)) all (omega arith))

  -- The code finds the child of a focus.
  pub find_child_index-Focus :
      {cs : Nodes T} {index i sub : ℕ} {c : SequenceTreeNode T}
      → Focus cs index i c sub
      → find_child_index cs index ≡ some (i, sub)
  unfolding find_child_index
  find_child_index-Focus {index = index} {i} {sub} f =
      let z : 0 + i ≡ i = omega arith in
      find_child_from-Focus f 0 0 index (omega arith) ∙ ap (λ (t : ℕ). some (t, sub)) z

  pub child_at-Focus :
      {cs : Nodes T} {index i sub : ℕ} {c : SequenceTreeNode T}
      → Focus cs index i c sub
      → child_at cs i ≡ some c
  child_at-Focus (here c cs index h) = refl
  child_at-Focus (there c cs all e f) = child_at-Focus f

  pub Focus-IsValid :
      {cs : Nodes T} {index i sub : ℕ} {c : SequenceTreeNode T}
      → Focus cs index i c sub
      → AllValid cs
      → IsValid c
  Focus-IsValid (here c cs index h) v = v.0
  Focus-IsValid (there c cs all e f) v = Focus-IsValid f v.1

  pub Focus-bound :
      {cs : Nodes T} {index i sub : ℕ} {c : SequenceTreeNode T}
      → Focus cs index i c sub
      → sub ≤ len c
  Focus-bound (here c cs index h) = h
  Focus-bound (there c cs all e f) = Focus-bound f

  pub depth-Focus :
      {cs : Nodes T} {index i sub : ℕ} {c : SequenceTreeNode T}
      → Focus cs index i c sub
      → depth c ≤ depth_children cs
  unfolding depth
  depth-Focus (here c cs index h) = omega arith
  depth-Focus (there c cs all e f) = omega (arith, depth-Focus f)

  pub count-Focus :
      {cs : Nodes T} {index i sub : ℕ} {c : SequenceTreeNode T}
      → Focus cs index i c sub
      → 0 < count cs
  count-Focus (here c cs index h) = omega arith
  count-Focus (there c cs all e f) = omega arith

  -- Another child in the place of the focus.
  pub set_child-AllValid :
      {cs : Nodes T} {index i sub : ℕ} {c : SequenceTreeNode T} (c' : SequenceTreeNode T)
      → Focus cs index i c sub
      → AllValid cs
      → IsValid c'
      → AllValid (set_child cs i c') × (count (set_child cs i c') ≡ count cs)
  set_child-AllValid c' (here c cs index h) v v' = ((v', v.1), refl)
  set_child-AllValid c' (there c cs all e f) v v' =
      let (w, n) = set_child-AllValid c' f v.1 v' in ((v.0, w), ap suc n)

  -- What is inserted into the child is inserted into the node.
  pub between-set_child :
      (es : List T) {cs : Nodes T} {index i sub : ℕ} {c : SequenceTreeNode T}
      (c' : SequenceTreeNode T) (x : T)
      → Focus cs index i c sub
      → AllValid cs
      → count cs ≡ suc (length es)
      → Inserted (to_list c) sub x (to_list c')
      → Inserted (between es cs) index x (between es (set_child cs i c'))
  unfolding between
  between-set_child [] c' x (here c cs index h) v fit s = Inserted-append_right (between [] cs) s
  between-set_child (e ∷ es) c' x (here c cs index h) v fit s =
      Inserted-append_right (e ∷ between es cs) s
  between-set_child [] c' x (there c nil all eq f) v fit s = absurd (omega (arith, count-Focus f))
  between-set_child [] c' x (there c (cons d cs) all eq f) v fit s = absurd (omega arith)
  between-set_child (e ∷ es) c' x (there c cs {index} {i} all eq f) v fit s =
      Inserted-append_left (to_list c) all (omega (arith, len-IsValid c v.0)) (
        Inserted-append_left (e ∷ []) (suc index) (omega arith)
          (between-set_child es c' x f v.1 (omega arith) s))

  -- Every index of a valid node, the one behind its last element too, has a focus.
  pub record Focused (cs : Nodes T) (index : ℕ) : Type 0 where
    pub i : ℕ
    pub c : SequenceTreeNode T
    pub sub : ℕ
    pub focus : Focus cs index i c sub

  pub focused :
      (es : List T) (cs : Nodes T) (index : ℕ)
      → AllValid cs
      → count cs ≡ suc (length es)
      → index ≤ length (between es cs)
      → Focused cs index
  unfolding between
  focused es nil index v fit h = absurd (omega arith)
  focused [] (cons c nil) index v fit h = record {
    i = 0;
    c = c;
    sub = index;
    focus = here c nil index (omega (arith, h, length-append (to_list c) [], len-IsValid c v.0));
  }
  focused [] (cons c (cons d cs)) index v fit h = absurd (omega arith)
  focused (e ∷ es) (cons c cs) index v fit h = elim (at_most index (len c)) [
    | inl le ↦ record { i = 0; c = c; sub = index; focus = here c cs index le }
    | inr gt ↦
        let rest =
          focused es cs (index - (len c + 1)) v.1 (omega arith)
            (omega (arith, h, length-append (to_list c) (e ∷ between es cs), len-IsValid c v.0)) in
        record {
          i = suc rest.i;
          c = rest.c;
          sub = rest.sub;
          focus = there c cs index (omega arith) rest.focus;
        }
  ]
