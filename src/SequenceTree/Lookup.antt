-- ===== src/SequenceTree/Lookup.antt =====
-- sequence_tree.rs: `get` is the lookup in the sequence of the tree.
use automerge_r.Common.{
  ℕ, zero, suc, ◌+◌, ◌-◌, ◌<◌, ◌≤◌, ◌≡◌, refl, sym, ap, ◌∙◌, inl, inr, List, [], ◌∷◌, ◌++◌, none,
  some, length, length-append, get_elem?, drop, arith,
}
use Prim.Native.Nat.{compare, Ordering}
use automerge_r.SequenceTree.{
  SequenceTreeNode, node, Nodes, nil, cons, len, count, SequenceTreeInternal,
}
use automerge_r.SequenceTree.Access.{get_node, get_child, get}
use automerge_r.SequenceTree.Flatten.{to_list, between, IsValid, AllValid, len-IsValid}

data Order3 (m n : ℕ) : Type 0 where
  less : m < n → compare m n ≡ Ordering.lt → Order3 m n
  equal : m ≡ n → compare m n ≡ Ordering.eq → Order3 m n
  more : n < m → compare m n ≡ Ordering.gt → Order3 m n

ordered : (m n : ℕ) (o : Ordering) → compare m n ≡ o → Order3 m n
ordered m n Ordering.lt e = less (ground (arith, e)) e
ordered m n Ordering.eq e = equal (ground (arith, e)) e
ordered m n Ordering.gt e = more (ground (arith, e)) e

order3 : (m n : ℕ) → Order3 m n
order3 m n = ordered m n (compare m n) refl

module _ {T : Type 0} where
  pub get_elem?-append_left :
      (xs ys : List T) (i : ℕ) → i < length xs → get_elem? (xs ++ ys) i ≡ get_elem? xs i
  get_elem?-append_left [] ys i h = absurd (omega arith)
  get_elem?-append_left (x ∷ xs) ys zero h = refl
  get_elem?-append_left (x ∷ xs) ys (suc i) h = get_elem?-append_left xs ys i (omega arith)

  pub get_elem?-append_right :
      (xs ys : List T) (i k : ℕ) → i ≡ length xs + k → get_elem? (xs ++ ys) i ≡ get_elem? ys k
  get_elem?-append_right [] ys i k e = let e' : i ≡ k = omega arith in ap (get_elem? ys) e'
  get_elem?-append_right (x ∷ xs) ys zero k e = absurd (omega arith)
  get_elem?-append_right (x ∷ xs) ys (suc i) k e = get_elem?-append_right xs ys i k (omega arith)

  get_elem?-beyond : (xs : List T) (i : ℕ) → length xs ≤ i → get_elem? xs i ≡ none
  get_elem?-beyond [] i h = refl
  get_elem?-beyond (x ∷ xs) zero h = absurd (omega arith)
  get_elem?-beyond (x ∷ xs) (suc i) h = get_elem?-beyond xs i (omega arith)

  get_elem?-drop : (xs : List T) (i : ℕ) → get_elem? xs i ≡ get_elem? (drop i xs) 0
  get_elem?-drop [] zero = refl
  get_elem?-drop [] (suc i) = refl
  get_elem?-drop (x ∷ xs) zero = refl
  get_elem?-drop (x ∷ xs) (suc i) = get_elem?-drop xs i

  drop-suc : (xs ys : List T) (i : ℕ) (x : T) → drop i xs ≡ x ∷ ys → drop (suc i) xs ≡ ys
  drop-suc [] ys zero x e = absurd (cc)
  drop-suc [] ys (suc i) x e = absurd (cc)
  drop-suc (z ∷ zs) ys zero x e = cc
  drop-suc (z ∷ zs) ys (suc i) x e = drop-suc zs ys i x e

mutual
  unfolding get_node to_list

  get_node_lem :
      {T : Type 0} (n : SequenceTreeNode T) (i : ℕ)
      → IsValid n
      → get_node n i ≡ get_elem? (to_list n) i
  get_node_lem (node es nil l) i v = refl
  get_node_lem (node es (cons c cs) l) i v = elim (v.1) [
    | inl e ↦ absurd (cc)
    | inr e ↦ get_child_lem (cons c cs) es es 0 0 i i v.3 refl e (omega arith)
  ]

  get_child_lem :
      {T : Type 0} (cs : Nodes T) (es fs : List T) (i cumulative index k : ℕ)
      → AllValid cs
      → drop i es ≡ fs
      → count cs ≡ suc (length fs)
      → index ≡ cumulative + k
      → get_child es cs i cumulative index ≡ get_elem? (between fs cs) k
  get_child_lem nil es fs i cumulative index k v ef ec h = absurd (omega arith)
  get_child_lem (cons c nil) es [] i cumulative index k v ef ec h =
      elim (order3 (cumulative + len c) index) [
        | less lt e ↦ rw e (
            sym (
              get_elem?-beyond (to_list c ++ []) k
                (omega (arith, length-append (to_list c) [], len-IsValid c v.0))))
        | equal eq e ↦ rw e (
            get_elem?-drop es i
            ∙ ap (λ xs. get_elem? xs 0) ef
            ∙ sym (
                get_elem?-beyond (to_list c ++ []) k
                  (omega (arith, length-append (to_list c) [], len-IsValid c v.0))))
        | more gt e ↦
            let ek : index - cumulative ≡ k = omega arith in
            rw e (
              ap (get_node c) ek
              ∙ get_node_lem c k v.0
              ∙ sym (get_elem?-append_left (to_list c) [] k (omega (arith, len-IsValid c v.0))))
      ]
  get_child_lem (cons c (cons c' cs)) es [] i cumulative index k v ef ec h = absurd (omega arith)
  get_child_lem (cons c cs) es (f ∷ fs) i cumulative index k v ef ec h =
      elim (order3 (cumulative + len c) index) [
        | less lt e ↦
            let k' = k - (len c + 1) in
            rw e (
              get_child_lem cs es fs (suc i) (cumulative + (len c + 1)) index k' v.1
                (drop-suc es fs i f ef) (omega arith) (omega arith)
              ∙ sym (
                  get_elem?-append_right (to_list c) (f ∷ between fs cs) k (suc k')
                    (omega (arith, len-IsValid c v.0))))
        | equal eq e ↦ rw e (
            get_elem?-drop es i
            ∙ ap (λ xs. get_elem? xs 0) ef
            ∙ sym (
                get_elem?-append_right (to_list c) (f ∷ between fs cs) k 0
                  (omega (arith, len-IsValid c v.0))))
        | more gt e ↦
            let ek : index - cumulative ≡ k = omega arith in
            rw e (
              ap (get_node c) ek
              ∙ get_node_lem c k v.0
              ∙ sym (
                  get_elem?-append_left (to_list c) (f ∷ between fs cs) k
                    (omega (arith, len-IsValid c v.0))))
      ]

-- What a tree stands for.
abbrev pub sequence : {T : Type 0} → SequenceTreeInternal T → List T
sequence none = []
sequence (some root) = to_list root

abbrev pub IsTree : {T : Type 0} → SequenceTreeInternal T → Type 0
IsTree none = Unit
IsTree (some root) = IsValid root

-- `get` of a tree is the lookup in the sequence of its elements, also beyond its end.
pub get-sequence :
    {T : Type 0} (t : SequenceTreeInternal T) (i : ℕ)
    → IsTree t
    → get t i ≡ get_elem? (sequence t) i
unfolding get
get-sequence none i v = refl
get-sequence (some root) i v = get_node_lem root i v
