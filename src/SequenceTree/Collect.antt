-- ===== src/SequenceTree/Collect.antt =====
-- sequence_tree.rs: trees collected from an iterator, and the iterator of a tree.
use automerge_r.Common.{
  ℕ, zero, suc, ◌+◌, ◌≤◌, ◌<◌, ◌≡◌, refl, sym, ap, ◌∙◌, List, [], ◌∷◌, ◌++◌, append_assoc,
  append-nil, Option, none, some, length, length-append, get_elem?, drop, arith,
}
use mathlib.Core.Path.{subst}
use automerge_r.SequenceTree.{SequenceTreeInternal, new, tree_len, push}
use automerge_r.SequenceTree.Access.{push_all, from_iter, iter_from, iter, up_to_none}
use automerge_r.SequenceTree.Lookup.{sequence, IsTree, get-sequence}
use automerge_r.SequenceTree.Focus.{Inserted}
use automerge_r.SequenceTree.Refine.{insert-sequence, tree_len-sequence}

module _ {T : Type 0} where
  -- A tree that an operation returns, valid and standing for a list.
  pub record Returns (o : Option (SequenceTreeInternal T)) (xs : List T) : Type 0 where
    pub result : SequenceTreeInternal T
    pub returns : o ≡ some result
    pub valid : IsTree result
    pub whole : sequence result ≡ xs

  nothing_behind : (us vs : List T) → length us ≡ length (us ++ vs) → vs ≡ []
  nothing_behind us [] e = refl
  nothing_behind us (v ∷ vs) e = absurd (omega (arith, e, length-append us (v ∷ vs)))

  at_end : {xs ys : List T} {x : T} → Inserted xs (length xs) x ys → ys ≡ xs ++ x ∷ []
  at_end {x = x} s =
      let nothing = nothing_behind s.front s.back (s.index ∙ ap length s.before) in
      s.behind
      ∙ ap (λ us. s.front ++ x ∷ us) nothing
      ∙ ap (λ us. us ++ x ∷ [])
          (sym (s.before ∙ ap (λ us. s.front ++ us) nothing ∙ append-nil s.front))

  -- `push` returns on every valid tree and appends its element to the sequence.
  pub push-sequence :
      (t : SequenceTreeInternal T) (x : T) → IsTree t → Returns (push t x) (sequence t ++ x ∷ [])
  unfolding push
  push-sequence t x v =
      let e = tree_len-sequence t v in
      let s = insert-sequence t (tree_len t) x v (omega (arith, e)) in
      record {
        result = s.result;
        returns = s.returns;
        valid = s.valid;
        whole =
            at_end (subst (λ (n : ℕ). Inserted (sequence t) n x (sequence s.result)) e s.inserted);
      }

  push_all-sequence :
      (t : SequenceTreeInternal T) (xs : List T)
      → IsTree t
      → Returns (push_all t xs) (sequence t ++ xs)
  unfolding push_all
  push_all-sequence t [] v = record {
    result = t;
    returns = refl;
    valid = v;
    whole = sym (append-nil (sequence t));
  }
  push_all-sequence t (x ∷ xs) v =
      let p = push-sequence t x v in
      let r = push_all-sequence p.result xs p.valid in
      record {
        result = r.result;
        returns = rw p.returns r.returns;
        valid = r.valid;
        whole = r.whole ∙ ap (λ us. us ++ xs) p.whole ∙ append_assoc (sequence t) (x ∷ []) xs;
      }

  -- Collecting a list into a tree returns a valid tree that stands for the list.
  pub from_iter-sequence : (xs : List T) → Returns (from_iter xs) xs
  unfolding from_iter new
  from_iter-sequence xs = push_all-sequence none xs tt

  drop_beyond : (xs : List T) (i : ℕ) → length xs ≤ i → drop i xs ≡ []
  drop_beyond [] zero h = refl
  drop_beyond [] (suc i) h = refl
  drop_beyond (x ∷ xs) zero h = absurd (omega arith)
  drop_beyond (x ∷ xs) (suc i) h = drop_beyond xs i (omega arith)

  up_to_none-drop :
      (xs : List T) (i : ℕ) → up_to_none (get_elem? xs i) (drop (suc i) xs) ≡ drop i xs
  up_to_none-drop [] zero = refl
  up_to_none-drop [] (suc i) = refl
  up_to_none-drop (x ∷ xs) zero = refl
  up_to_none-drop (x ∷ xs) (suc i) = up_to_none-drop xs i

  -- The rest of the iteration from an index on.
  iter_from-drop :
      (t : SequenceTreeInternal T) (fuel index : ℕ)
      → IsTree t
      → length (sequence t) < fuel + index
      → iter_from t fuel index ≡ drop index (sequence t)
  unfolding iter_from
  iter_from-drop t zero index v h = sym (drop_beyond (sequence t) index (omega arith))
  iter_from-drop t (suc fuel) index v h =
      ap (λ o. up_to_none o (iter_from t fuel (suc index))) (get-sequence t index v)
      ∙ ap (up_to_none (get_elem? (sequence t) index))
          (iter_from-drop t fuel (suc index) v (omega arith))
      ∙ up_to_none-drop (sequence t) index

  -- Iterating over a valid tree gives its sequence, and then ends.
  pub iter-sequence : (t : SequenceTreeInternal T) → IsTree t → iter t ≡ sequence t
  unfolding iter
  iter-sequence t v = iter_from-drop t (suc (tree_len t)) 0 v (omega (arith, tree_len-sequence t v))
