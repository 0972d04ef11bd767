-- ===== src/Graph/Query/Unseen.antt =====
-- change_graph.rs: the changes that a clock has not seen.
use automerge_r.Common.{
  ℕ, zero, suc, ◌+◌, ◌≤◌, ◌≡◌, ◌↔◌, ◌⊎◌, inl, inr, refl, sym, ap, List, [], ◌∷◌, ◌++◌, Option, none,
  some, length, drop, get_elem?, ok, arith,
}
use automerge_r.Clock.{SeqClock, get_for_actor}
use automerge_r.Clock.Order.{count, seen}
use automerge_r.Graph.Types.{ChangeGraph}
use automerge_r.Graph.ClockOf.Ancestors.{In}
use automerge_r.Graph.Query.{
  unseen_changes, unseen_by_actor, insert_sorted, sort_unstable, get_build_indexes,
}

-- The node stands in some actor's list at or after the clock's count of that actor.
pub record IsUnseen (index : List (List ℕ)) (clock : SeqClock) (first n : ℕ) : Type 0 where
  pub actor : ℕ
  pub nodes : List ℕ
  pub place : ℕ
  pub listed : get_elem? index actor ≡ some nodes
  pub at : get_elem? nodes place ≡ some n
  pub later : count clock (first + actor) ≤ place

In-get_elem? : (n i : ℕ) (xs : List ℕ) → get_elem? xs i ≡ some n → In n xs
In-get_elem? n i [] e = absurd (cc)
In-get_elem? n zero (x ∷ xs) e = inl (cc)
In-get_elem? n (suc i) (x ∷ xs) e = inr (In-get_elem? n i xs e)

In-drop_at : (k n i : ℕ) (xs : List ℕ) → k ≤ i → get_elem? xs i ≡ some n → In n (drop k xs)
In-drop_at zero n i xs h e = In-get_elem? n i xs e
In-drop_at (suc k) n i [] h e = absurd (cc)
In-drop_at (suc k) n zero (x ∷ xs) h e = absurd (omega arith)
In-drop_at (suc k) n (suc i) (x ∷ xs) h e = In-drop_at k n i xs (omega arith) e

drop-In : (k n : ℕ) (xs : List ℕ) → In n (drop k xs) → (i : ℕ) × (k ≤ i) × (get_elem? xs i ≡ some n)
drop-In zero n [] i = absurd i
drop-In (suc k) n [] i = absurd i
drop-In zero n (x ∷ xs) (inl e) = (0, omega arith, ap some (sym e))
drop-In zero n (x ∷ xs) (inr i) = let (j, h, e) = drop-In zero n xs i in (suc j, omega arith, e)
drop-In (suc k) n (x ∷ xs) i = let (j, h, e) = drop-In k n xs i in (suc j, omega (arith, h), e)

In-append : (n : ℕ) (xs ys : List ℕ) → In n (xs ++ ys) ↔ (In n xs ⊎ In n ys)
In-append n [] ys = ground arith
In-append n (x ∷ xs) ys = ground (arith, In-append n xs ys)

In-insert_sorted : (n m : ℕ) (xs : List ℕ) → In n (insert_sorted m xs) ↔ ((n ≡ m) ⊎ In n xs)
unfolding insert_sorted
In-insert_sorted n m [] = ground arith
In-insert_sorted n m (x ∷ xs) = ground (arith, In-insert_sorted n m xs)

In-sort_unstable : (n : ℕ) (xs : List ℕ) → In n (sort_unstable xs) ↔ In n xs
unfolding sort_unstable
In-sort_unstable n [] = ground arith
In-sort_unstable n (x ∷ xs) =
    ground (arith, In-insert_sorted n x (sort_unstable xs), In-sort_unstable n xs)

-- Ascending from a bound on.
abbrev pub IsAscending : ℕ → List ℕ → Type 0
IsAscending b [] = Unit
IsAscending b (x ∷ xs) = (b ≤ x) × IsAscending x xs

insert_sorted-IsAscending :
    (b m : ℕ) (xs : List ℕ) → b ≤ m → IsAscending b xs → IsAscending b (insert_sorted m xs)
unfolding insert_sorted
insert_sorted-IsAscending b m [] h a = (h, tt)
insert_sorted-IsAscending b m (x ∷ xs) h (hx, a) = ground (arith, insert_sorted-IsAscending x m xs)

sort_unstable-IsAscending : (xs : List ℕ) → IsAscending 0 (sort_unstable xs)
unfolding sort_unstable
sort_unstable-IsAscending [] = tt
sort_unstable-IsAscending (x ∷ xs) =
    insert_sorted-IsAscending 0 x (sort_unstable xs) (omega arith) (sort_unstable-IsAscending xs)

-- No actor's count is past its list.
pub record IsWithin (index : List (List ℕ)) (clock : SeqClock) (first : ℕ) : Type 0 where
  pub within :
      (j : ℕ) (nodes : List ℕ)
      → get_elem? index j ≡ some nodes
      → count clock (first + j) ≤ length nodes

record Collected (index : List (List ℕ)) (clock : SeqClock) (first : ℕ) : Type 0 where
  pub result : List ℕ
  pub returned : unseen_by_actor clock first index ≡ ok result
  pub to : (n : ℕ) → In n result → IsUnseen index clock first n
  pub from : (n : ℕ) → IsUnseen index clock first n → In n result

none_some : {xs : List ℕ} (j : ℕ) → get_elem? {A = List ℕ} [] j ≡ some xs → ⊥
none_some j e = absurd (cc)

unseen_entry :
    (entry : Option ℕ) (nodes : List ℕ)
    → seen entry ≤ length nodes
    → unseen_changes entry nodes ≡ ok (drop (seen entry) nodes)
unfolding unseen_changes
unseen_entry none nodes h = refl
unseen_entry (some k) nodes h = ground arith

unseen_changes-drop :
    (clock : SeqClock) (actor : ℕ) (nodes : List ℕ)
    → count clock actor ≤ length nodes
    → unseen_changes (get_for_actor clock actor) nodes ≡ ok (drop (count clock actor) nodes)
unfolding count
unseen_changes-drop clock actor nodes h = unseen_entry (get_for_actor clock actor) nodes h

count_next :
    (clock : SeqClock) (first j : ℕ) → count clock (first + 1 + j) ≡ count clock (first + suc j)
count_next clock first j = ap (count clock) (omega arith)

count_here : (clock : SeqClock) (first : ℕ) → count clock (first + 0) ≡ count clock first
count_here clock first = ap (count clock) (omega arith)

-- An unseen node is one of the first actor's, or of a later one's.
first_or_later :
    (nodes : List ℕ) (index : List (List ℕ)) (clock : SeqClock) (first n j place : ℕ)
    (found : List ℕ)
    → get_elem? (nodes ∷ index) j ≡ some found
    → get_elem? found place ≡ some n
    → count clock (first + j) ≤ place
    → In n (drop (count clock first) nodes) ⊎ IsUnseen index clock (first + 1) n
first_or_later nodes index clock first n zero place found e at h =
    inl
      (In-drop_at (count clock first) n place nodes (omega (arith, h, count_here clock first)) (cc))
first_or_later nodes index clock first n (suc j) place found e at h = inr (record {
  actor = j;
  nodes = found;
  place = place;
  listed = e;
  at = at;
  later = omega (arith, h, count_next clock first j);
})

unseen_by_actor-Collected :
    (index : List (List ℕ)) (clock : SeqClock) (first : ℕ)
    → IsWithin index clock first
    → Collected index clock first
unfolding unseen_by_actor
unseen_by_actor-Collected [] clock first w = record {
  result = [];
  returned = refl;
  to = λ n i. absurd i;
  from = λ n u. none_some u.actor u.listed;
}
unseen_by_actor-Collected (nodes ∷ index) clock first w =
    let rest = unseen_by_actor-Collected index clock (first + 1) (record {
      within = λ j ns e. omega (arith, w.within (suc j) ns e, count_next clock first j);
    }) in
    let own = drop (count clock first) nodes in
    record {
      result = own ++ rest.result;
      returned =
          rw
            (
              unseen_changes-drop clock first nodes
                  (omega (arith, w.within 0 nodes refl, count_here clock first)),
              rest.returned,
            )
            refl;
      to = λ n i. elim ((In-append n own rest.result).0 i) [
        | inl j ↦
            let (k, h, e) = drop-In (count clock first) n nodes j in
            record {
              actor = 0;
              nodes = nodes;
              place = k;
              listed = refl;
              at = e;
              later = omega (arith, h, count_here clock first);
            }
        | inr j ↦
            let u = rest.to n j in
            record {
              actor = suc u.actor;
              nodes = u.nodes;
              place = u.place;
              listed = u.listed;
              at = u.at;
              later = omega (arith, u.later, count_next clock first u.actor);
            }
      ];
      from = λ n u.
          (In-append n own rest.result).1
            (elim (first_or_later nodes index clock first n u.actor u.place u.nodes u.listed u.at
              u.later) [ inl j ↦ inl j | inr v ↦ inr (rest.from n v) ]);
    }

-- For a clock that counts no more changes of an actor than the graph has, `get_build_indexes`
-- returns, in ascending order, exactly the nodes in the actors' lists that the clock has not seen.
pub get_build_indexes-IsUnseen :
    (g : ChangeGraph) (clock : SeqClock)
    → IsWithin g.seq_index clock 0
    → (nodes : List ℕ) × (get_build_indexes g clock ≡ ok nodes)
      × IsAscending 0 nodes
      × ((n : ℕ) → In n nodes ↔ IsUnseen g.seq_index clock 0 n)
unfolding get_build_indexes
get_build_indexes-IsUnseen g clock w =
    let c = unseen_by_actor-Collected g.seq_index clock 0 w in
    (
      sort_unstable c.result,
      rw c.returned refl,
      sort_unstable-IsAscending c.result,
      λ n. (
        λ i. c.to n ((In-sort_unstable n c.result).0 i),
        λ u. (In-sort_unstable n c.result).1 (c.from n u),
      ),
    )
