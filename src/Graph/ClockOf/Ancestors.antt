-- ===== src/Graph/ClockOf/Ancestors.antt =====
-- change_graph.rs: what the clock of a set of nodes is, by the ancestors of the nodes.
use automerge_r.Common.{
  ℕ, ◌≤◌, ◌<◌, ◌≡◌, ◌↔◌, ◌⊎◌, inl, inr, refl, List, [], ◌∷◌, some, length, All, get_elem?, ok,
  arith,
}
use mathlib.Core.Path.{subst}
use automerge_r.Clock.{SeqClock}
use automerge_r.Clock.Order.{count}
use automerge_r.Graph.Types.{ChangeGraph, lookup_clock, num_actors}
use automerge_r.Graph.Edges.{parents_of}
use automerge_r.Graph.ClockOf.{insert_desc}

abbrev pub In : ℕ → List ℕ → Type 0
In n [] = ⊥
In n (x ∷ xs) = (n ≡ x) ⊎ In n xs

-- The nodes that can be reached from a node, itself included, by going to parents.
pub data Ancestor (g : ChangeGraph) (n : ℕ) : ℕ → Type 0 where
  here : Ancestor g n n
  up :
      {m : ℕ} (p : ℕ) (ps : List ℕ)
      → Ancestor g n m
      → parents_of g m ≡ ok ps
      → In p ps
      → Ancestor g n p

pub Ancestor-trans :
    {g : ChangeGraph} {n m k : ℕ} → Ancestor g n m → Ancestor g m k → Ancestor g n k
Ancestor-trans a here = a
Ancestor-trans a (up p ps b e i) = up p ps (Ancestor-trans a b) e i

same_parents :
    (g : ChangeGraph) (p : ℕ) {n m : ℕ} {ps qs : List ℕ}
    → m ≡ n
    → parents_of g n ≡ ok ps
    → parents_of g m ≡ ok qs
    → In p qs
    → In p ps
same_parents g p same e f i = subst (λ l. In p l) (cc) i

-- An ancestor is the node itself or an ancestor of one of its parents.
pub Ancestor-first :
    {g : ChangeGraph} {n m : ℕ} (ps : List ℕ)
    → parents_of g n ≡ ok ps
    → Ancestor g n m
    → (m ≡ n) ⊎ ((p : ℕ) × In p ps × Ancestor g p m)
Ancestor-first ps e here = inl refl
Ancestor-first {g} ps e (up p qs a e' i) = elim (Ancestor-first ps e a) [
  | inl same ↦ inr (p, same_parents g p same e e' i, here)
  | inr (p', i', b) ↦ inr (p', i', up p qs b e' i)
]

-- The nodes that can be reached from some root.
pub record Reached (g : ChangeGraph) (roots : List ℕ) (m : ℕ) : Type 0 where
  pub root : ℕ
  pub is_root : In root roots
  pub path : Ancestor g root m

-- Change `m` is number `s` of actor `a`.
pub record IsChange (g : ChangeGraph) (m a s : ℕ) : Type 0 where
  pub actor : get_elem? g.actors m ≡ some a
  pub number : get_elem? g.seq m ≡ some s

-- The clock has, for each actor, the last of its changes that can be reached from the roots.
pub record IsClockOf (g : ChangeGraph) (clock : SeqClock) (roots : List ℕ) : Type 0 where
  pub size : length clock ≡ num_actors g
  pub complete : (m a s : ℕ) → Reached g roots m → IsChange g m a s → s ≤ count clock a
  pub sound :
      (a : ℕ) → 0 < count clock a → (m : ℕ) × Reached g roots m × IsChange g m a (count clock a)

-- Every node is later than its parents and has an actor and a number, and what the cache holds are
-- clocks of their nodes.
pub record IsAcyclic (g : ChangeGraph) : Type 0 where
  pub parents :
      (n : ℕ) → n < length g.hashes → (ps : List ℕ) × (parents_of g n ≡ ok ps) × All (λ p. p < n) ps
  pub changes :
      (n : ℕ) → n < length g.hashes → (a : ℕ) × (s : ℕ) × IsChange g n a s × (a < num_actors g)
  pub cached :
      (n : ℕ) (c : SeqClock)
      → n < length g.hashes
      → lookup_clock g.clock_cache n ≡ some c
      → IsClockOf g c (n ∷ [])

-- A strictly descending list below a bound.
abbrev pub Desc : ℕ → List ℕ → Type 0
Desc b [] = Unit
Desc b (x ∷ xs) = (x < b) × Desc x xs

pub Desc-le : {b c : ℕ} (xs : List ℕ) → b ≤ c → Desc b xs → Desc c xs
Desc-le [] h d = tt
Desc-le (x ∷ xs) h d = (omega arith, d.1)

pub insert_desc-Desc : (b n : ℕ) (xs : List ℕ) → n < b → Desc b xs → Desc b (insert_desc n xs)
unfolding insert_desc
insert_desc-Desc b n [] h d = (h, tt)
insert_desc-Desc b n (x ∷ xs) h (hx, d) = ground (arith, insert_desc-Desc x n xs)

pub In-insert_desc : (k n : ℕ) (xs : List ℕ) → In k (insert_desc n xs) ↔ ((k ≡ n) ⊎ In k xs)
unfolding insert_desc
In-insert_desc k n [] = (λ i. i, λ i. i)
In-insert_desc k n (x ∷ xs) = ground (arith, In-insert_desc k n xs)
