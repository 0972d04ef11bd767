-- ===== src/Graph/ClockOf/Exact.antt =====
-- change_graph.rs: `calculate_clock` on a graph whose nodes are later than their parents.
use automerge_r.Common.{
  ℕ, zero, suc, ◌≤◌, ◌<◌, ◌≡◌, ◌↔◌, inl, inr, refl, true, List, [], ◌∷◌, none, length,
  length-replicate, All, ok, arith, Option-cases, leb,
}
use automerge_r.Clock.{SeqClock, merge}
use automerge_r.Clock
use automerge_r.Clock.Order.{count-new}
use automerge_r.Graph.Types.{ChangeGraph, lookup_clock, num_actors}
use automerge_r.Graph.ClockOf.{extend_unvisited, collect_desc, inner_loop, calculate_clock}
use automerge_r.Graph.ClockOf.Ancestors.{
  In, here, IsClockOf, IsAcyclic, Desc, insert_desc-Desc, In-insert_desc,
}
use automerge_r.Graph.ClockOf.Round.{
  node_mem_below, IsRound, include_node-IsNoted, next_uncached, next_cached,
}

module _ (g : ChangeGraph) (roots : List ℕ) (acyclic : IsAcyclic g) where
  Counted : ℕ → List ℕ → SeqClock → List ℕ → Type 0
  Counted fuel visited clock to_visit =
      (c : SeqClock) × (inner_loop g fuel none visited clock to_visit ≡ ok (c, []))
      × IsClockOf g c roots

  -- Enough fuel empties the set and leaves the clock of the roots.
  inner_loop-IsClockOf :
      (fuel b : ℕ) (visited to_visit : List ℕ) (clock : SeqClock)
      → b ≤ fuel
      → IsRound g roots b visited clock to_visit
      → Counted fuel visited clock to_visit
  unfolding inner_loop Counted
  inner_loop-IsClockOf fuel b visited [] clock hf r = (
    clock,
    refl,
    record {
      size = r.now.size;
      complete = λ m a s reached change. elim (r.waiting m a s reached change) [
        | inl seen ↦ seen
        | inr (t, i, anc) ↦ absurd i
      ];
      sound = r.now.sound;
    },
  )
  inner_loop-IsClockOf zero b visited (n ∷ to_visit) clock hf r =
      absurd (omega (arith, hf, r.desc.0))
  inner_loop-IsClockOf (suc fuel) b visited (n ∷ to_visit) clock hf r =
      let hn = r.desc.0 in
      let inside : n < length g.hashes = omega (arith, hn, r.room) in
      let unfull : leb (length visited) (length g.hashes) ≡ true = ground (arith, hn, r.room) in
      let (a, s, change, ha) = acyclic.changes n inside in
      let noted = include_node-IsNoted g roots clock n a s (r.from n (inl refl)) change ha r.now in
      let fresh = node_mem_below b n visited hn r.above in
      elim (Option-cases (lookup_clock g.clock_cache n)) [
        | inl absent ↦
            let (ps, e, hp) = acyclic.parents n inside in
            let rest =
              inner_loop-IsClockOf fuel n (n ∷ visited) (extend_unvisited (n ∷ visited) ps to_visit)
                noted.result (omega (arith, hn, hf))
                (next_uncached g roots b n visited to_visit ps clock r noted e hp) in
            (rest.0, rw (fresh, unfull, noted.returned, absent, e) rest.1, rest.2)
        | inr (cached, present) ↦
            let rest =
              inner_loop-IsClockOf fuel n (n ∷ visited) to_visit (merge noted.result cached)
                (omega (arith, hn, hf))
                (next_cached g roots b n visited to_visit clock cached r noted
                  (acyclic.cached n cached inside present)) in
            (rest.0, rw (fresh, unfull, noted.returned, present) rest.1, rest.2)
      ]

collect_desc-Desc : (b : ℕ) (nodes : List ℕ) → All (λ n. n < b) nodes → Desc b (collect_desc nodes)
unfolding collect_desc
collect_desc-Desc b [] h = tt
collect_desc-Desc b (n ∷ nodes) (hn, h) =
    insert_desc-Desc b n (collect_desc nodes) hn (collect_desc-Desc b nodes h)

In-collect_desc : (k : ℕ) (nodes : List ℕ) → In k (collect_desc nodes) ↔ In k nodes
unfolding collect_desc
In-collect_desc k [] = ground arith
In-collect_desc k (n ∷ nodes) =
    ground (arith, In-insert_desc k n (collect_desc nodes), In-collect_desc k nodes)

-- On a graph whose nodes are later than their parents, and whose cache holds clocks of their nodes,
-- `calculate_clock` of nodes of the graph returns, without a panic, the clock that has for each
-- actor the number of its last change among the nodes and their ancestors.
pub calculate_clock-IsClockOf :
    (g : ChangeGraph) (nodes : List ℕ)
    → IsAcyclic g
    → All (λ n. n < length g.hashes) nodes
    → (c : SeqClock) × (calculate_clock g nodes ≡ ok c) × IsClockOf g c nodes
unfolding calculate_clock Counted Clock.new
calculate_clock-IsClockOf g nodes acyclic h =
    let start =
      inner_loop-IsClockOf g nodes acyclic (length g.hashes) (length g.hashes) []
        (collect_desc nodes) (Clock.new (num_actors g)) (omega arith)
        record {
          now = record {
            size = length-replicate (num_actors g) none;
            sound = λ a pos. absurd (omega (arith, pos, count-new (num_actors g) a));
          };
          desc = collect_desc-Desc (length g.hashes) nodes h;
          above = tt;
          room = omega arith;
          from = λ t i. record { root = t; is_root = (In-collect_desc t nodes).0 i; path = here };
          waiting = λ m a s reached change.
              inr (
                reached.root,
                (In-collect_desc reached.root nodes).1 reached.is_root,
                reached.path,
              );
        } in
    (start.0, rw start.1, start.2)
