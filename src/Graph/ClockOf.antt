-- ===== src/Graph/ClockOf.antt =====
-- change_graph.rs: the clock of a set of heads.
pub mod Ancestors
pub mod Round
pub mod Exact
use automerge_r.Common.{
  ℕ, zero, suc, ◌+◌, Bool, true, false, not, List, [], ◌∷◌, ◌++◌, Option, none, some, ltb, leb,
  ◌==◌, if◌then◌else◌, get_elem?, length, Result, ok, err, ◌>>=◌,
}
use automerge_r.Common.Hash.{ChangeHash}
use automerge_r.Clock.{SeqClock, include, merge, get_for_actor, Clock}
use automerge_r.Clock
use automerge_r.Graph.Types.{
  ChangeGraph, GraphError, panic, unwrap, assert, lookup_clock, num_actors, heads_to_nodes,
}
use automerge_r.Graph.Edges.{parents_of}

-- A `BTreeSet<NodeIdx>`, largest first, so that `pop_last` takes the front.
unfoldable pub insert_desc : ℕ → List ℕ → List ℕ
insert_desc n [] = n ∷ []
insert_desc n (m ∷ ms) =
    let below = insert_desc n ms in
    if n == m then m ∷ ms else if ltb m n then n ∷ m ∷ ms else m ∷ below

unfoldable pub node_mem : ℕ → List ℕ → Bool
node_mem n [] = false
node_mem n (m ∷ ms) = let rest = node_mem n ms in if n == m then true else rest

-- `to_visit.extend(parents.filter(|p| !visited.contains(p)))`
unfoldable pub extend_unvisited : List ℕ → List ℕ → List ℕ → List ℕ
unfolding insert_desc node_mem
extend_unvisited visited [] to_visit = to_visit
extend_unvisited visited (p ∷ ps) to_visit =
    extend_unvisited visited ps (if node_mem p visited then to_visit else insert_desc p to_visit)

unfoldable pub collect_desc : List ℕ → List ℕ
unfolding insert_desc
collect_desc [] = []
collect_desc (n ∷ ns) = insert_desc n (collect_desc ns)

module _ (g : ChangeGraph) where
  -- A node's own change, in the clock.
  unfoldable pub include_node : SeqClock → ℕ → Result GraphError SeqClock
  include_node clock idx = do
    actor ← unwrap (get_elem? g.actors idx)
    (clock', _) ← unwrap (include clock actor (get_elem? g.seq idx))
    ok clock'

  -- The loop, with the limit on the visited nodes, `none` where it is `usize::MAX`. The fuel bounds
  -- the rounds; the source pops each node once at most.
  unfoldable pub inner_loop :
      ℕ → Option ℕ → List ℕ → SeqClock → List ℕ → Result GraphError (SeqClock × List ℕ)
  inner_loop fuel limit visited clock [] = ok (clock, [])
  inner_loop zero limit visited clock (idx ∷ to_visit) = err panic
  inner_loop (suc fuel) limit visited clock (idx ∷ to_visit) = do
    _ ← assert (not (node_mem idx visited))
    _ ← assert (leb (length visited) (length g.hashes))
    clock' ← include_node clock idx
    elim (lookup_clock g.clock_cache idx) [
      | some cached ↦ inner_loop fuel limit (idx ∷ visited) (merge clock' cached) to_visit
      | none ↦ parents_of g idx >>= λ ps.
          let to_visit' = extend_unvisited (idx ∷ visited) ps to_visit in
          let more = inner_loop fuel limit (idx ∷ visited) clock' to_visit' in
          elim limit [
            | none ↦ more
            | some n ↦ if ltb n (length visited + 1) then ok (clock', to_visit') else more
          ]
    ]

  unfoldable pub calculate_clock : List ℕ → Result GraphError SeqClock
  unfolding collect_desc
  calculate_clock nodes = do
    (clock, to_visit) ←
        inner_loop (length g.hashes) none [] (Clock.new (num_actors g)) (collect_desc nodes)
    _ ← assert (length to_visit == 0)
    ok clock

  unfoldable pub seq_clock_for_heads : List ChangeHash → Result GraphError SeqClock
  unfolding heads_to_nodes calculate_clock
  seq_clock_for_heads heads = calculate_clock (heads_to_nodes g heads)
