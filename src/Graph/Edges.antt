-- ===== src/Graph/Edges.antt =====
-- change_graph.rs: `add_parent` and the iterators `parents`, `deps` and `deps_for_hash`, which follow
-- the links of the edges. The fuel of a walk is the number of edges.
pub mod Run
use automerge_r.Common.{
  ◌+◌, ◌-◌, ◌%◌, ◌^◌, ◌==◌, if◌then◌else◌, ℕ, zero, suc, List, [], ◌∷◌, ◌++◌, Option, none, some,
  get_elem?, set, length, Result, ok, err, ◌>>=◌,
}
use automerge_r.Common.Hash.{ChangeHash}
use automerge_r.Graph.Types.{Edge, ChangeGraph, GraphError, panic, unwrap, lookup_hash}

-- The targets from an edge on.
unfoldable pub walk : ℕ → List Edge → Option ℕ → Result GraphError (List ℕ)
walk fuel edges none = ok []
walk zero edges (some e) = err panic
walk (suc fuel) edges (some e) = do
  edge ← unwrap (get_elem? edges e)
  rest ← walk fuel edges edge.next
  ok (edge.target ∷ rest)

-- `parents(node_idx)`, all its items
unfoldable pub parents_of : ChangeGraph → ℕ → Result GraphError (List ℕ)
unfolding walk
parents_of g node_idx = do
  edge_idx ← unwrap (get_elem? g.parents node_idx)
  walk (length g.edges) g.edges edge_idx

-- The loop `while let Some(next) = edge.next`
unfoldable pub last_edge : ℕ → List Edge → ℕ → Result GraphError ℕ
last_edge zero edges e = err panic
last_edge (suc fuel) edges e = do
  edge ← unwrap (get_elem? edges e)
  elim edge.next [ none ↦ ok e | some next ↦ last_edge fuel edges next ]

unfoldable pub set_next : List Edge → ℕ → ℕ → List Edge
set_next [] e next = []
set_next (edge ∷ edges) zero next = record edge { next = some next } ∷ edges
set_next (edge ∷ edges) (suc e) next = edge ∷ set_next edges e next

-- `EdgeIdx::new` in a u32 that is not zero, as the place that `get` returns
unfoldable pub edge_idx_new : ℕ → Result GraphError ℕ
edge_idx_new value =
    let raw = (value % 2 ^ 32 + 1) % 2 ^ 32 in if raw == 0 then err panic else ok (raw - 1)

unfoldable pub add_parent : ChangeGraph → ℕ → ChangeHash → Result GraphError ChangeGraph
unfolding last_edge set_next edge_idx_new
add_parent g child_idx parent_hash = do
  parent_idx ← unwrap (lookup_hash g.nodes_by_hash parent_hash)
  new_edge_idx ← edge_idx_new (length g.edges)
  let edges = g.edges ++ (record { target = parent_idx; next = none } ∷ [])
  child ← unwrap (get_elem? g.parents child_idx)
  elim child [
    | none ↦ ok (record g { edges = edges; parents = set g.parents child_idx (some new_edge_idx) })
    | some edge_idx ↦ last_edge (length edges) edges edge_idx >>= λ last.
        ok (record g { edges = set_next edges last new_edge_idx })
  ]

-- The hashes of the nodes in a list: `self.hashes.get(next)?` ends at the first that is missing,
-- which the graph does not have.
unfoldable pub hashes_of : ChangeGraph → List ℕ → List ChangeHash
hashes_of g [] = []
hashes_of g (n ∷ ns) =
    let rest = hashes_of g ns in elim (get_elem? g.hashes n) [ none ↦ [] | some h ↦ h ∷ rest ]

-- `deps(hash)`, all its items; a hash that the graph does not have has none
unfoldable pub deps : ChangeGraph → ChangeHash → Result GraphError (List ChangeHash)
unfolding hashes_of
deps g hash = elim (lookup_hash g.nodes_by_hash hash) [
  | none ↦ ok []
  | some n ↦ parents_of g n >>= λ ns. ok (hashes_of g ns)
]
