-- ===== src/Graph/Add.antt =====
-- change_graph.rs: adding changes to the graph, and the cache of clocks.
pub mod Linking
pub mod Linked
use automerge_r.Common.{
  ℕ, zero, suc, ◌+◌, ◌*◌, ◌%◌, ◌^◌, Bool, List, [], ◌∷◌, ◌++◌, map, Option, none, some, ltb, ◌==◌,
  if◌then◌else◌, get_elem?, set, length, replicate, Result, ok, err, ◌>>=◌,
}
use automerge_r.Common.Hash.{ChangeHash, hash_insert, hash_remove, hash_mem}
use automerge_r.Clock.{SeqClock, merge}
use automerge_r.Clock
use automerge_r.Graph.Types.{
  ChangeGraph, Change, GraphError, missing_dep, panic, new, unwrap, assert, cache_step, has_change,
  num_actors,
}
use automerge_r.Graph.Edges.{add_parent}
use automerge_r.Graph.ClockOf.{inner_loop}

-- `ValueMeta::from(bytes)`: the length, with the type code of bytes in the low four bits
abbrev pub bytes_meta : List ℕ → ℕ
bytes_meta b = length b * 16 + 7

abbrev concat : List (List ℕ) → List ℕ
concat [] = []
concat (b ∷ bs) = b ++ concat bs

unfoldable pub add_nodes : ChangeGraph → List (Change × ℕ) → ChangeGraph
add_nodes g changes = record g {
  actors = g.actors ++ map (λ c. c.1 % 2 ^ 32) changes;
  seq = g.seq ++ map (λ c. (c.0).seq % 2 ^ 32) changes;
  max_ops = g.max_ops ++ map (λ c. (c.0).max_op % 2 ^ 32) changes;
  num_ops = g.num_ops ++ map (λ c. (c.0).len) changes;
  timestamps = g.timestamps ++ map (λ c. (c.0).timestamp) changes;
  messages = g.messages ++ map (λ c. (c.0).message) changes;
  extra_bytes_meta = g.extra_bytes_meta ++ map (λ c. bytes_meta (c.0).extra_bytes) changes;
  parents = g.parents ++ replicate (length changes) none;
  extra_bytes_raw = g.extra_bytes_raw ++ concat (map (λ c. (c.0).extra_bytes) changes);
}

unfoldable pub remove_heads : List ChangeHash → List ChangeHash → List ChangeHash
unfolding hash_remove
remove_heads [] heads = heads
remove_heads (d ∷ deps) heads = remove_heads deps (hash_remove d heads)

unfoldable pub update_heads : ChangeGraph → Change → ChangeGraph
unfolding remove_heads hash_insert
update_heads g change = record g {
  heads = hash_insert change.hash (remove_heads change.deps g.heads);
}

unfoldable pub add_parents : ChangeGraph → ℕ → List ChangeHash → Result GraphError ChangeGraph
unfolding add_parent
add_parents g node_idx [] = ok g
add_parents g node_idx (h ∷ hs) = do g' ← add_parent g node_idx h; add_parents g' node_idx hs

-- The loop over the nodes that are left, which are taken from the earliest on.
unfoldable pub cache_rest :
    (ChangeGraph → ℕ → Result GraphError (ChangeGraph × SeqClock))
    → ChangeGraph
    → SeqClock
    → List ℕ
    → Result GraphError (ChangeGraph × SeqClock)
unfolding merge
cache_rest cache g clock [] = ok (g, clock)
cache_rest cache g clock (n ∷ later) = do
  (g', clock') ← cache_rest cache g clock later
  (g'', sub) ← cache g' n
  ok (g'', merge clock' sub)

-- The fuel bounds the depth: every node of a deeper call is earlier.
unfoldable pub cache_clock : ℕ → ChangeGraph → ℕ → Result GraphError (ChangeGraph × SeqClock)
unfolding cache_rest inner_loop Clock.new
cache_clock zero g node_idx = err panic
cache_clock (suc fuel) g node_idx = do
  (clock, to_visit) ←
      inner_loop g (length g.hashes) (some (cache_step * 2)) [] (Clock.new (num_actors g))
        (node_idx ∷ [])
  (g', clock') ← cache_rest (cache_clock fuel) g clock to_visit
  ok (record g' { clock_cache = (node_idx, clock') ∷ g'.clock_cache }, clock')

-- One round of the loop in `add_changes`.
unfoldable pub add_one : ChangeGraph → ℕ → Change → ℕ → Result GraphError ChangeGraph
unfolding update_heads add_parents cache_clock
add_one g node_idx change actor = do
  let hashed = record g {
    hashes = g.hashes ++ (change.hash ∷ []);
    nodes_by_hash = (change.hash, node_idx) ∷ g.nodes_by_hash;
  }
  let headed = update_heads hashed change
  _ ← assert (ltb actor (num_actors headed))
  seqs ← unwrap (get_elem? headed.seq_index actor)
  _ ← assert (length seqs + 1 == change.seq)
  let indexed = record headed { seq_index = set headed.seq_index actor (seqs ++ (node_idx ∷ [])) }
  linked ← add_parents indexed node_idx change.deps
  if (node_idx + 1) % 2 ^ 32 % cache_step == 0
      then (cache_clock (length linked.hashes) linked node_idx >>= λ r. ok (r.0))
      else ok linked

unfoldable pub add_each : ChangeGraph → ℕ → List (Change × ℕ) → Result GraphError ChangeGraph
unfolding add_one
add_each g node_idx [] = ok g
add_each g node_idx ((change, actor) ∷ rest) = do
  g' ← add_one g node_idx change actor
  add_each g' ((node_idx + 1) % 2 ^ 32) rest

unfoldable pub add_changes : ChangeGraph → List (Change × ℕ) → Result GraphError ChangeGraph
unfolding add_nodes add_each
add_changes g changes = add_each (add_nodes g changes) (length g.hashes % 2 ^ 32) changes

unfoldable pub first_missing : (ChangeHash → Bool) → List ChangeHash → Option ChangeHash
first_missing known [] = none
first_missing known (h ∷ hs) = let rest = first_missing known hs in if known h then rest else some h

unfoldable pub add_change : ChangeGraph → Change → ℕ → Result GraphError ChangeGraph
unfolding has_change first_missing add_changes
add_change g change actor =
    let added = add_changes g ((change, actor) ∷ []) in
    if has_change g change.hash then ok g else elim (first_missing (has_change g) change.deps) [
      | none ↦ added
      | some h ↦ err (missing_dep h)
    ]

-- The check of `from_iter`: the dependencies of a change are earlier in the list.
unfoldable pub check_deps : List ChangeHash → List (Change × ℕ) → Option ChangeHash
unfolding first_missing hash_mem hash_insert
check_deps seen [] = none
check_deps seen ((change, actor) ∷ rest) =
    let later = check_deps (hash_insert change.hash seen) rest in
    elim (first_missing (λ h. hash_mem h seen) change.deps) [ none ↦ later | some h ↦ some h ]

unfoldable pub from_iter : List (Change × ℕ) → ℕ → Result GraphError ChangeGraph
unfolding check_deps add_changes
from_iter changes actors =
    let built = add_changes (new actors) changes in
    elim (check_deps [] changes) [ none ↦ built | some h ↦ err (missing_dep h) ]
