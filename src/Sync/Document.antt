-- ===== src/Sync/Document.antt =====
-- automerge.rs: what the sync protocol reads of a document and asks of it.
pub mod Sets
use automerge_r.Common.{
  ℕ, zero, suc, ◌+◌, Bool, true, false, not, ◌&&◌, List, [], ◌∷◌, ◌++◌, Option, none, some,
  if◌then◌else◌, get_elem?, length, Result, ok, err, ◌>>=◌,
}
use automerge_r.Common.Hash.{
  ChangeHash, hash_eq, hash_leb, hash_mem, hash_insert, hash_remove, hash_filter,
}
use automerge_r.Graph.Types.{
  ChangeGraph, Change, GraphError, panic, unwrap, has_change, heads_to_nodes,
}
use automerge_r.Graph.Edges.{parents_of}
use automerge_r.Graph.ClockOf.{node_mem}

-- `heads` is `get_heads()`: the sorted `deps` of the document.
pub record Document : Type 0 where
  pub graph : ChangeGraph
  pub heads : List ChangeHash
  pub queue : List Change

-- What the protocol asks of the rest of the document: all its bytes, the bytes of the changes with
-- given hashes, and the load of received bytes, which tells whether it failed and may leave a
-- changed document then.
pub record Storage : Type 0 where
  pub save : Document → List ℕ
  pub get_changes_by_hashes : Document → List ChangeHash → Option (List (List ℕ))
  pub load_incremental : Document → List ℕ → Document × Bool

unfoldable pub insert_hash : ChangeHash → List ChangeHash → List ChangeHash
unfolding hash_leb
insert_hash h [] = h ∷ []
insert_hash h (x ∷ xs) =
    let rest = insert_hash h xs in if hash_leb h x then h ∷ x ∷ xs else x ∷ rest

unfoldable pub sort : List ChangeHash → List ChangeHash
unfolding insert_hash
sort [] = []
sort (h ∷ hs) = insert_hash h (sort hs)

-- `collect` into a set, and `unique`
unfoldable pub to_set : List ChangeHash → List ChangeHash → List ChangeHash
unfolding hash_insert
to_set set [] = set
to_set set (h ∷ hs) = to_set (hash_insert h set) hs

unfoldable pub queue_deps : List Change → List ChangeHash
queue_deps [] = []
queue_deps (c ∷ cs) = c.deps ++ queue_deps cs

unfoldable pub queue_hashes : List Change → List ChangeHash
queue_hashes [] = []
queue_hashes (c ∷ cs) = c.hash ∷ queue_hashes cs

unfoldable pub get_missing_deps : Document → List ChangeHash → List ChangeHash
unfolding queue_deps queue_hashes to_set sort hash_filter hash_mem has_change
get_missing_deps doc heads =
    let wanted = hash_filter (λ h. not (has_change doc.graph h)) (queue_deps doc.queue ++ heads) in
    sort (hash_filter (λ h. not (hash_mem h (queue_hashes doc.queue))) (to_set [] wanted))

unfoldable pub push_all : List ℕ → List ℕ → List ℕ
push_all [] stack = stack
push_all (n ∷ ns) stack = push_all ns (n ∷ stack)

-- `traverse_ancestors` with the closure of `remove_ancestors`, which goes on at every node. The
-- stack's top is first; a node is pushed once for every edge to it and every head.
unfoldable pub traverse_ancestors :
    ChangeGraph → ℕ → List ℕ → List ℕ → List ChangeHash → Result GraphError (List ChangeHash)
unfolding node_mem hash_remove parents_of push_all
traverse_ancestors g fuel visited [] changes = ok changes
traverse_ancestors g zero visited (idx ∷ to_visit) changes = err panic
traverse_ancestors g (suc fuel) visited (idx ∷ to_visit) changes =
    let skip = traverse_ancestors g fuel visited to_visit changes in
    let enter = unwrap (get_elem? g.hashes idx) >>= λ hash. parents_of g idx >>= λ ps.
    traverse_ancestors g fuel (idx ∷ visited) (push_all ps to_visit) (hash_remove hash changes) in
    if node_mem idx visited then skip else enter

unfoldable pub remove_ancestors :
    ChangeGraph → List ChangeHash → List ChangeHash → Result GraphError (List ChangeHash)
unfolding heads_to_nodes traverse_ancestors push_all
remove_ancestors g changes heads =
    let nodes = heads_to_nodes g heads in
    traverse_ancestors g (length nodes + length g.edges) [] (push_all nodes []) changes

unfoldable pub filter_changes :
    Document → List ChangeHash → List ChangeHash → Result GraphError (List ChangeHash)
unfolding hash_filter has_change remove_ancestors
filter_changes doc heads changes =
    remove_ancestors doc.graph changes (hash_filter (has_change doc.graph) heads)
