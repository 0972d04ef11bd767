-- ===== src/Sync/ToSend.antt =====
-- sync.rs: `make_bloom_filter` and `get_hashes_to_send`. Sets of hashes are lists.
pub mod Closure
pub mod Sent
use automerge_r.Common.{
  ℕ, zero, suc, ◌+◌, Bool, true, false, not, ◌&&◌, List, [], ◌∷◌, ◌++◌, Option, none, some,
  if◌then◌else◌, length, Result, ok, err, ◌>>=◌,
}
use automerge_r.Common.Hash.{ChangeHash, hash_eq, hash_mem, hash_insert, hash_filter}
use automerge_r.Graph.Types.{ChangeGraph, GraphError, panic, unwrap}
use automerge_r.Graph.Edges.{deps}
use automerge_r.Graph.Query.{get_hashes}
use automerge_r.Sync.Bloom.{BloomFilter, contains_hash, from_hashes}
use automerge_r.Sync.Message.{Have}
use automerge_r.Sync.Document.{Document, to_set}

unfoldable pub make_bloom_filter : Document → List ChangeHash → Result GraphError Have
unfolding get_hashes from_hashes
make_bloom_filter doc last_sync = do
  hashes ← get_hashes doc.graph last_sync
  bloom ← unwrap (from_hashes hashes)
  ok (record { last_sync = last_sync; bloom = bloom })

unfoldable pub last_syncs : List Have → List ChangeHash
last_syncs [] = []
last_syncs (h ∷ hs) = h.last_sync ++ last_syncs hs

-- `bloom_filters.iter().all(|bloom| !bloom.contains_hash(hash))`, which stops at the first that has it
unfoldable pub in_no_filter : ChangeHash → List Have → Result GraphError Bool
unfolding contains_hash
in_no_filter hash [] = ok true
in_no_filter hash (h ∷ hs) = do
  found ← unwrap (contains_hash h.bloom hash)
  if found then ok false else in_no_filter hash hs

-- The map `dependents`, as the pairs of a dependency and a dependent.
unfoldable pub edges_of : List ChangeHash → ChangeHash → List (ChangeHash × ChangeHash)
edges_of [] hash = []
edges_of (dep ∷ deps) hash = (dep, hash) ∷ edges_of deps hash

unfoldable pub dependents_of : ChangeHash → List (ChangeHash × ChangeHash) → List ChangeHash
unfolding hash_eq
dependents_of hash [] = []
dependents_of hash ((dep, h) ∷ edges) =
    let rest = dependents_of hash edges in if hash_eq dep hash then h ∷ rest else rest

-- The loop over the hashes: the edges, and those that no filter has.
unfoldable pub survey :
    ChangeGraph
    → List Have
    → List ChangeHash
    → Result GraphError (List (ChangeHash × ChangeHash) × List ChangeHash)
unfolding deps edges_of in_no_filter
survey g have [] = ok ([], [])
survey g have (hash ∷ hashes) = do
  ds ← deps g hash
  unseen ← in_no_filter hash have
  (edges, to_send) ← survey g have hashes
  ok (edges_of ds hash ++ edges, if unseen then hash ∷ to_send else to_send)

-- `for dep in deps { if hashes_to_send.insert(*dep) { stack.push(*dep) } }`
unfoldable pub push_new :
    List ChangeHash → List ChangeHash → List ChangeHash → List ChangeHash × List ChangeHash
unfolding hash_mem
push_new [] set stack = (set, stack)
push_new (h ∷ hs) set stack =
    let new = push_new hs (h ∷ set) (h ∷ stack) in
    let old = push_new hs set stack in if hash_mem h set then old else new

-- The loop on the stack; every hash is pushed once at most.
unfoldable pub close :
    ℕ
    → List (ChangeHash × ChangeHash)
    → List ChangeHash
    → List ChangeHash
    → Option (List ChangeHash)
unfolding dependents_of push_new
close fuel edges set [] = some set
close zero edges set (hash ∷ stack) = none
close (suc fuel) edges set (hash ∷ stack) =
    let next = push_new (dependents_of hash edges) set stack in close fuel edges (next.0) (next.1)

-- The chosen hashes, with their dependents.
unfoldable pub with_dependents :
    List (ChangeHash × ChangeHash) → List ChangeHash → Option (List ChangeHash)
unfolding close to_set
with_dependents edges chosen =
    let set = to_set [] chosen in close (length set + length edges) edges set set

unfoldable pub get_hashes_to_send :
    Document → List Have → List ChangeHash → Result GraphError (List ChangeHash)
unfolding last_syncs to_set survey with_dependents hash_filter get_hashes
get_hashes_to_send doc [] need = ok need
get_hashes_to_send doc (first ∷ more) need = do
  hashes ← get_hashes doc.graph (to_set [] (last_syncs (first ∷ more)))
  (edges, chosen) ← survey doc.graph (first ∷ more) hashes
  to_send ← unwrap (with_dependents edges chosen)
  ok (
      hash_filter (λ h. not (hash_mem h to_send)) need
      ++ hash_filter (λ h. hash_mem h to_send) hashes)
