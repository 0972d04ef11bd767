-- ===== src/Graph/Types.antt =====
-- change_graph.rs: the graph's fields and the lookups in them. The columns of metadata are the lists
-- of their values. A panic is the error `panic`.
use automerge_r.Common.{
  ℕ, Bool, true, false, List, [], ◌∷◌, Option, none, some, if◌then◌else◌, get_elem?, length, Result,
  ok, err, replicate, ◌==◌,
}
use automerge_r.Common.Hash.{ChangeHash, hash_eq}
use automerge_r.Common.Int.{ℤ}
use automerge_r.Clock.{SeqClock}

-- An edge leads from a child, which is implicit, to the parent `target`.
pub record Edge : Type 0 where
  pub target : ℕ
  pub next : Option ℕ

pub record ChangeGraph : Type 0 where
  pub edges : List Edge
  pub hashes : List ChangeHash
  pub actors : List ℕ
  pub parents : List (Option ℕ)
  pub seq : List ℕ
  pub max_ops : List ℕ
  pub num_ops : List ℕ
  pub timestamps : List ℤ
  pub messages : List (Option (List ℕ))
  pub extra_bytes_meta : List ℕ
  pub extra_bytes_raw : List ℕ
  pub heads : List ChangeHash
  pub nodes_by_hash : List (ChangeHash × ℕ)
  pub clock_cache : List (ℕ × SeqClock)
  pub seq_index : List (List ℕ)

-- What the graph reads of a change.
pub record Change : Type 0 where
  pub hash : ChangeHash
  pub seq : ℕ
  pub max_op : ℕ
  pub len : ℕ
  pub timestamp : ℤ
  pub message : Option (List ℕ)
  pub extra_bytes : List ℕ
  pub deps : List ChangeHash

pub data GraphError : Type 0 where
  missing_dep : ChangeHash → GraphError
  panic : GraphError

abbrev pub cache_step : ℕ
cache_step = 16

-- `Option::unwrap` and an index into a vector
abbrev pub unwrap {ℓ} : {A : Type ℓ} → Option A → Result GraphError A
unwrap none = err panic
unwrap (some a) = ok a

abbrev pub assert : Bool → Result GraphError (Unit {0})
assert true = ok tt
assert false = err panic

unfoldable pub lookup_hash : List (ChangeHash × ℕ) → ChangeHash → Option ℕ
unfolding hash_eq
lookup_hash [] hash = none
lookup_hash ((h, n) ∷ m) hash = if hash_eq h hash then some n else lookup_hash m hash

unfoldable pub lookup_clock : List (ℕ × SeqClock) → ℕ → Option SeqClock
lookup_clock [] idx = none
lookup_clock ((i, c) ∷ m) idx = if i == idx then some c else lookup_clock m idx

unfoldable pub new : ℕ → ChangeGraph
new num_actors = record {
  edges = [];
  hashes = [];
  actors = [];
  parents = [];
  seq = [];
  max_ops = [];
  num_ops = [];
  timestamps = [];
  messages = [];
  extra_bytes_meta = [];
  extra_bytes_raw = [];
  heads = [];
  nodes_by_hash = [];
  clock_cache = [];
  seq_index = replicate num_actors [];
}

module _ (g : ChangeGraph) where
  abbrev pub num_actors : ℕ
  num_actors = length g.seq_index

  abbrev pub len : ℕ
  len = length g.hashes

  unfoldable pub has_change : ChangeHash → Bool
  has_change hash = elim (lookup_hash g.nodes_by_hash hash) [ none ↦ false | some _ ↦ true ]

  unfoldable pub hash_to_index : ChangeHash → Option ℕ
  hash_to_index hash = lookup_hash g.nodes_by_hash hash

  unfoldable pub index_to_hash : ℕ → Option ChangeHash
  index_to_hash index = get_elem? g.hashes index

  unfoldable pub seq_for_actor : ℕ → ℕ
  seq_for_actor actor = elim (get_elem? g.seq_index actor) [ none ↦ 0 | some v ↦ length v ]

  -- `filter_map` over the heads that the graph has
  unfoldable pub heads_to_nodes : List ChangeHash → List ℕ
  heads_to_nodes [] = []
  heads_to_nodes (h ∷ hs) =
      let rest = heads_to_nodes hs in
      elim (lookup_hash g.nodes_by_hash h) [ none ↦ rest | some n ↦ n ∷ rest ]
