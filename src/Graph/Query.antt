-- ===== src/Graph/Query.antt =====
-- change_graph.rs: what the graph answers of its changes by actor, by heads and by ancestors, and the
-- insertion and removal of an actor.
pub mod Actors
pub mod Unseen
use automerge_r.Common.{
  ℕ, zero, suc, ◌+◌, ◌-◌, true, List, [], ◌∷◌, ◌++◌, Option, none, some, ltb, leb, ◌==◌,
  if◌then◌else◌, get_elem?, length, drop, Result, ok, err, ◌>>=◌, ◌%◌, ◌^◌,
}
use automerge_r.Common.Hash.{ChangeHash}
use automerge_r.Clock.{SeqClock, Clock, get_for_actor, rewrite_with_new_actor}
use automerge_r.Clock
use automerge_r.Graph.Types.{
  ChangeGraph, GraphError, panic, unwrap, assert, num_actors, heads_to_nodes,
}
use automerge_r.Graph.ClockOf.{calculate_clock, seq_clock_for_heads}

-- `idx as u32` and the actors from it on, which move up in their u32
unfoldable pub shift_up : ℕ → List ℕ → List ℕ
shift_up idx [] = []
shift_up idx (a ∷ rest) = (if leb (idx % 2 ^ 32) a then (a + 1) % 2 ^ 32 else a) ∷ shift_up idx rest

unfoldable pub shift_down : ℕ → List ℕ → List ℕ
shift_down idx [] = []
shift_down idx (a ∷ rest) = (if ltb (idx % 2 ^ 32) a then a - 1 else a) ∷ shift_down idx rest

unfoldable pub insert_at {ℓ} : {A : Type ℓ} → ℕ → A → List A → Option (List A)
insert_at zero x xs = some (x ∷ xs)
insert_at (suc i) x [] = none
insert_at (suc i) x (y ∷ ys) = elim (insert_at i x ys) [ none ↦ none | some r ↦ some (y ∷ r) ]

unfoldable pub remove_at {ℓ} : {A : Type ℓ} → ℕ → List A → List A
remove_at i [] = []
remove_at zero (x ∷ xs) = xs
remove_at (suc i) (x ∷ xs) = x ∷ remove_at i xs

-- A clock operation on every clock of the cache; `none` is a panic.
unfoldable pub each_clock :
    (SeqClock → Option SeqClock) → List (ℕ × SeqClock) → Option (List (ℕ × SeqClock))
each_clock f [] = some []
each_clock f ((n, c) ∷ cs) = elim (f c) [
  | none ↦ none
  | some c' ↦ elim (each_clock f cs) [ none ↦ none | some r ↦ some ((n, c') ∷ r) ]
]

unfoldable pub insert_actor : ChangeGraph → ℕ → Result GraphError ChangeGraph
unfolding shift_up insert_at each_clock rewrite_with_new_actor
insert_actor g idx = do
  let actors = if num_actors g == idx then g.actors else shift_up idx g.actors
  cache ← unwrap (each_clock (λ c. rewrite_with_new_actor c idx) g.clock_cache)
  index ← unwrap (insert_at idx [] g.seq_index)
  ok (record g { actors = actors; clock_cache = cache; seq_index = index })

unfoldable pub remove_actor : ChangeGraph → ℕ → Result GraphError ChangeGraph
unfolding shift_down remove_at each_clock Clock.remove_actor
remove_actor g idx = do
  let actors = shift_down idx g.actors
  _ ← assert (elim (get_elem? g.seq_index idx) [ none ↦ true | some v ↦ length v == 0 ])
  cache ← unwrap (each_clock (λ c. Clock.remove_actor c idx) g.clock_cache)
  ok (record g { actors = actors; clock_cache = cache; seq_index = remove_at idx g.seq_index })

unfoldable pub last_of : List ℕ → Option ℕ
last_of [] = none
last_of (x ∷ []) = some x
last_of (x ∷ y ∷ ys) = last_of (y ∷ ys)

unfoldable pub max_op_for_actor : ChangeGraph → ℕ → ℕ
unfolding last_of
max_op_for_actor g actor = elim (get_elem? g.seq_index actor) [
  | none ↦ 0
  | some nodes ↦ elim (last_of nodes) [
    | none ↦ 0
    | some n ↦ elim (get_elem? g.max_ops n) [ none ↦ 0 | some m ↦ m ]
  ]
]

-- The node of change `seq` of the actor; the subtraction of `seq` 0 wraps out of every vector.
unfoldable pub node_for_seq : ChangeGraph → ℕ → ℕ → Option ℕ
node_for_seq g actor zero = none
node_for_seq g actor (suc i) = elim (get_elem? g.seq_index actor) [
  | none ↦ none
  | some nodes ↦ get_elem? nodes i
]

-- `none` is the error `InvalidSeq`.
unfoldable pub get_hash_for_actor_seq : ChangeGraph → ℕ → ℕ → Option ChangeHash
unfolding node_for_seq
get_hash_for_actor_seq g actor seq = elim (node_for_seq g actor seq) [
  | none ↦ none
  | some n ↦ get_elem? g.hashes n
]

unfoldable pub clock_entries : ChangeGraph → ℕ → SeqClock → Clock
unfolding node_for_seq
clock_entries g actor [] = []
clock_entries g actor (entry ∷ clock) =
    let rest = clock_entries g (actor + 1) clock in
    elim entry [
      | none ↦ 0 ∷ rest
      | some seq ↦ elim (node_for_seq g actor seq) [
        | none ↦ 0 ∷ rest
        | some n ↦ elim (get_elem? g.max_ops n) [ none ↦ 0 ∷ rest | some m ↦ m ∷ rest ]
      ]
    ]

unfoldable pub clock_for_heads : ChangeGraph → List ChangeHash → Result GraphError Clock
unfolding heads_to_nodes calculate_clock clock_entries
clock_for_heads g heads = do
  clock ← calculate_clock g (heads_to_nodes g heads)
  ok (clock_entries g 0 clock)

-- `&actor_changes[seq..]` panics past the end.
unfoldable pub unseen_changes : Option ℕ → List ℕ → Result GraphError (List ℕ)
unseen_changes none nodes = ok nodes
unseen_changes (some seq) nodes = if leb seq (length nodes) then ok (drop seq nodes) else err panic

unfoldable pub unseen_by_actor : SeqClock → ℕ → List (List ℕ) → Result GraphError (List ℕ)
unfolding unseen_changes get_for_actor
unseen_by_actor clock actor [] = ok []
unseen_by_actor clock actor (nodes ∷ index) = do
  here ← unseen_changes (get_for_actor clock actor) nodes
  rest ← unseen_by_actor clock (actor + 1) index
  ok (here ++ rest)

unfoldable pub insert_sorted : ℕ → List ℕ → List ℕ
insert_sorted n [] = n ∷ []
insert_sorted n (m ∷ ms) = let rest = insert_sorted n ms in if leb n m then n ∷ m ∷ ms else m ∷ rest

unfoldable pub sort_unstable : List ℕ → List ℕ
unfolding insert_sorted
sort_unstable [] = []
sort_unstable (n ∷ ns) = insert_sorted n (sort_unstable ns)

unfoldable pub get_build_indexes : ChangeGraph → SeqClock → Result GraphError (List ℕ)
unfolding unseen_by_actor sort_unstable
get_build_indexes g clock = do nodes ← unseen_by_actor clock 0 g.seq_index; ok (sort_unstable nodes)

unfoldable pub known_hashes : ChangeGraph → List ℕ → List ChangeHash
known_hashes g [] = []
known_hashes g (n ∷ ns) =
    let rest = known_hashes g ns in elim (get_elem? g.hashes n) [ none ↦ rest | some h ↦ h ∷ rest ]

unfoldable pub get_hashes : ChangeGraph → List ChangeHash → Result GraphError (List ChangeHash)
unfolding seq_clock_for_heads get_build_indexes known_hashes
get_hashes g have_deps = do
  clock ← seq_clock_for_heads g have_deps
  nodes ← get_build_indexes g clock
  ok (known_hashes g nodes)
