-- ===== src/Tests/Graphs.antt =====
-- Runs of ids, cursors, clocks and the graph of changes.
use automerge_r.Common.{
  map, ◌^◌, length, get_elem?, ℕ, zero, suc, ◌≡◌, ◌≤◌, inl, inr, ◌≢◌, ◌↔◌, ◌+◌, ◌<◌, refl, List, [],
  ◌∷◌, ◌++◌, none, some, replicate, ok, All, arith,
}
use mathlib.Core.Path.{subst}
use automerge_r.Parse.Leb128.Writer.{writer}
use automerge_r.Ids.OpId.{
  OpId, op_id_lt, with_new_actor, without_actor, obj_with_new_actor, obj_without_actor,
}
use automerge_r.Ids.OpId.Renumber.{renumber_inverse, renumber_order}
use automerge_r.Ids.ExId
use automerge_r.Ids.ExId.{ExId, id}
use automerge_r.Ids.ExId.RoundTrip.{exid_try_from-to_bytes}
use automerge_r.Ids.Cursor
use automerge_r.Ids.Cursor.{Cursor, OpCursor, op, before, after}
use automerge_r.Ids.Cursor.RoundTrip.{cursor_try_from-to_bytes}
use automerge_r.Clock.{SeqClock, merge, remove_actor, rewrite_with_new_actor, get_for_actor}
use automerge_r.Clock.Order.{count, ClockLe, merge_bound}
use automerge_r.Clock.Renumber.{clock_renumber}
use automerge_r.Graph.Types
use automerge_r.Graph.Types.{ChangeGraph, Change, lookup_hash, lookup_clock, num_actors}
use automerge_r.Graph.Edges.{parents_of}
use automerge_r.Graph.ClockOf.{calculate_clock}
use automerge_r.Graph.Add.{add_parents}
use automerge_r.Graph.Add.Linked.{AreKnown, add_parents-parents_of, add_parents-others}
use automerge_r.Graph.Query
use automerge_r.Graph.Query.{insert_actor, get_build_indexes}
use automerge_r.Graph.Query.Actors.{HasActors, remove_actor-insert_actor}
use automerge_r.Graph.Query.Unseen.{IsWithin, IsAscending, IsUnseen, get_build_indexes-IsUnseen}
use automerge_r.Graph.ClockOf.Ancestors.{
  In, IsAcyclic, IsChange, IsClockOf, Ancestor, here, Ancestor-first, Reached,
}
use automerge_r.Graph.ClockOf.Exact.{calculate_clock-IsClockOf}

abbrev id_one : OpId
id_one = record { counter = 5; actor = 2 }

abbrev id_two : OpId
id_two = record { counter = 5; actor = 3 }

renumber_inverse_example :
    ((obj_without_actor id_two 2 ≡ some id_one) ↔ (obj_with_new_actor id_one 2 ≡ id_two))
    × ((obj_without_actor id_two 2 ≡ none) ↔ ((id_two.counter ≢ 0) × (id_two.actor ≡ 2)))
renumber_inverse_example = renumber_inverse id_two id_one 2 (omega arith)

renumber_order_example :
    (op_id_lt (with_new_actor id_one 3) (with_new_actor id_two 3) ≡ op_id_lt id_one id_two)
    × ((with_new_actor id_one 3).actor ≢ 3)
    × (without_actor (with_new_actor id_one 3) 3 ≡ some id_one)
renumber_order_example = renumber_order id_one id_two 3 (omega arith) (omega arith)

abbrev object : ExId
object = id 7 (1 ∷ 2 ∷ 3 ∷ []) 1

exid_try_from-to_bytes_example : ExId.try_from (ExId.to_bytes writer object) ≡ ok object
exid_try_from-to_bytes_example =
    exid_try_from-to_bytes writer object (omega arith, omega arith, omega arith)

abbrev op_cursor : OpCursor
op_cursor = record { ctr = 9; actor = 1 ∷ 2 ∷ []; move_cursor = before }

cursor_try_from-to_bytes_example :
    (Cursor.try_from (Cursor.to_bytes writer (op op_cursor)) ≡ ok (op op_cursor))
    × (Cursor.try_from (0 ∷ (writer.unsigned 2 ++ (op_cursor.actor ++ writer.unsigned 9)))
        ≡ ok (op (record op_cursor { move_cursor = after })))
cursor_try_from-to_bytes_example =
    cursor_try_from-to_bytes writer (op op_cursor) op_cursor (omega arith, omega arith)
      (omega arith, omega arith)

abbrev clock_one : SeqClock
clock_one = some 3 ∷ none ∷ some 1 ∷ []

abbrev clock_two : SeqClock
clock_two = some 2 ∷ some 4 ∷ some 1 ∷ []

merge_bound_example :
    ClockLe (merge clock_one clock_two) clock_two
    ↔ (ClockLe clock_one clock_two × ClockLe clock_two clock_two)
merge_bound_example = merge_bound clock_one clock_two clock_two refl

clock_renumber_example :
    (c : SeqClock) × (rewrite_with_new_actor clock_one 1 ≡ some c)
    × (remove_actor c 1 ≡ some clock_one)
    × (get_for_actor c 1 ≡ none)
    × (get_for_actor c (with_new_actor id_one 1).actor ≡ get_for_actor clock_one id_one.actor)
clock_renumber_example = clock_renumber clock_one 1 id_one (omega arith) (omega arith)

-- Two changes of different actors, the second on the first.
abbrev graph : ChangeGraph
graph = record (Types.new 2) {
  edges = record { target = 0; next = none } ∷ [];
  hashes = replicate 32 1 ∷ replicate 32 2 ∷ [];
  actors = 0 ∷ 1 ∷ [];
  parents = none ∷ some 0 ∷ [];
  seq = 1 ∷ 1 ∷ [];
  max_ops = 4 ∷ 6 ∷ [];
  nodes_by_hash = (replicate 32 1, 0) ∷ (replicate 32 2, 1) ∷ [];
  clock_cache = (0, some 1 ∷ none ∷ []) ∷ [];
  seq_index = (0 ∷ []) ∷ (1 ∷ []) ∷ [];
}

graph_parents : (n : ℕ) → n < 2 → (ps : List ℕ) × (parents_of graph n ≡ ok ps) × All (λ p. p < n) ps
unfolding parents_of Types.new
graph_parents zero h = ([], refl, tt)
graph_parents (suc zero) h = (0 ∷ [], refl, (omega arith, tt))
graph_parents (suc (suc n)) h = absurd (omega arith)

graph_changes : (n : ℕ) → n < 2 → (a : ℕ) × (s : ℕ) × IsChange graph n a s × (a < num_actors graph)
unfolding Types.new
graph_changes zero h = (0, 1, record { actor = refl; number = refl }, omega arith)
graph_changes (suc zero) h = (1, 1, record { actor = refl; number = refl }, omega arith)
graph_changes (suc (suc n)) h = absurd (omega arith)

abbrev first_clock : SeqClock
first_clock = some 1 ∷ none ∷ []

first_root : (m : ℕ) → Ancestor graph 0 m → m ≡ 0
unfolding graph_parents
first_root m path = elim (Ancestor-first [] (graph_parents 0 (omega arith)).1 path) [
  | inl same ↦ same
  | inr (p, i, rest) ↦ absurd i
]

first_change : (a s : ℕ) → IsChange graph 0 a s → s ≤ count first_clock a
unfolding count Types.new
first_change a s c = ground (arith, c.actor, c.number)

first_sound :
    (a : ℕ)
    → 0 < count first_clock a
    → (m : ℕ) × Reached graph (0 ∷ []) m × IsChange graph m a (count first_clock a)
unfolding count Types.new
first_sound zero h = (
  0,
  record { root = 0; is_root = inl refl; path = here },
  record { actor = refl; number = refl },
)
first_sound (suc zero) h = absurd (omega arith)
first_sound (suc (suc a)) h = absurd (omega arith)

first_clock-IsClockOf : IsClockOf graph first_clock (0 ∷ [])
unfolding Types.new
first_clock-IsClockOf = record {
  size = refl;
  complete = λ m a s reached change. elim reached.is_root [
    | inl same ↦
        let path = subst (λ r. Ancestor graph r m) same reached.path in
        first_change a s (subst (λ n. IsChange graph n a s) (first_root m path) change)
    | inr none_left ↦ absurd none_left
  ];
  sound = first_sound;
}

graph_cached :
    (n : ℕ) (c : SeqClock)
    → n < 2
    → lookup_clock graph.clock_cache n ≡ some c
    → IsClockOf graph c (n ∷ [])
unfolding lookup_clock Types.new
graph_cached zero c h e = subst (λ x. IsClockOf graph x (0 ∷ [])) (cc) first_clock-IsClockOf
graph_cached (suc n) c h e = absurd (ground arith)

graph-IsAcyclic : IsAcyclic graph
unfolding Types.new
graph-IsAcyclic = record { parents = graph_parents; changes = graph_changes; cached = graph_cached }

calculate_clock-IsClockOf_example :
    (c : SeqClock) × (calculate_clock graph (1 ∷ []) ≡ ok c) × IsClockOf graph c (1 ∷ [])
calculate_clock-IsClockOf_example =
    calculate_clock-IsClockOf graph (1 ∷ []) graph-IsAcyclic (omega arith, tt)

graph-HasActors : HasActors graph
unfolding Types.new
graph-HasActors = record { actors = (omega arith, (omega arith, tt)); clocks = (refl, tt) }

remove_actor-insert_actor_example :
    (g' : ChangeGraph) × (insert_actor graph 0 ≡ ok g')
    × (get_elem? g'.seq_index 0 ≡ some [])
    × (map (λ a. get_elem? g'.seq_index a) g'.actors
        ≡ map (λ a. get_elem? graph.seq_index a) graph.actors)
    × (Query.remove_actor g' 0 ≡ ok graph)
unfolding Types.new
remove_actor-insert_actor_example =
    remove_actor-insert_actor graph 0 graph-HasActors (omega arith) (omega arith)

graph_within :
    (j : ℕ) (nodes : List ℕ)
    → get_elem? graph.seq_index j ≡ some nodes
    → count (some 1 ∷ none ∷ []) (0 + j) ≤ length nodes
unfolding count Types.new
graph_within zero nodes e = ground arith
graph_within (suc zero) nodes e = ground arith
graph_within (suc (suc j)) nodes e = ground arith

graph-IsWithin : IsWithin graph.seq_index (some 1 ∷ none ∷ []) 0
unfolding count Types.new
graph-IsWithin = record { within = graph_within }

get_build_indexes-IsUnseen_example :
    (nodes : List ℕ) × (get_build_indexes graph (some 1 ∷ none ∷ []) ≡ ok nodes)
    × IsAscending 0 nodes
    × ((n : ℕ) → In n nodes ↔ IsUnseen graph.seq_index (some 1 ∷ none ∷ []) 0 n)
get_build_indexes-IsUnseen_example =
    get_build_indexes-IsUnseen graph (some 1 ∷ none ∷ []) graph-IsWithin

-- A third node without parents yet.
abbrev grown : ChangeGraph
grown = record graph { parents = none ∷ some 0 ∷ none ∷ [] }

grown-AreKnown : AreKnown grown (replicate 32 2 ∷ replicate 32 1 ∷ []) (1 ∷ 0 ∷ [])
unfolding lookup_hash Types.new
grown-AreKnown = (refl, (refl, tt))

grown_parents : parents_of grown 1 ≡ ok (0 ∷ [])
unfolding parents_of Types.new
grown_parents = refl

grown_room :
    length grown.edges + length {A = List ℕ} (replicate 32 2 ∷ replicate 32 1 ∷ []) < 2 ^ 32
unfolding Types.new
grown_room = omega arith

add_parents-parents_of_example :
    (g' : ChangeGraph) × (add_parents grown 2 (replicate 32 2 ∷ replicate 32 1 ∷ []) ≡ ok g')
    × (parents_of g' 2 ≡ ok (1 ∷ 0 ∷ []))
add_parents-parents_of_example =
    add_parents-parents_of grown 2 (replicate 32 2 ∷ replicate 32 1 ∷ []) (1 ∷ 0 ∷ []) refl
      grown-AreKnown grown_room

add_parents-others_example :
    (g' : ChangeGraph) × (add_parents grown 2 (replicate 32 2 ∷ replicate 32 1 ∷ []) ≡ ok g')
    × (parents_of g' 1 ≡ ok (0 ∷ []))
add_parents-others_example =
    add_parents-others grown 2 1 (replicate 32 2 ∷ replicate 32 1 ∷ []) (1 ∷ 0 ∷ []) (0 ∷ []) refl
      grown-AreKnown grown_room (λ e. absurd (omega arith)) grown_parents
