-- ===== src/Graph/Query/Actors.antt =====
-- change_graph.rs: the insertion of an actor and its removal.
use automerge_r.Common.{
  map, ◌+◌, ◌%◌, ◌^◌, ◌∙◌, leb, ℕ, zero, suc, ◌≤◌, ◌<◌, ◌≡◌, refl, ap, Bool, true, false, List, [],
  ◌∷◌, Option, some, length, All, All-map, get_elem?, ok, arith, ◌==◌, if◌then◌else◌,
}
use automerge_r.Clock.{SeqClock, rewrite_with_new_actor}
use automerge_r.Clock
use automerge_r.Clock.Renumber.{clock_renumber}
use automerge_r.Graph.Types.{ChangeGraph, num_actors}
use automerge_r.Graph.Query.{
  shift_up, shift_down, insert_at, remove_at, each_clock, insert_actor, remove_actor,
}

-- The actors are below `n`, which a u32 holds.
abbrev AreBelow : ℕ → List ℕ → Type 0
AreBelow n xs = All (λ a. a < n) xs

shift_down-shift_up :
    (idx n : ℕ) (xs : List ℕ)
    → idx ≤ n
    → n < 2 ^ 32
    → AreBelow n xs
    → shift_down idx (shift_up idx xs) ≡ xs
unfolding shift_down shift_up
shift_down-shift_up idx n [] h b al = refl
shift_down-shift_up idx n (a ∷ xs) h b (ha, al) =
    ground (arith, shift_down-shift_up idx n xs h b al)

shift_down_last : (idx : ℕ) (xs : List ℕ) → idx < 2 ^ 32 → AreBelow idx xs → shift_down idx xs ≡ xs
unfolding shift_down
shift_down_last idx [] b h = refl
shift_down_last idx (a ∷ xs) b (ha, h) = ground (arith, shift_down_last idx xs b h)

record Inserted (idx : ℕ) (index : List (List ℕ)) : Type 0 where
  pub result : List (List ℕ)
  pub returned : insert_at idx [] index ≡ some result
  pub at : get_elem? result idx ≡ some []
  pub below : (a : ℕ) → a < idx → get_elem? result a ≡ get_elem? index a
  pub above : (a : ℕ) → idx ≤ a → get_elem? result (suc a) ≡ get_elem? index a
  pub undone : remove_at idx result ≡ index

shifted :
    (idx : ℕ) (x : List ℕ) (result index : List (List ℕ))
    → ((a : ℕ) → idx ≤ a → get_elem? result (suc a) ≡ get_elem? index a)
    → (a : ℕ) → suc idx ≤ a
    → get_elem? (x ∷ result) (suc a) ≡ get_elem? (x ∷ index) a
shifted idx x result index h zero le = absurd (omega arith)
shifted idx x result index h (suc a) le = h a (omega arith)

unshifted :
    (idx : ℕ) (x : List ℕ) (result index : List (List ℕ))
    → ((a : ℕ) → a < idx → get_elem? result a ≡ get_elem? index a)
    → (a : ℕ) → a < suc idx
    → get_elem? (x ∷ result) a ≡ get_elem? (x ∷ index) a
unshifted idx x result index h zero le = refl
unshifted idx x result index h (suc a) le = h a (omega arith)

insert_at-Inserted : (idx : ℕ) (index : List (List ℕ)) → idx ≤ length index → Inserted idx index
unfolding insert_at remove_at
insert_at-Inserted zero index h = record {
  result = [] ∷ index;
  returned = refl;
  at = refl;
  below = λ a l. absurd (omega arith);
  above = λ a l. refl;
  undone = refl;
}
insert_at-Inserted (suc idx) [] h = absurd (omega arith)
insert_at-Inserted (suc idx) (x ∷ index) h =
    let rest = insert_at-Inserted idx index (omega arith) in
    record {
      result = x ∷ rest.result;
      returned = rw rest.returned refl;
      at = rest.at;
      below = unshifted idx x rest.result index rest.below;
      above = shifted idx x rest.result index rest.above;
      undone = ap (λ l. x ∷ l) rest.undone;
    }

-- The rows of the index that actors name.
abbrev pub rows : List (List ℕ) → List ℕ → List (Option (List ℕ))
rows index actors = map (λ a. get_elem? index a) actors

row_kept :
    (idx n a : ℕ) (index : List (List ℕ)) (i : Inserted idx index) (b : Bool)
    → leb (idx % 2 ^ 32) a ≡ b
    → idx ≤ n
    → a < n
    → n < 2 ^ 32
    → get_elem? (i.result) (if b then (a + 1) % 2 ^ 32 else a) ≡ get_elem? index a
row_kept idx n a index i true e h ha k =
    let small : (a + 1) % 2 ^ 32 ≡ suc a = omega arith in
    ap (get_elem? (i.result)) small ∙ i.above a (ground arith)
row_kept idx n a index i false e h ha k = i.below a (ground arith)

rows-shift_up :
    (idx n : ℕ) (index : List (List ℕ)) (i : Inserted idx index) (xs : List ℕ)
    → idx ≤ n
    → n < 2 ^ 32
    → AreBelow n xs
    → rows i.result (shift_up idx xs) ≡ rows index xs
unfolding shift_up
rows-shift_up idx n index i [] h k al = refl
rows-shift_up idx n index i (a ∷ xs) h k (ha, al) =
    ap (λ r. r ∷ rows i.result (shift_up idx xs))
      (row_kept idx n a index i (leb (idx % 2 ^ 32) a) refl h ha k)
    ∙ ap (λ rs. get_elem? index a ∷ rs) (rows-shift_up idx n index i xs h k al)

rows_below :
    (idx : ℕ) (index : List (List ℕ)) (i : Inserted idx index) (xs : List ℕ)
    → AreBelow idx xs
    → rows i.result xs ≡ rows index xs
rows_below idx index i [] al = refl
rows_below idx index i (a ∷ xs) (ha, al) =
    ap (λ r. r ∷ rows i.result xs) (i.below a ha)
    ∙ ap (λ rs. get_elem? index a ∷ rs) (rows_below idx index i xs al)

record Rewritten (idx : ℕ) (cache : List (ℕ × SeqClock)) : Type 0 where
  pub result : List (ℕ × SeqClock)
  pub returned : each_clock (λ c. rewrite_with_new_actor c idx) cache ≡ some result
  pub undone : each_clock (λ c. Clock.remove_actor c idx) result ≡ some cache

each_clock_cons :
    (f : SeqClock → Option SeqClock) (n : ℕ) (c c' : SeqClock) (cs rest : List (ℕ × SeqClock))
    → f c ≡ some c'
    → each_clock f cs ≡ some rest
    → each_clock f ((n, c) ∷ cs) ≡ some ((n, c') ∷ rest)
unfolding each_clock
each_clock_cons f n c c' cs rest e e' = ground (arith, e, e')

each_clock-Rewritten :
    (idx n : ℕ) (cache : List (ℕ × SeqClock))
    → idx ≤ n
    → All (λ e. length (e.1) ≡ n) cache
    → Rewritten idx cache
unfolding each_clock
each_clock-Rewritten idx n [] h a = record { result = []; returned = refl; undone = refl }
each_clock-Rewritten idx n ((m, c) ∷ cache) h (hc, a) =
    let (c', returned, undone, _, _) =
      clock_renumber c idx (record { counter = 0; actor = 0 }) (omega arith) (omega arith) in
    let rest = each_clock-Rewritten idx n cache h a in
    record {
      result = (m, c') ∷ rest.result;
      returned =
          each_clock_cons (λ c. rewrite_with_new_actor c idx) m c c' cache rest.result returned
            rest.returned;
      undone =
          each_clock_cons (λ c. Clock.remove_actor c idx) m c' c rest.result cache undone
            rest.undone;
    }

-- The actors of a graph are below their number, and the cached clocks have an entry for each.
pub record HasActors (g : ChangeGraph) : Type 0 where
  pub actors : All (λ a. a < num_actors g) g.actors
  pub clocks : All (λ e. length (e.1) ≡ num_actors g) g.clock_cache

kept_actors :
    (idx n : ℕ) (xs : List ℕ) (b : Bool)
    → (n == idx) ≡ b
    → idx ≤ n
    → n < 2 ^ 32
    → AreBelow n xs
    → shift_down idx (if b then xs else shift_up idx xs) ≡ xs
kept_actors idx n xs true e h k al =
    shift_down_last idx xs (omega arith) (All-map xs (λ a l. ground arith) al)
kept_actors idx n xs false e h k al = shift_down-shift_up idx n xs h k al

kept_rows :
    (idx n : ℕ) (index : List (List ℕ)) (i : Inserted idx index) (xs : List ℕ) (b : Bool)
    → (n == idx) ≡ b
    → idx ≤ n
    → n < 2 ^ 32
    → AreBelow n xs
    → rows i.result (if b then xs else shift_up idx xs) ≡ rows index xs
kept_rows idx n index i xs true e h k al =
    rows_below idx index i xs (All-map xs (λ a l. ground arith) al)
kept_rows idx n index i xs false e h k al = rows-shift_up idx n index i xs h k al

-- An actor can be inserted anywhere among the actors of a graph of fewer than 2^32, without a panic.
-- The new actor has no changes, every change is then of the actor with the same row of the sequence
-- index as before, and the removal of the new actor gives the whole graph back, the cached clocks
-- and the index included.
pub remove_actor-insert_actor :
    (g : ChangeGraph) (idx : ℕ)
    → HasActors g
    → idx ≤ num_actors g
    → num_actors g < 2 ^ 32
    → (g' : ChangeGraph) × (insert_actor g idx ≡ ok g')
      × (get_elem? g'.seq_index idx ≡ some [])
      × (map (λ a. get_elem? g'.seq_index a) g'.actors
          ≡ map (λ a. get_elem? g.seq_index a) g.actors)
      × (remove_actor g' idx ≡ ok g)
unfolding insert_actor remove_actor
remove_actor-insert_actor g idx r h k =
    let n = num_actors g in
    let cache = each_clock-Rewritten idx n g.clock_cache h r.clocks in
    let index = insert_at-Inserted idx g.seq_index h in
    let actors = if n == idx then g.actors else shift_up idx g.actors in
    let undone = kept_actors idx n g.actors (n == idx) refl h k r.actors in
    (
      record g { actors = actors; clock_cache = cache.result; seq_index = index.result },
      rw (cache.returned, index.returned) refl,
      index.at,
      kept_rows idx n g.seq_index index g.actors (n == idx) refl h k r.actors,
      rw (index.at, cache.undone, index.undone, undone) refl,
    )
