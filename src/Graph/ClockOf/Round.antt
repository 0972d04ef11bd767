-- ===== src/Graph/ClockOf/Round.antt =====
-- change_graph.rs: one round of the loop on the nodes to visit, and what it keeps.
use automerge_r.Common.{
  ℕ, ◌+◌, ◌≤◌, ◌<◌, ◌≡◌, ◌↔◌, ◌⊎◌, inl, inr, refl, sym, false, List, [], ◌∷◌, length, All, All-map,
  ok, arith, ltb, Bool-cases, ◌∙◌,
}
use Prim.Native.Nat.{max}
use mathlib.Core.Path.{subst}
use automerge_r.Clock.{SeqClock, merge}
use automerge_r.Clock.Order.{count, count-merge, length-merge, Included, include-Included}
use automerge_r.Graph.Types.{ChangeGraph, num_actors}
use automerge_r.Graph.Edges.{parents_of}
use automerge_r.Graph.ClockOf.{insert_desc, node_mem, extend_unvisited, include_node}
use automerge_r.Graph.ClockOf.Ancestors.{
  In, Ancestor, here, up, Ancestor-trans, Ancestor-first, Reached, IsChange, IsClockOf, Desc,
  insert_desc-Desc, In-insert_desc,
}

pub node_mem_below :
    (b n : ℕ) (visited : List ℕ) → n < b → All (λ v. b ≤ v) visited → node_mem n visited ≡ false
unfolding node_mem
node_mem_below b n [] h a = refl
node_mem_below b n (v ∷ visited) h (hv, a) = ground (arith, node_mem_below b n visited h a)

extend_unvisited-Desc :
    (b : ℕ) (visited ps to_visit : List ℕ)
    → All (λ v. b ≤ v) visited
    → All (λ p. p < b) ps
    → Desc b to_visit
    → Desc b (extend_unvisited visited ps to_visit)
unfolding extend_unvisited
extend_unvisited-Desc b visited [] to_visit hv hp d = d
extend_unvisited-Desc b visited (p ∷ ps) to_visit hv (h, hp) d =
    rw (node_mem_below b p visited h hv) (
      extend_unvisited-Desc b visited ps (insert_desc p to_visit) hv hp
        (insert_desc-Desc b p to_visit h d))

In-extend_unvisited :
    (b k : ℕ) (visited ps to_visit : List ℕ)
    → All (λ v. b ≤ v) visited
    → All (λ p. p < b) ps
    → In k (extend_unvisited visited ps to_visit) ↔ (In k ps ⊎ In k to_visit)
unfolding extend_unvisited
In-extend_unvisited b k visited [] to_visit hv hp = ground arith
In-extend_unvisited b k visited (p ∷ ps) to_visit hv (h, hp) = ground (
  arith,
  node_mem_below b p visited h hv,
  In-extend_unvisited b k visited ps (insert_desc p to_visit) hv hp,
  In-insert_desc k p to_visit,
)

-- What `include` leaves in an entry is what was there or, for its actor, the new number.
count_or_new :
    (clock : SeqClock) (a s k : ℕ) (i : Included clock a s)
    → (count i.result k ≡ count clock k) ⊎ ((k ≡ a) × (count i.result k ≡ s))
count_or_new clock a s k i = ground (arith, i.counts k)

module _ (g : ChangeGraph) (roots : List ℕ) where
  abbrev pub Seen : ℕ → ℕ → Type 0
  Seen a c = (m : ℕ) × Reached g roots m × IsChange g m a c

  -- What a clock has seen comes from changes that the roots reach.
  pub record IsSound (clock : SeqClock) : Type 0 where
    pub size : length clock ≡ num_actors g
    pub sound : (a : ℕ) → 0 < count clock a → Seen a (count clock a)

  -- The loop's invariant: `b` is above the nodes to visit and not above a visited one.
  pub record IsRound (b : ℕ) (visited : List ℕ) (clock : SeqClock) (to_visit : List ℕ)
      : Type 0 where
    pub now : IsSound clock
    pub desc : Desc b to_visit
    pub above : All (λ v. b ≤ v) visited
    pub room : length visited + b ≤ length g.hashes
    pub from : (t : ℕ) → In t to_visit → Reached g roots t
    pub waiting :
        (m a s : ℕ)
        → Reached g roots m
        → IsChange g m a s
        → (s ≤ count clock a) ⊎ ((t : ℕ) × In t to_visit × Ancestor g t m)

  pub record IsNoted (clock : SeqClock) (n : ℕ) : Type 0 where
    pub result : SeqClock
    pub returned : include_node g clock n ≡ ok result
    pub now : IsSound result
    pub grows : (a : ℕ) → count clock a ≤ count result a
    pub own : (a s : ℕ) → IsChange g n a s → s ≤ count result a

  pub include_node-IsNoted :
      (clock : SeqClock) (n a s : ℕ)
      → Reached g roots n
      → IsChange g n a s
      → a < num_actors g
      → IsSound clock
      → IsNoted clock n
  unfolding include_node
  include_node-IsNoted clock n a s r change ha now =
      let step = include-Included clock a s (omega (arith, now.size)) in
      record {
        result = step.result;
        returned = rw (change.actor, change.number, step.returned);
        now = record {
          size = step.size ∙ now.size;
          sound = λ k h. elim (count_or_new clock a s k step) [
            | inl old ↦ subst (Seen k) (sym old) (now.sound k (omega (arith, old)))
            | inr (own, new) ↦
                subst (λ x. Seen x (count step.result x)) (sym own)
                  (subst (Seen a) (cc) (n, r, change))
          ];
        };
        grows = λ k. ground (arith, step.counts k);
        own = λ k t other.
            ground (arith, step.counts k, change.actor, change.number, other.actor, other.number);
      }

  -- What waited for the popped node is that node, or waits for one of its parents.
  passed_on :
      (t n m : ℕ) (ps xs to_visit : List ℕ)
      → ((k : ℕ) → In k xs ↔ (In k ps ⊎ In k to_visit))
      → parents_of g n ≡ ok ps
      → t ≡ n
      → Ancestor g t m
      → (m ≡ n) ⊎ ((t : ℕ) × In t xs × Ancestor g t m)
  passed_on t n m ps xs to_visit mem e same anc =
      elim (Ancestor-first ps e (subst (λ x. Ancestor g x m) same anc)) [
        | inl it ↦ inl it
        | inr (p, i, b) ↦ inr (p, (mem p).1 (inl i), b)
      ]

  pub next_uncached :
      (b n : ℕ) (visited to_visit ps : List ℕ) (clock : SeqClock)
      → IsRound b visited clock (n ∷ to_visit)
      → (noted : IsNoted clock n) → parents_of g n ≡ ok ps
      → All (λ p. p < n) ps
      → IsRound n (n ∷ visited) noted.result (extend_unvisited (n ∷ visited) ps to_visit)
  next_uncached b n visited to_visit ps clock r noted e hp =
      let (hn, d) = r.desc in
      let above : All (λ v. n ≤ v) visited =
        All-map visited (λ v h. omega (arith, h, hn)) r.above in
      let mem =
        λ (k : ℕ). In-extend_unvisited n k (n ∷ visited) ps to_visit (omega arith, above) hp in
      record {
        now = noted.now;
        desc = extend_unvisited-Desc n (n ∷ visited) ps to_visit (omega arith, above) hp d;
        above = (omega arith, above);
        room = omega (arith, r.room, hn);
        from = λ t i. elim ((mem t).0 i) [
          | inl j ↦
              let root = r.from n (inl refl) in
              record {
                root = root.root;
                is_root = root.is_root;
                path = Ancestor-trans root.path (up t ps here e j);
              }
          | inr j ↦ r.from t (inr j)
        ];
        waiting = λ m a s reached change. elim (r.waiting m a s reached change) [
          | inl seen ↦ inl (omega (arith, seen, noted.grows a))
          | inr (t, inr i, anc) ↦ inr (t, (mem t).1 (inr i), anc)
          | inr (t, inl same, anc) ↦
              elim (passed_on t n m ps (extend_unvisited (n ∷ visited) ps to_visit) to_visit mem e
                same anc) [
                  | inl it ↦ inl (noted.own a s (subst (λ x. IsChange g x a s) it change))
                  | inr waits ↦ inr waits
                ]
        ];
      }

  larger : (x y z a : ℕ) → z ≡ max x y → 0 < z → (0 < x → Seen a x) → (0 < y → Seen a y) → Seen a z
  larger x y z a e h f k = elim (Bool-cases (ltb x y)) [
    | inl less ↦ subst (Seen a) (ground arith) (k (ground arith))
    | inr more ↦ subst (Seen a) (ground arith) (f (ground arith))
  ]

  -- What the cached clock of a node has seen is reached through that node.
  through :
      (n a : ℕ) (cached : SeqClock)
      → Reached g roots n
      → IsClockOf g cached (n ∷ [])
      → 0 < count cached a
      → Seen a (count cached a)
  through n a cached r c h =
      let (m, reached, change) = c.sound a h in
      elim reached.is_root [
        | inl same ↦ (
          m,
          record {
            root = r.root;
            is_root = r.is_root;
            path = Ancestor-trans r.path (subst (λ x. Ancestor g x m) same reached.path);
          },
          change,
        )
        | inr none_left ↦ absurd none_left
      ]

  merged :
      (n : ℕ) (clock cached : SeqClock)
      → IsSound clock
      → Reached g roots n
      → IsClockOf g cached (n ∷ [])
      → IsSound (merge clock cached)
  merged n clock cached now r c = record {
    size = length-merge clock cached ∙ now.size;
    sound = λ a h.
        larger (count clock a) (count cached a) (count (merge clock cached) a) a
          (count-merge clock cached a (now.size ∙ sym c.size)) h (now.sound a)
          (through n a cached r c);
  }

  pub next_cached :
      (b n : ℕ) (visited to_visit : List ℕ) (clock cached : SeqClock)
      → IsRound b visited clock (n ∷ to_visit)
      → (noted : IsNoted clock n) → IsClockOf g cached (n ∷ [])
      → IsRound n (n ∷ visited) (merge noted.result cached) to_visit
  next_cached b n visited to_visit clock cached r noted c =
      let (hn, d) = r.desc in
      let counts = λ (k : ℕ). count-merge noted.result cached k (noted.now.size ∙ sym c.size) in
      record {
        now = merged n noted.result cached noted.now (r.from n (inl refl)) c;
        desc = d;
        above = (omega arith, All-map visited (λ v h. omega (arith, h, hn)) r.above);
        room = omega (arith, r.room, hn);
        from = λ t i. r.from t (inr i);
        waiting = λ m a s reached change. elim (r.waiting m a s reached change) [
          | inl seen ↦ inl (omega (arith, seen, noted.grows a, counts a))
          | inr (t, inr i, anc) ↦ inr (t, i, anc)
          | inr (t, inl same, anc) ↦
              let path = subst (λ x. Ancestor g x m) same anc in
              inl (
                omega (
                  arith,
                  counts a,
                  c.complete m a s (record { root = n; is_root = inl refl; path = path }) change,
                ))
        ];
      }
