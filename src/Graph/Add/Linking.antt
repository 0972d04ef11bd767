-- ===== src/Graph/Add/Linking.antt =====
-- change_graph.rs: one call of `add_parent`, and what it keeps of the graph.
use automerge_r.Common.{
  ◌-◌, ◌%◌, ◌^◌, ◌==◌, if◌then◌else◌, suc==zero, ℕ, zero, suc, ◌+◌, ◌≤◌, ◌<◌, ◌≡◌, ◌≢◌, refl, sym,
  ap, ◌∙◌, List, [], ◌∷◌, ◌++◌, Option, none, some, length, length-append, get_elem?, set,
  get_elem?-set, ok, err, Result, arith, ◌>>=◌,
}
use automerge_r.Common.Hash.{ChangeHash}
use automerge_r.Graph.Types.{Edge, ChangeGraph, GraphError, panic, lookup_hash, unwrap}
use automerge_r.Graph.Edges.{walk, edge_idx_new, add_parent}
use automerge_r.Graph.Edges.Run.{
  IsRun, edge_to, linked, last_edge-IsRun, get_elem?-old, get_elem?-new, get_elem?-linked_old,
  length-linked, IsRun-linked,
}

in_range : (es : List Edge) (j : ℕ) (e : Edge) → get_elem? es j ≡ some e → j < length es
in_range [] j e h = absurd (cc)
in_range (x ∷ es) zero e h = omega arith
in_range (x ∷ es) (suc j) e h = let ih = in_range es j e h in omega (arith, ih)

cons_inv :
    (n : ℕ) (r : Result GraphError (List ℕ)) (ps : List ℕ)
    → (r >>= λ rest. ok (n ∷ rest)) ≡ ok ps
    → (rest : List ℕ) × (r ≡ ok rest) × (ps ≡ n ∷ rest)
cons_inv n (err x) ps h = absurd (cc)
cons_inv n (ok rest) ps h = (rest, refl, cc)

-- A walk that succeeds at an edge found it, and the walk from its next succeeded.
step_inv :
    (o : Option Edge) (f : Edge → Result GraphError (List ℕ)) (ps : List ℕ)
    → (unwrap o >>= λ e. f e >>= λ rest. ok (e.target ∷ rest)) ≡ ok ps
    → (e : Edge) × (rest : List ℕ) × (o ≡ some e) × (f e ≡ ok rest) × (ps ≡ e.target ∷ rest)
step_inv none f ps h = absurd (cc)
step_inv (some e) f ps h =
    let (rest, g, same) = cons_inv e.target (f e) ps h in (e, rest, refl, g, same)

-- A walk that succeeds succeeds in the same way where its edges are still there.
pub walk-kept :
    (fuel more : ℕ) (es es' : List Edge) (e : Option ℕ) (ps : List ℕ)
    → fuel ≤ more
    → ((j : ℕ) → j < length es → get_elem? es' j ≡ get_elem? es j)
    → walk fuel es e ≡ ok ps
    → walk more es' e ≡ ok ps
unfolding walk
walk-kept fuel more es es' none ps h k w = w
walk-kept zero more es es' (some e) ps h k w = absurd (cc)
walk-kept (suc fuel) zero es es' (some e) ps h k w = absurd (omega arith)
walk-kept (suc fuel) (suc more) es es' (some e) ps h k w =
    let (edge, rest, found, next, same) =
      step_inv (get_elem? es e) (λ x. walk fuel es x.next) ps w in
    let there = k e (in_range es e edge found) ∙ found in
    rw (there, walk-kept fuel more es es' edge.next rest (omega arith) k next) (ap ok (sym same))

abbrev pub first_edge : ℕ → List ℕ → Option ℕ
first_edge start [] = none
first_edge start (p ∷ ps) = some start

-- The parents of `node` that are linked so far are `ps`, and the rest of the graph is as in `g`.
pub record IsLinking (g : ChangeGraph) (node : ℕ) (ps : List ℕ) (g' : ChangeGraph) : Type 0 where
  pub hashes : g'.nodes_by_hash ≡ g.nodes_by_hash
  pub size : length g'.edges ≡ length g.edges + length ps
  pub kept : (j : ℕ) → j < length g.edges → get_elem? g'.edges j ≡ get_elem? g.edges j
  pub row : IsRun g'.edges (length g.edges) ps
  pub own : get_elem? g'.parents node ≡ some (first_edge (length g.edges) ps)
  pub others : (n : ℕ) → n ≢ node → get_elem? g'.parents n ≡ get_elem? g.parents n

pub first_linked :
    (g : ChangeGraph) (node t : ℕ)
    → get_elem? g.parents node ≡ some none
    → IsLinking g node (t ∷ []) (record g {
      edges = g.edges ++ (edge_to t none ∷ []);
      parents = set g.parents node (some (length g.edges));
    })
first_linked g node t h = record {
  hashes = refl;
  size = length-append g.edges (edge_to t none ∷ []);
  kept = λ j l. get_elem?-old g.edges (edge_to t none) j l;
  row = get_elem?-new g.edges (edge_to t none);
  own = ground (arith, get_elem?-set g.parents node node (some (length g.edges)), h);
  others = λ n d. ground (arith, get_elem?-set g.parents node n (some (length g.edges)), d);
}

IsRun-kept :
    (es es' : List Edge) (s : ℕ) (ns : List ℕ)
    → ((j : ℕ) → j < length es → get_elem? es' j ≡ get_elem? es j)
    → IsRun es s ns
    → IsRun es' s ns
IsRun-kept es es' s [] k r = tt
IsRun-kept es es' s (n ∷ []) k r = k s (in_range es s _ r) ∙ r
IsRun-kept es es' s (n ∷ m ∷ ns) k (e, r) =
    (k s (in_range es s _ e) ∙ e, IsRun-kept es es' (s + 1) (m ∷ ns) k r)

pub record Linked (g : ChangeGraph) (node : ℕ) (ps : List ℕ) (g₁ : ChangeGraph) (h : ChangeHash)
    : Type 0 where
  pub graph : ChangeGraph
  pub returned : add_parent g₁ node h ≡ ok graph
  pub linking : IsLinking g node ps graph

edge_idx_new_lem : (n : ℕ) → n + 1 < 2 ^ 32 → edge_idx_new n ≡ ok n
unfolding edge_idx_new
edge_idx_new_lem n h =
    let raw : (n % 2 ^ 32 + 1) % 2 ^ 32 ≡ suc n = omega arith in
    let back : suc n - 1 ≡ n = omega arith in
    ap (λ (k : ℕ). if k == 0 then err panic else ok (k - 1)) raw ∙ rw (suc==zero n) (ap ok back)

pub link_first :
    (g : ChangeGraph) (node t : ℕ) (h : ChangeHash)
    → get_elem? g.parents node ≡ some none
    → lookup_hash g.nodes_by_hash h ≡ some t
    → length g.edges + 1 < 2 ^ 32
    → Linked g node (t ∷ []) g h
unfolding add_parent
link_first g node t h own known room = record {
  graph = _;
  returned = rw (known, edge_idx_new_lem (length g.edges) room, own) refl;
  linking = first_linked g node t own;
}

pub link_next :
    (g : ChangeGraph) (node p t : ℕ) (ps : List ℕ) (g₁ : ChangeGraph) (h : ChangeHash)
    → IsLinking g node (p ∷ ps) g₁
    → lookup_hash g.nodes_by_hash h ≡ some t
    → length g₁.edges + 1 < 2 ^ 32
    → Linked g node (p ∷ (ps ++ (t ∷ []))) g₁ h
unfolding add_parent
link_next g node p t ps g₁ h l known room =
    let base = length g.edges in
    let last = base + length ps in
    let longer = g₁.edges ++ (edge_to t none ∷ []) in
    let size : length longer ≡ length g₁.edges + 1 = length-append g₁.edges (edge_to t none ∷ []) in
    let row =
      IsRun-kept g₁.edges longer base (p ∷ ps) (λ j i. get_elem?-old g₁.edges (edge_to t none) j i)
        l.row in
    let found =
      last_edge-IsRun (length longer) longer base p ps (omega (arith, size, l.size)) row in
    let here : lookup_hash g₁.nodes_by_hash h ≡ some t =
      ap (λ m. lookup_hash m h) l.hashes ∙ known in
    record {
      graph = record g₁ { edges = linked g₁.edges last t };
      returned = rw (here, edge_idx_new_lem (length g₁.edges) room, l.own, found) refl;
      linking = record {
        hashes = l.hashes;
        size = omega (arith, length-linked g₁.edges last t, l.size, length-append ps (t ∷ []));
        kept = λ j i.
            get_elem?-linked_old g₁.edges last t j (omega (arith, l.size))
              (λ e. absurd (omega arith))
            ∙ l.kept j i;
        row = IsRun-linked g₁.edges base p t last ps refl (omega (arith, l.size)) l.row;
        own = l.own;
        others = l.others;
      };
    }
