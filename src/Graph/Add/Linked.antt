-- ===== src/Graph/Add/Linked.antt =====
-- change_graph.rs: `add_parent` links the parents of a new node in order and leaves the others'.
use automerge_r.Common.{
  ◌+◌, ◌<◌, ◌^◌, length-append, ℕ, ◌≤◌, ◌≡◌, ◌≢◌, refl, sym, append_assoc, append-nil, List, [],
  ◌∷◌, ◌++◌, Option, none, some, length, get_elem?, ok, Result, arith, ◌>>=◌,
}
use mathlib.Core.Path.{subst}
use automerge_r.Common.Hash.{ChangeHash}
use automerge_r.Graph.Types.{Edge, ChangeGraph, GraphError, lookup_hash, unwrap}
use automerge_r.Graph.Edges.{walk, parents_of}
use automerge_r.Graph.Edges.Run.{IsRun, walk-IsRun}
use automerge_r.Graph.Add.{add_parents}
use automerge_r.Graph.Add.Linking.{walk-kept, IsLinking, first_edge, link_first, link_next}

-- All hashes of a list are in the graph, at these nodes.
abbrev pub AreKnown : ChangeGraph → List ChangeHash → List ℕ → Type 0
AreKnown g [] [] = Unit
AreKnown g [] (t ∷ ts) = ⊥
AreKnown g (h ∷ hs) [] = ⊥
AreKnown g (h ∷ hs) (t ∷ ts) = (lookup_hash g.nodes_by_hash h ≡ some t) × AreKnown g hs ts

record AllLinked (g : ChangeGraph) (node : ℕ) (ps : List ℕ) (g₁ : ChangeGraph)
    (hs : List ChangeHash) : Type 0 where
  pub graph : ChangeGraph
  pub returned : add_parents g₁ node hs ≡ ok graph
  pub linking : IsLinking g node ps graph

link_rest :
    (g : ChangeGraph) (node p : ℕ) (ps : List ℕ) (g₁ : ChangeGraph) (hs : List ChangeHash)
    (ts : List ℕ)
    → IsLinking g node (p ∷ ps) g₁
    → AreKnown g hs ts
    → length g₁.edges + length hs < 2 ^ 32
    → AllLinked g node (p ∷ (ps ++ ts)) g₁ hs
unfolding add_parents
link_rest g node p ps g₁ [] [] l k room = record {
  graph = g₁;
  returned = refl;
  linking = subst (λ x. IsLinking g node (p ∷ x) g₁) (sym (append-nil ps)) l;
}
link_rest g node p ps g₁ [] (t ∷ ts) l k room = absurd k
link_rest g node p ps g₁ (h ∷ hs) [] l k room = absurd k
link_rest g node p ps g₁ (h ∷ hs) (t ∷ ts) l (e, k) room =
    let next = link_next g node p t ps g₁ h l e (omega arith) in
    let rest =
      link_rest g node p (ps ++ (t ∷ [])) next.graph hs ts next.linking k
        (omega (arith, next.linking.size, l.size, length-append ps (t ∷ []))) in
    record {
      graph = rest.graph;
      returned = rw next.returned rest.returned;
      linking =
          subst (λ x. IsLinking g node (p ∷ x) rest.graph) (append_assoc ps (t ∷ []) ts)
            rest.linking;
    }

link_all :
    (g : ChangeGraph) (node : ℕ) (hs : List ChangeHash) (ts : List ℕ)
    → get_elem? g.parents node ≡ some none
    → AreKnown g hs ts
    → length g.edges + length hs < 2 ^ 32
    → AllLinked g node ts g hs
unfolding add_parents
link_all g node [] [] own k room = record {
  graph = g;
  returned = refl;
  linking = record {
    hashes = refl;
    size = omega arith;
    kept = λ j i. refl;
    row = tt;
    own = own;
    others = λ n d. refl;
  };
}
link_all g node [] (t ∷ ts) own k room = absurd k
link_all g node (h ∷ hs) [] own k room = absurd k
link_all g node (h ∷ hs) (t ∷ ts) own (e, k) room =
    let first = link_first g node t h own e (omega arith) in
    let rest =
      link_rest g node t [] first.graph hs ts first.linking k (omega (arith, first.linking.size)) in
    record {
      graph = rest.graph;
      returned = rw first.returned rest.returned;
      linking = rest.linking;
    }

walk_own :
    (es : List Edge) (base : ℕ) (ps : List ℕ)
    → length ps ≤ length es
    → IsRun es base ps
    → walk (length es) es (first_edge base ps) ≡ ok ps
walk_own es base [] h r = unfold walk in refl
walk_own es base (p ∷ ps) h r = walk-IsRun (length es) es base p ps (omega arith) r

from_entry :
    (o : Option (Option ℕ)) (f f' : Option ℕ → Result GraphError (List ℕ)) (ps : List ℕ)
    → ((entry : Option ℕ) → f entry ≡ ok ps → f' entry ≡ ok ps)
    → (unwrap o >>= f) ≡ ok ps
    → (unwrap o >>= f') ≡ ok ps
from_entry none f f' ps h e = absurd (cc)
from_entry (some entry) f f' ps h e = h entry e

others_kept :
    (g g' : ChangeGraph) (node n : ℕ) (ts ps : List ℕ)
    → IsLinking g node ts g'
    → n ≢ node
    → parents_of g n ≡ ok ps
    → parents_of g' n ≡ ok ps
unfolding parents_of
others_kept g g' node n ts ps l d e = rw (l.others n d) (
    from_entry (get_elem? g.parents n) (walk (length g.edges) g.edges)
      (walk (length g'.edges) g'.edges) ps
      (λ entry w.
        walk-kept (length g.edges) (length g'.edges) g.edges g'.edges entry ps
          (omega (arith, l.size)) l.kept w)
      e)

-- Linking the dependencies of a node that has no parents yet, all of them in the graph, succeeds if
-- the graph has fewer than 2^32 edges with those of the dependencies: the node's parents are then the dependencies' nodes in their order.
pub add_parents-parents_of :
    (g : ChangeGraph) (node : ℕ) (hs : List ChangeHash) (ts : List ℕ)
    → get_elem? g.parents node ≡ some none
    → AreKnown g hs ts
    → length g.edges + length hs < 2 ^ 32
    → (g' : ChangeGraph) × (add_parents g node hs ≡ ok g') × (parents_of g' node ≡ ok ts)
unfolding parents_of
add_parents-parents_of g node hs ts own k room =
    let all = link_all g node hs ts own k room in
    let l = all.linking in
    (
      all.graph,
      all.returned,
      rw l.own (walk_own all.graph.edges (length g.edges) ts (omega (arith, l.size)) l.row),
    )

-- Linking the dependencies of a node that has no parents yet, all of them in the graph, which has
-- fewer than 2^32 edges with those of the dependencies, leaves the parents of every other node as
-- they were.
pub add_parents-others :
    (g : ChangeGraph) (node n : ℕ) (hs : List ChangeHash) (ts ps : List ℕ)
    → get_elem? g.parents node ≡ some none
    → AreKnown g hs ts
    → length g.edges + length hs < 2 ^ 32
    → n ≢ node
    → parents_of g n ≡ ok ps
    → (g' : ChangeGraph) × (add_parents g node hs ≡ ok g') × (parents_of g' n ≡ ok ps)
add_parents-others g node n hs ts ps own k room d e =
    let all = link_all g node hs ts own k room in
    (all.graph, all.returned, others_kept g all.graph node n ts ps all.linking d e)
