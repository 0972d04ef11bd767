-- ===== src/Graph/Edges/Run.antt =====
-- change_graph.rs: the edges of one node stand in a row, each linked to the next.
use automerge_r.Common.{
  ℕ, zero, suc, ◌+◌, ◌<◌, ◌≡◌, ◌≢◌, refl, sym, ap, ◌∙◌, List, [], ◌∷◌, ◌++◌, Option, none, some,
  length, length-append, get_elem?, ok, arith,
}
use mathlib.Core.Path.{subst}
use automerge_r.Graph.Types.{Edge}
use automerge_r.Graph.Edges.{walk, last_edge, set_next}

abbrev pub edge_to : ℕ → Option ℕ → Edge
edge_to target next = record { target = target; next = next }

-- From place `s` on, the edges lead to the targets, and the last has no next.
abbrev pub IsRun : List Edge → ℕ → List ℕ → Type 0
IsRun es s [] = Unit
IsRun es s (n ∷ []) = get_elem? es s ≡ some (edge_to n none)
IsRun es s (n ∷ m ∷ ns) =
    (get_elem? es s ≡ some (edge_to n (some (s + 1)))) × IsRun es (s + 1) (m ∷ ns)

pub walk-IsRun :
    (fuel : ℕ) (es : List Edge) (s n : ℕ) (ns : List ℕ)
    → length ns < fuel
    → IsRun es s (n ∷ ns)
    → walk fuel es (some s) ≡ ok (n ∷ ns)
unfolding walk
walk-IsRun zero es s n ns h r = absurd (omega arith)
walk-IsRun (suc fuel) es s n [] h r = rw r refl
walk-IsRun (suc fuel) es s n (m ∷ ns) h (e, r) =
    rw (e, walk-IsRun fuel es (s + 1) m ns (omega arith) r) refl

pub last_edge-IsRun :
    (fuel : ℕ) (es : List Edge) (s n : ℕ) (ns : List ℕ)
    → length ns < fuel
    → IsRun es s (n ∷ ns)
    → last_edge fuel es s ≡ ok (s + length ns)
unfolding last_edge
last_edge-IsRun zero es s n ns h r = absurd (omega arith)
last_edge-IsRun (suc fuel) es s n [] h r = rw r (ap ok (omega arith))
last_edge-IsRun (suc fuel) es s n (m ∷ ns) h (e, r) =
    rw (e, last_edge-IsRun fuel es (s + 1) m ns (omega arith) r) (ap ok (omega arith))

get_elem?-set_next_other :
    (es : List Edge) (k j next : ℕ) → j ≢ k → get_elem? (set_next es k next) j ≡ get_elem? es j
unfolding set_next
get_elem?-set_next_other [] k j next h = refl
get_elem?-set_next_other (e ∷ es) zero zero next h = absurd (h refl)
get_elem?-set_next_other (e ∷ es) zero (suc j) next h = refl
get_elem?-set_next_other (e ∷ es) (suc k) zero next h = refl
get_elem?-set_next_other (e ∷ es) (suc k) (suc j) next h =
    get_elem?-set_next_other es k j next (λ x. h (ap suc x))

get_elem?-set_next_same :
    (es : List Edge) (k next : ℕ) (e : Edge)
    → get_elem? es k ≡ some e
    → get_elem? (set_next es k next) k ≡ some (record e { next = some next })
unfolding set_next
get_elem?-set_next_same [] k next e h = absurd (cc)
get_elem?-set_next_same (x ∷ es) zero next e h =
    ap (λ o. elim o [ none ↦ none | some y ↦ some (record y { next = some next }) ]) h
get_elem?-set_next_same (x ∷ es) (suc k) next e h = get_elem?-set_next_same es k next e h

pub length-set_next : (es : List Edge) (k next : ℕ) → length (set_next es k next) ≡ length es
unfolding set_next
length-set_next [] k next = refl
length-set_next (e ∷ es) zero next = refl
length-set_next (e ∷ es) (suc k) next = ap suc (length-set_next es k next)

pub get_elem?-old :
    (es : List Edge) (e : Edge) (j : ℕ)
    → j < length es
    → get_elem? (es ++ (e ∷ [])) j ≡ get_elem? es j
get_elem?-old [] e j h = absurd (omega arith)
get_elem?-old (x ∷ es) e zero h = refl
get_elem?-old (x ∷ es) e (suc j) h = get_elem?-old es e j (omega arith)

pub get_elem?-new : (es : List Edge) (e : Edge) → get_elem? (es ++ (e ∷ [])) (length es) ≡ some e
get_elem?-new [] e = refl
get_elem?-new (x ∷ es) e = get_elem?-new es e

-- The edges after a new one is put at the end and linked from place `last`.
abbrev pub linked : List Edge → ℕ → ℕ → List Edge
linked es last t = set_next (es ++ (edge_to t none ∷ [])) last (length es)

pub get_elem?-linked_old :
    (es : List Edge) (last t j : ℕ)
    → j < length es
    → j ≢ last
    → get_elem? (linked es last t) j ≡ get_elem? es j
get_elem?-linked_old es last t j h d =
    get_elem?-set_next_other (es ++ (edge_to t none ∷ [])) last j (length es) d
    ∙ get_elem?-old es (edge_to t none) j h

get_elem?-linked_last :
    (es : List Edge) (last t : ℕ) (e : Edge)
    → last < length es
    → get_elem? es last ≡ some e
    → get_elem? (linked es last t) last ≡ some (record e { next = some (length es) })
get_elem?-linked_last es last t e h g =
    get_elem?-set_next_same (es ++ (edge_to t none ∷ [])) last (length es) e
      (get_elem?-old es (edge_to t none) last h ∙ g)

get_elem?-linked_new :
    (es : List Edge) (last t : ℕ)
    → last < length es
    → get_elem? (linked es last t) (length es) ≡ some (edge_to t none)
get_elem?-linked_new es last t h =
    get_elem?-set_next_other (es ++ (edge_to t none ∷ [])) last (length es) (length es)
      (λ e. absurd (omega arith))
    ∙ get_elem?-new es (edge_to t none)

pub length-linked : (es : List Edge) (last t : ℕ) → length (linked es last t) ≡ length es + 1
length-linked es last t =
    length-set_next (es ++ (edge_to t none ∷ [])) last (length es)
    ∙ length-append es (edge_to t none ∷ [])

-- A run at the end of the edges grows by the new edge.
pub IsRun-linked :
    (es : List Edge) (s n t last : ℕ) (ns : List ℕ)
    → last ≡ s + length ns
    → last + 1 ≡ length es
    → IsRun es s (n ∷ ns)
    → IsRun (linked es last t) s (n ∷ (ns ++ (t ∷ [])))
IsRun-linked es s n t last [] hl h r =
    let here : last ≡ s = omega arith in
    let size : length es ≡ s + 1 = omega arith in
    let old =
      get_elem?-linked_last es last t (edge_to n none) (omega arith)
        (subst (λ x. get_elem? es x ≡ some (edge_to n none)) (sym here) r) in
    (
      subst (λ x. get_elem? (linked es last t) x ≡ some (edge_to n (some (s + 1)))) here
          (subst (λ x. get_elem? (linked es last t) last ≡ some (edge_to n (some x))) size old),
      subst (λ x. get_elem? (linked es last t) x ≡ some (edge_to t none)) size
          (get_elem?-linked_new es last t (omega arith)),
    )
IsRun-linked es s n t last (m ∷ ns) hl h (e, r) = (
  get_elem?-linked_old es last t s (omega arith) (λ x. absurd (omega arith)) ∙ e,
  IsRun-linked es (s + 1) m t last ns (omega arith) h r,
)
