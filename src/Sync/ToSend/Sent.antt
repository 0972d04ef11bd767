-- ===== src/Sync/ToSend/Sent.antt =====
-- sync.rs: what `get_hashes_to_send` returns.
use automerge_r.Common.{
  ◌≡◌, sym, ◌∙◌, Bool, true, false, not, List, [], ◌∷◌, ◌++◌, Option, none, some, if◌then◌else◌,
  Result, ok, bind_ok, arith, Bool-cases, ◌⊎◌, inl, inr,
}
use mathlib.Core.Path.{subst}
use automerge_r.Common.Hash.{
  ChangeHash, hash_eq, hash_eq_iff, hash_mem, hash_filter, hash_mem-append, hash_mem-filter,
}
use automerge_r.Graph.Types.{ChangeGraph, GraphError, unwrap}
use automerge_r.Graph.Edges.{deps}
use automerge_r.Graph.Query.{get_hashes}
use automerge_r.Sync.Message.{Have}
use automerge_r.Sync.Document.{Document, to_set}
use automerge_r.Sync.ToSend.{
  last_syncs, in_no_filter, edges_of, survey, with_dependents, get_hashes_to_send,
}
use automerge_r.Sync.ToSend.Closure.{Edges, HasEdge, Within, with_dependents-IsClosure}

second :
    (x : Edges × List ChangeHash) (edges : Edges) (chosen : List ChangeHash)
    → ◌≡◌ {A = Result GraphError (Edges × List ChangeHash)} (ok x) (ok (edges, chosen))
    → x.1 ≡ chosen
second x edges chosen e = cc

survey_step :
    (unseen : Bool) (h k : ChangeHash) (have : List Have) (hashes rest : List ChangeHash)
    → in_no_filter h have ≡ ok unseen
    → in_no_filter k have ≡ ok true
    → hash_mem k (h ∷ hashes) ≡ true
    → (hash_mem k hashes ≡ true → hash_mem k rest ≡ true)
    → hash_mem k (if unseen then h ∷ rest else rest) ≡ true
unfolding hash_mem
survey_step true h k have hashes rest e n m ih = ground arith
survey_step false h k have hashes rest e n m ih = elim (Bool-cases (hash_eq k h)) [
  | inl same ↦ let kh = (hash_eq_iff k h).0 same in absurd (cc)
  | inr other ↦ ih (ground arith)
]

-- The loop chooses every hash that no filter has.
survey-chosen :
    (g : ChangeGraph) (have : List Have) (hashes : List ChangeHash) (edges : Edges)
    (chosen : List ChangeHash) (k : ChangeHash)
    → survey g have hashes ≡ ok (edges, chosen)
    → in_no_filter k have ≡ ok true
    → hash_mem k hashes ≡ true
    → hash_mem k chosen ≡ true
unfolding survey
survey-chosen g have [] edges chosen k e n m = absurd (unfold hash_mem in cc)
survey-chosen g have (h ∷ hashes) edges chosen k e n m =
    let (ds, _, e₁) = bind_ok (deps g h) _ (edges, chosen) e in
    let (unseen, e₂, e₃) = bind_ok (in_no_filter h have) _ (edges, chosen) e₁ in
    let (rest, e₄, e₅) = bind_ok (survey g have hashes) _ (edges, chosen) e₃ in
    subst (λ c. hash_mem k c ≡ true) (second _ edges chosen e₅)
      (survey_step unseen h k have hashes (rest.1) e₂ n m
        (survey-chosen g have hashes (rest.0) (rest.1) k e₄ n))

unwrap-some :
    (o : Option (List ChangeHash)) (x y : List ChangeHash) → o ≡ some x → unwrap o ≡ ok y → x ≡ y
unwrap-some none x y e f = absurd (cc)
unwrap-some (some z) x y e f = cc

-- A hash that is needed is sent, whether or not it is also chosen; a chosen one is sent.
sent_all :
    (need hashes to_send : List ChangeHash) (k : ChangeHash)
    → (hash_mem k need ≡ true) ⊎ ((hash_mem k hashes ≡ true) × (hash_mem k to_send ≡ true))
    → (hash_mem k to_send ≡ true → hash_mem k hashes ≡ true)
    → hash_mem k (
        hash_filter (λ h. not (hash_mem h to_send)) need
        ++ hash_filter (λ h. hash_mem h to_send) hashes)
      ≡ true
sent_all need hashes to_send k c i = ground (
  arith,
  hash_mem-append k (hash_filter (λ h. not (hash_mem h to_send)) need)
      (hash_filter (λ h. hash_mem h to_send) hashes),
  hash_mem-filter (λ h. not (hash_mem h to_send)) k need,
  hash_mem-filter (λ h. hash_mem h to_send) k hashes,
)

HasEdge-append :
    (d x : ChangeHash) (es fs : Edges) → HasEdge d x (es ++ fs) → HasEdge d x es ⊎ HasEdge d x fs
HasEdge-append d x [] fs e = inr e
HasEdge-append d x ((y, z) ∷ es) fs (inl e) = inl (inl e)
HasEdge-append d x ((y, z) ∷ es) fs (inr e) = elim (HasEdge-append d x es fs e) [
  | inl f ↦ inl (inr f)
  | inr f ↦ inr f
]

HasEdge-edges_of : (d x h : ChangeHash) (ds : List ChangeHash) → HasEdge d x (edges_of ds h) → x ≡ h
unfolding edges_of
HasEdge-edges_of d x h [] e = absurd e
HasEdge-edges_of d x h (y ∷ ds) (inl (e, f)) = f
HasEdge-edges_of d x h (y ∷ ds) (inr e) = HasEdge-edges_of d x h ds e

-- The edges lead to hashes of the list, and the chosen ones are of it.
record IsInside (hashes : List ChangeHash) (found : Edges × List ChangeHash) : Type 0 where
  pub targets : (d x : ChangeHash) → HasEdge d x (found.0) → hash_mem x hashes ≡ true
  pub chosen : Within (found.1) hashes

inside_chosen :
    (unseen : Bool) (h k : ChangeHash) (hashes found : List ChangeHash)
    → hash_mem k (if unseen then h ∷ found else found) ≡ true
    → (hash_mem k found ≡ true → hash_mem k hashes ≡ true)
    → hash_mem k (h ∷ hashes) ≡ true
unfolding hash_mem
inside_chosen true h k hashes found m i = ground arith
inside_chosen false h k hashes found m i = ground arith

grow-IsInside :
    (ds : List ChangeHash) (h : ChangeHash) (hashes : List ChangeHash) (unseen : Bool)
    (found : Edges × List ChangeHash)
    → IsInside hashes found
    → IsInside (h ∷ hashes) (edges_of ds h ++ found.0, if unseen then h ∷ found.1 else found.1)
unfolding hash_mem
grow-IsInside ds h hashes unseen found i = record {
  targets = λ d x e. elim (HasEdge-append d x (edges_of ds h) (found.0) e) [
    | inl f ↦ let same = HasEdge-edges_of d x h ds f in ground (arith, hash_eq_iff x h, same)
    | inr f ↦ ground (arith, i.targets d x f)
  ];
  chosen = λ k m. inside_chosen unseen h k hashes (found.1) m (i.chosen k);
}

ok_same : {A : Type 0} (a b : A) → ◌≡◌ {A = Result GraphError A} (ok a) (ok b) → a ≡ b
ok_same a b e = cc

survey-IsInside :
    (g : ChangeGraph) (have : List Have) (hashes : List ChangeHash)
    (found : Edges × List ChangeHash)
    → survey g have hashes ≡ ok found
    → IsInside hashes found
unfolding survey
survey-IsInside g have [] found e =
    subst (IsInside []) (ok_same ([], []) found e)
      (record { targets = λ d x e. absurd e; chosen = λ k m. m })
survey-IsInside g have (h ∷ hashes) found e =
    let (ds, _, e₁) = bind_ok (deps g h) _ found e in
    let (unseen, _, e₂) = bind_ok (in_no_filter h have) _ found e₁ in
    let (rest, e₃, e₄) = bind_ok (survey g have hashes) _ found e₂ in
    subst (IsInside (h ∷ hashes)) (ok_same _ found e₄)
      (grow-IsInside ds h hashes unseen rest (survey-IsInside g have hashes rest e₃))

-- Where `get_hashes_to_send` succeeds for a peer that told what it has, it returns every hash that
-- the peer needs, and every hash after the peer's last syncs that none of the peer's filters has.
pub hash_mem-get_hashes_to_send :
    (doc : Document) (first : Have) (more : List Have) (need hashes result : List ChangeHash)
    (k : ChangeHash)
    → get_hashes doc.graph (to_set [] (last_syncs (first ∷ more))) ≡ ok hashes
    → get_hashes_to_send doc (first ∷ more) need ≡ ok result
    → (hash_mem k need ≡ true)
      ⊎ ((hash_mem k hashes ≡ true) × (in_no_filter k (first ∷ more) ≡ ok true))
    → hash_mem k result ≡ true
unfolding get_hashes_to_send
hash_mem-get_hashes_to_send doc first more need hashes result k h e c =
    let (all, f₁, e₁) =
      bind_ok (get_hashes doc.graph (to_set [] (last_syncs (first ∷ more)))) _ result e in
    let same : hashes ≡ all = ok_same hashes all (sym h ∙ f₁) in
    let (found, f₂, e₂) = bind_ok (survey doc.graph (first ∷ more) all) _ result e₁ in
    let (to_send, f₃, e₃) = bind_ok (unwrap (with_dependents (found.0) (found.1))) _ result e₂ in
    let (closure, f₄, is) = with_dependents-IsClosure (found.0) (found.1) in
    let sent = unwrap-some (with_dependents (found.0) (found.1)) closure to_send f₄ f₃ in
    let inside = survey-IsInside doc.graph (first ∷ more) all found f₂ in
    let within = is.least all (λ d x he md. inside.targets d x he) inside.chosen k in
    let choice : (hash_mem k need ≡ true)
        ⊎ ((hash_mem k all ≡ true) × (hash_mem k to_send ≡ true)) =
      elim c [
        | inl needed ↦ inl needed
        | inr (listed, unseen) ↦
            let here = subst (λ l. hash_mem k l ≡ true) same listed in
            inr (
              here,
              subst (λ l. hash_mem k l ≡ true) sent
                  (is.contains k (
                    survey-chosen doc.graph (first ∷ more) all (found.0) (found.1) k f₂ unseen
                      here)),
            )
      ] in
    subst (λ l. hash_mem k l ≡ true) (ok_same _ result e₃)
      (sent_all need all to_send k choice
        (λ m. within (subst (λ l. hash_mem k l ≡ true) (sym sent) m)))
