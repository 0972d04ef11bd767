-- ===== src/Sync/Protocol/Shared.antt =====
-- sync.rs: what a message's heads do to the shared heads.
use automerge_r.Common.{
  ◌≡◌, ◌⊎◌, inl, inr, refl, sym, ◌≤◌, Bool, true, false, List, [], ◌∷◌, ◌++◌, if◌then◌else◌, length,
  arith, Bool-cases, ◌==◌,
}
use mathlib.Core.Path.{subst}
use automerge_r.Common.Hash.{
  ChangeHash, hash_eq, hash_eq_iff, hash_mem, hash_filter, hash_mem-filter, hash_mem-append,
}
use automerge_r.Graph.Types.{has_change}
use automerge_r.Sync.State.{State}
use automerge_r.Sync.Document.{Document, sort, to_set}
use automerge_r.Sync.Document.Sets.{hash_mem-sort, hash_mem-to_set}
use automerge_r.Sync.Protocol.{is_empty, share_heads}

length-hash_filter_le :
    (p : ChangeHash → Bool) (hs : List ChangeHash) → length (hash_filter p hs) ≤ length hs
unfolding hash_filter
length-hash_filter_le p [] = omega arith
length-hash_filter_le p (h ∷ hs) = ground (arith, length-hash_filter_le p hs)

-- A filter that drops nothing was passed by all.
hash_filter_all :
    (p : ChangeHash → Bool) (hs : List ChangeHash) (k : ChangeHash)
    → length (hash_filter p hs) ≡ length hs
    → hash_mem k hs ≡ true
    → p k ≡ true
unfolding hash_filter hash_mem
hash_filter_all p [] k e m = ground arith
hash_filter_all p (h ∷ hs) k e m = elim (Bool-cases (p h)) [
  | inl yes' ↦ elim (Bool-cases (hash_eq k h)) [
    | inl same ↦ subst (λ x. p x ≡ true) (sym ((hash_eq_iff k h).0 same)) yes'
    | inr other ↦ hash_filter_all p hs k (ground arith) (ground arith)
  ]
  | inr no' ↦ absurd (ground (arith, length-hash_filter_le p hs))
]

abbrev pub IsShared : Document → List ChangeHash → List ChangeHash → ChangeHash → Type 0
IsShared doc shared heads k =
    (hash_mem k shared ≡ true) ⊎ ((hash_mem k heads ≡ true) × (has_change doc.graph k ≡ true))

-- What holds of both states holds of the chosen one.
pub either :
    (P : State → Type 0) (b : Bool) (s₁ s₂ : State) → P s₁ → P s₂ → P (if b then s₁ else s₂)
either P true s₁ s₂ h k = h
either P false s₁ s₂ h k = k

chosen_heads :
    (b c : Bool) (s₁ s₂ s₃ : State) (heads : List ChangeHash)
    → s₁.shared_heads ≡ heads
    → s₂.shared_heads ≡ heads
    → (if b then (if c then s₁ else s₂) else s₃).shared_heads
      ≡ (if b then heads else s₃.shared_heads)
chosen_heads true c s₁ s₂ s₃ heads e f = either (λ s. s.shared_heads ≡ heads) c s₁ s₂ e f
chosen_heads false c s₁ s₂ s₃ heads e f = refl

shared_heads_of :
    (doc : Document) (s : State) (heads : List ChangeHash)
    → (share_heads doc s heads).shared_heads ≡ (
        if length (hash_filter (has_change doc.graph) heads) == length heads
        then heads
        else sort (to_set [] (s.shared_heads ++ hash_filter (has_change doc.graph) heads)))
unfolding share_heads
shared_heads_of doc s heads =
    let known = hash_filter (has_change doc.graph) heads in
    chosen_heads (length known == length heads) (is_empty heads)
      (record s { shared_heads = heads; last_sent_heads = []; sent_hashes = [] })
      (record s { shared_heads = heads })
      (record s { shared_heads = sort (to_set [] (s.shared_heads ++ known)) }) heads refl refl

pub share_heads-kept :
    (doc : Document) (s : State) (heads : List ChangeHash)
    → ((share_heads doc s heads).in_flight ≡ s.in_flight)
      × ((share_heads doc s heads).have_responded ≡ s.have_responded)
unfolding share_heads
share_heads-kept doc s heads =
    let known = hash_filter (has_change doc.graph) heads in
    let all = record s { shared_heads = heads } in
    let lost = record all { last_sent_heads = []; sent_hashes = [] } in
    let Kept = λ (x : State). (x.in_flight ≡ s.in_flight) × (x.have_responded ≡ s.have_responded) in
    either Kept (length known == length heads) (if is_empty heads then lost else all)
      (record s { shared_heads = sort (to_set [] (s.shared_heads ++ known)) })
      (either Kept (is_empty heads) lost all (refl, refl) (refl, refl)) (refl, refl)

share_choice :
    (doc : Document) (s : State) (heads : List ChangeHash) (k : ChangeHash) (b : Bool)
    → (length (hash_filter (has_change doc.graph) heads) == length heads) ≡ b
    → hash_mem k (
        if b
        then heads
        else sort (to_set [] (s.shared_heads ++ hash_filter (has_change doc.graph) heads)))
      ≡ true
    → IsShared doc s.shared_heads heads k
unfolding hash_mem
share_choice doc s heads k true e m =
    inr (m, hash_filter_all (has_change doc.graph) heads k (ground arith) m)
share_choice doc s heads k false e m =
    let known = hash_filter (has_change doc.graph) heads in
    ground (
      arith,
      m,
      hash_mem-sort k (to_set [] (s.shared_heads ++ known)),
      hash_mem-to_set k [] (s.shared_heads ++ known),
      hash_mem-append k s.shared_heads known,
      hash_mem-filter (has_change doc.graph) k heads,
    )

-- A new shared head was a shared head or is a head of the message that the document has.
pub share_heads-IsShared :
    (doc : Document) (s : State) (heads : List ChangeHash) (k : ChangeHash)
    → hash_mem k (share_heads doc s heads).shared_heads ≡ true
    → IsShared doc s.shared_heads heads k
share_heads-IsShared doc s heads k m =
    share_choice doc s heads k _ refl
      (subst (λ hs. hash_mem k hs ≡ true) (shared_heads_of doc s heads) m)
