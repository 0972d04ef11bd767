-- ===== src/Sync/Protocol/Received.antt =====
-- sync.rs: the state after a message is received.
use automerge_r.Common.{
  ℕ, ◌≡◌, ◌⊎◌, inl, inr, refl, ◌∙◌, Bool, true, false, not, ◌&&◌, ◌||◌, List, [], ◌∷◌, ◌++◌, Option,
  none, some, if◌then◌else◌, Result, ok, err, ◌>>=◌, arith,
}
use mathlib.Core.Path.{subst}
use automerge_r.Common.Hash.{ChangeHash, hash_mem, hash_filter, hash_mem-filter, hash_mem-append}
use automerge_r.Graph.Types.{GraphError}
use automerge_r.Sync.Message.{Message}
use automerge_r.Sync.State.{State}
use automerge_r.Sync.Document.{Document, Storage, to_set, filter_changes}
use automerge_r.Sync.Document.Sets.{hash_mem-sort, hash_mem-to_set}
use automerge_r.Sync.Capability.{Capability}
use automerge_r.Sync.ChunkList.{join}
use automerge_r.Sync.Protocol.{
  is_empty, hashes_eq, advance_heads, load_changes, after_load, told, learn, arrived,
  receive_sync_message_inner,
}
use automerge_r.Sync.Protocol.Shared.{either, share_heads-kept, IsShared, share_heads-IsShared}

-- The heads that both peers share after a load are those of the document's new heads that it did
-- not have before or that were shared before.
pub hash_mem-advance_heads :
    (old new shared : List ChangeHash) (k : ChangeHash)
    → hash_mem k (advance_heads old new shared)
      ≡ (hash_mem k new && (not (hash_mem k old) || hash_mem k shared))
unfolding advance_heads hash_mem
hash_mem-advance_heads old new shared k =
    let fresh = hash_filter (λ h. not (hash_mem h old)) new in
    let common = hash_filter (λ h. hash_mem h new) shared in
    hash_mem-sort k (to_set [] (fresh ++ common))
    ∙ hash_mem-to_set k [] (fresh ++ common)
    ∙ ground (
      arith,
      hash_mem-append k fresh common,
      hash_mem-filter (λ h. not (hash_mem h old)) k new,
      hash_mem-filter (λ h. hash_mem h new) k shared,
    )

-- What a message leaves: the answer is due, the other peer's side is the message's, and every shared
-- head is one from before, a head of the document or a head of the message that the document has.
pub record IsReceived (doc doc' : Document) (s s' : State) (m : Message) : Type 0 where
  pub due : s'.in_flight ≡ false
  pub their_heads : s'.their_heads ≡ some m.heads
  pub their_need : s'.their_need ≡ some m.need
  pub their_have : s'.their_have ≡ some m.have
  pub responded : s'.have_responded ≡ s.have_responded
  pub shared :
      (k : ChangeHash)
      → hash_mem k s'.shared_heads ≡ true
      → IsShared doc' s.shared_heads m.heads k ⊎ (hash_mem k doc'.heads ≡ true)

-- What `load_changes` does to the state.
record IsLoaded (s : State) (loaded : Document × State × Bool) : Type 0 where
  pub in_flight : (loaded.1).in_flight ≡ s.in_flight
  pub responded : (loaded.1).have_responded ≡ s.have_responded
  pub shared :
      (k : ChangeHash)
      → hash_mem k (loaded.1).shared_heads ≡ true
      → (hash_mem k s.shared_heads ≡ true) ⊎ (hash_mem k (loaded.0).heads ≡ true)

either-IsLoaded :
    (s : State) (b : Bool) (x y : Document × State × Bool)
    → IsLoaded s x
    → IsLoaded s y
    → IsLoaded s (if b then x else y)
either-IsLoaded s true x y h k = h
either-IsLoaded s false x y h k = k

load_changes-IsLoaded :
    (st : Storage) (doc : Document) (s : State) (chunks : List (List ℕ))
    → IsLoaded s (load_changes st doc s chunks)
unfolding load_changes
load_changes-IsLoaded st doc s [] = record {
  in_flight = refl;
  responded = refl;
  shared = λ k m. inl m;
}
load_changes-IsLoaded st doc s (chunk ∷ chunks) =
    let (doc', fine) = st.load_incremental doc (join (chunk ∷ chunks)) in
    either-IsLoaded s fine
      (doc', record s { shared_heads = advance_heads doc.heads doc'.heads s.shared_heads }, true)
      (doc', s, false)
      (record {
        in_flight = refl;
        responded = refl;
        shared = λ k m.
            inr (ground (arith, m, hash_mem-advance_heads doc.heads doc'.heads s.shared_heads k));
      })
      (record { in_flight = refl; responded = refl; shared = λ k m. inl m })

learn-kept :
    (s : State) (caps : Option (List Capability))
    → ((learn s caps).in_flight ≡ s.in_flight)
      × ((learn s caps).have_responded ≡ s.have_responded)
      × ((learn s caps).shared_heads ≡ s.shared_heads)
learn-kept s none = (refl, refl, refl)
learn-kept s (some caps) = (refl, refl, refl)

told-kept :
    (before : List ChangeHash) (doc : Document) (s : State) (m : Message) (hs : List ChangeHash)
    → ((told before doc s m hs).in_flight ≡ s.in_flight)
      × ((told before doc s m hs).have_responded ≡ s.have_responded)
      × ((k : ChangeHash)
          → hash_mem k (told before doc s m hs).shared_heads ≡ true
          → IsShared doc s.shared_heads m.heads k)
unfolding told
told-kept before doc s m hs =
    let trimmed = record s { sent_hashes = hs } in
    let agreed = record trimmed { last_sent_heads = m.heads } in
    let same = is_empty m.changes && hashes_eq m.heads before in
    let seen = if same then agreed else trimmed in
    let kept = share_heads-kept doc seen m.heads in
    (
      kept.0 ∙ either (λ x. x.in_flight ≡ s.in_flight) same agreed trimmed refl refl,
      kept.1 ∙ either (λ x. x.have_responded ≡ s.have_responded) same agreed trimmed refl refl,
      λ k e.
          subst (λ h. IsShared doc h m.heads k)
            (either (λ x. x.shared_heads ≡ s.shared_heads) same agreed trimmed refl refl)
            (share_heads-IsShared doc seen m.heads k e),
    )

told_result :
    (r : Result GraphError (List ChangeHash)) (doc doc' : Document) (s' : State)
    (F : List ChangeHash → State)
    → ◌>>=◌ {B = Document × State × Bool} r (λ hs. ok (doc, F hs, true)) ≡ ok (doc', s', true)
    → (hs : List ChangeHash) × (doc ≡ doc') × (F hs ≡ s')
told_result (err x) doc doc' s' F e = absurd (cc)
told_result (ok hs) doc doc' s' F e = (hs, cc, cc)

after_load-told :
    (before : List ChangeHash) (doc doc' : Document) (s s' : State) (fine : Bool) (m : Message)
    → after_load before doc s fine m ≡ ok (doc', s', true)
    → (hs : List ChangeHash) × (doc ≡ doc') × (told before doc s m hs ≡ s')
unfolding after_load
after_load-told before doc doc' s s' false m e = absurd (cc)
after_load-told before doc doc' s s' true m e =
    told_result (filter_changes doc m.heads s.sent_hashes) doc doc' s' (told before doc s m) e

from_before :
    (doc : Document) (s₁ s₂ s₃ heads : List ChangeHash) (k : ChangeHash)
    → IsShared doc s₁ heads k
    → (hash_mem k s₁ ≡ true → (hash_mem k s₂ ≡ true) ⊎ (hash_mem k doc.heads ≡ true))
    → s₂ ≡ s₃
    → IsShared doc s₃ heads k ⊎ (hash_mem k doc.heads ≡ true)
from_before doc s₁ s₂ s₃ heads k (inr i) h e = inl (inr i)
from_before doc s₁ s₂ s₃ heads k (inl i) h e = elim (h i) [
  | inl j ↦ inl (inl (subst (λ hs. hash_mem k hs ≡ true) e j))
  | inr j ↦ inr j
]

-- Every message that `receive_sync_message_inner` accepts leaves a state in which no message is in
-- flight, the other peer's heads, need and have are the message's, and whether this peer responded
-- is as before. Every shared head was shared before, is a head of the document, or is a head of the
-- message that the document has.
pub receive_sync_message_inner-IsReceived :
    (st : Storage) (doc doc' : Document) (s s' : State) (m : Message)
    → receive_sync_message_inner st doc s m ≡ ok (doc', s', true)
    → IsReceived doc doc' s s' m
unfolding receive_sync_message_inner
receive_sync_message_inner-IsReceived st doc doc' s s' m e =
    let loaded = load_changes st doc (arrived s m) m.changes in
    let l = load_changes-IsLoaded st doc (arrived s m) m.changes in
    let here = learn-kept (record s { in_flight = false }) m.supported_capabilities in
    let (hs, same, state) =
      after_load-told doc.heads (loaded.0) doc' (loaded.1) s' (loaded.2) m e in
    let kept = told-kept doc.heads (loaded.0) (loaded.1) m hs in
    subst (λ d. IsReceived doc d s s' m) same
      (subst (λ x. IsReceived doc (loaded.0) s x m) state
        (record {
          due = kept.0 ∙ l.in_flight ∙ here.0;
          their_heads = refl;
          their_need = refl;
          their_have = refl;
          responded = kept.1 ∙ l.responded ∙ here.1;
          shared = λ k i.
              from_before (loaded.0) (loaded.1).shared_heads (arrived s m).shared_heads
                s.shared_heads m.heads k (kept.2 k i) (l.shared k) here.2;
        }))
