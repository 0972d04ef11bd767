-- ===== src/Sync/Protocol/Failed.antt =====
-- sync.rs: a message whose changes cannot be loaded.
use automerge_r.Common.{
  ◌<◌, ◌↔◌, ◌≡◌, refl, sym, ap, Option, none, some, length, arith, ◌∙◌, Bool, true, false, List, [],
  ◌∷◌, ℕ, Result, ok, err, ◌>>=◌, if◌then◌else◌,
}
use automerge_r.Common.Hash.{ChangeHash}
use automerge_r.Graph.Types.{GraphError}
use automerge_r.Sync.Capability.{Capability}
use automerge_r.Sync.ChunkList.{join}
use automerge_r.Sync.Message.{Message}
use automerge_r.Sync.State.{State}
use automerge_r.Sync.Document.{Document, Storage, filter_changes}
use automerge_r.Sync.Protocol.{
  advance_heads, load_changes, after_load, told, learn, arrived, receive_sync_message_inner,
}

abbrev Loaded : Type 0
Loaded = Document × State × Bool

never_failed :
    (r : Result GraphError (List ChangeHash)) (doc doc' : Document) (s' : State)
    (F : List ChangeHash → State)
    → ◌>>=◌ {B = Loaded} r (λ hs. ok (doc, F hs, true)) ≡ ok (doc', s', false)
    → ⊥
never_failed (err x) doc doc' s' F e = cc
never_failed (ok hs) doc doc' s' F e = cc

after_load_failed :
    (before : List ChangeHash) (doc doc' : Document) (s s' : State) (fine : Bool) (m : Message)
    → after_load before doc s fine m ≡ ok (doc', s', false)
    → (fine ≡ false) × (doc' ≡ doc) × (s' ≡ s)
unfolding after_load
after_load_failed before doc doc' s s' false m e = (refl, cc, cc)
after_load_failed before doc doc' s s' true m e =
    absurd
      (never_failed (filter_changes doc m.heads s.sent_hashes) doc doc' s' (told before doc s m) e)

abbrev chosen_load : Bool → Document → State → State → Loaded
chosen_load b doc s₁ s = if b then (doc, s₁, true) else (doc, s, false)

choice_failed :
    (b : Bool) (doc : Document) (s₁ s : State)
    → (chosen_load b doc s₁ s).2 ≡ false
    → (b ≡ false) × ((chosen_load b doc s₁ s).1 ≡ s) × ((chosen_load b doc s₁ s).0 ≡ doc)
choice_failed true doc s₁ s e = absurd (cc)
choice_failed false doc s₁ s e = (refl, refl, refl)

-- The load of a document's storage failed and left the document `doc'`.
record HasFailed (st : Storage) (doc : Document) (chunks : List (List ℕ)) (doc' : Document)
    : Type 0 where
  nonempty : 0 < length chunks
  failed : (st.load_incremental doc (join chunks)).1 ≡ false
  left : doc' ≡ (st.load_incremental doc (join chunks)).0

load_changes_failed :
    (st : Storage) (doc : Document) (s : State) (chunks : List (List ℕ))
    → (load_changes st doc s chunks).2 ≡ false
    → ((load_changes st doc s chunks).1 ≡ s)
      × HasFailed st doc chunks (load_changes st doc s chunks).0
unfolding load_changes
load_changes_failed st doc s [] e = absurd (cc)
load_changes_failed st doc s (chunk ∷ chunks) e =
    let (doc', fine) = st.load_incremental doc (join (chunk ∷ chunks)) in
    let (failed, same, left) =
      choice_failed fine doc'
        (record s { shared_heads = advance_heads doc.heads doc'.heads s.shared_heads }) s e in
    (same, record { nonempty = omega arith; failed = failed; left = left })

failed_load_changes :
    (st : Storage) (doc doc' : Document) (s : State) (chunks : List (List ℕ))
    → 0 < length chunks
    → st.load_incremental doc (join chunks) ≡ (doc', false)
    → load_changes st doc s chunks ≡ (doc', s, false)
unfolding load_changes
failed_load_changes st doc doc' s [] nz e = absurd (omega arith)
failed_load_changes st doc doc' s (chunk ∷ chunks) nz e = rw e refl

pair_of : (r : Document × Bool) (doc : Document) → doc ≡ r.0 → r.1 ≡ false → r ≡ (doc, false)
pair_of (doc', fine) doc e f = cc

abbrev pub or_before :
    Option (List Capability) → Option (List Capability) → Option (List Capability)
or_before none before = before
or_before (some caps) before = some caps

learn_before :
    (s : State) (caps : Option (List Capability))
    → learn (record s { in_flight = false }) caps
      ≡ record s { in_flight = false; their_capabilities = or_before caps s.their_capabilities }
learn_before s none = refl
learn_before s (some caps) = refl

-- `receive_sync_message_inner` fails exactly where the message has changes and their load fails. The
-- document is then what the load left, and of the message the state has taken only that nothing is
-- in flight and the capabilities, if it has any: shared, sent and the peer's heads, need, have and
-- sent hashes are as before.
pub receive_sync_message_inner_failed :
    (st : Storage) (doc doc' : Document) (s s' : State) (m : Message)
    → (receive_sync_message_inner st doc s m ≡ ok (doc', s', false)) ↔ (
        (0 < length m.changes)
        × (st.load_incremental doc (join m.changes) ≡ (doc', false))
        × (s' ≡ record s {
          in_flight = false;
          their_capabilities = or_before m.supported_capabilities s.their_capabilities;
        }))
unfolding receive_sync_message_inner after_load
receive_sync_message_inner_failed st doc doc' s s' m =
    let loaded = load_changes st doc (arrived s m) m.changes in
    let taken = learn_before s m.supported_capabilities in
    (
      λ e.
          let (failed, same_doc, same) =
            after_load_failed doc.heads (loaded.0) doc' (loaded.1) s' (loaded.2) m e in
          let (kept, why) = load_changes_failed st doc (arrived s m) m.changes failed in
          (why.nonempty, pair_of _ doc' (same_doc ∙ why.left) why.failed, same ∙ kept ∙ taken),
      λ (nz, e, same).
          ap (λ (l : Loaded). after_load doc.heads (l.0) (l.1) (l.2) m)
            (failed_load_changes st doc doc' (arrived s m) m.changes nz e)
          ∙ ap (λ (t : State). ok (doc', t, false)) (taken ∙ sym same),
    )
