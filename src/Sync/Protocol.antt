-- ===== src/Sync/Protocol.antt =====
-- sync.rs: the messages that a peer sends and what it does with one that it receives.
pub mod Session
pub mod Shared
pub mod Received
pub mod Failed
use automerge_r.Common.{
  ℕ, zero, suc, ◌+◌, Bool, true, false, not, ◌&&◌, ◌||◌, List, [], ◌∷◌, ◌++◌, Option, none, some,
  if◌then◌else◌, length, ◌==◌, Result, ok, err, ◌>>=◌,
}
use automerge_r.Common.Hash.{ChangeHash, hash_eq, hash_mem, hash_insert, hash_filter}
use automerge_r.Graph.Types.{GraphError, panic, unwrap, has_change}
use automerge_r.Graph.Query.{get_hashes}
use automerge_r.Sync.Capability.{Capability, message_v1, message_v2}
use automerge_r.Sync.ChunkList.{join}
use automerge_r.Sync.Message.{Have, default_have, Message}
use automerge_r.Sync.MessageVersion.{v1}
use automerge_r.Sync.State.{State, supports_v2_messages}
use automerge_r.Sync.MessageBuilder.{new_v1, new_v2, build}
use automerge_r.Sync.Document.{Document, Storage, sort, to_set, get_missing_deps, filter_changes}
use automerge_r.Sync.ToSend.{make_bloom_filter, get_hashes_to_send}

unfoldable pub hashes_eq : List ChangeHash → List ChangeHash → Bool
unfolding hash_eq
hashes_eq [] [] = true
hashes_eq [] (y ∷ ys) = false
hashes_eq (x ∷ xs) [] = false
hashes_eq (x ∷ xs) (y ∷ ys) = hash_eq x y && hashes_eq xs ys

abbrev pub is_empty {ℓ} : {A : Type ℓ} → List A → Bool
is_empty [] = true
is_empty (x ∷ xs) = false

abbrev pub or_empty : Option (List ChangeHash) → List ChangeHash
or_empty none = []
or_empty (some hashes) = hashes

unfoldable pub all_in : List ChangeHash → (ChangeHash → Bool) → Bool
all_in [] p = true
all_in (h ∷ hs) p = p h && all_in hs p

abbrev pub capabilities : Option (List Capability)
capabilities = some (message_v1 ∷ message_v2 ∷ [])

-- The other peer's last sync has a change that the document does not have.
unfoldable pub needs_reset : Document → State → Bool
unfolding all_in has_change
needs_reset doc s = elim s.their_have [
  | none ↦ false
  | some have ↦ elim have [
    | [] ↦ false
    | first ∷ more ↦ not (all_in first.last_sync (has_change doc.graph))
  ]
]

abbrev pub reset_message : List ChangeHash → Message
reset_message our_heads = record {
  heads = our_heads;
  need = [];
  have = default_have ∷ [];
  changes = [];
  supported_capabilities = capabilities;
  version = v1;
}

abbrev pub their_heads_empty : State → Bool
their_heads_empty s = elim s.their_heads [ none ↦ false | some heads ↦ is_empty heads ]

abbrev pub concat : List (List ℕ) → List ℕ
concat [] = []
concat (b ∷ bs) = b ++ concat bs

-- The bytes of the changes as v2 has them or as v1 has them.
abbrev pub with_changes : State → List (List ℕ) → Message
with_changes s changes = if supports_v2_messages s then new_v2 (concat changes) else new_v1 changes

abbrev pub Built : Type 0
Built = Option (Message × List ChangeHash)

-- A message with the whole document.
unfoldable pub whole_document : Storage → Document → Result GraphError Built
whole_document st doc = do
  hashes ← get_hashes doc.graph []
  ok (some (new_v2 (st.save doc), hashes))

-- A message with the changes that were not sent yet; `none` where they are not found.
unfoldable pub unsent_changes :
    Storage → Document → State → List Have → List ChangeHash → Result GraphError Built
unsent_changes st doc s their_have their_need = do
  all_hashes ← get_hashes_to_send doc their_have their_need
  let hashes = hash_filter (λ h. not (hash_mem h s.sent_hashes)) all_hashes
  elim (st.get_changes_by_hashes doc hashes) [
    | none ↦ ok none
    | some changes ↦ ok (some (with_changes s changes, hashes))
  ]

-- `if let (Some(their_have), Some(their_need))`
unfoldable pub build_from :
    Storage
    → Document
    → State
    → Option (List Have)
    → Option (List ChangeHash)
    → Result GraphError Built
build_from st doc s none their_need = ok (some (with_changes s [], []))
build_from st doc s (some their_have) none = ok (some (with_changes s [], []))
build_from st doc s (some their_have) (some their_need) =
    let whole = whole_document st doc in
    let part = unsent_changes st doc s their_have their_need in
    if their_heads_empty s && supports_v2_messages s then whole else part

-- What the message starts from, and the hashes it sends.
unfoldable pub message_builder : Storage → Document → State → Result GraphError Built
message_builder st doc s = build_from st doc s s.their_have s.their_need

abbrev pub heads_equal : State → List ChangeHash → Bool
heads_equal s our_heads = elim s.their_heads [
  | none ↦ false
  | some heads ↦ hashes_eq heads our_heads
]

-- There is nothing to say: the heads were sent, and the other peer has them all or has yet to answer.
unfoldable pub is_quiet : State → List ChangeHash → List ChangeHash → Bool
unfolding hashes_eq
is_quiet s our_heads sent_hashes =
    hashes_eq s.last_sent_heads our_heads
    && s.have_responded
    && (heads_equal s our_heads && is_empty sent_hashes || s.in_flight)

-- The state after a message is sent.
abbrev pub sent : State → List ChangeHash → List ChangeHash → State
sent s our_heads sent_hashes = record s {
  have_responded = true;
  last_sent_heads = our_heads;
  sent_hashes = to_set s.sent_hashes sent_hashes;
  in_flight = true;
}

unfoldable pub our_have : Document → State → List ChangeHash → Result GraphError (List Have)
unfolding all_in hash_mem make_bloom_filter
our_have doc s our_need =
    let filter = make_bloom_filter doc s.shared_heads in
    if all_in our_need (λ h. hash_mem h (or_empty s.their_heads))
    then (filter >>= λ have. ok (have ∷ []))
    else ok []

-- The decision to send what was built.
unfoldable pub send_built :
    Document → State → List Have → List ChangeHash → Built → State × Option Message
unfolding is_quiet
send_built doc s have our_need none = (s, none)
send_built doc s have our_need (some (start, sent_hashes)) =
    if is_quiet s doc.heads sent_hashes then (s, none) else (
      sent s doc.heads sent_hashes,
      some (build start doc.heads have our_need (if s.have_responded then none else capabilities)),
    )

unfoldable pub generate_sync_message :
    Storage → Document → State → Result GraphError (State × Option Message)
generate_sync_message st doc s = do
  let our_need = get_missing_deps doc (or_empty s.their_heads)
  have ← our_have doc s our_need
  if needs_reset doc s
      then ok (s, some (reset_message doc.heads))
      else (message_builder st doc s >>= λ built. ok (send_built doc s have our_need built))

unfoldable pub advance_heads : List ChangeHash → List ChangeHash → List ChangeHash → List ChangeHash
unfolding hash_filter hash_mem to_set sort
advance_heads my_old_heads my_new_heads our_old_shared_heads =
    let new_heads = hash_filter (λ h. not (hash_mem h my_old_heads)) my_new_heads in
    let common_heads = hash_filter (λ h. hash_mem h my_new_heads) our_old_shared_heads in
    sort (to_set [] (new_heads ++ common_heads))

-- The load of the chunks, with the heads that both then share; `false` where it fails.
unfoldable pub load_changes : Storage → Document → State → List (List ℕ) → Document × State × Bool
unfolding advance_heads join
load_changes st doc s [] = (doc, s, true)
load_changes st doc s (chunk ∷ chunks) =
    let (doc', fine) = st.load_incremental doc (join (chunk ∷ chunks)) in
    if fine
    then (doc', record s { shared_heads = advance_heads doc.heads doc'.heads s.shared_heads }, true)
    else (doc', s, false)

-- What the other peer's heads say about the shared ones.
unfoldable pub share_heads : Document → State → List ChangeHash → State
unfolding hash_filter has_change sort to_set
share_heads doc s message_heads =
    let known_heads = hash_filter (has_change doc.graph) message_heads in
    if length known_heads == length message_heads
    then (if is_empty message_heads
        then record s { shared_heads = message_heads; last_sent_heads = []; sent_hashes = [] }
        else record s { shared_heads = message_heads })
    else record s { shared_heads = sort (to_set [] (s.shared_heads ++ known_heads)) }

-- The state with the trimmed set of sent hashes, with what the message tells of the other peer.
unfoldable pub told : List ChangeHash → Document → State → Message → List ChangeHash → State
unfolding share_heads hashes_eq
told before_heads doc s message sent_hashes =
    let trimmed = record s { sent_hashes = sent_hashes } in
    let seen =
      if is_empty message.changes && hashes_eq message.heads before_heads
      then record trimmed { last_sent_heads = message.heads }
      else trimmed in
    record (share_heads doc seen message.heads) {
      their_have = some message.have;
      their_heads = some message.heads;
      their_need = some message.need;
    }

-- The load left the document and the state, and did or did not fail.
unfoldable pub after_load :
    List ChangeHash
    → Document
    → State
    → Bool
    → Message
    → Result GraphError (Document × State × Bool)
unfolding told filter_changes
after_load before_heads doc s false message = ok (doc, s, false)
after_load before_heads doc s true message = do
  sent_hashes ← filter_changes doc message.heads s.sent_hashes
  ok (doc, told before_heads doc s message sent_hashes, true)

abbrev pub learn : State → Option (List Capability) → State
learn s none = s
learn s (some caps) = record s { their_capabilities = some caps }

-- The state as the message arrives.
abbrev pub arrived : State → Message → State
arrived s message = learn (record s { in_flight = false }) message.supported_capabilities

unfoldable pub receive_sync_message_inner :
    Storage → Document → State → Message → Result GraphError (Document × State × Bool)
unfolding load_changes after_load
receive_sync_message_inner st doc s message =
    let (doc', s', fine) = load_changes st doc (arrived s message) message.changes in
    after_load doc.heads doc' s' fine message
