-- ===== src/Sync/Protocol/Session.antt =====
-- sync.rs: what a session keeps from one message to the next.
use automerge_r.Common.{
  ◌≡◌, inl, inr, refl, sym, Bool, true, false, not, ◌&&◌, ◌||◌, List, [], ◌∷◌, Option, none, some,
  if◌then◌else◌, Result, ok, err, ◌>>=◌, arith, Option-cases,
}
use mathlib.Core.Path.{subst}
use automerge_r.Common.Hash.{ChangeHash, hash_eq_iff, hash_mem, hash_filter}
use automerge_r.Graph.Types.{GraphError}
use automerge_r.Sync.Message.{Have, Message}
use automerge_r.Sync.State.{State, supports_v2_messages}
use automerge_r.Sync.Document.{Document, Storage, get_missing_deps}
use automerge_r.Sync.ToSend.{get_hashes_to_send}
use automerge_r.Sync.Protocol.{
  hashes_eq, is_empty, or_empty, needs_reset, reset_message, with_changes, Built, whole_document,
  unsent_changes, build_from, message_builder, heads_equal, is_quiet, sent, our_have, send_built,
  generate_sync_message,
}

hashes_eq_refl : (hs : List ChangeHash) → hashes_eq hs hs ≡ true
unfolding hashes_eq
hashes_eq_refl [] = refl
hashes_eq_refl (h ∷ hs) = ground (arith, hashes_eq_refl hs, hash_eq_iff h h)

or_true : (b : Bool) → (b || true) ≡ true
or_true b = ground arith

Succeeds : {A : Type 0} → Result GraphError A → Type 0
Succeeds {A} r = (a : A) × (r ≡ ok a)

-- Where a first computation succeeds, what only goes on from it differently succeeds too.
bind-Succeeds :
    {A B C : Type 0} (r : Result GraphError A) (f : A → Result GraphError B)
    (g : A → Result GraphError C) (b : B)
    → (r >>= f) ≡ ok b
    → ((a : A) → Succeeds (g a))
    → Succeeds (r >>= g)
unfolding Succeeds
bind-Succeeds (ok a) f g b e h = h a
bind-Succeeds (err x) f g b e h = absurd (cc)

-- Whatever is built right after a message is sent, it is not sent.
send_built-sent :
    (doc : Document) (s : State) (have : List Have) (need sent_hashes : List ChangeHash)
    (built : Built)
    → send_built doc (sent s doc.heads sent_hashes) have need built
      ≡ (sent s doc.heads sent_hashes, none)
unfolding send_built is_quiet
send_built-sent doc s have need hs none = refl
send_built-sent doc s have need hs (some (start, more)) = rw (
  hashes_eq_refl doc.heads,
  or_true (heads_equal (sent s doc.heads hs) doc.heads && is_empty more),
)

unsent_changes-sent :
    (st : Storage) (doc : Document) (s : State) (have : List Have) (need hs : List ChangeHash)
    (built : Built)
    → unsent_changes st doc s have need ≡ ok built
    → Succeeds (unsent_changes st doc (sent s doc.heads hs) have need)
unfolding unsent_changes Succeeds supports_v2_messages hash_filter
unsent_changes-sent st doc s have need hs built e =
    bind-Succeeds (get_hashes_to_send doc have need) _ _ built e (λ all.
      let hashes = hash_filter (λ h. not (hash_mem h ((sent s doc.heads hs).sent_hashes))) all in
      elim (Option-cases (st.get_changes_by_hashes doc hashes)) [
        | inl e' ↦ (none, rw e')
        | inr (changes, e') ↦ (some (with_changes s changes, hashes), rw e')
      ])

whole_or_part :
    (b : Bool) (whole part part' : Result GraphError Built) (built : Built)
    → (if b then whole else part) ≡ ok built
    → (part ≡ ok built → Succeeds part')
    → Succeeds (if b then whole else part')
unfolding Succeeds
whole_or_part true whole part part' built e h = (built, e)
whole_or_part false whole part part' built e h = h e

build_from-sent :
    (st : Storage) (doc : Document) (s : State) (have : Option (List Have))
    (need : Option (List ChangeHash)) (hs : List ChangeHash) (built : Built)
    → build_from st doc s have need ≡ ok built
    → Succeeds (build_from st doc (sent s doc.heads hs) have need)
unfolding build_from Succeeds supports_v2_messages
build_from-sent st doc s none need hs built e = (built, e)
build_from-sent st doc s (some have) none hs built e = (built, e)
build_from-sent st doc s (some have) (some need) hs built e =
    whole_or_part _ (whole_document st doc) (unsent_changes st doc s have need) _ built e
      (unsent_changes-sent st doc s have need hs built)

if_some :
    (b : Bool) (s t s' : State) (x m : Message)
    → ◌≡◌ {A = State × Option Message} (if b then (s, none) else (t, some x)) (s', some m)
    → s' ≡ t
if_some true s t s' x m e = absurd (cc)
if_some false s t s' x m e = cc

send_built-some :
    (doc : Document) (s s' : State) (have : List Have) (need : List ChangeHash) (built : Built)
    (m : Message)
    → send_built doc s have need built ≡ (s', some m)
    → (hs : List ChangeHash) × (s' ≡ sent s doc.heads hs)
unfolding send_built
send_built-some doc s s' have need none m e = absurd (cc)
send_built-some doc s s' have need (some (start, hs)) m e =
    (hs, if_some (is_quiet s doc.heads hs) s (sent s doc.heads hs) s' _ m e)

-- A message that was no reset leaves a state that has sent, and what went before it succeeded.
record IsSent (st : Storage) (doc : Document) (s s' : State) : Type 0 where
  pub have : List Have
  pub built : Built
  pub hashes : List ChangeHash
  pub had : our_have doc s (get_missing_deps doc (or_empty s.their_heads)) ≡ ok have
  pub was_built : message_builder st doc s ≡ ok built
  pub state : s' ≡ sent s doc.heads hashes

both_sent :
    (st : Storage) (doc : Document) (s s' : State) (m : Message) (need : List ChangeHash)
    (r : Result GraphError (List Have)) (b : Result GraphError Built)
    → (r >>= λ have. b >>= λ built. ok (send_built doc s have need built)) ≡ ok (s', some m)
    → (have : List Have) × (built : Built) × (r ≡ ok have)
      × (b ≡ ok built)
      × (send_built doc s have need built ≡ (s', some m))
both_sent st doc s s' m need (err x) b e = absurd (cc)
both_sent st doc s s' m need (ok have) (err x) e = absurd (cc)
both_sent st doc s s' m need (ok have) (ok built) e = (have, built, refl, refl, cc)

generate_sync_message-IsSent :
    (st : Storage) (doc : Document) (s s' : State) (m : Message)
    → generate_sync_message st doc s ≡ ok (s', some m)
    → needs_reset doc s ≡ false
    → IsSent st doc s s'
unfolding generate_sync_message
generate_sync_message-IsSent st doc s s' m e n =
    let need = get_missing_deps doc (or_empty s.their_heads) in
    let (have, built, had, was, done) =
      both_sent st doc s s' m need (our_have doc s need) (message_builder st doc s) (
        subst
          (λ b.
            (our_have doc s need >>= λ have.
            if b
            then ok (s, some (reset_message doc.heads))
            else (message_builder st doc s >>= λ built. ok (send_built doc s have need built)))
            ≡ ok (s', some m))
          n e) in
    let (hashes, state) = send_built-some doc s s' have need built m done in
    record {
      have = have;
      built = built;
      hashes = hashes;
      had = had;
      was_built = was;
      state = state;
    }

our_have-sent :
    (doc : Document) (s : State) (need hs : List ChangeHash)
    → our_have doc (sent s doc.heads hs) need ≡ our_have doc s need
unfolding our_have
our_have-sent doc s need hs = refl

needs_reset-sent :
    (doc : Document) (s : State) (hs : List ChangeHash)
    → needs_reset doc (sent s doc.heads hs) ≡ needs_reset doc s
unfolding needs_reset
needs_reset-sent doc s hs = refl

generate_sync_message-sent :
    (st : Storage) (doc : Document) (s : State) (hs : List ChangeHash) (have : List Have)
    (built : Built)
    → needs_reset doc s ≡ false
    → our_have doc s (get_missing_deps doc (or_empty s.their_heads)) ≡ ok have
    → message_builder st doc (sent s doc.heads hs) ≡ ok built
    → generate_sync_message st doc (sent s doc.heads hs) ≡ ok (sent s doc.heads hs, none)
unfolding generate_sync_message
generate_sync_message-sent st doc s hs have built n had was =
    let need = get_missing_deps doc (or_empty s.their_heads) in
    rw (
      our_have-sent doc s need hs,
      had,
      needs_reset-sent doc s hs,
      n,
      was,
      send_built-sent doc s have need hs built,
    )

-- A session sends one message at a time: after `generate_sync_message` made a message that was no
-- reset, a second call on the same document makes none and leaves the state as it is, whatever the
-- document's changes, the other peer's last message and the storage are.
pub generate_sync_message-again :
    (st : Storage) (doc : Document) (s s' : State) (m : Message)
    → generate_sync_message st doc s ≡ ok (s', some m)
    → needs_reset doc s ≡ false
    → generate_sync_message st doc s' ≡ ok (s', none)
unfolding Succeeds build_from message_builder
generate_sync_message-again st doc s s' m e n =
    let it = generate_sync_message-IsSent st doc s s' m e n in
    let (built, was) =
      build_from-sent st doc s s.their_have s.their_need it.hashes it.built it.was_built in
    subst (λ x. generate_sync_message st doc x ≡ ok (x, none)) (sym it.state)
      (generate_sync_message-sent st doc s it.hashes it.have built n it.had was)
