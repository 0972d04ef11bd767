-- ===== src/Tests/Session.antt =====
-- Runs of the sync protocol.
use automerge_r.Common.{
  ◌<◌, ◌↔◌, length, ℕ, ◌≡◌, inr, ◌&&◌, ◌||◌, not, refl, true, false, List, [], ◌∷◌, none, some,
  replicate, ok,
}
use automerge_r.Common.Int.{pos}
use automerge_r.Common.Hash.{ChangeHash, hash_mem}
use automerge_r.Clock
use automerge_r.Graph.Types
use automerge_r.Graph.Edges.{parents_of}
use automerge_r.Graph.ClockOf.{inner_loop}
use automerge_r.Graph.Types.{ChangeGraph, Change, has_change}
use automerge_r.Sync.Bloom.{default_filter}
use automerge_r.Sync.Message.{Have, Message, default_have}
use automerge_r.Sync.MessageVersion.{v1}
use automerge_r.Sync.State.{State, new_state, supports_v2_messages}
use automerge_r.Sync.Document.{
  Document, Storage, to_set, get_missing_deps, queue_deps, queue_hashes,
}
use automerge_r.Sync.MessageBuilder.{new_v1, build}
use automerge_r.Graph.Query.{get_hashes}
use automerge_r.Sync.ToSend.{last_syncs, in_no_filter, with_dependents, get_hashes_to_send}
use automerge_r.Sync.ToSend.Sent.{hash_mem-get_hashes_to_send}
use automerge_r.Sync.ToSend.Closure.{IsClosure, with_dependents-IsClosure}
use automerge_r.Sync.Protocol.{
  sent, capabilities, needs_reset, our_have, message_builder, build_from, send_built,
  generate_sync_message, receive_sync_message_inner, advance_heads,
}
use automerge_r.Sync.ChunkList.{join}
use automerge_r.Sync.Protocol.Failed.{or_before, receive_sync_message_inner_failed}
use automerge_r.Sync.Protocol.Session.{generate_sync_message-again}
use automerge_r.Sync.Protocol.Received.{
  IsReceived, receive_sync_message_inner-IsReceived, hash_mem-advance_heads,
}
use automerge_r.Sync.Document.Sets.{hash_mem-get_missing_deps}

abbrev hash_of : ℕ → ChangeHash
hash_of tag = replicate 32 tag

-- A document with one change, and a queued change whose dependency is missing.
abbrev doc : Document
doc = record {
  graph = record (Types.new 1) {
    hashes = hash_of 1 ∷ [];
    actors = 0 ∷ [];
    parents = none ∷ [];
    seq = 1 ∷ [];
    max_ops = 1 ∷ [];
    heads = hash_of 1 ∷ [];
    nodes_by_hash = (hash_of 1, 0) ∷ [];
    seq_index = (0 ∷ []) ∷ [];
  };
  heads = hash_of 1 ∷ [];
  queue =
      record {
        hash = hash_of 3;
        seq = 2;
        max_op = 3;
        len = 1;
        timestamp = pos 0;
        message = none;
        extra_bytes = [];
        deps = hash_of 2 ∷ [];
      }
      ∷ [];
}

abbrev storage : Storage
storage = record {
  save = λ d. 1 ∷ 2 ∷ [];
  get_changes_by_hashes = λ d hashes. some [];
  load_incremental = λ d bytes. (d, true);
}

hash_mem-get_missing_deps_example : hash_mem (hash_of 2) (get_missing_deps doc (hash_of 1 ∷ [])) ≡ (
    not (has_change doc.graph (hash_of 2))
    && not (hash_mem (hash_of 2) (queue_hashes doc.queue))
    && (hash_mem (hash_of 2) (queue_deps doc.queue) || hash_mem (hash_of 2) (hash_of 1 ∷ [])))
hash_mem-get_missing_deps_example = hash_mem-get_missing_deps doc (hash_of 1 ∷ []) (hash_of 2)

hash_mem-advance_heads_example :
    hash_mem (hash_of 2) (advance_heads (hash_of 1 ∷ []) (hash_of 2 ∷ []) (hash_of 1 ∷ [])) ≡ (
      hash_mem (hash_of 2) (hash_of 2 ∷ [])
      && (not (hash_mem (hash_of 2) (hash_of 1 ∷ [])) || hash_mem (hash_of 2) (hash_of 1 ∷ [])))
hash_mem-advance_heads_example =
    hash_mem-advance_heads (hash_of 1 ∷ []) (hash_of 2 ∷ []) (hash_of 1 ∷ []) (hash_of 2)

with_dependents-IsClosure_example :
    (result : List ChangeHash) × (with_dependents
        ((hash_of 1, hash_of 2) ∷ (hash_of 2, hash_of 3) ∷ [])
        (hash_of 1 ∷ [])
      ≡ some result)
    × IsClosure ((hash_of 1, hash_of 2) ∷ (hash_of 2, hash_of 3) ∷ []) (hash_of 1 ∷ []) result
with_dependents-IsClosure_example =
    with_dependents-IsClosure ((hash_of 1, hash_of 2) ∷ (hash_of 2, hash_of 3) ∷ [])
      (hash_of 1 ∷ [])

abbrev after_sending : State
after_sending = sent new_state (hash_of 1 ∷ []) []

abbrev first_message : Message
first_message = build (new_v1 []) (hash_of 1 ∷ []) [] (hash_of 2 ∷ []) capabilities

first_sent : generate_sync_message storage doc new_state ≡ ok (after_sending, some first_message)
unfolding generate_sync_message needs_reset Types.lookup_hash Types.new our_have get_missing_deps
    message_builder build_from send_built supports_v2_messages
first_sent = refl

generate_sync_message-again_example :
    generate_sync_message storage doc after_sending ≡ ok (after_sending, none)
unfolding needs_reset
generate_sync_message-again_example =
    generate_sync_message-again storage doc new_state after_sending first_message first_sent refl

abbrev reply : Message
reply = record {
  heads = hash_of 1 ∷ [];
  need = [];
  have = default_have ∷ [];
  changes = [];
  supported_capabilities = capabilities;
  version = v1;
}

abbrev after_reply : State
after_reply = record after_sending {
  shared_heads = hash_of 1 ∷ [];
  their_heads = some (hash_of 1 ∷ []);
  their_need = some [];
  their_have = some (default_have ∷ []);
  in_flight = false;
  their_capabilities = capabilities;
}

reply_received :
    receive_sync_message_inner storage doc after_sending reply ≡ ok (doc, after_reply, true)
unfolding receive_sync_message_inner Types.lookup_hash Types.new
reply_received = refl

receive_sync_message_inner-IsReceived_example : IsReceived doc doc after_sending after_reply reply
receive_sync_message_inner-IsReceived_example =
    receive_sync_message_inner-IsReceived storage doc doc after_sending after_reply reply
      reply_received

abbrev peer : Have
peer = record { last_sync = []; bloom = default_filter }

known_hashes : get_hashes doc.graph (to_set [] (last_syncs (peer ∷ []))) ≡ ok (hash_of 1 ∷ [])
unfolding get_hashes to_set last_syncs Types.lookup_hash Types.new inner_loop Clock.new
known_hashes = refl

hashes_sent : get_hashes_to_send doc (peer ∷ []) (hash_of 1 ∷ []) ≡ ok (hash_of 1 ∷ [])
unfolding get_hashes_to_send Types.lookup_hash Types.new inner_loop Clock.new parents_of
hashes_sent = refl

hash_mem-get_hashes_to_send_example : hash_mem (hash_of 1) (hash_of 1 ∷ []) ≡ true
unfolding in_no_filter hash_mem
hash_mem-get_hashes_to_send_example =
    hash_mem-get_hashes_to_send doc peer [] (hash_of 1 ∷ []) (hash_of 1 ∷ []) (hash_of 1 ∷ [])
      (hash_of 1) known_hashes hashes_sent (inr (refl, refl))

-- Bytes that cannot be loaded.
abbrev broken : Storage
broken = record storage { load_incremental = λ d bytes. (d, false) }

abbrev with_bytes : Message
with_bytes = record reply { changes = (1 ∷ 2 ∷ []) ∷ [] }

abbrev after_failure : State
after_failure = record after_sending { in_flight = false; their_capabilities = capabilities }

load_fails :
    receive_sync_message_inner broken doc after_sending with_bytes ≡ ok (doc, after_failure, false)
unfolding receive_sync_message_inner
load_fails = refl

receive_sync_message_inner_failed_example :
    (receive_sync_message_inner broken doc after_sending with_bytes
      ≡ ok (doc, after_failure, false))
    ↔ ((0 < length with_bytes.changes)
        × (broken.load_incremental doc (join with_bytes.changes) ≡ (doc, false))
        × (after_failure ≡ record after_sending {
          in_flight = false;
          their_capabilities =
              or_before with_bytes.supported_capabilities after_sending.their_capabilities;
        }))
receive_sync_message_inner_failed_example =
    receive_sync_message_inner_failed broken doc doc after_sending after_failure with_bytes
