-- ===== src/Sync/MessageBuilder.antt =====
-- sync/message_builder.rs: what a message starts from; the setters of the builder are record updates.
use automerge_r.Common.{ℕ, List, [], ◌∷◌, Option, none, ltb, if◌then◌else◌, length}
use automerge_r.Common.Hash.{ChangeHash}
use automerge_r.Sync.Capability.{Capability}
use automerge_r.Sync.Message.{Have, Message}
use automerge_r.Sync.MessageVersion.{v1, v2}

abbrev pub new_v1 : List (List ℕ) → Message
new_v1 changes = record {
  heads = [];
  need = [];
  have = [];
  changes = changes;
  supported_capabilities = none;
  version = v1;
}

-- A v2 message has one chunk, or none for bytes that are at most one long.
abbrev pub new_v2 : List ℕ → Message
new_v2 changes = record {
  heads = [];
  need = [];
  have = [];
  changes = if ltb 1 (length changes) then changes ∷ [] else [];
  supported_capabilities = none;
  version = v2;
}

abbrev pub build :
    Message → List ChangeHash → List Have → List ChangeHash → Option (List Capability) → Message
build m heads have need capabilities = record m {
  heads = heads;
  have = have;
  need = need;
  supported_capabilities = capabilities;
}
