-- ===== src/Sync.antt =====
-- rust/automerge/src/sync.rs and the files of rust/automerge/src/sync/: the sync protocol.
pub mod Bloom
pub mod Errors
pub mod MessageVersion
pub mod Capability
pub mod ChunkList
pub mod Message
pub mod State
pub mod Document
pub mod MessageBuilder
pub mod ToSend
pub mod Protocol
