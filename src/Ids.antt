-- ===== src/Ids.antt =====
-- Identifiers and how they are written as bytes: rust/automerge/src/types.rs, exid.rs and cursor.rs.
pub mod OpId
pub mod ExId
pub mod Cursor
