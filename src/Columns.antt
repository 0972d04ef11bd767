-- ===== src/Columns.antt =====
-- rust/automerge/src/storage/columns/: the specifications of columns, and the columns of a chunk.
pub mod Spec
pub mod RawColumn
pub mod Headers
