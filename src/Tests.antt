-- ===== src/Tests.antt =====
-- Runs of the definitions and of the theorems on concrete inputs.
pub mod Codecs
pub mod Session
pub mod Columns
pub mod Sequences
pub mod Storage
pub mod Graphs
