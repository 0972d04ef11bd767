-- ===== src/Parse.antt =====
-- rust/automerge/src/storage/parse.rs: the input, its cutting operations and the combinators.
-- A slice is a list of bytes. Where Rust panics on a slice bound, the result is `none`.
pub mod Leb128
pub mod Input
pub mod Combinators
