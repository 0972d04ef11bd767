-- ===== src/Columnar.antt =====
-- The column encodings of rust/automerge/src/columnar/encoding/, their specifications in
-- storage/columns/column_specification.rs, and the reader that the encodings call.
pub mod Leb128
pub mod Encodable
pub mod Sizes
pub mod Raw
pub mod Rle
pub mod Codecs
pub mod Delta
pub mod Boolean
