-- ===== src/Lib.antt =====
-- Automerge: the sync protocol, its codecs, the graph of changes under it, the encodings of columns and
-- the tree of text values.
--
-- The program is the Rust crate under src/automerge/rust/automerge/src, here called rust/. A document
-- keeps the graph of its changes. Two peers exchange sync messages until they have the same changes:
-- a peer tells its heads, a Bloom filter of what it has and what it needs, and sends the changes that
-- the other peer's filter does not have. The parts stand on each other in the order of this list.
--
-- - Common: Boolean tests, lists, results, bits, integers, and hashes of changes with lists of them as
--   sets. Nothing of the program's own but the type ChangeHash of rust/types.rs.
-- - Parse.Input, Parse.Combinators: rust/storage/parse.rs. An `Input` is the bytes left, the position
--   and all the bytes; a parser returns the rest and a value, or what went wrong.
--   Parse.Leb128: rust/storage/parse/leb128.rs. The `leb128` crate, which writes numbers, is the
--   record `Writer` of Parse.Leb128.Writer, with its documented shape as two laws and one instance.
-- - Sync.Bloom: rust/sync/bloom.rs.
--   Sync.MessageVersion, Capability, ChunkList, Message: the message format of rust/sync.rs.
--   Sync.MessageBuilder: rust/sync/message_builder.rs. Sync.State: rust/sync/state.rs.
--   Sync.Document: what rust/automerge.rs answers to the protocol (`get_missing_deps`,
--   `filter_changes`). Sync.ToSend and Sync.Protocol: `generate_sync_message`,
--   `receive_sync_message_inner` and their helpers in rust/sync.rs.
-- - Ids.OpId, ExId, Cursor: rust/types.rs, rust/exid.rs, rust/cursor.rs.
-- - Clock: rust/clock.rs.
-- - Graph.Types, Edges, ClockOf, Add, Query: rust/change_graph.rs.
-- - Columnar: rust/columnar/encoding/. Columnar.Encodable (encodable_impls.rs) writes integers,
--   Columnar.Sizes (leb128.rs) computes how long they get, Columnar.Raw (raw.rs) reads consecutive
--   values, Columnar.Rle, Delta and Boolean (rle.rs, delta.rs, boolean.rs) encode columns on top of
--   these. A type of values gives the run length coding a `Codec`, the record of its trait impls and
--   their laws, which Columnar.Codecs fills for u64 and i64; Columnar.Delta is a client of the run
--   length coding at i64. Rle.Format is the format apart from encoder and decoder; Rle.Encoded,
--   Appended, Flushed and Finished relate the encoder to it, Stepped and Decoded the decoder.
-- - Columns.Spec, RawColumn, Headers: rust/storage/columns/column_specification.rs and raw_column.rs,
--   the specifications of columns, their compression, and their headers in a chunk.
-- - Chunk: the headers of rust/storage/chunk.rs, with their checksums and hashes.
-- - SequenceTree: rust/sequence_tree.rs. A node with a vector of nodes is two data types; Access has
--   the lookup and the iterators. Flatten has the sequence that a tree stands for and the invariant;
--   Lookup, Insert, Refine and Collect relate `get`, `insert`, `push`, `from_iter` and `iter` to it;
--   Focus follows an index to the child it falls into and Split the halves of a full child.
-- - Tests: runs on concrete inputs.
--
-- Conventions. A machine integer is a natural number with its wrap-around written out; `usize` has 64
-- bits, and additions and casts that the release build lets wrap are taken modulo their width; the
-- conversions that are unwrapped, of `OpId::new` and `EdgeIdx::new`, can panic. A panic is `none`
-- or the error `panic`. A slice or a vector is a list; a HashSet or a BTreeSet is the list of its
-- elements, and a HashMap an association list with the last insertion first, so that what depends on
-- the order of a hash set only is its order. Columns of the graph's metadata are the lists of their
-- values. Debug assertions are left out, assertions are checked. The capacity of a Bloom filter, which
-- the program computes in an f64, is the integer quotient rounded up, the same below 2^53.
--
-- Fuel. Walks along the links of edges and the loop on the nodes of a clock have as much fuel as
-- there are edges and nodes; on a graph whose nodes are later than their parents the loop on the nodes
-- never uses it up. The loop of `get_hashes_to_send` has fuel for its set and the edges, which is always
-- enough. `traverse_ancestors` pushes a node once for every head and edge, `cache_clock` calls itself
-- on earlier nodes only; their fuel is these numbers. An integer of 64 bits has at most ten groups of
-- seven bits. The loops that look for the next run of a column read a byte in each turn, so that the
-- bytes left and one more are enough on every input; collecting a column has fuel for its values and
-- the end. Inserting goes down one level at a time and has the depth of the tree as fuel.
--
-- Assumptions on code outside the model. `Storage` holds what the protocol asks of the rest of the
-- document: its bytes, the bytes of given changes, and the load of received bytes; nothing is assumed
-- of it. `Columnar.Leb128.Reader` is the reading half of the `leb128` crate: seven bits of each byte up
-- to the first byte without its top bit, of at most ten bytes; `reader` is a function that meets it.
-- `Columns.RawColumn.Deflater` is the `flate2` crate, which inflates what it deflated, and
-- `Chunk.Sha256` the `sha2` crate, whose digests have 32 bytes.
--
-- Not modelled: the operation set and the hexane columns under it, transactions, patches, marks, text
-- diffs, the bodies of storage chunks, removal from a sequence tree, the columns of strings and
-- floats, serde and display forms, and the bindings to C and R.
pub mod Common
pub mod Parse
pub mod Sync
pub mod Ids
pub mod Clock
pub mod Graph
pub mod Columnar
pub mod Columns
pub mod Chunk
pub mod SequenceTree
pub mod Tests
