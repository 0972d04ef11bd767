-- ===== src/Graph.antt =====
-- rust/automerge/src/change_graph.rs: the graph of changes, an adjacency list in vectors. Every node
-- has the list of its parents, linked through the vector of edges.
pub mod Types
pub mod Edges
pub mod ClockOf
pub mod Add
pub mod Query
