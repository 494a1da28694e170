-- ===== src/Graph.antt =====
-- The code graph (internal/graph): kinds, the two tables and their writer, the queries, the JSON
-- document and the search for paths.
pub mod Kinds
pub mod Model
pub mod Store
pub mod Query
pub mod Reader
pub mod Resolve
pub mod Document
pub mod Paths
