-- ===== src/Flow.antt =====
-- The call flow of a route (internal/flow/flow.go): its tree, how it is built and pruned.
pub mod Branches
pub mod Tree
pub mod Build
pub mod Text
