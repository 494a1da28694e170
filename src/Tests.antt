-- ===== src/Tests.antt =====
-- The definitions run on a small graph, and the theorems applied to it.
pub mod Sample
mod Stores
mod Finding
mod Flows
mod Tokens
mod Ticks
mod Lives
mod Diagrams
mod Schemas
mod Meanings
mod Totals
mod Settings
mod Sql
mod Redirects
mod Gopls
mod Queries
mod Methods
mod Pages
