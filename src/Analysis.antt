-- ===== src/Analysis.antt =====
-- Parts of the analysis of Go programs (internal/analysis), over what it reads of the SSA form.
pub mod Navigation
pub mod Methods
pub mod Values
pub mod Routes
pub mod Pages
