-- ===== src/Explicit.antt =====
-- src/explicit.rs: explicit weighted tree automata. The children hold the types, the builder, the
-- lookup tables, the reachability analysis, and what is proved of each.
pub mod Types
pub mod Builder
pub mod Index
pub mod Reach
pub mod TopDown
pub mod Weights
pub mod Partial
