-- ===== src/Run.antt =====
-- src/run.rs: bottom-up runs over trees.
pub mod Tuples
pub mod Det
pub mod Nondet
pub mod Agreement
