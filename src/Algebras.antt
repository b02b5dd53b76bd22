-- ===== src/Algebras.antt =====
-- src/algebras: the algebras whose values the terms denote, and their decomposition automata.
pub mod Strings
