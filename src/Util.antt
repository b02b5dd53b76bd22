-- ===== src/Util.antt =====
-- src/util: helpers of the automata.
pub mod DenseIndex
