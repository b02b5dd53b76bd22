-- ===== src/Combinators.antt =====
-- src/combinators: automata built from automata.
pub mod Product
pub mod Mapped
pub mod Determinized
pub mod InvHom
