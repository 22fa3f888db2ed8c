-- ===== src/Lowering.antt =====
-- The package lowering.
pub mod Lookaheads
