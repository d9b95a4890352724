-- ===== src/Fusion.antt =====
-- src/depthfusion/fusion: how the rankings of several retrievers become one. Scores are values of an
-- abstract type with the operations that the code uses.
pub mod Scores
pub mod Rrf
pub mod Gates
