-- ===== src/Bp.antt =====
-- lib/splitpass/BP.cpp: the grouping of a loop's instructions.
pub mod Maps
pub mod Dual
pub mod Partition
pub mod Vectors
pub mod Edges
pub mod Scc
pub mod Heuristic
pub mod Plan
pub mod Search
