-- ===== src/Synthesis.antt =====
-- src/synthesis: constraints on the order of a trace, the locks that enforce them, and their
-- clean-up.
pub mod Constraint
pub mod Synchronisation
pub mod Elimination
pub mod Traces
pub mod Merging
pub mod Expansion
pub mod Reorderings
