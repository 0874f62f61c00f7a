-- ===== src/Abstraction.antt =====
-- src/abstraction: symbols, identifiers, concurrent states and the concurrent automaton.
pub mod Symbol
pub mod State
pub mod Concurrent
pub mod Identifiers
pub mod Compressed
