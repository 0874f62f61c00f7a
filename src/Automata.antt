-- ===== src/Automata.antt =====
-- src/automata: the search for deadlocks.
pub mod Deadlock
