-- ===== src/Cfg.antt =====
-- src/cfg: the control flow graph of a thread and its automaton.
pub mod Graph
pub mod Automaton
