-- ===== src/Abstraction/Concurrent.antt =====
-- abstraction/concurrent_automaton.h and abstraction/concurrent_automaton.cpp: the product of the
-- threads under the preemptive and the non-preemptive scheduler.
pub mod Defs
pub mod Conflicts
pub mod Step
pub mod Forbid
pub mod Explore
