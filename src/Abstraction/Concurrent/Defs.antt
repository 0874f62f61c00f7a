-- ===== src/Abstraction/Concurrent/Defs.antt =====
-- abstraction/concurrent_automaton.h: the data of the automaton.
use liss.Common.{ℕ, Bool, List, Option}
use liss.Common.Int.{ℤ}
use liss.Abstraction.Symbol.{Symbol}
use liss.Cfg.Automaton.{RewardState}

-- What the product uses of the automaton of a thread: the calls go through `Limi::automaton`, which
-- hands them on to the functions of `cfg::automaton` unless epsilon steps are collapsed.
pub record ThreadAutomaton : Type 0 where
  pub is_final_state : ℤ → Bool
  pub initial_states : List RewardState
  pub successors : ℤ → Symbol → List RewardState
  pub next_symbols : ℤ → List Symbol

-- `lock_id` is `none` for -1. The set of symbols is a list, searched by `symbol_eq`.
pub record ConflictInfo : Type 0 where
  pub next : Symbol
  pub conflict : List Symbol
  pub lock_id : Option ℕ

-- The multimap from symbols to conflicts is the list of its pairs. `locks` holds the patterns of
-- locks of which one must not be violated in full.
pub record ConcurrentAutomaton : Type 0 where
  pub threads : List ThreadAutomaton
  pub concurrent : Bool
  pub deadlock : Bool
  pub successor_filter : List Symbol
  pub conflicts : List ConflictInfo
  pub conflict_map : List (Symbol × ℕ)
  pub locks : List (List Bool)
  pub locks_size : ℕ
