-- ===== src/Placement.antt =====
-- placement/place_locks.h: the vocabulary of the placement of locks in the threads. A z3 expression
-- over the five functions and the constants of the numbers of the locks is the function that gives
-- its value in an assignment of these. A location is a thread and the number of one of its states.
pub mod Constraints
pub mod Rules
pub mod Entries
pub mod Arrival
pub mod System
pub mod Held
pub mod Invariant
pub mod Safe
pub mod Exclusion
pub mod Sites
pub mod Cost
pub mod Penalty
pub mod Result
pub mod Duplicates
pub mod Listed
pub mod Outcome
pub mod Readable
pub mod Interpreted
pub mod Implemented
use liss.Common.{ℕ, zero, suc, ◌-◌, Bool, true, false, ◌&&◌, ◌||◌, not, List, ◌==◌, length}
use liss.Common.Int.{pos}
use liss.Abstraction.Symbol.{Location}
use liss.Cfg.Graph.{AbstractCfg, State}

pub data LockType : Type 0 where
  lock unlock : LockType

pub data PositionType : Type 0 where
  before after : PositionType

pub record SinglePlacement : Type 0 where
  pub lock_number : ℕ
  pub lock_t : LockType
  pub position : PositionType
  pub location : Location

pub record LockStatistics : Type 0 where
  pub locks : ℕ
  pub lock_instr : ℕ
  pub unlock_instr : ℕ
  pub in_lock : ℕ

pub record PlacementResult : Type 0 where
  pub locks : List SinglePlacement
  pub statistics : LockStatistics

pub data CostType : Type 0 where
  absolute_minimum small_locks coarse unoptimized max_pairwise_concurrency : CostType

-- The functions `lock_b`, `unlock_b`, `lock_a`, `unlock_a` and `inl` of a location and a lock, and
-- the constants `lock_ids`, which give each disjunction its lock.
pub record Assignment : Type 0 where
  pub lock_b : Location → ℕ → Bool
  pub unlock_b : Location → ℕ → Bool
  pub lock_a : Location → ℕ → Bool
  pub unlock_a : Location → ℕ → Bool
  pub in_lock : Location → ℕ → Bool
  pub lock_id : ℕ → ℕ

abbrev pub Formula : Type 0
Formula = Assignment → Bool

abbrev pub implies : Bool → Bool → Bool
implies p q = not p || q

abbrev pub equal : Bool → Bool → Bool
equal true q = q
equal false q = not q

-- `inle`: whether the lock is held when the location has been executed.
abbrev pub inle : Assignment → Location → ℕ → Bool
inle v x l = v.in_lock x l && not (v.unlock_a x l) || v.lock_a x l

-- `location_vector[t][i]`
abbrev pub at : ℕ → ℕ → Location
at t i = record { thread = t; state = pos i }
