-- ===== src/Abstraction/Concurrent/Forbid.antt =====
-- `add_forbidden_traces` of abstraction/concurrent_automaton.cpp: how the locks that synthesis has
-- found become conflicts, the map that starts them, and the patterns of violated locks. `none` is
-- the `front()` of an empty list.
pub mod Ready
use mathlib.Core.Option
use liss.Common.{
  ℕ, zero, suc, Bool, true, false, ◌||◌, List, [], ◌∷◌, ◌++◌, Option, none, some, ltb, ◌==◌,
  if◌then◌else◌, length, replicate,
}
use liss.Types.{Disj}
use liss.Abstraction.Symbol.{Symbol, thread_id, is_real_epsilon}
use liss.Abstraction.Concurrent.Defs.{ConflictInfo, ConcurrentAutomaton}
use liss.Abstraction.Concurrent.Conflicts.{contains}
use liss.Synthesis.Traces.{LockList, LockLists, LockSymbols, ◌>>=◌}

-- The set `conflicting`, as the list of what was inserted and not there yet.
unfoldable pub conflicting_from : List Symbol → LockList → List Symbol
conflicting_from found [] = found
conflicting_from found (s ∷ l) =
    if is_real_epsilon s || contains s found
    then conflicting_from found l
    else conflicting_from (found ++ s ∷ []) l

abbrev pub add_conflict :
    Option ℕ → Symbol → Symbol → List Symbol → ConcurrentAutomaton → ConcurrentAutomaton
add_conflict lock_id pred current [] a = a
add_conflict lock_id pred current (s ∷ l) a = record a {
  conflicts = a.conflicts ++ record { next = current; conflict = s ∷ l; lock_id = lock_id } ∷ [];
  conflict_map = (pred, length a.conflicts) ∷ a.conflict_map;
}

abbrev pub front : LockList → Option Symbol
front [] = none
front (s ∷ l) = some s

-- The loop over `it2`.
unfoldable pub against_lists :
    Option ℕ
    → Symbol
    → Symbol
    → LockList
    → LockLists
    → ConcurrentAutomaton
    → Option ConcurrentAutomaton
unfolding conflicting_from
against_lists lock_id pred current it [] a = some a
against_lists lock_id pred current it (it2 ∷ rest) a = front it >>= λ s. front it2 >>= λ t.
    against_lists lock_id pred current it rest (
      if thread_id s == thread_id t
      then a
      else add_conflict lock_id pred current (conflicting_from [] it2) a)

-- The loop over `current`.
unfoldable pub over_symbols :
    Option ℕ
    → LockList
    → LockLists
    → Option Symbol
    → List Symbol
    → ConcurrentAutomaton
    → Option ConcurrentAutomaton
unfolding against_lists
over_symbols lock_id it lock pred [] a = some a
over_symbols lock_id it lock pred (current ∷ rest) a =
    if is_real_epsilon current
    then over_symbols lock_id it lock pred rest a
    else elim pred [ none ↦ some a | some p ↦ against_lists lock_id p current it lock a ] >>= λ a'.
        over_symbols lock_id it lock (some current) rest a'

-- The loop over `it`, whose list is `lock` as well.
unfoldable pub over_lists :
    Option ℕ → LockLists → LockLists → ConcurrentAutomaton → Option ConcurrentAutomaton
unfolding over_symbols
over_lists lock_id lock [] a = some a
over_lists lock_id lock (it ∷ rest) a =
    over_symbols lock_id it lock none it a >>= λ a'. over_lists lock_id lock rest a'

-- `locks.back().push_back(true)`
unfoldable pub push_last : List (List Bool) → List (List Bool)
push_last [] = []
push_last (b ∷ bs) = elim bs [ [] ↦ (b ++ true ∷ []) ∷ [] | _ ∷ _ ↦ b ∷ push_last bs ]

-- The loop over the locks of one disjunction.
unfoldable pub over_locks : Bool → Disj LockLists → ConcurrentAutomaton → Option ConcurrentAutomaton
unfolding push_last over_lists
over_locks multiple [] a = some a
over_locks true (lock ∷ rest) a =
    over_lists (some a.locks_size) lock lock (record a { locks = push_last a.locks }) >>= λ a'.
    over_locks true rest (record a' { locks_size = suc a'.locks_size })
over_locks false (lock ∷ rest) a = over_lists none lock lock a >>= λ a'. over_locks false rest a'

unfoldable pub over_disjunctions : LockSymbols → ConcurrentAutomaton → Option ConcurrentAutomaton
unfolding over_locks
over_disjunctions [] a = some a
over_disjunctions (lockd ∷ rest) a =
    let multiple = ltb 1 (length lockd) in
    let start = if multiple then a.locks ++ replicate a.locks_size false ∷ [] else a.locks in
    over_locks multiple lockd (record a { locks = start }) >>= λ a'. over_disjunctions rest a'

-- `bad.resize(n, false)`
unfoldable pub resize : ℕ → List Bool → List Bool
resize zero bits = []
resize (suc n) [] = false ∷ resize n []
resize (suc n) (b ∷ bs) = b ∷ resize n bs

unfoldable pub resize_all : ℕ → List (List Bool) → List (List Bool)
unfolding resize
resize_all n [] = []
resize_all n (b ∷ bs) = resize n b ∷ resize_all n bs

unfoldable pub add_forbidden_traces : ConcurrentAutomaton → LockSymbols → Option ConcurrentAutomaton
unfolding over_disjunctions resize_all
add_forbidden_traces a new_locks = over_disjunctions new_locks a >>= λ a'.
    some (record a' { locks = resize_all a'.locks_size a'.locks })
