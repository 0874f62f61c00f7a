-- ===== src/Examples/Preparing.antt =====
-- The formulas of `prepare_trace` and `min_unsat` on a few locations.
use mathlib.Core.List.Memᴰ
use liss.Common.{
  ◌<◌, ◌≡◌, ◌⊎◌, ap, refl, true, not, List, [], ◌∷◌, Option, none, some, arith, All, Memᴰ,
}
use liss.Abstraction.Symbol.{lock, unlock, wait, wait_not, notify, reset}
use liss.Synthesis.Constraint.{TraceLocation, Expr, less}
use liss.Synthesis.Reorderings.{SeparatedTrace, new_separated_trace}
use liss.Synthesis.Reorderings.Prepare.{
  LockPair, Preparation, exclude_from, exclude_each, exclude_all, all_conditions,
  finish_preparation, condition_of,
}
use liss.Synthesis.Reorderings.Solving.{clash, shrink, core_of, min_unsat}
use liss.Synthesis.Reorderings.Minimal.{EachNeeded, min_unsat_lem}
use liss.Synthesis.Reorderings.Sections.{finish_preparation-exclusive}
use liss.Synthesis.Reorderings.Conditions.{condition_of-wait_not}
use liss.Abstraction.Symbol.{Symbol, write, symbol_eq}
use liss.Synthesis.Traces.{LockLists}
use liss.Synthesis.Reorderings.Forbidden.{
  keep_matching, match_from, match_each, find_lock_locs, find_locs, keep_outside, keep_all_outside,
  against_symbols, against_others, lock_constraint, disjunction_constraint, synth_locks_from,
  synth_locks,
}
use liss.Synthesis.Reorderings.Preserved.{KeepsLock, synth_locks-KeepsLock}
use liss.Synthesis.Reorderings.Found.{StandsAt}
use liss.Common.{if◌then◌else◌, ◌==◌, false}
use liss.Examples.Data.{read_x, write_x, make_symbol, make_location}
use liss.Examples.Solving.{three_solver, three_solver-IsSolver, Ordering, normal_order}

abbrev first_lock : TraceLocation
first_lock = make_location (make_symbol lock 0 0 1) 0

abbrev first_unlock : TraceLocation
first_unlock = make_location (make_symbol unlock 0 0 2) 1

abbrev second_lock : TraceLocation
second_lock = make_location (make_symbol lock 0 1 1) 2

abbrev end_of_trace : TraceLocation
end_of_trace = make_location (make_symbol unlock 0 1 2) 3

-- The second section is open at the end.
abbrev two_sections : List LockPair
two_sections =
    record { lock_at = first_lock; unlock_at = some first_unlock }
    ∷ record { lock_at = second_lock; unlock_at = none }
    ∷ []

abbrev locked : Preparation
locked = record {
  strace = new_separated_trace 0 0 2;
  lockings = two_sections ∷ [];
  thread_endpoints = some first_unlock ∷ some second_lock ∷ [];
}

abbrev or_empty : Option SeparatedTrace → SeparatedTrace
or_empty none = new_separated_trace 0 0 0
or_empty (some s) = s

abbrev locked_trace : SeparatedTrace
locked_trace = or_empty (finish_preparation end_of_trace locked)

is_locked : finish_preparation end_of_trace locked ≡ some locked_trace
unfolding finish_preparation all_conditions new_separated_trace
is_locked = refl

in_turn : locked_trace.locks (λ n. n) ≡ true
unfolding finish_preparation all_conditions new_separated_trace exclude_all exclude_each
    exclude_from
in_turn = refl

finish_preparation-exclusive_example : (◌<◌ 1 2) ⊎ (◌<◌ 3 0)
finish_preparation-exclusive_example =
    finish_preparation-exclusive end_of_trace locked locked_trace (λ n. n) is_locked in_turn 0 0 1
      two_sections (record { lock_at = first_lock; unlock_at = some first_unlock })
      (record { lock_at = second_lock; unlock_at = none }) refl refl refl (λ e. omega (arith, e))

abbrev notification : TraceLocation
notification = make_location (make_symbol notify 0 0 1) 0

abbrev clearing : TraceLocation
clearing = make_location (make_symbol reset 0 0 2) 1

abbrev waiting : TraceLocation
waiting = make_location (make_symbol wait 0 1 1) 2

number_of : (a b : TraceLocation) → Memᴰ a (b ∷ []) → a.name ≡ b.name
number_of a b m = ap (λ (x : TraceLocation). x.name) (Memᴰ.eq_of_singleton m)

condition_of-wait_not_example :
    condition_of
      (notification ∷ [])
      (clearing ∷ [])
      (record waiting { symbol = make_symbol wait_not 0 1 1 })
      (λ n. n)
    ≡ not (condition_of (notification ∷ []) (clearing ∷ []) waiting (λ n. n))
condition_of-wait_not_example =
    condition_of-wait_not (λ n. n) waiting (make_symbol wait_not 0 1 1) (notification ∷ [])
      (clearing ∷ []) refl refl (λ n m e. omega (arith, number_of n notification m, e))
      (λ r m e. omega (arith, number_of r clearing m, e))
      (λ n r m k e. omega (arith, number_of n notification m, number_of r clearing k, e))

-- Two formulas that contradict each other, and one that is not needed.
abbrev contradiction : List Expr
contradiction =
    less first_lock second_lock ∷ less first_lock first_unlock ∷ less second_lock first_lock ∷ []

contradiction-Ordering : All Ordering contradiction
contradiction-Ordering = (
  (λ v. normal_order v 0 2 (omega arith) (omega arith)),
  (
    (λ v. normal_order v 0 1 (omega arith) (omega arith)),
    ((λ v. normal_order v 2 0 (omega arith) (omega arith)), tt),
  ),
)

min_unsat_lem_example :
    ((min_unsat three_solver [] (λ (e : Expr). e) contradiction).1
      ≡ clash three_solver [] (λ (e : Expr). e) contradiction)
    × ((min_unsat three_solver [] (λ (e : Expr). e) contradiction).1 ≡ true
        → ((a : Expr)
            → Memᴰ a (min_unsat three_solver [] (λ (e : Expr). e) contradiction).0
            → Memᴰ a contradiction)
          × (clash three_solver []
                (λ (e : Expr). e)
                (min_unsat three_solver [] (λ (e : Expr). e) contradiction).0
              ≡ true)
          × EachNeeded three_solver []
              (λ (e : Expr). e)
              []
              (min_unsat three_solver [] (λ (e : Expr). e) contradiction).0
              [])
min_unsat_lem_example =
    min_unsat_lem three_solver [] (λ e. e) Ordering three_solver-IsSolver tt contradiction
      contradiction-Ordering

-- The formula in the middle is dropped.
contradiction_small :
    min_unsat three_solver [] (λ e. e) contradiction
    ≡ (less first_lock second_lock ∷ less second_lock first_lock ∷ [], true)
unfolding min_unsat clash shrink core_of
contradiction_small = refl

abbrev write_0 : Symbol
write_0 = make_symbol write 0 0 2

-- Thread 0 reads and writes, then thread 1 writes; the first two share a lock with the third.
abbrev in_threads : SeparatedTrace
in_threads = record (new_separated_trace 1 0 2) {
  threaded_trace =
      (make_location read_x 0 ∷ make_location write_0 1 ∷ []) ∷ (make_location write_x 2 ∷ []) ∷ [];
}

abbrev kept_lock : LockLists
kept_lock = (read_x ∷ write_0 ∷ []) ∷ (write_x ∷ []) ∷ []

abbrev with_lock : SeparatedTrace
with_lock = or_empty (synth_locks in_threads ((kept_lock ∷ []) ∷ []))

with_lock_lem : synth_locks in_threads ((kept_lock ∷ []) ∷ []) ≡ some with_lock
unfolding new_separated_trace synth_locks synth_locks_from disjunction_constraint lock_constraint
    against_others against_symbols keep_all_outside keep_outside find_lock_locs find_locs match_each
    match_from keep_matching
with_lock_lem = refl

lock_holds : with_lock.synth_locks (λ n. n) ≡ true
unfolding new_separated_trace synth_locks synth_locks_from disjunction_constraint lock_constraint
    against_others against_symbols keep_all_outside keep_outside find_lock_locs find_locs match_each
    match_from keep_matching symbol_eq
lock_holds = refl

-- Thread 1 between the two accesses of thread 0.
lock_violated : with_lock.synth_locks (λ n. if n == 1 then 3 else n) ≡ false
unfolding new_separated_trace synth_locks synth_locks_from disjunction_constraint lock_constraint
    against_others against_symbols keep_all_outside keep_outside find_lock_locs find_locs match_each
    match_from keep_matching symbol_eq
lock_violated = refl

synth_locks-KeepsLock_example :
    (lock : LockLists) × Memᴰ lock (kept_lock ∷ []) × KeepsLock in_threads (λ n. n) lock
synth_locks-KeepsLock_example =
    synth_locks-KeepsLock in_threads with_lock ((kept_lock ∷ []) ∷ []) (λ n. n) with_lock_lem
      lock_holds (kept_lock ∷ []) (Memᴰ.head refl)

-- The first side stands in the trace.
kept_stands :
    StandsAt in_threads (read_x ∷ write_0 ∷ []) (make_location read_x 0) (make_location write_0 1)
unfolding symbol_eq
kept_stands = (
  make_location read_x 0 ∷ make_location write_0 1 ∷ [],
  0,
  refl,
  refl,
  refl,
  (make_location write_0 1, refl, refl, refl),
  λ x m. ap (symbol_eq read_x) (Memᴰ.eq_of_singleton m),
)
