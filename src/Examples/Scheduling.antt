-- ===== src/Examples/Scheduling.antt =====
-- The schedulers on an automaton of two threads.
use liss.Common.{◌≡◌, ◌≢◌, ◌⊎◌, refl, Bool, true, false, List, [], ◌∷◌, ◌++◌, none, some, Memᴰ}
use liss.Common.Int.{pos}
use liss.Abstraction.Symbol.{read, is_real_epsilon}
use liss.Abstraction.State.{ConcurrentState, new_state}
use liss.Abstraction.Concurrent.Step.{
  applied, may_block, effect, apply_symbol, further, push_successors, place, deadlock_states,
  successors,
}
use liss.Abstraction.Concurrent.Conflicts.{apply_bad_trace_dnf, conflict_loop, start_conflicts}
use liss.Abstraction.Concurrent.Step.Free.{free, preemptive}
use liss.Abstraction.Concurrent.Step.Schedule.{
  Run, here, next, visible, apply_progress, successors_preemptive, Run-preemptive,
}
use liss.Examples.Data.{two_threads, read_x, take_l}

start : ConcurrentState
unfolding new_state
start = new_state 2 0

-- After a read of thread 0, which goes on running.
abbrev reading : ConcurrentState
reading = record start { threads = pos 2 ∷ pos 0 ∷ []; current = some 0; reward = pos 1 }

first_step : successors two_threads start read_x ≡ some (reading ∷ [])
unfolding start successors apply_symbol effect apply_bad_trace_dnf conflict_loop start_conflicts
    push_successors further place deadlock_states is_real_epsilon
first_step = refl

Run-preemptive_example :
    Run (preemptive two_threads) (free start) ([] ++ visible read_x) (free reading)
Run-preemptive_example =
    Run-preemptive two_threads start
      (next read_x (reading ∷ []) reading here first_step (Memᴰ.head refl))

successors_preemptive_example :
    ((reading ≡ free start) × (may_block read ≡ true))
    ⊎ ((out' : List ConcurrentState) × (successors (preemptive two_threads) (free start) read_x
          ≡ some out')
        × Memᴰ (free reading) out')
successors_preemptive_example =
    successors_preemptive two_threads start reading read_x (reading ∷ []) first_step
      (Memᴰ.head refl)

-- Thread 0 runs and meets a lock: it gives the processor up, though the lock is free.
lock_yields : apply_symbol two_threads reading take_l ≡ applied (free reading) false
unfolding apply_symbol
lock_yields = refl

apply_progress_example :
    (◌≡◌ {A = Bool} false true)
    ⊎ ((◌≡◌ {A = Bool} false false)
        × (free reading ≡ free reading)
        × (may_block take_l.operation ≡ true)
        × (reading.current ≢ none))
apply_progress_example = apply_progress two_threads reading (free reading) take_l false lock_yields
