-- ===== src/Examples/Forbidding.antt =====
-- A lock that two accesses of thread 0 share with one of thread 1, in the product.
use liss.Common.{◌≡◌, ◌↔◌, refl, arith, ℕ, true, [], ◌∷◌, none, some, Memᴰ}
use liss.Common.Int.{pos}
use liss.Abstraction.Symbol.{Symbol, write, is_real_epsilon}
use liss.Abstraction.State.{ConcurrentState, new_state}
use liss.Abstraction.Concurrent.Defs.{ThreadAutomaton, ConcurrentAutomaton}
use liss.Abstraction.Concurrent.Conflicts.{apply_bad_trace_dnf}
use liss.Abstraction.Concurrent.Conflicts.Total.{Answers}
use liss.Abstraction.Concurrent.Forbid.{add_forbidden_traces}
use liss.Abstraction.Concurrent.Forbid.Ready.{IsReady, add_forbidden_traces-IsReady}
use liss.Abstraction.Concurrent.Step.{may_run}
use liss.Abstraction.Concurrent.Explore.{initial_states, next_symbols}
use liss.Abstraction.Concurrent.Explore.Offered.{IsOffered, next_symbols_iff}
use liss.Abstraction.Concurrent.Explore.Safe.{start, Reachable-Answers}
use liss.Synthesis.Traces.{LockSymbols}
use liss.Examples.Data.{make_symbol, read_x, write_x, loose_thread, two_threads}

abbrev write_back : Symbol
write_back = make_symbol write 0 0 2

abbrev one_lock : LockSymbols
one_lock = (((read_x ∷ write_back ∷ []) ∷ (write_x ∷ []) ∷ []) ∷ []) ∷ []

add_forbidden_traces-IsReady_example :
    (b : ConcurrentAutomaton) × (add_forbidden_traces two_threads one_lock ≡ some b) × IsReady b
add_forbidden_traces-IsReady_example =
    add_forbidden_traces-IsReady two_threads one_lock ((((λ e. cc), ((λ e. cc), tt)), tt), tt)
      ((tt, tt), tt)

abbrev started : ThreadAutomaton
started = record loose_thread { initial_states = record { reward = pos 0; state = pos 2 } ∷ [] }

abbrev ready_threads : ConcurrentAutomaton
ready_threads = record two_threads { threads = started ∷ started ∷ [] }

abbrev fenced : ConcurrentAutomaton
fenced = record ready_threads {
  conflicts = record { next = write_back; conflict = write_x ∷ []; lock_id = none } ∷ [];
  conflict_map = (read_x, 0) ∷ [];
}

-- The lock of the example makes this automaton.
one_lock_fences : add_forbidden_traces ready_threads one_lock ≡ some fenced
unfolding add_forbidden_traces is_real_epsilon
one_lock_fences = refl

abbrev both_started : ConcurrentState
unfolding new_state
both_started = record (new_state 2 0) { threads = pos 2 ∷ pos 2 ∷ [] }

starts : Memᴰ both_started (initial_states fenced)
unfolding initial_states new_state
starts = Memᴰ.head refl

Reachable-Answers_example : Answers 1 0 (apply_bad_trace_dnf fenced read_x both_started)
Reachable-Answers_example =
    Reachable-Answers fenced both_started read_x (omega arith) (((omega arith, tt), (tt, tt)), tt)
      (start both_started starts)

next_symbols_fenced : next_symbols fenced both_started ≡ some (read_x ∷ read_x ∷ [])
unfolding next_symbols new_state
next_symbols_fenced = refl

next_symbols_iff_example :
    Memᴰ read_x (read_x ∷ read_x ∷ [])
    ↔ ((t : ℕ) × (may_run both_started t ≡ true) × IsOffered fenced both_started t read_x)
next_symbols_iff_example =
    next_symbols_iff fenced both_started (read_x ∷ read_x ∷ []) read_x next_symbols_fenced
