-- ===== src/Examples/Looping.antt =====
-- The search over the bound and the synthesis loop on two threads that read and write `x`.
use mathlib.Core.Option
use liss.Common.{
  length, not, is_empty, zero, suc, Bool, Option, none, map, all, if◌then◌else◌, ℕ, ◌≡◌, refl, true,
  false, leb, List, [], ◌∷◌, some,
}
use liss.Types.{not_dnf}
use liss.Abstraction.Symbol.{Symbol, symbol_eq}
use liss.Abstraction.Symbol.Equality.{symbol_eq_trans}
use liss.Abstraction.Concurrent.Forbid.{add_forbidden_traces}
use liss.Synthesis.Synchronisation.{generate_sync, find_locks, outer_loop, inner_loop, try_pair}
use liss.Synthesis.Traces.{LockSymbols, split_list, locks_to_symbols, remove_preemption}
use liss.Synthesis.Traces.Duplicates.{remove_duplicates}
use liss.Actions.Inclusion.{
  Inclusion, Decides, is_open, search_bounds, test_inclusion, test_inclusion_lem,
}
use liss.Actions.Loop.{Tools, LoopState, no_more_locks, infer_locks, forbid, returned, synth_loop}
use liss.Actions.Loop.Sound.{IsSound, Outcome, synth_loop-Outcome}
use liss.Examples.Data.{read_x, write_x, make_symbol, two_threads}
use liss.Abstraction.Symbol.{read, is_preemption_point, is_real_epsilon}
use liss.Synthesis.Constraint.{
  not_atom, Model, Expr, make_constraint_conj, make_constraint_dnf, atom_expr,
}
use liss.Synthesis.Reorderings.{
  new_separated_trace, push_at, count_symbol, split_from, split_trace, find_order, orders,
  wait_notify_order, sort_by, insert_by, order_of, find_other_traces,
}
use liss.Synthesis.Reorderings.Prepare.{
  final_location, note_operation, link, note_location, note_thread, note_threads, close_threads,
  all_distinct, exclude_all, all_conditions, finish_preparation, prepare_trace,
}
use liss.Synthesis.Reorderings.Forbidden.{synth_locks_from, synth_locks}
use liss.Synthesis.Reorderings.Process.{
  separate, process_strace, sequential_traces, bad_traces_int, filter_bad, gather, process_trace,
}
use liss.Synthesis.Reorderings.Solving.{Solver, min_unsat, clash, shrink, core_of}
use liss.Examples.Solving.{three_solver}
use liss.Examples.Inferring.{size, two_symbols, no_bad_traces}

-- The bound is hit below 3, where inclusion is shown.
abbrev at_bound : ℕ → Inclusion Symbol
at_bound n = record { included = leb 3 n; bound_hit = true; counter_example = read_x ∷ [] }

third_bound : test_inclusion at_bound (λ trace. true) (λ r. r) 20 ≡ some (at_bound 3)
unfolding test_inclusion search_bounds is_open
third_bound = refl

test_inclusion_lem_example :
    Decides at_bound
      (λ (trace : List Symbol). true)
      (λ r. r)
      1
      21
      (test_inclusion at_bound (λ trace. true) (λ r. r) 20)
test_inclusion_lem_example = test_inclusion_lem at_bound (λ trace. true) (λ r. r) 20

abbrev found_trace : Inclusion Symbol
found_trace = record { included = false; bound_hit = false; counter_example = two_symbols }

abbrev tools : Tools
tools = record {
  test = λ a. some found_trace;
  size = size;
  solver = three_solver;
  solver_fuel = 6;
  pointers = record { same = symbol_eq; same_trans = symbol_eq_trans };
}

abbrev start : LoopState
start = record { concurrent = two_threads; lock_symbols = []; lock_counter = 0 }

start-IsSound : IsSound start
start-IsSound = record { ready = ((tt, tt), tt); choices = tt }

nothing_inferred : infer_locks tools start two_symbols ≡ some ([], 0)
unfolding infer_locks generate_sync not_dnf locks_to_symbols remove_preemption remove_duplicates
nothing_inferred = rw no_bad_traces refl

ends_without_locks : synth_loop tools 2 start ≡ (no_more_locks, start)
unfolding synth_loop
ends_without_locks = rw (nothing_inferred, synth_loop) refl

returns_true : returned (synth_loop tools 2 start).0 ≡ some true
unfolding returned
returns_true = rw ends_without_locks refl

abbrev again_x : Symbol
again_x = make_symbol read 0 0 2

abbrev interrupted : List Symbol
interrupted = read_x ∷ write_x ∷ again_x ∷ []

abbrev between : Model
between n = n

abbrev write_first : Model
write_first zero = 1
write_first (suc zero) = 0
write_first (suc (suc n)) = suc (suc n)

abbrev write_last : Model
write_last zero = 0
write_last (suc zero) = 2
write_last (suc (suc zero)) = 1
write_last (suc (suc (suc n))) = suc (suc (suc n))

abbrev first_of : (Model → Bool) → List Model → Option Model
first_of p [] = none
first_of p (v ∷ vs) = if p v then some v else first_of p vs

-- A solver that knows three orders.
abbrev three_orders : Solver
three_orders = record {
  check =
      λ es. first_of (λ v. all (λ (e : Expr). e v) es) (write_first ∷ write_last ∷ between ∷ []);
  unsat_core = λ es assumed. map (λ (e : Expr). true) assumed;
}

-- The test has a counter-example until locks are forbidden.
abbrev interrupted_tools : Tools
interrupted_tools = record {
  test = λ a. some (record {
    included = not (is_empty a.conflicts);
    bound_hit = false;
    counter_example = interrupted;
  });
  size = size;
  solver = three_orders;
  solver_fuel = 6;
  pointers = record { same = symbol_eq; same_trans = symbol_eq_trans };
}

-- A lock round the write, and one round the two reads.
abbrev round_reads : LockSymbols
round_reads = (((write_x ∷ []) ∷ (read_x ∷ again_x ∷ []) ∷ []) ∷ []) ∷ []

locks_inferred : infer_locks interrupted_tools start interrupted ≡ some (round_reads, 1)
unfolding infer_locks generate_sync not_dnf locks_to_symbols remove_preemption remove_duplicates
    process_trace separate new_separated_trace push_at count_symbol split_from split_trace
    final_location note_operation link note_location note_thread note_threads close_threads
    all_conditions finish_preparation prepare_trace synth_locks_from synth_locks exclude_all
    all_distinct process_strace sequential_traces bad_traces_int filter_bad gather find_order orders
    wait_notify_order sort_by insert_by order_of find_other_traces make_constraint_conj
    make_constraint_dnf atom_expr min_unsat clash shrink core_of find_locks outer_loop inner_loop
    try_pair not_atom split_list is_preemption_point is_real_epsilon
locks_inferred = refl

-- The loop goes on after a round that forbids these locks.
synth_loop-Outcome_example : Outcome interrupted_tools start (synth_loop interrupted_tools 2 start)
synth_loop-Outcome_example = synth_loop-Outcome interrupted_tools 2 start start-IsSound

forbids_locks :
    Option.map {B = ℕ}
      (λ (next : LoopState). length next.concurrent.conflicts)
      (forbid start round_reads 1)
    ≡ some 1
unfolding forbid add_forbidden_traces is_real_epsilon
forbids_locks = refl
