-- ===== src/Examples/Inferring.antt =====
-- `process_trace` on a trace of two threads, one that reads `x` and one that writes it.
use liss.Common.{
  ap, Bool, ◌&&◌, not, ltb, ◌==◌, ◌<◌, ◌≡◌, refl, true, false, List, [], ◌∷◌, map, Option, none,
  some, arith, All, Memᴰ,
}
use liss.Types.{Conj, Dnf, not_dnf}
use liss.Synthesis.Synchronisation.{generate_sync}
use liss.Types.Negation.{eval_cnf}
use liss.Abstraction.Symbol.{Symbol}
use liss.Synthesis.Constraint.{
  TraceLocation, ConstraintAtom, Model, atom_expr, make_constraint_conj, make_constraint_dnf,
}
use liss.Synthesis.Synchronisation.Sound.{obeys}
use liss.Synthesis.Elimination.{locks_for}
use liss.Synthesis.Reorderings.{
  SeparatedTrace, new_separated_trace, push_at, count_symbol, split_from, split_trace, find_order,
  orders, wait_notify_order, sort_by, insert_by, order_of, find_other_traces,
}
use liss.Synthesis.Reorderings.Prepare.{
  final_location, note_operation, link, note_location, note_thread, note_threads, close_threads,
  all_distinct, exclude_all, all_conditions, finish_preparation, prepare_trace,
}
use liss.Synthesis.Reorderings.Forbidden.{synth_locks_from, synth_locks}
use liss.Synthesis.Reorderings.Process.{
  ProgramSize, good, bad, separate, process_strace, sequential_traces, bad_traces_int, filter_bad,
  gather, process_trace,
}
use liss.Synthesis.Reorderings.Solving.{Satisfies, min_unsat, clash, shrink, core_of}
use liss.Synthesis.Reorderings.Inferred.{IsGood, process_trace_lem, locks_for-process_trace}
use liss.Synthesis.Reorderings.Threads.{IsSplit}
use liss.Synthesis.Reorderings.Sorted.{IsDistinct}
use liss.Synthesis.Reorderings.Accesses.{Grounded}
use liss.Synthesis.Reorderings.Conflicts.{IsRecorded, find_order-Grounded}
use liss.Synthesis.Reorderings.Separated.{IsSeparated, separate-IsSeparated}
use liss.Examples.Data.{read_x, write_x}
use liss.Examples.Solving.{
  three_solver, three_solver-IsSolver, Ordering, Ordering-IsTheory, normal, normal_equal,
  normal_order,
}

abbrev pub size : ProgramSize
size = record { no_variables = 1; no_conditionals = 0; no_locks = 0; no_threads = 2 }

abbrev pub two_symbols : List Symbol
two_symbols = read_x ∷ write_x ∷ []

abbrev or_new : Option SeparatedTrace → SeparatedTrace
or_new none = new_separated_trace 0 0 0
or_new (some s) = s

abbrev separated : SeparatedTrace
separated = or_new (separate size two_symbols [])

separated_lem : separate size two_symbols [] ≡ some separated
unfolding separate new_separated_trace push_at count_symbol split_from split_trace final_location
    note_operation link note_location note_thread note_threads close_threads all_conditions
    finish_preparation prepare_trace synth_locks_from synth_locks
separated_lem = refl

few : (a : TraceLocation) → Memᴰ a separated.trace → a.name < 3
unfolding separate new_separated_trace push_at count_symbol split_from split_trace final_location
    note_operation link note_location note_thread note_threads close_threads all_conditions
    finish_preparation prepare_trace synth_locks_from synth_locks
few a (Memᴰ.head e) = omega (arith, ap (λ (x : TraceLocation). x.name) e)
few a (Memᴰ.tail (Memᴰ.head e)) = omega (arith, ap (λ (x : TraceLocation). x.name) e)
few a (Memᴰ.tail (Memᴰ.tail (Memᴰ.head e))) = omega (arith, ap (λ (x : TraceLocation). x.name) e)
few a (Memᴰ.tail (Memᴰ.tail (Memᴰ.tail m))) = elim m [ ]

order_lem :
    (v : Model)
    → ((true && ltb (normal v 0) (normal v 2)) && ltb (normal v 1) (normal v 2))
      ≡ ((true && ltb (v 0) (v 2)) && ltb (v 1) (v 2))
order_lem v = ground (
  arith,
  normal_order v 0 2 (omega arith) (omega arith),
  normal_order v 1 2 (omega arith) (omega arith),
)

abbrev apart : Model → Bool
apart v =
    (not (v 0 == v 1) && (not (v 0 == v 2) && true))
    && ((not (v 1 == v 2) && true) && (true && true))

apart_lem : (v : Model) → apart (normal v) ≡ apart v
apart_lem v = ground (
  arith,
  normal_equal v 0 1 (omega arith) (omega arith),
  normal_equal v 0 2 (omega arith) (omega arith),
  normal_equal v 1 2 (omega arith) (omega arith),
)

formulas : All Ordering (good separated)
unfolding separate new_separated_trace push_at count_symbol split_from split_trace final_location
    note_operation link note_location note_thread note_threads close_threads all_conditions
    finish_preparation prepare_trace synth_locks_from synth_locks exclude_all all_distinct
formulas = (order_lem, (apart_lem, (λ v. refl, (λ v. refl, (λ v. refl, (λ v. refl, tt))))))

process_trace_lem_example :
    (out : Dnf ConstraintAtom) × (process_trace size three_solver 6 two_symbols [] ≡ some out)
    × ((v : Model)
        → Satisfies v (bad separated)
        → make_constraint_dnf out v ≡ false
        → IsGood separated v)
process_trace_lem_example =
    process_trace_lem size two_symbols [] separated separated_lem Ordering
      (Ordering-IsTheory separated.trace few) formulas three_solver three_solver-IsSolver 6
      (omega arith)

pub no_bad_traces : process_trace size three_solver 6 two_symbols [] ≡ some []
unfolding process_trace separate new_separated_trace push_at count_symbol split_from split_trace
    final_location note_operation link note_location note_thread note_threads close_threads
    all_conditions finish_preparation prepare_trace synth_locks_from synth_locks exclude_all
    all_distinct process_strace sequential_traces bad_traces_int filter_bad gather find_order orders
    wait_notify_order sort_by insert_by order_of find_other_traces make_constraint_conj
    make_constraint_dnf atom_expr min_unsat clash shrink core_of
no_bad_traces = refl

-- The order of the trace itself.
given : Satisfies (λ n. n) (bad separated)
unfolding separate new_separated_trace push_at count_symbol split_from split_trace final_location
    note_operation link note_location note_thread note_threads close_threads all_conditions
    finish_preparation prepare_trace synth_locks_from synth_locks exclude_all all_distinct
given = refl

no_locks : eval_cnf (obeys (λ n. n)) (locks_for [] 0) ≡ true
unfolding locks_for generate_sync not_dnf
no_locks = refl

locks_for-process_trace_example : IsGood separated (λ n. n)
locks_for-process_trace_example =
    locks_for-process_trace size two_symbols [] separated separated_lem Ordering
      (Ordering-IsTheory separated.trace few) formulas three_solver three_solver-IsSolver 6
      (omega arith) [] no_bad_traces (λ n. n) given 0 no_locks

separate-IsSeparated_example :
    (split : SeparatedTrace) × IsSplit 2 split
    × (map (λ (l : TraceLocation). l.symbol) split.trace ≡ two_symbols)
    × IsSeparated split separated
separate-IsSeparated_example = separate-IsSeparated size two_symbols [] separated separated_lem

separated-IsRecorded : IsRecorded separated
separated-IsRecorded =
    let (split, is_split, symbols, h) =
      separate-IsSeparated size two_symbols [] separated separated_lem in
    h.recorded

IsDistinct-numbers : IsDistinct (λ n. n) separated.trace
unfolding separate new_separated_trace push_at count_symbol split_from split_trace final_location
    note_operation link note_location note_thread note_threads close_threads all_conditions
    finish_preparation prepare_trace synth_locks_from synth_locks exclude_all all_distinct
IsDistinct-numbers = refl

find_order-Grounded_example :
    (c : Conj ConstraintAtom) × (find_order separated (λ n. n) true ≡ some c)
    × Grounded (λ n. n) separated.trace c
find_order-Grounded_example =
    find_order-Grounded separated (λ n. n) true separated-IsRecorded IsDistinct-numbers
