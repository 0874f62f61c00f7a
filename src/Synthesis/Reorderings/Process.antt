-- ===== src/Synthesis/Reorderings/Process.antt =====
-- `process_trace` of synthesis/reorderings.cpp over a solver: the orders of the good schedules, and
-- the constraints that describe the bad ones. `none` is a failed assertion, an index out of range or
-- the end of the fuel. What runs with `SANITY` or prints is left out.
use liss.Common.{ℕ, zero, suc, true, false, not, List, [], ◌∷◌, ◌++◌, Option, none, some, map}
use liss.Types.{Conj, Dnf}
use liss.Abstraction.Symbol.{Symbol}
use liss.Synthesis.Constraint.{
  ConstraintAtom, Model, Expr, atom_expr, make_constraint_conj, make_constraint_dnf,
}
use liss.Synthesis.Traces.{LockSymbols, ◌>>=◌}
use liss.Synthesis.Reorderings.{SeparatedTrace, new_separated_trace, split_trace, find_order}
use liss.Synthesis.Reorderings.Prepare.{prepare_trace}
use liss.Synthesis.Reorderings.Forbidden.{synth_locks}
use liss.Synthesis.Reorderings.Solving.{Solver, min_unsat}

-- What is counted in the program.
pub record ProgramSize : Type 0 where
  pub no_variables : ℕ
  pub no_conditionals : ℕ
  pub no_locks : ℕ
  pub no_threads : ℕ

abbrev pub negated : Expr → Expr
negated e v = not (e v)

-- The formulas of `slv_good`, `slv_good_weak` and, at first, `slv_bad`.
abbrev pub good : SeparatedTrace → List Expr
good s = s.thread_order ∷ s.distinct ∷ s.locks ∷ s.conditionals ∷ s.sequential ∷ s.synth_locks ∷ []

abbrev pub good_weak : SeparatedTrace → List Expr
good_weak s = s.thread_order ∷ s.distinct ∷ s.locks ∷ s.sequential ∷ s.synth_locks ∷ []

abbrev pub bad : SeparatedTrace → List Expr
bad s = s.thread_order ∷ s.distinct ∷ s.locks ∷ s.conditionals ∷ s.synth_locks ∷ []

abbrev pub blocked : Dnf ConstraintAtom → List Expr
blocked d = map (λ c. negated (make_constraint_conj c)) d

-- The loop that gathers the constraints of schedules: each is found in a model, changed by `reduce`,
-- and excluded from then on.
unfoldable pub gather :
    Solver
    → List Expr
    → (Model → Option (Conj ConstraintAtom))
    → (Conj ConstraintAtom → Conj ConstraintAtom)
    → ℕ
    → Dnf ConstraintAtom
    → Option (Dnf ConstraintAtom)
gather z base order reduce zero found = elim (z.check (base ++ blocked found)) [
  | none ↦ some found
  | some v ↦ none
]
gather z base order reduce (suc fuel) found = elim (z.check (base ++ blocked found)) [
  | none ↦ some found
  | some v ↦ elim (order v) [
    | none ↦ none
    | some c ↦ gather z base order reduce fuel (found ++ reduce c ∷ [])
  ]
]

unfoldable pub sequential_traces : Solver → SeparatedTrace → ℕ → Option (Dnf ConstraintAtom)
unfolding gather
sequential_traces z strace fuel =
    gather z (good strace) (λ v. find_order strace v false) (λ c. c) fuel []

abbrev pub bad_base : SeparatedTrace → Dnf ConstraintAtom → List Expr
bad_base strace seq_traces = bad strace ++ negated (make_constraint_dnf seq_traces) ∷ []

-- If the weak solver finds a schedule, the constraint stays as it is.
abbrev pub reduced : Solver → SeparatedTrace → Conj ConstraintAtom → Conj ConstraintAtom
reduced z strace c = (min_unsat z (good_weak strace) atom_expr c).0

unfoldable pub bad_traces_int :
    Solver → SeparatedTrace → Dnf ConstraintAtom → ℕ → Option (Dnf ConstraintAtom)
unfolding gather
bad_traces_int z strace seq_traces fuel =
    gather z (bad_base strace seq_traces) (λ v. find_order strace v true) (reduced z strace) fuel []

-- The constraints that are not needed are filtered out at the end.
unfoldable pub filter_bad :
    Solver → SeparatedTrace → Dnf ConstraintAtom → Dnf ConstraintAtom → Dnf ConstraintAtom
filter_bad z strace seq_traces found =
    (min_unsat z (bad_base strace seq_traces) (λ c. negated (make_constraint_conj c)) found).0

-- The trace with its constraints.
unfoldable pub separate : ProgramSize → List Symbol → LockSymbols → Option SeparatedTrace
separate size trace synthesised_locks =
    split_trace size.no_threads trace
      (new_separated_trace size.no_variables size.no_conditionals size.no_threads)
    >>= λ split. prepare_trace size.no_locks size.no_threads split >>= λ strace.
        synth_locks strace synthesised_locks

-- From the solvers on.
unfoldable pub process_strace : Solver → SeparatedTrace → ℕ → Option (Dnf ConstraintAtom)
unfolding sequential_traces bad_traces_int filter_bad
process_strace z strace fuel = sequential_traces z strace fuel >>= λ seq_traces.
    bad_traces_int z strace seq_traces fuel >>= λ found. some (filter_bad z strace seq_traces found)

unfoldable pub process_trace :
    ProgramSize → Solver → ℕ → List Symbol → LockSymbols → Option (Dnf ConstraintAtom)
unfolding separate process_strace
process_trace size z fuel trace synthesised_locks =
    separate size trace synthesised_locks >>= λ strace. process_strace z strace fuel
