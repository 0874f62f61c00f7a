-- ===== src/Synthesis/Reorderings/Inferred.antt =====
-- `process_trace` from the symbols of a trace on: what its result says of the schedules, alone and
-- with the locks that are inferred from it.
use liss.Common.{
  some-inj, map, refl, ℕ, suc, ◌≤◌, ◌≡◌, sym, ap, ◌∙◌, subst, true, false, some, List, [], ◌∷◌, ◌+◌,
  arith, length, length-append, All, All-map,
}
use liss.Types.{Dnf}
use liss.Types.Negation.{eval_cnf}
use liss.Abstraction.Symbol.{Symbol}
use liss.Synthesis.Constraint.{
  TraceLocation, ConstraintAtom, Model, Expr, Distinct, make_constraint_dnf,
}
use liss.Synthesis.Traces.{LockSymbols}
use liss.Synthesis.Synchronisation.Sound.{InTrace, obeys}
use liss.Synthesis.Elimination.{locks_for, locks_for_eliminate}
use liss.Synthesis.Reorderings.{SeparatedTrace}
use liss.Synthesis.Reorderings.Solving.{Solver, IsSolver, Satisfies}
use liss.Synthesis.Reorderings.Process.{ProgramSize, good, bad, separate, process_trace}
use liss.Synthesis.Reorderings.Classes.{IsReduced, process_strace-classes}
use liss.Synthesis.Reorderings.Enumerate.{permutations}
use liss.Synthesis.Reorderings.Prepare.{final_location}
use liss.Synthesis.Reorderings.Separated.{IsSeparated, separate-IsSeparated}
use liss.Synthesis.Reorderings.Theory.{IsTheory}
use liss.Synthesis.Reorderings.Orders.{factorial, length-permutations}
use liss.Synthesis.Reorderings.Schedules.{
  SameConflicts, prepared, KeepsOrder-thread_order, InTrace-IsReduced, Distinct-IsReduced,
  SameConflicts-IsSequential,
}

-- Some schedule without preemption orders the conflicting accesses of the trace as this one does.
abbrev pub IsGood : SeparatedTrace → Model → Type 0
IsGood s v = (u : Model) × Satisfies u (good s) × SameConflicts u v s.trace

length-map {ℓ κ} :
    {A : Type ℓ} {B : Type κ} (f : A → B) (xs : List A) → length (map f xs) ≡ length xs
length-map f [] = refl
length-map f (x ∷ xs) = ap suc (length-map f xs)

module _ {κ} (size : ProgramSize) (trace : List Symbol) (locks : LockSymbols) (s : SeparatedTrace)
    (separated : separate size trace locks ≡ some s) (T : Expr → Type κ)
    (theory : IsTheory T s.trace) (formulas : All T (good s)) (z : Solver) (solver : IsSolver T z)
    (fuel : ℕ) (enough : factorial (suc (length trace)) ≤ fuel) where
  -- What is shown of the result.
  abbrev Inferred : Dnf ConstraintAtom → Type 0
  Inferred out =
      (process_trace size z fuel trace locks ≡ some out)
      × ((v : Model) → Satisfies v (bad s) → make_constraint_dnf out v ≡ false → IsGood s v)
      × ((v : Model)
          → Satisfies v (bad s)
          → (counter : ℕ) → eval_cnf (obeys v) (locks_for out counter) ≡ true
          → IsGood s v)

  infer : (out : Dnf ConstraintAtom) × Inferred out
  unfolding process_trace
  infer =
      let (split, is_split, symbols, h) = separate-IsSeparated size trace locks s separated in
      let p = prepared (length trace) split s is_split h in
      let (out, e, classes, all_reduced) =
        process_strace-classes s p T theory formulas z solver fuel (bounded split symbols h) in
      let described : (v : Model)
          → Satisfies v (bad s)
          → make_constraint_dnf out v ≡ false
          → IsGood s v =
        λ v feasible none_of_them.
          let (c, sequential, holds) = classes v feasible none_of_them in
          SameConflicts-IsSequential (length trace) split s is_split h v c feasible sequential
            holds in
      (
        out,
        (
          rw separated e,
          described,
          λ v feasible counter obeyed. described v feasible (
              locks_for_eliminate v split.trace out counter
                (KeepsOrder-thread_order (length trace) split s is_split h v (ground arith))
                (All-map (IsReduced s p z) (All (InTrace split.trace)) out
                  (InTrace-IsReduced (length trace) split s is_split h z v feasible) all_reduced)
                (All-map (IsReduced s p z) (All (Distinct v)) out
                  (Distinct-IsReduced (length trace) split s is_split h z v feasible) all_reduced)
                obeyed),
        ),
      )
    where
      add_one : (n : ℕ) → n + 1 ≡ suc n
      add_one n = omega arith

      bounded :
          (split : SeparatedTrace)
          → map (λ (l : TraceLocation). l.symbol) split.trace ≡ trace
          → IsSeparated split s
          → length (permutations s.trace) ≤ fuel
      bounded split symbols h = omega (
        arith,
        enough,
        length-permutations s.trace,
        ap factorial (
            ap (λ l. length l) h.same_trace
            ∙ length-append split.trace (final_location (length split.trace) ∷ [])
            ∙ add_one (length split.trace)
            ∙ ap suc (
                sym (length-map (λ (l : TraceLocation). l.symbol) split.trace)
                ∙ ap (λ l. length l) symbols)),
      )

  -- For a trace that is separated into `s`, a solver that decides a theory with the formulas of
  -- `s` and the orders of its locations, and fuel for every order of the locations,
  -- `process_trace` returns. A schedule that satisfies every formula of `s` but `sequential`,
  -- and that none of the bad traces in the result describes, orders every two conflicting
  -- accesses as some schedule does that satisfies all formulas of `s`.
  pub process_trace_lem :
      (out : Dnf ConstraintAtom) × (process_trace size z fuel trace locks ≡ some out)
      × ((v : Model) → Satisfies v (bad s) → make_constraint_dnf out v ≡ false → IsGood s v)
  process_trace_lem = let (out, (e, described, _)) = infer in (out, e, described)

  -- For a trace that is separated into `s`, a solver that decides a theory with the formulas of
  -- `s` and the orders of its locations, and fuel for every order of the locations: a schedule
  -- that satisfies every formula of `s` but `sequential`, and that obeys one lock of each
  -- disjunction inferred from the result of `process_trace`, orders every two conflicting
  -- accesses as some schedule does that satisfies all formulas of `s`.
  pub locks_for-process_trace :
      (out : Dnf ConstraintAtom)
      → process_trace size z fuel trace locks ≡ some out
      → (v : Model) → Satisfies v (bad s)
      → (counter : ℕ) → eval_cnf (obeys v) (locks_for out counter) ≡ true
      → IsGood s v
  locks_for-process_trace out e v feasible counter obeyed =
      let (out', (e', _, good_locks)) = infer in
      good_locks v feasible counter (
        subst (λ d. eval_cnf (obeys v) (locks_for d counter) ≡ true) (some-inj (sym e ∙ e')) obeyed)
