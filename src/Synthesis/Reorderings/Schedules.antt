-- ===== src/Synthesis/Reorderings/Schedules.antt =====
-- The feasible schedules of a separated trace: they keep the order of the threads, and what is found
-- in one of them says how another orders the conflicting accesses.
use mathlib.Core.List.Memᴰ
use liss.Common.{
  some-inj, ℕ, ◌≤◌, ◌<◌, ◌≡◌, inl, inr, sym, ap, ◌∙◌, subst, true, false, List, some, arith, ltb,
  length, get_elem?, All, All-mem, All-of_mem, All-get_elem?, Bool-cases, Memᴰ,
}
use liss.Types.{Conj}
use liss.Synthesis.Constraint.{
  TraceLocation, ConstraintAtom, Model, Distinct, thread_of, instruction_id, atom_expr,
}
use liss.Synthesis.Synchronisation.Sound.{KeepsOrder, InTrace}
use liss.Synthesis.Reorderings.{SeparatedTrace, sort_by, find_order}
use liss.Synthesis.Reorderings.Prepare.{final_location}
use liss.Synthesis.Reorderings.Sorted.{
  IsSorted, sorted_agree, sort_by-IsSorted, mem-sort_by, sort_by_mem,
}
use liss.Synthesis.Reorderings.Accesses.{Conflict, Agrees, Holds, Located, IsOrdered}
use liss.Synthesis.Reorderings.Fixed.{orders_fix}
use liss.Synthesis.Reorderings.Conflicts.{IsDistinct-mem}
use liss.Synthesis.Reorderings.Solving.{Solver, Satisfies}
use liss.Synthesis.Reorderings.Process.{good, good_weak, bad}
use liss.Synthesis.Reorderings.Core.{min_unsat_mem}
use liss.Synthesis.Reorderings.Classes.{IsPrepared, IsSequential, IsReduced}
use liss.Synthesis.Reorderings.Threads.{IsSplit, IsNamed, position}
use liss.Synthesis.Reorderings.Separated.{IsSeparated}

-- Two schedules order every two conflicting accesses of the trace in the same way.
abbrev pub SameConflicts : Model → Model → List TraceLocation → Type 0
SameConflicts u v trace =
    (a b : TraceLocation)
    → Memᴰ a trace
    → Memᴰ b trace
    → Conflict a b
    → u a.name < u b.name
    → v a.name < v b.name

module _ (counter : ℕ) (split s : SeparatedTrace) (is_split : IsSplit counter split)
    (separated : IsSeparated split s) where
  pub prepared : IsPrepared s
  prepared = record { recorded = separated.recorded; distinct_lem = separated.distinct_lem }

  -- A location that has a symbol is not the final one.
  without_final : (l : TraceLocation) → Located s.trace l → Memᴰ l split.trace
  without_final l (m, valid) =
      elim (Memᴰ.append_cases split.trace (subst (Memᴰ l) separated.same_trace m)) [
        | inl n ↦ n
        | inr n ↦ absurd (clash (Memᴰ.eq_of_singleton n))
      ]
    where
      clash : l ≡ final_location (length split.trace) → ⊥
      clash e = ground (arith, has_none (ap (λ (x : TraceLocation). x.symbol_valid) e))
        where
          has_none :
              l.symbol_valid ≡ (final_location (length split.trace)).symbol_valid
              → l.symbol_valid ≡ false
          has_none q = unfold final_location in q

  -- Two locations of one thread stand in one list, which is sorted in every feasible schedule.
  one_thread :
      (a b : TraceLocation)
      → Memᴰ a split.trace
      → Memᴰ b split.trace
      → thread_of a ≡ thread_of b
      → (th : List TraceLocation) × Memᴰ a th
        × Memᴰ b th
        × IsSorted position th
        × ((v : Model) → s.thread_order v ≡ true → IsSorted v th)
  one_thread a b ma mb same =
      let (th, at_a, in_a) = is_split.placed a ma in
      let (th', at_b, in_b) = is_split.placed b mb in
      (
        th,
        in_a,
        subst (Memᴰ b) (same_list th th' at_a at_b) in_b,
        (is_split.threads (thread_of a) th at_a).1,
        λ v h.
            All-get_elem? (IsSorted v) s.threaded_trace (thread_of a) th (separated.ordered v h)
              (subst (λ t. get_elem? t (thread_of a) ≡ some th) (sym separated.same_threads) at_a),
      )
    where
      same_list :
          (th th' : List TraceLocation)
          → get_elem? split.threaded_trace (thread_of a) ≡ some th
          → get_elem? split.threaded_trace (thread_of b) ≡ some th'
          → th' ≡ th
      same_list th th' at_a at_b =
          some-inj (sym at_b ∙ ap (get_elem? split.threaded_trace) (sym same) ∙ at_a)

  Agrees-thread_order :
      (u v : Model) → s.thread_order u ≡ true → s.thread_order v ≡ true → Agrees u v s.trace
  Agrees-thread_order u v hu hv a b ma mb va vb same lt =
      let (th, in_a, in_b, _, sorted) =
        one_thread a b (without_final a (ma, va)) (without_final b (mb, vb)) same in
      sorted_agree u v th a b (sorted u hu) (sorted v hv) in_a in_b lt

  pub KeepsOrder-thread_order : (v : Model) → s.thread_order v ≡ true → KeepsOrder v split.trace
  KeepsOrder-thread_order v hv =
      All-of_mem
        (λ l.
          All
            (λ m.
              thread_of l ≡ thread_of m → instruction_id l ≤ instruction_id m → v l.name ≤ v m.name)
            split.trace)
        split.trace
        (λ l in_l.
          All-of_mem
            (λ m.
              thread_of l ≡ thread_of m → instruction_id l ≤ instruction_id m → v l.name ≤ v m.name)
            split.trace (λ m in_m same le. kept l m in_l in_m same le))
    where
      kept :
          (l m : TraceLocation)
          → Memᴰ l split.trace
          → Memᴰ m split.trace
          → thread_of l ≡ thread_of m
          → instruction_id l ≤ instruction_id m
          → v l.name ≤ v m.name
      kept l m in_l in_m same le =
          let (th, at_l, at_m, by_position, sorted) = one_thread l m in_l in_m same in
          let (_, number_l, _) = All-mem (IsNamed counter) split.trace l is_split.named in_l in
          let (_, number_m, _) = All-mem (IsNamed counter) split.trace m is_split.named in_m in
          by_name (omega (arith, le, number_l, number_m))
            (λ lt. sorted_agree position v th l m by_position (sorted v hv) at_l at_m lt)
        where
          by_name : l.name ≤ m.name → (l.name < m.name → v l.name < v m.name) → v l.name ≤ v m.name
          by_name h f = elim (Bool-cases (ltb l.name m.name)) [
            | inl lt ↦ omega (arith, f (ground arith))
            | inr ge ↦ omega (arith, ap v (equal ge))
          ]
            where
              equal : ltb l.name m.name ≡ false → l.name ≡ m.name
              equal c = ground arith

  -- What is found in a schedule lies in the trace, and its ends are kept apart in every feasible one.
  module _ (z : Solver) (v : Model) (feasible : Satisfies v (bad s)) where
    pub InTrace-IsReduced :
        (c : Conj ConstraintAtom) → IsReduced s prepared z c → All (InTrace split.trace) c
    InTrace-IsReduced c (u, full, e, grounded, same) =
        All-of_mem (InTrace split.trace) c (λ x m. inside x (in_full x m))
      where
        in_full : (x : ConstraintAtom) → Memᴰ x c → Memᴰ x full
        in_full x m = min_unsat_mem z (good_weak s) atom_expr full x (subst (Memᴰ x) same m)

        inside : (x : ConstraintAtom) → Memᴰ x full → InTrace split.trace x
        inside x m =
            let (before, after, _) = All-mem (IsOrdered u s.trace) full x grounded m in
            (without_final x.before before, without_final x.after after)

    pub Distinct-IsReduced :
        (c : Conj ConstraintAtom) → IsReduced s prepared z c → All (Distinct v) c
    Distinct-IsReduced c (u, full, e, grounded, same) =
        All-of_mem (Distinct v) c
          (λ x m. apart x (min_unsat_mem z (good_weak s) atom_expr full x (subst (Memᴰ x) same m)))
      where
        apart : (x : ConstraintAtom) → Memᴰ x full → Distinct v x
        apart x m =
            let ((in_before, _), (in_after, _), lt) =
              All-mem (IsOrdered u s.trace) full x grounded m in
            elim (IsDistinct-mem v s.trace x.before x.after
              (separated.distinct_lem v (ground arith)) in_before in_after) [
                | inl e' ↦ absurd (omega (arith, lt, ap (λ (l : TraceLocation). u l.name) e'))
                | inr d ↦ d
              ]

  -- A schedule that the order of a good schedule describes has the conflicts of that one.
  pub SameConflicts-IsSequential :
      (v : Model) (c : Conj ConstraintAtom)
      → Satisfies v (bad s)
      → IsSequential s prepared c
      → Holds v c
      → (u : Model) × Satisfies u (good s) × SameConflicts u v s.trace
  unfolding find_order
  SameConflicts-IsSequential v c feasible (u, is_good, e) h = (
    u,
    is_good,
    λ a b ma mb conflict lt.
        orders_fix u v a b s.trace (sort_by u s.trace)
          (Agrees-thread_order u v (ground arith) (ground arith)) (λ m n. sort_by_mem u s.trace m n)
          (sort_by-IsSorted u s.trace (separated.distinct_lem u (ground arith)))
          (mem-sort_by u s.trace a ma) (mem-sort_by u s.trace b mb) conflict lt
          (subst (Holds v) (sym (some-inj e)) h),
  )
