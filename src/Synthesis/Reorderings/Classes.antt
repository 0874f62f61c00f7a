-- ===== src/Synthesis/Reorderings/Classes.antt =====
-- `process_trace` over a prepared trace: what the bad traces say of the schedules.
use liss.Common.{
  some-inj, ℕ, ◌≤◌, ◌<◌, ◌≡◌, inl, inr, refl, sym, ◌∙◌, subst, Bool, true, false, List, [], ◌∷◌,
  some, arith, all, length, All, All-append, All-map, All-mem, All-of_mem, any_exists, Bool-cases,
  Memᴰ,
}
use liss.Types.{Conj, Dnf}
use liss.Synthesis.Constraint.{
  TraceLocation, ConstraintAtom, Model, Expr, atom_expr, atom_holds, make_constraint_conj,
  make_constraint_conj_lem, make_constraint_dnf, make_constraint_dnf_lem,
}
use liss.Synthesis.Reorderings.{SeparatedTrace, sort_by, find_order}
use liss.Synthesis.Reorderings.Sorted.{
  IsDistinct, IsSorted, sorted_agree, sort_by-IsSorted, mem-sort_by,
}
use liss.Synthesis.Reorderings.Accesses.{Holds, Grounded, IsOrdered, Grounded-Holds, Grounded-agree}
use liss.Synthesis.Reorderings.Conflicts.{IsRecorded, find_order-Grounded}
use liss.Synthesis.Reorderings.Solving.{Solver, IsSolver, Satisfies, min_unsat}
use liss.Synthesis.Reorderings.Core.{
  all-mem, all-of_mem, min_unsat_mem, min_unsat_failed, min_unsat-clash, clash_false,
}
use liss.Synthesis.Reorderings.Process.{
  negated, good, good_weak, bad, bad_base, reduced, sequential_traces, bad_traces_int, filter_bad,
  process_strace,
}
use liss.Synthesis.Reorderings.Theory.{
  IsTheory, Within, make_constraint_conj_decided, make_constraint_dnf_decided,
}
use liss.Synthesis.Reorderings.Enumerate.{
  permutations, sort_by-permutations, covers, Determined, Gathers, gather-Gathers,
}

all-negated :
    (v : Model) (l : Dnf ConstraintAtom)
    → covers l v ≡ false
    → all (λ c. negated (make_constraint_conj c) v) l ≡ true
all-negated v [] h = refl
all-negated v (c ∷ l) h = ground (arith, make_constraint_conj_lem c v, all-negated v l)

-- A prepared trace: what the loops recorded are locations of it, and the formula `distinct` keeps
-- their numbers apart.
pub record IsPrepared (s : SeparatedTrace) : Type 0 where
  pub recorded : IsRecorded s
  pub distinct_lem : (v : Model) → s.distinct v ≡ true → IsDistinct v s.trace

module _ (s : SeparatedTrace) (prepared : IsPrepared s) where
  -- Two models with one order of the trace agree on any two of its locations.
  same_order :
      (u v : Model)
      → IsDistinct u s.trace
      → IsDistinct v s.trace
      → sort_by u s.trace ≡ sort_by v s.trace
      → (a b : TraceLocation) → Memᴰ a s.trace
      → Memᴰ b s.trace
      → u a.name < u b.name
      → v a.name < v b.name
  same_order u v du dv e a b ma mb lt =
      sorted_agree u v (sort_by u s.trace) a b (sort_by-IsSorted u s.trace du)
        (subst (IsSorted v) (sym e) (sort_by-IsSorted v s.trace dv)) (mem-sort_by u s.trace a ma)
        (mem-sort_by u s.trace b mb) lt

  Holds-subset :
      (v : Model) (c d : Conj ConstraintAtom)
      → ((x : ConstraintAtom) → Memᴰ x d → Memᴰ x c)
      → Holds v c
      → Holds v d
  Holds-subset v c d sub h =
      all-of_mem (atom_holds v) d (λ x m. all-mem (atom_holds v) c x h (sub x m))

  -- The order of the trace in a model determines what `find_order` finds, up to what holds.
  find_order-Determined :
      (z : Solver) (base : List Expr) (wait_notify : Bool)
      (reduce : Conj ConstraintAtom → Conj ConstraintAtom) (Q : Conj ConstraintAtom → Type 0)
      → ((v : Model) → Satisfies v base → IsDistinct v s.trace)
      → ((c : Conj ConstraintAtom) (x : ConstraintAtom) → Memᴰ x (reduce c) → Memᴰ x c)
      → Determined z base (λ v. find_order s v wait_notify) reduce (λ v. sort_by v s.trace) Q
  find_order-Determined z base wait_notify reduce Q apart sub u v hu hv e =
      let (c, p, g) = find_order-Grounded s u wait_notify prepared.recorded (apart u hu) in
      (
        c,
        p,
        Holds-subset v c (reduce c) (sub c) (
            Grounded-Holds v s.trace c
              (Grounded-agree u v s.trace c (same_order u v (apart u hu) (apart v hv) e) g)),
      )

  good-IsDistinct : (v : Model) → Satisfies v (good s) → IsDistinct v s.trace
  good-IsDistinct v h = prepared.distinct_lem v (ground arith)

  bad-IsDistinct : (v : Model) → Satisfies v (bad s) → IsDistinct v s.trace
  bad-IsDistinct v h = prepared.distinct_lem v (ground arith)

  -- A conjunction that is the order of a good schedule.
  abbrev pub IsSequential : Conj ConstraintAtom → Type 0
  IsSequential c = (u : Model) × Satisfies u (good s) × (find_order s u false ≡ some c)

  -- A conjunction that is reduced from how a schedule orders locations of the trace.
  abbrev pub IsReduced : Solver → Conj ConstraintAtom → Type 0
  IsReduced z c =
      (u : Model) × (full : Conj ConstraintAtom) × (find_order s u true ≡ some full)
      × Grounded u s.trace full
      × (c ≡ reduced z s full)

  -- What a schedule without preemption orders is within the trace.
  Within-IsSequential : (c : Conj ConstraintAtom) → IsSequential c → All (Within s.trace) c
  Within-IsSequential c (u, is_good, e) =
      let (c', e', g) =
        find_order-Grounded s u false prepared.recorded (good-IsDistinct u is_good) in
      All-map (IsOrdered u s.trace) (Within s.trace) c (λ a h. (h.0.0, h.1.0))
        (subst (Grounded u s.trace) (some-inj (sym e' ∙ e)) g)

  Within-IsReduced : (z : Solver) (c : Conj ConstraintAtom) → IsReduced z c → All (Within s.trace) c
  Within-IsReduced z c (u, full, e, g, same) = All-of_mem (Within s.trace) c (λ a m.
      let h =
        All-mem (IsOrdered u s.trace) full a g
          (min_unsat_mem z (good_weak s) atom_expr full a (subst (Memᴰ a) same m)) in
      (h.0.0, h.1.0))

  module _ {κ} (T : Expr → Type κ) (theory : IsTheory T s.trace) (formulas : All T (good s))
      (z : Solver) (solver : IsSolver T z) (fuel : ℕ)
      (enough : length (permutations s.trace) ≤ fuel) where
    blocks_decided :
        (c : Conj ConstraintAtom) → All (Within s.trace) c → T (negated (make_constraint_conj c))
    blocks_decided c h =
        theory.negated_lem (make_constraint_conj c)
          (make_constraint_conj_decided T s.trace theory c h)

    bad_decided : All T (bad s)
    bad_decided =
        let (order, (distinct, (locks, (conditionals, (_, (synth_locks, _)))))) = formulas in
        (order, (distinct, (locks, (conditionals, (synth_locks, tt)))))

    bad_base_decided :
        (seq_traces : Dnf ConstraintAtom)
        → All IsSequential seq_traces
        → All T (bad_base s seq_traces)
    bad_base_decided seq_traces q =
        All-append T (bad s) (negated (make_constraint_dnf seq_traces) ∷ []) bad_decided (
          theory.negated_lem (make_constraint_dnf seq_traces) (
              make_constraint_dnf_decided T s.trace theory seq_traces
                (All-map IsSequential (All (Within s.trace)) seq_traces Within-IsSequential q)),
          tt,
        )

    sequential_traces-Gathers :
        Gathers z
          (good s)
          (λ v. find_order s v false)
          (λ c. c)
          (λ v. sort_by v s.trace)
          IsSequential
          (sequential_traces z s fuel)
    unfolding sequential_traces
    sequential_traces-Gathers =
        gather-Gathers z (good s) (λ v. find_order s v false) (λ c. c) (λ v. sort_by v s.trace)
          IsSequential T solver formulas (λ c h. blocks_decided c (Within-IsSequential c h))
          (find_order-Determined z (good s) false (λ c. c) IsSequential good-IsDistinct
            (λ c x m. m))
          (λ u c h e. (u, h, e)) fuel [] (permutations s.trace) enough
          (λ v h open'. sort_by-permutations v s.trace) tt

    bad_base-bad :
        (seq_traces : Dnf ConstraintAtom) (v : Model)
        → Satisfies v (bad_base s seq_traces)
        → Satisfies v (bad s)
    bad_base-bad seq_traces v h = ground arith

    reduced_mem : (c : Conj ConstraintAtom) (x : ConstraintAtom) → Memᴰ x (reduced z s c) → Memᴰ x c
    reduced_mem c x m = min_unsat_mem z (good_weak s) atom_expr c x m

    bad_traces_int-Gathers :
        (seq_traces : Dnf ConstraintAtom)
        → All IsSequential seq_traces
        → Gathers z
            (bad_base s seq_traces)
            (λ v. find_order s v true)
            (reduced z s)
            (λ v. sort_by v s.trace)
            (IsReduced z)
            (bad_traces_int z s seq_traces fuel)
    unfolding bad_traces_int
    bad_traces_int-Gathers seq_traces all_good =
        gather-Gathers z (bad_base s seq_traces) (λ v. find_order s v true) (reduced z s)
          (λ v. sort_by v s.trace) (IsReduced z) T solver (bad_base_decided seq_traces all_good)
          (λ c h. blocks_decided c (Within-IsReduced z c h))
          (find_order-Determined z (bad_base s seq_traces) true (reduced z s) (IsReduced z)
            (λ v h. bad-IsDistinct v (bad_base-bad seq_traces v h)) reduced_mem)
          (λ u c h e.
            let (c', e', g) =
              find_order-Grounded s u true prepared.recorded
                (bad-IsDistinct u (bad_base-bad seq_traces u h)) in
            (u, c, e, subst (Grounded u s.trace) (some-inj (sym e' ∙ e)) g, refl))
          fuel [] (permutations s.trace) enough (λ v h open'. sort_by-permutations v s.trace) tt

    filter_bad_mem :
        (seq_traces found : Dnf ConstraintAtom) (c : Conj ConstraintAtom)
        → Memᴰ c (filter_bad z s seq_traces found)
        → Memᴰ c found
    filter_bad_mem seq_traces found c m =
        min_unsat_mem z (bad_base s seq_traces) (λ c. negated (make_constraint_conj c)) found c
          (unfold filter_bad in m)

    All-blocks :
        (found : Dnf ConstraintAtom)
        → All (IsReduced z) found
        → All (λ c. T (negated (make_constraint_conj c))) found
    All-blocks found q =
        All-map (IsReduced z) (λ c. T (negated (make_constraint_conj c))) found
          (λ c h. blocks_decided c (Within-IsReduced z c h)) q

    -- Filtering keeps the schedules that are described.
    covers-filter_bad :
        (seq_traces found : Dnf ConstraintAtom)
        → All IsSequential seq_traces
        → All (IsReduced z) found
        → ((v : Model) → Satisfies v (bad_base s seq_traces) → covers found v ≡ true)
        → (v : Model) → Satisfies v (bad_base s seq_traces)
        → covers (filter_bad z s seq_traces found) v ≡ true
    unfolding filter_bad
    covers-filter_bad seq_traces found q q' all_of_them v h =
        elim (Bool-cases
          (min_unsat z (bad_base s seq_traces) (λ c. negated (make_constraint_conj c)) found).1) [
            | inr failed ↦
                subst (λ l. covers l v ≡ true)
                  (sym (
                    min_unsat_failed z (bad_base s seq_traces)
                      (λ c. negated (make_constraint_conj c)) found failed))
                  (all_of_them v h)
            | inl done ↦ elim (Bool-cases (covers (filter_bad z s seq_traces found) v)) [
              | inl covered ↦ covered
              | inr open' ↦ absurd (
                  clash_false z (bad_base s seq_traces) (λ c. negated (make_constraint_conj c)) T
                    solver (bad_base_decided seq_traces q) (filter_bad z s seq_traces found) v
                    (All-of_mem (λ c. T (negated (make_constraint_conj c)))
                      (filter_bad z s seq_traces found)
                      (λ c m.
                        All-mem (λ c. T (negated (make_constraint_conj c))) found c
                          (All-blocks found q') (filter_bad_mem seq_traces found c m)))
                    (min_unsat-clash z (bad_base s seq_traces)
                      (λ c. negated (make_constraint_conj c)) T solver
                      (bad_base_decided seq_traces q) found (All-blocks found q') done)
                    h (all-negated v (filter_bad z s seq_traces found) open'))
            ]
          ]

    -- With fuel for every order of the trace, `process_strace` returns. A schedule that none of the
    -- bad traces describes is described by the order of a good one.
    pub process_strace-classes :
        (out : Dnf ConstraintAtom) × (process_strace z s fuel ≡ some out)
        × ((v : Model)
            → Satisfies v (bad s)
            → make_constraint_dnf out v ≡ false
            → (c : Conj ConstraintAtom) × IsSequential c × Holds v c)
        × All (IsReduced z) out
    unfolding process_strace
    process_strace-classes =
        let (seq_traces, e, all_seq, q) = sequential_traces-Gathers in
        let (found, e', all_bad, q') = bad_traces_int-Gathers seq_traces q in
        (
          filter_bad z s seq_traces found,
          rw (e, e') refl,
          λ v h open'.
              classified seq_traces q v (elim (Bool-cases (make_constraint_dnf seq_traces v)) [
                | inl covered ↦ covered
                | inr rest ↦ absurd (
                    described seq_traces found v open' (
                      covers-filter_bad seq_traces found q q' all_bad v
                        (with_negated seq_traces v h rest)))
              ]),
          All-of_mem (IsReduced z) (filter_bad z s seq_traces found)
              (λ c m. All-mem (IsReduced z) found c q' (filter_bad_mem seq_traces found c m)),
        )
      where
        with_negated :
            (seq_traces : Dnf ConstraintAtom) (v : Model)
            → Satisfies v (bad s)
            → make_constraint_dnf seq_traces v ≡ false
            → Satisfies v (bad_base s seq_traces)
        with_negated seq_traces v h e = ground arith

        described :
            (seq_traces found : Dnf ConstraintAtom) (v : Model)
            → make_constraint_dnf (filter_bad z s seq_traces found) v ≡ false
            → covers (filter_bad z s seq_traces found) v ≡ true
            → ⊥
        described seq_traces found v open' covered =
            ground (arith, make_constraint_dnf_lem (filter_bad z s seq_traces found) v)

        classified :
            (seq_traces : Dnf ConstraintAtom)
            → All IsSequential seq_traces
            → (v : Model) → make_constraint_dnf seq_traces v ≡ true
            → (c : Conj ConstraintAtom) × IsSequential c × Holds v c
        classified seq_traces q v e =
            let (c, m, holds) =
              any_exists (all (atom_holds v)) seq_traces
                (sym (make_constraint_dnf_lem seq_traces v) ∙ e) in
            (c, All-mem IsSequential seq_traces c q m, holds)
