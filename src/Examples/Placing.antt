-- ===== src/Examples/Placing.antt =====
-- Two threads that read a variable in a loop and then wait, one lock round the reads, and what the
-- constraints and the optimiser make of it.
use liss.Common.{
  sym, ◌∙◌, get_elem?, Bool, ◌<◌, ℕ, ◌+◌, ◌*◌, ◌≡◌, refl, inl, inr, subst, true, false, ◌&&◌, List,
  [], ◌∷◌, Option, none, some, Memᴰ, arith, all, if◌then◌else◌, Bool-cases, some-inj, is_empty,
}
use liss.Abstraction.Symbol.{Location, read, wait, location_eq, is_unlockable_point}
use liss.Synthesis.Traces.{LockLists}
use liss.Cfg.Graph.{dummy_state, action_state, get_state}
use liss.Placement.{
  Formula, at, SinglePlacement, LockType, lock, unlock, PositionType, before, after,
  absolute_minimum, small_locks, coarse, unoptimized, max_pairwise_concurrency,
}
use liss.Placement.Constraints.{states_of, locked_together}
use liss.Placement.Rules.{Satisfies}
use liss.Placement.Invariant.{IsHeld, Reachable-IsHeld}
use liss.Placement.Safe.{IsOrdered, Holder, Reachable-IsOrdered, no_deadlock}
use liss.Placement.Exclusion.{locked_by, is_inside, mutual_exclusion, unlocked_at_preemption}
use liss.Placement.Cost.{Soft, penalty, separations, coarse_costs}
use liss.Placement.Penalty.{cost, penalty-cost_model}
use liss.Placement.Result.{
  FuncEntry, FuncInterp, constant, function, Model, Setting, find_locks, max_locks, read_result,
  read_model, read_placements, func_result, func_result_impl, result_to_locklist, remove_duplicates,
  remove_from, erase_same, is_same, site, get_statistics,
}
use liss.Placement.Duplicates.{IsReduced, remove_duplicates-IsReduced}
use liss.Placement.Listed.{AreSeparate}
use liss.Placement.Readable.{IsLocated}
use liss.Placement.Interpreted.{Ends, IsInterp, IsInterpreted, value_or}
use liss.Placement.Implemented.{ReadOutcome, read_result-HasPlacement}
use liss.Placement.Outcome.{IsSorted, IsOptimizer, PlacementOutcome, find_locks-PlacementOutcome}
use liss.Examples.Data.{make_symbol}
use liss.Examples.Placed.{
  read_at, reader, readers, conflict, round_read, one_lock, one_lock-Satisfies, readers-AreLaidOut,
  before_read, in_read, before_read-Reachable, in_read-Reachable, in_wait, in_wait-Reachable,
}

Reachable-IsHeld_example : IsHeld one_lock 1 readers in_read
Reachable-IsHeld_example =
    Reachable-IsHeld one_lock 1 readers readers-AreLaidOut one_lock-Satisfies in_read-Reachable

Reachable-IsOrdered_example : IsOrdered one_lock before_read 0
Reachable-IsOrdered_example =
    Reachable-IsOrdered one_lock 1 readers readers-AreLaidOut one_lock-Satisfies
      before_read-Reachable 0 (reader 0) refl

no_deadlock_example : Holder one_lock 1 readers in_read
no_deadlock_example =
    no_deadlock one_lock 1 readers readers-AreLaidOut one_lock-Satisfies in_read-Reachable 0 0 refl

unlocked_at_preemption_example : in_wait.held 0 0 ≡ false
unfolding action_state is_unlockable_point
unlocked_at_preemption_example =
    unlocked_at_preemption one_lock 1 readers readers-AreLaidOut one_lock-Satisfies
      in_wait-Reachable 0 (reader 0) refl (some 2) 3 (action_state (make_symbol wait 1 0 3))
      (make_symbol wait 1 0 3) refl (omega arith, refl) refl refl 0

-- The only disjunction, and its only conjunction.
abbrev two_reads : LockLists
two_reads = (make_symbol read 0 0 2 ∷ []) ∷ (make_symbol read 0 1 2 ∷ []) ∷ []

conflict-Satisfies : Satisfies one_lock (locked_together 0 conflict)
unfolding locked_together
conflict-Satisfies = refl

mutual_exclusion_example :
    (lplaces : LockLists) × ((locked_by one_lock 0 (two_reads ∷ []) ≡ some lplaces)
      × Memᴰ lplaces (two_reads ∷ [])
      × ((is_inside 0 (in_read.point 0) lplaces && is_inside 1 (in_read.point 1) lplaces) ≡ false))
mutual_exclusion_example =
    mutual_exclusion one_lock 1 readers readers-AreLaidOut one_lock-Satisfies conflict
      conflict-Satisfies 0 (two_reads ∷ []) refl (omega arith) in_read-Reachable 0 1 (reader 0)
      (reader 1) refl refl (λ e. omega (arith, e))

-- The model of the optimiser: two entries for each of two functions.
abbrev entry_at : ℕ → FuncEntry
entry_at t = record { location = at t 2; lock_number = 0; value = true }

abbrev two_entries : FuncInterp
two_entries = record { entries = entry_at 0 ∷ entry_at 1 ∷ []; else_value = constant false }

abbrev no_entries : FuncInterp
no_entries = record { entries = []; else_value = constant false }

abbrev one_model : Model
one_model = record {
  values = one_lock;
  lock_a = no_entries;
  lock_b = two_entries;
  unlock_a = two_entries;
  unlock_b = no_entries;
  others = λ k. no_entries;
}

-- The entries of the two functions that are true somewhere.
two_entries-values :
    (x : Location) (l : ℕ) → value_or false two_entries.entries x l ≡ round_read x l
unfolding location_eq
two_entries-values x l = ground arith

entry_at-IsLocated :
    (t : ℕ) (e : FuncEntry)
    → get_elem? readers t ≡ some (reader t)
    → e ≡ entry_at t
    → (e.lock_number < 1) × IsLocated readers e.location
entry_at-IsLocated t e there q =
    subst (λ (x : FuncEntry). (x.lock_number < 1) × IsLocated readers x.location) (sym q)
      (
        omega arith,
        record {
          thread = t;
          state = 2;
          graph = reader t;
          content = read_at t;
          same = refl;
          there = there;
          has = (omega arith, refl);
        },
      )

-- The chain of an interpretation that is false elsewhere is that interpretation.
Ends-false :
    (f : FuncInterp) (k : ℕ) (es : List FuncEntry) (b : Bool)
    → f.else_value ≡ constant false
    → Ends (λ i. no_entries) k f es b
    → (es ≡ f.entries) × (b ≡ false)
Ends-false f k es b e (Ends.at_once n g c q) = (refl, constant-inj (sym q ∙ e))
  where
    constant-inj : {x y : Bool} → constant x ≡ constant y → x ≡ y
    constant-inj h = cc
Ends-false f k es b e (Ends.goes_on n name g fs c q h) =
    let clash : function name ≡ constant false = sym q ∙ e in cc

true_there : IsInterp readers 1 one_model two_entries round_read
unfolding location_eq
true_there = record {
  separate = λ k es b ends.
      let (q, _) = Ends-false two_entries k es b refl ends in
      subst AreSeparate (sym q) (refl, (refl, tt));
  values = λ k es b ends x l.
      let (q, r) = Ends-false two_entries k es b refl ends in
      subst (λ (d : Bool). value_or d es x l ≡ round_read x l) (sym r)
        (subst (λ ds. value_or false ds x l ≡ round_read x l) (sym q) (two_entries-values x l));
  located = λ k es b ends e m.
      let (q, _) = Ends-false two_entries k es b refl ends in each e (subst (Memᴰ e) q m);
}
  where
    each :
        (e : FuncEntry)
        → Memᴰ e two_entries.entries
        → (e.lock_number < 1) × IsLocated readers e.location
    each e (Memᴰ.head q) = entry_at-IsLocated 0 e refl q
    each e (Memᴰ.tail (Memᴰ.head q)) = entry_at-IsLocated 1 e refl q
    each e (Memᴰ.tail (Memᴰ.tail m)) = elim m [ ]

true_nowhere : IsInterp readers 1 one_model no_entries (λ x l. false)
true_nowhere = record {
  separate = λ k es b ends.
      let (q, _) = Ends-false no_entries k es b refl ends in subst AreSeparate (sym q) tt;
  values = λ k es b ends x l.
      let (q, r) = Ends-false no_entries k es b refl ends in
      subst (λ (d : Bool). value_or d es x l ≡ false) (sym r)
        (subst (λ ds. value_or false ds x l ≡ false) (sym q) refl);
  located = λ k es b ends e m.
      let (q, _) = Ends-false no_entries k es b refl ends in absurd (elim (subst (Memᴰ e) q m) [ ]);
}

one_model-IsInterpreted : IsInterpreted readers 1 one_model
one_model-IsInterpreted lock before = true_there
one_model-IsInterpreted lock after = true_nowhere
one_model-IsInterpreted unlock before = true_nowhere
one_model-IsInterpreted unlock after = true_there

-- An optimiser that knows one model.
abbrev find_one : List Formula → List Soft → Option Model
find_one hs ss = if all (λ f. f one_lock) hs then some one_model else none

abbrev setting : Setting
setting = record {
  optimize = find_one;
  stmt = λ s. s.variable;
  set_intersection_empty = λ a b. is_empty a;
  lock_limit = 4;
  depth = 1;
}

find_one-IsOptimizer : IsOptimizer readers find_one 1 1
find_one-IsOptimizer hs ss m e = elim (Bool-cases (all (λ f. f one_lock) hs)) [
  | inl sat ↦
      subst
        (λ (m : Model). Satisfies m.values hs × IsSorted 1 1 m.values × IsInterpreted readers 1 m)
        (some-inj (rw sat at e)) (sat, λ i lt. omega arith, one_model-IsInterpreted)
  | inr failing ↦ absurd (none_not_some (rw failing at e))
]
  where
    none_not_some : ◌≡◌ {A = Option Model} none (some m) → ⊥
    none_not_some k = cc

find_locks-PlacementOutcome_example :
    PlacementOutcome setting readers absolute_minimum conflict
      (find_locks setting readers absolute_minimum conflict [])
unfolding max_locks
find_locks-PlacementOutcome_example =
    find_locks-PlacementOutcome setting readers absolute_minimum conflict find_one-IsOptimizer
      readers-AreLaidOut

abbrev placed_at : ℕ → LockType → PositionType → SinglePlacement
placed_at t which position = record {
  lock_number = 0;
  lock_t = which;
  position = position;
  location = at t 2;
}

-- What is read from the model, and its numbers.
read_result_test :
    read_result readers 1 1 [] one_model
    ≡ some (record {
      locks =
          placed_at 0 lock before
          ∷ placed_at 1 lock before
          ∷ placed_at 0 unlock after
          ∷ placed_at 1 unlock after
          ∷ [];
      statistics = record { locks = 1; lock_instr = 2; unlock_instr = 2; in_lock = 2 };
    })
unfolding read_result read_model read_placements func_result func_result_impl result_to_locklist
    remove_duplicates remove_from erase_same is_same site get_state get_statistics states_of
    dummy_state action_state
read_result_test = refl

read_result-HasPlacement_example :
    ReadOutcome readers 1 one_model (read_result readers 1 1 [] one_model)
read_result-HasPlacement_example =
    read_result-HasPlacement readers 1 1 one_model one_lock-Satisfies one_model-IsInterpreted

-- A function that is true outside of its entries fails the assertion.
true_elsewhere :
    read_result readers 1 1 []
      (record one_model { lock_b = record two_entries { else_value = constant true } })
    ≡ none
unfolding read_result read_model read_placements func_result func_result_impl result_to_locklist
true_elsewhere = refl

-- Two placements that are one instruction, and one that is not.
abbrev three_placements : List SinglePlacement
three_placements = placed_at 0 lock before ∷ placed_at 1 lock before ∷ placed_at 0 lock before ∷ []

remove_duplicates-IsReduced_example :
    (qs : List SinglePlacement) × ((remove_duplicates readers three_placements ≡ some qs)
      × IsReduced readers three_placements qs)
unfolding site get_state action_state
remove_duplicates-IsReduced_example =
    remove_duplicates-IsReduced readers three_placements ((1, refl), ((11, refl), ((1, refl), tt)))

penalty-cost_model_example :
    (cost setting.stmt setting.set_intersection_empty one_lock max_pairwise_concurrency readers
        (0 ∷ [])
        conflict
      ≡ cost setting.stmt setting.set_intersection_empty one_lock absolute_minimum readers
          (0 ∷ [])
          conflict)
    × (cost setting.stmt setting.set_intersection_empty one_lock small_locks readers
          (0 ∷ [])
          conflict
        ≡ cost setting.stmt setting.set_intersection_empty one_lock absolute_minimum readers
            (0 ∷ [])
            conflict
          + 2
            * penalty one_lock (separations setting.stmt setting.set_intersection_empty 2 conflict))
    × (cost setting.stmt setting.set_intersection_empty one_lock coarse readers (0 ∷ []) conflict
        ≡ cost setting.stmt setting.set_intersection_empty one_lock absolute_minimum readers
            (0 ∷ [])
            conflict
          + penalty one_lock (coarse_costs readers (0 ∷ [])))
    × (cost setting.stmt setting.set_intersection_empty one_lock unoptimized readers
          (0 ∷ [])
          conflict
        ≡ 0)
penalty-cost_model_example =
    penalty-cost_model setting.stmt setting.set_intersection_empty one_lock readers (0 ∷ [])
      conflict
