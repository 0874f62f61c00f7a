-- ===== src/Placement/Cost.antt =====
-- placement/place_locks.cpp: the soft constraints, formulas with the weight that violating them costs.
-- The statement of a symbol is a number, 0 for none; whether two sets share no element is answered by
-- the library Limi. Both are parameters.
use liss.Common.{
  ℕ, suc, ◌+◌, Bool, true, false, ◌&&◌, ◌||◌, not, List, [], ◌∷◌, ◌++◌, map, ltb, leb, ◌==◌,
  if◌then◌else◌, length, any, all, is_empty, count_from, numbered, keep, concat_map,
}
use liss.Types.{Disj}
use liss.Abstraction.Symbol.{Symbol, thread_id}
use liss.Synthesis.Traces.{LockLists, LockSymbols}
use liss.Cfg.Graph.{AbstractCfg, State}
use liss.Placement.{
  Assignment, Formula, CostType, absolute_minimum, small_locks, coarse, unoptimized,
  max_pairwise_concurrency, at,
}
use liss.Placement.Constraints.{states_of}

pub record Soft : Type 0 where
  pub formula : Formula
  pub weight : ℕ

abbrev pub prefer : Formula → ℕ → Soft
prefer f w = record { formula = f; weight = w }

module _ (stmt : Symbol → ℕ) (set_intersection_empty : List ℕ → List ℕ → Bool) where
  -- The statements of one thread.
  unfoldable pub stmts_of : LockLists → ℕ → List ℕ
  stmts_of a t =
      concat_map (λ al. map stmt (keep (λ s. not (stmt s == 0) && thread_id s == t) al)) a

  abbrev pub is_violation : LockLists → LockLists → ℕ × ℕ → Bool
  is_violation a b (t1, t2) =
      not (is_empty (stmts_of a t1))
      && not (is_empty (stmts_of b t2))
      && set_intersection_empty (stmts_of a t1) (stmts_of b t2)

  abbrev pub pairs : ℕ → List (ℕ × ℕ)
  pairs threads =
      concat_map (λ t1. map (λ t2. (t1, t2)) (count_from 0 threads)) (count_from 0 threads)

  -- The two `same_instructions`.
  unfoldable pub same_instructions_lists : LockLists → LockLists → ℕ → Bool
  unfolding stmts_of
  same_instructions_lists a b threads =
      not (ltb 2 (length (keep (is_violation a b) (pairs threads))))

  unfoldable pub same_instructions : Disj LockLists → Disj LockLists → ℕ → Bool
  unfolding same_instructions_lists
  same_instructions a b threads = any (λ a1. any (λ b1. same_instructions_lists a1 b1 threads) b) a

  -- The locks of two conflicts.
  abbrev pub separate_two : ℕ → ℕ × Disj LockLists → ℕ × Disj LockLists → List Soft
  separate_two threads (i, a) (j, b) =
      if not (j == i) && not (same_instructions a b threads)
      then prefer (λ v. not (v.lock_id i == v.lock_id j)) 100 ∷ []
      else []

  unfoldable pub separations : ℕ → LockSymbols → List Soft
  unfolding same_instructions
  separations threads locks_to_place =
      let ds = numbered 0 locks_to_place in
      concat_map (λ a. concat_map (separate_two threads a) ds) ds

-- For each state and lock, that the lock is not held.
unfoldable pub held_costs : List AbstractCfg → List ℕ → List Soft
held_costs threads locks =
    concat_map
      (λ (t : ℕ × AbstractCfg).
        concat_map
          (λ (s : ℕ × State). map (λ l. prefer (λ v. not (v.in_lock (at t.0 s.0) l)) 1) locks)
          (states_of t.1))
      (numbered 0 threads)

unfoldable pub coarse_costs : List AbstractCfg → List ℕ → List Soft
coarse_costs threads locks =
    concat_map
      (λ (t : ℕ × AbstractCfg).
        concat_map
          (λ (s : ℕ × State).
            concat_map
              (λ l.
                prefer (λ v. not (v.lock_b (at t.0 s.0) l)) 20
                ∷ prefer (λ v. not (v.lock_a (at t.0 s.0) l)) 20
                ∷ [])
              locks)
          (states_of t.1))
      (numbered 0 threads)

-- The comma operator: its value is that of its right side.
abbrev pub comma : Bool → Bool → Bool
comma a b = b

-- The constraints of two threads. The right side of the comma is 100, which is true.
unfoldable pub concurrency_costs : List ℕ → ℕ × AbstractCfg → ℕ × AbstractCfg → List Soft
concurrency_costs locks (t1, thread1) (t2, thread2) =
    concat_map
      (λ (i : ℕ × State).
        map
          (λ (j : ℕ × State).
            prefer
              (λ v.
                all
                  (λ l. comma (not (v.in_lock (at t1 i.0) l) || not (v.in_lock (at t2 j.0) l)) true)
                  locks)
              1)
          (states_of thread2))
      (states_of thread1)

-- The inner loop over the threads: a thread that is passed over does not count.
unfoldable pub with_lower : List ℕ → ℕ × AbstractCfg → ℕ → List AbstractCfg → List Soft
unfolding concurrency_costs
with_lower locks thread1 t2 [] = []
with_lower locks (t1, thread1) t2 (thread2 ∷ threads) = elim (leb t1 t2) [
  | true ↦ with_lower locks (t1, thread1) t2 threads
  | false ↦
      concurrency_costs locks (t1, thread1) (t2, thread2)
      ++ with_lower locks (t1, thread1) (suc t2) threads
]

unfoldable pub cost_model_max_concurrency : List AbstractCfg → List ℕ → List Soft
unfolding with_lower
cost_model_max_concurrency threads locks =
    concat_map (λ thread1. with_lower locks thread1 0 threads) (numbered 0 threads)

module _ (stmt : Symbol → ℕ) (set_intersection_empty : List ℕ → List ℕ → Bool) where
  -- The constraints are added for the state of each thread, then by the cost function, and those that
  -- separate the conflicts once more.
  unfoldable pub cost_model : CostType → List AbstractCfg → List ℕ → LockSymbols → List Soft
  unfolding held_costs cost_model_max_concurrency coarse_costs separations
  cost_model unoptimized threads locks locks_to_place = []
  cost_model absolute_minimum threads locks locks_to_place = held_costs threads locks
  cost_model small_locks threads locks locks_to_place =
      let apart = separations stmt set_intersection_empty (length threads) locks_to_place in
      held_costs threads locks ++ (apart ++ apart)
  cost_model coarse threads locks locks_to_place =
      held_costs threads locks ++ coarse_costs threads locks
  cost_model max_pairwise_concurrency threads locks locks_to_place =
      held_costs threads locks ++ cost_model_max_concurrency threads locks

-- The weight of the constraints that an assignment violates.
abbrev pub penalty : Assignment → List Soft → ℕ
penalty v [] = 0
penalty v (s ∷ ss) = (if s.formula v then 0 else s.weight) + penalty v ss
