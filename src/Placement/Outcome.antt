-- ===== src/Placement/Outcome.antt =====
-- `find_locks` of placement/place_locks.cpp over an optimiser: what each of its results means.
use liss.Common.{
  [], ℕ, ◌<◌, ◌≡◌, ◌≢◌, refl, true, false, ◌&&◌, List, Option, none, some, count_from, length,
  get_elem?, Memᴰ, lt_of_get_elem?,
}
use liss.Types.{Disj}
use liss.Synthesis.Traces.{LockLists, LockSymbols}
use liss.Cfg.Graph.{AbstractCfg, State}
use liss.Placement.{Assignment, Formula, PlacementResult, CostType, at, LockType, PositionType}
use liss.Placement.Constraints.{predecessors_forward, add_constraints, locked_together}
use liss.Placement.Rules.{Satisfies, all-split, IsState}
use liss.Placement.System.{Config, Reachable}
use liss.Placement.Invariant.{AreLaidOut}
use liss.Placement.Safe.{IsOrdered, Holder, Reachable-IsOrdered, no_deadlock}
use liss.Placement.Exclusion.{locked_by, is_inside, mutual_exclusion, one_section}
use liss.Placement.Cost.{Soft, cost_model}
use liss.Placement.Interpreted.{IsInterpreted, EndsFalse}
use liss.Placement.Implemented.{Implements, ReadOutcome, read_result-HasPlacement}
use liss.Placement.Result.{
  Model, Setting, PlacementEnd, placed, failed, broken, max_locks, hard_constraints, read_result,
  find_locks, use_model, placed_or_broken,
}

-- The constants for the locks of `k` disjunctions have the sort of `n` locks.
abbrev pub IsSorted : ℕ → ℕ → Assignment → Type 0
IsSorted n k v = (i : ℕ) → i < k → v.lock_id i < n

-- What is documented of the optimiser: its models satisfy the formulas, are well sorted, and hold
-- interpretations of their functions.
abbrev pub IsOptimizer :
    List AbstractCfg → (List Formula → List Soft → Option Model) → ℕ → ℕ → Type 0
IsOptimizer threads optimize n k =
    (hs : List Formula) (ss : List Soft) (m : Model)
    → optimize hs ss ≡ some m
    → Satisfies m.values hs × IsSorted n k m.values × IsInterpreted threads n m

-- The placed program of an assignment in all its reachable configurations: the places of each
-- disjunction are kept apart by a lock, locks are taken in an order, there is no deadlock, and locked
-- states that follow each other are in one section.
pub record IsSafe (v : Assignment) (n : ℕ) (threads : List AbstractCfg) (ls : LockSymbols)
    : Type 0 where
  pub exclusive :
      (k : ℕ) (d : Disj LockLists)
      → get_elem? ls k ≡ some d
      → {c : Config} → Reachable v n threads c
      → (t u : ℕ) (g h : AbstractCfg) → get_elem? threads t ≡ some g
      → get_elem? threads u ≡ some h
      → t ≢ u
      → (lplaces : LockLists) × ((locked_by v k d ≡ some lplaces)
          × Memᴰ lplaces d
          × ((is_inside t (c.point t) lplaces && is_inside u (c.point u) lplaces) ≡ false))
  pub ordered :
      {c : Config}
      → Reachable v n threads c
      → (t : ℕ) (g : AbstractCfg) → get_elem? threads t ≡ some g
      → IsOrdered v c t
  pub alive :
      {c : Config} → Reachable v n threads c → (u l : ℕ) → c.held u l ≡ true → Holder v n threads c
  -- Over a forward edge between two states under a lock, the lock is not released.
  pub sections :
      (t : ℕ) (g : AbstractCfg)
      → get_elem? threads t ≡ some g
      → (i j : ℕ) (s s' : State) → IsState g i s
      → IsState g j s'
      → Memᴰ i (predecessors_forward g j)
      → (l : ℕ) → l < n
      → v.in_lock (at t i) l ≡ true
      → v.in_lock (at t j) l ≡ true
      → (v.unlock_a (at t i) l ≡ false) × (v.unlock_b (at t j) l ≡ false)

hard_constraints-IsSafe :
    (v : Assignment) (n : ℕ) (threads : List AbstractCfg) (ls : LockSymbols)
    → AreLaidOut threads
    → Satisfies v (hard_constraints threads n ls)
    → IsSorted n (length ls) v
    → IsSafe v n threads ls
unfolding hard_constraints
hard_constraints-IsSafe v n threads ls laid sat sorted =
    let (together, rules) = all-split (λ (f : Formula). f v) (locked_together 0 ls) _ sat in
    record {
      exclusive = λ k d there r t u g h e e' apart.
          mutual_exclusion v n threads laid rules ls together k d there
            (sorted k (lt_of_get_elem? ls k there)) r t u g h e e' apart;
      ordered = λ r. Reachable-IsOrdered v n threads laid rules r;
      alive = λ r. no_deadlock v n threads laid rules r;
      sections = one_section v n threads laid rules;
    }

hard_constraints-rules :
    (v : Assignment) (threads : List AbstractCfg) (n : ℕ) (ls : LockSymbols)
    → Satisfies v (hard_constraints threads n ls)
    → Satisfies v (add_constraints threads (count_from 0 n))
unfolding hard_constraints
hard_constraints-rules v threads n ls sat =
    (all-split (λ (f : Formula). f v) (locked_together 0 ls) _ sat).1

module _ (e : Setting) (threads : List AbstractCfg) (cost : CostType) (ls : LockSymbols) where
  abbrev size : ℕ
  size = max_locks e.lock_limit ls

  abbrev answer : Option Model
  answer =
      e.optimize (hard_constraints threads size ls)
        (cost_model e.stmt e.set_intersection_empty cost threads (count_from 0 size) ls)

  abbrev pub PlacementOutcome : PlacementEnd → Type 0
  PlacementOutcome (placed r) =
      (m : Model) × (answer ≡ some m)
      × IsSafe m.values size threads ls
      × Implements threads m.values r.locks
  PlacementOutcome failed = answer ≡ none
  PlacementOutcome broken =
      (m : Model) × (answer ≡ some m)
      × ((which : LockType) × (position : PositionType) × (¬ EndsFalse e.depth m which position))

  -- Over an optimiser, for threads whose graphs are laid out and an empty result to begin with: the
  -- placement that `find_locks` returns implements the functions of the optimiser's model, at every state
  -- of the source text, and the program that is placed by these functions is safe. It keeps the places of
  -- each disjunction apart, takes locks in an order, does not deadlock, and does not release a lock over a
  -- forward edge between two states under it. `find_locks` fails only if the optimiser finds no model of
  -- the constraints, and breaks only if one of the four functions of its model is not, within the depth,
  -- false outside of its entries, which the code asserts.
  pub find_locks-PlacementOutcome :
      IsOptimizer threads e.optimize size (length ls)
      → AreLaidOut threads
      → PlacementOutcome (find_locks e threads cost ls [])
  unfolding find_locks use_model
  find_locks-PlacementOutcome opt laid = from_model (e.optimize hard soft) refl
    where
      hard : List Formula
      hard = hard_constraints threads size ls

      soft : List Soft
      soft = cost_model e.stmt e.set_intersection_empty cost threads (count_from 0 size) ls

      from_reading :
          (m : Model)
          → answer ≡ some m
          → IsSafe m.values size threads ls
          → (o : Option PlacementResult) → ReadOutcome threads e.depth m o
          → PlacementOutcome (placed_or_broken o)
      from_reading m found safe none why = (m, found, why)
      from_reading m found safe (some r) (done, ends) = (m, found, safe, done)

      from_model :
          (o : Option Model)
          → e.optimize hard soft ≡ o
          → PlacementOutcome (use_model threads e.depth size [] o)
      from_model none q = q
      from_model (some m) q =
          let (sat, sorted, meant) = opt hard soft m q in
          from_reading m q (hard_constraints-IsSafe m.values size threads ls laid sat sorted)
            (read_result threads e.depth size [] m)
            (read_result-HasPlacement threads size e.depth m
              (hard_constraints-rules m.values threads size ls sat) meant)
