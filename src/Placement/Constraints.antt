-- ===== src/Placement/Constraints.antt =====
-- placement/place_locks.cpp: the hard constraints. What a loop adds to a conjunction is a list of
-- formulas with the field of `locking_constraints` that each is added to.
use liss.Common.{
  ℕ, suc, ◌-◌, Bool, ◌&&◌, ◌||◌, not, List, [], ◌∷◌, ◌++◌, map, Option, none, some, ◌==◌,
  if◌then◌else◌, length, get_elem?, any, all, count_from, numbered, keep, concat_map,
}
use liss.Abstraction.Symbol.{Symbol, Location, is_unlockable_point}
use liss.Cfg.Graph.{AbstractCfg, State, Edge}
use liss.Synthesis.Traces.{LockLists, LockSymbols}
use liss.Placement.{Assignment, Formula, implies, equal, inle, at}

-- The fields of `locking_constraints` that are conjunctions.
pub data Kind : Type 0 where
  inl_def cons_loc cons_preemption cons_basic cons_join cons_unl cons_lo cons_functions : Kind
  cons_sameinstr cons_lockorder : Kind

abbrev pub code : Kind → ℕ
code inl_def = 0
code cons_loc = 1
code cons_preemption = 2
code cons_basic = 3
code cons_join = 4
code cons_unl = 5
code cons_lo = 6
code cons_functions = 7
code cons_sameinstr = 8
code cons_lockorder = 9

pub record Constraint : Type 0 where
  pub kind : Kind
  pub formula : Formula

abbrev pub require : Kind → Formula → Constraint
require k f = record { kind = k; formula = f }

abbrev pub no_states : AbstractCfg → ℕ
no_states g = length g.states - 1

-- A graph has a list of edges for each state.
abbrev pub edges_from : AbstractCfg → ℕ → List Edge
edges_from g i = elim (get_elem? g.edges i) [ none ↦ [] | some es ↦ es ]

-- The states from 1 on, with their numbers.
unfoldable pub states_of : AbstractCfg → List (ℕ × State)
states_of g = elim g.states [ [] ↦ [] | s ∷ rest ↦ numbered 1 rest ]

abbrev pub leads_to : ℕ → Edge → Bool
leads_to i e = e.to == i

abbrev pub leads_forward : ℕ → Edge → Bool
leads_forward i e = e.to == i && not e.back_edge

-- The sets `predecessors[i]` and `predecessors_forward[i]`; the order of such a set is not specified,
-- here it ascends.
unfoldable pub predecessors : AbstractCfg → ℕ → List ℕ
predecessors g i = keep (λ p. any (leads_to i) (edges_from g p)) (count_from 1 (no_states g))

unfoldable pub predecessors_forward : AbstractCfg → ℕ → List ℕ
predecessors_forward g i =
    keep (λ p. any (leads_forward i) (edges_from g p)) (count_from 1 (no_states g))

-- The locks that the loops of `lock_order` stop at `l` for, and `l`.
abbrev pub up_to : List ℕ → ℕ → List ℕ
up_to [] l = l ∷ []
up_to (lb ∷ locks) l = let rest = up_to locks l in if lb == l then l ∷ [] else lb ∷ rest

-- The two `lock_order`.
unfoldable pub lock_order_before : List ℕ → ℕ → Location → Location → List Constraint
lock_order_before locks l x p =
    map
      (λ lb.
        require cons_lockorder
          (λ v. implies (v.lock_b x l) (not (v.in_lock p lb) && not (v.lock_a p lb))))
      (up_to locks l)

unfoldable pub lock_order_after : List ℕ → ℕ → Location → List Constraint
lock_order_after locks l x =
    map (λ lb. require cons_lockorder (λ v. implies (v.lock_a x l) (not (v.in_lock x lb))))
      (up_to locks l)

-- Neither locking nor unlocking where the source text has no place for it.
unfoldable pub place_rules : Location → State → ℕ → List Constraint
place_rules x s l =
    (if s.lock_before == 0
      then require cons_loc (λ v. not (v.lock_b x l) && not (v.unlock_b x l)) ∷ []
      else [])
    ++ (if s.lock_after == 0
        then require cons_loc (λ v. not (v.lock_a x l) && not (v.unlock_a x l)) ∷ []
        else [])

unfoldable pub preemption_rules : Location → Option Symbol → ℕ → List Constraint
preemption_rules x none l = []
preemption_rules x (some a) l =
    if is_unlockable_point a then require cons_preemption (λ v. not (v.in_lock x l)) ∷ [] else []

abbrev pub not_both : Location → ℕ → Formula
not_both x l v =
    (not (v.lock_a x l) || not (v.unlock_a x l)) && (not (v.lock_b x l) || not (v.unlock_b x l))

-- The rules of the first loop for one state and one lock.
unfoldable pub state_rules : Location → State → ℕ → List Constraint
unfolding place_rules preemption_rules
state_rules x s l =
    place_rules x s l ++ (require cons_basic (not_both x l) ∷ preemption_rules x s.action l)

-- The rules for one of the forward predecessors.
unfoldable pub from_rules : List ℕ → Location → ℕ → Location → List Constraint
unfolding lock_order_before
from_rules locks x l p =
    lock_order_before locks l x p
    ++ require cons_unl (λ v. implies (v.unlock_b x l) (v.in_lock p l && not (v.unlock_a p l))) ∷ []

-- The rules of a state and a lock for its forward predecessors.
unfoldable pub entry_rules : List ℕ → Location → List Location → ℕ → List Constraint
unfolding from_rules
entry_rules locks x [] l =
    require inl_def (λ v. equal (v.in_lock x l) (v.lock_b x l))
    ∷ require cons_unl (λ v. not (v.unlock_b x l))
    ∷ []
entry_rules locks x (first_pred ∷ rest) l =
    require inl_def
      (λ v. equal (v.in_lock x l) (v.lock_b x l || not (v.unlock_b x l) && inle v first_pred l))
    ∷ concat_map (from_rules locks x l) (first_pred ∷ rest)

-- The rule for a state where paths join.
unfoldable pub join_rules : List Location → ℕ → List Constraint
join_rules (first_pred ∷ second ∷ rest) l =
    require cons_join (λ v. all (λ p. equal (inle v first_pred l) (inle v p l)) (second ∷ rest))
    ∷ []
join_rules _ l = []

-- The rule that a function returns with the locks with which it was called.
unfoldable pub return_rules : ℕ → ℕ × State → ℕ → List Constraint
return_rules t (i, s) l =
    if s.return_state == 0
    then []
    else require cons_functions
        (λ v. equal (v.in_lock (at t i) l) (v.in_lock (at t s.return_state) l))
      ∷ []

abbrev pub held_to_unlock : Location → ℕ → Formula
held_to_unlock x l v = implies (v.unlock_a x l) (v.in_lock x l)

-- The rules of the second loop for one state and one lock.
unfoldable pub predecessor_rules : List ℕ → ℕ → AbstractCfg → ℕ × State → ℕ → List Constraint
unfolding return_rules lock_order_after entry_rules join_rules
predecessor_rules locks t g (i, s) l =
    return_rules t (i, s) l
    ++ (entry_rules locks (at t i) (map (at t) (predecessors_forward g i)) l
        ++ (lock_order_after locks l (at t i)
            ++ (require cons_unl (held_to_unlock (at t i) l)
                ∷ (join_rules (map (at t) (predecessors g i)) l
                    ++ (require cons_unl (held_to_unlock (at t i) l) ∷ [])))))

-- The two loops over the states of a thread.
unfoldable pub first_loop : List ℕ → ℕ → AbstractCfg → List Constraint
unfolding state_rules
first_loop locks t g =
    concat_map (λ (s : ℕ × State). concat_map (state_rules (at t s.0) s.1) locks) (states_of g)

unfoldable pub second_loop : List ℕ → ℕ → AbstractCfg → List Constraint
unfolding predecessor_rules
second_loop locks t g =
    concat_map (λ s. concat_map (predecessor_rules locks t g s) locks) (states_of g)

unfoldable pub thread_rules : List ℕ → ℕ × AbstractCfg → List Constraint
unfolding first_loop second_loop
thread_rules locks (t, g) = first_loop locks t g ++ second_loop locks t g

unfoldable pub lock_consistancy : List AbstractCfg → List ℕ → List Constraint
unfolding thread_rules
lock_consistancy threads locks = concat_map (thread_rules locks) (numbered 0 threads)

-- The caches `lock_before` and `lock_after` of the constructor: a map from a source location to the
-- locations that have it.
abbrev pub Cache : Type 0
Cache = List (ℕ × List Location)

unfoldable pub push_site : ℕ → Location → Cache → Cache
push_site k x [] = (k, x ∷ []) ∷ []
push_site k x ((k', xs) ∷ cache) =
    let rest = push_site k x cache in
    if k' == k then (k', xs ++ x ∷ []) ∷ cache else (k', xs) ∷ rest

unfoldable pub cache_states : (State → ℕ) → ℕ → List (ℕ × State) → Cache → Cache
unfolding push_site
cache_states site t [] cache = cache
cache_states site t ((i, s) ∷ rest) cache =
    cache_states site t rest (if site s == 0 then cache else push_site (site s) (at t i) cache)

unfoldable pub cache_threads : (State → ℕ) → List (ℕ × AbstractCfg) → Cache → Cache
unfolding cache_states states_of
cache_threads site [] cache = cache
cache_threads site ((t, g) ∷ rest) cache =
    cache_threads site rest (cache_states site t (states_of g) cache)

unfoldable pub cached : (State → ℕ) → List AbstractCfg → Cache
unfolding cache_threads
cached site threads = cache_threads site (numbered 0 threads) []

-- The rules of one entry of a cache, for the functions that lock and unlock there.
unfoldable pub same_rules :
    (Assignment → Location → ℕ → Bool)
    → (Assignment → Location → ℕ → Bool)
    → List ℕ
    → ℕ × List Location
    → List Constraint
same_rules locks_at unlocks_at locks (k, []) = []
same_rules locks_at unlocks_at locks (k, first ∷ rest) =
    concat_map
      (λ l.
        map
          (λ y. require cons_sameinstr (λ v.
            equal (locks_at v first l) (locks_at v y l)
            && equal (unlocks_at v first l) (unlocks_at v y l)))
          rest)
      locks

unfoldable pub lock_sameinstr : Cache → Cache → List ℕ → List Constraint
unfolding same_rules
lock_sameinstr lock_before lock_after locks =
    concat_map (same_rules (λ v. v.lock_a) (λ v. v.unlock_a) locks) lock_after
    ++ concat_map (same_rules (λ v. v.lock_b) (λ v. v.unlock_b) locks) lock_before

-- The conjunction that one field has become.
unfoldable pub conjunction : List Constraint → Kind → Formula
conjunction cs k v = all (λ (c : Constraint). not (code c.kind == code k) || c.formula v) cs

-- The fields in the order in which `add_constraints` adds them to the solver.
abbrev pub kinds : List Kind
kinds =
    inl_def ∷ cons_loc ∷ cons_basic ∷ cons_join ∷ cons_unl ∷ cons_lo ∷ cons_functions
    ∷ cons_sameinstr ∷ cons_preemption ∷ cons_lockorder ∷ []

-- What `lock_consistancy` and `lock_sameinstr` add.
unfoldable pub all_rules : List AbstractCfg → List ℕ → List Constraint
unfolding lock_consistancy lock_sameinstr cached
all_rules threads locks =
    lock_consistancy threads locks
    ++ lock_sameinstr (cached (λ s. s.lock_before) threads) (cached (λ s. s.lock_after) threads)
        locks

unfoldable pub add_constraints : List AbstractCfg → List ℕ → List Formula
unfolding all_rules conjunction
add_constraints threads locks = map (conjunction (all_rules threads locks)) kinds

-- The symbols of all lists.
abbrev pub all_locked : LockLists → (Symbol → Bool) → Bool
all_locked lplaces p = all (all p) lplaces

-- The formulas of the disjunctions from number `k` on.
unfoldable pub locked_together : ℕ → LockSymbols → List Formula
locked_together k [] = []
locked_together k (d ∷ rest) =
    (λ v. any (λ lplaces. all_locked lplaces (λ pl. v.in_lock pl.loc (v.lock_id k))) d)
    ∷ locked_together (suc k) rest
