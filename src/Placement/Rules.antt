-- ===== src/Placement/Rules.antt =====
-- What the hard constraints of placement/place_locks.cpp say of one state of a thread and one lock.
use liss.Common.{
  ◌∙◌, all_of_mem, ==_refl, ℕ, zero, suc, ◌≤◌, ◌≡◌, refl, sym, subst, Bool, true, false, ◌||◌, not,
  List, [], ◌∷◌, ◌++◌, some, Memᴰ, arith, ◌==◌, get_elem?, any, all, all-append, all_mem,
  all-concat_map, numbered, concat_map, mem-numbered, mem-count_from, mem-keep, &&-true,
  lt_of_get_elem?,
}
use liss.Cfg.Graph.{AbstractCfg, State}
use liss.Placement.{Assignment, Formula, equal, at}
use liss.Placement.Constraints.{
  Kind, inl_def, cons_loc, cons_preemption, cons_basic, cons_join, cons_unl, cons_lo,
  cons_functions, cons_sameinstr, cons_lockorder, code, Constraint, kinds, conjunction, all_rules,
  first_loop, second_loop, add_constraints, lock_consistancy, lock_sameinstr, thread_rules,
  state_rules, predecessor_rules, no_states, states_of, predecessors, edges_from, leads_to, cached,
}

abbrev pub Satisfies : Assignment → List Formula → Type 0
Satisfies v fs = all (λ f. f v) fs ≡ true

abbrev pub holds : Assignment → Constraint → Bool
holds v c = c.formula v

pub equal-true : (p q : Bool) → equal p q ≡ true → p ≡ q
equal-true true q e = sym e
equal-true false true e = cc
equal-true false false e = refl

kinds_complete : (F : Kind → Bool) → all F kinds ≡ true → (k : Kind) → F k ≡ true
kinds_complete F h inl_def = ground arith
kinds_complete F h cons_loc = ground arith
kinds_complete F h cons_preemption = ground arith
kinds_complete F h cons_basic = ground arith
kinds_complete F h cons_join = ground arith
kinds_complete F h cons_unl = ground arith
kinds_complete F h cons_lo = ground arith
kinds_complete F h cons_functions = ground arith
kinds_complete F h cons_sameinstr = ground arith
kinds_complete F h cons_lockorder = ground arith

-- Every formula that is added to one of the fields holds.
conjunction-all :
    (v : Assignment) (cs : List Constraint)
    → all (λ k. conjunction cs k v) kinds ≡ true
    → all (holds v) cs ≡ true
unfolding conjunction
conjunction-all v cs h = all_of_mem (holds v) cs (λ c m.
    let e = kinds_complete (λ k. conjunction cs k v) h c.kind in
    ground (
      arith,
      all_mem (λ (d : Constraint). not (code d.kind == code c.kind) || d.formula v) cs e c m,
      ==_refl (code c.kind),
    ))

pub all-split {ℓ} :
    {A : Type ℓ} (p : A → Bool) (xs ys : List A)
    → all p (xs ++ ys) ≡ true
    → (all p xs ≡ true) × (all p ys ≡ true)
all-split p xs ys h = &&-true (all p xs) (all p ys) (sym (all-append p xs ys) ∙ h)

-- The two parts of the constraints.
pub add_constraints-parts :
    (v : Assignment) (threads : List AbstractCfg) (locks : List ℕ)
    → Satisfies v (add_constraints threads locks)
    → (all (holds v) (lock_consistancy threads locks) ≡ true)
      × (all (holds v) (
            lock_sameinstr
              (cached (λ s. s.lock_before) threads)
              (cached (λ s. s.lock_after) threads)
              locks)
          ≡ true)
unfolding all_rules add_constraints
add_constraints-parts v threads locks sat =
    all-split (holds v) (lock_consistancy threads locks) _
      (conjunction-all v (all_rules threads locks) sat)

-- A state of a graph, and an edge.
abbrev pub IsState : AbstractCfg → ℕ → State → Type 0
IsState g i s = (1 ≤ i) × (get_elem? g.states i ≡ some s)

abbrev pub IsEdge : AbstractCfg → ℕ → ℕ → Type 0
IsEdge g i j = any (leads_to j) (edges_from g i) ≡ true

mem-states_after_first :
    (i : ℕ) (s x : State) (rest : List State)
    → 1 ≤ i
    → get_elem? (x ∷ rest) i ≡ some s
    → Memᴰ (i, s) (numbered 1 rest)
mem-states_after_first zero s x rest pos_i e = absurd (omega arith)
mem-states_after_first (suc i) s x rest pos_i e =
    subst (λ (k : ℕ). Memᴰ (k, s) (numbered 1 rest)) (omega arith) (mem-numbered 1 i rest s e)

mem-states_in :
    (states : List State) (i : ℕ) (s : State)
    → 1 ≤ i
    → get_elem? states i ≡ some s
    → Memᴰ (i, s) (elim states [ [] ↦ [] | x ∷ rest ↦ numbered 1 rest ])
mem-states_in [] i s pos_i e = cc
mem-states_in (x ∷ rest) i s pos_i e = mem-states_after_first i s x rest pos_i e

pub mem-states_of :
    (g : AbstractCfg) (i : ℕ) (s : State) → IsState g i s → Memᴰ (i, s) (states_of g)
unfolding states_of
mem-states_of g i s at_i = mem-states_in g.states i s at_i.0 at_i.1

pub mem-predecessors :
    (g : AbstractCfg) (i j : ℕ) (s : State)
    → IsState g i s
    → IsEdge g i j
    → Memᴰ i (predecessors g j)
unfolding predecessors
mem-predecessors g i j s (pos_i, e) edge =
    mem-keep (λ p. any (leads_to j) (edges_from g p)) _ i
      (mem-count_from 1 (no_states g) i pos_i (omega (arith, lt_of_get_elem? g.states i e))) edge

module _ (v : Assignment) (locks : List ℕ) (t : ℕ) (g : AbstractCfg)
    (sat : all (holds v) (thread_rules locks (t, g)) ≡ true) (i : ℕ) (s : State)
    (at_i : IsState g i s) (l : ℕ) (here : Memᴰ l locks) where
  pub state_rules-hold : all (holds v) (state_rules (at t i) s l) ≡ true
  unfolding thread_rules first_loop
  state_rules-hold =
      all-concat_map (holds v) (state_rules (at t i) s) locks
        (all-concat_map (holds v) (λ (s : ℕ × State). concat_map (state_rules (at t s.0) s.1) locks)
          (states_of g) (all-split (holds v) (first_loop locks t g) (second_loop locks t g) sat).0
          (i, s) (mem-states_of g i s at_i))
        l here

  pub predecessor_rules-hold : all (holds v) (predecessor_rules locks t g (i, s) l) ≡ true
  unfolding thread_rules second_loop
  predecessor_rules-hold =
      all-concat_map (holds v) (predecessor_rules locks t g (i, s)) locks
        (all-concat_map (holds v) (λ s. concat_map (predecessor_rules locks t g s) locks)
          (states_of g) (all-split (holds v) (first_loop locks t g) (second_loop locks t g) sat).1
          (i, s) (mem-states_of g i s at_i))
        l here
