-- ===== src/Abstraction/Concurrent/Step/Free.antt =====
-- The two schedulers: applying a symbol, and giving a state to the scheduler, with no running thread.
use mathlib.Core.Option
use liss.Common.{
  ℕ, ◌≡◌, ◌⊎◌, refl, sym, ap, ◌∙◌, inl, inr, Bool, true, false, List, [], ◌∷◌, ◌++◌, map, none,
  some, arith, Bool-cases, Option-cases,
}
use liss.Abstraction.Symbol.{Symbol, OpClass, lock, thread_id}
use liss.Abstraction.State.{ConcurrentState}
use liss.Abstraction.Concurrent.Defs.{ThreadAutomaton, ConcurrentAutomaton}
use liss.Abstraction.Concurrent.Conflicts.{
  Checked, forbidden, allowed, broken, out_of_fuel, apply_bad_trace_dnf,
}
use liss.Abstraction.Concurrent.Step.{
  can_fire, may_block, effect, applied, must_fire, record_check, fire, apply_symbol,
  deadlock_states, add_reward, place, further, push_successors,
}
use liss.Cfg.Automaton.{RewardState}

-- The state with no running thread, and the automaton under the preemptive scheduler.
abbrev pub free : ConcurrentState → ConcurrentState
free s = record s { current = none }

abbrev pub preemptive : ConcurrentAutomaton → ConcurrentAutomaton
preemptive a = record a { concurrent = true }

-- A symbol that cannot block, or that was tested, makes progress.
effect_progress :
    (op : OpClass) (v : ℕ) (s s' : ConcurrentState) (t : ℕ) (progress : Bool)
    → (may_block op ≡ false) ⊎ (can_fire op v s ≡ some true)
    → effect op v (record s { current = some t }) ≡ some (s', progress)
    → progress ≡ true
unfolding effect can_fire
effect_progress lock v s s' t progress h e = ground arith
effect_progress _ v s s' t progress h e = ground arith

can_fire-free :
    (op : OpClass) (v : ℕ) (s : ConcurrentState)
    → (can_fire op v (free s) ≡ can_fire op v s)
      × (may_block op ≡ false → can_fire op v s ≡ some true)
unfolding can_fire
can_fire-free lock v s = (refl, λ h. cc)
can_fire-free _ v s = (refl, ground arith)

fire-free :
    (a : ConcurrentAutomaton) (s : ConcurrentState) (sigma : Symbol)
    → fire a (free s) sigma ≡ fire a s sigma
unfolding fire
fire-free a s sigma = refl

-- The scheduler does not matter to the check of the conflicts.
check_preemptive :
    (a : ConcurrentAutomaton) (sigma : Symbol) (s : ConcurrentState)
    → apply_bad_trace_dnf (preemptive a) sigma s ≡ apply_bad_trace_dnf a sigma s
unfolding apply_bad_trace_dnf
check_preemptive a sigma s = refl

pub apply_preemptive :
    (a : ConcurrentAutomaton) (s : ConcurrentState) (sigma : Symbol)
    → apply_symbol (preemptive a) s sigma ≡ apply_symbol a s sigma
unfolding apply_symbol apply_bad_trace_dnf
apply_preemptive a s sigma = refl

pub fire_progress :
    (a : ConcurrentAutomaton) (s t : ConcurrentState) (sigma : Symbol) (progress : Bool)
    → (may_block sigma.operation ≡ false) ⊎ (can_fire sigma.operation sigma.variable s ≡ some true)
    → fire a s sigma ≡ applied t progress
    → progress ≡ true
unfolding fire
fire_progress a s t sigma progress h e =
    elim (Option-cases
      (effect sigma.operation sigma.variable (record s { current = some (thread_id sigma) }))) [
        | inl q ↦ ground arith
        | inr ((s', p), q) ↦
            checked (apply_bad_trace_dnf a sigma s') s' p
              (effect_progress sigma.operation sigma.variable s s' (thread_id sigma) p h q)
              (rw (q, fire) at e)
      ]
  where
    checked :
        (c : Checked) (s' : ConcurrentState) (p : Bool)
        → p ≡ true
        → record_check s' p c ≡ applied t progress
        → progress ≡ true
    checked (allowed cs vs) s' p h e = cc
    checked forbidden s' p h e = cc
    checked broken s' p h e = cc
    checked out_of_fuel s' p h e = cc

-- With no running thread every symbol is tested, so a null pointer or a state with progress is
-- what the preemptive scheduler gives too.
apply_free :
    (a : ConcurrentAutomaton) (s : ConcurrentState) (sigma : Symbol)
    → (may_block sigma.operation ≡ false) ⊎ (must_fire s sigma ≡ true)
    → apply_symbol a (free s) sigma ≡ apply_symbol a s sigma
unfolding apply_symbol
apply_free a s sigma h =
    let (tested, runs) = can_fire-free sigma.operation sigma.variable s in
    let fired = fire-free a s sigma in ground arith

pub apply_free_progress :
    (a : ConcurrentAutomaton) (s t : ConcurrentState) (sigma : Symbol)
    → apply_symbol a s sigma ≡ applied t true
    → apply_symbol a (free s) sigma ≡ applied t true
unfolding apply_symbol
apply_free_progress a s t sigma e = elim (Bool-cases (must_fire s sigma)) [
  | inl must ↦ apply_free a s sigma (inr must) ∙ e
  | inr may ↦ elim (Bool-cases (may_block sigma.operation)) [
    | inl blocks ↦ ground arith
    | inr runs ↦ apply_free a s sigma (inl runs) ∙ e
  ]
]

place-free :
    (a : ConcurrentAutomaton) (th : ThreadAutomaton) (thread : ℕ) (next : ConcurrentState)
    (p : RewardState)
    → (place (preemptive a) th thread next p ≡ free (place a th thread next p))
      × (place (preemptive a) th thread (free next) p ≡ free (place a th thread next p))
unfolding place
place-free a th thread next p = (ground arith, ground arith)

deadlock_free :
    (a : ConcurrentAutomaton) (th : ThreadAutomaton) (thread : ℕ) (s : ConcurrentState)
    → deadlock_states (preemptive a) th thread (free s) ≡ map free (deadlock_states a th thread s)
unfolding deadlock_states
deadlock_free a th thread s = ground arith

map-append {ℓ κ} :
    {A : Type ℓ} {B : Type κ} (f : A → B) (xs ys : List A) → map f (xs ++ ys) ≡ map f xs ++ map f ys
map-append f [] ys = refl
map-append f (x ∷ xs) ys = ap (λ t. f x ∷ t) (map-append f xs ys)

abbrev pub both : ConcurrentState × List ConcurrentState → ConcurrentState × List ConcurrentState
both r = (free r.0, map free r.1)

further-free :
    (a : ConcurrentAutomaton) (th : ThreadAutomaton) (thread : ℕ) (next : ConcurrentState)
    (ps : List RewardState)
    → further (preemptive a) th thread (free next) ps ≡ both (further a th thread next ps)
unfolding further
further-free a th thread next [] = refl
further-free a th thread next (p ∷ ps) =
    let next' = add_reward next p in
    let copy = place a th thread next' p in
    let ih = further-free a th thread next' ps in
    let q = (place-free a th thread next' p).1 in
    λ i. ((ih i).0, (q i ∷ tail copy (further a th thread next' ps).1 (ap (λ r. r.1) ih) q i))
  where
    tail :
        (copy : ConcurrentState) (out : List ConcurrentState) {out' : List ConcurrentState}
        {copy' : ConcurrentState}
        → out' ≡ map free out
        → copy' ≡ free copy
        → deadlock_states (preemptive a) th thread copy' ++ out'
          ≡ map free (deadlock_states a th thread copy ++ out)
    tail copy out e q =
        rw (q, e, deadlock_free a th thread copy)
          (sym (map-append free (deadlock_states a th thread copy) out))

pub push_free :
    (a : ConcurrentAutomaton) (th : ThreadAutomaton) (thread : ℕ) (next : ConcurrentState)
    (ps : List RewardState)
    → push_successors (preemptive a) th thread next ps
      ≡ Option.map (map free) (push_successors a th thread next ps)
unfolding push_successors
push_free a th thread next [] = refl
push_free a th thread next (p ∷ ps) =
    let first = place a th thread (add_reward next p) p in
    pushed first (place-free a th thread (add_reward next p) p).0
  where
    pushed :
        (first : ConcurrentState) {first' : ConcurrentState}
        → first' ≡ free first
        → some (
            (further (preemptive a) th thread first' ps).0
              ∷ deadlock_states (preemptive a) th thread first'
            ++ (further (preemptive a) th thread first' ps).1)
          ≡ some (
              map free (
                (further a th thread first ps).0 ∷ deadlock_states a th thread first
                ++ (further a th thread first ps).1))
    pushed first q =
        rw (q, further-free a th thread first ps, deadlock_free a th thread first)
          (ap (λ l. some (free (further a th thread first ps).0 ∷ l))
            (sym (
              map-append free (deadlock_states a th thread first)
                (further a th thread first ps).1)))
