-- ===== src/Abstraction/Concurrent/Explore/Safe.antt =====
-- What the check of the conflicts needs holds of the initial states and is kept by every step.
use liss.Common.{
  ℕ, suc, ◌≤◌, ◌≡◌, ◌⊎◌, inl, inr, refl, sym, ap, ◌∙◌, subst, Bool, true, false, ◌||◌, ◌&&◌, List,
  [], ◌∷◌, ◌++◌, none, some, arith, map, length, length-replicate, get_elem?, All, All-append,
  All-mem, All-of_mem, Bool-cases, Option-cases, Memᴰ,
}
use liss.Types.Tagged.{max_payload}
use liss.Cfg.Automaton.{RewardState}
use liss.Abstraction.Symbol.{Symbol, OpClass, thread_id}
use liss.Abstraction.State.{ConcurrentState, new_state}
use liss.Abstraction.Concurrent.Defs.{ThreadAutomaton, ConcurrentAutomaton}
use liss.Abstraction.Concurrent.Conflicts.{
  Checked, forbidden, allowed, broken, out_of_fuel, apply_bad_trace_dnf,
}
use liss.Abstraction.Concurrent.Conflicts.Total.{
  IsConflict, Answers, LockOf, apply_bad_trace_dnf-Answers,
}
use liss.Abstraction.Concurrent.Forbid.Ready.{IsReady}
use liss.Abstraction.Concurrent.Step.{
  effect, fire, apply_symbol, record_check, Applied, applied, null, failed, place, add_reward,
  further, push_successors, deadlock_states, finish_step, successors, can_fire, must_fire,
  may_block,
}
use liss.Abstraction.Concurrent.Step.Schedule.{successors-Stepped}
use liss.Abstraction.Concurrent.Explore.{at_init, spread, spread_all, initial_states}

-- The conflicts of the state are conflicts of the automaton, and it has a bit for every lock.
abbrev pub IsSafe : ConcurrentAutomaton → ConcurrentState → Type 0
IsSafe a s =
    All (IsConflict (length a.conflicts)) s.conflicts × (length s.locksviolated ≡ a.locks_size)

All-map_image {κ} :
    (P : ConcurrentState → Type κ) (f : ConcurrentState → ConcurrentState)
    (l : List ConcurrentState)
    → ((s : ConcurrentState) → P s → P (f s))
    → All P l
    → All P (map f l)
All-map_image P f [] h p = tt
All-map_image P f (s ∷ l) h p = (h s p.0, All-map_image P f l h p.1)

module _ (a : ConcurrentAutomaton) where
  spread-IsSafe :
      (i : ℕ) (inits : List RewardState) (states : List ConcurrentState)
      → All (IsSafe a) states
      → All (IsSafe a) (spread i inits states)
  unfolding spread
  spread-IsSafe i [] states h = tt
  spread-IsSafe i (init ∷ inits) states h =
      All-append (IsSafe a) (map (at_init i init) states) (spread i inits states)
        (All-map_image (IsSafe a) (at_init i init) states (λ s p. p) h)
        (spread-IsSafe i inits states h)

  spread_all-IsSafe :
      (i : ℕ) (ths : List ThreadAutomaton) (states : List ConcurrentState)
      → All (IsSafe a) states
      → All (IsSafe a) (spread_all i ths states)
  unfolding spread_all
  spread_all-IsSafe i [] states h = h
  spread_all-IsSafe i (th ∷ ths) states h =
      spread_all-IsSafe (suc i) ths (spread i th.initial_states states)
        (spread-IsSafe i th.initial_states states h)

  initial_states-IsSafe : All (IsSafe a) (initial_states a)
  unfolding initial_states
  initial_states-IsSafe =
      spread_all-IsSafe 0 a.threads (new_state (length a.threads) a.locks_size ∷ [])
        ((tt, length-replicate a.locks_size false), tt)

  -- What a step keeps of the state.
  abbrev Same : ConcurrentState → ConcurrentState → Type 0
  Same s s' = (s'.conflicts ≡ s.conflicts) × (s'.locksviolated ≡ s.locksviolated)

  Same-IsSafe : (s s' : ConcurrentState) → Same s s' → IsSafe a s → IsSafe a s'
  Same-IsSafe s s' (e, e') h =
      (subst (All (IsConflict (length a.conflicts))) (sym e) h.0, ap (λ l. length l) e' ∙ h.1)

  place-IsSafe :
      (th : ThreadAutomaton) (thread : ℕ) (next : ConcurrentState) (p : RewardState)
      → IsSafe a next
      → IsSafe a (place a th thread next p)
  unfolding place
  place-IsSafe th thread next p h = elim (Bool-cases (a.concurrent || th.is_final_state p.state)) [
    | inl e ↦ rw e h
    | inr e ↦ rw e h
  ]

  deadlock_states-IsSafe :
      (th : ThreadAutomaton) (thread : ℕ) (s : ConcurrentState)
      → IsSafe a s
      → All (IsSafe a) (deadlock_states a th thread s)
  unfolding deadlock_states
  deadlock_states-IsSafe th thread s h = elim (Option-cases (get_elem? s.threads thread)) [
    | inl e ↦ rw (e, deadlock_states) tt
    | inr (z, e) ↦ elim (Bool-cases (a.deadlock && th.is_final_state z)) [
      | inl d ↦ rw (e, deadlock_states) (rw d (h, tt))
      | inr d ↦ rw (e, deadlock_states) (rw d tt)
    ]
  ]

  further-IsSafe :
      (th : ThreadAutomaton) (thread : ℕ) (next : ConcurrentState) (succs : List RewardState)
      → IsSafe a next
      → IsSafe a ((further a th thread next succs).0)
        × All (IsSafe a) ((further a th thread next succs).1)
  unfolding further
  further-IsSafe th thread next [] h = (h, tt)
  further-IsSafe th thread next (p ∷ ps) h =
      let copy = place a th thread (add_reward next p) p in
      let safe = place-IsSafe th thread (add_reward next p) p h in
      let (last, out) = further-IsSafe th thread (add_reward next p) ps h in
      (
        last,
        (
          safe,
          All-append (IsSafe a) (deadlock_states a th thread copy)
              ((further a th thread (add_reward next p) ps).1)
              (deadlock_states-IsSafe th thread copy safe) out,
        ),
      )

  push_successors-IsSafe :
      (th : ThreadAutomaton) (thread : ℕ) (next : ConcurrentState) (succs : List RewardState)
      (out : List ConcurrentState)
      → IsSafe a next
      → push_successors a th thread next succs ≡ some out
      → All (IsSafe a) out
  unfolding push_successors
  push_successors-IsSafe th thread next [] out h e = cc
  push_successors-IsSafe th thread next (p ∷ ps) out h e =
      let first = place a th thread (add_reward next p) p in
      let safe = place-IsSafe th thread (add_reward next p) p h in
      let (last, rest) = further-IsSafe th thread first ps safe in
      subst (All (IsSafe a))
        (some_inj
          ((further a th thread first ps).0 ∷ deadlock_states a th thread first
            ++ (further a th thread first ps).1)
          out e)
        (
          last,
          All-append (IsSafe a) (deadlock_states a th thread first)
              ((further a th thread first ps).1) (deadlock_states-IsSafe th thread first safe) rest,
        )
    where
      some_inj : (x y : List ConcurrentState) → some x ≡ some y → x ≡ y
      some_inj x y q = cc

  effect-Same :
      (op : OpClass) (v : ℕ) (s s' : ConcurrentState) (progress : Bool)
      → effect op v s ≡ some (s', progress)
      → Same s s'
  unfolding effect
  effect-Same _ v s s' progress e = (ground arith, ground arith)

module _ (a : ConcurrentAutomaton) (few : length a.conflicts ≤ suc max_payload)
    (ready : IsReady a) where
  check-Answers :
      (sigma : Symbol) (s : ConcurrentState)
      → IsSafe a s
      → Answers (length a.conflicts) a.locks_size (apply_bad_trace_dnf a sigma s)
  check-Answers sigma s h =
      subst (λ k. Answers (length a.conflicts) k (apply_bad_trace_dnf a sigma s)) h.1
        (apply_bad_trace_dnf-Answers a sigma s few ready.0.0
          (subst (λ k. All (LockOf k) a.conflicts) (sym h.1) ready.0.1) h.0)

  fire-IsSafe :
      (s t : ConcurrentState) (sigma : Symbol) (progress : Bool)
      → IsSafe a s
      → fire a s sigma ≡ applied t progress
      → IsSafe a t
  unfolding fire
  fire-IsSafe s t sigma progress h e =
      elim (Option-cases
        (effect sigma.operation sigma.variable (record s { current = some (thread_id sigma) }))) [
          | inl q ↦ ground arith
          | inr ((s', p), q) ↦
              checked (apply_bad_trace_dnf a sigma s') s' p
                (check-Answers sigma s' (
                  Same-IsSafe a s s'
                    (effect-Same a sigma.operation sigma.variable
                      (record s { current = some (thread_id sigma) }) s' p q)
                    h))
                (rw (q, fire) at e)
        ]
    where
      checked :
          (c : Checked) (s' : ConcurrentState) (p : Bool)
          → Answers (length a.conflicts) a.locks_size c
          → record_check s' p c ≡ applied t progress
          → IsSafe a t
      checked (allowed cs vs) s' p g e = subst (IsSafe a) applied_inj g
        where
          applied_inj : record s' { conflicts = cs; locksviolated = vs } ≡ t
          applied_inj = cc
      checked forbidden s' p g e = cc
      checked broken s' p g e = cc
      checked out_of_fuel s' p g e = cc

  apply_cases :
      (s t : ConcurrentState) (sigma : Symbol) (progress : Bool)
      → apply_symbol a s sigma ≡ applied t progress
      → (fire a s sigma ≡ applied t progress) ⊎ (t ≡ record s { current = none })
  unfolding apply_symbol
  apply_cases s t sigma progress e = elim (Bool-cases (must_fire s sigma)) [
    | inl must ↦ elim (Option-cases (can_fire sigma.operation sigma.variable s)) [
      | inl q ↦ ground arith
      | inr (b, q) ↦ elim (Bool-cases b) [
        | inl fires ↦ inl (ground arith)
        | inr blocked ↦ ground arith
      ]
    ]
    | inr may ↦ elim (Bool-cases (may_block sigma.operation)) [
      | inl blocks ↦ inr (ground arith)
      | inr runs ↦ inl (ground arith)
    ]
  ]

  apply_symbol-IsSafe :
      (s t : ConcurrentState) (sigma : Symbol) (progress : Bool)
      → IsSafe a s
      → apply_symbol a s sigma ≡ applied t progress
      → IsSafe a t
  apply_symbol-IsSafe s t sigma progress h e = elim (apply_cases s t sigma progress e) [
    | inl fired ↦ fire-IsSafe s t sigma progress h fired
    | inr freed ↦ Same-IsSafe a s t (ap (λ u. u.conflicts) freed, ap (λ u. u.locksviolated) freed) h
  ]

  finish_step-IsSafe :
      (th : ThreadAutomaton) (thread : ℕ) (succs : List RewardState) (r : Applied)
      (out : List ConcurrentState)
      → ((t : ConcurrentState) (progress : Bool) → r ≡ applied t progress → IsSafe a t)
      → finish_step a th thread succs r ≡ some out
      → All (IsSafe a) out
  unfolding finish_step
  finish_step-IsSafe th thread succs failed out h e = cc
  finish_step-IsSafe th thread succs null [] h e = tt
  finish_step-IsSafe th thread succs null (x ∷ out) h e = cc
  finish_step-IsSafe th thread succs (applied next true) out h e =
      push_successors-IsSafe a th thread next succs out (h next true refl) e
  finish_step-IsSafe th thread succs (applied next false) out h e = single (Bool-cases a.concurrent)
    where
      only : next ∷ [] ≡ out → All (IsSafe a) out
      only q = subst (All (IsSafe a)) q (h next false refl, tt)

      single : (a.concurrent ≡ true) ⊎ (a.concurrent ≡ false) → All (IsSafe a) out
      single (inl c) = ground arith
      single (inr c) = only (ground arith)

  -- On a ready automaton of at most 0x7fff conflicts every successor of a safe state is safe.
  pub successors-IsSafe :
      (s : ConcurrentState) (sigma : Symbol) (out : List ConcurrentState)
      → IsSafe a s
      → successors a s sigma ≡ some out
      → All (IsSafe a) out
  successors-IsSafe s sigma out h e = All-of_mem (IsSafe a) out (λ t m.
      let w = successors-Stepped a s t sigma out e m in
      All-mem (IsSafe a) out t
        (finish_step-IsSafe w.th (thread_id sigma) (w.succs.0 ∷ w.succs.1) (apply_symbol a s sigma)
          out (λ u p q. apply_symbol-IsSafe s u sigma p h q) w.finished)
        m)

-- The states that the search can meet.
pub data Reachable (a : ConcurrentAutomaton) : ConcurrentState → Type 0 where
  start : (s : ConcurrentState) → Memᴰ s (initial_states a) → Reachable a s
  step :
      (s t : ConcurrentState) (sigma : Symbol) (out : List ConcurrentState)
      → Reachable a s
      → successors a s sigma ≡ some out
      → Memᴰ t out
      → Reachable a t

module _ (a : ConcurrentAutomaton) (few : length a.conflicts ≤ suc max_payload)
    (ready : IsReady a) where
  Reachable-IsSafe : (s : ConcurrentState) → Reachable a s → IsSafe a s
  Reachable-IsSafe s (Reachable.start _ m) =
      All-mem (IsSafe a) (initial_states a) s (initial_states-IsSafe a) m
  Reachable-IsSafe t (Reachable.step s _ sigma out r e m) =
      All-mem (IsSafe a) out t (successors-IsSafe a few ready s sigma out (Reachable-IsSafe s r) e)
        m

-- On a ready automaton of at most 0x7fff conflicts, the check of the conflicts answers in every
-- reachable state and for every symbol: it breaks no assertion, reads nothing out of bounds, throws
-- nothing and ends within its fuel, and it leaves the conflicts in range and the bits as many.
pub Reachable-Answers :
    (a : ConcurrentAutomaton) (s : ConcurrentState) (sigma : Symbol)
    → length a.conflicts ≤ suc max_payload
    → IsReady a
    → Reachable a s
    → Answers (length a.conflicts) a.locks_size (apply_bad_trace_dnf a sigma s)
Reachable-Answers a s sigma few ready r =
    check-Answers a few ready sigma s (Reachable-IsSafe a few ready s r)
