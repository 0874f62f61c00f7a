-- ===== src/Actions/Loop/Sound.antt =====
-- The loop keeps the automaton ready, and what its ends say.
use liss.Common.{
  ℕ, zero, suc, ◌≡◌, ◌≢◌, inl, inr, refl, sym, ap, subst, true, false, List, [], ◌∷◌, ◌++◌, Option,
  none, some, arith, All, All-append, All-map, All-mem, All-of_mem, Bool-cases, Option-cases,
}
use liss.Types.{not_dnf, Disj}
use liss.Abstraction.Symbol.{Symbol}
use liss.Abstraction.Concurrent.Forbid.{add_forbidden_traces}
use liss.Abstraction.Concurrent.Forbid.Ready.{IsReady, IsSolid, add_forbidden_traces-IsReady}
use liss.Synthesis.Constraint.{not_atom}
use liss.Synthesis.Synchronisation.{generate_sync}
use liss.Synthesis.Traces.{LockLists, LockSymbols, locks_to_symbols, remove_preemption}
use liss.Synthesis.Traces.Split.{IsLock, Uninterrupted, remove_preemption-IsLock}
use liss.Synthesis.Traces.Duplicates.{remove_duplicates, remove_duplicates_lem}
use liss.Synthesis.Reorderings.Process.{process_trace}
use liss.Actions.Inclusion.{Inclusion}
use liss.Actions.Loop.{
  Tools, LoopState, LoopEnd, bound_reached, no_more_locks, verified, broken, unfinished,
  infer_locks, forbid, synth_loop,
}

-- A disjunction of locks with two uninterrupted sides at least.
abbrev pub IsChoice : Disj LockLists → Type 0
IsChoice d = (d ≢ []) × All IsLock d

infer_locks-IsChoice :
    (tools : Tools) (st : LoopState) (trace : List Symbol) (locks : LockSymbols) (counter : ℕ)
    → infer_locks tools st trace ≡ some (locks, counter)
    → All IsChoice locks
unfolding infer_locks
infer_locks-IsChoice tools st trace locks counter e =
    elim (Option-cases
      (process_trace tools.size tools.solver tools.solver_fuel trace st.lock_symbols)) [
        | inl q ↦ absurd (ground arith)
        | inr (bad_cond, q) ↦
            elim (Option-cases (
              locks_to_symbols (generate_sync (not_dnf not_atom bad_cond) st.lock_counter).0
                trace)) [
                  | inl q' ↦ absurd (broken_at (rw (q, q') at e))
                  | inr (symbols, q') ↦ elim (Option-cases (remove_preemption symbols)) [
                    | inl q'' ↦ absurd (broken_at (rw (q, q', q'') at e))
                    | inr (split, q'') ↦ subst (All IsChoice) (ap first (rw (q, q', q'') at e)) (
                        All-of_mem IsChoice (remove_duplicates tools.pointers split) (λ d m.
                          All-mem IsChoice split d (remove_preemption-IsLock symbols split q'')
                            ((remove_duplicates_lem tools.pointers split d).1 m)))
                  ]
                ]
      ]
  where
    first : Option (LockSymbols × ℕ) → LockSymbols
    first none = []
    first (some (l, n)) = l

    broken_at : ◌≡◌ {A = Option (LockSymbols × ℕ)} none (some (locks, counter)) → ⊥
    broken_at q = cc

IsSolid-IsChoice : (locks : LockSymbols) → All IsChoice locks → All (All IsSolid) locks
IsSolid-IsChoice locks h =
    All-map IsChoice (All IsSolid) locks
      (λ d c.
        All-map IsLock IsSolid d (λ l k. All-map Uninterrupted (λ s. s ≢ []) l (λ s u. u.1) k.1)
          c.1)
      h

-- What the loop keeps: an automaton that is ready, and locks whose sides are uninterrupted.
pub record IsSound (st : LoopState) : Type 0 where
  pub ready : IsReady st.concurrent
  pub choices : All IsChoice st.lock_symbols

-- The state after a round that found `found`: the automaton forbids their traces as well, the locks are
-- added to those before, and the counter goes on from where the inference left it.
pub record IsForbidden (st : LoopState) (found : LockSymbols) (counter : ℕ) (next : LoopState)
    : Type 0 where
  pub automaton : add_forbidden_traces st.concurrent found ≡ some next.concurrent
  pub locks : next.lock_symbols ≡ st.lock_symbols ++ found
  pub goes_on : next.lock_counter ≡ counter

-- The rounds from one state of the loop to another: in each the test has a counter-example, locks are
-- inferred for it, and they are forbidden.
pub data Rounds (tools : Tools) : LoopState → LoopState → Type 0 where
  no_round : (st : LoopState) → Rounds tools st st
  round :
      (st next last : LoopState) (result : Inclusion Symbol) (found : LockSymbols) (counter : ℕ)
      → tools.test st.concurrent ≡ some result
      → result.included ≡ false
      → infer_locks tools st result.counter_example ≡ some (found, counter)
      → found ≢ []
      → IsForbidden st found counter next
      → Rounds tools next last
      → Rounds tools st last

forbid-IsSound :
    (st : LoopState) (locks : LockSymbols) (counter : ℕ)
    → IsSound st
    → All IsChoice locks
    → (next : LoopState) × (forbid st locks counter ≡ some next)
      × IsSound next
      × IsForbidden st locks counter next
unfolding forbid
forbid-IsSound st locks counter h c =
    let (a, e, r) =
      add_forbidden_traces-IsReady st.concurrent locks (IsSolid-IsChoice locks c) h.ready in
    (
      record { concurrent = a; lock_symbols = st.lock_symbols ++ locks; lock_counter = counter },
      rw e refl,
      record { ready = r; choices = All-append IsChoice st.lock_symbols locks h.choices c },
      record { automaton = e; locks = refl; goes_on = refl },
    )

-- Why the loop ends where it does.
abbrev pub Explains : Tools → LoopEnd → LoopState → Type 0
Explains tools bound_reached st = tools.test st.concurrent ≡ none
Explains tools verified st =
    (result : Inclusion Symbol) × (tools.test st.concurrent ≡ some result)
    × (result.included ≡ true)
Explains tools no_more_locks st =
    (result : Inclusion Symbol) × (counter : ℕ) × (tools.test st.concurrent ≡ some result)
    × (result.included ≡ false)
    × (infer_locks tools st result.counter_example ≡ some ([], counter))
Explains tools broken st =
    (result : Inclusion Symbol) × (tools.test st.concurrent ≡ some result)
    × (infer_locks tools st result.counter_example ≡ none)
Explains tools unfinished st = Unit

abbrev pub Outcome : Tools → LoopState → LoopEnd × LoopState → Type 0
Outcome tools st r = IsSound r.1 × Rounds tools st r.1 × Explains tools r.0 r.1

-- From a state whose automaton is ready and whose locks have uninterrupted sides, the loop keeps
-- both, whatever the fuel. It comes to its last state by rounds: in each the test of the automaton has a
-- counter-example, locks are inferred for it, and the next automaton is this one with the traces of these
-- locks forbidden, the next locks are those before with the new ones after them, and the counter of the
-- locks goes on. A round that infers locks never fails to forbid them. The loop ends as verified only
-- if the test of the automaton at the end shows inclusion, at the bound only if that test fails, without
-- new locks only if the test has a counter-example for which none are inferred, and broken only if the
-- inference fails on one.
pub synth_loop-Outcome :
    (tools : Tools) (fuel : ℕ) (st : LoopState)
    → IsSound st
    → Outcome tools st (synth_loop tools fuel st)
unfolding synth_loop
synth_loop-Outcome tools zero st h = (h, Rounds.no_round st, tt)
synth_loop-Outcome tools (suc fuel) st h = elim (Option-cases (tools.test st.concurrent)) [
  | inl e ↦ ends bound_reached (rw (e, synth_loop) refl) e
  | inr (result, e) ↦ elim (Bool-cases result.included) [
    | inl i ↦ ends verified (rw (e, synth_loop, i) refl) (result, e, i)
    | inr i ↦ elim (Option-cases (infer_locks tools st result.counter_example)) [
      | inl q ↦ ends broken (rw (e, synth_loop, i, q) refl) (result, e, q)
      | inr (found, q) ↦
          go_on (λ next sound. synth_loop-Outcome tools fuel next sound) result e i found.0 found.1
            q
    ]
  ]
]
  where
    ends :
        (o : LoopEnd)
        → synth_loop tools (suc fuel) st ≡ (o, st)
        → Explains tools o st
        → Outcome tools st (synth_loop tools (suc fuel) st)
    ends o e x = subst (Outcome tools st) (sym e) (h, Rounds.no_round st, x)

    go_on :
        ((next : LoopState) → IsSound next → Outcome tools next (synth_loop tools fuel next))
        → (result : Inclusion Symbol) → tools.test st.concurrent ≡ some result
        → result.included ≡ false
        → (locks : LockSymbols) (counter : ℕ)
        → infer_locks tools st result.counter_example ≡ some (locks, counter)
        → Outcome tools st (synth_loop tools (suc fuel) st)
    go_on again result e i [] counter q =
        ends no_more_locks (rw (e, synth_loop, i, q) refl) (result, counter, e, i, q)
    go_on again result e i (d ∷ locks) counter q =
        let (next, f, sound, added) =
          forbid-IsSound st (d ∷ locks) counter h
            (infer_locks-IsChoice tools st result.counter_example (d ∷ locks) counter q) in
        let (sound', rounds, x) = again next sound in
        subst (Outcome tools st) (sym (rw (e, synth_loop, i, q, f) refl)) (
          sound',
          Rounds.round st next (synth_loop tools fuel next).1 result (d ∷ locks) counter e i q
              (λ none_found. cc) added rounds,
          x,
        )
