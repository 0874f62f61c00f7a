-- ===== src/Abstraction/Concurrent/Step.antt =====
-- `apply_symbol`, `deadlock_states` and `int_successors` of abstraction/concurrent_automaton.cpp.
-- `none` is a failed assertion, an exception or an index out of range.
pub mod Free
pub mod Schedule
use mathlib.Core.Option
use liss.Common.{
  ℕ, zero, suc, ◌+◌, Bool, true, false, ◌&&◌, ◌||◌, not, List, [], ◌∷◌, ◌++◌, Option, none, some,
  ltb, ◌==◌, if◌then◌else◌, length, get_elem?, set, any,
}
use liss.Common.Int.{ℤ, pos, int16, ◌+ℤ◌, ◌==ℤ◌}
use liss.Abstraction.Symbol.{
  Symbol, OpClass, read, write, lock, unlock, wait, wait_not, notify, reset, wait_reset, yield,
  epsilon, tag, thread_id, symbol_eq, is_epsilon, assumes_allow_switch, condyield_is_always_yield,
}
use liss.Abstraction.State.{ConcurrentState, new_state, no_state}
use liss.Abstraction.Concurrent.Defs.{ThreadAutomaton, ConcurrentAutomaton}
use liss.Abstraction.Concurrent.Conflicts.{
  Checked, forbidden, allowed, broken, out_of_fuel, apply_bad_trace_dnf,
}
use liss.Cfg.Automaton.{RewardState}
use liss.Cfg.Graph.{◌>>=◌}

-- `test`, `set` and `reset` of a bit set throw on a position out of range.
abbrev pub put : List Bool → ℕ → Bool → Option (List Bool)
put bits i v = if ltb i (length bits) then some (set bits i v) else none

-- The first `switch`: whether the symbol can be applied.
unfoldable pub can_fire : OpClass → ℕ → ConcurrentState → Option Bool
can_fire wait_reset v s = get_elem? s.conditionals v
can_fire wait v s = get_elem? s.conditionals v
can_fire wait_not v s = Option.map not (get_elem? s.conditionals v)
can_fire lock v s = Option.map not (get_elem? s.locks v)
can_fire _ v s = some true

-- The operations for which the second `switch` looks at the scheduler.
abbrev pub may_block : OpClass → Bool
may_block wait_reset = true
may_block wait = true
may_block wait_not = true
may_block lock = true
may_block _ = false

abbrev pub give_up : ConcurrentState → ConcurrentState × Bool
give_up s = (record s { current = none }, false)

-- The third `switch`, on a copy of the state whose current thread is set: the new state and
-- `progress`.
unfoldable pub effect : OpClass → ℕ → ConcurrentState → Option (ConcurrentState × Bool)
effect lock v s = get_elem? s.locks v >>= λ taken.
    if taken then some (give_up s) else some (record s { locks = set s.locks v true }, true)
effect unlock v s = put s.locks v false >>= λ bits. some (record s { locks = bits }, true)
effect notify v s =
    put s.conditionals v true >>= λ bits. some (record s { conditionals = bits }, true)
effect reset v s =
    put s.conditionals v false >>= λ bits. some (record s { conditionals = bits }, true)
effect wait_reset v s = get_elem? s.conditionals v >>= λ notified.
    if not notified
    then some (give_up s)
    else some (record s { conditionals = set s.conditionals v false }, true)
effect wait v s = get_elem? s.conditionals v >>= λ notified.
    if not notified then some (give_up s) else some (s, true)
effect wait_not v s =
    get_elem? s.conditionals v >>= λ notified. if notified then some (give_up s) else some (s, true)
effect yield v s = some (record s { current = none }, true)
effect read v s = some (s, true)
effect write v s = some (s, true)
effect epsilon v s = some (s, true)
effect tag v s = some (s, true)

-- The result of `apply_symbol`: a null pointer, or a state with `progress`.
pub data Applied : Type 0 where
  null : Applied
  applied : ConcurrentState → Bool → Applied
  failed : Applied

-- Whether the scheduler is free to let the symbol wait: no thread is running, or the symbol is no
-- preemption point.
abbrev pub must_fire : ConcurrentState → Symbol → Bool
must_fire s sigma =
    (elim s.current [ none ↦ true | some t ↦ false ])
    || sigma.assumed && not assumes_allow_switch
    || sigma.synthesised

abbrev pub record_check : ConcurrentState → Bool → Checked → Applied
record_check s progress forbidden = null
record_check s progress (allowed conflicts violated) =
    applied (record s { conflicts = conflicts; locksviolated = violated }) progress
record_check s progress broken = failed
record_check s progress out_of_fuel = failed

-- From the third `switch` to the end.
unfoldable pub fire : ConcurrentAutomaton → ConcurrentState → Symbol → Applied
fire a s sigma =
    elim (effect sigma.operation sigma.variable (record s { current = some (thread_id sigma) })) [
      | none ↦ failed
      | some (s', progress) ↦ record_check s' progress (apply_bad_trace_dnf a sigma s')
    ]

-- From the second `switch` to the end.
unfoldable pub yield_or_fire : ConcurrentAutomaton → ConcurrentState → Symbol → Applied
unfolding fire
yield_or_fire a s sigma =
    if condyield_is_always_yield && may_block sigma.operation && not (must_fire s sigma)
    then applied (record s { current = none }) false
    else fire a s sigma

unfoldable pub apply_symbol : ConcurrentAutomaton → ConcurrentState → Symbol → Applied
unfolding yield_or_fire can_fire
apply_symbol a s sigma =
    if must_fire s sigma
    then elim (can_fire sigma.operation sigma.variable s) [
      | none ↦ failed
      | some false ↦ null
      | some true ↦ yield_or_fire a s sigma
    ]
    else yield_or_fire a s sigma

-- `deadlock_states`
unfoldable pub deadlock_states :
    ConcurrentAutomaton → ThreadAutomaton → ℕ → ConcurrentState → List ConcurrentState
deadlock_states a th thread s = elim (get_elem? s.threads thread) [
  | none ↦ []
  | some state ↦
      if a.deadlock && th.is_final_state state
      then record s { threads = set s.threads thread no_state } ∷ []
      else []
]

-- `next->reward += p.reward` on an `int16_t`
abbrev pub add_reward : ConcurrentState → RewardState → ConcurrentState
add_reward next p = record next { reward = int16 (next.reward +ℤ p.reward) }

-- The copy that one successor of the thread gives.
unfoldable pub place :
    ConcurrentAutomaton → ThreadAutomaton → ℕ → ConcurrentState → RewardState → ConcurrentState
place a th thread next p =
    let copy = record next { threads = set next.threads thread p.state } in
    if a.concurrent || th.is_final_state p.state then record copy { current = none } else copy

-- The loop after its first round: the last value of `*next` and what is pushed back.
unfoldable pub further :
    ConcurrentAutomaton
    → ThreadAutomaton
    → ℕ
    → ConcurrentState
    → List RewardState
    → ConcurrentState × List ConcurrentState
further a th thread next [] = (next, [])
further a th thread next (p ∷ ps) =
    let next' = add_reward next p in
    let copy = place a th thread next' p in
    let (last, out) = further a th thread next' ps in
    (last, copy ∷ deadlock_states a th thread copy ++ out)

-- The first round works on `*next` itself, which later rounds change.
unfoldable pub push_successors :
    ConcurrentAutomaton
    → ThreadAutomaton
    → ℕ
    → ConcurrentState
    → List RewardState
    → Option (List ConcurrentState)
push_successors a th thread next [] = none
push_successors a th thread next (p ∷ ps) =
    let first = place a th thread (add_reward next p) p in
    let (last, out) = further a th thread first ps in
    some (last ∷ deadlock_states a th thread first ++ out)

abbrev pub may_run : ConcurrentState → ℕ → Bool
may_run s thread = elim s.current [ none ↦ true | some t ↦ t == thread ]

unfoldable pub finish_step :
    ConcurrentAutomaton
    → ThreadAutomaton
    → ℕ
    → List RewardState
    → Applied
    → Option (List ConcurrentState)
unfolding push_successors
finish_step a th thread succs failed = none
finish_step a th thread succs null = some []
finish_step a th thread succs (applied next false) = if a.concurrent then none else some (next ∷ [])
finish_step a th thread succs (applied next true) = push_successors a th thread next succs

unfoldable pub successors :
    ConcurrentAutomaton → ConcurrentState → Symbol → Option (List ConcurrentState)
unfolding finish_step
successors a s sigma =
    let thread = thread_id sigma in
    if not (may_run s thread)
    then some []
    else get_elem? a.threads thread >>= λ th. get_elem? s.threads thread >>= λ z.
        elim (th.successors z sigma) [
          | [] ↦ none
          | p ∷ ps ↦ finish_step a th thread (p ∷ ps) (apply_symbol a s sigma)
        ]
