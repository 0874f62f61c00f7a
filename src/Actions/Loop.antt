-- ===== src/Actions/Loop.antt =====
-- `synth_loop` of actions/synthesis2.cpp. The inclusion test is a parameter, since the loop changes
-- the automaton that it tests; statistics and printing are left out.
pub mod Sound
use mathlib.Core.Option
use liss.Common.{ℕ, zero, suc, Bool, true, false, List, [], ◌∷◌, ◌++◌, Option, none, some}
use liss.Types.{not_dnf}
use liss.Abstraction.Symbol.{Symbol}
use liss.Abstraction.Concurrent.Defs.{ConcurrentAutomaton}
use liss.Abstraction.Concurrent.Forbid.{add_forbidden_traces}
use liss.Synthesis.Constraint.{not_atom}
use liss.Synthesis.Synchronisation.{generate_sync}
use liss.Synthesis.Traces.{LockSymbols, locks_to_symbols, remove_preemption, ◌>>=◌}
use liss.Synthesis.Traces.Duplicates.{Pointers, remove_duplicates}
use liss.Synthesis.Reorderings.Solving.{Solver}
use liss.Synthesis.Reorderings.Process.{ProgramSize, process_trace}
use liss.Actions.Inclusion.{Inclusion}

-- What the loop works with: the test, which fails with `none`, the solver and its fuel, and the
-- comparison of two pointers to symbols.
pub record Tools : Type 0 where
  pub test : ConcurrentAutomaton → Option (Inclusion Symbol)
  pub size : ProgramSize
  pub solver : Solver
  pub solver_fuel : ℕ
  pub pointers : Pointers

-- What the loop changes; `lock_counter` is the one of synchronisation.cpp.
pub record LoopState : Type 0 where
  pub concurrent : ConcurrentAutomaton
  pub lock_symbols : LockSymbols
  pub lock_counter : ℕ

-- The locks of a round for a counter-example, and the counter after it.
unfoldable pub infer_locks : Tools → LoopState → List Symbol → Option (LockSymbols × ℕ)
infer_locks tools st trace =
    process_trace tools.size tools.solver tools.solver_fuel trace st.lock_symbols >>= λ bad_cond.
    let found = generate_sync (not_dnf not_atom bad_cond) st.lock_counter in
    locks_to_symbols found.0 trace >>= λ symbols.
    remove_preemption symbols >>= λ split. some (remove_duplicates tools.pointers split, found.1)

-- The state after a round that found locks.
unfoldable pub forbid : LoopState → LockSymbols → ℕ → Option LoopState
forbid st new_lock_symbols counter =
    add_forbidden_traces st.concurrent new_lock_symbols >>= λ concurrent. some (record {
      concurrent = concurrent;
      lock_symbols = st.lock_symbols ++ new_lock_symbols;
      lock_counter = counter;
    })

-- How the loop ends: at the maximum bound (`false`), without new locks (`true`), or with inclusion
-- (`true`). `broken` is a failed assertion or an index out of range, `unfinished` the end of the fuel.
pub data LoopEnd : Type 0 where
  bound_reached : LoopEnd
  no_more_locks : LoopEnd
  verified : LoopEnd
  broken : LoopEnd
  unfinished : LoopEnd

-- The result of the function, where it returns.
unfoldable pub returned : LoopEnd → Option Bool
returned bound_reached = some false
returned no_more_locks = some true
returned verified = some true
returned broken = none
returned unfinished = none

unfoldable pub synth_loop : Tools → ℕ → LoopState → LoopEnd × LoopState
unfolding infer_locks forbid
synth_loop tools zero st = (unfinished, st)
synth_loop tools (suc fuel) st = elim (tools.test st.concurrent) [
  | none ↦ (bound_reached, st)
  | some result ↦ elim result.included [
    | true ↦ (verified, st)
    | false ↦ elim (infer_locks tools st result.counter_example) [
      | none ↦ (broken, st)
      | some found ↦ elim found.0 [
        | [] ↦ (no_more_locks, st)
        | _ ∷ _ ↦ elim (forbid st found.0 found.1) [
          | none ↦ (broken, st)
          | some next ↦ synth_loop tools fuel next
        ]
      ]
    ]
  ]
]
