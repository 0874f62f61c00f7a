-- ===== src/Abstraction/Concurrent/Explore.antt =====
-- `int_is_final_state`, `int_initial_states`, `int_next_symbols` and `next_single` of
-- abstraction/concurrent_automaton.cpp. `none` is an index out of range.
pub mod Offered
pub mod Safe
use mathlib.Core.Option
use liss.Common.{
  ℕ, zero, suc, Bool, true, false, ◌&&◌, ◌||◌, not, List, [], ◌∷◌, ◌++◌, Option, none, some, map,
  if◌then◌else◌, length, is_empty, get_elem?, set,
}
use liss.Common.Int.{ℤ, ◌==ℤ◌}
use liss.Cfg.Automaton.{RewardState}
use liss.Abstraction.Symbol.{Symbol, is_epsilon}
use liss.Abstraction.State.{ConcurrentState, new_state, no_state}
use liss.Abstraction.Concurrent.Defs.{ThreadAutomaton, ConcurrentAutomaton}
use liss.Abstraction.Concurrent.Conflicts.{contains}
use liss.Synthesis.Traces.{◌>>=◌}

-- The loop of `int_is_final_state`: the threads that have not been ended are at final states.
unfoldable pub all_final : List ThreadAutomaton → List ℤ → Option Bool
all_final ths [] = some true
all_final [] (z ∷ zs) = if z ==ℤ no_state then all_final [] zs else none
all_final (th ∷ ths) (z ∷ zs) =
    if not (z ==ℤ no_state) && not (th.is_final_state z) then some false else all_final ths zs

unfoldable pub is_final_state : ConcurrentAutomaton → ConcurrentState → Option Bool
unfolding all_final
is_final_state a s = all_final a.threads s.threads

abbrev pub at_init : ℕ → RewardState → ConcurrentState → ConcurrentState
at_init i init s = record s { threads = set s.threads i init.state }

-- One round of `int_initial_states`: every state so far, with thread `i` at each initial state.
unfoldable pub spread : ℕ → List RewardState → List ConcurrentState → List ConcurrentState
spread i [] duplicates = []
spread i (init ∷ inits) duplicates = map (at_init i init) duplicates ++ spread i inits duplicates

unfoldable pub spread_all : ℕ → List ThreadAutomaton → List ConcurrentState → List ConcurrentState
unfolding spread
spread_all i [] states = states
spread_all i (th ∷ ths) states = spread_all (suc i) ths (spread i th.initial_states states)

unfoldable pub initial_states : ConcurrentAutomaton → List ConcurrentState
unfolding spread_all new_state
initial_states a = spread_all 0 a.threads (new_state (length a.threads) a.locks_size ∷ [])

-- The filter of `next_single`.
unfoldable pub passes : ConcurrentAutomaton → Symbol → Bool
passes a s = is_empty a.successor_filter || is_epsilon s || contains s a.successor_filter

unfoldable pub push_passing : ConcurrentAutomaton → List Symbol → List Symbol
unfolding passes
push_passing a [] = []
push_passing a (s ∷ l) = let rest = push_passing a l in if passes a s then s ∷ rest else rest

unfoldable pub next_single : ConcurrentAutomaton → ConcurrentState → ℕ → Option (List Symbol)
unfolding push_passing
next_single a s thread = get_elem? s.threads thread >>= λ z.
    if z ==ℤ no_state
    then some []
    else get_elem? a.threads thread >>= λ th. some (push_passing a (th.next_symbols z))

-- The loop over the threads `i` to `i + n - 1`.
unfoldable pub next_from : ConcurrentAutomaton → ConcurrentState → ℕ → ℕ → Option (List Symbol)
unfolding next_single
next_from a s i zero = some []
next_from a s i (suc n) =
    next_single a s i >>= λ symbols. next_from a s (suc i) n >>= λ rest. some (symbols ++ rest)

unfoldable pub next_symbols : ConcurrentAutomaton → ConcurrentState → Option (List Symbol)
unfolding next_from
next_symbols a s = elim s.current [
  | none ↦ next_from a s 0 (length s.threads)
  | some t ↦ next_single a s t
]
