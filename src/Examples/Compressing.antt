-- ===== src/Examples/Compressing.antt =====
-- An automaton of three states that is numbered from a table that holds one symbol already.
use mathlib.Core.Option
use liss.Common.{none, not, ℕ, zero, suc, ◌≡◌, refl, true, false, List, [], ◌∷◌, some, ◌==◌, ltb}
use liss.Abstraction.Compressed.{Inner}
use liss.Abstraction.Compressed.Explore.{
  from_automaton_only, from_concurrent_automaton, known_symbols,
}
use liss.Abstraction.Compressed.Operations.{
  are_independent, CompressedAutomaton, int_successors, int_next_symbols,
}

abbrev offered_at : ℕ → List ℕ
offered_at zero = 7 ∷ []
offered_at (suc zero) = 8 ∷ 9 ∷ []
offered_at (suc (suc s)) = 9 ∷ []

abbrev states_after : ℕ → ℕ → List ℕ
states_after zero a = 1 ∷ 2 ∷ []
states_after (suc zero) a = 2 ∷ []
states_after (suc (suc s)) a = []

abbrev three_states : Inner ℕ ℕ
three_states = record {
  initial_states = 0 ∷ [];
  is_final_state = λ s. s == 2;
  next_symbols = offered_at;
  successors = states_after;
  is_epsilon = λ a. a == 8;
}

abbrev one_symbol : CompressedAutomaton ℕ
one_symbol = record {
  initial_states = [];
  final = [];
  epsilon = false ∷ [];
  table = record { symbol_map = (9, 0) ∷ []; symbol_translation = 9 ∷ [] };
  transitions = [];
  successor_filter = [];
}

-- The states 0, 1 and 2 get the numbers 0, 1 and 2, and the symbols 9, 7 and 8 too.
abbrev numbered : CompressedAutomaton ℕ
numbered = record {
  initial_states = 0 ∷ [];
  final = false ∷ false ∷ true ∷ [];
  epsilon = false ∷ false ∷ true ∷ [];
  table = record {
    symbol_map = (9, 0) ∷ (7, 1) ∷ (8, 2) ∷ [];
    symbol_translation = 9 ∷ 7 ∷ 8 ∷ [];
  };
  transitions = ((1, 1 ∷ 2 ∷ []) ∷ []) ∷ ((2, 2 ∷ []) ∷ (0, 2 ∷ []) ∷ []) ∷ [] ∷ [];
  successor_filter = [];
}

from_concurrent_automaton_test :
    from_concurrent_automaton ◌==◌ ◌==◌ ltb three_states 3 one_symbol ≡ some numbered
unfolding from_concurrent_automaton known_symbols
from_concurrent_automaton_test = refl

from_automaton_only_test :
    Option.map (λ r. r.table.symbol_translation) (from_automaton_only ◌==◌ ◌==◌ ltb three_states 3)
    ≡ some (7 ∷ 9 ∷ 8 ∷ [])
unfolding from_automaton_only known_symbols
from_automaton_only_test = refl

are_independent_test : are_independent (λ a b. not (a == b)) (9 ∷ 7 ∷ []) 0 1 ≡ some true
unfolding are_independent
are_independent_test = refl

out_of_range_test : are_independent (λ a b. not (a == b)) (9 ∷ 7 ∷ []) 0 2 ≡ none
unfolding are_independent
out_of_range_test = refl

int_successors_test : int_successors numbered 0 1 ≡ some (1 ∷ 2 ∷ [])
unfolding int_successors
int_successors_test = refl

int_next_symbols_test : int_next_symbols numbered 1 ≡ some (2 ∷ 0 ∷ [])
unfolding int_next_symbols
int_next_symbols_test = refl
