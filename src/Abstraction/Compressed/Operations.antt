-- ===== src/Abstraction/Compressed/Operations.antt =====
-- abstraction/compressed_automaton.h: the automaton whose states and symbols are numbers, and what it
-- answers. `none` is an index out of range or a failed assertion.
use mathlib.Core.Option
use liss.Common.{
  ℕ, Bool, false, ◌||◌, List, [], ◌∷◌, map, Option, none, some, ◌==◌, if◌then◌else◌, get_elem?, any,
  is_empty, keep,
}
use liss.Cfg.Graph.{◌>>=◌}
use liss.Abstraction.Compressed.{SymbolTable}

-- A row of `transitions`: a map from the number of a symbol to the numbers of states.
abbrev pub Row : Type 0
Row = List (ℕ × List ℕ)

pub record CompressedAutomaton {κ} (A : Type κ) : Type κ where
  pub initial_states : List ℕ
  pub final : List Bool
  pub epsilon : List Bool
  pub table : SymbolTable A
  pub transitions : List Row
  pub successor_filter : List ℕ

abbrev pub find_key : ℕ → Row → Option (List ℕ)
find_key k [] = none
find_key k ((k', ids) ∷ row) = let rest = find_key k row in if k' == k then some ids else rest

module _ {κ} {A : Type κ} where
  abbrev pub no_automaton : CompressedAutomaton A
  no_automaton = record {
    initial_states = [];
    final = [];
    epsilon = [];
    table = record { symbol_map = []; symbol_translation = [] };
    transitions = [];
    successor_filter = [];
  }

  -- The operations of `compressed_automaton`.
  unfoldable int_initial_states : CompressedAutomaton A → List ℕ
  int_initial_states r = r.initial_states

  unfoldable pub int_is_final_state : CompressedAutomaton A → ℕ → Option Bool
  int_is_final_state r state = get_elem? r.final state

  unfoldable pub int_successors : CompressedAutomaton A → ℕ → ℕ → Option (List ℕ)
  int_successors r state sigma = (get_elem? r.transitions state >>= find_key sigma) >>= λ ids.
      if is_empty ids then none else some ids

  unfoldable pub int_is_epsilon : CompressedAutomaton A → ℕ → Option Bool
  int_is_epsilon r symbol = get_elem? r.epsilon symbol

  abbrev pub allowed : CompressedAutomaton A → ℕ → Bool
  allowed r k =
      is_empty r.successor_filter
      || (elim (get_elem? r.epsilon k) [ none ↦ false | some b ↦ b ])
      || any (λ j. j == k) r.successor_filter

  unfoldable pub int_next_symbols : CompressedAutomaton A → ℕ → Option (List ℕ)
  int_next_symbols r state =
      Option.map (λ (row : Row). keep (allowed r) (map (λ (p : ℕ × List ℕ). p.0) row))
        (get_elem? r.transitions state)

-- `compressed_automaton_independence`: `independence` is that of the symbols.
unfoldable pub are_independent {κ} : {A : Type κ} → (A → A → Bool) → List A → ℕ → ℕ → Option Bool
are_independent independence translation_table a b = do
  x ← get_elem? translation_table a
  y ← get_elem? translation_table b
  some (independence x y)
