-- ===== src/Examples/Numbering.antt =====
-- A wrapper over an automaton that offers two symbols, one of which has a number.
use liss.Common.{ℕ, ◌≡◌, refl, false, List, [], ◌∷◌, some, arith}
use liss.Abstraction.Symbol.{Symbol, symbol_eq, location_eq}
use liss.Abstraction.Compressed.{
  Inner, SymbolTable, InclusionResult, wrapper_next_symbols, number_all, number_of, add_symbol,
  translate_result,
}
use liss.Abstraction.Compressed.Table.{
  IsTable, Extends, AreSame, translate_result-wrapper_next_symbols,
}
use liss.Examples.Data.{read_x, write_x}

abbrev offers_two : Inner ℕ Symbol
offers_two = record {
  initial_states = 0 ∷ [];
  is_final_state = λ s. false;
  next_symbols = λ s. write_x ∷ read_x ∷ write_x ∷ [];
  successors = λ s a. s ∷ [];
  is_epsilon = λ a. false;
}

abbrev with_read : SymbolTable Symbol
with_read = record { symbol_map = (read_x, 0) ∷ []; symbol_translation = read_x ∷ [] }

abbrev with_both : SymbolTable Symbol
with_both = record {
  symbol_map = (read_x, 0) ∷ (write_x, 1) ∷ [];
  symbol_translation = read_x ∷ write_x ∷ [];
}

wrapper_next_symbols_test :
    wrapper_next_symbols symbol_eq offers_two 0 with_read ≡ (with_both, 1 ∷ 0 ∷ 1 ∷ [])
unfolding wrapper_next_symbols number_all number_of add_symbol symbol_eq location_eq
wrapper_next_symbols_test = refl

abbrev numbered_trace : InclusionResult ℕ
numbered_trace = record {
  included = false;
  bound_hit = false;
  max_bound = 3;
  counter_example = 1 ∷ 0 ∷ 1 ∷ [];
}

translate_result-wrapper_next_symbols_example :
    IsTable symbol_eq (wrapper_next_symbols symbol_eq offers_two 0 with_read).0
    × Extends symbol_eq with_read (wrapper_next_symbols symbol_eq offers_two 0 with_read).0
    × ((trace : List Symbol) × (translate_result symbol_eq with_both numbered_trace
          ≡ some (record {
            included = false;
            bound_hit = false;
            max_bound = 3;
            counter_example = trace;
          }))
        × AreSame symbol_eq trace (write_x ∷ read_x ∷ write_x ∷ []))
unfolding wrapper_next_symbols number_all number_of add_symbol symbol_eq location_eq
translate_result-wrapper_next_symbols_example =
    translate_result-wrapper_next_symbols symbol_eq offers_two 0 with_read with_both numbered_trace
      (refl, tt) (omega arith) ([], refl) refl
