-- ===== src/Abstraction/Compressed.antt =====
-- abstraction/compressed_automaton.h: automata whose symbols are the 16-bit numbers of a table that
-- grows as symbols are met. An automaton of the library Limi is a record of its operations, and
-- `same` is the equality of two symbols. `none` is a failed assertion or an index out of range.
pub mod Table
pub mod Operations
pub mod Explore
pub mod Interned
pub mod Grown
pub mod Added
pub mod Followed
pub mod Rows
pub mod Covered
pub mod Explored
pub mod Worklist
pub mod Known
pub mod Started
pub mod Represented
pub mod Faithful
use mathlib.Core.Option
use liss.Common.{
  ℕ, zero, suc, ◌+◌, ◌%◌, Bool, true, false, ◌||◌, List, [], ◌∷◌, ◌++◌, map, Option, none, some,
  ◌==◌, if◌then◌else◌, length, get_elem?, any, is_empty, keep,
}
use liss.Cfg.Graph.{◌>>=◌}

pub record Inner {ℓ κ} (S : Type ℓ) (A : Type κ) : Type (ℓ ⊔ κ) where
  pub initial_states : List S
  pub is_final_state : S → Bool
  pub next_symbols : S → List A
  pub successors : S → A → List S
  pub is_epsilon : A → Bool

-- `symbol_map` and `symbol_translation`
pub record SymbolTable {κ} (A : Type κ) : Type κ where
  pub symbol_map : List (A × ℕ)
  pub symbol_translation : List A

-- `Limi::inclusion_result`
pub record InclusionResult {κ} (A : Type κ) : Type κ where
  pub included : Bool
  pub bound_hit : Bool
  pub max_bound : ℕ
  pub counter_example : List A

module _ {κ} {A : Type κ} (same : A → A → Bool) where
  -- `symbol_map.find`
  abbrev pub find_symbol : A → List (A × ℕ) → Option ℕ
  find_symbol s [] = none
  find_symbol s ((a, k) ∷ rest) =
      let later = find_symbol s rest in if same a s then some k else later

  -- `add_symbol`: the number of a symbol is a `uint16_t`.
  unfoldable pub add_symbol : A → SymbolTable A → SymbolTable A × ℕ
  add_symbol s t =
      let k = length t.symbol_translation % 65536 in
      (
        record {
          symbol_map = t.symbol_map ++ (s, k) ∷ [];
          symbol_translation = t.symbol_translation ++ s ∷ [];
        },
        k,
      )

  unfoldable pub number_of : A → SymbolTable A → SymbolTable A × ℕ
  unfolding add_symbol
  number_of s t = elim (find_symbol s t.symbol_map) [ none ↦ add_symbol s t | some k ↦ (t, k) ]

  -- The loop of `int_next_symbols`.
  unfoldable pub number_all : List A → SymbolTable A → SymbolTable A × List ℕ
  unfolding number_of
  number_all [] t = (t, [])
  number_all (s ∷ syminner) t =
      let (t1, sy) = number_of s t in
      let (t2, symbols) = number_all syminner t1 in (t2, sy ∷ symbols)

  module _ {ℓ} {S : Type ℓ} (inner : Inner S A) where
    -- The operations of `wrapper_automaton`.
    unfoldable pub wrapper_next_symbols : S → SymbolTable A → SymbolTable A × List ℕ
    unfolding number_all
    wrapper_next_symbols s t = number_all (inner.next_symbols s) t

    unfoldable pub wrapper_successors : S → ℕ → SymbolTable A → Option (List S)
    wrapper_successors s sigma t =
        Option.map (inner.successors s) (get_elem? t.symbol_translation sigma)

    unfoldable pub wrapper_is_epsilon : ℕ → SymbolTable A → Option Bool
    wrapper_is_epsilon sigma t = Option.map inner.is_epsilon (get_elem? t.symbol_translation sigma)

  unfoldable pub translate_all : SymbolTable A → List ℕ → Option (List A)
  translate_all t [] = some []
  translate_all t (s ∷ symbols) = do
    a ← get_elem? t.symbol_translation s
    rest ← translate_all t symbols
    some (a ∷ rest)

  unfoldable pub translate_result : SymbolTable A → InclusionResult ℕ → Option (InclusionResult A)
  unfolding translate_all
  translate_result t oldres = do
    trace ← translate_all t oldres.counter_example
    some (record {
      included = oldres.included;
      bound_hit = oldres.bound_hit;
      max_bound = oldres.max_bound;
      counter_example = trace;
    })
