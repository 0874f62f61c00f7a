-- ===== src/Automata/Deadlock.antt =====
-- automata/deadlock_algo.h and automata/results.h: the search for a state that is not final and has
-- no successors. `final_states` and `predecessor_map` are left out: only the part of `run` that is
-- commented out reads them.
pub mod Sound
pub mod Complete
pub mod Fuel
use liss.Common.{
  ℕ, zero, suc, ◌+◌, Bool, true, false, ◌&&◌, not, List, [], ◌∷◌, ◌++◌, map, if◌then◌else◌, length,
  any, is_empty,
}

-- What the search uses of the automaton, of `std::equal_to` of the states, and of the chain of the
-- counterexample of the library Limi.
pub record Searched {ℓ κ} (S : Type ℓ) (A : Type κ) : Type (ℓ ⊔ κ) where
  pub initial_states : List S
  pub is_final_state : S → Bool
  pub successors : S → A → List S
  pub next_symbols : S → List A
  pub equal : S → S → Bool
  pub assume : A → Bool
  pub to_list : List A → List A

-- A state with its chain, whose last symbol comes first; a null pointer is the empty chain.
pub record FrontierItem {ℓ κ} (S : Type ℓ) (A : Type κ) : Type (ℓ ⊔ κ) where
  pub s : S
  pub cex_chain : List A

-- The fields that `run` sets when it finds a deadlock; `deadlock_found` and `no_successor` are true.
pub record DeadlockResult {ℓ κ} (S : Type ℓ) (A : Type κ) : Type (ℓ ⊔ κ) where
  pub dead_state : S
  pub impossible_successors : List A
  pub counter_example : List A

-- What `run` does: return with `deadlock_found` false, or with a result, or call `to_list` on a
-- null pointer.
pub data Outcome {ℓ κ} (S : Type ℓ) (A : Type κ) : Type (ℓ ⊔ κ) where
  no_deadlock : Outcome S A
  deadlock : DeadlockResult S A → Outcome S A
  null_chain : S → Outcome S A
  out_of_fuel : Outcome S A

module _ {ℓ κ} {S : Type ℓ} {A : Type κ} where
  unfoldable pub initial_states_conv : List S → List (FrontierItem S A)
  initial_states_conv [] = []
  initial_states_conv (s ∷ states) = record { s = s; cex_chain = [] } ∷ initial_states_conv states

  abbrev pub add_states : List A → A → List S → List (FrontierItem S A)
  add_states chain sigma [] = []
  add_states chain sigma (t ∷ states) =
      record { s = t; cex_chain = sigma ∷ chain } ∷ add_states chain sigma states

  -- The loops over the symbols and the successors: what is pushed back on the frontier.
  unfoldable pub expand : Searched S A → FrontierItem S A → List A → List (FrontierItem S A)
  expand aut current [] = []
  expand aut current (sigma ∷ symbols) =
      add_states current.cex_chain sigma (aut.successors current.s sigma)
      ++ expand aut current symbols

  abbrev pub expand_all : Searched S A → FrontierItem S A → List (FrontierItem S A)
  expand_all aut current = expand aut current (aut.next_symbols current.s)

  unfoldable pub is_dead : Searched S A → FrontierItem S A → Bool
  unfolding expand
  is_dead aut current =
      not (aut.is_final_state current.s)
      && is_empty (expand_all aut current)
      && not (any aut.assume (aut.next_symbols current.s))

  unfoldable pub report : Searched S A → S → List A → Outcome S A
  report aut state [] = null_chain state
  report aut state (sigma ∷ chain) = deadlock (record {
    dead_state = state;
    impossible_successors = aut.next_symbols state;
    counter_example = aut.to_list (sigma ∷ chain);
  })

  -- The loop of `run`.
  unfoldable pub search : Searched S A → ℕ → List S → List (FrontierItem S A) → Outcome S A
  unfolding is_dead report
  search aut fuel reachable [] = no_deadlock
  search aut zero reachable (current ∷ frontier) = out_of_fuel
  search aut (suc fuel) reachable (current ∷ frontier) =
      elim (any (aut.equal current.s) reachable) [
        | true ↦ search aut fuel reachable frontier
        | false ↦ elim (is_dead aut current) [
          | true ↦ report aut current.s current.cex_chain
          | false ↦ search aut fuel (current.s ∷ reachable) (frontier ++ expand_all aut current)
        ]
      ]

  unfoldable pub run : Searched S A → ℕ → Outcome S A
  unfolding search initial_states_conv
  run aut fuel = search aut fuel [] (initial_states_conv aut.initial_states)
