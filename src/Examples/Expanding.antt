-- ===== src/Examples/Expanding.antt =====
-- A trace over a graph from which one state was removed.
use liss.Common.{◌≡◌, refl, false, [], ◌∷◌, some, none}
use liss.Common.Int.{pos}
use liss.Abstraction.Symbol.{Symbol, read, epsilon_symbol}
use liss.Cfg.Graph.{AbstractCfg, Edge, get_successors, get_state, dummy_state, action_state}
use liss.Synthesis.Expansion.{blow_up_trace}
use liss.Synthesis.Expansion.Kept.{Expands, blow_up_trace-Expands}
use liss.Examples.Data.{make_symbol, read_x}

abbrev again : Symbol
again = make_symbol read 0 0 3

-- 1 → 3, where state 2 was taken out.
abbrev short_cut : Edge
short_cut = record { back_edge = false; tag = none; to = 3; cost = pos 0; in_betweeners = 2 ∷ [] }

abbrev short_graph : AbstractCfg
short_graph = record {
  name = "thread_a";
  thread_id = 0;
  states = dummy_state 0 0 ∷ action_state read_x ∷ dummy_state 0 2 ∷ action_state again ∷ [];
  edges = [] ∷ (short_cut ∷ []) ∷ [] ∷ [] ∷ [];
}

expanded :
    blow_up_trace (short_graph ∷ []) (read_x ∷ again ∷ [])
    ≡ some (read_x ∷ epsilon_symbol 0 (pos 2) ∷ again ∷ [])
unfolding blow_up_trace dummy_state action_state epsilon_symbol get_successors get_state
expanded = refl

blow_up_trace-Expands_example :
    Expands
      (short_graph ∷ [])
      []
      (read_x ∷ again ∷ [])
      (read_x ∷ epsilon_symbol 0 (pos 2) ∷ again ∷ [])
blow_up_trace-Expands_example =
    blow_up_trace-Expands (short_graph ∷ []) (read_x ∷ again ∷ [])
      (read_x ∷ epsilon_symbol 0 (pos 2) ∷ again ∷ []) expanded
