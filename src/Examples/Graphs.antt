-- ===== src/Examples/Graphs.antt =====
-- A graph of two states with one edge and its automaton.
use liss.Common.{
  ◌+◌, ◌≡◌, ◌≢◌, refl, true, false, List, [], ◌∷◌, none, some, Memᴰ, arith, length, get_elem?,
}
use liss.Common.Int.{pos, negsuc}
use liss.Abstraction.Symbol.{Symbol, read, symbol_eq, epsilon_symbol}
use liss.Cfg.Graph.{
  State, Edge, AbstractCfg, action_state, dummy_state, add_edge, get_state, get_successors, new_cfg,
}
use liss.Cfg.Graph.WellFormed.{IsWellFormed, new_cfg-IsWellFormed, add_edge-IsWellFormed}
use liss.Cfg.Automaton.{RewardState, successors, next_symbols}
use liss.Cfg.Automaton.Agree.{next_symbols_some, next_symbols-successors}
use liss.Examples.Data.{make_symbol}

-- State 0, the dummy initial state 1 and the action state 2.
abbrev two_states : List State
two_states = dummy_state 0 0 ∷ dummy_state 0 1 ∷ action_state (make_symbol read 0 0 2) ∷ []

abbrev loop_edge : Edge
loop_edge = record { back_edge = false; tag = none; to = 2; cost = pos 0; in_betweeners = [] }

-- 1 → 2 and 2 → 2.
abbrev small_graph : AbstractCfg
small_graph = record {
  name = "thread_a";
  thread_id = 0;
  states = two_states;
  edges = [] ∷ (loop_edge ∷ []) ∷ (loop_edge ∷ []) ∷ [];
}

small_graph-IsWellFormed : IsWellFormed small_graph
unfolding dummy_state action_state epsilon_symbol
small_graph-IsWellFormed = record {
  rooted = omega arith;
  bounded = omega arith;
  paired = refl;
  numbered = ((refl, refl), ((refl, refl), ((refl, refl), tt)));
  targets = omega arith;
}

new_cfg-IsWellFormed_example :
    (g : AbstractCfg) × (new_cfg "thread_a" 3 ≡ some g) × IsWellFormed g × (g.thread_id ≡ 3)
new_cfg-IsWellFormed_example = new_cfg-IsWellFormed "thread_a" 3

-- A second edge, which tags both.
add_edge-IsWellFormed_example :
    (g' : AbstractCfg) × (add_edge 2 1 true true (pos 0) small_graph ≡ some g')
    × IsWellFormed g'
    × (g'.states ≡ small_graph.states)
    × ((es' : List Edge) × (get_elem? g'.edges 2 ≡ some es') × (length es' ≡ 1 + 1))
add_edge-IsWellFormed_example =
    add_edge-IsWellFormed 2 1 true true (pos 0) small_graph (loop_edge ∷ [])
      small_graph-IsWellFormed refl (omega arith) (omega arith)

offered : next_symbols small_graph (negsuc 0) ≡ some (make_symbol read 0 0 2 ∷ [])
unfolding next_symbols get_successors get_state action_state
offered = refl

moved :
    successors small_graph (negsuc 0) (make_symbol read 0 0 2)
    ≡ some (record { reward = pos 1; state = pos 2 } ∷ [])
unfolding successors get_successors get_state action_state symbol_eq
moved = refl

next_symbols_some_example : (out : List Symbol) × (next_symbols small_graph (pos 2) ≡ some out)
next_symbols_some_example =
    next_symbols_some small_graph small_graph-IsWellFormed (pos 2) (omega arith)

next_symbols-successors_example :
    ◌≢◌ {A = List RewardState} (record { reward = pos 1; state = pos 2 } ∷ []) []
next_symbols-successors_example =
    next_symbols-successors small_graph small_graph-IsWellFormed (negsuc 0) (make_symbol read 0 0 2)
      (make_symbol read 0 0 2 ∷ []) (record { reward = pos 1; state = pos 2 } ∷ []) (omega arith)
      offered (Memᴰ.head refl) moved
