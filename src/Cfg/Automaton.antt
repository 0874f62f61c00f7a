-- ===== src/Cfg/Automaton.antt =====
-- cfg/automaton.h and cfg/automaton.cpp: the automaton of a thread. A negative state -n stands for
-- the place after state n. `none` is an exception or an index out of range.
pub mod Agree
use liss.Common.{
  ℕ, suc, Bool, true, false, ◌&&◌, List, [], ◌∷◌, Option, none, some, ◌==◌, if◌then◌else◌,
}
use liss.Common.Int.{ℤ, pos, negsuc, neg, int16, ◌==ℤ◌}
use liss.Abstraction.Symbol.{Symbol, symbol_eq}
use liss.Cfg.Graph.{State, Edge, AbstractCfg, get_state, get_successors, ◌>>=◌}

pub record RewardState : Type 0 where
  pub reward : ℤ
  pub state : ℤ

-- `equal_to<psymbol>` against a symbol that is there.
abbrev pub points_to : Option Symbol → Symbol → Bool
points_to none sigma = false
points_to (some a) sigma = symbol_eq a sigma

-- The loop over the edges of `int_is_final_state`.
unfoldable pub any_final : AbstractCfg → List Edge → Option Bool
unfolding get_state
any_final g [] = some false
any_final g (e ∷ es) =
    let rest = any_final g es in
    elim e.tag [
      | some t ↦ rest
      | none ↦ get_state g (pos e.to) >>= λ s. if s.final then some true else rest
    ]

unfoldable pub is_final_state : AbstractCfg → ℤ → Option Bool
unfolding any_final
is_final_state g (pos n) = get_state g (pos n) >>= λ s. some s.final
is_final_state g (negsuc n) = get_successors g (suc n) >>= any_final g

-- After the action of state `n`: at the next state, or after state `n` if that has several edges.
unfoldable pub after_action : AbstractCfg → ℕ → ℤ → Option (List RewardState)
after_action g n reward = get_successors g n >>= λ su. some (elim su [
  | [] ↦ record { reward = reward; state = neg (pos n) } ∷ []
  | e ∷ es ↦ elim es [
    | [] ↦ record { reward = reward; state = pos e.to } ∷ []
    | _ ∷ _ ↦ record { reward = reward; state = neg (pos n) } ∷ []
  ]
])

-- The reward of an edge, `cost * -1`, and the one that is at least 1 where it is 0.
abbrev pub edge_reward : Edge → ℤ
edge_reward e = int16 (neg e.cost)

abbrev pub action_reward : Edge → ℤ
action_reward e = if edge_reward e ==ℤ pos 0 then pos 1 else edge_reward e

-- The loop of `int_successors` over the edges, left by the first match.
unfoldable pub edge_successors : AbstractCfg → Symbol → List Edge → Option (List RewardState)
unfolding after_action
edge_successors g sigma [] = some []
edge_successors g sigma (e ∷ es) =
    let rest = edge_successors g sigma es in
    elim (points_to e.tag sigma) [
      | true ↦ some (record { reward = edge_reward e; state = pos e.to } ∷ [])
      | false ↦ get_state g (pos e.to) >>= λ s. elim (points_to s.action sigma) [
        | true ↦ after_action g e.to (action_reward e)
        | false ↦ rest
      ]
    ]

unfoldable pub successors : AbstractCfg → ℤ → Symbol → Option (List RewardState)
unfolding edge_successors
successors g (negsuc n) sigma = get_successors g (suc n) >>= edge_successors g sigma
successors g (pos n) sigma = get_state g (pos n) >>= λ s.
    if points_to s.action sigma then after_action g n (pos 1) else some []

-- The symbol of an edge: its tag, or the action of the state that it leads to.
unfoldable pub edge_symbol : AbstractCfg → Edge → Option (Option Symbol)
edge_symbol g e = elim e.tag [
  | some t ↦ some (some t)
  | none ↦ get_state g (pos e.to) >>= λ s. some s.action
]

abbrev pub push_symbol : Option Symbol → List Symbol → List Symbol
push_symbol none symbols = symbols
push_symbol (some s) symbols = s ∷ symbols

unfoldable pub edge_symbols : AbstractCfg → List Edge → Option (List Symbol)
unfolding edge_symbol
edge_symbols g [] = some []
edge_symbols g (e ∷ es) =
    edge_symbol g e >>= λ action. edge_symbols g es >>= λ rest. some (push_symbol action rest)

unfoldable pub next_symbols : AbstractCfg → ℤ → Option (List Symbol)
unfolding edge_symbols
next_symbols g (negsuc n) = get_successors g (suc n) >>= edge_symbols g
next_symbols g (pos n) = get_state g (pos n) >>= λ s. some (push_symbol s.action [])

-- The graph starts after its state 1.
unfoldable pub initial_states : AbstractCfg → List RewardState
initial_states g = record { reward = pos 0; state = neg (pos 1) } ∷ []
