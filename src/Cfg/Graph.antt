-- ===== src/Cfg/Graph.antt =====
-- cfg/abstract_cfg.h and cfg/abstract_cfg.cpp: states, edges and the construction of a graph.
-- `none` is a thrown exception or an index out of range. A clang source location is the number of
-- its encoding, 0 if it is not set; statements of the compiler are left out.
pub mod WellFormed
use Prim.Native.String.{String}
use mathlib.Core.Option
use liss.Common.{
  ℕ, zero, suc, ◌+◌, ◌-◌, ◌%◌, Bool, true, false, ◌&&◌, ◌||◌, not, List, [], ◌∷◌, ◌++◌, Option,
  none, some, ltb, leb, ◌==◌, if◌then◌else◌, length, get_elem?, set,
}
use liss.Common.Int.{ℤ, pos, negsuc}
use liss.Abstraction.Symbol.{Symbol, Location, epsilon_symbol, tag_symbol}

-- `max_states` of types.h
abbrev pub max_states : ℕ
max_states = 32767

pub record State : Type 0 where
  pub action : Option Symbol
  pub non_action_symbol : Option Symbol
  pub final : Bool
  pub non_det : Bool
  pub return_state : ℕ
  pub lock_before : ℕ
  pub lock_after : ℕ
  pub distance : ℤ

pub record Edge : Type 0 where
  pub back_edge : Bool
  pub tag : Option Symbol
  pub to : ℕ
  pub cost : ℤ
  pub in_betweeners : List ℕ

pub record AbstractCfg : Type 0 where
  pub name : String
  pub thread_id : ℕ
  pub states : List State
  pub edges : List (List Edge)

infixl 5 ◌>>=◌
abbrev pub ◌>>=◌ {ℓ κ} : {A : Type ℓ} {B : Type κ} → Option A → (A → Option B) → Option B
none >>= f = none
some a >>= f = f a

-- `state::id()`; the source asserts that there is a symbol.
unfoldable pub state_number : State → Option ℤ
state_number s = elim s.action [
  | some a ↦ some a.loc.state
  | none ↦ Option.map (λ (n : Symbol). n.loc.state) s.non_action_symbol
]

abbrev pub renumber : ℕ → Symbol → Symbol
renumber i s = record s { loc = record { thread = s.loc.thread; state = pos i } }

-- `state::id(new_id)`
unfoldable pub set_state_number : ℕ → State → State
set_state_number i s = record s {
  action = Option.map (renumber i) s.action;
  non_action_symbol = Option.map (renumber i) s.non_action_symbol;
}

-- `edge::id(new_id)`
unfoldable pub set_edge_number : ℕ → Edge → Edge
set_edge_number i e = record e { tag = Option.map (renumber i) e.tag }

-- `state::name(newn)`
unfoldable pub set_state_name : String → State → State
set_state_name newn s = record s {
  non_action_symbol =
      Option.map (λ (n : Symbol). record n { variable_name = newn }) s.non_action_symbol;
}

abbrev pub is_dummy : State → Bool
is_dummy s = elim s.non_action_symbol [ none ↦ false | some n ↦ true ]

-- The two constructors of a state.
unfoldable pub action_state : Symbol → State
action_state a = record {
  action = some a;
  non_action_symbol = none;
  final = false;
  non_det = false;
  return_state = 0;
  lock_before = 0;
  lock_after = 0;
  distance = pos 0;
}

unfoldable pub dummy_state : ℕ → ℕ → State
dummy_state thread id = record {
  action = none;
  non_action_symbol = some (epsilon_symbol thread (pos id));
  final = false;
  non_det = false;
  return_state = 0;
  lock_before = 0;
  lock_after = 0;
  distance = pos 0;
}

unfoldable pub new_edge : ℕ → Bool → ℤ → Edge
new_edge to back_edge cost = record {
  back_edge = back_edge;
  tag = none;
  to = to;
  cost = cost;
  in_betweeners = [];
}

-- The copy of the symbol that gets the place of the new state.
abbrev pub placed : Symbol → AbstractCfg → Symbol
placed symbol g = record symbol {
  loc = record { thread = g.thread_id; state = pos (length g.states) };
}

-- `add_state(symbol)`: the graph and the number of the new state.
unfoldable pub add_state : Symbol → AbstractCfg → Option (AbstractCfg × ℕ)
unfolding action_state
add_state symbol g =
    let n = length g.states in
    if leb max_states n
    then none
    else some (
      record g {
        states = g.states ++ action_state (placed symbol g) ∷ [];
        edges = g.edges ++ [] ∷ [];
      },
      n,
    )

-- `add_state(name)`
unfoldable pub add_named_state : String → AbstractCfg → Option (AbstractCfg × ℕ)
unfolding dummy_state set_state_name
add_named_state name g =
    let n = length g.states in
    if leb max_states n
    then none
    else some (
      record g {
        states = g.states ++ set_state_name name (dummy_state g.thread_id n) ∷ [];
        edges = g.edges ++ [] ∷ [];
      },
      n,
    )

unfoldable pub add_dummy_state : AbstractCfg → Option (AbstractCfg × ℕ)
unfolding add_named_state
add_dummy_state g =
    if length g.states == 1 then add_named_state "Init" g else add_named_state "Dummy" g

-- The constructor: state 0 stands for no state.
unfoldable pub new_cfg : String → ℕ → Option AbstractCfg
unfolding add_named_state
new_cfg name thread_id =
    Option.map (λ (r : AbstractCfg × ℕ). r.0)
      (add_named_state "No state"
        (record { name = name; thread_id = thread_id; states = []; edges = [] }))

unfoldable pub mark_final : ℕ → AbstractCfg → Option AbstractCfg
mark_final state g = do
  s ← get_elem? g.states state
  some (record g { states = set g.states state (record s { final = true }) })

-- The number of the edge is a `uint8_t`.
unfoldable pub tag_edge : ℕ → ℕ → AbstractCfg → Option AbstractCfg
tag_edge state edge g = do
  es ← get_elem? g.edges state
  e ← get_elem? es (edge % 256)
  some (record g {
    edges = set g.edges state (
        set es (edge % 256)
          (record e { tag = some (tag_symbol g.thread_id (pos state) (edge % 256)) }));
  })

unfoldable pub push_edge : ℕ → Edge → AbstractCfg → Option AbstractCfg
push_edge from e g = do
  es ← get_elem? g.edges from
  some (record g { edges = set g.edges from (es ++ e ∷ []) })

-- The number of edges of a state, and the flag that the two tests of `add_edge` read.
unfoldable pub tag_if : Bool → ℕ → ℕ → AbstractCfg → Option AbstractCfg
tag_if test from edge g = do
  s ← get_elem? g.states from
  if test && not s.non_det then tag_edge from edge g else some g

unfoldable pub add_edge : ℕ → ℕ → Bool → Bool → ℤ → AbstractCfg → Option AbstractCfg
add_edge from to back_edge auto_tag cost g = do
  es ← get_elem? g.edges from
  g1 ← tag_if (auto_tag && length es == 1) from 0 g
  g2 ← push_edge from (new_edge to back_edge cost) g1
  tag_if (auto_tag && ltb 1 (length es + 1)) from (length es) g2

-- `get_state`: a number that is not positive is refused.
unfoldable pub get_state : AbstractCfg → ℤ → Option State
get_state g (pos zero) = none
get_state g (pos (suc n)) = get_elem? g.states (suc n)
get_state g (negsuc n) = none

unfoldable pub get_successors : AbstractCfg → ℕ → Option (List Edge)
get_successors g from = get_elem? g.edges from

forward : List Edge → List ℕ
forward [] = []
forward (e ∷ es) = if not e.back_edge then e.to ∷ forward es else forward es

-- The set of targets, as the list of its insertions.
unfoldable pub get_forward_successors : AbstractCfg → ℕ → Option (List ℕ)
unfolding forward
get_forward_successors g from = Option.map forward (get_elem? g.edges from)
