-- ===== src/Abstraction/Compressed/Explore.antt =====
-- abstraction/compressed_automaton.cpp: the worklist that makes an automaton of numbers from another
-- one. Writes out of range change nothing. `equal` and `less` are those of the states.
use liss.Common.{
  ℕ, zero, suc, ◌%◌, Bool, true, false, ◌&&◌, not, List, [], ◌∷◌, ◌++◌, Option, none, some, ◌==◌,
  if◌then◌else◌, length, get_elem?, set, any, is_empty,
}
use liss.Cfg.Graph.{◌>>=◌}
use liss.Abstraction.Compressed.{Inner, SymbolTable, find_symbol}
use liss.Abstraction.Compressed.Operations.{CompressedAutomaton, no_automaton, Row, find_key}

-- The automaton that is built, with the maps of the function. `frontier` has its top first.
pub record Building {ℓ κ} (S : Type ℓ) (A : Type κ) : Type (ℓ ⊔ κ) where
  pub initial_states : List ℕ
  pub final : List Bool
  pub epsilon : List Bool
  pub table : SymbolTable A
  pub transitions : List Row
  pub states : List (S × ℕ)
  pub seen : List S
  pub frontier : List S

-- `insert` on a map from what is numbered: the map, the number, and whether it is new. A new number
-- is that of the elements before, in an integer that holds `w` values.
pub record Insertion {ℓ} (B : Type ℓ) : Type ℓ where
  pub pairs : List (B × ℕ)
  pub number : ℕ
  pub is_new : Bool

abbrev pub inserted {ℓ} : {B : Type ℓ} → ℕ → B → List (B × ℕ) → Option ℕ → Insertion B
inserted w b pairs none = record {
  pairs = pairs ++ (b, length pairs % w) ∷ [];
  number = length pairs % w;
  is_new = true;
}
inserted w b pairs (some k) = record { pairs = pairs; number = k; is_new = false }

unfoldable pub insert_next {ℓ} : {B : Type ℓ} → (B → B → Bool) → ℕ → B → List (B × ℕ) → Insertion B
insert_next eq w b pairs = inserted w b pairs (find_symbol eq b pairs)

-- `com_state` is a `uint32_t`, `com_symbol` a `uint16_t`.
abbrev pub state_limit : ℕ
state_limit = 4294967296

abbrev pub symbol_limit : ℕ
symbol_limit = 65536

-- `insert` on a row does not replace what is there.
unfoldable pub insert_row : ℕ → List ℕ → Row → Row
insert_row k ids row = elim (find_key k row) [ none ↦ row ++ (k, ids) ∷ [] | some old ↦ row ]

-- A new state or symbol comes with new elements of the vectors.
abbrev pub grow {ℓ} : {B : Type ℓ} → Bool → B → List B → List B
grow is_new b bs = if is_new then bs ++ b ∷ [] else bs

abbrev pub is_seen {ℓ} : {S : Type ℓ} → (S → S → Bool) → S → List S → Bool
is_seen equal s seen = any (λ t. equal t s) seen

abbrev pub push {ℓ} : {S : Type ℓ} → (S → S → Bool) → S → List S → List S
push less s [] = s ∷ []
push less s (t ∷ frontier) =
    let rest = push less s frontier in if less t s then s ∷ t ∷ frontier else t ∷ rest

module _ {ℓ κ} {S : Type ℓ} {A : Type κ} (same : A → A → Bool) (equal : S → S → Bool)
    (less : S → S → Bool) (ca : Inner S A) where
  -- The loop over the initial states.
  abbrev pub start_state : S → Building S A → Building S A
  start_state s b = record b {
    initial_states = b.initial_states ++ (length b.states % state_limit) ∷ [];
    final = b.final ++ false ∷ [];
    transitions = b.transitions ++ [] ∷ [];
    states = (insert_next equal state_limit s b.states).pairs;
    seen = grow (not (is_seen equal s b.seen)) s b.seen;
    frontier = push less s b.frontier;
  }

  unfoldable pub start_states : List S → Building S A → Building S A
  start_states [] b = b
  start_states (s ∷ initial) b = start_states initial (start_state s b)

  -- One successor: its number, and its place on the frontier if it has not been seen.
  unfoldable pub add_successor : S → Building S A → Building S A × ℕ
  unfolding insert_next
  add_successor next b =
      let found = insert_next equal state_limit next b.states in
      (
        record b {
          final = grow found.is_new false b.final;
          transitions = grow found.is_new [] b.transitions;
          states = found.pairs;
          seen = grow (not (is_seen equal next b.seen)) next b.seen;
          frontier = if is_seen equal next b.seen then b.frontier else push less next b.frontier;
        },
        found.number,
      )

  unfoldable pub add_successors : List S → Building S A → Building S A × List ℕ
  unfolding add_successor
  add_successors [] b = (b, [])
  add_successors (next ∷ rest) b =
      let (b1, nextid) = add_successor next b in
      let (b2, successors) = add_successors rest b1 in (b2, nextid ∷ successors)

  unfoldable pub add_letter : A → Building S A → Building S A × ℕ
  unfolding insert_next
  add_letter sy b =
      let found = insert_next same symbol_limit sy b.table.symbol_map in
      let epsilon = grow found.is_new false b.epsilon in
      (
        record b {
          table = record {
            symbol_map = found.pairs;
            symbol_translation = grow found.is_new sy b.table.symbol_translation;
          };
          epsilon = if ca.is_epsilon sy then set epsilon found.number true else epsilon;
        },
        found.number,
      )

  unfoldable pub add_transition : ℕ → ℕ → List ℕ → Building S A → Building S A
  unfolding insert_row
  add_transition sid syid successors b = elim (get_elem? b.transitions sid) [
    | none ↦ b
    | some row ↦
        if is_empty successors
        then b
        else record b { transitions = set b.transitions sid (insert_row syid successors row) }
  ]

  -- The loop over the symbols that are offered at `s`, which has number `sid`.
  unfoldable pub explore_symbol : S → ℕ → A → Building S A → Building S A
  unfolding add_letter add_successors add_transition
  explore_symbol s sid sy b =
      let (b1, syid) = add_letter sy b in
      let (b2, successors) = add_successors (ca.successors s sy) b1 in
      add_transition sid syid successors b2

  unfoldable pub explore_symbols : S → ℕ → List A → Building S A → Building S A
  unfolding explore_symbol
  explore_symbols s sid [] b = b
  explore_symbols s sid (sy ∷ symbols) b = explore_symbols s sid symbols (explore_symbol s sid sy b)

  abbrev pub mark_state : S → ℕ → Building S A → Building S A
  mark_state s sid b = record b {
    final = if ca.is_final_state s then set b.final sid true else b.final;
  }

  abbrev pub explore_state : S → ℕ → List S → Building S A → Building S A
  explore_state s sid rest b =
      explore_symbols s sid (ca.next_symbols s) (mark_state s sid (record b { frontier = rest }))

  -- The loop over the frontier; `none` is a failed assertion, or the end of the fuel.
  unfoldable pub explore : ℕ → Building S A → Option (Building S A)
  unfolding explore_symbols
  explore zero b = elim b.frontier [ [] ↦ some b | _ ∷ _ ↦ none ]
  explore (suc fuel) b = elim b.frontier [
    | [] ↦ some b
    | s ∷ rest ↦ elim (find_symbol equal s b.states) [
      | none ↦ none
      | some sid ↦ explore fuel (explore_state s sid rest b)
    ]
  ]

  -- The symbols of the automaton that is given, with their numbers from `i`.
  abbrev pub known_symbol : ℕ → A → List (A × ℕ) → Option ℕ → List (A × ℕ)
  known_symbol i a pairs none = pairs ++ (a, i % symbol_limit) ∷ []
  known_symbol i a pairs (some k) = pairs

  unfoldable pub known_symbols : ℕ → List A → List (A × ℕ) → List (A × ℕ)
  known_symbols i [] pairs = pairs
  known_symbols i (a ∷ translation) pairs =
      known_symbols (suc i) translation (known_symbol i a pairs (find_symbol same a pairs))

  abbrev pub nothing_built : CompressedAutomaton A → Building S A
  nothing_built concurrent = record {
    initial_states = [];
    final = [];
    epsilon = concurrent.epsilon;
    table = record {
      symbol_map = known_symbols 0 concurrent.table.symbol_translation [];
      symbol_translation = concurrent.table.symbol_translation;
    };
    transitions = [];
    states = [];
    seen = [];
    frontier = [];
  }

  unfoldable pub start_building : CompressedAutomaton A → Building S A
  unfolding start_states
  start_building concurrent = start_states ca.initial_states (nothing_built concurrent)

  -- The assertions at the end.
  abbrev pub sizes_agree : Building S A → Bool
  sizes_agree b =
      length b.table.symbol_translation == length b.table.symbol_map
      && length b.transitions == length b.states
      && length b.final == length b.states
      && length b.epsilon == length b.table.symbol_map

  abbrev pub finished_automaton : Building S A → CompressedAutomaton A
  finished_automaton b = record {
    initial_states = b.initial_states;
    final = b.final;
    epsilon = b.epsilon;
    table = b.table;
    transitions = b.transitions;
    successor_filter = [];
  }

  unfoldable pub from_concurrent_automaton :
      ℕ → CompressedAutomaton A → Option (CompressedAutomaton A)
  unfolding start_building explore
  from_concurrent_automaton fuel concurrent = explore fuel (start_building concurrent) >>= λ b.
      if sizes_agree b then some (finished_automaton b) else none

  -- The function of one argument.
  unfoldable pub from_automaton_only : ℕ → Option (CompressedAutomaton A)
  unfolding from_concurrent_automaton
  from_automaton_only fuel = from_concurrent_automaton fuel no_automaton
