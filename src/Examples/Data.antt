-- ===== src/Examples/Data.antt =====
-- Symbols, locations and automata that the examples share.
use liss.Common.{ℕ, true, false, [], ◌∷◌}
use liss.Common.Int.{pos, negsuc}
use liss.Abstraction.Symbol.{Symbol, OpClass, read, write, lock}
use liss.Abstraction.Concurrent.Defs.{ThreadAutomaton, ConcurrentAutomaton}
use liss.Synthesis.Constraint.{TraceLocation}

-- The symbol of an operation on a variable, at a place of a thread.
abbrev pub make_symbol : OpClass → ℕ → ℕ → ℕ → Symbol
make_symbol op v thread state = record {
  operation = op;
  variable = v;
  variable_name = "x";
  loc = record { thread = thread; state = pos state };
  tag_branch = negsuc 0;
  assumed = false;
  synthesised = false;
}

abbrev pub read_x : Symbol
read_x = make_symbol read 0 0 1

abbrev pub write_x : Symbol
write_x = make_symbol write 0 1 1

abbrev pub take_l : Symbol
take_l = make_symbol lock 3 0 2

-- A thread that offers every symbol and goes to state 2.
abbrev pub loose_thread : ThreadAutomaton
loose_thread = record {
  is_final_state = λ z. false;
  initial_states = [];
  successors = λ z s. record { reward = pos 1; state = pos 2 } ∷ [];
  next_symbols = λ z. read_x ∷ [];
}

abbrev pub two_threads : ConcurrentAutomaton
two_threads = record {
  threads = loose_thread ∷ loose_thread ∷ [];
  concurrent = false;
  deadlock = false;
  successor_filter = [];
  conflicts = [];
  conflict_map = [];
  locks = [];
  locks_size = 0;
}

-- Locations of a trace: the name is the position.
abbrev pub make_location : Symbol → ℕ → TraceLocation
make_location s n = record {
  name = n;
  symbol = s;
  symbol_valid = true;
  iteration = 1;
  original_position = pos n;
}
