-- ===== src/Lib.antt =====
-- Verification library of Liss, which synthesises locks for concurrent programs from the difference
-- between a non-preemptive and a preemptive scheduler.
--
-- The program. The front end turns each thread of a C file into a control flow graph
-- (src/cfg/abstract_cfg.cpp), whose automaton (src/cfg/automaton.cpp) reads the symbols of the
-- thread (src/abstraction/symbol.h). The concurrent automaton
-- (src/abstraction/concurrent_automaton.cpp) is the product of the threads under one of the two
-- schedulers. A trace of the preemptive product that the non-preemptive one does not have is turned
-- into constraints on the order of its locations (src/synthesis/constraint.cpp), these into locks
-- (src/synthesis/synchronisation.cpp), and the locks into lists of symbols that are cut at the
-- preemption points (src/synthesis/trace_helpers.cpp) and forbidden in the product.
--
-- The modules.
--   Common: lists, tests and signed numbers over the native natural numbers.
--   Types: the normal forms and `tagged_int` of src/types.h. `Types.Negation` evaluates formulas.
--   Abstraction.Symbol, Abstraction.State: src/abstraction/symbol.cpp, location.h and
--     concurrent_state.cpp. `symbol_eq`, `state_eq`, `state_less` are the operators `==` and `<`.
--   Abstraction.Identifiers: identifier_store.cpp. `insert_name` is the body that the three
--     insertions share.
--   Abstraction.Compressed: `wrapper_automaton` of compressed_automaton.h; `number_all` is the loop of its
--     `int_next_symbols`. Below it, `Operations` has those of `compressed_automaton`, and `Explore`
--     `from_concurrent_automaton` of compressed_automaton.cpp. The proofs go from the maps to numbers
--     (`Interned`, `Known`) over what one insertion keeps (`Grown`, `Added`, `Followed`), the rows
--     (`Rows`, `Covered`), the loops (`Started`, `Explored`, `Worklist`) and the result (`Represented`)
--     to the function as a whole (`Faithful`).
--   Abstraction.Concurrent: concurrent_automaton.cpp. `Defs` has its data, `Conflicts` has
--     `tick_lock` and `apply_bad_trace_dnf`, `Step` has `apply_symbol` and `int_successors`,
--     `Forbid` has `add_forbidden_traces`, `Explore` has `int_initial_states`,
--     `int_is_final_state` and `int_next_symbols`.
--   Cfg.Graph, Cfg.Automaton: abstract_cfg.cpp and automaton.cpp of src/cfg.
--   Synthesis.Constraint, Synthesis.Synchronisation, Synthesis.Traces, Synthesis.Elimination:
--     location.h, constraint.cpp, synchronisation.cpp and trace_helpers.cpp of src/synthesis, and
--     the step of `synth_loop` in src/actions/synthesis2.cpp that makes locks from bad traces.
--   Synthesis.Reorderings: reorderings.cpp of src/synthesis, `split_trace` and `find_order`. Below it,
--     `Prepare` has `prepare_trace`, `Forbidden` has `synth_locks`, `Solving` has `min_unsat` of
--     z3_helpers.h, and `Process` has `process_trace`. The other modules below it are proofs: of the
--     trace (`Threads`, `Prepared`, `Ordered`, `Separated`), of the orders (`Sorted`, `Accesses`, `Fixed`,
--     `Conflicts`, `Orders`), of the formulas (`Sections`, `Conditions`, `Found`, `Kept`, `Preserved`,
--     `Theory`), of the loops over the solver (`Core`, `Minimal`, `Enumerate`, `Classes`) and of the result (`Schedules`, `Inferred`).
--   Actions.Inclusion: `test_inclusion` of src/actions/inclusion_test.cpp. Actions.Loop: `synth_loop` of
--     src/actions/synthesis2.cpp: a round goes from a counter-example through `process_trace`,
--     `generate_sync`, `locks_to_symbols`, `remove_preemption` and `remove_duplicates` to
--     `add_forbidden_traces`.
--   Automata.Deadlock: src/automata/deadlock_algo.h, `initial_states_conv` and `run`.
--   Placement: src/placement/place_locks.cpp. `Constraints` has the hard constraints, `Cost` the soft ones,
--     `Result` the reading of the model and `find_locks`. `Rules`, `Entries` and `Arrival` say what the
--     constraints mean at a state, `System` is the program with the locks in it, and `Held`, `Invariant`, `Safe` and
--     `Exclusion` are proofs about its runs. `Sites` is about the places of the source text that states
--     share, `Penalty` about the cost functions, `Duplicates` about `remove_duplicates`, `Listed`,
--     `Readable`, `Interpreted` and `Implemented` about what is read from a model, and `Outcome` about `find_locks`.
--   Synthesis.Merging: `merge_locks` of src/synthesis/synchronisation.cpp, which nothing calls.
--   Synthesis.Expansion: `blow_up_trace` and `blow_up_lock` of trace_helpers.cpp.
--   Examples: the theorems at concrete inputs, and tests.
--
-- Conventions. A pointer to a symbol is the symbol. A state number is an integer, negative after a
-- state; a thread number is a natural number, and `no_thread` is `none`. Failed assertions, thrown
-- exceptions and indices out of range are a result of their own (`none`, `failed`, `broken`). A z3
-- expression is the function that gives its value in a model. What the product calls of a thread
-- goes through the library Limi, which is not part of the repository: it is the record
-- `ThreadAutomaton`. Rewards are 16-bit integers and wrap.
--
-- The solver is the record `Solver`, and `IsSolver` states what is documented of it for a theory that
-- it decides: models satisfy the formulas, without a model nothing does, and an unsatisfiable core is
-- one. Its models give a number to every location. Adding a formula to a solver is adding it to the
-- list that is checked.
--
-- Fuel. The search for deadlocks has one round for every initial state and for every successor of a
-- state among finitely many that hold all that can be reached. The loop of `apply_bad_trace_dnf`
-- over the conflicts of a state has two rounds for each conflict that is not escalated and one for
-- each that is: an escalated conflict is met once more. The two loops of `process_trace` over the
-- solver have a round for each order of the locations of the trace and of the final one, since every
-- round excludes the order of its model. All three are proved to be enough. The worklist
-- of `from_concurrent_automaton` has as many rounds as its caller gives it, and every round takes one state.
-- `synth_loop` may run on without end, and what is shown of it holds for any fuel; `test_inclusion` has
-- a round for each bound.
--
-- In the placement of locks a z3 expression is a function of an assignment of the five functions and
-- the constants, and a conjunction to which loops add is a list of formulas. The placed program handles
-- the locks before a state, executes it and handles those after it, one lock at a time and the highest
-- first, which is the order in which src/placement/print_program.cpp inserts them. Its optimiser is the
-- field `optimize` of `Setting`, and `IsOptimizer` states what is documented of it: its models satisfy the
-- hard constraints, and the interpretations read from them are those of the functions. The graphs are
-- taken to be laid out, `IsLaidOut`: nothing leads back to the first state, and no state is reached by
-- back edges only.
--
-- Not modelled: the visitors over the syntax tree of clang in src/clang_interf, the inclusion check
-- of Limi, which is not part of the repository, `minimise` and `compact` of abstract_cfg.cpp, and
-- printing, which includes the insertion of the locks into the source text.
pub mod Common
pub mod Types
pub mod Abstraction
pub mod Placement
pub mod Synthesis
pub mod Actions
pub mod Cfg
mod Examples
pub mod Automata
