-- ===== src/Synthesis/Expansion.antt =====
-- `blow_up_trace` and `blow_up_lock` of synthesis/trace_helpers.cpp: the states that minimising a
-- graph has removed are put back into a trace. `none` is a failed assertion, an index out of range
-- or a null pointer that the trace would get.
pub mod Kept
use liss.Common.{
  ℕ, Bool, true, false, List, [], ◌∷◌, ◌++◌, Option, none, some, length, get_elem?, set, replicate,
}
use liss.Common.Int.{ℤ, pos, negsuc, ◌==ℤ◌}
use liss.Abstraction.Symbol.{Symbol, thread_id, state_id}
use liss.Cfg.Graph.{AbstractCfg, Edge, get_state, get_successors}
use liss.Synthesis.Traces.{LockList, LockLists, LockSymbols, ◌>>=◌}

-- `get_successors` of the number of a state that is not negative.
abbrev pub successors_of : AbstractCfg → ℤ → Option (List Edge)
successors_of g (pos n) = get_successors g n
successors_of g (negsuc n) = none

-- The first edge to the state; the source asserts that there is one.
unfoldable pub edge_between : ℤ → List Edge → Option (List ℕ)
edge_between state [] = none
edge_between state (e ∷ edges) =
    let rest = edge_between state edges in
    elim (pos e.to ==ℤ state) [ true ↦ some e.in_betweeners | false ↦ rest ]

unfoldable pub skipped : AbstractCfg → List ℕ → Option (List Symbol)
skipped g [] = some []
skipped g (n ∷ ns) = get_state g (pos n) >>= λ s.
    s.non_action_symbol >>= λ a. skipped g ns >>= λ rest. some (a ∷ rest)

-- What is inserted before a symbol, after the previous one of its thread.
unfoldable pub inserted_before : List AbstractCfg → Symbol → Option Symbol → Option (List Symbol)
unfolding edge_between skipped
inserted_before cfgs sy none = some []
inserted_before cfgs sy (some prev) = get_elem? cfgs (thread_id sy) >>= λ g.
    successors_of g (state_id prev) >>= λ edges.
    edge_between (state_id sy) edges >>= λ between. skipped g between

-- The loop over the trace.
unfoldable pub blow_up_from :
    List AbstractCfg → List (Option Symbol) → List Symbol → Option (List Symbol)
unfolding inserted_before
blow_up_from cfgs previous [] = some []
blow_up_from cfgs previous (sy ∷ trace) = get_elem? previous (thread_id sy) >>= λ prev.
    inserted_before cfgs sy prev >>= λ new.
    blow_up_from cfgs (set previous (thread_id sy) (some sy)) trace >>= λ rest.
    some (new ++ sy ∷ rest)

-- One graph for each thread of the program.
unfoldable pub blow_up_trace : List AbstractCfg → List Symbol → Option (List Symbol)
unfolding blow_up_from
blow_up_trace cfgs trace = blow_up_from cfgs (replicate (length cfgs) none) trace

abbrev pub blow_up_lists : List AbstractCfg → LockLists → Option LockLists
blow_up_lists cfgs [] = some []
blow_up_lists cfgs (l ∷ ls) =
    blow_up_trace cfgs l >>= λ l'. blow_up_lists cfgs ls >>= λ rest. some (l' ∷ rest)

abbrev pub blow_up_disj : List AbstractCfg → List LockLists → Option (List LockLists)
blow_up_disj cfgs [] = some []
blow_up_disj cfgs (l ∷ ls) =
    blow_up_lists cfgs l >>= λ l'. blow_up_disj cfgs ls >>= λ rest. some (l' ∷ rest)

unfoldable pub blow_up_lock : List AbstractCfg → LockSymbols → Option LockSymbols
unfolding blow_up_trace
blow_up_lock cfgs [] = some []
blow_up_lock cfgs (d ∷ ds) =
    blow_up_disj cfgs d >>= λ d'. blow_up_lock cfgs ds >>= λ rest. some (d' ∷ rest)
