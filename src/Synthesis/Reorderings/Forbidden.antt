-- ===== src/Synthesis/Reorderings/Forbidden.antt =====
-- `find_lock_locs`, `find_locs` and `synth_locks` of synthesis/reorderings.cpp: the constraint that
-- the locks of earlier rounds are kept. `none` is an index out of range or the `front()` of an empty
-- list.
use liss.Common.{
  ℕ, zero, suc, Bool, true, false, ◌&&◌, not, List, [], ◌∷◌, ◌++◌, Option, none, some, ltb, ◌==◌,
  if◌then◌else◌, length, get_elem?, set, replicate,
}
use liss.Abstraction.Symbol.{Symbol, thread_id, symbol_eq}
use liss.Abstraction.Concurrent.Forbid.{front}
use liss.Synthesis.Constraint.{TraceLocation, Expr, less}
use liss.Synthesis.Traces.{LockList, LockLists, LockSymbols, ◌>>=◌}
use liss.Synthesis.Reorderings.{SeparatedTrace, holds_always}
use liss.Synthesis.Reorderings.Prepare.{both, either, never}

abbrev pub Region : Type 0
Region = TraceLocation × TraceLocation

-- Where the inner loop ends: the flags, its index and `end`.
pub record Matched : Type 0 where
  pub used : List Bool
  pub index : ℕ
  pub end : TraceLocation

-- The inner loop: go on while the next location has the next symbol.
unfoldable pub keep_matching : List TraceLocation → LockList → Matched → Matched
keep_matching thread [] m = m
keep_matching thread (sy ∷ lock) m = elim (get_elem? thread (suc m.index)) [
  | none ↦ m
  | some l ↦ elim (symbol_eq l.symbol sy) [
    | false ↦ m
    | true ↦
        keep_matching thread lock
          (record { used = set m.used (suc m.index) true; index = suc m.index; end = l })
  ]
]

abbrev pub is_used : List Bool → ℕ → Bool
is_used used i = elim (get_elem? used i) [ none ↦ false | some b ↦ b ]

abbrev pub add_region : TraceLocation → TraceLocation → List Region → List Region
add_region start end result = if start.name == end.name then result else result ++ (start, end) ∷ []

-- The loop over `i`, which has a round for each position of the thread at most, for the symbol `sy`
-- that `after` follows in the lock.
unfoldable pub match_from :
    List TraceLocation
    → Symbol
    → LockList
    → ℕ
    → ℕ
    → List Bool
    → List Region
    → List Bool × List Region
unfolding keep_matching
match_from thread sy after zero i used result = (used, result)
match_from thread sy after (suc n) i used result = elim (get_elem? thread i) [
  | none ↦ (used, result)
  | some l ↦ elim (symbol_eq l.symbol sy && not (is_used used i)) [
    | false ↦ match_from thread sy after n (suc i) used result
    | true ↦
        (λ (m : Matched).
            match_from thread sy after n (suc m.index) m.used (add_region l m.end result))
          (keep_matching thread after (record { used = set used i true; index = i; end = l }))
  ]
]

-- The loop over the symbols of the lock.
unfoldable pub match_each : List TraceLocation → LockList → List Bool → List Region → List Region
unfolding match_from
match_each thread [] used result = result
match_each thread (sy ∷ lock) used result =
    let matched = match_from thread sy lock (length thread) 0 used result in
    match_each thread lock matched.0 matched.1

unfoldable pub find_lock_locs : SeparatedTrace → LockList → Option (List Region)
unfolding match_each
find_lock_locs strace [] = some []
find_lock_locs strace (s ∷ lock) =
    if ltb 1 (length (s ∷ lock))
    then (get_elem? strace.threaded_trace (thread_id s) >>= λ thread.
        some (match_each thread (s ∷ lock) (replicate (length thread) false) []))
    else some []

abbrev pub with_symbol : Symbol → List TraceLocation → List TraceLocation
with_symbol sym [] = []
with_symbol sym (loc ∷ thread) =
    if symbol_eq loc.symbol sym then loc ∷ with_symbol sym thread else with_symbol sym thread

unfoldable pub find_locs : SeparatedTrace → Symbol → Option (List TraceLocation)
find_locs strace sym =
    get_elem? strace.threaded_trace (thread_id sym) >>= λ thread. some (with_symbol sym thread)

-- The location is before the region or after it.
abbrev pub outside : Region → TraceLocation → Expr
outside (start, end) l2 = either (less l2 start) (less end l2)

unfoldable pub keep_outside : Region → List TraceLocation → Expr → Expr
keep_outside l [] e = e
keep_outside l (l2 ∷ locs2) e = keep_outside l locs2 (both e (outside l l2))

unfoldable pub keep_all_outside : List Region → List TraceLocation → Expr → Expr
unfolding keep_outside
keep_all_outside [] locs2 e = e
keep_all_outside (l ∷ locs) locs2 e = keep_all_outside locs locs2 (keep_outside l locs2 e)

-- The loop over the symbols of `it2`.
unfoldable pub against_symbols : SeparatedTrace → List Region → LockList → Expr → Option Expr
unfolding keep_all_outside find_locs
against_symbols strace locs [] e = some e
against_symbols strace locs (sym ∷ it2) e = find_locs strace sym >>= λ locs2.
    against_symbols strace locs it2 (keep_all_outside locs locs2 e)

-- The loop over `it2`.
unfoldable pub against_others :
    SeparatedTrace → LockList → List Region → LockLists → Expr → Option Expr
unfolding against_symbols
against_others strace it locs [] e = some e
against_others strace it locs (it2 ∷ lock) e = front it >>= λ s. front it2 >>= λ t.
    (if thread_id s == thread_id t then some e else against_symbols strace locs it2 e)
    >>= against_others strace it locs lock

-- The loop over `it`, whose lists are those of `lock`.
unfoldable pub lock_constraint : SeparatedTrace → LockLists → LockLists → Expr → Option Expr
unfolding against_others find_lock_locs
lock_constraint strace lock [] e = some e
lock_constraint strace lock (it ∷ rest) e = find_lock_locs strace it >>= λ locs.
    against_others strace it locs lock e >>= lock_constraint strace lock rest

unfoldable pub disjunction_constraint : SeparatedTrace → List LockLists → Expr → Option Expr
unfolding lock_constraint
disjunction_constraint strace [] e = some e
disjunction_constraint strace (lock ∷ lockd) e =
    lock_constraint strace lock lock holds_always >>= λ locke.
    disjunction_constraint strace lockd (either e locke)

unfoldable pub synth_locks_from : SeparatedTrace → LockSymbols → Expr → Option Expr
unfolding disjunction_constraint
synth_locks_from strace [] cnf = some cnf
synth_locks_from strace (lockd ∷ locks) cnf =
    disjunction_constraint strace lockd never >>= λ d. synth_locks_from strace locks (both cnf d)

unfoldable pub synth_locks : SeparatedTrace → LockSymbols → Option SeparatedTrace
unfolding synth_locks_from
synth_locks strace synthesised_locks =
    synth_locks_from strace synthesised_locks strace.synth_locks >>= λ cnf.
    some (record strace { synth_locks = cnf })
