-- ===== src/Synthesis/Reorderings.antt =====
-- synthesis/reorderings.h and synthesis/reorderings.cpp: a trace as locations, and the order of its
-- conflicting accesses in a model. The `n`-th fresh constant is the number `n`; the final location
-- comes after those of the trace. `none` is an index out of range or a failed assertion.
pub mod Prepare
pub mod Forbidden
pub mod Solving
pub mod Core
pub mod Minimal
pub mod Process
pub mod Theory
pub mod Sorted
pub mod Accesses
pub mod Fixed
pub mod Conflicts
pub mod Threads
pub mod Prepared
pub mod Ordered
pub mod Separated
pub mod Schedules
pub mod Orders
pub mod Inferred
pub mod Conditions
pub mod Sections
pub mod Found
pub mod Kept
pub mod Preserved
pub mod Enumerate
pub mod Classes
use liss.Common.{
  ℕ, zero, suc, ◌+◌, Bool, true, false, ◌&&◌, ◌||◌, not, List, [], ◌∷◌, ◌++◌, Option, none, some,
  ltb, ◌==◌, if◌then◌else◌, length, get_elem?, set, replicate, any,
}
use liss.Common.Int.{pos}
use liss.Types.{Conj}
use liss.Abstraction.Symbol.{Symbol, OpClass, read, write, op_eq, thread_id, symbol_eq}
use liss.Synthesis.Constraint.{TraceLocation, ConstraintAtom, Model, Expr, thread_of}
use liss.Synthesis.Traces.{◌>>=◌}

-- `seperated_trace`. A pointer to a location is the location. The vectors have one list for each
-- thread, variable or conditional.
pub record SeparatedTrace : Type 0 where
  pub trace : List TraceLocation
  pub threaded_trace : List (List TraceLocation)
  pub reads : List (List TraceLocation)
  pub writes : List (List TraceLocation)
  pub waits : List (List TraceLocation)
  pub resets : List (List TraceLocation)
  pub notifies : List (List TraceLocation)
  pub sequential : Expr
  pub thread_order : Expr
  pub locks : Expr
  pub conditionals : Expr
  pub distinct : Expr
  pub synth_locks : Expr

abbrev pub holds_always : Expr
holds_always v = true

unfoldable pub new_separated_trace : ℕ → ℕ → ℕ → SeparatedTrace
new_separated_trace variables conditionals threads = record {
  trace = [];
  threaded_trace = replicate threads [];
  reads = replicate variables [];
  writes = replicate variables [];
  waits = replicate conditionals [];
  resets = replicate conditionals [];
  notifies = replicate conditionals [];
  sequential = holds_always;
  thread_order = holds_always;
  locks = holds_always;
  conditionals = holds_always;
  distinct = holds_always;
  synth_locks = holds_always;
}

-- `v[i].push_back(a)`
unfoldable pub push_at {ℓ} : {A : Type ℓ} → ℕ → A → List (List A) → Option (List (List A))
push_at i a ls = get_elem? ls i >>= λ l. some (set ls i (l ++ a ∷ []))

-- `iteration_counter`: the map after the symbol is counted, and its new number.
unfoldable pub count_symbol : Symbol → List (Symbol × ℕ) → List (Symbol × ℕ) × ℕ
count_symbol s [] = ((s, 1) ∷ [], 1)
count_symbol s ((t, n) ∷ counts) =
    let rest = count_symbol s counts in
    if symbol_eq t s then ((t, suc n) ∷ counts, suc n) else ((t, n) ∷ rest.0, rest.1)

abbrev pub max : ℕ → ℕ → ℕ
max a b = if ltb a b then b else a

abbrev pub new_location : Symbol → ℕ → ℕ → TraceLocation
new_location s counter iteration = record {
  name = counter;
  symbol = s;
  symbol_valid = true;
  iteration = iteration;
  original_position = pos counter;
}

-- The loop of `split_trace`.
unfoldable pub split_from :
    List Symbol → ℕ → List (Symbol × ℕ) → List ℕ → SeparatedTrace → Option SeparatedTrace
unfolding push_at count_symbol
split_from [] counter counts iter strace = some strace
split_from (s ∷ trace) counter counts iter strace = get_elem? iter (thread_id s) >>= λ old.
    let counted = count_symbol s counts in
    let iteration = max old counted.1 in
    let loc = new_location s counter iteration in
    push_at (thread_id s) loc strace.threaded_trace >>= λ threaded.
    split_from trace (suc counter) counted.0 (set iter (thread_id s) iteration)
      (record strace { trace = strace.trace ++ loc ∷ []; threaded_trace = threaded })

unfoldable pub split_trace : ℕ → List Symbol → SeparatedTrace → Option SeparatedTrace
unfolding split_from
split_trace threads trace strace = split_from trace 0 [] (replicate threads 0) strace

abbrev pub atom : TraceLocation → TraceLocation → ConstraintAtom
atom a b = record { before = a; after = b; from_wait_notify = false }

-- `std::sort` by the numbers that the model gives to the locations.
unfoldable pub insert_by : Model → TraceLocation → List TraceLocation → List TraceLocation
insert_by v l [] = l ∷ []
insert_by v l (m ∷ ms) =
    let rest = insert_by v l ms in if ltb (v m.name) (v l.name) then m ∷ rest else l ∷ m ∷ ms

unfoldable pub sort_by : Model → List TraceLocation → List TraceLocation
unfolding insert_by
sort_by v [] = []
sort_by v (l ∷ ls) = insert_by v l (sort_by v ls)

abbrev pub contains : ℕ → List ℕ → Bool
contains t ts = any (λ u. u == t) ts

-- The test of `find_other_traces` for the location `q` after `p`; `marked` is `threads_after`, as
-- the list of the threads whose bit is set.
abbrev pub is_other : TraceLocation → (OpClass → Bool) → List ℕ → TraceLocation → Bool
is_other p operation marked q =
    q.symbol_valid
    && not (contains (thread_of q) marked)
    && q.symbol.variable == p.symbol.variable
    && operation q.symbol.operation

unfoldable pub find_other_traces :
    TraceLocation → (OpClass → Bool) → List ℕ → List TraceLocation → Conj ConstraintAtom
find_other_traces p operation marked [] = []
find_other_traces p operation marked (q ∷ rest) = elim (is_other p operation marked q) [
  | true ↦ atom p q ∷ find_other_traces p operation (thread_of q ∷ marked) rest
  | false ↦ find_other_traces p operation marked rest
]

abbrev pub reads_and_writes : OpClass → Bool
reads_and_writes op = op_eq op read || op_eq op write

abbrev pub writes_only : OpClass → Bool
writes_only op = op_eq op write

-- What one round of the loop of `find_order` adds.
abbrev pub order_of_access : TraceLocation → List TraceLocation → Conj ConstraintAtom
order_of_access p rest =
    (if op_eq p.symbol.operation write then find_other_traces p reads_and_writes [] rest else [])
    ++ (if op_eq p.symbol.operation read then find_other_traces p writes_only [] rest else [])

unfoldable pub order_of : TraceLocation → List TraceLocation → Conj ConstraintAtom
unfolding find_other_traces
order_of p rest = if p.symbol_valid then order_of_access p rest else []

unfoldable pub orders : List TraceLocation → Conj ConstraintAtom
unfolding order_of
orders [] = []
orders (p ∷ rest) = order_of p rest ++ orders rest

-- `find_order2`: one of the two comes first in the model, or the assertion fails.
unfoldable pub relate : Model → TraceLocation → List TraceLocation → Option (Conj ConstraintAtom)
relate v a [] = some []
relate v a (b ∷ two) = relate v a two >>= λ rest.
    if thread_of a == thread_of b
    then some rest
    else if ltb (v a.name) (v b.name)
    then some (atom a b ∷ rest)
    else if ltb (v b.name) (v a.name)
    then some (atom b a ∷ rest)
    else none

unfoldable pub find_order2 :
    Model → List TraceLocation → List TraceLocation → Option (Conj ConstraintAtom)
unfolding relate
find_order2 v [] two = some []
find_order2 v (a ∷ one) two =
    relate v a two >>= λ first. find_order2 v one two >>= λ rest. some (first ++ rest)

-- The loop over the conditionals.
unfoldable pub wait_notify_order :
    Model
    → List (List TraceLocation)
    → List (List TraceLocation)
    → List (List TraceLocation)
    → Option (Conj ConstraintAtom)
unfolding find_order2
wait_notify_order v [] resets notifies = some []
wait_notify_order v (w ∷ waits) (r ∷ resets) (n ∷ notifies) = find_order2 v w r >>= λ one.
    find_order2 v w n >>= λ two. find_order2 v r n >>= λ three.
    wait_notify_order v waits resets notifies >>= λ rest. some (one ++ (two ++ (three ++ rest)))
wait_notify_order v _ _ _ = none

unfoldable pub find_order : SeparatedTrace → Model → Bool → Option (Conj ConstraintAtom)
unfolding orders wait_notify_order sort_by
find_order strace v wait_notify =
    let result = orders (sort_by v strace.trace) in
    if wait_notify
    then (wait_notify_order v strace.waits strace.resets strace.notifies >>= λ more.
        some (result ++ more))
    else some result
