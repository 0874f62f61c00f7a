-- ===== src/Synthesis/Reorderings/Prepare.antt =====
-- `prepare_trace` of synthesis/reorderings.cpp: the constraints on the schedules of a trace.
use liss.Common.{
  ℕ, suc, ◌+◌, Bool, true, false, ◌&&◌, ◌||◌, not, List, [], ◌∷◌, ◌++◌, Option, none, some, ◌==◌,
  if◌then◌else◌, length, get_elem?, set, replicate, all,
}
use liss.Common.Int.{pos, negsuc}
use liss.Abstraction.Symbol.{
  OpClass, read, write, lock, unlock, wait, wait_not, notify, reset, wait_reset, yield, epsilon,
  tag, op_eq, epsilon_symbol, assumes_allow_switch,
}
use liss.Synthesis.Constraint.{TraceLocation, Model, Expr, thread_of, less}
use liss.Synthesis.Traces.{◌>>=◌}
use liss.Synthesis.Reorderings.{SeparatedTrace, push_at, holds_always}

pub record LockPair : Type 0 where
  pub lock_at : TraceLocation
  pub unlock_at : Option TraceLocation

-- What the first loop changes.
pub record Preparation : Type 0 where
  pub strace : SeparatedTrace
  pub lockings : List (List LockPair)
  pub thread_endpoints : List (Option TraceLocation)

-- The final location has no symbol, which is a dummy here.
unfoldable pub final_location : ℕ → TraceLocation
unfolding epsilon_symbol
final_location n = record {
  name = n;
  symbol = epsilon_symbol 0 (pos 0);
  symbol_valid = false;
  iteration = 0;
  original_position = negsuc 0;
}

-- `lockings[var].back().unlock = loc`
unfoldable pub close_last : TraceLocation → List LockPair → Option (List LockPair)
close_last loc [] = none
close_last loc (p ∷ ps) =
    let rest = close_last loc ps in
    elim ps [
      | [] ↦ some (record p { unlock_at = some loc } ∷ [])
      | _ ∷ _ ↦ rest >>= λ qs. some (p ∷ qs)
    ]

-- The `switch`: what it records, and `seq_condition`.
unfoldable pub note_operation : OpClass → TraceLocation → Preparation → Option (Preparation × Bool)
unfolding close_last push_at
note_operation lock loc p =
    push_at loc.symbol.variable (record { lock_at = loc; unlock_at = none }) p.lockings >>= λ ls.
    some (record p { lockings = ls }, loc.symbol.synthesised)
note_operation unlock loc p = get_elem? p.lockings loc.symbol.variable >>= λ l.
    close_last loc l >>= λ l'.
    some (record p { lockings = set p.lockings loc.symbol.variable l' }, true)
note_operation wait_reset loc p = push_at loc.symbol.variable loc p.strace.resets >>= λ rs.
    push_at loc.symbol.variable loc p.strace.waits >>= λ ws. some (
      record p { strace = record p.strace { resets = rs; waits = ws } },
      loc.symbol.assumed && not assumes_allow_switch,
    )
note_operation wait loc p = push_at loc.symbol.variable loc p.strace.waits >>= λ ws. some (
  record p { strace = record p.strace { waits = ws } },
  loc.symbol.assumed && not assumes_allow_switch,
)
note_operation wait_not loc p = push_at loc.symbol.variable loc p.strace.waits >>= λ ws. some (
  record p { strace = record p.strace { waits = ws } },
  loc.symbol.assumed && not assumes_allow_switch,
)
note_operation notify loc p = push_at loc.symbol.variable loc p.strace.notifies >>= λ ns.
    some (record p { strace = record p.strace { notifies = ns } }, true)
note_operation reset loc p = push_at loc.symbol.variable loc p.strace.resets >>= λ rs.
    some (record p { strace = record p.strace { resets = rs } }, true)
note_operation read loc p = push_at loc.symbol.variable loc p.strace.reads >>= λ rs.
    some (record p { strace = record p.strace { reads = rs } }, true)
note_operation write loc p = push_at loc.symbol.variable loc p.strace.writes >>= λ ws.
    some (record p { strace = record p.strace { writes = ws } }, true)
note_operation epsilon loc p = some (p, true)
note_operation yield loc p = some (p, false)
note_operation tag loc p = some (p, true)

-- `loc` comes directly after `before`.
abbrev pub follows : TraceLocation → TraceLocation → Expr
follows loc before v = v loc.name == v before.name + 1

abbrev pub both : Expr → Expr → Expr
both e f v = e v && f v

abbrev pub either : Expr → Expr → Expr
either e f v = e v || f v

abbrev pub never : Expr
never v = false

-- The constraints against the endpoint of the thread.
unfoldable pub link : TraceLocation → Option TraceLocation → Bool → SeparatedTrace → SeparatedTrace
link loc none seq_condition s = s
link loc (some before) seq_condition s = record s {
  sequential = if seq_condition then both s.sequential (follows loc before) else s.sequential;
  thread_order = both s.thread_order (less before loc);
}

-- One round of the loop over the locations of a thread.
unfoldable pub note_location : TraceLocation → Preparation → Option Preparation
unfolding note_operation link
note_location loc p = note_operation loc.symbol.operation loc p >>= λ noted.
    get_elem? noted.0.thread_endpoints (thread_of loc) >>= λ before. some (record noted.0 {
      strace = link loc before noted.1 noted.0.strace;
      thread_endpoints = set noted.0.thread_endpoints (thread_of loc) (some loc);
    })

unfoldable pub note_thread : List TraceLocation → Preparation → Option Preparation
unfolding note_location
note_thread [] p = some p
note_thread (loc ∷ th) p = note_location loc p >>= note_thread th

unfoldable pub note_threads : List (List TraceLocation) → Preparation → Option Preparation
unfolding note_thread
note_threads [] p = some p
note_threads (th ∷ ths) p = note_thread th p >>= note_threads ths

-- The final location is after all endpoints.
unfoldable pub close_threads : TraceLocation → List (Option TraceLocation) → Expr → Expr
close_threads final [] order = order
close_threads final (none ∷ endpoints) order = close_threads final endpoints order
close_threads final (some endp ∷ endpoints) order =
    close_threads final endpoints (both order (less endp final))

-- `Z3_mk_distinct`
abbrev pub differs : Model → TraceLocation → TraceLocation → Bool
differs v a b = not (v a.name == v b.name)

unfoldable pub all_distinct : List TraceLocation → Expr
all_distinct [] v = true
all_distinct (l ∷ ls) v = all (differs v l) ls && all_distinct ls v

abbrev pub unlock_or : TraceLocation → LockPair → TraceLocation
unlock_or final p = elim p.unlock_at [ none ↦ final | some u ↦ u ]

-- One lock section is not begun within the other: `it` and `it2`.
abbrev pub exclusive : TraceLocation → LockPair → LockPair → Expr
exclusive final p q = either (less (unlock_or final q) p.lock_at) (less p.lock_at q.lock_at)

-- The loop over `it2`, which stands at `j`, for `it` at `i`. An absent unlock is the final location.
unfoldable pub exclude_from : TraceLocation → ℕ → LockPair → ℕ → List LockPair → Expr → Expr
exclude_from final i p j [] locks = locks
exclude_from final i p j (q ∷ qs) locks =
    exclude_from final i p (suc j) qs (if i == j then locks else both locks (exclusive final p q))

unfoldable pub exclude_each : TraceLocation → ℕ → List LockPair → List LockPair → Expr → Expr
unfolding exclude_from
exclude_each final i pairs [] locks = locks
exclude_each final i pairs (p ∷ ps) locks =
    exclude_each final (suc i) pairs ps (exclude_from final i p 0 pairs locks)

unfoldable pub exclude_all : TraceLocation → List (List LockPair) → Expr → Expr
unfolding exclude_each
exclude_all final [] locks = locks
exclude_all final (pairs ∷ lockings) locks =
    exclude_all final lockings (exclude_each final 0 pairs pairs locks)

-- No reset but the wait itself lies between the notification `n` and the wait `w`.
unfoldable pub no_reset_between : TraceLocation → TraceLocation → List TraceLocation → Expr → Expr
no_reset_between w n [] one = one
no_reset_between w n (r ∷ rs) one =
    no_reset_between w n rs
      (if w.name == r.name then one else both one (either (less r n) (less w r)))

unfoldable pub wait_holds : TraceLocation → List TraceLocation → List TraceLocation → Expr → Expr
unfolding no_reset_between
wait_holds w [] resets e = e
wait_holds w (n ∷ ns) resets e =
    wait_holds w ns resets (either e (no_reset_between w n resets (less n w)))

unfoldable pub before_all : TraceLocation → List TraceLocation → Expr → Expr
before_all w [] one = one
before_all w (n ∷ ns) one = before_all w ns (both one (less w n))

unfoldable pub no_notify_between : TraceLocation → TraceLocation → List TraceLocation → Expr → Expr
no_notify_between w r [] one = one
no_notify_between w r (n ∷ ns) one =
    no_notify_between w r ns (both one (either (less n r) (less w n)))

unfoldable pub wait_not_holds :
    TraceLocation → List TraceLocation → List TraceLocation → Expr → Expr
unfolding no_notify_between
wait_not_holds w notifies [] e = e
wait_not_holds w notifies (r ∷ rs) e =
    wait_not_holds w notifies rs (either e (no_notify_between w r notifies (less r w)))

-- `conditional_notify` for one wait.
unfoldable pub condition_of : List TraceLocation → List TraceLocation → TraceLocation → Expr
unfolding wait_holds before_all wait_not_holds
condition_of notifies resets w =
    if op_eq w.symbol.operation wait_not
    then wait_not_holds w notifies resets (either never (before_all w notifies holds_always))
    else wait_holds w notifies resets never

unfoldable pub conditions_of :
    List TraceLocation → List TraceLocation → List TraceLocation → Expr → Expr
unfolding condition_of
conditions_of notifies resets [] e = e
conditions_of notifies resets (w ∷ ws) e =
    conditions_of notifies resets ws (both e (condition_of notifies resets w))

-- The loop over the conditionals.
unfoldable pub all_conditions :
    List (List TraceLocation)
    → List (List TraceLocation)
    → List (List TraceLocation)
    → Expr
    → Option Expr
unfolding conditions_of
all_conditions [] notifies resets e = some e
all_conditions (w ∷ waits) (n ∷ notifies) (r ∷ resets) e =
    all_conditions waits notifies resets (conditions_of n r w e)
all_conditions _ _ _ e = none

-- After the first loop.
unfoldable pub finish_preparation : TraceLocation → Preparation → Option SeparatedTrace
unfolding close_threads all_distinct exclude_all all_conditions
finish_preparation final p =
    let s = p.strace in
    all_conditions s.waits s.notifies s.resets s.conditionals >>= λ conditionals. some (record s {
      thread_order = close_threads final p.thread_endpoints s.thread_order;
      distinct = all_distinct s.trace;
      locks = exclude_all final p.lockings s.locks;
      conditionals = conditionals;
    })

unfoldable pub prepare_trace : ℕ → ℕ → SeparatedTrace → Option SeparatedTrace
unfolding note_threads finish_preparation
prepare_trace no_locks no_threads strace =
    let final = final_location (length strace.trace) in
    let started : Preparation = record {
      strace = record strace { trace = strace.trace ++ final ∷ [] };
      lockings = replicate no_locks [];
      thread_endpoints = replicate no_threads none;
    } in
    note_threads strace.threaded_trace started >>= finish_preparation final
