-- ===== src/Abstraction/Concurrent/Conflicts.antt =====
-- `tick_lock` and `apply_bad_trace_dnf` of abstraction/concurrent_automaton.cpp: the conflicts that
-- a state is in, and the locks that it has violated.
pub mod Total
use mathlib.Core.Option
use liss.Common.{
  ℕ, zero, suc, ◌+◌, ◌%◌, ◌*◌, Bool, true, false, ◌&&◌, ◌||◌, not, List, [], ◌∷◌, ◌++◌, Option,
  none, some, ltb, ◌==◌, if◌then◌else◌, get_elem?, set, any,
}
use liss.Types.Tagged.{mask, tagged_int, tagged_set, tagged_test, payload}
use liss.Abstraction.Symbol.{Symbol, OpClass, tag, op_eq, thread_id, symbol_eq, is_real_epsilon}
use liss.Abstraction.State.{ConcurrentState}
use liss.Abstraction.Concurrent.Defs.{ConflictInfo, ConcurrentAutomaton}

-- `(locksviolated & bad) == bad`, for bit sets of one length.
unfoldable pub covers : List Bool → List Bool → Bool
covers [] [] = true
covers (v ∷ vs) (b ∷ bs) = (not b || v) && covers vs bs
covers _ _ = false

-- What a check says: the successor is forbidden; it is allowed, with the conflicts and the violated
-- locks; an assertion or a bound is broken, or an exception thrown; the fuel has run out.
pub data Checked : Type 0 where
  forbidden : Checked
  allowed : List ℕ → List Bool → Checked
  broken : Checked
  out_of_fuel : Checked

-- `tick_lock`: the set with the lock added, or `forbidden`. The conflicts are passed on.
unfoldable pub tick_bit : List (List Bool) → List ℕ → List Bool → ℕ → Checked
unfolding covers
tick_bit patterns conflicts violated lock = elim (get_elem? violated lock) [
  | none ↦ broken
  | some true ↦ allowed conflicts violated
  | some false ↦
      let after = set violated lock true in
      if any (covers after) patterns then forbidden else allowed conflicts after
]

unfoldable pub tick_lock : List (List Bool) → List ℕ → List Bool → Option ℕ → Checked
unfolding tick_bit
tick_lock patterns conflicts violated none = forbidden
tick_lock patterns conflicts violated (some lock) = tick_bit patterns conflicts violated lock

-- Insertion into an ordered set.
unfoldable pub insert : ℕ → List ℕ → List ℕ
insert c [] = c ∷ []
insert c (d ∷ ds) =
    let rest = insert c ds in if ltb c d then c ∷ d ∷ ds else if c == d then d ∷ ds else d ∷ rest

-- `conflict.find(sigma) != conflict.end()`
abbrev pub contains : Symbol → List Symbol → Bool
contains sigma symbols = any (λ c. symbol_eq c sigma) symbols

-- What one round of the loop does with the conflict `c`: keep it, delete it, delete it and insert
-- another, tick a lock and delete it, or break.
pub data Verdict : Type 0 where
  keep : Verdict
  delete : Verdict
  escalate : ℕ → Verdict
  tick : Option ℕ → Verdict
  stop : Verdict

unfoldable pub judge_clean : ConflictInfo → Symbol → ℕ → Verdict
judge_clean ci sigma c =
    if thread_id ci.next == thread_id sigma
    then delete
    else if contains sigma ci.conflict
    then elim (tagged_set c) [ none ↦ stop | some c' ↦ escalate c' ]
    else keep

unfoldable pub judge_tagged : ConflictInfo → Symbol → Verdict
judge_tagged ci sigma =
    if thread_id ci.next == thread_id sigma
    then if symbol_eq sigma ci.next then tick ci.lock_id else delete
    else keep

unfoldable pub judge : List ConflictInfo → Symbol → ℕ → Verdict
unfolding judge_clean judge_tagged
judge infos sigma c = elim (payload c) [
  | none ↦ stop
  | some n ↦ elim (get_elem? infos n) [
    | none ↦ stop
    | some ci ↦ elim (tagged_test c) [
      | none ↦ stop
      | some tagged ↦ if tagged then judge_tagged ci sigma else judge_clean ci sigma c
    ]
  ]
]

-- The loop over the set, split at `itc`. An escalated conflict has its tag set, so it is larger
-- than `c` and is met later in the same loop.
unfoldable pub conflict_loop :
    List ConflictInfo → List (List Bool) → Symbol → ℕ → List ℕ → List ℕ → List Bool → Checked
conflict_loop infos patterns sigma fuel done [] violated = allowed done violated
conflict_loop infos patterns sigma zero done (c ∷ rest) violated = out_of_fuel
conflict_loop infos patterns sigma (suc fuel) done (c ∷ rest) violated =
    elim (judge infos sigma c) [
      | keep ↦ conflict_loop infos patterns sigma fuel (done ++ c ∷ []) rest violated
      | delete ↦ conflict_loop infos patterns sigma fuel done rest violated
      | escalate c' ↦ conflict_loop infos patterns sigma fuel done (insert c' rest) violated
      | tick lock ↦ elim (tick_lock patterns rest violated lock) [
        | allowed rest' violated' ↦ conflict_loop infos patterns sigma fuel done rest' violated'
        | forbidden ↦ forbidden
        | broken ↦ broken
        | out_of_fuel ↦ out_of_fuel
      ]
      | stop ↦ broken
    ]

-- A conflict is met at most twice, once before and once after it is escalated.
abbrev pub weight : ℕ → ℕ
weight c = if ltb c mask then 2 else 1

abbrev pub fuel_for : List ℕ → ℕ
fuel_for [] = 0
fuel_for (c ∷ cs) = weight c + fuel_for cs

-- The new conflicts that `sigma` starts: `conflict_t(c.second)` throws on a number that is too
-- high, and the number is first cut to 16 bits.
unfoldable pub start_conflicts : List (Symbol × ℕ) → Symbol → List ℕ → List Bool → Checked
start_conflicts [] sigma conflicts violated = allowed conflicts violated
start_conflicts ((s, n) ∷ m) sigma conflicts violated =
    let next = start_conflicts m sigma in
    if symbol_eq s sigma
    then elim (tagged_int (n % 65536)) [
      | none ↦ broken
      | some c ↦ next (insert c conflicts) violated
    ]
    else next conflicts violated

unfoldable pub apply_bad_trace_dnf : ConcurrentAutomaton → Symbol → ConcurrentState → Checked
apply_bad_trace_dnf a sigma s =
    if is_real_epsilon sigma || op_eq sigma.operation tag
    then allowed s.conflicts s.locksviolated
    else elim (conflict_loop a.conflicts a.locks sigma (fuel_for s.conflicts) [] s.conflicts
        s.locksviolated) [
          | allowed conflicts violated ↦ start_conflicts a.conflict_map sigma conflicts violated
          | forbidden ↦ forbidden
          | broken ↦ broken
          | out_of_fuel ↦ out_of_fuel
        ]
