-- ===== src/Synthesis/Traces.antt =====
-- synthesis/trace_helpers.cpp: the symbols under the locks, without preemption points and without
-- the locks that another one includes. `none` is undefined behaviour, the `back()` of an empty
-- vector.
pub mod Split
pub mod Content
pub mod Duplicates
use mathlib.Core.List.{reverse}
use mathlib.Core.Option
use liss.Common.{
  ℕ, suc, zero, ◌+◌, ◌-◌, Bool, true, false, ◌&&◌, ◌||◌, List, [], ◌∷◌, ◌++◌, Option, none, some,
  ltb, leb, ◌==◌, if◌then◌else◌, length, get_elem?, any, all,
}
use liss.Types.{Disj, Cnf}
use liss.Abstraction.Symbol.{Symbol, thread_id, is_real_epsilon, is_preemption_point}
use liss.Synthesis.Constraint.{thread_of, instruction_id}
use liss.Synthesis.Synchronisation.{LockLocation, Lock}

abbrev pub LockList : Type 0
LockList = List Symbol

abbrev pub LockLists : Type 0
LockLists = List LockList

abbrev pub LockSymbols : Type 0
LockSymbols = Cnf LockLists

infixl 5 ◌>>=◌
abbrev pub ◌>>=◌ {ℓ κ} : {A : Type ℓ} {B : Type κ} → Option A → (A → Option B) → Option B
none >>= f = none
some a >>= f = f a

-- The loop over the positions `i` to `i + n - 1` of the trace; `none` is a read past its end.
unfoldable pub collect : List Symbol → ℕ → ℕ → ℕ → Option LockList
collect trace thread i zero = some []
collect trace thread i (suc n) = do
  s ← get_elem? trace i
  rest ← collect trace thread (suc i) n
  some (if thread_id s == thread then s ∷ rest else rest)

-- The symbols of one region; the source asserts that its start does not come after its end.
unfoldable pub region_symbols : List Symbol → LockLocation → Option LockList
unfolding collect
region_symbols trace loc =
    collect trace (thread_of loc.start) (instruction_id loc.start)
      (suc (instruction_id loc.end) - instruction_id loc.start)

-- A loop that pushes back the results of a function that may fail.
unfoldable pub traverse {ℓ κ} :
    {A : Type ℓ} {B : Type κ} → (A → Option B) → List A → Option (List B)
traverse f [] = some []
traverse f (x ∷ xs) = do y ← f x; ys ← traverse f xs; some (y ∷ ys)

unfoldable pub locks_to_symbols : Cnf Lock → List Symbol → Option LockSymbols
unfolding region_symbols traverse
locks_to_symbols locks trace =
    traverse (traverse (λ l. traverse (region_symbols trace) l.locations)) locks

-- The two loops of `trim_list`. The second works on the vector from its back.
unfoldable pub trim_front : LockList → LockList
trim_front [] = []
trim_front (s ∷ l) = if is_real_epsilon s then trim_front l else s ∷ l

unfoldable pub pop_epsilons : LockList → Option LockList
pop_epsilons [] = none
pop_epsilons (s ∷ l) = if is_real_epsilon s then pop_epsilons l else some (s ∷ l)

unfoldable pub trim_list : LockList → Option LockList
unfolding trim_front pop_epsilons
trim_list list = do l ← pop_epsilons (reverse (trim_front list)); some (reverse l)

-- `emplace_back`, `trim_list` and `pop_back` of an empty vector, for a segment that is not empty.
unfoldable pub emit : LockList → LockLists → Option LockLists
unfolding trim_list
emit [] result = some result
emit (s ∷ l) result = do
  t ← trim_list (s ∷ l)
  some (elim t [ [] ↦ result | x ∷ r ↦ result ++ (x ∷ r) ∷ [] ])

-- `split_list`, with the symbols from `last` to `master` in `segment`.
unfoldable pub split_from : LockList → LockList → LockLists → Option LockLists
unfolding emit
split_from segment [] result = emit segment result
split_from segment (s ∷ l) result = elim (is_preemption_point s) [
  | true ↦ emit segment result >>= split_from [] l
  | false ↦ split_from (segment ++ s ∷ []) l result
]

unfoldable pub split_list : LockList → LockLists → Option LockLists
unfolding split_from
split_list list result = split_from [] list result

unfoldable pub split_lists : LockLists → LockLists → Option LockLists
split_lists [] splitted = some splitted
split_lists (list ∷ lists) splitted = split_list list splitted >>= split_lists lists

-- A lock with only one side makes no sense, and is erased; so is a disjunction that is left empty.
unfoldable pub remove_from_disj : Disj LockLists → Option (Disj LockLists)
unfolding split_lists
remove_from_disj [] = some []
remove_from_disj (lock ∷ dis) = do
  splitted ← split_lists lock []
  rest ← remove_from_disj dis
  some (if leb (length splitted) 1 then rest else splitted ∷ rest)

unfoldable pub remove_preemption : LockSymbols → Option LockSymbols
unfolding remove_from_disj
remove_preemption [] = some []
remove_preemption (dis ∷ locks) = do
  d ← remove_from_disj dis
  rest ← remove_preemption locks
  some (elim d [ [] ↦ rest | x ∷ r ↦ (x ∷ r) ∷ rest ])
