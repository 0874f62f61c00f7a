-- ===== src/Placement/Result.antt =====
-- placement/place_locks.cpp: the placement that is read from the model of the optimiser. `none` is a
-- failed assertion or an index out of range. The locations and locks of a model are those of the
-- enumerations, so the lookups in `location_map` and `lock_map` find them.
use liss.Common.{
  ℕ, zero, suc, Bool, true, false, ◌&&◌, not, List, [], ◌∷◌, ◌++◌, map, Option, none, some, ltb,
  ◌==◌, if◌then◌else◌, length, get_elem?, any, count_from, numbered, keep, concat_map,
}
use liss.Abstraction.Symbol.{Symbol, Location}
use liss.Synthesis.Traces.{LockSymbols, ◌>>=◌}
use liss.Cfg.Graph.{AbstractCfg, State, get_state, is_dummy}
use liss.Placement.{
  Assignment, Formula, LockType, lock, unlock, PositionType, before, after, SinglePlacement,
  LockStatistics, PlacementResult, CostType, at, equal,
}
use liss.Placement.Constraints.{states_of, add_constraints, locked_together}
use liss.Placement.Cost.{Soft, cost_model}

-- One entry of the interpretation of a function, and what it has elsewhere: a value, another
-- function, or a conditional.
pub record FuncEntry : Type 0 where
  pub location : Location
  pub lock_number : ℕ
  pub value : Bool

pub data ElseValue : Type 0 where
  constant : Bool → ElseValue
  function : ℕ → ElseValue
  conditional : ElseValue

pub record FuncInterp : Type 0 where
  pub entries : List FuncEntry
  pub else_value : ElseValue

-- A model: the values of the functions and constants, the interpretations of the four functions that
-- are read, and those of the other functions.
pub record Model : Type 0 where
  pub values : Assignment
  pub lock_a : FuncInterp
  pub lock_b : FuncInterp
  pub unlock_a : FuncInterp
  pub unlock_b : FuncInterp
  pub others : ℕ → FuncInterp

-- `func_result_impl` and `func_result_expr`, for chains of at most `fuel` functions.
unfoldable pub func_result_impl : (ℕ → FuncInterp) → ℕ → FuncInterp → Option (List FuncEntry × Bool)
func_result_impl others zero f = none
func_result_impl others (suc fuel) f = elim f.else_value [
  | constant b ↦ some (f.entries, b)
  | function name ↦ func_result_impl others fuel (others name) >>= λ (r : List FuncEntry × Bool).
      some (f.entries ++ r.0, r.1)
  | conditional ↦ none
]

unfoldable pub func_result : (ℕ → FuncInterp) → ℕ → FuncInterp → Option (List FuncEntry × Bool)
unfolding func_result_impl
func_result others fuel f = func_result_impl others fuel f >>= λ (r : List FuncEntry × Bool).
    some (keep (λ (e : FuncEntry). not (equal e.value r.1)) r.0, r.1)

unfoldable pub result_to_locklist : List FuncEntry → Option (List (ℕ × Location))
result_to_locklist [] = some []
result_to_locklist (r ∷ result) = do
  locks ← result_to_locklist result
  if r.value then some ((r.lock_number, r.location) ∷ locks) else none

-- The placements of one of the four functions, which has to be false elsewhere.
unfoldable pub read_placements :
    (ℕ → FuncInterp) → ℕ → FuncInterp → LockType → PositionType → Option (List SinglePlacement)
unfolding func_result result_to_locklist
read_placements others fuel f which position = do
  (result, elsee) ← func_result others fuel f
  locks ← if elsee then none else result_to_locklist result
  some (
      map
        (λ (p : ℕ × Location). record {
          lock_number = p.0;
          lock_t = which;
          position = position;
          location = p.1;
        })
        locks)

abbrev pub type_eq : LockType → LockType → Bool
type_eq lock lock = true
type_eq unlock unlock = true
type_eq _ _ = false

abbrev pub position_eq : PositionType → PositionType → Bool
position_eq before before = true
position_eq after after = true
position_eq _ _ = false

-- The place of the source text that a placement refers to.
abbrev pub site_at : PositionType → State → ℕ
site_at before s = s.lock_before
site_at after s = s.lock_after

unfoldable pub site : List AbstractCfg → PositionType → Location → Option ℕ
unfolding get_state
site threads position loc = do
  g ← get_elem? threads loc.thread
  s ← get_state g loc.state
  some (site_at position s)

-- Whether two placements are one instruction of the source text.
unfoldable pub is_same : List AbstractCfg → SinglePlacement → SinglePlacement → Option Bool
unfolding site
is_same threads p q =
    if p.lock_number == q.lock_number
      && type_eq p.lock_t q.lock_t
      && position_eq p.position q.position
    then (do
      statei ← site threads p.position p.location
      statej ← site threads p.position q.location
      some (statei == statej))
    else some false

-- The inner loop, which erases what is the same as `p`.
unfoldable pub erase_same :
    List AbstractCfg → SinglePlacement → List SinglePlacement → Option (List SinglePlacement)
unfolding is_same
erase_same threads p [] = some []
erase_same threads p (q ∷ locks) = do
  same ← is_same threads p q
  rest ← erase_same threads p locks
  some (if same then rest else q ∷ rest)

-- The outer loop, with a round for each placement.
unfoldable pub remove_from :
    List AbstractCfg → ℕ → List SinglePlacement → Option (List SinglePlacement)
unfolding erase_same
remove_from threads fuel [] = some []
remove_from threads zero (p ∷ locks) = none
remove_from threads (suc fuel) (p ∷ locks) = do
  rest ← erase_same threads p locks
  kept ← remove_from threads fuel rest
  some (p ∷ kept)

unfoldable pub remove_duplicates :
    List AbstractCfg → List SinglePlacement → Option (List SinglePlacement)
unfolding remove_from
remove_duplicates threads locks = remove_from threads (length locks) locks

abbrev count : List Bool → ℕ
count bs = length (keep (λ b. b) bs)

-- The set of the numbers, as a list without repetition.
abbrev distinct : List ℕ → List ℕ
distinct [] = []
distinct (l ∷ ls) = let rest = distinct ls in if any (λ k. k == l) rest then rest else l ∷ rest

unfoldable pub get_statistics :
    List AbstractCfg → List ℕ → Assignment → List SinglePlacement → LockStatistics
get_statistics threads locks v to_lock = record {
  locks = length (distinct (map (λ (p : SinglePlacement). p.lock_number) to_lock));
  lock_instr = count (map (λ (p : SinglePlacement). type_eq p.lock_t lock) to_lock);
  unlock_instr = count (map (λ (p : SinglePlacement). type_eq p.lock_t unlock) to_lock);
  in_lock = count (
      concat_map
        (λ (t : ℕ × AbstractCfg).
          map (λ (s : ℕ × State). not (is_dummy s.1) && any (λ l. v.in_lock (at t.0 s.0) l) locks)
            (states_of t.1))
        (numbered 0 threads));
}

pub data PlacementEnd : Type 0 where
  placed : PlacementResult → PlacementEnd
  failed : PlacementEnd
  broken : PlacementEnd

-- What the source takes from elsewhere: the optimiser, the statements of the symbols, the test of
-- Limi, the limit on the locks, and how deep the functions of a model refer to each other.
pub record Setting : Type 0 where
  pub optimize : List Formula → List Soft → Option Model
  pub stmt : Symbol → ℕ
  pub set_intersection_empty : List ℕ → List ℕ → Bool
  pub lock_limit : ℕ
  pub depth : ℕ

-- The four lists in the order in which they are placed.
unfoldable pub read_model : ℕ → Model → Option (List SinglePlacement)
unfolding read_placements
read_model depth model = do
  lock_after ← read_placements model.others depth model.lock_a lock after
  lock_before ← read_placements model.others depth model.lock_b lock before
  unlock_after ← read_placements model.others depth model.unlock_a unlock after
  unlock_before ← read_placements model.others depth model.unlock_b unlock before
  some (lock_after ++ (lock_before ++ (unlock_after ++ unlock_before)))

unfoldable pub max_locks : ℕ → LockSymbols → ℕ
max_locks lock_limit locks_to_place =
    if ltb (length locks_to_place) lock_limit then length locks_to_place else lock_limit

unfoldable pub hard_constraints : List AbstractCfg → ℕ → LockSymbols → List Formula
unfolding locked_together add_constraints
hard_constraints threads n locks_to_place =
    locked_together 0 locks_to_place ++ add_constraints threads (count_from 0 n)

unfoldable pub read_result :
    List AbstractCfg → ℕ → ℕ → List SinglePlacement → Model → Option PlacementResult
unfolding read_model remove_duplicates get_statistics
read_result threads depth n to_place model = do
  read ← read_model depth model
  locks ← remove_duplicates threads (to_place ++ read)
  some (record {
    locks = locks;
    statistics = get_statistics threads (count_from 0 n) model.values locks;
  })

abbrev pub placed_or_broken : Option PlacementResult → PlacementEnd
placed_or_broken none = broken
placed_or_broken (some result) = placed result

-- What follows the check of the optimiser.
unfoldable pub use_model :
    List AbstractCfg → ℕ → ℕ → List SinglePlacement → Option Model → PlacementEnd
unfolding read_result
use_model threads depth n to_place none = failed
use_model threads depth n to_place (some model) =
    placed_or_broken (read_result threads depth n to_place model)

-- `to_place` is what the vector of the result holds before.
unfoldable pub find_locks :
    Setting → List AbstractCfg → CostType → LockSymbols → List SinglePlacement → PlacementEnd
unfolding max_locks hard_constraints cost_model use_model
find_locks e threads cost_function locks_to_place to_place =
    let n = max_locks e.lock_limit locks_to_place in
    use_model threads e.depth n to_place (
      e.optimize (hard_constraints threads n locks_to_place) (
        cost_model e.stmt e.set_intersection_empty cost_function threads (count_from 0 n)
          locks_to_place))
