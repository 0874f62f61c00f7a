-- ===== src/Synthesis/Synchronisation.antt =====
-- synthesis/lock.h and synthesis/synchronisation.cpp: locks from a conjunction of disjunctions of
-- ordering constraints.

use liss.Common.{
  ℕ, suc, Bool, true, false, ◌&&◌, ◌||◌, not, List, [], ◌∷◌, ◌++◌, Option, none, some, ltb, leb,
  ◌==◌, if◌then◌else◌, length,
}
pub mod Sound
use liss.Types.{Disj, Cnf}
use liss.Synthesis.Constraint.{TraceLocation, ConstraintAtom, thread_of, instruction_id}

-- A region of a trace; the pointers into the syntax tree are left out.
pub record LockLocation : Type 0 where
  pub start : TraceLocation
  pub end : TraceLocation

-- The lock of number n has the name "l" + n.
pub record Lock : Type 0 where
  pub name : ℕ
  pub locations : List LockLocation

-- What the loops of `find_lock` change: the global `lock_counter`, the vector of locks, and `found`.
pub record Finder : Type 0 where
  pub lock_counter : ℕ
  pub locks : List Lock
  pub found : Bool

-- The test of the inner loop on the four locations.
unfoldable pub is_lock : TraceLocation → TraceLocation → TraceLocation → TraceLocation → Bool
is_lock loc1a loc1b loc2a loc2b =
    thread_of loc1a == thread_of loc1b
    && thread_of loc2a == thread_of loc2b
    && (leb (instruction_id loc1b) (instruction_id loc1a)
          && leb (instruction_id loc2b) (instruction_id loc2a)
        || leb (instruction_id loc1b) (instruction_id loc1a)
          && leb (instruction_id loc2a) (instruction_id loc2b)
        || leb (instruction_id loc1a) (instruction_id loc1b)
          && leb (instruction_id loc2b) (instruction_id loc2a)
        || instruction_id loc1a == instruction_id loc1b
          && leb (instruction_id loc2a) (instruction_id loc2b)
        || leb (instruction_id loc1a) (instruction_id loc1b)
          && instruction_id loc2a == instruction_id loc2b)

-- The region between two locations, after the exchange that puts the earlier one first.
unfoldable pub region : TraceLocation → TraceLocation → LockLocation
region a b =
    if ltb (instruction_id b) (instruction_id a)
    then record { start = b; end = a }
    else record { start = a; end = b }

-- The lock for two atoms, its regions ordered by the numbers of their threads.
unfoldable pub make_lock : ConstraintAtom → ConstraintAtom → ℕ → Lock
unfolding region
make_lock a b counter =
    let r1 = region a.before b.after in
    let r2 = region b.before a.after in
    record {
      name = counter;
      locations =
          if ltb (thread_of r2.start) (thread_of r1.start) then r1 ∷ r2 ∷ [] else r2 ∷ r1 ∷ [];
    }

-- The body of the inner loop, for the atoms `a` and `b`.
unfoldable pub try_pair : Bool → ConstraintAtom → ConstraintAtom → Finder → Finder
unfolding is_lock make_lock
try_pair allow_only_weak a b f =
    if (not a.from_wait_notify || not b.from_wait_notify || allow_only_weak)
      && is_lock a.before b.after b.before a.after
    then record {
      lock_counter = suc f.lock_counter;
      locks = f.locks ++ make_lock a b (suc f.lock_counter) ∷ [];
      found = true;
    }
    else f

unfoldable pub inner_loop : Bool → ConstraintAtom → List ConstraintAtom → Finder → Finder
inner_loop weak a [] f = f
inner_loop weak a (b ∷ bs) f = inner_loop weak a bs (try_pair weak a b f)

unfoldable pub outer_loop : Bool → List ConstraintAtom → Finder → Finder
outer_loop weak [] f = f
outer_loop weak (a ∷ as') f = outer_loop weak as' (inner_loop weak a as' f)

-- The state after the call; `found` is what is returned.
unfoldable pub find_lock : Disj ConstraintAtom → ℕ → List Lock → Bool → Finder
find_lock disjunct counter locks allow_only_weak =
    let f : Finder = record { lock_counter = counter; locks = locks; found = false } in
    if leb 2 (length disjunct) then outer_loop allow_only_weak disjunct f else f

-- One round of `generate_sync`: the second call is made if the first finds nothing.
unfoldable pub find_locks : Disj ConstraintAtom → ℕ → Finder
unfolding find_lock
find_locks d counter =
    let first = find_lock d counter [] false in
    if first.found then first else find_lock d first.lock_counter first.locks true

-- The locks and the counter at the end.
unfoldable pub generate_sync : Cnf ConstraintAtom → ℕ → Cnf Lock × ℕ
generate_sync [] counter = ([], counter)
generate_sync (d ∷ ds) counter =
    let f = find_locks d counter in
    let rest = generate_sync ds f.lock_counter in (f.locks ∷ rest.0, rest.1)
