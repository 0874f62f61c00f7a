-- ===== src/Synthesis/Merging.antt =====
-- `merge_locks` of synthesis/synchronisation.cpp with `check_overlap`, `check_contained` and
-- `merge_overlap`. The program does not call it. `none` is a failed assertion.
pub mod Covered
use liss.Common.{
  ℕ, zero, suc, ◌≤◌, ◌≡◌, ◌⊎◌, inl, inr, ◌↔◌, refl, Bool, true, false, ◌&&◌, ◌||◌, not, List, [],
  ◌∷◌, Option, none, some, ltb, leb, ◌==◌, if◌then◌else◌, arith, length, Bool-cases,
}
use liss.Synthesis.Constraint.{TraceLocation, thread_of, instruction_id}
use liss.Synthesis.Synchronisation.{LockLocation, Lock}
use liss.Synthesis.Traces.{◌>>=◌}

abbrev pub first : LockLocation → ℕ
first l = instruction_id l.start

abbrev pub last : LockLocation → ℕ
last l = instruction_id l.end

unfoldable pub check_overlap : LockLocation → LockLocation → Bool
check_overlap locs1 locs2 =
    thread_of locs1.start == thread_of locs2.start
    && (leb (first locs1) (first locs2) && leb (first locs2) (last locs1)
        || leb (first locs1) (first locs2) && leb (first locs1) (last locs2))

unfoldable pub check_contained : LockLocation → LockLocation → Bool
check_contained locs1 locs2 =
    thread_of locs1.start == thread_of locs2.start
    && (leb (first locs1) (first locs2) && leb (last locs2) (last locs1)
        || leb (first locs2) (first locs1) && leb (last locs1) (last locs2))

unfoldable pub merge_overlap : LockLocation → LockLocation → LockLocation
merge_overlap locs1 locs2 = record {
  start = if leb (first locs1) (first locs2) then locs1.start else locs2.start;
  end = if leb (last locs2) (last locs1) then locs1.end else locs2.end;
}

-- The two locations of a lock.
abbrev pub Regions : Type 0
Regions = LockLocation × LockLocation

abbrev pub regions : Lock → Option Regions
regions l = elim l.locations [
  | [] ↦ none
  | a ∷ as' ↦ elim as' [ [] ↦ none | b ∷ bs ↦ elim bs [ [] ↦ some (a, b) | _ ∷ _ ↦ none ] ]
]

abbrev xor : Bool → Bool → Bool
xor a b = if a then not b else b

abbrev pub same_threads : Regions → Regions → Bool
same_threads (p1a, p1b) (p2a, p2b) =
    thread_of p1a.start == thread_of p2a.end && thread_of p1b.start == thread_of p2b.end

abbrev pub would_deadlock : Regions → Regions → Bool
would_deadlock (p1a, p1b) (p2a, p2b) =
    check_overlap p1a p2a
    && check_overlap p1b p2b
    && xor (ltb (first p2a) (first p1a)) (ltb (first p2b) (first p1b))

-- Whether the second lock is merged into the first.
unfoldable pub found : Regions → Regions → Bool
unfolding check_overlap check_contained
found (p1a, p1b) (p2a, p2b) =
    same_threads (p1a, p1b) (p2a, p2b)
    && (check_contained p1a p2a && check_contained p1b p2b || would_deadlock (p1a, p1b) (p2a, p2b))

abbrev pub both : Regions → Regions → Regions
both (p1a, p1b) (p2a, p2b) = (merge_overlap p1a p2a, merge_overlap p1b p2b)

-- The loop over `j`: the regions of lock `i` at its end, and the locks that are left.
unfoldable pub absorb : Regions → List Lock → Option (Regions × List Lock)
unfolding found merge_overlap
absorb r [] = some (r, [])
absorb r (j ∷ locks) = regions j >>= λ q. elim (found r q) [
  | true ↦ absorb (both r q) locks
  | false ↦ absorb r locks >>= λ rest. some (rest.0, j ∷ rest.1)
]

-- The loop over `i`, on a fuel that the length of the list bounds.
unfoldable pub merge_from : ℕ → List Lock → Option (List Lock)
unfolding absorb
merge_from fuel [] = some []
merge_from zero (i ∷ locks) = none
merge_from (suc fuel) (i ∷ locks) = regions i >>= λ r. absorb r locks >>= λ rest.
    merge_from fuel rest.1 >>= λ out.
    some (record i { locations = (rest.0).0 ∷ (rest.0).1 ∷ [] } ∷ out)

unfoldable pub merge_locks : List Lock → Option (List Lock)
unfolding merge_from
merge_locks locks = merge_from (length locks) locks
