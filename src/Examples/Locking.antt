-- ===== src/Examples/Locking.antt =====
-- A trace of two threads: thread 0 reads and writes x (positions 0 and 2), thread 1 writes x in
-- between and later (positions 1 and 3).
use liss.Common.{◌⊎◌, zero, suc, ◌≡◌, ◌≢◌, refl, true, false, List, [], ◌∷◌, some, Memᴰ, arith, All}
use liss.Types.{Dnf, Disj, not_dnf}
use liss.Types.Negation.{eval_cnf}
use liss.Abstraction.Symbol.{read, write, is_real_epsilon, is_preemption_point, symbol_eq}
use liss.Abstraction.Symbol.Equality.{symbol_eq_trans}
use liss.Synthesis.Constraint.{
  TraceLocation, ConstraintAtom, Model, make_constraint_dnf, not_atom, atom_holds,
}
use liss.Synthesis.Synchronisation.{generate_sync, find_locks, inner_loop, outer_loop, try_pair}
use liss.Synthesis.Synchronisation.Sound.{obeys, generate_sync_sound}
use liss.Synthesis.Elimination.{locks_for, locks_for_eliminate}
use liss.Synthesis.Traces.{LockList, LockLists, LockSymbols, split_list, remove_preemption}
use liss.Synthesis.Traces.Split.{IsLock, remove_preemption-IsLock}
use liss.Synthesis.Traces.Duplicates.{
  Pointers, Includes, remove_duplicates, test_duplicate, sub_vector, remove_duplicates_lem,
}
use liss.Examples.Data.{make_symbol, make_location, read_x, write_x, take_l}

abbrev pub at_0 : TraceLocation
at_0 = make_location (make_symbol read 0 0 1) 0

abbrev pub at_1 : TraceLocation
at_1 = make_location (make_symbol write 0 1 1) 1

abbrev pub at_2 : TraceLocation
at_2 = make_location (make_symbol write 0 0 2) 2

abbrev pub at_3 : TraceLocation
at_3 = make_location (make_symbol write 0 1 2) 3

abbrev trace : List TraceLocation
trace = at_0 ∷ at_1 ∷ at_2 ∷ at_3 ∷ []

-- The bad trace: the write of thread 1 falls between the two accesses of thread 0.
abbrev bad : Dnf ConstraintAtom
bad =
    (record { before = at_0; after = at_1; from_wait_notify = false }
      ∷ record { before = at_1; after = at_2; from_wait_notify = false }
      ∷ [])
    ∷ []

-- A schedule in which thread 0 runs to its end first.
abbrev sequential : Model
sequential zero = 0
sequential (suc zero) = 2
sequential (suc (suc zero)) = 1
sequential (suc (suc (suc n))) = suc (suc (suc n))

locked : eval_cnf (obeys sequential) (locks_for bad 0) ≡ true
unfolding locks_for generate_sync find_locks not_dnf not_atom inner_loop outer_loop try_pair
locked = refl

locks_for_eliminate_example : make_constraint_dnf bad sequential ≡ false
locks_for_eliminate_example =
    locks_for_eliminate sequential trace bad 0 (omega arith)
      (
        (
          (Memᴰ.head refl, Memᴰ.tail (Memᴰ.head refl)),
          ((Memᴰ.tail (Memᴰ.head refl), Memᴰ.tail (Memᴰ.tail (Memᴰ.head refl))), tt),
        ),
        tt,
      )
      (omega arith) locked

generate_sync_sound_example : eval_cnf (atom_holds sequential) (not_dnf not_atom bad) ≡ true
generate_sync_sound_example =
    generate_sync_sound sequential trace (not_dnf not_atom bad) 0 (omega arith)
      (unfold not_dnf not_atom in
        (
          (
            (Memᴰ.tail (Memᴰ.head refl), Memᴰ.head refl),
            ((Memᴰ.tail (Memᴰ.tail (Memᴰ.head refl)), Memᴰ.tail (Memᴰ.head refl)), tt),
          ),
          tt,
        ))
      (unfold locks_for in locked)

-- A list with a preemption point, the lock, in the middle.
abbrev mixed : LockList
mixed = read_x ∷ take_l ∷ read_x ∷ []

-- Two regions of thread 0 around the preemption point, and one of thread 1.
abbrev before : LockSymbols
before = ((mixed ∷ (write_x ∷ []) ∷ []) ∷ []) ∷ []

abbrev after : LockSymbols
after = (((read_x ∷ []) ∷ (read_x ∷ []) ∷ (write_x ∷ []) ∷ []) ∷ []) ∷ []

split_before : remove_preemption before ≡ some after
unfolding remove_preemption split_list is_real_epsilon is_preemption_point
split_before = refl

remove_preemption-IsLock_example : All (λ d. (d ≢ []) × All IsLock d) after
remove_preemption-IsLock_example = remove_preemption-IsLock before after split_before

abbrev by_value : Pointers
by_value = record { same = symbol_eq; same_trans = symbol_eq_trans }

abbrev small : Disj LockLists
small = ((read_x ∷ []) ∷ (write_x ∷ []) ∷ []) ∷ []

abbrev large : Disj LockLists
large = ((write_x ∷ []) ∷ (read_x ∷ read_x ∷ []) ∷ []) ∷ []

-- The small lock goes, since the large one includes it.
duplicates_test : remove_duplicates by_value (small ∷ large ∷ []) ≡ large ∷ []
unfolding remove_duplicates test_duplicate sub_vector symbol_eq
duplicates_test = refl

remove_duplicates_lem_example :
    (Memᴰ small (small ∷ large ∷ [])
      → (e : Disj LockLists) × Memᴰ e (remove_duplicates by_value (small ∷ large ∷ []))
        × ((small ≡ e) ⊎ Includes by_value small e))
    × (Memᴰ small (remove_duplicates by_value (small ∷ large ∷ []))
        → Memᴰ small (small ∷ large ∷ []))
remove_duplicates_lem_example = remove_duplicates_lem by_value (small ∷ large ∷ []) small
