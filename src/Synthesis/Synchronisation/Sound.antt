-- ===== src/Synthesis/Synchronisation/Sound.antt =====
-- A lock that `find_lock` makes enforces the disjunction that it was made for.
use liss.Common.{
  ℕ, ◌≤◌, ◌≡◌, refl, Bool, true, false, ◌&&◌, ◌||◌, List, [], ◌∷◌, ltb, arith, any, all, All,
  All-mem, All-of_mem, any_mem, Memᴰ, any-append, suc,
}
use liss.Types.{Disj, Cnf}
use liss.Types.Negation.{eval_cnf}
use liss.Synthesis.Constraint.{
  TraceLocation, ConstraintAtom, Model, thread_of, instruction_id, atom_holds, atom_expr,
}
use liss.Synthesis.Synchronisation.{
  LockLocation, Lock, Finder, is_lock, make_lock, try_pair, inner_loop, outer_loop, find_lock,
  find_locks, generate_sync,
}

-- Two regions do not overlap in a model: one ends before the other starts.
abbrev pub disjoint : Model → LockLocation → LockLocation → Bool
disjoint v p q = ltb (v p.end.name) (v q.start.name) || ltb (v q.end.name) (v p.start.name)

-- A lock is obeyed in a model if no two of its regions overlap.
abbrev pub lock_holds : Model → List LockLocation → Bool
lock_holds v [] = true
lock_holds v (p ∷ ps) = all (disjoint v p) ps && lock_holds v ps

abbrev pub obeys : Model → Lock → Bool
obeys v l = lock_holds v l.locations

-- A model keeps the order in which the threads of a trace run.
abbrev pub KeepsOrder : Model → List TraceLocation → Type 0
KeepsOrder v trace =
    All
      (λ l.
        All
          (λ m.
            thread_of l ≡ thread_of m → instruction_id l ≤ instruction_id m → v l.name ≤ v m.name)
          trace)
      trace

-- Both ends of an atom lie in the trace.
abbrev pub InTrace : List TraceLocation → ConstraintAtom → Type 0
InTrace trace c = Memᴰ c.before trace × Memᴰ c.after trace

module _ (v : Model) (trace : List TraceLocation) (keeps : KeepsOrder v trace) where
  ordered :
      (l m : TraceLocation)
      → Memᴰ l trace
      → Memᴰ m trace
      → thread_of l ≡ thread_of m
      → instruction_id l ≤ instruction_id m
      → v l.name ≤ v m.name
  ordered l m hl hm = All-mem _ trace m (All-mem _ trace l keeps hl) hm

  make_lock_sound :
      (a b : ConstraintAtom) (n : ℕ)
      → InTrace trace a
      → InTrace trace b
      → is_lock a.before b.after b.before a.after ≡ true
      → obeys v (make_lock a b n) ≡ true
      → (atom_holds v a || atom_holds v b) ≡ true
  unfolding make_lock is_lock atom_expr
  make_lock_sound a b n ha hb test obeyed = ground (
    arith,
    ordered a.before b.after ha.0 hb.1,
    ordered b.after a.before hb.1 ha.0,
    ordered b.before a.after hb.0 ha.1,
    ordered a.after b.before ha.1 hb.0,
  )

  module _ (goal : Bool) where
    -- An atom of the disjunction whose truth is `goal`.
    abbrev Member : ConstraintAtom → Type 0
    Member c = InTrace trace c × (atom_holds v c ≡ true → goal ≡ true)

    abbrev Enforces : Finder → Type 0
    Enforces f = any (obeys v) f.locks ≡ true → goal ≡ true

    try_pair-Enforces :
        (weak : Bool) (a b : ConstraintAtom) (f : Finder)
        → Member a
        → Member b
        → Enforces f
        → Enforces (try_pair weak a b f)
    unfolding try_pair
    try_pair-Enforces weak a b f ha hb hf = ground (
      arith,
      make_lock_sound a b (suc f.lock_counter) ha.0 hb.0,
      any-append (obeys v) f.locks (make_lock a b (suc f.lock_counter) ∷ []),
    )

    inner_loop-Enforces :
        (weak : Bool) (a : ConstraintAtom) (bs : List ConstraintAtom) (f : Finder)
        → Member a
        → All Member bs
        → Enforces f
        → Enforces (inner_loop weak a bs f)
    unfolding inner_loop
    inner_loop-Enforces weak a [] f ha hb hf = hf
    inner_loop-Enforces weak a (b ∷ bs) f ha hb hf =
        inner_loop-Enforces weak a bs (try_pair weak a b f) ha hb.1
          (try_pair-Enforces weak a b f ha hb.0 hf)

    outer_loop-Enforces :
        (weak : Bool) (as' : List ConstraintAtom) (f : Finder)
        → All Member as'
        → Enforces f
        → Enforces (outer_loop weak as' f)
    unfolding outer_loop
    outer_loop-Enforces weak [] f h hf = hf
    outer_loop-Enforces weak (a ∷ as') f h hf =
        outer_loop-Enforces weak as' (inner_loop weak a as' f) h.1
          (inner_loop-Enforces weak a as' f h.0 h.1 hf)

    find_lock-Enforces :
        (weak : Bool) (d : Disj ConstraintAtom) (counter : ℕ) (locks : List Lock)
        → All Member d
        → (any (obeys v) locks ≡ true → goal ≡ true)
        → Enforces (find_lock d counter locks weak)
    unfolding find_lock
    find_lock-Enforces weak d counter locks h hl = ground (
      arith,
      outer_loop-Enforces weak d (record { lock_counter = counter; locks = locks; found = false }) h
          hl,
    )

    find_locks-Enforces :
        (d : Disj ConstraintAtom) (counter : ℕ) → All Member d → Enforces (find_locks d counter)
    unfolding find_locks
    find_locks-Enforces d counter h =
        let first = find_lock-Enforces false d counter [] h (λ e. cc) in
        ground (
          arith,
          first,
          find_lock-Enforces true d (find_lock d counter [] false).lock_counter
              (find_lock d counter [] false).locks h first,
        )

-- The locks of `generate_sync` enforce the constraints that they were made from: in every model
-- that keeps the order of each thread of the trace, if of each disjunction of locks one is obeyed,
-- then of each disjunction of constraints one holds.
pub generate_sync_sound :
    (v : Model) (trace : List TraceLocation) (cnf : Cnf ConstraintAtom) (counter : ℕ)
    → KeepsOrder v trace
    → All (All (InTrace trace)) cnf
    → eval_cnf (obeys v) (generate_sync cnf counter).0 ≡ true
    → eval_cnf (atom_holds v) cnf ≡ true
unfolding generate_sync
generate_sync_sound v trace [] counter keeps h obeyed = refl
generate_sync_sound v trace (d ∷ ds) counter keeps h obeyed =
    let members =
      All-of_mem (Member v trace keeps (any (atom_holds v) d)) d
        (λ c m. (All-mem (InTrace trace) d c h.0 m, any_mem (atom_holds v) d c m)) in
    ground (
      arith,
      find_locks-Enforces v trace keeps (any (atom_holds v) d) d counter members,
      generate_sync_sound v trace ds (find_locks d counter).lock_counter keeps h.1,
    )
