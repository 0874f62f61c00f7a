-- ===== src/Abstraction/Concurrent/Forbid/Ready.antt =====
-- What `add_forbidden_traces` builds is what the check of the conflicts needs.
use liss.Common.{
  ℕ, zero, suc, ◌≤◌, ◌<◌, ◌≡◌, ◌≢◌, inl, inr, subst, refl, ap, sym, ◌∙◌, Bool, true, false, List,
  [], ◌∷◌, ◌++◌, Option, none, some, arith, ltb, ◌==◌, if◌then◌else◌, length, length-append, All,
  All-append, All-map, replicate, Bool-cases,
}
use liss.Types.{Disj}
use liss.Abstraction.Symbol.{Symbol, thread_id, is_real_epsilon}
use liss.Abstraction.Concurrent.Defs.{ConflictInfo, ConcurrentAutomaton}
use liss.Abstraction.Concurrent.Conflicts.Total.{LockBelow, LockOf, InRange}
use liss.Abstraction.Concurrent.Forbid.{
  conflicting_from, add_conflict, against_lists, over_symbols, over_lists, push_last, over_locks,
  over_disjunctions, resize, resize_all, add_forbidden_traces,
}
use liss.Synthesis.Traces.{LockList, LockLists, LockSymbols, ◌>>=◌}

-- The numbers in the map are those of conflicts, and the locks that they tick are below `k`.
abbrev pub IsReadyBelow : ℕ → ConcurrentAutomaton → Type 0
IsReadyBelow k a = All (InRange (length a.conflicts)) a.conflict_map × All (LockOf k) a.conflicts

-- Equal in what the loops over one lock leave alone.
abbrev SameLocks : ConcurrentAutomaton → ConcurrentAutomaton → Type 0
SameLocks a b = (b.locks ≡ a.locks) × (b.locks_size ≡ a.locks_size)

-- The loops of one lock return, and what they return is ready below `k`.
abbrev Gives : ℕ → ConcurrentAutomaton → Option ConcurrentAutomaton → Type 0
Gives k a o = (b : ConcurrentAutomaton) × (o ≡ some b) × IsReadyBelow k b × SameLocks a b

IsReadyBelow-add_conflict :
    (k : ℕ) (lock_id : Option ℕ) (pred current : Symbol) (set : List Symbol)
    (a : ConcurrentAutomaton)
    → LockBelow k lock_id
    → IsReadyBelow k a
    → IsReadyBelow k (add_conflict lock_id pred current set a)
      × SameLocks a (add_conflict lock_id pred current set a)
IsReadyBelow-add_conflict k lock_id pred current [] a h r = (r, (refl, refl))
IsReadyBelow-add_conflict k lock_id pred current (s ∷ l) a h r = (
  (
    (
      grows 1,
      All-map (InRange (length a.conflicts)) (InRange (length (a.conflicts ++ new ∷ [])))
          a.conflict_map (λ p q. grows_more p q) r.0,
    ),
    All-append (LockOf k) a.conflicts (new ∷ []) r.1 (h, tt),
  ),
  (refl, refl),
)
  where
    new : ConflictInfo
    new = record { next = current; conflict = s ∷ l; lock_id = lock_id }

    grows : (n : ℕ) → length a.conflicts < length (a.conflicts ++ new ∷ [])
    grows n = omega (arith, length-append a.conflicts (new ∷ []))

    grows_more :
        (p : Symbol × ℕ)
        → InRange (length a.conflicts) p
        → InRange (length (a.conflicts ++ new ∷ [])) p
    grows_more (s', i) q = omega (arith, length-append a.conflicts (new ∷ []))

module _ (k : ℕ) (lock_id : Option ℕ) (below : LockBelow k lock_id) where
  against_lists-Gives :
      (pred current : Symbol) (it : LockList) (lock : LockLists) (a : ConcurrentAutomaton)
      → it ≢ []
      → All (λ l. l ≢ []) lock
      → IsReadyBelow k a
      → Gives k a (against_lists lock_id pred current it lock a)
  unfolding against_lists
  against_lists-Gives pred current it [] a h hs r = (a, refl, r, (refl, refl))
  against_lists-Gives pred current [] (it2 ∷ rest) a h hs r = absurd (h refl)
  against_lists-Gives pred current (s ∷ it) ([] ∷ rest) a h hs r = absurd (hs.0 refl)
  against_lists-Gives pred current (s ∷ it) ((t ∷ it2) ∷ rest) a h hs r =
      elim (Bool-cases (thread_id s == thread_id t)) [
        | inl same ↦ rw same (against_lists-Gives pred current (s ∷ it) rest a h hs.1 r)
        | inr other ↦
            let a' = add_conflict lock_id pred current (conflicting_from [] (t ∷ it2)) a in
            let (r', (e, e')) =
              IsReadyBelow-add_conflict k lock_id pred current (conflicting_from [] (t ∷ it2)) a
                below r in
            let (b, eq, rb, (eb, eb')) =
              against_lists-Gives pred current (s ∷ it) rest a' h hs.1 r' in
            rw other (b, eq, rb, (eb ∙ e, eb' ∙ e'))
      ]

  Gives-bind :
      (a : ConcurrentAutomaton) (o : Option ConcurrentAutomaton)
      (f : ConcurrentAutomaton → Option ConcurrentAutomaton)
      → Gives k a o
      → ((b : ConcurrentAutomaton) → IsReadyBelow k b → Gives k b (f b))
      → Gives k a (o >>= f)
  Gives-bind a none f (b, e, r, qs) h = cc
  Gives-bind a (some c) f (b, e, r, (q, q')) h =
      let (d, e', r', (p, p')) = h b r in (d, rw (some_inj c b e) e', r', (p ∙ q, p' ∙ q'))
    where
      some_inj : (x y : ConcurrentAutomaton) → some x ≡ some y → x ≡ y
      some_inj x y s = cc

  over_symbols-Gives :
      (it : LockList) (lock : LockLists) (pred : Option Symbol) (l : List Symbol)
      (a : ConcurrentAutomaton)
      → it ≢ []
      → All (λ l. l ≢ []) lock
      → IsReadyBelow k a
      → Gives k a (over_symbols lock_id it lock pred l a)
  unfolding over_symbols
  over_symbols-Gives it lock pred [] a h hs r = (a, refl, r, (refl, refl))
  over_symbols-Gives it lock pred (current ∷ rest) a h hs r =
      elim (Bool-cases (is_real_epsilon current)) [
        | inl skip ↦ rw skip (over_symbols-Gives it lock pred rest a h hs r)
        | inr real ↦ rw real (
            Gives-bind a
              (elim pred [ none ↦ some a | some p ↦ against_lists lock_id p current it lock a ])
              (over_symbols lock_id it lock (some current) rest) (one pred)
              (λ b rb. over_symbols-Gives it lock (some current) rest b h hs rb))
      ]
    where
      one :
          (o : Option Symbol)
          → Gives k a
              (elim o [ none ↦ some a | some p ↦ against_lists lock_id p current it lock a ])
      one none = (a, refl, r, (refl, refl))
      one (some p) = against_lists-Gives p current it lock a h hs r

  over_lists-Gives :
      (lock l : LockLists) (a : ConcurrentAutomaton)
      → All (λ l. l ≢ []) lock
      → All (λ l. l ≢ []) l
      → IsReadyBelow k a
      → Gives k a (over_lists lock_id lock l a)
  unfolding over_lists
  over_lists-Gives lock [] a hs h r = (a, refl, r, (refl, refl))
  over_lists-Gives lock (it ∷ rest) a hs h r =
      Gives-bind a (over_symbols lock_id it lock none it a) (over_lists lock_id lock rest)
        (over_symbols-Gives it lock none it a h.0 hs r)
        (λ b rb. over_lists-Gives lock rest b hs h.1 rb)

-- No list of a lock is empty.
abbrev pub IsSolid : LockLists → Type 0
IsSolid lock = All (λ l. l ≢ []) lock

IsReadyBelow-mono :
    (j k : ℕ) (a : ConcurrentAutomaton) → j ≤ k → IsReadyBelow j a → IsReadyBelow k a
IsReadyBelow-mono j k a le r = (r.0, All-map (LockOf j) (LockOf k) a.conflicts up r.1)
  where
    lock_up : (o : Option ℕ) → LockBelow j o → LockBelow k o
    lock_up none h = tt
    lock_up (some l) h = omega arith

    up : (ci : ConflictInfo) → LockOf j ci → LockOf k ci
    up ci h = lock_up ci.lock_id h

-- The loops over several locks return an automaton that is ready below its own number of locks.
abbrev Stays : Option ConcurrentAutomaton → Type 0
Stays o = (b : ConcurrentAutomaton) × (o ≡ some b) × IsReadyBelow b.locks_size b

Stays-bind :
    (o : Option ConcurrentAutomaton) (f : ConcurrentAutomaton → Option ConcurrentAutomaton)
    → Stays o
    → ((b : ConcurrentAutomaton) → IsReadyBelow b.locks_size b → Stays (f b))
    → Stays (o >>= f)
Stays-bind none f (b, e, r) h = cc
Stays-bind (some c) f (b, e, r) h = rw (some_inj c b e) (h b r)
  where
    some_inj : (x y : ConcurrentAutomaton) → some x ≡ some y → x ≡ y
    some_inj x y s = cc

over_locks-Stays :
    (multiple : Bool) (lockd : Disj LockLists) (a : ConcurrentAutomaton)
    → All IsSolid lockd
    → IsReadyBelow a.locks_size a
    → Stays (over_locks multiple lockd a)
unfolding over_locks
over_locks-Stays multiple [] a h r = (a, refl, r)
over_locks-Stays true (lock ∷ rest) a h r =
    let (b, e, rb, (el, es)) =
      over_lists-Gives (suc a.locks_size) (some a.locks_size) (omega arith) lock lock
        (record a { locks = push_last a.locks }) h.0 h.0
        (IsReadyBelow-mono a.locks_size (suc a.locks_size) a (omega arith) r) in
    rw e (
      over_locks-Stays true rest (record b { locks_size = suc b.locks_size }) h.1
        (subst (λ n. IsReadyBelow (suc n) b) (sym es) rb))
over_locks-Stays false (lock ∷ rest) a h r =
    let (b, e, rb, (el, es)) = over_lists-Gives a.locks_size none tt lock lock a h.0 h.0 r in
    rw e (over_locks-Stays false rest b h.1 (subst (λ n. IsReadyBelow n b) (sym es) rb))

over_disjunctions-Stays :
    (new_locks : LockSymbols) (a : ConcurrentAutomaton)
    → All (All IsSolid) new_locks
    → IsReadyBelow a.locks_size a
    → Stays (over_disjunctions new_locks a)
unfolding over_disjunctions
over_disjunctions-Stays [] a h r = (a, refl, r)
over_disjunctions-Stays (lockd ∷ rest) a h r =
    Stays-bind (over_locks (ltb 1 (length lockd)) lockd (record a { locks = start }))
      (over_disjunctions rest)
      (over_locks-Stays (ltb 1 (length lockd)) lockd (record a { locks = start }) h.0 r)
      (λ b rb. over_disjunctions-Stays rest b h.1 rb)
  where
    start : List (List Bool)
    start = if ltb 1 (length lockd) then a.locks ++ replicate a.locks_size false ∷ [] else a.locks

-- Ready below the number of locks, and every pattern has that many bits.
abbrev pub IsReady : ConcurrentAutomaton → Type 0
IsReady a = IsReadyBelow a.locks_size a × All (λ b. length b ≡ a.locks_size) a.locks

length-resize : (n : ℕ) (bits : List Bool) → length (resize n bits) ≡ n
unfolding resize
length-resize zero bits = refl
length-resize (suc n) [] = ap suc (length-resize n [])
length-resize (suc n) (b ∷ bits) = ap suc (length-resize n bits)

All-resize_all : (n : ℕ) (l : List (List Bool)) → All (λ b. length b ≡ n) (resize_all n l)
unfolding resize_all
All-resize_all n [] = tt
All-resize_all n (b ∷ l) = (length-resize n b, All-resize_all n l)

-- On locks none of whose lists is empty, `add_forbidden_traces` returns, and the automaton is
-- ready after it when it was before: the numbers in the map are those of conflicts, the locks that
-- the conflicts tick are below the number of locks, and every pattern has that many bits.
pub add_forbidden_traces-IsReady :
    (a : ConcurrentAutomaton) (new_locks : LockSymbols)
    → All (All IsSolid) new_locks
    → IsReady a
    → (b : ConcurrentAutomaton) × (add_forbidden_traces a new_locks ≡ some b) × IsReady b
unfolding add_forbidden_traces
add_forbidden_traces-IsReady a new_locks h r =
    let (b, e, rb) = over_disjunctions-Stays new_locks a h r.0 in
    (
      record b { locks = resize_all b.locks_size b.locks },
      rw e refl,
      (rb, All-resize_all b.locks_size b.locks),
    )
