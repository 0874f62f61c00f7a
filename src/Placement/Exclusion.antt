-- ===== src/Placement/Exclusion.antt =====
-- What the locks that satisfy the formulas of placement/place_locks.cpp protect.
use liss.Common.{
  ℕ, zero, suc, ◌+◌, ◌<◌, ◌≡◌, ◌≢◌, ◌∙◌, inl, inr, refl, sym, subst, Bool, true, false, ◌&&◌, List,
  [], ◌∷◌, Option, none, some, arith, all, any, all_mem, any_exists, count_from, if◌then◌else◌,
  get_elem?, Bool-cases, Memᴰ, &&-true, some-inj, ==_iff,
}
use liss.Common.Int.{==ℤ_iff}
use liss.Types.{Disj}
use liss.Abstraction.Symbol.{Symbol, Location, location_eq, is_unlockable_point}
use liss.Synthesis.Traces.{LockLists, LockSymbols}
use liss.Cfg.Graph.{AbstractCfg, State}
use liss.Placement.{Assignment, at}
use liss.Placement.Constraints.{add_constraints, predecessors_forward, all_locked, locked_together}
use liss.Placement.Rules.{Satisfies, IsState}
use liss.Placement.Entries.{mem-predecessors_forward}
use liss.Placement.Arrival.{unlocked_point, forward_rules, exclusive_rules, arrive_rules}
use liss.Placement.System.{Point, entering, leaving, Config, Reachable}
use liss.Placement.Held.{status}
use liss.Placement.Invariant.{AreLaidOut, thread_rules-hold, IsHeld, Reachable-IsHeld}

-- The first conjunction of a disjunction whose places are all under the lock of number `k`.
abbrev pub locked_by : Assignment → ℕ → Disj LockLists → Option LockLists
locked_by v k [] = none
locked_by v k (lplaces ∷ d) =
    let rest = locked_by v k d in
    if all_locked lplaces (λ pl. v.in_lock pl.loc (v.lock_id k)) then some lplaces else rest

-- Whether a thread at a point executes one of the places.
abbrev pub is_inside : ℕ → Point → LockLists → Bool
is_inside t (entering from i zero) lplaces = any (any (λ pl. location_eq pl.loc (at t i))) lplaces
is_inside t _ lplaces = false

locked_by-some :
    (v : Assignment) (k : ℕ) (d : Disj LockLists)
    → any (λ lplaces. all_locked lplaces (λ pl. v.in_lock pl.loc (v.lock_id k))) d ≡ true
    → (lplaces : LockLists) × ((locked_by v k d ≡ some lplaces)
        × Memᴰ lplaces d
        × (all_locked lplaces (λ pl. v.in_lock pl.loc (v.lock_id k)) ≡ true))
locked_by-some v k [] h = cc
locked_by-some v k (lplaces ∷ d) h =
    elim (Bool-cases (all_locked lplaces (λ pl. v.in_lock pl.loc (v.lock_id k)))) [
      | inl e ↦ (lplaces, (rw e refl, Memᴰ.head refl, e))
      | inr e ↦
          let (chosen, (q, m, b)) = locked_by-some v k d (rw e at h) in
          (chosen, (rw e q, Memᴰ.tail m, b))
    ]

locked_together-at :
    (v : Assignment) (k i m : ℕ) (locks_to_place : LockSymbols) (d : Disj LockLists)
    → m ≡ k + i
    → Satisfies v (locked_together k locks_to_place)
    → get_elem? locks_to_place i ≡ some d
    → any (λ lplaces. all_locked lplaces (λ pl. v.in_lock pl.loc (v.lock_id m))) d ≡ true
unfolding locked_together
locked_together-at v k i m [] d q h e = cc
locked_together-at v k zero m (x ∷ rest) d q h e =
    let same : m ≡ k = omega (arith, q) in rw (same, ← some-inj e) (&&-true _ _ h).0
locked_together-at v k (suc i) m (x ∷ rest) d q h e =
    locked_together-at v (suc k) i m rest d (omega (arith, q)) (&&-true _ _ h).1 e

location_eq-same : (a b : Location) → location_eq a b ≡ true → a ≡ b
unfolding location_eq
location_eq-same a b h =
    let (s, t) = &&-true _ _ h in
    let s' : a.state ≡ b.state = (==ℤ_iff a.state b.state).0 s in
    let t' : a.thread ≡ b.thread = (==_iff a.thread b.thread).0 t in cc

-- A thread that executes a place which is under a lock has the status of holding it.
is_inside-status :
    (v : Assignment) (t : ℕ) (p : Point) (lplaces : LockLists) (l : ℕ)
    → is_inside t p lplaces ≡ true
    → all_locked lplaces (λ pl. v.in_lock pl.loc l) ≡ true
    → status v t p l ≡ true
is_inside-status v t (entering from i zero) lplaces l h locked =
    let (lplaces2, m, h2) = any_exists (any (λ pl. location_eq pl.loc (at t i))) lplaces h in
    let (pl, m2, same) = any_exists (λ (pl : Symbol). location_eq pl.loc (at t i)) lplaces2 h2 in
    let here : v.in_lock pl.loc l ≡ true =
      all_mem (λ (pl : Symbol). v.in_lock pl.loc l) lplaces2
        (all_mem (all (λ (pl : Symbol). v.in_lock pl.loc l)) lplaces locked lplaces2 m) pl m2 in
    ground (arith, subst (λ x. v.in_lock x l ≡ true) (location_eq-same pl.loc (at t i) same) here)
is_inside-status v t (entering from i (suc k)) lplaces l h locked = cc
is_inside-status v t (leaving i k) lplaces l h locked = cc

module _ (v : Assignment) (n : ℕ) (threads : List AbstractCfg) (laid : AreLaidOut threads)
    (sat : Satisfies v (add_constraints threads (count_from 0 n))) where
  -- Where an assignment satisfies the formulas, and gives a disjunction of places one of the locks
  -- that there are: it has a conjunction whose places are all under that lock, and no two threads
  -- execute places of that conjunction at the same time, in any reachable configuration.
  pub mutual_exclusion :
      (locks_to_place : LockSymbols)
      → Satisfies v (locked_together 0 locks_to_place)
      → (k : ℕ) (d : Disj LockLists) → get_elem? locks_to_place k ≡ some d
      → v.lock_id k < n
      → {c : Config} → Reachable v n threads c
      → (t u : ℕ) (g h : AbstractCfg) → get_elem? threads t ≡ some g
      → get_elem? threads u ≡ some h
      → t ≢ u
      → (lplaces : LockLists) × ((locked_by v k d ≡ some lplaces)
          × Memᴰ lplaces d
          × ((is_inside t (c.point t) lplaces && is_inside u (c.point u) lplaces) ≡ false))
  mutual_exclusion locks_to_place together k d there lt {c} r t u g h e e' apart =
      let (lplaces, (chosen, m, locked)) =
        locked_by-some v k d
          (locked_together-at v 0 k k locks_to_place d (omega arith) together there) in
      (
        lplaces,
        (
          chosen,
          m,
          elim (Bool-cases (is_inside t (c.point t) lplaces)) [
            | inr out ↦ ground arith
            | inl inside ↦ elim (Bool-cases (is_inside u (c.point u) lplaces)) [
              | inr out ↦ ground arith
              | inl inside' ↦ absurd (
                  apart (
                    inv.single t u (v.lock_id k)
                      (inv.agrees t g e (v.lock_id k) lt
                        ∙ is_inside-status v t (c.point t) lplaces (v.lock_id k) inside locked)
                      (inv.agrees u h e' (v.lock_id k) lt
                        ∙ is_inside-status v u (c.point u) lplaces (v.lock_id k) inside' locked)))
            ]
          ],
        ),
      )
    where
      inv : IsHeld v n threads c
      inv = Reachable-IsHeld v n threads laid sat r

  -- A thread that executes a state at which it may be preempted by a wait or a lock of the program
  -- holds no lock.
  pub unlocked_at_preemption :
      {c : Config}
      → Reachable v n threads c
      → (t : ℕ) (g : AbstractCfg) → get_elem? threads t ≡ some g
      → (from : Option ℕ) (i : ℕ) (s : State) (a : Symbol) → c.point t ≡ entering from i 0
      → IsState g i s
      → s.action ≡ some a
      → is_unlockable_point a ≡ true
      → (l : ℕ) → c.held t l ≡ false
  unlocked_at_preemption {c} r t g e from i s a here at_i act point l =
      elim (Bool-cases (c.held t l)) [
        | inr free ↦ free
        | inl held ↦
            let (lt, owner) = inv.owners t l held in
            inv.agrees t g e l lt
            ∙ subst (λ p. status v t p l ≡ false) (sym here)
                (ground (
                  arith,
                  unlocked_point v n t g (thread_rules-hold v threads n sat t g e) i s at_i l lt a
                      act point,
                ))
      ]
    where
      inv : IsHeld v n threads c
      inv = Reachable-IsHeld v n threads laid sat r

  -- Over a forward edge between two states that are both under a lock, the lock is not released: the
  -- two states are in one critical section.
  pub one_section :
      (t : ℕ) (g : AbstractCfg)
      → get_elem? threads t ≡ some g
      → (i j : ℕ) (s s' : State) → IsState g i s
      → IsState g j s'
      → Memᴰ i (predecessors_forward g j)
      → (l : ℕ) → l < n
      → v.in_lock (at t i) l ≡ true
      → v.in_lock (at t j) l ≡ true
      → (v.unlock_a (at t i) l ≡ false) × (v.unlock_b (at t j) l ≡ false)
  one_section t g e i j s s' at_i at_j forward l lt in_i in_j =
      let rules = thread_rules-hold v threads n sat t g e in
      let taken = forward_rules v n t g rules j s' at_j l lt i forward in
      let (def, un, ord) =
        arrive_rules v n t g rules j s' at_j i i (mem-predecessors_forward g j i forward) forward l
          lt in
      let (excl_a, excl_b) = exclusive_rules v n t g rules i s at_i l lt in
      (ground arith, ground arith)
