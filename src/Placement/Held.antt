-- ===== src/Placement/Held.antt =====
-- Along every run of the placed program the formulas of placement/place_locks.cpp tell the locks that
-- a thread holds, and these are handled in an order.
use liss.Common.{
  ℕ, zero, suc, ◌≤◌, ◌<◌, ◌≡◌, inl, inr, refl, sym, subst, Bool, true, false, ◌&&◌, ◌||◌, not, [],
  Option, none, some, Memᴰ, arith, ◌==◌, leb, all, count_from, if◌then◌else◌, Bool-cases,
}
use liss.Cfg.Graph.{AbstractCfg, State}
use liss.Placement.{Assignment, inle, at}
use liss.Placement.Constraints.{predecessors, predecessors_forward, thread_rules}
use liss.Placement.Rules.{holds, IsState, IsEdge, mem-predecessors}
use liss.Placement.Arrival.{arrive_rules, start_rules, leave_rules}
use liss.Placement.System.{
  Point, entering, leaving, takes, frees, Move, handle_before, execute, handle_after, follow,
}

-- A graph whose state 1 is only entered at the start, whose edges lead to states, and in which no
-- state is reached by back edges only.
pub record IsLaidOut (g : AbstractCfg) : Type 0 where
  pub initial : (s : State) × IsState g 1 s
  pub unreached : predecessors g 1 ≡ []
  pub targets : (i j : ℕ) (s : State) → IsState g i s → IsEdge g i j → (s' : State) × IsState g j s'
  pub forward :
      (i j : ℕ) (s : State)
      → IsState g i s
      → IsEdge g i j
      → (f : ℕ) × Memᴰ f (predecessors_forward g j)

-- Whether a lock is held before the first handling at a state.
abbrev pub came : Assignment → ℕ → Option ℕ → ℕ → Bool
came v t none l = false
came v t (some p) l = inle v (at t p) l

-- What the formulas say of a lock at a point.
abbrev pub status : Assignment → ℕ → Point → ℕ → Bool
status v t (entering from i k) l = if leb k l then v.in_lock (at t i) l else came v t from l
status v t (leaving i k) l = if leb k l then inle v (at t i) l else v.in_lock (at t i) l

abbrev pub IsFrom : AbstractCfg → Option ℕ → ℕ → Type 0
IsFrom g none i = i ≡ 1
IsFrom g (some p) i = ((s : State) × IsState g p s) × IsEdge g p i

abbrev pub IsPoint : AbstractCfg → ℕ → Point → Type 0
IsPoint g n (entering from i k) = IsFrom g from i × ((s : State) × IsState g i s) × (k ≤ n)
IsPoint g n (leaving i k) = ((s : State) × IsState g i s) × (k ≤ n)

module _ (v : Assignment) (n t : ℕ) (g : AbstractCfg) (laid : IsLaidOut g)
    (sat : all (holds v) (thread_rules (count_from 0 n) (t, g)) ≡ true) where
  enter_rules :
      (from : Option ℕ) (i : ℕ) (s : State)
      → IsFrom g from i
      → IsState g i s
      → (l : ℕ) → l < n
      → (v.in_lock (at t i) l
          ≡ (v.lock_b (at t i) l || not (v.unlock_b (at t i) l) && came v t from l))
        × (v.unlock_b (at t i) l ≡ true → came v t from l ≡ true)
        × ((lb : ℕ) → lb ≤ l → v.lock_b (at t i) l ≡ true → came v t from lb ≡ false)
  enter_rules none i s e at_i l lt =
      let (def, un) =
        start_rules v n t g sat i s at_i l lt
          (subst (λ (j : ℕ). predecessors g j ≡ []) (sym e) laid.unreached) in
      (ground arith, λ u. ground arith, λ lb k taken. refl)
  enter_rules (some p) i s ((s', at_p), edge) at_i l lt =
      let (f, mf) = laid.forward p i s' at_p edge in
      arrive_rules v n t g sat i s at_i p f (mem-predecessors g p i s' at_p edge) mf l lt

  -- A step changes the status of each lock as it handles it.
  pub Move-status :
      {p q : Point}
      → Move g n p q
      → IsPoint g n p
      → IsPoint g n q
        × ((l : ℕ)
            → l < n
            → (takes v t p l || status v t p l && not (frees v t p l)) ≡ status v t q l)
  Move-status (handle_before {from} {i} {k}) (came_from, (s, at_i), le) = (
    (came_from, (s, at_i), omega arith),
    λ l lt.
        let (def, un, ord) = enter_rules from i s came_from at_i l lt in
        elim (Bool-cases (k == l)) [ inl e ↦ ground arith | inr e ↦ ground arith ],
  )
  Move-status (execute {from} {i}) (came_from, here, le) =
      ((here, omega arith), λ l lt. ground arith)
  Move-status (handle_after {i} {k}) ((s, at_i), le) = (
    ((s, at_i), omega arith),
    λ l lt. elim (Bool-cases (k == l)) [ inl e ↦ ground arith | inr e ↦ ground arith ],
  )
  Move-status (follow {i} {j} edge) ((s, at_i), le) =
      ((((s, at_i), edge), laid.targets i j s at_i edge, omega arith), λ l lt. ground arith)

  -- A lock that a step takes is lower than all that are held, and what it frees is held.
  pub takes-lowest :
      (p : Point)
      → IsPoint g n p
      → (l : ℕ) → takes v t p l ≡ true
      → (l < n) × ((l' : ℕ) → l' < n → status v t p l' ≡ true → l < l')
  takes-lowest (entering from i zero) here l h = cc
  takes-lowest (entering from i (suc k)) (came_from, (s, at_i), le) l h =
      let same : k ≡ l = ground arith in
      (
        omega (arith, same),
        λ l' lt held.
            let (def, un, ord) = enter_rules from i s came_from at_i k (omega arith) in
            elim (Bool-cases (leb l' k)) [
              | inl e ↦ ground (arith, ord l' (ground arith))
              | inr e ↦ ground (arith, same)
            ],
      )
  takes-lowest (leaving i zero) here l h = cc
  takes-lowest (leaving i (suc k)) ((s, at_i), le) l h =
      let same : k ≡ l = ground arith in
      (
        omega (arith, same),
        λ l' lt held.
            let (un, ord) = leave_rules v n t g sat i s at_i k (omega arith) in
            elim (Bool-cases (leb l' k)) [
              | inl e ↦ ground (arith, ord l' (ground arith))
              | inr e ↦ ground (arith, same)
            ],
      )

  pub frees-held :
      (p : Point) → IsPoint g n p → (l : ℕ) → frees v t p l ≡ true → status v t p l ≡ true
  frees-held (entering from i zero) here l h = cc
  frees-held (entering from i (suc k)) (came_from, (s, at_i), le) l h =
      let (def, un, ord) = enter_rules from i s came_from at_i k (omega arith) in ground arith
  frees-held (leaving i zero) here l h = cc
  frees-held (leaving i (suc k)) ((s, at_i), le) l h =
      let (un, ord) = leave_rules v n t g sat i s at_i k (omega arith) in ground arith
