-- ===== src/Placement/Arrival.antt =====
-- What the hard constraints of placement/place_locks.cpp say of a lock where a thread comes from one
-- state to the next, and where it executes a state.
use mathlib.Core.List.Memᴰ
use liss.Common.{
  if◌then◌else◌, ℕ, ◌≤◌, ◌<◌, ◌≡◌, ◌∙◌, inl, inr, refl, sym, subst, Bool, true, false, ◌&&◌, ◌||◌,
  not, List, [], ◌∷◌, ◌++◌, map, Memᴰ, arith, ◌==◌, all, count_from, mem-count_from, &&-true,
  List-cases, some,
}
use liss.Abstraction.Symbol.{Symbol, is_unlockable_point}
use liss.Cfg.Graph.{AbstractCfg, State}
use liss.Placement.{Assignment, equal, inle, at}
use liss.Placement.Constraints.{
  require, cons_unl, cons_basic, cons_loc, state_rules, place_rules, not_both, preemption_rules,
  return_rules, held_to_unlock, predecessor_rules, entry_rules, join_rules, lock_order_after, up_to,
  predecessors, predecessors_forward, thread_rules,
}
use liss.Placement.Rules.{
  holds, equal-true, all-split, IsState, state_rules-hold, predecessor_rules-hold,
}
use liss.Placement.Entries.{
  mem-up_to_lock, all-map, join_rules-agree, entry_rules-start, entry_rules-inside,
  entry_rules-first, mem-predecessors_forward, empty_forward,
}

-- The rules of one state of a thread that satisfies them, for one of `n` locks.
module _ (v : Assignment) (n t : ℕ) (g : AbstractCfg)
    (sat : all (holds v) (thread_rules (count_from 0 n) (t, g)) ≡ true) (i : ℕ) (s : State)
    (at_i : IsState g i s) (l : ℕ) (lt : l < n) where
  abbrev Entered : List ℕ → Type 0
  Entered ps = all (holds v) (entry_rules (count_from 0 n) (at t i) (map (at t) ps) l) ≡ true

  rules :
      (all (holds v) (return_rules t (i, s) l) ≡ true)
      × Entered (predecessors_forward g i)
      × (all (holds v) (lock_order_after (count_from 0 n) l (at t i)) ≡ true)
      × (held_to_unlock (at t i) l v ≡ true)
      × (all (holds v) (join_rules (map (at t) (predecessors g i)) l) ≡ true)
  unfolding predecessor_rules
  rules =
      let h =
        predecessor_rules-hold v (count_from 0 n) t g sat i s at_i l
          (mem-count_from 0 n l (omega arith) (omega arith)) in
      let (ret, h1) =
        all-split (holds v) (return_rules t (i, s) l)
          (entry_rules (count_from 0 n) (at t i) (map (at t) (predecessors_forward g i)) l
            ++ (lock_order_after (count_from 0 n) l (at t i)
                ++ (require cons_unl (held_to_unlock (at t i) l)
                    ∷ (join_rules (map (at t) (predecessors g i)) l
                        ++ (require cons_unl (held_to_unlock (at t i) l) ∷ [])))))
          h in
      let (entry, h2) =
        all-split (holds v)
          (entry_rules (count_from 0 n) (at t i) (map (at t) (predecessors_forward g i)) l) _ h1 in
      let (order, h3) = all-split (holds v) (lock_order_after (count_from 0 n) l (at t i)) _ h2 in
      let (unl, h4) = &&-true (held_to_unlock (at t i) l v) _ h3 in
      let (join, h5) = all-split (holds v) (join_rules (map (at t) (predecessors g i)) l) _ h4 in
      (ret, entry, order, unl, join)

  -- At the end of a state.
  pub leave_rules :
      (v.unlock_a (at t i) l ≡ true → v.in_lock (at t i) l ≡ true)
      × ((lb : ℕ) → lb ≤ l → v.lock_a (at t i) l ≡ true → v.in_lock (at t i) lb ≡ false)
  unfolding lock_order_after
  leave_rules =
      let (ret, entry, order, unl, join) = rules in
      (
        λ u. ground (arith, unl),
        λ lb k taken. ground (
          arith,
          all-map (holds v) _ (up_to (count_from 0 n) l) order lb (mem-up_to_lock n l lb k lt),
        ),
      )

  -- At a state that no edge leads to.
  pub start_rules :
      predecessors g i ≡ []
      → (v.in_lock (at t i) l ≡ v.lock_b (at t i) l) × (v.unlock_b (at t i) l ≡ false)
  start_rules e =
      let (ret, entry, order, unl, join) = rules in
      entry_rules-start v (count_from 0 n) (at t i) l (subst Entered (empty_forward g i e) entry)

  -- The predecessors agree with the first forward predecessor.
  first_agrees :
      (a p : ℕ) (rest : List ℕ)
      → predecessors_forward g i ≡ a ∷ rest
      → Memᴰ p (predecessors g i)
      → inle v (at t a) l ≡ inle v (at t p) l
  first_agrees a p rest q mp =
      let (ret, entry, order, unl, join) = rules in
      join_rules-agree v (count_from 0 n) (at t i) l _ join (at t a) (at t p)
        (Memᴰ.map (at t) (mem-predecessors_forward g i a (subst (Memᴰ a) (sym q) (Memᴰ.head refl))))
        (Memᴰ.map (at t) mp)

  first_rules :
      (a : ℕ) (rest : List ℕ)
      → predecessors_forward g i ≡ a ∷ rest
      → (v.in_lock (at t i) l
          ≡ (v.lock_b (at t i) l || not (v.unlock_b (at t i) l) && inle v (at t a) l))
        × (v.unlock_b (at t i) l ≡ true → inle v (at t a) l ≡ true)
        × ((lb : ℕ) → lb ≤ l → v.lock_b (at t i) l ≡ true → inle v (at t a) lb ≡ false)
  first_rules a rest q =
      let (ret, entry, order, unl, join) = rules in
      let (def, un, ord) =
        entry_rules-first v (count_from 0 n) (at t i) l (at t a) (map (at t) rest)
          (subst Entered q entry) in
      (def, un, λ lb k. ord lb (mem-up_to_lock n l lb k lt))

  pub forward_rules :
      (f : ℕ)
      → Memᴰ f (predecessors_forward g i)
      → v.lock_b (at t i) l ≡ true
      → v.in_lock (at t f) l ≡ false
  forward_rules f mf taken =
      let (ret, entry, order, unl, join) = rules in
      entry_rules-inside v (count_from 0 n) (at t i) l (map (at t) (predecessors_forward g i))
        (at t f) (Memᴰ.map (at t) mf) (mem-up_to_lock n l l (omega arith) lt) entry taken

  -- What is held at a call is held at its return.
  pub return_rule :
      (s.return_state == 0) ≡ false → v.in_lock (at t i) l ≡ v.in_lock (at t s.return_state) l
  unfolding return_rules
  return_rule e =
      let (ret, entry, order, unl, join) = rules in
      equal-true _ _
        (&&-true (equal (v.in_lock (at t i) l) (v.in_lock (at t s.return_state) l)) true
          (rw e at ret)).0

  own_rules :
      (all (holds v) (place_rules (at t i) s l) ≡ true)
      × (not_both (at t i) l v ≡ true)
      × (all (holds v) (preemption_rules (at t i) s.action l) ≡ true)
  unfolding state_rules
  own_rules =
      let h =
        state_rules-hold v (count_from 0 n) t g sat i s at_i l
          (mem-count_from 0 n l (omega arith) (omega arith)) in
      let (place, h1) =
        all-split (holds v) (place_rules (at t i) s l)
          (require cons_basic (not_both (at t i) l) ∷ preemption_rules (at t i) s.action l) h in
      let (basic, own) = &&-true (not_both (at t i) l v) _ h1 in (place, basic, own)

  pub exclusive_rules :
      (v.lock_a (at t i) l ≡ true → v.unlock_a (at t i) l ≡ false)
      × (v.lock_b (at t i) l ≡ true → v.unlock_b (at t i) l ≡ false)
  exclusive_rules =
      let (place, basic, own) = own_rules in
      (λ h. ground (arith, basic), λ h. ground (arith, basic))

  pub unlocked_point :
      (a : Symbol) → s.action ≡ some a → is_unlockable_point a ≡ true → v.in_lock (at t i) l ≡ false
  unfolding preemption_rules
  unlocked_point a e u =
      let (place, basic, own) = own_rules in
      preemption_rules-hold
        (subst (λ o. all (holds v) (preemption_rules (at t i) o l) ≡ true) e own)
    where
      preemption_rules-hold :
          all (holds v) (preemption_rules (at t i) (some a) l) ≡ true → v.in_lock (at t i) l ≡ false
      preemption_rules-hold h = ground arith

  -- Nothing is done where there is no place for it.
  pub placeless :
      ((s.lock_before == 0) ≡ true
        → (v.lock_b (at t i) l ≡ false) × (v.unlock_b (at t i) l ≡ false))
      × ((s.lock_after == 0) ≡ true
          → (v.lock_a (at t i) l ≡ false) × (v.unlock_a (at t i) l ≡ false))
  unfolding place_rules
  placeless =
      let (place, basic, own) = own_rules in
      let (b, a) =
        all-split (holds v)
          (if s.lock_before == 0
            then require cons_loc (λ v. not (v.lock_b (at t i) l) && not (v.unlock_b (at t i) l))
              ∷ []
            else [])
          (if s.lock_after == 0
            then require cons_loc (λ v. not (v.lock_a (at t i) l) && not (v.unlock_a (at t i) l))
              ∷ []
            else [])
          place in
      (λ e. neither _ _ (rw e at b), λ e. neither _ _ (rw e at a))
    where
      neither : (p q : Bool) → (not p && not q && true) ≡ true → (p ≡ false) × (q ≡ false)
      neither p q h = (ground arith, ground arith)

-- At a state that is reached by an edge, from any of its predecessors.
pub arrive_rules :
    (v : Assignment) (n t : ℕ) (g : AbstractCfg)
    → all (holds v) (thread_rules (count_from 0 n) (t, g)) ≡ true
    → (i : ℕ) (s : State) → IsState g i s
    → (p f : ℕ) → Memᴰ p (predecessors g i)
    → Memᴰ f (predecessors_forward g i)
    → (l : ℕ) → l < n
    → (v.in_lock (at t i) l
        ≡ (v.lock_b (at t i) l || not (v.unlock_b (at t i) l) && inle v (at t p) l))
      × (v.unlock_b (at t i) l ≡ true → inle v (at t p) l ≡ true)
      × ((lb : ℕ) → lb ≤ l → v.lock_b (at t i) l ≡ true → inle v (at t p) lb ≡ false)
arrive_rules v n t g sat i s at_i p f mp mf l lt = elim (List-cases (predecessors_forward g i)) [
  | inl q ↦ absurd (Memᴰ.not-nil (subst (Memᴰ f) q mf))
  | inr (a, rest, q) ↦
      let (def, un, ord) = first_rules v n t g sat i s at_i l lt a rest q in
      let same : (lb : ℕ) → lb < n → inle v (at t a) lb ≡ inle v (at t p) lb =
        λ lb lt'. first_agrees v n t g sat i s at_i lb lt' a p rest q mp in
      (
        subst
            (λ b. v.in_lock (at t i) l ≡ (v.lock_b (at t i) l || not (v.unlock_b (at t i) l) && b))
            (same l lt) def,
        λ u. sym (same l lt) ∙ un u,
        λ lb k taken. sym (same lb (omega arith)) ∙ ord lb k taken,
      )
]
