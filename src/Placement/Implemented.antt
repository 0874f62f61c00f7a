-- ===== src/Placement/Implemented.antt =====
-- The list of placements that placement/place_locks.cpp returns implements the functions of the model.
use liss.Common.{
  Option, none, ℕ, ◌<◌, ◌≡◌, ◌↔◌, ◌∙◌, inl, inr, refl, sym, subst, true, List, [], some, Memᴰ, All,
  All-mem, All-of_mem, get_elem?, count_from, some-inj,
}
use liss.Cfg.Graph.{AbstractCfg, State}
use liss.Placement.{
  Assignment, SinglePlacement, LockType, lock, unlock, PositionType, PlacementResult, at,
}
use liss.Placement.Constraints.{add_constraints}
use liss.Placement.Rules.{Satisfies, IsState}
use liss.Placement.Sites.{same_place}
use liss.Placement.Result.{Model, read_result, site, site_at, get_statistics}
use liss.Placement.Listed.{placement_of}
use liss.Placement.Duplicates.{
  IsPlaced, IsSite-site, AreOne, IsReduced, remove_duplicates-IsReduced,
}
use liss.Placement.Interpreted.{IsInterpreted, EndsFalse, resolved_or_broken}
use liss.Placement.Readable.{
  instruction, AreResolved, site-at, everything, read_model-everything, everything-cases,
  everything-mem, everything-IsLocated, IsLocated-IsPlaced,
}

-- A placement of a kind of instruction for a lock at a place of the source text.
abbrev pub HasPlacement :
    List AbstractCfg → List SinglePlacement → LockType → PositionType → ℕ → ℕ → Type 0
HasPlacement threads ps which position l k =
    (p : SinglePlacement) × Memᴰ p ps
    × (p.lock_number ≡ l)
    × (p.lock_t ≡ which)
    × (p.position ≡ position)
    × (site threads position p.location ≡ some k)

-- The placements have an instruction for a lock at the place of a state exactly when the function for
-- that instruction is true at the state.
abbrev pub Implements : List AbstractCfg → Assignment → List SinglePlacement → Type 0
Implements threads v ps =
    (which : LockType) (position : PositionType) (t i : ℕ) (g : AbstractCfg) (s : State)
    → get_elem? threads t ≡ some g
    → IsState g i s
    → (l : ℕ)
    → HasPlacement threads ps which position l (site_at position s)
      ↔ (instruction which position v (at t i) l ≡ true)

-- What is the same as a placement at a place is a placement there.
AreOne-placement :
    (threads : List AbstractCfg) (q p : SinglePlacement) (k : ℕ)
    → IsPlaced threads q
    → site threads p.position p.location ≡ some k
    → AreOne threads q p
    → (q.lock_number ≡ p.lock_number)
      × (q.lock_t ≡ p.lock_t)
      × (q.position ≡ p.position)
      × (site threads p.position q.location ≡ some k)
AreOne-placement threads q p k (j, placed_q) placed_p one =
    let (i, at_q, at_p) = one.place in
    let same : i ≡ k = some-inj (sym (IsSite-site threads p i at_p) ∙ placed_p) in
    (
      one.lock_number,
      one.lock_t,
      one.position,
      subst (λ x. site threads x q.location ≡ some k) one.position
          (subst (λ (x : ℕ). site threads q.position q.location ≡ some x) same
            (IsSite-site threads q i at_q)),
    )

instruction-same_place :
    (v : Assignment) (threads : List AbstractCfg) (n : ℕ)
    → Satisfies v (add_constraints threads (count_from 0 n))
    → (which : LockType) (position : PositionType) (t u i j : ℕ) (g h : AbstractCfg) (s s' : State)
    → get_elem? threads t ≡ some g
    → get_elem? threads u ≡ some h
    → IsState g i s
    → IsState h j s'
    → site_at position s ≡ site_at position s'
    → (l : ℕ) → l < n
    → instruction which position v (at t i) l ≡ instruction which position v (at u j) l
instruction-same_place v threads n sat lock position t u i j g h s s' e e' at_i at_j same l lt =
    (same_place v threads n sat position t u i j g h s s' e e' at_i at_j same l lt).0
instruction-same_place v threads n sat unlock position t u i j g h s s' e e' at_i at_j same l lt =
    (same_place v threads n sat position t u i j g h s s' e e' at_i at_j same l lt).1

module _ (threads : List AbstractCfg) (n depth : ℕ) (m : Model)
    (sat : Satisfies m.values (add_constraints threads (count_from 0 n)))
    (readable : AreResolved threads n depth m) where
  -- The place of a listed placement decides what the function is at every state with that place.
  instruction-listed :
      (t i : ℕ) (g : AbstractCfg) (s : State)
      → get_elem? threads t ≡ some g
      → IsState g i s
      → (p : SinglePlacement) → Memᴰ p (everything threads n depth m readable)
      → site threads p.position p.location ≡ some (site_at p.position s)
      → instruction p.lock_t p.position m.values (at t i) p.lock_number ≡ true
  instruction-listed t i g s e at_i p k here =
      let (lt, loc) = everything-IsLocated threads n depth m readable p k in
      let there : site threads p.position p.location ≡ some (site_at p.position loc.content) =
        subst (λ x. site threads p.position x ≡ some (site_at p.position loc.content))
          (sym loc.same)
          (site-at threads p.position loc.thread loc.state loc.graph loc.content loc.there
            loc.has) in
      instruction-same_place m.values threads n sat p.lock_t p.position t loc.thread i loc.state g
        loc.graph s loc.content e loc.there at_i loc.has (some-inj (sym here ∙ there)) p.lock_number
        lt
      ∙ subst (λ x. instruction p.lock_t p.position m.values x p.lock_number ≡ true) loc.same
          (everything-cases threads n depth m readable p k)

  -- What is read from a model whose functions are false outside of their entries.
  resolved-Implements :
      (r : PlacementResult) × ((read_result threads depth n [] m ≡ some r)
        × Implements threads m.values r.locks)
  unfolding read_result
  resolved-Implements =
      let (qs, (reduced, red)) = remove_duplicates-IsReduced threads all_listed all_placed in
      (
        record { locks = qs; statistics = get_statistics threads (count_from 0 n) m.values qs },
        (
          rw (read_model-everything threads n depth m readable, reduced) refl,
          λ which position t i g s e at_i l. (
            forth qs red which position t i g s e at_i l,
            back qs red which position t i g s e at_i l,
          ),
        ),
      )
    where
      all_listed : List SinglePlacement
      all_listed = everything threads n depth m readable

      all_placed : All (IsPlaced threads) all_listed
      all_placed = All-of_mem (IsPlaced threads) all_listed (λ p k.
          IsLocated-IsPlaced threads n depth m readable p
            (everything-IsLocated threads n depth m readable p k).1)

      forth :
          (qs : List SinglePlacement)
          → IsReduced threads all_listed qs
          → (which : LockType) (position : PositionType) (t i : ℕ) (g : AbstractCfg) (s : State)
          → get_elem? threads t ≡ some g
          → IsState g i s
          → (l : ℕ) → HasPlacement threads qs which position l (site_at position s)
          → instruction which position m.values (at t i) l ≡ true
      forth qs red which position t i g s e at_i l
            (p, k, same_lock, same_type, same_position, here) =
          rw (← same_lock, ← same_type, ← same_position)
            (instruction-listed t i g s e at_i p (red.part p k) (
              subst (λ x. site threads x p.location ≡ some (site_at x s)) (sym same_position) here))

      back :
          (qs : List SinglePlacement)
          → IsReduced threads all_listed qs
          → (which : LockType) (position : PositionType) (t i : ℕ) (g : AbstractCfg) (s : State)
          → get_elem? threads t ≡ some g
          → IsState g i s
          → (l : ℕ) → instruction which position m.values (at t i) l ≡ true
          → HasPlacement threads qs which position l (site_at position s)
      back qs red which position t i g s e at_i l h =
          let (q, k, same) =
            red.represented (placement_of which position (l, at t i))
              (everything-mem threads n depth m readable which position (at t i) l h) in
          let (a, b, c, d) =
            AreOne-placement threads q (placement_of which position (l, at t i))
              (site_at position s)
              (All-mem (IsPlaced threads) all_listed q all_placed (red.part q k))
              (site-at threads position t i g s e at_i) same in
          (q, k, a, b, c, d)

-- What the reading of a model gives: placements that implement its functions, or a failed assertion.
abbrev pub ReadOutcome : List AbstractCfg → ℕ → Model → Option PlacementResult → Type 0
ReadOutcome threads depth m (some r) =
    Implements threads m.values r.locks
    × ((which : LockType) (position : PositionType) → EndsFalse depth m which position)
ReadOutcome threads depth m none =
    (which : LockType) × (position : PositionType) × (¬ EndsFalse depth m which position)

-- For a model that satisfies the hard constraints and whose interpretations are those of its functions:
-- if each of the four interpretations ends, within the depth, in a function that is false outside of its
-- entries, a result is read from the model, which has a placement of an instruction for a lock at the
-- place of a state exactly when the function for that instruction is true at the state. So the
-- instructions in the source text do at every state what the model says. If one of them does not end so,
-- reading fails.
pub read_result-HasPlacement :
    (threads : List AbstractCfg) (n depth : ℕ) (m : Model)
    → Satisfies m.values (add_constraints threads (count_from 0 n))
    → IsInterpreted threads n m
    → ReadOutcome threads depth m (read_result threads depth n [] m)
unfolding read_result
read_result-HasPlacement threads n depth m sat h = elim (resolved_or_broken threads n depth m h) [
  | inr (e, (which, position, refused)) ↦
      let none_read : read_result threads depth n [] m ≡ none = rw e refl in
      subst (ReadOutcome threads depth m) (sym none_read) (which, position, refused)
  | inl (resolved, ends) ↦
      let (qs, (reduced, each)) = resolved-Implements threads n depth m sat resolved in
      subst (ReadOutcome threads depth m) (sym reduced) (each, ends)
]
