-- ===== src/Synthesis/Reorderings/Sections.antt =====
-- `prepare_trace`: the formula for the locks that the program has.
use liss.Common.{
  some-inj, ℕ, zero, suc, ◌+◌, ◌<◌, ◌≡◌, ◌≢◌, ◌⊎◌, inl, inr, sym, subst, true, List, [], ◌∷◌,
  Option, none, some, arith, ◌==◌, get_elem?, Bool-cases, Option-cases, &&-true,
}
use liss.Synthesis.Constraint.{TraceLocation, Model, Expr}
use liss.Synthesis.Reorderings.{SeparatedTrace}
use liss.Synthesis.Reorderings.Prepare.{
  LockPair, Preparation, both, unlock_or, exclusive, exclude_from, exclude_each, exclude_all,
  all_conditions, finish_preparation,
}

module _ (final : TraceLocation) (v : Model) where
  exclude_from-exclusive :
      (i : ℕ) (p : LockPair) (j : ℕ) (qs : List LockPair) (locks : Expr)
      → exclude_from final i p j qs locks v ≡ true
      → (locks v ≡ true)
        × ((k : ℕ) (q : LockPair)
            → get_elem? qs k ≡ some q
            → i ≢ j + k
            → exclusive final p q v ≡ true)
  unfolding exclude_from
  exclude_from-exclusive i p j [] locks h = (h, λ k q e d. cc)
  exclude_from-exclusive i p j (r ∷ qs) locks h = elim (Bool-cases (i == j)) [
    | inl same ↦
        let (l, rest) = exclude_from-exclusive i p (suc j) qs locks (rw same at h) in
        (l, at rest (λ q e d. absurd (d (ground arith))))
    | inr other ↦
        let (l, rest) =
          exclude_from-exclusive i p (suc j) qs (both locks (exclusive final p r))
            (rw other at h) in
        let (l', this) = &&-true (locks v) (exclusive final p r v) l in
        (l', at rest (λ q e d. subst (λ x. exclusive final p x v ≡ true) (some-inj e) this))
  ]
    where
      at :
          ((k : ℕ) (q : LockPair)
            → get_elem? qs k ≡ some q
            → i ≢ suc j + k
            → exclusive final p q v ≡ true)
          → ((q : LockPair) → some r ≡ some q → i ≢ j + 0 → exclusive final p q v ≡ true)
          → (k : ℕ) (q : LockPair) → get_elem? (r ∷ qs) k ≡ some q
          → i ≢ j + k
          → exclusive final p q v ≡ true
      at rest this zero q e d = this q e d
      at rest this (suc k) q e d = rest k q e (λ c. d (omega arith))

  -- Every other section of the lock is excluded.
  abbrev Excludes : ℕ → LockPair → List LockPair → Type 0
  Excludes i p pairs =
      (j : ℕ) (q : LockPair) → get_elem? pairs j ≡ some q → i ≢ j → exclusive final p q v ≡ true

  exclude_each-exclusive :
      (i : ℕ) (pairs ps : List LockPair) (locks : Expr)
      → exclude_each final i pairs ps locks v ≡ true
      → (locks v ≡ true)
        × ((k : ℕ) (p : LockPair) → get_elem? ps k ≡ some p → Excludes (i + k) p pairs)
  unfolding exclude_each
  exclude_each-exclusive i pairs [] locks h = (h, λ k p e. cc)
  exclude_each-exclusive i pairs (p ∷ ps) locks h =
      let (l, rest) =
        exclude_each-exclusive (suc i) pairs ps (exclude_from final i p 0 pairs locks) h in
      let (l', this) = exclude_from-exclusive i p 0 pairs locks l in
      (l', at rest (λ j q e d. this j q e (λ c. d (omega arith))))
    where
      at :
          ((k : ℕ) (q : LockPair) → get_elem? ps k ≡ some q → Excludes (suc i + k) q pairs)
          → Excludes (i + 0) p pairs
          → (k : ℕ) (q : LockPair) → get_elem? (p ∷ ps) k ≡ some q
          → Excludes (i + k) q pairs
      at rest this zero q e = subst (λ x. Excludes (i + 0) x pairs) (some-inj e) this
      at rest this (suc k) q e = subst (λ n. Excludes n q pairs) (omega arith) (rest k q e)

  exclude_all-exclusive :
      (lockings : List (List LockPair)) (locks : Expr)
      → exclude_all final lockings locks v ≡ true
      → (locks v ≡ true)
        × ((x : ℕ) (pairs : List LockPair)
            → get_elem? lockings x ≡ some pairs
            → (k : ℕ) (p : LockPair) → get_elem? pairs k ≡ some p
            → Excludes k p pairs)
  unfolding exclude_all
  exclude_all-exclusive [] locks h = (h, λ x pairs e. cc)
  exclude_all-exclusive (ps ∷ lockings) locks h =
      let (l, rest) = exclude_all-exclusive lockings (exclude_each final 0 ps ps locks) h in
      let (l', this) = exclude_each-exclusive 0 ps ps locks l in
      (l', at rest (λ k p e. subst (λ n. Excludes n p ps) (omega arith) (this k p e)))
    where
      Sections : List LockPair → Type 0
      Sections pairs = (k : ℕ) (p : LockPair) → get_elem? pairs k ≡ some p → Excludes k p pairs

      at :
          ((x : ℕ) (pairs : List LockPair) → get_elem? lockings x ≡ some pairs → Sections pairs)
          → Sections ps
          → (x : ℕ) (pairs : List LockPair) → get_elem? (ps ∷ lockings) x ≡ some pairs
          → Sections pairs
      at rest this zero pairs e = subst Sections (some-inj e) this
      at rest this (suc x) pairs e = rest x pairs e

-- Two sections of one lock, at two places of its list, do not overlap in a schedule that satisfies
-- the formula for the locks: one ends before the other begins. An open section ends with the trace.
pub finish_preparation-exclusive :
    (final : TraceLocation) (p : Preparation) (s : SeparatedTrace) (v : Model)
    → finish_preparation final p ≡ some s
    → s.locks v ≡ true
    → (x i j : ℕ) (pairs : List LockPair) (a b : LockPair) → get_elem? p.lockings x ≡ some pairs
    → get_elem? pairs i ≡ some a
    → get_elem? pairs j ≡ some b
    → i ≢ j
    → (v (unlock_or final a).name < v b.lock_at.name)
      ⊎ (v (unlock_or final b).name < v a.lock_at.name)
unfolding finish_preparation
finish_preparation-exclusive final p s v e h x i j pairs a b at_x at_i at_j d =
    let (_, sections) =
      exclude_all-exclusive final v p.lockings p.strace.locks
        (locks_of (Option-cases conditions)) in
    decide (sections x pairs at_x i a at_i j b at_j d)
      (sections x pairs at_x j b at_j i a at_i (λ c. d (sym c)))
  where
    conditions : Option Expr
    conditions =
        all_conditions p.strace.waits p.strace.notifies p.strace.resets p.strace.conditionals

    locks_of :
        (conditions ≡ none) ⊎ ((c : Expr) × (conditions ≡ some c))
        → exclude_all final p.lockings p.strace.locks v ≡ true
    locks_of (inl q) = absurd (ground arith)
    locks_of (inr (c, q)) =
        subst (λ (o : SeparatedTrace). o.locks v ≡ true) (sym (some-inj (rw q at e))) h

    decide :
        exclusive final a b v ≡ true
        → exclusive final b a v ≡ true
        → (v (unlock_or final a).name < v b.lock_at.name)
          ⊎ (v (unlock_or final b).name < v a.lock_at.name)
    decide k l = ground arith
