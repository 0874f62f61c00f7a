-- ===== src/Placement/Safe.antt =====
-- The safety of the locks that satisfy the formulas of placement/place_locks.cpp: in every run of the
-- placed program they are handled in an order, keep their places apart, and never deadlock.
use liss.Common.{
  ℕ, zero, suc, ◌<◌, ◌≡◌, ◌⊎◌, ◌∙◌, inl, inr, refl, sym, subst, true, false, List, [], some, arith,
  ◌==◌, all, count_from, length, get_elem?, Bool-cases, ==_iff, lt_of_get_elem?, List-cases,
}
use liss.Cfg.Graph.{AbstractCfg}
use liss.Placement.{Assignment, at}
use liss.Placement.Constraints.{thread_rules, add_constraints, edges_from}
use liss.Placement.Rules.{Satisfies, holds}
use liss.Placement.System.{
  Point, entering, leaving, takes, frees, Move, handle_before, execute, handle_after, follow,
  Config, Available, Reachable,
}
use liss.Placement.Held.{IsPoint, takes-lowest, frees-held}
use liss.Placement.Invariant.{
  AreLaidOut, thread_rules-hold, IsHeld, Reachable-IsHeld, true_not_false,
}

-- A thread is in order if the lock that its next step takes is lower than all that it holds, and the
-- lock that it frees is one that it holds.
pub record IsOrdered (v : Assignment) (c : Config) (t : ℕ) : Type 0 where
  pub lowest : (l l' : ℕ) → takes v t (c.point t) l ≡ true → c.held t l' ≡ true → l < l'
  pub owned : (l : ℕ) → frees v t (c.point t) l ≡ true → c.held t l ≡ true

takes_unique :
    (v : Assignment) (t : ℕ) (p : Point) (l l' : ℕ)
    → takes v t p l ≡ true
    → takes v t p l' ≡ true
    → l ≡ l'
takes_unique v t (entering from i zero) l l' h h' = cc
takes_unique v t (entering from i (suc k)) l l' h h' = ground arith
takes_unique v t (leaving i zero) l l' h h' = cc
takes_unique v t (leaving i (suc k)) l l' h h' = ground arith

frees-bound :
    (v : Assignment) (n t : ℕ) (g : AbstractCfg) (p : Point)
    → IsPoint g n p
    → (l : ℕ) → frees v t p l ≡ true
    → l < n
frees-bound v n t g (entering from i zero) place l h = cc
frees-bound v n t g (entering from i (suc k)) place l h = ground (arith, place.2)
frees-bound v n t g (leaving i zero) place l h = cc
frees-bound v n t g (leaving i (suc k)) place l h = ground (arith, place.1)

-- Whether a thread wants a lock.
wanted :
    (v : Assignment) (t : ℕ) (p : Point)
    → ((l : ℕ) × (takes v t p l ≡ true)) ⊎ ((l : ℕ) → takes v t p l ≡ false)
wanted v t (entering from i zero) = inr (λ l. refl)
wanted v t (entering from i (suc k)) = elim (Bool-cases (v.lock_b (at t i) k)) [
  | inl e ↦ inl (k, ground arith)
  | inr e ↦ inr (λ l. ground arith)
]
wanted v t (leaving i zero) = inr (λ l. refl)
wanted v t (leaving i (suc k)) = elim (Bool-cases (v.lock_a (at t i) k)) [
  | inl e ↦ inl (k, ground arith)
  | inr e ↦ inr (λ l. ground arith)
]

holder :
    (c : Config) (l m : ℕ)
    → ((w : ℕ) × (c.held w l ≡ true)) ⊎ ((w : ℕ) → w < m → c.held w l ≡ false)
holder c l zero = inr (λ w lt. absurd (omega arith))
holder c l (suc m) = elim (Bool-cases (c.held m l)) [
  | inl e ↦ inl (m, e)
  | inr e ↦ elim (holder c l m) [
    | inl found ↦ inl found
    | inr free ↦ inr (λ w lt. elim (Bool-cases (w == m)) [
      | inl same ↦ subst (λ x. c.held x l ≡ false) (sym ((==_iff w m).0 same)) e
      | inr other ↦ free w (ground arith)
    ])
  ]
]

-- A thread at the end: after a state without edges.
abbrev pub HasEnded : AbstractCfg → Point → Type 0
HasEnded g p = (i : ℕ) × (p ≡ leaving i zero) × (edges_from g i ≡ [])

-- Every thread has a step or is at the end.
progress : (g : AbstractCfg) (n : ℕ) (p : Point) → ((q : Point) × Move g n p q) ⊎ HasEnded g p
progress g n (entering from i zero) = inl (leaving i n, execute)
progress g n (entering from i (suc k)) = inl (entering from i k, handle_before)
progress g n (leaving i zero) = elim (List-cases (edges_from g i)) [
  | inl e ↦ inr (i, refl, e)
  | inr (e, rest, q) ↦ inl (entering (some i) e.to n, follow (rw q ground arith))
]
progress g n (leaving i (suc k)) = inl (leaving i k, handle_after)

-- A thread that holds a lock and does not wait for one: it has a step, or is at the end.
pub record Holder (v : Assignment) (n : ℕ) (threads : List AbstractCfg) (c : Config) : Type 0 where
  pub thread : ℕ
  pub graph : AbstractCfg
  pub there : get_elem? threads thread ≡ some graph
  pub holding : (l : ℕ) × (c.held thread l ≡ true)
  pub waits_not : Available v c thread
  pub goes_on : ((q : Point) × Move graph n (c.point thread) q) ⊎ HasEnded graph (c.point thread)

module _ (v : Assignment) (n : ℕ) (threads : List AbstractCfg) (laid : AreLaidOut threads)
    (sat : Satisfies v (add_constraints threads (count_from 0 n))) where
  -- In every reachable configuration of the placed program, a step of a thread takes a lock only if
  -- it is lower than every lock that the thread holds, and frees only a lock that the thread holds.
  pub Reachable-IsOrdered :
      {c : Config}
      → Reachable v n threads c
      → (t : ℕ) (g : AbstractCfg) → get_elem? threads t ≡ some g
      → IsOrdered v c t
  Reachable-IsOrdered {c} r t g e = record {
    lowest = λ l l' h held.
        let (lt, (g', e')) = inv.owners t l' held in
        (takes-lowest v n t g (laid t g e) rules (c.point t) place l h).1 l' lt
          (sym (inv.agrees t g e l' lt) ∙ held);
    owned = λ l h.
        inv.agrees t g e l (frees-bound v n t g (c.point t) place l h)
        ∙ frees-held v n t g (laid t g e) rules (c.point t) place l h;
  }
    where
      inv : IsHeld v n threads c
      inv = Reachable-IsHeld v n threads laid sat r

      place : IsPoint g n (c.point t)
      place = inv.places t g e

      rules : all (holds v) (thread_rules (count_from 0 n) (t, g)) ≡ true
      rules = thread_rules-hold v threads n sat t g e

  module _ {c : Config} (r : Reachable v n threads c) where
    inv : IsHeld v n threads c
    inv = Reachable-IsHeld v n threads laid sat r

    free_everywhere :
        (u l l' : ℕ)
        → takes v u (c.point u) l' ≡ true
        → ((w : ℕ) → w < length threads → c.held w l' ≡ false)
        → takes v u (c.point u) l ≡ true
        → (w : ℕ) → c.held w l ≡ false
    free_everywhere u l l' h free h' w = elim (Bool-cases (c.held w l)) [
      | inl held ↦
          let (lt, (g, e)) = inv.owners w l held in
          let same : l ≡ l' = takes_unique v u (c.point u) l l' h' h in
          absurd (
            true_not_false (
              sym (subst (λ x. c.held w x ≡ true) same held)
              ∙ free w (lt_of_get_elem? threads w e)))
      | inr free' ↦ free'
    ]

    waits_for : (m l u : ℕ) → l < m → c.held u l ≡ true → Holder v n threads c
    waits_for zero l u lt held = absurd (omega arith)
    waits_for (suc m) l u lt held =
        let (lt', (g, e)) = inv.owners u l held in
        let found : Available v c u → Holder v n threads c = λ free. record {
          thread = u;
          graph = g;
          there = e;
          holding = (l, held);
          waits_not = free;
          goes_on = progress g n (c.point u);
        } in
        elim (wanted v u (c.point u)) [
          | inl (l', h) ↦ elim (holder c l' (length threads)) [
            | inl (w, held') ↦
                waits_for m l' w (omega (arith, (Reachable-IsOrdered r u g e).lowest l' l h held))
                  held'
            | inr free ↦ found (λ l'' w h'. free_everywhere u l'' l' h free h' w)
          ]
          | inr nothing ↦ found (λ l' w h. absurd (true_not_false (sym h ∙ nothing l')))
        ]

  -- The placed program has no deadlock on its locks: in a reachable configuration in which a lock is
  -- held, some thread that holds a lock waits for none. It has a step, or has come to the end of its
  -- graph.
  pub no_deadlock :
      {c : Config} → Reachable v n threads c → (u l : ℕ) → c.held u l ≡ true → Holder v n threads c
  no_deadlock r u l held = waits_for r (suc l) l u (omega arith) held
