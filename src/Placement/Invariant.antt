-- ===== src/Placement/Invariant.antt =====
-- The reachable configurations of the placed program: each thread holds the locks that the formulas
-- of placement/place_locks.cpp say, and no lock is held by two threads.
use liss.Common.{
  ℕ, ◌<◌, ◌≡◌, ◌⊎◌, ◌∙◌, inl, inr, refl, sym, subst, Bool, true, false, ◌&&◌, ◌||◌, not, List, some,
  arith, ◌==◌, all, all-concat_map, count_from, numbered, mem-numbered, get_elem?, Bool-cases,
  some-inj, Memᴰ, ==_iff,
}
use liss.Cfg.Graph.{AbstractCfg}
use liss.Placement.{Assignment}
use liss.Placement.Constraints.{thread_rules, add_constraints, lock_consistancy}
use liss.Placement.Rules.{Satisfies, holds, add_constraints-parts}
use liss.Placement.System.{
  Point, takes, frees, Move, Config, moved, started, Available, Reachable, start, later,
}
use liss.Placement.Held.{IsLaidOut, IsPoint, status, Move-status, takes-lowest}

-- Every thread that there is has a graph of that kind.
abbrev pub AreLaidOut : List AbstractCfg → Type 0
AreLaidOut threads = (t : ℕ) (g : AbstractCfg) → get_elem? threads t ≡ some g → IsLaidOut g

pub thread_rules-hold :
    (v : Assignment) (threads : List AbstractCfg) (n : ℕ)
    → Satisfies v (add_constraints threads (count_from 0 n))
    → (t : ℕ) (g : AbstractCfg) → get_elem? threads t ≡ some g
    → all (holds v) (thread_rules (count_from 0 n) (t, g)) ≡ true
unfolding lock_consistancy
thread_rules-hold v threads n sat t g e =
    all-concat_map (holds v) (thread_rules (count_from 0 n)) (numbered 0 threads)
      (add_constraints-parts v threads (count_from 0 n) sat).0 (t, g)
      (subst (λ (u : ℕ). Memᴰ (u, g) (numbered 0 threads)) (omega arith)
        (mem-numbered 0 t threads g e))

pub record IsHeld (v : Assignment) (n : ℕ) (threads : List AbstractCfg) (c : Config) : Type 0 where
  pub places : (t : ℕ) (g : AbstractCfg) → get_elem? threads t ≡ some g → IsPoint g n (c.point t)
  pub agrees :
      (t : ℕ) (g : AbstractCfg)
      → get_elem? threads t ≡ some g
      → (l : ℕ) → l < n
      → c.held t l ≡ status v t (c.point t) l
  -- Only threads that there are hold locks, and only the locks that there are.
  pub owners :
      (t l : ℕ) → c.held t l ≡ true → (l < n) × ((g : AbstractCfg) × (get_elem? threads t ≡ some g))
  pub single : (t u l : ℕ) → c.held t l ≡ true → c.held u l ≡ true → t ≡ u

pub true_not_false : ◌≡◌ {A = Bool} true false → ⊥
true_not_false e = cc

module _ (v : Assignment) (n : ℕ) (threads : List AbstractCfg) (laid : AreLaidOut threads)
    (sat : Satisfies v (add_constraints threads (count_from 0 n))) where
  started-IsHeld : IsHeld v n threads (started n)
  started-IsHeld = record {
    places = λ t g e. (refl, (laid t g e).initial, omega arith);
    agrees = λ t g e l lt. ground arith;
    owners = λ t l h. cc;
    single = λ t u l h h'. cc;
  }

  module _ (c : Config) (t : ℕ) (g : AbstractCfg) (q : Point) (inv : IsHeld v n threads c)
      (e : get_elem? threads t ≡ some g) (move : Move g n (c.point t) q) where
    stepped :
        IsPoint g n q
        × ((l : ℕ)
            → l < n
            → (takes v t (c.point t) l || c.held t l && not (frees v t (c.point t) l))
              ≡ status v t q l)
    stepped =
        let (place, change) =
          Move-status v n t g (laid t g e) (thread_rules-hold v threads n sat t g e) move
            (inv.places t g e) in
        (
          place,
          λ l lt.
              subst
                (λ b.
                  (takes v t (c.point t) l || b && not (frees v t (c.point t) l)) ≡ status v t q l)
                (sym (inv.agrees t g e l lt)) (change l lt),
        )

    same_graph :
        (u : ℕ) (g' : AbstractCfg) → (u == t) ≡ true → get_elem? threads u ≡ some g' → g ≡ g'
    same_graph u g' same e' =
        some-inj (sym e ∙ subst (λ w. get_elem? threads w ≡ some g') ((==_iff u t).0 same) e')

    moved-places :
        (u : ℕ) (g' : AbstractCfg)
        → get_elem? threads u ≡ some g'
        → IsPoint g' n ((moved v c t q).point u)
    moved-places u g' e' = elim (Bool-cases (u == t)) [
      | inl same ↦ rw same (subst (λ x. IsPoint x n q) (same_graph u g' same e') stepped.0)
      | inr other ↦ rw other (inv.places u g' e')
    ]

    moved-agrees :
        (u : ℕ) (g' : AbstractCfg)
        → get_elem? threads u ≡ some g'
        → (l : ℕ) → l < n
        → (moved v c t q).held u l ≡ status v u ((moved v c t q).point u) l
    moved-agrees u g' e' l lt = elim (Bool-cases (u == t)) [
      | inl same ↦ rw same (
          subst
            (λ w.
              (takes v t (c.point t) l || c.held t l && not (frees v t (c.point t) l))
              ≡ status v w q l)
            (sym ((==_iff u t).0 same)) (stepped.1 l lt))
      | inr other ↦ rw other (inv.agrees u g' e' l lt)
    ]

    moved-held :
        (u l : ℕ)
        → (moved v c t q).held u l ≡ true
        → ((u ≡ t) × (takes v t (c.point t) l ≡ true)) ⊎ (c.held u l ≡ true)
    moved-held u l h = elim (Bool-cases (u == t)) [
      | inl same ↦
          let h' : (takes v t (c.point t) l || c.held t l && not (frees v t (c.point t) l)) ≡ true =
            rw same at h in
          elim (Bool-cases (takes v t (c.point t) l)) [
            | inl taken ↦ inl ((==_iff u t).0 same, taken)
            | inr kept ↦
                inr (subst (λ w. c.held w l ≡ true) (sym ((==_iff u t).0 same)) (ground arith))
          ]
      | inr other ↦ inr (rw other at h)
    ]

    moved-owners :
        (u l : ℕ)
        → (moved v c t q).held u l ≡ true
        → (l < n) × ((g' : AbstractCfg) × (get_elem? threads u ≡ some g'))
    moved-owners u l h = elim (moved-held u l h) [
      | inl (same, taken) ↦ (
        (takes-lowest v n t g (laid t g e) (thread_rules-hold v threads n sat t g e) (c.point t)
            (inv.places t g e) l taken).0,
        (g, subst (λ w. get_elem? threads w ≡ some g) (sym same) e),
      )
      | inr kept ↦ inv.owners u l kept
    ]

    moved-single :
        Available v c t
        → (u w l : ℕ) → (moved v c t q).held u l ≡ true
        → (moved v c t q).held w l ≡ true
        → u ≡ w
    moved-single free u w l h h' = elim (moved-held u l h) [
      | inl (same, taken) ↦ elim (moved-held w l h') [
        | inl (same', taken') ↦ same ∙ sym same'
        | inr kept ↦ absurd (true_not_false (sym kept ∙ free l w taken))
      ]
      | inr kept ↦ elim (moved-held w l h') [
        | inl (same, taken) ↦ absurd (true_not_false (sym kept ∙ free l u taken))
        | inr kept' ↦ inv.single u w l kept kept'
      ]
    ]

    moved-IsHeld : Available v c t → IsHeld v n threads (moved v c t q)
    moved-IsHeld free = record {
      places = moved-places;
      agrees = moved-agrees;
      owners = moved-owners;
      single = moved-single free;
    }

  -- For an assignment that satisfies the hard constraints, in every reachable configuration of the
  -- placed program: each thread holds exactly the locks that the assignment says for the point where
  -- it is, and no lock is held by two threads.
  pub Reachable-IsHeld : {c : Config} → Reachable v n threads c → IsHeld v n threads c
  Reachable-IsHeld start = started-IsHeld
  Reachable-IsHeld (later {c} {t} {g} {q} r e move free) =
      moved-IsHeld c t g q (Reachable-IsHeld r) e move free
