-- ===== src/Synthesis/Reorderings/Enumerate.antt =====
-- The loop that gathers the constraints of schedules ends, and excludes every schedule in the end.
use mathlib.Core.List.Memᴰ
use liss.Common.{
  some-inj, all-append, ℕ, zero, suc, ◌≤◌, ◌≡◌, ◌⊎◌, inl, inr, refl, sym, ap, ◌∙◌, subst, Bool,
  true, false, not, List, [], ◌∷◌, ◌++◌, map, Option, none, some, arith, ltb, any, all, length, All,
  All-append, Bool-cases, Option-cases, Memᴰ, any-append,
}
use liss.Types.{Conj, Dnf}
use liss.Synthesis.Constraint.{
  TraceLocation, ConstraintAtom, Model, Expr, atom_holds, make_constraint_conj,
  make_constraint_conj_lem,
}
use liss.Synthesis.Reorderings.{insert_by, sort_by}
use liss.Synthesis.Reorderings.Accesses.{Holds}
use liss.Synthesis.Reorderings.Solving.{Solver, IsSolver, Satisfies}
use liss.Synthesis.Reorderings.Process.{negated, blocked, gather}

-- A list with an element at every place.
abbrev pub everywhere {ℓ} : {A : Type ℓ} → A → List A → List (List A)
everywhere a [] = (a ∷ []) ∷ []
everywhere a (x ∷ xs) = (a ∷ x ∷ xs) ∷ map (λ l. x ∷ l) (everywhere a xs)

abbrev pub everywhere_all {ℓ} : {A : Type ℓ} → A → List (List A) → List (List A)
everywhere_all a [] = []
everywhere_all a (l ∷ ls) = everywhere a l ++ everywhere_all a ls

unfoldable pub permutations {ℓ} : {A : Type ℓ} → List A → List (List A)
permutations [] = [] ∷ []
permutations (a ∷ as') = everywhere_all a (permutations as')

insert_by-everywhere :
    (v : Model) (l : TraceLocation) (ls : List TraceLocation)
    → Memᴰ (insert_by v l ls) (everywhere l ls)
unfolding insert_by
insert_by-everywhere v l [] = Memᴰ.head refl
insert_by-everywhere v l (m ∷ ms) = elim (Bool-cases (ltb (v m.name) (v l.name))) [
  | inl go ↦ rw go (Memᴰ.tail (Memᴰ.map (λ k. m ∷ k) (insert_by-everywhere v l ms)))
  | inr stop ↦ rw stop (Memᴰ.head refl)
]

everywhere_all_mem {ℓ} :
    {A : Type ℓ} (a : A) (ls : List (List A)) (l k : List A)
    → Memᴰ l ls
    → Memᴰ k (everywhere a l)
    → Memᴰ k (everywhere_all a ls)
everywhere_all_mem a [] l k m n = elim m [ ]
everywhere_all_mem a (x ∷ ls) l k (Memᴰ.head e) n =
    Memᴰ.append_left (everywhere_all a ls) (subst (λ y. Memᴰ k (everywhere a y)) e n)
everywhere_all_mem a (x ∷ ls) l k (Memᴰ.tail m) n =
    Memᴰ.append_right (everywhere a x) (everywhere_all_mem a ls l k m n)

pub sort_by-permutations :
    (v : Model) (ls : List TraceLocation) → Memᴰ (sort_by v ls) (permutations ls)
unfolding sort_by permutations
sort_by-permutations v [] = Memᴰ.head refl
sort_by-permutations v (l ∷ ls) =
    everywhere_all_mem l (permutations ls) (sort_by v ls) (insert_by v l (sort_by v ls))
      (sort_by-permutations v ls) (insert_by-everywhere v l (sort_by v ls))

-- A list without one of its members.
without {ℓ} :
    {K : Type ℓ} (k : K) (ks : List K)
    → Memᴰ k ks
    → (rest : List K) × (length ks ≡ suc (length rest))
      × ((j : K) → Memᴰ j ks → (j ≡ k) ⊎ Memᴰ j rest)
without k [] m = elim m [ ]
without k (x ∷ ks) (Memᴰ.head e) =
    (ks, refl, λ j m. elim (Memᴰ.cases_cons m) [ inl q ↦ inl (q ∙ sym e) | inr n ↦ inr n ])
without k (x ∷ ks) (Memᴰ.tail m) =
    let (rest, len, other) = without k ks m in
    (
      x ∷ rest,
      ap suc len,
      λ j n. elim (Memᴰ.cases_cons n) [
        | inl q ↦ inr (Memᴰ.head q)
        | inr n' ↦ elim (other j n') [ inl q ↦ inl q | inr o ↦ inr (Memᴰ.tail o) ]
      ],
    )

-- Some conjunction holds in the model.
abbrev pub covers : Dnf ConstraintAtom → Model → Bool
covers found v = any (all (atom_holds v)) found

blocked_lem :
    (found : Dnf ConstraintAtom) (v : Model)
    → all (λ (e : Expr). e v) (blocked found) ≡ not (covers found v)
blocked_lem [] v = refl
blocked_lem (c ∷ found) v = ground (arith, make_constraint_conj_lem c v, blocked_lem found v)

module _ {ℓ κ} {K : Type ℓ} (z : Solver) (base : List Expr)
    (order : Model → Option (Conj ConstraintAtom))
    (reduce : Conj ConstraintAtom → Conj ConstraintAtom) (key : Model → K)
    (Q : Conj ConstraintAtom → Type κ) where
  -- A schedule has an order, whose constraint holds, reduced, in every schedule of the same key.
  abbrev pub Determined : Type ℓ
  Determined =
      (u v : Model)
      → Satisfies u base
      → Satisfies v base
      → key u ≡ key v
      → (c : Conj ConstraintAtom) × (order u ≡ some c) × Holds v (reduce c)

  -- The loop returns; what it returns covers every schedule, and its members are `Q`.
  abbrev pub Gathers : Option (Dnf ConstraintAtom) → Type κ
  Gathers o =
      (out : Dnf ConstraintAtom) × (o ≡ some out)
      × ((v : Model) → Satisfies v base → covers out v ≡ true)
      × All Q out

  module _ {μ} (T : Expr → Type μ) (solver : IsSolver T z) (decided : All T base)
      (Q_decided : (c : Conj ConstraintAtom) → Q c → T (negated (make_constraint_conj c)))
      (determined : Determined)
      (made : (u : Model) (c : Conj ConstraintAtom)
        → Satisfies u base
        → order u ≡ some c
        → Q (reduce c)) where
    blocked_decided : (found : Dnf ConstraintAtom) → All Q found → All T (blocked found)
    blocked_decided [] h = tt
    blocked_decided (c ∷ found) h = (Q_decided c h.0, blocked_decided found h.1)

    -- What the last check says, when it finds no model.
    All-covered :
        (found : Dnf ConstraintAtom)
        → All Q found
        → z.check (base ++ blocked found) ≡ none
        → (v : Model) → Satisfies v base
        → covers found v ≡ true
    All-covered found q e v h = elim (Bool-cases (covers found v)) [
      | inl covered ↦ covered
      | inr open' ↦ absurd (
          solver.complete (base ++ blocked found)
            (All-append T base (blocked found) decided (blocked_decided found q)) e v (both open'))
    ]
      where
        both : covers found v ≡ false → Satisfies v (base ++ blocked found)
        both open' =
            ground (arith, all-append (λ (x : Expr). x v) base (blocked found), blocked_lem found v)

    -- The model that a check finds is a schedule that is not covered.
    fresh_model :
        (found : Dnf ConstraintAtom) (v : Model)
        → z.check (base ++ blocked found) ≡ some v
        → Satisfies v base × (covers found v ≡ false)
    fresh_model found v e =
        let both = solver.sound (base ++ blocked found) v e in
        (
          ground (arith, all-append (λ (x : Expr). x v) base (blocked found)),
          ground (arith, all-append (λ (x : Expr). x v) base (blocked found), blocked_lem found v),
        )

    -- `left` has the keys of all schedules that are not covered.
    pub gather-Gathers :
        (fuel : ℕ) (found : Dnf ConstraintAtom) (left : List K)
        → length left ≤ fuel
        → ((v : Model) → Satisfies v base → covers found v ≡ false → Memᴰ (key v) left)
        → All Q found
        → Gathers (gather z base order reduce fuel found)
    unfolding gather
    gather-Gathers zero found left len keys q =
        elim (Option-cases (z.check (base ++ blocked found))) [
          | inl e ↦ (found, rw (e, gather) refl, All-covered found q e, q)
          | inr (v, e) ↦
              let (h, open') = fresh_model found v e in absurd (empty left len (keys v h open'))
        ]
      where
        empty : (ks : List K) → length ks ≤ 0 → {k : K} → Memᴰ k ks → ⊥
        empty [] l m = elim m [ ]
        empty (k ∷ ks) l m = omega arith
    gather-Gathers (suc fuel) found left len keys q =
        elim (Option-cases (z.check (base ++ blocked found))) [
          | inl e ↦ (found, rw (e, gather) refl, All-covered found q e, q)
          | inr (v, e) ↦
              let (h, open') = fresh_model found v e in
              let (c, at_v, holds) = determined v v h h refl in
              let (rest, len', other) = without (key v) left (keys v h open') in
              let (out, e', all_of_them, q') =
                gather-Gathers fuel (found ++ reduce c ∷ []) rest (omega arith)
                  (λ w hw free.
                    keys_left w c (all_parts found c w free).1
                      (λ same.
                        let (d, at_v', held) = determined v w h hw (sym same) in
                        subst (λ x. Holds w (reduce x)) (some-inj (sym at_v' ∙ at_v)) held)
                      (other (key w) (keys w hw (all_parts found c w free).0)))
                  (All-append Q found (reduce c ∷ []) q (made v c h at_v, tt)) in
              (out, rw (e, gather, at_v, gather) e', all_of_them, q')
        ]
      where
        all_parts :
            (f : Dnf ConstraintAtom) (c : Conj ConstraintAtom) (w : Model)
            → covers (f ++ reduce c ∷ []) w ≡ false
            → (covers f w ≡ false) × (all (atom_holds w) (reduce c) ≡ false)
        all_parts f c w free = (
          ground (arith, any-append (all (atom_holds w)) f (reduce c ∷ [])),
          ground (arith, any-append (all (atom_holds w)) f (reduce c ∷ [])),
        )

        keys_left :
            {k : K} {ks : List K} (w : Model) (c : Conj ConstraintAtom)
            → all (atom_holds w) (reduce c) ≡ false
            → (key w ≡ k → Holds w (reduce c))
            → (key w ≡ k) ⊎ Memᴰ (key w) ks
            → Memᴰ (key w) ks
        keys_left w c no_hold held (inl same) = absurd (clash (held same))
          where
            clash : Holds w (reduce c) → ⊥
            clash p = cc
        keys_left w c no_hold held (inr m) = m
