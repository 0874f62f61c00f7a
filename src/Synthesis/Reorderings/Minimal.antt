-- ===== src/Synthesis/Reorderings/Minimal.antt =====
-- `min_unsat` leaves nothing that is not needed.
use mathlib.Core.List.Memᴰ
use liss.Common.{
  ◌≡◌, ◌⊎◌, inl, inr, refl, sym, ap, ◌∙◌, subst, true, false, ◌&&◌, List, [], ◌∷◌, ◌++◌, map, arith,
  all, all-append, append_assoc, All, All-of_mem, All-mem, Bool-cases, Option-cases, Memᴰ,
}
use liss.Synthesis.Constraint.{Model, Expr}
use liss.Synthesis.Reorderings.Solving.{
  Solver, IsSolver, Satisfies, clash, shrink, core_of, min_unsat,
}
use liss.Synthesis.Reorderings.Core.{
  all-mem, all-of_mem, clash_false, core_of_mem, min_unsat_mem, min_unsat-clash,
}

module _ {ℓ} {A : Type ℓ} (z : Solver) (base : List Expr) (translate : A → Expr) where
  -- Without any of `items` they can be met together, before `pre` and with `post` after them.
  abbrev pub EachNeeded : List A → List A → List A → Type 0
  EachNeeded pre [] post = Unit
  EachNeeded pre (i ∷ items) post =
      (clash z base translate (pre ++ (items ++ post)) ≡ false)
      × EachNeeded (pre ++ i ∷ []) items post

  EachNeeded-snoc :
      (pre kept : List A) (i : A) (rest : List A)
      → EachNeeded pre kept (i ∷ rest)
      → clash z base translate (pre ++ (kept ++ rest)) ≡ false
      → EachNeeded pre (kept ++ i ∷ []) rest
  EachNeeded-snoc pre [] i rest h k = (k, tt)
  EachNeeded-snoc pre (a ∷ kept) i rest h k = (
    subst (λ l. clash z base translate (pre ++ l) ≡ false) (sym (append_assoc kept (i ∷ []) rest))
        h.0,
    EachNeeded-snoc (pre ++ a ∷ []) kept i rest h.1 (
        subst (λ l. clash z base translate l ≡ false)
          (sym (append_assoc pre (a ∷ []) (kept ++ rest))) k),
  )

  module _ {κ} (T : Expr → Type κ) (solver : IsSolver T z) (decided : All T base) where
    model_of :
        (items : List A)
        → clash z base translate items ≡ false
        → (v : Model) × Satisfies v base × (all (λ a. translate a v) items ≡ true)
    unfolding clash
    model_of items h = elim (Option-cases (z.check (base ++ map translate items))) [
      | inl e ↦ absurd (ground arith)
      | inr (v, e) ↦
          let (in_base, all_of_them) = parts v (solver.sound (base ++ map translate items) v e) in
          (v, in_base, all_of_them)
    ]
      where
        all-map :
            (v : Model) (l : List A)
            → all (λ (e : Expr). e v) (map translate l) ≡ all (λ a. translate a v) l
        all-map v [] = refl
        all-map v (x ∷ l) = ap (λ b. translate x v && b) (all-map v l)

        parts :
            (v : Model)
            → Satisfies v (base ++ map translate items)
            → Satisfies v base × (all (λ a. translate a v) items ≡ true)
        parts v s = (
          ground (arith, all-append (λ (e : Expr). e v) base (map translate items)),
          ground
              (arith, all-append (λ (e : Expr). e v) base (map translate items), all-map v items),
        )

    -- What can be met with more items can be met with fewer.
    clash-fewer :
        (items fewer : List A)
        → All (λ a. T (translate a)) items
        → ((a : A) → Memᴰ a fewer → Memᴰ a items)
        → clash z base translate items ≡ false
        → clash z base translate fewer ≡ false
    clash-fewer items fewer t sub h = elim (Bool-cases (clash z base translate fewer)) [
      | inr free ↦ free
      | inl c ↦
          let (v, in_base, all_of_them) = model_of items h in
          absurd (
            clash_false z base translate T solver decided fewer v
              (All-of_mem (λ a. T (translate a)) fewer
                (λ a m. All-mem (λ x. T (translate x)) items a t (sub a m)))
              c in_base
              (all-of_mem (λ a. translate a v) fewer
                (λ a m. all-mem (λ x. translate x v) items a all_of_them (sub a m))))
    ]

    -- It suffices that all the items, with those of `pre` and `post`, are in the theory.
    EachNeeded-fewer :
        (pre kept : List A) (i : A) (rest : List A)
        → All (λ a. T (translate a)) (pre ++ (kept ++ i ∷ rest))
        → EachNeeded pre kept (i ∷ rest)
        → EachNeeded pre kept rest
    EachNeeded-fewer pre [] i rest t h = tt
    EachNeeded-fewer pre (a ∷ kept) i rest t h = (
      clash-fewer (pre ++ (kept ++ i ∷ rest)) (pre ++ (kept ++ rest))
          (All-of_mem (λ x. T (translate x)) (pre ++ (kept ++ i ∷ rest))
            (λ x m.
              All-mem (λ y. T (translate y)) (pre ++ (a ∷ (kept ++ i ∷ rest))) x t
                (wider x (Memᴰ.append_cases pre m))))
          (λ x m. narrower x (Memᴰ.append_cases pre m)) h.0,
      EachNeeded-fewer (pre ++ a ∷ []) kept i rest
          (subst (All (λ x. T (translate x))) (sym (append_assoc pre (a ∷ []) (kept ++ i ∷ rest)))
            t)
          h.1,
    )
      where
        wider :
            (x : A)
            → Memᴰ x pre ⊎ Memᴰ x (kept ++ i ∷ rest)
            → Memᴰ x (pre ++ (a ∷ (kept ++ i ∷ rest)))
        wider x (inl m) = Memᴰ.append_left (a ∷ (kept ++ i ∷ rest)) m
        wider x (inr m) = Memᴰ.append_right pre (Memᴰ.tail m)

        later : (x : A) → Memᴰ x kept ⊎ Memᴰ x rest → Memᴰ x (kept ++ i ∷ rest)
        later x (inl m) = Memᴰ.append_left (i ∷ rest) m
        later x (inr m) = Memᴰ.append_right kept (Memᴰ.tail m)

        narrower : (x : A) → Memᴰ x pre ⊎ Memᴰ x (kept ++ rest) → Memᴰ x (pre ++ (kept ++ i ∷ rest))
        narrower x (inl m) = Memᴰ.append_left (kept ++ i ∷ rest) m
        narrower x (inr m) = Memᴰ.append_right pre (later x (Memᴰ.append_cases kept m))

    shrink-EachNeeded :
        (kept items : List A)
        → All (λ a. T (translate a)) (kept ++ items)
        → EachNeeded [] kept items
        → EachNeeded [] (shrink z base translate kept items) []
    unfolding shrink
    shrink-EachNeeded kept [] t h = h
    shrink-EachNeeded kept (i ∷ rest) t h =
        elim (Bool-cases (clash z base translate (kept ++ rest))) [
          | inl drop ↦
              rw (drop, shrink)
                (shrink-EachNeeded kept rest
                  (All-of_mem (λ a. T (translate a)) (kept ++ rest)
                    (λ x m.
                      All-mem (λ a. T (translate a)) (kept ++ i ∷ rest) x t
                        (put_back x (Memᴰ.append_cases kept m))))
                  (EachNeeded-fewer [] kept i rest t h))
          | inr keep ↦
              rw (keep, shrink)
                (shrink-EachNeeded (kept ++ i ∷ []) rest
                  (subst (All (λ a. T (translate a))) (sym (append_assoc kept (i ∷ []) rest)) t)
                  (EachNeeded-snoc [] kept i rest h keep))
        ]
      where
        put_back : (x : A) → Memᴰ x kept ⊎ Memᴰ x rest → Memᴰ x (kept ++ i ∷ rest)
        put_back x (inl m) = Memᴰ.append_left (i ∷ rest) m
        put_back x (inr m) = Memᴰ.append_right kept (Memᴰ.tail m)

    shrink_core :
        (items : List A)
        → All (λ a. T (translate a)) items
        → clash z base translate items ≡ true
        → EachNeeded [] (min_unsat z base translate items).0 []
    unfolding min_unsat
    shrink_core items t h = rw h (
        shrink-EachNeeded [] (core_of z base translate items)
          (All-of_mem (λ a. T (translate a)) (core_of z base translate items)
            (λ a m.
              All-mem (λ x. T (translate x)) items a t (core_of_mem z base translate items a m)))
          tt)

    -- Over a solver that decides the theory of its formulas, `min_unsat` succeeds exactly when the
    -- items cannot be met together. Then it leaves some of them, which cannot be met together either,
    -- but could without any one of them.
    pub min_unsat_lem :
        (items : List A)
        → All (λ a. T (translate a)) items
        → ((min_unsat z base translate items).1 ≡ clash z base translate items)
          × ((min_unsat z base translate items).1 ≡ true
              → ((a : A) → Memᴰ a (min_unsat z base translate items).0 → Memᴰ a items)
                × (clash z base translate (min_unsat z base translate items).0 ≡ true)
                × EachNeeded [] (min_unsat z base translate items).0 [])
    min_unsat_lem items t = (
      success,
      λ h. (
        min_unsat_mem z base translate items,
        min_unsat-clash z base translate T solver decided items t h,
        shrink_core items t (sym success ∙ h),
      ),
    )
      where
        success : (min_unsat z base translate items).1 ≡ clash z base translate items
        success =
            unfold min_unsat in
            (elim (Bool-cases (clash z base translate items)) [
              | inl c ↦ rw c refl
              | inr c ↦ rw c refl
            ])
