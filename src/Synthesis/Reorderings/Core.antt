-- ===== src/Synthesis/Reorderings/Core.antt =====
-- `min_unsat` returns some of the items; if it succeeds they cannot be met together, and every one of
-- them is needed for that.
use mathlib.Core.List.Memᴰ
use liss.Common.{
  ◌≡◌, ◌⊎◌, inl, inr, refl, sym, ap, ◌∙◌, subst, Bool, true, false, ◌&&◌, List, [], ◌∷◌, ◌++◌, map,
  Option, none, some, arith, ltb, all, all-append, length, append_assoc, append-nil, All,
  All-append, Bool-cases, Memᴰ, &&-true,
}
use liss.Synthesis.Constraint.{Model, Expr}
use liss.Synthesis.Reorderings.Solving.{
  Solver, IsSolver, Satisfies, selected, is_unsat, clash, shrink, core_of, min_unsat,
}

pub all-mem {ℓ} :
    {A : Type ℓ} (p : A → Bool) (xs : List A) (x : A) → all p xs ≡ true → Memᴰ x xs → p x ≡ true
all-mem p [] x h m = elim m [ ]
all-mem p (y ∷ xs) x h (Memᴰ.head e) = ap p e ∙ (&&-true (p y) (all p xs) h).0
all-mem p (y ∷ xs) x h (Memᴰ.tail m) = all-mem p xs x (&&-true (p y) (all p xs) h).1 m

pub all-of_mem {ℓ} :
    {A : Type ℓ} (p : A → Bool) (xs : List A) → ((x : A) → Memᴰ x xs → p x ≡ true) → all p xs ≡ true
all-of_mem p [] h = refl
all-of_mem p (y ∷ xs) h =
    ground (arith, h y (Memᴰ.head refl), all-of_mem p xs (λ x m. h x (Memᴰ.tail m)))

selected_mem {ℓ} :
    {A : Type ℓ} (bs : List Bool) (as' : List A) (a : A) → Memᴰ a (selected bs as') → Memᴰ a as'
selected_mem [] as' a m = elim m [ ]
selected_mem (true ∷ bs) [] a m = m
selected_mem (false ∷ bs) [] a m = m
selected_mem (false ∷ bs) (x ∷ as') a m = Memᴰ.tail (selected_mem bs as' a m)
selected_mem (true ∷ bs) (x ∷ as') a (Memᴰ.head e) = Memᴰ.head e
selected_mem (true ∷ bs) (x ∷ as') a (Memᴰ.tail m) = Memᴰ.tail (selected_mem bs as' a m)

map-selected {ℓ κ} :
    {A : Type ℓ} {B : Type κ} (f : A → B) (bs : List Bool) (as' : List A)
    → map f (selected bs as') ≡ selected bs (map f as')
map-selected f [] as' = refl
map-selected f (true ∷ bs) [] = refl
map-selected f (false ∷ bs) [] = refl
map-selected f (true ∷ bs) (x ∷ as') = ap (λ l. f x ∷ l) (map-selected f bs as')
map-selected f (false ∷ bs) (x ∷ as') = map-selected f bs as'

Memᴰ-map {ℓ κ} :
    {A : Type ℓ} {B : Type κ} (f : A → B) (xs : List A) (b : B)
    → Memᴰ b (map f xs)
    → (a : A) × Memᴰ a xs × (b ≡ f a)
Memᴰ-map f [] b m = elim m [ ]
Memᴰ-map f (x ∷ xs) b (Memᴰ.head e) = (x, Memᴰ.head refl, e)
Memᴰ-map f (x ∷ xs) b (Memᴰ.tail m) = let (a, n, e) = Memᴰ-map f xs b m in (a, Memᴰ.tail n, e)

is_unsat-none : (o : Option Model) → is_unsat o ≡ true → o ≡ none
is_unsat-none none e = refl
is_unsat-none (some v) e = cc

module _ {ℓ} {A : Type ℓ} (z : Solver) (base : List Expr) (translate : A → Expr) where
  shrink_mem :
      (kept items : List A) (a : A)
      → Memᴰ a (shrink z base translate kept items)
      → Memᴰ a (kept ++ items)
  unfolding shrink
  shrink_mem kept [] a m = Memᴰ.append_left [] m
  shrink_mem kept (i ∷ rest) a m = elim (Bool-cases (clash z base translate (kept ++ rest))) [
    | inl drop ↦ put_back (Memᴰ.append_cases kept (shrink_mem kept rest a (rw (drop, shrink) at m)))
    | inr keep ↦
        subst (Memᴰ a) (append_assoc kept (i ∷ []) rest)
          (shrink_mem (kept ++ i ∷ []) rest a (rw (keep, shrink) at m))
  ]
    where
      put_back : Memᴰ a kept ⊎ Memᴰ a rest → Memᴰ a (kept ++ i ∷ rest)
      put_back (inl n) = Memᴰ.append_left (i ∷ rest) n
      put_back (inr n) = Memᴰ.append_right kept (Memᴰ.tail n)

  pub core_of_mem :
      (items : List A) (a : A) → Memᴰ a (core_of z base translate items) → Memᴰ a items
  unfolding core_of
  core_of_mem items a m = elim (Bool-cases (ltb 10 (length items))) [
    | inl many ↦ selected_mem (z.unsat_core base (map translate items)) items a (rw many at m)
    | inr few ↦ rw few at m
  ]

  -- What is returned are items that were given.
  pub min_unsat_mem :
      (items : List A) (a : A) → Memᴰ a (min_unsat z base translate items).0 → Memᴰ a items
  unfolding min_unsat
  min_unsat_mem items a m = elim (Bool-cases (clash z base translate items)) [
    | inl c ↦ core_of_mem items a (shrink_mem [] (core_of z base translate items) a (rw c at m))
    | inr c ↦ rw c at m
  ]

  -- If it fails, they are all the items.
  pub min_unsat_failed :
      (items : List A)
      → (min_unsat z base translate items).1 ≡ false
      → (min_unsat z base translate items).0 ≡ items
  unfolding min_unsat
  min_unsat_failed items h = elim (Bool-cases (clash z base translate items)) [
    | inl c ↦ absurd (success c h)
    | inr c ↦ rw c refl
  ]
    where
      success :
          clash z base translate items ≡ true → (min_unsat z base translate items).1 ≡ false → ⊥
      success c e = ground arith

  shrink-clash :
      (kept items : List A)
      → clash z base translate (kept ++ items) ≡ true
      → clash z base translate (shrink z base translate kept items) ≡ true
  unfolding shrink
  shrink-clash kept [] h = subst (λ l. clash z base translate l ≡ true) (append-nil kept) h
  shrink-clash kept (i ∷ rest) h = elim (Bool-cases (clash z base translate (kept ++ rest))) [
    | inl drop ↦ rw (drop, shrink) (shrink-clash kept rest drop)
    | inr keep ↦
        rw (keep, shrink)
          (shrink-clash (kept ++ i ∷ []) rest (
            subst (λ l. clash z base translate l ≡ true) (sym (append_assoc kept (i ∷ []) rest)) h))
  ]

  module _ {κ} (T : Expr → Type κ) (solver : IsSolver T z) (decided : All T base) where
    map_decided : (items : List A) → All (λ a. T (translate a)) items → All T (map translate items)
    map_decided [] h = tt
    map_decided (a ∷ items) h = (h.0, map_decided items h.1)

    core_of-clash :
        (items : List A)
        → All (λ a. T (translate a)) items
        → clash z base translate items ≡ true
        → clash z base translate (core_of z base translate items) ≡ true
    unfolding core_of clash
    core_of-clash items t h = elim (Bool-cases (ltb 10 (length items))) [
      | inr few ↦ rw few h
      | inl many ↦
          rw
            (
              many,
              map-selected translate (z.unsat_core base (map translate items)) items,
              solver.core_unsat base (map translate items) decided (map_decided items t)
                  (is_unsat-none (z.check (base ++ map translate items)) h),
            )
            refl
    ]

    -- If `min_unsat` succeeds, what it returns cannot be met together.
    pub min_unsat-clash :
        (items : List A)
        → All (λ a. T (translate a)) items
        → (min_unsat z base translate items).1 ≡ true
        → clash z base translate (min_unsat z base translate items).0 ≡ true
    unfolding min_unsat
    min_unsat-clash items t h = elim (Bool-cases (clash z base translate items)) [
      | inl c ↦ rw c (shrink-clash [] (core_of z base translate items) (core_of-clash items t c))
      | inr c ↦ absurd (no_success c h)
    ]
      where
        no_success :
            clash z base translate items ≡ false → (min_unsat z base translate items).1 ≡ true → ⊥
        no_success c e = ground arith

    -- What cannot be met together does not hold together in a model of the base.
    pub clash_false :
        (items : List A) (v : Model)
        → All (λ a. T (translate a)) items
        → clash z base translate items ≡ true
        → Satisfies v base
        → all (λ a. translate a v) items ≡ true
        → ⊥
    unfolding clash
    clash_false items v t c h k =
        solver.complete (base ++ map translate items)
          (All-append T base (map translate items) decided (map_decided items t))
          (is_unsat-none (z.check (base ++ map translate items)) c) v
          (all-append (λ (e : Expr). e v) base (map translate items) ∙ joined (all-map items))
      where
        all-map :
            (l : List A) → all (λ (e : Expr). e v) (map translate l) ≡ all (λ a. translate a v) l
        all-map [] = refl
        all-map (x ∷ l) = ap (λ b. translate x v && b) (all-map l)

        joined :
            all (λ (e : Expr). e v) (map translate items) ≡ all (λ a. translate a v) items
            → (all (λ (e : Expr). e v) base && all (λ (e : Expr). e v) (map translate items)) ≡ true
        joined q = rw (h, q, k) refl
