-- ===== src/Placement/Penalty.antt =====
-- What the cost functions of placement/place_locks.cpp make the optimiser minimise.
use liss.Common.{
  ℕ, suc, ◌+◌, ◌*◌, ◌≡◌, refl, Bool, true, false, ◌||◌, not, List, [], ◌∷◌, ◌++◌, map, arith, leb,
  length, all, concat_map, numbered,
}
use liss.Abstraction.Symbol.{Symbol}
use liss.Synthesis.Traces.{LockSymbols}
use liss.Cfg.Graph.{AbstractCfg, State}
use liss.Placement.{
  Assignment, CostType, absolute_minimum, small_locks, coarse, unoptimized,
  max_pairwise_concurrency, at,
}
use liss.Placement.Constraints.{states_of}
use liss.Placement.Cost.{
  Soft, prefer, penalty, held_costs, coarse_costs, comma, concurrency_costs, with_lower,
  cost_model_max_concurrency, cost_model, separations,
}

penalty-append :
    (v : Assignment) (xs ys : List Soft) → penalty v (xs ++ ys) ≡ penalty v xs + penalty v ys
penalty-append v [] ys = omega arith
penalty-append v (x ∷ xs) ys = omega (arith, penalty-append v xs ys)

penalty-concat_map {ℓ} :
    {A : Type ℓ} (v : Assignment) (f : A → List Soft) (xs : List A)
    → ((x : A) → penalty v (f x) ≡ 0)
    → penalty v (concat_map f xs) ≡ 0
penalty-concat_map v f [] h = refl
penalty-concat_map v f (x ∷ xs) h =
    omega (arith, penalty-append v (f x) (concat_map f xs), h x, penalty-concat_map v f xs h)

all_commas : (f : ℕ → Bool) (locks : List ℕ) → all (λ l. comma (f l) true) locks ≡ true
all_commas f [] = refl
all_commas f (l ∷ locks) = all_commas f locks

penalty-commas {ℓ} :
    {A : Type ℓ} (v : Assignment) (f : A → ℕ → Assignment → Bool) (locks : List ℕ) (xs : List A)
    → penalty v (map (λ j. prefer (λ v. all (λ l. comma (f j l v) true) locks) 1) xs) ≡ 0
penalty-commas v f locks [] = refl
penalty-commas v f locks (x ∷ xs) =
    rw (all_commas (λ l. f x l v) locks) (omega (arith, penalty-commas v f locks xs))

penalty-concurrency_costs :
    (v : Assignment) (locks : List ℕ) (a b : ℕ × AbstractCfg)
    → penalty v (concurrency_costs locks a b) ≡ 0
unfolding concurrency_costs
penalty-concurrency_costs v locks (t1, thread1) (t2, thread2) =
    penalty-concat_map v _ (states_of thread1) (λ i.
      penalty-commas v
        (λ (j : ℕ × State) l v. not (v.in_lock (at t1 i.0) l) || not (v.in_lock (at t2 j.0) l))
        locks (states_of thread2))

penalty-with_lower :
    (v : Assignment) (locks : List ℕ) (a : ℕ × AbstractCfg) (t2 : ℕ) (threads : List AbstractCfg)
    → penalty v (with_lower locks a t2 threads) ≡ 0
unfolding with_lower
penalty-with_lower v locks a t2 [] = refl
penalty-with_lower v locks (t1, thread1) t2 (thread2 ∷ threads) =
    either_way (leb t1 t2) _ _ (penalty-with_lower v locks (t1, thread1) t2 threads) (
      omega (
        arith,
        penalty-append v (concurrency_costs locks (t1, thread1) (t2, thread2))
            (with_lower locks (t1, thread1) (suc t2) threads),
        penalty-concurrency_costs v locks (t1, thread1) (t2, thread2),
        penalty-with_lower v locks (t1, thread1) (suc t2) threads,
      ))
  where
    either_way :
        (b : Bool) (xs ys : List Soft)
        → penalty v xs ≡ 0
        → penalty v ys ≡ 0
        → penalty v (elim b [ true ↦ xs | false ↦ ys ]) ≡ 0
    either_way true xs ys hx hy = hx
    either_way false xs ys hx hy = hy

penalty-max_concurrency :
    (v : Assignment) (threads : List AbstractCfg) (locks : List ℕ)
    → penalty v (cost_model_max_concurrency threads locks) ≡ 0
unfolding cost_model_max_concurrency
penalty-max_concurrency v threads locks =
    penalty-concat_map v (λ thread1. with_lower locks thread1 0 threads) (numbered 0 threads)
      (λ a. penalty-with_lower v locks a 0 threads)

module _ (stmt : Symbol → ℕ) (set_intersection_empty : List ℕ → List ℕ → Bool) where
  abbrev pub cost : Assignment → CostType → List AbstractCfg → List ℕ → LockSymbols → ℕ
  cost v c threads locks locks_to_place =
      penalty v (cost_model stmt set_intersection_empty c threads locks locks_to_place)

  -- The constraints of the cost function for concurrency are met by every assignment, so it asks for
  -- the same as the absolute minimum. That for small locks counts twice what separates two conflicts,
  -- that for coarse locks adds its own, and without a cost function nothing costs.
  pub penalty-cost_model :
      (v : Assignment) (threads : List AbstractCfg) (locks : List ℕ) (locks_to_place : LockSymbols)
      → (cost v max_pairwise_concurrency threads locks locks_to_place
          ≡ cost v absolute_minimum threads locks locks_to_place)
        × (cost v small_locks threads locks locks_to_place
            ≡ cost v absolute_minimum threads locks locks_to_place
              + 2
                * penalty v
                    (separations stmt set_intersection_empty (length threads) locks_to_place))
        × (cost v coarse threads locks locks_to_place
            ≡ cost v absolute_minimum threads locks locks_to_place
              + penalty v (coarse_costs threads locks))
        × (cost v unoptimized threads locks locks_to_place ≡ 0)
  unfolding cost_model
  penalty-cost_model v threads locks locks_to_place = (
    omega (
      arith,
      penalty-append v (held_costs threads locks) (cost_model_max_concurrency threads locks),
      penalty-max_concurrency v threads locks,
    ),
    omega (
      arith,
      penalty-append v (held_costs threads locks) (apart ++ apart),
      penalty-append v apart apart,
    ),
    penalty-append v (held_costs threads locks) (coarse_costs threads locks),
    refl,
  )
    where
      apart : List Soft
      apart = separations stmt set_intersection_empty (length threads) locks_to_place
