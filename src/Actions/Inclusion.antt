-- ===== src/Actions/Inclusion.antt =====
-- `test_inclusion` of actions/inclusion_test.cpp.
use liss.Common.{
  ℕ, zero, suc, ◌+◌, ◌≤◌, ◌<◌, ◌≡◌, ◌⊎◌, ◌↔◌, inl, inr, refl, subst, Bool, true, false, not, ◌&&◌,
  List, Option, none, some, arith, ◌==◌, Bool-cases,
}
use liss.Abstraction.Symbol.{Symbol}

-- `inclusion_result`
pub record Inclusion {ℓ} (A : Type ℓ) : Type ℓ where
  pub included : Bool
  pub bound_hit : Bool
  pub counter_example : List A

-- The algorithm at a bound, `check_trace` on a counter-example, of which only `included` is read, and
-- `translate_result` with `filter_result`.
module _ {ℓ} {C : Type ℓ} (run : ℕ → Inclusion C) (check_trace : List C → Bool)
    (translate : Inclusion C → Inclusion Symbol) where
  -- The loop goes on: inclusion is not shown, the bound is hit, and `check_trace` says that the
  -- counter-example is none.
  unfoldable pub is_open : ℕ → Bool
  is_open bound =
      not (run bound).included && ((run bound).bound_hit && check_trace (run bound).counter_example)

  -- The loop from `bound` on, which has `n` rounds left.
  unfoldable pub search_bounds : ℕ → ℕ → Option (Inclusion Symbol)
  unfolding is_open
  search_bounds zero bound = none
  search_bounds (suc n) bound = elim (is_open bound) [
    | false ↦ some (translate (run bound))
    | true ↦ search_bounds n (suc bound)
  ]

  unfoldable pub test_inclusion : ℕ → Option (Inclusion Symbol)
  unfolding search_bounds
  test_inclusion max_bound = search_bounds max_bound 1

  -- Inclusion is not shown at the bound, the bound is hit, and the counter-example is none.
  abbrev pub IsOpen : ℕ → Type 0
  IsOpen bound =
      ((run bound).included ≡ false)
      × ((run bound).bound_hit ≡ true)
      × (check_trace (run bound).counter_example ≡ true)

  is_open_iff : (bound : ℕ) → (is_open bound ≡ true) ↔ IsOpen bound
  unfolding is_open
  is_open_iff bound = ground arith

  -- The first bound from `from` to below `to` that decides, or none does.
  abbrev pub Decides : ℕ → ℕ → Option (Inclusion Symbol) → Type 0
  Decides from to o =
      ((o ≡ none) × ((b : ℕ) → from ≤ b → b < to → IsOpen b))
      ⊎ ((b : ℕ) × (from ≤ b)
          × (b < to)
          × ((c : ℕ) → from ≤ c → c < b → IsOpen c)
          × (¬ IsOpen b)
          × (o ≡ some (translate (run b))))

  search_bounds-Decides : (n bound : ℕ) → Decides bound (bound + n) (search_bounds n bound)
  unfolding search_bounds
  search_bounds-Decides zero bound = inl (refl, λ b h k. absurd (omega arith))
  search_bounds-Decides (suc n) bound = elim (Bool-cases (is_open bound)) [
    | inr e ↦
        decided (λ o. let h : is_open bound ≡ true = (is_open_iff bound).1 o in cc)
          (rw (e, search_bounds) refl)
    | inl e ↦
        subst (Decides bound (bound + suc n)) (rw (e, search_bounds) refl)
          (later ((is_open_iff bound).0 e) (search_bounds-Decides n (suc bound)))
  ]
    where
      decided :
          (¬ IsOpen bound)
          → search_bounds (suc n) bound ≡ some (translate (run bound))
          → Decides bound (bound + suc n) (search_bounds (suc n) bound)
      decided closed e =
          inr (bound, omega arith, omega arith, λ c h k. absurd (omega arith), closed, e)

      here_or_later :
          IsOpen bound
          → (to : ℕ) → ((b : ℕ) → suc bound ≤ b → b < to → IsOpen b)
          → (b : ℕ) → bound ≤ b
          → b < to
          → IsOpen b
      here_or_later here to rest b h k = elim (Bool-cases (bound == b)) [
        | inl same ↦ subst IsOpen (number same) here
        | inr other ↦ rest b (ground arith) k
      ]
        where
          number : (bound == b) ≡ true → bound ≡ b
          number e = ground arith

      later :
          IsOpen bound
          → Decides (suc bound) (suc bound + n) (search_bounds n (suc bound))
          → Decides bound (bound + suc n) (search_bounds n (suc bound))
      later here (inl (e, all_open)) = inl (
        e,
        λ b h k. here_or_later here (bound + suc n) (λ c h' k'. all_open c h' (omega arith)) b h k,
      )
      later here (inr (b, from, to, before, closed, e)) =
          inr (b, omega arith, omega arith, here_or_later here b before, closed, e)

  -- `test_inclusion` fails exactly when every bound from 1 to the maximum is open: inclusion is not
  -- shown, the bound is hit, and the check says that the counter-example is none. Else the result is
  -- that of the first bound that is not open.
  pub test_inclusion_lem : (max_bound : ℕ) → Decides 1 (1 + max_bound) (test_inclusion max_bound)
  unfolding test_inclusion
  test_inclusion_lem max_bound = search_bounds-Decides max_bound 1
