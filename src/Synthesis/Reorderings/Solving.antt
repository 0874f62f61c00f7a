-- ===== src/Synthesis/Reorderings/Solving.antt =====
-- `min_unsat` of synthesis/z3_helpers.h over a solver. Checking under the assumption of some fresh
-- triggers is checking with what they imply.
use liss.Common.{
  Bool, true, false, List, [], ◌∷◌, ◌++◌, Option, none, some, map, ltb, if◌then◌else◌, length, ◌≡◌,
  all, All,
}
use liss.Synthesis.Constraint.{Model, Expr}

-- What the program uses of the solver: `check` gives a model, or `none` if the formulas cannot be
-- satisfied together, and `unsat_core` says which of the assumptions, the second list, it needs.
pub record Solver : Type 0 where
  pub check : List Expr → Option Model
  pub unsat_core : List Expr → List Expr → List Bool

abbrev pub Satisfies : Model → List Expr → Type 0
Satisfies v es = all (λ (e : Expr). e v) es ≡ true

abbrev pub selected {ℓ} : {A : Type ℓ} → List Bool → List A → List A
selected (true ∷ bs) (a ∷ as') = a ∷ selected bs as'
selected (false ∷ bs) (a ∷ as') = selected bs as'
selected [] as' = []
selected (b ∷ bs) [] = []

-- What the documentation of a solver promises for a theory `T` that it decides: a model satisfies the
-- formulas, without one nothing does, and the core of assumptions that cannot be met together cannot
-- be met either.
pub record IsSolver {κ} (T : Expr → Type κ) (z : Solver) : Type κ where
  pub sound : (es : List Expr) (v : Model) → z.check es ≡ some v → Satisfies v es
  pub complete : (es : List Expr) → All T es → z.check es ≡ none → (v : Model) → ¬ Satisfies v es
  pub core_unsat :
      (es assumed : List Expr)
      → All T es
      → All T assumed
      → z.check (es ++ assumed) ≡ none
      → z.check (es ++ selected (z.unsat_core es assumed) assumed) ≡ none

abbrev pub is_unsat : Option Model → Bool
is_unsat none = true
is_unsat (some v) = false

module _ {ℓ} {A : Type ℓ} (z : Solver) (base : List Expr) (translate : A → Expr) where
  -- Whether the items cannot be met together.
  unfoldable pub clash : List A → Bool
  clash items = is_unsat (z.check (base ++ map translate items))

  -- The last loop: an item that is not needed is erased.
  unfoldable pub shrink : List A → List A → List A
  unfolding clash
  shrink kept [] = kept
  shrink kept (i ∷ rest) = elim (clash (kept ++ rest)) [
    | true ↦ shrink kept rest
    | false ↦ shrink (kept ++ i ∷ []) rest
  ]

  -- For many items, the core first.
  unfoldable pub core_of : List A → List A
  core_of items =
      if ltb 10 (length items)
      then selected (z.unsat_core base (map translate items)) items
      else items

  -- The items at the end, and what is returned.
  unfoldable pub min_unsat : List A → List A × Bool
  unfolding clash shrink core_of
  min_unsat items = if clash items then (shrink [] (core_of items), true) else (items, false)
