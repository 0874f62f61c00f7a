-- ===== src/Synthesis/Constraint.antt =====
-- synthesis/location.h, synthesis/constraint.h and synthesis/constraint.cpp. A z3 expression is the
-- function that gives its value in a model, and a model gives a number to each constant.
use mathlib.Core.List.{foldl}
use liss.Common.{
  ℕ, ◌≡◌, ◌≢◌, refl, Bool, true, false, ◌&&◌, ◌||◌, not, [], ◌∷◌, ltb, ◌==◌, arith, any, all, All,
}
use liss.Common.Int.{ℤ, pos_part}
use liss.Types.{Conj, Dnf, not_dnf}
use liss.Types.Negation.{Flips, eval_dnf, eval_cnf, eval-not_dnf}
use liss.Abstraction.Symbol.{Symbol}

-- `name` is the number of the z3 constant; `original_position` is -1 for the final location, for
-- which `symbol_valid` is false.
pub record TraceLocation : Type 0 where
  pub name : ℕ
  pub symbol : Symbol
  pub symbol_valid : Bool
  pub iteration : ℕ
  pub original_position : ℤ

abbrev pub thread_of : TraceLocation → ℕ
thread_of l = l.symbol.loc.thread

-- The source asserts that the position is not negative.
abbrev pub instruction_id : TraceLocation → ℕ
instruction_id l = pos_part l.original_position

pub record ConstraintAtom : Type 0 where
  pub before : TraceLocation
  pub after : TraceLocation
  pub from_wait_notify : Bool

-- A model, and the expressions over it.
abbrev pub Model : Type 0
Model = ℕ → ℕ

abbrev pub Expr : Type 0
Expr = Model → Bool

-- `operator<` of two locations
abbrev pub less : TraceLocation → TraceLocation → Expr
less a b v = ltb (v a.name) (v b.name)

-- `constraint_atom::operator z3::expr`
unfoldable pub atom_expr : ConstraintAtom → Expr
atom_expr c = less c.before c.after

-- `constraint_atom::operator==`
unfoldable pub atom_eq : ConstraintAtom → ConstraintAtom → Bool
atom_eq a b = a.before.name == b.before.name && a.after.name == b.after.name

-- `constraint_atom::operator!`
unfoldable pub not_atom : ConstraintAtom → ConstraintAtom
not_atom c = record c { before = c.after; after = c.before }

-- The two `make_constraint`.
unfoldable pub make_constraint_conj : Conj ConstraintAtom → Expr
make_constraint_conj c v = foldl (λ result l. result && atom_expr l v) true c

unfoldable pub make_constraint_dnf : Dnf ConstraintAtom → Expr
unfolding make_constraint_conj
make_constraint_dnf d v = foldl (λ result l. result || make_constraint_conj l v) false d

abbrev pub atom_holds : Model → ConstraintAtom → Bool
atom_holds v c = atom_expr c v

foldl-and :
    (v : Model) (b : Bool) (c : Conj ConstraintAtom)
    → foldl (λ r l. r && atom_expr l v) b c ≡ (b && all (atom_holds v) c)
foldl-and v true [] = refl
foldl-and v false [] = refl
foldl-and v b (a ∷ c) = ground (arith, foldl-and v (b && atom_expr a v) c)

foldl-or :
    (v : Model) (b : Bool) (d : Dnf ConstraintAtom)
    → foldl (λ r l. r || make_constraint_conj l v) b d ≡ (b || any (all (atom_holds v)) d)
unfolding make_constraint_conj
foldl-or v true [] = refl
foldl-or v false [] = refl
foldl-or v b (c ∷ d) =
    ground (arith, foldl-and v true c, foldl-or v (b || make_constraint_conj c v) d)

pub make_constraint_conj_lem :
    (c : Conj ConstraintAtom) (v : Model) → make_constraint_conj c v ≡ all (atom_holds v) c
unfolding make_constraint_conj
make_constraint_conj_lem c v = foldl-and v true c

-- The loop that builds the expression of a disjunctive normal form builds its truth value.
pub make_constraint_dnf_lem :
    (d : Dnf ConstraintAtom) (v : Model) → make_constraint_dnf d v ≡ eval_dnf (atom_holds v) d
unfolding make_constraint_dnf
make_constraint_dnf_lem d v = foldl-or v false d

-- The two ends of an atom have different places in the model.
abbrev pub Distinct : Model → ConstraintAtom → Type 0
Distinct v c = v c.before.name ≢ v c.after.name

not_atom-Flips : (v : Model) (c : ConstraintAtom) → Distinct v c → Flips not_atom (atom_holds v) c
unfolding not_atom atom_expr
not_atom-Flips v c h = ground arith

Distinct-Flips :
    (v : Model) (c : Conj ConstraintAtom)
    → All (Distinct v) c
    → All (Flips not_atom (atom_holds v)) c
Distinct-Flips v [] h = tt
Distinct-Flips v (a ∷ c) h = (not_atom-Flips v a h.0, Distinct-Flips v c h.1)

Distinct-Flips-All :
    (v : Model) (d : Dnf ConstraintAtom)
    → All (All (Distinct v)) d
    → All (All (Flips not_atom (atom_holds v))) d
Distinct-Flips-All v [] h = tt
Distinct-Flips-All v (c ∷ d) h = (Distinct-Flips v c h.0, Distinct-Flips-All v d h.1)

-- In a model that keeps the ends of every atom apart, the negated bad traces, a conjunctive normal
-- form, hold exactly when the expression of the bad traces does not.
pub eval-not_dnf_bad :
    (bad : Dnf ConstraintAtom) (v : Model)
    → All (All (Distinct v)) bad
    → eval_cnf (atom_holds v) (not_dnf not_atom bad) ≡ not (make_constraint_dnf bad v)
eval-not_dnf_bad bad v h =
    rw (make_constraint_dnf_lem bad v)
      (eval-not_dnf not_atom (atom_holds v) bad (Distinct-Flips-All v bad h))
