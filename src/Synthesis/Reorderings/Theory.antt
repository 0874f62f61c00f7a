-- ===== src/Synthesis/Reorderings/Theory.antt =====
-- The theory that a solver has to decide: the formulas that are built from the order of the locations
-- of a trace.
use mathlib.Core.Path.{fun_ext}
use liss.Common.{sym, subst, List, [], ◌∷◌, all, any, All, Memᴰ}
use liss.Types.{Conj, Dnf}
use liss.Synthesis.Constraint.{
  TraceLocation, ConstraintAtom, Expr, less, atom_expr, atom_holds, make_constraint_conj,
  make_constraint_conj_lem, make_constraint_dnf, make_constraint_dnf_lem,
}
use liss.Synthesis.Reorderings.{holds_always}
use liss.Synthesis.Reorderings.Prepare.{both, either, never}
use liss.Synthesis.Reorderings.Process.{negated}

-- A theory has the order of any two locations of the trace and is closed under the connectives.
pub record IsTheory {κ} (T : Expr → Type κ) (trace : List TraceLocation) : Type κ where
  pub less_lem : (a b : TraceLocation) → Memᴰ a trace → Memᴰ b trace → T (less a b)
  pub always_lem : T holds_always
  pub never_lem : T never
  pub negated_lem : (e : Expr) → T e → T (negated e)
  pub both_lem : (e f : Expr) → T e → T f → T (both e f)
  pub either_lem : (e f : Expr) → T e → T f → T (either e f)

-- Both ends of the atom are locations of the trace.
abbrev pub Within : List TraceLocation → ConstraintAtom → Type 0
Within trace a = Memᴰ a.before trace × Memᴰ a.after trace

module _ {κ} (T : Expr → Type κ) (trace : List TraceLocation) (theory : IsTheory T trace) where
  pub atom_expr_decided : (a : ConstraintAtom) → Within trace a → T (atom_expr a)
  unfolding atom_expr
  atom_expr_decided a h = theory.less_lem a.before a.after h.0 h.1

  all_decided : (c : Conj ConstraintAtom) → All (Within trace) c → T (λ v. all (atom_holds v) c)
  all_decided [] h = theory.always_lem
  all_decided (a ∷ c) h =
      theory.both_lem (atom_expr a) (λ v. all (atom_holds v) c) (atom_expr_decided a h.0)
        (all_decided c h.1)

  pub make_constraint_conj_decided :
      (c : Conj ConstraintAtom) → All (Within trace) c → T (make_constraint_conj c)
  make_constraint_conj_decided c h =
      subst T (sym (fun_ext (make_constraint_conj_lem c))) (all_decided c h)

  any_decided :
      (d : Dnf ConstraintAtom) → All (All (Within trace)) d → T (λ v. any (all (atom_holds v)) d)
  any_decided [] h = theory.never_lem
  any_decided (c ∷ d) h =
      theory.either_lem (λ v. all (atom_holds v) c) (λ v. any (all (atom_holds v)) d)
        (all_decided c h.0) (any_decided d h.1)

  pub make_constraint_dnf_decided :
      (d : Dnf ConstraintAtom) → All (All (Within trace)) d → T (make_constraint_dnf d)
  make_constraint_dnf_decided d h =
      subst T (sym (fun_ext (make_constraint_dnf_lem d))) (any_decided d h)
