-- ===== src/Synthesis/Elimination.antt =====
-- One round of the synthesis (actions/synthesis2.cpp, `synth_loop`): the constraints against the
-- bad traces and the locks for them.
use liss.Common.{ℕ, ◌≡◌, true, false, List, [], ◌∷◌, arith, All}
use liss.Types.{Conj, Dnf, Cnf, not_dnf, not_conj}
use liss.Types.Negation.{eval_cnf}
use liss.Synthesis.Constraint.{
  TraceLocation, ConstraintAtom, Model, Distinct, not_atom, make_constraint_dnf, eval-not_dnf_bad,
}
use liss.Synthesis.Synchronisation.{Lock, generate_sync}
use liss.Synthesis.Synchronisation.Sound.{KeepsOrder, InTrace, obeys, generate_sync_sound}

-- `cnf1 = !bad_cond` and the call of `generate_sync`.
unfoldable pub locks_for : Dnf ConstraintAtom → ℕ → Cnf Lock
locks_for bad_cond counter = (generate_sync (not_dnf not_atom bad_cond) counter).0

InTrace-not_conj :
    (trace : List TraceLocation) (c : Conj ConstraintAtom)
    → All (InTrace trace) c
    → All (InTrace trace) (not_conj not_atom c)
unfolding not_conj not_atom
InTrace-not_conj trace [] h = tt
InTrace-not_conj trace (a ∷ c) h = ((h.0.1, h.0.0), InTrace-not_conj trace c h.1)

InTrace-not_dnf :
    (trace : List TraceLocation) (d : Dnf ConstraintAtom)
    → All (All (InTrace trace)) d
    → All (All (InTrace trace)) (not_dnf not_atom d)
unfolding not_dnf
InTrace-not_dnf trace [] h = tt
InTrace-not_dnf trace (c ∷ d) h = (InTrace-not_conj trace c h.0, InTrace-not_dnf trace d h.1)

-- The locks of a round rule out the bad traces: a model that keeps the order of each thread, keeps
-- the ends of every constraint apart, and obeys one lock of each disjunction, satisfies none of the
-- conjunctions that describe the bad traces.
pub locks_for_eliminate :
    (v : Model) (trace : List TraceLocation) (bad : Dnf ConstraintAtom) (counter : ℕ)
    → KeepsOrder v trace
    → All (All (InTrace trace)) bad
    → All (All (Distinct v)) bad
    → eval_cnf (obeys v) (locks_for bad counter) ≡ true
    → make_constraint_dnf bad v ≡ false
unfolding locks_for
locks_for_eliminate v trace bad counter keeps inside apart obeyed = ground (
  arith,
  eval-not_dnf_bad bad v apart,
  generate_sync_sound v trace (not_dnf not_atom bad) counter keeps
      (InTrace-not_dnf trace bad inside) obeyed,
)
