-- ===== src/Examples/Solving.antt =====
-- A solver for the orders of three locations, which tries all of them.
use mathlib.Core.List.Memᴰ
use liss.Common.{
  ℕ, zero, suc, ◌+◌, ◌<◌, ◌≡◌, ◌⊎◌, inl, inr, refl, sym, ap, subst, Bool, true, false, not, List,
  [], ◌∷◌, ◌++◌, map, Option, none, some, arith, ltb, ◌==◌, if◌then◌else◌, all, All, Bool-cases,
  Memᴰ,
}
use liss.Synthesis.Constraint.{TraceLocation, Model, Expr}
use liss.Synthesis.Reorderings.Solving.{Solver, IsSolver, Satisfies, selected}
use liss.Synthesis.Reorderings.Theory.{IsTheory}

abbrev below : ℕ → ℕ → ℕ
below a b = if ltb a b then 1 else 0

abbrev rank : Model → ℕ → ℕ
rank v n = below (v 0) n + (below (v 1) n + below (v 2) n)

abbrev model_of : ℕ → ℕ → ℕ → Model
model_of a b c n = if n == 0 then a else if n == 1 then b else c

-- The order of the first three locations, with small numbers.
abbrev pub normal : Model → Model
normal v = model_of (rank v (v 0)) (rank v (v 1)) (rank v (v 2))

abbrev each : (ℕ → List Model) → List Model
each f = f 0 ++ (f 1 ++ f 2)

abbrev candidates : List Model
candidates = each (λ a. each (λ b. each (λ c. model_of a b c ∷ [])))

abbrev find : (Model → Bool) → List Model → Option Model
find p [] = none
find p (v ∷ vs) = if p v then some v else find p vs

abbrev pub three_solver : Solver
three_solver = record {
  check = λ es. find (λ v. all (λ (e : Expr). e v) es) candidates;
  unsat_core = λ es assumed. map (λ (e : Expr). true) assumed;
}

-- A formula that only reads the order of the first three locations.
abbrev pub Ordering : Expr → Type 0
Ordering e = (v : Model) → e (normal v) ≡ e v

each_mem : (f : ℕ → List Model) (n : ℕ) (v : Model) → n < 3 → Memᴰ v (f n) → Memᴰ v (each f)
each_mem f zero v h m = Memᴰ.append_left (f 1 ++ f 2) m
each_mem f (suc zero) v h m = Memᴰ.append_right (f 0) (Memᴰ.append_left (f 2) m)
each_mem f (suc (suc zero)) v h m = Memᴰ.append_right (f 0) (Memᴰ.append_right (f 1) m)
each_mem f (suc (suc (suc n))) v h m = absurd (omega arith)

rank_lt : (v : Model) (n : ℕ) → ((n ≡ v 0) ⊎ ((n ≡ v 1) ⊎ (n ≡ v 2))) → rank v n < 3
rank_lt v n h = ground arith

normal_candidate : (v : Model) → Memᴰ (normal v) candidates
normal_candidate v =
    each_mem (λ a. each (λ b. each (λ c. model_of a b c ∷ []))) (rank v (v 0)) (normal v)
      (rank_lt v (v 0) (inl refl))
      (each_mem (λ b. each (λ c. model_of (rank v (v 0)) b c ∷ [])) (rank v (v 1)) (normal v)
        (rank_lt v (v 1) (inr (inl refl)))
        (each_mem (λ c. model_of (rank v (v 0)) (rank v (v 1)) c ∷ []) (rank v (v 2)) (normal v)
          (rank_lt v (v 2) (inr (inr refl))) (Memᴰ.head refl)))

find-some : (p : Model → Bool) (vs : List Model) (v : Model) → find p vs ≡ some v → p v ≡ true
find-some p [] v e = cc
find-some p (w ∷ vs) v e = elim (Bool-cases (p w)) [
  | inl h ↦ subst (λ x. p x ≡ true) (same h) h
  | inr h ↦ find-some p vs v (rw h at e)
]
  where
    same : p w ≡ true → w ≡ v
    same h = some_inj (rw h at e)
      where
        some_inj : some w ≡ some v → w ≡ v
        some_inj q = cc

find-none :
    (p : Model → Bool) (vs : List Model) (v : Model) → find p vs ≡ none → Memᴰ v vs → p v ≡ false
find-none p [] v e m = elim m [ ]
find-none p (w ∷ vs) v e (Memᴰ.head q) = subst (λ x. p x ≡ false) (sym q) (ground arith)
find-none p (w ∷ vs) v e (Memᴰ.tail m) = find-none p vs v (ground arith) m

normal_satisfies :
    (v : Model) (es : List Expr) → All Ordering es → Satisfies v es → Satisfies (normal v) es
normal_satisfies v [] t h = refl
normal_satisfies v (e ∷ es) t h = ground (arith, t.0 v, normal_satisfies v es t.1)

all_selected : (es : List Expr) → selected (map (λ (e : Expr). true) es) es ≡ es
all_selected [] = refl
all_selected (e ∷ es) = ap (λ l. e ∷ l) (all_selected es)

pub three_solver-IsSolver : IsSolver Ordering three_solver
three_solver-IsSolver = record {
  sound = λ es v e. find-some (λ w. all (λ (x : Expr). x w) es) candidates v e;
  complete = λ es t e v h.
      clash es v
        (find-none (λ w. all (λ (x : Expr). x w) es) candidates (normal v) e (normal_candidate v))
        (normal_satisfies v es t h);
  core_unsat = λ es assumed t t' e.
      subst (λ l. three_solver.check (es ++ l) ≡ none) (sym (all_selected assumed)) e;
}
  where
    clash :
        (es : List Expr) (v : Model)
        → all (λ (x : Expr). x (normal v)) es ≡ false
        → Satisfies (normal v) es
        → ⊥
    clash es v h k = cc

pub normal_order :
    (v : Model) (i j : ℕ) → i < 3 → j < 3 → ltb (normal v i) (normal v j) ≡ ltb (v i) (v j)
normal_order v zero zero h k = ground arith
normal_order v zero (suc zero) h k = ground arith
normal_order v zero (suc (suc zero)) h k = ground arith
normal_order v (suc zero) zero h k = ground arith
normal_order v (suc zero) (suc zero) h k = ground arith
normal_order v (suc zero) (suc (suc zero)) h k = ground arith
normal_order v (suc (suc zero)) zero h k = ground arith
normal_order v (suc (suc zero)) (suc zero) h k = ground arith
normal_order v (suc (suc zero)) (suc (suc zero)) h k = ground arith
normal_order v (suc (suc (suc i))) j h k = absurd (omega arith)
normal_order v zero (suc (suc (suc j))) h k = absurd (omega arith)
normal_order v (suc zero) (suc (suc (suc j))) h k = absurd (omega arith)
normal_order v (suc (suc zero)) (suc (suc (suc j))) h k = absurd (omega arith)

pub Ordering-IsTheory :
    (trace : List TraceLocation)
    → ((a : TraceLocation) → Memᴰ a trace → a.name < 3)
    → IsTheory Ordering trace
Ordering-IsTheory trace few = record {
  less_lem = λ a b ma mb v. normal_order v a.name b.name (few a ma) (few b mb);
  always_lem = λ v. refl;
  never_lem = λ v. refl;
  negated_lem = λ e t v. ap not (t v);
  both_lem = λ e f t t' v. rw (t v, t' v) refl;
  either_lem = λ e f t t' v. rw (t v, t' v) refl;
}

pub normal_equal : (v : Model) (i j : ℕ) → i < 3 → j < 3 → (normal v i == normal v j) ≡ (v i == v j)
normal_equal v i j h k = ground (arith, normal_order v i j h k, normal_order v j i k h)
