-- ===== src/Synthesis/Reorderings/Accesses.antt =====
-- What `find_order` says of conflicting accesses: atoms between locations of the trace that hold in
-- the model they are made from.
use liss.Common.{
  ℕ, ◌<◌, ◌≡◌, ◌⊎◌, inl, inr, refl, sym, subst, Bool, true, false, List, [], ◌∷◌, ◌++◌, arith, ◌==◌,
  if◌then◌else◌, if-eq_true, if-eq_false, all, Bool-cases, All, All-append, All-map, Memᴰ, &&-true,
}
use liss.Types.{Conj}
use liss.Abstraction.Symbol.{OpClass, read, write, op_eq}
use liss.Synthesis.Constraint.{
  TraceLocation, ConstraintAtom, Model, thread_of, atom_expr, atom_holds,
}
use liss.Synthesis.Reorderings.{
  is_other, find_other_traces, reads_and_writes, writes_only, order_of_access, order_of, orders,
}
use liss.Synthesis.Reorderings.Sorted.{IsSorted}

-- Both locations are accesses to one variable and one of them writes.
abbrev pub Conflict : TraceLocation → TraceLocation → Type 0
Conflict a b =
    (a.symbol_valid ≡ true)
    × (b.symbol_valid ≡ true)
    × ((b.symbol.variable == a.symbol.variable) ≡ true)
    × ((op_eq a.symbol.operation write ≡ true) × (reads_and_writes b.symbol.operation ≡ true)
        ⊎ (op_eq a.symbol.operation read ≡ true) × (writes_only b.symbol.operation ≡ true))

-- `v` keeps the order that `u` gives to the locations of one thread.
abbrev pub Agrees : Model → Model → List TraceLocation → Type 0
Agrees u v ls =
    (a b : TraceLocation)
    → Memᴰ a ls
    → Memᴰ b ls
    → a.symbol_valid ≡ true
    → b.symbol_valid ≡ true
    → thread_of a ≡ thread_of b
    → u a.name < u b.name
    → v a.name < v b.name

abbrev pub Holds : Model → Conj ConstraintAtom → Type 0
Holds v c = all (atom_holds v) c ≡ true

pub all-append-true :
    (p : ConstraintAtom → Bool) (c d : Conj ConstraintAtom)
    → all p (c ++ d) ≡ true
    → (all p c ≡ true) × (all p d ≡ true)
all-append-true p [] d h = (refl, h)
all-append-true p (x ∷ c) d h =
    let (a, b) = &&-true (p x) (all p (c ++ d)) h in
    let (e, f) = all-append-true p c d b in (rw a e, f)

-- A location of the trace, which the final one is not.
abbrev pub Located : List TraceLocation → TraceLocation → Type 0
Located full l = Memᴰ l full × (l.symbol_valid ≡ true)

-- An atom between two locations of the trace, of which the first comes first in the model.
abbrev pub IsOrdered : Model → List TraceLocation → ConstraintAtom → Type 0
IsOrdered u full c =
    Located full c.before × Located full c.after × (u c.before.name < u c.after.name)

-- A constraint whose atoms all say how the model orders two locations of the trace.
abbrev pub Grounded : Model → List TraceLocation → Conj ConstraintAtom → Type 0
Grounded u full c = All (IsOrdered u full) c

pub Grounded-Holds :
    (u : Model) (full : List TraceLocation) (c : Conj ConstraintAtom)
    → Grounded u full c
    → Holds u c
unfolding atom_expr
Grounded-Holds u full [] g = refl
Grounded-Holds u full (x ∷ c) g = ground (arith, g.0.2, Grounded-Holds u full c g.1)

pub Grounded-agree :
    (u v : Model) (full : List TraceLocation) (c : Conj ConstraintAtom)
    → ((a b : TraceLocation)
        → Memᴰ a full
        → Memᴰ b full
        → u a.name < u b.name
        → v a.name < v b.name)
    → Grounded u full c
    → Grounded v full c
Grounded-agree u v full c agree g =
    All-map (IsOrdered u full) (IsOrdered v full) c
      (λ x (p, q, lt). (p, q, agree x.before x.after p.0 q.0 lt)) g

-- `p` is before every location of `rest`.
find_other_traces-Grounded :
    (u : Model) (full : List TraceLocation) (p : TraceLocation) (operation : OpClass → Bool)
    (marked : List ℕ) (rest : List TraceLocation)
    → Located full p
    → All (λ m. Memᴰ m full) rest
    → All (λ m. u p.name < u m.name) rest
    → Grounded u full (find_other_traces p operation marked rest)
unfolding find_other_traces
find_other_traces-Grounded u full p operation marked [] at_p inside h = tt
find_other_traces-Grounded u full p operation marked (q ∷ rest) at_p inside h =
    elim (Bool-cases (is_other p operation marked q)) [
      | inl found ↦
          rw (found, find_other_traces)
            (
              (at_p, (inside.0, ground arith), h.0),
              find_other_traces-Grounded u full p operation (thread_of q ∷ marked) rest at_p
                  inside.1 h.1,
            )
      | inr skipped ↦
          rw (skipped, find_other_traces)
            (find_other_traces-Grounded u full p operation marked rest at_p inside.1 h.1)
    ]

order_of-Grounded :
    (u : Model) (full : List TraceLocation) (p : TraceLocation) (rest : List TraceLocation)
    → Memᴰ p full
    → All (λ m. Memᴰ m full) rest
    → All (λ m. u p.name < u m.name) rest
    → Grounded u full (order_of p rest)
unfolding order_of
order_of-Grounded u full p rest at_p inside h = elim (Bool-cases p.symbol_valid) [
  | inr final ↦
      subst (Grounded u full) (sym (if-eq_false p.symbol_valid (order_of_access p rest) [] final))
        tt
  | inl valid ↦
      subst (Grounded u full) (sym (if-eq_true p.symbol_valid (order_of_access p rest) [] valid)) (
        All-append (IsOrdered u full)
          (if op_eq p.symbol.operation write
            then find_other_traces p reads_and_writes [] rest
            else [])
          (if op_eq p.symbol.operation read then find_other_traces p writes_only [] rest else [])
          (part valid (op_eq p.symbol.operation write) reads_and_writes)
          (part valid (op_eq p.symbol.operation read) writes_only))
]
  where
    part :
        p.symbol_valid ≡ true
        → (b : Bool) (operation : OpClass → Bool)
        → Grounded u full (if b then find_other_traces p operation [] rest else [])
    part valid true operation =
        find_other_traces-Grounded u full p operation [] rest (at_p, valid) inside h
    part valid false operation = tt

pub orders-Grounded :
    (u : Model) (full ls : List TraceLocation)
    → All (λ m. Memᴰ m full) ls
    → IsSorted u ls
    → Grounded u full (orders ls)
unfolding orders
orders-Grounded u full [] inside s = tt
orders-Grounded u full (p ∷ rest) inside s =
    All-append (IsOrdered u full) (order_of p rest) (orders rest)
      (order_of-Grounded u full p rest inside.0 inside.1 s.0)
      (orders-Grounded u full rest inside.1 s.1)
