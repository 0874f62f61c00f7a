-- ===== src/Synthesis/Reorderings/Fixed.antt =====
-- What `find_order` says in another model that keeps the order of the threads: it fixes the order of
-- all conflicting accesses.
use mathlib.Core.List.Memᴰ
use liss.Common.{
  ℕ, ◌<◌, ◌≡◌, ◌⊎◌, inl, inr, refl, sym, ap, subst, Bool, true, List, [], ◌∷◌, arith, ◌==◌,
  if◌then◌else◌, if-eq_true, all, Bool-cases, All-mem, Memᴰ, &&-true,
}
use liss.Abstraction.Symbol.{OpClass, read, write, op_eq}
use liss.Synthesis.Constraint.{TraceLocation, Model, thread_of, atom_expr, atom_holds}
use liss.Synthesis.Reorderings.{
  atom, is_other, find_other_traces, reads_and_writes, writes_only, order_of_access, order_of,
  orders,
}
use liss.Synthesis.Reorderings.Sorted.{IsSorted}
use liss.Synthesis.Reorderings.Accesses.{Conflict, Agrees, Holds, all-append-true}

-- The first location of a thread that is found fixes the later ones of the thread.
find_other_traces_fix :
    (u v : Model) (p q : TraceLocation) (operation : OpClass → Bool) (marked : List ℕ)
    (full rest : List TraceLocation)
    → Agrees u v full
    → ((m : TraceLocation) → Memᴰ m rest → Memᴰ m full)
    → IsSorted u rest
    → Memᴰ q rest
    → is_other p operation marked q ≡ true
    → Holds v (find_other_traces p operation marked rest)
    → v p.name < v q.name
unfolding find_other_traces atom_expr
find_other_traces_fix u v p q operation marked full [] agree sub s m o h = elim m [ ]
find_other_traces_fix u v p q operation marked full (r ∷ rest) agree sub s (Memᴰ.head e) o h =
    subst (λ (x : TraceLocation). v p.name < v x.name) (sym e)
      (first (subst (λ x. is_other p operation marked x ≡ true) e o))
  where
    first : is_other p operation marked r ≡ true → v p.name < v r.name
    first o' = ground arith
find_other_traces_fix u v p q operation marked full (r ∷ rest) agree sub s (Memᴰ.tail m) o h =
    elim (Bool-cases (is_other p operation marked r)) [
      | inr skipped ↦
          find_other_traces_fix u v p q operation marked full rest agree
            (λ x n. sub x (Memᴰ.tail n)) s.1 m o (rw (skipped, find_other_traces) at h)
      | inl found ↦
          let (now, later) =
            &&-true (atom_holds v (atom p r))
              (all (atom_holds v) (find_other_traces p operation (thread_of r ∷ marked) rest))
              (rw (found, find_other_traces) at h) in
          elim (Bool-cases (thread_of r == thread_of q)) [
            | inl same ↦ after now (
                agree r q (sub r (Memᴰ.head refl)) (sub q (Memᴰ.tail m)) (ground arith)
                  (ground arith) (ground arith) (All-mem (λ x. u r.name < u x.name) rest q s.0 m))
            | inr other ↦
                find_other_traces_fix u v p q operation (thread_of r ∷ marked) full rest agree
                  (λ x n. sub x (Memᴰ.tail n)) s.1 m (ground arith) later
          ]
    ]
  where
    after : atom_holds v (atom p r) ≡ true → v r.name < v q.name → v p.name < v q.name
    after now lt = ground arith

order_of_fix :
    (u v : Model) (p q : TraceLocation) (full rest : List TraceLocation)
    → Agrees u v full
    → ((m : TraceLocation) → Memᴰ m rest → Memᴰ m full)
    → IsSorted u rest
    → Memᴰ q rest
    → Conflict p q
    → Holds v (order_of p rest)
    → v p.name < v q.name
unfolding order_of
order_of_fix u v p q full rest agree sub s m (valid, valid', same, how) h = elim how [
  | inl (w, o) ↦
      find_other_traces_fix u v p q reads_and_writes [] full rest agree sub s m (ground arith) (
        subst (Holds v)
          (if-eq_true (op_eq p.symbol.operation write)
            (find_other_traces p reads_and_writes [] rest) [] w)
          parts.0)
  | inr (r, o) ↦
      find_other_traces_fix u v p q writes_only [] full rest agree sub s m (ground arith) (
        subst (Holds v)
          (if-eq_true (op_eq p.symbol.operation read) (find_other_traces p writes_only [] rest) []
            r)
          parts.1)
]
  where
    parts :
        Holds v (
          if op_eq p.symbol.operation write
          then find_other_traces p reads_and_writes [] rest
          else [])
        × Holds v
            (if op_eq p.symbol.operation read then find_other_traces p writes_only [] rest else [])
    parts =
        all-append-true (atom_holds v)
          (if op_eq p.symbol.operation write
            then find_other_traces p reads_and_writes [] rest
            else [])
          (if op_eq p.symbol.operation read then find_other_traces p writes_only [] rest else [])
          (subst (Holds v) (if-eq_true p.symbol_valid (order_of_access p rest) [] valid) h)

pub orders_fix :
    (u v : Model) (a b : TraceLocation) (full ls : List TraceLocation)
    → Agrees u v full
    → ((m : TraceLocation) → Memᴰ m ls → Memᴰ m full)
    → IsSorted u ls
    → Memᴰ a ls
    → Memᴰ b ls
    → Conflict a b
    → u a.name < u b.name
    → Holds v (orders ls)
    → v a.name < v b.name
unfolding orders
orders_fix u v a b full [] agree sub s ma mb c lt h = elim ma [ ]
orders_fix u v a b full (p ∷ rest) agree sub s ma mb c lt h =
    let (now, later) = all-append-true (atom_holds v) (order_of p rest) (orders rest) h in
    elim (Memᴰ.cases_cons mb) [
      | inl e ↦ absurd (not_first e (Memᴰ.cases_cons ma))
      | inr mb' ↦ elim (Memᴰ.cases_cons ma) [
        | inl e ↦
            subst (λ (x : TraceLocation). v x.name < v b.name) (sym e)
              (order_of_fix u v p b full rest agree (λ x n. sub x (Memᴰ.tail n)) s.1 mb'
                (subst (λ x. Conflict x b) e c) now)
        | inr ma' ↦
            orders_fix u v a b full rest agree (λ x n. sub x (Memᴰ.tail n)) s.1 ma' mb' c lt later
      ]
    ]
  where
    not_first : b ≡ p → (a ≡ p) ⊎ Memᴰ a rest → ⊥
    not_first e (inl e') =
        omega (
          arith,
          ap (λ (m : TraceLocation). u m.name) e,
          ap (λ (m : TraceLocation). u m.name) e',
          lt,
        )
    not_first e (inr m) = omega (
      arith,
      ap (λ (m : TraceLocation). u m.name) e,
      All-mem (λ x. u p.name < u x.name) rest a s.0 m,
      lt,
    )
