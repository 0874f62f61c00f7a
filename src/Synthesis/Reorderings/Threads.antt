-- ===== src/Synthesis/Reorderings/Threads.antt =====
-- `split_trace`: the locations of the trace and of its threads.
use mathlib.Core.List.Memᴰ
use liss.Common.{
  ℕ, zero, suc, ◌+◌, ◌<◌, ◌≡◌, ◌⊎◌, inl, inr, refl, sym, ap, ◌∙◌, subst, true, List, [], ◌∷◌, ◌++◌,
  map, some, arith, ◌==◌, if◌then◌else◌, length, get_elem?, set, replicate, lt_of_get_elem?,
  append-nil, append_assoc, All, All-append, All-mem, All-map, Bool-cases, Option-cases, Memᴰ,
}
use liss.Abstraction.Symbol.{Symbol, thread_id}
use liss.Synthesis.Constraint.{TraceLocation, Model, thread_of, instruction_id}
use liss.Synthesis.Reorderings.{
  SeparatedTrace, new_separated_trace, push_at, count_symbol, max, new_location, split_from,
  split_trace,
}
use liss.Synthesis.Reorderings.Sorted.{IsSorted}

pub get_elem?-set {ℓ} :
    {A : Type ℓ} (xs : List A) (i j : ℕ) (x : A)
    → i < length xs
    → get_elem? (set xs i x) j ≡ (if i == j then some x else get_elem? xs j)
get_elem?-set [] i j x h = elim h [ ]
get_elem?-set (y ∷ xs) zero zero x h = ground arith
get_elem?-set (y ∷ xs) zero (suc j) x h = ground arith
get_elem?-set (y ∷ xs) (suc i) zero x h = ground arith
get_elem?-set (y ∷ xs) (suc i) (suc j) x h = ground (arith, get_elem?-set xs i j x)

-- The position of a location, which is its name, as a model.
abbrev pub position : Model
position n = n

pub IsSorted-last :
    (v : Model) (ls : List TraceLocation) (a : TraceLocation)
    → IsSorted v ls
    → All (λ m. v m.name < v a.name) ls
    → IsSorted v (ls ++ a ∷ [])
IsSorted-last v [] a s h = (tt, tt)
IsSorted-last v (l ∷ ls) a s h =
    (All-append (λ m. v l.name < v m.name) ls (a ∷ []) s.0 (h.0, tt), IsSorted-last v ls a s.1 h.1)

-- A location with the `n`-th name below `counter` that stands at its position.
abbrev pub IsNamed : ℕ → TraceLocation → Type 0
IsNamed counter l = (l.symbol_valid ≡ true) × (instruction_id l ≡ l.name) × (l.name < counter)

-- The locations of thread `t`, in their order, and all of the trace.
abbrev pub IsThread : SeparatedTrace → ℕ → List TraceLocation → Type 0
IsThread s t th = All (λ l. (thread_of l ≡ t) × Memᴰ l s.trace) th × IsSorted position th

-- The trace by its threads: every location stands in the list of its thread.
pub record IsSplit (counter : ℕ) (s : SeparatedTrace) : Type 0 where
  pub named : All (IsNamed counter) s.trace
  pub threads :
      (t : ℕ) (th : List TraceLocation) → get_elem? s.threaded_trace t ≡ some th → IsThread s t th
  pub placed :
      (l : TraceLocation)
      → Memᴰ l s.trace
      → (th : List TraceLocation) × (get_elem? s.threaded_trace (thread_of l) ≡ some th) × Memᴰ l th

-- The state with one more location.
abbrev with_location : SeparatedTrace → TraceLocation → List TraceLocation → SeparatedTrace
with_location s loc th = record s {
  trace = s.trace ++ loc ∷ [];
  threaded_trace = set s.threaded_trace (thread_of loc) (th ++ loc ∷ []);
}

module _ (counter : ℕ) (s : SeparatedTrace) (split : IsSplit counter s) (loc : TraceLocation)
    (valid : loc.symbol_valid ≡ true) (at_counter : loc.name ≡ counter)
    (numbered : instruction_id loc ≡ loc.name) (th : List TraceLocation)
    (own : get_elem? s.threaded_trace (thread_of loc) ≡ some th) where
  IsThread-wider :
      (t : ℕ) (ls : List TraceLocation) → IsThread s t ls → IsThread (with_location s loc th) t ls
  IsThread-wider t ls (h, sorted) = (
    All-map (λ l. (thread_of l ≡ t) × Memᴰ l s.trace)
        (λ l. (thread_of l ≡ t) × Memᴰ l (s.trace ++ loc ∷ [])) ls
        (λ l (e, m). (e, Memᴰ.append_left (loc ∷ []) m)) h,
    sorted,
  )

  own-IsThread : IsThread (with_location s loc th) (thread_of loc) (th ++ loc ∷ [])
  own-IsThread =
      let (h, sorted) = split.threads (thread_of loc) th own in
      (
        All-append (λ l. (thread_of l ≡ thread_of loc) × Memᴰ l (s.trace ++ loc ∷ [])) th (loc ∷ [])
            (IsThread-wider (thread_of loc) th (h, sorted)).0
            ((refl, Memᴰ.append_right s.trace (Memᴰ.head refl)), tt),
        IsSorted-last position th loc sorted (
            All-map (λ l. (thread_of l ≡ thread_of loc) × Memᴰ l s.trace) (λ l. l.name < loc.name)
              th (λ l (e, m). before l (All-mem (IsNamed counter) s.trace l split.named m)) h),
      )
    where
      before : (l : TraceLocation) → IsNamed counter l → l.name < loc.name
      before l h = omega (arith, h.2, at_counter)

  inside : thread_of loc < length s.threaded_trace
  inside = lt_of_get_elem? s.threaded_trace (thread_of loc) own

  with_location-IsSplit : IsSplit (suc counter) (with_location s loc th)
  with_location-IsSplit = record {
    named =
        All-append (IsNamed (suc counter)) s.trace (loc ∷ [])
          (All-map (IsNamed counter) (IsNamed (suc counter)) s.trace
            (λ l (e, n, lt). (e, n, omega arith)) split.named)
          ((valid, numbered, omega arith), tt);
    threads = λ t ls e.
        by_thread t ls (get_elem?-set s.threaded_trace (thread_of loc) t (th ++ loc ∷ []) inside) e;
    placed = λ l m. by_location l (Memᴰ.append_cases s.trace m);
  }
    where
      same_some : {x y : List TraceLocation} → some x ≡ some y → x ≡ y
      same_some e = cc

      by_thread :
          (t : ℕ) (ls : List TraceLocation)
          → get_elem? (set s.threaded_trace (thread_of loc) (th ++ loc ∷ [])) t
            ≡ (if thread_of loc == t then some (th ++ loc ∷ []) else get_elem? s.threaded_trace t)
          → get_elem? (set s.threaded_trace (thread_of loc) (th ++ loc ∷ [])) t ≡ some ls
          → IsThread (with_location s loc th) t ls
      by_thread t ls q e = elim (Bool-cases (thread_of loc == t)) [
        | inl same ↦
            subst (λ k. IsThread (with_location s loc th) k ls) (at same)
              (subst (IsThread (with_location s loc th) (thread_of loc)) (same_some (ground arith))
                own-IsThread)
        | inr other ↦ IsThread-wider t ls (split.threads t ls (ground arith))
      ]
        where
          at : (thread_of loc == t) ≡ true → thread_of loc ≡ t
          at k = ground arith

      by_location :
          (l : TraceLocation)
          → Memᴰ l s.trace ⊎ Memᴰ l (loc ∷ [])
          → (ls : List TraceLocation) × (get_elem?
                (set s.threaded_trace (thread_of loc) (th ++ loc ∷ []))
                (thread_of l)
              ≡ some ls)
            × Memᴰ l ls
      by_location l (inr m) =
          let e = Memᴰ.eq_of_singleton m in
          (
            th ++ loc ∷ [],
            ground (
              arith,
              ap thread_of e,
              get_elem?-set s.threaded_trace (thread_of loc) (thread_of l) (th ++ loc ∷ []) inside,
            ),
            Memᴰ.append_right th (Memᴰ.head e),
          )
      by_location l (inl m) =
          let (ls, e, n) = split.placed l m in
          elim (Bool-cases (thread_of loc == thread_of l)) [
            | inl same ↦ (
              th ++ loc ∷ [],
              ground (
                arith,
                get_elem?-set s.threaded_trace (thread_of loc) (thread_of l) (th ++ loc ∷ [])
                    inside,
              ),
              Memᴰ.append_left (loc ∷ []) (subst (Memᴰ l) (same_list ls e same) n),
            )
            | inr other ↦ (
              ls,
              ground (
                arith,
                get_elem?-set s.threaded_trace (thread_of loc) (thread_of l) (th ++ loc ∷ [])
                    inside,
              ),
              n,
            )
          ]
        where
          same_list :
              (ls : List TraceLocation)
              → get_elem? s.threaded_trace (thread_of l) ≡ some ls
              → (thread_of loc == thread_of l) ≡ true
              → ls ≡ th
          same_list ls e same =
              same_some (sym e ∙ ap (get_elem? s.threaded_trace) (number same) ∙ own)
            where
              number : (thread_of loc == thread_of l) ≡ true → thread_of l ≡ thread_of loc
              number k = ground arith

-- What the loop changes of the trace and what it leaves.
abbrev pub Extends : SeparatedTrace → SeparatedTrace → Type 0
Extends s out = out ≡ record s { trace = out.trace; threaded_trace = out.threaded_trace }

symbols : List TraceLocation → List Symbol
symbols ls = map (λ (l : TraceLocation). l.symbol) ls

symbols-append : (xs ys : List TraceLocation) → symbols (xs ++ ys) ≡ symbols xs ++ symbols ys
unfolding symbols
symbols-append [] ys = refl
symbols-append (x ∷ xs) ys = ap (λ l. x.symbol ∷ l) (symbols-append xs ys)

pub push_at-some {ℓ} :
    {A : Type ℓ} (i : ℕ) (a : A) (ls ls' : List (List A))
    → push_at i a ls ≡ some ls'
    → (l : List A) × (get_elem? ls i ≡ some l) × (ls' ≡ set ls i (l ++ a ∷ []))
unfolding push_at
push_at-some i a ls ls' e = elim (Option-cases (get_elem? ls i)) [
  | inl q ↦ absurd (ground arith)
  | inr (l, q) ↦ (l, q, ground arith)
]

split_from-IsSplit :
    (trace : List Symbol) (counter : ℕ) (counts : List (Symbol × ℕ)) (iter : List ℕ)
    (s out : SeparatedTrace)
    → IsSplit counter s
    → split_from trace counter counts iter s ≡ some out
    → IsSplit (counter + length trace) out
      × Extends s out
      × (symbols out.trace ≡ symbols s.trace ++ trace)
unfolding split_from symbols
split_from-IsSplit [] counter counts iter s out split e = (
  subst (IsSplit (counter + 0)) (same e) (subst (λ n. IsSplit n s) (omega arith) split),
  subst (Extends s) (same e) refl,
  ap (λ (o : SeparatedTrace). symbols o.trace) (sym (same e)) ∙ sym (append-nil (symbols s.trace)),
)
  where
    same : some s ≡ some out → s ≡ out
    same p = cc
split_from-IsSplit (sy ∷ trace) counter counts iter s out split e =
    elim (Option-cases (get_elem? iter (thread_id sy))) [
      | inl q ↦ absurd (ground arith)
      | inr (old, q) ↦
          let iteration = max old (count_symbol sy counts).1 in
          let loc = new_location sy counter iteration in
          elim (Option-cases (push_at (thread_id sy) loc s.threaded_trace)) [
            | inl q' ↦ absurd (ground arith)
            | inr (threaded, q') ↦
                let (th, own, changed) =
                  push_at-some (thread_id sy) loc s.threaded_trace threaded q' in
                let next : SeparatedTrace = record s {
                  trace = s.trace ++ loc ∷ [];
                  threaded_trace = threaded;
                } in
                let (split', extends, all_symbols) =
                  split_from-IsSplit trace (suc counter) (count_symbol sy counts).0
                    (set iter (thread_id sy) iteration) next out
                    (subst
                      (λ t.
                        IsSplit (suc counter)
                          (record s { trace = s.trace ++ loc ∷ []; threaded_trace = t }))
                      (sym changed)
                      (with_location-IsSplit counter s split loc refl refl refl th own))
                    (ground arith) in
                (
                  subst (λ n. IsSplit n out) (omega arith) split',
                  extends,
                  all_symbols
                      ∙ ap (λ l. l ++ trace) (symbols-append s.trace (loc ∷ []))
                      ∙ append_assoc (symbols s.trace) (sy ∷ []) trace,
                )
          ]
    ]

pub replicate_nil :
    (n t : ℕ) (th : List TraceLocation) → get_elem? (replicate n []) t ≡ some th → th ≡ []
replicate_nil zero t th e = cc
replicate_nil (suc n) zero th e = cc
replicate_nil (suc n) (suc t) th e = replicate_nil n t th e

-- A trace that is split holds its symbols, in order; every location stands in the list of its
-- thread, where the locations are in the order of the trace; nothing else is changed.
pub split_trace-IsSplit :
    (variables conditionals threads : ℕ) (trace : List Symbol) (s : SeparatedTrace)
    → split_trace threads trace (new_separated_trace variables conditionals threads) ≡ some s
    → IsSplit (length trace) s
      × Extends (new_separated_trace variables conditionals threads) s
      × (map (λ (l : TraceLocation). l.symbol) s.trace ≡ trace)
unfolding split_trace symbols
split_trace-IsSplit variables conditionals threads trace s e =
    let (split, extends, all_symbols) =
      split_from-IsSplit trace 0 [] (replicate threads 0)
        (new_separated_trace variables conditionals threads) s start e in
    (
      subst (λ n. IsSplit n s) (omega arith) split,
      extends,
      unfold new_separated_trace in all_symbols,
    )
  where
    start : IsSplit 0 (new_separated_trace variables conditionals threads)
    start =
        unfold new_separated_trace in
        record {
          named = tt;
          threads = λ t th q.
              subst (IsThread (new_separated_trace variables conditionals threads) t)
                (sym (replicate_nil threads t th q)) (tt, tt);
          placed = λ l m. absurd (Memᴰ.not-nil m);
        }
