-- ===== src/Synthesis/Expansion/Kept.antt =====
-- Putting states back leaves the symbols of the trace in place, and puts back what an edge left out.
use liss.Common.{
  ℕ, zero, suc, ◌<◌, ◌≡◌, ◌∙◌, inl, inr, refl, sym, subst, false, List, [], ◌∷◌, ◌++◌, Option, none,
  some, arith, get_elem?, set, replicate, length, Option-cases, Bool-cases, Memᴰ, ◌==◌, ==_iff,
  if◌then◌else◌, lt_of_get_elem?, get_elem?-set_self, length-set, some-inj,
}
use liss.Common.Int.{pos, ℤ, ==ℤ_iff, ◌==ℤ◌}
use liss.Abstraction.Symbol.{Symbol, thread_id, state_id}
use liss.Cfg.Graph.{AbstractCfg, State, Edge, get_state}
use liss.Synthesis.Expansion.{
  successors_of, edge_between, skipped, inserted_before, blow_up_from, blow_up_trace,
}

-- The symbols of states without an action, one for each number.
pub data AreSkipped (g : AbstractCfg) : List ℕ → List Symbol → Type 0 where
  no_more : AreSkipped g [] []
  one_more :
      (n : ℕ) (ns : List ℕ) (st : State) (a : Symbol) (new : List Symbol)
      → get_state g (pos n) ≡ some st
      → st.non_action_symbol ≡ some a
      → AreSkipped g ns new
      → AreSkipped g (n ∷ ns) (a ∷ new)

-- The last symbol of a thread in what was read, the latest first.
abbrev pub last_of : ℕ → List Symbol → Option Symbol
last_of t [] = none
last_of t (s ∷ read) = let rest = last_of t read in if thread_id s == t then some s else rest

-- What was left out between the last symbol of a thread and the next one: the states that an edge of the
-- graph of the thread holds, which leads from the state of the one to that of the other.
pub data AreLeftOut (cfgs : List AbstractCfg) (sy : Symbol)
    : Option Symbol → List Symbol → Type 0 where
  at_start : AreLeftOut cfgs sy none []
  on_edge :
      (prev : Symbol) (g : AbstractCfg) (edges : List Edge) (e : Edge) (new : List Symbol)
      → get_elem? cfgs (thread_id sy) ≡ some g
      → successors_of g (state_id prev) ≡ some edges
      → Memᴰ e edges
      → pos e.to ≡ state_id sy
      → AreSkipped g e.in_betweeners new
      → AreLeftOut cfgs sy (some prev) new

-- The second trace has the symbols of the first in order, and directly before each one what was left out
-- since the last symbol of its thread.
pub data Expands (cfgs : List AbstractCfg) : List Symbol → List Symbol → List Symbol → Type 0 where
  done : (read : List Symbol) → Expands cfgs read [] []
  next :
      (read : List Symbol) (s : Symbol) (new l o : List Symbol)
      → AreLeftOut cfgs s (last_of (thread_id s) read) new
      → Expands cfgs (s ∷ read) l o
      → Expands cfgs read (s ∷ l) (new ++ s ∷ o)

skipped-AreSkipped :
    (g : AbstractCfg) (ns : List ℕ) (new : List Symbol)
    → skipped g ns ≡ some new
    → AreSkipped g ns new
unfolding skipped
skipped-AreSkipped g [] new e = subst (AreSkipped g []) (some-inj e) AreSkipped.no_more
skipped-AreSkipped g (n ∷ ns) new e = elim (Option-cases (get_state g (pos n))) [
  | inl q ↦ absurd (ground arith)
  | inr (st, q) ↦ elim (Option-cases st.non_action_symbol) [
    | inl q' ↦ absurd (ground arith)
    | inr (a, q') ↦ elim (Option-cases (skipped g ns)) [
      | inl q'' ↦ absurd (ground arith)
      | inr (rest, q'') ↦
          subst (AreSkipped g (n ∷ ns)) (some_inj (a ∷ rest) new (ground arith))
            (AreSkipped.one_more n ns st a rest q q' (skipped-AreSkipped g ns rest q''))
    ]
  ]
]
  where
    some_inj : (x y : List Symbol) → some x ≡ some y → x ≡ y
    some_inj x y h = cc

edge_between-mem :
    (state : ℤ) (edges : List Edge) (between : List ℕ)
    → edge_between state edges ≡ some between
    → (e : Edge) × Memᴰ e edges × (pos e.to ≡ state) × (e.in_betweeners ≡ between)
unfolding edge_between
edge_between-mem state [] between h = cc
edge_between-mem state (e ∷ edges) between h = elim (Bool-cases (pos e.to ==ℤ state)) [
  | inl here ↦ (
    e,
    Memᴰ.head refl,
    (==ℤ_iff (pos e.to) state).0 here,
    some-inj (rw (here, edge_between) at h),
  )
  | inr elsewhere ↦
      let (f, m, to_state, same) =
        edge_between-mem state edges between (rw (elsewhere, edge_between) at h) in
      (f, Memᴰ.tail m, to_state, same)
]

inserted_before-AreLeftOut :
    (cfgs : List AbstractCfg) (sy : Symbol) (prev : Option Symbol) (new : List Symbol)
    → inserted_before cfgs sy prev ≡ some new
    → AreLeftOut cfgs sy prev new
unfolding inserted_before
inserted_before-AreLeftOut cfgs sy none new e =
    subst (AreLeftOut cfgs sy none) (some-inj e) AreLeftOut.at_start
inserted_before-AreLeftOut cfgs sy (some prev) new e =
    elim (Option-cases (get_elem? cfgs (thread_id sy))) [
      | inl q ↦ absurd (ground arith)
      | inr (g, q) ↦ elim (Option-cases (successors_of g (state_id prev))) [
        | inl q' ↦ absurd (ground arith)
        | inr (edges, q') ↦ elim (Option-cases (edge_between (state_id sy) edges)) [
          | inl q'' ↦ absurd (ground arith)
          | inr (between, q'') ↦
              let (f, m, to_state, same) = edge_between-mem (state_id sy) edges between q'' in
              AreLeftOut.on_edge prev g edges f new q q' m to_state (
                subst (λ ns. AreSkipped g ns new) (sym same)
                  (skipped-AreSkipped g between new (ground arith)))
        ]
      ]
    ]

-- The vector holds the last symbol of each thread.
abbrev Remembers : List (Option Symbol) → List Symbol → Type 0
Remembers previous read =
    (t : ℕ) (p : Option Symbol) → get_elem? previous t ≡ some p → p ≡ last_of t read

get_elem?-set_other :
    (xs : List (Option Symbol)) (i j : ℕ) (v : Option Symbol)
    → (i == j) ≡ false
    → get_elem? (set xs i v) j ≡ get_elem? xs j
get_elem?-set_other [] i j v h = refl
get_elem?-set_other (x ∷ xs) zero zero v h = cc
get_elem?-set_other (x ∷ xs) zero (suc j) v h = refl
get_elem?-set_other (x ∷ xs) (suc i) zero v h = refl
get_elem?-set_other (x ∷ xs) (suc i) (suc j) v h = get_elem?-set_other xs i j v (ground arith)

Remembers-set :
    (previous : List (Option Symbol)) (read : List Symbol) (s : Symbol)
    → Remembers previous read
    → Remembers (set previous (thread_id s) (some s)) (s ∷ read)
Remembers-set previous read s h t p e = elim (Bool-cases (thread_id s == t)) [
  | inl same ↦
      let q : thread_id s ≡ t = (==_iff (thread_id s) t).0 same in
      let at_s : get_elem? (set previous (thread_id s) (some s)) (thread_id s) ≡ some p =
        subst (λ (i : ℕ). get_elem? (set previous (thread_id s) (some s)) i ≡ some p) (sym q) e in
      rw same (
        some-inj (
          sym at_s
          ∙ get_elem?-set_self previous (thread_id s) (some s)
              (inside (lt_of_get_elem? (set previous (thread_id s) (some s)) (thread_id s) at_s))))
  | inr other ↦
      rw other (h t p (sym (get_elem?-set_other previous (thread_id s) t (some s) other) ∙ e))
]
  where
    inside :
        thread_id s < length (set previous (thread_id s) (some s)) → thread_id s < length previous
    inside k = omega (arith, length-set previous (thread_id s) (some s))

replicate-none : (n t : ℕ) (p : Option Symbol) → get_elem? (replicate n none) t ≡ some p → p ≡ none
replicate-none zero t p e = cc
replicate-none (suc n) zero p e = sym (some-inj e)
replicate-none (suc n) (suc t) p e = replicate-none n t p e

blow_up_from-Expands :
    (cfgs : List AbstractCfg) (previous : List (Option Symbol)) (read trace out : List Symbol)
    → Remembers previous read
    → blow_up_from cfgs previous trace ≡ some out
    → Expands cfgs read trace out
unfolding blow_up_from
blow_up_from-Expands cfgs previous read [] out h e =
    subst (Expands cfgs read []) (some-inj e) (Expands.done read)
blow_up_from-Expands cfgs previous read (sy ∷ trace) out h e =
    elim (Option-cases (get_elem? previous (thread_id sy))) [
      | inl q ↦ absurd (ground arith)
      | inr (prev, q) ↦ elim (Option-cases (inserted_before cfgs sy prev)) [
        | inl q' ↦ absurd (ground arith)
        | inr (new, q') ↦
            elim (Option-cases (blow_up_from cfgs (set previous (thread_id sy) (some sy)) trace)) [
              | inl q'' ↦ absurd (ground arith)
              | inr (rest, q'') ↦
                  subst (Expands cfgs read (sy ∷ trace))
                    (some_inj (new ++ sy ∷ rest) out (ground arith))
                    (Expands.next read sy new trace rest
                      (subst (λ p. AreLeftOut cfgs sy p new) (h (thread_id sy) prev q)
                        (inserted_before-AreLeftOut cfgs sy prev new q'))
                      (blow_up_from-Expands cfgs (set previous (thread_id sy) (some sy)) (sy ∷ read)
                        trace rest (Remembers-set previous read sy h) q''))
            ]
      ]
    ]
  where
    some_inj : (x y : List Symbol) → some x ≡ some y → x ≡ y
    some_inj x y k = cc

-- A trace that is blown up holds the symbols of the trace in their order. Directly before a symbol that
-- is not the first of its thread it holds the symbols of the states that an edge left out, one for each
-- in its order: an edge in the graph of the thread, from the state of the last symbol of the thread to
-- that of the symbol. It holds nothing else.
pub blow_up_trace-Expands :
    (cfgs : List AbstractCfg) (trace out : List Symbol)
    → blow_up_trace cfgs trace ≡ some out
    → Expands cfgs [] trace out
unfolding blow_up_trace
blow_up_trace-Expands cfgs trace out e =
    blow_up_from-Expands cfgs (replicate (length cfgs) none) [] trace out
      (λ t p h. replicate-none (length cfgs) t p h) e
