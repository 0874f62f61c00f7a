-- ===== src/Abstraction/Concurrent/Explore/Offered.antt =====
-- What `next_symbols` offers, and that the scheduler lets the threads of it run.
use mathlib.Core.List.Memᴰ
use liss.Common.{
  ℕ, zero, suc, ◌+◌, ◌≤◌, ◌<◌, ◌≡◌, ◌↔◌, ==_refl, inl, inr, refl, sym, subst, true, false, List, [],
  ◌∷◌, ◌++◌, Option, none, some, arith, ◌==◌, length, get_elem?, lt_of_get_elem?, Bool-cases,
  Option-cases, Memᴰ,
}
use liss.Common.Int.{ℤ, ◌==ℤ◌}
use liss.Abstraction.Symbol.{Symbol}
use liss.Abstraction.State.{ConcurrentState, no_state}
use liss.Abstraction.Concurrent.Defs.{ThreadAutomaton, ConcurrentAutomaton}
use liss.Abstraction.Concurrent.Step.{may_run}
use liss.Abstraction.Concurrent.Explore.{passes, push_passing, next_single, next_from, next_symbols}

-- Thread `t` is at a state, offers the symbol there, and the filter lets it pass.
abbrev pub IsOffered : ConcurrentAutomaton → ConcurrentState → ℕ → Symbol → Type 0
IsOffered a s t sigma =
    (th : ThreadAutomaton) × (z : ℤ) × (get_elem? a.threads t ≡ some th)
    × (get_elem? s.threads t ≡ some z)
    × ((z ==ℤ no_state) ≡ false)
    × Memᴰ sigma (th.next_symbols z)
    × (passes a sigma ≡ true)

some_inj {ℓ} : {A : Type ℓ} (x y : A) → some x ≡ some y → x ≡ y
some_inj x y e = cc

push_passing_mem :
    (a : ConcurrentAutomaton) (l : List Symbol) (sigma : Symbol)
    → Memᴰ sigma (push_passing a l)
    → Memᴰ sigma l × (passes a sigma ≡ true)
unfolding push_passing
push_passing_mem a [] sigma m = elim m [ ]
push_passing_mem a (s ∷ l) sigma m = elim (Bool-cases (passes a s)) [
  | inl e ↦ elim (Memᴰ.cases_cons (rw e at m)) [
    | inl q ↦ (Memᴰ.head q, subst (λ x. passes a x ≡ true) (sym q) e)
    | inr n ↦ let (k, p) = push_passing_mem a l sigma n in (Memᴰ.tail k, p)
  ]
  | inr e ↦ let (n, q) = push_passing_mem a l sigma (rw e at m) in (Memᴰ.tail n, q)
]

push_passing_complete :
    (a : ConcurrentAutomaton) (l : List Symbol) (sigma : Symbol)
    → Memᴰ sigma l
    → passes a sigma ≡ true
    → Memᴰ sigma (push_passing a l)
unfolding push_passing
push_passing_complete a [] sigma m p = elim m [ ]
push_passing_complete a (s ∷ l) sigma (Memᴰ.head q) p =
    rw (subst (λ x. passes a x ≡ true) q p) (Memᴰ.head q)
push_passing_complete a (s ∷ l) sigma (Memᴰ.tail m) p = elim (Bool-cases (passes a s)) [
  | inl e ↦ rw e (Memᴰ.tail (push_passing_complete a l sigma m p))
  | inr e ↦ rw e (push_passing_complete a l sigma m p)
]

next_single_sound :
    (a : ConcurrentAutomaton) (s : ConcurrentState) (t : ℕ) (out : List Symbol) (sigma : Symbol)
    → next_single a s t ≡ some out
    → Memᴰ sigma out
    → IsOffered a s t sigma
unfolding next_single
next_single_sound a s t out sigma e m = elim (Option-cases (get_elem? s.threads t)) [
  | inl q ↦ absurd (ground arith)
  | inr (z, q) ↦ elim (Bool-cases (z ==ℤ no_state)) [
    | inl gone ↦ absurd (
        Memᴰ.not-nil
          (subst (Memᴰ sigma) (sym (some_inj [] out (rw (q, next_single, gone) at e))) m))
    | inr there ↦ elim (Option-cases (get_elem? a.threads t)) [
      | inl q' ↦ absurd (ground arith)
      | inr (th, q') ↦
          let (n, p) = push_passing_mem a (th.next_symbols z) sigma (
            subst (Memᴰ sigma)
              (sym (some_inj (push_passing a (th.next_symbols z)) out (ground arith))) m) in
          (th, z, q', q, there, n, p)
    ]
  ]
]

next_single_complete :
    (a : ConcurrentAutomaton) (s : ConcurrentState) (t : ℕ) (out : List Symbol) (sigma : Symbol)
    → next_single a s t ≡ some out
    → IsOffered a s t sigma
    → Memᴰ sigma out
unfolding next_single
next_single_complete a s t out sigma e (th, z, q', q, there, n, p) =
    subst (Memᴰ sigma) (some_inj (push_passing a (th.next_symbols z)) out (ground arith))
      (push_passing_complete a (th.next_symbols z) sigma n p)

next_from_sound :
    (a : ConcurrentAutomaton) (s : ConcurrentState) (i n : ℕ) (out : List Symbol) (sigma : Symbol)
    → next_from a s i n ≡ some out
    → Memᴰ sigma out
    → (t : ℕ) × (i ≤ t) × (t < i + n) × IsOffered a s t sigma
unfolding next_from
next_from_sound a s i zero out sigma e m =
    absurd (Memᴰ.not-nil (subst (Memᴰ sigma) (sym (some_inj [] out e)) m))
next_from_sound a s i (suc n) out sigma e m = elim (Option-cases (next_single a s i)) [
  | inl q ↦ absurd (ground arith)
  | inr (symbols, q) ↦ elim (Option-cases (next_from a s (suc i) n)) [
    | inl q' ↦ absurd (ground arith)
    | inr (rest, q') ↦
        elim (Memᴰ.append_cases symbols
          (subst (Memᴰ sigma) (sym (some_inj (symbols ++ rest) out (ground arith))) m)) [
            | inl n' ↦ (i, omega arith, omega arith, next_single_sound a s i symbols sigma q n')
            | inr n' ↦
                let (t, lo, hi, o) = next_from_sound a s (suc i) n rest sigma q' n' in
                (t, omega arith, omega arith, o)
          ]
  ]
]

next_from_complete :
    (a : ConcurrentAutomaton) (s : ConcurrentState) (i n : ℕ) (out : List Symbol) (sigma : Symbol)
    (t : ℕ)
    → next_from a s i n ≡ some out
    → i ≤ t
    → t < i + n
    → IsOffered a s t sigma
    → Memᴰ sigma out
unfolding next_from
next_from_complete a s i zero out sigma t e lo hi o = absurd (ground arith)
next_from_complete a s i (suc n) out sigma t e lo hi o = elim (Option-cases (next_single a s i)) [
  | inl q ↦ absurd (ground arith)
  | inr (symbols, q) ↦ elim (Option-cases (next_from a s (suc i) n)) [
    | inl q' ↦ absurd (ground arith)
    | inr (rest, q') ↦
        subst (Memᴰ sigma) (some_inj (symbols ++ rest) out (ground arith))
          (elim (Bool-cases (i == t)) [
            | inl same ↦ Memᴰ.append_left rest (
                next_single_complete a s i symbols sigma q
                  (subst (λ j. IsOffered a s j sigma) (eq_sym same) o))
            | inr other ↦
                Memᴰ.append_right symbols
                  (next_from_complete a s (suc i) n rest sigma t q' (ground arith) (ground arith) o)
          ])
  ]
]
  where
    eq_sym : (i == t) ≡ true → t ≡ i
    eq_sym h = ground arith

-- What `next_symbols` returns is what the threads that the scheduler lets run offer at their states
-- and the filter lets pass: with a running thread those of it, without one those of all threads.
pub next_symbols_iff :
    (a : ConcurrentAutomaton) (s : ConcurrentState) (out : List Symbol) (sigma : Symbol)
    → next_symbols a s ≡ some out
    → Memᴰ sigma out ↔ ((t : ℕ) × (may_run s t ≡ true) × IsOffered a s t sigma)
unfolding next_symbols
next_symbols_iff a s out sigma e = by_current s.current refl
  where
    by_current :
        (c : Option ℕ)
        → s.current ≡ c
        → Memᴰ sigma out ↔ ((t : ℕ) × (may_run s t ≡ true) × IsOffered a s t sigma)
    by_current none q = (
      λ m.
          let (t, lo, hi, o) = next_from_sound a s 0 (length s.threads) out sigma (rw q at e) m in
          (t, rw q refl, o),
      λ (t, r, (th, z, q', at_z, there, n, p)).
          next_from_complete a s 0 (length s.threads) out sigma t (rw q at e) (omega arith)
            (omega (arith, lt_of_get_elem? s.threads t at_z)) (th, z, q', at_z, there, n, p),
    )
    by_current (some c) q = (
      λ m. (c, rw q (==_refl c), next_single_sound a s c out sigma (rw q at e) m),
      λ (t, r, o).
          next_single_complete a s c out sigma (rw q at e)
            (subst (λ j. IsOffered a s j sigma) (sym (running t (rw q at r))) o),
    )
      where
        running : (t : ℕ) → (c == t) ≡ true → c ≡ t
        running t h = ground arith
