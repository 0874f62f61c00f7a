-- ===== src/Synthesis/Reorderings/Kept.antt =====
-- `synth_locks`: what its formula says of the locks of earlier rounds.
use mathlib.Core.List.Memᴰ
use liss.Common.{
  some-inj, ◌<◌, ◌≡◌, ◌⊎◌, inl, inr, refl, sym, subst, true, false, List, [], ◌∷◌, Option, none,
  some, arith, ◌==◌, if◌then◌else◌, Bool-cases, Memᴰ, &&-true,
}
use liss.Abstraction.Symbol.{Symbol, thread_id}
use liss.Abstraction.Concurrent.Forbid.{front}
use liss.Synthesis.Constraint.{TraceLocation, Model, Expr}
use liss.Synthesis.Traces.{LockList, LockLists, LockSymbols, ◌>>=◌}
use liss.Synthesis.Reorderings.{SeparatedTrace, holds_always}
use liss.Synthesis.Reorderings.Prepare.{both, either, never}
use liss.Synthesis.Reorderings.Forbidden.{
  Region, find_lock_locs, find_locs, outside, keep_outside, keep_all_outside, against_symbols,
  against_others, lock_constraint, disjunction_constraint, synth_locks_from, synth_locks,
}

-- The first step of two that return.
chain-eq_some {ℓ κ} :
    {A : Type ℓ} {B : Type κ} (o : Option A) (f : A → Option B) (b : B)
    → (o >>= f) ≡ some b
    → (a : A) × (o ≡ some a) × (f a ≡ some b)
chain-eq_some none f b e = cc
chain-eq_some (some a) f b e = (a, refl, e)

module _ (strace : SeparatedTrace) (v : Model) where
  -- The location is before the region or after it.
  abbrev pub IsOutside : Region → TraceLocation → Type 0
  IsOutside l l2 = (v l2.name < v l.0.name) ⊎ (v l.1.name < v l2.name)

  keep_outside-IsOutside :
      (l : Region) (locs2 : List TraceLocation) (e : Expr)
      → keep_outside l locs2 e v ≡ true
      → (e v ≡ true) × ((l2 : TraceLocation) → Memᴰ l2 locs2 → IsOutside l l2)
  unfolding keep_outside
  keep_outside-IsOutside l [] e h = (h, λ l2 m. elim m [ ])
  keep_outside-IsOutside l (k ∷ locs2) e h =
      let (both_hold, rest) = keep_outside-IsOutside l locs2 (both e (outside l k)) h in
      let (now, first) = &&-true (e v) (outside l k v) both_hold in
      (
        now,
        λ l2 m. elim (Memᴰ.cases_cons m) [
          | inl q ↦ subst (IsOutside l) (sym q) (ground arith)
          | inr n ↦ rest l2 n
        ],
      )

  abbrev pub AllOutside : List Region → List TraceLocation → Type 0
  AllOutside locs locs2 =
      (l : Region) → Memᴰ l locs → (l2 : TraceLocation) → Memᴰ l2 locs2 → IsOutside l l2

  keep_all_outside-AllOutside :
      (locs : List Region) (locs2 : List TraceLocation) (e : Expr)
      → keep_all_outside locs locs2 e v ≡ true
      → (e v ≡ true) × AllOutside locs locs2
  unfolding keep_all_outside
  keep_all_outside-AllOutside [] locs2 e h = (h, λ l m. elim m [ ])
  keep_all_outside-AllOutside (k ∷ locs) locs2 e h =
      let (held, rest) = keep_all_outside-AllOutside locs locs2 (keep_outside k locs2 e) h in
      let (now, first) = keep_outside-IsOutside k locs2 e held in
      (
        now,
        λ l m. elim (Memᴰ.cases_cons m) [
          | inl q ↦ subst (λ r. (l2 : TraceLocation) → Memᴰ l2 locs2 → IsOutside r l2) (sym q) first
          | inr n ↦ rest l n
        ],
      )

  -- Where the symbol stands, it is outside of the regions.
  abbrev pub KeepsOut : List Region → Symbol → Type 0
  KeepsOut locs s =
      (locs2 : List TraceLocation) × (find_locs strace s ≡ some locs2) × AllOutside locs locs2

  against_symbols-KeepsOut :
      (locs : List Region) (it2 : LockList) (e e' : Expr)
      → against_symbols strace locs it2 e ≡ some e'
      → e' v ≡ true
      → (e v ≡ true) × ((s : Symbol) → Memᴰ s it2 → KeepsOut locs s)
  unfolding against_symbols
  against_symbols-KeepsOut locs [] e e' q h =
      (subst (λ (x : Expr). x v ≡ true) (sym (some-inj q)) h, λ s m. elim m [ ])
  against_symbols-KeepsOut locs (s ∷ it2) e e' q h =
      let (locs2, at_s, q') = chain-eq_some (find_locs strace s) _ e' q in
      let (held, rest) =
        against_symbols-KeepsOut locs it2 (keep_all_outside locs locs2 e) e' q' h in
      let (now, first) = keep_all_outside-AllOutside locs locs2 e held in
      (
        now,
        λ t m. elim (Memᴰ.cases_cons m) [
          | inl c ↦ subst (KeepsOut locs) (sym c) (locs2, at_s, first)
          | inr n ↦ rest t n
        ],
      )

  -- The sides begin in one thread, or every symbol of the second is kept out of the regions.
  abbrev pub Excludes : LockList → List Region → LockList → Type 0
  Excludes it locs it2 =
      (s : Symbol) × (t : Symbol) × (front it ≡ some s)
      × (front it2 ≡ some t)
      × ((thread_id s ≡ thread_id t) ⊎ ((x : Symbol) → Memᴰ x it2 → KeepsOut locs x))

  against_others-Excludes :
      (it : LockList) (locs : List Region) (lock : LockLists) (e e' : Expr)
      → against_others strace it locs lock e ≡ some e'
      → e' v ≡ true
      → (e v ≡ true) × ((it2 : LockList) → Memᴰ it2 lock → Excludes it locs it2)
  unfolding against_others
  against_others-Excludes it locs [] e e' q h =
      (subst (λ (x : Expr). x v ≡ true) (sym (some-inj q)) h, λ it2 m. elim m [ ])
  against_others-Excludes it locs (it2 ∷ lock) e e' q h =
      let (s, at_s, q1) = chain-eq_some (front it) _ e' q in
      let (t, at_t, q2) = chain-eq_some (front it2) _ e' q1 in
      let (e1, step, q3) =
        chain-eq_some
          (if thread_id s == thread_id t then some e else against_symbols strace locs it2 e) _ e'
          q2 in
      let (held, rest) = against_others-Excludes it locs lock e1 e' q3 h in
      let (now, first) = one s t at_s at_t e1 step held in
      (
        now,
        λ k m. elim (Memᴰ.cases_cons m) [
          | inl c ↦ subst (Excludes it locs) (sym c) first
          | inr n ↦ rest k n
        ],
      )
    where
      one :
          (s t : Symbol)
          → front it ≡ some s
          → front it2 ≡ some t
          → (e1 : Expr)
          → (if thread_id s == thread_id t then some e else against_symbols strace locs it2 e)
            ≡ some e1
          → e1 v ≡ true
          → (e v ≡ true) × Excludes it locs it2
      one s t at_s at_t e1 step held = elim (Bool-cases (thread_id s == thread_id t)) [
        | inl same ↦ (
          subst (λ (x : Expr). x v ≡ true) (sym (some-inj (rw same at step))) held,
          (s, t, at_s, at_t, inl (number same)),
        )
        | inr other ↦
            let (now, out) = against_symbols-KeepsOut locs it2 e e1 (rw other at step) held in
            (now, (s, t, at_s, at_t, inr out))
      ]
        where
          number : (thread_id s == thread_id t) ≡ true → thread_id s ≡ thread_id t
          number c = ground arith

  -- The regions of a side are kept free of every side of `lock` that begins in another thread.
  abbrev pub KeepsSide : LockLists → LockList → Type 0
  KeepsSide lock it =
      (locs : List Region) × (find_lock_locs strace it ≡ some locs)
      × ((it2 : LockList) → Memᴰ it2 lock → Excludes it locs it2)

  abbrev pub KeepsSides : LockLists → Type 0
  KeepsSides lock = (it : LockList) → Memᴰ it lock → KeepsSide lock it

  lock_constraint-KeepsSide :
      (lock rest : LockLists) (e e' : Expr)
      → lock_constraint strace lock rest e ≡ some e'
      → e' v ≡ true
      → (e v ≡ true) × ((it : LockList) → Memᴰ it rest → KeepsSide lock it)
  unfolding lock_constraint
  lock_constraint-KeepsSide lock [] e e' q h =
      (subst (λ (x : Expr). x v ≡ true) (sym (some-inj q)) h, λ it m. elim m [ ])
  lock_constraint-KeepsSide lock (it ∷ rest) e e' q h =
      let (locs, at_it, q1) = chain-eq_some (find_lock_locs strace it) _ e' q in
      let (e1, step, q') = chain-eq_some (against_others strace it locs lock e) _ e' q1 in
      let (held, later) = lock_constraint-KeepsSide lock rest e1 e' q' h in
      let (now, first) = against_others-Excludes it locs lock e e1 step held in
      (
        now,
        λ k m. elim (Memᴰ.cases_cons m) [
          | inl c ↦ subst (KeepsSide lock) (sym c) (locs, at_it, first)
          | inr n ↦ later k n
        ],
      )

  disjunction_constraint-KeepsSides :
      (lockd : List LockLists) (e e' : Expr)
      → disjunction_constraint strace lockd e ≡ some e'
      → e' v ≡ true
      → (e v ≡ true) ⊎ ((lock : LockLists) × Memᴰ lock lockd × KeepsSides lock)
  unfolding disjunction_constraint
  disjunction_constraint-KeepsSides [] e e' q h =
      inl (subst (λ (x : Expr). x v ≡ true) (sym (some-inj q)) h)
  disjunction_constraint-KeepsSides (lock ∷ lockd) e e' q h =
      let (locke, step, q') =
        chain-eq_some (lock_constraint strace lock lock holds_always) _ e' q in
      elim (disjunction_constraint-KeepsSides lockd (either e locke) e' q' h) [
        | inr (k, m, kept) ↦ inr (k, Memᴰ.tail m, kept)
        | inl held ↦ elim (Bool-cases (e v)) [
          | inl before ↦ inl before
          | inr not_before ↦ inr (
            lock,
            Memᴰ.head refl,
            (lock_constraint-KeepsSide lock lock holds_always locke step
                (right locke held not_before)).1,
          )
        ]
      ]
    where
      right : (locke : Expr) → either e locke v ≡ true → e v ≡ false → locke v ≡ true
      right locke held not_before = ground arith

  synth_locks_from-KeepsSides :
      (locks : LockSymbols) (e e' : Expr)
      → synth_locks_from strace locks e ≡ some e'
      → e' v ≡ true
      → (e v ≡ true)
        × ((lockd : List LockLists)
            → Memᴰ lockd locks
            → (lock : LockLists) × Memᴰ lock lockd × KeepsSides lock)
  unfolding synth_locks_from
  synth_locks_from-KeepsSides [] e e' q h =
      (subst (λ (x : Expr). x v ≡ true) (sym (some-inj q)) h, λ lockd m. elim m [ ])
  synth_locks_from-KeepsSides (d ∷ locks) e e' q h =
      let (d', step, q') = chain-eq_some (disjunction_constraint strace d never) _ e' q in
      let (held, later) = synth_locks_from-KeepsSides locks (both e d') e' q' h in
      let (now, this) = &&-true (e v) (d' v) held in
      (
        now,
        λ k m. elim (Memᴰ.cases_cons m) [
          | inl c ↦
              subst (λ x. (lock : LockLists) × Memᴰ lock x × KeepsSides lock) (sym c)
                (elim (disjunction_constraint-KeepsSides d never d' step this) [
                  | inl impossible ↦ absurd (clash impossible)
                  | inr found ↦ found
                ])
          | inr n ↦ later k n
        ],
      )
    where
      clash : never v ≡ true → ⊥
      clash c = cc

-- The formula of `synth_locks` keeps one lock of every disjunction, with the regions that
-- `find_lock_locs` finds.
pub synth_locks-KeepsSides :
    (s s' : SeparatedTrace) (locks : LockSymbols) (v : Model)
    → synth_locks s locks ≡ some s'
    → s'.synth_locks v ≡ true
    → (lockd : List LockLists) → Memᴰ lockd locks
    → (lock : LockLists) × Memᴰ lock lockd × KeepsSides s v lock
unfolding synth_locks
synth_locks-KeepsSides s s' locks v e h =
    let (cnf, q, e') = chain-eq_some (synth_locks_from s locks s.synth_locks) _ s' e in
    (synth_locks_from-KeepsSides s v locks s.synth_locks cnf q
      (subst (λ (o : SeparatedTrace). o.synth_locks v ≡ true) (sym (some-inj e')) h)).1
