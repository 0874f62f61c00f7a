-- ===== src/Synthesis/Reorderings/Preserved.antt =====
-- `synth_locks` of synthesis/reorderings.cpp: the locks of earlier rounds are kept where a side of them
-- stands in the trace.
use liss.Common.{
  ◌<◌, ◌≡◌, ◌≢◌, ◌⊎◌, inl, inr, sym, ◌∙◌, subst, true, false, List, some, some-inj, ◌==◌, Memᴰ,
}
use liss.Abstraction.Symbol.{Symbol, thread_id}
use liss.Abstraction.Concurrent.Forbid.{front}
use liss.Synthesis.Constraint.{TraceLocation, Model}
use liss.Synthesis.Traces.{LockList, LockLists, LockSymbols}
use liss.Synthesis.Reorderings.{SeparatedTrace}
use liss.Synthesis.Reorderings.Forbidden.{synth_locks}
use liss.Synthesis.Reorderings.Found.{StandsAt, IsAt, find_locs-IsAt, find_lock_locs-StandsAt}
use liss.Synthesis.Reorderings.Kept.{KeepsSides, synth_locks-KeepsSides}

-- Where a side of the lock stands in the trace, from `first` to another location `last`, no location
-- with a symbol of a side that begins in another thread is between the two.
abbrev pub KeepsLock : SeparatedTrace → Model → LockLists → Type 0
KeepsLock strace v lock =
    (it it2 : LockList)
    → Memᴰ it lock
    → Memᴰ it2 lock
    → (s t : Symbol) → front it ≡ some s
    → front it2 ≡ some t
    → thread_id s ≢ thread_id t
    → (first last : TraceLocation) → StandsAt strace it first last
    → (first.name == last.name) ≡ false
    → (x : Symbol) → Memᴰ x it2
    → (l : TraceLocation) → IsAt strace x l
    → (v l.name < v first.name) ⊎ (v last.name < v l.name)

KeepsSides-KeepsLock :
    (strace : SeparatedTrace) (v : Model) (lock : LockLists)
    → KeepsSides strace v lock
    → KeepsLock strace v lock
KeepsSides-KeepsLock strace v lock kept it it2 m m2 s t at_s at_t apart first last stands differ x n
      l is_at =
    let (locs, at_it, each) = kept it m in
    let (s', t', at_s', at_t', out) = each it2 m2 in
    elim out [
      | inl same ↦ absurd (clash s' t' at_s' at_t' same)
      | inr keeps ↦
          let (locs2, at_x, all) = keeps x n in
          all (first, last) (find_lock_locs-StandsAt strace it locs first last at_it stands differ)
            l (find_locs-IsAt strace x locs2 l at_x is_at)
    ]
  where
    clash :
        (s' t' : Symbol)
        → front it ≡ some s'
        → front it2 ≡ some t'
        → thread_id s' ≡ thread_id t'
        → ⊥
    clash s' t' at_s' at_t' same =
        let eq_s : s ≡ s' = some-inj (sym at_s ∙ at_s') in
        let eq_t : t ≡ t' = some-inj (sym at_t ∙ at_t') in
        apart (
          subst (λ a. thread_id a ≡ thread_id t) (sym eq_s)
            (subst (λ b. thread_id s' ≡ thread_id b) (sym eq_t) same))

-- The formula of `synth_locks` keeps one lock of every disjunction that was synthesised before: where
-- a side of it whose first symbol does not recur stands in the trace, symbol by symbol in consecutive
-- locations of its thread, the first and the last of which have different variables, no location that
-- has in its thread a symbol of a side that begins in another thread lies between the ends.
pub synth_locks-KeepsLock :
    (s s' : SeparatedTrace) (locks : LockSymbols) (v : Model)
    → synth_locks s locks ≡ some s'
    → s'.synth_locks v ≡ true
    → (lockd : List LockLists) → Memᴰ lockd locks
    → (lock : LockLists) × Memᴰ lock lockd × KeepsLock s v lock
synth_locks-KeepsLock s s' locks v e h lockd m =
    let (lock, n, kept) = synth_locks-KeepsSides s s' locks v e h lockd m in
    (lock, n, KeepsSides-KeepsLock s v lock kept)
