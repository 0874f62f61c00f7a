-- ===== src/Abstraction/Concurrent/Step/Schedule.antt =====
-- The two schedulers: what a step under the non-preemptive one is under the preemptive one.
use mathlib.Core.List.Memᴰ
use mathlib.Core.Option
use liss.Common.{
  ℕ, ◌≡◌, ◌≢◌, ◌⊎◌, refl, sym, ap, ◌∙◌, inl, inr, Bool, true, false, List, [], ◌∷◌, ◌++◌, map, none,
  some, arith, get_elem?, if◌then◌else◌, Memᴰ, subst, append-nil, Bool-cases, Option-cases,
  List-cases,
}
use liss.Common.Int.{ℤ}
use liss.Abstraction.Symbol.{Symbol, thread_id, is_epsilon}
use liss.Abstraction.State.{ConcurrentState}
use liss.Abstraction.Concurrent.Defs.{ThreadAutomaton, ConcurrentAutomaton}
use liss.Abstraction.Concurrent.Step.{
  can_fire, may_block, Applied, null, applied, failed, must_fire, apply_symbol, push_successors,
  may_run, finish_step, successors,
}
use liss.Cfg.Automaton.{RewardState}
use liss.Abstraction.Concurrent.Step.Free.{
  free, preemptive, apply_preemptive, fire_progress, apply_free_progress, push_free,
}

-- A symbol that is applied makes progress, or is one that may block and is applied while some thread is
-- the running one: then the only change is that no thread is the running one any more.
pub apply_progress :
    (a : ConcurrentAutomaton) (s t : ConcurrentState) (sigma : Symbol) (progress : Bool)
    → apply_symbol a s sigma ≡ applied t progress
    → (progress ≡ true)
      ⊎ ((progress ≡ false)
          × (t ≡ free s)
          × (may_block sigma.operation ≡ true)
          × (s.current ≢ none))
unfolding apply_symbol
apply_progress a s t sigma progress e = elim (Bool-cases (must_fire s sigma)) [
  | inl must ↦ elim (Option-cases (can_fire sigma.operation sigma.variable s)) [
    | inl q ↦ ground arith
    | inr (b, q) ↦ elim (Bool-cases b) [
      | inl fires ↦
          inl (fire_progress a s t sigma progress (inr (q ∙ ap some fires)) (ground arith))
      | inr blocked ↦ ground arith
    ]
  ]
  | inr may ↦ elim (Bool-cases (may_block sigma.operation)) [
    | inl blocks ↦ inr (ground arith, ground arith, blocks, ground arith)
    | inr runs ↦ inl (fire_progress a s t sigma progress (inl runs) (ground arith))
  ]
]

-- What a step with a result has been through.
pub record Stepped (a : ConcurrentAutomaton) (s : ConcurrentState) (sigma : Symbol)
    (out : List ConcurrentState) : Type 0 where
  pub th : ThreadAutomaton
  pub z : ℤ
  pub succs : RewardState × List RewardState
  pub thread_at : get_elem? a.threads (thread_id sigma) ≡ some th
  pub state_at : get_elem? s.threads (thread_id sigma) ≡ some z
  pub offered : th.successors z sigma ≡ succs.0 ∷ succs.1
  pub finished :
      finish_step a th (thread_id sigma) (succs.0 ∷ succs.1) (apply_symbol a s sigma) ≡ some out

some-nil : (out : List ConcurrentState) (t : ConcurrentState) → some [] ≡ some out → Memᴰ t out → ⊥
some-nil [] t e m = Memᴰ.not-nil m
some-nil (x ∷ out) t e m = cc

pub successors-Stepped :
    (a : ConcurrentAutomaton) (s t : ConcurrentState) (sigma : Symbol) (out : List ConcurrentState)
    → successors a s sigma ≡ some out
    → Memᴰ t out
    → Stepped a s sigma out
unfolding successors
successors-Stepped a s t sigma out e m = elim (Bool-cases (may_run s (thread_id sigma))) [
  | inr blocked ↦ absurd (some-nil out t (rw blocked at e) m)
  | inl runs ↦ elim (Option-cases (get_elem? a.threads (thread_id sigma))) [
    | inl q ↦ absurd (ground arith)
    | inr (th, q) ↦ elim (Option-cases (get_elem? s.threads (thread_id sigma))) [
      | inl q' ↦ absurd (ground arith)
      | inr (z, q') ↦ elim (List-cases (th.successors z sigma)) [
        | inl none_there ↦ absurd (ground arith)
        | inr (p, ps, q'') ↦ record {
          th = th;
          z = z;
          succs = (p, ps);
          thread_at = q;
          state_at = q';
          offered = q'';
          finished = ground arith;
        }
      ]
    ]
  ]
]

successors_unfold :
    (a : ConcurrentAutomaton) (s : ConcurrentState) (sigma : Symbol) (th : ThreadAutomaton) (z : ℤ)
    (p : RewardState) (ps : List RewardState)
    → s.current ≡ none
    → get_elem? a.threads (thread_id sigma) ≡ some th
    → get_elem? s.threads (thread_id sigma) ≡ some z
    → th.successors z sigma ≡ p ∷ ps
    → successors a s sigma ≡ finish_step a th (thread_id sigma) (p ∷ ps) (apply_symbol a s sigma)
unfolding successors
successors_unfold a s sigma th z p ps c q q' q'' = ground arith

-- A state that a step gives comes from an applied symbol.
finish_inv :
    (a : ConcurrentAutomaton) (th : ThreadAutomaton) (thread : ℕ) (succs : List RewardState)
    (r : Applied) (out : List ConcurrentState) (t : ConcurrentState)
    → finish_step a th thread succs r ≡ some out
    → Memᴰ t out
    → (next : ConcurrentState) × (((r ≡ applied next true)
          × (push_successors a th thread next succs ≡ some out))
        ⊎ ((r ≡ applied next false) × (t ≡ next)))
unfolding finish_step
finish_inv a th thread succs failed out t e m = cc
finish_inv a th thread succs null out t e m = absurd (some-nil out t e m)
finish_inv a th thread succs (applied next true) out t e m = (next, inl (refl, e))
finish_inv a th thread succs (applied next false) out t e m =
    (next, inr (refl, only (Bool-cases a.concurrent)))
  where
    only : (a.concurrent ≡ true) ⊎ (a.concurrent ≡ false) → t ≡ next
    only (inl c) = ground arith
    only (inr c) = Memᴰ.eq_of_singleton (subst (Memᴰ t) (listed out (rw c at e)) m)
      where
        listed : (l : List ConcurrentState) → some (next ∷ []) ≡ some l → l ≡ next ∷ []
        listed l q = cc

-- One step of the non-preemptive scheduler gives up the running thread and changes nothing else, or
-- is a step of the preemptive one, between the same states with no running thread.
pub successors_preemptive :
    (a : ConcurrentAutomaton) (s t : ConcurrentState) (sigma : Symbol) (out : List ConcurrentState)
    → successors a s sigma ≡ some out
    → Memᴰ t out
    → ((t ≡ free s) × (may_block sigma.operation ≡ true))
      ⊎ ((out' : List ConcurrentState) × (successors (preemptive a) (free s) sigma ≡ some out')
          × Memᴰ (free t) out')
successors_preemptive a s t sigma out e m =
    let w = successors-Stepped a s t sigma out e m in
    let (next, how) =
      finish_inv a w.th (thread_id sigma) (w.succs.0 ∷ w.succs.1) (apply_symbol a s sigma) out t
        w.finished m in
    elim how [
      | inl (fired, pushed) ↦ inr (
        map free out,
        successors_unfold (preemptive a) (free s) sigma w.th w.z w.succs.0 w.succs.1 refl
              w.thread_at w.state_at w.offered
            ∙ carried w.th (w.succs.0 ∷ w.succs.1) next fired pushed,
        Memᴰ.map free m,
      )
      | inr (waited, same) ↦ elim (apply_progress a s next sigma false waited) [
        | inl moves ↦ cc
        | inr (_, stays, blocks, _) ↦ inl (same ∙ stays, blocks)
      ]
    ]
  where
    carried :
        (th : ThreadAutomaton) (succs : List RewardState) (next : ConcurrentState)
        → apply_symbol a s sigma ≡ applied next true
        → push_successors a th (thread_id sigma) next succs ≡ some out
        → finish_step
            (preemptive a)
            th
            (thread_id sigma)
            succs
            (apply_symbol (preemptive a) (free s) sigma)
          ≡ some (map free out)
    carried th succs next fired pushed =
        rw (apply_preemptive a (free s) sigma, apply_free_progress a s next sigma fired)
          (unfold finish_step in
            push_free a th (thread_id sigma) next succs ∙ ap (Option.map (map free)) pushed)

-- The runs of the automaton, with the symbols that are no epsilon steps.
abbrev pub visible : Symbol → List Symbol
visible sigma = if is_epsilon sigma then [] else sigma ∷ []

pub data Run (a : ConcurrentAutomaton) (s : ConcurrentState)
    : List Symbol → ConcurrentState → Type 0 where
  here : Run a s [] s
  next :
      {w : List Symbol} {t : ConcurrentState} (sigma : Symbol) (out : List ConcurrentState)
      (u : ConcurrentState)
      → Run a s w t
      → successors a t sigma ≡ some out
      → Memᴰ u out
      → Run a s (w ++ visible sigma) u

may_block-is_epsilon : (sigma : Symbol) → may_block sigma.operation ≡ true → visible sigma ≡ []
unfolding is_epsilon
may_block-is_epsilon sigma h = ground arith

-- Every run under the non-preemptive scheduler is a run under the preemptive one, with the same
-- visible symbols, between the same states with no running thread: the language of the
-- non-preemptive automaton is included in that of the preemptive one.
pub Run-preemptive :
    (a : ConcurrentAutomaton) (s : ConcurrentState) {w : List Symbol} {t : ConcurrentState}
    → Run a s w t
    → Run (preemptive a) (free s) w (free t)
Run-preemptive a s here = here
Run-preemptive a s (next {w} {t} sigma out u r e m) =
    elim (successors_preemptive a t u sigma out e m) [
      | inl (same, blocks) ↦
          subst (λ v. Run (preemptive a) (free s) v (free u))
            (sym (ap (λ v. w ++ v) (may_block-is_epsilon sigma blocks) ∙ append-nil w))
            (subst (λ x. Run (preemptive a) (free s) w x) (sym (ap free same))
              (Run-preemptive a s r))
      | inr (out', e', m') ↦ next sigma out' (free u) (Run-preemptive a s r) e' m'
    ]
