-- ===== src/Synthesis/Reorderings/Separated.antt =====
-- `split_trace`, `prepare_trace` and `synth_locks` together: the state that the solvers work with.
use mathlib.Core.List.Memᴰ
use liss.Common.{
  some-inj, ℕ, zero, suc, ◌≡◌, inl, inr, refl, sym, ap, ◌∙◌, subst, true, List, [], ◌∷◌, ◌++◌, map,
  none, some, arith, length, length-replicate, replicate, get_elem?, All, All-mem, All-map,
  Option-cases, Memᴰ,
}
use liss.Abstraction.Symbol.{Symbol}
use liss.Synthesis.Constraint.{TraceLocation, Model, thread_of}
use liss.Synthesis.Traces.{LockSymbols}
use liss.Synthesis.Reorderings.{SeparatedTrace, new_separated_trace, split_trace}
use liss.Synthesis.Reorderings.Prepare.{
  Preparation, final_location, note_threads, finish_preparation, prepare_trace, all_conditions,
}
use liss.Synthesis.Reorderings.Forbidden.{synth_locks_from, synth_locks}
use liss.Synthesis.Reorderings.Process.{ProgramSize, separate}
use liss.Synthesis.Reorderings.Sorted.{IsSorted, IsDistinct}
use liss.Synthesis.Reorderings.Accesses.{Located}
use liss.Synthesis.Reorderings.Conflicts.{IsRecorded}
use liss.Synthesis.Reorderings.Threads.{IsSplit, IsNamed, Extends, split_trace-IsSplit}
use liss.Synthesis.Reorderings.Prepared.{IsKept}
use liss.Synthesis.Reorderings.Ordered.{note_threads-AllPlaced, close_threads_order}

-- The trace with the final location.
abbrev pub with_final : SeparatedTrace → List TraceLocation
with_final split = split.trace ++ final_location (length split.trace) ∷ []

-- What the solvers get: the trace `split` and the final location, in which everything recorded
-- lies; its formulas keep the locations apart and the threads in their order.
pub record IsSeparated (split s : SeparatedTrace) : Type 0 where
  pub same_trace : s.trace ≡ with_final split
  pub same_threads : s.threaded_trace ≡ split.threaded_trace
  pub recorded : IsRecorded s
  pub distinct_lem : (v : Model) → s.distinct v ≡ true → IsDistinct v s.trace
  pub ordered : (v : Model) → s.thread_order v ≡ true → All (IsSorted v) s.threaded_trace

All-of_get_elem? {ℓ κ} :
    {A : Type ℓ} (P : A → Type κ) (xs : List A)
    → ((i : ℕ) (x : A) → get_elem? xs i ≡ some x → P x)
    → All P xs
All-of_get_elem? P [] h = tt
All-of_get_elem? P (x ∷ xs) h = (h 0 x refl, All-of_get_elem? P xs (λ i y e. h (suc i) y e))

All-replicate {ℓ κ} : {A : Type ℓ} (P : A → Type κ) (n : ℕ) (a : A) → P a → All P (replicate n a)
All-replicate P zero a p = tt
All-replicate P (suc n) a p = (p, All-replicate P n a p)

finish_preparation-IsSeparated :
    (split : SeparatedTrace) (n : ℕ) (p : Preparation) (s : SeparatedTrace)
    → IsKept (Located (with_final split)) (with_final split) split.threaded_trace n p.strace
    → ((v : Model) → p.strace.thread_order v ≡ true → All (IsSorted v) split.threaded_trace)
    → finish_preparation (final_location (length split.trace)) p ≡ some s
    → IsSeparated split s
unfolding finish_preparation
finish_preparation-IsSeparated split n p s k ordered e =
    elim (Option-cases
      (all_conditions p.strace.waits p.strace.notifies p.strace.resets p.strace.conditionals)) [
        | inl failed ↦ absurd (ground arith)
        | inr (c, q) ↦ subst (IsSeparated split) (some-inj (rw q at e)) (record {
          same_trace = k.same_trace;
          same_threads = k.same_threads;
          recorded = record {
            waits_located = located p.strace.waits k.waits_kept.0;
            resets_located = located p.strace.resets k.resets_kept.0;
            notifies_located = located p.strace.notifies k.notifies_kept.0;
            same_lengths =
                (k.resets_kept.1 ∙ sym k.waits_kept.1, k.notifies_kept.1 ∙ sym k.waits_kept.1);
          };
          distinct_lem = λ v h. h;
          ordered = λ v h. subst (All (IsSorted v)) (sym k.same_threads) (
              ordered v (
                close_threads_order (final_location (length split.trace)) p.thread_endpoints
                  p.strace.thread_order v h));
        })
      ]
  where
    located :
        (ls : List (List TraceLocation))
        → All (All (Located (with_final split))) ls
        → All (All (Located p.strace.trace)) ls
    located ls h = subst (λ t. All (All (Located t)) ls) (sym k.same_trace) h

-- The locations of the threads are those of the trace.
threads-Located :
    (counter : ℕ) (split : SeparatedTrace)
    → IsSplit counter split
    → All
        (λ th. (t : ℕ) × All (λ l. (thread_of l ≡ t) × Located (with_final split) l) th)
        split.threaded_trace
threads-Located counter split h =
    All-of_get_elem?
      (λ th. (t : ℕ) × All (λ l. (thread_of l ≡ t) × Located (with_final split) l) th)
      split.threaded_trace
      (λ t th e. (
        t,
        All-map (λ l. (thread_of l ≡ t) × Memᴰ l split.trace)
            (λ l. (thread_of l ≡ t) × Located (with_final split) l) th
            (λ l (own, m). (
              own,
              (
                Memᴰ.append_left (final_location (length split.trace) ∷ []) m,
                (All-mem (IsNamed counter) split.trace l h.named m).0,
              ),
            ))
            (h.threads t th e).0,
      ))

-- A split trace that has recorded nothing yet.
abbrev NothingRecorded : SeparatedTrace → ℕ → Type 0
NothingRecorded split n =
    (split.waits ≡ replicate n [])
    × (split.resets ≡ replicate n [])
    × (split.notifies ≡ replicate n [])

prepare_trace-IsSeparated :
    (no_locks no_threads counter n : ℕ) (split s : SeparatedTrace)
    → IsSplit counter split
    → NothingRecorded split n
    → prepare_trace no_locks no_threads split ≡ some s
    → IsSeparated split s
unfolding prepare_trace
prepare_trace-IsSeparated no_locks no_threads counter n split s h (ws, rs, ns) e =
    elim (Option-cases (note_threads split.threaded_trace started)) [
      | inl failed ↦ absurd (ground arith)
      | inr (p, q) ↦
          let (k, ordered) =
            note_threads-AllPlaced (Located (with_final split)) (with_final split)
              split.threaded_trace n split.threaded_trace started p
              (threads-Located counter split h) start q in
          finish_preparation-IsSeparated split n p s k (λ v o. (ordered v o).1) (rw q at e)
    ]
  where
    started : Preparation
    started = record {
      strace = record split { trace = with_final split };
      lockings = replicate no_locks [];
      thread_endpoints = replicate no_threads none;
    }

    empty :
        (ls : List (List TraceLocation))
        → ls ≡ replicate n []
        → All (All (Located (with_final split))) ls × (length ls ≡ n)
    empty ls c = (
      subst (All (All (Located (with_final split)))) (sym c)
          (All-replicate (All (Located (with_final split))) n [] tt),
      ap (λ l. length l) c ∙ length-replicate n [],
    )

    start :
        IsKept (Located (with_final split)) (with_final split) split.threaded_trace n started.strace
    start = record {
      same_trace = refl;
      same_threads = refl;
      waits_kept = empty split.waits ws;
      resets_kept = empty split.resets rs;
      notifies_kept = empty split.notifies ns;
    }

synth_locks-IsSeparated :
    (split s s' : SeparatedTrace) (locks : LockSymbols)
    → IsSeparated split s
    → synth_locks s locks ≡ some s'
    → IsSeparated split s'
unfolding synth_locks
synth_locks-IsSeparated split s s' locks h e =
    elim (Option-cases (synth_locks_from s locks s.synth_locks)) [
      | inl failed ↦ absurd (ground arith)
      | inr (cnf, q) ↦ subst (IsSeparated split) (some-inj (rw q at e)) (record {
        same_trace = h.same_trace;
        same_threads = h.same_threads;
        recorded = record {
          waits_located = h.recorded.waits_located;
          resets_located = h.recorded.resets_located;
          notifies_located = h.recorded.notifies_located;
          same_lengths = h.recorded.same_lengths;
        };
        distinct_lem = h.distinct_lem;
        ordered = h.ordered;
      })
    ]

-- A trace that is separated is split into its locations, one for each symbol, and the formulas for
-- the solvers keep the locations apart and the threads in their order; everything that is recorded
-- lies in the trace.
pub separate-IsSeparated :
    (size : ProgramSize) (trace : List Symbol) (locks : LockSymbols) (s : SeparatedTrace)
    → separate size trace locks ≡ some s
    → (split : SeparatedTrace) × IsSplit (length trace) split
      × (map (λ (l : TraceLocation). l.symbol) split.trace ≡ trace)
      × IsSeparated split s
unfolding separate
separate-IsSeparated size trace locks s e =
    elim (Option-cases (split_trace size.no_threads trace started)) [
      | inl failed ↦ absurd (ground arith)
      | inr (split, q) ↦ elim (Option-cases (prepare_trace size.no_locks size.no_threads split)) [
        | inl failed ↦ absurd (ground arith)
        | inr (p, q') ↦
            let (h, extends, symbols) =
              split_trace-IsSplit size.no_variables size.no_conditionals size.no_threads trace split
                q in
            (
              split,
              h,
              symbols,
              synth_locks-IsSeparated split p s locks
                  (prepare_trace-IsSeparated size.no_locks size.no_threads (length trace)
                    size.no_conditionals split p h (nothing split extends) q')
                  (rw (q, q') at e),
            )
      ]
    ]
  where
    started : SeparatedTrace
    started = new_separated_trace size.no_variables size.no_conditionals size.no_threads

    nothing :
        (split : SeparatedTrace)
        → Extends started split
        → NothingRecorded split size.no_conditionals
    nothing split x =
        unfold new_separated_trace in
        (
          ap (λ (o : SeparatedTrace). o.waits) x,
          ap (λ (o : SeparatedTrace). o.resets) x,
          ap (λ (o : SeparatedTrace). o.notifies) x,
        )
