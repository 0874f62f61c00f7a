-- ===== src/Synthesis/Reorderings/Prepared.antt =====
-- `prepare_trace`: what the first loop records, and the order of the threads that it asks for.
use liss.Common.{
  ℕ, ◌≡◌, inl, inr, refl, sym, ap, ◌∙◌, subst, Bool, true, false, ◌&&◌, not, List, [], ◌∷◌, ◌++◌,
  Option, none, some, arith, length, length-set, get_elem?, set, All, All-append, All-get_elem?,
  All-set, Option-cases,
}
use liss.Abstraction.Symbol.{
  OpClass, read, write, lock, unlock, wait, wait_not, notify, reset, wait_reset, yield, epsilon,
  tag, assumes_allow_switch,
}
use liss.Synthesis.Constraint.{TraceLocation}
use liss.Synthesis.Reorderings.{SeparatedTrace, push_at}
use liss.Synthesis.Reorderings.Prepare.{Preparation, close_last, note_operation}
use liss.Synthesis.Reorderings.Threads.{push_at-some}

push_at-All {ℓ κ} :
    {A : Type ℓ} (P : A → Type κ) (i : ℕ) (a : A) (ls ls' : List (List A))
    → push_at i a ls ≡ some ls'
    → P a
    → All (All P) ls
    → All (All P) ls' × (length ls' ≡ length ls)
push_at-All P i a ls ls' e p h =
    let (l, at_i, changed) = push_at-some i a ls ls' e in
    (
      subst (All (All P)) (sym changed) (
          All-set (All P) ls i (l ++ a ∷ []) h
            (All-append P l (a ∷ []) (All-get_elem? (All P) ls i l h at_i) (p, tt))),
      ap (λ k. length k) changed ∙ length-set ls i (l ++ a ∷ []),
    )

-- What the first loop keeps: the trace and its threads, lists of `P`-locations, and their number.
pub record IsKept {κ} (P : TraceLocation → Type κ) (trace : List TraceLocation)
    (threads : List (List TraceLocation)) (n : ℕ) (s : SeparatedTrace) : Type κ where
  pub same_trace : s.trace ≡ trace
  pub same_threads : s.threaded_trace ≡ threads
  pub waits_kept : All (All P) s.waits × (length s.waits ≡ n)
  pub resets_kept : All (All P) s.resets × (length s.resets ≡ n)
  pub notifies_kept : All (All P) s.notifies × (length s.notifies ≡ n)

module _ {κ} (P : TraceLocation → Type κ) (trace : List TraceLocation)
    (threads : List (List TraceLocation)) (n : ℕ) where
  abbrev pub Noted : Preparation → Preparation → Type κ
  Noted p p' =
      IsKept P trace threads n p'.strace
      × (p'.strace.thread_order ≡ p.strace.thread_order)
      × (p'.thread_endpoints ≡ p.thread_endpoints)

  done :
      (p q r : Preparation) (b c : Bool)
      → ◌≡◌ {A = Option (Preparation × Bool)} (some (q, b)) (some (r, c))
      → Noted p q
      → Noted p r
  done p q r b c e h = subst (Noted p) (ap first e) h
    where
      first : Option (Preparation × Bool) → Preparation
      first none = q
      first (some (x, _)) = x

  -- A list of lists of locations with one more location.
  push_at_kept :
      (i : ℕ) (loc : TraceLocation) (ls ls' : List (List TraceLocation))
      → push_at i loc ls ≡ some ls'
      → P loc
      → All (All P) ls × (length ls ≡ n)
      → All (All P) ls' × (length ls' ≡ n)
  push_at_kept i loc ls ls' e at_loc (h, len) =
      let (h', len') = push_at-All P i loc ls ls' e at_loc h in (h', len' ∙ len)

  pub note_operation-Noted :
      (op : OpClass) (loc : TraceLocation) (p p' : Preparation) (b : Bool)
      → P loc
      → IsKept P trace threads n p.strace
      → note_operation op loc p ≡ some (p', b)
      → Noted p p'
  unfolding note_operation
  note_operation-Noted lock loc p p' b at_loc k e =
      elim (Option-cases
        (push_at loc.symbol.variable (record { lock_at = loc; unlock_at = none }) p.lockings)) [
          | inl q ↦ absurd (ground arith)
          | inr (ls, q) ↦
              done p (record p { lockings = ls }) p' loc.symbol.synthesised b (ground arith)
                (k, refl, refl)
        ]
  note_operation-Noted unlock loc p p' b at_loc k e =
      elim (Option-cases (get_elem? p.lockings loc.symbol.variable)) [
        | inl q ↦ absurd (ground arith)
        | inr (l, q) ↦ elim (Option-cases (close_last loc l)) [
          | inl q' ↦ absurd (ground arith)
          | inr (l', q') ↦
              done p (record p { lockings = set p.lockings loc.symbol.variable l' }) p' true b
                (ground arith) (k, refl, refl)
        ]
      ]
  note_operation-Noted wait_reset loc p p' b at_loc k e =
      elim (Option-cases (push_at loc.symbol.variable loc p.strace.resets)) [
        | inl q ↦ absurd (ground arith)
        | inr (rs, q) ↦ elim (Option-cases (push_at loc.symbol.variable loc p.strace.waits)) [
          | inl q' ↦ absurd (ground arith)
          | inr (ws, q') ↦
              done p (record p { strace = record p.strace { resets = rs; waits = ws } }) p'
                (loc.symbol.assumed && not assumes_allow_switch) b (ground arith)
                (
                  record {
                    same_trace = k.same_trace;
                    same_threads = k.same_threads;
                    waits_kept =
                        push_at_kept loc.symbol.variable loc p.strace.waits ws q' at_loc
                          k.waits_kept;
                    resets_kept =
                        push_at_kept loc.symbol.variable loc p.strace.resets rs q at_loc
                          k.resets_kept;
                    notifies_kept = k.notifies_kept;
                  },
                  refl,
                  refl,
                )
        ]
      ]
  note_operation-Noted wait loc p p' b at_loc k e =
      elim (Option-cases (push_at loc.symbol.variable loc p.strace.waits)) [
        | inl q ↦ absurd (ground arith)
        | inr (ws, q) ↦
            done p (record p { strace = record p.strace { waits = ws } }) p'
              (loc.symbol.assumed && not assumes_allow_switch) b (ground arith)
              (
                record {
                  same_trace = k.same_trace;
                  same_threads = k.same_threads;
                  waits_kept =
                      push_at_kept loc.symbol.variable loc p.strace.waits ws q at_loc k.waits_kept;
                  resets_kept = k.resets_kept;
                  notifies_kept = k.notifies_kept;
                },
                refl,
                refl,
              )
      ]
  note_operation-Noted wait_not loc p p' b at_loc k e =
      elim (Option-cases (push_at loc.symbol.variable loc p.strace.waits)) [
        | inl q ↦ absurd (ground arith)
        | inr (ws, q) ↦
            done p (record p { strace = record p.strace { waits = ws } }) p'
              (loc.symbol.assumed && not assumes_allow_switch) b (ground arith)
              (
                record {
                  same_trace = k.same_trace;
                  same_threads = k.same_threads;
                  waits_kept =
                      push_at_kept loc.symbol.variable loc p.strace.waits ws q at_loc k.waits_kept;
                  resets_kept = k.resets_kept;
                  notifies_kept = k.notifies_kept;
                },
                refl,
                refl,
              )
      ]
  note_operation-Noted notify loc p p' b at_loc k e =
      elim (Option-cases (push_at loc.symbol.variable loc p.strace.notifies)) [
        | inl q ↦ absurd (ground arith)
        | inr (ns, q) ↦
            done p (record p { strace = record p.strace { notifies = ns } }) p' true b
              (ground arith)
              (
                record {
                  same_trace = k.same_trace;
                  same_threads = k.same_threads;
                  waits_kept = k.waits_kept;
                  resets_kept = k.resets_kept;
                  notifies_kept =
                      push_at_kept loc.symbol.variable loc p.strace.notifies ns q at_loc
                        k.notifies_kept;
                },
                refl,
                refl,
              )
      ]
  note_operation-Noted reset loc p p' b at_loc k e =
      elim (Option-cases (push_at loc.symbol.variable loc p.strace.resets)) [
        | inl q ↦ absurd (ground arith)
        | inr (rs, q) ↦
            done p (record p { strace = record p.strace { resets = rs } }) p' true b (ground arith)
              (
                record {
                  same_trace = k.same_trace;
                  same_threads = k.same_threads;
                  waits_kept = k.waits_kept;
                  resets_kept =
                      push_at_kept loc.symbol.variable loc p.strace.resets rs q at_loc
                        k.resets_kept;
                  notifies_kept = k.notifies_kept;
                },
                refl,
                refl,
              )
      ]
  note_operation-Noted read loc p p' b at_loc k e =
      elim (Option-cases (push_at loc.symbol.variable loc p.strace.reads)) [
        | inl q ↦ absurd (ground arith)
        | inr (rs, q) ↦
            done p (record p { strace = record p.strace { reads = rs } }) p' true b (ground arith)
              (
                record {
                  same_trace = k.same_trace;
                  same_threads = k.same_threads;
                  waits_kept = k.waits_kept;
                  resets_kept = k.resets_kept;
                  notifies_kept = k.notifies_kept;
                },
                refl,
                refl,
              )
      ]
  note_operation-Noted write loc p p' b at_loc k e =
      elim (Option-cases (push_at loc.symbol.variable loc p.strace.writes)) [
        | inl q ↦ absurd (ground arith)
        | inr (ws, q) ↦
            done p (record p { strace = record p.strace { writes = ws } }) p' true b (ground arith)
              (
                record {
                  same_trace = k.same_trace;
                  same_threads = k.same_threads;
                  waits_kept = k.waits_kept;
                  resets_kept = k.resets_kept;
                  notifies_kept = k.notifies_kept;
                },
                refl,
                refl,
              )
      ]
  note_operation-Noted epsilon loc p p' b at_loc k e =
      done p p p' true b (ground arith) (k, refl, refl)
  note_operation-Noted yield loc p p' b at_loc k e =
      done p p p' false b (ground arith) (k, refl, refl)
  note_operation-Noted tag loc p p' b at_loc k e = done p p p' true b (ground arith) (k, refl, refl)
