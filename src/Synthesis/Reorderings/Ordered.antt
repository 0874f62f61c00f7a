-- ===== src/Synthesis/Reorderings/Ordered.antt =====
-- `prepare_trace`: the formula for the order of the threads.
use liss.Common.{
  some-inj, ℕ, ◌<◌, ◌≡◌, inl, inr, sym, ap, ◌∙◌, subst, Bool, true, List, [], ◌∷◌, Option, none,
  some, arith, get_elem?, set, lt_of_get_elem?, All, Option-cases, &&-true,
}
use liss.Synthesis.Constraint.{TraceLocation, Model, Expr, thread_of, less}
use liss.Synthesis.Reorderings.{SeparatedTrace}
use liss.Synthesis.Reorderings.Prepare.{
  Preparation, note_operation, note_location, note_thread, note_threads, link, both, close_threads,
}
use liss.Synthesis.Reorderings.Sorted.{IsSorted, lt-All}
use liss.Synthesis.Reorderings.Threads.{get_elem?-set}
use liss.Synthesis.Reorderings.Prepared.{IsKept, Noted, note_operation-Noted}

-- The location is after the endpoint, where there is one.
abbrev IsAfter : Model → Option TraceLocation → TraceLocation → Type 0
IsAfter v none loc = Unit
IsAfter v (some before) loc = v before.name < v loc.name

link_order :
    (v : Model) (loc : TraceLocation) (before : Option TraceLocation) (b : Bool)
    (s : SeparatedTrace)
    → (link loc before b s).thread_order v ≡ true
    → (s.thread_order v ≡ true) × IsAfter v before loc
unfolding link
link_order v loc none b s h = (h, tt)
link_order v loc (some before) b s h = (ground arith, ground arith)

module _ {κ} (P : TraceLocation → Type κ) (trace : List TraceLocation)
    (threads : List (List TraceLocation)) (n : ℕ) where
  link-IsKept :
      (loc : TraceLocation) (before : Option TraceLocation) (b : Bool) (s : SeparatedTrace)
      → IsKept P trace threads n s
      → IsKept P trace threads n (link loc before b s)
  unfolding link
  link-IsKept loc none b s k = k
  link-IsKept loc (some before) b s k = record {
    same_trace = k.same_trace;
    same_threads = k.same_threads;
    waits_kept = k.waits_kept;
    resets_kept = k.resets_kept;
    notifies_kept = k.notifies_kept;
  }

  -- What a location adds to the order: it is after the endpoint of its thread, and becomes it.
  abbrev Placed : TraceLocation → Preparation → Preparation → Type κ
  Placed loc p q =
      IsKept P trace threads n q.strace
      × ((v : Model)
          → q.strace.thread_order v ≡ true
          → (p.strace.thread_order v ≡ true)
            × ((before : TraceLocation)
                → get_elem? p.thread_endpoints (thread_of loc) ≡ some (some before)
                → v before.name < v loc.name))
      × (get_elem? q.thread_endpoints (thread_of loc) ≡ some (some loc))

  note_location-Placed :
      (loc : TraceLocation) (p q : Preparation)
      → P loc
      → IsKept P trace threads n p.strace
      → note_location loc p ≡ some q
      → Placed loc p q
  unfolding note_location
  note_location-Placed loc p q at_loc k e =
      elim (Option-cases (note_operation loc.symbol.operation loc p)) [
        | inl failed ↦ absurd (ground arith)
        | inr (noted, found) ↦
            elim (Option-cases (get_elem? noted.0.thread_endpoints (thread_of loc))) [
              | inl failed ↦ absurd (ground arith)
              | inr (before, at_thread) ↦ subst (Placed loc p) (same noted before found at_thread) (
                  placed noted before found at_thread (
                    note_operation-Noted P trace threads n loc.symbol.operation loc p noted.0
                      noted.1 at_loc k found))
            ]
      ]
    where
      next : Preparation × Bool → Option TraceLocation → Preparation
      next noted before = record noted.0 {
        strace = link loc before noted.1 noted.0.strace;
        thread_endpoints = set noted.0.thread_endpoints (thread_of loc) (some loc);
      }

      same :
          (noted : Preparation × Bool) (before : Option TraceLocation)
          → note_operation loc.symbol.operation loc p ≡ some noted
          → get_elem? noted.0.thread_endpoints (thread_of loc) ≡ some before
          → next noted before ≡ q
      same noted before found at_thread = some-inj (rw (found, at_thread) at e)

      endpoint :
          (noted : Preparation × Bool) (before : Option TraceLocation) (b : TraceLocation)
          → get_elem? noted.0.thread_endpoints (thread_of loc) ≡ some before
          → get_elem? noted.0.thread_endpoints (thread_of loc) ≡ some (some b)
          → before ≡ some b
      endpoint noted before b c d = cc

      placed :
          (noted : Preparation × Bool) (before : Option TraceLocation)
          → note_operation loc.symbol.operation loc p ≡ some noted
          → get_elem? noted.0.thread_endpoints (thread_of loc) ≡ some before
          → Noted P trace threads n p noted.0
          → Placed loc p (next noted before)
      placed noted before found at_thread (k', order, endpoints) = (
        link-IsKept loc before noted.1 noted.0.strace k',
        λ v h.
            let (h', after) = link_order v loc before noted.1 noted.0.strace h in
            (
              subst (λ (o : Expr). o v ≡ true) order h',
              λ b at_b.
                  subst (λ o. IsAfter v o loc)
                    (endpoint noted before b at_thread
                      (ap (λ l. get_elem? l (thread_of loc)) endpoints ∙ at_b))
                    after,
            ),
        ground (
          arith,
          get_elem?-set noted.0.thread_endpoints (thread_of loc) (thread_of loc) (some loc)
              (lt_of_get_elem? noted.0.thread_endpoints (thread_of loc) at_thread),
        ),
      )

  -- The locations of a thread come after its endpoint, in their order.
  abbrev ThreadPlaced : ℕ → List TraceLocation → Preparation → Preparation → Type κ
  ThreadPlaced t th p q =
      IsKept P trace threads n q.strace
      × ((v : Model)
          → q.strace.thread_order v ≡ true
          → (p.strace.thread_order v ≡ true)
            × IsSorted v th
            × ((before : TraceLocation)
                → get_elem? p.thread_endpoints t ≡ some (some before)
                → All (λ m. v before.name < v m.name) th))

  abbrev pub IsOf : ℕ → TraceLocation → Type κ
  IsOf t l = (thread_of l ≡ t) × P l

  note_thread-ThreadPlaced :
      (t : ℕ) (th : List TraceLocation) (p q : Preparation)
      → All (IsOf t) th
      → IsKept P trace threads n p.strace
      → note_thread th p ≡ some q
      → ThreadPlaced t th p q
  unfolding note_thread
  note_thread-ThreadPlaced t [] p q h k e =
      subst (ThreadPlaced t [] p) (same e) (k, λ v o. (o, tt, λ b c. tt))
    where
      same : some p ≡ some q → p ≡ q
      same c = cc
  note_thread-ThreadPlaced t (loc ∷ th) p q ((own, at_loc), h) k e =
      elim (Option-cases (note_location loc p)) [
        | inl failed ↦ absurd (ground arith)
        | inr (p', found) ↦
            let (k', ordered, ends) = note_location-Placed loc p p' at_loc k found in
            let (k'', later) = note_thread-ThreadPlaced t th p' q h k' (rw found at e) in
            (
              k'',
              λ v o.
                  let (o', sorted, after) = later v o in
                  let (o'', first) = ordered v o' in
                  let next =
                    after loc
                      (subst (λ i. get_elem? p'.thread_endpoints i ≡ some (some loc)) own ends) in
                  (
                    o'',
                    (next, sorted),
                    λ before b.
                        let lt = first before (
                          subst (λ i. get_elem? p.thread_endpoints i ≡ some (some before)) (sym own)
                            b) in
                        (lt, lt-All v before loc th lt next),
                  ),
            )
      ]

  -- All of `ths` are in their order.
  abbrev pub AllPlaced : List (List TraceLocation) → Preparation → Preparation → Type κ
  AllPlaced ths p q =
      IsKept P trace threads n q.strace
      × ((v : Model)
          → q.strace.thread_order v ≡ true
          → (p.strace.thread_order v ≡ true) × All (IsSorted v) ths)

  pub note_threads-AllPlaced :
      (ths : List (List TraceLocation)) (p q : Preparation)
      → All (λ th. (t : ℕ) × All (IsOf t) th) ths
      → IsKept P trace threads n p.strace
      → note_threads ths p ≡ some q
      → AllPlaced ths p q
  unfolding note_threads
  note_threads-AllPlaced [] p q h k e = subst (AllPlaced [] p) (same e) (k, λ v o. (o, tt))
    where
      same : some p ≡ some q → p ≡ q
      same c = cc
  note_threads-AllPlaced (th ∷ ths) p q ((t, h), hs) k e = elim (Option-cases (note_thread th p)) [
    | inl failed ↦ absurd (ground arith)
    | inr (p', found) ↦
        let (k', ordered) = note_thread-ThreadPlaced t th p p' h k found in
        let (k'', later) = note_threads-AllPlaced ths p' q hs k' (rw found at e) in
        (
          k'',
          λ v o.
              let (o', sorted) = later v o in
              let (o'', own, _) = ordered v o' in (o'', (own, sorted)),
        )
  ]

pub close_threads_order :
    (final : TraceLocation) (endpoints : List (Option TraceLocation)) (order : Expr) (v : Model)
    → close_threads final endpoints order v ≡ true
    → order v ≡ true
unfolding close_threads
close_threads_order final [] order v h = h
close_threads_order final (none ∷ es) order v h = close_threads_order final es order v h
close_threads_order final (some e ∷ es) order v h =
    (&&-true (order v) (less e final v)
      (close_threads_order final es (both order (less e final)) v h)).0
