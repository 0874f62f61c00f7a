-- ===== src/Examples/Placed.antt =====
-- Two threads that read a variable in a loop and then wait, and one lock round the reads.
use liss.Common.{
  ltb, ℕ, zero, suc, ◌+◌, ◌*◌, ◌≡◌, ◌⊎◌, refl, inl, inr, subst, Bool, true, false, ◌&&◌, List, [],
  ◌∷◌, none, some, Memᴰ, arith, ◌==◌, count_from, Bool-cases, some-inj,
}
use liss.Common.Int.{pos, ◌==ℤ◌}
use liss.Abstraction.Symbol.{Location, read, wait, is_unlockable_point}
use liss.Synthesis.Traces.{LockSymbols}
use liss.Cfg.Graph.{AbstractCfg, State, Edge, dummy_state, action_state}
use liss.Placement.{Assignment}
use liss.Placement.Constraints.{
  add_constraints, all_rules, lock_consistancy, thread_rules, first_loop, second_loop, state_rules,
  place_rules, preemption_rules, predecessor_rules, return_rules, entry_rules, from_rules,
  join_rules, lock_order_before, lock_order_after, predecessors, predecessors_forward, states_of,
  lock_sameinstr, same_rules, cached, cache_threads, cache_states, push_site, conjunction,
}
use liss.Placement.Rules.{Satisfies, IsEdge}
use liss.Placement.Held.{IsLaidOut}
use liss.Placement.Invariant.{AreLaidOut}
use liss.Placement.System.{
  Config, Reachable, start, later, started, moved, entering, leaving, handle_before, execute,
  handle_after, follow,
}
use liss.Examples.Data.{make_symbol}

abbrev straight : ℕ → Edge
straight to = record { back_edge = false; tag = none; to = to; cost = pos 0; in_betweeners = [] }

abbrev back : ℕ → Edge
back to = record { back_edge = true; tag = none; to = to; cost = pos 0; in_betweeners = [] }

-- The read of thread `t`, with its places in the source text.
abbrev pub read_at : ℕ → State
read_at t = record (action_state (make_symbol read 0 t 2)) {
  lock_before = 10 * t + 1;
  lock_after = 10 * t + 2;
}

-- 1 → 2, 2 → 2 and 2 → 3.
abbrev pub reader : ℕ → AbstractCfg
reader t = record {
  name = "reader";
  thread_id = t;
  states =
      dummy_state t 0 ∷ dummy_state t 1 ∷ read_at t ∷ action_state (make_symbol wait 1 t 3) ∷ [];
  edges = [] ∷ (straight 2 ∷ []) ∷ (back 2 ∷ straight 3 ∷ []) ∷ [] ∷ [];
}

abbrev pub readers : List AbstractCfg
readers = reader 0 ∷ reader 1 ∷ []

-- One disjunction with one conjunction: the two reads.
abbrev pub conflict : LockSymbols
conflict = (((make_symbol read 0 0 2 ∷ []) ∷ (make_symbol read 0 1 2 ∷ []) ∷ []) ∷ []) ∷ []

abbrev pub round_read : Location → ℕ → Bool
round_read x l = ltb x.thread 2 && x.state ==ℤ pos 2 && l == 0

-- Lock 0 is taken before each read and released after it.
abbrev pub one_lock : Assignment
one_lock = record {
  lock_b = round_read;
  unlock_b = λ x l. false;
  lock_a = λ x l. false;
  unlock_a = round_read;
  in_lock = round_read;
  lock_id = λ k. 0;
}

pub one_lock-Satisfies : Satisfies one_lock (add_constraints readers (count_from 0 1))
unfolding add_constraints all_rules lock_consistancy thread_rules first_loop second_loop state_rules
    place_rules preemption_rules predecessor_rules return_rules entry_rules from_rules join_rules
    lock_order_before lock_order_after predecessors predecessors_forward states_of lock_sameinstr
    same_rules cached cache_threads cache_states push_site conjunction is_unlockable_point
    dummy_state action_state
one_lock-Satisfies = refl

-- The edges of the graph.
reader-edges :
    (t i j : ℕ) → IsEdge (reader t) i j → ((i ≡ 1) × (j ≡ 2)) ⊎ ((i ≡ 2) × ((j ≡ 2) ⊎ (j ≡ 3)))
reader-edges t zero j e = cc
reader-edges t (suc zero) j e = inl (refl, ground arith)
reader-edges t (suc (suc zero)) j e = elim (Bool-cases (2 == j)) [
  | inl q ↦ inr (refl, inl (ground arith))
  | inr q ↦ inr (refl, inr (ground arith))
]
reader-edges t (suc (suc (suc zero))) j e = cc
reader-edges t (suc (suc (suc (suc i)))) j e = cc

reader-IsLaidOut : (t : ℕ) → IsLaidOut (reader t)
unfolding predecessors predecessors_forward dummy_state
reader-IsLaidOut t = record {
  initial = (dummy_state t 1, (omega arith, refl));
  unreached = refl;
  targets = λ i j s at_i e. elim (reader-edges t i j e) [
    | inl (_, q) ↦ rw q (read_at t, (omega arith, refl))
    | inr (_, inl q) ↦ rw q (read_at t, (omega arith, refl))
    | inr (_, inr q) ↦ rw q (action_state (make_symbol wait 1 t 3), (omega arith, refl))
  ];
  forward = λ i j s at_i e. elim (reader-edges t i j e) [
    | inl (_, q) ↦ rw q (1, Memᴰ.head refl)
    | inr (_, inl q) ↦ rw q (1, Memᴰ.head refl)
    | inr (_, inr q) ↦ rw q (2, Memᴰ.head refl)
  ];
}

pub readers-AreLaidOut : AreLaidOut readers
readers-AreLaidOut zero g e = subst IsLaidOut (some-inj e) (reader-IsLaidOut 0)
readers-AreLaidOut (suc zero) g e = subst IsLaidOut (some-inj e) (reader-IsLaidOut 1)
readers-AreLaidOut (suc (suc t)) g e = cc

-- Thread 0 goes from the start into its read.
abbrev at_start : Config
at_start = started 1

abbrev before_first : Config
before_first = moved one_lock at_start 0 (entering none 1 0)

abbrev after_first : Config
after_first = moved one_lock before_first 0 (leaving 1 1)

abbrev after_handling : Config
after_handling = moved one_lock after_first 0 (leaving 1 0)

abbrev pub before_read : Config
before_read = moved one_lock after_handling 0 (entering (some 1) 2 1)

abbrev pub in_read : Config
in_read = moved one_lock before_read 0 (entering (some 1) 2 0)

pub before_read-Reachable : Reachable one_lock 1 readers before_read
before_read-Reachable =
    later {g = reader 0}
      (later {g = reader 0}
        (later {g = reader 0} (later {g = reader 0} start refl handle_before (λ l u h. refl)) refl
          execute (λ l u h. cc))
        refl handle_after (λ l u h. ground arith))
      refl (follow refl) (λ l u h. cc)

pub in_read-Reachable : Reachable one_lock 1 readers in_read
in_read-Reachable =
    later {g = reader 0} before_read-Reachable refl handle_before (λ l u h. ground arith)

-- It goes on to the wait.
abbrev after_read : Config
after_read = moved one_lock in_read 0 (leaving 2 1)

abbrev after_release : Config
after_release = moved one_lock after_read 0 (leaving 2 0)

abbrev before_wait : Config
before_wait = moved one_lock after_release 0 (entering (some 2) 3 1)

abbrev pub in_wait : Config
in_wait = moved one_lock before_wait 0 (entering (some 2) 3 0)

pub in_wait-Reachable : Reachable one_lock 1 readers in_wait
in_wait-Reachable =
    later {g = reader 0}
      (later {g = reader 0}
        (later {g = reader 0} (later {g = reader 0} in_read-Reachable refl execute (λ l u h. cc))
          refl handle_after (λ l u h. ground arith))
        refl (follow refl) (λ l u h. cc))
      refl handle_before (λ l u h. ground arith)
