-- ===== src/Examples/Deadlocks.antt =====
-- The search for deadlocks on small automata.
use mathlib.Core.List.{reverse}
use liss.Common.{
  ℕ, zero, suc, ◌≡◌, ◌≢◌, refl, ==_refl, ==_iff, false, List, [], ◌∷◌, arith, ◌==◌, Memᴰ, All, ap,
  subst,
}
use liss.Automata.Deadlock.{Searched, no_deadlock, deadlock, null_chain, out_of_fuel, run}
use liss.Automata.Deadlock.Sound.{initial, further, IsDead, Reports, run-Reports}
use liss.Automata.Deadlock.Complete.{IsCongruence, run_complete}
use liss.Automata.Deadlock.Fuel.{fuel_for, run-ends}

-- 0 to 1 by the symbol 7, from where the offered symbol 8 leads nowhere.
abbrev steps : ℕ → ℕ → List ℕ
steps zero s = 1 ∷ []
steps (suc n) s = []

abbrev offers : ℕ → List ℕ
offers zero = 7 ∷ []
offers (suc n) = 8 ∷ []

abbrev stuck : Searched ℕ ℕ
stuck = record {
  initial_states = 0 ∷ [];
  is_final_state = λ s. false;
  successors = steps;
  next_symbols = offers;
  equal = ◌==◌;
  assume = λ s. false;
  to_list = reverse;
}

-- The same, with 1 a final state.
abbrev fine : Searched ℕ ℕ
fine = record stuck { is_final_state = λ s. s == 1 }

finds :
    run stuck 3
    ≡ deadlock (record { dead_state = 1; impossible_successors = 8 ∷ []; counter_example = 7 ∷ [] })
unfolding run
finds = refl

finds_none : run fine 3 ≡ no_deadlock
unfolding run
finds_none = refl

-- An initial state that is dead has no chain.
dead_start : run (record stuck { initial_states = 1 ∷ [] }) 3 ≡ null_chain 1
unfolding run
dead_start = refl

run-Reports_example : Reports stuck (run stuck 3)
run-Reports_example = run-Reports stuck 3

fine-IsCongruence : IsCongruence fine
fine-IsCongruence = record {
  equal_refl = ==_refl;
  equal_sym = λ s t e. ground arith;
  equal_trans = λ s t u e q. ground arith;
  same_symbols = λ s t e. ap offers ((==_iff s t).0 e);
  same_final = λ s t e. ap (λ u. u == 1) ((==_iff s t).0 e);
  same_successors =
      λ s t u sigma e m. (u, subst (λ x. Memᴰ u (steps x sigma)) ((==_iff s t).0 e) m, ==_refl u);
}

run_complete_example : ¬ IsDead fine 1
run_complete_example =
    run_complete fine fine-IsCongruence 3 (7 ∷ []) 1 finds_none
      (further [] 0 1 7 (initial 0 (Memᴰ.head refl)) (Memᴰ.head refl) (Memᴰ.head refl))

run-ends_example : run stuck (fuel_for stuck (0 ∷ 1 ∷ [])) ≢ out_of_fuel
run-ends_example =
    run-ends stuck (0 ∷ 1 ∷ []) ==_refl ((Memᴰ.head refl, tt), (λ s sigma m. closed s sigma))
  where
    closed : (s sigma : ℕ) → All (λ t. Memᴰ t (0 ∷ 1 ∷ [])) (steps s sigma)
    closed zero sigma = (Memᴰ.tail (Memᴰ.head refl), tt)
    closed (suc n) sigma = tt
