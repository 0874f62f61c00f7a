-- ===== src/Automata/Deadlock/Sound.antt =====
-- What the search reports is a deadlock, and its counterexample leads there.
use liss.Common.{
  ℕ, zero, suc, ◌≡◌, inl, inr, refl, true, false, List, [], ◌∷◌, ◌++◌, arith, any, is_empty, All,
  All-append, Bool-cases, Memᴰ,
}
use liss.Automata.Deadlock.{
  Searched, FrontierItem, Outcome, no_deadlock, deadlock, null_chain, out_of_fuel,
  initial_states_conv, add_states, expand, expand_all, is_dead, report, search, run,
}

module _ {ℓ κ} {S : Type ℓ} {A : Type κ} where
  -- A path, its symbols from the last one to the first, each offered where it is taken.
  pub data PathTo (aut : Searched S A) : List A → S → Type (ℓ ⊔ κ) where
    initial : (s : S) → Memᴰ s aut.initial_states → PathTo aut [] s
    further :
        (chain : List A) (s t : S) (sigma : A)
        → PathTo aut chain s
        → Memᴰ sigma (aut.next_symbols s)
        → Memᴰ t (aut.successors s sigma)
        → PathTo aut (sigma ∷ chain) t

  -- Neither final nor left by an offered symbol, and no offered symbol is an assumption.
  abbrev pub IsDead : Searched S A → S → Type ℓ
  IsDead aut s =
      (aut.is_final_state s ≡ false)
      × All (λ sigma. (aut.successors s sigma ≡ []) × (aut.assume sigma ≡ false))
          (aut.next_symbols s)

  abbrev HasPath : Searched S A → FrontierItem S A → Type (ℓ ⊔ κ)
  HasPath aut item = PathTo aut item.cex_chain item.s

  -- What each way to end says. A null pointer is followed only at a dead initial state.
  abbrev pub Reports : Searched S A → Outcome S A → Type (ℓ ⊔ κ)
  Reports aut no_deadlock = Unit
  Reports aut out_of_fuel = Unit
  Reports aut (null_chain s) = PathTo aut [] s × IsDead aut s
  Reports aut (deadlock r) =
      ((chain : List A) × (r.counter_example ≡ aut.to_list chain) × PathTo aut chain r.dead_state)
      × IsDead aut r.dead_state
      × (r.impossible_successors ≡ aut.next_symbols r.dead_state)

  module _ (aut : Searched S A) where
    conv-HasPath :
        (l : List S)
        → ((s : S) → Memᴰ s l → Memᴰ s aut.initial_states)
        → All (HasPath aut) (initial_states_conv l)
    unfolding initial_states_conv
    conv-HasPath [] h = tt
    conv-HasPath (s ∷ l) h =
        (initial s (h s (Memᴰ.head refl)), conv-HasPath l (λ t m. h t (Memᴰ.tail m)))

    add_states-HasPath :
        (current : FrontierItem S A) (sigma : A) (l : List S)
        → HasPath aut current
        → Memᴰ sigma (aut.next_symbols current.s)
        → ((t : S) → Memᴰ t l → Memᴰ t (aut.successors current.s sigma))
        → All (HasPath aut) (add_states current.cex_chain sigma l)
    add_states-HasPath current sigma [] p m h = tt
    add_states-HasPath current sigma (t ∷ l) p m h = (
      further current.cex_chain current.s t sigma p m (h t (Memᴰ.head refl)),
      add_states-HasPath current sigma l p m (λ u n. h u (Memᴰ.tail n)),
    )

    expand-HasPath :
        (current : FrontierItem S A) (symbols : List A)
        → HasPath aut current
        → ((sigma : A) → Memᴰ sigma symbols → Memᴰ sigma (aut.next_symbols current.s))
        → All (HasPath aut) (expand aut current symbols)
    unfolding expand
    expand-HasPath current [] p h = tt
    expand-HasPath current (sigma ∷ symbols) p h =
        All-append (HasPath aut)
          (add_states current.cex_chain sigma (aut.successors current.s sigma))
          (expand aut current symbols)
          (add_states-HasPath current sigma (aut.successors current.s sigma) p
            (h sigma (Memᴰ.head refl)) (λ t m. m))
          (expand-HasPath current symbols p (λ s m. h s (Memᴰ.tail m)))

    expand_empty :
        (current : FrontierItem S A) (symbols : List A)
        → is_empty (expand aut current symbols) ≡ true
        → any aut.assume symbols ≡ false
        → All (λ sigma. (aut.successors current.s sigma ≡ []) × (aut.assume sigma ≡ false)) symbols
    unfolding expand
    expand_empty current [] e h = tt
    expand_empty current (sigma ∷ symbols) e h =
        let (a, b) = empty_append (aut.successors current.s sigma) e in
        ((a, ground arith), expand_empty current symbols b (ground arith))
      where
        empty_append :
            (l : List S)
            → is_empty (add_states current.cex_chain sigma l ++ expand aut current symbols) ≡ true
            → (l ≡ []) × (is_empty (expand aut current symbols) ≡ true)
        empty_append [] e = (refl, e)
        empty_append (t ∷ l) e = cc

    is_dead-IsDead :
        (current : FrontierItem S A) → is_dead aut current ≡ true → IsDead aut current.s
    unfolding is_dead
    is_dead-IsDead current h = (
      ground arith,
      expand_empty current (aut.next_symbols current.s) (ground arith) (ground arith),
    )

    report-Reports :
        (chain : List A) (s : S)
        → PathTo aut chain s
        → IsDead aut s
        → Reports aut (report aut s chain)
    unfolding report
    report-Reports [] s p d = (p, d)
    report-Reports (sigma ∷ chain) s p d = ((sigma ∷ chain, refl, p), d, refl)

    search-Reports :
        (fuel : ℕ) (reachable : List S) (frontier : List (FrontierItem S A))
        → All (HasPath aut) frontier
        → Reports aut (search aut fuel reachable frontier)
    unfolding search
    search-Reports fuel reachable [] h = tt
    search-Reports zero reachable (current ∷ frontier) h = tt
    search-Reports (suc fuel) reachable (current ∷ frontier) h =
        elim (Bool-cases (any (aut.equal current.s) reachable)) [
          | inl seen ↦ rw (seen, search) (search-Reports fuel reachable frontier h.1)
          | inr new ↦ elim (Bool-cases (is_dead aut current)) [
            | inl dead ↦
                rw (new, search, dead)
                  (report-Reports current.cex_chain current.s h.0 (is_dead-IsDead current dead))
            | inr alive ↦
                rw (new, search, alive)
                  (search-Reports fuel (current.s ∷ reachable) (frontier ++ expand_all aut current)
                    (All-append (HasPath aut) frontier (expand_all aut current) h.1
                      (expand-HasPath current (aut.next_symbols current.s) h.0 (λ s m. m))))
          ]
        ]

    -- A state that is reported is dead and is where the symbols of the chain lead, from the first
    -- symbol on; the counterexample is the list of the chain, and the impossible successors are the
    -- offered symbols. A null pointer is followed only at an initial state that is dead.
    pub run-Reports : (fuel : ℕ) → Reports aut (run aut fuel)
    unfolding run
    run-Reports fuel =
        search-Reports fuel [] (initial_states_conv aut.initial_states)
          (conv-HasPath aut.initial_states (λ s m. m))
