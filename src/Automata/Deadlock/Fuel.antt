-- ===== src/Automata/Deadlock/Fuel.antt =====
-- Enough fuel: the search ends when its states are among finitely many.
use liss.Common.{
  ℕ, zero, suc, ◌+◌, ◌≤◌, ◌≡◌, inl, inr, refl, ap, subst, true, false, ◌||◌, List, [], ◌∷◌, ◌++◌,
  arith, if◌then◌else◌, length, length-append, any, All, All-append, Bool-cases, Memᴰ, ◌≢◌,
}
use liss.Automata.Deadlock.{
  Searched, FrontierItem, out_of_fuel, initial_states_conv, add_states, expand, expand_all, is_dead,
  report, search, run,
}

module _ {ℓ κ} {S : Type ℓ} {A : Type κ} (aut : Searched S A) where
  -- How many items the loops push back for a state.
  pushed : S → List A → ℕ
  pushed s [] = 0
  pushed s (sigma ∷ symbols) = length (aut.successors s sigma) + pushed s symbols

  -- The items of the frontier, and those that the states not yet met will push.
  unmet : List S → List S → ℕ
  unfolding pushed
  unmet reachable [] = 0
  unmet reachable (u ∷ states) =
      (if any (aut.equal u) reachable then 0 else pushed u (aut.next_symbols u))
      + unmet reachable states

  -- One round for every initial state and for every successor of one of `states`.
  unfoldable pub fuel_for : List S → ℕ
  unfolding unmet
  fuel_for states = length aut.initial_states + unmet [] states

  abbrev pub IsClosed : List S → Type (ℓ ⊔ κ)
  IsClosed states =
      All (λ s. Memᴰ s states) aut.initial_states
      × ((s : S) (sigma : A) → Memᴰ s states → All (λ t. Memᴰ t states) (aut.successors s sigma))

  abbrev Within : List S → FrontierItem S A → Type ℓ
  Within states item = Memᴰ item.s states

  length-add_states :
      (chain : List A) (sigma : A) (l : List S) → length (add_states chain sigma l) ≡ length l
  length-add_states chain sigma [] = refl
  length-add_states chain sigma (t ∷ l) = ap suc (length-add_states chain sigma l)

  length-expand :
      (current : FrontierItem S A) (symbols : List A)
      → length (expand aut current symbols) ≡ pushed current.s symbols
  unfolding expand pushed
  length-expand current [] = refl
  length-expand current (sigma ∷ symbols) =
      let l = aut.successors current.s sigma in
      omega (
        arith,
        length-append (add_states current.cex_chain sigma l) (expand aut current symbols),
        length-add_states current.cex_chain sigma l,
        length-expand current symbols,
      )

  length-conv : (l : List S) → length (initial_states_conv {A = A} l) ≡ length l
  unfolding initial_states_conv
  length-conv [] = refl
  length-conv (s ∷ l) = ap suc (length-conv l)

  unmet_mono :
      (s : S) (reachable states : List S) → unmet (s ∷ reachable) states ≤ unmet reachable states
  unfolding unmet
  unmet_mono s reachable [] = omega arith
  unmet_mono s reachable (u ∷ states) = ground (arith, unmet_mono s reachable states)

  unmet_drop :
      (s : S) (reachable states : List S)
      → ((a : S) → aut.equal a a ≡ true)
      → any (aut.equal s) reachable ≡ false
      → Memᴰ s states
      → pushed s (aut.next_symbols s) + unmet (s ∷ reachable) states ≤ unmet reachable states
  unfolding unmet
  unmet_drop s reachable [] eq_refl new m = elim m [ ]
  unmet_drop s reachable (u ∷ states) eq_refl new (Memᴰ.tail m) =
      ground (arith, unmet_drop s reachable states eq_refl new m)
  unmet_drop s reachable (u ∷ states) eq_refl new (Memᴰ.head e) =
      subst
        (λ v.
          pushed s (aut.next_symbols s)
            + ((if aut.equal v s || any (aut.equal v) reachable
                  then 0
                  else pushed v (aut.next_symbols v))
                + unmet (s ∷ reachable) states)
          ≤ (if any (aut.equal v) reachable then 0 else pushed v (aut.next_symbols v))
            + unmet reachable states)
        e (rw (eq_refl s, new) (omega (arith, unmet_mono s reachable states)))

  conv-Within :
      (states l : List S) → All (λ s. Memᴰ s states) l → All (Within states) (initial_states_conv l)
  unfolding initial_states_conv
  conv-Within states [] h = tt
  conv-Within states (s ∷ l) h = (h.0, conv-Within states l h.1)

  add_states-Within :
      (states : List S) (chain : List A) (sigma : A) (l : List S)
      → All (λ s. Memᴰ s states) l
      → All (Within states) (add_states chain sigma l)
  add_states-Within states chain sigma [] h = tt
  add_states-Within states chain sigma (t ∷ l) h = (h.0, add_states-Within states chain sigma l h.1)

  expand-Within :
      (states : List S) (current : FrontierItem S A) (symbols : List A)
      → IsClosed states
      → Within states current
      → All (Within states) (expand aut current symbols)
  unfolding expand
  expand-Within states current [] c m = tt
  expand-Within states current (sigma ∷ symbols) c m =
      All-append (Within states)
        (add_states current.cex_chain sigma (aut.successors current.s sigma))
        (expand aut current symbols)
        (add_states-Within states current.cex_chain sigma (aut.successors current.s sigma)
          (c.1 current.s sigma m))
        (expand-Within states current symbols c m)

  report-ends : (chain : List A) (s : S) → report aut s chain ≢ out_of_fuel
  unfolding report
  report-ends [] s e = cc
  report-ends (sigma ∷ chain) s e = cc

  search-ends :
      (fuel : ℕ) (states reachable : List S) (frontier : List (FrontierItem S A))
      → ((a : S) → aut.equal a a ≡ true)
      → IsClosed states
      → All (Within states) frontier
      → length frontier + unmet reachable states ≤ fuel
      → search aut fuel reachable frontier ≢ out_of_fuel
  unfolding search
  search-ends fuel states reachable [] r c w h = λ e. cc
  search-ends zero states reachable (current ∷ frontier) r c w h = absurd (ground arith)
  search-ends (suc fuel) states reachable (current ∷ frontier) r c w h =
      elim (Bool-cases (any (aut.equal current.s) reachable)) [
        | inl seen ↦
            rw (seen, search) (search-ends fuel states reachable frontier r c w.1 (ground arith))
        | inr new ↦ elim (Bool-cases (is_dead aut current)) [
          | inl dead ↦ rw (new, search, dead) (report-ends current.cex_chain current.s)
          | inr alive ↦
              rw (new, search, alive)
                (search-ends fuel states (current.s ∷ reachable)
                  (frontier ++ expand_all aut current) r c
                  (All-append (Within states) frontier (expand_all aut current) w.1
                    (expand-Within states current (aut.next_symbols current.s) c w.0))
                  (omega (
                    arith,
                    length-append frontier (expand_all aut current),
                    length-expand current (aut.next_symbols current.s),
                    unmet_drop current.s reachable states r new w.0,
                    h,
                  )))
        ]
      ]

  -- When the equality test is reflexive and `states` holds the initial states and with a state all
  -- its successors, the search ends within one round for every initial state and for every successor
  -- of a state of `states` by an offered symbol.
  pub run-ends :
      (states : List S)
      → ((a : S) → aut.equal a a ≡ true)
      → IsClosed states
      → run aut (fuel_for states) ≢ out_of_fuel
  unfolding run fuel_for
  run-ends states r c =
      search-ends (length aut.initial_states + unmet [] states) states []
        (initial_states_conv aut.initial_states) r c (conv-Within states aut.initial_states c.0)
        (omega (arith, length-conv aut.initial_states))
