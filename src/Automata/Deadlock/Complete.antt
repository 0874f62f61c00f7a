-- ===== src/Automata/Deadlock/Complete.antt =====
-- When the search reports nothing, no state that can be reached is dead.
use mathlib.Core.List.Memᴰ
use liss.Common.{
  ℕ, zero, suc, ◌≡◌, ◌⊎◌, inl, inr, refl, sym, ap, ◌∙◌, subst, true, false, List, [], ◌∷◌, ◌++◌,
  any, is_empty, any_exists, All, All-map, List-cases, Bool-cases, Memᴰ,
}
use liss.Automata.Deadlock.{
  Searched, FrontierItem, no_deadlock, initial_states_conv, add_states, expand, expand_all, is_dead,
  report, search, run,
}
use liss.Automata.Deadlock.Sound.{PathTo, IsDead}

module _ {ℓ κ} {S : Type ℓ} {A : Type κ} (aut : Searched S A) where
  -- The test of the states is transitive and symmetric, and equal states offer the same symbols,
  -- are both final or not, and have equal successors.
  pub record IsCongruence : Type (ℓ ⊔ κ) where
    pub equal_refl : (s : S) → aut.equal s s ≡ true
    pub equal_sym : (s t : S) → aut.equal s t ≡ true → aut.equal t s ≡ true
    pub equal_trans :
        (s t u : S) → aut.equal s t ≡ true → aut.equal t u ≡ true → aut.equal s u ≡ true
    pub same_symbols : (s t : S) → aut.equal s t ≡ true → aut.next_symbols s ≡ aut.next_symbols t
    pub same_final : (s t : S) → aut.equal s t ≡ true → aut.is_final_state s ≡ aut.is_final_state t
    pub same_successors :
        (s t u : S) (sigma : A)
        → aut.equal s t ≡ true
        → Memᴰ u (aut.successors s sigma)
        → (v : S) × Memᴰ v (aut.successors t sigma) × (aut.equal u v ≡ true)

  -- An equal state is among `reachable` or on the frontier.
  abbrev Known : List S → List (FrontierItem S A) → S → Type (ℓ ⊔ κ)
  Known reachable frontier t =
      (u : S) × (aut.equal t u ≡ true)
      × (Memᴰ u reachable ⊎ ((i : FrontierItem S A) × Memᴰ i frontier × (i.s ≡ u)))

  abbrev Settled : List S → List (FrontierItem S A) → S → Type (ℓ ⊔ κ)
  Settled reachable frontier s =
      (IsDead aut s → ⊥)
      × ((t : S) (sigma : A)
          → Memᴰ sigma (aut.next_symbols s)
          → Memᴰ t (aut.successors s sigma)
          → Known reachable frontier t)

  add_states_mem :
      (chain : List A) (sigma : A) (l : List S) (t : S)
      → Memᴰ t l
      → (i : FrontierItem S A) × Memᴰ i (add_states chain sigma l) × (i.s ≡ t)
  add_states_mem chain sigma [] t m = elim m [ ]
  add_states_mem chain sigma (u ∷ l) t (Memᴰ.head e) =
      (record { s = u; cex_chain = sigma ∷ chain }, Memᴰ.head refl, sym e)
  add_states_mem chain sigma (u ∷ l) t (Memᴰ.tail m) =
      let (i, n, e) = add_states_mem chain sigma l t m in (i, Memᴰ.tail n, e)

  expand_mem :
      (current : FrontierItem S A) (symbols : List A) (t : S) (sigma : A)
      → Memᴰ sigma symbols
      → Memᴰ t (aut.successors current.s sigma)
      → (i : FrontierItem S A) × Memᴰ i (expand aut current symbols) × (i.s ≡ t)
  unfolding expand
  expand_mem current [] t sigma m n = elim m [ ]
  expand_mem current (tau ∷ symbols) t sigma (Memᴰ.tail m) n =
      let (i, k, e) = expand_mem current symbols t sigma m n in
      (i, Memᴰ.append_right (add_states current.cex_chain tau (aut.successors current.s tau)) k, e)
  expand_mem current (tau ∷ symbols) t sigma (Memᴰ.head q) n =
      let (i, k, e) =
        add_states_mem current.cex_chain tau (aut.successors current.s tau) t
          (subst (λ x. Memᴰ t (aut.successors current.s x)) q n) in
      (i, Memᴰ.append_left (expand aut current symbols) k, e)

  expand_quiet :
      (current : FrontierItem S A) (symbols : List A)
      → All (λ sigma. (aut.successors current.s sigma ≡ []) × (aut.assume sigma ≡ false)) symbols
      → (is_empty (expand aut current symbols) ≡ true) × (any aut.assume symbols ≡ false)
  unfolding expand
  expand_quiet current [] h = (refl, refl)
  expand_quiet current (sigma ∷ symbols) h =
      let (e, q) = expand_quiet current symbols h.1 in (rw (h.0.0) e, rw (h.0.1) q)

  IsDead-is_dead : (current : FrontierItem S A) → IsDead aut current.s → is_dead aut current ≡ true
  unfolding is_dead
  IsDead-is_dead current (not_final, quiet) =
      let (e, q) = expand_quiet current (aut.next_symbols current.s) quiet in
      rw (not_final, e, q) refl

  Settled-map :
      (r r' : List S) (f f' : List (FrontierItem S A))
      → ((t : S) → Known r f t → Known r' f' t)
      → (s : S) → Settled r f s
      → Settled r' f' s
  Settled-map r r' f f' k s (live, succs) = (live, λ t sigma m n. k t (succs t sigma m n))

  -- A set of states that holds all that is known, up to equality, and is settled.
  abbrev Closes : List S → List (FrontierItem S A) → Type (ℓ ⊔ κ)
  Closes reachable frontier =
      (final : List S) × ((t : S)
        → Known reachable frontier t
        → (u : S) × Memᴰ u final × (aut.equal t u ≡ true))
      × ((s : S) → Memᴰ s final → Settled final [] s)

  Closes-map :
      (r r' : List S) (f f' : List (FrontierItem S A))
      → ((t : S) → Known r f t → Known r' f' t)
      → Closes r' f'
      → Closes r f
  Closes-map r r' f f' k (final, a, b) = (final, (λ t q. a t (k t q)), b)

  report-says : (chain : List A) (s : S) → report aut s chain ≡ no_deadlock → ⊥
  unfolding report
  report-says [] s e = cc
  report-says (sigma ∷ chain) s e = cc

  module _ (congruence : IsCongruence) where
    Known-seen :
        (reachable : List S) (frontier : List (FrontierItem S A)) (current : FrontierItem S A)
        → any (aut.equal current.s) reachable ≡ true
        → (t : S) → Known reachable (current ∷ frontier) t
        → Known reachable frontier t
    Known-seen reachable frontier current seen t (u, e, inl m) = (u, e, inl m)
    Known-seen reachable frontier current seen t (u, e, inr (i, Memᴰ.tail m, q)) =
        (u, e, inr (i, m, q))
    Known-seen reachable frontier current seen t (u, e, inr (i, Memᴰ.head p, q)) =
        let (r, m, eq) = any_exists (aut.equal current.s) reachable seen in
        (
          r,
          congruence.equal_trans t u r e
              (subst (λ x. aut.equal x r ≡ true) (ap (λ j. j.s) (sym p) ∙ q) eq),
          inl m,
        )

    Known-new :
        (reachable : List S) (frontier : List (FrontierItem S A)) (current : FrontierItem S A)
        → (t : S) → Known reachable (current ∷ frontier) t
        → Known (current.s ∷ reachable) (frontier ++ expand_all aut current) t
    Known-new reachable frontier current t (u, e, inl m) = (u, e, inl (Memᴰ.tail m))
    Known-new reachable frontier current t (u, e, inr (i, Memᴰ.tail m, q)) =
        (u, e, inr (i, Memᴰ.append_left (expand_all aut current) m, q))
    Known-new reachable frontier current t (u, e, inr (i, Memᴰ.head p, q)) =
        (u, e, inl (Memᴰ.head (sym q ∙ ap (λ j. j.s) p)))

    Settled-new :
        (reachable : List S) (frontier : List (FrontierItem S A)) (current : FrontierItem S A)
        → is_dead aut current ≡ false
        → ((s : S) → Memᴰ s reachable → Settled reachable (current ∷ frontier) s)
        → (s : S) → Memᴰ s (current.s ∷ reachable)
        → Settled (current.s ∷ reachable) (frontier ++ expand_all aut current) s
    Settled-new reachable frontier current alive h s (Memᴰ.tail m) =
        Settled-map reachable (current.s ∷ reachable) (current ∷ frontier)
          (frontier ++ expand_all aut current) (Known-new reachable frontier current) s (h s m)
    Settled-new reachable frontier current alive h s (Memᴰ.head e) =
        subst (Settled (current.s ∷ reachable) (frontier ++ expand_all aut current)) (sym e) (
          (λ d. cc_of (IsDead-is_dead current d)),
          λ t sigma m n.
              let (i, k, q) = expand_mem current (aut.next_symbols current.s) t sigma m n in
              (t, congruence.equal_refl t, inr (i, Memᴰ.append_right frontier k, q)),
        )
      where
        cc_of : is_dead aut current ≡ true → ⊥
        cc_of q = cc

    Known-nil :
        (reachable : List S) (t : S)
        → Known reachable [] t
        → (u : S) × Memᴰ u reachable × (aut.equal t u ≡ true)
    Known-nil reachable t (u, q, inl m) = (u, m, q)
    Known-nil reachable t (u, q, inr (i, m, p)) = absurd (Memᴰ.not-nil m)

    -- A dead state is dead in every equal one.
    IsDead-equal : (s u : S) → aut.equal s u ≡ true → IsDead aut s → IsDead aut u
    IsDead-equal s u q (not_final, quiet) = (
      sym (congruence.same_final s u q) ∙ not_final,
      subst (All (λ sigma. (aut.successors u sigma ≡ []) × (aut.assume sigma ≡ false)))
          (congruence.same_symbols s u q)
          (All-map (λ sigma. (aut.successors s sigma ≡ []) × (aut.assume sigma ≡ false))
            (λ sigma. (aut.successors u sigma ≡ []) × (aut.assume sigma ≡ false))
            (aut.next_symbols s) (λ sigma h. (none_left sigma h.0, h.1)) quiet),
    )
      where
        none_left : (sigma : A) → aut.successors s sigma ≡ [] → aut.successors u sigma ≡ []
        none_left sigma e = elim (List-cases (aut.successors u sigma)) [
          | inl none_there ↦ none_there
          | inr (t, l, some_there) ↦
              let (v, m, eq) =
                congruence.same_successors u s t sigma (congruence.equal_sym s u q)
                  (subst (Memᴰ t) (sym some_there) (Memᴰ.head refl)) in
              absurd (Memᴰ.not-nil (subst (Memᴰ v) e m))
        ]

    search-Closes :
        (fuel : ℕ) (reachable : List S) (frontier : List (FrontierItem S A))
        → ((s : S) → Memᴰ s reachable → Settled reachable frontier s)
        → search aut fuel reachable frontier ≡ no_deadlock
        → Closes reachable frontier
    unfolding search
    search-Closes fuel reachable [] h e = (reachable, Known-nil reachable, h)
    search-Closes zero reachable (current ∷ frontier) h e = cc
    search-Closes (suc fuel) reachable (current ∷ frontier) h e =
        elim (Bool-cases (any (aut.equal current.s) reachable)) [
          | inl seen ↦
              let k = Known-seen reachable frontier current seen in
              Closes-map reachable reachable (current ∷ frontier) frontier k (
                search-Closes fuel reachable frontier
                  (λ s m. Settled-map reachable reachable (current ∷ frontier) frontier k s (h s m))
                  (rw (seen, search) at e))
          | inr new ↦ elim (Bool-cases (is_dead aut current)) [
            | inl dead ↦
                absurd (report-says current.cex_chain current.s (rw (new, search, dead) at e))
            | inr alive ↦
                Closes-map reachable (current.s ∷ reachable) (current ∷ frontier)
                  (frontier ++ expand_all aut current) (Known-new reachable frontier current)
                  (search-Closes fuel (current.s ∷ reachable) (frontier ++ expand_all aut current)
                    (Settled-new reachable frontier current alive h) (rw (new, search, alive) at e))
          ]
        ]

    conv_mem :
        (l : List S) (s : S)
        → Memᴰ s l
        → (i : FrontierItem S A) × Memᴰ i (initial_states_conv l) × (i.s ≡ s)
    unfolding initial_states_conv
    conv_mem [] s m = elim m [ ]
    conv_mem (t ∷ l) s (Memᴰ.head e) = (record { s = t; cex_chain = [] }, Memᴰ.head refl, sym e)
    conv_mem (t ∷ l) s (Memᴰ.tail m) = let (i, n, e) = conv_mem l s m in (i, Memᴰ.tail n, e)

    covered :
        (c : Closes [] (initial_states_conv aut.initial_states)) (chain : List A) (s : S)
        → PathTo aut chain s
        → (u : S) × Memᴰ u c.0 × (aut.equal s u ≡ true)
    covered (final, a, b) chain s (PathTo.initial _ m) =
        let (i, n, e) = conv_mem aut.initial_states s m in
        a s (s, congruence.equal_refl s, inr (i, n, e))
    covered (final, a, b) chain t (PathTo.further l s _ sigma p offered m) =
        let (u, k, q) = covered (final, a, b) l s p in
        let (v, n, q') = congruence.same_successors s u t sigma q m in
        let (w, o, q'') =
          Known-nil final v
            ((b u k).1 v sigma (subst (Memᴰ sigma) (congruence.same_symbols s u q) offered) n) in
        (w, o, congruence.equal_trans t v w q' q'')

    -- When the search ends without a report, no state that a path leads to is dead: it is final, or
    -- an offered symbol has a successor or is an assumption.
    pub run_complete :
        (fuel : ℕ) (chain : List A) (s : S)
        → run aut fuel ≡ no_deadlock
        → PathTo aut chain s
        → ¬ IsDead aut s
    unfolding run
    run_complete fuel chain s e p d =
        let c =
          search-Closes fuel [] (initial_states_conv aut.initial_states)
            (λ s m. absurd (Memᴰ.not-nil m)) e in
        let (u, m, q) = covered c chain s p in (c.2 u m).0 (IsDead-equal s u q d)
