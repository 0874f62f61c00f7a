-- ===== src/Abstraction/Compressed/Explored.antt =====
-- abstraction/compressed_automaton.cpp, the loop over the symbols that are offered at a state: when it
-- ends, the state has all its transitions.
use liss.Common.{
  ℕ, ◌<◌, ◌≡◌, ◌⊎◌, inl, inr, refl, sym, subst, Bool, true, List, [], ◌∷◌, some, length, get_elem?,
  Memᴰ,
}
use liss.Abstraction.Compressed.{Inner}
use liss.Abstraction.Compressed.Explore.{
  Building, state_limit, add_letter, add_successors, explore_symbol, explore_symbols,
}
use liss.Abstraction.Compressed.Interned.{Decides, keys}
use liss.Abstraction.Compressed.Grown.{
  IsMapped, Grows, AreStates, one_state, Grows-refl, Grows-trans, known_kept, letters_kept,
}
use liss.Abstraction.Compressed.Added.{add_letter-Grows}
use liss.Abstraction.Compressed.Followed.{add_successors-Grows}
use liss.Abstraction.Compressed.Covered.{HasRow, add_transition-Grows}

module _ {ℓ κ} {S : Type ℓ} {A : Type κ} (ca : Inner S A) where
  -- The states `us` are closed under the successors, and offer the symbols `vs` only.
  pub record IsClosed (us : List S) (vs : List A) : Type (ℓ ⊔ κ) where
    pub letters : (s : S) → Memᴰ s us → (a : A) → Memᴰ a (ca.next_symbols s) → Memᴰ a vs
    pub states :
        (s : S)
        → Memᴰ s us
        → (a : A) → Memᴰ a (ca.next_symbols s)
        → (t : S) → Memᴰ t (ca.successors s a)
        → Memᴰ t us

  -- A symbol has a number and its mark, and its successors are in the row of the state.
  abbrev HasSymbol : Building S A → ℕ → S → A → Type (ℓ ⊔ κ)
  HasSymbol b sid s a =
      (c : ℕ) × (get_elem? (keys b.table.symbol_map) c ≡ some a)
      × (ca.is_epsilon a ≡ true → get_elem? b.epsilon c ≡ some true)
      × ((ca.successors s a ≡ []) ⊎ HasRow b sid c)

  -- All that a state has is there.
  pub record IsCovered (b : Building S A) (sid : ℕ) (s : S) : Type (ℓ ⊔ κ) where
    pub final : ca.is_final_state s ≡ true → get_elem? b.final sid ≡ some true
    pub symbols : (a : A) → Memᴰ a (ca.next_symbols s) → HasSymbol b sid s a

module _ {ℓ κ} {S : Type ℓ} {A : Type κ} (same : A → A → Bool) (equal : S → S → Bool)
    (less : S → S → Bool) (ca : Inner S A) (us : List S) (vs : List A) (decA : Decides same)
    (decS : Decides equal) (small : length us < state_limit) where
  HasSymbol_kept :
      {b b' : Building S A}
      → Grows same equal ca us vs b b'
      → (sid : ℕ) (s : S) (a : A) → HasSymbol ca b sid s a
      → HasSymbol ca b' sid s a
  HasSymbol_kept {b} {b'} g sid s a (c, e, m, row) = (
    c,
    letters_kept same equal ca us vs g c a e,
    λ q. g.marks c (m q),
    elim row [
      | inl none_there ↦ inl none_there
      | inr (r, ids, at_r, f) ↦
          let (r', at_r', k) = g.rows sid r at_r in inr (r', ids, at_r', k c ids f)
    ],
  )

  pub IsCovered_kept :
      {b b' : Building S A}
      → Grows same equal ca us vs b b'
      → (sid : ℕ) (s : S) → IsCovered ca b sid s
      → IsCovered ca b' sid s
  IsCovered_kept {b} {b'} g sid s h = record {
    final = λ q. g.finals sid (h.final q);
    symbols = λ a m. HasSymbol_kept g sid s a (h.symbols a m);
  }

  explore_symbol-Grows :
      IsClosed ca us vs
      → (s : S) (sid : ℕ) (sy : A) (b : Building S A) → IsMapped same equal ca us vs b
      → Memᴰ s us
      → get_elem? (keys b.states) sid ≡ some s
      → Memᴰ sy (ca.next_symbols s)
      → let b' = explore_symbol same equal less ca s sid sy b in
        Grows same equal ca us vs b b' × HasSymbol ca b' sid s sy
  unfolding explore_symbol
  explore_symbol-Grows closed s sid sy b h in_us at_s offered =
      let l = add_letter same equal less ca sy b in
      let (g1, at_c, m1) =
        add_letter-Grows same equal less ca us vs decA decS sy b h
          (closed.letters s in_us sy offered) in
      let t = add_successors same equal less ca (ca.successors s sy) l.0 in
      let (g2, hs) =
        add_successors-Grows same equal less ca us vs decS small (ca.successors s sy) l.0 g1.mapped
          (closed.states s in_us sy offered) in
      let at_c2 = letters_kept same equal ca us vs g2 l.1 sy at_c in
      let g12 = Grows-trans same equal ca us vs g1 g2 in
      let (g3, row) =
        add_transition-Grows same equal less ca us vs decA decS small t.0 sid l.1 s t.1 g2.mapped
          (known_kept same equal ca us vs g12 sid s at_s) (sy, at_c2, offered, hs) in
      (
        Grows-trans same equal ca us vs g12 g3,
        (
          l.1,
          letters_kept same equal ca us vs g3 l.1 sy at_c2,
          λ q. g3.marks l.1 (g2.marks l.1 (m1 q)),
          elim row [ inl e ↦ inl (no_successors (ca.successors s sy) e hs) | inr r ↦ inr r ],
        ),
      )
    where
      no_successors :
          {known : List S} {ids : List ℕ} (ss : List S)
          → ids ≡ []
          → AreStates known ids ss
          → ss ≡ []
      no_successors [] e hs = refl
      no_successors (t ∷ ss) e (one_state _ _) = cc

  pub explore_symbols-Grows :
      IsClosed ca us vs
      → (s : S) (sid : ℕ) (symbols : List A) (b : Building S A) → IsMapped same equal ca us vs b
      → Memᴰ s us
      → get_elem? (keys b.states) sid ≡ some s
      → ((a : A) → Memᴰ a symbols → Memᴰ a (ca.next_symbols s))
      → let b' = explore_symbols same equal less ca s sid symbols b in
        Grows same equal ca us vs b b' × ((a : A) → Memᴰ a symbols → HasSymbol ca b' sid s a)
  unfolding explore_symbols
  explore_symbols-Grows closed s sid [] b h in_us at_s offered =
      (Grows-refl same equal ca us vs b h, λ a m. absurd (elim m [ ]))
  explore_symbols-Grows closed s sid (sy ∷ symbols) b h in_us at_s offered =
      let (g1, has) =
        explore_symbol-Grows closed s sid sy b h in_us at_s (offered sy (Memᴰ.head refl)) in
      let b1 = explore_symbol same equal less ca s sid sy b in
      let (g2, others) =
        explore_symbols-Grows closed s sid symbols b1 g1.mapped in_us
          (known_kept same equal ca us vs g1 sid s at_s) (λ a m. offered a (Memᴰ.tail m)) in
      (
        Grows-trans same equal ca us vs g1 g2,
        λ a m.
            from (explore_symbols same equal less ca s sid symbols b1) a m
              (HasSymbol_kept g2 sid s sy has) (others a),
      )
    where
      from :
          (b' : Building S A) (a : A)
          → Memᴰ a (sy ∷ symbols)
          → HasSymbol ca b' sid s sy
          → (Memᴰ a symbols → HasSymbol ca b' sid s a)
          → HasSymbol ca b' sid s a
      from b' a (Memᴰ.head e) first later = subst (HasSymbol ca b' sid s) (sym e) first
      from b' a (Memᴰ.tail m) first later = later m
