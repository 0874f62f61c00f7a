-- ===== src/Abstraction/Compressed/Worklist.antt =====
-- abstraction/compressed_automaton.cpp, the loop over the frontier: every state that is known is on the
-- frontier or has all its transitions, and each round takes one state from what is left.
use liss.Common.{
  ℕ, zero, suc, ◌+◌, ◌≤◌, ◌<◌, ◌≡◌, ◌⊎◌, ◌∙◌, inl, inr, refl, sym, subst, ap, Bool, true, false,
  List, [], ◌∷◌, ◌++◌, Option, none, some, arith, if◌then◌else◌, length, get_elem?, set, length-set,
  Memᴰ, lt_of_get_elem?, get_elem?-set_self, append-nil,
}
use liss.Abstraction.Compressed.{Inner, find_symbol}
use liss.Abstraction.Compressed.Explore.{
  Building, state_limit, explore_symbols, mark_state, explore_state, explore,
}
use liss.Abstraction.Compressed.Interned.{
  Decides, keys, length-keys, unseen, find_symbol-cases, absent,
}
use liss.Abstraction.Compressed.Grown.{
  IsMapped, Grows, append_trans, get_elem?-set_cases, get_elem?-set_kept, Grows-refl, Grows-trans,
  known_kept,
}
use liss.Abstraction.Compressed.Added.{Memᴰ_cases}
use liss.Abstraction.Compressed.Explored.{
  IsClosed, IsCovered, IsCovered_kept, explore_symbols-Grows,
}

module _ {ℓ κ} {S : Type ℓ} {A : Type κ} (same : A → A → Bool) (equal : S → S → Bool)
    (less : S → S → Bool) (ca : Inner S A) (us : List S) (vs : List A) (decA : Decides same)
    (decS : Decides equal) (small : length us < state_limit) where
  mark_state-Grows :
      (s : S) (sid : ℕ) (b : Building S A)
      → IsMapped same equal ca us vs b
      → get_elem? (keys b.states) sid ≡ some s
      → let b' = mark_state same equal less ca s sid b in
        Grows same equal ca us vs b b'
        × (ca.is_final_state s ≡ true → get_elem? b'.final sid ≡ some true)
  mark_state-Grows s sid b h at_s = by_case (ca.is_final_state s) refl
    where
      marked :
          ca.is_final_state s ≡ true
          → Grows same equal ca us vs b (record b { final = set b.final sid true })
      marked q = record {
        mapped = record {
          indexed_states = h.indexed_states;
          unique_states = h.unique_states;
          indexed_symbols = h.indexed_symbols;
          unique_symbols = h.unique_symbols;
          seen = h.seen;
          symbols = h.symbols;
          finals = length-set b.final sid true ∙ h.finals;
          rows = h.rows;
          marks = h.marks;
          room_states = h.room_states;
          room_symbols = h.room_symbols;
          inside = h.inside;
          sound_marks = h.sound_marks;
          sound_finals = λ j e. elim (get_elem?-set_cases b.final sid j true e) [
            | inl (i, _) ↦
                (s, subst (λ (k : ℕ). get_elem? (keys b.states) k ≡ some s) (sym i) at_s, q)
            | inr e1 ↦ h.sound_finals j e1
          ];
          sound_rows = h.sound_rows;
        };
        states = ([], sym (append-nil (keys b.states)));
        symbols = ([], sym (append-nil (keys b.table.symbol_map)));
        marks = λ k e. e;
        finals =
            λ j e. elim (get_elem?-set_kept b.final sid j true e) [ inl p ↦ p | inr (_, p) ↦ p ];
        rows = λ j row e. (row, e, λ c ids p. p);
        kept = λ t m. m;
        fresh = λ j t e. inl e;
        work = omega arith;
        initial = refl;
      }

      by_case :
          (c : Bool)
          → ca.is_final_state s ≡ c
          → let b' = record b { final = if c then set b.final sid true else b.final } in
            Grows same equal ca us vs b b' × (c ≡ true → get_elem? b'.final sid ≡ some true)
      by_case true q = (
        marked q,
        λ _. get_elem?-set_self b.final sid true (
            omega
              (arith, lt_of_get_elem? (keys b.states) sid at_s, length-keys b.states, h.finals)),
      )
      by_case false q = (Grows-refl same equal ca us vs b h, λ e. absurd cc)

  -- Every state that is known is on the frontier or has all that it needs.
  pub record IsExplored (b : Building S A) : Type (ℓ ⊔ κ) where
    pub mapped : IsMapped same equal ca us vs b
    pub each :
        (j : ℕ) (s : S)
        → get_elem? (keys b.states) j ≡ some s
        → Memᴰ s b.frontier ⊎ IsCovered ca b j s

  explore_state-IsExplored :
      IsClosed ca us vs
      → (s : S) (sid : ℕ) (rest : List S) (b : Building S A) → IsExplored b
      → b.frontier ≡ s ∷ rest
      → get_elem? (keys b.states) sid ≡ some s
      → let b' = explore_state same equal less ca s sid rest b in
        IsExplored b'
        × (suc (length b'.frontier + unseen equal us (keys b'.states))
            ≤ length b.frontier + unseen equal us (keys b.states))
        × (b'.initial_states ≡ b.initial_states)
        × ((more : List S) × (keys b'.states ≡ keys b.states ++ more))
        × ((new : List A) × (keys b'.table.symbol_map ≡ keys b.table.symbol_map ++ new))
  explore_state-IsExplored closed s sid rest b h front at_s =
      let b0 = record b { frontier = rest } in
      let (g1, f) = mark_state-Grows s sid b0 popped at_s in
      let b1 = mark_state same equal less ca s sid b0 in
      let (g2, has) =
        explore_symbols-Grows same equal less ca us vs decA decS small closed s sid
          (ca.next_symbols s) b1 g1.mapped (h.mapped.inside s (rw front (Memᴰ.head refl))).0
          (known_kept same equal ca us vs g1 sid s at_s) (λ a m. m) in
      let g = Grows-trans same equal ca us vs g1 g2 in
      let b' = explore_symbols same equal less ca s sid (ca.next_symbols s) b1 in
      let covered : IsCovered ca b' sid s = record {
        final = λ q. g2.finals sid (f q);
        symbols = has;
      } in
      (
        record { mapped = g2.mapped; each = λ j t e. each_of g covered j t (g.fresh j t e) },
        omega (arith, g.work, ap length front),
        g.initial,
        g.states,
        g.symbols,
      )
    where
      popped : IsMapped same equal ca us vs (record b { frontier = rest })
      popped = record {
        indexed_states = h.mapped.indexed_states;
        unique_states = h.mapped.unique_states;
        indexed_symbols = h.mapped.indexed_symbols;
        unique_symbols = h.mapped.unique_symbols;
        seen = h.mapped.seen;
        symbols = h.mapped.symbols;
        finals = h.mapped.finals;
        rows = h.mapped.rows;
        marks = h.mapped.marks;
        room_states = h.mapped.room_states;
        room_symbols = h.mapped.room_symbols;
        inside = λ t m. h.mapped.inside t (rw front (Memᴰ.tail m));
        sound_marks = h.mapped.sound_marks;
        sound_finals = h.mapped.sound_finals;
        sound_rows = h.mapped.sound_rows;
      }

      each_of :
          {b' : Building S A}
          → Grows same equal ca us vs (record b { frontier = rest }) b'
          → IsCovered ca b' sid s
          → (j : ℕ) (t : S) → (get_elem? (keys b.states) j ≡ some t) ⊎ Memᴰ t b'.frontier
          → Memᴰ t b'.frontier ⊎ IsCovered ca b' j t
      each_of g covered j t (inr m) = inl m
      each_of {b'} g covered j t (inl e) = elim (h.each j t e) [
        | inl m ↦ elim (Memᴰ_cases (subst (Memᴰ t) front m)) [
          | inl q ↦ inr (
              subst (λ (k : ℕ). IsCovered ca b' k t)
                (h.mapped.unique_states sid j t (at_s ∙ ap some (sym q)) e)
                (subst (IsCovered ca b' sid) (sym q) covered))
          | inr m1 ↦ inl (g.kept t m1)
        ]
        | inr done ↦ inr (
            IsCovered_kept same equal less ca us vs decA decS small
              {b = record b { frontier = rest }} g j t
              (record { final = done.final; symbols = done.symbols }))
      ]

  -- What the loop gives back: nothing is on the frontier, and the states before are still there.
  abbrev Finishes : Building S A → Option (Building S A) → Type (ℓ ⊔ κ)
  Finishes b o =
      (b' : Building S A) × (o ≡ some b')
      × IsExplored b'
      × (b'.frontier ≡ [])
      × (b'.initial_states ≡ b.initial_states)
      × ((more : List S) × (keys b'.states ≡ keys b.states ++ more))
      × ((new : List A) × (keys b'.table.symbol_map ≡ keys b.table.symbol_map ++ new))

  Finishes-some : (b : Building S A) → IsExplored b → b.frontier ≡ [] → Finishes b (some b)
  Finishes-some b h e = (
    b,
    refl,
    h,
    e,
    refl,
    ([], sym (append-nil (keys b.states))),
    ([], sym (append-nil (keys b.table.symbol_map))),
  )

  pub explore-IsExplored :
      IsClosed ca us vs
      → (fuel : ℕ) (b : Building S A) → IsExplored b
      → length b.frontier + unseen equal us (keys b.states) ≤ fuel
      → Finishes b (explore same equal less ca fuel b)
  unfolding explore
  explore-IsExplored closed zero b h enough = by_front b.frontier refl
    where
      by_front :
          (front : List S)
          → b.frontier ≡ front
          → Finishes b (elim front [ [] ↦ some b | _ ∷ _ ↦ none ])
      by_front [] e = Finishes-some b h e
      by_front (s ∷ rest) e = absurd (omega (arith, enough, ap length e))
  explore-IsExplored closed (suc fuel) b h enough =
      by_front b.frontier refl (explore-IsExplored closed fuel)
    where
      next : S → List S → Option ℕ → Option (Building S A)
      next s rest o = elim o [
        | none ↦ none
        | some sid ↦ explore same equal less ca fuel (explore_state same equal less ca s sid rest b)
      ]

      by_front :
          (front : List S)
          → b.frontier ≡ front
          → ((b1 : Building S A)
              → IsExplored b1
              → length b1.frontier + unseen equal us (keys b1.states) ≤ fuel
              → Finishes b1 (explore same equal less ca fuel b1))
          → Finishes b
              (elim front [ [] ↦ some b | s ∷ rest ↦ next s rest (find_symbol equal s b.states) ])
      by_front [] e again = Finishes-some b h e
      by_front (s ∷ rest) e again =
          elim (find_symbol-cases equal decS (keys b.states) s b.states h.mapped.indexed_states) [
            | inl (sid, q, at_s, _) ↦
                let (h1, less_work, first, more1, new1) =
                  explore_state-IsExplored closed s sid rest b h e at_s in
                let (b', r, h', f, i, more2, new2) =
                  again (explore_state same equal less ca s sid rest b) h1
                    (omega (arith, less_work, enough)) in
                (
                  b',
                  ap (next s rest) q ∙ r,
                  h',
                  f,
                  i ∙ first,
                  append_trans (keys b.states) more1 more2,
                  append_trans (keys b.table.symbol_map) new1 new2,
                )
            | inr (q, unknown) ↦
                let (_, (k, at_k)) = h.mapped.inside s (rw e (Memᴰ.head refl)) in
                absurd (absent equal decS (keys b.states) s k unknown at_k)
          ]
