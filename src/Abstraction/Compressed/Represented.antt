-- ===== src/Abstraction/Compressed/Represented.antt =====
-- abstraction/compressed_automaton.h: the automaton that `from_concurrent_automaton` returns, seen through
-- its operations.
use liss.Common.{
  ℕ, ◌<◌, ◌≡◌, ◌⊎◌, ◌∙◌, inl, inr, refl, sym, subst, ap, Bool, true, false, List, [], ◌∷◌, some,
  arith, Bool-cases, some-inj, length, get_elem?, Memᴰ, lt_of_get_elem?, get_elem?-some, ◌↔◌,
}
use liss.Abstraction.Compressed.{Inner}
use liss.Abstraction.Compressed.Explore.{Building, state_limit, sizes_agree, finished_automaton}
use liss.Abstraction.Compressed.Operations.{
  CompressedAutomaton, Row, find_key, int_is_final_state, int_successors, int_is_epsilon,
  int_next_symbols,
}
use liss.Abstraction.Compressed.Interned.{Decides, keys, length-keys, AreUnique}
use liss.Abstraction.Compressed.Grown.{IsMapped, IsEntry, AreStates, no_states}
use liss.Abstraction.Compressed.Covered.{HasRow}
use liss.Abstraction.Compressed.Explored.{IsCovered}
use liss.Abstraction.Compressed.Worklist.{IsExplored}
use liss.Abstraction.Compressed.Rows.{
  int_successors-row, row-int_successors, row_keys, row_keys-find_key, find_key-row_keys,
  int_next_symbols_at,
}

module _ {ℓ κ} {S : Type ℓ} {A : Type κ} (ca : Inner S A) where
  -- `r` is the automaton `ca` with numbers: number `j` stands for the element `j` of `known`, a symbol
  -- for that of the translation.
  pub record Represents (known : List S) (r : CompressedAutomaton A) : Type (ℓ ⊔ κ) where
    pub unique_states : AreUnique known
    pub unique_symbols : AreUnique r.table.symbol_translation
    pub initial : AreStates known r.initial_states ca.initial_states
    pub final :
        (j : ℕ) (s : S)
        → get_elem? known j ≡ some s
        → int_is_final_state r j ≡ some (ca.is_final_state s)
    pub epsilon :
        (c : ℕ) (a : A)
        → get_elem? r.table.symbol_translation c ≡ some a
        → int_is_epsilon r c ≡ some true
        → ca.is_epsilon a ≡ true
    pub next :
        (j : ℕ) (s : S)
        → get_elem? known j ≡ some s
        → (cs : List ℕ) × (int_next_symbols r j ≡ some cs)
          × ((c : ℕ) → Memᴰ c cs ↔ ((ids : List ℕ) × (int_successors r j c ≡ some ids)))
    pub sound :
        (j c : ℕ) (s : S) (ids : List ℕ)
        → get_elem? known j ≡ some s
        → int_successors r j c ≡ some ids
        → (a : A) × (get_elem? r.table.symbol_translation c ≡ some a)
          × Memᴰ a (ca.next_symbols s)
          × AreStates known ids (ca.successors s a)
    pub complete :
        (j : ℕ) (s : S) (a : A)
        → get_elem? known j ≡ some s
        → Memᴰ a (ca.next_symbols s)
        → (c : ℕ) × (get_elem? r.table.symbol_translation c ≡ some a)
          × (int_is_epsilon r c ≡ some (ca.is_epsilon a))
          × ((ca.successors s a ≡ [])
              ⊎ ((ids : List ℕ) × (int_successors r j c ≡ some ids)
                  × AreStates known ids (ca.successors s a)))

module _ {ℓ κ} {S : Type ℓ} {A : Type κ} (same : A → A → Bool) (equal : S → S → Bool)
    (less : S → S → Bool) (ca : Inner S A) (us : List S) (vs : List A) (decA : Decides same)
    (decS : Decides equal) (small : length us < state_limit) where
  -- The assertions at the end hold.
  pub sizes_agree-true :
      (b : Building S A) → IsMapped same equal ca us vs b → sizes_agree same equal less ca b ≡ true
  sizes_agree-true b h =
      ground (arith, h.rows, h.finals, h.marks, ap length h.symbols, length-keys b.table.symbol_map)

  module _ (b : Building S A) (done : IsExplored same equal less ca us vs decA decS small b)
      (front : b.frontier ≡ []) where
    covered : (j : ℕ) (s : S) → get_elem? (keys b.states) j ≡ some s → IsCovered ca b j s
    covered j s e = elim (done.each j s e) [ inl m ↦ elim (subst (Memᴰ s) front m) [ ] | inr h ↦ h ]

    marks_agree :
        (c : ℕ) (a : A)
        → get_elem? (keys b.table.symbol_map) c ≡ some a
        → (ca.is_epsilon a ≡ true → get_elem? b.epsilon c ≡ some true)
        → get_elem? b.epsilon c ≡ some (ca.is_epsilon a)
    marks_agree c a at_c m =
        let (v, e) = get_elem?-some b.epsilon c (
          omega (
            arith,
            lt_of_get_elem? (keys b.table.symbol_map) c at_c,
            length-keys b.table.symbol_map,
            done.mapped.marks,
          )) in
        by_case v e
      where
        by_case :
            (v : Bool)
            → get_elem? b.epsilon c ≡ some v
            → get_elem? b.epsilon c ≡ some (ca.is_epsilon a)
        by_case true e =
            let (a', at_c', q) = done.mapped.sound_marks c e in
            e ∙ ap some (sym (ap ca.is_epsilon (some-inj (sym at_c ∙ at_c')) ∙ q))
        by_case false e = elim (Bool-cases (ca.is_epsilon a)) [
          | inl q ↦ let p : some false ≡ some true = sym e ∙ m q in cc
          | inr q ↦ e ∙ ap some (sym q)
        ]

    finals_agree :
        (j : ℕ) (s : S)
        → get_elem? (keys b.states) j ≡ some s
        → get_elem? b.final j ≡ some (ca.is_final_state s)
    finals_agree j s at_j =
        let (v, e) = get_elem?-some b.final j (
          omega (
            arith,
            lt_of_get_elem? (keys b.states) j at_j,
            length-keys b.states,
            done.mapped.finals,
          )) in
        by_case v e
      where
        by_case :
            (v : Bool)
            → get_elem? b.final j ≡ some v
            → get_elem? b.final j ≡ some (ca.is_final_state s)
        by_case true e =
            let (s', at_j', q) = done.mapped.sound_finals j e in
            e ∙ ap some (sym (ap ca.is_final_state (some-inj (sym at_j ∙ at_j')) ∙ q))
        by_case false e = elim (Bool-cases (ca.is_final_state s)) [
          | inl q ↦ let p : some false ≡ some true = sym e ∙ (covered j s at_j).final q in cc
          | inr q ↦ e ∙ ap some (sym q)
        ]

    -- The entry of a row belongs to the state of the row.
    row-IsEntry :
        (j c : ℕ) (s : S) (row : Row) (ids : List ℕ)
        → get_elem? (keys b.states) j ≡ some s
        → get_elem? b.transitions j ≡ some row
        → find_key c row ≡ some ids
        → IsEntry same equal ca us vs (keys b.states) (keys b.table.symbol_map) s c ids
    row-IsEntry j c s row ids at_j at_row f =
        let (s', at_j', _, entry) = done.mapped.sound_rows j row c ids at_row f in
        subst (λ t. IsEntry same equal ca us vs (keys b.states) (keys b.table.symbol_map) t c ids)
          (some-inj (sym at_j' ∙ at_j)) entry

    row_of :
        (j c : ℕ) (s : S) (a : A)
        → get_elem? (keys b.states) j ≡ some s
        → get_elem? (keys b.table.symbol_map) c ≡ some a
        → (ca.successors s a ≡ []) ⊎ HasRow b j c
        → (ca.successors s a ≡ [])
          ⊎ ((ids : List ℕ) × (int_successors (finished_automaton same equal less ca b) j c
                ≡ some ids)
              × AreStates (keys b.states) ids (ca.successors s a))
    row_of j c s a at_j at_c (inl e) = inl e
    row_of j c s a at_j at_c (inr (row, ids, at_row, f)) =
        let (a', at_c', _, hs) = row-IsEntry j c s row ids at_j at_row f in
        by_case ids f at_row (
          subst (λ x. AreStates (keys b.states) ids (ca.successors s x))
            (some-inj (sym at_c' ∙ at_c)) hs)
      where
        nothing : {known ss : List S} → AreStates known [] ss → ss ≡ []
        nothing no_states = refl

        by_case :
            (xs : List ℕ)
            → find_key c row ≡ some xs
            → get_elem? b.transitions j ≡ some row
            → AreStates (keys b.states) xs (ca.successors s a)
            → (ca.successors s a ≡ [])
              ⊎ ((ids' : List ℕ) × (int_successors (finished_automaton same equal less ca b) j c
                    ≡ some ids')
                  × AreStates (keys b.states) ids' (ca.successors s a))
        by_case [] f1 at_row1 h = inl (nothing h)
        by_case (k ∷ ks) f1 at_row1 h = inr (
          k ∷ ks,
          row-int_successors (finished_automaton same equal less ca b) j c row (k ∷ ks) at_row1 f1
              refl,
          h,
        )

    pub finished_automaton-Represents :
        AreStates (keys b.states) b.initial_states ca.initial_states
        → Represents ca (keys b.states) (finished_automaton same equal less ca b)
    unfolding int_is_final_state int_is_epsilon
    finished_automaton-Represents initial = record {
      unique_states = done.mapped.unique_states;
      unique_symbols = subst AreUnique (sym done.mapped.symbols) done.mapped.unique_symbols;
      initial = initial;
      final = finals_agree;
      epsilon = λ c a at_c e.
          let (a', at_c', q) = done.mapped.sound_marks c e in
          ap ca.is_epsilon
            (some-inj (sym at_c ∙ (ap (λ xs. get_elem? xs c) done.mapped.symbols ∙ at_c')))
          ∙ q;
      next = λ j s at_j.
          let (row, at_row) = get_elem?-some b.transitions j (
            omega (
              arith,
              lt_of_get_elem? (keys b.states) j at_j,
              length-keys b.states,
              done.mapped.rows,
            )) in
          offered j row at_row;
      sound = λ j c s ids at_j e.
          let (row, at_row, f) =
            int_successors-row (finished_automaton same equal less ca b) j c ids e in
          let (a, at_c, m, hs) = row-IsEntry j c s row ids at_j at_row f in
          (a, ap (λ xs. get_elem? xs c) done.mapped.symbols ∙ at_c, m, hs);
      complete = λ j s a at_j m.
          let (c, at_c, mark, row) = (covered j s at_j).symbols a m in
          (
            c,
            ap (λ xs. get_elem? xs c) done.mapped.symbols ∙ at_c,
            marks_agree c a at_c mark,
            row_of j c s a at_j at_c row,
          );
    }
      where
        offered :
            (j : ℕ) (row : Row)
            → get_elem? b.transitions j ≡ some row
            → (cs : List ℕ) × (int_next_symbols (finished_automaton same equal less ca b) j
                ≡ some cs)
              × ((c : ℕ)
                  → Memᴰ c cs ↔ (
                      (ids : List ℕ) × (int_successors (finished_automaton same equal less ca b) j c
                        ≡ some ids)))
        offered j row at_row = (
          row_keys row,
          int_next_symbols_at (finished_automaton same equal less ca b) j row refl at_row,
          λ c. (
            λ m.
                let (ids, f) = row_keys-find_key row c m in
                let (_, _, solid, _) = done.mapped.sound_rows j row c ids at_row f in
                (
                  ids,
                  row-int_successors (finished_automaton same equal less ca b) j c row ids at_row f
                      solid,
                ),
            λ (ids, e).
                let (row', at_row', f) =
                  int_successors-row (finished_automaton same equal less ca b) j c ids e in
                find_key-row_keys row c ids (ap (find_key c) (some-inj (sym at_row ∙ at_row')) ∙ f),
          ),
        )
