-- ===== src/Abstraction/Compressed/Covered.antt =====
-- abstraction/compressed_automaton.cpp, the loop over the symbols that are offered at a state: the row
-- of the state gets the successors, and nothing that is there goes away.
use liss.Common.{
  ℕ, ◌<◌, ◌≡◌, ◌⊎◌, ◌∙◌, inl, inr, refl, sym, subst, ap, Bool, false, List, [], ◌∷◌, Option, none,
  some, arith, if◌then◌else◌, some-inj, length, get_elem?, set, length-set, lt_of_get_elem?,
  get_elem?-some, get_elem?-set_self, is_empty, append-nil,
}
use liss.Abstraction.Compressed.{Inner}
use liss.Abstraction.Compressed.Explore.{Building, state_limit, add_transition, insert_row}
use liss.Abstraction.Compressed.Operations.{find_key, Row}
use liss.Abstraction.Compressed.Interned.{Decides, keys, length-keys}
use liss.Abstraction.Compressed.Grown.{
  IsMapped, Grows, IsEntry, get_elem?-set_cases, get_elem?-set_kept, Grows-refl,
}
use liss.Abstraction.Compressed.Rows.{insert_row-cases, insert_row_kept, insert_row_has}

-- The row of a state holds successors for a symbol.
abbrev pub HasRow {ℓ κ} : {S : Type ℓ} {A : Type κ} → Building S A → ℕ → ℕ → Type 0
HasRow b sid c =
    (row : Row) × (ids : List ℕ) × (get_elem? b.transitions sid ≡ some row)
    × (find_key c row ≡ some ids)

module _ {ℓ κ} {S : Type ℓ} {A : Type κ} (same : A → A → Bool) (equal : S → S → Bool)
    (less : S → S → Bool) (ca : Inner S A) (us : List S) (vs : List A) (decA : Decides same)
    (decS : Decides equal) (small : length us < state_limit) where
  with_row-Grows :
      (b : Building S A) (sid syid : ℕ) (s : S) (successors : List ℕ) (row : Row)
      → IsMapped same equal ca us vs b
      → get_elem? (keys b.states) sid ≡ some s
      → IsEntry same equal ca us vs (keys b.states) (keys b.table.symbol_map) s syid successors
      → get_elem? b.transitions sid ≡ some row
      → is_empty successors ≡ false
      → Grows same equal ca us vs b
          (record b { transitions = set b.transitions sid (insert_row syid successors row) })
  with_row-Grows b sid syid s successors row h at_s entry at_row solid = record {
    mapped = record {
      indexed_states = h.indexed_states;
      unique_states = h.unique_states;
      indexed_symbols = h.indexed_symbols;
      unique_symbols = h.unique_symbols;
      seen = h.seen;
      symbols = h.symbols;
      finals = h.finals;
      rows = length-set b.transitions sid (insert_row syid successors row) ∙ h.rows;
      marks = h.marks;
      room_states = h.room_states;
      room_symbols = h.room_symbols;
      inside = h.inside;
      sound_marks = h.sound_marks;
      sound_finals = h.sound_finals;
      sound_rows = λ j row' c ids e f.
          elim (get_elem?-set_cases b.transitions sid j (insert_row syid successors row) e) [
            | inl (i, p) ↦
                elim (insert_row-cases c syid successors ids row
                  (subst (λ (r : Row). find_key c r ≡ some ids) p f)) [
                    | inl f1 ↦
                        h.sound_rows j row c ids
                          (subst (λ (k : ℕ). get_elem? b.transitions k ≡ some row) (sym i) at_row)
                          f1
                    | inr (q, r) ↦ (
                      s,
                      subst (λ (k : ℕ). get_elem? (keys b.states) k ≡ some s) (sym i) at_s,
                      ap is_empty r ∙ solid,
                      subst
                          (λ xs.
                            IsEntry same equal ca us vs (keys b.states) (keys b.table.symbol_map) s
                              c xs)
                          (sym r)
                          (subst
                            (λ (k : ℕ).
                              IsEntry same equal ca us vs (keys b.states) (keys b.table.symbol_map)
                                s k successors)
                            (sym q) entry),
                    )
                  ]
            | inr e1 ↦ h.sound_rows j row' c ids e1 f
          ];
    };
    states = ([], sym (append-nil (keys b.states)));
    symbols = ([], sym (append-nil (keys b.table.symbol_map)));
    marks = λ k e. e;
    finals = λ j e. e;
    rows = λ j row' e.
        elim (get_elem?-set_kept b.transitions sid j (insert_row syid successors row) e) [
          | inl e1 ↦ (row', e1, λ c ids q. q)
          | inr (i, e1) ↦ (
            insert_row syid successors row,
            e1,
            λ c ids q. insert_row_kept c syid successors ids row (
                subst (λ (r : Row). find_key c r ≡ some ids)
                  (some-inj (sym e ∙ (ap (get_elem? b.transitions) i ∙ at_row))) q),
          )
        ];
    kept = λ t m. m;
    fresh = λ j t e. inl e;
    work = omega arith;
    initial = refl;
  }

  add_transition_at :
      (b : Building S A) (sid syid : ℕ) (successors : List ℕ) (row : Row)
      → get_elem? b.transitions sid ≡ some row
      → add_transition same equal less ca sid syid successors b ≡ (
          if is_empty successors
          then b
          else record b { transitions = set b.transitions sid (insert_row syid successors row) })
  unfolding add_transition
  add_transition_at b sid syid successors row e =
      ap
        (λ (o : Option Row). elim o [
          | none ↦ b
          | some row' ↦ if is_empty successors then b else record b {
            transitions = set b.transitions sid (insert_row syid successors row');
          }
        ])
        e

  pub add_transition-Grows :
      (b : Building S A) (sid syid : ℕ) (s : S) (successors : List ℕ)
      → IsMapped same equal ca us vs b
      → get_elem? (keys b.states) sid ≡ some s
      → IsEntry same equal ca us vs (keys b.states) (keys b.table.symbol_map) s syid successors
      → let b' = add_transition same equal less ca sid syid successors b in
        Grows same equal ca us vs b b' × ((successors ≡ []) ⊎ HasRow b' sid syid)
  add_transition-Grows b sid syid s successors h at_s entry =
      let (row, e) =
        get_elem?-some b.transitions sid
          (omega (arith, lt_of_get_elem? (keys b.states) sid at_s, length-keys b.states, h.rows)) in
      subst (λ b'. Grows same equal ca us vs b b' × ((successors ≡ []) ⊎ HasRow b' sid syid))
        (sym (add_transition_at b sid syid successors row e)) (by_case successors row e entry)
    where
      by_case :
          (ks : List ℕ) (row : Row)
          → get_elem? b.transitions sid ≡ some row
          → IsEntry same equal ca us vs (keys b.states) (keys b.table.symbol_map) s syid ks
          → let b' =
              if is_empty ks
              then b
              else record b { transitions = set b.transitions sid (insert_row syid ks row) } in
            Grows same equal ca us vs b b' × ((ks ≡ []) ⊎ HasRow b' sid syid)
      by_case [] row e entry1 = (Grows-refl same equal ca us vs b h, inl refl)
      by_case (k ∷ ks) row e entry1 =
          let (xs, f) = insert_row_has syid (k ∷ ks) row in
          (
            with_row-Grows b sid syid s (k ∷ ks) row h at_s entry1 e refl,
            inr (
              insert_row syid (k ∷ ks) row,
              xs,
              get_elem?-set_self b.transitions sid (insert_row syid (k ∷ ks) row)
                  (lt_of_get_elem? b.transitions sid e),
              f,
            ),
          )
