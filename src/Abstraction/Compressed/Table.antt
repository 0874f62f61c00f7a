-- ===== src/Abstraction/Compressed/Table.antt =====
-- The table of abstraction/compressed_automaton.h gives back the symbols that it numbered.
use liss.Common.{
  ℕ, zero, suc, ◌+◌, ◌%◌, ◌≤◌, ◌<◌, ◌≡◌, ◌⊎◌, ◌∙◌, inl, inr, refl, sym, subst, ap, Bool, true, List,
  [], ◌∷◌, ◌++◌, Option, none, some, arith, Bool-cases, some-inj, length, get_elem?, length-append,
  All, All-append, append-nil, append_assoc,
}
use liss.Abstraction.Compressed.{
  Inner, InclusionResult, SymbolTable, find_symbol, add_symbol, number_of, number_all,
  wrapper_next_symbols, translate_all, translate_result,
}

module _ {κ} {A : Type κ} (same : A → A → Bool) where
  -- What a pair of the map says is what the table has.
  abbrev pub IsEntry : List A → A × ℕ → Type κ
  IsEntry table (a, k) = get_elem? table k ≡ some a

  abbrev pub IsTable : SymbolTable A → Type κ
  IsTable t = All (IsEntry t.symbol_translation) t.symbol_map

  -- The numbers keep their meaning as the table grows.
  abbrev pub Extends : SymbolTable A → SymbolTable A → Type κ
  Extends t t' = (more : List A) × (t'.symbol_translation ≡ t.symbol_translation ++ more)

  get_elem?-append :
      (xs ys : List A) (k : ℕ) {a : A} → get_elem? xs k ≡ some a → get_elem? (xs ++ ys) k ≡ some a
  get_elem?-append [] ys k e = cc
  get_elem?-append (x ∷ xs) ys zero e = e
  get_elem?-append (x ∷ xs) ys (suc k) e = get_elem?-append xs ys k e

  get_elem?-last : (xs : List A) (a : A) → get_elem? (xs ++ a ∷ []) (length xs) ≡ some a
  get_elem?-last [] a = refl
  get_elem?-last (x ∷ xs) a = get_elem?-last xs a

  -- The symbol that a number stands for.
  abbrev Stands : SymbolTable A → A → ℕ → Type κ
  Stands t s k =
      (a : A) × (get_elem? t.symbol_translation k ≡ some a) × ((same a s ≡ true) ⊎ (a ≡ s))

  find_symbol-Stands :
      (table : List A) (s : A) (pairs : List (A × ℕ)) (k : ℕ)
      → All (IsEntry table) pairs
      → find_symbol same s pairs ≡ some k
      → (a : A) × (get_elem? table k ≡ some a) × ((same a s ≡ true) ⊎ (a ≡ s))
  find_symbol-Stands table s [] k h e = cc
  find_symbol-Stands table s ((a, j) ∷ pairs) k (h, hs) e = elim (Bool-cases (same a s)) [
    | inl q ↦ (a, subst (λ (i : ℕ). get_elem? table i ≡ some a) (some-inj (rw q at e)) h, inl q)
    | inr q ↦ find_symbol-Stands table s pairs k hs (rw q at e)
  ]

  All-IsEntry :
      (table : List A) (s : A) (pairs : List (A × ℕ))
      → All (IsEntry table) pairs
      → All (IsEntry (table ++ s ∷ [])) pairs
  All-IsEntry table s [] h = tt
  All-IsEntry table s ((a, k) ∷ pairs) (h, hs) =
      (get_elem?-append table (s ∷ []) k h, All-IsEntry table s pairs hs)

  -- What numbering a symbol gives.
  record IsNumbered (t : SymbolTable A) (s : A) (r : SymbolTable A × ℕ) : Type κ where
    table : IsTable r.0
    extends : Extends t r.0
    stands : Stands r.0 s r.1
    larger : length r.0.symbol_translation ≤ suc (length t.symbol_translation)

  add_symbol-IsNumbered :
      (s : A) (t : SymbolTable A)
      → IsTable t
      → length t.symbol_translation < 65536
      → IsNumbered t s (add_symbol same s t)
  unfolding add_symbol
  add_symbol-IsNumbered s t h small = record {
    table =
        All-append (IsEntry (t.symbol_translation ++ s ∷ [])) t.symbol_map _
          (All-IsEntry t.symbol_translation s t.symbol_map h) (last_entry, tt);
    extends = (s ∷ [], refl);
    stands = (s, last_entry, inr refl);
    larger = omega (arith, length-append t.symbol_translation (s ∷ []));
  }
    where
      last_entry :
          get_elem? (t.symbol_translation ++ s ∷ []) (length t.symbol_translation % 65536) ≡ some s
      last_entry =
          subst (λ (k : ℕ). get_elem? (t.symbol_translation ++ s ∷ []) k ≡ some s) (omega arith)
            (get_elem?-last t.symbol_translation s)

  number_of-IsNumbered :
      (s : A) (t : SymbolTable A)
      → IsTable t
      → length t.symbol_translation < 65536
      → IsNumbered t s (number_of same s t)
  unfolding number_of
  number_of-IsNumbered s t h small = by_case (find_symbol same s t.symbol_map) refl
    where
      by_case :
          (o : Option ℕ)
          → find_symbol same s t.symbol_map ≡ o
          → IsNumbered t s
              (elim o as (λ o. SymbolTable A × ℕ) [ none ↦ add_symbol same s t | some k ↦ (t, k) ])
      by_case (some k) e = record {
        table = h;
        extends = ([], sym (append-nil t.symbol_translation));
        stands = find_symbol-Stands t.symbol_translation s t.symbol_map k h e;
        larger = omega arith;
      }
      by_case none e = add_symbol-IsNumbered s t h small

  -- Two lists of symbols that are the same, one by one.
  pub data AreSame : List A → List A → Type κ where
    all_done : AreSame [] []
    one_more :
        {a s : A} {bs ss : List A}
        → (same a s ≡ true) ⊎ (a ≡ s)
        → AreSame bs ss
        → AreSame (a ∷ bs) (s ∷ ss)

  -- What numbering a list of symbols gives: their numbers are translated back, in this table and in
  -- every one that it grows to.
  record AreNumbered (t : SymbolTable A) (ss : List A) (r : SymbolTable A × List ℕ) : Type κ where
    table : IsTable r.0
    extends : Extends t r.0
    translated :
        (t' : SymbolTable A)
        → Extends r.0 t'
        → (bs : List A) × (translate_all same t' r.1 ≡ some bs) × AreSame bs ss

  Extends-trans : (t t1 t2 : SymbolTable A) → Extends t t1 → Extends t1 t2 → Extends t t2
  Extends-trans t t1 t2 (xs, e) (ys, e') =
      (xs ++ ys, e' ∙ (ap (λ zs. zs ++ ys) e ∙ append_assoc t.symbol_translation xs ys))

  number_all-AreNumbered :
      (ss : List A) (t : SymbolTable A)
      → IsTable t
      → length t.symbol_translation + length ss ≤ 65536
      → AreNumbered t ss (number_all same ss t)
  unfolding number_all translate_all
  number_all-AreNumbered [] t h room = record {
    table = h;
    extends = ([], sym (append-nil t.symbol_translation));
    translated = λ t' ext. ([], refl, all_done);
  }
  number_all-AreNumbered (s ∷ ss) t h room =
      let first = number_of-IsNumbered s t h (omega arith) in
      let later =
        number_all-AreNumbered ss (number_of same s t).0 first.table
          (omega (arith, first.larger)) in
      record {
        table = later.table;
        extends =
            Extends-trans t (number_of same s t).0 (number_all same ss (number_of same s t).0).0
              first.extends later.extends;
        translated = λ t' ext.
            let (bs, e, q) = later.translated t' ext in
            let (a, at_k, eq) = first.stands in
            let (more, grown) =
              Extends-trans (number_of same s t).0 (number_all same ss (number_of same s t).0).0 t'
                later.extends ext in
            let found : get_elem? t'.symbol_translation (number_of same s t).1 ≡ some a =
              rw grown (get_elem?-append _ more (number_of same s t).1 at_k) in
            (a ∷ bs, rw (found, e) refl, one_more eq q);
      }

  -- In a table whose map and list agree and that has room for the symbols that a state offers: a
  -- result whose counter-example is the numbers that the wrapper gives to these symbols is translated,
  -- in the table of the wrapper and in every one that it grows to, to the same result with symbols
  -- equal to those offered; the map and the list still agree, and no number has changed its meaning.
  pub translate_result-wrapper_next_symbols {ℓ} :
      {S : Type ℓ} (inner : Inner S A) (s : S) (t t' : SymbolTable A) (oldres : InclusionResult ℕ)
      → IsTable t
      → length t.symbol_translation + length (inner.next_symbols s) ≤ 65536
      → Extends (wrapper_next_symbols same inner s t).0 t'
      → oldres.counter_example ≡ (wrapper_next_symbols same inner s t).1
      → IsTable (wrapper_next_symbols same inner s t).0
        × Extends t (wrapper_next_symbols same inner s t).0
        × ((trace : List A) × (translate_result same t' oldres
              ≡ some (record {
                included = oldres.included;
                bound_hit = oldres.bound_hit;
                max_bound = oldres.max_bound;
                counter_example = trace;
              }))
            × AreSame trace (inner.next_symbols s))
  unfolding wrapper_next_symbols translate_result
  translate_result-wrapper_next_symbols inner s t t' oldres h room ext e =
      let r = number_all-AreNumbered (inner.next_symbols s) t h room in
      let (trace, found, q) = r.translated t' ext in
      (r.table, r.extends, (trace, rw (e, found) refl, q))
