-- ===== src/Abstraction/Compressed/Grown.antt =====
-- The vectors and maps of abstraction/compressed_automaton.cpp while an automaton is built: what
-- belongs together in them, and what is kept as they grow.
use liss.Common.{
  ℕ, zero, suc, ◌+◌, ◌≤◌, ◌<◌, ◌≡◌, ◌⊎◌, ◌∙◌, inl, inr, refl, sym, subst, ap, Bool, true, false,
  List, [], ◌∷◌, ◌++◌, some, arith, if◌then◌else◌, some-inj, length, get_elem?, set, length-append,
  Memᴰ, is_empty, append-nil, append_assoc,
}
use liss.Abstraction.Compressed.{Inner}
use liss.Abstraction.Compressed.Explore.{Building, grow, symbol_limit}
use liss.Abstraction.Compressed.Operations.{find_key, Row}
use liss.Abstraction.Compressed.Interned.{
  keys, IsIndexed, AreUnique, get_elem?-append, get_elem?-append_cases, unseen,
}

pub get_elem?-grow {ℓ} :
    {B : Type ℓ} (c : Bool) (b : B) (xs : List B) (j : ℕ) {a : B}
    → get_elem? xs j ≡ some a
    → get_elem? (grow c b xs) j ≡ some a
get_elem?-grow true b xs j e = get_elem?-append xs (b ∷ []) j e
get_elem?-grow false b xs j e = e

pub length-grow {ℓ} :
    {B : Type ℓ} (c : Bool) (b : B) (xs : List B)
    → length (grow c b xs) ≡ (if c then 1 else 0) + length xs
length-grow true b xs = omega (arith, length-append xs (b ∷ []))
length-grow false b xs = omega arith

-- An element of a list that has grown is old, or the new one.
pub grow-cases {ℓ} :
    {B : Type ℓ} (c : Bool) (b : B) (xs : List B) (j : ℕ) {a : B}
    → get_elem? (grow c b xs) j ≡ some a
    → (get_elem? xs j ≡ some a) ⊎ ((c ≡ true) × (a ≡ b))
grow-cases false b xs j h = inl h
grow-cases true b xs j h = elim (get_elem?-append_cases xs b j h) [
  | inl q ↦ inl q
  | inr (_, r) ↦ inr (refl, r)
]

pub grow-append {ℓ} :
    {B : Type ℓ} (c : Bool) (b : B) (xs : List B) → (more : List B) × (grow c b xs ≡ xs ++ more)
grow-append true b xs = (b ∷ [], refl)
grow-append false b xs = ([], sym (append-nil xs))

-- What is appended twice is appended.
pub append_trans {ℓ} :
    {B : Type ℓ} (xs : List B) {ys zs : List B}
    → ((more : List B) × (ys ≡ xs ++ more))
    → ((more : List B) × (zs ≡ ys ++ more))
    → (more : List B) × (zs ≡ xs ++ more)
append_trans xs (m, e) (n, e') = (m ++ n, e' ∙ (ap (λ ws. ws ++ n) e ∙ append_assoc xs m n))

-- An element of a list in which one place was set is the new one there, or an old one elsewhere.
pub get_elem?-set_cases {ℓ} :
    {B : Type ℓ} (xs : List B) (i j : ℕ) (v : B) {a : B}
    → get_elem? (set xs i v) j ≡ some a
    → ((j ≡ i) × (a ≡ v)) ⊎ (get_elem? xs j ≡ some a)
get_elem?-set_cases [] i j v e = inr e
get_elem?-set_cases (x ∷ xs) zero zero v e = inl (refl, sym (some-inj e))
get_elem?-set_cases (x ∷ xs) zero (suc j) v e = inr e
get_elem?-set_cases (x ∷ xs) (suc i) zero v e = inr e
get_elem?-set_cases (x ∷ xs) (suc i) (suc j) v e = elim (get_elem?-set_cases xs i j v e) [
  | inl (p, q) ↦ inl (ap suc p, q)
  | inr q ↦ inr q
]

-- An old element stays, or its place was set.
pub get_elem?-set_kept {ℓ} :
    {B : Type ℓ} (xs : List B) (i j : ℕ) (v : B) {a : B}
    → get_elem? xs j ≡ some a
    → (get_elem? (set xs i v) j ≡ some a) ⊎ ((j ≡ i) × (get_elem? (set xs i v) j ≡ some v))
get_elem?-set_kept [] i j v e = inl e
get_elem?-set_kept (x ∷ xs) zero zero v e = inr (refl, refl)
get_elem?-set_kept (x ∷ xs) zero (suc j) v e = inl e
get_elem?-set_kept (x ∷ xs) (suc i) zero v e = inl e
get_elem?-set_kept (x ∷ xs) (suc i) (suc j) v e = elim (get_elem?-set_kept xs i j v e) [
  | inl q ↦ inl q
  | inr (p, q) ↦ inr (ap suc p, q)
]

-- The states that the numbers stand for, one by one.
pub data AreStates {ℓ} {S : Type ℓ} (known : List S) : List ℕ → List S → Type ℓ where
  no_states : AreStates known [] []
  one_state :
      {k : ℕ} {s : S} {ks : List ℕ} {ss : List S}
      → get_elem? known k ≡ some s
      → AreStates known ks ss
      → AreStates known (k ∷ ks) (s ∷ ss)

pub AreStates-append {ℓ} :
    {S : Type ℓ} (known more : List S) {ks : List ℕ} {ss : List S}
    → AreStates known ks ss
    → AreStates (known ++ more) ks ss
AreStates-append known more no_states = no_states
AreStates-append known more (one_state {k} e h) =
    one_state (get_elem?-append known more k e) (AreStates-append known more h)

module _ {ℓ κ} {S : Type ℓ} {A : Type κ} (same : A → A → Bool) (equal : S → S → Bool)
    (ca : Inner S A) (us : List S) (vs : List A) where
  -- An entry of the row of a state is a symbol offered there, with the successors.
  abbrev pub IsEntry : List S → List A → S → ℕ → List ℕ → Type (ℓ ⊔ κ)
  IsEntry known letters s c ids =
      (a : A) × (get_elem? letters c ≡ some a)
      × Memᴰ a (ca.next_symbols s)
      × AreStates known ids (ca.successors s a)

  -- The maps and vectors belong together, and what they hold is right; the states are among `us`,
  -- and the symbols have room for `vs`.
  pub record IsMapped (b : Building S A) : Type (ℓ ⊔ κ) where
    pub indexed_states : IsIndexed (keys b.states) b.states
    pub unique_states : AreUnique (keys b.states)
    pub indexed_symbols : IsIndexed (keys b.table.symbol_map) b.table.symbol_map
    pub unique_symbols : AreUnique (keys b.table.symbol_map)
    pub seen : b.seen ≡ keys b.states
    pub symbols : b.table.symbol_translation ≡ keys b.table.symbol_map
    pub finals : length b.final ≡ length b.states
    pub rows : length b.transitions ≡ length b.states
    pub marks : length b.epsilon ≡ length b.table.symbol_map
    pub room_states : length b.states + unseen equal us (keys b.states) ≤ length us
    pub room_symbols :
        length b.table.symbol_map + unseen same vs (keys b.table.symbol_map) < symbol_limit
    pub inside :
        (s : S) → Memᴰ s b.frontier → Memᴰ s us × ((k : ℕ) × (get_elem? (keys b.states) k ≡ some s))
    pub sound_marks :
        (k : ℕ)
        → get_elem? b.epsilon k ≡ some true
        → (a : A) × (get_elem? (keys b.table.symbol_map) k ≡ some a) × (ca.is_epsilon a ≡ true)
    pub sound_finals :
        (j : ℕ)
        → get_elem? b.final j ≡ some true
        → (s : S) × (get_elem? (keys b.states) j ≡ some s) × (ca.is_final_state s ≡ true)
    pub sound_rows :
        (j : ℕ) (row : Row) (c : ℕ) (ids : List ℕ)
        → get_elem? b.transitions j ≡ some row
        → find_key c row ≡ some ids
        → (s : S) × (get_elem? (keys b.states) j ≡ some s)
          × (is_empty ids ≡ false)
          × IsEntry (keys b.states) (keys b.table.symbol_map) s c ids

  -- What is kept while symbols and states are added.
  pub record Grows (b b' : Building S A) : Type (ℓ ⊔ κ) where
    pub mapped : IsMapped b'
    pub states : (more : List S) × (keys b'.states ≡ keys b.states ++ more)
    pub symbols : (more : List A) × (keys b'.table.symbol_map ≡ keys b.table.symbol_map ++ more)
    pub marks : (k : ℕ) → get_elem? b.epsilon k ≡ some true → get_elem? b'.epsilon k ≡ some true
    pub finals : (j : ℕ) → get_elem? b.final j ≡ some true → get_elem? b'.final j ≡ some true
    pub rows :
        (j : ℕ) (row : Row)
        → get_elem? b.transitions j ≡ some row
        → (row' : Row) × (get_elem? b'.transitions j ≡ some row')
          × ((c : ℕ) (ids : List ℕ) → find_key c row ≡ some ids → find_key c row' ≡ some ids)
    pub kept : (s : S) → Memᴰ s b.frontier → Memᴰ s b'.frontier
    pub fresh :
        (j : ℕ) (s : S)
        → get_elem? (keys b'.states) j ≡ some s
        → (get_elem? (keys b.states) j ≡ some s) ⊎ Memᴰ s b'.frontier
    pub work :
        length b'.frontier + unseen equal us (keys b'.states)
        ≤ length b.frontier + unseen equal us (keys b.states)
    pub initial : b'.initial_states ≡ b.initial_states

  pub Grows-refl : (b : Building S A) → IsMapped b → Grows b b
  Grows-refl b h = record {
    mapped = h;
    states = ([], sym (append-nil (keys b.states)));
    symbols = ([], sym (append-nil (keys b.table.symbol_map)));
    marks = λ k m. m;
    finals = λ j e. e;
    rows = λ j row e. (row, e, λ c ids q. q);
    kept = λ s m. m;
    fresh = λ j s e. inl e;
    work = omega arith;
    initial = refl;
  }

  pub Grows-trans : {b b1 b2 : Building S A} → Grows b b1 → Grows b1 b2 → Grows b b2
  Grows-trans {b} {b1} {b2} g h = record {
    mapped = h.mapped;
    states = append_trans (keys b.states) g.states h.states;
    symbols = append_trans (keys b.table.symbol_map) g.symbols h.symbols;
    marks = λ k m. h.marks k (g.marks k m);
    finals = λ j e. h.finals j (g.finals j e);
    rows = λ j row e.
        let (row1, e1, k1) = g.rows j row e in
        let (row2, e2, k2) = h.rows j row1 e1 in (row2, e2, λ c ids q. k2 c ids (k1 c ids q));
    kept = λ s m. h.kept s (g.kept s m);
    fresh = λ j s e. elim (h.fresh j s e) [
      | inl e1 ↦ elim (g.fresh j s e1) [ inl e0 ↦ inl e0 | inr m ↦ inr (h.kept s m) ]
      | inr new ↦ inr new
    ];
    work = omega (arith, g.work, h.work);
    initial = h.initial ∙ g.initial;
  }

  pub known_kept :
      {b b' : Building S A}
      → Grows b b'
      → (j : ℕ) (s : S) → get_elem? (keys b.states) j ≡ some s
      → get_elem? (keys b'.states) j ≡ some s
  known_kept {b} {b'} g j s e =
      let (more, q) = g.states in rw q (get_elem?-append (keys b.states) more j e)

  pub letters_kept :
      {b b' : Building S A}
      → Grows b b'
      → (c : ℕ) (a : A) → get_elem? (keys b.table.symbol_map) c ≡ some a
      → get_elem? (keys b'.table.symbol_map) c ≡ some a
  letters_kept {b} {b'} g c a e =
      let (more, q) = g.symbols in rw q (get_elem?-append (keys b.table.symbol_map) more c e)

  AreStates_kept :
      {b b' : Building S A}
      → Grows b b'
      → (ids : List ℕ) (ss : List S) → AreStates (keys b.states) ids ss
      → AreStates (keys b'.states) ids ss
  AreStates_kept {b} {b'} g ids ss h =
      let (more, q) = g.states in
      subst (λ known. AreStates known ids ss) (sym q) (AreStates-append (keys b.states) more h)
