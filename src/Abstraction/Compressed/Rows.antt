-- ===== src/Abstraction/Compressed/Rows.antt =====
-- abstraction/compressed_automaton.h: the rows of `transitions`, and what the operations return of them.
use mathlib.Core.Option
use liss.Common.{
  ℕ, ◌≡◌, ◌⊎◌, ◌∙◌, inl, inr, refl, sym, ap, Bool, false, List, [], ◌∷◌, ◌++◌, Option, none, some,
  arith, ◌==◌, if◌then◌else◌, Bool-cases, Option-cases, some-inj, get_elem?, is_empty, true, Memᴰ,
  map, keep,
}
use liss.Abstraction.Compressed.Explore.{insert_row}
use liss.Abstraction.Compressed.Operations.{
  find_key, Row, CompressedAutomaton, int_successors, int_next_symbols, allowed,
}
use liss.Cfg.Graph.{◌>>=◌}
use liss.Abstraction.Compressed.Added.{Memᴰ_cases}

find_key-append_cases :
    (c k : ℕ) (ids xs : List ℕ) (row : Row)
    → find_key c (row ++ (k, ids) ∷ []) ≡ some xs
    → (find_key c row ≡ some xs) ⊎ ((c ≡ k) × (xs ≡ ids))
find_key-append_cases c k ids xs [] e = elim (Bool-cases (k == c)) [
  | inl q ↦ inr (ground arith, some-inj (sym e ∙ ap (λ (t : Bool). if t then some ids else none) q))
  | inr q ↦
      let p : none ≡ some xs = sym (ap (λ (t : Bool). if t then some ids else none) q) ∙ e in cc
]
find_key-append_cases c k ids xs ((k', ids') ∷ row) e = elim (Bool-cases (k' == c)) [
  | inl q ↦ inl (ground arith)
  | inr q ↦ elim (find_key-append_cases c k ids xs row (ground arith)) [
    | inl p ↦ inl (ground arith)
    | inr p ↦ inr p
  ]
]

find_key-append :
    (c k : ℕ) (ids xs : List ℕ) (row : Row)
    → find_key c row ≡ some xs
    → find_key c (row ++ (k, ids) ∷ []) ≡ some xs
find_key-append c k ids xs [] e = cc
find_key-append c k ids xs ((k', ids') ∷ row) e = elim (Bool-cases (k' == c)) [
  | inl q ↦ ground arith
  | inr q ↦ ground (arith, find_key-append c k ids xs row (ground arith))
]

find_key-append_new :
    (k : ℕ) (ids : List ℕ) (row : Row)
    → find_key k row ≡ none
    → find_key k (row ++ (k, ids) ∷ []) ≡ some ids
find_key-append_new k ids [] e = ground arith
find_key-append_new k ids ((k', ids') ∷ row) e = elim (Bool-cases (k' == k)) [
  | inl q ↦ ground arith
  | inr q ↦ ground (arith, find_key-append_new k ids row (ground arith))
]

insert_row_new :
    (k : ℕ) (ids : List ℕ) (row : Row)
    → find_key k row ≡ none
    → insert_row k ids row ≡ row ++ (k, ids) ∷ []
unfolding insert_row
insert_row_new k ids row q =
    ap (λ (o : Option (List ℕ)). elim o [ none ↦ row ++ (k, ids) ∷ [] | some old ↦ row ]) q

insert_row_old :
    (k : ℕ) (ids old : List ℕ) (row : Row) → find_key k row ≡ some old → insert_row k ids row ≡ row
unfolding insert_row
insert_row_old k ids old row q =
    ap (λ (o : Option (List ℕ)). elim o [ none ↦ row ++ (k, ids) ∷ [] | some old' ↦ row ]) q

pub insert_row-cases :
    (c k : ℕ) (ids xs : List ℕ) (row : Row)
    → find_key c (insert_row k ids row) ≡ some xs
    → (find_key c row ≡ some xs) ⊎ ((c ≡ k) × (xs ≡ ids))
insert_row-cases c k ids xs row e = elim (Option-cases (find_key k row)) [
  | inl q ↦
      find_key-append_cases c k ids xs row (sym (ap (find_key c) (insert_row_new k ids row q)) ∙ e)
  | inr (old, q) ↦ inl (sym (ap (find_key c) (insert_row_old k ids old row q)) ∙ e)
]

pub insert_row_kept :
    (c k : ℕ) (ids xs : List ℕ) (row : Row)
    → find_key c row ≡ some xs
    → find_key c (insert_row k ids row) ≡ some xs
insert_row_kept c k ids xs row e = elim (Option-cases (find_key k row)) [
  | inl q ↦ ap (find_key c) (insert_row_new k ids row q) ∙ find_key-append c k ids xs row e
  | inr (old, q) ↦ ap (find_key c) (insert_row_old k ids old row q) ∙ e
]

pub insert_row_has :
    (k : ℕ) (ids : List ℕ) (row : Row)
    → (xs : List ℕ) × (find_key k (insert_row k ids row) ≡ some xs)
insert_row_has k ids row = elim (Option-cases (find_key k row)) [
  | inl q ↦ (ids, ap (find_key k) (insert_row_new k ids row q) ∙ find_key-append_new k ids row q)
  | inr (old, q) ↦ (old, ap (find_key k) (insert_row_old k ids old row q) ∙ q)
]

some-bind {ℓ κ} :
    {B : Type ℓ} {C : Type κ} (o : Option B) (f : B → Option C) {c : C}
    → o >>= f ≡ some c
    → (b : B) × (o ≡ some b) × (f b ≡ some c)
some-bind none f e = cc
some-bind (some b) f e = (b, refl, e)

-- A row that is not empty is what the operation returns, and nothing else is.
module _ {κ} {A : Type κ} (r : CompressedAutomaton A) (j c : ℕ) where
  pub int_successors-row :
      (ids : List ℕ)
      → int_successors r j c ≡ some ids
      → (row : Row) × (get_elem? r.transitions j ≡ some row) × (find_key c row ≡ some ids)
  unfolding int_successors
  int_successors-row ids e =
      let (ids', at_c, f) =
        some-bind (get_elem? r.transitions j >>= find_key c)
          (λ xs. if is_empty xs then none else some xs) e in
      let (row, at_j, g) = some-bind (get_elem? r.transitions j) (find_key c) at_c in
      (row, at_j, g ∙ ap some (checked ids' f))
    where
      checked : (xs : List ℕ) → (if is_empty xs then none else some xs) ≡ some ids → xs ≡ ids
      checked [] e1 = cc
      checked (x ∷ xs) e1 = some-inj e1

  pub row-int_successors :
      (row : Row) (ids : List ℕ)
      → get_elem? r.transitions j ≡ some row
      → find_key c row ≡ some ids
      → is_empty ids ≡ false
      → int_successors r j c ≡ some ids
  unfolding int_successors
  row-int_successors row ids e f solid =
      ap
        (λ (o : Option Row).
          (o >>= find_key c) >>= λ (xs : List ℕ). if is_empty xs then none else some xs)
        e
      ∙ (ap (λ (o : Option (List ℕ)). o >>= λ (xs : List ℕ). if is_empty xs then none else some xs)
            f
          ∙ ap (λ (t : Bool). if t then none else some ids) solid)

abbrev pub row_keys : Row → List ℕ
row_keys row = map (λ (p : ℕ × List ℕ). p.0) row

pub row_keys-find_key :
    (row : Row) (c : ℕ) → Memᴰ c (row_keys row) → (ids : List ℕ) × (find_key c row ≡ some ids)
row_keys-find_key [] c m = elim m [ ]
row_keys-find_key ((k, ids) ∷ row) c m = elim (Bool-cases (k == c)) [
  | inl q ↦ (ids, ground arith)
  | inr q ↦ elim (Memᴰ_cases m) [
    | inl e ↦ absurd (ground arith)
    | inr m1 ↦ let (xs, f) = row_keys-find_key row c m1 in (xs, ground arith)
  ]
]

pub find_key-row_keys :
    (row : Row) (c : ℕ) (ids : List ℕ) → find_key c row ≡ some ids → Memᴰ c (row_keys row)
find_key-row_keys [] c ids e = cc
find_key-row_keys ((k, xs) ∷ row) c ids e = elim (Bool-cases (k == c)) [
  | inl q ↦ Memᴰ.head (ground arith)
  | inr q ↦ Memᴰ.tail (find_key-row_keys row c ids (ground arith))
]

-- Without a filter, every symbol of the row is offered.
keep-all {ℓ} : {B : Type ℓ} (p : B → Bool) (xs : List B) → ((b : B) → p b ≡ true) → keep p xs ≡ xs
keep-all p [] h = refl
keep-all p (x ∷ xs) h = rw (h x) (ap (λ ys. x ∷ ys) (keep-all p xs h))

pub int_next_symbols_at {κ} :
    {A : Type κ} (r : CompressedAutomaton A) (j : ℕ) (row : Row)
    → r.successor_filter ≡ []
    → get_elem? r.transitions j ≡ some row
    → int_next_symbols r j ≡ some (row_keys row)
unfolding int_next_symbols
int_next_symbols_at r j row e at_row =
    ap (Option.map (λ (row' : Row). keep (allowed r) (row_keys row'))) at_row
    ∙ ap some (keep-all (allowed r) (row_keys row) (λ k. rw e refl))
