-- ===== src/Abstraction/Identifiers/Sound.antt =====
-- The names and the numbers of the store agree, and an insertion keeps that.
use Prim.Native.String.{String}
use text.Mathlib.Text
use text.Mathlib.TextEquality.{eq_iff}
use liss.Common.{
  ℕ, zero, suc, ◌≤◌, ◌<◌, ◌%◌, ◌≡◌, ◌⊎◌, inl, inr, ◌↔◌, refl, sym, ap, subst, true, false, List, [],
  ◌∷◌, ◌++◌, Option, none, some, arith, ◌==◌, length, length-append, get_elem?, Bool-cases,
  Option-cases,
}
use liss.Synthesis.Traces.{◌>>=◌}
use liss.Abstraction.Identifiers.{
  max_variables, max_locks, max_conditionals, IdentifierStore, insert_variable, insert_lock,
  insert_conditional, with_id, NameTable, find_id, insert_name, lookup_name,
}

-- No more names than the limit, and a name has a number exactly when it stands there.
abbrev pub IsTable : ℕ → NameTable → Type 0
IsTable limit t =
    (length t.names ≤ limit)
    × ((name : String) (id : ℕ) → (find_id name t.ids ≡ some id) ↔ (lookup_name t id ≡ some name))

get_elem?-last :
    (names : List String) (name n : String) (i : ℕ)
    → get_elem? (names ++ name ∷ []) i ≡ some n
    → (get_elem? names i ≡ some n) ⊎ ((i ≡ length names) × (name ≡ n))
get_elem?-last [] name n zero e = inr (refl, cc)
get_elem?-last [] name n (suc i) e = cc
get_elem?-last (x ∷ names) name n zero e = inl e
get_elem?-last (x ∷ names) name n (suc i) e = elim (get_elem?-last names name n i e) [
  | inl q ↦ inl q
  | inr (q, p) ↦ inr (ap suc q, p)
]

get_elem?-old :
    (names : List String) (name n : String) (i : ℕ)
    → get_elem? names i ≡ some n
    → get_elem? (names ++ name ∷ []) i ≡ some n
get_elem?-old [] name n i e = cc
get_elem?-old (x ∷ names) name n zero e = e
get_elem?-old (x ∷ names) name n (suc i) e = get_elem?-old names name n i e

get_elem?-new :
    (names : List String) (name : String)
    → get_elem? (names ++ name ∷ []) (length names) ≡ some name
get_elem?-new [] name = refl
get_elem?-new (x ∷ names) name = get_elem?-new names name

-- The table after a new name.
abbrev extended : NameTable → String → NameTable
extended t name = record { names = t.names ++ name ∷ []; ids = (name, length t.names) ∷ t.ids }

extended-IsTable :
    (limit : ℕ) (t : NameTable) (name : String)
    → IsTable limit t
    → length t.names < limit
    → find_id name t.ids ≡ none
    → IsTable limit (extended t name)
unfolding find_id lookup_name
extended-IsTable limit t name h lt fresh =
    (omega (arith, length-append t.names (name ∷ [])), λ n i. (forward n i, backward n i))
  where
    forward :
        (n : String) (i : ℕ)
        → find_id n ((name, length t.names) ∷ t.ids) ≡ some i
        → get_elem? (t.names ++ name ∷ []) i ≡ some n
    forward n i e = elim (Bool-cases (Text.◌==◌ name n)) [
      | inl same ↦
          subst (λ m. get_elem? (t.names ++ name ∷ []) i ≡ some m) ((eq_iff name n).0 same)
            (subst (λ j. get_elem? (t.names ++ name ∷ []) j ≡ some name) (number same e)
              (get_elem?-new t.names name))
      | inr other ↦ get_elem?-old t.names name n i ((h.1 n i).0 (rw other at e))
    ]
      where
        number :
            Text.◌==◌ name n ≡ true
            → find_id n ((name, length t.names) ∷ t.ids) ≡ some i
            → length t.names ≡ i
        number q e = ground arith

    backward :
        (n : String) (i : ℕ)
        → get_elem? (t.names ++ name ∷ []) i ≡ some n
        → find_id n ((name, length t.names) ∷ t.ids) ≡ some i
    backward n i e = elim (get_elem?-last t.names name n i e) [
      | inr (at_end, same) ↦ rw ((eq_iff name n).1 same) (ap some (sym at_end))
      | inl old ↦ elim (Bool-cases (Text.◌==◌ name n)) [
        | inr other ↦ rw other ((h.1 n i).1 old)
        | inl same ↦ absurd (
            clash (subst (λ m. find_id m t.ids ≡ none) ((eq_iff name n).0 same) fresh)
              ((h.1 n i).1 old))
      ]
    ]
      where
        clash : find_id n t.ids ≡ none → find_id n t.ids ≡ some i → ⊥
        clash p q = cc

-- What an insertion has to give: a table again, in which the number stands for the name and every
-- earlier number for the name that it stood for.
abbrev pub Inserted : ℕ → NameTable → String → NameTable → ℕ → Type 0
Inserted limit t name t' id =
    IsTable limit t'
    × (lookup_name t' id ≡ some name)
    × ((n : String) (i : ℕ) → lookup_name t i ≡ some n → lookup_name t' i ≡ some n)

pair_inj :
    {t t' : NameTable} {i i' : ℕ}
    → ◌≡◌ {A = Option (NameTable × ℕ)} (some (t, i)) (some (t', i'))
    → (t ≡ t') × (i ≡ i')
pair_inj e = (ap table e, ap number e)
  where
    table : Option (NameTable × ℕ) → NameTable
    table none = record { names = []; ids = [] }
    table (some (t, i)) = t

    number : Option (NameTable × ℕ) → ℕ
    number none = 0
    number (some (t, i)) = i

-- On a table in which names and numbers agree, where the type of the number holds every one below the limit:
-- the insertion throws exactly when the table is full, and else gives a table that agrees, in which
-- the number stands for the name and every earlier number for the name that it stood for.
pub insert_name-Inserted :
    (limit width : ℕ) (t : NameTable) (name : String)
    → ((n : ℕ) → n < limit → n % width ≡ n)
    → IsTable limit t
    → ((insert_name limit width t name ≡ none) × (length t.names ≡ limit))
      ⊎ ((t' : NameTable) × (id : ℕ) × (insert_name limit width t name ≡ some (t', id))
          × (length t.names < limit)
          × Inserted limit t name t' id)
unfolding insert_name lookup_name
insert_name-Inserted limit width t name fits h = elim (Bool-cases (length t.names == limit)) [
  | inl full ↦ inl (rw full refl, ground arith)
  | inr room ↦ elim (Option-cases (find_id name t.ids)) [
    | inr (id, known) ↦
        inr (t, id, rw (room, known) refl, below room, (h, (h.1 name id).0 known, (λ n i e. e)))
    | inl fresh ↦ inr (
      extended t name,
      length t.names,
      rw (room, fresh, fits (length t.names) (below room)) refl,
      below room,
      (
        extended-IsTable limit t name h (below room) fresh,
        get_elem?-new t.names name,
        λ n i e. get_elem?-old t.names name n i e,
      ),
    )
  ]
]
  where
    below : (length t.names == limit) ≡ false → length t.names < limit
    below q = ground (arith, h.0)

abbrev pub IsStore : IdentifierStore → Type 0
IsStore s =
    IsTable max_variables s.variables
    × IsTable max_locks s.locks
    × IsTable max_conditionals s.conditionals

-- What `insert_name` gives is what a caller of it that wraps the table gives on.
with_id-Inserted :
    (limit width : ℕ) (t : NameTable) (name : String) (f : NameTable → IdentifierStore)
    (s' : IdentifierStore) (id : ℕ)
    → ((n : ℕ) → n < limit → n % width ≡ n)
    → IsTable limit t
    → (insert_name limit width t name >>= with_id f) ≡ some (s', id)
    → (t' : NameTable) × (f t' ≡ s') × Inserted limit t name t' id
with_id-Inserted limit width t name f s' id fits h e =
    elim (insert_name-Inserted limit width t name fits h) [
      | inl (q, full) ↦ absurd (not_some (rw q at e))
      | inr (t', i, q, below, inserted) ↦
          let (p, r) = store_inj (rw q at e) in (t', p, subst (Inserted limit t name t') r inserted)
    ]
  where
    not_some : ◌≡◌ {A = Option (IdentifierStore × ℕ)} none (some (s', id)) → ⊥
    not_some q = cc

    store_inj :
        {x y : IdentifierStore} {i j : ℕ}
        → ◌≡◌ {A = Option (IdentifierStore × ℕ)} (some (x, i)) (some (y, j))
        → (x ≡ y) × (i ≡ j)
    store_inj q = (cc, cc)

-- In a store whose three tables agree, each of the three insertions that returns gives a store whose
-- tables agree, and the number that it returns stands for the name.
pub insert-IsStore :
    (s : IdentifierStore) (name : String) (s' : IdentifierStore) (id : ℕ)
    → IsStore s
    → (insert_variable s name ≡ some (s', id)
        → IsStore s' × (lookup_name s'.variables id ≡ some name))
      × (insert_lock s name ≡ some (s', id) → IsStore s' × (lookup_name s'.locks id ≡ some name))
      × (insert_conditional s name ≡ some (s', id)
          → IsStore s' × (lookup_name s'.conditionals id ≡ some name))
unfolding insert_variable insert_lock insert_conditional
insert-IsStore s name s' id (v, l, c) = (
  λ e.
      let (t, q, (ok, here, old)) =
        with_id-Inserted max_variables 65536 s.variables name (λ t. record s { variables = t }) s'
          id (λ n h. omega arith) v e in
      subst (λ x. IsStore x × (lookup_name x.variables id ≡ some name)) q ((ok, l, c), here),
  λ e.
      let (t, q, (ok, here, old)) =
        with_id-Inserted max_locks 256 s.locks name (λ t. record s { locks = t }) s' id
          (λ n h. omega arith) l e in
      subst (λ x. IsStore x × (lookup_name x.locks id ≡ some name)) q ((v, ok, c), here),
  λ e.
      let (t, q, (ok, here, old)) =
        with_id-Inserted max_conditionals 256 s.conditionals name
          (λ t. record s { conditionals = t }) s' id (λ n h. omega arith) c e in
      subst (λ x. IsStore x × (lookup_name x.conditionals id ≡ some name)) q ((v, l, ok), here),
)
