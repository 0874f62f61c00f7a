-- ===== src/Abstraction/Identifiers.antt =====
-- abstraction/identifier_store.h and abstraction/identifier_store.cpp: the numbers of the variables,
-- locks and conditionals of a program. `none` is a thrown exception.
pub mod Sound
use Prim.Native.String.{String}
use text.Mathlib.Text
use liss.Common.{
  ℕ, ◌%◌, Bool, List, [], ◌∷◌, ◌++◌, Option, none, some, ◌==◌, if◌then◌else◌, length, get_elem?,
}
use liss.Synthesis.Traces.{◌>>=◌}

-- `max_variables`, `max_locks` and `max_conditionals` of types.h.
abbrev pub max_variables : ℕ
max_variables = 65535

abbrev pub max_locks : ℕ
max_locks = 64

abbrev pub max_conditionals : ℕ
max_conditionals = 64

-- A vector of names with the map from a name to its number. The map is the list of its pairs.
pub record NameTable : Type 0 where
  pub names : List String
  pub ids : List (String × ℕ)

pub record IdentifierStore : Type 0 where
  pub variables : NameTable
  pub locks : NameTable
  pub conditionals : NameTable

unfoldable pub find_id : String → List (String × ℕ) → Option ℕ
find_id name [] = none
find_id name ((n, i) ∷ ids) =
    let rest = find_id name ids in if Text.◌==◌ n name then some i else rest

-- The three functions differ in the limit and in the number of values of the type of the number.
unfoldable pub insert_name : ℕ → ℕ → NameTable → String → Option (NameTable × ℕ)
unfolding find_id
insert_name limit width t name =
    if length t.names == limit then none else elim (find_id name t.ids) [
      | some id ↦ some (t, id)
      | none ↦
          let id = length t.names % width in
          some (record { names = t.names ++ name ∷ []; ids = (name, id) ∷ t.ids }, id)
    ]

-- The store with the new table, and the number.
abbrev pub with_id : (NameTable → IdentifierStore) → NameTable × ℕ → Option (IdentifierStore × ℕ)
with_id store (t, id) = some (store t, id)

unfoldable pub insert_variable : IdentifierStore → String → Option (IdentifierStore × ℕ)
unfolding insert_name
insert_variable s name =
    insert_name max_variables 65536 s.variables name >>= with_id (λ t. record s { variables = t })

unfoldable pub insert_lock : IdentifierStore → String → Option (IdentifierStore × ℕ)
unfolding insert_name
insert_lock s name =
    insert_name max_locks 256 s.locks name >>= with_id (λ t. record s { locks = t })

unfoldable pub insert_conditional : IdentifierStore → String → Option (IdentifierStore × ℕ)
unfolding insert_name
insert_conditional s name =
    insert_name max_conditionals 256 s.conditionals name
    >>= with_id (λ t. record s { conditionals = t })

unfoldable pub lookup_name : NameTable → ℕ → Option String
lookup_name t id = get_elem? t.names id
