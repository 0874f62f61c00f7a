-- ===== src/Examples/Names.antt =====
-- The store of identifiers at concrete names.
use liss.Common.{ℕ, ◌<◌, ◌≡◌, ◌⊎◌, refl, arith, [], ◌∷◌, none, some, length}
use liss.Abstraction.Identifiers.{
  NameTable, IdentifierStore, max_variables, max_locks, max_conditionals, insert_name,
  insert_variable, insert_lock, insert_conditional, lookup_name, find_id,
}
use liss.Abstraction.Identifiers.Sound.{
  IsTable, IsStore, Inserted, insert_name-Inserted, insert-IsStore,
}

abbrev no_names : NameTable
no_names = record { names = []; ids = [] }

abbrev new_store : IdentifierStore
new_store = record { variables = no_names; locks = no_names; conditionals = no_names }

no_names-IsTable : (limit : ℕ) → IsTable limit no_names
unfolding find_id lookup_name
no_names-IsTable limit = (omega arith, λ n i. ((λ e. cc), (λ e. cc)))

insert_name-Inserted_example :
    ((insert_name 2 256 no_names "m" ≡ none) × (length no_names.names ≡ 2))
    ⊎ ((t' : NameTable) × (id : ℕ) × (insert_name 2 256 no_names "m" ≡ some (t', id))
        × (length no_names.names < 2)
        × Inserted 2 no_names "m" t' id)
insert_name-Inserted_example =
    insert_name-Inserted 2 256 no_names "m" (λ n h. omega arith) (no_names-IsTable 2)

abbrev with_m : NameTable
with_m = record { names = "m" ∷ []; ids = ("m", 0) ∷ [] }

insert-IsStore_example :
    (insert_variable new_store "m" ≡ some (record new_store { locks = with_m }, 0)
      → IsStore (record new_store { locks = with_m }) × (lookup_name no_names 0 ≡ some "m"))
    × (insert_lock new_store "m" ≡ some (record new_store { locks = with_m }, 0)
        → IsStore (record new_store { locks = with_m }) × (lookup_name with_m 0 ≡ some "m"))
    × (insert_conditional new_store "m" ≡ some (record new_store { locks = with_m }, 0)
        → IsStore (record new_store { locks = with_m }) × (lookup_name no_names 0 ≡ some "m"))
insert-IsStore_example =
    insert-IsStore new_store "m" (record new_store { locks = with_m }) 0
      (
        no_names-IsTable max_variables,
        no_names-IsTable max_locks,
        no_names-IsTable max_conditionals,
      )

takes_m : insert_lock new_store "m" ≡ some (record new_store { locks = with_m }, 0)
unfolding insert_lock
takes_m = refl

-- A known name is refused when the table is full.
full_refuses : insert_name 1 256 with_m "m" ≡ none
unfolding insert_name
full_refuses = refl
