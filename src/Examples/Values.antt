-- ===== src/Examples/Values.antt =====
-- Symbols, states and tagged integers.
use liss.Common.{ℕ, ◌+◌, ◌*◌, ◌≡◌, refl, false, [], ◌∷◌, some, arith}
use liss.Common.Int.{pos, pos_part}
use liss.Types.{not_dnf, not_cnf}
use liss.Types.Negation.{not_cnf-not_dnf}
use liss.Types.Tagged.{tagged_int, payload, tagged_test, payload-tagged_int}
use liss.Abstraction.Symbol.{Symbol, Location}
use liss.Abstraction.State.{ConcurrentState, new_state}
use liss.Synthesis.Constraint.{ConstraintAtom, not_atom}
use liss.Examples.Data.{read_x, write_x, make_location}

abbrev combine : ℕ → ℕ → ℕ
combine a b = 31 * a + b

abbrev hash_location : Location → ℕ
hash_location l = combine (pos_part l.state) l.thread

-- The same symbol under another name.
abbrev renamed : Symbol
renamed = record read_x { variable_name = "y" }

abbrev cheap : ConcurrentState
cheap = new_state 2 1

abbrev dear : ConcurrentState
dear = record cheap { reward = pos 5 }

payload-tagged_int_example :
    (w : ℕ) × (tagged_int 7 ≡ some w) × (payload w ≡ some 7) × (tagged_test w ≡ some false)
payload-tagged_int_example = payload-tagged_int 7 (omega arith)

abbrev order : ConstraintAtom
order = record {
  before = make_location read_x 0;
  after = make_location write_x 1;
  from_wait_notify = false;
}

not_cnf-not_dnf_example :
    not_cnf not_atom (not_dnf not_atom ((order ∷ []) ∷ [])) ≡ (order ∷ []) ∷ []
not_cnf-not_dnf_example =
    not_cnf-not_dnf not_atom (λ a. unfold not_atom in refl) ((order ∷ []) ∷ [])
