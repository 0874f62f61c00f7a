-- ===== src/Types.antt =====
-- types.h: conjunctions, disjunctions and their normal forms as vectors, their negation, and the
-- 16-bit integer whose top bit is a tag.
pub mod Negation
pub mod Tagged
use liss.Common.{List, map}

-- `conj<atom>` and `disj<atom>` are vectors of atoms; `dnf` and `cnf` are vectors of those.
abbrev pub Conj {ℓ} : Type ℓ → Type ℓ
Conj A = List A

abbrev pub Disj {ℓ} : Type ℓ → Type ℓ
Disj A = List A

abbrev pub Dnf {ℓ} : Type ℓ → Type ℓ
Dnf A = List (Conj A)

abbrev pub Cnf {ℓ} : Type ℓ → Type ℓ
Cnf A = List (Disj A)

-- The four `operator!`, over the `operator!` of the atoms.
module _ {ℓ} {A : Type ℓ} (neg : A → A) where
  unfoldable pub not_conj : Conj A → Disj A
  not_conj c = map neg c

  unfoldable pub not_disj : Disj A → Conj A
  not_disj d = map neg d

  unfoldable pub not_dnf : Dnf A → Cnf A
  unfolding not_conj
  not_dnf d = map not_conj d

  unfoldable pub not_cnf : Cnf A → Dnf A
  unfolding not_disj
  not_cnf c = map not_disj c
