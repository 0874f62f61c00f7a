-- ===== src/Types/Negation.antt =====
-- What the negations of types.h mean: the laws of De Morgan over an evaluation of the atoms.
use liss.Common.{◌≡◌, refl, Bool, not, List, [], ◌∷◌, map, arith, any, all, All}
use liss.Types.{Conj, Disj, Dnf, Cnf, not_conj, not_disj, not_dnf, not_cnf}

module _ {ℓ} {A : Type ℓ} (v : A → Bool) where
  -- The truth of a formula under an evaluation of its atoms.
  abbrev pub eval_conj : Conj A → Bool
  eval_conj c = all v c

  abbrev pub eval_disj : Disj A → Bool
  eval_disj d = any v d

  abbrev pub eval_dnf : Dnf A → Bool
  eval_dnf d = any (all v) d

  abbrev pub eval_cnf : Cnf A → Bool
  eval_cnf c = all (any v) c

-- The atoms on which `neg` is the negation.
abbrev pub Flips {ℓ} : {A : Type ℓ} → (A → A) → (A → Bool) → A → Type 0
Flips neg v a = v (neg a) ≡ not (v a)

module _ {ℓ} {A : Type ℓ} (neg : A → A) (v : A → Bool) where
  pub eval-not_conj :
      (c : Conj A) → All (Flips neg v) c → eval_disj v (not_conj neg c) ≡ not (eval_conj v c)
  unfolding not_conj
  eval-not_conj [] h = refl
  eval-not_conj (a ∷ c) h = ground (arith, h.0, eval-not_conj c h.1)

  pub eval-not_disj :
      (d : Disj A) → All (Flips neg v) d → eval_conj v (not_disj neg d) ≡ not (eval_disj v d)
  unfolding not_disj
  eval-not_disj [] h = refl
  eval-not_disj (a ∷ d) h = ground (arith, h.0, eval-not_disj d h.1)

  pub eval-not_dnf :
      (d : Dnf A) → All (All (Flips neg v)) d → eval_cnf v (not_dnf neg d) ≡ not (eval_dnf v d)
  unfolding not_dnf
  eval-not_dnf [] h = refl
  eval-not_dnf (c ∷ d) h = ground (arith, eval-not_conj c h.0, eval-not_dnf d h.1)

  pub eval-not_cnf :
      (c : Cnf A) → All (All (Flips neg v)) c → eval_dnf v (not_cnf neg c) ≡ not (eval_cnf v c)
  unfolding not_cnf
  eval-not_cnf [] h = refl
  eval-not_cnf (d ∷ c) h = ground (arith, eval-not_disj d h.0, eval-not_cnf c h.1)

-- Negating twice gives the formula back, where negating an atom twice does.
map_involutive {ℓ} :
    {A : Type ℓ} (f g : A → A) (h : (a : A) → g (f a) ≡ a) (l : List A) → map g (map f l) ≡ l
map_involutive f g h [] = refl
map_involutive f g h (a ∷ l) = ground (arith, h a, map_involutive f g h l)

pub not_cnf-not_dnf {ℓ} :
    {A : Type ℓ} (neg : A → A) (h : (a : A) → neg (neg a) ≡ a) (d : Dnf A)
    → not_cnf neg (not_dnf neg d) ≡ d
unfolding not_cnf not_dnf
not_cnf-not_dnf neg h [] = refl
not_cnf-not_dnf neg h (c ∷ d) = ground (arith, map_involutive neg neg h c, not_cnf-not_dnf neg h d)
