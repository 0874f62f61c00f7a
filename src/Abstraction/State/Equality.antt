-- ===== src/Abstraction/State/Equality.antt =====
-- States that compare equal differ in their reward only and have the same hash; the order is a
-- strict weak one.
use liss.Common.{
  ℕ, ◌≡◌, ◌↔◌, refl, sym, ap, Bool, true, false, List, [], ◌∷◌, Option, none, some, ◌==◌, ==_iff,
  subst, arith, &&-true,
}
use liss.Common.Int.{ℤ, ◌==ℤ◌, ==ℤ_iff}
use liss.Abstraction.State.{
  ConcurrentState, list_eq, bit_eq, current_eq, state_eq, state_less, state_hash,
}

list_eq_sound {ℓ} :
    {A : Type ℓ} (eq : A → A → Bool) (sound : (a b : A) → eq a b ≡ true → a ≡ b) (xs ys : List A)
    → list_eq eq xs ys ≡ true
    → xs ≡ ys
unfolding list_eq
list_eq_sound eq sound [] [] h = refl
list_eq_sound eq sound (x ∷ xs) (y ∷ ys) h =
    let (p, q) = &&-true _ _ h in
    let e : x ≡ y = sound x y p in let es : xs ≡ ys = list_eq_sound eq sound xs ys q in cc
list_eq_sound eq sound [] (y ∷ ys) h = cc
list_eq_sound eq sound (x ∷ xs) [] h = cc

bit_eq_sound : (a b : Bool) → bit_eq a b ≡ true → a ≡ b
bit_eq_sound a b h = ground arith

current_eq_sound : (a b : Option ℕ) → current_eq a b ≡ true → a ≡ b
current_eq_sound none none h = refl
current_eq_sound (some a) (some b) h = ap some ((==_iff a b).0 h)
current_eq_sound none (some b) h = cc
current_eq_sound (some a) none h = cc

list_eq_refl {ℓ} :
    {A : Type ℓ} (eq : A → A → Bool) (r : (a : A) → eq a a ≡ true) (xs : List A)
    → list_eq eq xs xs ≡ true
unfolding list_eq
list_eq_refl eq r [] = refl
list_eq_refl eq r (x ∷ xs) = ground (arith, r x, list_eq_refl eq r xs)

-- The parts that are compared.
state_eq_parts :
    (s t : ConcurrentState)
    → (state_eq s t ≡ true) ↔ (
        (list_eq ◌==ℤ◌ s.threads t.threads ≡ true)
        × (list_eq bit_eq s.conditionals t.conditionals ≡ true)
        × (list_eq bit_eq s.locks t.locks ≡ true)
        × (current_eq s.current t.current ≡ true)
        × (list_eq bit_eq s.locksviolated t.locksviolated ≡ true)
        × (list_eq ◌==◌ s.conflicts t.conflicts ≡ true))
unfolding state_eq
state_eq_parts s t = ground arith

current_eq_refl : (a : Option ℕ) → current_eq a a ≡ true
current_eq_refl none = refl
current_eq_refl (some a) = (==_iff a a).1 refl

bit_eq_refl : (b : Bool) → bit_eq b b ≡ true
bit_eq_refl b = ground arith

state_eq_refl_but : (s : ConcurrentState) (r : ℤ) → state_eq (record s { reward = r }) s ≡ true
state_eq_refl_but s r = (state_eq_parts (record s { reward = r }) s).1 (
  list_eq_refl ◌==ℤ◌ (λ a. (==ℤ_iff a a).1 refl) s.threads,
  list_eq_refl bit_eq bit_eq_refl s.conditionals,
  list_eq_refl bit_eq bit_eq_refl s.locks,
  current_eq_refl s.current,
  list_eq_refl bit_eq bit_eq_refl s.locksviolated,
  list_eq_refl ◌==◌ (λ a. (==_iff a a).1 refl) s.conflicts,
)

-- Two states compare equal exactly when they differ in nothing but the reward.
pub state_eq_iff :
    (s t : ConcurrentState) → (state_eq s t ≡ true) ↔ (s ≡ record t { reward = s.reward })
state_eq_iff s t =
    (to, λ h. subst (λ x. state_eq x t ≡ true) (sym h) (state_eq_refl_but t s.reward))
  where
    to : state_eq s t ≡ true → s ≡ record t { reward = s.reward }
    to h =
        let (a, b, c, d, e, f) = (state_eq_parts s t).0 h in
        let a' : s.threads ≡ t.threads =
          list_eq_sound ◌==ℤ◌ (λ x y. (==ℤ_iff x y).0) s.threads t.threads a in
        let b' : s.conditionals ≡ t.conditionals =
          list_eq_sound bit_eq bit_eq_sound s.conditionals t.conditionals b in
        let c' : s.locks ≡ t.locks = list_eq_sound bit_eq bit_eq_sound s.locks t.locks c in
        let d' : s.current ≡ t.current = current_eq_sound s.current t.current d in
        let e' : s.locksviolated ≡ t.locksviolated =
          list_eq_sound bit_eq bit_eq_sound s.locksviolated t.locksviolated e in
        let f' : s.conflicts ≡ t.conflicts =
          list_eq_sound ◌==◌ (λ x y. (==_iff x y).0) s.conflicts t.conflicts f in
        λ i. record {
          threads = a' i;
          current = d' i;
          reward = s.reward;
          conditionals = b' i;
          locks = c' i;
          locksviolated = e' i;
          conflicts = f' i;
        }

-- States that compare equal have the same hash, whatever `hash_combine` is.
pub state_hash-respects :
    (combine : ℕ → ℤ → ℕ) (combine_bits : ℕ → List Bool → ℕ) (s t : ConcurrentState)
    → state_eq s t ≡ true
    → state_hash combine combine_bits s ≡ state_hash combine combine_bits t
unfolding state_hash
state_hash-respects combine combine_bits s t h =
    ap (state_hash combine combine_bits) ((state_eq_iff s t).0 h)

-- The order of the states is irreflexive and transitive, and so is being incomparable in it.
pub state_less_lem :
    (s t u : ConcurrentState)
    → (state_less s s ≡ false)
      × (state_less s t ≡ true → state_less t u ≡ true → state_less s u ≡ true)
      × (state_less s t ≡ false
          → state_less t s ≡ false
          → state_less t u ≡ false
          → state_less u t ≡ false
          → (state_less s u ≡ false) × (state_less u s ≡ false))
unfolding state_less
state_less_lem s t u = (ground arith, ground arith, ground arith)
