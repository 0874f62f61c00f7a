-- ===== src/Common/Loops.antt =====
-- Nested loops over vectors as lists of what their rounds add.
use Prim.Native.Nat.{ℕ, zero, suc, ◌+◌, ◌<◌, ◌≤◌}
use mathlib.Core.Path.{◌≡◌, refl, ap, sym, subst}
use mathlib.Core.Logic.{inl, inr}
use mathlib.Core.Bool.{Bool, true}
use mathlib.Core.List.{List, [], ◌∷◌, ◌++◌, Memᴰ}
use mathlib.Core.Option.{some}
use native.Mathlib.Omega.{arith}
use liss.Common.Tests.{◌==◌, if◌then◌else◌, Bool-cases}
use liss.Common.Lists.{some-inj, get_elem?, all, all-append}

-- `i`, `i + 1`, …, `i + n - 1`
abbrev pub count_from : ℕ → ℕ → List ℕ
count_from i zero = []
count_from i (suc n) = i ∷ count_from (suc i) n

module _ {ℓ} {A : Type ℓ} where
  abbrev pub numbered : ℕ → List A → List (ℕ × A)
  numbered i [] = []
  numbered i (x ∷ xs) = (i, x) ∷ numbered (suc i) xs

  abbrev pub keep : (A → Bool) → List A → List A
  keep p [] = []
  keep p (x ∷ xs) = let rest = keep p xs in if p x then x ∷ rest else rest

  abbrev pub concat_map {κ} : {B : Type κ} → (A → List B) → List A → List B
  concat_map f [] = []
  concat_map f (x ∷ xs) = f x ++ concat_map f xs

pub mem-count_from : (i n j : ℕ) → i ≤ j → j < i + n → Memᴰ j (count_from i n)
mem-count_from i zero j h k = absurd (omega arith)
mem-count_from i (suc n) j h k = elim (Bool-cases (i == j)) [
  | inl e ↦ Memᴰ.head (ground arith)
  | inr e ↦ Memᴰ.tail (mem-count_from (suc i) n j (ground arith) (omega arith))
]

pub count_from-mem : (i n j : ℕ) → Memᴰ j (count_from i n) → (i ≤ j) × (j < i + n)
count_from-mem i zero j m = elim m [ ]
count_from-mem i (suc n) j (Memᴰ.head e) = (omega (arith, e), omega (arith, e))
count_from-mem i (suc n) j (Memᴰ.tail m) =
    let (h, k) = count_from-mem (suc i) n j m in (omega (arith, h), omega (arith, k))

pair_eq {ℓ} : {A : Type ℓ} (i : ℕ) (x y : A) → x ≡ y → ◌≡◌ {A = ℕ × A} (i + 0, x) (i, y)
pair_eq i x y e = rw e (ap (λ (k : ℕ). (k, y)) (omega arith))

module _ {ℓ} {A : Type ℓ} where
  pub mem-numbered :
      (i j : ℕ) (xs : List A) (x : A) → get_elem? xs j ≡ some x → Memᴰ (i + j, x) (numbered i xs)
  mem-numbered i j [] x e = cc
  mem-numbered i zero (y ∷ xs) x e = Memᴰ.head (pair_eq i x y (sym (some-inj e)))
  mem-numbered i (suc j) (y ∷ xs) x e =
      Memᴰ.tail (
        subst (λ k. Memᴰ (k, x) (numbered (suc i) xs)) (omega arith)
          (mem-numbered (suc i) j xs x e))

  pub mem-keep : (p : A → Bool) (xs : List A) (x : A) → Memᴰ x xs → p x ≡ true → Memᴰ x (keep p xs)
  mem-keep p [] x m h = elim m [ ]
  mem-keep p (y ∷ xs) x (Memᴰ.head e) h = rw (subst (λ z. p z ≡ true) e h) (Memᴰ.head e)
  mem-keep p (y ∷ xs) x (Memᴰ.tail m) h = elim (Bool-cases (p y)) [
    | inl e ↦ rw e (Memᴰ.tail (mem-keep p xs x m h))
    | inr e ↦ rw e (mem-keep p xs x m h)
  ]

  kept :
      (p : A → Bool) (y : A) (xs : List A) (x : A)
      → p y ≡ true
      → (Memᴰ x (keep p xs) → Memᴰ x xs × (p x ≡ true))
      → Memᴰ x (y ∷ keep p xs)
      → Memᴰ x (y ∷ xs) × (p x ≡ true)
  kept p y xs x h again (Memᴰ.head e) = (Memᴰ.head e, subst (λ z. p z ≡ true) (sym e) h)
  kept p y xs x h again (Memᴰ.tail k) = let (k', h') = again k in (Memᴰ.tail k', h')

  pub keep-mem :
      (p : A → Bool) (xs : List A) (x : A) → Memᴰ x (keep p xs) → Memᴰ x xs × (p x ≡ true)
  keep-mem p [] x m = elim m [ ]
  keep-mem p (y ∷ xs) x m = elim (Bool-cases (p y)) [
    | inl e ↦ kept p y xs x e (keep-mem p xs x) (rw e at m)
    | inr e ↦ let (k, h) = keep-mem p xs x (rw e at m) in (Memᴰ.tail k, h)
  ]

  pub all-concat_map {κ} :
      {B : Type κ} (p : B → Bool) (f : A → List B) (xs : List A)
      → all p (concat_map f xs) ≡ true
      → (x : A) → Memᴰ x xs
      → all p (f x) ≡ true
  all-concat_map p f [] h x m = elim m [ ]
  all-concat_map p f (y ∷ xs) h x (Memᴰ.head e) =
      subst (λ z. all p (f z) ≡ true) (sym e) (ground (arith, all-append p (f y) (concat_map f xs)))
  all-concat_map p f (y ∷ xs) h x (Memᴰ.tail m) =
      all-concat_map p f xs (ground (arith, all-append p (f y) (concat_map f xs))) x m

  pub all_mem : (p : A → Bool) (xs : List A) → all p xs ≡ true → (x : A) → Memᴰ x xs → p x ≡ true
  all_mem p [] h x m = elim m [ ]
  all_mem p (y ∷ xs) h x (Memᴰ.head e) = subst (λ z. p z ≡ true) (sym e) (ground arith)
  all_mem p (y ∷ xs) h x (Memᴰ.tail m) = all_mem p xs (ground arith) x m

  pub all_of_mem :
      (p : A → Bool) (xs : List A) → ((x : A) → Memᴰ x xs → p x ≡ true) → all p xs ≡ true
  all_of_mem p [] h = refl
  all_of_mem p (x ∷ xs) h =
      ground (arith, h x (Memᴰ.head refl), all_of_mem p xs (λ y m. h y (Memᴰ.tail m)))
