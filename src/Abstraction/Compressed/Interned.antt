-- ===== src/Abstraction/Compressed/Interned.antt =====
-- The maps of abstraction/compressed_automaton.cpp from states and symbols to numbers.
use liss.Common.{
  ℕ, zero, suc, ◌+◌, ◌%◌, ◌≤◌, ◌<◌, ◌≡◌, ◌↔◌, ◌⊎◌, ◌∙◌, inl, inr, refl, sym, subst, ap, Bool, true,
  false, not, List, [], ◌∷◌, ◌++◌, none, some, arith, if◌then◌else◌, Bool-cases, some-inj, length,
  get_elem?, length-append, Memᴰ, any, any-append,
}
use liss.Abstraction.Compressed.{find_symbol}
use liss.Abstraction.Compressed.Explore.{Insertion, inserted, insert_next, grow}
use native.Mathlib.Nat.{mod-eq_of_lt}

-- An equality test that decides equality.
abbrev pub Decides {ℓ} : {B : Type ℓ} → (B → B → Bool) → Type ℓ
Decides {B = B} eq = (a b : B) → (eq a b ≡ true) ↔ (a ≡ b)

module _ {ℓ} {B : Type ℓ} where
  abbrev pub keys : List (B × ℕ) → List B
  keys [] = []
  keys ((a, k) ∷ pairs) = a ∷ keys pairs

  -- Every number is the place of its key.
  abbrev pub IsIndexed : List B → List (B × ℕ) → Type ℓ
  IsIndexed table [] = Unit
  IsIndexed table ((a, k) ∷ pairs) = (get_elem? table k ≡ some a) × IsIndexed table pairs

  abbrev pub AreUnique : List B → Type ℓ
  AreUnique xs = (i j : ℕ) (b : B) → get_elem? xs i ≡ some b → get_elem? xs j ≡ some b → i ≡ j

  pub length-keys : (pairs : List (B × ℕ)) → length (keys pairs) ≡ length pairs
  length-keys [] = refl
  length-keys ((a, k) ∷ pairs) = ap suc (length-keys pairs)

  keys-append :
      (pairs : List (B × ℕ)) (b : B) (k : ℕ) → keys (pairs ++ (b, k) ∷ []) ≡ keys pairs ++ b ∷ []
  keys-append [] b k = refl
  keys-append ((a, j) ∷ pairs) b k = ap (λ xs. a ∷ xs) (keys-append pairs b k)

  pub get_elem?-append :
      (xs ys : List B) (k : ℕ) {a : B} → get_elem? xs k ≡ some a → get_elem? (xs ++ ys) k ≡ some a
  get_elem?-append [] ys k e = cc
  get_elem?-append (x ∷ xs) ys zero e = e
  get_elem?-append (x ∷ xs) ys (suc k) e = get_elem?-append xs ys k e

  pub get_elem?-last : (xs : List B) (a : B) → get_elem? (xs ++ a ∷ []) (length xs) ≡ some a
  get_elem?-last [] a = refl
  get_elem?-last (x ∷ xs) a = get_elem?-last xs a

  -- An element of a list with one more is one of the list or the last.
  pub get_elem?-append_cases :
      (xs : List B) (a : B) (k : ℕ) {b : B}
      → get_elem? (xs ++ a ∷ []) k ≡ some b
      → (get_elem? xs k ≡ some b) ⊎ ((k ≡ length xs) × (b ≡ a))
  get_elem?-append_cases [] a zero e = inr (refl, sym (some-inj e))
  get_elem?-append_cases [] a (suc k) e = cc
  get_elem?-append_cases (x ∷ xs) a zero e = inl e
  get_elem?-append_cases (x ∷ xs) a (suc k) e = elim (get_elem?-append_cases xs a k e) [
    | inl q ↦ inl q
    | inr (q, r) ↦ inr (ap suc q, r)
  ]

  get_elem?-mem : (xs : List B) (k : ℕ) {b : B} → get_elem? xs k ≡ some b → Memᴰ b xs
  get_elem?-mem [] k e = cc
  get_elem?-mem (x ∷ xs) zero e = Memᴰ.head (sym (some-inj e))
  get_elem?-mem (x ∷ xs) (suc k) e = Memᴰ.tail (get_elem?-mem xs k e)

  mem-get_elem? : (xs : List B) (b : B) → Memᴰ b xs → (k : ℕ) × (get_elem? xs k ≡ some b)
  mem-get_elem? [] b m = elim m [ ]
  mem-get_elem? (x ∷ xs) b (Memᴰ.head e) = (zero, ap some (sym e))
  mem-get_elem? (x ∷ xs) b (Memᴰ.tail m) = let (k, e) = mem-get_elem? xs b m in (suc k, e)

  IsIndexed-append :
      (table : List B) (more : List B) (pairs : List (B × ℕ))
      → IsIndexed table pairs
      → IsIndexed (table ++ more) pairs
  IsIndexed-append table more [] h = tt
  IsIndexed-append table more ((a, k) ∷ pairs) (h, hs) =
      (get_elem?-append table more k h, IsIndexed-append table more pairs hs)

  IsIndexed-push :
      (table : List B) (pairs : List (B × ℕ)) (b : B) (k : ℕ)
      → IsIndexed table pairs
      → get_elem? table k ≡ some b
      → IsIndexed table (pairs ++ (b, k) ∷ [])
  IsIndexed-push table [] b k h e = (e, tt)
  IsIndexed-push table ((a, j) ∷ pairs) b k (h, hs) e = (h, IsIndexed-push table pairs b k hs e)

module _ {ℓ} {B : Type ℓ} (eq : B → B → Bool) where
  -- How many elements of a list are not among others.
  unfoldable pub unseen : List B → List B → ℕ
  unseen [] xs = 0
  unseen (u ∷ us) xs = (if any (λ t. eq t u) xs then 0 else 1) + unseen us xs

  pub unseen-nil : (us : List B) → unseen us [] ≡ length us
  unfolding unseen
  unseen-nil [] = refl
  unseen-nil (u ∷ us) = omega (arith, unseen-nil us)

module _ {ℓ} {B : Type ℓ} (eq : B → B → Bool) (decides : Decides eq) where
  -- What the search in the map finds.
  pub find_symbol-cases :
      (table : List B) (b : B) (pairs : List (B × ℕ))
      → IsIndexed table pairs
      → ((k : ℕ) × (find_symbol eq b pairs ≡ some k)
          × (get_elem? table k ≡ some b)
          × (any (λ t. eq t b) (keys pairs) ≡ true))
        ⊎ ((find_symbol eq b pairs ≡ none) × (any (λ t. eq t b) (keys pairs) ≡ false))
  find_symbol-cases table b [] h = inr (refl, refl)
  find_symbol-cases table b ((a, k) ∷ pairs) (h, hs) = elim (Bool-cases (eq a b)) [
    | inl q ↦ inl (k, rw q refl, h ∙ ap some ((decides a b).0 q), rw q refl)
    | inr q ↦ elim (find_symbol-cases table b pairs hs) [
      | inl (j, e, at_j, m) ↦ inl (j, rw q e, at_j, rw q m)
      | inr (e, m) ↦ inr (rw q e, rw q m)
    ]
  ]

  pub absent :
      (xs : List B) (b : B) (k : ℕ) → any (λ t. eq t b) xs ≡ false → get_elem? xs k ≡ some b → ⊥
  absent [] b k h e = cc
  absent (x ∷ xs) b zero h e = let q : eq x b ≡ true = (decides x b).1 (some-inj e) in cc
  absent (x ∷ xs) b (suc k) h e = absent xs b k (ground arith) e

  -- What `insert` does to a map whose numbers are the places of its keys.
  pub record IsInserted (w : ℕ) (b : B) (pairs : List (B × ℕ)) (r : Insertion B) : Type ℓ where
    pub indexed : IsIndexed (keys r.pairs) r.pairs
    pub extended : keys r.pairs ≡ grow r.is_new b (keys pairs)
    pub placed : get_elem? (keys r.pairs) r.number ≡ some b
    pub fresh : r.is_new ≡ not (any (λ t. eq t b) (keys pairs))
    pub unique : AreUnique (keys r.pairs)

  AreUnique-push :
      (xs : List B) (b : B) → AreUnique xs → any (λ t. eq t b) xs ≡ false → AreUnique (xs ++ b ∷ [])
  AreUnique-push xs b u new i j c at_i at_j = elim (get_elem?-append_cases xs b i at_i) [
    | inl p ↦ elim (get_elem?-append_cases xs b j at_j) [
      | inl q ↦ u i j c p q
      | inr (_, e) ↦ absurd (absent xs b i new (subst (λ x. get_elem? xs i ≡ some x) e p))
    ]
    | inr (p, e) ↦ elim (get_elem?-append_cases xs b j at_j) [
      | inl q ↦ absurd (absent xs b j new (subst (λ x. get_elem? xs j ≡ some x) e q))
      | inr (q, _) ↦ p ∙ sym q
    ]
  ]

  pub insert_next-IsInserted :
      (w : ℕ) (b : B) (pairs : List (B × ℕ))
      → length pairs < w
      → IsIndexed (keys pairs) pairs
      → AreUnique (keys pairs)
      → IsInserted w b pairs (insert_next eq w b pairs)
  unfolding insert_next
  insert_next-IsInserted w b pairs small h u = elim (find_symbol-cases (keys pairs) b pairs h) [
    | inl (k, e, at_k, m) ↦
        subst (λ o. IsInserted w b pairs (inserted w b pairs o)) (sym e)
          (record { indexed = h; extended = refl; placed = at_k; fresh = rw m refl; unique = u })
    | inr (e, m) ↦ subst (λ o. IsInserted w b pairs (inserted w b pairs o)) (sym e) (added m)
  ]
    where
      last_number : length pairs % w ≡ length (keys pairs)
      last_number = mod-eq_of_lt small ∙ sym (length-keys pairs)

      added :
          any (λ t. eq t b) (keys pairs) ≡ false
          → IsInserted w b pairs (record {
            pairs = pairs ++ (b, length pairs % w) ∷ [];
            number = length pairs % w;
            is_new = true;
          })
      added m = record {
        indexed = rw (keys-append pairs b (length pairs % w)) (
            IsIndexed-push (keys pairs ++ b ∷ []) pairs b (length pairs % w)
              (IsIndexed-append (keys pairs) (b ∷ []) pairs h) in_place);
        extended = keys-append pairs b (length pairs % w);
        placed = rw (keys-append pairs b (length pairs % w)) in_place;
        fresh = rw m refl;
        unique = rw (keys-append pairs b (length pairs % w)) (AreUnique-push (keys pairs) b u m);
      }
        where
          in_place : get_elem? (keys pairs ++ b ∷ []) (length pairs % w) ≡ some b
          in_place = rw last_number (get_elem?-last (keys pairs) b)

  unseen_mono : (us xs : List B) (b : B) → unseen eq us (xs ++ b ∷ []) ≤ unseen eq us xs
  unfolding unseen
  unseen_mono [] xs b = omega arith
  unseen_mono (u ∷ us) xs b =
      ground (arith, unseen_mono us xs b, any-append (λ t. eq t u) xs (b ∷ []))

  unseen_less :
      (us xs : List B) (b : B)
      → Memᴰ b us
      → any (λ t. eq t b) xs ≡ false
      → suc (unseen eq us (xs ++ b ∷ [])) ≤ unseen eq us xs
  unfolding unseen
  unseen_less [] xs b m h = elim m [ ]
  unseen_less (u ∷ us) xs b (Memᴰ.tail m) h =
      ground (arith, unseen_less us xs b m h, any-append (λ t. eq t u) xs (b ∷ []))
  unseen_less (u ∷ us) xs b (Memᴰ.head e) h =
      let q : eq b u ≡ true = (decides b u).1 e in
      let new : any (λ t. eq t u) xs ≡ false = subst (λ x. any (λ t. eq t x) xs ≡ false) e h in
      ground (arith, unseen_mono us xs b, any-append (λ t. eq t u) xs (b ∷ []))

  pub length-inserted :
      (w : ℕ) (b : B) (pairs : List (B × ℕ)) (r : Insertion B)
      → IsInserted w b pairs r
      → length r.pairs ≡ (if r.is_new then 1 else 0) + length pairs
  length-inserted w b pairs r ins =
      sym (length-keys r.pairs) ∙ (ap length ins.extended ∙ by_case r.is_new)
    where
      by_case : (c : Bool) → length (grow c b (keys pairs)) ≡ (if c then 1 else 0) + length pairs
      by_case true = omega (arith, length-append (keys pairs) (b ∷ []), length-keys pairs)
      by_case false = omega (arith, length-keys pairs)

  -- An insertion takes no more room than there is among the elements that are expected.
  pub room-inserted :
      (w : ℕ) (b : B) (pairs : List (B × ℕ)) (r : Insertion B) (us : List B)
      → IsInserted w b pairs r
      → Memᴰ b us
      → (if r.is_new then 1 else 0) + unseen eq us (keys r.pairs) ≤ unseen eq us (keys pairs)
  room-inserted w b pairs r us ins m =
      subst (λ xs. (if r.is_new then 1 else 0) + unseen eq us xs ≤ unseen eq us (keys pairs))
        (sym ins.extended) (by_case r.is_new ins.fresh)
    where
      by_case :
          (c : Bool)
          → c ≡ not (any (λ t. eq t b) (keys pairs))
          → (if c then 1 else 0) + unseen eq us (grow c b (keys pairs)) ≤ unseen eq us (keys pairs)
      by_case true e = omega (arith, unseen_less us (keys pairs) b m (ground arith))
      by_case false e = omega arith
