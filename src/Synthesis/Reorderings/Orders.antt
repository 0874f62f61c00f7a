-- ===== src/Synthesis/Reorderings/Orders.antt =====
-- The number of the orders of a trace.
use liss.Common.{
  ℕ, zero, suc, ◌*◌, ◌≡◌, refl, ap, ◌∙◌, subst, List, [], ◌∷◌, map, arith, length, length-append,
  All, All-append,
}
use liss.Synthesis.Reorderings.Enumerate.{everywhere, everywhere_all, permutations}

abbrev pub factorial : ℕ → ℕ
factorial zero = 1
factorial (suc n) = suc n * factorial n

module _ {ℓ} {A : Type ℓ} where
  length-map : (x : A) (ls : List (List A)) → length (map (λ l. x ∷ l) ls) ≡ length ls
  length-map x [] = refl
  length-map x (l ∷ ls) = ap suc (length-map x ls)

  length-everywhere : (a : A) (l : List A) → length (everywhere a l) ≡ suc (length l)
  length-everywhere a [] = refl
  length-everywhere a (x ∷ l) = ap suc (length-map x (everywhere a l) ∙ length-everywhere a l)

  map-All :
      (x : A) (n : ℕ) (ls : List (List A))
      → All (λ k. length k ≡ n) ls
      → All (λ k. length k ≡ suc n) (map (λ l. x ∷ l) ls)
  map-All x n [] h = tt
  map-All x n (l ∷ ls) h = (ap suc h.0, map-All x n ls h.1)

  everywhere_lengths : (a : A) (l : List A) → All (λ k. length k ≡ suc (length l)) (everywhere a l)
  everywhere_lengths a [] = (refl, tt)
  everywhere_lengths a (x ∷ l) =
      (refl, map-All x (suc (length l)) (everywhere a l) (everywhere_lengths a l))

  everywhere_all_lengths :
      (a : A) (n : ℕ) (ls : List (List A))
      → All (λ k. length k ≡ n) ls
      → All (λ k. length k ≡ suc n) (everywhere_all a ls)
        × (length (everywhere_all a ls) ≡ suc n * length ls)
  everywhere_all_lengths a n [] h = (tt, omega arith)
  everywhere_all_lengths a n (l ∷ ls) h =
      let (rest, len) = everywhere_all_lengths a n ls h.1 in
      (
        All-append (λ k. length k ≡ suc n) (everywhere a l) (everywhere_all a ls)
            (subst (λ m. All (λ k. length k ≡ suc m) (everywhere a l)) h.0 (everywhere_lengths a l))
            rest,
        omega (
          arith,
          length-append (everywhere a l) (everywhere_all a ls),
          length-everywhere a l,
          len,
          h.0,
        ),
      )

  permutations_lengths :
      (l : List A)
      → All (λ k. length k ≡ length l) (permutations l)
        × (length (permutations l) ≡ factorial (length l))
  unfolding permutations
  permutations_lengths [] = ((refl, tt), refl)
  permutations_lengths (x ∷ l) =
      let (h, len) = permutations_lengths l in
      let (h', len') = everywhere_all_lengths x (length l) (permutations l) h in
      (h', len' ∙ ap (λ n. suc (length l) * n) len)

  pub length-permutations : (l : List A) → length (permutations l) ≡ factorial (length l)
  length-permutations l = (permutations_lengths l).1
