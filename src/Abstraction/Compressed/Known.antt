-- ===== src/Abstraction/Compressed/Known.antt =====
-- abstraction/compressed_automaton.cpp: the numbers of elements that occur once, and of the symbols of the
-- automaton that is given.
use liss.Common.{
  ℕ, suc, ◌+◌, ◌%◌, ◌≤◌, ◌<◌, ◌≡◌, ◌∙◌, inl, inr, refl, sym, subst, ap, Bool, true, false, not,
  List, [], ◌∷◌, ◌++◌, none, some, arith, length, get_elem?, length-append, lt_of_get_elem?, any,
  append-nil, append_assoc,
}
use liss.Abstraction.Compressed.{Inner, find_symbol}
use liss.Abstraction.Compressed.Explore.{
  insert_next, inserted, grow, state_limit, symbol_limit, known_symbol, known_symbols,
}
use liss.Abstraction.Compressed.Interned.{
  Decides, keys, length-keys, IsIndexed, AreUnique, get_elem?-append, get_elem?-last,
  find_symbol-cases, insert_next-IsInserted,
}
use native.Mathlib.Nat.{mod-eq_of_lt}

module _ {ℓ} {B : Type ℓ} (eq : B → B → Bool) (decides : Decides eq) where
  get_elem?-middle :
      (xs : List B) (b : B) (ys : List B) → get_elem? (xs ++ b ∷ ys) (length xs) ≡ some b
  get_elem?-middle [] b ys = refl
  get_elem?-middle (x ∷ xs) b ys = get_elem?-middle xs b ys

  -- What comes later in a list without duplicates has no number yet.
  pub has_no_number :
      (pairs : List (B × ℕ)) (b : B) (rest : List B)
      → IsIndexed (keys pairs) pairs
      → AreUnique (keys pairs ++ b ∷ rest)
      → (find_symbol eq b pairs ≡ none) × (any (λ t. eq t b) (keys pairs) ≡ false)
  has_no_number pairs b rest h u = elim (find_symbol-cases eq decides (keys pairs) b pairs h) [
    | inl (k, _, at_k, _) ↦ absurd (
        omega (
          arith,
          lt_of_get_elem? (keys pairs) k at_k,
          u k (length (keys pairs)) b (get_elem?-append (keys pairs) (b ∷ rest) k at_k)
              (get_elem?-middle (keys pairs) b rest),
        ))
    | inr p ↦ p
  ]

  -- An insertion of what has no number.
  pub insert_new :
      (w : ℕ) (pairs : List (B × ℕ)) (b : B) (rest : List B)
      → length pairs < w
      → IsIndexed (keys pairs) pairs
      → AreUnique (keys pairs)
      → AreUnique (keys pairs ++ b ∷ rest)
      → let r = insert_next eq w b pairs in
        (r.is_new ≡ true)
        × (keys r.pairs ≡ keys pairs ++ b ∷ [])
        × (get_elem? (keys r.pairs) (length pairs % w) ≡ some b)
  insert_new w pairs b rest small h u u1 =
      let ins = insert_next-IsInserted eq decides w b pairs small h u in
      let new = ins.fresh ∙ ap not (has_no_number pairs b rest h u1).1 in
      let all = ins.extended ∙ ap (λ c. grow c b (keys pairs)) new in
      (
        new,
        all,
        ap (λ xs. get_elem? xs (length pairs % w)) all
            ∙ (ap (get_elem? (keys pairs ++ b ∷ [])) (mod-eq_of_lt small ∙ sym (length-keys pairs))
                ∙ get_elem?-last (keys pairs) b),
      )

AreUnique-front {ℓ} : {B : Type ℓ} (xs ys : List B) → AreUnique (xs ++ ys) → AreUnique xs
AreUnique-front xs ys u i j b e f =
    u i j b (get_elem?-append xs ys i e) (get_elem?-append xs ys j f)

module _ {ℓ κ} {S : Type ℓ} {A : Type κ} (same : A → A → Bool) (equal : S → S → Bool)
    (less : S → S → Bool) (ca : Inner S A) (us : List S) (vs : List A) (decA : Decides same)
    (decS : Decides equal) (small : length us < state_limit) where
  pub known_symbols_lem :
      (translation : List A) (pairs : List (A × ℕ))
      → length pairs + length translation ≤ symbol_limit
      → IsIndexed (keys pairs) pairs
      → AreUnique (keys pairs ++ translation)
      → let known = known_symbols same equal less ca (length pairs) translation pairs in
        (keys known ≡ keys pairs ++ translation) × IsIndexed (keys known) known
  unfolding known_symbols insert_next
  known_symbols_lem [] pairs room h u = (sym (append-nil (keys pairs)), h)
  known_symbols_lem (a ∷ translation) pairs room h u =
      let r = insert_next same symbol_limit a pairs in
      let less_than : length pairs < symbol_limit = omega (arith, room) in
      let u0 = AreUnique-front (keys pairs) (a ∷ translation) u in
      let ins = insert_next-IsInserted same decA symbol_limit a pairs less_than h u0 in
      let (new, all, _) = insert_new same decA symbol_limit pairs a translation less_than h u0 u in
      let (none_there, _) = has_no_number same decA pairs a translation h u in
      let more = pairs ++ (a, length pairs % symbol_limit) ∷ [] in
      let is_r : r.pairs ≡ more = ap (λ o. (inserted symbol_limit a pairs o).pairs) none_there in
      let bigger : suc (length pairs) ≡ length more =
        omega (arith, length-append pairs ((a, length pairs % symbol_limit) ∷ [])) in
      let keys_more : keys more ++ translation ≡ keys pairs ++ a ∷ translation =
        ap (λ xs. keys xs ++ translation) (sym is_r)
        ∙ (ap (λ xs. xs ++ translation) all ∙ append_assoc (keys pairs) (a ∷ []) translation) in
      let (e, indexed) =
        known_symbols_lem translation more (omega (arith, room, bigger))
          (subst (λ (xs : List (A × ℕ)). IsIndexed (keys xs) xs) is_r ins.indexed)
          (subst AreUnique (sym keys_more) u) in
      let step : known_symbols same equal less ca (suc (length pairs)) translation
            (known_symbol same equal less ca (length pairs) a pairs (find_symbol same a pairs))
          ≡ known_symbols same equal less ca (length more) translation more =
        ap
          (λ o.
            known_symbols same equal less ca (suc (length pairs)) translation
              (known_symbol same equal less ca (length pairs) a pairs o))
          none_there
        ∙ ap (λ (n : ℕ). known_symbols same equal less ca n translation more) bigger in
      (
        ap keys step ∙ (e ∙ keys_more),
        subst (λ (xs : List (A × ℕ)). IsIndexed (keys xs) xs) (sym step) indexed,
      )
