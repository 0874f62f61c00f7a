-- ===== src/Abstraction/Compressed/Added.antt =====
-- abstraction/compressed_automaton.cpp, the two insertions of `from_concurrent_automaton`: a symbol
-- and a successor, and what the vectors and maps keep.
use liss.Common.{
  ℕ, suc, ◌≡◌, ◌⊎◌, ◌∙◌, inl, inr, refl, sym, subst, Bool, true, false, List, [], ◌∷◌, some, arith,
  if◌then◌else◌, Bool-cases, length, get_elem?, set, length-set, Memᴰ, lt_of_get_elem?,
  get_elem?-set_self, append-nil,
}
use liss.Abstraction.Compressed.{Inner}
use liss.Abstraction.Compressed.Explore.{
  Building, Insertion, insert_next, grow, symbol_limit, add_letter, push,
}
use liss.Abstraction.Compressed.Interned.{
  Decides, keys, length-keys, IsInserted, insert_next-IsInserted, length-inserted, room-inserted,
}
use liss.Abstraction.Compressed.Grown.{
  IsMapped, Grows, get_elem?-grow, length-grow, grow-cases, grow-append, get_elem?-set_cases,
  get_elem?-set_kept,
}

pub Memᴰ_cases {ℓ} : {B : Type ℓ} {t u : B} {ts : List B} → Memᴰ t (u ∷ ts) → (t ≡ u) ⊎ Memᴰ t ts
Memᴰ_cases (Memᴰ.head e) = inl e
Memᴰ_cases (Memᴰ.tail m) = inr m

module _ {ℓ} {S : Type ℓ} (less : S → S → Bool) where
  pub push-mem :
      (s t : S) (frontier : List S) → Memᴰ t (push less s frontier) → (t ≡ s) ⊎ Memᴰ t frontier
  push-mem s t [] (Memᴰ.head e) = inl e
  push-mem s t [] (Memᴰ.tail m) = elim m [ ]
  push-mem s t (u ∷ frontier) m = elim (Bool-cases (less u s)) [
    | inl q ↦
        first (subst (λ c. Memᴰ t (if c then s ∷ u ∷ frontier else u ∷ push less s frontier)) q m)
    | inr q ↦
        later (push-mem s t frontier)
          (subst (λ c. Memᴰ t (if c then s ∷ u ∷ frontier else u ∷ push less s frontier)) q m)
  ]
    where
      first : Memᴰ t (s ∷ u ∷ frontier) → (t ≡ s) ⊎ Memᴰ t (u ∷ frontier)
      first (Memᴰ.head e) = inl e
      first (Memᴰ.tail m1) = inr m1

      later :
          (Memᴰ t (push less s frontier) → (t ≡ s) ⊎ Memᴰ t frontier)
          → Memᴰ t (u ∷ push less s frontier)
          → (t ≡ s) ⊎ Memᴰ t (u ∷ frontier)
      later again (Memᴰ.head e) = inr (Memᴰ.head e)
      later again (Memᴰ.tail m1) = elim (again m1) [ inl e ↦ inl e | inr m2 ↦ inr (Memᴰ.tail m2) ]

  pub mem-push :
      (s t : S) (frontier : List S) → (t ≡ s) ⊎ Memᴰ t frontier → Memᴰ t (push less s frontier)
  mem-push s t [] (inl e) = Memᴰ.head e
  mem-push s t [] (inr m) = elim m [ ]
  mem-push s t (u ∷ frontier) h = elim (Bool-cases (less u s)) [
    | inl q ↦
        subst (λ c. Memᴰ t (if c then s ∷ u ∷ frontier else u ∷ push less s frontier)) (sym q)
          (first h)
    | inr q ↦
        subst (λ c. Memᴰ t (if c then s ∷ u ∷ frontier else u ∷ push less s frontier)) (sym q)
          (later (mem-push s t frontier) h)
  ]
    where
      first : (t ≡ s) ⊎ Memᴰ t (u ∷ frontier) → Memᴰ t (s ∷ u ∷ frontier)
      first (inl e) = Memᴰ.head e
      first (inr m) = Memᴰ.tail m

      later :
          ((t ≡ s) ⊎ Memᴰ t frontier → Memᴰ t (push less s frontier))
          → (t ≡ s) ⊎ Memᴰ t (u ∷ frontier)
          → Memᴰ t (u ∷ push less s frontier)
      later again (inl e) = Memᴰ.tail (again (inl e))
      later again (inr (Memᴰ.head e)) = Memᴰ.head e
      later again (inr (Memᴰ.tail m)) = Memᴰ.tail (again (inr m))

  pub length-push :
      (s : S) (frontier : List S) → length (push less s frontier) ≡ suc (length frontier)
  length-push s [] = refl
  length-push s (u ∷ frontier) = ground (arith, length-push s frontier)

module _ {ℓ κ} {S : Type ℓ} {A : Type κ} (same : A → A → Bool) (equal : S → S → Bool)
    (less : S → S → Bool) (ca : Inner S A) (us : List S) (vs : List A) (decA : Decides same)
    (decS : Decides equal) where
  abbrev with_letter : A → Building S A → Insertion A → Building S A
  with_letter sy b r = record b {
    table = record {
      symbol_map = r.pairs;
      symbol_translation = grow r.is_new sy b.table.symbol_translation;
    };
    epsilon =
        if ca.is_epsilon sy
        then set (grow r.is_new false b.epsilon) r.number true
        else grow r.is_new false b.epsilon;
  }

  module _ (b : Building S A) (h : IsMapped same equal ca us vs b) (sy : A) (r : Insertion A)
      (ins : IsInserted same decA symbol_limit sy b.table.symbol_map r) where
    old_letter :
        (k : ℕ) (a : A)
        → get_elem? (keys b.table.symbol_map) k ≡ some a
        → get_elem? (keys r.pairs) k ≡ some a
    old_letter k a e = rw ins.extended (get_elem?-grow r.is_new sy (keys b.table.symbol_map) k e)

    -- A mark comes from before, or is that of the new symbol.
    marked :
        (c : Bool) (k : ℕ)
        → ca.is_epsilon sy ≡ c
        → get_elem?
            (if c
              then set (grow r.is_new false b.epsilon) r.number true
              else grow r.is_new false b.epsilon)
            k
          ≡ some true
        → (a : A) × (get_elem? (keys r.pairs) k ≡ some a) × (ca.is_epsilon a ≡ true)
    marked c k q e = at c q e
      where
        before :
            get_elem? (grow r.is_new false b.epsilon) k ≡ some true
            → (a : A) × (get_elem? (keys r.pairs) k ≡ some a) × (ca.is_epsilon a ≡ true)
        before e1 = elim (grow-cases r.is_new false b.epsilon k e1) [
          | inl e2 ↦ let (a, at_k, m) = h.sound_marks k e2 in (a, old_letter k a at_k, m)
          | inr (_, f) ↦ cc
        ]

        at :
            (d : Bool)
            → ca.is_epsilon sy ≡ d
            → get_elem?
                (if d
                  then set (grow r.is_new false b.epsilon) r.number true
                  else grow r.is_new false b.epsilon)
                k
              ≡ some true
            → (a : A) × (get_elem? (keys r.pairs) k ≡ some a) × (ca.is_epsilon a ≡ true)
        at false p e1 = before e1
        at true p e1 =
            elim (get_elem?-set_cases (grow r.is_new false b.epsilon) r.number k true e1) [
              | inl (i, _) ↦
                  (sy, subst (λ j. get_elem? (keys r.pairs) j ≡ some sy) (sym i) ins.placed, p)
              | inr e2 ↦ before e2
            ]

    still_marked :
        (c : Bool) (k : ℕ)
        → get_elem? b.epsilon k ≡ some true
        → get_elem?
            (if c
              then set (grow r.is_new false b.epsilon) r.number true
              else grow r.is_new false b.epsilon)
            k
          ≡ some true
    still_marked false k e = get_elem?-grow r.is_new false b.epsilon k e
    still_marked true k e =
        elim (get_elem?-set_kept (grow r.is_new false b.epsilon) r.number k true
          (get_elem?-grow r.is_new false b.epsilon k e)) [ inl q ↦ q | inr (_, q) ↦ q ]

    length-marks :
        (c : Bool)
        → length (
            if c
            then set (grow r.is_new false b.epsilon) r.number true
            else grow r.is_new false b.epsilon)
          ≡ length r.pairs
    length-marks true =
        length-set (grow r.is_new false b.epsilon) r.number true ∙ length-marks_grown
      where
        length-marks_grown : length (grow r.is_new false b.epsilon) ≡ length r.pairs
        length-marks_grown = omega (
          arith,
          length-grow r.is_new false b.epsilon,
          h.marks,
          length-inserted same decA symbol_limit sy b.table.symbol_map r ins,
        )
    length-marks false = omega (
      arith,
      length-grow r.is_new false b.epsilon,
      h.marks,
      length-inserted same decA symbol_limit sy b.table.symbol_map r ins,
    )

    with_letter-IsMapped : Memᴰ sy vs → IsMapped same equal ca us vs (with_letter sy b r)
    with_letter-IsMapped m = record {
      indexed_states = h.indexed_states;
      unique_states = h.unique_states;
      seen = h.seen;
      finals = h.finals;
      rows = h.rows;
      room_states = h.room_states;
      inside = h.inside;
      sound_finals = h.sound_finals;
      indexed_symbols = ins.indexed;
      unique_symbols = ins.unique;
      symbols = rw h.symbols (sym ins.extended);
      marks = length-marks (ca.is_epsilon sy);
      room_symbols = omega (
        arith,
        h.room_symbols,
        length-inserted same decA symbol_limit sy b.table.symbol_map r ins,
        room-inserted same decA symbol_limit sy b.table.symbol_map r vs ins m,
      );
      sound_marks = λ k e. marked (ca.is_epsilon sy) k refl e;
      sound_rows = λ j row c ids e f.
          let (s, at_j, solid, (a, at_c, m1, ids_h)) = h.sound_rows j row c ids e f in
          (s, at_j, solid, (a, old_letter c a at_c, m1, ids_h));
    }

    with_letter-Grows : Memᴰ sy vs → Grows same equal ca us vs b (with_letter sy b r)
    with_letter-Grows m = record {
      mapped = with_letter-IsMapped m;
      states = ([], sym (append-nil (keys b.states)));
      symbols = rw ins.extended (grow-append r.is_new sy (keys b.table.symbol_map));
      marks = λ k e. still_marked (ca.is_epsilon sy) k e;
      finals = λ j e. e;
      rows = λ j row e. (row, e, λ c ids q. q);
      kept = λ s m1. m1;
      fresh = λ j s e. inl e;
      work = omega arith;
      initial = refl;
    }

    with_letter_mark :
        ca.is_epsilon sy ≡ true → get_elem? (with_letter sy b r).epsilon r.number ≡ some true
    with_letter_mark q = rw q (
        get_elem?-set_self (grow r.is_new false b.epsilon) r.number true (
          omega (
            arith,
            lt_of_get_elem? (keys r.pairs) r.number ins.placed,
            length-keys r.pairs,
            length-marks false,
          )))

  pub add_letter-Grows :
      (sy : A) (b : Building S A)
      → IsMapped same equal ca us vs b
      → Memᴰ sy vs
      → let r = add_letter same equal less ca sy b in
        Grows same equal ca us vs b r.0
        × (get_elem? (keys r.0.table.symbol_map) r.1 ≡ some sy)
        × (ca.is_epsilon sy ≡ true → get_elem? r.0.epsilon r.1 ≡ some true)
  unfolding add_letter
  add_letter-Grows sy b h m =
      let r = insert_next same symbol_limit sy b.table.symbol_map in
      let ins =
        insert_next-IsInserted same decA symbol_limit sy b.table.symbol_map
          (omega (arith, h.room_symbols)) h.indexed_symbols h.unique_symbols in
      (with_letter-Grows b h sy r ins m, ins.placed, λ q. with_letter_mark b h sy r ins q)
