-- ===== src/Placement/Entries.antt =====
-- The lists of predecessors and of lower locks in placement/place_locks.cpp, and what the constraints
-- over them say of one state.
use mathlib.Core.List.Memᴰ
use liss.Common.{
  ℕ, zero, suc, ◌+◌, ◌≤◌, ◌<◌, ◌≡◌, ◌∙◌, inl, inr, refl, sym, subst, Bool, true, false, ◌&&◌, ◌||◌,
  not, List, [], ◌∷◌, map, Memᴰ, arith, ◌==◌, any, all, all_mem, all-concat_map, count_from,
  keep-mem, mem-keep, Bool-cases, &&-true, List-cases,
}
use liss.Abstraction.Symbol.{Location}
use liss.Cfg.Graph.{AbstractCfg, Edge}
use liss.Placement.{Assignment, equal, inle}
use liss.Placement.Constraints.{
  entry_rules, from_rules, join_rules, lock_order_before, no_states, up_to, predecessors,
  predecessors_forward, edges_from, leads_to, leads_forward,
}
use liss.Placement.Rules.{holds, equal-true, all-split}

mem-up_to : (i n l lb : ℕ) → i ≤ lb → lb ≤ l → l < i + n → Memᴰ lb (up_to (count_from i n) l)
mem-up_to i zero l lb h k lt = absurd (omega arith)
mem-up_to i (suc n) l lb h k lt = elim (Bool-cases (i == l)) [
  | inl e ↦ rw e (Memᴰ.head (ground arith))
  | inr e ↦ rw e (elim (Bool-cases (i == lb)) [
    | inl q ↦ Memᴰ.head (ground arith)
    | inr q ↦ Memᴰ.tail (mem-up_to (suc i) n l lb (ground arith) k (omega arith))
  ])
]

pub mem-up_to_lock : (n l lb : ℕ) → lb ≤ l → l < n → Memᴰ lb (up_to (count_from 0 n) l)
mem-up_to_lock n l lb k lt = mem-up_to 0 n l lb (omega arith) k (omega arith)

pub all-map {ℓ κ} :
    {A : Type ℓ} {B : Type κ} (p : B → Bool) (f : A → B) (xs : List A)
    → all p (map f xs) ≡ true
    → (x : A) → Memᴰ x xs
    → p (f x) ≡ true
all-map p f [] h x m = elim m [ ]
all-map p f (y ∷ xs) h x (Memᴰ.head e) = subst (λ z. p (f z) ≡ true) (sym e) (ground arith)
all-map p f (y ∷ xs) h x (Memᴰ.tail m) = all-map p f xs (ground arith) x m

module _ (v : Assignment) (locks : List ℕ) (x : Location) (l : ℕ) where
  -- All predecessors that the join compares agree.
  pub join_rules-agree :
      (ps : List Location)
      → all (holds v) (join_rules ps l) ≡ true
      → (p q : Location) → Memᴰ p ps
      → Memᴰ q ps
      → inle v p l ≡ inle v q l
  unfolding join_rules
  join_rules-agree [] h p q mp mq = elim mp [ ]
  join_rules-agree (a ∷ []) h p q (Memᴰ.head e) (Memᴰ.head k) = rw (e, k) refl
  join_rules-agree (a ∷ []) h p q (Memᴰ.tail m) mq = elim m [ ]
  join_rules-agree (a ∷ []) h p q mp (Memᴰ.tail m) = elim m [ ]
  join_rules-agree (a ∷ b ∷ rest) h p q mp mq = sym (to_first p mp) ∙ to_first q mq
    where
      to_first : (r : Location) → Memᴰ r (a ∷ b ∷ rest) → inle v a l ≡ inle v r l
      to_first r (Memᴰ.head e) = rw e refl
      to_first r (Memᴰ.tail m) =
          equal-true _ _
            (all_mem (λ r. equal (inle v a l) (inle v r l)) (b ∷ rest) (ground arith) r m)

  -- Without forward predecessors nothing is held on entry.
  pub entry_rules-start :
      all (holds v) (entry_rules locks x [] l) ≡ true
      → (v.in_lock x l ≡ v.lock_b x l) × (v.unlock_b x l ≡ false)
  unfolding entry_rules
  entry_rules-start h = (equal-true _ _ (ground arith), ground arith)

  from_rules-hold :
      (f : Location)
      → all (holds v) (from_rules locks x l f) ≡ true
      → (v.unlock_b x l ≡ true → inle v f l ≡ true)
        × ((lb : ℕ) → Memᴰ lb (up_to locks l) → v.lock_b x l ≡ true → inle v f lb ≡ false)
  unfolding from_rules lock_order_before
  from_rules-hold f h =
      let (order, unl) = all-split (holds v) (lock_order_before locks l x f) _ h in
      (
        λ u. ground (arith, unl),
        λ lb m taken. ground (arith, all-map (holds v) _ (up_to locks l) order lb m),
      )

  -- A lock that is taken at the state is not held inside a forward predecessor.
  from_rules-inside :
      (f : Location)
      → Memᴰ l (up_to locks l)
      → all (holds v) (from_rules locks x l f) ≡ true
      → v.lock_b x l ≡ true
      → v.in_lock f l ≡ false
  unfolding from_rules lock_order_before
  from_rules-inside f m h taken =
      let (order, unl) = all-split (holds v) (lock_order_before locks l x f) _ h in
      ground (arith, all-map (holds v) _ (up_to locks l) order l m)

  pub entry_rules-inside :
      (ps : List Location) (f : Location)
      → Memᴰ f ps
      → Memᴰ l (up_to locks l)
      → all (holds v) (entry_rules locks x ps l) ≡ true
      → v.lock_b x l ≡ true
      → v.in_lock f l ≡ false
  unfolding entry_rules
  entry_rules-inside [] f mf m h taken = elim mf [ ]
  entry_rules-inside (a ∷ ps) f mf m h taken =
      let (def, more) = &&-true _ _ h in
      from_rules-inside f m (all-concat_map (holds v) (from_rules locks x l) (a ∷ ps) more f mf)
        taken

  -- With a forward predecessor, the first of them.
  pub entry_rules-first :
      (f : Location) (rest : List Location)
      → all (holds v) (entry_rules locks x (f ∷ rest) l) ≡ true
      → (v.in_lock x l ≡ (v.lock_b x l || not (v.unlock_b x l) && inle v f l))
        × (v.unlock_b x l ≡ true → inle v f l ≡ true)
        × ((lb : ℕ) → Memᴰ lb (up_to locks l) → v.lock_b x l ≡ true → inle v f lb ≡ false)
  unfolding entry_rules
  entry_rules-first f rest h =
      let (def, more) = &&-true _ _ h in
      let (unl, order) =
        from_rules-hold f
          (all-concat_map (holds v) (from_rules locks x l) (f ∷ rest) more f (Memᴰ.head refl)) in
      (equal-true _ _ def, unl, order)

pub mem-predecessors_forward :
    (g : AbstractCfg) (i p : ℕ) → Memᴰ p (predecessors_forward g i) → Memᴰ p (predecessors g i)
unfolding predecessors predecessors_forward
mem-predecessors_forward g i p m =
    let (k, h) = keep-mem _ (count_from 1 (no_states g)) p m in
    mem-keep _ (count_from 1 (no_states g)) p k (any_weaker (edges_from g p) h)
  where
    any_weaker : (es : List Edge) → any (leads_forward i) es ≡ true → any (leads_to i) es ≡ true
    any_weaker [] e = cc
    any_weaker (a ∷ es) e = ground (arith, any_weaker es)

pub empty_forward :
    (g : AbstractCfg) (i : ℕ) → predecessors g i ≡ [] → predecessors_forward g i ≡ []
empty_forward g i e = elim (List-cases (predecessors_forward g i)) [
  | inl q ↦ q
  | inr (p, rest, q) ↦ absurd (
      Memᴰ.not-nil (
        subst (Memᴰ p) e
          (mem-predecessors_forward g i p (subst (Memᴰ p) (sym q) (Memᴰ.head refl)))))
]
