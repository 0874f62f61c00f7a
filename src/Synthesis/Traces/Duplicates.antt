-- ===== src/Synthesis/Traces/Duplicates.antt =====
-- `remove_duplicates` of synthesis/trace_helpers.cpp: a lock that another one includes is erased.
use liss.Common.{
  ◌≡◌, refl, ap, ◌↔◌, ◌⊎◌, inl, inr, Bool, true, false, ◌&&◌, ◌||◌, not, [], ◌∷◌, ◌++◌, arith, ltb,
  ◌==◌, if◌then◌else◌, length, any, Memᴰ, Bool-cases, any_exists, subst, sym, ◌∙◌, append_assoc,
  append-nil,
}
use mathlib.Core.List.Memᴰ
use liss.Types.{Disj}
use liss.Abstraction.Symbol.{Symbol, thread_id}
use liss.Synthesis.Traces.{LockList, LockLists, LockSymbols}

false_not_true : ◌≡◌ {A = Bool} false true → ⊥
false_not_true h = cc

-- The first symbols belong to one thread.
abbrev pub BeginAlike : LockList → LockList → Type 0
BeginAlike l1 l2 =
    (x : Symbol) × (r1 : LockList) × (y : Symbol) × (r2 : LockList) × (l1 ≡ x ∷ r1)
    × (l2 ≡ y ∷ r2)
    × (thread_id x ≡ thread_id y)

-- Symbols are handed about as pointers. `std::search` compares the pointers, of which the code
-- relies on these facts only.
pub record Pointers : Type 0 where
  pub same : Symbol → Symbol → Bool
  pub same_trans : (a b c : Symbol) → same a b ≡ true → same b c ≡ true → same a c ≡ true

module _ (p : Pointers) where
  open p use {same, same_trans}

  unfoldable pub is_prefix : LockList → LockList → Bool
  is_prefix [] l2 = true
  is_prefix (x ∷ l1) [] = false
  is_prefix (x ∷ l1) (y ∷ l2) = same x y && is_prefix l1 l2

  -- `std::search(l2, l1) != l2.end()`
  unfoldable pub search_in : LockList → LockList → Bool
  unfolding is_prefix
  search_in l1 [] = false
  search_in l1 (y ∷ l2) = is_prefix l1 (y ∷ l2) || search_in l1 l2

  -- The threads of the first symbols are compared. The lists are not empty there, since
  -- `remove_preemption` leaves no empty list.
  abbrev pub same_front : LockList → LockList → Bool
  same_front (x ∷ l1) (y ∷ l2) = thread_id x == thread_id y
  same_front _ _ = false

  unfoldable pub sub_vector : LockList → LockList → Bool
  unfolding search_in
  sub_vector l1 l2 =
      if ltb (length l2) (length l1)
      then false
      else if not (same_front l1 l2)
      then false
      else search_in l1 l2

  unfoldable pub test_duplicate : LockLists → LockLists → Bool
  test_duplicate (l1a ∷ l1b ∷ []) (l2a ∷ l2b ∷ []) =
      sub_vector l1a l2a && sub_vector l1b l2b || sub_vector l1a l2b && sub_vector l1b l2a
  test_duplicate _ _ = false

  -- The test of the inner loop: both disjunctions are single locks, and the first is included.
  unfoldable pub included : Disj LockLists → Disj LockLists → Bool
  unfolding test_duplicate
  included (dl ∷ []) (dl2 ∷ []) = test_duplicate dl dl2
  included _ _ = false

  -- The outer loop, with the locks before `it` in `kept`; `it2` runs over all but `it`.
  unfoldable pub remove_from : LockSymbols → LockSymbols → LockSymbols
  unfolding included
  remove_from kept [] = kept
  remove_from kept (d ∷ rest) = elim (any (included d) (kept ++ rest)) [
    | true ↦ remove_from kept rest
    | false ↦ remove_from (kept ++ d ∷ []) rest
  ]

  unfoldable pub remove_duplicates : LockSymbols → LockSymbols
  unfolding remove_from
  remove_duplicates locks = remove_from [] locks

  is_prefix_trans :
      (a b c : LockList) → is_prefix a b ≡ true → is_prefix b c ≡ true → is_prefix a c ≡ true
  unfolding is_prefix
  is_prefix_trans [] b c h k = refl
  is_prefix_trans (x ∷ a) [] c h k = cc
  is_prefix_trans (x ∷ a) (y ∷ b) [] h k = cc
  is_prefix_trans (x ∷ a) (y ∷ b) (z ∷ c) h k =
      ground (arith, same_trans x y z, is_prefix_trans a b c)

  -- A list found in a prefix of `c` is found in `c`.
  search_in-prefix :
      (a b c : LockList) → search_in a b ≡ true → is_prefix b c ≡ true → search_in a c ≡ true
  unfolding search_in is_prefix
  search_in-prefix a [] c h k = cc
  search_in-prefix a (y ∷ b) [] h k = cc
  search_in-prefix a (y ∷ b) (z ∷ c) h k =
      ground (arith, is_prefix_trans a (y ∷ b) (z ∷ c), search_in-prefix a b c)

  search_in_trans :
      (a b c : LockList) → search_in a b ≡ true → search_in b c ≡ true → search_in a c ≡ true
  unfolding search_in
  search_in_trans a b [] h k = cc
  search_in_trans a b (z ∷ c) h k =
      ground (arith, search_in-prefix a b (z ∷ c), search_in_trans a b c)

  same_front_trans :
      (a b c : LockList) → same_front a b ≡ true → same_front b c ≡ true → same_front a c ≡ true
  same_front_trans [] b c h k = cc
  same_front_trans (x ∷ a) [] c h k = cc
  same_front_trans (x ∷ a) (y ∷ b) [] h k = cc
  same_front_trans (x ∷ a) (y ∷ b) (z ∷ c) h k = ground arith

  sub_vector_trans :
      (a b c : LockList) → sub_vector a b ≡ true → sub_vector b c ≡ true → sub_vector a c ≡ true
  unfolding sub_vector
  sub_vector_trans a b c h k = ground (arith, search_in_trans a b c, same_front_trans a b c)

  -- The two ways in which the sides of one lock lie in those of another.
  Lies : LockList → LockList → Type 0
  Lies a b = sub_vector a b ≡ true

  Matched : LockList → LockList → LockList → LockList → Type 0
  unfolding Lies
  Matched a a' b b' = Lies a b × Lies a' b' ⊎ Lies a b' × Lies a' b

  Matched-trans :
      (a a' b b' c c' : LockList) → Matched a a' b b' → Matched b b' c c' → Matched a a' c c'
  unfolding Matched
  Matched-trans a a' b b' c c' (inl (p1, p2)) (inl (q1, q2)) =
      inl (sub_vector_trans a b c p1 q1, sub_vector_trans a' b' c' p2 q2)
  Matched-trans a a' b b' c c' (inl (p1, p2)) (inr (q1, q2)) =
      inr (sub_vector_trans a b c' p1 q1, sub_vector_trans a' b' c p2 q2)
  Matched-trans a a' b b' c c' (inr (p1, p2)) (inl (q1, q2)) =
      inr (sub_vector_trans a b' c' p1 q2, sub_vector_trans a' b c p2 q1)
  Matched-trans a a' b b' c c' (inr (p1, p2)) (inr (q1, q2)) =
      inl (sub_vector_trans a b' c p1 q2, sub_vector_trans a' b c' p2 q1)

  test_duplicate_iff :
      (a a' b b' : LockList)
      → (test_duplicate (a ∷ a' ∷ []) (b ∷ b' ∷ []) ≡ true) ↔ Matched a a' b b'
  unfolding test_duplicate Matched
  test_duplicate_iff a a' b b' = ground arith

  pub test_duplicate_trans :
      (a b c : LockLists)
      → test_duplicate a b ≡ true
      → test_duplicate b c ≡ true
      → test_duplicate a c ≡ true
  test_duplicate_trans (a ∷ a' ∷ []) (b ∷ b' ∷ []) (c ∷ c' ∷ []) h k =
      (test_duplicate_iff a a' c c').1 (
        Matched-trans a a' b b' c c' ((test_duplicate_iff a a' b b').0 h)
          ((test_duplicate_iff b b' c c').0 k))
  test_duplicate_trans _ _ _ h k = unfold test_duplicate in cc

  included_trans :
      (d e f : Disj LockLists) → included d e ≡ true → included e f ≡ true → included d f ≡ true
  unfolding included
  included_trans (d ∷ []) (e ∷ []) (f ∷ []) h k = test_duplicate_trans d e f h k
  included_trans _ _ _ h k = cc

  -- A disjunction is covered by a list that holds it or one that includes it.
  abbrev Covered : Disj LockLists → LockSymbols → Type 0
  Covered d locks = (e : Disj LockLists) × Memᴰ e locks × ((d ≡ e) ⊎ (included d e ≡ true))

  -- Two lists of the same symbols, one by one.
  abbrev pub AreSame : LockList → LockList → Type 0
  AreSame [] [] = Unit
  AreSame (x ∷ l1) (y ∷ l2) = (same x y ≡ true) × AreSame l1 l2
  AreSame _ _ = ⊥

  -- The first list is a part of the second, and they begin with symbols of one thread.
  abbrev pub IsPart : LockList → LockList → Type 0
  IsPart l1 l2 =
      (before : LockList) × (middle : LockList) × (behind : LockList) × (l2
        ≡ before ++ (middle ++ behind))
      × AreSame l1 middle
      × BeginAlike l1 l2

  -- Two single locks, each side of the first of which is a part of its own side of the second.
  pub data Includes : Disj LockLists → Disj LockLists → Type 0 where
    in_order :
        (a a' b b' : LockList)
        → IsPart a b
        → IsPart a' b'
        → Includes ((a ∷ a' ∷ []) ∷ []) ((b ∷ b' ∷ []) ∷ [])
    crossed :
        (a a' b b' : LockList)
        → IsPart a b'
        → IsPart a' b
        → Includes ((a ∷ a' ∷ []) ∷ []) ((b ∷ b' ∷ []) ∷ [])

  is_prefix-AreSame :
      (l1 l2 : LockList)
      → is_prefix l1 l2 ≡ true
      → (middle : LockList) × (behind : LockList) × (l2 ≡ middle ++ behind) × AreSame l1 middle
  unfolding is_prefix
  is_prefix-AreSame [] l2 h = ([], l2, refl, tt)
  is_prefix-AreSame (x ∷ l1) [] h = cc
  is_prefix-AreSame (x ∷ l1) (y ∷ l2) h =
      let (middle, behind, e, alike) = is_prefix-AreSame l1 l2 (ground arith) in
      (y ∷ middle, behind, ap (λ l. y ∷ l) e, (ground arith, alike))

  search_in-parts :
      (l1 l2 : LockList)
      → search_in l1 l2 ≡ true
      → (before : LockList) × (middle : LockList) × (behind : LockList) × (l2
          ≡ before ++ (middle ++ behind))
        × AreSame l1 middle
  unfolding search_in
  search_in-parts l1 [] h = cc
  search_in-parts l1 (y ∷ l2) h = elim (Bool-cases (is_prefix l1 (y ∷ l2))) [
    | inl here ↦
        let (middle, behind, e, alike) = is_prefix-AreSame l1 (y ∷ l2) here in
        ([], middle, behind, e, alike)
    | inr elsewhere ↦
        let (before, middle, behind, e, alike) = search_in-parts l1 l2 (ground arith) in
        (y ∷ before, middle, behind, ap (λ l. y ∷ l) e, alike)
  ]

  same_front-BeginAlike : (l1 l2 : LockList) → same_front l1 l2 ≡ true → BeginAlike l1 l2
  same_front-BeginAlike [] l2 h = cc
  same_front-BeginAlike (x ∷ l1) [] h = cc
  same_front-BeginAlike (x ∷ l1) (y ∷ l2) h = (x, l1, y, l2, refl, refl, ground arith)

  sub_vector-IsPart : (l1 l2 : LockList) → sub_vector l1 l2 ≡ true → IsPart l1 l2
  unfolding sub_vector
  sub_vector-IsPart l1 l2 h =
      let (before, middle, behind, e, alike) = search_in-parts l1 l2 (ground arith) in
      (before, middle, behind, e, alike, same_front-BeginAlike l1 l2 (ground arith))

  test_duplicate-Includes :
      (d e : LockLists) → test_duplicate d e ≡ true → Includes (d ∷ []) (e ∷ [])
  unfolding Matched Lies test_duplicate
  test_duplicate-Includes (a ∷ a' ∷ []) (b ∷ b' ∷ []) h =
      elim ((test_duplicate_iff a a' b b').0 h) [
        | inl (p1, p2) ↦
            Includes.in_order a a' b b' (sub_vector-IsPart a b p1) (sub_vector-IsPart a' b' p2)
        | inr (p1, p2) ↦
            Includes.crossed a a' b b' (sub_vector-IsPart a b' p1) (sub_vector-IsPart a' b p2)
      ]
  test_duplicate-Includes _ _ h = absurd (false_not_true h)

  included-Includes : (d e : Disj LockLists) → included d e ≡ true → Includes d e
  unfolding included
  included-Includes (d ∷ []) (e ∷ []) h = test_duplicate-Includes d e h
  included-Includes _ _ h = absurd (false_not_true h)

  Covered-erase :
      (d x e : Disj LockLists) (kept rest : LockSymbols)
      → Memᴰ e (kept ++ rest)
      → included x e ≡ true
      → Covered d (kept ++ x ∷ rest)
      → Covered d (kept ++ rest)
  Covered-erase d x e kept rest me inc (f, mf, r) = elim (Memᴰ.append_cases kept mf) [
    | inl m ↦ (f, Memᴰ.append_left rest m, r)
    | inr m ↦ elim (Memᴰ.cases_cons m) [
      | inl same_x ↦ (e, me, inr (through same_x r))
      | inr m' ↦ (f, Memᴰ.append_right kept m', r)
    ]
  ]
    where
      through : f ≡ x → (d ≡ f) ⊎ (included d f ≡ true) → included d e ≡ true
      through q (inl p') = subst (λ z. included z e ≡ true) (sym (p' ∙ q)) inc
      through q (inr i) = included_trans d x e (subst (λ z. included d z ≡ true) q i) inc

  remove_from-Covered :
      (d : Disj LockLists) (kept rest : LockSymbols)
      → Covered d (kept ++ rest)
      → Covered d (remove_from kept rest)
  unfolding remove_from
  remove_from-Covered d kept [] h = subst (Covered d) (append-nil kept) h
  remove_from-Covered d kept (x ∷ rest) h = elim (Bool-cases (any (included x) (kept ++ rest))) [
    | inl dup ↦
        let (e, me, inc) = any_exists (included x) (kept ++ rest) dup in
        rw (dup, remove_from)
          (remove_from-Covered d kept rest (Covered-erase d x e kept rest me inc h))
    | inr new ↦
        rw (new, remove_from)
          (remove_from-Covered d (kept ++ x ∷ []) rest
            (subst (Covered d) (sym (append_assoc kept (x ∷ []) rest)) h))
  ]

  remove_from-mem :
      (d : Disj LockLists) (kept rest : LockSymbols)
      → Memᴰ d (remove_from kept rest)
      → Memᴰ d (kept ++ rest)
  unfolding remove_from
  remove_from-mem d kept [] h = Memᴰ.append_left [] h
  remove_from-mem d kept (x ∷ rest) h = elim (Bool-cases (any (included x) (kept ++ rest))) [
    | inl dup ↦
        elim (Memᴰ.append_cases kept (remove_from-mem d kept rest (rw (dup, remove_from) at h))) [
          | inl m ↦ Memᴰ.append_left (x ∷ rest) m
          | inr m ↦ Memᴰ.append_right kept (Memᴰ.tail m)
        ]
    | inr new ↦
        subst (Memᴰ d) (append_assoc kept (x ∷ []) rest)
          (remove_from-mem d (kept ++ x ∷ []) rest (rw (new, remove_from) at h))
  ]

-- `remove_duplicates` keeps only locks that were there, and for each lock that was there it keeps
-- that lock or one that includes it: both are single locks with two sides, and each side of the one is a
-- contiguous part of a side of the other, symbol by symbol, which begins in the same thread.
pub remove_duplicates_lem :
    (p : Pointers) (locks : LockSymbols) (d : Disj LockLists)
    → (Memᴰ d locks
        → (e : Disj LockLists) × Memᴰ e (remove_duplicates p locks) × ((d ≡ e) ⊎ Includes p d e))
      × (Memᴰ d (remove_duplicates p locks) → Memᴰ d locks)
unfolding remove_duplicates
remove_duplicates_lem p locks d = (
  λ m.
      let (e, k, r) = remove_from-Covered p d [] locks (d, m, inl refl) in
      (e, k, elim r [ inl q ↦ inl q | inr q ↦ inr (included-Includes p d e q) ]),
  remove_from-mem p d [] locks,
)
