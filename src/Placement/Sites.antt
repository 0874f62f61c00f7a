-- ===== src/Placement/Sites.antt =====
-- The caches of placement/place_locks.cpp, and what `lock_sameinstr` requires of the states that share
-- a place of the source text.
use mathlib.Core.List.Memᴰ
use liss.Common.{
  ℕ, ◌<◌, ◌≡◌, ◌∙◌, inl, inr, refl, sym, subst, ap, Bool, true, false, ◌&&◌, ◌||◌, not, List, [],
  ◌∷◌, ◌++◌, some, arith, ◌==◌, ==_iff, ==_refl, if◌then◌else◌, Bool-cases, Memᴰ, all,
  all-concat_map, count_from, mem-count_from, numbered, mem-numbered, get_elem?, &&-true,
  concat_map,
}
use liss.Abstraction.Symbol.{Location}
use liss.Cfg.Graph.{AbstractCfg, State}
use liss.Placement.{Assignment, equal, at, PositionType, before, after}
use liss.Placement.Entries.{all-map}
use liss.Placement.Arrival.{placeless}
use liss.Placement.Result.{site_at}
use liss.Placement.Invariant.{thread_rules-hold}
use liss.Placement.Constraints.{
  Cache, push_site, cache_states, cache_threads, cached, same_rules, lock_sameinstr, states_of,
  add_constraints,
}
use liss.Placement.Rules.{
  Satisfies, holds, equal-true, all-split, IsState, mem-states_of, add_constraints-parts,
}

-- The locations that a cache has for a place.
abbrev find_site : ℕ → Cache → List Location
find_site k [] = []
find_site k ((k', xs) ∷ cache) = let rest = find_site k cache in if k' == k then xs else rest

find_site-push_site :
    (k : ℕ) (x : Location) (cache : Cache)
    → find_site k (push_site k x cache) ≡ find_site k cache ++ x ∷ []
unfolding push_site
find_site-push_site k x [] = rw (==_refl k) refl
find_site-push_site k x ((k', xs) ∷ cache) = elim (Bool-cases (k' == k)) [
  | inl e ↦ rw (e, e) refl
  | inr e ↦ rw (e, e) (find_site-push_site k x cache)
]

find_site-push_other :
    (k m : ℕ) (x : Location) (cache : Cache)
    → (m == k) ≡ false
    → find_site k (push_site m x cache) ≡ find_site k cache
unfolding push_site
find_site-push_other k m x [] h = rw h refl
find_site-push_other k m x ((k', xs) ∷ cache) h = elim (Bool-cases (k' == m)) [
  | inl e ↦ let q : (k' == k) ≡ false = ground arith in rw (e, q) refl
  | inr e ↦ elim (Bool-cases (k' == k)) [
    | inl q ↦ rw (e, q) refl
    | inr q ↦ rw (e, q) (find_site-push_other k m x cache h)
  ]
]

push_site-kept :
    (k m : ℕ) (x y : Location) (cache : Cache)
    → Memᴰ y (find_site k cache)
    → Memᴰ y (find_site k (push_site m x cache))
push_site-kept k m x y cache h = elim (Bool-cases (m == k)) [
  | inl e ↦
      subst (λ (m : ℕ). Memᴰ y (find_site k (push_site m x cache))) (sym ((==_iff m k).0 e))
        (subst (Memᴰ y) (sym (find_site-push_site k x cache)) (Memᴰ.append_left (x ∷ []) h))
  | inr e ↦ subst (Memᴰ y) (sym (find_site-push_other k m x cache e)) h
]

-- A group of the cache.
find_site-group :
    (k : ℕ) (y : Location) (cache : Cache)
    → Memᴰ y (find_site k cache)
    → Memᴰ (k, find_site k cache) cache
find_site-group k y [] h = elim h [ ]
find_site-group k y ((k', xs) ∷ cache) h = elim (Bool-cases (k' == k)) [
  | inl e ↦ rw e (Memᴰ.head (ap (λ (j : ℕ). (j, xs)) (sym ((==_iff k' k).0 e))))
  | inr e ↦ rw e (Memᴰ.tail (find_site-group k y cache (rw e at h)))
]

module _ (place : State → ℕ) where
  cache_states-kept :
      (t k : ℕ) (y : Location) (ss : List (ℕ × State)) (cache : Cache)
      → Memᴰ y (find_site k cache)
      → Memᴰ y (find_site k (cache_states place t ss cache))
  unfolding cache_states
  cache_states-kept t k y [] cache h = h
  cache_states-kept t k y ((i, s) ∷ ss) cache h = elim (Bool-cases (place s == 0)) [
    | inl e ↦ rw e (cache_states-kept t k y ss cache h)
    | inr e ↦ rw e (cache_states-kept t k y ss _ (push_site-kept k (place s) (at t i) y cache h))
  ]

  cache_states-mem :
      (t i : ℕ) (s : State) (ss : List (ℕ × State)) (cache : Cache)
      → Memᴰ (i, s) ss
      → (place s == 0) ≡ false
      → Memᴰ (at t i) (find_site (place s) (cache_states place t ss cache))
  unfolding cache_states
  cache_states-mem t i s [] cache m h = elim m [ ]
  cache_states-mem t i s ((j, s') ∷ ss) cache (Memᴰ.tail m) h = cache_states-mem t i s ss _ m h
  cache_states-mem t i s ((j, s') ∷ ss) cache (Memᴰ.head e) h =
      subst
        (λ (p : ℕ × State).
          Memᴰ (at t p.0) (find_site (place p.1) (cache_states place t ((j, s') ∷ ss) cache)))
        (sym e) (added (subst (λ (p : ℕ × State). (place p.1 == 0) ≡ false) e h))
    where
      added :
          (place s' == 0) ≡ false
          → Memᴰ (at t j) (find_site (place s') (cache_states place t ((j, s') ∷ ss) cache))
      added h' = rw h' (
          cache_states-kept t (place s') (at t j) ss _ (
            subst (Memᴰ (at t j)) (sym (find_site-push_site (place s') (at t j) cache))
              (Memᴰ.append_right (find_site (place s') cache) (Memᴰ.head refl))))

  cache_threads-kept :
      (k : ℕ) (y : Location) (ts : List (ℕ × AbstractCfg)) (cache : Cache)
      → Memᴰ y (find_site k cache)
      → Memᴰ y (find_site k (cache_threads place ts cache))
  unfolding cache_threads
  cache_threads-kept k y [] cache h = h
  cache_threads-kept k y ((t, g) ∷ ts) cache h =
      cache_threads-kept k y ts _ (cache_states-kept t k y (states_of g) cache h)

  cache_threads-mem :
      (t i : ℕ) (g : AbstractCfg) (s : State) (ts : List (ℕ × AbstractCfg)) (cache : Cache)
      → Memᴰ (t, g) ts
      → IsState g i s
      → (place s == 0) ≡ false
      → Memᴰ (at t i) (find_site (place s) (cache_threads place ts cache))
  unfolding cache_threads
  cache_threads-mem t i g s [] cache m at_i h = elim m [ ]
  cache_threads-mem t i g s ((u, g') ∷ ts) cache (Memᴰ.tail m) at_i h =
      cache_threads-mem t i g s ts _ m at_i h
  cache_threads-mem t i g s ((u, g') ∷ ts) cache (Memᴰ.head e) at_i h =
      subst
        (λ (p : ℕ × AbstractCfg). Memᴰ (at t i) (
          find_site (place s)
            (cache_threads place ts (cache_states place p.0 (states_of p.1) cache))))
        e
        (cache_threads-kept (place s) (at t i) ts _
          (cache_states-mem t i s (states_of g) cache (mem-states_of g i s at_i) h))

  -- Every state with a place is cached for it.
  cached-mem :
      (threads : List AbstractCfg) (t i : ℕ) (g : AbstractCfg) (s : State)
      → get_elem? threads t ≡ some g
      → IsState g i s
      → (place s == 0) ≡ false
      → Memᴰ (at t i) (find_site (place s) (cached place threads))
  unfolding cached
  cached-mem threads t i g s e at_i h =
      cache_threads-mem t i g s (numbered 0 threads) []
        (subst (λ (u : ℕ). Memᴰ (u, g) (numbered 0 threads)) (omega arith)
          (mem-numbered 0 t threads g e))
        at_i h

module _ (f g : Assignment → Location → ℕ → Bool) (v : Assignment) (n l k : ℕ) (lt : l < n) where
  -- Two locations of one entry of a cache agree.
  same_rules-agree :
      (xs : List Location)
      → all (holds v) (same_rules f g (count_from 0 n) (k, xs)) ≡ true
      → (x y : Location) → Memᴰ x xs
      → Memᴰ y xs
      → (f v x l ≡ f v y l) × (g v x l ≡ g v y l)
  unfolding same_rules
  same_rules-agree [] h x y mx my = elim mx [ ]
  same_rules-agree (a ∷ rest) h x y mx my =
      let (fx, gx) = to_first x mx in let (fy, gy) = to_first y my in (sym fx ∙ fy, sym gx ∙ gy)
    where
      to_first : (z : Location) → Memᴰ z (a ∷ rest) → (f v a l ≡ f v z l) × (g v a l ≡ g v z l)
      to_first z (Memᴰ.head e) = (ap (λ x. f v x l) (sym e), ap (λ x. g v x l) (sym e))
      to_first z (Memᴰ.tail m) =
          let both =
            all-map (holds v) _ rest
              (all-concat_map (holds v) _ (count_from 0 n) h l
                (mem-count_from 0 n l (omega arith) (omega arith)))
              z m in
          let (p, q) = &&-true (equal (f v a l) (f v z l)) (equal (g v a l) (g v z l)) both in
          (equal-true _ _ p, equal-true _ _ q)

-- Where a lock is taken and released: before a state or after it.
abbrev pub locks_at : PositionType → Assignment → Location → ℕ → Bool
locks_at before v x l = v.lock_b x l
locks_at after v x l = v.lock_a x l

abbrev pub unlocks_at : PositionType → Assignment → Location → ℕ → Bool
unlocks_at before v x l = v.unlock_b x l
unlocks_at after v x l = v.unlock_a x l

site_rules-hold :
    (v : Assignment) (threads : List AbstractCfg) (n : ℕ)
    → Satisfies v (add_constraints threads (count_from 0 n))
    → (position : PositionType)
    → all (holds v) (
        concat_map
          (same_rules (locks_at position) (unlocks_at position) (count_from 0 n))
          (cached (site_at position) threads))
      ≡ true
unfolding lock_sameinstr
site_rules-hold v threads n sat before =
    (all-split (holds v)
      (concat_map (same_rules (λ v. v.lock_a) (λ v. v.unlock_a) (count_from 0 n))
        (cached (λ s. s.lock_after) threads))
      _ (add_constraints-parts v threads (count_from 0 n) sat).1).1
site_rules-hold v threads n sat after =
    (all-split (holds v)
      (concat_map (same_rules (λ v. v.lock_a) (λ v. v.unlock_a) (count_from 0 n))
        (cached (λ s. s.lock_after) threads))
      _ (add_constraints-parts v threads (count_from 0 n) sat).1).0

-- At a state without a place nothing is done.
site_placeless :
    (v : Assignment) (threads : List AbstractCfg) (n : ℕ)
    → Satisfies v (add_constraints threads (count_from 0 n))
    → (position : PositionType) (t i : ℕ) (g : AbstractCfg) (s : State)
    → get_elem? threads t ≡ some g
    → IsState g i s
    → (l : ℕ) → l < n
    → (site_at position s == 0) ≡ true
    → (locks_at position v (at t i) l ≡ false) × (unlocks_at position v (at t i) l ≡ false)
site_placeless v threads n sat before t i g s e at_i l lt none_there =
    (placeless v n t g (thread_rules-hold v threads n sat t g e) i s at_i l lt).0 none_there
site_placeless v threads n sat after t i g s e at_i l lt none_there =
    (placeless v n t g (thread_rules-hold v threads n sat t g e) i s at_i l lt).1 none_there

site_shared :
    (v : Assignment) (threads : List AbstractCfg) (n : ℕ)
    → Satisfies v (add_constraints threads (count_from 0 n))
    → (position : PositionType) (t u i j : ℕ) (g h : AbstractCfg) (s s' : State)
    → get_elem? threads t ≡ some g
    → get_elem? threads u ≡ some h
    → IsState g i s
    → IsState h j s'
    → site_at position s ≡ site_at position s'
    → (site_at position s == 0) ≡ false
    → (l : ℕ) → l < n
    → (locks_at position v (at t i) l ≡ locks_at position v (at u j) l)
      × (unlocks_at position v (at t i) l ≡ unlocks_at position v (at u j) l)
site_shared v threads n sat position t u i j g h s s' e e' at_i at_j same there l lt =
    same_rules-agree (locks_at position) (unlocks_at position) v n l (site_at position s) lt group
      (all-concat_map (holds v) _ (cached (site_at position) threads)
        (site_rules-hold v threads n sat position) (site_at position s, group)
        (find_site-group (site_at position s) (at t i) (cached (site_at position) threads)
          first_in))
      (at t i) (at u j) first_in
      (subst (λ (k : ℕ). Memᴰ (at u j) (find_site k (cached (site_at position) threads))) (sym same)
        (cached-mem (site_at position) threads u j h s' e' at_j
          (subst (λ (k : ℕ). (k == 0) ≡ false) same there)))
  where
    group : List Location
    group = find_site (site_at position s) (cached (site_at position) threads)

    first_in : Memᴰ (at t i) group
    first_in = cached-mem (site_at position) threads t i g s e at_i there

-- An assignment that satisfies the hard constraints takes and releases a lock at all states, of all
-- threads, that have the same place of the source text, or at none of them, and at no state without
-- a place.
pub same_place :
    (v : Assignment) (threads : List AbstractCfg) (n : ℕ)
    → Satisfies v (add_constraints threads (count_from 0 n))
    → (position : PositionType) (t u i j : ℕ) (g h : AbstractCfg) (s s' : State)
    → get_elem? threads t ≡ some g
    → get_elem? threads u ≡ some h
    → IsState g i s
    → IsState h j s'
    → site_at position s ≡ site_at position s'
    → (l : ℕ) → l < n
    → (locks_at position v (at t i) l ≡ locks_at position v (at u j) l)
      × (unlocks_at position v (at t i) l ≡ unlocks_at position v (at u j) l)
      × ((not (site_at position s == 0)
            || not (locks_at position v (at t i) l) && not (unlocks_at position v (at t i) l))
          ≡ true)
same_place v threads n sat position t u i j g h s s' e e' at_i at_j same l lt =
    elim (Bool-cases (site_at position s == 0)) [
      | inl none_there ↦
          let (a, b) = site_placeless v threads n sat position t i g s e at_i l lt none_there in
          let (a', b') =
            site_placeless v threads n sat position u j h s' e' at_j l lt
              (subst (λ (k : ℕ). (k == 0) ≡ true) same none_there) in
          (a ∙ sym a', b ∙ sym b', rw (a, b) ground arith)
      | inr there ↦
          let (a, b) =
            site_shared v threads n sat position t u i j g h s s' e e' at_i at_j same there l lt in
          (a, b, rw there refl)
    ]
