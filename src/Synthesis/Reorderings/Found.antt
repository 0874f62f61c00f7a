-- ===== src/Synthesis/Reorderings/Found.antt =====
-- `find_lock_locs` and `find_locs` of synthesis/reorderings.cpp: a side of a lock that stands in the
-- trace is found.
use mathlib.Core.List.Memᴰ
use liss.Common.{
  ℕ, zero, suc, ◌<◌, ◌≤◌, ◌&&◌, ◌+◌, ◌≡◌, inl, inr, refl, sym, subst, ap, true, false, not, List,
  [], ◌∷◌, none, some, arith, ◌==◌, ltb, Bool, Bool-cases, Option-cases, ◌∙◌, Memᴰ, some-inj,
  length, lt_of_get_elem?, get_elem?-some, get_elem?, set, replicate, ==_refl,
}
use liss.Abstraction.Symbol.{Symbol, thread_id, symbol_eq}
use liss.Abstraction.Symbol.Equality.{symbol_eq_sym, symbol_eq_trans}
use liss.Synthesis.Constraint.{TraceLocation}
use liss.Synthesis.Traces.{LockList}
use liss.Synthesis.Reorderings.{SeparatedTrace}
use liss.Synthesis.Reorderings.Forbidden.{
  Region, Matched, is_used, add_region, keep_matching, match_from, match_each, find_lock_locs,
  with_symbol, find_locs,
}

-- The symbols stand after position `i` of the thread one after the other, the last at `last`.
abbrev pub Follows : List TraceLocation → ℕ → LockList → TraceLocation → Type 0
Follows thread i [] last = get_elem? thread i ≡ some last
Follows thread i (sy ∷ after) last =
    (l : TraceLocation) × (get_elem? thread (suc i) ≡ some l)
    × (symbol_eq l.symbol sy ≡ true)
    × Follows thread (suc i) after last

-- The list stands in its thread of the trace, symbol by symbol, from `first` to `last`, and its first
-- symbol is not among the others.
abbrev pub StandsAt : SeparatedTrace → LockList → TraceLocation → TraceLocation → Type 0
StandsAt strace [] first last = ⊥
StandsAt strace (s ∷ after) first last =
    (thread : List TraceLocation) × (i : ℕ) × (get_elem? strace.threaded_trace (thread_id s)
      ≡ some thread)
    × (get_elem? thread i ≡ some first)
    × (symbol_eq first.symbol s ≡ true)
    × Follows thread i after last
    × ((x : Symbol) → Memᴰ x after → symbol_eq s x ≡ false)

is_used-set_other :
    (used : List Bool) (i p : ℕ) → (i == p) ≡ false → is_used (set used i true) p ≡ is_used used p
is_used-set_other [] i p h = refl
is_used-set_other (u ∷ used) zero zero h = cc
is_used-set_other (u ∷ used) zero (suc p) h = refl
is_used-set_other (u ∷ used) (suc i) zero h = refl
is_used-set_other (u ∷ used) (suc i) (suc p) h = is_used-set_other used i p (ground arith)

is_used-replicate : (n p : ℕ) → is_used (replicate n false) p ≡ false
is_used-replicate zero p = refl
is_used-replicate (suc n) zero = refl
is_used-replicate (suc n) (suc p) = is_used-replicate n p

mem-add_region :
    (start end : TraceLocation) (result : List Region) (r : Region)
    → Memᴰ r result
    → Memᴰ r (add_region start end result)
mem-add_region start end result r m = elim (Bool-cases (start.name == end.name)) [
  | inl e ↦ rw e m
  | inr e ↦ rw e (Memᴰ.append_left ((start, end) ∷ []) m)
]

module _ (thread : List TraceLocation) where
  keep_matching-Follows :
      (after : LockList) (m : Matched) (last : TraceLocation)
      → get_elem? thread m.index ≡ some m.end
      → Follows thread m.index after last
      → (keep_matching thread after m).end ≡ last
  unfolding keep_matching
  keep_matching-Follows [] m last e h = some-inj (ground (arith, e, h))
  keep_matching-Follows (sy ∷ after) m last e (l, at_l, same, rest) =
      rw (keep_matching, at_l, same)
        (keep_matching-Follows after
          (record { used = set m.used (suc m.index) true; index = suc m.index; end = l }) last at_l
          rest)

  keep_matching-grows :
      (after : LockList) (m : Matched) → m.index ≤ (keep_matching thread after m).index
  unfolding keep_matching
  keep_matching-grows [] m = omega arith
  keep_matching-grows (sy ∷ after) m = elim (Option-cases (get_elem? thread (suc m.index))) [
    | inl none_left ↦ rw (keep_matching, none_left) (omega arith)
    | inr (l, at_l) ↦ elim (Bool-cases (symbol_eq l.symbol sy)) [
      | inr differs ↦ rw (keep_matching, at_l, differs) (omega arith)
      | inl same ↦
          rw (keep_matching, at_l, same)
            (less (
              keep_matching-grows after
                (record { used = set m.used (suc m.index) true; index = suc m.index; end = l })))
    ]
  ]
    where
      less : {k : ℕ} → suc m.index ≤ k → m.index ≤ k
      less h = omega arith

  match_from-keeps :
      (sy : Symbol) (after : LockList) (n i : ℕ) (used : List Bool) (result : List Region)
      (r : Region)
      → Memᴰ r result
      → Memᴰ r (match_from thread sy after n i used result).1
  unfolding match_from
  match_from-keeps sy after zero i used result r h = h
  match_from-keeps sy after (suc n) i used result r h = elim (Option-cases (get_elem? thread i)) [
    | inl none_left ↦ rw (match_from, none_left) h
    | inr (l, at_l) ↦ elim (Bool-cases (symbol_eq l.symbol sy && not (is_used used i))) [
      | inr skipped ↦
          rw (match_from, at_l, skipped) (match_from-keeps sy after n (suc i) used result r h)
      | inl starts ↦
          let m =
            keep_matching thread after (record { used = set used i true; index = i; end = l }) in
          rw (match_from, at_l, starts)
            (match_from-keeps sy after n (suc m.index) m.used (add_region l m.end result) r
              (mem-add_region l m.end result r h))
    ]
  ]

  module _ (s : Symbol) (p : ℕ) (first : TraceLocation) (at_p : get_elem? thread p ≡ some first)
      (is_s : symbol_eq first.symbol s ≡ true) where
    -- The inner loop that starts before `p` with symbols other than `s` stops before `p`.
    keep_matching-before :
        (after : LockList) (m : Matched)
        → ((x : Symbol) → Memᴰ x after → symbol_eq s x ≡ false)
        → m.index < p
        → is_used m.used p ≡ false
        → ((keep_matching thread after m).index < p)
          × (is_used (keep_matching thread after m).used p ≡ false)
    unfolding keep_matching
    keep_matching-before [] m other h u = (h, u)
    keep_matching-before (sy ∷ after) m other h u =
        elim (Option-cases (get_elem? thread (suc m.index))) [
          | inl none_left ↦ rw (keep_matching, none_left) (h, u)
          | inr (l, at_l) ↦ elim (Bool-cases (symbol_eq l.symbol sy)) [
            | inr differs ↦ rw (keep_matching, at_l, differs) (h, u)
            | inl same ↦ elim (Bool-cases (suc m.index == p)) [
              | inl here ↦ absurd (clash l at_l same (ground arith))
              | inr apart ↦
                  rw (keep_matching, at_l, same)
                    (keep_matching-before after
                      (record {
                        used = set m.used (suc m.index) true;
                        index = suc m.index;
                        end = l;
                      })
                      (λ x n. other x (Memᴰ.tail n)) (ground arith)
                      (is_used-set_other m.used (suc m.index) p apart ∙ u))
            ]
          ]
        ]
      where
        clash :
            (l : TraceLocation)
            → get_elem? thread (suc m.index) ≡ some l
            → symbol_eq l.symbol sy ≡ true
            → suc m.index ≡ p
            → ⊥
        clash l at_l same here =
            let is_first : l ≡ first = some-inj (sym at_l ∙ ap (get_elem? thread) here ∙ at_p) in
            let s_sy =
              symbol_eq_trans s first.symbol sy (symbol_eq_sym first.symbol s is_s)
                (subst (λ (k : TraceLocation). symbol_eq k.symbol sy ≡ true) is_first same) in
            let no = other sy (Memᴰ.head refl) in cc

    module _ (after : LockList) (last : TraceLocation) (follows : Follows thread p after last)
        (other : (x : Symbol) → Memᴰ x after → symbol_eq s x ≡ false)
        (apart : (first.name == last.name) ≡ false) where
      match_from-Finds :
          (n i : ℕ) (used : List Bool) (result : List Region)
          → i ≤ p
          → p < i + n
          → is_used used p ≡ false
          → Memᴰ (first, last) (match_from thread s after n i used result).1
      unfolding match_from
      match_from-Finds zero i used result h k u = absurd (omega arith)
      match_from-Finds (suc n) i used result h k u = elim (Bool-cases (i == p)) [
        | inl e ↦ here (ground arith)
        | inr e ↦ elim (Option-cases (get_elem? thread i)) [
          | inl none_left ↦ absurd (in_range none_left)
          | inr (l, at_l) ↦ elim (Bool-cases (symbol_eq l.symbol s && not (is_used used i))) [
            | inr skipped ↦
                rw (match_from, at_l, skipped)
                  (match_from-Finds n (suc i) used result (ground arith) (omega arith) u)
            | inl starts ↦
                let m : Matched = record { used = set used i true; index = i; end = l } in
                let (short, unused) =
                  keep_matching-before after m other (ground arith)
                    (is_used-set_other used i p e ∙ u) in
                rw (match_from, at_l, starts)
                  (match_from-Finds n (suc (keep_matching thread after m).index)
                    (keep_matching thread after m).used
                    (add_region l (keep_matching thread after m).end result) short
                    (further (keep_matching-grows after m)) unused)
          ]
        ]
      ]
        where
          further : {k : ℕ} → i ≤ k → p < suc k + n
          further b = omega arith

          in_bounds : p < length thread → i < length thread
          in_bounds b = omega arith

          in_range : get_elem? thread i ≡ none → ⊥
          in_range e =
              let (l, q) = get_elem?-some thread i (in_bounds (lt_of_get_elem? thread p at_p)) in cc

          added : (result : List Region) → Memᴰ (first, last) (add_region first last result)
          added result = rw apart (Memᴰ.append_right result (Memᴰ.head refl))

          here : i ≡ p → Memᴰ (first, last) (match_from thread s after (suc n) i used result).1
          here e =
              let at_i = ap (get_elem? thread) e ∙ at_p in
              let free : is_used used i ≡ false = ap (is_used used) e ∙ u in
              let m : Matched = record { used = set used i true; index = i; end = first } in
              let ends : (keep_matching thread after m).end ≡ last =
                keep_matching-Follows after m last at_i
                  (subst (λ k. Follows thread k after last) (sym e) follows) in
              rw (match_from, at_i, is_s, free, ends)
                (match_from-keeps s after n (suc (keep_matching thread after m).index)
                  (keep_matching thread after m).used (add_region first last result) (first, last)
                  (added result))

  match_each-keeps :
      (lock : LockList) (used : List Bool) (result : List Region) (r : Region)
      → Memᴰ r result
      → Memᴰ r (match_each thread lock used result)
  unfolding match_each
  match_each-keeps [] used result r h = h
  match_each-keeps (sy ∷ lock) used result r h =
      let matched = match_from thread sy lock (length thread) 0 used result in
      match_each-keeps lock matched.0 matched.1 r
        (match_from-keeps sy lock (length thread) 0 used result r h)

with_symbol-mem :
    (x : Symbol) (thread : List TraceLocation) (l : TraceLocation)
    → Memᴰ l thread
    → symbol_eq l.symbol x ≡ true
    → Memᴰ l (with_symbol x thread)
with_symbol-mem x [] l m same = elim m [ ]
with_symbol-mem x (k ∷ thread) l (Memᴰ.head e) same =
    rw (subst (λ (z : TraceLocation). symbol_eq z.symbol x ≡ true) e same) (Memᴰ.head e)
with_symbol-mem x (k ∷ thread) l (Memᴰ.tail m) same = elim (Bool-cases (symbol_eq k.symbol x)) [
  | inl e ↦ rw e (Memᴰ.tail (with_symbol-mem x thread l m same))
  | inr e ↦ rw e (with_symbol-mem x thread l m same)
]

-- The location stands in the thread of the symbol and has the symbol.
abbrev pub IsAt : SeparatedTrace → Symbol → TraceLocation → Type 0
IsAt strace x l =
    (thread : List TraceLocation) × (get_elem? strace.threaded_trace (thread_id x) ≡ some thread)
    × Memᴰ l thread
    × (symbol_eq l.symbol x ≡ true)

pub find_locs-IsAt :
    (strace : SeparatedTrace) (x : Symbol) (locs : List TraceLocation) (l : TraceLocation)
    → find_locs strace x ≡ some locs
    → IsAt strace x l
    → Memᴰ l locs
unfolding find_locs
find_locs-IsAt strace x locs l q (thread, at_x, m, same) =
    subst (Memᴰ l) (some-inj (sym (rw at_x refl) ∙ q)) (with_symbol-mem x thread l m same)

pub find_lock_locs-StandsAt :
    (strace : SeparatedTrace) (it : LockList) (locs : List Region) (first last : TraceLocation)
    → find_lock_locs strace it ≡ some locs
    → StandsAt strace it first last
    → (first.name == last.name) ≡ false
    → Memᴰ (first, last) locs
unfolding find_lock_locs match_each
find_lock_locs-StandsAt strace [] locs first last q stands apart = elim stands [ ]
find_lock_locs-StandsAt strace (s ∷ []) locs first last q
      (thread, i, at_s, at_i, is_s, at_last, other) apart =
    absurd (clash (some-inj (sym at_i ∙ at_last)))
  where
    clash : first ≡ last → ⊥
    clash e =
        let t =
          subst (λ (l : TraceLocation). (first.name == l.name) ≡ true) e (==_refl first.name) in
        cc
find_lock_locs-StandsAt strace (s ∷ t ∷ after) locs first last q
      (thread, i, at_s, at_i, is_s, follows, other) apart =
    let matched =
      match_from thread s (t ∷ after) (length thread) 0 (replicate (length thread) false) [] in
    subst (Memᴰ (first, last)) (some-inj (sym (rw (at_s, long) refl) ∙ q)) (
      match_each-keeps thread (t ∷ after) matched.0 matched.1 (first, last)
        (match_from-Finds thread s i first at_i is_s (t ∷ after) last follows other apart
          (length thread) 0 (replicate (length thread) false) [] (omega arith)
          (bounded (lt_of_get_elem? thread i at_i)) (is_used-replicate (length thread) i)))
  where
    bounded : i < length thread → i < 0 + length thread
    bounded h = omega arith

    long : ltb 1 (suc (suc (length after))) ≡ true
    long = ground arith
