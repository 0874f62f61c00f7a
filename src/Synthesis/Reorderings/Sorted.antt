-- ===== src/Synthesis/Reorderings/Sorted.antt =====
-- The order of a trace in a model: `sort_by` sorts, and two models with one order agree on any two
-- locations.
use mathlib.Core.List.Memᴰ
use liss.Common.{
  ◌<◌, ◌≡◌, ◌≢◌, inl, inr, ap, true, false, List, [], ◌∷◌, arith, ltb, all, Bool-cases, All,
  All-mem, Memᴰ,
}
use liss.Synthesis.Constraint.{TraceLocation, Model}
use liss.Synthesis.Reorderings.{insert_by, sort_by}
use liss.Synthesis.Reorderings.Prepare.{differs, all_distinct}

-- Every location comes before the later ones of the list.
abbrev pub IsSorted : Model → List TraceLocation → Type 0
IsSorted v [] = Unit
IsSorted v (l ∷ ls) = All (λ m. v l.name < v m.name) ls × IsSorted v ls

abbrev pub IsDistinct : Model → List TraceLocation → Type 0
IsDistinct v ls = all_distinct ls v ≡ true

-- What is before `l` and what is after it in a sorted list.
pub sorted_agree :
    (u v : Model) (ls : List TraceLocation) (a b : TraceLocation)
    → IsSorted u ls
    → IsSorted v ls
    → Memᴰ a ls
    → Memᴰ b ls
    → u a.name < u b.name
    → v a.name < v b.name
sorted_agree u v [] a b su sv ma mb h = elim ma [ ]
sorted_agree u v (l ∷ ls) a b su sv (Memᴰ.head p) (Memᴰ.head q) h = absurd (
    omega
      (arith, ap (λ (m : TraceLocation). u m.name) p, ap (λ (m : TraceLocation). u m.name) q, h))
sorted_agree u v (l ∷ ls) a b su sv (Memᴰ.head p) (Memᴰ.tail mb) h =
    omega (
      arith,
      ap (λ (m : TraceLocation). v m.name) p,
      All-mem (λ m. v l.name < v m.name) ls b sv.0 mb,
    )
sorted_agree u v (l ∷ ls) a b su sv (Memᴰ.tail ma) (Memᴰ.head q) h = absurd (
    omega (
      arith,
      ap (λ (m : TraceLocation). u m.name) q,
      h,
      All-mem (λ m. u l.name < u m.name) ls a su.0 ma,
    ))
sorted_agree u v (l ∷ ls) a b su sv (Memᴰ.tail ma) (Memᴰ.tail mb) h =
    sorted_agree u v ls a b su.1 sv.1 ma mb h

pub insert_by_mem :
    (v : Model) (l : TraceLocation) (ls : List TraceLocation) (m : TraceLocation)
    → Memᴰ m (insert_by v l ls)
    → Memᴰ m (l ∷ ls)
unfolding insert_by
insert_by_mem v l [] m h = h
insert_by_mem v l (k ∷ ks) m h = elim (Bool-cases (ltb (v k.name) (v l.name))) [
  | inr stop ↦ rw stop at h
  | inl go ↦ elim (Memᴰ.cases_cons (rw go at h)) [
    | inl e ↦ Memᴰ.tail (Memᴰ.head e)
    | inr later ↦ elim (Memᴰ.cases_cons (insert_by_mem v l ks m later)) [
      | inl e ↦ Memᴰ.head e
      | inr n ↦ Memᴰ.tail (Memᴰ.tail n)
    ]
  ]
]

mem-insert_by :
    (v : Model) (l : TraceLocation) (ls : List TraceLocation) (m : TraceLocation)
    → Memᴰ m (l ∷ ls)
    → Memᴰ m (insert_by v l ls)
unfolding insert_by
mem-insert_by v l [] m h = h
mem-insert_by v l (k ∷ ks) m h = elim (Bool-cases (ltb (v k.name) (v l.name))) [
  | inr stop ↦ rw stop h
  | inl go ↦ rw go (elim (Memᴰ.cases_cons h) [
    | inl e ↦ Memᴰ.tail (mem-insert_by v l ks m (Memᴰ.head e))
    | inr later ↦ elim (Memᴰ.cases_cons later) [
      | inl e ↦ Memᴰ.head e
      | inr n ↦ Memᴰ.tail (mem-insert_by v l ks m (Memᴰ.tail n))
    ]
  ])
]

All-insert_by {κ} :
    (P : TraceLocation → Type κ) (v : Model) (l : TraceLocation) (ls : List TraceLocation)
    → P l
    → All P ls
    → All P (insert_by v l ls)
unfolding insert_by
All-insert_by P v l [] p h = (p, tt)
All-insert_by P v l (k ∷ ks) p h = elim (Bool-cases (ltb (v k.name) (v l.name))) [
  | inr stop ↦ rw stop (p, h)
  | inl go ↦ rw go (h.0, All-insert_by P v l ks p h.1)
]

pub sort_by_mem :
    (v : Model) (ls : List TraceLocation) (m : TraceLocation) → Memᴰ m (sort_by v ls) → Memᴰ m ls
unfolding sort_by
sort_by_mem v [] m h = h
sort_by_mem v (l ∷ ls) m h = elim (Memᴰ.cases_cons (insert_by_mem v l (sort_by v ls) m h)) [
  | inl e ↦ Memᴰ.head e
  | inr n ↦ Memᴰ.tail (sort_by_mem v ls m n)
]

pub mem-sort_by :
    (v : Model) (ls : List TraceLocation) (m : TraceLocation) → Memᴰ m ls → Memᴰ m (sort_by v ls)
unfolding sort_by
mem-sort_by v [] m h = h
mem-sort_by v (l ∷ ls) m (Memᴰ.head e) = mem-insert_by v l (sort_by v ls) m (Memᴰ.head e)
mem-sort_by v (l ∷ ls) m (Memᴰ.tail n) =
    mem-insert_by v l (sort_by v ls) m (Memᴰ.tail (mem-sort_by v ls m n))

-- Every location of the list has another number.
abbrev DiffersFrom : Model → TraceLocation → List TraceLocation → Type 0
DiffersFrom v l ls = All (λ m. v l.name ≢ v m.name) ls

DiffersFrom-all :
    (v : Model) (l : TraceLocation) (ls : List TraceLocation)
    → all (differs v l) ls ≡ true
    → DiffersFrom v l ls
DiffersFrom-all v l [] h = tt
DiffersFrom-all v l (m ∷ ms) h = (ground arith, DiffersFrom-all v l ms (ground arith))

All-sort_by {κ} :
    (P : TraceLocation → Type κ) (v : Model) (ls : List TraceLocation)
    → All P ls
    → All P (sort_by v ls)
unfolding sort_by
All-sort_by P v [] h = tt
All-sort_by P v (l ∷ ls) h = All-insert_by P v l (sort_by v ls) h.0 (All-sort_by P v ls h.1)

pub lt-All :
    (v : Model) (l k : TraceLocation) (ks : List TraceLocation)
    → v l.name < v k.name
    → All (λ m. v k.name < v m.name) ks
    → All (λ m. v l.name < v m.name) ks
lt-All v l k [] h p = tt
lt-All v l k (m ∷ ks) h p = (omega arith, lt-All v l k ks h p.1)

insert_by-IsSorted :
    (v : Model) (l : TraceLocation) (ls : List TraceLocation)
    → IsSorted v ls
    → DiffersFrom v l ls
    → IsSorted v (insert_by v l ls)
unfolding insert_by
insert_by-IsSorted v l [] s d = (tt, tt)
insert_by-IsSorted v l (k ∷ ks) s d = elim (Bool-cases (ltb (v k.name) (v l.name))) [
  | inl go ↦ rw go (
    All-insert_by (λ m. v k.name < v m.name) v l ks (ground arith) s.0,
    insert_by-IsSorted v l ks s.1 d.1,
  )
  | inr stop ↦ rw stop (((below stop), lt-All v l k ks (below stop) s.0), s)
]
  where
    below : ltb (v k.name) (v l.name) ≡ false → v l.name < v k.name
    below q = ground (arith, d.0)

-- Where the numbers differ, `sort_by` puts the locations in their order.
pub sort_by-IsSorted :
    (v : Model) (ls : List TraceLocation) → IsDistinct v ls → IsSorted v (sort_by v ls)
unfolding sort_by all_distinct
sort_by-IsSorted v [] h = tt
sort_by-IsSorted v (l ∷ ls) h =
    insert_by-IsSorted v l (sort_by v ls) (sort_by-IsSorted v ls (ground arith))
      (All-sort_by (λ m. v l.name ≢ v m.name) v ls (DiffersFrom-all v l ls (ground arith)))
