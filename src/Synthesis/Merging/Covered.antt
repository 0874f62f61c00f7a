-- ===== src/Synthesis/Merging/Covered.antt =====
-- Merging locks gives up no protection: what a lock covered is covered by a lock that is left.
use mathlib.Core.List.Memᴰ
use liss.Common.{
  ℕ, zero, suc, ◌≤◌, ◌≡◌, ◌⊎◌, inl, inr, refl, sym, ◌∙◌, true, false, List, [], ◌∷◌, some, arith,
  length, Bool-cases, All, Memᴰ, subst,
}
use liss.Synthesis.Constraint.{thread_of}
use liss.Synthesis.Synchronisation.{LockLocation, Lock}
use liss.Synthesis.Traces.{◌>>=◌}
use liss.Synthesis.Merging.{
  first, last, merge_overlap, Regions, regions, found, both, absorb, merge_from, merge_locks,
}

-- The two ends of a region lie in one thread.
abbrev pub IsSingle : LockLocation → Type 0
IsSingle l = thread_of l.start ≡ thread_of l.end

-- The first region lies in the thread of the second, and reaches from its start to its end at least.
abbrev pub Covers : LockLocation → LockLocation → Type 0
Covers m l =
    (thread_of m.start ≡ thread_of l.start)
    × (thread_of m.end ≡ thread_of l.end)
    × (first m ≤ first l)
    × (last l ≤ last m)

abbrev pub CoversBoth : Regions → Regions → Type 0
CoversBoth (a, b) (c, d) = Covers a c × Covers b d

abbrev pub AreSingle : Regions → Type 0
AreSingle (a, b) = IsSingle a × IsSingle b

merge_overlap-Covers :
    (a b : LockLocation)
    → IsSingle a
    → IsSingle b
    → thread_of a.start ≡ thread_of b.end
    → Covers (merge_overlap a b) a × Covers (merge_overlap a b) b × IsSingle (merge_overlap a b)
unfolding merge_overlap
merge_overlap-Covers a b h k e = (
  (ground arith, ground arith, ground arith, ground arith),
  (ground arith, ground arith, ground arith, ground arith),
  ground arith,
)

-- What is merged lies in the same threads.
both-CoversBoth :
    (r q : Regions)
    → AreSingle r
    → AreSingle q
    → found r q ≡ true
    → CoversBoth (both r q) r × CoversBoth (both r q) q × AreSingle (both r q)
unfolding found
both-CoversBoth (a, b) (c, d) (ha, hb) (hc, hd) hit =
    let (x, y, z) = merge_overlap-Covers a c ha hc (ground arith) in
    let (x', y', z') = merge_overlap-Covers b d hb hd (ground arith) in ((x, x'), (y, y'), (z, z'))

CoversBoth-trans : (r q p : Regions) → CoversBoth r q → CoversBoth q p → CoversBoth r p
CoversBoth-trans (a, b) (c, d) (e, f) (x, y) (z, w) = (
  (omega arith, omega arith, omega arith, omega arith),
  (omega arith, omega arith, omega arith, omega arith),
)

CoversBoth-refl : (r : Regions) → CoversBoth r r
CoversBoth-refl (a, b) =
    ((refl, refl, omega arith, omega arith), (refl, refl, omega arith, omega arith))

-- A lock of two locations, each within one thread.
abbrev pub HasTwo : Lock → Type 0
HasTwo l = (q : Regions) × (regions l ≡ some q) × AreSingle q

-- A lock of `out` covers the two regions of `j`.
abbrev pub IsCovered : List Lock → Lock → Type 0
IsCovered out j =
    (o : Lock) × (p : Regions) × (q : Regions) × Memᴰ o out
    × (regions o ≡ some p)
    × (regions j ≡ some q)
    × CoversBoth p q

abbrev Absorbed : Regions → List Lock → Regions → List Lock → Type 0
Absorbed r locks r' rest =
    CoversBoth r' r
    × (length rest ≤ length locks)
    × All HasTwo rest
    × ((j : Lock)
        → Memᴰ j locks
        → Memᴰ j rest ⊎ ((q : Regions) × (regions j ≡ some q) × CoversBoth r' q))

absorb_step :
    (r q : Regions) (i : Lock) (locks : List Lock)
    → regions i ≡ some q
    → (found r q ≡ true → absorb r (i ∷ locks) ≡ absorb (both r q) locks)
      × (found r q ≡ false
          → absorb r (i ∷ locks) ≡ (absorb r locks >>= λ rest. some (rest.0, i ∷ rest.1)))
unfolding absorb
absorb_step r q i locks two = (λ hit. ground arith, λ miss. ground arith)

absorb-Absorbed :
    (r : Regions) (locks : List Lock)
    → AreSingle r
    → All HasTwo locks
    → (r' : Regions) × (rest : List Lock) × (absorb r locks ≡ some (r', rest))
      × Absorbed r locks r' rest
unfolding absorb
absorb-Absorbed r [] single h =
    (r, [], refl, (CoversBoth-refl r, omega arith, tt, λ j m. absurd (Memᴰ.not-nil m)))
absorb-Absorbed r (i ∷ locks) single ((q, two, single_q), h) = elim (Bool-cases (found r q)) [
  | inl hit ↦
      let (r', rest, e, (c, len, ok, each)) =
        absorb-Absorbed (both r q) locks (both-CoversBoth r q single single_q hit).2 h in
      let (over_r, over_q, _) = both-CoversBoth r q single single_q hit in
      (
        r',
        rest,
        (absorb_step r q i locks two).0 hit ∙ e,
        (
          CoversBoth-trans r' (both r q) r c over_r,
          omega arith,
          ok,
          λ j m. elim (Memᴰ.cases_cons m) [
            | inl same ↦ inr (
              q,
              subst (λ x. regions x ≡ some q) (sym same) two,
              CoversBoth-trans r' (both r q) q c over_q,
            )
            | inr later ↦ each j later
          ],
        ),
      )
  | inr miss ↦
      let (r', rest, e, (c, len, ok, each)) = absorb-Absorbed r locks single h in
      (
        r',
        i ∷ rest,
        (absorb_step r q i locks two).1 miss ∙ rw e refl,
        (
          c,
          omega arith,
          ((q, two, single_q), ok),
          λ j m. elim (Memᴰ.cases_cons m) [
            | inl same ↦ inl (Memᴰ.head same)
            | inr later ↦ elim (each j later) [
              | inl kept ↦ inl (Memᴰ.tail kept)
              | inr taken ↦ inr taken
            ]
          ],
        ),
      )
]

merge_from-IsCovered :
    (fuel : ℕ) (locks : List Lock)
    → length locks ≤ fuel
    → All HasTwo locks
    → (out : List Lock) × (merge_from fuel locks ≡ some out)
      × ((j : Lock) → Memᴰ j locks → IsCovered out j)
unfolding merge_from
merge_from-IsCovered fuel [] len h = ([], refl, λ j m. absurd (Memᴰ.not-nil m))
merge_from-IsCovered zero (i ∷ locks) len h = absurd (ground arith)
merge_from-IsCovered (suc fuel) (i ∷ locks) len ((q, two, single), h) =
    let (r', rest, e, (c, len', ok, each)) = absorb-Absorbed q locks single h in
    let (out, e', covered) = merge_from-IsCovered fuel rest (omega arith) ok in
    let merged : Lock = record i { locations = r'.0 ∷ r'.1 ∷ [] } in
    (
      merged ∷ out,
      rw (two, merge_from, e) (rw e' refl),
      λ j m. elim (Memᴰ.cases_cons m) [
        | inl same ↦
            (merged, r', q, Memᴰ.head refl, refl, subst (λ x. regions x ≡ some q) (sym same) two, c)
        | inr later ↦ elim (each j later) [
          | inr (p, at_j, over) ↦ (merged, r', p, Memᴰ.head refl, refl, at_j, over)
          | inl kept ↦
              let (o, p, p', m', at_o, at_j, over) = covered j kept in
              (o, p, p', Memᴰ.tail m', at_o, at_j, over)
        ]
      ],
    )

-- On locks of two locations each, whose ends lie in one thread, merging breaks no assertion and ends,
-- and for every lock that was there before there is one after it whose two regions lie in the threads
-- of the regions of that lock and reach over them.
pub merge_locks-IsCovered :
    (locks : List Lock)
    → All HasTwo locks
    → (out : List Lock) × (merge_locks locks ≡ some out)
      × ((j : Lock) → Memᴰ j locks → IsCovered out j)
unfolding merge_locks
merge_locks-IsCovered locks h = merge_from-IsCovered (length locks) locks (omega arith) h
