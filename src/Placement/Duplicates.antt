-- ===== src/Placement/Duplicates.antt =====
-- `remove_duplicates` of placement/place_locks.cpp leaves one placement for each instruction.
use liss.Common.{
  ap, ◌∙◌, ==_iff, some-inj, Option-cases, get_elem?, none, ℕ, zero, suc, ◌≤◌, ◌≡◌, ◌⊎◌, inl, inr,
  refl, sym, subst, Bool, true, false, ◌&&◌, List, [], ◌∷◌, some, arith, ◌==◌, length, Bool-cases,
  Memᴰ, ==_refl, All, All-mem, All-of_mem,
}
use liss.Cfg.Graph.{AbstractCfg, State, get_state}
use liss.Placement.{SinglePlacement, LockType, PositionType, lock, unlock, before, after}
use liss.Placement.Result.{
  site, site_at, is_same, erase_same, remove_from, remove_duplicates, type_eq, position_eq,
}

-- A placement at a state that there is.
abbrev pub IsPlaced : List AbstractCfg → SinglePlacement → Type 0
IsPlaced threads p = (k : ℕ) × (site threads p.position p.location ≡ some k)

-- The place of a state, before it or after it.
abbrev pub IsPlaceOf : PositionType → State → ℕ → Type 0
IsPlaceOf before s k = s.lock_before ≡ k
IsPlaceOf after s k = s.lock_after ≡ k

-- The place of the source text that a placement is at.
abbrev pub IsSite : List AbstractCfg → SinglePlacement → ℕ → Type 0
IsSite threads p k =
    (g : AbstractCfg) × (s : State) × (get_elem? threads p.location.thread ≡ some g)
    × (get_state g p.location.state ≡ some s)
    × IsPlaceOf p.position s k

-- The test of the code.
abbrev IsSame : List AbstractCfg → SinglePlacement → SinglePlacement → Type 0
IsSame threads p q = is_same threads p q ≡ some true

-- Two placements that are one instruction of the source text: both take or both release the lock, both
-- before or both after a state, and at one place.
pub record AreOne (threads : List AbstractCfg) (p q : SinglePlacement) : Type 0 where
  pub lock_number : p.lock_number ≡ q.lock_number
  pub lock_t : p.lock_t ≡ q.lock_t
  pub position : p.position ≡ q.position
  pub place : (k : ℕ) × IsSite threads p k × IsSite threads q k

-- No placement is the same as an earlier one.
abbrev AreDistinct : List AbstractCfg → List SinglePlacement → Type 0
AreDistinct threads [] = Unit
AreDistinct threads (p ∷ ps) =
    All (λ q. is_same threads p q ≡ some false) ps × AreDistinct threads ps

position_eq-same : (p q : PositionType) → position_eq p q ≡ true → p ≡ q
position_eq-same before before e = refl
position_eq-same after after e = refl
position_eq-same before after e = cc
position_eq-same after before e = cc

type_eq_refl : (p : LockType) → type_eq p p ≡ true
type_eq_refl lock = refl
type_eq_refl unlock = refl

position_eq_refl : (p : PositionType) → position_eq p p ≡ true
position_eq_refl before = refl
position_eq_refl after = refl

is_same-some :
    (threads : List AbstractCfg) (p q : SinglePlacement)
    → IsPlaced threads p
    → IsPlaced threads q
    → (b : Bool) × (is_same threads p q ≡ some b)
unfolding is_same
is_same-some threads p q (k, e) (m, f) =
    elim (Bool-cases (
      p.lock_number == q.lock_number
      && type_eq p.lock_t q.lock_t
      && position_eq p.position q.position)) [
        | inl h ↦
            let f' : site threads p.position q.location ≡ some m =
              subst (λ x. site threads x q.location ≡ some m)
                (sym (position_eq-same p.position q.position (ground arith))) f in
            (k == m, rw (h, e, f') refl)
        | inr h ↦ (false, rw h refl)
      ]

IsSame-refl :
    (threads : List AbstractCfg) (p : SinglePlacement) → IsPlaced threads p → IsSame threads p p
unfolding is_same
IsSame-refl threads p (k, e) =
    rw (type_eq_refl p.lock_t, position_eq_refl p.position, e, ==_refl p.lock_number, ==_refl k)
      refl

-- The list without what is the same as `p`.
record IsErased (threads : List AbstractCfg) (p : SinglePlacement) (ps qs : List SinglePlacement)
    : Type 0 where
  result : erase_same threads p ps ≡ some qs
  shorter : length qs ≤ length ps
  part : (q : SinglePlacement) → Memᴰ q qs → Memᴰ q ps
  others : All (λ q. is_same threads p q ≡ some false) qs
  rest : (q : SinglePlacement) → Memᴰ q ps → IsSame threads p q ⊎ Memᴰ q qs

erase_same-IsErased :
    (threads : List AbstractCfg) (p : SinglePlacement) (ps : List SinglePlacement)
    → IsPlaced threads p
    → All (IsPlaced threads) ps
    → (qs : List SinglePlacement) × IsErased threads p ps qs
unfolding erase_same
erase_same-IsErased threads p [] here all_here = (
  [],
  record {
    result = refl;
    shorter = omega arith;
    part = λ q m. m;
    others = tt;
    rest = λ q m. inr m;
  },
)
erase_same-IsErased threads p (q ∷ ps) here (q_here, all_here) =
    let (b, e) = is_same-some threads p q here q_here in
    let (qs, er) = erase_same-IsErased threads p ps here all_here in add b e qs er
  where
    add :
        (b : Bool)
        → is_same threads p q ≡ some b
        → (qs : List SinglePlacement) → IsErased threads p ps qs
        → (qs' : List SinglePlacement) × IsErased threads p (q ∷ ps) qs'
    add true e qs er = (
      qs,
      record {
        result = rw (e, er.result) refl;
        shorter = omega (arith, er.shorter);
        part = λ r m. Memᴰ.tail (er.part r m);
        others = er.others;
        rest = λ r m. from_either r m;
      },
    )
      where
        from_either : (r : SinglePlacement) → Memᴰ r (q ∷ ps) → IsSame threads p r ⊎ Memᴰ r qs
        from_either r (Memᴰ.head k) = inl (subst (λ x. IsSame threads p x) (sym k) e)
        from_either r (Memᴰ.tail m) = er.rest r m
    add false e qs er = (
      q ∷ qs,
      record {
        result = rw (e, er.result) refl;
        shorter = omega (arith, er.shorter);
        part = λ r m. inside r m;
        others = (e, er.others);
        rest = λ r m. from_either r m;
      },
    )
      where
        inside : (r : SinglePlacement) → Memᴰ r (q ∷ qs) → Memᴰ r (q ∷ ps)
        inside r (Memᴰ.head k) = Memᴰ.head k
        inside r (Memᴰ.tail m) = Memᴰ.tail (er.part r m)

        from_either : (r : SinglePlacement) → Memᴰ r (q ∷ ps) → IsSame threads p r ⊎ Memᴰ r (q ∷ qs)
        from_either r (Memᴰ.head k) = inr (Memᴰ.head k)
        from_either r (Memᴰ.tail m) = elim (er.rest r m) [
          | inl s ↦ inl s
          | inr m' ↦ inr (Memᴰ.tail m')
        ]

-- One placement of each instruction that `ps` has, by the test of the code.
record IsTested (threads : List AbstractCfg) (ps qs : List SinglePlacement) : Type 0 where
  part : (q : SinglePlacement) → Memᴰ q qs → Memᴰ q ps
  distinct : AreDistinct threads qs
  represented :
      (p : SinglePlacement) → Memᴰ p ps → (q : SinglePlacement) × Memᴰ q qs × IsSame threads q p

remove_from-IsTested :
    (threads : List AbstractCfg) (fuel : ℕ) (ps : List SinglePlacement)
    → length ps ≤ fuel
    → All (IsPlaced threads) ps
    → (qs : List SinglePlacement) × ((remove_from threads fuel ps ≡ some qs)
        × IsTested threads ps qs)
unfolding remove_from
remove_from-IsTested threads fuel [] enough here =
    ([], (refl, record { part = λ q m. m; distinct = tt; represented = λ p m. elim m [ ] }))
remove_from-IsTested threads zero (p ∷ ps) enough here = absurd (omega arith)
remove_from-IsTested threads (suc fuel) (p ∷ ps) enough (p_here, here) =
    let (rest, er) = erase_same-IsErased threads p ps p_here here in
    let (qs, (e, red)) = remove_from-IsTested threads fuel rest (omega (arith, er.shorter)) (
      All-of_mem (IsPlaced threads) rest
        (λ q m. All-mem (IsPlaced threads) ps q here (er.part q m))) in
    (p ∷ qs, (rw (er.result, e) refl, with_first rest er qs red))
  where
    with_first :
        (rest : List SinglePlacement)
        → IsErased threads p ps rest
        → (qs : List SinglePlacement) → IsTested threads rest qs
        → IsTested threads (p ∷ ps) (p ∷ qs)
    with_first rest er qs red = record {
      part = λ q m. inside q m;
      distinct = (
        All-of_mem (λ q. is_same threads p q ≡ some false) qs
            (λ q m.
              All-mem (λ q. is_same threads p q ≡ some false) rest q er.others (red.part q m)),
        red.distinct,
      );
      represented = λ q m. stands q m;
    }
      where
        inside : (q : SinglePlacement) → Memᴰ q (p ∷ qs) → Memᴰ q (p ∷ ps)
        inside q (Memᴰ.head k) = Memᴰ.head k
        inside q (Memᴰ.tail m) = Memᴰ.tail (er.part q (red.part q m))

        stands :
            (q : SinglePlacement)
            → Memᴰ q (p ∷ ps)
            → (r : SinglePlacement) × Memᴰ r (p ∷ qs) × IsSame threads r q
        stands q (Memᴰ.head k) =
            (p, Memᴰ.head refl, subst (IsSame threads p) (sym k) (IsSame-refl threads p p_here))
        stands q (Memᴰ.tail m) = elim (er.rest q m) [
          | inl same ↦ (p, Memᴰ.head refl, same)
          | inr m' ↦ let (r, k, same) = red.represented q m' in (r, Memᴰ.tail k, same)
        ]

type_eq-same : (a b : LockType) → type_eq a b ≡ true → a ≡ b
type_eq-same lock lock e = refl
type_eq-same unlock unlock e = refl
type_eq-same lock unlock e = cc
type_eq-same unlock lock e = cc

site-IsSite :
    (threads : List AbstractCfg) (p : SinglePlacement) (k : ℕ)
    → site threads p.position p.location ≡ some k
    → IsSite threads p k
unfolding site
site-IsSite threads p k e = elim (Option-cases (get_elem? threads p.location.thread)) [
  | inl q ↦ absurd (nothing (rw q at e))
  | inr (g, q) ↦ elim (Option-cases (get_state g p.location.state)) [
    | inl q' ↦ absurd (nothing (rw (q, q') at e))
    | inr (st, q') ↦ (g, st, q, q', at_position st p.position (some-inj (rw (q, q') at e)))
  ]
]
  where
    nothing : none ≡ some k → ⊥
    nothing h = cc

    at_position : (st : State) (x : PositionType) → site_at x st ≡ k → IsPlaceOf x st k
    at_position st before h = h
    at_position st after h = h

pub IsSite-site :
    (threads : List AbstractCfg) (p : SinglePlacement) (k : ℕ)
    → IsSite threads p k
    → site threads p.position p.location ≡ some k
unfolding site
IsSite-site threads p k (g, st, q, q', h) = rw (q, q') (ap some (at_position p.position h))
  where
    at_position : (x : PositionType) → IsPlaceOf x st k → site_at x st ≡ k
    at_position before h1 = h1
    at_position after h1 = h1

IsSame-AreOne :
    (threads : List AbstractCfg) (p q : SinglePlacement)
    → IsPlaced threads p
    → IsPlaced threads q
    → IsSame threads p q
    → AreOne threads p q
unfolding is_same
IsSame-AreOne threads p q (j, at_p) (m, at_q) same =
    elim (Bool-cases (
      p.lock_number == q.lock_number
      && type_eq p.lock_t q.lock_t
      && position_eq p.position q.position)) [
        | inl h ↦
            let e : p.position ≡ q.position =
              position_eq-same p.position q.position (ground arith) in
            let at_q' : site threads p.position q.location ≡ some m =
              subst (λ x. site threads x q.location ≡ some m) (sym e) at_q in
            let alike : (j == m) ≡ true = some-inj (rw (h, at_p, at_q') at same) in
            record {
              lock_number = (==_iff p.lock_number q.lock_number).0 (ground arith);
              lock_t = type_eq-same p.lock_t q.lock_t (ground arith);
              position = e;
              place = (
                m,
                site-IsSite threads p m (
                    subst (λ (i : ℕ). site threads p.position p.location ≡ some i)
                      ((==_iff j m).0 alike) at_p),
                site-IsSite threads q m at_q,
              );
            }
        | inr h ↦ absurd (false_not_true (some-inj (rw h at same)))
      ]
  where
    false_not_true : ◌≡◌ {A = Bool} false true → ⊥
    false_not_true e = cc

AreOne-is_same :
    (threads : List AbstractCfg) (p q : SinglePlacement)
    → AreOne threads p q
    → is_same threads p q ≡ some true
unfolding is_same
AreOne-is_same threads p q one =
    let (k, at_p, at_q) = one.place in
    let at_q' : site threads p.position q.location ≡ some k =
      subst (λ x. site threads x q.location ≡ some k) (sym one.position)
        (IsSite-site threads q k at_q) in
    let same_type : type_eq p.lock_t q.lock_t ≡ true =
      subst (λ x. type_eq p.lock_t x ≡ true) one.lock_t (type_eq_refl p.lock_t) in
    let same_position : position_eq p.position q.position ≡ true =
      subst (λ x. position_eq p.position x ≡ true) one.position (position_eq_refl p.position) in
    rw
      (
        (==_iff p.lock_number q.lock_number).1 one.lock_number,
        same_type,
        same_position,
        IsSite-site threads p k at_p,
        at_q',
        ==_refl k,
      )
      refl

-- No two of the placements are one instruction.
abbrev pub AreApart : List AbstractCfg → List SinglePlacement → Type 0
AreApart threads [] = Unit
AreApart threads (p ∷ ps) =
    ((q : SinglePlacement) → Memᴰ q ps → ¬ AreOne threads p q) × AreApart threads ps

AreDistinct-AreApart :
    (threads : List AbstractCfg) (ps : List SinglePlacement)
    → AreDistinct threads ps
    → AreApart threads ps
AreDistinct-AreApart threads [] h = tt
AreDistinct-AreApart threads (p ∷ ps) (h, hs) = (
  λ q m one.
      let no = All-mem (λ q. is_same threads p q ≡ some false) ps q h m in
      let yes = AreOne-is_same threads p q one in false_not_true (some-inj (sym no ∙ yes)),
  AreDistinct-AreApart threads ps hs,
)
  where
    false_not_true : ◌≡◌ {A = Bool} false true → ⊥
    false_not_true e = cc

-- One placement of each instruction that `ps` has, and no other.
pub record IsReduced (threads : List AbstractCfg) (ps qs : List SinglePlacement) : Type 0 where
  pub part : (q : SinglePlacement) → Memᴰ q qs → Memᴰ q ps
  pub distinct : AreApart threads qs
  pub represented :
      (p : SinglePlacement) → Memᴰ p ps → (q : SinglePlacement) × Memᴰ q qs × AreOne threads q p

-- For placements at states that there are, `remove_duplicates` fails no access and ends. It leaves
-- some of the placements, no two of which are one instruction of the source text, and for each
-- placement one that is the same instruction: it handles the same lock, both take it or both release
-- it, both before or both after a state, and the two states have the same place there.
pub remove_duplicates-IsReduced :
    (threads : List AbstractCfg) (ps : List SinglePlacement)
    → All (IsPlaced threads) ps
    → (qs : List SinglePlacement) × ((remove_duplicates threads ps ≡ some qs)
        × IsReduced threads ps qs)
unfolding remove_duplicates
remove_duplicates-IsReduced threads ps here =
    let (qs, (e, red)) = remove_from-IsTested threads (length ps) ps (omega arith) here in
    (
      qs,
      (
        e,
        record {
          part = red.part;
          distinct = AreDistinct-AreApart threads qs red.distinct;
          represented = λ p m.
              let (q, k, same) = red.represented p m in
              (
                q,
                k,
                IsSame-AreOne threads q p (All-mem (IsPlaced threads) ps q here (red.part q k))
                    (All-mem (IsPlaced threads) ps p here m) same,
              );
        },
      ),
    )
